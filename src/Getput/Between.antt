-- ===== src/Getput/Between.antt =====
-- `sshbuf_get_stringb`: a string from the front of one buffer to the end of another.
use libopenssh.Base.{
  ℕ, ◌+◌, ◌≡◌, ◌⊎◌, inl, inr, refl, ap, sym, subst, ◌∙◌, Bool-cases, arith, Bytes, length, take,
  drop, leb, length-take, length-drop, take-append-drop,
}
use libopenssh.Err.{and_then, Result, ok, err, fault, message_incomplete}
use libopenssh.Libc.{Allocator}
use libopenssh.Sshbuf.{Sshbuf, reserve}
use libopenssh.Sshbuf.Sanity.{WellFormed}
use libopenssh.Sshbuf.Reserve.{reserve-Reserved, Refused}
use libopenssh.Sshbuf.Keeps.{Keeps}
use libopenssh.Sshbuf.Content.{content, advance, advance-WellFormed, content-advance}
use libopenssh.Getput.{peek_string_direct, get_u32, get, store, u32_of}
use libopenssh.Getput.Get.{Takes, advance-Takes, get_fixed_ok}
use libopenssh.Getput.Put.{Written, store-Written, Appends}
use libopenssh.Getput.GetString.{
  HasString, Incomplete, front_string, front_cases, peek_complete, peek-Incomplete, u32_of-append,
}

-- What is left of the two buffers, and the result.
abbrev pub Both : Type 0
Both = (Sshbuf × Sshbuf) × Result (Unit {0})

abbrev pub with_source : Sshbuf → Sshbuf × Result (Unit {0}) → Both
with_source b (v, r) = ((b, v), r)

-- sshbuf_get(buf, p, len), where `p` leads to the offset `d` of the block of `v`.
unfoldable pub copy_into : ℕ → Sshbuf → Sshbuf × Result Bytes → Both
copy_into d v (b, ok s) = with_source b (store d s v)
copy_into d v (b, err e) = ((b, v), err e)
copy_into d v (b, fault) = ((b, v), fault)

unfoldable pub into_reserved : ℕ → Sshbuf → Sshbuf × Result ℕ → Both
into_reserved n b (v, ok d) = copy_into d v (get n b)
into_reserved n b (v, err e) = ((b, v), err e)
into_reserved n b (v, fault) = ((b, v), fault)

unfoldable pub into_sized : Allocator → Sshbuf → Sshbuf × Result ℕ → Both
into_sized m v (b, ok n) = into_reserved n b (reserve m n v)
into_sized m v (b, err e) = ((b, v), err e)
into_sized m v (b, fault) = ((b, v), fault)

-- `sshbuf_get_stringb` on two different buffers.
unfoldable pub get_stringb : Allocator → Sshbuf → Sshbuf → Both
get_stringb m b v = elim (peek_string_direct b) [
  | ok _ ↦ into_sized m v (get_u32 b)
  | err e ↦ ((b, v), err e)
  | fault ↦ ((b, v), fault)
]

-- The string of `b` is appended to `v` and taken off `b`; or nothing changes, as it is incomplete; or no
-- space is set aside in `v`, which keeps its queue, and `b` has lost the length field.
abbrev pub Moved : Allocator → Sshbuf → Sshbuf → Both → Type 0
Moved m b v ((c, d), ok _) =
    (n : ℕ) × HasString n b × Takes b (take (n + 4) (content b)) c × Appends v (front_string n b) d
Moved m b v ((c, d), err e) =
    (Incomplete b × (c ≡ b) × (d ≡ v) × (e ≡ message_incomplete))
    ⊎ ((n : ℕ) × HasString n b × (c ≡ advance 4 b) × Keeps v d × Refused m v n e)
Moved m b v ((c, d), fault) = ⊥

module _ (m : Allocator) (b v : Sshbuf) (w : WellFormed b) (n : ℕ) (h : HasString n b) where
  length-string : length (front_string n b) ≡ n
  length-string = omega (arith, length-take n (drop 4 (content b)), length-drop 4 (content b), h.2)

  get-string : get n (advance 4 b) ≡ (advance n (advance 4 b), ok (front_string n b))
  unfolding get
  get-string =
      get_fixed_ok (λ s. s) n (advance 4 b) (advance-WellFormed b 4 w h.0)
        (omega (arith, h.2, length-drop 4 (content b), ap length (content-advance b 4 w h.0)))
      ∙ ap (λ (s : Bytes). (advance n (advance 4 b), ok (take n s))) (content-advance b 4 w h.0)

  twice : advance n (advance 4 b) ≡ advance (n + 4) b
  twice = ap (λ (k : ℕ). record b { off = k }) (omega arith)

  into_reserved-Moved :
      (out : Sshbuf × Result ℕ)
      → Written m v (front_string n b) (and_then out (λ p. store p (front_string n b)))
      → Moved m b v (into_reserved n (advance 4 b) out)
  unfolding into_reserved copy_into store
  into_reserved-Moved (d, ok p) h' =
      elim (Bool-cases (leb (p + length (front_string n b)) (length d.mem))) [
        | inl e ↦
            rw (get-string, e)
              (
                n,
                h,
                subst (Takes b (take (n + 4) (content b))) (sym twice)
                    (advance-Takes b (n + 4) w h.2),
                (rw e at h').0,
              )
        | inr e ↦ absurd (rw e at h')
      ]
  into_reserved-Moved (d, err e) (keeps, why) =
      inr (n, h, refl, keeps, subst (λ (k : ℕ). Refused m v k e) length-string why)
  into_reserved-Moved (d, fault) h' = h'

  get-length : get_u32 b ≡ (advance 4 b, ok n)
  unfolding get_u32
  get-length =
      let front =
        u32_of-append (take 4 (content b)) (drop 4 (content b))
          (omega (arith, length-take 4 (content b), h.0)) in
      let all : u32_of (take 4 (content b)) ≡ n =
        sym front ∙ ap u32_of (take-append-drop 4 (content b)) ∙ h.1 in
      get_fixed_ok u32_of 4 b w h.0 ∙ ap (λ (k : ℕ). (advance 4 b, ok k)) all

  set_aside-Written :
      WellFormed v
      → Written m v (front_string n b) (and_then (reserve m n v) (λ p. store p (front_string n b)))
  set_aside-Written wv =
      store-Written m v (front_string n b) (reserve m n v)
        (rw length-string (reserve-Reserved m v n wv))

  get_stringb_steps : get_stringb m b v ≡ into_reserved n (advance 4 b) (reserve m n v)
  unfolding get_stringb into_sized
  get_stringb_steps =
      let (p, seen, is, long) = peek_complete b w n h in rw (seen, get-length, get_stringb) refl

  get_stringb_complete : WellFormed v → Moved m b v (get_stringb m b v)
  get_stringb_complete wv =
      subst (Moved m b v) (sym get_stringb_steps)
        (into_reserved-Moved (reserve m n v) (set_aside-Written wv))

get_stringb-Incomplete :
    (m : Allocator) (b v : Sshbuf)
    → WellFormed b
    → Incomplete b
    → get_stringb m b v ≡ ((b, v), err message_incomplete)
unfolding get_stringb
get_stringb-Incomplete m b v w not_all = rw (peek-Incomplete b w not_all, get_stringb) refl

-- On two well-formed buffers sshbuf_get_stringb appends the string at the front of the first to the
-- second, and takes it off the first. With an incomplete string it changes nothing and reports that.
-- If no space is set aside in the second it returns the error of the condition that failed and keeps
-- the queue of the second, but the first has lost the length field of its string.
pub get_stringb-Moved :
    (m : Allocator) (b v : Sshbuf) → WellFormed b → WellFormed v → Moved m b v (get_stringb m b v)
get_stringb-Moved m b v w wv = elim (front_cases b) [
  | inl has ↦ get_stringb_complete m b v w (u32_of (content b)) has wv
  | inr not_all ↦
      subst (Moved m b v) (sym (get_stringb-Incomplete m b v w not_all))
        (inl (not_all, refl, refl, refl))
]
