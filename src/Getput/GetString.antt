-- ===== src/Getput/GetString.antt =====
-- Reading length-prefixed strings.
use libopenssh.Base.{
  ℕ, ◌+◌, ◌≤◌, ◌<◌, ◌^◌, ◌≡◌, ◌⊎◌, inl, inr, refl, ap, sym, subst, ◌∙◌, Bool, true, false, arith,
  length, take, drop, Bytes, ◌∷◌, [], length-drop, length-append, take-append_le, ◌++◌, some,
  drop-append_le,
}
use libopenssh.Err.{Result, ok, err, fault, message_incomplete, alloc_fail}
use libopenssh.Libc.{size_t}
use libopenssh.Sshbuf.{Sshbuf, ptr}
use libopenssh.Sshbuf.Sanity.{WellFormed}
use libopenssh.Sshbuf.Content.{content, len-content, ptr-content, advance, consume_ok}
use libopenssh.Getput.{
  u32_of, after_length, peek_string_direct, finish_string, get_string_direct, copy_out, get_string,
}
use libopenssh.Getput.Codec.{u32_of-lt}
use libopenssh.Getput.Get.{Takes, advance-Takes}

-- A complete string stands at the front of the queue: its length field says `n`.
abbrev pub HasString : ℕ → Sshbuf → Type 0
HasString n b = (4 ≤ length (content b)) × (u32_of (content b) ≡ n) × (n + 4 ≤ length (content b))

pub u32_of-append : (xs ys : Bytes) → 4 ≤ length xs → u32_of (xs ++ ys) ≡ u32_of xs
unfolding u32_of
u32_of-append (a ∷ b ∷ c ∷ d ∷ xs) ys h = refl
u32_of-append [] ys h = absurd (omega arith)
u32_of-append (_ ∷ []) ys h = absurd (omega arith)
u32_of-append (_ ∷ _ ∷ []) ys h = absurd (omega arith)
u32_of-append (_ ∷ _ ∷ _ ∷ []) ys h = absurd (omega arith)

after_length_ok :
    (total n : ℕ) (p : Bytes)
    → 4 ≤ total
    → u32_of p ≡ n
    → n + 4 ≤ total
    → after_length total p ≡ ok (drop 4 p, n)
after_length_ok total n p h e k = ground arith

after_length_short :
    (total : ℕ) (p : Bytes)
    → (total < 4) ⊎ (total < u32_of p + 4)
    → after_length total p ≡ err message_incomplete
after_length_short total p h = ground arith

-- The length field is incomplete, or the bytes behind it are.
abbrev pub Incomplete : Sshbuf → Type 0
Incomplete b =
    (length (content b) < 4)
    ⊎ ((4 ≤ length (content b)) × (length (content b) < u32_of (content b) + 4))

module _ (b : Sshbuf) (w : WellFormed b) where
  peek_string_direct_lem :
      (rest : Bytes)
      → ptr b ≡ some (content b ++ rest)
      → peek_string_direct b ≡ after_length (length (content b)) (content b ++ rest)
  unfolding peek_string_direct
  peek_string_direct_lem rest e = rw (e, peek_string_direct) (rw (len-content b w))

  -- A complete string is seen: the pointer leads to its bytes.
  pub peek_complete :
      (n : ℕ)
      → HasString n b
      → (p : Bytes) × (peek_string_direct b ≡ ok (p, n))
        × (take n p ≡ take n (drop 4 (content b)))
        × (n ≤ length p)
  peek_complete n (four, is, all) =
      let (rest, e) = ptr-content b w in
      let same = u32_of-append (content b) rest four ∙ is in
      let cut = drop-append_le 4 (content b) rest four in
      (
        drop 4 (content b ++ rest),
        peek_string_direct_lem rest e
            ∙ after_length_ok (length (content b)) n (content b ++ rest) four same all,
        ap (take n) cut
            ∙ take-append_le n (drop 4 (content b)) rest (omega (arith, length-drop 4 (content b))),
        omega (arith, length-drop 4 (content b ++ rest), length-append (content b) rest),
      )

  -- No complete string is seen otherwise.
  pub peek-Incomplete : Incomplete b → peek_string_direct b ≡ err message_incomplete
  peek-Incomplete (inl few) =
      let (rest, e) = ptr-content b w in
      peek_string_direct_lem rest e ∙ after_length_short (length (content b)) _ (inl few)
  peek-Incomplete (inr (four, few)) =
      let (rest, e) = ptr-content b w in
      let same = u32_of-append (content b) rest four in
      peek_string_direct_lem rest e
      ∙ after_length_short (length (content b)) (content b ++ rest) (inr (omega (arith, same)))

  pub finish_ok :
      (n : ℕ) (p : Bytes)
      → n < 2 ^ 32
      → n + 4 ≤ length (content b)
      → finish_string (p, n) b ≡ (advance (n + 4) b, ok (p, n))
  unfolding finish_string
  finish_ok n p lt h =
      let e : size_t (n + 4) ≡ n + 4 = omega arith in rw (e, consume_ok b (n + 4) w h)

-- The string at the front of the queue, without its length field.
abbrev pub front_string : ℕ → Sshbuf → Bytes
front_string n b = take n (drop 4 (content b))

-- What `sshbuf_get_string` leaves and returns: the bytes with a NUL behind them, and their number.
abbrev pub StringGot : Bool → Sshbuf → Sshbuf × Result (Bytes × ℕ) → Type 0
StringGot copy_ok b (c, ok (v, n)) =
    HasString n b
    × Takes b (take (n + 4) (content b)) c
    × (v ≡ front_string n b ++ (0 ∷ []))
    × (copy_ok ≡ true)
StringGot copy_ok b (c, err message_incomplete) = Incomplete b × (c ≡ b)
StringGot copy_ok b (c, err alloc_fail) =
    (copy_ok ≡ false) × ((n : ℕ) × HasString n b × Takes b (take (n + 4) (content b)) c)
StringGot copy_ok b (c, err _) = ⊥
StringGot copy_ok b (c, fault) = ⊥

pub copy_out_ok :
    (p : Bytes) (n : ℕ) → n ≤ length p → copy_out true (p, n) ≡ ok (take n p ++ (0 ∷ []), n)
unfolding copy_out
copy_out_ok p n h = ground arith

module _ (b : Sshbuf) (w : WellFormed b) (n : ℕ) (h : HasString n b) where
  pub get_string_direct_ok :
      (p : Bytes)
      → peek_string_direct b ≡ ok (p, n)
      → get_string_direct b ≡ (advance (n + 4) b, ok (p, n))
  unfolding get_string_direct
  get_string_direct_ok p e =
      let lt : n < 2 ^ 32 = omega (arith, u32_of-lt (content b), h.1) in
      rw e (finish_ok b w n p lt h.2)

  pub get_string_ok : get_string true b ≡ (advance (n + 4) b, ok (front_string n b ++ (0 ∷ []), n))
  unfolding get_string
  get_string_ok =
      let (p, seen, is, long) = peek_complete b w n h in
      rw (get_string_direct_ok p seen, copy_out_ok p n long)
        (ap (λ (v : Bytes). (advance (n + 4) b, ok (v ++ (0 ∷ []), n))) is)

  get_string_complete : (copy_ok : Bool) → StringGot copy_ok b (get_string copy_ok b)
  unfolding get_string copy_out
  get_string_complete true =
      subst (StringGot true b) (sym get_string_ok) (h, advance-Takes b (n + 4) w h.2, refl, refl)
  get_string_complete false =
      let (p, seen, is, long) = peek_complete b w n h in
      rw (get_string_direct_ok p seen) (refl, (n, h, advance-Takes b (n + 4) w h.2))

pub front_cases : (b : Sshbuf) → HasString (u32_of (content b)) b ⊎ Incomplete b
front_cases b = ground arith

-- `sshbuf_get_string` on a well-formed buffer takes one complete length-prefixed string off the
-- queue and returns its bytes. With an incomplete string it changes nothing. If the copy cannot be
-- allocated the string has been taken off all the same.
pub get_string-StringGot :
    (copy_ok : Bool) (b : Sshbuf) → WellFormed b → StringGot copy_ok b (get_string copy_ok b)
unfolding get_string get_string_direct
get_string-StringGot copy_ok b w = elim (front_cases b) [
  | inl has ↦ get_string_complete b w (u32_of (content b)) has copy_ok
  | inr not_all ↦ rw (peek-Incomplete b w not_all) (not_all, refl)
]
