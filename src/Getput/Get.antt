-- ===== src/Getput/Get.antt =====
-- Reading: every reader of a fixed size takes exactly its bytes from the front of the queue.
use libopenssh.Base.{
  ℕ, ◌≤◌, ◌<◌, ◌≡◌, inl, inr, refl, ap, sym, subst, ◌∙◌, true, arith, Bool-cases, length, take, ltb,
  leb, Bytes, length-append, take-append_le, take-append-drop, ◌++◌, some,
}
use libopenssh.Err.{Result, ok, err, fault, message_incomplete}
use libopenssh.Libc.{read}
use libopenssh.Sshbuf.{Sshbuf}
use libopenssh.Sshbuf.Sanity.{WellFormed}
use libopenssh.Sshbuf.Content.{
  content, ptr-content, advance, advance-WellFormed, content-advance, consume_ok, consume_short,
}
use libopenssh.Getput.{
  decoded, peek, get_fixed, get, get_u64, get_u32, get_u16, get_u8, u64_of, u32_of, u16_of, byte_at,
}

read-append : (n : ℕ) (xs ys : Bytes) → n ≤ length xs → read (some (xs ++ ys)) n ≡ ok (take n xs)
read-append n xs ys h =
    let room : leb n (length (xs ++ ys)) ≡ true = ground (arith, length-append xs ys) in
    rw room (ap ok (take-append_le n xs ys h))

peek-append {ℓ} :
    {A : Type ℓ} (f : Bytes → A) (n : ℕ) (xs ys : Bytes)
    → n ≤ length xs
    → peek f (some (xs ++ ys)) n ≡ ok (f (take n xs))
peek-append f n xs ys h = ap (decoded f) (read-append n xs ys h)

-- `v` is taken from the front of the queue, and nothing else of the abstract state changes.
pub record Takes (b : Sshbuf) (v : Bytes) (c : Sshbuf) : Type 0 where
  pub well_formed : WellFormed c
  pub taken : content b ≡ v ++ content c
  pub max_size_kept : c.max_size ≡ b.max_size
  pub readonly_kept : c.readonly ≡ b.readonly
  pub refcount_kept : c.refcount ≡ b.refcount
  pub parent_kept : c.parent ≡ b.parent

pub advance-Takes :
    (b : Sshbuf) (n : ℕ)
    → WellFormed b
    → n ≤ length (content b)
    → Takes b (take n (content b)) (advance n b)
advance-Takes b n w h = record {
  well_formed = advance-WellFormed b n w h;
  taken =
      sym (take-append-drop n (content b))
      ∙ ap (λ (r : Bytes). take n (content b) ++ r) (sym (content-advance b n w h));
  max_size_kept = refl;
  readonly_kept = refl;
  refcount_kept = refl;
  parent_kept = refl;
}

pub get_fixed_ok :
    {A : Type 0} (f : Bytes → A) (n : ℕ) (b : Sshbuf)
    → WellFormed b
    → n ≤ length (content b)
    → get_fixed f n b ≡ (advance n b, ok (f (take n (content b))))
unfolding get_fixed
get_fixed_ok f n b w h =
    let (rest, e) = ptr-content b w in
    rw (consume_ok b n w h, e) (ap (λ r. (advance n b, r)) (peek-append f n (content b) rest h))

pub get_fixed_short :
    {A : Type 0} (f : Bytes → A) (n : ℕ) (b : Sshbuf)
    → WellFormed b
    → length (content b) < n
    → get_fixed f n b ≡ (b, err message_incomplete)
unfolding get_fixed
get_fixed_short f n b w h = rw (consume_short b n w h)

-- A reader of `n` bytes with the decoder `f` takes the first `n` bytes of the queue and decodes
-- them, or leaves the buffer as it is if there are fewer.
abbrev pub Got : {A : Type 0} → (Bytes → A) → ℕ → Sshbuf → Sshbuf × Result A → Type 0
Got f n b (c, ok a) =
    (n ≤ length (content b)) × Takes b (take n (content b)) c × (a ≡ f (take n (content b)))
Got f n b (c, err e) = (length (content b) < n) × (c ≡ b) × (e ≡ message_incomplete)
Got f n b (c, fault) = ⊥

pub get_fixed-Got :
    {A : Type 0} (f : Bytes → A) (n : ℕ) (b : Sshbuf) → WellFormed b → Got f n b (get_fixed f n b)
get_fixed-Got f n b w = elim (Bool-cases (ltb (length (content b)) n)) [
  | inl few ↦
      subst (Got f n b) (sym (get_fixed_short f n b w (ground arith))) (ground arith, refl, refl)
  | inr all ↦
      let h : n ≤ length (content b) = ground arith in
      subst (Got f n b) (sym (get_fixed_ok f n b w h)) (h, advance-Takes b n w h, refl)
]

-- `sshbuf_get` on a well-formed buffer returns the first `n` bytes of the queue and takes them off
-- it; with fewer bytes it reports an incomplete message and changes nothing.
pub get-Got : (n : ℕ) (b : Sshbuf) → WellFormed b → Got (λ v. v) n b (get n b)
unfolding get
get-Got n b w = get_fixed-Got (λ v. v) n b w

pub get_u64-Got : (b : Sshbuf) → WellFormed b → Got u64_of 8 b (get_u64 b)
unfolding get_u64
get_u64-Got b w = get_fixed-Got u64_of 8 b w

-- `sshbuf_get_u32` on a well-formed buffer decodes the first four bytes of the queue and takes them
-- off it; with fewer it reports an incomplete message and changes nothing.
pub get_u32-Got : (b : Sshbuf) → WellFormed b → Got u32_of 4 b (get_u32 b)
unfolding get_u32
get_u32-Got b w = get_fixed-Got u32_of 4 b w

pub get_u16-Got : (b : Sshbuf) → WellFormed b → Got u16_of 2 b (get_u16 b)
unfolding get_u16
get_u16-Got b w = get_fixed-Got u16_of 2 b w

pub get_u8-Got : (b : Sshbuf) → WellFormed b → Got (λ v. byte_at v 0) 1 b (get_u8 b)
unfolding get_u8
get_u8-Got b w = get_fixed-Got (λ v. byte_at v 0) 1 b w
