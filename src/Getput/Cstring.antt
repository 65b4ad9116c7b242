-- ===== src/Getput/Cstring.antt =====
-- Reading C strings: a length-prefixed string without a NUL comes out as it went in.
use libopenssh.Base.{
  ℕ, zero, suc, ◌+◌, ◌≤◌, ◌<◌, ◌^◌, ◌≡◌, refl, ap, ◌∙◌, true, false, arith, length, drop, Bytes,
  ◌∷◌, [], length-append, append_assoc, ◌++◌, take-append_length, drop-append_length, ◌==◌, none,
  some,
}
use libopenssh.Err.{ok, err, invalid_format}
use libopenssh.Libc.{size_t}
use libopenssh.Sshbuf.{Sshbuf, ptr}
use libopenssh.Sshbuf.Sanity.{WellFormed}
use libopenssh.Sshbuf.Content.{content, advance, ptr-content, len-content}
use libopenssh.Getput.{
  get_cstring, check_cstring, cstring_after_length, inner_nul, memchr_nul, u32_of, u32_bytes,
  string_max,
}
use libopenssh.Getput.Codec.{length-u32_bytes, u32_of-u32_bytes}
use libopenssh.Getput.PutString.{framed}
use libopenssh.Getput.GetString.{finish_ok, copy_out_ok}
use libopenssh.Getput.RoundTrip.{Returns, advance_front}

-- A C string has no NUL in it.
abbrev pub NoNul : Bytes → Type 0
NoNul [] = Unit {0}
NoNul (x ∷ v) = ((x == 0) ≡ false) × NoNul v

memchr_nul-NoNul : (v s : Bytes) → NoNul v → memchr_nul (v ++ s) (length v) ≡ none
unfolding memchr_nul
memchr_nul-NoNul [] s h = refl
memchr_nul-NoNul (x ∷ v) s (h, hs) = rw (h, memchr_nul-NoNul v s hs) refl

inner_nul-NoNul : (v s : Bytes) → NoNul v → inner_nul (v ++ s) (length v) ≡ false
unfolding inner_nul
inner_nul-NoNul v s h = rw (memchr_nul-NoNul v s h, inner_nul) refl

memchr_nul_found :
    (v s : Bytes) (n : ℕ) → NoNul v → length v < n → memchr_nul (v ++ (0 ∷ s)) n ≡ some (length v)
unfolding memchr_nul
memchr_nul_found v s zero h lt = absurd (omega arith)
memchr_nul_found [] s (suc n) h lt = refl
memchr_nul_found (x ∷ v) s (suc n) (h, hs) lt = rw (h, memchr_nul_found v s n hs (omega arith)) refl

inner_nul_found :
    (v s : Bytes) (n : ℕ) → NoNul v → length v + 1 < n → inner_nul (v ++ (0 ∷ s)) n ≡ true
unfolding inner_nul
inner_nul_found v s n h lt = rw (memchr_nul_found v s n h (omega arith), inner_nul) (ground arith)

module _ (v s : Bytes) (short : length v ≤ string_max) where
  u32_of-framed : u32_of (framed v ++ s) ≡ length v
  u32_of-framed =
      ap u32_of (append_assoc (u32_bytes (length v)) v s)
      ∙ u32_of-u32_bytes (length v) (v ++ s) (omega arith)

  drop-framed : drop 4 (framed v ++ s) ≡ v ++ s
  drop-framed =
      ap (drop 4) (append_assoc (u32_bytes (length v)) v s)
      ∙ (rw (length-u32_bytes (length v)) at (drop-append_length (u32_bytes (length v)) (v ++ s)))

after_length_clean :
    (total n : ℕ) (p : Bytes)
    → n < 2 ^ 32
    → u32_of p ≡ n
    → n + 4 ≤ total
    → inner_nul (drop 4 p) n ≡ false
    → cstring_after_length total p ≡ ok (drop 4 p, n)
after_length_clean total n p lt e h clean =
    let wraps : size_t (n + 4) ≡ n + 4 = omega arith in ground arith

after_length_dirty :
    (total n : ℕ) (p : Bytes)
    → n < 2 ^ 32
    → u32_of p ≡ n
    → n + 4 ≤ total
    → inner_nul (drop 4 p) n ≡ true
    → cstring_after_length total p ≡ err invalid_format
after_length_dirty total n p lt e h dirty =
    let wraps : size_t (n + 4) ≡ n + 4 = omega arith in ground arith

module _ (b : Sshbuf) (v rest : Bytes) (w : WellFormed b) (short : length v ≤ string_max)
    (e : content b ≡ framed v ++ rest) where
  framed_fits : length v + 4 ≤ length (content b)
  framed_fits =
      let n = length-append (framed v) rest in
      let k = length-append (u32_bytes (length v)) v in
      omega (arith, ap length e, n, k, length-u32_bytes (length v))

  module _ (r : Bytes) (there : ptr b ≡ some (content b ++ r)) where
    check_cstring-framed :
        check_cstring b ≡ cstring_after_length (length (content b)) (framed v ++ (rest ++ r))
    check_cstring-framed =
        let spelled = ap (λ (q : Bytes). q ++ r) e ∙ append_assoc (framed v) rest r in
        let seen : check_cstring b ≡ cstring_after_length (length (content b)) (content b ++ r) =
          unfold check_cstring in rw (there, check_cstring) (rw (len-content b w)) in
        seen ∙ ap (cstring_after_length (length (content b))) spelled

    check_cstring_clean : NoNul v → check_cstring b ≡ ok (v ++ (rest ++ r), length v)
    check_cstring_clean clean =
        let front = drop-framed v (rest ++ r) short in
        let no_nul =
          ap (λ (q : Bytes). inner_nul q (length v)) front ∙ inner_nul-NoNul v (rest ++ r) clean in
        check_cstring-framed
        ∙ after_length_clean (length (content b)) (length v) (framed v ++ (rest ++ r)) (omega arith)
            (u32_of-framed v (rest ++ r) short) framed_fits no_nul
        ∙ ap (λ (q : Bytes). ok (q, length v)) front

    check_cstring_dirty :
        inner_nul (v ++ (rest ++ r)) (length v) ≡ true → check_cstring b ≡ err invalid_format
    check_cstring_dirty dirty =
        let front = drop-framed v (rest ++ r) short in
        check_cstring-framed
        ∙ after_length_dirty (length (content b)) (length v) (framed v ++ (rest ++ r)) (omega arith)
            (u32_of-framed v (rest ++ r) short) framed_fits
            (ap (λ (q : Bytes). inner_nul q (length v)) front ∙ dirty)

-- A string with a NUL in front of its last byte is refused, and stays in the queue.
pub get_cstring_nul :
    (b : Sshbuf) (v s rest : Bytes)
    → WellFormed b
    → length (v ++ (0 ∷ s)) ≤ string_max
    → NoNul v
    → 1 ≤ length s
    → content b ≡ framed (v ++ (0 ∷ s)) ++ rest
    → get_cstring true b ≡ (b, err invalid_format)
unfolding get_cstring
get_cstring_nul b v s rest w short clean more e =
    let (r, there) = ptr-content b w in
    let dirty : inner_nul ((v ++ (0 ∷ s)) ++ (rest ++ r)) (length (v ++ (0 ∷ s))) ≡ true =
      ap (λ (q : Bytes). inner_nul q (length (v ++ (0 ∷ s)))) (append_assoc v (0 ∷ s) (rest ++ r))
      ∙ inner_nul_found v (s ++ (rest ++ r)) (length (v ++ (0 ∷ s))) clean
          (omega (arith, length-append v (0 ∷ s))) in
    rw (check_cstring_dirty b (v ++ (0 ∷ s)) rest w short e r there dirty) refl

-- With the encoding of a C string at the front of the queue, `sshbuf_get_cstring` returns it with a
-- NUL behind it, and leaves what follows.
pub get_cstring_front :
    (b : Sshbuf) (v rest : Bytes)
    → WellFormed b
    → length v ≤ string_max
    → NoNul v
    → content b ≡ framed v ++ rest
    → Returns (get_cstring true b) (v ++ (0 ∷ []), length v) rest
unfolding get_cstring
get_cstring_front b v rest w short clean e =
    let n = length v in
    let (r, there) = ptr-content b w in
    let p = v ++ (rest ++ r) in
    let size : length (framed v) ≡ n + 4 =
      omega (arith, length-append (u32_bytes n) v, length-u32_bytes n) in
    let after = rw size at (advance_front b (framed v) rest w e) in
    let seen = check_cstring_clean b v rest w short e r there clean in
    let taken = finish_ok b w n p (omega arith) (framed_fits b v rest w short e) in
    let copied = copy_out_ok p n (omega (arith, length-append v (rest ++ r))) in
    (
      advance (n + 4) b,
      rw (seen, taken, copied)
          (ap (λ (q : Bytes). (advance (n + 4) b, ok (q ++ (0 ∷ []), n)))
            (take-append_length v (rest ++ r))),
      after.0,
      after.1,
    )
