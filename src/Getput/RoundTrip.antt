-- ===== src/Getput/RoundTrip.antt =====
-- What one side writes the other side reads.
use libopenssh.Base.{
  ℕ, ◌+◌, ◌≤◌, ◌<◌, ◌^◌, ◌≡◌, ap, sym, subst, ◌∙◌, true, arith, length, take, drop, Bytes, ◌∷◌, [],
  length-append, append-nil, append_assoc, ◌++◌, take-append_length, drop-append_length,
}
use libopenssh.Err.{Result, ok}
use libopenssh.Libc.{Allocator}
use libopenssh.Sshbuf.{Sshbuf}
use libopenssh.Sshbuf.Sanity.{WellFormed}
use libopenssh.Sshbuf.Content.{content, advance, advance-WellFormed, content-advance}
use libopenssh.Sshbuf.Reserve.{Fits}
use libopenssh.Getput.{
  get_u32, get_string, put_string, string_max, u32_of, u32_bytes, get_fixed, u64_of, u64_bytes,
  get_u64,
}
use libopenssh.Getput.Codec.{length-u32_bytes, length-u64_bytes, u64_of-u64_bytes, u32_of-u32_bytes}
use libopenssh.Getput.Put.{Appends}
use libopenssh.Getput.Get.{get_fixed_ok}
use libopenssh.Getput.PutString.{framed, StringWritten, put_string-StringWritten}
use libopenssh.Getput.GetString.{HasString, front_string, get_string_ok}

-- The call returns `a` and leaves a well-formed buffer with the queue `q`.
abbrev pub Returns : {A : Type 0} → Sshbuf × Result A → A → Bytes → Type 0
Returns {A} out a q = (c : Sshbuf) × (out ≡ (c, ok a)) × WellFormed c × (content c ≡ q)

pub advance_front :
    (b : Sshbuf) (v rest : Bytes)
    → WellFormed b
    → content b ≡ v ++ rest
    → WellFormed (advance (length v) b) × (content (advance (length v) b) ≡ rest)
advance_front b v rest w e =
    let h : length v ≤ length (content b) = omega (arith, ap length e, length-append v rest) in
    (
      advance-WellFormed b (length v) w h,
      content-advance b (length v) w h ∙ ap (drop (length v)) e ∙ drop-append_length v rest,
    )

pub fixed_front :
    {A : Type 0} (f : Bytes → A) (b : Sshbuf) (n : ℕ) (v rest : Bytes) (a : A)
    → WellFormed b
    → length v ≡ n
    → f v ≡ a
    → content b ≡ v ++ rest
    → Returns (get_fixed f n b) a rest
fixed_front f b n v rest a w l d e =
    let h : n ≤ length (content b) = omega (arith, ap length e, length-append v rest) in
    let front : take n (content b) ≡ v = ap (take n) e ∙ rw (← l) (take-append_length v rest) in
    let after = rw l at (advance_front b v rest w e) in
    (
      advance n b,
      get_fixed_ok f n b w h
          ∙ ap (λ (u : Bytes). (advance n b, ok (f u))) front
          ∙ ap (λ x. (advance n b, ok x)) d,
      after.0,
      after.1,
    )

-- With the encoding of a 32-bit value at the front of the queue, `sshbuf_get_u32` returns that value
-- and leaves what follows it.
pub get_u32_front :
    (b : Sshbuf) (v : ℕ) (rest : Bytes)
    → WellFormed b
    → v < 2 ^ 32
    → content b ≡ u32_bytes v ++ rest
    → Returns (get_u32 b) v rest
unfolding get_u32
get_u32_front b v rest w h e =
    let d = ap u32_of (sym (append-nil (u32_bytes v))) ∙ u32_of-u32_bytes v [] h in
    fixed_front u32_of b 4 (u32_bytes v) rest v w (length-u32_bytes v) d e

pub get_u64_front :
    (b : Sshbuf) (v : ℕ) (rest : Bytes)
    → WellFormed b
    → v < 2 ^ 64
    → content b ≡ u64_bytes v ++ rest
    → Returns (get_u64 b) v rest
unfolding get_u64
get_u64_front b v rest w h e =
    let d = ap u64_of (sym (append-nil (u64_bytes v))) ∙ u64_of-u64_bytes v [] h in
    fixed_front u64_of b 8 (u64_bytes v) rest v w (length-u64_bytes v) d e

module _ (b : Sshbuf) (v rest : Bytes) (short : length v ≤ string_max)
    (e : content b ≡ framed v ++ rest) where
  pub framed-HasString : HasString (length v) b
  framed-HasString =
      let l = ap length e in
      let is =
        ap u32_of e
        ∙ ap u32_of (append_assoc (u32_bytes (length v)) v rest)
        ∙ u32_of-u32_bytes (length v) (v ++ rest) (omega arith) in
      let n = length-append (framed v) rest in
      let k = length-append (u32_bytes (length v)) v in
      (
        omega (arith, l, n, k, length-u32_bytes (length v)),
        is,
        omega (arith, l, n, k, length-u32_bytes (length v)),
      )

  pub framed-front_string : front_string (length v) b ≡ v
  framed-front_string =
      ap (λ (q : Bytes). take (length v) (drop 4 q))
        (e ∙ append_assoc (u32_bytes (length v)) v rest)
      ∙ ap (take (length v)) (
          rw (length-u32_bytes (length v)) at
            (drop-append_length (u32_bytes (length v)) (v ++ rest)))
      ∙ take-append_length v rest

-- With a length-prefixed string at the front of the queue, `sshbuf_get_string` returns its bytes,
-- with a NUL behind them, and leaves what follows it.
pub get_string_front :
    (b : Sshbuf) (v rest : Bytes)
    → WellFormed b
    → length v ≤ string_max
    → content b ≡ framed v ++ rest
    → Returns (get_string true b) (v ++ (0 ∷ []), length v) rest
get_string_front b v rest w short e =
    let n = length v in
    let size : length (framed v) ≡ n + 4 =
      omega (arith, length-append (u32_bytes n) v, length-u32_bytes n) in
    let after = rw size at (advance_front b (framed v) rest w e) in
    (
      advance (n + 4) b,
      get_string_ok b w n (framed-HasString b v rest short e)
          ∙ ap (λ (u : Bytes). (advance (n + 4) b, ok (u ++ (0 ∷ []), n)))
              (framed-front_string b v rest short e),
      after.0,
      after.1,
    )

put_string_ok :
    (m : Allocator) (b c : Sshbuf) (v : Bytes)
    → WellFormed b
    → put_string m v b ≡ (c, ok tt)
    → Appends b (framed v) c × (length v ≤ string_max) × Fits (length v + 4) b
put_string_ok m b c v w e = subst (StringWritten m b v) e (put_string-StringWritten m b v w)

-- A string that `sshbuf_put_string` has put into an empty buffer comes out again by
-- `sshbuf_get_string`, and leaves the buffer empty.
pub get_string-put_string :
    (m : Allocator) (b c : Sshbuf) (v : Bytes)
    → WellFormed b
    → content b ≡ []
    → put_string m v b ≡ (c, ok tt)
    → Returns (get_string true c) (v ++ (0 ∷ []), length v) []
get_string-put_string m b c v w e p =
    let (a, short, fits) = put_string_ok m b c v w p in
    get_string_front c v [] a.well_formed short
      (a.appended ∙ ap (λ (q : Bytes). q ++ framed v) e ∙ sym (append-nil (framed v)))
