-- ===== src/Getput/PutString.antt =====
-- Writing length-prefixed strings.
use libopenssh.Base.{
  ℕ, ◌+◌, ◌-◌, ◌≤◌, ◌<◌, ◌≡◌, ◌⊎◌, inl, inr, refl, sym, subst, arith, Bool-cases, length, ltb,
  Bytes, [], ◌++◌,
}
use libopenssh.Err.{and_then, Result, ok, err, fault, no_buffer_space}
use libopenssh.Libc.{Allocator, size_t}
use libopenssh.Sshbuf.{Sshbuf, reserve}
use libopenssh.Sshbuf.Sanity.{WellFormed}
use libopenssh.Sshbuf.Keeps.{Keeps, Keeps-self}
use libopenssh.Sshbuf.Reserve.{Fits, Refused, Reserved, reserve-Reserved}
use libopenssh.Getput.{store, put_string, string_max, u32_bytes}
use libopenssh.Getput.Codec.{length-u32_bytes}
use libopenssh.Getput.Put.{Filled, Room-Filled, Appends, Filled-Appends, store-Filled}

-- RFC 4251's string: the length as four bytes, and the bytes.
abbrev pub framed : Bytes → Bytes
framed v = u32_bytes (length v) ++ v

-- What `sshbuf_put_string` leaves.
abbrev pub StringWritten : Allocator → Sshbuf → Bytes → Sshbuf × Result (Unit {0}) → Type 0
StringWritten m b v (c, ok _) =
    Appends b (framed v) c × (length v ≤ string_max) × Fits (length v + 4) b
StringWritten m b v (c, err e) =
    Keeps b c × (((string_max < length v) × (e ≡ no_buffer_space)) ⊎ Refused m b (length v + 4) e)
StringWritten m b v (c, fault) = ⊥

store_two :
    (b : Sshbuf) (x y : Bytes) (n p : ℕ) (c : Sshbuf)
    → Filled b [] n p c
    → length x + length y ≡ n
    → (d : Sshbuf) × (and_then (store p x c) (λ _. store (p + length x) y) ≡ (d, ok tt))
      × Appends b (x ++ y) d
store_two b x y n p c f e =
    let (c', e₁, f₁) = store-Filled b [] x n p c f (omega arith) in
    let (d, e₂, f₂) = store-Filled b x y (n - length x) (p + length x) c' f₁ (omega arith) in
    let done : n - length x - length y ≡ 0 = omega arith in
    let f' = subst (λ k. Filled b (x ++ y) k (p + length x + length y) d) done f₂ in
    (d, rw e₁ e₂, Filled-Appends b (x ++ y) (p + length x + length y) d f')

string-StringWritten :
    (m : Allocator) (b : Sshbuf) (v : Bytes) (out : Sshbuf × Result ℕ)
    → length v ≤ string_max
    → Reserved m b (length v + 4) out
    → StringWritten m b v
        (and_then out (λ d s. and_then (store d (u32_bytes (length v)) s) (λ _. store (d + 4) v)))
string-StringWritten m b v (c, ok p) short (room, fits) =
    let (d, e, a) =
      store_two b (u32_bytes (length v)) v (length v + 4) p c (Room-Filled b _ p c room)
        (omega (arith, length-u32_bytes (length v))) in
    let e' = (rw (length-u32_bytes (length v)) at e) in
    subst (StringWritten m b v) (sym e') (a, short, fits)
string-StringWritten m b v (c, err e) short (keeps, why) = (keeps, inr why)
string-StringWritten m b v (c, fault) short h = h

-- `sshbuf_put_string` on a well-formed buffer appends the length and the bytes, or keeps the queue
-- and reports a string that is too long for the format, or why no space was set aside.
pub put_string-StringWritten :
    (m : Allocator) (b : Sshbuf) (v : Bytes) → WellFormed b → StringWritten m b v (put_string m v b)
unfolding put_string
put_string-StringWritten m b v w = elim (Bool-cases (ltb string_max (length v))) [
  | inl long ↦ rw long (Keeps-self b w, inl (ground arith, refl))
  | inr short ↦
      let h : length v ≤ string_max = ground arith in
      let n : size_t (length v + 4) ≡ length v + 4 = omega arith in
      rw (short, n)
        (string-StringWritten m b v (reserve m (length v + 4) b) h
          (reserve-Reserved m b (length v + 4) w))
]
