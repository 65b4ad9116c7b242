-- ===== src/Packet/Padding.antt =====
-- The padding of a packet.
use libopenssh.Base.{
  ℕ, ◌+◌, ◌-◌, ◌*◌, ◌/◌, ◌%◌, ◌^◌, ◌≤◌, ◌<◌, ◌≡◌, refl, ap, sym, ◌∙◌, subst, arith, false,
  Bool-cases, inl, inr, ltb, ◌==◌,
}
use libopenssh.Err.{ok}
use libopenssh.Packet.{u32_add}
use libopenssh.Packet.Send.{rounded_up, least_padlen, padlen_of}

filled : (b n : ℕ) → 1 ≤ b → (n + (b - n % b)) % b ≡ 0
filled b n h = grind arith

filled_twice : (b n : ℕ) → 1 ≤ b → (n + (b - n % b + b)) % b ≡ 0
filled_twice b n h = grind (arith, filled b n h)

product : (b n : ℕ) → 1 ≤ b → (b * n) % b ≡ 0
product b n h = grind arith

multiple : (b q n : ℕ) → 1 ≤ b → 1 ≤ q → n % (q * b) ≡ 0 → n % b ≡ 0
multiple b q n h k e =
    let m = n / (q * b) in
    let split : n ≡ q * b * m = grind (arith, e) in
    let moved : n ≡ b * (q * m) = split ∙ grind arith in
    subst (λ x. x % b ≡ 0) (sym moved) (product b (q * m) h)

least_padlen-bounds :
    (block_size len : ℕ)
    → 4 ≤ block_size
    → block_size ≤ 252
    → (4 ≤ least_padlen block_size len)
      × (least_padlen block_size len ≤ block_size + 3)
      × ((len + least_padlen block_size len) % block_size ≡ 0)
least_padlen-bounds block_size len h k =
    let r = len % block_size in
    let small : (block_size - r) % 256 ≡ block_size - r = omega arith in
    elim (Bool-cases (ltb ((block_size - r) % 256) 4)) [
      | inl p ↦
          let least : block_size - r < 4 = ground (arith, p, small) in
          let more : (block_size - r + block_size) % 256 ≡ block_size - r + block_size =
            omega arith in
          rw (p, small, more) (omega arith, omega arith, filled_twice block_size len (omega arith))
      | inr p ↦
          let most : 4 ≤ block_size - r = ground (arith, p, small) in
          rw (p, small) (most, omega arith, filled block_size len (omega arith))
    ]

-- The padding with what is added for the extra padding `e`.
extra_lem :
    (b e p len : ℕ)
    → 1 ≤ e
    → p ≤ b + 3
    → b + 3 + e < 256
    → len + 256 ≤ 2 ^ 32
    → ((p + (e % 256 - u32_add len p % (e % 256)) % 256) % 256 ≡ p + (e - (len + p) % e))
      × (p + (e - (len + p) % e) < 256)
      × ((len + (p + (e - (len + p) % e))) % e ≡ 0)
extra_lem b e p len h k m n =
    let byte : e % 256 ≡ e = omega arith in
    let word : u32_add len p ≡ len + p = omega arith in
    let full : (len + p + (e - (len + p) % e)) % e ≡ 0 = filled e (len + p) h in
    rw (byte, word) (omega arith, omega arith, grind (arith, full))

div-pos : (x b : ℕ) → 1 ≤ x → 4 ≤ b → 1 ≤ (x + b - 1) / b
div-pos x b h k = grind arith

-- With blocks of at least four bytes, where the padding is not too long for its byte, and the
-- length of the packet for its word: the padding is of at least four bytes, fits its byte, and
-- fills the packet to a multiple of the block, and of the extra padding, rounded up to blocks, if
-- any is asked for.
pub padlen_of-Aligned :
    (block_size extra_pad len : ℕ)
    → 4 ≤ block_size
    → block_size + 3 + rounded_up extra_pad block_size < 256
    → len + 256 ≤ 2 ^ 32
    → (p : ℕ) × (padlen_of block_size extra_pad len ≡ ok p)
      × (4 ≤ p)
      × (p < 256)
      × ((len + p) % block_size ≡ 0)
      × (1 ≤ extra_pad → (len + p) % rounded_up extra_pad block_size ≡ 0)
unfolding padlen_of
padlen_of-Aligned block_size extra_pad len h k m =
    let p = least_padlen block_size len in
    let (lo, hi, whole) = least_padlen-bounds block_size len h (omega arith) in
    elim (Bool-cases (extra_pad == 0)) [
      | inl no_extra ↦ (
        p,
        rw (no_extra, padlen_of) refl,
        lo,
        omega arith,
        whole,
        λ q. ground (arith, no_extra, q),
      )
      | inr extra_wanted ↦
          let extra = rounded_up extra_pad block_size in
          let q = (extra_pad + block_size - 1) / block_size in
          let one : 1 ≤ q = div-pos extra_pad block_size (ground (arith, extra_wanted)) h in
          let pos : 1 ≤ extra = grind (arith, one, h) in
          let (e, small, full) = extra_lem block_size extra p len pos hi k m in
          let some_extra : (extra % 256 == 0) ≡ false = ground (arith, pos, k) in
          (
            p + (extra - (len + p) % extra),
            rw (extra_wanted, padlen_of) (rw some_extra (ap ok e)),
            omega arith,
            small,
            multiple block_size q (len + (p + (extra - (len + p) % extra))) (omega arith) one full,
            λ k. full,
          )
    ]
