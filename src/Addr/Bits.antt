-- ===== src/Addr/Bits.antt =====
-- Masks as arithmetic: what `&` with the ones above or below a bit leaves of a word.
use native.Mathlib.Numerals.{unary_clauses}
use libopenssh.Base.{
  ℕ, zero, suc, ◌+◌, ◌-◌, ◌*◌, ◌/◌, ◌%◌, ◌^◌, ◌≤◌, ◌<◌, ◌≡◌, refl, ap, arith, min,
}
use libopenssh.Addr.{and_bits, ones_shifted}

pub pow_suc : (k : ℕ) → 2 ^ suc k ≡ 2 ^ k * 2
pow_suc k = simp unary_clauses refl

pub pow_pos : (k : ℕ) → 1 ≤ 2 ^ k
pow_pos zero = omega arith
pow_pos (suc k) = omega (arith, pow_suc k, pow_pos k)

pub pow_le : (k n : ℕ) → k ≤ n → 2 ^ k ≤ 2 ^ n
pow_le zero n h = omega (arith, pow_pos n)
pow_le (suc k) zero h = absurd (omega arith)
pow_le (suc k) (suc n) h = omega (arith, pow_suc k, pow_suc n, pow_le k n (omega arith))

half_mod : (a x : ℕ) → 1 ≤ x → a % (x * 2) ≡ (a / 2 % x) * 2 + a % 2
half_mod a x h = grind arith

-- One bit, for a mask that is written as a double and its lowest bit.
and_bits_step :
    (n a b c r : ℕ)
    → b ≡ c * 2 + r
    → r < 2
    → and_bits (suc n) a b ≡ and_bits n (a / 2) c * 2 + min (a % 2) r
unfolding and_bits
and_bits_step n a b c r e h =
    let half : b / 2 ≡ c = omega arith in omega (arith, ap (and_bits n (a / 2)) half)

pub and_bits-zero : (n a : ℕ) → and_bits n a 0 ≡ 0
unfolding and_bits
and_bits-zero zero a = refl
and_bits-zero (suc n) a = omega (arith, and_bits-zero n (a / 2))

-- The ones from bit `k` on.
pub and_bits-high : (n k a : ℕ) → k ≤ n → a < 2 ^ n → and_bits n a (2 ^ n - 2 ^ k) ≡ a - a % 2 ^ k
unfolding and_bits
and_bits-high zero zero a h lt = omega arith
and_bits-high zero (suc k) a h lt = absurd (omega arith)
and_bits-high (suc n) zero a h lt = omega (
  arith,
  pow_suc n,
  pow_pos n,
  and_bits_step n a (2 ^ suc n - 2 ^ 0) (2 ^ n - 2 ^ 0) 1 (omega (arith, pow_suc n, pow_pos n))
      (omega arith),
  and_bits-high n zero (a / 2) (omega arith) (omega (arith, pow_suc n)),
)
and_bits-high (suc n) (suc k) a h lt = omega (
  arith,
  half_mod a (2 ^ k) (pow_pos k),
  ap (λ (x : ℕ). a % x) (pow_suc k),
  and_bits_step n a (2 ^ suc n - 2 ^ suc k) (2 ^ n - 2 ^ k) 0
      (omega (arith, pow_suc n, pow_suc k, pow_le k n (omega arith))) (omega arith),
  and_bits-high n k (a / 2) (omega arith) (omega (arith, pow_suc n)),
)

-- The ones in front of bit `k`.
pub and_bits-low : (n k a : ℕ) → k ≤ n → and_bits n a (2 ^ k - 1) ≡ a % 2 ^ k
unfolding and_bits
and_bits-low zero zero a h = omega arith
and_bits-low zero (suc k) a h = absurd (omega arith)
and_bits-low (suc n) zero a h = omega (arith, and_bits-zero n (a / 2))
and_bits-low (suc n) (suc k) a h = omega (
  arith,
  half_mod a (2 ^ k) (pow_pos k),
  ap (λ (x : ℕ). a % x) (pow_suc k),
  and_bits_step n a (2 ^ suc k - 1) (2 ^ k - 1) 1 (omega (arith, pow_suc k, pow_pos k))
      (omega arith),
  and_bits-low n k (a / 2) (omega arith),
)

pub ones_shifted-eq : (k : ℕ) → k ≤ 32 → ones_shifted k ≡ 2 ^ 32 - 2 ^ k
unfolding ones_shifted
ones_shifted-eq k h = omega (arith, pow_pos k, pow_le k 32 h)
