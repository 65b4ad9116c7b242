-- ===== src/Getput/Codec.antt =====
-- The big-endian codecs: what PEEK reads is what POKE wrote.
use libopenssh.Base.{ℕ, ◌^◌, ◌<◌, ◌≡◌, refl, arith, Bytes, ◌++◌, length}
use libopenssh.Getput.{u16_of, u32_of, u64_of, u16_bytes, u32_bytes, u64_bytes}

-- The four bytes of a 32-bit value read back as that value, whatever follows them.
pub u32_of-u32_bytes : (v : ℕ) (rest : Bytes) → v < 2 ^ 32 → u32_of (u32_bytes v ++ rest) ≡ v
unfolding u32_of u32_bytes
u32_of-u32_bytes v rest h = omega arith

pub u16_of-u16_bytes : (v : ℕ) (rest : Bytes) → v < 2 ^ 16 → u16_of (u16_bytes v ++ rest) ≡ v
unfolding u16_of u16_bytes
u16_of-u16_bytes v rest h = omega arith

pub u64_of-u64_bytes : (v : ℕ) (rest : Bytes) → v < 2 ^ 64 → u64_of (u64_bytes v ++ rest) ≡ v
unfolding u64_of u64_bytes
u64_of-u64_bytes v rest h = omega arith

pub u32_of-lt : (p : Bytes) → u32_of p < 2 ^ 32
unfolding u32_of
u32_of-lt p = omega arith

pub length-u32_bytes : (v : ℕ) → length (u32_bytes v) ≡ 4
unfolding u32_bytes
length-u32_bytes v = refl

pub length-u16_bytes : (v : ℕ) → length (u16_bytes v) ≡ 2
unfolding u16_bytes
length-u16_bytes v = refl

pub length-u64_bytes : (v : ℕ) → length (u64_bytes v) ≡ 8
unfolding u64_bytes
length-u64_bytes v = refl
