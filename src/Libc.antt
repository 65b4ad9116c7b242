-- ===== src/Libc.antt =====
-- The memory of the C library as the buffers use it. Whether an allocation succeeds is the
-- environment's choice, so the allocator is a record of functions with the behaviour that the C
-- standard documents; it is a parameter of every operation that allocates.
use libopenssh.Base.{
  ℕ, ◌+◌, ◌%◌, ◌^◌, min, ◌≡◌, ◌≢◌, Bytes, length, take, drop, replicate, ◌++◌, Option, none, some,
  leb, if◌then◌else◌,
}
use libopenssh.Err.{Result, ok, fault}

-- An address, 0 for NULL.
abbrev pub Pointer : Type 0
Pointer = ℕ

-- An object of `size_t` holds a value below 2 ^ 64.
abbrev pub size_t : ℕ → ℕ
size_t n = n % 2 ^ 64

-- `realloc p mem n`: the block at `p` holds `mem`. The contents are kept up to the lesser size. With
-- `none` the block at `p` stays; a realloc that frees the block when `n` is 0 is left out.
pub record Allocator : Type 0 where
  pub calloc : ℕ → Option (Pointer × Bytes)
  pub realloc : Pointer → Bytes → ℕ → Option (Pointer × Bytes)
  pub calloc_zeroed :
      (n : ℕ) {q : Pointer} {mem : Bytes}
      → calloc n ≡ some (q, mem)
      → (q ≢ 0) × (mem ≡ replicate n 0)
  pub realloc_keeps :
      (p : Pointer) (mem : Bytes) (n : ℕ) {q : Pointer} {mem' : Bytes}
      → realloc p mem n ≡ some (q, mem')
      → (q ≢ 0)
        × (length mem' ≡ n)
        × (take (min n (length mem)) mem' ≡ take (min n (length mem)) mem)

-- memcpy(base + p, v, length v).
abbrev pub overwrite : ℕ → Bytes → Bytes → Bytes
overwrite p v mem = take p mem ++ (v ++ drop (p + length v) mem)

-- The first `n` bytes behind a pointer, which leads to `none` if it is NULL.
abbrev pub read : Option Bytes → ℕ → Result Bytes
read none n = fault
read (some p) n = if leb n (length p) then ok (take n p) else fault
