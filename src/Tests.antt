-- ===== src/Tests.antt =====
-- Concrete inputs for the theorems: an allocator that grants everything, and buffers on it.
mod Buffers
mod Strings
mod Patterns
mod Channels
mod Peers
mod Families
mod Queues
mod Kexes
mod Flows
mod Messages
mod Addresses
mod Trees
mod Revocations
mod Packets
use libopenssh.Base.{
  ℕ, ◌+◌, ◌-◌, ◌≡◌, ◌≢◌, refl, ap, sym, ◌∙◌, Bool, true, false, arith, Bytes, [], ◌∷◌, ◌++◌, length,
  take, replicate, min, Option, some, none, length-append, length-take, length-replicate,
  take-append_le, take-take,
}
use libopenssh.Libc.{Allocator, Pointer}
use libopenssh.Sshbuf.{Sshbuf}
use libopenssh.Sshbuf.Sanity.{WellFormed}

abbrev pub resized : ℕ → Bytes → Bytes
resized n mem = take n mem ++ replicate (n - length mem) 0

length-resized : (n : ℕ) (mem : Bytes) → length (resized n mem) ≡ n
length-resized n mem = omega (
  arith,
  length-append (take n mem) (replicate {A = ℕ} (n - length mem) 0),
  length-take n mem,
  length-replicate {A = ℕ} (n - length mem) 0,
)

resized_front :
    (n : ℕ) (mem : Bytes)
    → take (min n (length mem)) (resized n mem) ≡ take (min n (length mem)) mem
resized_front n mem =
    take-append_le (min n (length mem)) (take n mem) (replicate (n - length mem) 0)
      (omega (arith, length-take n mem))
    ∙ take-take (min n (length mem)) n mem (omega arith)

pub libc_zeroed :
    (n : ℕ) {q : Pointer} {mem : Bytes}
    → ◌≡◌ {A = Option (Pointer × Bytes)} (some (1, replicate n 0)) (some (q, mem))
    → (q ≢ 0) × (mem ≡ replicate n 0)
libc_zeroed n e = (ground arith, ground arith)

pub libc_keeps :
    (p : Pointer) (mem : Bytes) (n : ℕ) {q : Pointer} {mem' : Bytes}
    → ◌≡◌ {A = Option (Pointer × Bytes)} (some (1, resized n mem)) (some (q, mem'))
    → (q ≢ 0) × (length mem' ≡ n) × (take (min n (length mem)) mem' ≡ take (min n (length mem)) mem)
libc_keeps p mem n e = ground (arith, length-resized n mem, resized_front n mem)

-- Every request is granted.
abbrev pub libc : Allocator
libc = record {
  calloc = λ n. some (1, replicate n 0);
  realloc = λ p mem n. some (1, resized n mem);
  calloc_zeroed = libc_zeroed;
  realloc_keeps = libc_keeps;
}

-- A block of eight bytes, of which four are in use behind one that is consumed.
abbrev pub half_full : Sshbuf
half_full = record {
  d = 7;
  cd = 7;
  mem = 9 ∷ 0 ∷ 0 ∷ 1 ∷ 5 ∷ 0 ∷ 0 ∷ 0 ∷ [];
  off = 1;
  size = 5;
  max_size = 300;
  alloc = 8;
  readonly = false;
  refcount = 1;
  parent = none;
}

pub half_full-WellFormed : WellFormed half_full
half_full-WellFormed = ground arith

-- The same block with nothing in it.
abbrev pub empty_buffer : Sshbuf
empty_buffer = record half_full { off = 0; size = 0 }

pub empty_buffer-WellFormed : WellFormed empty_buffer
empty_buffer-WellFormed = ground arith
