-- ===== src/Sshbuf.antt =====
-- ssh/sshbuf.c: the growable byte buffer. A value of `Sshbuf` is what a non-null `struct sshbuf *`
-- leads to. `mem` holds the bytes at `cd`; a writable buffer has `d` and `cd` equal, so that writes
-- through `d` are writes to `mem`. The debugging macros are empty in a normal build.
pub mod Sanity
pub mod Content
pub mod Keeps
pub mod Reserve
pub mod Refusals
pub mod Limits
pub mod MaxSize
use libopenssh.Base.{
  ℕ, ◌+◌, ◌-◌, ◌*◌, ◌/◌, Bool, true, false, not, ◌&&◌, ◌||◌, Option, none, some, Bytes, take, drop,
  ◌++◌, replicate, ltb, leb, ◌==◌, if◌then◌else◌,
}
use libopenssh.Err.{
  and_then, Result, ok, err, internal_error, alloc_fail, message_incomplete, no_buffer_space,
  buffer_read_only,
}
use libopenssh.Libc.{Allocator, Pointer, size_t}

abbrev pub size_max : ℕ
size_max = 0x20000000

abbrev pub refs_max : ℕ
refs_max = 0x100000

abbrev pub size_init : ℕ
size_init = 256

abbrev pub size_inc : ℕ
size_inc = 256

abbrev pub pack_min : ℕ
pack_min = 8192

-- `parent` names a buffer of a store that holds parents and children.
pub record Sshbuf : Type 0 where
  pub d : Pointer
  pub cd : Pointer
  pub mem : Bytes
  pub off : ℕ
  pub size : ℕ
  pub max_size : ℕ
  pub alloc : ℕ
  pub readonly : Bool
  pub refcount : ℕ
  pub parent : Option ℕ

-- An operation leaves a buffer and returns a result, whatever the result is.
abbrev pub Op : Type 0 → Type 0
Op A = Sshbuf → Sshbuf × Result A

infixl 5 ◌>>=◌ ◌>>◌
abbrev pub ◌>>=◌ : {A B : Type 0} → Op A → (A → Op B) → Op B
◌>>=◌ m f b = and_then (m b) f

abbrev pub ◌>>◌ : {A B : Type 0} → Op A → Op B → Op B
m >> k = m >>= λ _. k

abbrev pub return : {A : Type 0} → A → Op A
return a b = (b, ok a)

-- A call that does not change the buffer.
abbrev pub reading : {A : Type 0} → (Sshbuf → Result A) → Op A
reading f b = (b, f b)

unfoldable pub insane : Sshbuf → Bool
insane b =
    not b.readonly && not (b.d == b.cd)
    || ltb b.refcount 1
    || ltb refs_max b.refcount
    || b.cd == 0
    || ltb size_max b.max_size
    || ltb b.max_size b.alloc
    || ltb b.alloc b.size
    || ltb b.size b.off

unfoldable pub check_sanity : Sshbuf → Result (Unit {0})
check_sanity b = if insane b then err internal_error else ok tt

-- `buf->readonly || buf->refcount > 1`
abbrev pub locked : Sshbuf → Bool
locked b = b.readonly || ltb 1 b.refcount

-- The memmove to the front of the block, and the new bounds.
abbrev pub packed : Sshbuf → Sshbuf
packed b = record b {
  mem = take (b.size - b.off) (drop b.off b.mem) ++ drop (b.size - b.off) b.mem;
  size = b.size - b.off;
  off = 0;
}

unfoldable pub maybe_pack : Sshbuf → Bool → Sshbuf
maybe_pack b force =
    if locked b
    then b
    else if force || leb pack_min b.off && leb (b.size / 2) b.off
    then packed b
    else b

unfoldable pub blank : Pointer → Bytes → Sshbuf
blank p mem = record {
  d = p;
  cd = p;
  mem = mem;
  off = 0;
  size = 0;
  max_size = size_max;
  alloc = size_init;
  readonly = false;
  refcount = 1;
  parent = none;
}

-- `sshbuf_new`; `struct_ok` says whether the allocation of the struct itself succeeds.
unfoldable pub new : Allocator → Bool → Option Sshbuf
new m struct_ok =
    if struct_ok
    then elim (m.calloc size_init) [ none ↦ none | some (p, mem) ↦ some (blank p mem) ]
    else none

abbrev pub borrowed : Pointer → Bytes → ℕ → Sshbuf
borrowed p blob n = record {
  d = 0;
  cd = p;
  mem = blob;
  off = 0;
  size = n;
  max_size = n;
  alloc = n;
  readonly = true;
  refcount = 1;
  parent = none;
}

-- `sshbuf_from` over the bytes `blob` at address `p`, `n` of them.
unfoldable pub from : Bool → Pointer → Bytes → ℕ → Option Sshbuf
from struct_ok p blob n =
    if p == 0 || ltb size_max n || not struct_ok then none else some (borrowed p blob n)

-- The end of `sshbuf_reset`: back to the initial allocation, if realloc grants it.
unfoldable pub shrink_to_init : Allocator → Sshbuf → Sshbuf
shrink_to_init m b =
    if not (b.alloc == size_init)
    then elim (m.realloc b.d b.mem size_init) [
      | none ↦ b
      | some (p, mem) ↦ record b { d = p; cd = p; mem = mem; alloc = size_init }
    ]
    else b

-- bzero(buf->d, buf->alloc)
abbrev pub zeroed : Sshbuf → Sshbuf
zeroed b = record b { mem = replicate b.alloc 0 ++ drop b.alloc b.mem }

unfoldable pub reset : Allocator → Sshbuf → Sshbuf
reset m b =
    if locked b
    then record b { off = b.size }
    else shrink_to_init m (record (if insane b then b else zeroed b) { off = 0; size = 0 })

unfoldable pub len : Sshbuf → ℕ
len b = if insane b then 0 else b.size - b.off

unfoldable pub avail : Sshbuf → ℕ
avail b = if insane b || locked b then 0 else b.max_size - (b.size - b.off)

-- The bytes that the returned pointer leads to, `none` for NULL.
unfoldable pub ptr : Sshbuf → Option Bytes
ptr b = if insane b then none else some (drop b.off b.mem)

unfoldable pub check_reserve : ℕ → Sshbuf → Result (Unit {0})
check_reserve n b =
    if insane b
    then err internal_error
    else if locked b
    then err buffer_read_only
    else if ltb b.max_size n || ltb (b.max_size - n) (b.size - b.off)
    then err no_buffer_space
    else ok tt

-- `roundup` of sys/param.h.
abbrev pub roundup : ℕ → ℕ → ℕ
roundup x y = size_t (x + (y - 1)) / y * y

-- The size to ask realloc for.
abbrev pub grown_size : ℕ → Sshbuf → ℕ
grown_size n b =
    let need = size_t (n + b.size) - b.alloc in
    let rlen = roundup (size_t (b.alloc + need)) size_inc in
    if ltb b.max_size rlen then size_t (b.alloc + need) else rlen

-- The realloc of `sshbuf_reserve`.
unfoldable pub regrow : Allocator → ℕ → Op (Unit {0})
regrow m n b = elim (m.realloc b.d b.mem (grown_size n b)) [
  | none ↦ (b, err alloc_fail)
  | some (p, mem) ↦
      let b' = record b { alloc = grown_size n b; d = p; cd = p; mem = mem } in
      (b', check_reserve n b')
]

-- The end of `sshbuf_reserve`: the value is the offset from `d` of the bytes that are set aside.
unfoldable pub claim : ℕ → Op ℕ
claim n b = (record b { size = size_t (b.size + n) }, ok b.size)

unfoldable pub grow : Allocator → ℕ → Op ℕ
grow m n b = if ltb b.alloc (size_t (n + b.size)) then (regrow m n >> claim n) b else claim n b

unfoldable pub reserve : Allocator → ℕ → Op ℕ
reserve m n b =
    and_then (b, check_reserve n b)
      λ _ c. grow m n (maybe_pack c (ltb c.max_size (size_t (c.size + n))))

-- bzero(buf->d + buf->size, buf->alloc - buf->size)
abbrev pub tail_zeroed : Sshbuf → Bytes
tail_zeroed b = take b.size b.mem ++ (replicate (b.alloc - b.size) 0 ++ drop b.alloc b.mem)

-- The realloc of `sshbuf_set_max_size`. The source computes a rounded size first and then
-- overwrites it with the size in use.
-- Where realloc gives nothing the old block stays, also if it is asked for no bytes; an allocator that
-- then frees the block is not one of these.
unfoldable pub trim : Allocator → ℕ → Op (Unit {0})
trim m n b =
    if ltb n b.alloc && ltb b.size n
    then elim (m.realloc b.d (tail_zeroed b) b.size) [
      | none ↦ (record b { mem = tail_zeroed b }, err alloc_fail)
      | some (p, mem) ↦ (record b { d = p; cd = p; mem = mem; alloc = b.size }, ok tt)
    ]
    else (b, ok tt)

unfoldable pub set_limit : ℕ → Op (Unit {0})
set_limit n b =
    if ltb n b.alloc then (b, err no_buffer_space) else (record b { max_size = n }, ok tt)

unfoldable pub set_max_size : Allocator → ℕ → Op (Unit {0})
set_max_size m n b =
    if insane b
    then (b, err internal_error)
    else if n == b.max_size
    then (b, ok tt)
    else if locked b
    then (b, err buffer_read_only)
    else if ltb size_max n
    then (b, err no_buffer_space)
    else (trim m n >> set_limit n) (maybe_pack b (ltb n b.size))

unfoldable pub consume : ℕ → Op (Unit {0})
consume n b =
    if insane b
    then (b, err internal_error)
    else if n == 0
    then (b, ok tt)
    else if ltb (len b) n
    then (b, err message_incomplete)
    else (record b { off = b.off + n }, ok tt)

unfoldable pub consume_end : ℕ → Op (Unit {0})
consume_end n b =
    if insane b
    then (b, err internal_error)
    else if n == 0
    then (b, ok tt)
    else if ltb (len b) n
    then (b, err message_incomplete)
    else (record b { size = b.size - n }, ok tt)
