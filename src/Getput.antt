-- ===== src/Getput.antt =====
-- ssh/sshbuf-getput-basic.c and the PEEK and POKE macros of ssh/sshbuf.h. An output that the caller
-- may decline by a null pointer is always part of the result here.
pub mod Codec
pub mod Put
pub mod Get
pub mod PutString
pub mod GetString
pub mod RoundTrip
pub mod Between
pub mod Cstring
pub mod Granted
use libopenssh.Base.{
  ℕ, zero, suc, ◌+◌, ◌-◌, ◌*◌, ◌/◌, ◌%◌, ◌^◌, Bool, false, Option, none, some, Bytes, [], ◌∷◌, ◌++◌,
  length, drop, get_or, ltb, leb, ◌==◌, if◌then◌else◌,
}
use mathlib.Core.Option
use libopenssh.Err.{
  and_then, Result, ok, err, fault, internal_error, alloc_fail, message_incomplete, invalid_format,
  no_buffer_space,
}
use libopenssh.Libc.{Allocator, size_t, overwrite, read}
use libopenssh.Sshbuf.{Sshbuf, Op, ◌>>=◌, ◌>>◌, reading, len, ptr, consume, reserve}

-- ((u_char *)p)[i]
abbrev pub byte_at : Bytes → ℕ → ℕ
byte_at p i = get_or p i 0 % 256

-- The shifted bytes have no bit in common, so that `|` is their sum.
unfoldable pub u16_of : Bytes → ℕ
u16_of p = byte_at p 0 * 2 ^ 8 + byte_at p 1

unfoldable pub u32_of : Bytes → ℕ
u32_of p = byte_at p 0 * 2 ^ 24 + byte_at p 1 * 2 ^ 16 + byte_at p 2 * 2 ^ 8 + byte_at p 3

unfoldable pub u64_of : Bytes → ℕ
u64_of p =
    byte_at p 0 * 2 ^ 56
    + byte_at p 1 * 2 ^ 48
    + byte_at p 2 * 2 ^ 40
    + byte_at p 3 * 2 ^ 32
    + byte_at p 4 * 2 ^ 24
    + byte_at p 5 * 2 ^ 16
    + byte_at p 6 * 2 ^ 8
    + byte_at p 7

-- `(v >> k) & 0xff`
abbrev pub octet : ℕ → ℕ → ℕ
octet v k = v / 2 ^ k % 256

unfoldable pub u16_bytes : ℕ → Bytes
u16_bytes v = octet v 8 ∷ octet v 0 ∷ []

unfoldable pub u32_bytes : ℕ → Bytes
u32_bytes v = octet v 24 ∷ octet v 16 ∷ octet v 8 ∷ octet v 0 ∷ []

unfoldable pub u64_bytes : ℕ → Bytes
u64_bytes v =
    octet v 56
    ∷ octet v 48
    ∷ octet v 40
    ∷ octet v 32
    ∷ octet v 24
    ∷ octet v 16
    ∷ octet v 8
    ∷ octet v 0
    ∷ []

abbrev pub decoded {ℓ κ} : {A : Type ℓ} {B : Type κ} → (A → B) → Result A → Result B
decoded f (ok a) = ok (f a)
decoded f (err e) = err e
decoded f fault = fault

-- A read of `n` bytes through a pointer, and what is made of them.
abbrev pub peek {ℓ} : {A : Type ℓ} → (Bytes → A) → Option Bytes → ℕ → Result A
peek f p n = decoded f (read p n)

-- The common body of the readers of a fixed number of bytes: the pointer is taken first, then the
-- bytes are consumed, then they are read through the pointer.
unfoldable pub get_fixed : {A : Type 0} → (Bytes → A) → ℕ → Op A
get_fixed f n b = and_then (consume n b) λ _ c. (c, peek f (ptr b) n)

unfoldable pub get : ℕ → Op Bytes
get n = get_fixed (λ v. v) n

unfoldable pub get_u64 : Op ℕ
get_u64 = get_fixed u64_of 8

unfoldable pub get_u32 : Op ℕ
get_u32 = get_fixed u32_of 4

unfoldable pub get_u16 : Op ℕ
get_u16 = get_fixed u16_of 2

unfoldable pub get_u8 : Op ℕ
get_u8 = get_fixed (λ v. byte_at v 0) 1

-- What follows the length, once it is known to be there.
abbrev pub after_length : ℕ → Bytes → Result (Bytes × ℕ)
after_length total p =
    if ltb total 4
    then err message_incomplete
    else if ltb (total - 4) (u32_of p)
    then err message_incomplete
    else ok (drop 4 p, u32_of p)

-- The pointer behind the length field and the length. With fewer than 4 bytes nothing is read.
unfoldable pub peek_string_direct : Sshbuf → Result (Bytes × ℕ)
peek_string_direct b = elim (ptr b) [
  | none ↦ if ltb (len b) 4 then err message_incomplete else fault
  | some p ↦ after_length (len b) p
]

-- Consuming a string that was seen cannot fail; the code reports an internal error if it does.
abbrev pub or_internal : {A : Type 0} → A → Sshbuf × Result (Unit {0}) → Sshbuf × Result A
or_internal a (c, ok _) = (c, ok a)
or_internal a (c, err _) = (c, err internal_error)
or_internal a (c, fault) = (c, fault)

unfoldable pub finish_string : Bytes × ℕ → Op (Bytes × ℕ)
finish_string (p, n) b = or_internal (p, n) (consume (size_t (n + 4)) b)

unfoldable pub get_string_direct : Op (Bytes × ℕ)
get_string_direct = reading peek_string_direct >>= finish_string

-- A copy of `n` bytes with a NUL behind it; `copy_ok` says whether malloc grants the copy.
unfoldable pub copy_out : Bool → Bytes × ℕ → Result (Bytes × ℕ)
copy_out copy_ok (p, n) =
    if copy_ok then peek (λ v. (v ++ (0 ∷ []), n)) (some p) n else err alloc_fail

unfoldable pub get_string : Bool → Op (Bytes × ℕ)
get_string copy_ok = get_string_direct >>= λ s. reading (λ _. copy_out copy_ok s)

-- memchr(p, '\0', n) as an offset.
unfoldable pub memchr_nul : Bytes → ℕ → Option ℕ
memchr_nul p zero = none
memchr_nul [] (suc n) = none
memchr_nul (x ∷ p) (suc n) = if x == 0 then some 0 else Option.map suc (memchr_nul p n)

-- A NUL in front of the last byte.
unfoldable pub inner_nul : Bytes → ℕ → Bool
inner_nul p n = elim (memchr_nul p n) [ none ↦ false | some z ↦ ltb (z + 1) n ]

abbrev pub cstring_after_length : ℕ → Bytes → Result (Bytes × ℕ)
cstring_after_length total p =
    if ltb total 4
    then err message_incomplete
    else if ltb total (size_t (u32_of p + 4))
    then err message_incomplete
    else if inner_nul (drop 4 p) (u32_of p)
    then err invalid_format
    else ok (drop 4 p, u32_of p)

unfoldable pub check_cstring : Sshbuf → Result (Bytes × ℕ)
check_cstring b = elim (ptr b) [
  | none ↦ if ltb (len b) 4 then err message_incomplete else fault
  | some p ↦ cstring_after_length (len b) p
]

-- The code returns -1 if the bytes cannot be consumed, which is the code for an internal error.
unfoldable pub get_cstring : Bool → Op (Bytes × ℕ)
get_cstring copy_ok =
    reading check_cstring >>= λ s. finish_string s >>= λ s. reading (λ _. copy_out copy_ok s)

-- Stores through a pointer to offset `p` of the block.
unfoldable pub store : ℕ → Bytes → Op (Unit {0})
store p v b =
    if leb (p + length v) (length b.mem)
    then (record b { mem = overwrite p v b.mem }, ok tt)
    else (b, fault)

unfoldable pub put : Allocator → Bytes → Op (Unit {0})
put m v = reserve m (length v) >>= λ p. store p v

unfoldable pub put_u64 : Allocator → ℕ → Op (Unit {0})
put_u64 m v = reserve m 8 >>= λ p. store p (u64_bytes v)

unfoldable pub put_u32 : Allocator → ℕ → Op (Unit {0})
put_u32 m v = reserve m 4 >>= λ p. store p (u32_bytes v)

unfoldable pub put_u16 : Allocator → ℕ → Op (Unit {0})
put_u16 m v = reserve m 2 >>= λ p. store p (u16_bytes v)

unfoldable pub put_u8 : Allocator → ℕ → Op (Unit {0})
put_u8 m v = reserve m 1 >>= λ p. store p (v % 256 ∷ [])

abbrev pub string_max : ℕ
string_max = 0xFFFFFFFF - 4

unfoldable pub put_string : Allocator → Bytes → Op (Unit {0})
put_string m v b =
    if ltb string_max (length v)
    then (b, err no_buffer_space)
    else (reserve m (size_t (length v + 4)) >>= λ d.
          store d (u32_bytes (length v)) >> store (d + 4) v)
        b

-- The bytes from `sshbuf_ptr(v)` for `sshbuf_len(v)`, as the two callers below read them.
unfoldable pub whole : Sshbuf → Result Bytes
whole v = read (ptr v) (len v)

unfoldable pub putb : Allocator → Sshbuf → Op (Unit {0})
putb m v = reading (λ _. whole v) >>= put m

unfoldable pub put_stringb : Allocator → Sshbuf → Op (Unit {0})
put_stringb m v = reading (λ _. whole v) >>= put_string m

-- `v` is the C string.
unfoldable pub put_cstring : Allocator → Bytes → Op (Unit {0})
put_cstring m v = put_string m v
