-- ===== src/Addr/Parse.antt =====
-- Reading addresses and networks.
use libopenssh.Base.{
  ℕ, zero, suc, ◌+◌, ◌-◌, ◌*◌, ◌^◌, Bool, true, false, not, ◌&&◌, ◌||◌, Option, none, some, Bytes,
  [], ◌∷◌, length, ltb, leb, ◌==◌, if◌then◌else◌,
}
use libopenssh.Match.{at_end}
use libopenssh.Addr.{
  Family, inet, inet6, other, Xaddr, Sockaddr, addr_sa_to_xaddr, masklen_valid, addr_host_is_all0s,
}

-- What getaddrinfo does with a numeric host.
pub data Lookup : Type 0 where
  failed no_address : Lookup
  found : Sockaddr → Lookup

unfoldable pub addr_pton : (Bytes → Lookup) → Bytes → Option Xaddr
addr_pton resolve p = elim (resolve p) [
  | failed ↦ none
  | no_address ↦ none
  | found sa ↦ addr_sa_to_xaddr sa
]

abbrev pub ulong_max : ℕ
ulong_max = 2 ^ 64 - 1

-- strtoul in base 10, as the C standard has it: the value and the rest of the string. White space and
-- a sign may stand in front; a value that is too large gives ULONG_MAX, a minus sign negates modulo
-- 2 ^ 64, and without a digit the rest is the whole string.
abbrev pub is_space : ℕ → Bool
is_space c = c == b' ' || (leb 9 c && leb c 13)

abbrev pub is_digit : ℕ → Bool
is_digit c = leb b'0' c && leb c b'9'

unfoldable pub skip_space : Bytes → Bytes
skip_space [] = []
skip_space (c ∷ s) = let rest = skip_space s in if is_space c then rest else c ∷ s

-- The digits at the front with the value so far; `none` once it is too large.
unfoldable pub digits : Option ℕ → Bytes → Option ℕ × Bytes
digits value [] = (value, [])
digits value (c ∷ s) =
    if is_digit c
    then digits
        (elim value [
          | none ↦ none
          | some n ↦
              if ltb ulong_max (n * 10 + (c - b'0')) then none else some (n * 10 + (c - b'0'))
        ])
        s
    else (value, c ∷ s)

abbrev pub starts_with_digit : Bytes → Bool
starts_with_digit [] = false
starts_with_digit (c ∷ s) = is_digit c

abbrev pub unsigned_value : Bool → Option ℕ → ℕ
unsigned_value minus none = ulong_max
unsigned_value minus (some zero) = 0
unsigned_value minus (some (suc n)) = if minus then 2 ^ 64 - suc n else suc n

abbrev pub behind_sign : Bytes → Bool → Bytes → ℕ × Bytes
behind_sign whole minus s =
    if starts_with_digit s
    then (let (value, rest) = digits (some 0) s in (unsigned_value minus value, rest))
    else (0, whole)

abbrev pub signed_number : Bytes → Bytes → ℕ × Bytes
signed_number whole [] = behind_sign whole false []
signed_number whole (c ∷ s) =
    if c == b'-'
    then behind_sign whole true s
    else if c == b'+'
    then behind_sign whole false s
    else behind_sign whole false (c ∷ s)

unfoldable pub strtoul : Bytes → ℕ × Bytes
strtoul s = signed_number s (skip_space s)

-- The string in front of the first slash, and what stands behind it.
unfoldable pub at_slash : Bytes → Bytes × Option Bytes
at_slash [] = ([], none)
at_slash (c ∷ s) =
    let (front, rest) = at_slash s in if c == b'/' then ([], some s) else (c ∷ front, rest)

-- The results 0, -1 and -2 of `addr_pton_cidr`.
pub data Cidr : Type 0 where
  network : Xaddr → ℕ → Cidr
  unreadable inconsistent : Cidr

-- sizeof(addrbuf)
abbrev pub addrbuf_size : ℕ
addrbuf_size = 64

abbrev pub unicast : Family → Option ℕ
unicast inet = some 32
unicast inet6 = some 128
unicast other = none

-- The tests at the end, for the address and the mask length; a length of -1 is never valid.
unfoldable pub consistent : Xaddr → Option ℕ → Cidr
consistent tmp none = inconsistent
consistent tmp (some l) =
    if not (masklen_valid tmp.af l)
    then inconsistent
    else if not (addr_host_is_all0s tmp l)
    then inconsistent
    else network tmp l

-- The end of `addr_pton_cidr`: the mask length is that of the string, if there is one.
unfoldable pub with_masklen : Option Xaddr → Option ℕ → Cidr
with_masklen none l = unreadable
with_masklen (some tmp) none = consistent tmp (unicast tmp.af)
with_masklen (some tmp) (some l) = consistent tmp (some l)

unfoldable pub masked : (Bytes → Lookup) → Bytes × Option Bytes → Cidr
masked resolve (front, none) = with_masklen (addr_pton resolve front) none
masked resolve (front, some mp) =
    let (masklen, cp) = strtoul mp in
    if at_end mp || not (at_end cp) || ltb 128 masklen
    then unreadable
    else with_masklen (addr_pton resolve front) (some masklen)

unfoldable pub addr_pton_cidr : (Bytes → Lookup) → Bytes → Cidr
addr_pton_cidr resolve p =
    if leb addrbuf_size (length p) then unreadable else masked resolve (at_slash p)
