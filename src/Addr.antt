-- ===== src/Addr.antt =====
-- ssh/addrmatch.c: addresses, masks, and lists of networks in CIDR form. `addr32` holds the four words
-- of the union, each as the number that ntohl makes of it; `v4` is the first. A function that fills a
-- struct returns it, or `none` for -1. getaddrinfo is the parameter `resolve`.
pub mod Bits
pub mod Block
pub mod Network
pub mod Parse
pub mod Lists
pub mod Cidr
pub mod Verdicts
use libopenssh.Base.{
  Order, below, same, above, ℕ, zero, suc, ◌+◌, ◌-◌, ◌*◌, ◌/◌, ◌%◌, ◌^◌, min, Bool, true, false,
  not, ◌&&◌, ◌||◌, Option, none, some, List, Bytes, [], ◌∷◌, ◌++◌, length, get_or, replicate, ltb,
  leb, ◌==◌, if◌then◌else◌, codes,
}
use libopenssh.Getput.{u32_bytes}

pub data Family : Type 0 where
  inet inet6 other : Family

-- The struct without its padding.
pub record Xaddr : Type 0 where
  pub af : Family
  pub addr32 : List ℕ
  pub scope_id : ℕ

abbrev pub v4 : Xaddr → ℕ
v4 a = get_or a.addr32 0 0

abbrev pub set_v4 : ℕ → List ℕ → List ℕ
set_v4 v [] = []
set_v4 v (w ∷ ws) = v ∷ ws

abbrev pub cleared : Xaddr
cleared = record { af = other; addr32 = 0 ∷ 0 ∷ 0 ∷ 0 ∷ []; scope_id = 0 }

abbrev pub same_family : Family → Family → Bool
same_family inet inet = true
same_family inet6 inet6 = true
same_family other other = true
same_family _ _ = false

unfoldable pub masklen_valid : Family → ℕ → Bool
masklen_valid inet l = leb l 32
masklen_valid inet6 l = leb l 128
masklen_valid other l = false

-- What getaddrinfo finds for a numeric host: `long_enough` says that the length of the address is not
-- below that of its struct. A family that is not one of the two is `sa_other`.
pub data Sockaddr : Type 0 where
  sin : (long_enough : Bool) (address : ℕ) → Sockaddr
  sin6 : (long_enough : Bool) (w0 w1 w2 w3 scope : ℕ) → Sockaddr
  sa_other : Sockaddr

unfoldable pub addr_sa_to_xaddr : Sockaddr → Option Xaddr
addr_sa_to_xaddr (sin long_enough v) =
    if long_enough then some (record cleared { af = inet; addr32 = v ∷ 0 ∷ 0 ∷ 0 ∷ [] }) else none
addr_sa_to_xaddr (sin6 long_enough w0 w1 w2 w3 scope) =
    if long_enough
    then some (record { af = inet6; addr32 = w0 ∷ w1 ∷ w2 ∷ w3 ∷ []; scope_id = scope })
    else none
addr_sa_to_xaddr sa_other = none

-- The operations of a word: `a & b` on its `n` low bits, `~a`, and `0xffffffff << k`.
unfoldable pub and_bits : ℕ → ℕ → ℕ → ℕ
and_bits zero a b = 0
and_bits (suc n) a b = and_bits n (a / 2) (b / 2) * 2 + min (a % 2) (b % 2)

abbrev pub all_ones : ℕ
all_ones = 0xffffffff

abbrev pub complement : ℕ → ℕ
complement a = all_ones - a

unfoldable pub ones_shifted : ℕ → ℕ
ones_shifted k = all_ones * 2 ^ k % 2 ^ 32

-- The loop over the words of an IPv6 mask, and the partial word behind it; `n` words are left.
unfoldable pub mask_words : ℕ → ℕ → List ℕ
mask_words zero l = []
mask_words (suc n) l =
    let rest = mask_words n (l - 32) in
    if leb 32 l
    then all_ones ∷ rest
    else (if l == 0 then 0 else ones_shifted (32 - l)) ∷ replicate n 0

unfoldable pub mask_of : Family → ℕ → Option Xaddr
mask_of inet l = some (record cleared {
  af = inet;
  addr32 = set_v4 (if l == 0 then 0 else ones_shifted (32 - l)) cleared.addr32;
})
mask_of inet6 l = some (record cleared { af = inet6; addr32 = mask_words 4 l })
mask_of other l = none

unfoldable pub addr_netmask : Family → ℕ → Option Xaddr
addr_netmask af l = if not (masklen_valid af l) then none else mask_of af l

unfoldable pub and_words : List ℕ → List ℕ → List ℕ
and_words (a ∷ xs) (b ∷ ys) = and_bits 32 a b ∷ and_words xs ys
and_words xs _ = xs

unfoldable pub and_of : Family → Xaddr → Xaddr → Option Xaddr
and_of inet a b = some (record a { addr32 = set_v4 (and_bits 32 (v4 a) (v4 b)) a.addr32 })
and_of inet6 a b = some (record a { addr32 = and_words a.addr32 b.addr32 })
and_of other a b = none

unfoldable pub addr_and : Xaddr → Xaddr → Option Xaddr
addr_and a b = if not (same_family a.af b.af) then none else and_of a.af a b

abbrev pub order : ℕ → ℕ → Order
order a b = if a == b then same else if ltb b a then above else below

-- The sixteen bytes.
unfoldable pub addr8 : List ℕ → Bytes
addr8 [] = []
addr8 (w ∷ ws) = u32_bytes w ++ addr8 ws

unfoldable pub cmp_bytes : Bytes → Bytes → Order → Order
cmp_bytes (x ∷ xs) (y ∷ ys) equal =
    let rest = cmp_bytes xs ys equal in if x == y then rest else if ltb y x then above else below
cmp_bytes _ _ equal = equal

unfoldable pub cmp_of : Family → Xaddr → Xaddr → Order
cmp_of inet a b = order (v4 a) (v4 b)
cmp_of inet6 a b = cmp_bytes (addr8 a.addr32) (addr8 b.addr32) (order a.scope_id b.scope_id)
cmp_of other a b = below

abbrev pub is_inet6 : Family → Bool
is_inet6 inet6 = true
is_inet6 _ = false

unfoldable pub addr_cmp : Xaddr → Xaddr → Order
addr_cmp a b =
    if not (same_family a.af b.af) then if is_inet6 a.af then above else below else cmp_of a.af a b

unfoldable pub invert_words : List ℕ → List ℕ
invert_words [] = []
invert_words (w ∷ ws) = complement w ∷ invert_words ws

unfoldable pub invert_of : Family → Xaddr → Option Xaddr
invert_of inet n = some (record n { addr32 = set_v4 (complement (v4 n)) n.addr32 })
invert_of inet6 n = some (record n { addr32 = invert_words n.addr32 })
invert_of other n = none

unfoldable pub addr_invert : Xaddr → Option Xaddr
addr_invert n = invert_of n.af n

abbrev pub and_option {ℓ κ} : {A : Type ℓ} {B : Type κ} → Option A → (A → Option B) → Option B
and_option none f = none
and_option (some a) f = f a

unfoldable pub addr_hostmask : Family → ℕ → Option Xaddr
addr_hostmask af l = and_option (addr_netmask af l) addr_invert

unfoldable pub all_zero : List ℕ → Bool
all_zero [] = true
all_zero (w ∷ ws) = if not (w == 0) then false else all_zero ws

unfoldable pub zero_of : Family → Xaddr → Bool
zero_of inet a = v4 a == 0
zero_of inet6 a = all_zero a.addr32
zero_of other a = false

unfoldable pub addr_is_all0s : Xaddr → Bool
addr_is_all0s a = zero_of a.af a

abbrev pub is_zero_address : Option Xaddr → Bool
is_zero_address none = false
is_zero_address (some a) = addr_is_all0s a

unfoldable pub addr_host_is_all0s : Xaddr → ℕ → Bool
addr_host_is_all0s a l = is_zero_address (and_option (addr_hostmask a.af l) (addr_and a))

-- `none` stands for the -1 of a call that fails, which is also that of a smaller address.
abbrev pub cmp_option : Option Xaddr → Xaddr → Order
cmp_option none net = below
cmp_option (some a) net = addr_cmp a net

unfoldable pub addr_netmatch : Xaddr → Xaddr → ℕ → Order
addr_netmatch host net l =
    if not (same_family host.af net.af)
    then below
    else cmp_option (and_option (addr_netmask host.af l) (addr_and host)) net
