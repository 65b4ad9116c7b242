-- ===== src/Addr/Network.antt =====
-- Networks that `addr_pton_cidr` reads, and the addresses that match them.
use libopenssh.Base.{
  same, ℕ, zero, suc, ◌-◌, ◌%◌, ◌^◌, ◌<◌, ◌≡◌, ◌↔◌, inl, inr, refl, ap, sym, subst, ◌∙◌, true,
  false, not, arith, Bool-cases, Option, none, some, List, Bytes, [], ◌∷◌, length, get_or,
  replicate, ltb, leb, ◌==◌, ==_iff, if◌then◌else◌, ◌||◌,
}
use libopenssh.Match.{at_end}
use libopenssh.Addr.{
  Family, inet, inet6, other, Xaddr, v4, masklen_valid, complement, and_bits, ones_shifted,
  mask_words, mask_of, addr_netmask, and_words, and_of, addr_and, cmp_of, addr_cmp, invert_words,
  invert_of, addr_invert, addr_hostmask, all_zero, zero_of, addr_is_all0s, addr_host_is_all0s,
  addr_netmatch, set_v4, Sockaddr, sin, sin6, sa_other, addr_sa_to_xaddr,
}
use libopenssh.Addr.Bits.{pow_pos, pow_le, and_bits-zero, and_bits-low, ones_shifted-eq}
use libopenssh.Addr.Block.{
  AreWords, AreZero, HostZero, IsAddress, InFamilies, InNet, netmatch_v4, netmatch_v6,
}
use libopenssh.Addr.Parse.{
  Lookup, failed, no_address, found, addr_pton, network, unicast, consistent, addrbuf_size,
  with_masklen, masked, at_slash, addr_pton_cidr, strtoul,
}

-- The host part of a word.
partial-host :
    (l n : ℕ)
    → n < 2 ^ 32
    → and_bits 32 n (complement (if l == 0 then 0 else ones_shifted (32 - l))) ≡ n % 2 ^ (32 - l)
partial-host zero n w = and_bits-low 32 32 n (omega arith)
partial-host (suc l) n w =
    let e : (suc l == 0) ≡ false = ground arith in
    let is : complement (ones_shifted (32 - suc l)) ≡ 2 ^ (32 - suc l) - 1 = omega (
      arith,
      ones_shifted-eq (32 - suc l) (omega arith),
      pow_pos (32 - suc l),
      pow_le (32 - suc l) 32 (omega arith),
    ) in
    rw e (ap (and_bits 32 n) is ∙ and_bits-low 32 (32 - suc l) n (omega arith))

all_zero-rest :
    (ns : List ℕ)
    → AreWords ns
    → all_zero (and_words ns (invert_words (replicate (length ns) 0))) ≡ true
    → AreZero ns
unfolding all_zero and_words invert_words
all_zero-rest [] k e = tt
all_zero-rest (n ∷ ns) (w, k) e =
    let is : and_bits 32 n (complement 0) ≡ n =
      and_bits-low 32 32 n (omega arith) ∙ omega (arith, w) in
    let e' = (rw is at e) in
    elim (Bool-cases (n == 0)) [
      | inl z ↦ ((==_iff n 0).0 z, all_zero-rest ns k (rw z at e'))
      | inr nz ↦ cc (rw nz at e')
    ]

all_zero-HostZero :
    (l : ℕ) (ns : List ℕ)
    → AreWords ns
    → all_zero (and_words ns (invert_words (mask_words (length ns) l))) ≡ true
    → HostZero l ns
unfolding all_zero and_words invert_words mask_words
all_zero-HostZero l [] k e = tt
all_zero-HostZero l (n ∷ ns) (w, k) e = elim (Bool-cases (leb 32 l)) [
  | inl full ↦
      inl (ground arith, all_zero-HostZero (l - 32) ns k (rw (full, and_bits-zero 32 n) at e))
  | inr part ↦
      let e' = (rw (part, partial-host l n w) at e) in
      elim (Bool-cases (n % 2 ^ (32 - l) == 0)) [
        | inl z ↦ inr (ground arith, (==_iff _ 0).0 z, all_zero-rest ns k (rw z at e'))
        | inr nz ↦ cc (rw nz at e')
      ]
]

-- The host part of an address is zero.
abbrev pub HostPart : Family → ℕ → Xaddr → Type 0
HostPart inet l a = v4 a % 2 ^ (32 - l) ≡ 0
HostPart inet6 l a = HostZero l a.addr32
HostPart other l a = ⊥

first_word : (ws : List ℕ) → AreWords ws → get_or ws 0 0 < 2 ^ 32
first_word [] k = omega arith
first_word (w ∷ ws) (h, k) = h

set_v4-first : (v : ℕ) (ws : List ℕ) → length ws ≡ 4 → get_or (set_v4 v ws) 0 0 ≡ v
set_v4-first v [] e = absurd (omega arith)
set_v4-first v (w ∷ ws) e = refl

host_is_all0s-HostPart :
    (af : Family) (a : Xaddr) (l : ℕ)
    → a.af ≡ af
    → IsAddress a
    → masklen_valid af l ≡ true
    → addr_host_is_all0s a l ≡ true
    → HostPart af l a
unfolding addr_host_is_all0s addr_hostmask addr_netmask mask_of addr_invert invert_of addr_and
    and_of addr_is_all0s zero_of
host_is_all0s-HostPart inet a l e w k h =
    let h' = (rw (e, k) at h) in
    let is =
      set_v4-first (and_bits 32 (v4 a) (complement (if l == 0 then 0 else ones_shifted (32 - l))))
        a.addr32 w.four in
    sym (partial-host l (v4 a) (first_word a.addr32 w.words)) ∙ sym is ∙ (==_iff _ 0).0 h'
host_is_all0s-HostPart inet6 a l e w k h =
    let h' = (rw (e, k) at h) in all_zero-HostZero l a.addr32 w.words (rw (sym w.four) at h')
host_is_all0s-HostPart other a l e w k h = cc k

-- Addresses of two kinds never match.
netmatch-InFamilies :
    (f g : Family) (l : ℕ) (host net : Xaddr)
    → host.af ≡ f
    → net.af ≡ g
    → IsAddress host
    → IsAddress net
    → masklen_valid g l ≡ true
    → HostPart g l net
    → (addr_netmatch host net l ≡ same) ↔ InFamilies f g l host net
unfolding addr_netmatch addr_netmask mask_of addr_and and_of addr_cmp cmp_of masklen_valid
netmatch-InFamilies inet inet l host net e d h n k z =
    let part = if l == 0 then 0 else ones_shifted (32 - l) in
    let first = set_v4-first (and_bits 32 (v4 host) part) host.addr32 h.four in
    rw (e, d, k) (rw first (netmatch_v4 l (v4 host) (v4 net) (first_word host.addr32 h.words) z))
netmatch-InFamilies inet6 inet6 l host net e d h n k z = rw (e, d, k) (netmatch_v6 l host net h n z)
netmatch-InFamilies inet inet6 l host net e d h n k z = rw (e, d) (λ q. cc q, λ q. absurd q)
netmatch-InFamilies inet6 inet l host net e d h n k z = rw (e, d) (λ q. cc q, λ q. absurd q)
netmatch-InFamilies other inet l host net e d h n k z = rw (e, d) (λ q. cc q, λ q. absurd q)
netmatch-InFamilies other inet6 l host net e d h n k z = rw (e, d) (λ q. cc q, λ q. absurd q)
netmatch-InFamilies f other l host net e d h n k z = cc k

-- What getaddrinfo gives is made of 32-bit words.
abbrev pub IsSockaddr : Sockaddr → Type 0
IsSockaddr (sin long v) = v < 2 ^ 32
IsSockaddr (sin6 long w0 w1 w2 w3 scope) =
    (w0 < 2 ^ 32) × (w1 < 2 ^ 32) × (w2 < 2 ^ 32) × (w3 < 2 ^ 32)
IsSockaddr sa_other = Unit {0}

abbrev pub IsLookup : Lookup → Type 0
IsLookup (found sa) = IsSockaddr sa
IsLookup _ = Unit {0}

some-eq : {a b : Xaddr} → ◌≡◌ {A = Option Xaddr} (some a) (some b) → a ≡ b
some-eq e = cc e

sa_to_xaddr-IsAddress :
    (sa : Sockaddr) (a : Xaddr) → IsSockaddr sa → addr_sa_to_xaddr sa ≡ some a → IsAddress a
unfolding addr_sa_to_xaddr
sa_to_xaddr-IsAddress (sin true v) a k e =
    subst IsAddress (some-eq e)
      (record { four = refl; words = (k, (omega arith, (omega arith, (omega arith, tt)))) })
sa_to_xaddr-IsAddress (sin false v) a k e = cc e
sa_to_xaddr-IsAddress (sin6 true w0 w1 w2 w3 scope) a k e =
    subst IsAddress (some-eq e) (record { four = refl; words = (k.0, (k.1, (k.2, (k.3, tt)))) })
sa_to_xaddr-IsAddress (sin6 false w0 w1 w2 w3 scope) a k e = cc e
sa_to_xaddr-IsAddress sa_other a k e = cc e

lookup-IsAddress :
    (o : Lookup) (a : Xaddr)
    → IsLookup o
    → elim o [ failed ↦ none | no_address ↦ none | found sa ↦ addr_sa_to_xaddr sa ] ≡ some a
    → IsAddress a
lookup-IsAddress failed a k e = cc e
lookup-IsAddress no_address a k e = cc e
lookup-IsAddress (found sa) a k e = sa_to_xaddr-IsAddress sa a k e

-- What the parse gives has a valid mask length, and its host part is zero.
record Read (net : Xaddr) (l : ℕ) : Type 0 where
  is_address : IsAddress net
  valid : masklen_valid net.af l ≡ true
  host_zero : addr_host_is_all0s net l ≡ true

consistent-Read :
    (tmp net : Xaddr) (o : Option ℕ) (l : ℕ)
    → IsAddress tmp
    → consistent tmp o ≡ network net l
    → Read net l
unfolding consistent
consistent-Read tmp net none l w e = cc e
consistent-Read tmp net (some m) l w e = elim (Bool-cases (masklen_valid tmp.af m)) [
  | inr bad ↦ cc (rw bad at e)
  | inl good ↦ elim (Bool-cases (addr_host_is_all0s tmp m)) [
    | inr bad ↦ cc (rw (good, bad) at e)
    | inl zero_part ↦
        let e' = (rw (good, zero_part) at e) in
        let is : tmp ≡ net = cc e' in
        let len : m ≡ l = cc e' in
        subst (Read net) len (
          subst (λ a. Read a m) is (record { is_address = w; valid = good; host_zero = zero_part }))
  ]
]

with_masklen-Read :
    (t : Option Xaddr) (net : Xaddr) (o : Option ℕ) (l : ℕ)
    → ((a : Xaddr) → t ≡ some a → IsAddress a)
    → with_masklen t o ≡ network net l
    → Read net l
unfolding with_masklen
with_masklen-Read none net o l w e = cc e
with_masklen-Read (some tmp) net none l w e =
    consistent-Read tmp net (unicast tmp.af) l (w tmp refl) e
with_masklen-Read (some tmp) net (some m) l w e = consistent-Read tmp net (some m) l (w tmp refl) e

masked-Read :
    (resolve : Bytes → Lookup) (q : Bytes × Option Bytes) (net : Xaddr) (l : ℕ)
    → ((p : Bytes) → IsLookup (resolve p))
    → masked resolve q ≡ network net l
    → Read net l
unfolding masked addr_pton
masked-Read resolve (front, none) net l w e =
    with_masklen-Read _ net none l (λ a. lookup-IsAddress (resolve front) a (w front)) e
masked-Read resolve (front, some mp) net l w e =
    elim (Bool-cases (at_end mp || not (at_end (strtoul mp).1) || ltb 128 (strtoul mp).0)) [
      | inl bad ↦ cc (rw bad at e)
      | inr good ↦
          with_masklen-Read _ net (some (strtoul mp).0) l
            (λ a. lookup-IsAddress (resolve front) a (w front)) (rw good at e)
    ]

-- If addr_pton_cidr reads a network from a string, addr_netmatch finds exactly the addresses in it:
-- those of its family whose words agree with the network's in front of the word that the mask cuts,
-- and whose word there lies in the network's block; for IPv6 on the same interface.
pub addr_netmatch-InNet :
    (resolve : Bytes → Lookup) (p : Bytes) (net : Xaddr) (l : ℕ) (host : Xaddr)
    → ((q : Bytes) → IsLookup (resolve q))
    → addr_pton_cidr resolve p ≡ network net l
    → IsAddress host
    → (addr_netmatch host net l ≡ same) ↔ InNet l host net
unfolding addr_pton_cidr
addr_netmatch-InNet resolve p net l host w e h = elim (Bool-cases (leb addrbuf_size (length p))) [
  | inl long ↦ cc (rw long at e)
  | inr short ↦
      let r = masked-Read resolve (at_slash p) net l w (rw short at e) in
      netmatch-InFamilies host.af net.af l host net refl refl h r.is_address r.valid
        (host_is_all0s-HostPart net.af net l refl r.is_address r.valid r.host_zero)
]
