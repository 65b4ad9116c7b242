-- ===== src/Addr/Block.antt =====
-- What it means that an address is in a network, and that the mask arithmetic decides it.
use libopenssh.Base.{
  Order, below, same, above, ℕ, zero, suc, ◌+◌, ◌-◌, ◌*◌, ◌%◌, ◌^◌, ◌≤◌, ◌<◌, ◌≡◌, ◌↔◌, ◌⊎◌, inl,
  inr, refl, ap, ◌∙◌, Bool, true, false, arith, Bool-cases, List, Bytes, [], ◌∷◌, ◌++◌, length,
  replicate, length-replicate, ltb, leb, ◌==◌, ==_iff, if◌then◌else◌,
}
use libopenssh.Getput.{u32_bytes, octet}
use libopenssh.Addr.{
  Family, inet, inet6, Xaddr, v4, all_ones, and_bits, ones_shifted, mask_words, and_words, order,
  addr8, cmp_bytes,
}
use libopenssh.Addr.Bits.{pow_pos, and_bits-zero, and_bits-high, and_bits-low, ones_shifted-eq}

abbrev pub AreWords : List ℕ → Type 0
AreWords [] = Unit {0}
AreWords (w ∷ ws) = (w < 2 ^ 32) × AreWords ws

abbrev pub AreZero : List ℕ → Type 0
AreZero [] = Unit {0}
AreZero (w ∷ ws) = (w ≡ 0) × AreZero ws

-- The words in front of the one that the mask cuts are equal, and that one lies in the block of the
-- network; behind it anything goes.
abbrev pub InWords : ℕ → List ℕ → List ℕ → Type 0
InWords l (h ∷ hs) (n ∷ ns) =
    ((32 ≤ l) × (h ≡ n) × InWords (l - 32) hs ns) ⊎ ((l < 32) × (n ≤ h) × (h < n + 2 ^ (32 - l)))
InWords l _ _ = Unit {0}

-- The bits of the host part are zero.
abbrev pub HostZero : ℕ → List ℕ → Type 0
HostZero l [] = Unit {0}
HostZero l (n ∷ ns) =
    ((32 ≤ l) × HostZero (l - 32) ns) ⊎ ((l < 32) × (n % 2 ^ (32 - l) ≡ 0) × AreZero ns)

-- A word without its bits below `l`, and all words likewise.
abbrev cut_word : ℕ → ℕ → ℕ
cut_word l h = h - h % 2 ^ (32 - l)

abbrev cut : ℕ → List ℕ → List ℕ
cut l [] = []
cut l (h ∷ hs) = if leb 32 l then h ∷ cut (l - 32) hs else cut_word l h ∷ replicate (length hs) 0

-- The mask of a word that is cut.
partial-cut :
    (l h : ℕ)
    → h < 2 ^ 32
    → and_bits 32 h (if l == 0 then 0 else ones_shifted (32 - l)) ≡ cut_word l h
partial-cut zero h w = omega (arith, and_bits-zero 32 h)
partial-cut (suc l) h w =
    let e : (suc l == 0) ≡ false = ground arith in
    rw e (
      ap (and_bits 32 h) (ones_shifted-eq (32 - suc l) (omega arith))
      ∙ and_bits-high 32 (32 - suc l) h (omega arith) w)

all_ones-cut : (h : ℕ) → h < 2 ^ 32 → and_bits 32 h all_ones ≡ h
all_ones-cut h w = and_bits-low 32 32 h (omega arith) ∙ omega arith

and_words-zero : (hs : List ℕ) → and_words hs (replicate (length hs) 0) ≡ replicate (length hs) 0
unfolding and_words
and_words-zero [] = refl
and_words-zero (h ∷ hs) = rw (and_bits-zero 32 h, and_words-zero hs) refl

and_words-mask :
    (l : ℕ) (hs : List ℕ) → AreWords hs → and_words hs (mask_words (length hs) l) ≡ cut l hs
unfolding and_words mask_words
and_words-mask l [] k = refl
and_words-mask l (h ∷ hs) (w, k) = elim (Bool-cases (leb 32 l)) [
  | inl full ↦ rw (full, mask_words) (rw (all_ones-cut h w, and_words-mask (l - 32) hs k) refl)
  | inr part ↦ rw (part, mask_words) (rw (partial-cut l h w, and_words-zero hs) refl)
]

replicate-AreZero : (ns : List ℕ) → AreZero ns → replicate (length ns) 0 ≡ ns
replicate-AreZero [] z = refl
replicate-AreZero (n ∷ ns) (e, z) = rw (e, replicate-AreZero ns z) refl

-- A number is the cut of another exactly if that lies in its block.
block_iff : (h n x : ℕ) → 1 ≤ x → n % x ≡ 0 → (h - h % x ≡ n) ↔ ((n ≤ h) × (h < n + x))
block_iff h n x p z = (λ e. grind arith, λ k. grind arith)

cut-InWords :
    (l : ℕ) (hs ns : List ℕ)
    → length hs ≡ length ns
    → HostZero l ns
    → (cut l hs ≡ ns) ↔ InWords l hs ns
cut-InWords l [] [] e z = (λ k. tt, λ k. refl)
cut-InWords l [] (n ∷ ns) e z = absurd (omega arith)
cut-InWords l (h ∷ hs) [] e z = absurd (omega arith)
cut-InWords l (h ∷ hs) (n ∷ ns) e (inl (full, z)) =
    let b : leb 32 l ≡ true = ground arith in
    let (to, from) = cut-InWords (l - 32) hs ns (omega arith) z in
    rw b (
      λ k. inl (full, cc k, to (cc k)),
      λ q. elim q [ inl k ↦ cc (k.1, from k.2) | inr k ↦ absurd (omega (arith, full, k.0)) ],
    )
cut-InWords l (h ∷ hs) (n ∷ ns) e (inr (part, z, zs)) =
    let b : leb 32 l ≡ false = ground arith in
    let (to, from) = block_iff h n (2 ^ (32 - l)) (pow_pos (32 - l)) z in
    let len : length hs ≡ length ns = omega arith in
    let rest = ap (λ (m : ℕ). replicate m 0) len ∙ replicate-AreZero ns zs in
    rw b (
      λ k. let b = to (cc k) in inr (part, b.0, b.1),
      λ q. elim q [
        | inl k ↦ absurd (omega (arith, part, k.0))
        | inr k ↦ cc (from (k.1, k.2), rest)
      ],
    )

-- Four words.
pub record IsAddress (a : Xaddr) : Type 0 where
  pub four : length a.addr32 ≡ 4
  pub words : AreWords a.addr32

octets-eq :
    (w v : ℕ) (r s : Bytes)
    → w < 2 ^ 32
    → v < 2 ^ 32
    → u32_bytes w ++ r ≡ u32_bytes v ++ s
    → (w ≡ v) × (r ≡ s)
unfolding u32_bytes
octets-eq w v r s hw hv e =
    let e₀ : octet w 24 ≡ octet v 24 = cc e in
    let e₁ : octet w 16 ≡ octet v 16 = cc e in
    let e₂ : octet w 8 ≡ octet v 8 = cc e in
    let e₃ : octet w 0 ≡ octet v 0 = cc e in (omega (arith, hw, hv, e₀, e₁, e₂, e₃), cc e)

addr8-eq :
    (xs ys : List ℕ)
    → AreWords xs
    → AreWords ys
    → length xs ≡ length ys
    → addr8 xs ≡ addr8 ys
    → xs ≡ ys
unfolding addr8
addr8-eq [] [] k m e h = refl
addr8-eq [] (y ∷ ys) k m e h = absurd (omega arith)
addr8-eq (x ∷ xs) [] k m e h = absurd (omega arith)
addr8-eq (x ∷ xs) (y ∷ ys) (w, k) (v, m) e h =
    let (is, rest) = octets-eq x y (addr8 xs) (addr8 ys) w v h in
    cc (is, addr8-eq xs ys k m (omega arith) rest)

length-addr8 : (xs : List ℕ) → length (addr8 xs) ≡ 4 * length xs
unfolding addr8 u32_bytes
length-addr8 [] = refl
length-addr8 (x ∷ xs) = omega (arith, length-addr8 xs)

order_differs : (b : Bool) → ◌≡◌ {A = Order} (if b then above else below) same → ⊥
order_differs true e = cc e
order_differs false e = cc e

order-same : (a b : ℕ) → (order a b ≡ same) ↔ (a ≡ b)
order-same a b = elim (Bool-cases (a == b)) [
  | inl is ↦ rw is (λ k. (==_iff a b).0 is, λ k. refl)
  | inr isnt ↦
      rw isnt (λ k. absurd (order_differs (ltb b a) k), λ k. absurd (cc (isnt, (==_iff a b).1 k)))
]

cmp_bytes-same :
    (xs ys : Bytes) (equal : Order)
    → length xs ≡ length ys
    → (cmp_bytes xs ys equal ≡ same) ↔ ((xs ≡ ys) × (equal ≡ same))
unfolding cmp_bytes
cmp_bytes-same [] [] equal e = (λ k. (refl, k), λ k. k.1)
cmp_bytes-same [] (y ∷ ys) equal e = absurd (omega arith)
cmp_bytes-same (x ∷ xs) [] equal e = absurd (omega arith)
cmp_bytes-same (x ∷ xs) (y ∷ ys) equal e =
    let (to, from) = cmp_bytes-same xs ys equal (omega arith) in
    elim (Bool-cases (x == y)) [
      | inl is ↦
          let xy = (==_iff x y).0 is in
          rw is (λ k. let p = to k in (cc (xy, p.0), p.1), λ k. from (cc k.0, k.1))
      | inr isnt ↦ rw isnt (
        λ k. absurd (order_differs (ltb y x) k),
        λ k. absurd (cc (isnt, (==_iff x y).1 (cc k.0))),
      )
    ]

length-cut : (l : ℕ) (hs : List ℕ) → length (cut l hs) ≡ length hs
length-cut l [] = refl
length-cut l (h ∷ hs) = elim (Bool-cases (leb 32 l)) [
  | inl full ↦ rw full (ap suc (length-cut (l - 32) hs))
  | inr part ↦ rw part (ap suc (length-replicate (length hs) 0))
]

zeros-AreWords : (k : ℕ) → AreWords (replicate k 0)
zeros-AreWords zero = tt
zeros-AreWords (suc k) = (omega arith, zeros-AreWords k)

cut-AreWords : (l : ℕ) (hs : List ℕ) → AreWords hs → AreWords (cut l hs)
cut-AreWords l [] k = tt
cut-AreWords l (h ∷ hs) (w, k) = elim (Bool-cases (leb 32 l)) [
  | inl full ↦ rw full (w, cut-AreWords (l - 32) hs k)
  | inr part ↦ rw part (omega (arith, w), zeros-AreWords (length hs))
]

-- An address is in a network of `l` bits: the families agree and the words are in its block, for IPv6
-- with the same interface.
abbrev pub InFamilies : Family → Family → ℕ → Xaddr → Xaddr → Type 0
InFamilies inet inet l h n = (v4 n ≤ v4 h) × (v4 h < v4 n + 2 ^ (32 - l))
InFamilies inet6 inet6 l h n = InWords l h.addr32 n.addr32 × (h.scope_id ≡ n.scope_id)
InFamilies _ _ l h n = ⊥

abbrev pub InNet : ℕ → Xaddr → Xaddr → Type 0
InNet l h n = InFamilies h.af n.af l h n

pub netmatch_v6 :
    (l : ℕ) (host net : Xaddr)
    → IsAddress host
    → IsAddress net
    → HostZero l net.addr32
    → (cmp_bytes
          (addr8 (and_words host.addr32 (mask_words 4 l)))
          (addr8 net.addr32)
          (order host.scope_id net.scope_id)
        ≡ same)
      ↔ (InWords l host.addr32 net.addr32 × (host.scope_id ≡ net.scope_id))
netmatch_v6 l host net h n z =
    let is : and_words host.addr32 (mask_words 4 l) ≡ cut l host.addr32 =
      rw h.four at (and_words-mask l host.addr32 h.words) in
    let same_len : length (cut l host.addr32) ≡ length net.addr32 =
      omega (arith, length-cut l host.addr32, h.four, n.four) in
    let (to, from) =
      cmp_bytes-same (addr8 (cut l host.addr32)) (addr8 net.addr32)
        (order host.scope_id net.scope_id)
        (omega (arith, length-addr8 (cut l host.addr32), length-addr8 net.addr32, same_len)) in
    let (into, out) = cut-InWords l host.addr32 net.addr32 (omega (arith, h.four, n.four)) z in
    let scopes = order-same host.scope_id net.scope_id in
    rw is (
      λ k.
          let p = to k in
          (
            into (
                addr8-eq (cut l host.addr32) net.addr32 (cut-AreWords l host.addr32 h.words) n.words
                  same_len p.0),
            scopes.0 p.1,
          ),
      λ k. from (ap addr8 (out k.0), scopes.1 k.1),
    )

pub netmatch_v4 :
    (l : ℕ) (h n : ℕ)
    → h < 2 ^ 32
    → n % 2 ^ (32 - l) ≡ 0
    → (order (and_bits 32 h (if l == 0 then 0 else ones_shifted (32 - l))) n ≡ same)
      ↔ ((n ≤ h) × (h < n + 2 ^ (32 - l)))
netmatch_v4 l h n w z =
    let (to, from) = block_iff h n (2 ^ (32 - l)) (pow_pos (32 - l)) z in
    let (eq, back) = order-same (cut_word l h) n in
    rw (partial-cut l h w) (λ k. to (eq k), λ k. back (from k))
