-- ===== src/Krl/Ranges.antt =====
-- Lists of ranges of serial numbers: what they cover, and how the loops of insert_serial_range join them.
use libopenssh.Base.{
  ℕ, ◌+◌, ◌-◌, ◌≤◌, ◌≡◌, ◌↔◌, ◌⊎◌, inl, inr, arith, not, ◌&&◌, Bool-cases, List, [], ◌∷◌, ltb, ◌==◌,
  if◌then◌else◌,
}
use libopenssh.Krl.{Serials, u64_max, absorb_before, absorb_after}

abbrev pub Within : ℕ → Serials → Type 0
Within s r = (r.lo ≤ s) × (s ≤ r.hi)

-- Some range contains the number.
abbrev pub Covered : ℕ → List Serials → Type 0
Covered s [] = ⊥
Covered s (r ∷ rs) = Within s r ⊎ Covered s rs

-- Ranges in order, from `m` on, of which no two overlap or abut.
abbrev pub From : ℕ → List Serials → Type 0
From m [] = Unit {0}
From m (r ∷ rs) = (m ≤ r.lo) × (r.lo ≤ r.hi) × (r.hi ≤ u64_max) × From (r.hi + 2) rs

-- The same for the ranges in front of a place, the nearest first: they end two in front of `k`.
abbrev pub Upto : ℕ → List Serials → Type 0
Upto k [] = Unit {0}
Upto k (r ∷ b) = (r.hi + 2 ≤ k) × (r.lo ≤ r.hi) × Upto r.lo b

pub Upto-le : (b : List Serials) (j k : ℕ) → j ≤ k → Upto j b → Upto k b
Upto-le [] j k h u = tt
Upto-le (r ∷ b) j k h (u, v, w) = (omega (arith, h, u), v, w)

pub From-le : (a : List Serials) (j k : ℕ) → j ≤ k → From k a → From j a
From-le [] j k h u = tt
From-le (r ∷ a) j k h (u, v, w, z) = (omega (arith, h, u), v, w, z)

-- The least, and the greatest, of two numbers as the loops choose it.
pub lesser_lem :
    (x y : ℕ)
    → ((if ltb x y then x else y) ≤ x)
      × ((if ltb x y then x else y) ≤ y)
      × (((if ltb x y then x else y) ≡ x) ⊎ ((if ltb x y then x else y) ≡ y))
lesser_lem x y = elim (Bool-cases (ltb x y)) [
  | inl p ↦ rw p (ground arith)
  | inr p ↦ rw p (ground arith)
]

pub greater_lem :
    (x y : ℕ)
    → (x ≤ (if ltb x y then y else x))
      × (y ≤ (if ltb x y then y else x))
      × (((if ltb x y then y else x) ≡ x) ⊎ ((if ltb x y then y else x) ≡ y))
greater_lem x y = elim (Bool-cases (ltb x y)) [
  | inl p ↦ rw p (ground arith)
  | inr p ↦ rw p (ground arith)
]

-- A range that reaches up to `lo` and one from `lo` to `hi` make one from `n` to `hi`.
join_front :
    (s n lo hi x y : ℕ)
    → x ≤ y
    → y ≤ hi
    → lo ≤ y + 1
    → n ≤ x
    → n ≤ lo
    → ((n ≡ x) ⊎ (n ≡ lo))
    → ((((x ≤ s) × (s ≤ y)) ⊎ ((lo ≤ s) × (s ≤ hi))) → (n ≤ s) × (s ≤ hi))
      × ((n ≤ s) × (s ≤ hi) → (((x ≤ s) × (s ≤ y)) ⊎ ((lo ≤ s) × (s ≤ hi))))
join_front s n lo hi x y a b c d e f = (λ q. ground arith, λ q. ground arith)

join_back :
    (s n lo hi x y : ℕ)
    → lo ≤ x
    → x ≤ y
    → x ≤ hi + 1
    → y ≤ n
    → hi ≤ n
    → ((n ≡ hi) ⊎ (n ≡ y))
    → ((((x ≤ s) × (s ≤ y)) ⊎ ((lo ≤ s) × (s ≤ hi))) → (lo ≤ s) × (s ≤ n))
      × ((lo ≤ s) × (s ≤ n) → (((x ≤ s) × (s ≤ y)) ⊎ ((lo ≤ s) × (s ≤ hi))))
join_back s n lo hi x y a b c d e f = (λ q. ground arith, λ q. ground arith)

-- One range of the list and the new one are joined, and the loop goes on.
joined_iff : {R C N J D : Type 0} → (R ⊎ N) ↔ J → (C ⊎ J) ↔ D → ((R ⊎ C) ⊎ N) ↔ D
joined_iff (p, q) (u, v) = (
  λ k. u (elim k [ inl (inl r) ↦ inr (p (inl r)) | inl (inr c) ↦ inl c | inr n ↦ inr (p (inr n)) ]),
  λ d. elim (v d) [
    | inl c ↦ inl (inr c)
    | inr j ↦ elim (q j) [ inl r ↦ inl (inl r) | inr n ↦ inr n ]
  ],
)

-- The front of the range, behind the loop on the entries before it.
abbrev Front : ℕ → ℕ → List Serials → ℕ × List Serials → Type 0
Front lo hi b (lo', b') =
    (lo' ≤ lo)
    × Upto lo' b'
    × ((s : ℕ) → (Covered s b ⊎ ((lo ≤ s) × (s ≤ hi))) ↔ (Covered s b' ⊎ ((lo' ≤ s) × (s ≤ hi))))

pub absorb_before-Front :
    (lo hi : ℕ) (b : List Serials) → lo ≤ hi → Upto (hi + 2) b → Front lo hi b (absorb_before lo b)
unfolding absorb_before
absorb_before-Front lo hi [] h u = (omega arith, tt, λ s. (λ q. q, λ q. q))
absorb_before-Front lo hi (r ∷ b) h (u, v, w) =
    elim (Bool-cases (not (lo == 0) && ltb r.hi (lo - 1))) [
      | inl apart ↦ rw apart (omega arith, (ground arith, v, w), λ s. (λ q. q, λ q. q))
      | inr joined ↦
          let n = if ltb r.lo lo then r.lo else lo in
          let (x, y, z) = lesser_lem r.lo lo in
          let (le, up, iff) =
            absorb_before-Front n hi b (omega (arith, y, h))
              (Upto-le b r.lo (hi + 2) (omega (arith, u, v)) w) in
          rw joined (
            omega (arith, le, y),
            up,
            λ s.
                joined_iff
                  (join_front s n lo hi r.lo r.hi v (omega (arith, u)) (ground (arith, joined)) x y
                    z)
                  (iff s),
          )
    ]

-- The end of the range, behind the loop on the entries after it.
abbrev Back : ℕ → ℕ → List Serials → ℕ × List Serials → Type 0
Back lo hi a (hi', a') =
    (hi ≤ hi')
    × (hi' ≤ u64_max)
    × From (hi' + 2) a'
    × ((s : ℕ) → (Covered s a ⊎ ((lo ≤ s) × (s ≤ hi))) ↔ (Covered s a' ⊎ ((lo ≤ s) × (s ≤ hi'))))

pub absorb_after-Back :
    (lo hi : ℕ) (a : List Serials)
    → lo ≤ hi
    → hi ≤ u64_max
    → From lo a
    → Back lo hi a (absorb_after hi a)
unfolding absorb_after
absorb_after-Back lo hi [] h m u = (omega arith, m, tt, λ s. (λ q. q, λ q. q))
absorb_after-Back lo hi (r ∷ a) h m (u, v, t, w) =
    elim (Bool-cases (not (hi == u64_max) && ltb (hi + 1) r.lo)) [
      | inl apart ↦ rw apart (omega arith, m, (ground arith, v, t, w), λ s. (λ q. q, λ q. q))
      | inr joined ↦
          let n = if ltb hi r.hi then r.hi else hi in
          let (x, y, z) = greater_lem hi r.hi in
          let (le, mx, up, iff) =
            absorb_after-Back lo n a (omega (arith, x, h)) (omega (arith, x, y, z, m, t))
              (From-le a lo (r.hi + 2) (omega (arith, u, v)) w) in
          rw joined (
            omega (arith, le, x),
            mx,
            up,
            λ s.
                joined_iff (join_back s n lo hi r.lo r.hi u v (ground (arith, joined, t)) y x z)
                  (iff s),
          )
    ]
