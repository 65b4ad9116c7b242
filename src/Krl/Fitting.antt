-- ===== src/Krl/Fitting.antt =====
-- Places in a list of ranges in order: what a place splits, and where another range belongs.
use libopenssh.Base.{
  ℕ, ◌+◌, ◌≤◌, ◌<◌, ◌≡◌, ◌↔◌, ◌⊎◌, inl, inr, refl, arith, below, same, above, ◌&&◌, Bool-cases,
  List, [], ◌∷◌, ltb, leb,
}
use libopenssh.Tree.{unwind, AllAre, Absent, SameThenBelow, Fits}
use libopenssh.Krl.{Serials, u64_max, serial_cmp}
use libopenssh.Krl.Ranges.{Covered, From, Upto}

pub Covered-unwind :
    (s : ℕ) (b a : List Serials) → Covered s (unwind b a) ↔ (Covered s b ⊎ Covered s a)
Covered-unwind s [] a = (λ q. inr q, λ q. elim q [ inl x ↦ absurd x | inr x ↦ x ])
Covered-unwind s (r ∷ b) a =
    let (p, q) = Covered-unwind s b (r ∷ a) in
    (
      λ k. elim (p k) [ inl x ↦ inl (inr x) | inr (inl x) ↦ inl (inl x) | inr (inr x) ↦ inr x ],
      λ k. elim k [
        | inl (inl x) ↦ q (inr (inl x))
        | inl (inr x) ↦ q (inl x)
        | inr x ↦ q (inr (inr x))
      ],
    )

pub From-unwind :
    (b : List Serials) (e : Serials) (a : List Serials)
    → From 0 (unwind b (e ∷ a))
      ↔ (Upto e.lo b × (e.lo ≤ e.hi) × (e.hi ≤ u64_max) × From (e.hi + 2) a)
From-unwind [] e a = (λ (u, v, t, w). (tt, v, t, w), λ (u, v, t, w). (omega arith, v, t, w))
From-unwind (r ∷ b) e a =
    let (p, q) = From-unwind b r (e ∷ a) in
    (
      λ k. let (u, v, t, (w, x, y, z)) = p k in ((w, v, u), x, y, z),
      λ ((w, v, u), x, y, z). q (u, v, omega (arith, w, x, y), (w, x, y, z)),
    )

-- A range that is in no order with the others: it overlaps, or it lies on one side.
pub serial_cmp-cases :
    (a b : Serials)
    → a.lo ≤ a.hi
    → b.lo ≤ b.hi
    → ((serial_cmp a b ≡ same) × (b.lo ≤ a.hi) × (a.lo ≤ b.hi))
      ⊎ ((serial_cmp a b ≡ below) × (a.hi < b.lo))
      ⊎ ((serial_cmp a b ≡ above) × (b.hi < a.lo))
serial_cmp-cases a b h k = elim (Bool-cases (leb b.lo a.hi && leb a.lo b.hi)) [
  | inl p ↦ inl (rw p refl, ground arith, ground arith)
  | inr p ↦ elim (Bool-cases (ltb a.lo b.lo)) [
    | inl q ↦ inr (inl (rw (p, q) refl, ground arith))
    | inr q ↦ inr (inr (rw (p, q) refl, ground arith))
  ]
]

pub AllAre-From :
    (rs : Serials) (m : ℕ) (l : List Serials)
    → rs.lo ≤ rs.hi
    → rs.hi < m
    → From m l
    → AllAre serial_cmp rs below l
AllAre-From rs m [] h k f = tt
AllAre-From rs m (y ∷ l) h k (u, v, t, w) =
    (ground arith, AllAre-From rs (y.hi + 2) l h (omega arith) w)

pub SameThenBelow-From :
    (rs : Serials) (m : ℕ) (l : List Serials)
    → rs.lo ≤ rs.hi
    → rs.lo ≤ m
    → From m l
    → SameThenBelow serial_cmp rs l
SameThenBelow-From rs m [] h k f = tt
SameThenBelow-From rs m (y ∷ l) h k (u, v, t, w) = elim (serial_cmp-cases rs y h v) [
  | inl (e, p, q) ↦ inl (e, SameThenBelow-From rs (y.hi + 2) l h (omega arith) w)
  | inr (inl (e, p)) ↦ inr (e, AllAre-From rs (y.hi + 2) l h (omega arith) w)
  | inr (inr (e, p)) ↦ absurd (omega arith)
]

-- Every range has its place in such a list.
pub From-Fits :
    (rs : Serials) (m : ℕ) (l : List Serials) → rs.lo ≤ rs.hi → From m l → Fits serial_cmp rs l
From-Fits rs m [] h f = tt
From-Fits rs m (y ∷ l) h (u, v, t, w) = elim (serial_cmp-cases rs y h v) [
  | inl (e, p, q) ↦ inr (inl (e, SameThenBelow-From rs (y.hi + 2) l h (omega arith) w))
  | inr (inl (e, p)) ↦ inr (inr (e, AllAre-From rs (y.hi + 2) l h (omega arith) w))
  | inr (inr (e, p)) ↦ inl (e, From-Fits rs (y.hi + 2) l h w)
]

-- A number is in no range exactly if its own range is the same as none.
pub Absent-Covered :
    (s m : ℕ) (l : List Serials)
    → From m l
    → Absent serial_cmp (record { lo = s; hi = s }) l ↔ ¬ Covered s l
Absent-Covered s m [] f = (λ k q. q, λ k. tt)
Absent-Covered s m (y ∷ l) (u, v, t, w) =
    let (p, q) = Absent-Covered s (y.hi + 2) l w in
    (
      λ (d, k) c. elim c [ inl x ↦ d (ground arith) | inr x ↦ p k x ],
      λ c. (λ e. c (inl (ground arith)), q (λ x. c (inr x))),
    )
