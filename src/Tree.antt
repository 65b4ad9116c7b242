-- ===== src/Tree.antt =====
-- The macros of a tree library that ssh/krl.c calls (RB_FIND, RB_NFIND and RB_INSERT), for trees that
-- are seen as the list of their entries in order.
use libopenssh.Base.{◌≡◌, ◌⊎◌, Order, below, same, above, Option, none, some, List, [], ◌∷◌}

-- The entries in front of a place, the nearest first, put before those behind it.
abbrev pub unwind : {A : Type 0} → List A → List A → List A
unwind [] a = a
unwind (x ∷ b) a = unwind b (x ∷ a)

module _ {A : Type 0} (cmp : A → A → Order) (x : A) where
  -- The comparison of `x` with each entry has this result.
  abbrev pub AllAre : Order → List A → Type 0
  AllAre o [] = Unit {0}
  AllAre o (y ∷ ys) = (cmp x y ≡ o) × AllAre o ys

  -- No entry is the same as `x`.
  abbrev pub Absent : List A → Type 0
  Absent [] = Unit {0}
  Absent (y ∷ ys) = ¬ (cmp x y ≡ same) × Absent ys

  abbrev pub SameThenBelow : List A → Type 0
  SameThenBelow [] = Unit {0}
  SameThenBelow (y ∷ ys) =
      ((cmp x y ≡ same) × SameThenBelow ys) ⊎ ((cmp x y ≡ below) × AllAre below ys)

  -- `x` has its place in the order: it is above the first entries, the same as the next ones, and
  -- below the others.
  abbrev pub Fits : List A → Type 0
  Fits [] = Unit {0}
  Fits (y ∷ ys) = ((cmp x y ≡ above) × Fits ys) ⊎ SameThenBelow (y ∷ ys)

-- Where several entries are the same as the one that is looked for, any of them may be found.
pub record Tree (A : Type 0) (cmp : A → A → Order) : Type 0 where
  pub find : A → List A → Option A
  pub nfind : A → List A → Option (List A × A × List A)
  -- `none` if an entry is the same, otherwise the place of the new one.
  pub insert : A → List A → Option (List A × List A)
  pub find_absent : (x : A) (l : List A) → Fits cmp x l → find x l ≡ none → Absent cmp x l
  pub find_same : (x : A) (l : List A) (e : A) → Fits cmp x l → find x l ≡ some e → ¬ Absent cmp x l
  pub nfind_absent : (x : A) (l : List A) → Fits cmp x l → nfind x l ≡ none → Absent cmp x l
  pub nfind_place :
      (x : A) (l : List A) (b : List A) (e : A) (a : List A)
      → Fits cmp x l
      → nfind x l ≡ some (b, e, a)
      → (unwind b (e ∷ a) ≡ l) × (¬ (cmp x e ≡ same) → Absent cmp x l)
  pub insert_same : (x : A) (l : List A) → Fits cmp x l → insert x l ≡ none → ¬ Absent cmp x l
  pub insert_place :
      (x : A) (l : List A) (b a : List A)
      → Fits cmp x l
      → insert x l ≡ some (b, a)
      → (unwind b a ≡ l) × AllAre cmp x above b × AllAre cmp x below a
