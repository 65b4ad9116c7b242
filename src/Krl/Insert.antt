-- ===== src/Krl/Insert.antt =====
-- insert_serial_range keeps the ranges in order and apart, and adds the numbers of the new one.
use libopenssh.Base.{
  ℕ, ◌+◌, ◌≤◌, ◌≡◌, ◌↔◌, ◌⊎◌, inl, inr, refl, sym, subst, arith, Order, below, same, above, is_same,
  Bool, true, false, Bool-cases, Option-cases, List, [], ◌∷◌, leb,
}
use libopenssh.Err.{Result, ok, err, alloc_fail}
use libopenssh.Tree.{Tree, unwind, AllAre, Absent}
use libopenssh.Krl.{
  Serials, u64_max, serial_cmp, absorb_before, absorb_after, coalesce, grown, insert_new,
  insert_serial_range,
}
use libopenssh.Krl.Ranges.{
  Within, Covered, From, Upto, Upto-le, From-le, lesser_lem, greater_lem, absorb_before-Front,
  absorb_after-Back,
}
use libopenssh.Krl.Fitting.{Covered-unwind, From-unwind, serial_cmp-cases, From-Fits}

-- The list is in order, and covers a further range.
abbrev Joined : (ℕ → Type 0) → List Serials → Type 0
Joined C l = From 0 l × ((s : ℕ) → Covered s l ↔ C s)

both_ends :
    {B A B' A' : Type 0} (s lo hi lo' hi' : ℕ)
    → lo' ≤ lo
    → lo ≤ hi
    → hi ≤ hi'
    → ((B ⊎ ((lo ≤ s) × (s ≤ hi))) ↔ (B' ⊎ ((lo' ≤ s) × (s ≤ hi))))
    → ((A ⊎ ((lo ≤ s) × (s ≤ hi))) ↔ (A' ⊎ ((lo ≤ s) × (s ≤ hi'))))
    → (B' ⊎ ((lo' ≤ s) × (s ≤ hi')) ⊎ A') ↔ (B ⊎ ((lo ≤ s) × (s ≤ hi)) ⊎ A)
both_ends {B} {A} {B'} {A'} s lo hi lo' hi' a b c (f, f') (g, g') =
    let front : B' ⊎ ((lo' ≤ s) × (s ≤ hi)) → B ⊎ ((lo ≤ s) × (s ≤ hi)) ⊎ A =
      λ x. elim (f' x) [ inl y ↦ inl y | inr y ↦ inr (inl y) ] in
    let back : A' ⊎ ((lo ≤ s) × (s ≤ hi')) → B ⊎ ((lo ≤ s) × (s ≤ hi)) ⊎ A =
      λ x. elim (g' x) [ inl y ↦ inr (inr y) | inr y ↦ inr (inl y) ] in
    (
      λ q. elim q [
        | inl x ↦ front (inl x)
        | inr (inl (x, y)) ↦ elim (Bool-cases (leb s hi)) [
          | inl k ↦ front (inr (x, ground arith))
          | inr k ↦ back (inr (ground arith, y))
        ]
        | inr (inr x) ↦ back (inl x)
      ],
      λ q. elim q [
        | inl x ↦ elim (f (inl x)) [ inl y ↦ inl y | inr (y, z) ↦ inr (inl (y, omega arith)) ]
        | inr (inl (x, y)) ↦ inr (inl (omega arith, omega arith))
        | inr (inr x) ↦ elim (g (inl x)) [
          | inl y ↦ inr (inr y)
          | inr (y, z) ↦ inr (inl (omega arith, z))
        ]
      ],
    )

iff_trans : {A B C : Type 0} → A ↔ B → B ↔ C → A ↔ C
iff_trans (p, q) (r, s) = (λ x. r (p x), λ x. q (s x))

coalesce-Joined :
    (b : List Serials) (e : Serials) (a : List Serials)
    → Upto (e.hi + 2) b
    → e.lo ≤ e.hi
    → e.hi ≤ u64_max
    → From e.lo a
    → Joined (λ s. Covered s b ⊎ Within s e ⊎ Covered s a) (coalesce b e a)
unfolding coalesce
coalesce-Joined b e a u v t w =
    let (le, up, front) = absorb_before-Front e.lo e.hi b v u in
    let (ge, mx, from, back) = absorb_after-Back e.lo e.hi a v t w in
    let b' = (absorb_before e.lo b).1 in
    let lo = (absorb_before e.lo b).0 in
    let a' = (absorb_after e.hi a).1 in
    let hi = (absorb_after e.hi a).0 in
    (
      (From-unwind b' (record { lo = lo; hi = hi }) a').1 (up, omega (arith, le, v, ge), mx, from),
      λ s.
          iff_trans (Covered-unwind s b' (record { lo = lo; hi = hi } ∷ a'))
            (both_ends s e.lo e.hi lo hi le v ge (front s) (back s)),
    )

-- What stands in front of the first entry that the range is above.
AllAre-Upto :
    (rs : Serials) (b a : List Serials)
    → rs.lo ≤ rs.hi
    → From 0 (unwind b a)
    → AllAre serial_cmp rs above b
    → Upto (rs.hi + 2) b
AllAre-Upto rs [] a h f k = tt
AllAre-Upto rs (r ∷ b) a h f (k, ks) =
    let (u, v, t, w) = (From-unwind b r a).0 f in (ground arith, v, u)

AllAre-after :
    (rs : Serials) (b a : List Serials)
    → rs.lo ≤ rs.hi
    → From 0 (unwind b a)
    → AllAre serial_cmp rs below a
    → From rs.lo a
AllAre-after rs b [] h f k = tt
AllAre-after rs b (e ∷ a) h f (k, ks) =
    let (u, v, t, w) = (From-unwind b e a).0 f in (ground arith, v, t, w)

-- The ranges, with the numbers of one more.
abbrev pub Added : List Serials → Serials → List Serials → Type 0
Added l rs l' = From 0 l' × ((s : ℕ) → Covered s l' ↔ (Covered s l ⊎ Within s rs))

-- Only a refusal of memory changes nothing.
abbrev pub Inserted : Bool → List Serials → Serials → List Serials × Result (Unit {0}) → Type 0
Inserted granted l rs (l', r) =
    (Added l rs l' × (r ≡ ok tt)) ⊎ ((granted ≡ false) × (l' ≡ l) × (r ≡ err alloc_fail))

with_range : {B W A L : Type 0} → L ↔ (B ⊎ A) → (B ⊎ W ⊎ A) ↔ (L ⊎ W)
with_range (p, q) = (
  λ k. elim k [ inl b ↦ inl (q (inl b)) | inr (inl w) ↦ inr w | inr (inr a) ↦ inl (q (inr a)) ],
  λ k. elim k [ inl l ↦ elim (p l) [ inl b ↦ inl b | inr a ↦ inr (inr a) ] | inr w ↦ inr (inl w) ],
)

with_grown : {B G E W A L : Type 0} → L ↔ (B ⊎ (E ⊎ A)) → G ↔ (E ⊎ W) → (B ⊎ G ⊎ A) ↔ (L ⊎ W)
with_grown (p, q) (u, v) = (
  λ k. elim k [
    | inl b ↦ inl (q (inl b))
    | inr (inl g) ↦ elim (u g) [ inl e ↦ inl (q (inr (inl e))) | inr w ↦ inr w ]
    | inr (inr a) ↦ inl (q (inr (inr a)))
  ],
  λ k. elim k [
    | inl l ↦ elim (p l) [
      | inl b ↦ inl b
      | inr (inl e) ↦ inr (inl (v (inl e)))
      | inr (inr a) ↦ inr (inr a)
    ]
    | inr w ↦ inr (inl (v (inr w)))
  ],
)

-- Two ranges that overlap make one.
grown-Within :
    (s : ℕ) (e rs : Serials)
    → e.lo ≤ e.hi
    → rs.lo ≤ rs.hi
    → rs.lo ≤ e.hi
    → e.lo ≤ rs.hi
    → Within s (grown e rs) ↔ (Within s e ⊎ Within s rs)
grown-Within s e rs h k p q =
    let (x, y, z) = lesser_lem rs.lo e.lo in
    let (u, v, w) = greater_lem e.hi rs.hi in
    (λ (m, n). ground (arith, h, k, p, q), λ m. ground (arith, h, k, p, q))

inserted-Added :
    (b a : List Serials) (rs : Serials)
    → rs.lo ≤ rs.hi
    → rs.hi ≤ u64_max
    → From 0 (unwind b a)
    → AllAre serial_cmp rs above b
    → AllAre serial_cmp rs below a
    → Added (unwind b a) rs (coalesce b rs a)
inserted-Added b a rs h m f x y =
    let (k, c) =
      coalesce-Joined b rs a (AllAre-Upto rs b a h f x) h m (AllAre-after rs b a h f y) in
    (k, λ s. iff_trans (c s) (with_range (Covered-unwind s b a)))

overlap :
    (a b : Serials)
    → a.lo ≤ a.hi
    → b.lo ≤ b.hi
    → serial_cmp a b ≡ same
    → (b.lo ≤ a.hi) × (a.lo ≤ b.hi)
overlap a b h k e = elim (serial_cmp-cases a b h k) [
  | inl (x, y, z) ↦ (y, z)
  | inr (inl (x, y)) ↦ cc (e, x)
  | inr (inr (x, y)) ↦ cc (e, x)
]

-- The comparison that insert_serial_range makes is the tree's, with its sides exchanged.
flipped_same :
    (a b : Serials)
    → a.lo ≤ a.hi
    → b.lo ≤ b.hi
    → is_same (serial_cmp a b) ≡ false
    → ¬ (serial_cmp b a ≡ same)
flipped_same a b h k e q = let (x, y) = overlap b a k h q in ground arith

same_lem : (o : Order) → is_same o ≡ true → o ≡ same
same_lem o e = ground arith

grown-Added :
    (b a : List Serials) (e rs : Serials)
    → rs.lo ≤ rs.hi
    → rs.hi ≤ u64_max
    → From 0 (unwind b (e ∷ a))
    → serial_cmp e rs ≡ same
    → Added (unwind b (e ∷ a)) rs (coalesce b (grown e rs) a)
grown-Added b a e rs h m f x =
    let (u, v, t, w) = (From-unwind b e a).0 f in
    let (p, q) = overlap e rs v h x in
    let (x₁, y₁, z₁) = lesser_lem rs.lo e.lo in
    let (x₂, y₂, z₂) = greater_lem e.hi rs.hi in
    let (k, c) =
      coalesce-Joined b (grown e rs) a (Upto-le b e.lo _ (omega (arith, v, x₂)) u)
        (omega (arith, v, y₁, x₂)) (omega (arith, t, m, z₂))
        (From-le a _ (e.hi + 2) (omega (arith, v, y₁)) w) in
    (
      k,
      λ s. iff_trans (c s) (with_grown (Covered-unwind s b (e ∷ a)) (grown-Within s e rs v h p q)),
    )

insert_new-Inserted :
    (tree : Tree Serials serial_cmp) (granted : Bool) (rs : Serials) (l : List Serials)
    → rs.lo ≤ rs.hi
    → rs.hi ≤ u64_max
    → From 0 l
    → Absent serial_cmp rs l
    → Inserted granted l rs (insert_new tree granted rs l)
unfolding insert_new
insert_new-Inserted tree false rs l h m f x = inr (refl, refl, refl)
insert_new-Inserted tree true rs l h m f x = elim (Option-cases (tree.insert rs l)) [
  | inl e ↦ absurd (tree.insert_same rs l (From-Fits rs 0 l h f) e x)
  | inr ((b, a), e) ↦
      let (u, k, n) = tree.insert_place rs l b a (From-Fits rs 0 l h f) e in
      rw (e, insert_new)
        (inl (
          subst (λ k'. Added k' rs (coalesce b rs a)) u
              (inserted-Added b a rs h m (subst (From 0) (sym u) f) k n),
          refl,
        ))
]

-- On ranges in order of which no two overlap or abut, and with a tree's macros as documented, a valid
-- range is inserted: the ranges are in order and apart again, and cover exactly the numbers that they
-- covered before and those of the new range. Only if memory is refused may the call fail instead; then
-- nothing is changed.
pub insert_serial_range-Inserted :
    (tree : Tree Serials serial_cmp) (granted : Bool) (l : List Serials) (lo hi : ℕ)
    → lo ≤ hi
    → hi ≤ u64_max
    → From 0 l
    → Inserted granted l (record { lo = lo; hi = hi }) (insert_serial_range tree granted l lo hi)
unfolding insert_serial_range
insert_serial_range-Inserted tree granted l lo hi h m f =
    let rs : Serials = record { lo = lo; hi = hi } in
    let fits = From-Fits rs 0 l h f in
    elim (Option-cases (tree.nfind rs l)) [
      | inl e ↦
          rw (e, insert_serial_range)
            (insert_new-Inserted tree granted rs l h m f (tree.nfind_absent rs l fits e))
      | inr ((b, ers, a), e) ↦
          let (u, k) = tree.nfind_place rs l b ers a fits e in
          let v = ((From-unwind b ers a).0 (subst (From 0) (sym u) f)).1 in
          elim (Bool-cases (is_same (serial_cmp ers rs))) [
            | inl y ↦
                rw (e, insert_serial_range, y)
                  (inl (
                    subst (λ k'. Added k' rs (coalesce b (grown ers rs) a)) u
                        (grown-Added b a ers rs h m (subst (From 0) (sym u) f) (same_lem _ y)),
                    refl,
                  ))
            | inr y ↦
                rw (e, insert_serial_range, y)
                  (insert_new-Inserted tree granted rs l h m f (k (flipped_same ers rs v h y)))
          ]
    ]
