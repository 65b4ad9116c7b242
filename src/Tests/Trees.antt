-- ===== src/Tests/Trees.antt =====
-- Macros on trees, that search the list from the front.
use libopenssh.Base.{
  ◌≡◌, ◌⊎◌, inl, inr, refl, subst, Order, below, same, above, Option, none, some, List, [], ◌∷◌,
}
use libopenssh.Tree.{Tree, unwind, AllAre, Absent, Fits}

Order-cases : (o : Order) → (o ≡ above) ⊎ (o ≡ same) ⊎ (o ≡ below)
Order-cases above = inl refl
Order-cases same = inr (inl refl)
Order-cases below = inr (inr refl)

module _ {A : Type 0} (cmp : A → A → Order) (x : A) where
  unfoldable pub find_first : List A → Option A
  find_first [] = none
  find_first (y ∷ ys) = elim (cmp x y) [ same ↦ some y | _ ↦ find_first ys ]

  unfoldable pub nfind_first : List A → List A → Option (List A × A × List A)
  nfind_first b [] = none
  nfind_first b (y ∷ ys) = elim (cmp x y) [ above ↦ nfind_first (y ∷ b) ys | _ ↦ some (b, y, ys) ]

  unfoldable pub insert_first : List A → List A → Option (List A × List A)
  insert_first b [] = some (b, [])
  insert_first b (y ∷ ys) = elim (cmp x y) [
    | above ↦ insert_first (y ∷ b) ys
    | same ↦ none
    | below ↦ some (b, y ∷ ys)
  ]

  pub find_first-Absent : (l : List A) → find_first l ≡ none → Absent cmp x l
  unfolding find_first
  find_first-Absent [] e = tt
  find_first-Absent (y ∷ ys) e = elim (Order-cases (cmp x y)) [
    | inl p ↦ (rw p (λ q. cc q), find_first-Absent ys (rw (p, find_first) at e))
    | inr (inl p) ↦ cc (rw (p, find_first) at e)
    | inr (inr p) ↦ (rw p (λ q. cc q), find_first-Absent ys (rw (p, find_first) at e))
  ]

  pub find_first-same : (l : List A) (e : A) → find_first l ≡ some e → ¬ Absent cmp x l
  unfolding find_first
  find_first-same [] e p q = cc p
  find_first-same (y ∷ ys) e p (q, r) = elim (Order-cases (cmp x y)) [
    | inl k ↦ find_first-same ys e (rw (k, find_first) at p) r
    | inr (inl k) ↦ q k
    | inr (inr k) ↦ find_first-same ys e (rw (k, find_first) at p) r
  ]

  AllAre-Absent : (l : List A) → AllAre cmp x below l → Absent cmp x l
  AllAre-Absent [] p = tt
  AllAre-Absent (y ∷ ys) (p, q) = (rw p (λ k. cc k), AllAre-Absent ys q)

  -- The rest of a list behind an entry that `x` is below.
  Fits-below : (y : A) (ys : List A) → cmp x y ≡ below → Fits cmp x (y ∷ ys) → AllAre cmp x below ys
  Fits-below y ys e f = elim f [
    | inl (p, q) ↦ cc (e, p)
    | inr (inl (p, q)) ↦ cc (e, p)
    | inr (inr (p, q)) ↦ q
  ]

  Fits-above : (y : A) (ys : List A) → cmp x y ≡ above → Fits cmp x (y ∷ ys) → Fits cmp x ys
  Fits-above y ys e f = elim f [
    | inl (p, q) ↦ q
    | inr (inl (p, q)) ↦ cc (e, p)
    | inr (inr (p, q)) ↦ cc (e, p)
  ]

  pub nfind_first-Absent : (b l : List A) → nfind_first b l ≡ none → Absent cmp x l
  unfolding nfind_first
  nfind_first-Absent b [] e = tt
  nfind_first-Absent b (y ∷ ys) e = elim (Order-cases (cmp x y)) [
    | inl p ↦ (rw p (λ q. cc q), nfind_first-Absent (y ∷ b) ys (rw (p, nfind_first) at e))
    | inr (inl p) ↦ cc (rw (p, nfind_first) at e)
    | inr (inr p) ↦ cc (rw (p, nfind_first) at e)
  ]

  place-eq :
      {b b' : List A} {y e : A} {ys a : List A}
      → ◌≡◌ {A = Option (List A × A × List A)} (some (b, y, ys)) (some (b', e, a))
      → (b ≡ b') × (y ≡ e) × (ys ≡ a)
  place-eq e = (cc e, cc e, cc e)

  split-eq :
      {b b' l a : List A}
      → ◌≡◌ {A = Option (List A × List A)} (some (b, l)) (some (b', a))
      → (b ≡ b') × (l ≡ a)
  split-eq e = (cc e, cc e)

  pub nfind_first-place :
      (b l b' : List A) (e : A) (a : List A)
      → Fits cmp x l
      → nfind_first b l ≡ some (b', e, a)
      → (unwind b' (e ∷ a) ≡ unwind b l) × (¬ (cmp x e ≡ same) → Absent cmp x l)
  unfolding nfind_first
  nfind_first-place b [] b' e a f p = cc p
  nfind_first-place b (y ∷ ys) b' e a f p = elim (Order-cases (cmp x y)) [
    | inl k ↦
        let (u, v) =
          nfind_first-place (y ∷ b) ys b' e a (Fits-above y ys k f) (rw (k, nfind_first) at p) in
        (u, λ n. (rw k (λ q. cc q), v n))
    | inr (inl k) ↦
        let (h, i, j) = place-eq (rw (k, nfind_first) at p) in
        (cc (h, i, j), λ n. absurd (n (cc (k, i))))
    | inr (inr k) ↦
        let (h, i, j) = place-eq (rw (k, nfind_first) at p) in
        (cc (h, i, j), λ n. (rw k (λ q. cc q), AllAre-Absent ys (Fits-below y ys k f)))
  ]

  pub insert_first-same : (b l : List A) → insert_first b l ≡ none → ¬ Absent cmp x l
  unfolding insert_first
  insert_first-same b [] e q = cc e
  insert_first-same b (y ∷ ys) e (p, q) = elim (Order-cases (cmp x y)) [
    | inl k ↦ insert_first-same (y ∷ b) ys (rw (k, insert_first) at e) q
    | inr (inl k) ↦ p k
    | inr (inr k) ↦ cc (rw (k, insert_first) at e)
  ]

  pub insert_first-place :
      (b l b' a : List A)
      → Fits cmp x l
      → AllAre cmp x above b
      → insert_first b l ≡ some (b', a)
      → (unwind b' a ≡ unwind b l) × AllAre cmp x above b' × AllAre cmp x below a
  unfolding insert_first
  insert_first-place b [] b' a f k e =
      let (h, i) = split-eq e in
      (cc (h, i), subst (AllAre cmp x above) h k, subst (AllAre cmp x below) i tt)
  insert_first-place b (y ∷ ys) b' a f k e = elim (Order-cases (cmp x y)) [
    | inl o ↦
        insert_first-place (y ∷ b) ys b' a (Fits-above y ys o f) (o, k) (rw (o, insert_first) at e)
    | inr (inl o) ↦ cc (rw (o, insert_first) at e)
    | inr (inr o) ↦
        let (h, i) = split-eq (rw (o, insert_first) at e) in
        (
          cc (h, i),
          subst (AllAre cmp x above) h k,
          subst (AllAre cmp x below) i (o, Fits-below y ys o f),
        )
  ]

unfoldable pub front_tree : {A : Type 0} (cmp : A → A → Order) → Tree A cmp
front_tree cmp = record {
  find = find_first cmp;
  nfind = λ x. nfind_first cmp x [];
  insert = λ x. insert_first cmp x [];
  find_absent = λ x l f. find_first-Absent cmp x l;
  find_same = λ x l e f. find_first-same cmp x l e;
  nfind_absent = λ x l f. nfind_first-Absent cmp x [] l;
  nfind_place = λ x l b e a f. nfind_first-place cmp x [] l b e a f;
  insert_same = λ x l f. insert_first-same cmp x [] l;
  insert_place = λ x l b a f. insert_first-place cmp x [] l b a f tt;
}
