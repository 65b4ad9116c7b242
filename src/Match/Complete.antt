-- ===== src/Match/Complete.antt =====
-- The patterns that `match_pattern` misses no string of.
use libopenssh.Base.{
  ℕ, ◌≡◌, ◌≢◌, ◌⊎◌, inl, inr, refl, Bool, true, false, arith, Bool-cases, Bytes, ◌∷◌, [], ◌==◌, not,
  ◌&&◌,
}
use libopenssh.Match.{
  star, mark, find_literal, find_any, match_one, at_end, match_from, match_pattern,
}
use libopenssh.Match.Wildcard.{Matches, skip, more, any, same, match_from-Matches, star_all}

-- One step backwards from a match, for each kind of first byte.
star_nil : {c : ℕ} {p : Bytes} → Matches (c ∷ p) [] → Matches p []
star_nil (skip c e m) = m

star_cons :
    {c y : ℕ} {p s : Bytes}
    → Matches (c ∷ p) (y ∷ s)
    → c ≡ star
    → Matches p (y ∷ s) ⊎ Matches (c ∷ p) s
star_cons (skip c e m) h = inl m
star_cons (more c x e m) h = inr m
star_cons (any c x e m) h = absurd (omega arith)
star_cons (same c x n e m) h = absurd (n h)

one_nil : {c : ℕ} {p : Bytes} → Matches (c ∷ p) [] → c ≢ star → ⊥
one_nil (skip c e m) h = h e

one_cons :
    {c y : ℕ} {p s : Bytes}
    → Matches (c ∷ p) (y ∷ s)
    → c ≢ star
    → ((c ≡ mark) ⊎ (c ≡ y)) × Matches p s
one_cons (skip c e m) h = absurd (h e)
one_cons (more c x e m) h = absurd (h e)
one_cons (any c x e m) h = (inl e, m)
one_cons (same c x n e m) h = (inr e, m)

-- The test `f` reports every match of `p`.
abbrev Reports : (Bytes → Bool) → Bytes → Type 0
Reports f p = (s : Bytes) → Matches p s → f s ≡ true

match_one-Reports :
    (p : Bytes) (f : Bytes → Bool)
    → Reports f p
    → (c : ℕ) → c ≢ star
    → Reports (match_one f c) (c ∷ p)
unfolding match_one
match_one-Reports p f all c h [] m = absurd (one_nil m h)
match_one-Reports p f all c h (y ∷ s) m = let (k, m') = one_cons m h in ground (arith, all s m')

module _ (d : ℕ) (p : Bytes) (f : Bytes → Bool) (c : ℕ) (h : c ≡ star) (k : d ≢ star) where
  find_any-Reports : Reports f (d ∷ p) → Reports (find_any f) (c ∷ d ∷ p)
  unfolding find_any
  find_any-Reports all [] m = absurd (one_nil (star_nil m) k)
  find_any-Reports all (y ∷ s) m = elim (star_cons m h) [
    | inl now ↦ rw (all (y ∷ s) now)
    | inr later ↦ ground (arith, find_any-Reports all s later)
  ]

  find_literal-Reports : Reports f p → d ≢ mark → Reports (find_literal f d) (c ∷ d ∷ p)
  unfolding find_literal
  find_literal-Reports all j [] m = absurd (one_nil (star_nil m) k)
  find_literal-Reports all j (y ∷ s) m = elim (star_cons m h) [
    | inl now ↦ let (l, m') = one_cons now k in ground (arith, all s m')
    | inr later ↦ ground (arith, find_literal-Reports all j s later)
  ]

-- No two asterisks stand side by side.
abbrev pub NoDoubleStar : Bytes → Type 0
NoDoubleStar [] = Unit {0}
NoDoubleStar (c ∷ []) = Unit {0}
NoDoubleStar (c ∷ d ∷ p) = (c ≡ star → d ≢ star) × NoDoubleStar (d ∷ p)

NoDoubleStar-tail : (d : ℕ) (p : Bytes) → NoDoubleStar (d ∷ p) → NoDoubleStar p
NoDoubleStar-tail d [] n = tt
NoDoubleStar-tail d (e ∷ p) n = n.1

end-Reports : Reports at_end []
unfolding at_end
end-Reports [] m = refl
end-Reports (_ ∷ _) m = elim m [ ]

match_from-Reports : (p : Bytes) → NoDoubleStar p → Reports (match_from p) p
unfolding match_from
match_from-Reports [] n s m = end-Reports s m
match_from-Reports (c ∷ []) n s m = elim (Bool-cases (c == star)) [
  | inl q ↦ rw q
  | inr q ↦
      rw q (match_one-Reports [] (match_from []) (match_from-Reports [] tt) c (ground arith) s m)
]
match_from-Reports (c ∷ d ∷ p) (n, ns) s m = elim (Bool-cases (c == star)) [
  | inl q ↦
      let h : c ≡ star = ground arith in
      rw q (elim (Bool-cases (not (d == mark) && not (d == star))) [
        | inl l ↦ rw l (
            find_literal-Reports d p (match_from p) c h (n h)
              (match_from-Reports p (NoDoubleStar-tail d p ns)) (ground arith) s m)
        | inr l ↦ rw l (
            find_any-Reports d p (match_from (d ∷ p)) c h (n h) (match_from-Reports (d ∷ p) ns) s m)
      ])
  | inr q ↦ rw q (
      match_one-Reports (d ∷ p) (match_from (d ∷ p)) (match_from-Reports (d ∷ p) ns) c
        (ground arith) s m)
]

-- `match_pattern` reports only matches of the pattern, and if no two asterisks of the pattern stand
-- side by side it reports every match.
pub match_pattern-Matches :
    (s p : Bytes)
    → (match_pattern s p ≡ true → Matches p s)
      × (NoDoubleStar p → Matches p s → match_pattern s p ≡ true)
unfolding match_pattern
match_pattern-Matches s p = (match_from-Matches p s, λ n m. match_from-Reports p n s m)

-- A pattern that begins with two asterisks is reported to match no string that is empty, whatever
-- follows. The pattern of two asterisks alone stands for every string, the empty one included.
pub match_pattern_double_star :
    (p : Bytes)
    → (match_pattern [] (star ∷ star ∷ p) ≡ false) × ((s : Bytes) → Matches (star ∷ star ∷ []) s)
unfolding match_pattern match_from find_any
match_pattern_double_star p = (refl, λ s. skip star refl (star_all s))
