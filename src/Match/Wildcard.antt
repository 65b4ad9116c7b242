-- ===== src/Match/Wildcard.antt =====
-- `match_pattern` against the meaning of a pattern.
use libopenssh.Base.{
  ℕ, ◌≡◌, ◌≢◌, inl, inr, refl, sym, subst, Bool, true, arith, Bool-cases, Bytes, ◌∷◌, [], ◌==◌,
  ==_iff, not, ◌&&◌,
}
use libopenssh.Match.{star, mark, find_literal, find_any, match_one, at_end, match_from}

-- The pattern matches the string: `*` stands for any bytes, `?` for one byte, and any other byte for
-- itself.
pub data Matches : Bytes → Bytes → Type 0 where
  end : Matches [] []
  skip : {p s : Bytes} (c : ℕ) → c ≡ star → Matches p s → Matches (c ∷ p) s
  more : {p s : Bytes} (c x : ℕ) → c ≡ star → Matches (c ∷ p) s → Matches (c ∷ p) (x ∷ s)
  any : {p s : Bytes} (c x : ℕ) → c ≡ mark → Matches p s → Matches (c ∷ p) (x ∷ s)
  same : {p s : Bytes} (c x : ℕ) → c ≢ star → c ≡ x → Matches p s → Matches (c ∷ p) (x ∷ s)

-- Every match that the code reports is a match of the pattern.
pub star_all : (s : Bytes) → Matches (star ∷ []) s
star_all [] = skip star refl end
star_all (x ∷ s) = more star x refl (star_all s)

match_one-Matches :
    (p : Bytes) (f : Bytes → Bool) (sound : (s : Bytes) → f s ≡ true → Matches p s) (c : ℕ)
    (s : Bytes)
    → c ≢ star
    → match_one f c s ≡ true
    → Matches (c ∷ p) s
unfolding match_one
match_one-Matches p f sound c [] h e = cc
match_one-Matches p f sound c (x ∷ s) h e = elim (Bool-cases (c == mark)) [
  | inl q ↦ any c x (ground arith) (sound s (ground arith))
  | inr q ↦ elim (Bool-cases (c == x)) [
    | inl l ↦ same c x h (ground arith) (sound s (ground arith))
    | inr l ↦ absurd (ground arith)
  ]
]

find_any-Matches :
    (p : Bytes) (f : Bytes → Bool) (sound : (s : Bytes) → f s ≡ true → Matches p s) (c : ℕ)
    (s : Bytes)
    → c ≡ star
    → find_any f s ≡ true
    → Matches (c ∷ p) s
unfolding find_any
find_any-Matches p f sound c [] h e = cc
find_any-Matches p f sound c (x ∷ s) h e = elim (Bool-cases (f (x ∷ s))) [
  | inl here ↦ skip c h (sound (x ∷ s) here)
  | inr later ↦ more c x h (find_any-Matches p f sound c s h (rw later at e))
]

find_literal-Matches :
    (p : Bytes) (f : Bytes → Bool) (sound : (s : Bytes) → f s ≡ true → Matches p s) (c d : ℕ)
    (s : Bytes)
    → c ≡ star
    → d ≢ star
    → find_literal f d s ≡ true
    → Matches (c ∷ d ∷ p) s
unfolding find_literal
find_literal-Matches p f sound c d [] h k e = cc
find_literal-Matches p f sound c d (x ∷ s) h k e = elim (Bool-cases (x == d && f s)) [
  | inl here ↦ skip c h (same d x k (ground arith) (sound s (ground arith)))
  | inr later ↦ more c x h (find_literal-Matches p f sound c d s h k (rw later at e))
]

pub match_from-Matches : (p s : Bytes) → match_from p s ≡ true → Matches p s
unfolding match_from at_end
match_from-Matches [] [] e = end
match_from-Matches [] (x ∷ s) e = cc
match_from-Matches (c ∷ []) s e = elim (Bool-cases (c == star)) [
  | inl q ↦ subst (λ c. Matches (c ∷ []) s) (sym ((==_iff c star).0 q)) (star_all s)
  | inr q ↦
      match_one-Matches [] (match_from []) (match_from-Matches []) c s (ground arith) (ground arith)
]
match_from-Matches (c ∷ d ∷ p) s e = elim (Bool-cases (c == star)) [
  | inl q ↦ elim (Bool-cases (not (d == mark) && not (d == star))) [
    | inl l ↦
        find_literal-Matches p (match_from p) (match_from-Matches p) c d s (ground arith)
          (ground arith) (ground arith)
    | inr l ↦
        find_any-Matches (d ∷ p) (match_from (d ∷ p)) (match_from-Matches (d ∷ p)) c s
          (ground arith) (ground arith)
  ]
  | inr q ↦
      match_one-Matches (d ∷ p) (match_from (d ∷ p)) (match_from-Matches (d ∷ p)) c s (ground arith)
        (ground arith)
]
