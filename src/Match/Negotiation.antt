-- ===== src/Match/Negotiation.antt =====
-- `match_list`: the choice of the client's first algorithm that the server offers.
use libopenssh.Base.{
  ℕ, ◌+◌, ◌≡◌, ◌⊎◌, ◌↔◌, inl, inr, refl, ap, Bool, true, arith, Bool-cases, Bytes, List, ◌∷◌, [],
  ◌++◌, ◌==◌, length, take, Option, some, none,
}
use libopenssh.Match.{comma, tokens, until_empty, prepend, same_name, at_end, offered, max_prop}

-- A name stands in a list of names.
abbrev pub In : Bytes → List Bytes → Type 0
In p [] = ⊥
In p (s ∷ ss) = (p ≡ s) ⊎ In p ss

pub same_name-eq : (p name : Bytes) → (same_name p name ≡ true) ↔ (p ≡ name)
unfolding same_name at_end
same_name-eq [] [] = (λ e. refl, λ e. refl)
same_name-eq [] (y ∷ name) = (λ e. cc e, λ e. cc e)
same_name-eq (x ∷ p) [] = (λ e. cc e, λ e. cc e)
same_name-eq (x ∷ p) (y ∷ name) =
    let (there, back) = same_name-eq p name in (λ e. ground arith, λ e. ground arith)

pub offered-In : (p : Bytes) (ss : List Bytes) → (offered p ss ≡ true) ↔ In p ss
unfolding offered
offered-In p [] = ground arith
offered-In p (s ∷ ss) = ground (arith, same_name-eq p s, offered-In p ss)

-- The tokens of a list spell it: one token alone is all of it, and behind the first of several there
-- is a comma and the rest.
abbrev Spelled : Bytes → List Bytes → Type 0
Spelled s [] = ⊥
Spelled s (t ∷ []) = s ≡ t
Spelled s (t ∷ u ∷ ts) = (r : Bytes) × (s ≡ t ++ (comma ∷ r)) × (tokens r ≡ u ∷ ts)

prepend-Spelled :
    (c : ℕ) (s : Bytes) (ts : List Bytes) → Spelled s ts → Spelled (c ∷ s) (prepend c ts)
unfolding prepend
prepend-Spelled c s [] h = absurd h
prepend-Spelled c s (t ∷ []) h = ap (◌∷◌ c) h
prepend-Spelled c s (t ∷ u ∷ ts) (r, e, k) = (r, ap (◌∷◌ c) e, k)

comma-Spelled :
    (c : ℕ) (s : Bytes) (ts : List Bytes)
    → c ≡ comma
    → tokens s ≡ ts
    → Spelled s ts
    → Spelled (c ∷ s) ([] ∷ ts)
comma-Spelled c s [] h e k = absurd k
comma-Spelled c s (u ∷ ts) h e k = (s, ap (λ (x : ℕ). x ∷ s) h, e)

pub tokens-Spelled : (s : Bytes) → Spelled s (tokens s)
unfolding tokens
tokens-Spelled [] = refl
tokens-Spelled (c ∷ s) = elim (Bool-cases (c == comma)) [
  | inl e ↦ rw e (comma-Spelled c s (tokens s) (ground arith) refl (tokens-Spelled s))
  | inr e ↦ rw e (prepend-Spelled c s (tokens s) (tokens-Spelled s))
]

-- No name of the list stands in `ss`.
abbrev pub Apart : List Bytes → List Bytes → Type 0
Apart [] ss = Unit {0}
Apart (t ∷ ts) ss = (In t ss → ⊥) × Apart ts ss

-- What the client's loop finds among the tokens `ts` that spell the end `s` of its list, behind
-- `front`: the first of the names, and where its successor starts.
pub record Found (ss : List Bytes) (client p : Bytes) (k : ℕ) (ts : List Bytes) : Type 0 where
  pub before : List Bytes
  pub behind : List Bytes
  pub splits : ts ≡ before ++ p ∷ behind
  pub chosen : In p ss
  pub none_before : Apart before ss
  pub front : Bytes
  pub rest : Bytes
  pub at : client ≡ front ++ (p ++ rest)
  pub next :
      ((rest ≡ []) × (k ≡ length client))
      ⊎ ((r : Bytes) × (rest ≡ comma ∷ r) × (k ≡ length front + length p + 1))

-- What `match_list` returns: the first name of the client that the server offers, with the offset
-- of the name behind it; or nothing, if no name of the client is offered.
abbrev pub Agreed : List Bytes → Bytes → List Bytes → Option Bytes × ℕ → Type 0
Agreed ss client ts (some p, k) = Found ss client p k ts
Agreed ss client ts (none, k) = Apart ts ss × (k ≡ length client)

-- The server's names that the code looks at: up to an empty one, and 40 at most.
abbrev pub considered : Bytes → List Bytes
considered server = take max_prop (until_empty (tokens server))
