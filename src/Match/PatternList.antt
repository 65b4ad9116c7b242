-- ===== src/Match/PatternList.antt =====
-- `match_pattern_list` against the list of its comma-separated subpatterns.
use libopenssh.Base.{
  ℕ, zero, suc, ◌≤◌, ◌<◌, ◌≡◌, inl, inr, refl, ap, ◌∙◌, Bool, true, false, arith, Bool-cases, Bytes,
  List, ◌∷◌, [], ◌==◌, if◌then◌else◌, ◌&&◌, leb, length, some,
}
use libopenssh.Match.{
  comma, Verdict, negative, unmatched, positive, sub_max, to_lower, extract, skip_comma, prepend,
  list_loop, match_pattern,
}

-- The part of a list up to its first comma, and the part behind that comma.
abbrev pub field : Bytes → Bytes
field [] = []
field (c ∷ s) = let f = field s in if c == comma then [] else c ∷ f

abbrev pub after_field : Bytes → Bytes
after_field [] = []
after_field (c ∷ s) = let r = after_field s in if c == comma then s else r

abbrev pub lowered : Bool → Bytes → Bytes
lowered dolower [] = []
lowered dolower (c ∷ s) = to_lower dolower c ∷ lowered dolower s

-- The fields of a list. No empty field stands behind a last comma.
unfoldable pub fields : Bytes → List Bytes
fields [] = []
fields (c ∷ s) = let fs = fields s in if c == comma then [] ∷ fs else prepend c fs

-- A field with an exclamation mark in front is negated.
pub record Subpattern : Type 0 where
  pub negated : Bool
  pub sub : Bytes

unfoldable pub subpattern : Bool → Bytes → Subpattern
subpattern dolower [] = record { negated = false; sub = [] }
subpattern dolower (c ∷ f) =
    if c == b'!'
    then record { negated = true; sub = lowered dolower f }
    else record { negated = false; sub = lowered dolower (c ∷ f) }

abbrev hit : Bytes → Subpattern → Bool
hit string p = match_pattern string p.sub

-- The verdict on the fields: a subpattern that fills the buffer ends the search with no match, the
-- first negated one that matches ends it with a negative match, and a plain one that matches makes
-- it positive.
unfoldable pub judge : Bool → Bytes → Verdict → List Bytes → Verdict
judge dolower string got [] = got
judge dolower string got (f ∷ fs) =
    let p = subpattern dolower f in
    let rest = judge dolower string (if hit string p then positive else got) fs in
    if leb sub_max (length p.sub)
    then unmatched
    else if hit string p && p.negated
    then negative
    else rest

length-lowered : (dolower : Bool) (s : Bytes) → length (lowered dolower s) ≡ length s
length-lowered dolower [] = refl
length-lowered dolower (c ∷ s) = ap suc (length-lowered dolower s)

fields-cons : (c : ℕ) (s : Bytes) → fields (c ∷ s) ≡ field (c ∷ s) ∷ fields (after_field (c ∷ s))
unfolding prepend fields
fields-cons c [] = elim (Bool-cases (c == comma)) [ inl h ↦ rw h | inr h ↦ rw h ]
fields-cons c (d ∷ s) = elim (Bool-cases (c == comma)) [
  | inl h ↦ rw h
  | inr h ↦ rw h (ap (prepend c) (fields-cons d s))
]

length-after_field : (s : Bytes) → length (after_field s) ≤ length s
length-after_field [] = omega arith
length-after_field (c ∷ s) = ground (arith, length-after_field s)

-- With room for the field, the inner loop copies it whole and the comma behind it is skipped.
extract_short :
    (room : ℕ) (dolower : Bool) (s : Bytes)
    → length (field s) < room
    → ((extract room dolower s).0 ≡ lowered dolower (field s))
      × (skip_comma (extract room dolower s).1 ≡ after_field s)
unfolding extract skip_comma
extract_short room dolower [] h = (refl, refl)
extract_short zero dolower (c ∷ s) h = absurd (omega arith)
extract_short (suc room) dolower (c ∷ s) h = elim (Bool-cases (c == comma)) [
  | inl e ↦ rw e (refl, rw e)
  | inr e ↦
      let (sub, left) = extract_short room dolower s (ground arith) in
      rw e (ap (◌∷◌ (to_lower dolower c)) sub, left)
]

extract_long :
    (room : ℕ) (dolower : Bool) (s : Bytes)
    → room ≤ length (field s)
    → length (extract room dolower s).0 ≡ room
unfolding extract
extract_long zero dolower [] h = refl
extract_long zero dolower (c ∷ s) h = refl
extract_long (suc room) dolower [] h = absurd (omega arith)
extract_long (suc room) dolower (c ∷ s) h = elim (Bool-cases (c == comma)) [
  | inl e ↦ absurd (ground arith)
  | inr e ↦ rw e (ap suc (extract_long room dolower s (ground arith)))
]

-- What the loop reads after a possible exclamation mark.
abbrev body : ℕ → Bytes → Bytes
body c s = if c == b'!' then s else c ∷ s

module _ (dolower : Bool) (c : ℕ) (s : Bytes) where
  subpattern-body :
      ((subpattern dolower (field (c ∷ s))).sub ≡ lowered dolower (field (body c s)))
      × ((subpattern dolower (field (c ∷ s))).negated ≡ (c == b'!'))
      × (after_field (body c s) ≡ after_field (c ∷ s))
  unfolding subpattern
  subpattern-body = elim (Bool-cases (c == b'!')) [
    | inl e ↦ let k : (c == comma) ≡ false = ground arith in rw (e, k) (rw e (refl, refl, refl))
    | inr e ↦ elim (Bool-cases (c == comma)) [
      | inl k ↦ rw (e, k) (refl, refl, refl)
      | inr k ↦ rw (e, k) (rw e (refl, refl, refl))
    ]
  ]

module _ (dolower : Bool) (string : Bytes) (fuel : ℕ) (got : Verdict) (c : ℕ) (s : Bytes) where
  loop_long :
      sub_max ≤ length (field (body c s))
      → list_loop (suc fuel) string dolower got (c ∷ s) ≡ some unmatched
  unfolding list_loop
  loop_long h = rw (extract_long sub_max dolower (body c s) h)

  loop_short :
      length (field (body c s)) < sub_max
      → list_loop (suc fuel) string dolower got (c ∷ s) ≡ (
          if match_pattern string (lowered dolower (field (body c s)))
          then if c == b'!'
            then some negative
            else list_loop fuel string dolower positive (after_field (c ∷ s))
          else list_loop fuel string dolower got (after_field (c ∷ s)))
  unfolding list_loop
  loop_short h =
      let (sub, left) = extract_short sub_max dolower (body c s) h in
      let room : leb sub_max (length (lowered dolower (field (body c s)))) ≡ false =
        ground (arith, length-lowered dolower (field (body c s))) in
      rw (sub, room, left, (subpattern-body dolower c s).2)

shorter : (c : ℕ) (s : Bytes) → length (after_field (c ∷ s)) ≤ length s
shorter c s = ground (arith, length-after_field s)

judge-cons :
    (dolower : Bool) (string : Bytes) (got : Verdict) (c : ℕ) (s : Bytes)
    → judge dolower string got (fields (c ∷ s)) ≡ (
        let sub = lowered dolower (field (body c s)) in
        let rest =
          judge dolower string
            (if match_pattern string sub then positive else got)
            (fields (after_field (c ∷ s))) in
        if leb sub_max (length sub)
        then unmatched
        else if match_pattern string sub && c == b'!'
        then negative
        else rest)
unfolding judge
judge-cons dolower string got c s =
    let (is, neg, _) = subpattern-body dolower c s in rw fields-cons (rw (is, neg))

module _ (dolower : Bool) (string : Bytes) (fuel : ℕ) (got : Verdict) (c : ℕ) (s : Bytes)
    (ih : (v : Verdict)
      → list_loop fuel string dolower v (after_field (c ∷ s))
        ≡ some (judge dolower string v (fields (after_field (c ∷ s))))) where
  loop-judge_step :
      list_loop (suc fuel) string dolower got (c ∷ s)
      ≡ some (judge dolower string got (fields (c ∷ s)))
  loop-judge_step =
      let sub = lowered dolower (field (body c s)) in
      let l = length-lowered dolower (field (body c s)) in
      rw judge-cons (elim (Bool-cases (leb sub_max (length sub))) [
        | inl long ↦ rw long (loop_long dolower string fuel got c s (ground arith))
        | inr short ↦
            loop_short dolower string fuel got c s (ground arith)
            ∙ rw short (elim (Bool-cases (match_pattern string sub)) [
              | inl yes_hit ↦ rw yes_hit (elim (Bool-cases (c == b'!')) [
                | inl neg ↦ rw neg
                | inr plain ↦ rw plain (ih positive)
              ])
              | inr no_hit ↦ rw no_hit (ih got)
            ])
      ])

pub loop-judge :
    (dolower : Bool) (string : Bytes) (fuel : ℕ) (got : Verdict) (s : Bytes)
    → length s ≤ fuel
    → list_loop fuel string dolower got s ≡ some (judge dolower string got (fields s))
loop-judge dolower string fuel got [] h = unfold list_loop judge fields in refl
loop-judge dolower string zero got (c ∷ s) h = absurd (omega arith)
loop-judge dolower string (suc fuel) got (c ∷ s) h =
    loop-judge_step dolower string fuel got c s
      (λ v. loop-judge dolower string fuel v (after_field (c ∷ s)) (omega (arith, shorter c s)))
