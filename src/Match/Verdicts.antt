-- ===== src/Match/Verdicts.antt =====
-- The verdict of `match_pattern_list` by what matches, not by the order of the search.
use libopenssh.Base.{
  ◌<◌, ◌≡◌, inl, inr, refl, ap, ◌∙◌, Bool, false, arith, Bool-cases, Bytes, List, ◌∷◌, [],
  if◌then◌else◌, not, ◌&&◌, ◌||◌, leb, length, some,
}
use libopenssh.Match.{
  Verdict, negative, unmatched, positive, sub_max, match_pattern, match_pattern_list,
}
use libopenssh.Match.PatternList.{subpattern, fields, judge, loop-judge}

-- Every subpattern fits the buffer of the code.
abbrev pub AllShort : Bool → List Bytes → Type 0
AllShort dolower [] = Unit {0}
AllShort dolower (f ∷ fs) = (length (subpattern dolower f).sub < sub_max) × AllShort dolower fs

-- A negated subpattern matches the string, and a plain one does.
abbrev pub some_negated : Bool → Bytes → List Bytes → Bool
some_negated dolower string [] = false
some_negated dolower string (f ∷ fs) =
    (subpattern dolower f).negated && match_pattern string (subpattern dolower f).sub
    || some_negated dolower string fs

abbrev pub some_plain : Bool → Bytes → List Bytes → Bool
some_plain dolower string [] = false
some_plain dolower string (f ∷ fs) =
    not (subpattern dolower f).negated && match_pattern string (subpattern dolower f).sub
    || some_plain dolower string fs

else_same :
    (n p : Bool)
    → ◌≡◌ {A = Verdict}
        (if n then negative else if p then positive else positive)
        (if n then negative else positive)
else_same n p = ground arith

judge-verdict :
    (dolower : Bool) (string : Bytes) (got : Verdict) (fs : List Bytes)
    → AllShort dolower fs
    → judge dolower string got fs ≡ (
        if some_negated dolower string fs
        then negative
        else if some_plain dolower string fs
        then positive
        else got)
unfolding judge
judge-verdict dolower string got [] h = refl
judge-verdict dolower string got (f ∷ fs) (h, hs) =
    let p = subpattern dolower f in
    let room : leb sub_max (length p.sub) ≡ false = ground arith in
    let ih = λ (v : Verdict). judge-verdict dolower string v fs hs in
    rw room (elim (Bool-cases (match_pattern string p.sub)) [
      | inl m ↦ elim (Bool-cases p.negated) [
        | inl n ↦ rw (m, n)
        | inr n ↦
            rw (m, n)
              (ih positive
                ∙ else_same (some_negated dolower string fs) (some_plain dolower string fs))
      ]
      | inr m ↦ elim (Bool-cases p.negated) [
        | inl n ↦ rw (m, n) (ih got)
        | inr n ↦ rw (m, n) (ih got)
      ]
    ])

-- `match_pattern_list` ends on every input. If every subpattern fits its buffer it returns -1 if a
-- negated subpattern matches, otherwise 1 if a plain one does, and otherwise 0.
pub match_pattern_list-verdict :
    (string pattern : Bytes) (dolower : Bool)
    → AllShort dolower (fields pattern)
    → match_pattern_list string pattern dolower
      ≡ some (
          if some_negated dolower string (fields pattern)
          then negative
          else if some_plain dolower string (fields pattern)
          then positive
          else unmatched)
unfolding match_pattern_list
match_pattern_list-verdict string pattern dolower h =
    loop-judge dolower string (length pattern) unmatched pattern (omega arith)
    ∙ ap some (judge-verdict dolower string unmatched (fields pattern) h)

-- Whatever the lengths, the search is the left-to-right judgement of the fields of the list.
pub match_pattern_list-judge :
    (string pattern : Bytes) (dolower : Bool)
    → match_pattern_list string pattern dolower
      ≡ some (judge dolower string unmatched (fields pattern))
unfolding match_pattern_list
match_pattern_list-judge string pattern dolower =
    loop-judge dolower string (length pattern) unmatched pattern (omega arith)
