-- ===== src/Tests/Patterns.antt =====
-- The theorems on patterns and name lists at concrete inputs.
use libopenssh.Base.{codes, ◌≡◌, refl, true, arith, Bytes, some, if◌then◌else◌}
use libopenssh.Match.{
  match_pattern, match_from, match_one, find_literal, find_any, at_end, match_pattern_list,
  list_loop, extract, skip_comma, match_list, client_loop, tokens, prepend, until_empty, offered,
  same_name, positive, negative, unmatched,
}
use libopenssh.Match.Wildcard.{Matches}
use libopenssh.Match.Complete.{NoDoubleStar, match_pattern-Matches}
use libopenssh.Match.PatternList.{fields, subpattern, judge}
use libopenssh.Match.Verdicts.{
  some_negated, some_plain, match_pattern_list-verdict, match_pattern_list-judge,
}

abbrev host : Bytes
host = codes "a.b"

abbrev pattern : Bytes
pattern = codes "!c.*,a.?"

match_pattern-Matches_example :
    (match_pattern host (codes "a*?") ≡ true → Matches (codes "a*?") host)
    × (NoDoubleStar (codes "a*?")
        → Matches (codes "a*?") host
        → match_pattern host (codes "a*?") ≡ true)
match_pattern-Matches_example = match_pattern-Matches host (codes "a*?")

match_pattern_runs : match_pattern host (codes "a*?") ≡ true
unfolding match_pattern match_from match_one find_literal find_any at_end
match_pattern_runs = refl

match_pattern_list_runs : match_pattern_list host pattern true ≡ some positive
unfolding match_pattern_list list_loop extract skip_comma match_pattern match_from match_one
    find_literal find_any at_end
match_pattern_list_runs = refl

match_pattern_list-verdict_example :
    match_pattern_list host pattern true
    ≡ some (
        if some_negated true host (fields pattern)
        then negative
        else if some_plain true host (fields pattern)
        then positive
        else unmatched)
unfolding fields subpattern prepend
match_pattern_list-verdict_example = match_pattern_list-verdict host pattern true (omega arith)

match_pattern_list-judge_example :
    match_pattern_list host pattern true ≡ some (judge true host unmatched (fields pattern))
match_pattern_list-judge_example = match_pattern_list-judge host pattern true

abbrev client_names : Bytes
client_names = codes "x,aes,y"

match_list_runs :
    match_list true true true client_names (codes "y,aes") ≡ (some (codes "aes"), some 6)
unfolding match_list client_loop tokens prepend until_empty offered same_name at_end
match_list_runs = refl
