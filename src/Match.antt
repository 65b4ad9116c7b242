-- ===== src/Match.antt =====
-- ssh/match.c: wildcard patterns, lists of patterns, and the choice of a common algorithm. A C string
-- is the list of its bytes in front of the NUL, so that `!*p` is a test for the empty list.
pub mod Wildcard
pub mod Complete
pub mod PatternList
pub mod Verdicts
pub mod Negotiation
use libopenssh.Base.{
  ℕ, zero, suc, ◌+◌, Bool, true, false, not, ◌&&◌, ◌||◌, Option, none, some, List, Bytes, [], ◌∷◌,
  length, take, leb, ◌==◌, if◌then◌else◌,
}

abbrev pub star : ℕ
star = b'*'

abbrev pub mark : ℕ
mark = b'?'

abbrev pub comma : ℕ
comma = b','

-- for (; *s; s++) if (*s == c && f(s + 1)) return 1;
unfoldable pub find_literal : (Bytes → Bool) → ℕ → Bytes → Bool
find_literal f c [] = false
find_literal f c (x ∷ s) = x == c && f s || find_literal f c s

-- for (; *s; s++) if (f(s)) return 1;
unfoldable pub find_any : (Bytes → Bool) → Bytes → Bool
find_any f [] = false
find_any f (x ∷ s) = f (x ∷ s) || find_any f s

-- The end of the loop body: one character of the pattern against one of the string.
unfoldable pub match_one : (Bytes → Bool) → ℕ → Bytes → Bool
match_one f c [] = false
match_one f c (x ∷ s) = if not (c == mark) && not (c == x) then false else f s

unfoldable pub at_end : Bytes → Bool
at_end [] = true
at_end (x ∷ s) = false

-- `match_pattern` with the pattern first, on which it recurs.
unfoldable pub match_from : Bytes → Bytes → Bool
match_from [] s = at_end s
match_from (c ∷ []) s = if c == star then true else match_one (match_from []) c s
match_from (c ∷ d ∷ pattern) s =
    if c == star
    then if not (d == mark) && not (d == star)
      then find_literal (match_from pattern) d s
      else find_any (match_from (d ∷ pattern)) s
    else match_one (match_from (d ∷ pattern)) c s

unfoldable pub match_pattern : Bytes → Bytes → Bool
match_pattern s pattern = match_from pattern s

-- The results -1, 0 and 1 of `match_pattern_list`.
pub data Verdict : Type 0 where
  negative unmatched positive : Verdict

-- `sizeof(sub) - 1`
abbrev pub sub_max : ℕ
sub_max = 1023

-- `isupper` and `tolower` of the C locale.
abbrev pub to_lower : Bool → ℕ → ℕ
to_lower dolower c = if dolower && (leb b'A' c && leb c b'Z') then c + 32 else c

-- The inner loop: a subpattern up to a comma, the end or a full buffer with `room` bytes left, and
-- the rest of the list.
unfoldable pub extract : ℕ → Bool → Bytes → Bytes × Bytes
extract room dolower [] = ([], [])
extract zero dolower (c ∷ rest) = ([], c ∷ rest)
extract (suc room) dolower (c ∷ rest) =
    let (sub, left) = extract room dolower rest in
    if c == comma then ([], c ∷ rest) else (to_lower dolower c ∷ sub, left)

unfoldable pub skip_comma : Bytes → Bytes
skip_comma [] = []
skip_comma (c ∷ rest) = if c == comma then rest else c ∷ rest

-- The outer loop. `none` means that the fuel ran out.
unfoldable pub list_loop : ℕ → Bytes → Bool → Verdict → Bytes → Option Verdict
list_loop fuel string dolower got [] = some got
list_loop zero string dolower got (c ∷ rest) = none
list_loop (suc fuel) string dolower got (c ∷ rest) =
    let negated = c == b'!' in
    let (sub, left) = extract sub_max dolower (if negated then rest else c ∷ rest) in
    let next = λ (v : Verdict). list_loop fuel string dolower v (skip_comma left) in
    if leb sub_max (length sub)
    then some unmatched
    else if match_pattern string sub
    then if negated then some negative else next positive
    else next got

-- `pattern` is the `len` bytes of the list.
unfoldable pub match_pattern_list : Bytes → Bytes → Bool → Option Verdict
match_pattern_list string pattern dolower =
    list_loop (length pattern) string dolower unmatched pattern

unfoldable pub match_hostname : Bytes → Bytes → Option Verdict
match_hostname host pattern = match_pattern_list host pattern true

unfoldable pub prepend : ℕ → List Bytes → List Bytes
prepend c [] = (c ∷ []) ∷ []
prepend c (t ∷ ts) = (c ∷ t) ∷ ts

-- The tokens that successive calls of strsep(&p, ",") return.
unfoldable pub tokens : Bytes → List Bytes
tokens [] = [] ∷ []
tokens (c ∷ s) = let ts = tokens s in if c == comma then [] ∷ ts else prepend c ts

-- Both loops stop at an empty token.
unfoldable pub until_empty : List Bytes → List Bytes
until_empty [] = []
until_empty ([] ∷ ts) = []
until_empty ((x ∷ t) ∷ ts) = (x ∷ t) ∷ until_empty ts

-- strcmp(a, b) == 0
unfoldable pub same_name : Bytes → Bytes → Bool
same_name [] name = at_end name
same_name (x ∷ p) [] = false
same_name (x ∷ p) (y ∷ name) = if x == y then same_name p name else false

unfoldable pub offered : Bytes → List Bytes → Bool
offered p [] = false
offered p (s ∷ ss) = same_name p s || offered p ss

abbrev pub max_prop : ℕ
max_prop = 40

-- `cp - c`, or `strlen(c)` if `cp` is NULL: the tokens behind the chosen one are `ts`.
abbrev pub next_offset : ℕ → ℕ → List Bytes → ℕ
next_offset total behind [] = total
next_offset total behind (t ∷ ts) = behind

-- The client's loop: `behind` counts the bytes of `c` up to the current token.
unfoldable pub client_loop : List Bytes → ℕ → ℕ → List Bytes → Option Bytes × ℕ
client_loop sproposals total behind [] = (none, total)
client_loop sproposals total behind ([] ∷ ts) = (none, total)
client_loop sproposals total behind ((x ∷ t) ∷ ts) =
    let after = behind + length (x ∷ t) + 1 in
    let rest = client_loop sproposals total after ts in
    if offered (x ∷ t) sproposals then (some (x ∷ t), next_offset total after ts) else rest

-- The chosen name and `*next`, where `none` is a `*next` that is not written. `client_copied`,
-- `server_copied` and `name_copied`: the copies of the two lists and of the chosen name are allocated.
unfoldable pub match_list : Bool → Bool → Bool → Bytes → Bytes → Option Bytes × Option ℕ
match_list client_copied server_copied name_copied client server =
    let sproposals = take max_prop (until_empty (tokens server)) in
    let (ret, next) = client_loop sproposals (length client) 0 (tokens client) in
    if client_copied && server_copied
    then (if name_copied then ret else none, some next)
    else (none, none)
