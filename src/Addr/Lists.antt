-- ===== src/Addr/Lists.antt =====
-- The lists of networks, and what ssh/match.c makes of them for hosts and users.
use libopenssh.Base.{
  is_same, ℕ, ◌+◌, Bool, true, false, ◌&&◌, Option, none, some, List, Bytes, [], ◌∷◌, length, ltb,
  leb, ◌==◌, if◌then◌else◌, ◌||◌,
}
use libopenssh.Match.{
  match_pattern, match_hostname, tokens, at_end, Verdict, negative, unmatched, positive,
}
use libopenssh.Addr.{Xaddr, addr_netmatch}
use libopenssh.Addr.Parse.{Lookup, addr_pton, network, unreadable, inconsistent, addr_pton_cidr}

-- The results -2, -1, 0 and 1 of `addr_match_list`.
pub data AddrVerdict : Type 0 where
  malformed negated no_match matched : AddrVerdict

-- The address as a string and as parsed, or a null pointer.
abbrev pub Target : Type 0
Target = Option (Bytes × Xaddr)

abbrev pub in_network : Target → Xaddr → ℕ → Bool
in_network none net l = false
in_network (some (s, a)) net l = is_same (addr_netmatch a net l)

abbrev pub matches_string : Target → Bytes → Bool
matches_string none cp = false
matches_string (some (s, a)) cp = match_pattern s cp

-- What a token says: `none` ends the search with -2.
unfoldable pub entry_hit : (Bytes → Lookup) → Target → Bytes → Option Bool
entry_hit resolve target cp = elim (addr_pton_cidr resolve cp) [
  | inconsistent ↦ none
  | network net l ↦ some (in_network target net l)
  | unreadable ↦ some (matches_string target cp)
]

-- `neg`, and the token behind it.
abbrev pub negation : Bytes → Bool × Bytes
negation [] = (false, [])
negation (c ∷ s) = if c == b'!' then (true, s) else (false, c ∷ s)

-- The loop of `addr_match_list`.
unfoldable pub match_loop : (Bytes → Lookup) → Target → AddrVerdict → List Bytes → AddrVerdict
match_loop resolve target ret [] = ret
match_loop resolve target ret (t ∷ ts) =
    let (neg, cp) = negation t in
    let next = λ (r : AddrVerdict). match_loop resolve target r ts in
    if at_end cp then malformed else elim (entry_hit resolve target cp) [
      | none ↦ malformed
      | some hit ↦ if hit then if neg then negated else next matched else next ret
    ]

-- The address that is asked for: `none` if there is one that cannot be parsed.
abbrev pub target_of : (Bytes → Lookup) → Option Bytes → Option Target
target_of resolve none = some none
target_of resolve (some s) = elim (addr_pton resolve s) [
  | none ↦ none
  | some a ↦ some (some (s, a))
]

-- `granted`: the copy of the list is allocated.
unfoldable pub addr_match_list : (Bytes → Lookup) → Bool → Option Bytes → Bytes → AddrVerdict
addr_match_list resolve granted addr list = elim (target_of resolve addr) [
  | none ↦ no_match
  | some target ↦ if granted then match_loop resolve target no_match (tokens list) else negated
]

-- INET6_ADDRSTRLEN
abbrev pub inet6_addrstrlen : ℕ
inet6_addrstrlen = 46

-- VALID_CIDR_CHARS
abbrev pub is_cidr_char : ℕ → Bool
is_cidr_char c =
    leb b'0' c && leb c b'9'
    || leb b'a' c && leb c b'f'
    || leb b'A' c && leb c b'F'
    || c == b'.'
    || c == b':'
    || c == b'/'

-- strspn(cp, VALID_CIDR_CHARS) == strlen(cp)
unfoldable pub all_cidr_chars : Bytes → Bool
all_cidr_chars [] = true
all_cidr_chars (c ∷ s) = is_cidr_char c && all_cidr_chars s

-- The loop of `addr_match_cidr_list`: invalid characters set the result and do not end it.
unfoldable pub cidr_loop : (Bytes → Lookup) → Target → Verdict → List Bytes → Verdict
cidr_loop resolve target ret [] = ret
cidr_loop resolve target ret (cp ∷ ts) =
    let next = λ (r : Verdict). cidr_loop resolve target r ts in
    let ret' = if all_cidr_chars cp then ret else negative in
    if at_end cp
    then negative
    else if ltb (inet6_addrstrlen + 3) (length cp)
    then negative
    else elim (addr_pton_cidr resolve cp) [
      | unreadable ↦ negative
      | inconsistent ↦ negative
      | network net l ↦ if in_network target net l then next positive else next ret'
    ]

unfoldable pub addr_match_cidr_list : (Bytes → Lookup) → Bool → Option Bytes → Bytes → Verdict
addr_match_cidr_list resolve granted addr list = elim (target_of resolve addr) [
  | none ↦ unmatched
  | some target ↦ if granted then cidr_loop resolve target unmatched (tokens list) else negative
]

-- `match_host_and_ip` behind the two searches.
unfoldable pub host_and_ip : AddrVerdict → Verdict → Verdict
host_and_ip malformed mhost = negative
host_and_ip negated mhost = unmatched
host_and_ip mip negative = unmatched
host_and_ip no_match unmatched = unmatched
host_and_ip mip mhost = positive

-- `none` would mean that the fuel of match_pattern_list ran out.
unfoldable pub match_host_and_ip :
    (Bytes → Lookup) → Bool → Bytes → Option Bytes → Bytes → Option Verdict
match_host_and_ip resolve granted host ipaddr patterns = elim (match_hostname host patterns) [
  | none ↦ none
  | some mhost ↦ some (host_and_ip (addr_match_list resolve granted ipaddr patterns) mhost)
]

-- The pattern in front of the first `@`, and what stands behind it.
unfoldable pub at_sign : Bytes → Bytes × Option Bytes
at_sign [] = ([], none)
at_sign (c ∷ s) =
    let (front, rest) = at_sign s in if c == b'@' then ([], some s) else (c ∷ front, rest)

-- `granted` and `granted'`: the copies of the pattern and of the list are allocated.
unfoldable pub match_user :
    (Bytes → Lookup) → Bool → Bool → Bytes → Bytes → Option Bytes → Bytes → Option Verdict
match_user resolve granted granted' user host ipaddr pattern = elim ((at_sign pattern).1) [
  | none ↦ some (if match_pattern user pattern then positive else unmatched)
  | some p ↦
      if granted
      then if match_pattern user (at_sign pattern).0
        then match_host_and_ip resolve granted' host ipaddr p
        else some unmatched
      else some unmatched
]
