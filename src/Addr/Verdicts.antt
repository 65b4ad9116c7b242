-- ===== src/Addr/Verdicts.antt =====
-- The verdicts on lists of addresses, networks and patterns, whatever the order of the search.
use libopenssh.Base.{
  ◌≡◌, ◌↔◌, ◌⊎◌, refl, ap, Bool, true, false, not, ◌&&◌, ◌||◌, arith, Option, none, some, List,
  Bytes, [], ◌∷◌, if◌then◌else◌,
}
use libopenssh.Match.{match_hostname, tokens, at_end, Verdict, negative, unmatched, positive}
use libopenssh.Match.PatternList.{fields}
use libopenssh.Match.Verdicts.{AllShort, some_negated, some_plain, match_pattern_list-verdict}
use libopenssh.Addr.Parse.{Lookup}
use libopenssh.Addr.Lists.{
  AddrVerdict, malformed, negated, no_match, matched, Target, entry_hit, negation, match_loop,
  target_of, addr_match_list, host_and_ip, match_host_and_ip,
}

-- The verdict is neither -2 nor -1.
abbrev pub is_open : AddrVerdict → Bool
is_open malformed = false
is_open negated = false
is_open _ = true

-- What the loop finds behind a token, given what it makes of the rest.
abbrev OpenIff : (AddrVerdict → AddrVerdict) → Bool → Bool → AddrVerdict → Type 0
OpenIff next ok some_hit ret =
    (is_open (next ret) ≡ ok) × (ok ≡ true → next ret ≡ (if some_hit then matched else ret))

token-OpenIff :
    (o : Option Bool) (neg ended : Bool) (next : AddrVerdict → AddrVerdict) (ret : AddrVerdict)
    (ok some_hit : Bool)
    → is_open ret ≡ true
    → ((r : AddrVerdict) → is_open r ≡ true → OpenIff next ok some_hit r)
    → OpenIff
        (λ r. if ended then malformed else elim o [
          | none ↦ malformed
          | some hit ↦ if hit then if neg then negated else next matched else next r
        ])
        (not ended && elim o [ none ↦ false | some hit ↦ not (hit && neg) ] && ok)
        (elim o [ none ↦ false | some hit ↦ hit ] || some_hit)
        ret
token-OpenIff o neg true next ret ok sh k ih = (refl, λ e. ground arith)
token-OpenIff none neg false next ret ok sh k ih = (refl, λ e. ground arith)
token-OpenIff (some true) true false next ret ok sh k ih = (refl, λ e. ground arith)
token-OpenIff (some true) false false next ret ok true k ih = ih matched refl
token-OpenIff (some true) false false next ret ok false k ih = ih matched refl
token-OpenIff (some false) neg false next ret ok sh k ih = ih ret k

module _ (resolve : Bytes → Lookup) (target : Target) where
  -- The entry can be read, and it does not exclude the address.
  abbrev pub fine : Bytes → Bool
  fine t = not (at_end (negation t).1) && elim (entry_hit resolve target (negation t).1) [
    | none ↦ false
    | some hit ↦ not (hit && (negation t).0)
  ]

  -- The entry matches the address.
  abbrev pub hits : Bytes → Bool
  hits t = elim (entry_hit resolve target (negation t).1) [ none ↦ false | some hit ↦ hit ]

  abbrev pub all_fine : List Bytes → Bool
  all_fine [] = true
  all_fine (t ∷ ts) = fine t && all_fine ts

  abbrev pub some_hits : List Bytes → Bool
  some_hits [] = false
  some_hits (t ∷ ts) = hits t || some_hits ts

  match_loop-fine :
      (ret : AddrVerdict) (ts : List Bytes)
      → is_open ret ≡ true
      → (is_open (match_loop resolve target ret ts) ≡ all_fine ts)
        × (all_fine ts ≡ true
            → match_loop resolve target ret ts ≡ (if some_hits ts then matched else ret))
  unfolding match_loop
  match_loop-fine ret [] k = (k, λ e. refl)
  match_loop-fine ret (t ∷ ts) k =
      token-OpenIff (entry_hit resolve target (negation t).1) (negation t).0 (at_end (negation t).1)
        (λ r. match_loop resolve target r ts) ret (all_fine ts) (some_hits ts) k
        (λ r. match_loop-fine r ts)

addr_match_list-match_loop :
    (resolve : Bytes → Lookup) (addr : Option Bytes) (target : Target) (list : Bytes)
    → target_of resolve addr ≡ some target
    → addr_match_list resolve true addr list ≡ match_loop resolve target no_match (tokens list)
unfolding addr_match_list
addr_match_list-match_loop resolve addr target list e = rw (e, addr_match_list)

some_verdict : (v w : Verdict) → some v ≡ some w → v ≡ w
some_verdict v w e = cc e

host_and_ip-positive :
    (mip : AddrVerdict) (ok hit neg plain : Bool)
    → is_open mip ≡ ok
    → (ok ≡ true → mip ≡ (if hit then matched else no_match))
    → (host_and_ip mip (if neg then negative else if plain then positive else unmatched) ≡ positive)
      ↔ ((ok ≡ true) × (neg ≡ false) × ((hit ≡ true) ⊎ (plain ≡ true)))
unfolding host_and_ip
host_and_ip-positive mip ok hit neg plain o f = ground arith

unmatched≢positive : unmatched ≡ positive → ⊥
unmatched≢positive e = cc e

-- Without memory for the copy of the list.
refused :
    (resolve : Bytes → Lookup) (host : Bytes) (addr : Option Bytes) (target : Target)
    (patterns : Bytes)
    → target_of resolve addr ≡ some target
    → AllShort true (fields patterns)
    → match_host_and_ip resolve false host addr patterns ≡ some unmatched
unfolding match_host_and_ip match_hostname addr_match_list host_and_ip
refused resolve host addr target patterns e short =
    rw
      (
        match_pattern_list-verdict host patterns true short,
        match_host_and_ip,
        match_hostname,
        e,
        addr_match_list,
      )
      refl

granted_positive :
    (resolve : Bytes → Lookup) (host : Bytes) (addr : Option Bytes) (target : Target)
    (patterns : Bytes)
    → target_of resolve addr ≡ some target
    → AllShort true (fields patterns)
    → (match_host_and_ip resolve true host addr patterns ≡ some positive) ↔ (
        (all_fine resolve target (tokens patterns) ≡ true)
        × (some_negated true host (fields patterns) ≡ false)
        × ((some_hits resolve target (tokens patterns) ≡ true)
            ⊎ (some_plain true host (fields patterns) ≡ true)))
unfolding match_host_and_ip match_hostname
granted_positive resolve host addr target patterns e short =
    let p = match_loop-fine resolve target no_match (tokens patterns) refl in
    let r =
      host_and_ip-positive (match_loop resolve target no_match (tokens patterns))
        (all_fine resolve target (tokens patterns)) (some_hits resolve target (tokens patterns))
        (some_negated true host (fields patterns)) (some_plain true host (fields patterns)) p.0
        p.1 in
    rw
      (
        match_pattern_list-verdict host patterns true short,
        match_host_and_ip,
        match_hostname,
        addr_match_list-match_loop resolve addr target patterns e,
      )
      (λ q. r.0 (some_verdict _ _ q), λ q. ap some (r.1 q))

-- For an address that can be read, and patterns that fit their buffer, the host and its address are
-- matched exactly if memory for the copy of the list is granted, every entry of the list can be read
-- as an entry for addresses, no negated entry names the address, no negated pattern matches the host,
-- and some entry names the address or some plain pattern matches the host.
pub match_host_and_ip-positive :
    (resolve : Bytes → Lookup) (granted : Bool) (host : Bytes) (addr : Option Bytes)
    (target : Target) (patterns : Bytes)
    → target_of resolve addr ≡ some target
    → AllShort true (fields patterns)
    → (match_host_and_ip resolve granted host addr patterns ≡ some positive) ↔ (
        (granted ≡ true)
        × (all_fine resolve target (tokens patterns) ≡ true)
        × (some_negated true host (fields patterns) ≡ false)
        × ((some_hits resolve target (tokens patterns) ≡ true)
            ⊎ (some_plain true host (fields patterns) ≡ true)))
match_host_and_ip-positive resolve true host addr target patterns e short =
    let (there, back) = granted_positive resolve host addr target patterns e short in
    (λ q. let (a, b, c) = there q in (refl, a, b, c), λ (k, a, b, c). back (a, b, c))
match_host_and_ip-positive resolve false host addr target patterns e short = (
  λ q. absurd (
      unmatched≢positive
        (some_verdict _ _ (rw (refused resolve host addr target patterns e short) at q))),
  λ (k, a, b, c). cc k,
)
