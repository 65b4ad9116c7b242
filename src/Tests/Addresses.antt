-- ===== src/Tests/Addresses.antt =====
-- The theorems on addresses and lists of networks at concrete inputs: a resolver that knows two
-- addresses, which it tells apart by the length of their strings.
use libopenssh.Base.{
  same, ◌&&◌, ◌+◌, ◌*◌, ◌^◌, ◌==◌, ◌≡◌, ◌↔◌, ◌⊎◌, inl, inr, refl, Bool-cases, true, false, arith,
  some, Bytes, [], ◌∷◌, length, ltb, codes, if◌then◌else◌,
}
use libopenssh.Match.{
  negative, positive, tokens, prepend, match_hostname, match_pattern_list, list_loop, extract,
  skip_comma, match_pattern, match_from, match_one, find_literal, find_any, at_end,
}
use libopenssh.Getput.{u32_bytes}
use libopenssh.Match.PatternList.{fields, subpattern}
use libopenssh.Match.Verdicts.{AllShort, some_negated, some_plain}
use libopenssh.Addr.{
  Xaddr, inet, addr_netmatch, sin, addr_sa_to_xaddr, masklen_valid, addr_host_is_all0s,
  addr_hostmask, addr_netmask, mask_of, addr_invert, invert_of, addr_and, addr_is_all0s, all_zero,
  and_bits, and_of, and_words, invert_words, mask_words, ones_shifted, zero_of, addr_cmp, cmp_of,
  cmp_bytes, addr8,
}
use libopenssh.Addr.Block.{InNet}
use libopenssh.Addr.Network.{IsLookup, addr_netmatch-InNet}
use libopenssh.Addr.Parse.{
  Lookup, found, failed, no_address, network, addr_pton_cidr, masked, at_slash, strtoul, skip_space,
  digits, with_masklen, addr_pton, consistent,
}
use libopenssh.Addr.Lists.{
  Target, target_of, match_host_and_ip, host_and_ip, addr_match_list, match_loop, entry_hit,
  addr_match_cidr_list, cidr_loop, all_cidr_chars,
}
use libopenssh.Addr.Cidr.{all_readable, last_word, addr_match_cidr_list-last_word}
use libopenssh.Addr.Verdicts.{all_fine, some_hits, match_host_and_ip-positive}

abbrev resolve : Bytes → Lookup
resolve [] = no_address
resolve (c ∷ p) =
    if c == b'1'
    then found (sin true (10 * 2 ^ 24 + (if ltb 7 (length p) then 5 else 0)))
    else failed

abbrev known : Xaddr
known = record { af = inet; addr32 = (10 * 2 ^ 24 + 5) ∷ 0 ∷ 0 ∷ 0 ∷ []; scope_id = 0 }

-- The address asked for, and its string.
abbrev asked : Target
asked = some (codes "10.0.0.77", known)

abbrev subnet : Xaddr
subnet = record { af = inet; addr32 = (10 * 2 ^ 24) ∷ 0 ∷ 0 ∷ 0 ∷ []; scope_id = 0 }

network_reads : addr_pton_cidr resolve (codes "10.0.0.0/8") ≡ network subnet 8
unfolding addr_pton_cidr masked at_slash at_end strtoul skip_space digits with_masklen addr_pton
    addr_sa_to_xaddr consistent masklen_valid addr_host_is_all0s addr_hostmask addr_netmask mask_of
    addr_invert invert_of addr_and addr_is_all0s all_zero and_bits and_of and_words invert_words
    mask_words ones_shifted zero_of
network_reads = refl

resolve-IsLookup : (q : Bytes) → IsLookup (resolve q)
resolve-IsLookup [] = tt
resolve-IsLookup (c ∷ p) = elim (Bool-cases (c == b'1')) [
  | inl one ↦ rw one (ground arith)
  | inr rest ↦ rw rest tt
]

addr_netmatch-InNet_example : (addr_netmatch known subnet 8 ≡ same) ↔ InNet 8 known subnet
addr_netmatch-InNet_example =
    addr_netmatch-InNet resolve (codes "10.0.0.0/8") subnet 8 known resolve-IsLookup network_reads
      (record { four = refl; words = ground arith })

-- A network that is allowed, and hosts that are not.
abbrev patterns : Bytes
patterns = codes "10.0.0.0/8,!*.c"

address_reads : target_of resolve (some (codes "10.0.0.77")) ≡ some asked
unfolding addr_pton addr_sa_to_xaddr
address_reads = refl

patterns-AllShort : AllShort true (fields patterns)
unfolding fields subpattern prepend
patterns-AllShort = omega arith

match_host_and_ip-positive_example :
    (match_host_and_ip resolve true (codes "a.b") (some (codes "10.0.0.77")) patterns
      ≡ some positive)
    ↔ ((true ≡ true)
        × (all_fine resolve asked (tokens patterns) ≡ true)
        × (some_negated true (codes "a.b") (fields patterns) ≡ false)
        × ((some_hits resolve asked (tokens patterns) ≡ true)
            ⊎ (some_plain true (codes "a.b") (fields patterns) ≡ true)))
match_host_and_ip-positive_example =
    match_host_and_ip-positive resolve true (codes "a.b") (some (codes "10.0.0.77")) asked patterns
      address_reads patterns-AllShort

match_host_and_ip_runs :
    match_host_and_ip resolve true (codes "a.b") (some (codes "10.0.0.77")) patterns ≡ some positive
unfolding match_host_and_ip host_and_ip addr_match_list match_loop entry_hit tokens prepend
    match_hostname match_pattern_list list_loop extract skip_comma match_pattern match_from
    match_one find_literal find_any addr_netmatch addr_cmp cmp_of cmp_bytes addr8 u32_bytes
    addr_pton_cidr masked at_slash at_end strtoul skip_space digits with_masklen addr_pton
    addr_sa_to_xaddr consistent masklen_valid addr_host_is_all0s addr_hostmask addr_netmask mask_of
    addr_invert invert_of addr_and addr_is_all0s all_zero and_bits and_of and_words invert_words
    mask_words ones_shifted zero_of
match_host_and_ip_runs = refl

-- The second entry has invalid characters, and its network contains the address.
abbrev networks : Bytes
networks = codes "11.0.0.0/8,10%0.0.0/8"

addr_match_cidr_list-last_word_example :
    addr_match_cidr_list resolve true (some (codes "10.0.0.77")) networks ≡ (
      if true && all_readable resolve asked (tokens networks)
      then last_word resolve asked (tokens networks)
      else negative)
addr_match_cidr_list-last_word_example =
    addr_match_cidr_list-last_word resolve true (some (codes "10.0.0.77")) asked networks
      address_reads

invalid_entry_passes :
    addr_match_cidr_list resolve true (some (codes "10.0.0.77")) networks ≡ positive
unfolding addr_match_cidr_list cidr_loop all_cidr_chars tokens prepend addr_netmatch addr_cmp cmp_of
    cmp_bytes addr8 u32_bytes addr_pton_cidr masked at_slash at_end strtoul skip_space digits
    with_masklen addr_pton addr_sa_to_xaddr consistent masklen_valid addr_host_is_all0s
    addr_hostmask addr_netmask mask_of addr_invert invert_of addr_and addr_is_all0s all_zero
    and_bits and_of and_words invert_words mask_words ones_shifted zero_of
invalid_entry_passes = refl
