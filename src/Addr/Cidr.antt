-- ===== src/Addr/Cidr.antt =====
-- What a list of networks alone decides, by its last entry that decides anything.
use libopenssh.Addr.{Xaddr}
use libopenssh.Base.{
  ℕ, ◌≡◌, refl, ◌∙◌, Bool, true, false, not, ◌&&◌, arith, Option, some, List, Bytes, [], ◌∷◌,
  length, ltb, ◌+◌, if◌then◌else◌,
}
use libopenssh.Match.{tokens, at_end, Verdict, negative, unmatched, positive}
use libopenssh.Addr.Parse.{Lookup, Cidr, network, unreadable, inconsistent, addr_pton_cidr}
use libopenssh.Addr.Lists.{
  Target, in_network, target_of, cidr_loop, addr_match_cidr_list, inet6_addrstrlen, all_cidr_chars,
}

-- `v`, if the later verdict is open.
abbrev pub or_else : Verdict → Verdict → Verdict
or_else unmatched v = v
or_else later v = later

read-or_else :
    (hit clean : Bool) (next : Verdict → Verdict) (ok : Bool) (w ret : Verdict)
    → ((r : Verdict) → next r ≡ (if ok then or_else w r else negative))
    → (if hit then next positive else next (if clean then ret else negative)) ≡ (
        if ok
        then or_else
            (or_else w (if hit then positive else if clean then unmatched else negative))
            ret
        else negative)
read-or_else true clean next ok w ret ih = ih positive ∙ ground arith
read-or_else false true next ok w ret ih = ih ret ∙ ground arith
read-or_else false false next ok w ret ih = ih negative ∙ ground arith

entry-or_else :
    (c : Cidr) (hit : Xaddr → ℕ → Bool) (ended long clean : Bool) (next : Verdict → Verdict)
    (ok : Bool) (w ret : Verdict)
    → ((r : Verdict) → next r ≡ (if ok then or_else w r else negative))
    → (if ended then negative else if long then negative else elim c [
      | unreadable ↦ negative
      | inconsistent ↦ negative
      | network net l ↦ if hit net l then next positive else next (if clean then ret else negative)
    ])
      ≡ (if not ended
            && not long
            && elim c [ network net l ↦ true | unreadable ↦ false | inconsistent ↦ false ]
            && ok
          then or_else
              (or_else w (elim c [
                | network net l ↦
                    if hit net l then positive else if clean then unmatched else negative
                | unreadable ↦ negative
                | inconsistent ↦ negative
              ]))
              ret
          else negative)
entry-or_else c hit true long clean next ok w ret ih = refl
entry-or_else c hit false true clean next ok w ret ih = refl
entry-or_else unreadable hit false false clean next ok w ret ih = refl
entry-or_else inconsistent hit false false clean next ok w ret ih = refl
entry-or_else (network net l) hit false false clean next ok w ret ih =
    read-or_else (hit net l) clean next ok w ret ih

module _ (resolve : Bytes → Lookup) (target : Target) where
  -- The entry is neither empty nor too long, and it is read as a network.
  abbrev pub readable : Bytes → Bool
  readable t =
      not (at_end t)
      && not (ltb (inet6_addrstrlen + 3) (length t))
      && elim (addr_pton_cidr resolve t) [
        | network net l ↦ true
        | unreadable ↦ false
        | inconsistent ↦ false
      ]

  abbrev pub all_readable : List Bytes → Bool
  all_readable [] = true
  all_readable (t ∷ ts) = readable t && all_readable ts

  -- What the entry says by itself.
  abbrev pub entry_says : Bytes → Verdict
  entry_says t = elim (addr_pton_cidr resolve t) [
    | network net l ↦
        if in_network target net l
        then positive
        else if all_cidr_chars t
        then unmatched
        else negative
    | unreadable ↦ negative
    | inconsistent ↦ negative
  ]

  abbrev pub last_word : List Bytes → Verdict
  last_word [] = unmatched
  last_word (t ∷ ts) = or_else (last_word ts) (entry_says t)

  cidr_loop-last_word :
      (ret : Verdict) (ts : List Bytes)
      → cidr_loop resolve target ret ts
        ≡ (if all_readable ts then or_else (last_word ts) ret else negative)
  unfolding cidr_loop
  cidr_loop-last_word ret [] = refl
  cidr_loop-last_word ret (t ∷ ts) =
      entry-or_else (addr_pton_cidr resolve t) (in_network target) (at_end t)
        (ltb (inet6_addrstrlen + 3) (length t)) (all_cidr_chars t)
        (λ r. cidr_loop resolve target r ts) (all_readable ts) (last_word ts) ret
        (λ r. cidr_loop-last_word r ts)

or_else-unmatched : (v : Verdict) → or_else v unmatched ≡ v
or_else-unmatched v = ground arith

-- For an address that can be read, a list of networks is refused if memory for its copy is not
-- granted, or if an entry is empty, too long or cannot be read as a network. Otherwise its last entry
-- that says anything decides: an entry whose network contains the address matches, and another one
-- with invalid characters refuses the list. In particular an invalid entry is overlooked if a later
-- one, or itself, matches.
pub addr_match_cidr_list-last_word :
    (resolve : Bytes → Lookup) (granted : Bool) (addr : Option Bytes) (target : Target)
    (list : Bytes)
    → target_of resolve addr ≡ some target
    → addr_match_cidr_list resolve granted addr list ≡ (
        if granted && all_readable resolve target (tokens list)
        then last_word resolve target (tokens list)
        else negative)
unfolding addr_match_cidr_list
addr_match_cidr_list-last_word resolve false addr target list e = rw (e, addr_match_cidr_list) refl
addr_match_cidr_list-last_word resolve true addr target list e =
    rw (e, addr_match_cidr_list)
      (cidr_loop-last_word resolve target unmatched (tokens list)
        ∙ (rw (or_else-unmatched (last_word resolve target (tokens list)))))
