-- ===== src/Compat.antt =====
-- ssh/compat.c: what is known of a peer's version, and the choice of protocols and ciphers for it.
pub mod Table
pub mod Fellows
pub mod ProtoSpec
pub mod Ciphers
use libopenssh.Base.{
  ℕ, ◌+◌, ◌-◌, Bool, true, false, not, ◌&&◌, ◌||◌, Option, none, some, List, Bytes, [], ◌∷◌, ◌++◌,
  length, take, ◌==◌, if◌then◌else◌, codes,
}
use libopenssh.Match.{
  negative, unmatched, positive, comma, match_pattern_list, tokens, until_empty, same_name, at_end,
}
use libopenssh.Compat.Table.{Bug, Bugs, Fellow, check, bug_bigendianaes}

-- The two globals compat13 and compat20.
pub record Modes : Type 0 where
  pub compat13 : Bool
  pub compat20 : Bool

unfoldable pub enable_compat20 : Modes → Modes
enable_compat20 g = if g.compat20 then g else record g { compat20 = true }

unfoldable pub enable_compat13 : Modes → Modes
enable_compat13 g = record g { compat13 = true }

-- The loop of `compat_datafellows` over the rows of its table.
unfoldable pub process : Bytes → List Fellow → Option Bugs
process version [] = some []
process version (row ∷ rows) = elim (match_pattern_list version row.pat false) [
  | none ↦ none
  | some positive ↦ some row.bugs
  | some negative ↦ process version rows
  | some unmatched ↦ process version rows
]

unfoldable pub compat_datafellows : Bytes → Option Bugs
compat_datafellows version = process version check

-- The bits SSH_PROTO_1, SSH_PROTO_1_PREFERRED and SSH_PROTO_2.
pub record Protocols : Type 0 where
  pub one : Bool
  pub one_preferred : Bool
  pub two : Bool

abbrev pub unknown : Protocols
unknown = record { one = false; one_preferred = false; two = false }

-- ret == SSH_PROTO_UNKNOWN
abbrev pub is_unknown : Protocols → Bool
is_unknown ret = not (ret.one || ret.one_preferred || ret.two)

module _ (atoi : Bytes → ℕ) where
  -- The switch on a version number. `atoi` gives the int as a 32-bit word.
  unfoldable pub add_version : Protocols → Bytes → Protocols
  add_version ret p =
      if atoi p == 1
      then record ret { one = true; one_preferred = ret.one_preferred || is_unknown ret }
      else if atoi p == 2
      then record ret { two = true }
      else ret

  unfoldable pub spec_loop : Protocols → List Bytes → Protocols
  spec_loop ret [] = ret
  spec_loop ret (p ∷ ps) = spec_loop (add_version ret p) ps

  -- `proto_spec`; the first argument says whether strdup succeeds, `none` is a null pointer.
  unfoldable pub proto_spec : Bool → Option Bytes → Protocols
  proto_spec granted none = unknown
  proto_spec granted (some spec) =
      if granted then spec_loop unknown (until_empty (tokens spec)) else unknown

-- strlcat(dst, src, size), for a `dst` that is shorter than `size`.
abbrev pub strlcat : Bytes → Bytes → ℕ → Bytes
strlcat dst src size = dst ++ take (size - 1 - length dst) src

-- strncmp(cp, "aes", 3) == 0
unfoldable pub is_aes : Bytes → Bool
is_aes cp = same_name (take 3 cp) (codes "aes")

abbrev pub is_bigendianaes : Bug → Bool
is_bigendianaes bug_bigendianaes = true
is_bigendianaes _ = false

-- compat & SSH_BUG_BIGENDIANAES
unfoldable pub has_bigendianaes : Bugs → Bool
has_bigendianaes [] = false
has_bigendianaes (b ∷ bs) = is_bigendianaes b || has_bigendianaes bs

unfoldable pub add_cipher : ℕ → Bytes → Bytes → Bytes
add_cipher maxlen fix_ciphers cp =
    if is_aes cp
    then fix_ciphers
    else strlcat
        (if at_end fix_ciphers then fix_ciphers else strlcat fix_ciphers (comma ∷ []) maxlen) cp
        maxlen

unfoldable pub cipher_loop : ℕ → Bytes → List Bytes → Bytes
cipher_loop maxlen fix_ciphers [] = fix_ciphers
cipher_loop maxlen fix_ciphers (cp ∷ cps) =
    cipher_loop maxlen (add_cipher maxlen fix_ciphers cp) cps

abbrev pub unless_empty : Bytes → Option Bytes
unless_empty fix_ciphers = if at_end fix_ciphers then none else some fix_ciphers

-- `compat_cipher_proposal`; the first two arguments say whether strdup and calloc succeed.
unfoldable pub compat_cipher_proposal : Bool → Bool → Bytes → Bugs → Option Bytes
compat_cipher_proposal copied room cipher_prop compat =
    if not (has_bigendianaes compat)
    then some cipher_prop
    else if copied && room
    then unless_empty (cipher_loop (length cipher_prop + 1) [] (tokens cipher_prop))
    else none
