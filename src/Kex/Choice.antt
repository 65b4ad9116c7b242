-- ===== src/Kex/Choice.antt =====
-- `kex_choose_conf` of ssh/kex.c: what two proposals are agreed to, and what is recorded.
use libopenssh.Base.{
  ℕ, Bool, true, false, not, ◌&&◌, ◌||◌, Option, none, some, List, Bytes, [], ◌==◌, ltb,
  if◌then◌else◌, codes, get_or,
}
use libopenssh.Err.{
  Result, ok, err, fault, and_then, alloc_fail, internal_error, no_hostkey_alg_match,
}
use libopenssh.Sshbuf.{Sshbuf}
use libopenssh.Compat.Table.{Bugs}
use libopenssh.Mac.{Digest, Sshmac}
use libopenssh.KeyKind.{KeyType, unspec, sshkey_type_from_name}
use libopenssh.Kex.{
  KexAlg, kex_alg_by_name, Newkeys, no_keys, Sshenc, pick, choose_enc, choose_mac, choose_comp,
  has_bug, is_hmac, is_firstkex, proposals_match, kex_buf2prop, proposal_kex_algs,
  proposal_server_host_key_algs,
}

pub data Mode : Type 0 where
  mode_in mode_out : Mode

-- The fields of `struct kex` that the choice reads and writes, with the peer's bugs and the count of
-- packets to skip of `struct ssh`.
pub record Kex : Type 0 where
  pub server : Bool
  pub compat : Bugs
  pub my : Sshbuf
  pub peer : Sshbuf
  pub newkeys_in : Option Newkeys
  pub newkeys_out : Option Newkeys
  pub we_need : ℕ
  pub name : Option Bytes
  pub alg : Option KexAlg
  pub hostkey_type : KeyType
  pub roaming : Bool
  pub skip_packets : ℕ

abbrev pub set_newkeys : Mode → Newkeys → Kex → Kex
set_newkeys mode_in k x = record x { newkeys_in = some k }
set_newkeys mode_out k x = record x { newkeys_out = some k }

abbrev is_out : Mode → Bool
is_out mode_in = false
is_out mode_out = true

-- `ctos`: the keys are for what the client sends.
unfoldable pub is_ctos : Bool → Mode → Bool
is_ctos server mode = not server && is_out mode || server && not (is_out mode)

abbrev pub index : Bool → ℕ → ℕ → ℕ
index ctos c s = if ctos then c else s

module _ (md_size : Digest → ℕ) (short_key : Bool) (cprop sprop : List Bytes) where
  -- A cipher, unless it authenticates a MAC, and a compression for one direction.
  unfoldable pub fill_enc : Bool → Newkeys → Newkeys × Result Sshenc
  fill_enc ctos k =
      elim (choose_enc (get_or cprop (index ctos 2 3) []) (get_or sprop (index ctos 2 3) [])) [
        | ok e ↦ (record k { enc = some e }, ok e)
        | err e ↦ (k, err e)
        | fault ↦ (k, fault)
      ]

  unfoldable pub fill_mac : Bool → Sshenc → Newkeys → Newkeys × Result (Unit {0})
  fill_mac ctos e k =
      if e.cipher.auth_len == 0
      then elim (choose_mac md_size short_key (get_or cprop (index ctos 4 5) [])
          (get_or sprop (index ctos 4 5) [])) [
            | ok m ↦ (record k { mac = some m }, ok tt)
            | err e ↦ (k, err e)
            | fault ↦ (k, fault)
          ]
      else (k, ok tt)

  unfoldable pub fill_comp : Bool → Newkeys → Newkeys × Result (Unit {0})
  fill_comp ctos k =
      elim (choose_comp (get_or cprop (index ctos 6 7) []) (get_or sprop (index ctos 6 7) [])) [
        | ok c ↦ (record k { comp = some c }, ok tt)
        | err e ↦ (k, err e)
        | fault ↦ (k, fault)
      ]

  unfoldable pub fill : Bool → Newkeys × Result (Unit {0})
  fill ctos =
      and_then (fill_enc ctos no_keys) λ e k. and_then (fill_mac ctos e k) λ _. fill_comp ctos

  -- One round of the loop over the modes.
  unfoldable pub choose_mode : Bool → Mode → Kex → Kex × Result (Unit {0})
  choose_mode granted mode x =
      if granted
      then (let (k, r) = fill (is_ctos x.server mode) in (set_newkeys mode k x, r))
      else (x, err alloc_fail)

unfoldable pub choose_kex : Bytes → Bytes → Kex → Kex × Result (Unit {0})
choose_kex client server x = elim (pick client server) [
  | none ↦ (record x { name = none }, err internal_error)
  | some name ↦ elim (kex_alg_by_name name) [
    | none ↦ (record x { name = some name }, err internal_error)
    | some alg ↦ (record x { name = some name; alg = some alg }, ok tt)
  ]
]

abbrev pub is_unspec : KeyType → Bool
is_unspec unspec = true
is_unspec _ = false

unfoldable pub choose_hostkeyalg : Bytes → Bytes → Kex → Kex × Result (Unit {0})
choose_hostkeyalg client server x = elim (pick client server) [
  | none ↦ (x, err no_hostkey_alg_match)
  | some name ↦
      let t = sshkey_type_from_name name in
      (record x { hostkey_type = t }, if is_unspec t then err internal_error else ok tt)
]

abbrev pub max : ℕ → ℕ → ℕ
max need n = if ltb need n then n else need

-- The lengths in `newkeys`, 0 where calloc left it.
abbrev pub enc_need : ℕ → Option Sshenc → ℕ
enc_need need none = need
enc_need need (some e) = max (max (max need e.key_len) e.block_size) e.iv_len

abbrev pub mac_need : ℕ → Option (Bytes × Sshmac) → ℕ
mac_need need none = need
mac_need need (some (_, m)) = max need m.key_len

abbrev pub keys_need : ℕ → Option Newkeys → ℕ
keys_need need none = need
keys_need need (some k) = mac_need (enc_need need k.enc) k.mac

unfoldable pub note_need : Kex → Kex
note_need x = record x { we_need = keys_need (keys_need 0 x.newkeys_in) x.newkeys_out }

-- A client looks whether the server offers roaming.
unfoldable pub note_roaming : List Bytes → Kex → Kex
note_roaming peer x =
    if x.server
    then x
    else elim (pick (codes "resume@appgate.com") (get_or peer proposal_kex_algs [])) [
      | none ↦ x
      | some _ ↦ record x { roaming = true }
    ]

module _ (cprop sprop : List Bytes) where
  -- The stages of the choice, from the last to the first.
  unfoldable pub after_kex : Kex → Kex × Result (Unit {0})
  after_kex x =
      and_then
        (choose_hostkeyalg (get_or cprop proposal_server_host_key_algs [])
          (get_or sprop proposal_server_host_key_algs []) x)
        λ _ x. (note_need x, ok tt)

  unfoldable pub after_modes : Kex → Kex × Result (Unit {0})
  after_modes x =
      and_then
        (choose_kex (get_or cprop proposal_kex_algs []) (get_or sprop proposal_kex_algs []) x)
        λ _. after_kex

  module _ (md_size : Digest → ℕ) (granted : Bool) where
    unfoldable pub after_in : Kex → Kex × Result (Unit {0})
    after_in x =
        and_then (choose_mode md_size (has_bug is_hmac x.compat) cprop sprop granted mode_out x)
          λ _. after_modes

    unfoldable pub negotiate : Kex → Kex × Result (Unit {0})
    negotiate x =
        and_then (choose_mode md_size (has_bug is_hmac x.compat) cprop sprop granted mode_in x)
          λ _. after_in

-- The end: a guess of the peer that is wrong makes the next packet be skipped.
unfoldable pub note_guess : ℕ → List Bytes → List Bytes → Kex → Kex
note_guess first_kex_follows my peer x =
    if not (first_kex_follows == 0)
      && not (proposals_match my peer)
      && not (has_bug is_firstkex x.compat)
    then record x { skip_packets = 1 }
    else x

unfoldable pub choose_between :
    (Digest → ℕ) → Bool → ℕ → List Bytes → List Bytes → Kex → Kex × Result (Unit {0})
choose_between md_size granted follows my peer x =
    let cprop = if x.server then peer else my in
    let sprop = if x.server then my else peer in
    and_then (negotiate cprop sprop md_size granted (note_roaming peer x))
      λ _ x. (note_guess follows my peer x, ok tt)

-- The end of the function hands both proposals to kex_prop_free, which reads through them: a proposal
-- that was not read is a null pointer there.
unfoldable pub with_proposals :
    (Digest → ℕ)
    → Bool
    → Result (ℕ × List Bytes)
    → Result (ℕ × List Bytes)
    → Kex
    → Kex × Result (Unit {0})
with_proposals md_size granted (ok mine) (ok theirs) x =
    choose_between md_size granted theirs.0 mine.1 theirs.1 x
with_proposals md_size granted _ _ x = (x, fault)

unfoldable pub kex_choose_conf : (Digest → ℕ) → Bool → Kex → Kex × Result (Unit {0})
kex_choose_conf md_size granted x =
    with_proposals md_size granted (kex_buf2prop granted x.my) (kex_buf2prop granted x.peer) x
