-- ===== src/Krl/Check.antt =====
-- Asking whether a key is revoked, and revoking a key as what it is.
use libopenssh.Base.{
  Bool, true, false, not, ◌||◌, Option, none, some, Bytes, get_elem?, ◌==◌, if◌then◌else◌,
}
use libopenssh.Err.{alloc_fail, key_revoked, Result, ok, err, fault}
use libopenssh.Tree.{Tree}
use libopenssh.Krl.{Serials, serial_cmp, key_id_cmp, blob_cmp}
use libopenssh.Krl.Revoke.{
  KeyOps, Certs, Krl, revoked_certs_for_ca_key, revoke_cert_by_serial, revoke_cert_by_key_id,
  revoke_key_sha1,
}

-- The macros on the three kinds of trees.
pub record Trees : Type 0 where
  pub serials : Tree Serials serial_cmp
  pub key_ids : Tree Bytes key_id_cmp
  pub blobs : Tree Bytes blob_cmp

abbrev pub is_some : {A : Type 0} → Option A → Bool
is_some none = false
is_some (some a) = true

module _ {K : Type 0} (trees : Trees) (ops : KeyOps K) where
  unfoldable pub revoke_key : Bool → Bool → Krl K → K → Krl K × Result (Unit {0})
  revoke_key granted granted' krl key =
      if not (ops.is_cert key)
      then revoke_key_sha1 ops trees.blobs granted krl key
      else if ops.is_legacy key || ops.serial key == 0
      then revoke_cert_by_key_id ops trees.key_ids granted granted' krl (ops.signature_key key)
          (ops.key_id key)
      else revoke_cert_by_serial ops trees.serials granted granted' krl (ops.signature_key key)
          (ops.serial key)

  -- The end of is_key_revoked, for a certificate of an authority in the list.
  unfoldable pub cert_revoked : Certs K → K → Result (Unit {0})
  cert_revoked rc key =
      if is_some (trees.key_ids.find (ops.key_id key) rc.revoked_key_ids)
      then err key_revoked
      else if ops.is_legacy key || ops.serial key == 0
      then ok tt
      else if is_some (
          trees.serials.find (record { lo = ops.serial key; hi = ops.serial key })
            rc.revoked_serials)
      then err key_revoked
      else ok tt

  -- The look-up of the authority, which creates nothing.
  unfoldable pub in_certs : Krl K → K → Result (Unit {0})
  in_certs krl key =
      elim ((revoked_certs_for_ca_key ops false krl (ops.signature_key key) false).1) [
        | err e ↦ err e
        | fault ↦ fault
        | ok none ↦ ok tt
        | ok (some i) ↦ elim (get_elem? krl.revoked_certs i) [
          | none ↦ fault
          | some rc ↦ cert_revoked rc key
        ]
      ]

  unfoldable pub is_key_revoked : Krl K → K → Result (Unit {0})
  is_key_revoked krl key = elim (ops.fingerprint_sha1 key) [
    | none ↦ err alloc_fail
    | some hash ↦
        if is_some (trees.blobs.find hash krl.revoked_sha1s)
        then err key_revoked
        else elim (ops.plain_to_blob key) [
          | err e ↦ err e
          | fault ↦ fault
          | ok blob ↦
              if is_some (trees.blobs.find blob krl.revoked_keys)
              then err key_revoked
              else if not (ops.is_cert key)
              then ok tt
              else in_certs krl key
        ]
  ]

  -- The key, and for a certificate the authority that signed it.
  unfoldable pub check_key : Krl K → K → Result (Unit {0})
  check_key krl key = elim (is_key_revoked krl key) [
    | ok u ↦ if ops.is_cert key then is_key_revoked krl (ops.signature_key key) else ok tt
    | err e ↦ err e
    | fault ↦ fault
  ]
