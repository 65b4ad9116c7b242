-- ===== src/Krl/Revoke.antt =====
-- Revoking certificates and keys, and asking whether a key is revoked.
use libopenssh.Base.{
  Order, ℕ, zero, suc, ◌%◌, ◌^◌, Bool, true, false, not, ◌||◌, Option, none, some, List, Bytes, [],
  ◌∷◌, ◌++◌, length, take, get_elem?, ltb, ◌==◌, if◌then◌else◌,
}
use libopenssh.Err.{alloc_fail, invalid_argument, Result, ok, err, fault, and_then}
use libopenssh.Tree.{Tree, unwind}
use libopenssh.Krl.{Serials, serial_cmp, key_id_cmp, blob_cmp, insert_serial_range}

-- What krl.c uses of sshkey.h: sshkey_equal, sshkey_from_private, sshkey_fingerprint_raw with SHA1,
-- sshkey_plain_to_blob, sshkey_is_cert, sshkey_cert_is_legacy, and the fields of a certificate.
pub record KeyOps (K : Type 0) : Type 0 where
  pub equal : K → K → Bool
  pub from_private : K → Result K
  pub fingerprint_sha1 : K → Option Bytes
  pub plain_to_blob : K → Result Bytes
  pub is_cert : K → Bool
  pub is_legacy : K → Bool
  pub signature_key : K → K
  pub key_id : K → Bytes
  pub serial : K → ℕ

-- struct revoked_certs
pub record Certs (K : Type 0) : Type 0 where
  pub ca_key : K
  pub revoked_serials : List Serials
  pub revoked_key_ids : List Bytes

pub record Krl (K : Type 0) : Type 0 where
  pub krl_version : ℕ
  pub generated_date : ℕ
  pub flags : ℕ
  pub comment : Option Bytes
  pub revoked_keys : List Bytes
  pub revoked_sha1s : List Bytes
  pub revoked_certs : List (Certs K)

abbrev pub krl_init : {K : Type 0} → Bool → Option (Krl K)
krl_init granted =
    if granted
    then some (record {
      krl_version = 0;
      generated_date = 0;
      flags = 0;
      comment = none;
      revoked_keys = [];
      revoked_sha1s = [];
      revoked_certs = [];
    })
    else none

abbrev pub krl_set_version : {K : Type 0} → ℕ → Krl K → Krl K
krl_set_version version krl = record krl { krl_version = version }

abbrev pub krl_set_comment : {K : Type 0} → Bool → Bytes → Krl K → Krl K × Result (Unit {0})
krl_set_comment granted comment krl =
    if granted
    then (record krl { comment = some comment }, ok tt)
    else (record krl { comment = none }, err alloc_fail)

abbrev pub set_at : {A : Type 0} → ℕ → A → List A → List A
set_at i x [] = []
set_at zero x (y ∷ ys) = x ∷ ys
set_at (suc i) x (y ∷ ys) = y ∷ set_at i x ys

module _ {K : Type 0} (ops : KeyOps K) where
  -- The loop of revoked_certs_for_ca_key.
  unfoldable pub position : K → List (Certs K) → Option ℕ
  position ca [] = none
  position ca (rc ∷ rcs) = elim (ops.equal rc.ca_key ca) [
    | true ↦ some 0
    | false ↦ elim (position ca rcs) [ none ↦ none | some i ↦ some (suc i) ]
  ]

  unfoldable pub revoked_certs_for_ca_key : Bool → Krl K → K → Bool → Krl K × Result (Option ℕ)
  revoked_certs_for_ca_key granted krl ca allow_create = elim (position ca krl.revoked_certs) [
    | some i ↦ (krl, ok (some i))
    | none ↦
        if not allow_create
        then (krl, ok none)
        else if not granted
        then (krl, err alloc_fail)
        else elim (ops.from_private ca) [
          | ok key ↦
              let rc : Certs K = record {
                ca_key = key;
                revoked_serials = [];
                revoked_key_ids = [];
              } in
              (
                record krl { revoked_certs = krl.revoked_certs ++ (rc ∷ []) },
                ok (some (length krl.revoked_certs)),
              )
          | err e ↦ (krl, err e)
          | fault ↦ (krl, fault)
        ]
  ]

  -- `f` on the certificates that the pointer leads to.
  abbrev pub at_certs :
      Option ℕ → (Certs K → Certs K × Result (Unit {0})) → Krl K → Krl K × Result (Unit {0})
  at_certs none f krl = (krl, fault)
  at_certs (some i) f krl = elim (get_elem? krl.revoked_certs i) [
    | none ↦ (krl, fault)
    | some rc ↦
        let (rc', r) = f rc in (record krl { revoked_certs = set_at i rc' krl.revoked_certs }, r)
  ]

  -- `granted` and `granted'`: the memory for the certificates and for the range.
  unfoldable pub revoke_cert_by_serial_range :
      Tree Serials serial_cmp → Bool → Bool → Krl K → K → ℕ → ℕ → Krl K × Result (Unit {0})
  revoke_cert_by_serial_range tree granted granted' krl ca lo hi =
      if ltb hi lo || lo == 0
      then (krl, err invalid_argument)
      else and_then (revoked_certs_for_ca_key granted krl ca true) λ rcp krl'.
        at_certs rcp
          (λ rc.
            let (l, r) = insert_serial_range tree granted' rc.revoked_serials lo hi in
            (record rc { revoked_serials = l }, r))
          krl'

  unfoldable pub revoke_cert_by_serial :
      Tree Serials serial_cmp → Bool → Bool → Krl K → K → ℕ → Krl K × Result (Unit {0})
  revoke_cert_by_serial tree granted granted' krl ca serial =
      revoke_cert_by_serial_range tree granted granted' krl ca serial serial

  -- RB_INSERT, and the entry is freed if there is the same one.
  abbrev pub insert_entry :
      {cmp : Bytes → Bytes → Order} → Tree Bytes cmp → Bytes → List Bytes → List Bytes
  insert_entry tree x l = elim (tree.insert x l) [ none ↦ l | some (b, a) ↦ unwind b (x ∷ a) ]

  unfoldable pub revoke_cert_by_key_id :
      Tree Bytes key_id_cmp → Bool → Bool → Krl K → K → Bytes → Krl K × Result (Unit {0})
  revoke_cert_by_key_id tree granted granted' krl ca key_id =
      and_then (revoked_certs_for_ca_key granted krl ca true) λ rcp krl'.
        if not granted'
        then (krl', err alloc_fail)
        else at_certs rcp
            (λ rc.
              (record rc { revoked_key_ids = insert_entry tree key_id rc.revoked_key_ids }, ok tt))
            krl'

  -- The length of the blob is an `u_int`.
  unfoldable pub revoke_blob :
      Tree Bytes blob_cmp → Bool → List Bytes → Bytes → List Bytes × Result (Unit {0})
  revoke_blob tree granted rbt blob =
      if not granted
      then (rbt, err alloc_fail)
      else (insert_entry tree (take (length blob % 2 ^ 32) blob) rbt, ok tt)

  unfoldable pub revoke_key_explicit :
      Tree Bytes blob_cmp → Bool → Krl K → K → Krl K × Result (Unit {0})
  revoke_key_explicit tree granted krl key = elim (ops.plain_to_blob key) [
    | ok blob ↦
        let (l, r) = revoke_blob tree granted krl.revoked_keys blob in
        (record krl { revoked_keys = l }, r)
    | err e ↦ (krl, err e)
    | fault ↦ (krl, fault)
  ]

  unfoldable pub revoke_key_sha1 :
      Tree Bytes blob_cmp → Bool → Krl K → K → Krl K × Result (Unit {0})
  revoke_key_sha1 tree granted krl key = elim (ops.fingerprint_sha1 key) [
    | none ↦ (krl, err alloc_fail)
    | some blob ↦
        let (l, r) = revoke_blob tree granted krl.revoked_sha1s blob in
        (record krl { revoked_sha1s = l }, r)
  ]
