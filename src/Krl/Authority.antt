-- ===== src/Krl/Authority.antt =====
-- Revoking the certificates of an authority by their serial numbers, and asking for one of them.
use libopenssh.Base.{
  Order, ℕ, ◌≤◌, ◌≡◌, ◌↔◌, ◌⊎◌, inl, inr, refl, sym, ◌∙◌, arith, Bool, true, false, ◌||◌, Option,
  none, some, Option-cases, List, Bytes, [], ◌∷◌, ◌++◌, length, get_elem?, ltb, ◌==◌, if◌then◌else◌,
}
use libopenssh.Err.{key_revoked, Result, ok, err}
use libopenssh.Tree.{Tree}
use libopenssh.Krl.{Serials, u64_max, serial_cmp, insert_serial_range}
use libopenssh.Krl.Ranges.{Within, From}
use libopenssh.Krl.Insert.{Added, insert_serial_range-Inserted}
use libopenssh.Krl.Places.{
  get_elem?-set_at, get_elem?-append_length, position-get_elem?, position-set_at,
  position-append_length,
}
use libopenssh.Krl.Revoke.{
  KeyOps, Certs, Krl, set_at, position, revoked_certs_for_ca_key, at_certs,
  revoke_cert_by_serial_range,
}
use libopenssh.Krl.Check.{Trees, is_some, cert_revoked, in_certs, is_key_revoked}
use libopenssh.Krl.Serial.{
  AllFrom, AllFrom-get_elem?, AllFrom-set_at, AllFrom-append, cert_revoked-Added,
  is_key_revoked-in_certs, in_certs-cert_revoked, in_certs-unknown,
}

at_certs-eq :
    {K : Type 0} (ops : KeyOps K) (i : ℕ) (f : Certs K → Certs K × Result (Unit {0})) (krl : Krl K)
    (rc : Certs K)
    → get_elem? krl.revoked_certs i ≡ some rc
    → at_certs ops (some i) f krl
      ≡ (record krl { revoked_certs = set_at i (f rc).0 krl.revoked_certs }, (f rc).1)
at_certs-eq ops i f krl rc e = rw (e, at_certs) refl

revoked_certs_for_ca_key-found :
    {K : Type 0} (ops : KeyOps K) (krl : Krl K) (ca : K) (i : ℕ)
    → position ops ca krl.revoked_certs ≡ some i
    → revoked_certs_for_ca_key ops true krl ca true ≡ (krl, ok (some i))
unfolding revoked_certs_for_ca_key
revoked_certs_for_ca_key-found ops krl ca i e = rw (e, revoked_certs_for_ca_key) refl

revoked_certs_for_ca_key-new :
    {K : Type 0} (ops : KeyOps K) (krl : Krl K) (ca copy : K)
    → position ops ca krl.revoked_certs ≡ none
    → ops.from_private ca ≡ ok copy
    → revoked_certs_for_ca_key ops true krl ca true ≡ (
      record krl {
        revoked_certs =
            krl.revoked_certs
            ++ (record { ca_key = copy; revoked_serials = []; revoked_key_ids = [] } ∷ []);
      },
      ok (some (length krl.revoked_certs)),
    )
unfolding revoked_certs_for_ca_key
revoked_certs_for_ca_key-new ops krl ca copy e c = rw (e, revoked_certs_for_ca_key) (rw c refl)

revoke_cert_by_serial_range-at_certs :
    {K : Type 0} (tree : Tree Serials serial_cmp) (ops : KeyOps K) (krl krl' : Krl K) (ca : K)
    (lo hi : ℕ) (rcp : Option ℕ)
    → 1 ≤ lo
    → lo ≤ hi
    → revoked_certs_for_ca_key ops true krl ca true ≡ (krl', ok rcp)
    → revoke_cert_by_serial_range ops tree true true krl ca lo hi
      ≡ at_certs ops rcp
          (λ c.
            let (l, r) = insert_serial_range tree true c.revoked_serials lo hi in
            (record c { revoked_serials = l }, r))
          krl'
unfolding revoke_cert_by_serial_range
revoke_cert_by_serial_range-at_certs tree ops krl krl' ca lo hi rcp h₁ h₂ e =
    let valid : (ltb hi lo || lo == 0) ≡ false = ground arith in
    rw (valid, revoke_cert_by_serial_range) (rw e refl)

module _ {K : Type 0} (trees : Trees) (ops : KeyOps K) where
  nothing_found :
      {A : Type 0} {cmp : A → A → Order} (tree : Tree A cmp) (x : A)
      → is_some (tree.find x []) ≡ false
  nothing_found tree x = elim (Option-cases (tree.find x [])) [
    | inl e ↦ rw e refl
    | inr (y, e) ↦ absurd (tree.find_same x [] y tt e tt)
  ]

  cert_revoked-empty :
      (ca key : K)
      → cert_revoked trees ops
          (record { ca_key = ca; revoked_serials = []; revoked_key_ids = [] })
          key
        ≡ ok tt
  unfolding cert_revoked
  cert_revoked-empty ca key =
      rw
        (
          nothing_found trees.key_ids (ops.key_id key),
          nothing_found trees.serials (record { lo = ops.serial key; hi = ops.serial key }),
        )
        (ground arith)

  -- Behind the revocation the ranges are in order, and of the authority's certificates those are
  -- revoked that were, and those with a serial number in the range.
  abbrev pub Revoked : K → Serials → Krl K → Krl K × Result (Unit {0}) → Type 0
  Revoked key rs krl (krl', r) =
      (r ≡ ok tt)
      × AllFrom krl'.revoked_certs
      × ((is_key_revoked trees ops krl' key ≡ err key_revoked)
          ↔ ((is_key_revoked trees ops krl key ≡ err key_revoked) ⊎ Within (ops.serial key) rs))

  front_iff :
      {W : Type 0} (a b : Bool) (x x' : Result (Unit {0}))
      → ((x' ≡ err key_revoked) ↔ ((x ≡ err key_revoked) ⊎ W))
      → ((if a then err key_revoked else if b then err key_revoked else x') ≡ err key_revoked) ↔ (
          ((if a then err key_revoked else if b then err key_revoked else x) ≡ err key_revoked) ⊎ W)
  front_iff true b x x' p = (λ q. inl refl, λ q. refl)
  front_iff false true x x' p = (λ q. inl refl, λ q. refl)
  front_iff false false x x' p = p

  changed_iff :
      (krl krl' : Krl K) (key : K) (hash blob : Bytes) (lo hi i : ℕ) (rc : Certs K)
      (l : List Serials)
      → 1 ≤ lo
      → ops.fingerprint_sha1 key ≡ some hash
      → ops.plain_to_blob key ≡ ok blob
      → ops.is_cert key ≡ true
      → ops.is_legacy key ≡ false
      → krl'.revoked_keys ≡ krl.revoked_keys
      → krl'.revoked_sha1s ≡ krl.revoked_sha1s
      → From 0 rc.revoked_serials
      → Added rc.revoked_serials (record { lo = lo; hi = hi }) l
      → in_certs trees ops krl key ≡ cert_revoked trees ops rc key
      → in_certs trees ops krl' key ≡ cert_revoked trees ops (record rc { revoked_serials = l }) key
      → (is_key_revoked trees ops krl' key ≡ err key_revoked) ↔ (
          (is_key_revoked trees ops krl key ≡ err key_revoked)
          ⊎ Within (ops.serial key) (record { lo = lo; hi = hi }))
  changed_iff krl krl' key hash blob lo hi i rc l h e p k g x y f added before behind =
      rw
        (
          is_key_revoked-in_certs trees ops krl' key hash blob e p k,
          is_key_revoked-in_certs trees ops krl key hash blob e p k,
          before,
          behind,
          x,
          y,
        )
        (front_iff (is_some (trees.blobs.find hash krl.revoked_sha1s))
          (is_some (trees.blobs.find blob krl.revoked_keys)) (cert_revoked trees ops rc key)
          (cert_revoked trees ops (record rc { revoked_serials = l }) key)
          (cert_revoked-Added trees ops rc l (record { lo = lo; hi = hi }) key f added g h))

  -- The list `rcs` has the authority's certificates, and is the old one or has a new entry.
  at_certs-Revoked :
      (krl : Krl K) (rcs : List (Certs K)) (key : K) (hash blob : Bytes) (lo hi i : ℕ)
      (rc : Certs K)
      → 1 ≤ lo
      → lo ≤ hi
      → hi ≤ u64_max
      → ops.fingerprint_sha1 key ≡ some hash
      → ops.plain_to_blob key ≡ ok blob
      → ops.is_cert key ≡ true
      → ops.is_legacy key ≡ false
      → AllFrom rcs
      → position ops (ops.signature_key key) rcs ≡ some i
      → get_elem? rcs i ≡ some rc
      → in_certs trees ops krl key ≡ cert_revoked trees ops rc key
      → Revoked key
          (record { lo = lo; hi = hi })
          krl
          (at_certs ops
            (some i)
            (λ c.
              let (l, r) = insert_serial_range trees.serials true c.revoked_serials lo hi in
              (record c { revoked_serials = l }, r))
            (record krl { revoked_certs = rcs }))
  at_certs-Revoked krl rcs key hash blob lo hi i rc h₁ h₂ h₃ e p k g a pos get before =
      let f = AllFrom-get_elem? rcs i rc a get in
      rw
        (at_certs-eq ops i
          (λ c.
            let (l, r) = insert_serial_range trees.serials true c.revoked_serials lo hi in
            (record c { revoked_serials = l }, r))
          (record krl { revoked_certs = rcs }) rc get)
        (elim (insert_serial_range-Inserted trees.serials true rc.revoked_serials lo hi h₂ h₃ f) [
          | inr (x, y, z) ↦ cc x
          | inl (added, r) ↦ (
            r,
            AllFrom-set_at rcs i _ a added.0,
            changed_iff krl
                (record krl {
                  revoked_certs =
                      set_at i
                        (record rc {
                          revoked_serials =
                              (insert_serial_range trees.serials true rc.revoked_serials lo hi).0;
                        })
                        rcs;
                })
                key hash blob lo hi i rc
                (insert_serial_range trees.serials true rc.revoked_serials lo hi).0 h₁ e p k g refl
                refl f added before
                (in_certs-cert_revoked trees ops _ key i _
                  (position-set_at ops (ops.signature_key key) rcs i rc _ pos get refl)
                  (get_elem?-set_at i _ rc rcs get)),
          )
        ])

-- Ranges of serials are revoked as they are asked for: if memory is granted, the range is valid, and
-- the authority's key can be copied, revoke_cert_by_serial_range succeeds, and keeps every authority's
-- ranges in order and apart. A certificate of that authority whose blobs can be
-- computed and that is of no legacy format is then revoked exactly if it was before or its serial
-- number is in the range.
pub revoke_cert_by_serial_range-Revoked :
    {K : Type 0} (trees : Trees) (ops : KeyOps K) (krl : Krl K) (key copy : K) (hash blob : Bytes)
    (lo hi : ℕ)
    → 1 ≤ lo
    → lo ≤ hi
    → hi ≤ u64_max
    → ops.fingerprint_sha1 key ≡ some hash
    → ops.plain_to_blob key ≡ ok blob
    → ops.is_cert key ≡ true
    → ops.is_legacy key ≡ false
    → ops.from_private (ops.signature_key key) ≡ ok copy
    → ops.equal copy (ops.signature_key key) ≡ true
    → AllFrom krl.revoked_certs
    → Revoked trees ops key
        (record { lo = lo; hi = hi })
        krl
        (revoke_cert_by_serial_range ops trees.serials true true krl (ops.signature_key key) lo hi)
unfolding revoke_cert_by_serial_range revoked_certs_for_ca_key
revoke_cert_by_serial_range-Revoked trees ops krl key copy hash blob lo hi h₁ h₂ h₃ e p k g c q a =
    let ca = ops.signature_key key in
    let l = krl.revoked_certs in
    elim (Option-cases (position ops ca l)) [
      | inr (i, pos) ↦
          let (rc, get) = position-get_elem? ops ca l i pos in
          rw
            (revoke_cert_by_serial_range-at_certs trees.serials ops krl krl ca lo hi (some i) h₁ h₂
              (revoked_certs_for_ca_key-found ops krl ca i pos))
            (at_certs-Revoked trees ops krl l key hash blob lo hi i rc h₁ h₂ h₃ e p k g a pos get
              (in_certs-cert_revoked trees ops krl key i rc pos get))
      | inl unknown ↦
          let rc : Certs _ = record { ca_key = copy; revoked_serials = []; revoked_key_ids = [] } in
          rw
            (revoke_cert_by_serial_range-at_certs trees.serials ops krl _ ca lo hi (some (length l))
              h₁ h₂ (revoked_certs_for_ca_key-new ops krl ca copy unknown c))
            (at_certs-Revoked trees ops krl (l ++ (rc ∷ [])) key hash blob lo hi (length l) rc h₁ h₂
              h₃ e p k g (AllFrom-append l rc a tt) (position-append_length ops ca l rc unknown q)
              (get_elem?-append_length l rc)
              (in_certs-unknown trees ops krl key unknown
                ∙ sym (cert_revoked-empty trees ops copy key)))
    ]
