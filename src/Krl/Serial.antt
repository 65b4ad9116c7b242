-- ===== src/Krl/Serial.antt =====
-- Revoking certificates by their serial numbers, and asking for them.
use libopenssh.Base.{
  ℕ, zero, suc, ◌≤◌, ◌≡◌, ◌↔◌, ◌⊎◌, inl, inr, refl, subst, arith, Bool, true, false, ◌||◌,
  Bool-cases, Option, none, some, Option-cases, List, Bytes, [], ◌∷◌, ◌++◌, get_elem?, ltb, ◌==◌,
  if◌then◌else◌,
}
use libopenssh.Err.{key_revoked, Result, ok, err}
use libopenssh.Tree.{Tree}
use libopenssh.Krl.{Serials, serial_cmp}
use libopenssh.Krl.Ranges.{Within, Covered, From}
use libopenssh.Krl.Fitting.{From-Fits, Absent-Covered}
use libopenssh.Krl.Insert.{Added}
use libopenssh.Krl.Revoke.{KeyOps, Certs, Krl, set_at, position, revoked_certs_for_ca_key}
use libopenssh.Krl.Check.{Trees, is_some, cert_revoked, in_certs, is_key_revoked}

Within-cases : (s : ℕ) (r : Serials) → Within s r ⊎ ¬ Within s r
Within-cases s r = elim (Bool-cases (ltb s r.lo || ltb r.hi s)) [
  | inl p ↦ inr (λ (x, y). ground arith)
  | inr p ↦ inl (ground arith, ground arith)
]

Covered-cases : (s : ℕ) (l : List Serials) → Covered s l ⊎ ¬ Covered s l
Covered-cases s [] = inr (λ q. q)
Covered-cases s (r ∷ l) = elim (Covered-cases s l) [
  | inl p ↦ inl (inr p)
  | inr n ↦ elim (Within-cases s r) [
    | inl w ↦ inl (inl w)
    | inr m ↦ inr (λ q. elim q [ inl x ↦ m x | inr x ↦ n x ])
  ]
]

-- RB_FIND tells whether a number is in some range.
pub find-Covered :
    (tree : Tree Serials serial_cmp) (s : ℕ) (l : List Serials)
    → From 0 l
    → (is_some (tree.find (record { lo = s; hi = s }) l) ≡ true) ↔ Covered s l
find-Covered tree s l f =
    let x : Serials = record { lo = s; hi = s } in
    let fits = From-Fits x 0 l (omega arith) f in
    elim (Option-cases (tree.find x l)) [
      | inl e ↦
          rw e (λ q. cc q, λ c. absurd ((Absent-Covered s 0 l f).0 (tree.find_absent x l fits e) c))
      | inr (y, e) ↦ rw e (
        λ q. elim (Covered-cases s l) [
          | inl c ↦ c
          | inr n ↦ absurd (tree.find_same x l y fits e ((Absent-Covered s 0 l f).1 n))
        ],
        λ c. refl,
      )
    ]

-- The serials of every authority are in order and apart.
abbrev pub AllFrom : {K : Type 0} → List (Certs K) → Type 0
AllFrom [] = Unit {0}
AllFrom (rc ∷ rcs) = From 0 rc.revoked_serials × AllFrom rcs

certs-eq : {K : Type 0} {x y : Certs K} → ◌≡◌ {A = Option (Certs K)} (some x) (some y) → x ≡ y
certs-eq e = cc e

pub AllFrom-get_elem? :
    {K : Type 0} (l : List (Certs K)) (i : ℕ) (rc : Certs K)
    → AllFrom l
    → get_elem? l i ≡ some rc
    → From 0 rc.revoked_serials
AllFrom-get_elem? [] i rc a e = cc e
AllFrom-get_elem? (x ∷ l) zero rc (f, a) e =
    subst (λ (z : Certs _). From 0 z.revoked_serials) (certs-eq e) f
AllFrom-get_elem? (x ∷ l) (suc i) rc (f, a) e = AllFrom-get_elem? l i rc a e

pub AllFrom-set_at :
    {K : Type 0} (l : List (Certs K)) (i : ℕ) (rc : Certs K)
    → AllFrom l
    → From 0 rc.revoked_serials
    → AllFrom (set_at i rc l)
AllFrom-set_at [] i rc a f = tt
AllFrom-set_at (x ∷ l) zero rc (g, a) f = (f, a)
AllFrom-set_at (x ∷ l) (suc i) rc (g, a) f = (g, AllFrom-set_at l i rc a f)

pub AllFrom-append :
    {K : Type 0} (l : List (Certs K)) (rc : Certs K)
    → AllFrom l
    → From 0 rc.revoked_serials
    → AllFrom (l ++ (rc ∷ []))
AllFrom-append [] rc a f = (f, tt)
AllFrom-append (x ∷ l) rc (g, a) f = (g, AllFrom-append l rc a f)

answer : Bool → Bool → Bool → Result (Unit {0})
answer by_id no_serial by_serial =
    if by_id
    then err key_revoked
    else if no_serial
    then ok tt
    else if by_serial
    then err key_revoked
    else ok tt

by_serial : (f : Bool) → answer false false f ≡ err key_revoked → f ≡ true
unfolding answer
by_serial true e = refl
by_serial false e = cc e

answer_iff :
    {W : Type 0} (h z f f' : Bool)
    → ((f' ≡ true) ↔ ((f ≡ true) ⊎ W))
    → (z ≡ true → ¬ W)
    → (answer h z f' ≡ err key_revoked) ↔ ((answer h z f ≡ err key_revoked) ⊎ W)
unfolding answer
answer_iff true z f f' p n = (λ q. inl refl, λ q. refl)
answer_iff false true f f' p n =
    (λ q. cc q, λ q. elim q [ inl x ↦ cc x | inr w ↦ absurd (n refl w) ])
answer_iff false false true true p n = (λ q. inl refl, λ q. refl)
answer_iff false false false true (p, r) n =
    (λ q. elim (p refl) [ inl x ↦ cc x | inr w ↦ inr w ], λ q. refl)
answer_iff false false f false (p, r) n =
    (λ q. cc q, λ q. elim q [ inl x ↦ cc (r (inl (by_serial f x))) | inr w ↦ cc (r (inr w)) ])

module _ {K : Type 0} (trees : Trees) (ops : KeyOps K) where
  -- The end of the question, once the authority's ranges have been added to.
  pub cert_revoked-Added :
      (rc : Certs K) (l : List Serials) (rs : Serials) (key : K)
      → From 0 rc.revoked_serials
      → Added rc.revoked_serials rs l
      → ops.is_legacy key ≡ false
      → 1 ≤ rs.lo
      → (cert_revoked trees ops (record rc { revoked_serials = l }) key ≡ err key_revoked)
        ↔ ((cert_revoked trees ops rc key ≡ err key_revoked) ⊎ Within (ops.serial key) rs)
  unfolding cert_revoked answer
  cert_revoked-Added rc l rs key f (f', c) g h =
      let s = ops.serial key in
      let (p, q) = find-Covered trees.serials s rc.revoked_serials f in
      let (p', q') = find-Covered trees.serials s l f' in
      answer_iff (is_some (trees.key_ids.find (ops.key_id key) rc.revoked_key_ids))
        (ops.is_legacy key || s == 0)
        (is_some (trees.serials.find (record { lo = s; hi = s }) rc.revoked_serials))
        (is_some (trees.serials.find (record { lo = s; hi = s }) l))
        (
          λ x. elim ((c s).0 (p' x)) [ inl y ↦ inl (q y) | inr w ↦ inr w ],
          λ x. q' ((c s).1 (elim x [ inl y ↦ inl (p y) | inr w ↦ inr w ])),
        )
        (λ z (x, y). ground (arith, z, g, h, x))

  -- The question on a certificate whose blobs are computed, in front of its authority.
  pub is_key_revoked-in_certs :
      (krl : Krl K) (key : K) (hash blob : Bytes)
      → ops.fingerprint_sha1 key ≡ some hash
      → ops.plain_to_blob key ≡ ok blob
      → ops.is_cert key ≡ true
      → is_key_revoked trees ops krl key ≡ (
          if is_some (trees.blobs.find hash krl.revoked_sha1s)
          then err key_revoked
          else if is_some (trees.blobs.find blob krl.revoked_keys)
          then err key_revoked
          else in_certs trees ops krl key)
  unfolding is_key_revoked
  is_key_revoked-in_certs krl key hash blob e p k = rw (e, is_key_revoked, p, k) refl

  pub in_certs-cert_revoked :
      (krl : Krl K) (key : K) (i : ℕ) (rc : Certs K)
      → position ops (ops.signature_key key) krl.revoked_certs ≡ some i
      → get_elem? krl.revoked_certs i ≡ some rc
      → in_certs trees ops krl key ≡ cert_revoked trees ops rc key
  unfolding in_certs revoked_certs_for_ca_key
  in_certs-cert_revoked krl key i rc p g = rw (p, in_certs, revoked_certs_for_ca_key, g) refl

  pub in_certs-unknown :
      (krl : Krl K) (key : K)
      → position ops (ops.signature_key key) krl.revoked_certs ≡ none
      → in_certs trees ops krl key ≡ ok tt
  unfolding in_certs revoked_certs_for_ca_key
  in_certs-unknown krl key p = rw (p, in_certs, revoked_certs_for_ca_key) refl
