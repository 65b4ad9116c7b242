-- ===== src/Krl.antt =====
-- ssh/krl.c: lists of revoked keys and certificates. A tree is the list of its entries in order, and
-- the macros on trees are the parameters of type `Tree`; what sshkey.h declares on keys is the record
-- `KeyOps`. A `granted` says that an allocation succeeds; a pointer to the certificates of an authority
-- is their place in the list.
pub mod Ranges
pub mod Fitting
pub mod Insert
pub mod Revoke
pub mod Check
pub mod Places
pub mod Serial
pub mod Authority
use libopenssh.Base.{
  ℕ, zero, suc, ◌+◌, ◌-◌, ◌%◌, ◌^◌, Order, below, same, above, is_same, Bool, true, false, not,
  ◌&&◌, ◌||◌, Option, none, some, List, Bytes, [], ◌∷◌, ◌++◌, length, take, get_elem?, ltb, leb,
  ◌==◌, if◌then◌else◌,
}
use libopenssh.Err.{
  Error, internal_error, alloc_fail, invalid_argument, key_revoked, Result, ok, err, fault,
  and_then,
}
use libopenssh.Tree.{Tree, unwind}

-- struct revoked_serial
pub record Serials : Type 0 where
  pub lo : ℕ
  pub hi : ℕ

abbrev pub u64_max : ℕ
u64_max = 2 ^ 64 - 1

-- Ranges that overlap are the same.
abbrev pub serial_cmp : Serials → Serials → Order
serial_cmp a b =
    if leb b.lo a.hi && leb a.lo b.hi then same else if ltb a.lo b.lo then below else above

-- strcmp
unfoldable pub key_id_cmp : Bytes → Bytes → Order
key_id_cmp [] [] = same
key_id_cmp [] (y ∷ ys) = below
key_id_cmp (x ∷ xs) [] = above
key_id_cmp (x ∷ xs) (y ∷ ys) =
    let rest = key_id_cmp xs ys in if x == y then rest else if ltb x y then below else above

-- memcmp of the bytes that both have
unfoldable pub memcmp : Bytes → Bytes → Order
memcmp (x ∷ xs) (y ∷ ys) =
    let rest = memcmp xs ys in if x == y then rest else if ltb x y then below else above
memcmp _ _ = same

unfoldable pub blob_cmp : Bytes → Bytes → Order
blob_cmp a b =
    if length a == length b
    then memcmp a b
    else elim (memcmp a b) [ same ↦ if ltb (length b) (length a) then above else below | r ↦ r ]

-- The loops of insert_serial_range on the entries in front of the range, the nearest first, and on
-- those behind it: the range's new end, and the entries that stay.
unfoldable pub absorb_before : ℕ → List Serials → ℕ × List Serials
absorb_before lo [] = (lo, [])
absorb_before lo (crs ∷ b) =
    let rest = absorb_before (if ltb crs.lo lo then crs.lo else lo) b in
    if not (lo == 0) && ltb crs.hi (lo - 1) then (lo, crs ∷ b) else rest

unfoldable pub absorb_after : ℕ → List Serials → ℕ × List Serials
absorb_after hi [] = (hi, [])
absorb_after hi (crs ∷ a) =
    let rest = absorb_after (if ltb hi crs.hi then crs.hi else hi) a in
    if not (hi == u64_max) && ltb (hi + 1) crs.lo then (hi, crs ∷ a) else rest

unfoldable pub coalesce : List Serials → Serials → List Serials → List Serials
coalesce b ers a =
    let (lo, b') = absorb_before ers.lo b in
    let (hi, a') = absorb_after ers.hi a in unwind b' (record { lo = lo; hi = hi } ∷ a')

-- The existing entry, which overlaps the new one.
abbrev pub grown : Serials → Serials → Serials
grown ers rs = record {
  lo = if ltb rs.lo ers.lo then rs.lo else ers.lo;
  hi = if ltb ers.hi rs.hi then rs.hi else ers.hi;
}

module _ (tree : Tree Serials serial_cmp) where
  -- No entry matches: just insert.
  unfoldable pub insert_new : Bool → Serials → List Serials → List Serials × Result (Unit {0})
  insert_new granted rs l =
      if granted
      then elim (tree.insert rs l) [
        | none ↦ (l, err internal_error)
        | some (b, a) ↦ (coalesce b rs a, ok tt)
      ]
      else (l, err alloc_fail)

  unfoldable pub insert_serial_range :
      Bool → List Serials → ℕ → ℕ → List Serials × Result (Unit {0})
  insert_serial_range granted l lo hi =
      let rs : Serials = record { lo = lo; hi = hi } in
      elim (tree.nfind rs l) [
        | none ↦ insert_new granted rs l
        | some (b, ers, a) ↦
            if is_same (serial_cmp ers rs)
            then (coalesce b (grown ers rs) a, ok tt)
            else insert_new granted rs l
      ]
