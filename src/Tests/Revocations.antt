-- ===== src/Tests/Revocations.antt =====
-- The theorems on revocation at a concrete list: one authority, the key 0, whose certificates are the
-- other numbers.
use libopenssh.Base.{ℕ, ◌≡◌, refl, arith, true, false, not, none, some, List, [], ◌∷◌, ◌==◌}
use libopenssh.Err.{ok}
use libopenssh.Krl.{Serials, insert_serial_range, insert_new, coalesce, absorb_before, absorb_after}
use libopenssh.Krl.Insert.{Inserted, insert_serial_range-Inserted}
use libopenssh.Krl.Revoke.{KeyOps, Krl, revoke_cert_by_serial_range}
use libopenssh.Krl.Check.{Trees}
use libopenssh.Krl.Authority.{Revoked, revoke_cert_by_serial_range-Revoked}
use libopenssh.Tests.Trees.{front_tree, nfind_first, insert_first}

abbrev range : ℕ → ℕ → Serials
range lo hi = record { lo = lo; hi = hi }

abbrev ranges : List Serials
ranges = range 1 4 ∷ range 7 9 ∷ range 20 30 ∷ []

insert_serial_range-Inserted_example :
    Inserted true ranges (range 5 6) (insert_serial_range (front_tree _) true ranges 5 6)
insert_serial_range-Inserted_example =
    insert_serial_range-Inserted (front_tree _) true ranges 5 6 (omega arith) (omega arith)
      (omega arith)

ranges_joined :
    insert_serial_range (front_tree _) true ranges 5 6 ≡ (range 1 9 ∷ range 20 30 ∷ [], ok tt)
unfolding insert_serial_range insert_new coalesce absorb_before absorb_after front_tree nfind_first
    insert_first
ranges_joined = refl

abbrev trees : Trees
trees = record { serials = front_tree _; key_ids = front_tree _; blobs = front_tree _ }

abbrev ops : KeyOps ℕ
ops = record {
  equal = λ a b. a == b;
  from_private = λ k. ok k;
  fingerprint_sha1 = λ k. some (k ∷ []);
  plain_to_blob = λ k. ok (k ∷ 0 ∷ []);
  is_cert = λ k. not (k == 0);
  is_legacy = λ k. false;
  signature_key = λ k. 0;
  key_id = λ k. k ∷ [];
  serial = λ k. k;
}

abbrev krl : Krl ℕ
krl = record {
  krl_version = 1;
  generated_date = 0;
  flags = 0;
  comment = none;
  revoked_keys = [];
  revoked_sha1s = [];
  revoked_certs = record { ca_key = 0; revoked_serials = ranges; revoked_key_ids = [] } ∷ [];
}

revoke_cert_by_serial_range-Revoked_example :
    Revoked trees ops 5
      (range 5 6)
      krl
      (revoke_cert_by_serial_range ops trees.serials true true krl 0 5 6)
revoke_cert_by_serial_range-Revoked_example =
    revoke_cert_by_serial_range-Revoked trees ops krl 5 0 (5 ∷ []) (5 ∷ 0 ∷ []) 5 6 (omega arith)
      (omega arith) (omega arith) refl refl refl refl refl refl (omega arith)
