-- ===== src/Compat/ProtoSpec.antt =====
-- `proto_spec`: the protocols that a list of version numbers names.
use libopenssh.Base.{
  ℕ, ◌≡◌, inl, inr, refl, ap, ◌∙◌, Bool, true, false, not, ◌&&◌, ◌||◌, arith, Bool-cases, Bytes,
  List, [], ◌∷◌, ◌==◌, some,
}
use libopenssh.Match.{tokens, until_empty}
use libopenssh.Compat.{Protocols, unknown, is_unknown, add_version, spec_loop, proto_spec}

module _ (atoi : Bytes → ℕ) where
  -- Some token names the version.
  abbrev pub names : ℕ → List Bytes → Bool
  names n [] = false
  names n (p ∷ ps) = atoi p == n || names n ps

  -- The first token that names a known version names the first.
  abbrev pub one_first : List Bytes → Bool
  one_first [] = false
  one_first (p ∷ ps) = let rest = one_first ps in atoi p == 1 || (not (atoi p == 2) && rest)

  -- What the loop makes of `ret`.
  abbrev merged : Protocols → List Bytes → Protocols
  merged ret ps = record {
    one = ret.one || names 1 ps;
    one_preferred = ret.one_preferred || (is_unknown ret && one_first ps);
    two = ret.two || names 2 ps;
  }

  merged_one :
      (ret : Protocols) (p : Bytes) (ps : List Bytes)
      → (atoi p == 1) ≡ true
      → (atoi p == 2) ≡ false
      → ◌≡◌ {A = Protocols}
          (merged
            (record ret { one = true; one_preferred = ret.one_preferred || is_unknown ret })
            ps)
          (merged ret (p ∷ ps))
  merged_one ret p ps e k = rw (e, k) (split ret.one ret.one_preferred ret.two)
    where
      split :
          (x y z : Bool)
          → ◌≡◌ {A = Protocols}
              (merged (record { one = true; one_preferred = y || not (x || y || z); two = z }) ps)
              (record {
                one = x || (true || names 1 ps);
                one_preferred = y || (not (x || y || z) && (true || (not false && one_first ps)));
                two = z || (false || names 2 ps);
              })
      split true true z = refl
      split true false z = refl
      split false true z = refl
      split false false true = refl
      split false false false = refl

  merged_two :
      (ret : Protocols) (p : Bytes) (ps : List Bytes)
      → (atoi p == 1) ≡ false
      → (atoi p == 2) ≡ true
      → ◌≡◌ {A = Protocols} (merged (record ret { two = true }) ps) (merged ret (p ∷ ps))
  merged_two ret p ps e k = rw (e, k) (split ret.one ret.one_preferred ret.two)
    where
      split :
          (x y z : Bool)
          → ◌≡◌ {A = Protocols}
              (merged (record { one = x; one_preferred = y; two = true }) ps)
              (record {
                one = x || (false || names 1 ps);
                one_preferred = y || (not (x || y || z) && (false || (not true && one_first ps)));
                two = z || (true || names 2 ps);
              })
      split true y true = refl
      split true y false = refl
      split false true true = refl
      split false true false = refl
      split false false true = refl
      split false false false = refl

  merged_end : (ret : Protocols) → ret ≡ merged ret []
  merged_end ret = split ret.one ret.one_preferred ret.two
    where
      split :
          (x y z : Bool)
          → ◌≡◌ {A = Protocols}
              (record { one = x; one_preferred = y; two = z })
              (merged (record { one = x; one_preferred = y; two = z }) [])
      split true true true = refl
      split true true false = refl
      split true false true = refl
      split true false false = refl
      split false true true = refl
      split false true false = refl
      split false false true = refl
      split false false false = refl

  -- What one token does.
  add_one :
      (ret : Protocols) (p : Bytes)
      → (atoi p == 1) ≡ true
      → ◌≡◌ {A = Protocols}
          (add_version atoi ret p)
          (record ret { one = true; one_preferred = ret.one_preferred || is_unknown ret })
  unfolding add_version
  add_one ret p e = rw e refl

  add_two :
      (ret : Protocols) (p : Bytes)
      → (atoi p == 1) ≡ false
      → (atoi p == 2) ≡ true
      → ◌≡◌ {A = Protocols} (add_version atoi ret p) (record ret { two = true })
  unfolding add_version
  add_two ret p e k = rw (e, k) refl

  merged_step :
      (ret : Protocols) (p : Bytes) (ps : List Bytes)
      → merged (add_version atoi ret p) ps ≡ merged ret (p ∷ ps)
  merged_step ret p ps = elim (Bool-cases (atoi p == 1)) [
    | inl e ↦
        ap (λ (r : Protocols). merged r ps) (add_one ret p e) ∙ merged_one ret p ps e (ground arith)
    | inr e ↦ elim (Bool-cases (atoi p == 2)) [
      | inl k ↦ ap (λ (r : Protocols). merged r ps) (add_two ret p e k) ∙ merged_two ret p ps e k
      | inr k ↦ unfold add_version in rw (e, k) refl
    ]
  ]

  spec_loop_lem : (ret : Protocols) (ps : List Bytes) → spec_loop atoi ret ps ≡ merged ret ps
  unfolding spec_loop
  spec_loop_lem ret [] = merged_end ret
  spec_loop_lem ret (p ∷ ps) = spec_loop_lem (add_version atoi ret p) ps ∙ merged_step ret p ps

  -- If the copy of the list is granted, proto_spec returns protocol 1 exactly if some token in front of
  -- the first empty one names it, protocol 2 likewise, and prefers protocol 1 exactly if the first of
  -- these tokens that names either names 1.
  pub proto_spec-names :
      (spec : Bytes)
      → ◌≡◌ {A = Protocols} (proto_spec atoi true (some spec)) (record {
        one = names 1 (until_empty (tokens spec));
        one_preferred = one_first (until_empty (tokens spec));
        two = names 2 (until_empty (tokens spec));
      })
  unfolding proto_spec
  proto_spec-names spec = spec_loop_lem unknown (until_empty (tokens spec))
