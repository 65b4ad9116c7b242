-- ===== src/Kex/Agree.antt =====
-- Both ends of a connection choose alike.
use libopenssh.Base.{
  ℕ, ◌≡◌, inl, inr, refl, ap, sym, subst, ◌∙◌, Bool, true, false, some, List, [], Bytes, get_or,
  Option-cases, Bool-cases, if◌then◌else◌,
}
use libopenssh.Err.{Result, ok, err, fault, and_then}
use libopenssh.Mac.{Digest}
use libopenssh.KeyKind.{sshkey_type_from_name}
use libopenssh.Kex.{
  has_bug, is_hmac, KexAlg, kex_alg_by_name, Newkeys, pick, proposal_kex_algs,
  proposal_server_host_key_algs,
}
use libopenssh.Kex.Choice.{
  Kex, Mode, mode_in, mode_out, is_ctos, fill, choose_mode, set_newkeys, choose_kex,
  choose_hostkeyalg, is_unspec, note_need, negotiate, after_in, after_modes, after_kex,
}

-- A chain of calls succeeds if each does.
pub and_then-eq_ok :
    {S A B : Type 0} (m : S × Result A) (f : A → S → S × Result B) {s : S} {b : B}
    → and_then m f ≡ (s, ok b)
    → (s' : S) × (a : A) × (m ≡ (s', ok a)) × (f a s' ≡ (s, ok b))
and_then-eq_ok (s', ok a) f h = (s', a, refl, h)
and_then-eq_ok (s', err e) f h = cc h
and_then-eq_ok (s', fault) f h = cc h

-- What two proposals of a client and a server are agreed to.
pub record Agreement (md_size : Digest → ℕ) (short_key : Bool) (cprop sprop : List Bytes)
    : Type 0 where
  pub stoc : Newkeys
  pub ctos : Newkeys
  pub name : Bytes
  pub alg : KexAlg
  pub hostkey : Bytes
  pub stoc_filled : fill md_size short_key cprop sprop false ≡ (stoc, ok tt)
  pub ctos_filled : fill md_size short_key cprop sprop true ≡ (ctos, ok tt)
  pub named :
      pick (get_or cprop proposal_kex_algs []) (get_or sprop proposal_kex_algs []) ≡ some name
  pub known : kex_alg_by_name name ≡ some alg
  pub hostkey_named :
      pick
        (get_or cprop proposal_server_host_key_algs [])
        (get_or sprop proposal_server_host_key_algs [])
      ≡ some hostkey
  pub hostkey_known : is_unspec (sshkey_type_from_name hostkey) ≡ false

module _ (md_size : Digest → ℕ) (cprop sprop : List Bytes) where
  -- What one end records of an agreement.
  abbrev pub settled : (x : Kex) → Agreement md_size (has_bug is_hmac x.compat) cprop sprop → Kex
  settled x a = note_need (record x {
    newkeys_in = some (if x.server then a.ctos else a.stoc);
    newkeys_out = some (if x.server then a.stoc else a.ctos);
    name = some a.name;
    alg = some a.alg;
    hostkey_type = sshkey_type_from_name a.hostkey;
  })

  choose_mode-ok :
      (x y : Kex) (mode : Mode)
      → choose_mode md_size (has_bug is_hmac x.compat) cprop sprop true mode x ≡ (y, ok tt)
      → (k : Newkeys) × (fill md_size (has_bug is_hmac x.compat) cprop sprop (is_ctos x.server mode)
          ≡ (k, ok tt))
        × (y ≡ set_newkeys mode k x)
  unfolding choose_mode
  choose_mode-ok x y mode h =
      let out = fill md_size (has_bug is_hmac x.compat) cprop sprop (is_ctos x.server mode) in
      (out.0, ap (λ r. (out.0, r)) (ap (λ q. q.1) h), sym (ap (λ q. q.0) h))

  choose_kex-ok :
      (c s : Bytes) (x y : Kex)
      → choose_kex c s x ≡ (y, ok tt)
      → (name : Bytes) × (alg : KexAlg) × (pick c s ≡ some name)
        × (kex_alg_by_name name ≡ some alg)
        × (y ≡ record x { name = some name; alg = some alg })
  unfolding choose_kex
  choose_kex-ok c s x y h = elim (Option-cases (pick c s)) [
    | inl e ↦ cc (rw (e, choose_kex) at h)
    | inr (name, e) ↦ elim (Option-cases (kex_alg_by_name name)) [
      | inl k ↦ cc (rw (e, k, choose_kex) at h)
      | inr (alg, k) ↦ (name, alg, e, k, sym (ap (λ q. q.0) (rw (e, k, choose_kex) at h)))
    ]
  ]

  choose_hostkeyalg-ok :
      (c s : Bytes) (x y : Kex)
      → choose_hostkeyalg c s x ≡ (y, ok tt)
      → (name : Bytes) × (pick c s ≡ some name)
        × (is_unspec (sshkey_type_from_name name) ≡ false)
        × (y ≡ record x { hostkey_type = sshkey_type_from_name name })
  unfolding choose_hostkeyalg
  choose_hostkeyalg-ok c s x y h = elim (Option-cases (pick c s)) [
    | inl e ↦ cc (rw (e, choose_hostkeyalg) at h)
    | inr (name, e) ↦ elim (Bool-cases (is_unspec (sshkey_type_from_name name))) [
      | inl k ↦ cc (rw (e, k, choose_hostkeyalg) at h)
      | inr k ↦ (name, e, k, sym (ap (λ q. q.0) (rw (e, k, choose_hostkeyalg) at h)))
    ]
  ]

  -- The two directions of an end.
  directions :
      (x : Kex) (i o : Newkeys)
      → fill md_size (has_bug is_hmac x.compat) cprop sprop (is_ctos x.server mode_in) ≡ (i, ok tt)
      → fill md_size (has_bug is_hmac x.compat) cprop sprop (is_ctos x.server mode_out) ≡ (o, ok tt)
      → (stoc : Newkeys) × (ctos : Newkeys) × (fill md_size
            (has_bug is_hmac x.compat)
            cprop
            sprop
            false
          ≡ (stoc, ok tt))
        × (fill md_size (has_bug is_hmac x.compat) cprop sprop true ≡ (ctos, ok tt))
        × (i ≡ (if x.server then ctos else stoc))
        × (o ≡ (if x.server then stoc else ctos))
  unfolding is_ctos
  directions x i o = go x.server
    where
      go :
          (server : Bool)
          → fill md_size (has_bug is_hmac x.compat) cprop sprop (is_ctos server mode_in)
            ≡ (i, ok tt)
          → fill md_size (has_bug is_hmac x.compat) cprop sprop (is_ctos server mode_out)
            ≡ (o, ok tt)
          → (stoc : Newkeys) × (ctos : Newkeys) × (fill md_size
                (has_bug is_hmac x.compat)
                cprop
                sprop
                false
              ≡ (stoc, ok tt))
            × (fill md_size (has_bug is_hmac x.compat) cprop sprop true ≡ (ctos, ok tt))
            × (i ≡ (if server then ctos else stoc))
            × (o ≡ (if server then stoc else ctos))
      go true p q = (o, i, q, p, refl, refl)
      go false p q = (i, o, p, q, refl, refl)

  after_kex-ok :
      (x y : Kex)
      → after_kex cprop sprop x ≡ (y, ok tt)
      → (hostkey : Bytes) × (pick
            (get_or cprop proposal_server_host_key_algs [])
            (get_or sprop proposal_server_host_key_algs [])
          ≡ some hostkey)
        × (is_unspec (sshkey_type_from_name hostkey) ≡ false)
        × (y ≡ note_need (record x { hostkey_type = sshkey_type_from_name hostkey }))
  unfolding after_kex
  after_kex-ok x y h =
      let (x₁, _, e, h₁) =
        and_then-eq_ok
          (choose_hostkeyalg (get_or cprop proposal_server_host_key_algs [])
            (get_or sprop proposal_server_host_key_algs []) x)
          (λ _ x. (note_need x, ok tt)) h in
      let (hostkey, p, k, is) = choose_hostkeyalg-ok _ _ x x₁ e in
      (hostkey, p, k, sym (ap (λ q. q.0) h₁) ∙ ap note_need is)

  after_modes-ok :
      (x y : Kex)
      → after_modes cprop sprop x ≡ (y, ok tt)
      → (name : Bytes) × (alg : KexAlg) × (hostkey : Bytes) × (pick
            (get_or cprop proposal_kex_algs [])
            (get_or sprop proposal_kex_algs [])
          ≡ some name)
        × (kex_alg_by_name name ≡ some alg)
        × (pick
              (get_or cprop proposal_server_host_key_algs [])
              (get_or sprop proposal_server_host_key_algs [])
            ≡ some hostkey)
        × (is_unspec (sshkey_type_from_name hostkey) ≡ false)
        × (y
            ≡ note_need (record x {
              name = some name;
              alg = some alg;
              hostkey_type = sshkey_type_from_name hostkey;
            }))
  unfolding after_modes
  after_modes-ok x y h =
      let (x₁, _, e, h₁) =
        and_then-eq_ok
          (choose_kex (get_or cprop proposal_kex_algs []) (get_or sprop proposal_kex_algs []) x)
          (λ _. after_kex cprop sprop) h in
      let (name, alg, p, k, is) = choose_kex-ok _ _ x x₁ e in
      let (hostkey, q, l, fin) = after_kex-ok x₁ y h₁ in
      let end =
        λ (z : Kex). note_need (record z { hostkey_type = sshkey_type_from_name hostkey }) in
      (name, alg, hostkey, p, k, q, l, fin ∙ ap end is)

  -- A choice that succeeds is an agreement.
  pub negotiate-Agreement :
      (x y : Kex)
      → negotiate cprop sprop md_size true x ≡ (y, ok tt)
      → (a : Agreement md_size (has_bug is_hmac x.compat) cprop sprop) × (y ≡ settled x a)
  unfolding negotiate after_in
  negotiate-Agreement x y h =
      let (x₁, _, e₁, h₁) =
        and_then-eq_ok (choose_mode md_size (has_bug is_hmac x.compat) cprop sprop true mode_in x)
          (λ _. after_in cprop sprop md_size true) h in
      let (x₂, _, e₂, h₂) =
        and_then-eq_ok
          (choose_mode md_size (has_bug is_hmac x₁.compat) cprop sprop true mode_out x₁)
          (λ _. after_modes cprop sprop) h₁ in
      let (i, f, is₁) = choose_mode-ok x x₁ mode_in e₁ in
      let (o, f₂, is₂) = choose_mode-ok x₁ x₂ mode_out e₂ in
      let g =
        subst
          (λ (z : Kex).
            fill md_size (has_bug is_hmac z.compat) cprop sprop (is_ctos z.server mode_out)
            ≡ (o, ok tt))
          is₁ f₂ in
      let (stoc, ctos, p, q, as_in, as_out) = directions x i o f g in
      let (name, alg, hostkey, named, known, hostkey_named, hostkey_known, fin) =
        after_modes-ok x₂ y h₂ in
      let end = λ (z : Kex). note_need (record z {
        name = some name;
        alg = some alg;
        hostkey_type = sshkey_type_from_name hostkey;
      }) in
      (
        record {
          stoc = stoc;
          ctos = ctos;
          name = name;
          alg = alg;
          hostkey = hostkey;
          stoc_filled = p;
          ctos_filled = q;
          named = named;
          known = known;
          hostkey_named = hostkey_named;
          hostkey_known = hostkey_known;
        },
        fin
            ∙ ap end (is₂ ∙ ap (set_newkeys mode_out o) is₁)
            ∙ ap (λ (k : Newkeys). end (set_newkeys mode_out o (set_newkeys mode_in k x))) as_in
            ∙ ap
                (λ (k : Newkeys). end (
                  set_newkeys mode_out k (set_newkeys mode_in (if x.server then ctos else stoc) x)))
                as_out,
      )

  module _ (short_key : Bool) (a : Agreement md_size short_key cprop sprop) where
    filled_in :
        (server : Bool)
        → fill md_size short_key cprop sprop (is_ctos server mode_in)
          ≡ (if server then a.ctos else a.stoc, ok tt)
    unfolding is_ctos
    filled_in true = a.ctos_filled
    filled_in false = a.stoc_filled

    filled_out :
        (server : Bool)
        → fill md_size short_key cprop sprop (is_ctos server mode_out)
          ≡ (if server then a.stoc else a.ctos, ok tt)
    unfolding is_ctos
    filled_out true = a.stoc_filled
    filled_out false = a.ctos_filled

  choose_mode_step :
      (x : Kex) (mode : Mode) (k : Newkeys)
      → fill md_size (has_bug is_hmac x.compat) cprop sprop (is_ctos x.server mode) ≡ (k, ok tt)
      → choose_mode md_size (has_bug is_hmac x.compat) cprop sprop true mode x
        ≡ (set_newkeys mode k x, ok tt)
  unfolding choose_mode
  choose_mode_step x mode k h = ap (λ q. (set_newkeys mode q.0 x, q.1)) h

  choose_kex_step :
      (c s : Bytes) (x : Kex) (name : Bytes) (alg : KexAlg)
      → pick c s ≡ some name
      → kex_alg_by_name name ≡ some alg
      → choose_kex c s x ≡ (record x { name = some name; alg = some alg }, ok tt)
  unfolding choose_kex
  choose_kex_step c s x name alg p k = rw (p, k, choose_kex) refl

  choose_hostkeyalg_step :
      (c s : Bytes) (x : Kex) (name : Bytes)
      → pick c s ≡ some name
      → is_unspec (sshkey_type_from_name name) ≡ false
      → choose_hostkeyalg c s x ≡ (record x { hostkey_type = sshkey_type_from_name name }, ok tt)
  unfolding choose_hostkeyalg
  choose_hostkeyalg_step c s x name p k = rw (p, k, choose_hostkeyalg) refl

  -- With an agreement either end's choice succeeds.
  pub Agreement-negotiate :
      (x : Kex) (a : Agreement md_size (has_bug is_hmac x.compat) cprop sprop)
      → negotiate cprop sprop md_size true x ≡ (settled x a, ok tt)
  unfolding negotiate after_in after_modes after_kex
  Agreement-negotiate x a =
      let i = if x.server then a.ctos else a.stoc in
      let o = if x.server then a.stoc else a.ctos in
      let x₁ = set_newkeys mode_in i x in
      let x₂ = set_newkeys mode_out o x₁ in
      let x₃ : Kex = record x₂ { name = some a.name; alg = some a.alg } in
      ap (λ q. and_then q (λ _. after_in cprop sprop md_size true))
        (choose_mode_step x mode_in i (filled_in (has_bug is_hmac x.compat) a x.server))
      ∙ ap (λ q. and_then q (λ _. after_modes cprop sprop))
          (choose_mode_step x₁ mode_out o (filled_out (has_bug is_hmac x.compat) a x.server))
      ∙ ap (λ q. and_then q (λ _. after_kex cprop sprop))
          (choose_kex_step _ _ x₂ a.name a.alg a.named a.known)
      ∙ ap (λ q. and_then q (λ _ z. (note_need z, ok tt)))
          (choose_hostkeyalg_step _ _ x₃ a.hostkey a.hostkey_named a.hostkey_known)
