-- ===== src/Kex/Names.antt =====
-- The checks of name lists from configurations: a list is accepted if its names are known.
use libopenssh.Base.{
  ◌≡◌, ◌≢◌, ◌↔◌, ◌⊎◌, inl, inr, refl, sym, Bool, true, false, Bool-cases, none, some, Bytes, List,
  [], ◌∷◌,
}
use libopenssh.Match.{tokens, until_empty, at_end, same_name}
use libopenssh.Match.Negotiation.{same_name-eq}
use libopenssh.Cipher.{
  Cipher, ciphers, find_cipher, cipher_by_name, is_ssh2, cipher_valid, all_valid, list_valid,
  ciphers_valid,
}
use libopenssh.Mac.{MacAlg, macs, find_mac, mac_known, mac_valid}
use libopenssh.Kex.{KexAlg, kexalgs, find_kex, kex_alg_by_name, kex_known, kex_names_valid}

-- Every name of the list has the property.
abbrev pub All : (Bytes → Type 0) → List Bytes → Type 0
All P [] = Unit {0}
All P (p ∷ ps) = P p × All P ps

-- The list is not empty, and its names in front of the first empty one all have the property.
abbrev pub Accepted : (Bytes → Type 0) → Bytes → Type 0
Accepted P names = (at_end names ≡ false) × All P (until_empty (tokens names))

all_valid_iff :
    (valid : Bytes → Bool) (P : Bytes → Type 0) (ps : List Bytes)
    → ((p : Bytes) → (valid p ≡ true) ↔ P p)
    → (all_valid valid ps ≡ true) ↔ All P ps
unfolding all_valid
all_valid_iff valid P [] h = (λ e. tt, λ e. refl)
all_valid_iff valid P (p ∷ ps) h =
    let (there, back) = all_valid_iff valid P ps h in
    elim (Bool-cases (valid p)) [
      | inl e ↦ rw e (λ k. ((h p).0 e, there k), λ k. back k.1)
      | inr e ↦ rw e (λ k. cc k, λ k. cc (e, (h p).1 k.0))
    ]

list_valid_iff :
    (valid : Bytes → Bool) (P : Bytes → Type 0) (names : Bytes)
    → ((p : Bytes) → (valid p ≡ true) ↔ P p)
    → (list_valid valid true (some names) ≡ true) ↔ Accepted P names
unfolding list_valid
list_valid_iff valid P names h =
    let (there, back) = all_valid_iff valid P (until_empty (tokens names)) h in
    elim (Bool-cases (at_end names)) [
      | inl e ↦ rw e (λ k. cc k, λ k. cc k.0)
      | inr e ↦ rw e (λ k. (refl, there k), λ k. back k.1)
    ]

-- A row of the table has the name; for a cipher, the first such row is one of protocol 2.
abbrev pub IsKex : Bytes → List KexAlg → Type 0
IsKex name [] = ⊥
IsKex name (k ∷ ks) = (k.name ≡ name) ⊎ IsKex name ks

abbrev pub IsMac : Bytes → List MacAlg → Type 0
IsMac name [] = ⊥
IsMac name (m ∷ ms) = (m.name ≡ name) ⊎ IsMac name ms

abbrev pub IsCipher : Bytes → List Cipher → Type 0
IsCipher name [] = ⊥
IsCipher name (c ∷ cs) =
    ((c.name ≡ name) × (is_ssh2 c.number ≡ true)) ⊎ ((c.name ≢ name) × IsCipher name cs)

find_kex-IsKex :
    (name : Bytes) (ks : List KexAlg)
    → (elim (find_kex name ks) [ none ↦ false | some k ↦ true ] ≡ true) ↔ IsKex name ks
unfolding find_kex
find_kex-IsKex name [] = (λ e. cc e, λ e. absurd e)
find_kex-IsKex name (k ∷ ks) =
    let same = same_name-eq k.name name in
    let (there, back) = find_kex-IsKex name ks in
    elim (Bool-cases (same_name k.name name)) [
      | inl e ↦ rw (e, find_kex) (λ h. inl (same.0 e), λ h. refl)
      | inr e ↦
          rw (e, find_kex)
            (λ h. inr (there h), λ q. elim q [ inl h ↦ cc (e, same.1 h) | inr h ↦ back h ])
    ]

find_mac-IsMac :
    (name : Bytes) (ms : List MacAlg)
    → (elim (find_mac name ms) [ none ↦ false | some m ↦ true ] ≡ true) ↔ IsMac name ms
unfolding find_mac
find_mac-IsMac name [] = (λ e. cc e, λ e. absurd e)
find_mac-IsMac name (m ∷ ms) =
    let same = same_name-eq name m.name in
    let (there, back) = find_mac-IsMac name ms in
    elim (Bool-cases (same_name name m.name)) [
      | inl e ↦ rw (e, find_mac) (λ h. inl (sym (same.0 e)), λ h. refl)
      | inr e ↦
          rw (e, find_mac)
            (λ h. inr (there h), λ q. elim q [ inl h ↦ cc (e, same.1 (sym h)) | inr h ↦ back h ])
    ]

find_cipher-IsCipher :
    (name : Bytes) (cs : List Cipher)
    → (elim (find_cipher name cs) [ none ↦ false | some c ↦ is_ssh2 c.number ] ≡ true)
      ↔ IsCipher name cs
unfolding find_cipher
find_cipher-IsCipher name [] = (λ e. cc e, λ e. absurd e)
find_cipher-IsCipher name (c ∷ cs) =
    let same = same_name-eq c.name name in
    let (there, back) = find_cipher-IsCipher name cs in
    elim (Bool-cases (same_name c.name name)) [
      | inl e ↦
          rw (e, find_cipher)
            (λ h. inl (same.0 e, h), λ q. elim q [ inl h ↦ h.1 | inr h ↦ absurd (h.0 (same.0 e)) ])
      | inr e ↦
          rw (e, find_cipher)
            (
              λ h. inr (λ k. cc (e, same.1 k), there h),
              λ q. elim q [ inl h ↦ cc (e, same.1 h.0) | inr h ↦ back h.1 ],
            )
    ]

-- If memory is granted, ciphers_valid accepts exactly the lists that are not empty and whose names in
-- front of the first empty one are names of ciphers of protocol 2 in its table, and mac_valid and
-- kex_names_valid accept those whose names are in the tables of MACs and of methods.
pub ciphers_valid-Accepted :
    (names : Bytes)
    → ((ciphers_valid true (some names) ≡ true) ↔ Accepted (λ p. IsCipher p ciphers) names)
      × ((mac_valid true (some names) ≡ true) ↔ Accepted (λ p. IsMac p macs) names)
      × ((kex_names_valid true (some names) ≡ true) ↔ Accepted (λ p. IsKex p kexalgs) names)
unfolding ciphers_valid mac_valid kex_names_valid cipher_valid cipher_by_name mac_known
    kex_alg_by_name
ciphers_valid-Accepted names = (
  list_valid_iff cipher_valid (λ p. IsCipher p ciphers) names (λ p. find_cipher-IsCipher p ciphers),
  list_valid_iff mac_known (λ p. IsMac p macs) names (λ p. find_mac-IsMac p macs),
  list_valid_iff kex_known (λ p. IsKex p kexalgs) names (λ p. find_kex-IsKex p kexalgs),
)
