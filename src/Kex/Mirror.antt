-- ===== src/Kex/Mirror.antt =====
-- Client and server come to the same choice, each from its side.
use libopenssh.Base.{
  ℕ, ◌≡◌, inl, inr, refl, ap, sym, subst, ◌∙◌, Bool, true, false, not, ◌&&◌, ◌==◌, arith, some,
  List, Bytes, if◌then◌else◌, Bool-cases,
}
use libopenssh.Err.{ok, and_then}
use libopenssh.Mac.{Digest}
use libopenssh.KeyKind.{sshkey_type_from_name}
use libopenssh.Kex.{has_bug, is_hmac, is_firstkex, proposals_match}
use libopenssh.Kex.Choice.{
  Kex, fill, note_need, note_roaming, note_guess, negotiate, choose_between,
}
use libopenssh.Kex.Agree.{
  Agreement, settled, and_then-eq_ok, negotiate-Agreement, Agreement-negotiate,
}

-- What the ends record: the keys for what one sends are those for what the other receives.
pub record Mirrors (x y : Kex) : Type 0 where
  pub sent : x.newkeys_out ≡ y.newkeys_in
  pub received : x.newkeys_in ≡ y.newkeys_out
  pub same_name : x.name ≡ y.name
  pub same_alg : x.alg ≡ y.alg
  pub same_hostkey_type : x.hostkey_type ≡ y.hostkey_type

-- A choice that succeeds, read from the side of the client or of the server.
pub record Chosen (server : Bool) {md_size : Digest → ℕ} {short_key : Bool}
    {cprop sprop : List Bytes} (a : Agreement md_size short_key cprop sprop) (y : Kex)
    : Type 0 where
  pub keys_in : y.newkeys_in ≡ some (if server then a.ctos else a.stoc)
  pub keys_out : y.newkeys_out ≡ some (if server then a.stoc else a.ctos)
  pub chosen_name : y.name ≡ some a.name
  pub chosen_alg : y.alg ≡ some a.alg
  pub chosen_hostkey : y.hostkey_type ≡ sshkey_type_from_name a.hostkey

-- Roaming and the guess do not touch the choice.
note_roaming_frame :
    (peer : List Bytes) (x : Kex)
    → ((note_roaming peer x).server ≡ x.server) × ((note_roaming peer x).compat ≡ x.compat)
unfolding note_roaming
note_roaming_frame peer x = ground arith

module _ {md_size : Digest → ℕ} {short_key : Bool} {cprop sprop : List Bytes}
    (a : Agreement md_size short_key cprop sprop) where
  note_guess-Chosen :
      (follows : ℕ) (my peer : List Bytes) (server : Bool) (y : Kex)
      → Chosen server a y
      → Chosen server a (note_guess follows my peer y)
  unfolding note_guess
  note_guess-Chosen follows my peer server y c =
      elim (Bool-cases (
        not (follows == 0)
        && not (proposals_match my peer)
        && not (has_bug is_firstkex y.compat))) [
          | inl e ↦ rw e (record {
            keys_in = c.keys_in;
            keys_out = c.keys_out;
            chosen_name = c.chosen_name;
            chosen_alg = c.chosen_alg;
            chosen_hostkey = c.chosen_hostkey;
          })
          | inr e ↦ rw e c
        ]

-- The same agreement under the other end's flags.
moved :
    {md_size : Digest → ℕ} {j k : Bool} {cprop sprop : List Bytes}
    → j ≡ k
    → Agreement md_size j cprop sprop
    → Agreement md_size k cprop sprop
moved {md_size} {cprop = cprop} {sprop = sprop} e a = record {
  stoc = a.stoc;
  ctos = a.ctos;
  name = a.name;
  alg = a.alg;
  hostkey = a.hostkey;
  stoc_filled = subst (λ l. fill md_size l cprop sprop false ≡ (a.stoc, ok tt)) e a.stoc_filled;
  ctos_filled = subst (λ l. fill md_size l cprop sprop true ≡ (a.ctos, ok tt)) e a.ctos_filled;
  named = a.named;
  known = a.known;
  hostkey_named = a.hostkey_named;
  hostkey_known = a.hostkey_known;
}

moved-Chosen :
    {md_size : Digest → ℕ} {j k : Bool} {cprop sprop : List Bytes} {server : Bool} {y : Kex}
    (e : j ≡ k) (a : Agreement md_size j cprop sprop)
    → Chosen server a y
    → Chosen server (moved e a) y
unfolding moved
moved-Chosen e a c = record {
  keys_in = c.keys_in;
  keys_out = c.keys_out;
  chosen_name = c.chosen_name;
  chosen_alg = c.chosen_alg;
  chosen_hostkey = c.chosen_hostkey;
}

back_to :
    {md_size : Digest → ℕ} {j k : Bool} {cprop sprop : List Bytes} {server : Bool} {y : Kex}
    (e : j ≡ k) (a : Agreement md_size j cprop sprop)
    → Chosen server (moved e a) y
    → Chosen server a y
unfolding moved
back_to e a c = record {
  keys_in = c.keys_in;
  keys_out = c.keys_out;
  chosen_name = c.chosen_name;
  chosen_alg = c.chosen_alg;
  chosen_hostkey = c.chosen_hostkey;
}

settled-Chosen :
    {md_size : Digest → ℕ} {cprop sprop : List Bytes} (server : Bool) (x : Kex)
    (a : Agreement md_size (has_bug is_hmac x.compat) cprop sprop)
    → x.server ≡ server
    → Chosen server a (settled md_size cprop sprop x a)
unfolding note_need
settled-Chosen server x a e = record {
  keys_in = ap (λ (s : Bool). some (if s then a.ctos else a.stoc)) e;
  keys_out = ap (λ (s : Bool). some (if s then a.stoc else a.ctos)) e;
  chosen_name = refl;
  chosen_alg = refl;
  chosen_hostkey = refl;
}

module _ (md_size : Digest → ℕ) (cprop sprop : List Bytes) where
  abbrev my_of : Bool → List Bytes
  my_of server = if server then sprop else cprop

  abbrev peer_of : Bool → List Bytes
  peer_of server = if server then cprop else sprop

  between-eq :
      (server : Bool) (follows : ℕ) (x : Kex)
      → x.server ≡ server
      → choose_between md_size true follows (my_of server) (peer_of server) x
        ≡ and_then
            (negotiate cprop sprop md_size true (note_roaming (peer_of server) x))
            (λ _ z. (note_guess follows (my_of server) (peer_of server) z, ok tt))
  unfolding choose_between
  between-eq true follows x e =
      ap
        (λ (s : Bool).
          and_then
            (negotiate (if s then cprop else sprop) (if s then sprop else cprop) md_size true
              (note_roaming cprop x))
            (λ _ z. (note_guess follows sprop cprop z, ok tt)))
        e
  between-eq false follows x e =
      ap
        (λ (s : Bool).
          and_then
            (negotiate (if s then sprop else cprop) (if s then cprop else sprop) md_size true
              (note_roaming sprop x))
            (λ _ z. (note_guess follows cprop sprop z, ok tt)))
        e

  module _ (server : Bool) (follows : ℕ) (x : Kex) (side : x.server ≡ server) where
    -- The end as it is when the choice begins.
    abbrev start : Kex
    start = note_roaming (peer_of server) x

    start_side : start.server ≡ server
    start_side = (note_roaming_frame (peer_of server) x).0 ∙ side

    same_flag : has_bug is_hmac start.compat ≡ has_bug is_hmac x.compat
    same_flag = ap (has_bug is_hmac) (note_roaming_frame (peer_of server) x).1

    between-Chosen :
        {y : Kex}
        → choose_between md_size true follows (my_of server) (peer_of server) x ≡ (y, ok tt)
        → (a : Agreement md_size (has_bug is_hmac x.compat) cprop sprop) × Chosen server a y
    between-Chosen {y} h =
        let (z, _, e, h') =
          and_then-eq_ok (negotiate cprop sprop md_size true start)
            (λ _ z. (note_guess follows (my_of server) (peer_of server) z, ok tt))
            (sym (between-eq server follows x side) ∙ h) in
        let (a, is) = negotiate-Agreement md_size cprop sprop start z e in
        let c = settled-Chosen server start a start_side in
        let c' =
          note_guess-Chosen a follows (my_of server) (peer_of server) server z
            (subst (Chosen server a) (sym is) c) in
        let d = subst (Chosen server a) (ap (λ q. q.0) h') c' in
        (moved same_flag a, moved-Chosen same_flag a d)

    Agreement-between :
        (a : Agreement md_size (has_bug is_hmac x.compat) cprop sprop)
        → (y : Kex) × (choose_between md_size true follows (my_of server) (peer_of server) x
            ≡ (y, ok tt))
          × Chosen server a y
    Agreement-between a =
        let a' = moved (sym same_flag) a in
        let c = settled-Chosen server start a' start_side in
        let d = note_guess-Chosen a' follows (my_of server) (peer_of server) server _ c in
        (
          note_guess follows (my_of server) (peer_of server) (settled md_size cprop sprop start a'),
          between-eq server follows x side
              ∙ ap
                  (λ q.
                    and_then q
                      (λ _ z. (note_guess follows (my_of server) (peer_of server) z, ok tt)))
                  (Agreement-negotiate md_size cprop sprop start a'),
          back_to (sym same_flag) a d,
        )

Chosen-Mirrors :
    {md_size : Digest → ℕ} {j k : Bool} {cprop sprop : List Bytes} {x y : Kex} (e : j ≡ k)
    (a : Agreement md_size j cprop sprop)
    → Chosen false a x
    → Chosen true (moved e a) y
    → Mirrors x y
unfolding moved
Chosen-Mirrors e a c d = record {
  sent = c.keys_out ∙ sym d.keys_in;
  received = c.keys_in ∙ sym d.keys_out;
  same_name = c.chosen_name ∙ sym d.chosen_name;
  same_alg = c.chosen_alg ∙ sym d.chosen_alg;
  same_hostkey_type = c.chosen_hostkey ∙ sym d.chosen_hostkey;
}

-- If a client and a server that both take the other for a peer with SSH_BUG_HMAC, or both do not,
-- have each other's proposals, and memory is granted, the choice succeeds on one end exactly if it
-- succeeds on the other; then the keys, ciphers, MACs and compression that one end records for what it
-- sends are those that the other records for what it receives, and both record the same method of key
-- exchange and type of host key.
pub choose_between-Mirrors :
    (md_size : Digest → ℕ) (cprop sprop : List Bytes) (f g : ℕ) (client server : Kex)
    → client.server ≡ false
    → server.server ≡ true
    → has_bug is_hmac client.compat ≡ has_bug is_hmac server.compat
    → ((x : Kex)
        → choose_between md_size true f cprop sprop client ≡ (x, ok tt)
        → (y : Kex) × (choose_between md_size true g sprop cprop server ≡ (y, ok tt)) × Mirrors x y)
      × ((y : Kex)
          → choose_between md_size true g sprop cprop server ≡ (y, ok tt)
          → (x : Kex) × (choose_between md_size true f cprop sprop client ≡ (x, ok tt))
            × Mirrors x y)
choose_between-Mirrors md_size cprop sprop f g client server c s e = (
  λ x h.
      let (a, chosen) = between-Chosen md_size cprop sprop false f client c h in
      let (y, run, chosen') = Agreement-between md_size cprop sprop true g server s (moved e a) in
      (y, run, Chosen-Mirrors e a chosen chosen'),
  λ y h.
      let (a, chosen) = between-Chosen md_size cprop sprop true g server s h in
      let (x, run, chosen') =
        Agreement-between md_size cprop sprop false f client c (moved (sym e) a) in
      (
        x,
        run,
        Chosen-Mirrors e (moved (sym e) a) chosen'
            (moved-Chosen e (moved (sym e) a) (moved-Chosen (sym e) a chosen)),
      ),
)
