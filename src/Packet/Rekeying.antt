-- ===== src/Packet/Rekeying.antt =====
-- ssh_packet_send2: while keys are exchanged, other packets wait until the new keys are in use.
use libopenssh.Base.{
  ℕ, ◌≡◌, refl, ap, sym, ◌∙◌, Bool, true, false, not, ◌&&◌, ◌||◌, List, Bytes, [], ◌∷◌, ◌++◌,
  append_assoc, append-nil, get_or, ltb, ◌==◌, if◌then◌else◌,
}
use libopenssh.Err.{Result, ok, err, fault, alloc_fail}
use libopenssh.Dispatch.{msg_transport_min, msg_transport_max, msg_kexinit, msg_newkeys}
use libopenssh.Packet.{SessionState, Env}
use libopenssh.Packet.Send.{send2_wrapped}

-- The state with `rekeying` and the queue `outgoing`.
pub record Sender (C : Type 0) : Type 0 where
  pub state : SessionState C
  pub rekeying : Bool
  pub outgoing : List Bytes

abbrev pub msg_service_request : ℕ
msg_service_request = 5

abbrev pub msg_service_accept : ℕ
msg_service_accept = 6

-- During rekeying we can only send key exchange messages.
abbrev pub must_wait : ℕ → Bool
must_wait type =
    ltb type msg_transport_min
    || ltb msg_transport_max type
    || type == msg_service_request
    || type == msg_service_accept

-- The type behind the header. sshpkt_start has written both; of a shorter packet, where the code reads
-- behind its end, the type is taken to be 0.
abbrev pub type_of : Bytes → ℕ
type_of p = get_or p 5 0

module _ {C : Type 0} (env : Env C) where
  -- The loop over the queue behind a NEWKEYS message.
  unfoldable pub flush : SessionState C → List Bytes → Sender C × Result (Unit {0})
  flush st [] = (record { state = st; rekeying = false; outgoing = [] }, ok tt)
  flush st (p ∷ ps) =
      let (st', r) = send2_wrapped env (record st { outgoing_packet = p }) in
      elim r [
        | ok u ↦ flush st' ps
        | err e ↦ (record { state = st'; rekeying = false; outgoing = ps }, err e)
        | fault ↦ (record { state = st'; rekeying = false; outgoing = ps }, fault)
      ]

  abbrev pub behind_wrapped :
      ℕ → Sender C → SessionState C × Result (Unit {0}) → Sender C × Result (Unit {0})
  behind_wrapped type s (st, ok u) =
      if type == msg_newkeys then flush st s.outgoing else (record s { state = st }, ok tt)
  behind_wrapped type s (st, err e) = (record s { state = st }, err e)
  behind_wrapped type s (st, fault) = (record s { state = st }, fault)

  -- `granted` and `granted'`: the memory for the entry of the queue and for a new buffer.
  unfoldable pub send2 : Bool → Bool → Sender C → Sender C × Result (Unit {0})
  send2 granted granted' s =
      let p = s.state.outgoing_packet in
      let type = type_of p in
      let queued : Sender C = record s {
        outgoing = s.outgoing ++ (p ∷ []);
        state = record s.state { outgoing_packet = [] };
      } in
      if s.rekeying && must_wait type
      then if not granted
        then (s, err alloc_fail)
        else if granted'
        then (queued, ok tt)
        else (queued, err alloc_fail)
      else behind_wrapped type (record s { rekeying = type == msg_kexinit || s.rekeying })
          (send2_wrapped env s.state)

  -- The packets of a client, one after the other, until one cannot be sent.
  abbrev pub send2_all : List Bytes → Sender C → Sender C × Result (Unit {0})
  send2_all [] s = (s, ok tt)
  send2_all (p ∷ ps) s =
      let (s', r) = send2 true true (record s { state = record s.state { outgoing_packet = p } }) in
      elim r [ ok u ↦ send2_all ps s' | err e ↦ (s', err e) | fault ↦ (s', fault) ]

  -- The same packets sent at once.
  abbrev pub wrapped_all : List Bytes → SessionState C → SessionState C × Result (Unit {0})
  wrapped_all [] st = (st, ok tt)
  wrapped_all (p ∷ ps) st =
      let (st', r) = send2_wrapped env (record st { outgoing_packet = p }) in
      elim r [ ok u ↦ wrapped_all ps st' | err e ↦ (st', err e) | fault ↦ (st', fault) ]

  abbrev pub on_wire : Sender C × Result (Unit {0}) → SessionState C × Result (Unit {0})
  on_wire (s, r) = (s.state, r)

  abbrev pub AllWait : List Bytes → Type 0
  AllWait [] = Unit {0}
  AllWait (p ∷ ps) = (must_wait (type_of p) ≡ true) × AllWait ps

  flush-answer :
      (ps : List Bytes) (st : SessionState C) (r : Result (Unit {0}))
      → ((st' : SessionState C) → on_wire (flush st' ps) ≡ wrapped_all ps st')
      → on_wire (elim r [
        | ok u ↦ flush st ps
        | err e ↦ (record { state = st; rekeying = false; outgoing = ps }, err e)
        | fault ↦ (record { state = st; rekeying = false; outgoing = ps }, fault)
      ])
        ≡ elim r [ ok u ↦ wrapped_all ps st | err e ↦ (st, err e) | fault ↦ (st, fault) ]
  flush-answer ps st (ok u) ih = ih st
  flush-answer ps st (err e) ih = refl
  flush-answer ps st fault ih = refl

  flush-wrapped_all :
      (st : SessionState C) (ps : List Bytes) → on_wire (flush st ps) ≡ wrapped_all ps st
  unfolding flush
  flush-wrapped_all st [] = refl
  flush-wrapped_all st (p ∷ ps) =
      let (st', r) = send2_wrapped env (record st { outgoing_packet = p }) in
      flush-answer ps st' r (λ x. flush-wrapped_all x ps)

  abbrev pub waiting : SessionState C → List Bytes → Sender C
  waiting st queue = record { state = st; rekeying = true; outgoing = queue }

  whole_answer :
      (s : Sender C) (r : Result (Unit {0}))
      → on_wire (elim r [ ok u ↦ (s, ok tt) | err e ↦ (s, err e) | fault ↦ (s, fault) ])
        ≡ (s.state, r)
  whole_answer s (ok u) = refl
  whole_answer s (err e) = refl
  whole_answer s fault = refl

  behind_wrapped-newkeys :
      (queue : List Bytes) (s : Sender C) (st : SessionState C) (r : Result (Unit {0}))
      → s.outgoing ≡ queue
      → on_wire (elim (behind_wrapped msg_newkeys s (st, r)).1 [
        | ok u ↦ ((behind_wrapped msg_newkeys s (st, r)).0, ok tt)
        | err e ↦ ((behind_wrapped msg_newkeys s (st, r)).0, err e)
        | fault ↦ ((behind_wrapped msg_newkeys s (st, r)).0, fault)
      ])
        ≡ elim r [ ok u ↦ wrapped_all queue st | err e ↦ (st, err e) | fault ↦ (st, fault) ]
  behind_wrapped-newkeys queue s st (ok u) e =
      whole_answer (flush st s.outgoing).0 (flush st s.outgoing).1
      ∙ flush-wrapped_all st s.outgoing
      ∙ ap (λ q. wrapped_all q st) e
  behind_wrapped-newkeys queue s st (err x) e = refl
  behind_wrapped-newkeys queue s st fault e = refl

  send2-waits :
      (st : SessionState C) (queue : List Bytes) (p : Bytes)
      → must_wait (type_of p) ≡ true
      → send2 true true (record (waiting st queue) { state = record st { outgoing_packet = p } })
        ≡ (waiting (record st { outgoing_packet = [] }) (queue ++ (p ∷ [])), ok tt)
  unfolding send2
  send2-waits st queue p e = rw (e, send2) refl

  send2-newkeys :
      (st : SessionState C) (queue : List Bytes) (p : Bytes)
      → type_of p ≡ msg_newkeys
      → send2 true true (record (waiting st queue) { state = record st { outgoing_packet = p } })
        ≡ behind_wrapped msg_newkeys
            (waiting (record st { outgoing_packet = p }) queue)
            (send2_wrapped env (record st { outgoing_packet = p }))
  unfolding send2
  send2-newkeys st queue p e = rw (e, send2) refl

  -- While keys are exchanged, and with memory granted, packets that must wait are sent, and a NEWKEYS
  -- message behind them: what reaches the state, and the result, are those of sending at once the
  -- NEWKEYS message, the packets that waited before and the new ones, in this order and up to the first
  -- that cannot be sent.
  pub send2_all-wrapped_all :
      (st : SessionState C) (queue ps : List Bytes) (newkeys : Bytes)
      → AllWait ps
      → type_of newkeys ≡ msg_newkeys
      → on_wire (send2_all (ps ++ (newkeys ∷ [])) (waiting st queue))
        ≡ wrapped_all (newkeys ∷ (queue ++ ps)) st
  send2_all-wrapped_all st queue [] newkeys w e =
      let sent = send2_wrapped env (record st { outgoing_packet = newkeys }) in
      ap
        (λ (x : Sender C × Result (Unit {0})).
          on_wire (elim x.1 [ ok u ↦ (x.0, ok tt) | err e ↦ (x.0, err e) | fault ↦ (x.0, fault) ]))
        (send2-newkeys st queue newkeys e)
      ∙ behind_wrapped-newkeys queue (waiting (record st { outgoing_packet = newkeys }) queue)
          sent.0 sent.1 refl
      ∙ ap (λ q. wrapped_all (newkeys ∷ q) st) (sym (append-nil queue))
  send2_all-wrapped_all st queue (p ∷ ps) newkeys (h, w) e =
      ap
        (λ (x : Sender C × Result (Unit {0})). on_wire (elim x.1 [
          | ok u ↦ send2_all (ps ++ (newkeys ∷ [])) x.0
          | err e ↦ (x.0, err e)
          | fault ↦ (x.0, fault)
        ]))
        (send2-waits st queue p h)
      ∙ send2_all-wrapped_all (record st { outgoing_packet = [] }) (queue ++ (p ∷ [])) ps newkeys w
          e
      ∙ ap (λ q. wrapped_all (newkeys ∷ q) st) (append_assoc queue (p ∷ []) ps)
