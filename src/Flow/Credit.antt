-- ===== src/Flow/Credit.antt =====
-- The sending side's accounts: the bytes of a channel go out in order, within the peer's window and
-- its largest packet.
use libopenssh.Base.{
  ℕ, ◌+◌, ◌-◌, ◌^◌, ◌≤◌, ◌<◌, ◌≡◌, inl, inr, refl, ap, sym, subst, ◌∙◌, Bool, true, false, arith,
  Bool-cases, Bytes, List, [], ◌∷◌, ◌++◌, length, take, drop, ltb, not, ◌&&◌, ◌||◌, length-append,
  length-take, append_assoc, take-append-drop, take-append_le,
}
use libopenssh.Sshbuf.{len}
use libopenssh.Sshbuf.Sanity.{WellFormed}
use libopenssh.Sshbuf.Content.{
  content, len-content, ptr-content, consume_ok, advance, advance-WellFormed, content-advance,
}
use libopenssh.Channel.{Session, Channel, send_eof2, send_ieof1}
use libopenssh.Nchan.{ibuf_empty}
use libopenssh.Flow.{
  Outcome, returned, Flow, Packet, window_adjust, channel_data, extended_data, u_diff, is_open_type,
}
use libopenssh.Flow.Send.{
  at_most, send_data, send_extended, chunk, reads_input, is_wait_drain, is_draining,
  efd_input_active, poll_extended, and_extended, poll_input, output_poll,
}

-- The bytes sent as data, and as extended data, the oldest first.
unfoldable pub data_sent : List Packet → Bytes
data_sent [] = []
data_sent (channel_data v ∷ ps) = data_sent ps ++ v
data_sent (_ ∷ ps) = data_sent ps

unfoldable pub extended_sent : List Packet → Bytes
extended_sent [] = []
extended_sent (extended_data v ∷ ps) = extended_sent ps ++ v
extended_sent (_ ∷ ps) = extended_sent ps

-- No packet carries more than `most` bytes.
abbrev pub Sized : ℕ → List Packet → Type 0
Sized most [] = Unit {0}
Sized most (channel_data v ∷ ps) = (length v ≤ most) × Sized most ps
Sized most (extended_data v ∷ ps) = (length v ≤ most) × Sized most ps
Sized most (window_adjust n ∷ ps) = Sized most ps

abbrev pub credit : Flow → ℕ
credit f = length (data_sent f.packets) + length (extended_sent f.packets) + f.remote_window

pub record Sendable (f : Flow) : Type 0 where
  pub input_ok : WellFormed f.chan.input
  pub extended_ok : WellFormed f.chan.extended
  pub window_fits : f.remote_window < 2 ^ 32

-- What is sent between `f` and `g`.
pub record Sends (f g : Flow) : Type 0 where
  pub sendable : Sendable g
  pub data_order :
      data_sent g.packets ++ content g.chan.input ≡ data_sent f.packets ++ content f.chan.input
  pub extended_order :
      extended_sent g.packets ++ content g.chan.extended
      ≡ extended_sent f.packets ++ content f.chan.extended
  pub same_credit : credit g ≡ credit f
  pub same_maxpacket : g.remote_maxpacket ≡ f.remote_maxpacket
  pub sized : Sized f.remote_maxpacket f.packets → Sized f.remote_maxpacket g.packets

Sends-self : (f : Flow) → Sendable f → Sends f f
Sends-self f a = record {
  sendable = a;
  data_order = refl;
  extended_order = refl;
  same_credit = refl;
  same_maxpacket = refl;
  sized = λ h. h;
}

Sends-trans : {f g h : Flow} → Sends f g → Sends g h → Sends f h
Sends-trans {f} {g} {h} c d = record {
  sendable = d.sendable;
  data_order = d.data_order ∙ c.data_order;
  extended_order = d.extended_order ∙ c.extended_order;
  same_credit = d.same_credit ∙ c.same_credit;
  same_maxpacket = d.same_maxpacket ∙ c.same_maxpacket;
  sized = λ k.
      subst (λ n. Sized n h.packets) c.same_maxpacket
        (d.sized (subst (λ n. Sized n g.packets) (sym c.same_maxpacket) (c.sized k)));
}

moved_front : (sent v : Bytes) (n : ℕ) → n ≤ length v → (sent ++ take n v) ++ drop n v ≡ sent ++ v
moved_front sent v n h =
    append_assoc sent (take n v) (drop n v) ∙ ap (λ w. sent ++ w) (take-append-drop n v)

module _ (f : Flow) (a : Sendable f) (n : ℕ) (window : n ≤ f.remote_window)
    (most : n ≤ f.remote_maxpacket) where
  paid : u_diff f.remote_window n ≡ f.remote_window - n
  paid = omega (arith, a.window_fits)

  module _ (has : n ≤ length (content f.chan.input)) where
    abbrev after_data : Flow
    after_data = record f {
      chan = record f.chan { input = advance n f.chan.input };
      remote_window = u_diff f.remote_window n;
      packets = channel_data (take n (content f.chan.input)) ∷ f.packets;
    }

    after_data-Sends : Sends f after_data
    unfolding data_sent extended_sent
    after_data-Sends =
        let v = content f.chan.input in
        let rest = content-advance f.chan.input n a.input_ok has in
        record {
          sendable = record {
            input_ok = advance-WellFormed f.chan.input n a.input_ok has;
            extended_ok = a.extended_ok;
            window_fits = omega (arith, a.window_fits, paid);
          };
          data_order =
              ap (λ w. (data_sent f.packets ++ take n v) ++ w) rest
              ∙ moved_front (data_sent f.packets) v n has;
          extended_order = refl;
          same_credit =
              omega (arith, paid, length-append (data_sent f.packets) (take n v), length-take n v);
          same_maxpacket = refl;
          sized = λ k. (omega (arith, length-take n v), k);
        }

    send_data-Sends : (g : Flow) × (send_data n f ≡ returned g) × Sends f g
    unfolding send_data
    send_data-Sends =
        let (rest, there) = ptr-content f.chan.input a.input_ok in
        let v = content f.chan.input in
        let enough : ltb (length (v ++ rest)) n ≡ false = ground (arith, length-append v rest) in
        (
          after_data,
          rw (there, send_data)
              (rw (enough, consume_ok f.chan.input n a.input_ok has)
                (ap
                  (λ (w : Bytes). returned (record f {
                    chan = record f.chan { input = advance n f.chan.input };
                    remote_window = u_diff f.remote_window n;
                    packets = channel_data w ∷ f.packets;
                  }))
                  (take-append_le n v rest has))),
          after_data-Sends,
        )

  module _ (has : n ≤ length (content f.chan.extended)) where
    abbrev after_extended : Flow
    after_extended = record f {
      chan = record f.chan { extended = advance n f.chan.extended };
      remote_window = u_diff f.remote_window n;
      packets = extended_data (take n (content f.chan.extended)) ∷ f.packets;
    }

    after_extended-Sends : Sends f after_extended
    unfolding data_sent extended_sent
    after_extended-Sends =
        let v = content f.chan.extended in
        let rest = content-advance f.chan.extended n a.extended_ok has in
        record {
          sendable = record {
            input_ok = a.input_ok;
            extended_ok = advance-WellFormed f.chan.extended n a.extended_ok has;
            window_fits = omega (arith, a.window_fits, paid);
          };
          data_order = refl;
          extended_order =
              ap (λ w. (extended_sent f.packets ++ take n v) ++ w) rest
              ∙ moved_front (extended_sent f.packets) v n has;
          same_credit =
              omega
                (arith, paid, length-append (extended_sent f.packets) (take n v), length-take n v);
          same_maxpacket = refl;
          sized = λ k. (omega (arith, length-take n v), k);
        }

    send_extended-Sends : (g : Flow) × (send_extended n f ≡ returned g) × Sends f g
    unfolding send_extended
    send_extended-Sends =
        let (rest, there) = ptr-content f.chan.extended a.extended_ok in
        let v = content f.chan.extended in
        let enough : ltb (length (v ++ rest)) n ≡ false = ground (arith, length-append v rest) in
        (
          after_extended,
          rw (there, send_extended)
              (rw (enough, consume_ok f.chan.extended n a.extended_ok has)
                (ap
                  (λ (w : Bytes). returned (record f {
                    chan = record f.chan { extended = advance n f.chan.extended };
                    remote_window = u_diff f.remote_window n;
                    packets = extended_data w ∷ f.packets;
                  }))
                  (take-append_le n v rest has))),
          after_extended-Sends,
        )

-- The end of the input leaves the buffers.
ibuf_empty_buffers :
    (s : Session) (c : Channel)
    → ((ibuf_empty s c).input ≡ c.input) × ((ibuf_empty s c).extended ≡ c.extended)
unfolding ibuf_empty send_eof2 send_ieof1
ibuf_empty_buffers s c = ground arith

emptied-Sends :
    (s : Session) (f : Flow) → Sendable f → Sends f (record f { chan = ibuf_empty s f.chan })
emptied-Sends s f a =
    let (i, e) = ibuf_empty_buffers s f.chan in
    record {
      sendable = record {
        input_ok = subst WellFormed (sym i) a.input_ok;
        extended_ok = subst WellFormed (sym e) a.extended_ok;
        window_fits = a.window_fits;
      };
      data_order = ap (λ b. data_sent f.packets ++ content b) i;
      extended_order = ap (λ b. extended_sent f.packets ++ content b) e;
      same_credit = refl;
      same_maxpacket = refl;
      sized = λ k. k;
    }

-- It returns, and has sent as `Sends` says.
abbrev pub Returns : Flow → Outcome Flow → Type 0
Returns f o = (g : Flow) × (o ≡ returned g) × Sends f g

module _ (s : Session) (two : s.compat20 ≡ true) (f : Flow) (a : Sendable f) where
  idle : {o : Outcome Flow} → o ≡ returned f → Returns f o
  idle e = (f, e, Sends-self f a)

  poll_extended-Sends : Returns f (poll_extended s f)
  unfolding poll_extended
  poll_extended-Sends =
      let n = at_most f.remote_maxpacket (at_most f.remote_window (len f.chan.extended)) in
      elim (Bool-cases (
        s.compat20
        && not f.chan.eof_sent
        && ltb 0 f.remote_window
        && ltb 0 (len f.chan.extended)
        && f.extended_read)) [
          | inr quiet ↦ idle (rw (quiet, poll_extended) refl)
          | inl busy ↦
              let size = len-content f.chan.extended a.extended_ok in
              rw (busy, poll_extended)
                (send_extended-Sends f a n (ground (arith, size)) (ground (arith, size))
                  (ground (arith, size)))
        ]

  chunk-eq :
      (interactive : Bool) (maxsize : ℕ)
      → chunk s interactive maxsize f
        ≡ at_most f.remote_maxpacket (at_most f.remote_window (len f.chan.input))
  unfolding chunk
  chunk-eq interactive maxsize = rw two refl

  poll_input-Sends :
      (interactive : Bool) (maxsize : ℕ) → Returns f (poll_input false s interactive maxsize f)
  unfolding poll_input
  poll_input-Sends interactive maxsize =
      let n = chunk s interactive maxsize f in
      elim (Bool-cases (reads_input f.chan.istate && ltb 0 (len f.chan.input))) [
        | inl busy ↦ elim (Bool-cases (ltb 0 n)) [
          | inr none_yet ↦ idle (rw (busy, none_yet, poll_input) refl)
          | inl some_now ↦
              let size = len-content f.chan.input a.input_ok in
              let is = chunk-eq interactive maxsize in
              rw (busy, some_now, poll_input)
                (send_data-Sends f a n (ground (arith, is)) (ground (arith, is))
                  (ground (arith, is, size)))
        ]
        | inr quiet ↦ elim (Bool-cases (is_wait_drain f.chan.istate)) [
          | inr stays ↦ idle (rw (quiet, stays, poll_input) refl)
          | inl ends ↦ elim (Bool-cases (efd_input_active s f)) [
            | inl waits ↦ idle (rw (quiet, ends, waits, poll_input) refl)
            | inr over ↦ (_, rw (quiet, ends, over, poll_input) refl, emptied-Sends s f a)
          ]
        ]
      ]

and_extended-Sends :
    (s : Session) (f : Flow) (o : Outcome Flow)
    → s.compat20 ≡ true
    → Returns f o
    → Returns f (and_extended s o)
and_extended-Sends s f o two (g, e, sent) =
    let (h, run, more) = poll_extended-Sends s two g sent.sendable in
    (h, ap (and_extended s) e ∙ run, Sends-trans sent more)

-- With protocol 2, on a channel that keeps no boundaries, with well-formed buffers, a round of
-- channel_output_poll returns. The data sent so far with the input that is left, and the extended
-- data likewise, stay the same sequence of bytes; the bytes sent and the peer's window stay the same
-- in sum, so that the window is never overdrawn; and no packet exceeds the peer's largest.
pub output_poll-Sends :
    (s : Session) (interactive : Bool) (maxsize : ℕ) (granted : Bool) (f : Flow)
    → s.compat20 ≡ true
    → f.datagram ≡ false
    → Sendable f
    → Returns f (output_poll false s interactive maxsize granted f)
unfolding output_poll
output_poll-Sends s interactive maxsize granted f two stream a =
    elim (Bool-cases (not (is_open_type f.chan.type || false && is_draining f.chan.type))) [
      | inl closed ↦ idle s two f a (rw (closed, output_poll) refl)
      | inr opened ↦ elim (Bool-cases (s.compat20 && (f.chan.close_sent || f.chan.close_rcvd))) [
        | inl late ↦ idle s two f a (rw (opened, late, output_poll) refl)
        | inr early ↦
            elim (Bool-cases
              (reads_input f.chan.istate && ltb 0 (len f.chan.input) && f.datagram)) [
                | inl boundaries ↦ absurd (ground (arith, stream))
                | inr plain ↦
                    rw (opened, early, plain, output_poll)
                      (and_extended-Sends s f (poll_input false s interactive maxsize f) two
                        (poll_input-Sends s two f a interactive maxsize))
              ]
      ]
    ]
