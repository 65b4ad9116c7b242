-- ===== src/Flow/Runs.antt =====
-- What moves the data of an open channel: packets that arrive, writes that succeed, and the credit
-- that is sent back.
use libopenssh.Base.{
  ℕ, ◌+◌, ◌-◌, ◌≤◌, ◌≡◌, inl, inr, refl, ap, subst, ◌∙◌, Bool, true, false, arith, Bool-cases,
  Bytes, length, ltb, ◌&&◌, length-append, length-drop, if◌then◌else◌,
}
use libopenssh.Err.{Result, ok, err, fault}
use libopenssh.Sshbuf.{Sshbuf, len, consume}
use libopenssh.Sshbuf.Sanity.{WellFormed}
use libopenssh.Sshbuf.Content.{
  content, len-content, consume_ok, consume_short, advance-WellFormed, content-advance,
}
use libopenssh.Getput.{get_string}
use libopenssh.Getput.GetString.{StringGot, get_string-StringGot}
use libopenssh.Channel.{Session}
use libopenssh.Flow.{returned, Flow, u_int, deliver, deliver_extended, check_window, is_output_open}
use libopenssh.Flow.Write.{
  Written, again, failed, wrote, with_output, note_consumed, write_datagram, write_stream,
  handle_wfd, write_extended, handle_efd,
}
use libopenssh.Flow.Accounts.{
  buffered, total, Accounts, Conserves, Conserves-self, stored-eq, returned-eq, same,
  deliver-Conserves, deliver_extended-Conserves, check_window-Conserves,
}

-- What a buffer has lost.
consume-shrinks :
    (b c : Sshbuf) (n : ℕ)
    → WellFormed b
    → consume n b ≡ (c, ok tt)
    → WellFormed c × (length (content c) + n ≡ length (content b))
consume-shrinks b c n w e = elim (Bool-cases (ltb (length (content b)) n)) [
  | inl few ↦ cc (rw (consume_short b n w (ground arith)) at e)
  | inr all ↦
      let h : n ≤ length (content b) = ground arith in
      let is = (rw (consume_ok b n w h) at e) in
      subst (λ (c : Sshbuf). WellFormed c × (length (content c) + n ≡ length (content b)))
        (ap (λ q. q.0) is)
        (
          advance-WellFormed b n w h,
          omega (arith, ap length (content-advance b n w h), length-drop n (content b)),
        )
]

module _ (s : Session) (two : s.compat20 ≡ true) (f : Flow) (a : Accounts f) where
  -- The output buffer is shorter, and the difference is consumed.
  output-Accounts :
      (c : Sshbuf)
      → WellFormed c
      → length (content c) ≤ length (content f.chan.output)
      → Conserves f (note_consumed s (len f.chan.output) (with_output f c))
  unfolding note_consumed
  output-Accounts c w h =
      let before = len-content f.chan.output a.output_ok in
      let after = len-content c w in
      let fits : u_int (f.local_consumed + (len f.chan.output - len c))
          ≡ f.local_consumed + (len f.chan.output - len c) =
        omega (arith, a.bounded, a.window_fits, before, after) in
      rw (two, note_consumed)
        (record {
          accounts = record {
            output_ok = w;
            extended_ok = a.extended_ok;
            bounded = omega (arith, a.bounded, fits, before, after);
            window_fits = a.window_fits;
          };
          same_total = omega (arith, fits, before, after);
          same_max = refl;
          same_state = refl;
        })

  datagram-Conserves :
      (compat13 : Bool) (n : ℕ) (granted : Bool) (q : Sshbuf × Result (Bytes × ℕ)) {g : Flow}
      → StringGot granted f.chan.output q
      → write_datagram compat13 s (len f.chan.output) (wrote n) q f ≡ returned g
      → Conserves f g
  unfolding write_datagram
  datagram-Conserves compat13 n granted (c, ok (v, k)) (_, t, _, _) e =
      subst (Conserves f) (returned-eq e) (
        output-Accounts c t.well_formed
          (omega (arith, ap length t.taken, length-append _ (content c))))
  datagram-Conserves compat13 n granted (c, err x) h e = cc e
  datagram-Conserves compat13 n granted (c, fault) h e = cc e

  stream-Conserves :
      (compat13 : Bool) (n : ℕ) {g : Flow}
      → write_stream compat13 s (wrote n) f ≡ returned g
      → Conserves f g
  unfolding write_stream
  stream-Conserves compat13 n e =
      let (c, run, is) = stored-eq _ _ e in
      let (w, size) = consume-shrinks f.chan.output c n a.output_ok run in
      subst (Conserves f) is (output-Accounts c w (omega (arith, size)))

  either-Conserves :
      (compat13 granted : Bool) (n : ℕ) (datagram : Bool) {g : Flow}
      → (if datagram
          then write_datagram compat13 s
              (len f.chan.output)
              (wrote n)
              (get_string granted f.chan.output)
              f
          else write_stream compat13 s (wrote n) f)
        ≡ returned g
      → Conserves f g
  either-Conserves compat13 granted n true e =
      datagram-Conserves compat13 n granted (get_string granted f.chan.output)
        (get_string-StringGot granted f.chan.output a.output_ok) e
  either-Conserves compat13 granted n false e = stream-Conserves compat13 n e

  handle_wfd-Conserves :
      (compat13 ready granted : Bool) (n : ℕ) {g : Flow}
      → handle_wfd compat13 s ready granted (wrote n) f ≡ returned g
      → Conserves f g
  unfolding handle_wfd
  handle_wfd-Conserves compat13 ready granted n e =
      elim (Bool-cases (f.chan.wfd_open && ready && ltb 0 (len f.chan.output))) [
        | inr idle ↦ same s two f a _ e (rw (idle, handle_wfd) refl)
        | inl busy ↦ either-Conserves compat13 granted n f.datagram (rw busy at e)
      ]

  handle_wfd-waits :
      (compat13 ready granted : Bool) {g : Flow}
      → f.datagram ≡ false
      → handle_wfd compat13 s ready granted again f ≡ returned g
      → Conserves f g
  unfolding handle_wfd write_stream
  handle_wfd-waits compat13 ready granted stream e =
      elim (Bool-cases (f.chan.wfd_open && ready && ltb 0 (len f.chan.output))) [
        | inr idle ↦ same s two f a _ e (rw (idle, handle_wfd) refl)
        | inl busy ↦ same s two f a _ e (rw (busy, stream, handle_wfd) refl)
      ]

  write_extended-Conserves :
      (w : Written) {g : Flow} → write_extended w f ≡ returned g → Conserves f g
  unfolding write_extended
  write_extended-Conserves again e = subst (Conserves f) (returned-eq e) (Conserves-self f a)
  write_extended-Conserves failed e = subst (Conserves f) (returned-eq e) (record {
    accounts = record {
      output_ok = a.output_ok;
      extended_ok = a.extended_ok;
      bounded = a.bounded;
      window_fits = a.window_fits;
    };
    same_total = refl;
    same_max = refl;
    same_state = refl;
  })
  write_extended-Conserves (wrote n) e =
      let (c, run, is) = stored-eq _ _ e in
      let (w, size) = consume-shrinks f.chan.extended c n a.extended_ok run in
      let fits : u_int (f.local_consumed + n) ≡ f.local_consumed + n =
        omega (arith, a.bounded, a.window_fits, size) in
      subst (Conserves f) is (record {
        accounts = record {
          output_ok = a.output_ok;
          extended_ok = w;
          bounded = omega (arith, a.bounded, fits, size);
          window_fits = a.window_fits;
        };
        same_total = omega (arith, fits, size);
        same_max = refl;
        same_state = refl;
      })

  handle_efd-Conserves :
      (ready : Bool) (w : Written) {g : Flow} → handle_efd ready w f ≡ returned g → Conserves f g
  unfolding handle_efd
  handle_efd-Conserves ready w e =
      elim (Bool-cases
        (f.chan.efd_open && f.chan.extended_write && ready && ltb 0 (len f.chan.extended))) [
          | inr idle ↦ same s two f a _ e (rw (idle, handle_efd) refl)
          | inl busy ↦ write_extended-Conserves w (rw busy at e)
        ]

-- One handler that returns. `p` is the packet behind the string. A write to the output succeeds or,
-- on a channel that keeps no datagrams, is to be tried again; a write of extended data may also fail.
pub data Step (s : Session) (f : Flow) : Flow → Type 0 where
  data_arrives :
      (v : Bytes) (p : Sshbuf) {g : Flow}
      → deliver false s v (length v) p f ≡ returned g
      → Step s f g
  extended_arrives :
      (tcode : ℕ) (v : Bytes) {g : Flow}
      → deliver_extended s tcode v (length v) f ≡ returned g
      → Step s f g
  window_checked : Step s f (check_window f)
  output_written :
      (ready granted : Bool) (n : ℕ) {g : Flow}
      → handle_wfd false s ready granted (wrote n) f ≡ returned g
      → Step s f g
  output_waits :
      (ready granted : Bool) {g : Flow}
      → f.datagram ≡ false
      → handle_wfd false s ready granted again f ≡ returned g
      → Step s f g
  extended_written :
      (ready : Bool) (w : Written) {g : Flow} → handle_efd ready w f ≡ returned g → Step s f g

pub data Run (s : Session) (f : Flow) : Flow → Type 0 where
  here : Run s f f
  next : {g h : Flow} → Run s f g → Step s g h → Run s f h

Step-Conserves :
    {s : Session} {f g : Flow}
    → s.compat20 ≡ true
    → is_output_open f.chan.ostate ≡ true
    → Accounts f
    → Step s f g
    → Conserves f g
Step-Conserves {s} {f} v o a (data_arrives d p e) = deliver-Conserves s v f a o d p e
Step-Conserves {s} {f} v o a (extended_arrives t d e) = deliver_extended-Conserves s v f a t d e
Step-Conserves {s} {f} v o a window_checked = check_window-Conserves s v f a
Step-Conserves {s} {f} v o a (output_written r k n e) = handle_wfd-Conserves s v f a false r k n e
Step-Conserves {s} {f} v o a (output_waits r k d e) = handle_wfd-waits s v f a false r k d e
Step-Conserves {s} {f} v o a (extended_written r w e) = handle_efd-Conserves s v f a r w e

Conserves-trans : {f g h : Flow} → Conserves f g → Conserves g h → Conserves f h
Conserves-trans c d = record {
  accounts = d.accounts;
  same_total = d.same_total ∙ c.same_total;
  same_max = d.same_max ∙ c.same_max;
  same_state = d.same_state ∙ c.same_state;
}

Run-Conserves :
    {s : Session} {f g : Flow}
    → s.compat20 ≡ true
    → is_output_open f.chan.ostate ≡ true
    → Accounts f
    → Run s f g
    → Conserves f g
Run-Conserves {f = f} v o a here = Conserves-self f a
Run-Conserves v o a (next r step) =
    let c = Run-Conserves v o a r in
    Conserves-trans c (Step-Conserves v (ap is_output_open c.same_state ∙ o) c.accounts step)

-- With protocol 2, on a channel whose output half is open and whose window, consumed bytes and
-- well-formed buffers are together within the window it announced: in any sequence of data and
-- extended data that arrive, credit that is sent back, writes of extended data, and writes to the
-- output that succeed or, on a channel that keeps no datagrams, are to be tried again, what the peer
-- may send, what is buffered and what is to be credited stay the same in sum, so that the buffers
-- never hold more than the window announced. Writes to the output that fail, and datagrams that are to
-- be tried again, are not among the steps.
pub Run-Accounts :
    {s : Session} {f g : Flow}
    → s.compat20 ≡ true
    → is_output_open f.chan.ostate ≡ true
    → Accounts f
    → Run s f g
    → Accounts g × (total g ≡ total f) × (buffered g ≤ f.local_window_max)
Run-Accounts {s} {f} {g} v o a r =
    let c = Run-Conserves v o a r in
    (c.accounts, c.same_total, omega (arith, c.same_total, a.bounded))
