-- ===== src/Nchan/Protocol2.antt =====
-- Protocol 2: what a channel may send, and in which states.
use libopenssh.Base.{
  ℕ, suc, ◌≡◌, ◌≢◌, inl, inr, refl, Bool, true, List, [], ◌∷◌, if◌then◌else◌, arith, Bool-cases,
}
use libopenssh.Channel.{
  Session, Channel, Event, sent_eof, sent_close, Istate, input_open, input_wait_drain,
  input_wait_oclose, input_closed, output_wait_ieof, output_closed, shutdown_read, shutdown_write,
  send_eof2, send_close2, send_eow2, is_larval, set_istate, set_ostate,
}
use libopenssh.Nchan.{
  ibuf_empty, obuf_empty, rcvd_close2, rcvd_eow, rcvd_eof2, write_failed2, rcvd_ieof, rcvd_oclose,
  write_failed, read_failed, is_dead, input_ieof, note_close, close_output, close_input,
  finish_output, force_input,
}

abbrev pub closes : List Event → ℕ
closes [] = 0
closes (sent_close ∷ es) = suc (closes es)
closes (_ ∷ es) = closes es

abbrev pub eofs : List Event → ℕ
eofs [] = 0
eofs (sent_eof ∷ es) = suc (eofs es)
eofs (_ ∷ es) = eofs es

-- Every EOF in the log, which has the newest event first, was sent before any CLOSE.
abbrev pub EofFirst : List Event → Type 0
EofFirst [] = Unit {0}
EofFirst (sent_eof ∷ es) = (closes es ≡ 0) × EofFirst es
EofFirst (_ ∷ es) = EofFirst es

abbrev pub flag : Bool → ℕ
flag b = if b then 1 else 0

-- What holds of a channel of protocol 2 between two handlers.
pub record IsConsistent (c : Channel) : Type 0 where
  pub in_state : c.istate ≢ input_wait_oclose
  pub out_state : c.ostate ≢ output_wait_ieof
  pub one_close : closes c.events ≡ flag c.close_sent
  pub one_eof : eofs c.events ≡ flag c.eof_sent
  pub close_last : c.close_sent ≡ true → (c.istate ≡ input_closed) × (c.ostate ≡ output_closed)
  pub eof_closes : c.eof_sent ≡ true → c.istate ≡ input_closed
  pub eof_first : EofFirst c.events

module _ (s : Session) (v : s.compat20 ≡ true) (c : Channel) (k : IsConsistent c) where
  shutdown_read-IsConsistent : IsConsistent (shutdown_read s c)
  unfolding shutdown_read
  shutdown_read-IsConsistent = ground arith

  pub read_failed-IsConsistent : IsConsistent (read_failed s c)
  unfolding read_failed shutdown_read
  read_failed-IsConsistent = ground arith

  pub ibuf_empty-IsConsistent : IsConsistent (ibuf_empty s c)
  unfolding ibuf_empty send_eof2
  ibuf_empty-IsConsistent = ground arith

  pub obuf_empty-IsConsistent : IsConsistent (obuf_empty s c)
  unfolding obuf_empty shutdown_write
  obuf_empty-IsConsistent = ground arith

  pub rcvd_eow-IsConsistent : IsConsistent (rcvd_eow s c)
  unfolding rcvd_eow shutdown_read
  rcvd_eow-IsConsistent = ground arith

  note_close-IsConsistent : IsConsistent (note_close c)
  unfolding note_close
  note_close-IsConsistent = ground arith

  close_output-IsConsistent : IsConsistent (close_output c.ostate c)
  unfolding close_output
  close_output-IsConsistent = ground arith

  close_input-IsConsistent : IsConsistent (close_input c.istate s c)
  unfolding close_input shutdown_read send_eof2
  close_input-IsConsistent = ground arith

  both_closed-IsConsistent : IsConsistent (set_istate input_closed (set_ostate output_closed c))
  both_closed-IsConsistent = ground arith

  write_failed2-IsConsistent : IsConsistent (write_failed2 s c)
  unfolding write_failed2 shutdown_write send_eow2
  write_failed2-IsConsistent = ground arith

  rcvd_eof2-IsConsistent : IsConsistent (rcvd_eof2 c)
  unfolding rcvd_eof2 close_output
  rcvd_eof2-IsConsistent = ground arith

  pub is_dead-IsConsistent : (do_send : Bool) → IsConsistent (is_dead s do_send c).0
  unfolding is_dead send_close2
  is_dead-IsConsistent do_send = ground arith

module _ (s : Session) (v : s.compat20 ≡ true) (c : Channel) (k : IsConsistent c) where
  rcvd_close2-IsConsistent : IsConsistent (rcvd_close2 s c)
  unfolding rcvd_close2
  rcvd_close2-IsConsistent =
      let noted = note_close-IsConsistent s v c k in
      elim (Bool-cases (is_larval c.type)) [
        | inl l ↦ rw l (both_closed-IsConsistent s v (note_close c) noted)
        | inr l ↦
            rw l
              (close_input-IsConsistent s v _ (close_output-IsConsistent s v (note_close c) noted))
      ]

  pub rcvd_oclose-IsConsistent : IsConsistent (rcvd_oclose s c)
  unfolding rcvd_oclose
  rcvd_oclose-IsConsistent = simp v rcvd_close2-IsConsistent

  pub write_failed-IsConsistent : IsConsistent (write_failed s c)
  unfolding write_failed
  write_failed-IsConsistent = simp v (write_failed2-IsConsistent s v c k)

  finish_output-IsConsistent : IsConsistent (finish_output s c)
  unfolding finish_output
  finish_output-IsConsistent = ground (arith, obuf_empty-IsConsistent s v c k)

  drained-IsConsistent : c.istate ≡ input_open → IsConsistent (set_istate input_wait_drain c)
  drained-IsConsistent o = ground arith

  force_input-IsConsistent : (i : Istate) → c.istate ≡ i → IsConsistent (force_input i s c)
  unfolding force_input
  force_input-IsConsistent input_open o =
      let d = drained-IsConsistent o in
      ground (arith, d, ibuf_empty-IsConsistent s v (set_istate input_wait_drain c) d)
  force_input-IsConsistent _ o = k

module _ (s : Session) (v : s.compat20 ≡ true) (c : Channel) (k : IsConsistent c) where
  pub rcvd_ieof-IsConsistent : IsConsistent (rcvd_ieof s c)
  unfolding rcvd_ieof
  rcvd_ieof-IsConsistent =
      simp v (finish_output-IsConsistent s v (rcvd_eof2 c) (rcvd_eof2-IsConsistent s v c k))

  pub input_ieof-IsConsistent : IsConsistent (input_ieof s c)
  unfolding input_ieof
  input_ieof-IsConsistent = ground (
    arith,
    rcvd_ieof-IsConsistent,
    force_input-IsConsistent s v (rcvd_ieof s c) rcvd_ieof-IsConsistent (rcvd_ieof s c).istate refl,
  )
