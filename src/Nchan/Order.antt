-- ===== src/Nchan/Order.antt =====
-- For both protocols: the two halves of a channel only move forwards.
use libopenssh.Base.{ℕ, ◌≤◌, ◌≡◌, inl, inr, refl, Bool, arith, Bool-cases}
use libopenssh.Channel.{
  Session, Channel, Istate, input_open, input_wait_drain, input_wait_oclose, input_closed, Ostate,
  output_open, output_wait_drain, output_wait_ieof, output_closed, shutdown_read, shutdown_write,
  send_eof2, send_close2, send_eow2, send_ieof1, send_oclose1,
}
use libopenssh.Nchan.{
  ibuf_empty, obuf_empty, rcvd_close2, rcvd_eow, rcvd_eof2, write_failed1, write_failed2, rcvd_ieof,
  rcvd_ieof1, rcvd_oclose, rcvd_oclose1, write_failed, read_failed, is_dead, input_ieof, note_close,
  close_output, close_input, finish_output, force_input,
}

abbrev pub input_rank : Istate → ℕ
input_rank input_open = 0
input_rank input_wait_drain = 1
input_rank input_wait_oclose = 2
input_rank input_closed = 3

abbrev pub output_rank : Ostate → ℕ
output_rank output_open = 0
output_rank output_wait_drain = 1
output_rank output_wait_ieof = 2
output_rank output_closed = 3

-- Neither half moves backwards.
pub record Advances (c d : Channel) : Type 0 where
  pub input_forward : input_rank c.istate ≤ input_rank d.istate
  pub output_forward : output_rank c.ostate ≤ output_rank d.ostate

pub Advances-trans : (c d e : Channel) → Advances c d → Advances d e → Advances c e
Advances-trans c d e f g = omega arith

pub Advances-refl : (c : Channel) → Advances c c
Advances-refl c = omega arith

module _ (s : Session) (c : Channel) where
  pub read_failed-Advances : Advances c (read_failed s c)
  unfolding read_failed shutdown_read
  read_failed-Advances = ground arith

  pub ibuf_empty-Advances : Advances c (ibuf_empty s c)
  unfolding ibuf_empty send_eof2 send_ieof1
  ibuf_empty-Advances = ground arith

  pub obuf_empty-Advances : Advances c (obuf_empty s c)
  unfolding obuf_empty shutdown_write send_oclose1
  obuf_empty-Advances = ground arith

  pub rcvd_eow-Advances : Advances c (rcvd_eow s c)
  unfolding rcvd_eow shutdown_read
  rcvd_eow-Advances = ground arith

  note_close-Advances : Advances c (note_close c)
  unfolding note_close
  note_close-Advances = ground arith

  close_output-Advances : Advances c (close_output c.ostate c)
  unfolding close_output
  close_output-Advances = ground arith

  close_input-Advances : Advances c (close_input c.istate s c)
  unfolding close_input shutdown_read send_eof2
  close_input-Advances = ground arith

  rcvd_oclose1-Advances : Advances c (rcvd_oclose1 s c)
  unfolding rcvd_oclose1 shutdown_read send_ieof1
  rcvd_oclose1-Advances = ground arith

  rcvd_ieof1-Advances : Advances c (rcvd_ieof1 c)
  unfolding rcvd_ieof1
  rcvd_ieof1-Advances = ground arith

  rcvd_eof2-Advances : Advances c (rcvd_eof2 c)
  unfolding rcvd_eof2 close_output
  rcvd_eof2-Advances = ground arith

  write_failed1-Advances : Advances c (write_failed1 s c)
  unfolding write_failed1 shutdown_write send_oclose1
  write_failed1-Advances = ground arith

  write_failed2-Advances : Advances c (write_failed2 s c)
  unfolding write_failed2 shutdown_write send_eow2
  write_failed2-Advances = ground arith

  pub is_dead-Advances : (do_send : Bool) → Advances c (is_dead s do_send c).0
  unfolding is_dead send_close2
  is_dead-Advances do_send = ground arith

module _ (s : Session) (c : Channel) where
  larval-Advances :
      Advances c (record (note_close c) { ostate = output_closed; istate = input_closed })
  larval-Advances = ground arith

  rcvd_close2-Advances : Advances c (rcvd_close2 s c)
  unfolding rcvd_close2
  rcvd_close2-Advances =
      let noted = note_close c in
      let drained = close_output noted.ostate noted in
      ground (
        arith,
        larval-Advances,
        note_close-Advances s c,
        close_output-Advances s noted,
        close_input-Advances s drained,
      )

  pub rcvd_oclose-Advances : Advances c (rcvd_oclose s c)
  unfolding rcvd_oclose
  rcvd_oclose-Advances = ground (arith, rcvd_close2-Advances, rcvd_oclose1-Advances s c)

  pub write_failed-Advances : Advances c (write_failed s c)
  unfolding write_failed
  write_failed-Advances = ground (arith, write_failed2-Advances s c, write_failed1-Advances s c)

  finish_output-Advances : Advances c (finish_output s c)
  unfolding finish_output
  finish_output-Advances = ground (arith, obuf_empty-Advances s c)

  force_input-Advances : (i : Istate) → c.istate ≡ i → Advances c (force_input i s c)
  unfolding force_input
  force_input-Advances input_open o =
      ground (arith, ibuf_empty-Advances s (record c { istate = input_wait_drain }))
  force_input-Advances _ o = Advances-refl c

module _ (s : Session) (c : Channel) where
  pub rcvd_ieof-Advances : Advances c (rcvd_ieof s c)
  unfolding rcvd_ieof
  rcvd_ieof-Advances = elim (Bool-cases s.compat20) [
    | inl v ↦ simp v (
        Advances-trans c (rcvd_eof2 c) _ (rcvd_eof2-Advances s c)
          (finish_output-Advances s (rcvd_eof2 c)))
    | inr v ↦ simp v (
        Advances-trans c (rcvd_ieof1 c) _ (rcvd_ieof1-Advances s c)
          (finish_output-Advances s (rcvd_ieof1 c)))
  ]

  pub input_ieof-Advances : Advances c (input_ieof s c)
  unfolding input_ieof
  input_ieof-Advances = ground (
    arith,
    rcvd_ieof-Advances,
    force_input-Advances s (rcvd_ieof s c) (rcvd_ieof s c).istate refl,
  )
