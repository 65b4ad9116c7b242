-- ===== src/Nchan.antt =====
-- ssh/nchan.c: the two half-close state machines of a channel, for protocols 1 and 2, and
-- channel_input_ieof of ssh/channels.c.
pub mod Protocol2
pub mod Order
pub mod Steps
pub mod Dead
use libopenssh.Base.{Bool, true, false, not, ◌&&◌, ◌||◌, ◌==◌, ltb, if◌then◌else◌}
use libopenssh.Sshbuf.{len}
use libopenssh.Channel.{
  Channel, Istate, Ostate, Session, efd_output_active, input_closed, input_is_closed, input_open,
  input_wait_drain, input_wait_oclose, is_larval, is_zombie, log, output_closed, output_is_closed,
  output_open, output_wait_drain, output_wait_ieof, report, send_close2, send_eof2, send_eow2,
  send_ieof1, send_oclose1, set_istate, set_ostate, shutdown_read, shutdown_write, zombie,
}

abbrev rcvd_oclose1_in : Istate → Session → Channel → Channel
rcvd_oclose1_in input_wait_oclose s c = set_istate input_closed c
rcvd_oclose1_in input_open s c = set_istate input_closed (send_ieof1 (shutdown_read s c))
rcvd_oclose1_in input_wait_drain s c = set_istate input_closed (send_ieof1 c)
rcvd_oclose1_in input_closed s c = log report c

unfoldable pub rcvd_oclose1 : Session → Channel → Channel
rcvd_oclose1 s c = rcvd_oclose1_in c.istate s c

abbrev read_failed_in : Istate → Session → Channel → Channel
read_failed_in input_open s c = set_istate input_wait_drain (shutdown_read s c)
read_failed_in _ s c = log report c

unfoldable pub read_failed : Session → Channel → Channel
read_failed s c = read_failed_in c.istate s c

abbrev ibuf_drained : Istate → Session → Channel → Channel
ibuf_drained input_wait_drain s c =
    if s.compat20
    then set_istate input_closed (if not (c.close_sent || c.local) then send_eof2 c else c)
    else set_istate input_wait_oclose (send_ieof1 c)
ibuf_drained _ s c = log report c

unfoldable pub ibuf_empty : Session → Channel → Channel
ibuf_empty s c = if ltb 0 (len c.input) then log report c else ibuf_drained c.istate s c

abbrev rcvd_ieof1_in : Ostate → Channel → Channel
rcvd_ieof1_in output_open c = set_ostate output_wait_drain c
rcvd_ieof1_in output_wait_ieof c = set_ostate output_closed c
rcvd_ieof1_in _ c = log report c

unfoldable pub rcvd_ieof1 : Channel → Channel
rcvd_ieof1 c = rcvd_ieof1_in c.ostate c

abbrev write_failed1_in : Ostate → Session → Channel → Channel
write_failed1_in output_open s c = set_ostate output_wait_ieof (send_oclose1 s (shutdown_write s c))
write_failed1_in output_wait_drain s c =
    set_ostate output_closed (send_oclose1 s (shutdown_write s c))
write_failed1_in _ s c = log report c

unfoldable pub write_failed1 : Session → Channel → Channel
write_failed1 s c = write_failed1_in c.ostate s c

abbrev obuf_drained : Ostate → Session → Channel → Channel
obuf_drained output_wait_drain s c =
    let c' = shutdown_write s c in
    set_ostate output_closed (if not s.compat20 then send_oclose1 s c' else c')
obuf_drained _ s c = log report c

unfoldable pub obuf_empty : Session → Channel → Channel
obuf_empty s c = if ltb 0 (len c.output) then log report c else obuf_drained c.ostate s c

-- The flags that a received CLOSE leaves.
unfoldable pub note_close : Channel → Channel
note_close c =
    if not c.local
    then record (if c.close_rcvd then log report c else c) { close_rcvd = true }
    else c

unfoldable pub close_output : Ostate → Channel → Channel
close_output output_open c = set_ostate output_wait_drain c
close_output _ c = c

unfoldable pub close_input : Istate → Session → Channel → Channel
close_input input_open s c = set_istate input_closed (shutdown_read s c)
close_input input_wait_drain s c = set_istate input_closed (if not c.local then send_eof2 c else c)
close_input _ s c = c

unfoldable pub rcvd_close2 : Session → Channel → Channel
rcvd_close2 s c =
    let noted = note_close c in
    let drained = close_output noted.ostate noted in
    if is_larval c.type
    then set_istate input_closed (set_ostate output_closed noted)
    else close_input drained.istate s drained

abbrev rcvd_eow_in : Istate → Session → Channel → Channel
rcvd_eow_in input_open s c = set_istate input_closed (shutdown_read s c)
rcvd_eow_in _ s c = c

unfoldable pub rcvd_eow : Session → Channel → Channel
rcvd_eow s c = rcvd_eow_in c.istate s c

unfoldable pub rcvd_eof2 : Channel → Channel
rcvd_eof2 c = close_output c.ostate (record c { eof_rcvd = true })

abbrev write_failed2_in : Ostate → Session → Channel → Channel
write_failed2_in output_wait_ieof s c = log report c
write_failed2_in output_closed s c = log report c
write_failed2_in _ s c =
    let c' = shutdown_write s c in
    set_ostate output_closed (if c.is_session then send_eow2 s c' else c')

unfoldable pub write_failed2 : Session → Channel → Channel
write_failed2 s c = write_failed2_in c.ostate s c

abbrev pub output_drains : Ostate → Bool
output_drains output_wait_drain = true
output_drains _ = false

unfoldable pub finish_output : Session → Channel → Channel
finish_output s c =
    if output_drains c.ostate && len c.output == 0 && not (efd_output_active s c)
    then obuf_empty s c
    else c

unfoldable pub rcvd_ieof : Session → Channel → Channel
rcvd_ieof s c = finish_output s (if s.compat20 then rcvd_eof2 c else rcvd_ieof1 c)

unfoldable pub rcvd_oclose : Session → Channel → Channel
rcvd_oclose s c = if s.compat20 then rcvd_close2 s c else rcvd_oclose1 s c

unfoldable pub write_failed : Session → Channel → Channel
write_failed s c = if s.compat20 then write_failed2 s c else write_failed1 s c

unfoldable pub mark_dead : Channel → Channel
mark_dead c = record c { type = zombie }

-- The end of `chan_is_dead`, on the flags that it leaves.
abbrev pub close_exchanged : Channel → Channel × Bool
close_exchanged c = (c, c.close_sent && c.close_rcvd)

unfoldable pub is_dead : Session → Bool → Channel → Channel × Bool
is_dead s do_send c =
    if is_zombie c.type
    then (c, true)
    else if not (input_is_closed c.istate) || not (output_is_closed c.ostate)
    then (c, false)
    else if not s.compat20
    then (c, true)
    else if s.bug_exteof && c.extended_write && c.efd_open && ltb 0 (len c.extended)
    then (c, false)
    else if c.local
    then (c, true)
    else if not c.close_sent
    then if do_send
      then close_exchanged (send_close2 c)
      else if c.close_rcvd
      then (c, true)
      else close_exchanged c
    else close_exchanged c

unfoldable pub force_input : Istate → Session → Channel → Channel
force_input input_open s c =
    let c' = set_istate input_wait_drain c in if len c.input == 0 then ibuf_empty s c' else c'
force_input _ s c = c

-- `channel_input_ieof` of ssh/channels.c, once it has found the channel.
unfoldable pub input_ieof : Session → Channel → Channel
input_ieof s c = let c' = rcvd_ieof s c in if c'.force_drain then force_input c'.istate s c' else c'
