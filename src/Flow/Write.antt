-- ===== src/Flow/Write.antt =====
-- Writing what the peer sent: `channel_handle_wfd`, and the writing half of `channel_handle_efd`, of
-- ssh/channels.c, for a channel without an output filter. The packet that hides the echo of a
-- terminal changes no field and is left out.
use libopenssh.Base.{ℕ, ◌+◌, ◌-◌, Bool, false, not, ◌&&◌, Bytes, ltb, if◌then◌else◌}
use libopenssh.Err.{Result, ok, err, fault}
use libopenssh.Sshbuf.{Sshbuf, len, reset, consume}
use libopenssh.Getput.{get_string}
use libopenssh.Channel.{Session, input_draining}
use libopenssh.Nchan.{write_failed, mark_dead}
use libopenssh.Flow.{Outcome, returned, ended, faulted, Flow, u_int, is_open_type, stored}

-- What write() returns: EINTR or EAGAIN, any other value that is not positive, or a count.
pub data Written : Type 0 where
  again failed : Written
  wrote : ℕ → Written

-- A write that failed.
unfoldable pub output_fails : Bool → Session → Flow → Flow
output_fails compat13 s f =
    if not (is_open_type f.chan.type)
    then record f { chan = mark_dead f.chan }
    else if compat13 && not f.datagram
    then record f {
      chan = record f.chan { output = reset s.memory f.chan.output; type = input_draining };
    }
    else record f { chan = write_failed s f.chan }

abbrev pub with_output : Flow → Sshbuf → Flow
with_output f b = record f { chan = record f.chan { output = b } }

-- The end of `channel_handle_wfd`: what has left the buffer is consumed.
unfoldable pub note_consumed : Session → ℕ → Flow → Flow
note_consumed s olen f =
    if s.compat20
    then record f { local_consumed = u_int (f.local_consumed + (olen - len f.chan.output)) }
    else f

-- A datagram is taken off before it is written.
unfoldable pub write_datagram :
    Bool → Session → ℕ → Written → Sshbuf × Result (Bytes × ℕ) → Flow → Outcome Flow
write_datagram compat13 s olen w (b, err _) f = ended
write_datagram compat13 s olen w (b, fault) f = faulted
write_datagram compat13 s olen again (b, ok d) f = returned (with_output f b)
write_datagram compat13 s olen failed (b, ok d) f =
    returned (output_fails compat13 s (with_output f b))
write_datagram compat13 s olen (wrote n) (b, ok d) f =
    returned (note_consumed s olen (with_output f b))

unfoldable pub write_stream : Bool → Session → Written → Flow → Outcome Flow
write_stream compat13 s again f = returned f
write_stream compat13 s failed f = returned (output_fails compat13 s f)
write_stream compat13 s (wrote n) f =
    stored (consume n f.chan.output) λ b. note_consumed s (len f.chan.output) (with_output f b)

-- `ready`: the descriptor can be written; `granted`: the copy of a datagram is allocated.
unfoldable pub handle_wfd : Bool → Session → Bool → Bool → Written → Flow → Outcome Flow
handle_wfd compat13 s ready granted w f =
    if f.chan.wfd_open && ready && ltb 0 (len f.chan.output)
    then if f.datagram
      then write_datagram compat13 s (len f.chan.output) w (get_string granted f.chan.output) f
      else write_stream compat13 s w f
    else returned f

unfoldable pub write_extended : Written → Flow → Outcome Flow
write_extended again f = returned f
write_extended failed f = returned (record f { chan = record f.chan { efd_open = false } })
write_extended (wrote n) f = stored (consume n f.chan.extended) λ b. record f {
  chan = record f.chan { extended = b };
  local_consumed = u_int (f.local_consumed + n);
}

unfoldable pub handle_efd : Bool → Written → Flow → Outcome Flow
handle_efd ready w f =
    if f.chan.efd_open && f.chan.extended_write && ready && ltb 0 (len f.chan.extended)
    then write_extended w f
    else returned f
