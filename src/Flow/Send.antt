-- ===== src/Flow/Send.antt =====
-- One round of `channel_output_poll` of ssh/channels.c: what is sent to the peer of a channel.
use libopenssh.Base.{
  ℕ, ◌+◌, ◌/◌, Bool, true, false, not, ◌&&◌, ◌||◌, none, some, ◌∷◌, Bytes, take, length, ltb,
  if◌then◌else◌,
}
use libopenssh.Err.{Result, ok, err, fault}
use libopenssh.Sshbuf.{Sshbuf, len, ptr, consume}
use libopenssh.Getput.{get_string}
use libopenssh.Channel.{Session, ChannelType, input_draining, Istate, input_open, input_wait_drain}
use libopenssh.Nchan.{ibuf_empty}
use libopenssh.Flow.{
  Outcome, returned, ended, faulted, Flow, channel_data, extended_data, u_diff, is_open_type,
  stored,
}

-- The smaller of two numbers, as `if (len > bound) len = bound` has it.
abbrev pub at_most : ℕ → ℕ → ℕ
at_most bound n = if ltb bound n then bound else n

-- A packet with the first `n` bytes of the input buffer.
unfoldable pub send_data : ℕ → Flow → Outcome Flow
send_data n f = elim (ptr f.chan.input) [
  | none ↦ faulted
  | some p ↦
      if ltb (length p) n
      then faulted
      else stored (consume n f.chan.input) λ b. record f {
        chan = record f.chan { input = b };
        remote_window = u_diff f.remote_window n;
        packets = channel_data (take n p) ∷ f.packets;
      }
]

unfoldable pub send_extended : ℕ → Flow → Outcome Flow
send_extended n f = elim (ptr f.chan.extended) [
  | none ↦ faulted
  | some p ↦
      if ltb (length p) n
      then faulted
      else stored (consume n f.chan.extended) λ b. record f {
        chan = record f.chan { extended = b };
        remote_window = u_diff f.remote_window n;
        packets = extended_data (take n p) ∷ f.packets;
      }
]

-- A datagram is taken off the buffer, and dropped if it is too big.
unfoldable pub send_datagram : Sshbuf × Result (Bytes × ℕ) → Flow → Outcome Flow
send_datagram (b, err _) f = ended
send_datagram (b, fault) f = faulted
send_datagram (b, ok (v, n)) f =
    let taken = record f { chan = record f.chan { input = b } } in
    if ltb f.remote_window n || ltb f.remote_maxpacket n
    then returned taken
    else returned (record taken {
      remote_window = u_diff f.remote_window (n + 4);
      packets = channel_data (take n v) ∷ f.packets;
    })

-- How much of the input buffer goes into a packet. `interactive` and `maxsize` are the connection's.
unfoldable pub chunk : Session → Bool → ℕ → Flow → ℕ
chunk s interactive maxsize f =
    if s.compat20
    then at_most f.remote_maxpacket (at_most f.remote_window (len f.chan.input))
    else if interactive
    then if ltb 1024 (len f.chan.input) then 512 else len f.chan.input
    else at_most (maxsize / 2) (len f.chan.input)

abbrev pub reads_input : Istate → Bool
reads_input input_open = true
reads_input input_wait_drain = true
reads_input _ = false

abbrev pub is_wait_drain : Istate → Bool
is_wait_drain input_wait_drain = true
is_wait_drain _ = false

abbrev pub is_draining : ChannelType → Bool
is_draining input_draining = true
is_draining _ = false

-- CHANNEL_EFD_INPUT_ACTIVE
unfoldable pub efd_input_active : Session → Flow → Bool
efd_input_active s f =
    s.compat20 && f.extended_read && (f.chan.efd_open || ltb 0 (len f.chan.extended))

-- The last part: extended data.
unfoldable pub poll_extended : Session → Flow → Outcome Flow
poll_extended s f =
    if s.compat20
      && not f.chan.eof_sent
      && ltb 0 f.remote_window
      && ltb 0 (len f.chan.extended)
      && f.extended_read
    then send_extended (at_most f.remote_maxpacket (at_most f.remote_window (len f.chan.extended)))
        f
    else returned f

abbrev pub and_extended : Session → Outcome Flow → Outcome Flow
and_extended s (returned f) = poll_extended s f
and_extended s ended = ended
and_extended s faulted = faulted

-- The input of a stream, or its end.
unfoldable pub poll_input : Bool → Session → Bool → ℕ → Flow → Outcome Flow
poll_input compat13 s interactive maxsize f =
    if reads_input f.chan.istate && ltb 0 (len f.chan.input)
    then if ltb 0 (chunk s interactive maxsize f)
      then send_data (chunk s interactive maxsize f) f
      else returned f
    else if is_wait_drain f.chan.istate
    then if compat13
      then ended
      else if efd_input_active s f
      then returned f
      else returned (record f { chan = ibuf_empty s f.chan })
    else returned f

-- The body of the loop, for a channel in the table.
unfoldable pub output_poll : Bool → Session → Bool → ℕ → Bool → Flow → Outcome Flow
output_poll compat13 s interactive maxsize granted f =
    if not (is_open_type f.chan.type || compat13 && is_draining f.chan.type)
    then returned f
    else if s.compat20 && (f.chan.close_sent || f.chan.close_rcvd)
    then returned f
    else if reads_input f.chan.istate && ltb 0 (len f.chan.input) && f.datagram
    then send_datagram (get_string granted f.chan.input) f
    else and_extended s (poll_input compat13 s interactive maxsize f)
