-- ===== src/Flow.antt =====
-- ssh/channels.c: the data of a channel and its windows. `compat13` is the global of this name;
-- `returned`, `ended` and `faulted` are a return, the end of the process by fatal() or a disconnect,
-- and undefined behaviour. The log of packets sent has the newest first. There is one connection, so
-- that a channel of the table always belongs to it.
pub mod Write
pub mod Accounts
pub mod Runs
pub mod Send
pub mod Credit
pub mod Packets
use libopenssh.Base.{
  ℕ, ◌+◌, ◌-◌, ◌*◌, ◌/◌, ◌%◌, ◌^◌, Bool, true, false, not, ◌&&◌, ◌||◌, Option, none, some, List,
  ◌∷◌, Bytes, take, ◌==◌, ltb, if◌then◌else◌,
}
use libopenssh.Err.{Result, ok, err, fault}
use libopenssh.Sshbuf.{Sshbuf, len}
use libopenssh.Getput.{get_u32, get_string_direct, get_string, put, put_string}
use libopenssh.Channel.{
  Session, Channel, ChannelType, x11_open, larval, connecting, dynamic, opening, open_channel,
  input_draining, output_draining, abandoned, Ostate, output_open,
}

pub data Outcome (A : Type 0) : Type 0 where
  returned : A → Outcome A
  ended faulted : Outcome A

pub data Packet : Type 0 where
  window_adjust : ℕ → Packet
  channel_data : Bytes → Packet
  extended_data : Bytes → Packet

-- The fields of `struct Channel` that the data needs, besides those of the state machines;
-- `extended_read` says whether `extended_usage` is CHAN_EXTENDED_READ.
pub record Flow : Type 0 where
  pub chan : Channel
  pub local_window : ℕ
  pub local_window_max : ℕ
  pub local_consumed : ℕ
  pub local_maxpacket : ℕ
  pub remote_window : ℕ
  pub remote_maxpacket : ℕ
  pub datagram : Bool
  pub extended_read : Bool
  pub packets : List Packet

-- An unsigned int, and the difference of two.
abbrev pub u_int : ℕ → ℕ
u_int n = n % 2 ^ 32

abbrev pub u_diff : ℕ → ℕ → ℕ
u_diff a b = u_int (a + 2 ^ 32 - b)

-- The table of channels: a number that is out of range or free has none.
abbrev pub Channels : Type 0
Channels = ℕ → Option Flow

abbrev pub is_public : ChannelType → Bool
is_public x11_open = true
is_public larval = true
is_public connecting = true
is_public dynamic = true
is_public opening = true
is_public open_channel = true
is_public input_draining = true
is_public output_draining = true
is_public abandoned = true
is_public _ = false

unfoldable pub lookup : ℕ → Channels → Option Flow
lookup id chs = elim (chs id) [
  | none ↦ none
  | some f ↦ if is_public f.chan.type then some f else none
]

abbrev pub set_flow : ℕ → Channels → Flow → Channels
set_flow id chs f = λ j. if j == id then some f else chs j

-- A step of reading a packet: `wrong` is what a malformed one leads to.
abbrev pub reads :
    {A B : Type 0} → Sshbuf × Result A → Outcome B → (A → Sshbuf → Outcome B) → Outcome B
reads (p, ok a) wrong next = next a p
reads (p, err _) wrong next = wrong
reads (p, fault) wrong next = faulted

abbrev pub then_set : ℕ → Channels → Outcome Flow → Outcome Channels
then_set id chs (returned f) = returned (set_flow id chs f)
then_set id chs ended = ended
then_set id chs faulted = faulted

-- What a write to a buffer of the channel leads to; an error is CHANNEL_BUFFER_ERROR.
abbrev pub stored : Sshbuf × Result (Unit {0}) → (Sshbuf → Flow) → Outcome Flow
stored (b, ok _) f = returned (f b)
stored (b, err _) f = ended
stored (b, fault) f = faulted

-- sshpkt_get_end, with CHANNEL_PACKET_ERROR
abbrev pub at_end_of : Sshbuf → Outcome Flow → Outcome Flow
at_end_of p (returned f) = if ltb 0 (len p) then ended else returned f
at_end_of p ended = ended
at_end_of p faulted = faulted

abbrev pub is_data_type : ChannelType → Bool
is_data_type open_channel = true
is_data_type x11_open = true
is_data_type _ = false

abbrev pub is_open_type : ChannelType → Bool
is_open_type open_channel = true
is_open_type _ = false

abbrev pub is_output_open : Ostate → Bool
is_output_open output_open = true
is_output_open _ = false

-- `win_len` for data of `n` bytes.
unfoldable pub win_len : ℕ → Flow → ℕ
win_len n f = if f.datagram then u_int (u_int n + 4) else u_int n

-- Data that is not kept counts as consumed.
abbrev pub ignored : ℕ → Flow → Flow
ignored n f = record f {
  local_window = u_diff f.local_window n;
  local_consumed = u_int (f.local_consumed + n);
}

unfoldable pub keep_data : Session → Bytes → Flow → Outcome Flow
keep_data s v f =
    stored
      (if f.datagram then put_string s.memory v f.chan.output else put s.memory v f.chan.output)
      (λ b. record f { chan = record f.chan { output = b } })

-- `channel_input_data` behind the type test: `v` is the data, `p` what is left of the packet.
unfoldable pub deliver : Bool → Session → Bytes → ℕ → Sshbuf → Flow → Outcome Flow
deliver compat13 s v n p f =
    if not compat13 && not (is_output_open f.chan.ostate)
    then returned (if s.compat20 then ignored (win_len n f) f else f)
    else if s.compat20 && ltb f.local_window (win_len n f)
    then returned f
    else at_end_of p (
        keep_data s v
          (if s.compat20 then record f { local_window = f.local_window - win_len n f } else f))

-- The packet behind the channel's number.
unfoldable pub data_for : Bool → Session → ℕ → Sshbuf → Channels → Outcome Channels
data_for compat13 s id p chs = elim (lookup id chs) [
  | none ↦ ended
  | some f ↦
      if not (is_data_type f.chan.type)
      then returned chs
      else reads (get_string_direct p) ended
          λ d p'. then_set id chs (deliver compat13 s (take d.1 d.0) d.1 p' f)
]

unfoldable pub input_data : Bool → Session → Sshbuf → Channels → Outcome Channels
input_data compat13 s packet chs =
    reads (get_u32 packet) faulted λ id p. data_for compat13 s id p chs

-- SSH2_EXTENDED_DATA_STDERR
abbrev pub stderr_code : ℕ
stderr_code = 1

-- `channel_input_extended_data` on a channel that is found; `v` is the data.
unfoldable pub deliver_extended : Session → ℕ → Bytes → ℕ → Flow → Outcome Flow
deliver_extended s tcode v n f =
    if not (is_open_type f.chan.type)
    then returned f
    else if f.chan.eof_rcvd && not s.bug_exteof
    then ended
    else if not f.chan.efd_open || not f.chan.extended_write || not (tcode == stderr_code)
    then returned f
    else if ltb f.local_window n
    then returned f
    else stored (put s.memory v f.chan.extended)
        λ b. record f { local_window = f.local_window - n; chan = record f.chan { extended = b } }

-- The whole packet is read before the channel is looked up; `granted` says whether the copy of its
-- string is allocated.
unfoldable pub input_extended_data : Session → Bool → Sshbuf → Channels → Outcome Channels
input_extended_data s granted packet chs = reads (get_u32 packet) faulted λ id p.
    reads (get_u32 p) faulted λ tcode p. reads (get_string granted p) faulted λ d p.
      if ltb 0 (len p) then faulted else elim (lookup id chs) [
        | none ↦ ended
        | some f ↦ then_set id chs (deliver_extended s tcode (take d.1 d.0) d.1 f)
      ]

unfoldable pub input_window_adjust : Session → Sshbuf → Channels → Outcome Channels
input_window_adjust s packet chs =
    if not s.compat20
    then returned chs
    else reads (get_u32 packet) faulted λ id p. reads (get_u32 p) faulted λ adjust p.
      if ltb 0 (len p) then faulted else elim (lookup id chs) [
        | none ↦ returned chs
        | some f ↦
            returned
              (set_flow id chs (record f { remote_window = u_int (f.remote_window + adjust) }))
      ]

-- The test of `channel_check_window`.
unfoldable pub wants_adjust : Flow → Bool
wants_adjust f =
    is_open_type f.chan.type
    && not (f.chan.close_sent || f.chan.close_rcvd)
    && (ltb (u_int (f.local_maxpacket * 3)) (u_diff f.local_window_max f.local_window)
        || ltb f.local_window (f.local_window_max / 2))
    && ltb 0 f.local_consumed

unfoldable pub check_window : Flow → Flow
check_window f =
    if wants_adjust f
    then record f {
      local_window = u_int (f.local_window + f.local_consumed);
      local_consumed = 0;
      packets = window_adjust f.local_consumed ∷ f.packets;
    }
    else f
