-- ===== src/Channel.antt =====
-- The channels of ssh/channels.h as ssh/nchan.c uses them, and what its handlers send and shut down.
-- This is logged in `events`, the newest first; `report` is a call of error(). A packet that cannot be
-- built or sent ends the process by fatal(), so that a function that returns has sent it. The range
-- tests of chan_set_istate and chan_set_ostate hold by the types.
use libopenssh.Base.{Bool, true, false, not, ◌&&◌, ◌||◌, List, ◌∷◌, ltb, if◌then◌else◌}
use libopenssh.Libc.{Allocator}
use libopenssh.Sshbuf.{Sshbuf, len, reset}

pub data Istate : Type 0 where
  input_open input_wait_drain input_wait_oclose input_closed : Istate

pub data Ostate : Type 0 where
  output_open output_wait_drain output_wait_ieof output_closed : Ostate

-- SSH_CHANNEL_*
pub data ChannelType : Type 0 where
  x11_listener port_listener opening open_channel closed auth_socket x11_open : ChannelType
  input_draining output_draining larval rport_listener connecting dynamic zombie : ChannelType
  mux_listener mux_client abandoned : ChannelType

pub data Event : Type 0 where
  sent_ieof sent_oclose sent_eof sent_close sent_eow : Event
  shut_read shut_write report : Event

-- The connection: the protocol version, the peer's features and the allocator.
pub record Session : Type 0 where
  pub compat20 : Bool
  pub bug_exteof : Bool
  pub new_openssh : Bool
  pub memory : Allocator

-- The fields of `struct Channel` that nchan.c uses. A descriptor is open or -1; `is_session` says
-- whether `ctype` is "session", `extended_write` whether `extended_usage` is CHAN_EXTENDED_WRITE.
pub record Channel : Type 0 where
  pub type : ChannelType
  pub istate : Istate
  pub ostate : Ostate
  pub close_sent : Bool
  pub close_rcvd : Bool
  pub eof_sent : Bool
  pub eof_rcvd : Bool
  pub local : Bool
  pub rfd_open : Bool
  pub wfd_open : Bool
  pub efd_open : Bool
  pub sock_open : Bool
  pub force_drain : Bool
  pub is_session : Bool
  pub extended_write : Bool
  pub input : Sshbuf
  pub output : Sshbuf
  pub extended : Sshbuf
  pub events : List Event

unfoldable pub is_larval : ChannelType → Bool
is_larval larval = true
is_larval _ = false

unfoldable pub is_zombie : ChannelType → Bool
is_zombie zombie = true
is_zombie _ = false

abbrev pub input_is_closed : Istate → Bool
input_is_closed input_closed = true
input_is_closed _ = false

abbrev pub output_is_closed : Ostate → Bool
output_is_closed output_closed = true
output_is_closed _ = false

abbrev pub log : Event → Channel → Channel
log e c = record c { events = e ∷ c.events }

abbrev pub set_istate : Istate → Channel → Channel
set_istate next c = record c { istate = next }

abbrev pub set_ostate : Ostate → Channel → Channel
set_ostate next c = record c { ostate = next }

-- CHANNEL_EFD_OUTPUT_ACTIVE
unfoldable pub efd_output_active : Session → Channel → Bool
efd_output_active s c =
    s.compat20
    && c.extended_write
    && c.efd_open
    && (not (c.eof_rcvd || c.close_rcvd) || ltb 0 (len c.extended))

-- With a socket its half is shut down, otherwise the descriptor is closed.
abbrev pub stop_write : Channel → Channel
stop_write c =
    if c.sock_open then log shut_write c else log shut_write (record c { wfd_open = false })

unfoldable pub shutdown_write : Session → Channel → Channel
shutdown_write s c =
    let c' = record c { output = reset s.memory c.output } in
    if s.compat20 && is_larval c.type then c' else stop_write c'

abbrev pub stop_read : Channel → Channel
stop_read c = if c.sock_open then log shut_read c else log shut_read (record c { rfd_open = false })

unfoldable pub shutdown_read : Session → Channel → Channel
shutdown_read s c = if s.compat20 && is_larval c.type then c else stop_read c

abbrev send_ieof1_in : Istate → Channel → Channel
send_ieof1_in input_open c = log sent_ieof c
send_ieof1_in input_wait_drain c = log sent_ieof c
send_ieof1_in _ c = log report c

unfoldable pub send_ieof1 : Channel → Channel
send_ieof1 c = send_ieof1_in c.istate c

abbrev send_oclose1_in : Ostate → Session → Channel → Channel
send_oclose1_in output_open s c = log sent_oclose (record c { output = reset s.memory c.output })
send_oclose1_in output_wait_drain s c =
    log sent_oclose (record c { output = reset s.memory c.output })
send_oclose1_in _ s c = log report c

unfoldable pub send_oclose1 : Session → Channel → Channel
send_oclose1 s c = send_oclose1_in c.ostate s c

abbrev send_eof2_in : Istate → Channel → Channel
send_eof2_in input_wait_drain c = log sent_eof (record c { eof_sent = true })
send_eof2_in _ c = log report c

unfoldable pub send_eof2 : Channel → Channel
send_eof2 c = send_eof2_in c.istate c

unfoldable pub send_close2 : Channel → Channel
send_close2 c =
    if not (output_is_closed c.ostate) || not (input_is_closed c.istate)
    then log report c
    else if c.close_sent
    then log report c
    else log sent_close (record c { close_sent = true })

unfoldable pub send_eow2 : Session → Channel → Channel
send_eow2 s c =
    if output_is_closed c.ostate
    then log report c
    else if not s.new_openssh
    then c
    else log sent_eow c
