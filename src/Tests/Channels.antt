-- ===== src/Tests/Channels.antt =====
-- The channel's theorems at concrete runs.
use libopenssh.Base.{refl, true, false, []}
use libopenssh.Channel.{Session, Channel, open_channel, input_open, output_open}
use libopenssh.Nchan.{rcvd_oclose, obuf_empty, is_dead}
use libopenssh.Nchan.Protocol2.{IsConsistent}
use libopenssh.Nchan.Order.{Advances}
use libopenssh.Nchan.Steps.{
  Reach, here, next, close_arrives, output_empties, is_tested, IsNew, Reach-IsConsistent,
  Reach-Advances,
}
use libopenssh.Tests.{libc, empty_buffer}

abbrev pub protocol2 : Session
protocol2 = record { compat20 = true; bug_exteof = false; new_openssh = true; memory = libc }

abbrev pub new_one : Channel
new_one = record {
  type = open_channel;
  istate = input_open;
  ostate = output_open;
  close_sent = false;
  close_rcvd = false;
  eof_sent = false;
  eof_rcvd = false;
  local = false;
  rfd_open = true;
  wfd_open = true;
  efd_open = false;
  sock_open = false;
  force_drain = false;
  is_session = true;
  extended_write = false;
  input = empty_buffer;
  output = empty_buffer;
  extended = empty_buffer;
  events = [];
}

-- The peer's CLOSE arrives, the output drains and the channel is tested.
abbrev drained : Channel
drained = obuf_empty protocol2 (rcvd_oclose protocol2 new_one)

abbrev last : Channel
last = (is_dead protocol2 true drained).0

closing : Reach protocol2 new_one last
closing = next (next (next here close_arrives) output_empties) (is_tested true)

new_one-IsNew : IsNew new_one
new_one-IsNew = record {
  istate_open = refl;
  ostate_open = refl;
  close_not_sent = refl;
  eof_not_sent = refl;
  nothing_sent = refl;
}

Reach-IsConsistent_example : IsConsistent last
Reach-IsConsistent_example = Reach-IsConsistent refl new_one-IsNew closing

Reach-Advances_example : Advances new_one last
Reach-Advances_example = Reach-Advances closing
