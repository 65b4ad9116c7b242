-- ===== src/Tests/Flows.antt =====
-- The theorems on the data of channels at concrete channels and packets.
use libopenssh.Base.{◌≤◌, ◌≡◌, refl, true, false, arith, [], ◌∷◌, ◌++◌, length, none, replicate}
use libopenssh.Sshbuf.{Sshbuf, reserve, check_reserve, insane, grow, maybe_pack, claim, len, regrow}
use libopenssh.Sshbuf.Sanity.{WellFormed}
use libopenssh.Sshbuf.Content.{content}
use libopenssh.Getput.{u32_bytes, put, store}
use libopenssh.Getput.PutString.{framed}
use libopenssh.Channel.{output_closed}
use libopenssh.Flow.{
  returned, Flow, Channels, set_flow, deliver, deliver_extended, stderr_code, win_len, keep_data,
  check_window,
}
use libopenssh.Flow.Send.{output_poll}
use libopenssh.Flow.Accounts.{Accounts, total, buffered}
use libopenssh.Flow.Runs.{Run, here, next, data_arrives, window_checked, Run-Accounts}
use libopenssh.Flow.Credit.{Sendable, Sends, output_poll-Sends}
use libopenssh.Flow.Packets.{deliver_extended-deliver}
use libopenssh.Tests.{half_full, half_full-WellFormed, empty_buffer, empty_buffer-WellFormed}
use libopenssh.Tests.Channels.{protocol2, new_one}

-- A channel with four bytes of input to send, and a window of eight bytes.
abbrev busy : Flow
busy = record {
  chan = record new_one { input = half_full };
  local_window = 8;
  local_window_max = 8;
  local_consumed = 0;
  local_maxpacket = 4;
  remote_window = 3;
  remote_maxpacket = 2;
  datagram = false;
  extended_read = false;
  packets = [];
}

busy-Accounts : Accounts busy
unfolding content
busy-Accounts = record {
  output_ok = empty_buffer-WellFormed;
  extended_ok = empty_buffer-WellFormed;
  bounded = omega arith;
  window_fits = omega arith;
}

-- Three bytes arrive, and the window is looked at.
abbrev later : Flow
later = record busy {
  chan = record busy.chan {
    output = record empty_buffer { mem = 1 ∷ 2 ∷ 3 ∷ 1 ∷ 5 ∷ 0 ∷ 0 ∷ 0 ∷ []; size = 3 };
  };
  local_window = 5;
}

three_arrive : deliver false protocol2 (1 ∷ 2 ∷ 3 ∷ []) 3 empty_buffer busy ≡ returned later
unfolding deliver win_len keep_data put reserve check_reserve insane grow maybe_pack claim store len
three_arrive = refl

run : Run protocol2 busy (check_window later)
run = next (next here (data_arrives (1 ∷ 2 ∷ 3 ∷ []) empty_buffer three_arrive)) window_checked

Run-Accounts_example :
    Accounts (check_window later)
    × (total (check_window later) ≡ total busy)
    × (buffered (check_window later) ≤ 8)
Run-Accounts_example = Run-Accounts refl refl busy-Accounts run

busy-Sendable : Sendable busy
busy-Sendable = record {
  input_ok = half_full-WellFormed;
  extended_ok = empty_buffer-WellFormed;
  window_fits = omega arith;
}

output_poll-Sends_example :
    (g : Flow) × (output_poll false protocol2 false 32768 true busy ≡ returned g) × Sends busy g
output_poll-Sends_example =
    output_poll-Sends protocol2 false 32768 true busy refl refl busy-Sendable

-- The channel has the number 5.
abbrev table : Channels
table = set_flow 5 (λ j. none) busy

abbrev packet : Sshbuf
packet = record half_full {
  mem = u32_bytes 5 ++ (framed (1 ∷ 2 ∷ []) ++ []);
  off = 0;
  size = length (u32_bytes 5 ++ (framed (1 ∷ 2 ∷ []) ++ []));
  alloc = length (u32_bytes 5 ++ (framed (1 ∷ 2 ∷ []) ++ []));
}

packet-WellFormed : WellFormed packet
unfolding u32_bytes
packet-WellFormed = ground arith

-- The output is closed, and ten bytes arrive.
abbrev shut : Flow
shut = record busy {
  chan = record busy.chan { ostate = output_closed; efd_open = true; extended_write = true };
}

-- The buffer for extended data, with nine bytes.
abbrev nine : Sshbuf
nine = (put protocol2.memory (replicate 9 1) empty_buffer).0

deliver_extended-deliver_example :
    (deliver_extended protocol2 stderr_code (replicate 9 1) 9 shut ≡ returned shut)
    × (g h : Flow) × (deliver false protocol2 (replicate 10 7) 10 empty_buffer shut ≡ returned g)
    × (deliver_extended protocol2 stderr_code (replicate 9 1) 9 g ≡ returned h)
    × (content h.chan.extended ≡ content empty_buffer ++ replicate 9 1)
unfolding put reserve check_reserve insane grow maybe_pack claim store len win_len regrow
deliver_extended-deliver_example =
    deliver_extended-deliver protocol2 (replicate 10 7) (replicate 9 1) empty_buffer nine shut refl
      refl (refl, refl, refl, refl) empty_buffer-WellFormed (omega arith) (omega arith)
      (omega arith) refl
