-- ===== src/Packet/Received.antt =====
-- Before the first keys: the packet that was sent is taken off the input again.
use libopenssh.Base.{ℕ, none, Bytes}
use libopenssh.Packet.{SessionState}

-- A state before the first keys are set, that has read a part of a packet.
abbrev pub reading : {C : Type 0} → SessionState C → Bytes → Bytes → ℕ → SessionState C
reading st input incoming packlen = record st {
  newkeys_in = none;
  packet_discard = 0;
  packlen = packlen;
  input = input;
  incoming_packet = incoming;
}
