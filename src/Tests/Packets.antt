-- ===== src/Tests/Packets.antt =====
-- The theorems on packets at concrete states, with ciphers that change nothing.
use libopenssh.Base.{
  ℕ, leb, ◌+◌, ◌%◌, ◌≤◌, ◌<◌, ◌≡◌, refl, arith, true, false, none, some, Bytes, [], ◌∷◌, ◌++◌, take,
  replicate,
}
use libopenssh.Err.{ok, fault}
use libopenssh.Getput.{u32_of}
use libopenssh.Packet.{Keys, PacketState, SessionState, Env}
use libopenssh.Packet.Send.{rounded_up, padlen_of}
use libopenssh.Packet.Padding.{padlen_of-Aligned}
use libopenssh.Packet.Poll.{read_poll2}
use libopenssh.Packet.Rekeying.{send2_all, wrapped_all, on_wire, waiting, send2_all-wrapped_all}
use libopenssh.Packet.Overflow.{read_poll2-overflow}

padlen_of-Aligned_example :
    (p : ℕ) × (padlen_of 16 60 42 ≡ ok p)
    × (4 ≤ p)
    × (p < 256)
    × ((42 + p) % 16 ≡ 0)
    × (1 ≤ 60 → (42 + p) % rounded_up 60 16 ≡ 0)
padlen_of-Aligned_example = padlen_of-Aligned 16 60 42 (omega arith) (omega arith) (omega arith)

abbrev env : Env (Unit {0})
env = record {
  crypt = λ c v n aad auth. (c, ok (take n v));
  room = λ n. leb n 1000;
  arc4random_buf = λ n. replicate n 7;
  compress_buffer = λ v. ok v;
  uncompress_buffer = λ v. ok v;
  sshpkt_disconnect = λ st. (st, ok tt);
  start_discard = λ keys len discard st. (st, ok tt);
  set_newkeys_in = λ st. (st, ok tt);
  set_newkeys_out = λ st. (st, ok tt);
  enable_delayed_compress = λ st. (st, ok tt);
}

abbrev no_packets : PacketState
no_packets = record { seqnr = 0; packets = 0; blocks = 0; bytes = 0 }

abbrev fresh : SessionState (Unit {0})
fresh = record {
  send_context = tt;
  receive_context = tt;
  plaintext = true;
  input = [];
  output = [];
  outgoing_packet = [];
  incoming_packet = [];
  newkeys_in = none;
  newkeys_out = none;
  p_read = no_packets;
  p_send = no_packets;
  extra_pad = 0;
  packet_discard = 0;
  packlen = 0;
  server_side = false;
  no_rekey_bug = false;
}

abbrev header : Bytes
header = replicate 5 0

abbrev payload : Bytes
payload = 1 ∷ 2 ∷ 3 ∷ []

-- A MAC of 16 bytes over the encrypted packet.
abbrev keys : Keys
keys = record {
  block_size = 16;
  authlen = 0;
  mac_enabled = true;
  etm = true;
  mac_len = 16;
  mac_compute = λ seqnr v. ok (replicate 16 0);
  comp_enabled = false;
}

-- The length 0xfffffff0, and a MAC's first bytes.
abbrev flooded : SessionState (Unit {0})
flooded = record fresh { newkeys_in = some keys; input = 255 ∷ 255 ∷ 255 ∷ 240 ∷ 0 ∷ 0 ∷ [] }

read_poll2-overflow_example : (read_poll2 env flooded).1 ≡ fault
unfolding u32_of
read_poll2-overflow_example =
    read_poll2-overflow env flooded (record flooded { packlen = 4294967280 }) keys refl refl refl
      (refl, refl, refl) (omega arith) refl (omega arith) (omega arith) (omega arith) (omega arith)
      (omega arith) refl refl refl refl

-- A packet with only a type.
abbrev bare : ℕ → Bytes
bare type = header ++ (type ∷ [])

send2_all-wrapped_all_example :
    on_wire env
      (send2_all env (bare 94 ∷ bare 98 ∷ bare 21 ∷ []) (waiting env fresh (bare 90 ∷ [])))
    ≡ wrapped_all env (bare 21 ∷ bare 90 ∷ bare 94 ∷ bare 98 ∷ []) fresh
send2_all-wrapped_all_example =
    send2_all-wrapped_all env fresh (bare 90 ∷ []) (bare 94 ∷ bare 98 ∷ []) (bare 21)
      (refl, (refl, tt)) refl
