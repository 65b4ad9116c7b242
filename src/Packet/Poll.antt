-- ===== src/Packet/Poll.antt =====
-- ssh_packet_read_poll2: a packet is taken off the input, if all of it is there.
use libopenssh.Base.{
  ℕ, ◌+◌, ◌-◌, ◌/◌, ◌%◌, ◌^◌, Bool, true, false, not, ◌&&◌, ◌||◌, Option, none, some, Bytes, [],
  ◌∷◌, ◌++◌, length, take, drop, get_elem?, ltb, leb, ◌==◌, if◌then◌else◌,
}
use libopenssh.Err.{
  Result, ok, err, fault, need_rekey, message_incomplete, internal_error, disconnected, and_then,
}
use libopenssh.Libc.{read}
use libopenssh.Match.{same_name}
use libopenssh.Getput.{u32_of}
use libopenssh.Dispatch.{msg_newkeys}
use libopenssh.Packet.{
  Keys, SessionState, Env, packet_max_size, msg_userauth_success, uses_mac, authlen_of,
  block_size_of, aadlen_of, compresses, reserved, put_in, u32_add, u32_sub,
}
use libopenssh.Packet.Send.{mac_if, mac_plain, mac_etm, mac_on, pass}

abbrev pub maclen_of : Option Keys → ℕ
maclen_of none = 0
maclen_of (some k) = if uses_mac k then k.mac_len else 0

abbrev pub bad_length : ℕ → Bool
bad_length packlen = ltb packlen 5 || ltb packet_max_size packlen

-- The bytes behind the part of the packet that has been decrypted.
unfoldable pub need_of : Option Keys → ℕ → ℕ
need_of keys packlen =
    if aadlen_of keys == 0 then u32_sub (u32_add 4 packlen) (block_size_of keys) else packlen

-- All that must have come.
unfoldable pub total_of : Option Keys → ℕ → ℕ
total_of keys need =
    u32_add (u32_add (u32_add (aadlen_of keys) need) (authlen_of keys)) (maclen_of keys)

-- Go on if the answer is `true`; `false` is a return of 0, with no packet.
abbrev pub on_go : {S : Type 0} → S × Result Bool → (S → S × Result ℕ) → S × Result ℕ
on_go (s, ok true) f = f s
on_go (s, ok false) f = (s, ok 0)
on_go (s, err e) f = (s, err e)
on_go (s, fault) f = (s, fault)

-- A call of ssh_packet_start_discard, whose result is returned.
abbrev pub stopped : {S A : Type 0} → A → S × Result (Unit {0}) → S × Result A
stopped a (s, ok u) = (s, ok a)
stopped a (s, err e) = (s, err e)
stopped a (s, fault) = (s, fault)

-- The MAC over the encrypted bytes, or nothing. mac_compute takes their number as an int, which only
-- numbers from 2 ^ 31 on do not fit, beyond what a buffer may hold: here they are read as they are.
unfoldable pub etm_mac : Option Keys → ℕ → Bytes → ℕ → Result Bytes
etm_mac keys seqnr input whole =
    if mac_etm keys
    then (elim (read (some input) whole) [
      | ok text ↦ mac_if true keys seqnr text
      | err e ↦ err e
      | fault ↦ fault
    ])
    else ok []

-- The state is reset for the next packet, whatever the result.
abbrev pub finished :
    {C : Type 0} → ℕ → SessionState C × Result (Unit {0}) → SessionState C × Result ℕ
finished type (s, ok u) = (record s { packlen = 0 }, ok type)
finished type (s, err e) = (record s { packlen = 0 }, err e)
finished type (s, fault) = (s, fault)

module _ {C : Type 0} (env : Env C) where
  -- The length in front of an encrypted packet.
  unfoldable pub clear_length : SessionState C → SessionState C × Result Bool
  clear_length st =
      if ltb (length st.input) 4
      then (st, ok false)
      else if bad_length (u32_of st.input)
      then and_then (env.sshpkt_disconnect (record st { packlen = u32_of st.input }))
          (λ u s. (record s { incoming_packet = [] }, ok true))
      else (record st { packlen = u32_of st.input; incoming_packet = [] }, ok true)

  -- The first block is decrypted.
  unfoldable pub first_block : SessionState C → SessionState C × Result Bool
  first_block st =
      let block_size = block_size_of st.newkeys_in in
      if ltb (length st.input) block_size
      then (st, ok false)
      else let (context, r) =
          env.crypt st.receive_context (take block_size st.input) block_size 0 0 in
        pass (record st { incoming_packet = [] }) (put_in env [] (take block_size st.input))
          λ v.
            pass (record st { receive_context = context; incoming_packet = [] }) r
              λ block.
                let st' = record st {
                  receive_context = context;
                  incoming_packet = block;
                  packlen = u32_of block;
                } in
                if bad_length (u32_of block)
                then stopped false
                    (env.start_discard st.newkeys_in (u32_of block) packet_max_size st')
                else (record st' { input = drop block_size st.input }, ok true)

  unfoldable pub read_length : SessionState C → SessionState C × Result Bool
  read_length st =
      if not (st.packlen == 0)
      then (st, ok true)
      else if aadlen_of st.newkeys_in == 0
      then first_block st
      else clear_length st

  -- The MAC behind the packet.
  unfoldable pub check_mac : ℕ → Bytes → SessionState C → SessionState C × Result Bool
  check_mac need mac st =
      let keys = st.newkeys_in in
      if not (mac_on keys)
      then (st, ok true)
      else pass st (read (some st.input) (maclen_of keys)) λ given.
        if not (same_name (take (maclen_of keys) mac) given)
        then (if ltb packet_max_size need
            then (st, err internal_error)
            else stopped false (env.start_discard keys st.packlen (packet_max_size - need) st))
        else (record st { input = drop (maclen_of keys) st.input }, ok true)

  -- The rest of the packet, once all of it is there.
  unfoldable pub read_body : ℕ → SessionState C → SessionState C × Result Bool
  read_body need st =
      let keys = st.newkeys_in in
      let aadlen = aadlen_of keys in
      let whole = u32_add aadlen need in
      let source = u32_add whole (authlen_of keys) in
      pass st (etm_mac keys st.p_read.seqnr st.input whole) λ mac.
        pass st (reserved env (length st.incoming_packet + whole)) λ u.
          pass st (read (some st.input) source) λ v'.
            let (context, r) = env.crypt st.receive_context v' need aadlen (authlen_of keys) in
            let st' = record st { receive_context = context } in
            pass st' r λ clear.
              let st'' = record st' {
                incoming_packet = st.incoming_packet ++ clear;
                input = drop source st.input;
              } in
              pass st'' (mac_if (mac_plain keys) keys st.p_read.seqnr st''.incoming_packet)
                λ mac'. check_mac need (mac ++ mac') st''

  -- The packet's number; `false` never.
  unfoldable pub counted : SessionState C → SessionState C × Result Bool
  counted st =
      let seqnr = u32_add st.p_read.seqnr 1 in
      let packets = u32_add st.p_read.packets 1 in
      let numbers = record st.p_read { seqnr = seqnr; packets = packets } in
      let len = u32_add st.packlen 4 in
      if packets == 0 && not st.no_rekey_bug
      then (record st { p_read = numbers }, err need_rekey)
      else (
        record st {
          p_read = record numbers {
            blocks = (st.p_read.blocks + len / block_size_of st.newkeys_in) % 2 ^ 64;
            bytes = (st.p_read.bytes + len) % 2 ^ 64;
          };
        },
        ok true,
      )

  -- Without header, padding and compression. ssh_packet_disconnect ends the process.
  unfoldable pub payload_of : SessionState C → Bytes → ℕ → Result Bytes
  payload_of st p padlen =
      if ltb padlen 4
      then err disconnected
      else if ltb (length p) 5 || ltb (length p - 5) padlen
      then err message_incomplete
      else (let payload = take (length p - 5 - padlen) (drop 5 p) in
          if compresses st.newkeys_in then env.uncompress_buffer payload else ok payload)

  -- The type, and what it asks for.
  unfoldable pub taken_type : Bytes → SessionState C → SessionState C × Result ℕ
  taken_type [] st = (record st { incoming_packet = [] }, err message_incomplete)
  taken_type (c ∷ payload) st =
      let type = c % 256 in
      let st' = record st { incoming_packet = payload } in
      if ltb type 1 || leb 192 type
      then (st', err disconnected)
      else finished type (
          if type == msg_newkeys
          then env.set_newkeys_in st'
          else if type == msg_userauth_success && not st.server_side
          then env.enable_delayed_compress st'
          else (st', ok tt))

  unfoldable pub opened : SessionState C → SessionState C × Result ℕ
  opened st = elim (get_elem? st.incoming_packet 4) [
    | none ↦ (st, fault)
    | some c ↦ pass st (payload_of st st.incoming_packet (c % 256)) λ payload. taken_type payload st
  ]

  -- What is done once the length is known.
  unfoldable pub read_rest : SessionState C → SessionState C × Result ℕ
  read_rest st =
      let keys = st.newkeys_in in
      let need = need_of keys st.packlen in
      if not (need % block_size_of keys == 0)
      then stopped 0 (env.start_discard keys st.packlen (packet_max_size - block_size_of keys) st)
      else if ltb (length st.input) (total_of keys need)
      then (st, ok 0)
      else on_go (read_body need st) λ s. on_go (counted s) opened

  unfoldable pub read_poll2 : SessionState C → SessionState C × Result ℕ
  read_poll2 st =
      if not (st.packet_discard == 0) then (st, ok 0) else on_go (read_length st) read_rest
