-- ===== src/Packet/Send.antt =====
-- ssh_packet_send2_wrapped: a packet is padded, authenticated and encrypted.
use libopenssh.Base.{
  ℕ, ◌+◌, ◌-◌, ◌*◌, ◌/◌, ◌%◌, ◌^◌, Bool, true, false, not, ◌&&◌, Option, none, some, Bytes, [], ◌∷◌,
  ◌++◌, length, take, drop, replicate, get_or, ltb, ◌==◌, if◌then◌else◌,
}
use libopenssh.Err.{Result, ok, err, fault, need_rekey, and_then}
use libopenssh.Getput.{u32_bytes}
use libopenssh.Dispatch.{msg_newkeys}
use libopenssh.Packet.{
  Keys, SessionState, Env, msg_userauth_success, uses_mac, authlen_of, block_size_of, aadlen_of,
  compresses, reserved, put_in, u32_add, u32_sub,
}

-- roundup(x, y)
abbrev pub rounded_up : ℕ → ℕ → ℕ
rounded_up x y = (x + y - 1) / y * y

-- The least padding of at least four bytes, an `u_char`.
abbrev pub least_padlen : ℕ → ℕ → ℕ
least_padlen block_size len =
    let padlen = (block_size - len % block_size) % 256 in
    if ltb padlen 4 then (padlen + block_size) % 256 else padlen

-- The padding; `extra_pad` is an `u_char`, and a division by zero is undefined.
unfoldable pub padlen_of : ℕ → ℕ → ℕ → Result ℕ
padlen_of block_size extra_pad len =
    let padlen = least_padlen block_size len in
    let extra = rounded_up extra_pad block_size % 256 in
    if extra_pad == 0
    then ok padlen
    else if extra == 0
    then fault
    else ok ((padlen + (extra - u32_add len padlen % extra) % 256) % 256)

-- The header is written over the first five bytes.
abbrev pub with_header : ℕ → Bytes → Bytes
with_header padlen p = u32_bytes (u32_sub (length p) 4) ++ (padlen % 256 ∷ drop 5 p)

-- The MAC of `v`, or nothing.
abbrev pub mac_if : Bool → Option Keys → ℕ → Bytes → Result Bytes
mac_if b none seqnr v = ok []
mac_if b (some k) seqnr v = if b then k.mac_compute seqnr v else ok []

abbrev pub mac_plain : Option Keys → Bool
mac_plain none = false
mac_plain (some k) = uses_mac k && not k.etm

abbrev pub mac_etm : Option Keys → Bool
mac_etm none = false
mac_etm (some k) = uses_mac k && k.etm

abbrev pub mac_on : Option Keys → Bool
mac_on none = false
mac_on (some k) = uses_mac k

abbrev pub has_keys : Option Keys → Bool
has_keys none = false
has_keys (some k) = true

-- A result that changes nothing, in front of the rest.
abbrev pub pass : {S A B : Type 0} → S → Result A → (A → S × Result B) → S × Result B
pass s (ok a) f = f a
pass s (err e) f = (s, err e)
pass s fault f = (s, fault)

module _ {C : Type 0} (env : Env C) where
  -- The payload behind the header is compressed.
  unfoldable pub compressed : SessionState C → SessionState C × Result (Unit {0})
  compressed st =
      if compresses st.newkeys_out
      then pass (record st { outgoing_packet = drop 5 st.outgoing_packet })
          (env.compress_buffer (drop 5 st.outgoing_packet))
          (λ v.
            pass (record st { outgoing_packet = [] }) (put_in env (replicate 5 0) v)
              λ p. (record st { outgoing_packet = p }, ok tt))
      else (st, ok tt)

  -- Padding and header.
  unfoldable pub padded : SessionState C → SessionState C × Result (Unit {0})
  padded st =
      pass st
        (padlen_of (block_size_of st.newkeys_out) st.extra_pad
          (u32_sub (length st.outgoing_packet) (aadlen_of st.newkeys_out)))
        λ padlen.
          let st' = record st { extra_pad = 0 } in
          pass st'
            (put_in env st.outgoing_packet (
              if has_keys st.newkeys_out && not st.plaintext
              then env.arc4random_buf padlen
              else replicate padlen 0))
            λ p. (record st' { outgoing_packet = with_header padlen p }, ok tt)

  -- The packet goes to the output, with its MAC.
  unfoldable pub sealed : SessionState C → SessionState C × Result (Unit {0})
  sealed st =
      let keys = st.newkeys_out in
      let p = st.outgoing_packet in
      let aadlen = aadlen_of keys in
      pass st (mac_if (mac_plain keys) keys st.p_send.seqnr p) λ mac.
        pass st (reserved env (length st.output + (length p + authlen_of keys))) λ u.
          let (context, r) =
            env.crypt st.send_context p (u32_sub (length p) aadlen) aadlen (authlen_of keys) in
          let st' = record st { send_context = context } in
          pass st' r λ sent.
            let st'' = record st' { output = st.output ++ sent } in
            pass st'' (mac_if (mac_etm keys) keys st.p_send.seqnr (take (length p) sent)) λ mac'.
              pass st''
                (if mac_on keys then put_in env st''.output (mac ++ mac') else ok st''.output)
                λ output'. (record st' { output = output' }, ok tt)

  -- Numbers, and what the type of the packet asks for.
  unfoldable pub sent_off : ℕ → SessionState C → SessionState C × Result (Unit {0})
  sent_off type st =
      let len = length st.outgoing_packet in
      let seqnr = u32_add st.p_send.seqnr 1 in
      let packets = u32_add st.p_send.packets 1 in
      let counted = record st.p_send { seqnr = seqnr; packets = packets } in
      if packets == 0 && not st.no_rekey_bug
      then (record st { p_send = counted }, err need_rekey)
      else let st' = record st {
        p_send = record counted {
          blocks = (st.p_send.blocks + len / block_size_of st.newkeys_out) % 2 ^ 64;
          bytes = (st.p_send.bytes + len) % 2 ^ 64;
        };
        outgoing_packet = [];
      } in
        if type == msg_newkeys
        then env.set_newkeys_out st'
        else if type == msg_userauth_success && st.server_side
        then env.enable_delayed_compress st'
        else (st', ok tt)

  -- The type is read as in `type_of`: a packet that sshpkt_start began has one.
  unfoldable pub send2_wrapped : SessionState C → SessionState C × Result (Unit {0})
  send2_wrapped st =
      let type = get_or st.outgoing_packet 5 0 in
      and_then (compressed st)
        λ u st₁. and_then (padded st₁) λ u st₂. and_then (sealed st₂) λ u st₃. sent_off type st₃
