-- ===== src/Packet/Overflow.antt =====
-- A length that is refused, and yet used.
use libopenssh.Base.{
  ℕ, ◌+◌, ◌%◌, ◌^◌, ◌≤◌, ◌<◌, ◌≡◌, refl, ap, ◌∙◌, arith, Bool, true, false, not, Option, [], some,
  Bytes, length, ltb, leb, ◌==◌, if◌then◌else◌,
}
use libopenssh.Err.{Result, ok, fault}
use libopenssh.Getput.{u32_of}
use libopenssh.Packet.{Keys, SessionState, Env, aadlen_of, block_size_of, u32_add}
use libopenssh.Packet.Poll.{
  etm_mac, need_of, total_of, on_go, bad_length, clear_length, read_length, read_body, read_rest,
  read_poll2,
}

-- Keys with a MAC over the encrypted packet.
abbrev pub IsEtm : Keys → Type 0
IsEtm k = (k.authlen ≡ 0) × (k.mac_enabled ≡ true) × (k.etm ≡ true)

aadlen_of-IsEtm : (k : Keys) → IsEtm k → aadlen_of (some k) ≡ 4
unfolding aadlen_of
aadlen_of-IsEtm k (a, b, c) = rw (a, b, c) refl

etm_mac-fault :
    (keys : Option Keys) (k : Keys) (seqnr : ℕ) (input : Bytes) (whole : ℕ)
    → keys ≡ some k
    → IsEtm k
    → length input < whole
    → etm_mac keys seqnr input whole ≡ fault
unfolding etm_mac
etm_mac-fault keys k seqnr input whole e (a, b, c) h =
    let beyond : leb whole (length input) ≡ false = ground arith in rw (e, a, b, c, beyond) refl

read_body-fault :
    {C : Type 0} (env : Env C) (st : SessionState C) (k : Keys) (need : ℕ)
    → st.newkeys_in ≡ some k
    → IsEtm k
    → length st.input < u32_add 4 need
    → read_body env need st ≡ (st, fault)
unfolding read_body
read_body-fault env st k need e w h =
    let a : aadlen_of st.newkeys_in ≡ 4 = rw e (aadlen_of-IsEtm k w) in
    rw (a, read_body)
      (rw (etm_mac-fault st.newkeys_in k st.p_read.seqnr st.input (u32_add 4 need) e w h) refl)

need_of-IsEtm : (k : Keys) (len : ℕ) → IsEtm k → need_of (some k) len ≡ len
unfolding need_of
need_of-IsEtm k len w = rw (aadlen_of-IsEtm k w) refl

total_of-IsEtm :
    (k : Keys) (len : ℕ)
    → IsEtm k
    → total_of (some k) len ≡ u32_add (u32_add (u32_add 4 len) 0) k.mac_len
unfolding total_of
total_of-IsEtm k len (a, b, c) = rw (aadlen_of-IsEtm k (a, b, c)) (rw (a, b) refl)

read_rest-overflow :
    {C : Type 0} (env : Env C) (st : SessionState C) (k : Keys) (len : ℕ)
    → st.newkeys_in ≡ some k
    → st.packlen ≡ len
    → IsEtm k
    → len % k.block_size ≡ 0
    → len + 4 < 2 ^ 32
    → 2 ^ 32 ≤ len + 4 + k.mac_len
    → k.mac_len ≤ 64
    → len + 4 + k.mac_len ≤ length st.input + 2 ^ 32
    → length st.input < len + 4
    → (read_rest env st).1 ≡ fault
unfolding read_rest read_body aadlen_of
read_rest-overflow env st k len e p w d f g h i j =
    let n : need_of st.newkeys_in st.packlen ≡ len = rw (e, p) (need_of-IsEtm k len w) in
    let t : total_of st.newkeys_in len ≡ u32_add (u32_add (u32_add 4 len) 0) k.mac_len =
      rw e (total_of-IsEtm k len w) in
    let fits : (len % block_size_of st.newkeys_in == 0) ≡ true = rw e (ground (arith, d)) in
    let there : ltb (length st.input) (total_of st.newkeys_in len) ≡ false = rw t (ground arith) in
    let beyond : length st.input < u32_add 4 len = ground arith in
    rw (n, read_rest) (rw fits (rw there (rw (read_body-fault env st k len e w beyond) refl)))

when_zero : {A : Type 0} (n : ℕ) (x y : A) → n ≡ 0 → (if not (n == 0) then x else y) ≡ y
when_zero n x y e = rw e refl

read_length-zero :
    {C : Type 0} (env : Env C) (st : SessionState C) {r : SessionState C × Result Bool}
    → st.packlen ≡ 0
    → aadlen_of st.newkeys_in ≡ 4
    → clear_length env st ≡ r
    → read_length env st ≡ r
unfolding read_length
read_length-zero env st e a c = when_zero st.packlen _ _ e ∙ (rw a c)

read_poll2-go :
    {C : Type 0} (env : Env C) (st st' : SessionState C)
    → st.packet_discard ≡ 0
    → read_length env st ≡ (st', ok true)
    → read_poll2 env st ≡ read_rest env st'
unfolding read_poll2
read_poll2-go env st st' e l =
    when_zero st.packet_discard _ _ e
    ∙ ap (λ (x : SessionState _ × Result Bool). on_go x (read_rest env)) l

-- Under keys with a MAC of at most 64 bytes over the encrypted packet, when a packet is waited for
-- and none is discarded, ssh_packet_read_poll2 uses a length that it finds bad: if the length is a
-- multiple of the block, if its sum with the length of the MAC wraps around and so many bytes have
-- come, but not those of the packet, and if the message to the peer is queued and leaves input,
-- keys and length as they are, then more bytes than there are are read.
pub read_poll2-overflow :
    {C : Type 0} (env : Env C) (st told : SessionState C) (k : Keys)
    → st.packet_discard ≡ 0
    → st.packlen ≡ 0
    → st.newkeys_in ≡ some k
    → IsEtm k
    → k.mac_len ≤ 64
    → u32_of st.input % k.block_size ≡ 0
    → u32_of st.input + 4 < 2 ^ 32
    → 2 ^ 32 ≤ u32_of st.input + 4 + k.mac_len
    → 4 ≤ length st.input
    → u32_of st.input + 4 + k.mac_len ≤ length st.input + 2 ^ 32
    → length st.input < u32_of st.input + 4
    → env.sshpkt_disconnect (record st { packlen = u32_of st.input }) ≡ (told, ok tt)
    → told.newkeys_in ≡ some k
    → told.packlen ≡ u32_of st.input
    → told.input ≡ st.input
    → (read_poll2 env st).1 ≡ fault
unfolding clear_length
read_poll2-overflow {C} env st told k z y e w h d f g i j l s e' p q =
    let a : aadlen_of st.newkeys_in ≡ 4 = rw e (aadlen_of-IsEtm k w) in
    let bad : bad_length (u32_of st.input) ≡ true = ground (arith, g, h) in
    let enough : ltb (length st.input) 4 ≡ false = ground (arith, i) in
    let refused : clear_length env st ≡ (record told { incoming_packet = [] }, ok true) =
      rw (enough, clear_length) (rw bad (rw s refl)) in
    let known : read_length env st ≡ (record told { incoming_packet = [] }, ok true) =
      read_length-zero env st y a refused in
    let over =
      read_rest-overflow env (record told { incoming_packet = [] }) k (u32_of st.input) e' p w d f g
        h (rw q j) (rw q l) in
    ap (λ (x : SessionState C × Result ℕ). x.1) (read_poll2-go env st _ z known) ∙ over
