-- ===== src/Packet.antt =====
-- ssh/packet.c: the binary packets of protocol 2, as they are sent and read. The buffers of the state
-- are the queues of bytes that they stand for. None may grow beyond the limit of a new buffer; `room`
-- says for which lengths memory is granted. What the ciphers, the compression and the rest of the
-- packet layer do is the record `Env`.
pub mod Send
pub mod Poll
pub mod Padding
pub mod Overflow
pub mod Plain
pub mod Received
pub mod Rekeying
pub mod Room
use libopenssh.Base.{
  ℕ, ◌+◌, ◌-◌, ◌*◌, ◌/◌, ◌%◌, ◌^◌, Bool, true, false, not, ◌&&◌, ◌||◌, Option, none, some, List,
  Bytes, [], ◌∷◌, ◌++◌, length, take, drop, replicate, ltb, leb, ◌==◌, if◌then◌else◌,
}
use libopenssh.Err.{Result, ok, err, fault, no_buffer_space, alloc_fail}
use libopenssh.Sshbuf.{size_max}

-- The keys of one direction: enc->block_size, cipher_authlen, the MAC, and whether data is compressed.
pub record Keys : Type 0 where
  pub block_size : ℕ
  pub authlen : ℕ
  pub mac_enabled : Bool
  pub etm : Bool
  pub mac_len : ℕ
  pub mac_compute : ℕ → Bytes → Result Bytes
  pub comp_enabled : Bool

-- struct packet_state
pub record PacketState : Type 0 where
  pub seqnr : ℕ
  pub packets : ℕ
  pub blocks : ℕ
  pub bytes : ℕ

-- struct session_state, and the compatibility flag SSH_BUG_NOREKEY; `C` are the contexts of ciphers.
pub record SessionState (C : Type 0) : Type 0 where
  pub send_context : C
  pub receive_context : C
  pub plaintext : Bool
  pub input : Bytes
  pub output : Bytes
  pub outgoing_packet : Bytes
  pub incoming_packet : Bytes
  pub newkeys_in : Option Keys
  pub newkeys_out : Option Keys
  pub p_read : PacketState
  pub p_send : PacketState
  pub extra_pad : ℕ
  pub packet_discard : ℕ
  pub packlen : ℕ
  pub server_side : Bool
  pub no_rekey_bug : Bool

-- `crypt` is cipher_crypt, from a context, the source, and the lengths of the text, of what is only
-- authenticated, and of the tag.
pub record Env (C : Type 0) : Type 0 where
  pub crypt : C → Bytes → ℕ → ℕ → ℕ → C × Result Bytes
  pub room : ℕ → Bool
  pub arc4random_buf : ℕ → Bytes
  pub compress_buffer : Bytes → Result Bytes
  pub uncompress_buffer : Bytes → Result Bytes
  pub sshpkt_disconnect : SessionState C → SessionState C × Result (Unit {0})
  pub start_discard : Option Keys → ℕ → ℕ → SessionState C → SessionState C × Result (Unit {0})
  pub set_newkeys_in : SessionState C → SessionState C × Result (Unit {0})
  pub set_newkeys_out : SessionState C → SessionState C × Result (Unit {0})
  pub enable_delayed_compress : SessionState C → SessionState C × Result (Unit {0})

abbrev pub packet_max_size : ℕ
packet_max_size = 256 * 1024

abbrev pub msg_userauth_success : ℕ
msg_userauth_success = 52

abbrev pub u32_add : ℕ → ℕ → ℕ
u32_add a b = (a + b) % 2 ^ 32

abbrev pub u32_sub : ℕ → ℕ → ℕ
u32_sub a b = (a + (2 ^ 32 - b)) % 2 ^ 32

-- The MAC is not used with a cipher that authenticates.
abbrev pub uses_mac : Keys → Bool
uses_mac k = k.authlen == 0 && k.mac_enabled

abbrev pub authlen_of : Option Keys → ℕ
authlen_of none = 0
authlen_of (some k) = k.authlen

abbrev pub block_size_of : Option Keys → ℕ
block_size_of none = 8
block_size_of (some k) = k.block_size

unfoldable pub aadlen_of : Option Keys → ℕ
aadlen_of none = 0
aadlen_of (some k) = if uses_mac k && k.etm || not (k.authlen == 0) then 4 else 0

abbrev pub compresses : Option Keys → Bool
compresses none = false
compresses (some k) = k.comp_enabled

-- sshbuf_reserve on a buffer with the limit that it is created with, which is to hold `n` bytes.
unfoldable pub reserved : {C : Type 0} → Env C → ℕ → Result (Unit {0})
reserved env n =
    if ltb size_max n then err no_buffer_space else if env.room n then ok tt else err alloc_fail

-- `v`, if nothing has gone wrong.
abbrev pub with_value : {A : Type 0} → Result (Unit {0}) → A → Result A
with_value (ok _) v = ok v
with_value (err e) v = err e
with_value fault v = fault

-- sshbuf_reserve, and the bytes that are written there.
abbrev pub put_in : {C : Type 0} → Env C → Bytes → Bytes → Result Bytes
put_in env b v = with_value (reserved env (length b + length v)) (b ++ v)
