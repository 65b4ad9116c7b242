-- ===== src/Dispatch.antt =====
-- ssh/dispatch.c: the table of message handlers and the loop that calls them, with the functions of
-- ssh/kex.c that set the table.
pub mod Loop
pub mod Table
use libopenssh.Base.{
  ℕ, zero, suc, ◌+◌, ◌-◌, Bool, true, false, ◌&&◌, Option, none, some, List, [], ◌∷◌, ◌==◌, ltb,
  leb, if◌then◌else◌,
}
use libopenssh.Err.{Error, Result, ok, err, fault, disconnected}

abbrev pub dispatch_max : ℕ
dispatch_max = 255

-- `struct ssh`: the table has a handler or a null pointer for each type; `H` are the handlers, and
-- `rest` is what only they use.
pub record Ssh (H S : Type 0) : Type 0 where
  pub dispatch : ℕ → Option H
  pub skip_packets : ℕ
  pub rest : S

abbrev pub put_handler : {H : Type 0} → ℕ → Option H → (ℕ → Option H) → ℕ → Option H
put_handler type fn table = λ j. if j == type then fn else table j

-- The loops of `ssh_dispatch_init` and `ssh_dispatch_range`, for `n` types from `i` on.
unfoldable pub init_from : {H : Type 0} → ℕ → ℕ → Option H → (ℕ → Option H) → ℕ → Option H
init_from zero i fn table = table
init_from (suc n) i fn table = init_from n (i + 1) fn (put_handler i fn table)

unfoldable pub range_from : {H : Type 0} → ℕ → ℕ → Option H → (ℕ → Option H) → ℕ → Option H
range_from zero i fn table = table
range_from (suc n) i fn table =
    let more = range_from n (i + 1) fn (put_handler i fn table) in
    if leb dispatch_max i then table else more

unfoldable pub dispatch_init : {H S : Type 0} → Option H → Ssh H S → Ssh H S
dispatch_init dflt ssh = record ssh { dispatch = init_from dispatch_max 0 dflt ssh.dispatch }

unfoldable pub dispatch_range : {H S : Type 0} → ℕ → ℕ → Option H → Ssh H S → Ssh H S
dispatch_range from to fn ssh = record ssh {
  dispatch = range_from (to + 1 - from) from fn ssh.dispatch;
}

-- A type outside of the array is not tested for; the callers name types inside.
unfoldable pub dispatch_set : {H S : Type 0} → ℕ → Option H → Ssh H S → Ssh H S
dispatch_set type fn ssh = record ssh { dispatch = put_handler type fn ssh.dispatch }

-- The handlers that ssh/kex.c sets, among the others.
pub data Handler (O : Type 0) : Type 0 where
  kex_protocol_error kex_input_kexinit kex_input_newkeys : Handler O
  other : O → Handler O

abbrev pub msg_transport_min : ℕ
msg_transport_min = 1

abbrev pub msg_transport_max : ℕ
msg_transport_max = 49

abbrev pub msg_kexinit : ℕ
msg_kexinit = 20

abbrev pub msg_newkeys : ℕ
msg_newkeys = 21

unfoldable pub kex_reset_dispatch : {O S : Type 0} → Ssh (Handler O) S → Ssh (Handler O) S
kex_reset_dispatch ssh =
    dispatch_set msg_kexinit (some kex_input_kexinit)
      (dispatch_range msg_transport_min msg_transport_max (some kex_protocol_error) ssh)

-- What a call of ssh_packet_read_seqnr or ssh_packet_read_poll_seqnr gives.
pub data Incoming : Type 0 where
  got : ℕ → ℕ → Incoming
  broken : Error → Incoming

pub data Mode : Type 0 where
  block nonblock : Mode

-- How the loop ends: with a result, or because no packet has come so far.
pub data Ending : Type 0 where
  ends : Result (Unit {0}) → Ending
  waits : Ending

abbrev pub is_nonblock : Mode → Bool
is_nonblock nonblock = true
is_nonblock block = false

unfoldable pub handler_of : {H S : Type 0} → ℕ → Ssh H S → Option H
handler_of type ssh = if ltb 0 type && ltb type dispatch_max then ssh.dispatch type else none

-- `call` runs a handler, `disconnect` is sshpkt_disconnect, and `finished` the test of `done`.
module _ {H S : Type 0} (call : H → ℕ → ℕ → Ssh H S → Ssh H S × Result (Unit {0}))
    (disconnect : ℕ → Ssh H S → Ssh H S × Result (Unit {0})) (finished : Ssh H S → Bool) where
  abbrev pub give_up : Ssh H S × Result (Unit {0}) → Ssh H S × Ending
  give_up (ssh, ok _) = (ssh, ends (err disconnected))
  give_up (ssh, err e) = (ssh, ends (err e))
  give_up (ssh, fault) = (ssh, ends fault)

  -- The end of a round, with the rest of the loop.
  abbrev pub after_call :
      Ssh H S × Result (Unit {0}) → (Ssh H S → Ssh H S × Ending) → Ssh H S × Ending
  after_call (ssh, ok _) loop = if finished ssh then (ssh, ends (ok tt)) else loop ssh
  after_call (ssh, err e) loop = (ssh, ends (err e))
  after_call (ssh, fault) loop = (ssh, ends fault)

  -- A packet of a known or unknown type.
  abbrev pub dispatch_packet :
      ℕ → ℕ → Option H → Ssh H S → (Ssh H S → Ssh H S × Ending) → Ssh H S × Ending
  dispatch_packet type seq none ssh loop = give_up (disconnect type ssh)
  dispatch_packet type seq (some h) ssh loop =
      if ltb 0 ssh.skip_packets
      then loop (record ssh { skip_packets = ssh.skip_packets - 1 })
      else after_call (call h type seq ssh) loop

  -- `ssh_dispatch_run` on the packets that come.
  unfoldable pub dispatch_run : Mode → List Incoming → Ssh H S → Ssh H S × Ending
  dispatch_run mode [] ssh = (ssh, waits)
  dispatch_run mode (broken e ∷ ps) ssh = (ssh, ends (err e))
  dispatch_run mode (got type seq ∷ ps) ssh =
      if is_nonblock mode && type == 0
      then (ssh, ends (ok tt))
      else dispatch_packet type seq (handler_of type ssh) ssh (dispatch_run mode ps)
