-- ===== src/Tests/Messages.antt =====
-- The theorems on the dispatch of messages at a concrete table.
use libopenssh.Base.{ℕ, ◌≡◌, refl, Bool, false, ◌&&◌, some, [], ◌∷◌, ◌==◌, leb, if◌then◌else◌}
use libopenssh.Err.{Result, ok, err, disconnected}
use libopenssh.Dispatch.{
  Ssh, Handler, kex_protocol_error, kex_input_kexinit, other, msg_kexinit, msg_transport_min,
  msg_transport_max, kex_reset_dispatch, got, block, handler_of, after_call, dispatch_run,
}
use libopenssh.Dispatch.Table.{kex_reset_dispatch-transport}
use libopenssh.Dispatch.Loop.{arrive, dispatch_run-skip}

-- Every type has a handler; one packet is to be skipped.
abbrev table : Ssh (Handler ℕ) ℕ
table = record { dispatch = λ j. some (other j); skip_packets = 1; rest = 0 }

kex_reset_dispatch-transport_example : (kex_reset_dispatch table).dispatch 21 ≡ (
    if 21 == msg_kexinit
    then some kex_input_kexinit
    else if leb msg_transport_min 21 && leb 21 msg_transport_max
    then some kex_protocol_error
    else some (other 21))
kex_reset_dispatch-transport_example = kex_reset_dispatch-transport table 21

-- A handler notes the type.
abbrev note : Handler ℕ → ℕ → ℕ → Ssh (Handler ℕ) ℕ → Ssh (Handler ℕ) ℕ × Result (Unit {0})
note h type seq ssh = (record ssh { rest = type }, ok tt)

abbrev leave : ℕ → Ssh (Handler ℕ) ℕ → Ssh (Handler ℕ) ℕ × Result (Unit {0})
leave type ssh = (ssh, err disconnected)

abbrev never : Ssh (Handler ℕ) ℕ → Bool
never ssh = false

dispatch_run-skip_example :
    dispatch_run note leave never block (arrive ((30, 7) ∷ []) (got 31 8 ∷ [])) table
    ≡ after_call note leave never
        (note (other 31) 31 8 (record table { skip_packets = 0 }))
        (dispatch_run note leave never block [])
unfolding handler_of
dispatch_run-skip_example =
    dispatch_run-skip note leave never block ((30, 7) ∷ []) 31 8 [] table (other 31)
      ((other 30, refl), tt) refl refl
