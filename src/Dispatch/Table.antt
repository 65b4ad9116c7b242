-- ===== src/Dispatch/Table.antt =====
-- The table of handlers after the functions that set it.
use libopenssh.Base.{
  ℕ, zero, suc, ◌+◌, ◌-◌, ◌≡◌, inl, inr, refl, ap, ◌∙◌, Bool, true, false, ◌&&◌, Bool-cases, arith,
  Option, some, ◌==◌, ltb, leb, if◌then◌else◌,
}
use libopenssh.Dispatch.{
  Ssh, put_handler, range_from, dispatch_max, dispatch_range, dispatch_set, Handler,
  kex_protocol_error, kex_input_kexinit, msg_kexinit, msg_transport_min, msg_transport_max,
  kex_reset_dispatch,
}

-- The type `j` is among the `n` from `i` on, and in the array.
abbrev pub covers : ℕ → ℕ → ℕ → Bool
covers n i j = leb i j && ltb j (i + n) && ltb j dispatch_max

range_from-covers :
    {H : Type 0} (n i j : ℕ) (fn : Option H) (table : ℕ → Option H)
    → range_from n i fn table j ≡ (if covers n i j then fn else table j)
unfolding range_from
range_from-covers zero i j fn table = let out : covers 0 i j ≡ false = ground arith in rw out refl
range_from-covers (suc n) i j fn table = elim (Bool-cases (leb dispatch_max i)) [
  | inl past ↦
      let out : covers (suc n) i j ≡ false = ground arith in rw (past, out, range_from) refl
  | inr inside ↦ elim (Bool-cases (j == i)) [
    | inl here ↦
        let skips : covers n (i + 1) j ≡ false = ground arith in
        let takes : covers (suc n) i j ≡ true = ground arith in
        rw (inside, range_from)
          (range_from-covers n (i + 1) j fn (put_handler i fn table) ∙ rw (skips, takes, here) refl)
    | inr there ↦
        let same : covers n (i + 1) j ≡ covers (suc n) i j = ground arith in
        rw (inside, range_from)
          (range_from-covers n (i + 1) j fn (put_handler i fn table) ∙ rw (same, there) refl)
  ]
]

-- ssh_dispatch_range sets the handlers of the types of the range that are in the array, and no other.
pub dispatch_range-covers :
    {H S : Type 0} (from to j : ℕ) (fn : Option H) (ssh : Ssh H S)
    → (dispatch_range from to fn ssh).dispatch j
      ≡ (if covers (to + 1 - from) from j then fn else ssh.dispatch j)
unfolding dispatch_range
dispatch_range-covers from to j fn ssh = range_from-covers (to + 1 - from) from j fn ssh.dispatch

-- kex_reset_dispatch leaves a table in which a KEXINIT goes to kex_input_kexinit, every other message
-- of the transport layer, of the types from 1 to 49, to kex_protocol_error, and the handlers of all
-- other types are kept. Handlers that are set afterwards are not part of it.
pub kex_reset_dispatch-transport :
    {O S : Type 0} (ssh : Ssh (Handler O) S) (j : ℕ)
    → (kex_reset_dispatch ssh).dispatch j ≡ (
        if j == msg_kexinit
        then some kex_input_kexinit
        else if leb msg_transport_min j && leb j msg_transport_max
        then some kex_protocol_error
        else ssh.dispatch j)
unfolding kex_reset_dispatch dispatch_set
kex_reset_dispatch-transport ssh j = elim (Bool-cases (j == msg_kexinit)) [
  | inl is ↦ rw is refl
  | inr other ↦
      let same : covers 49 1 j ≡ leb msg_transport_min j && leb j msg_transport_max =
        ground arith in
      rw other (
        dispatch_range-covers 1 49 j (some kex_protocol_error) ssh
        ∙ ap (λ (b : Bool). if b then some kex_protocol_error else ssh.dispatch j) same)
]
