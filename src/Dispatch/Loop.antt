-- ===== src/Dispatch/Loop.antt =====
-- The loop that hands packets to their handlers.
use libopenssh.Base.{
  ℕ, ◌+◌, ◌-◌, ◌≡◌, refl, ap, ◌∙◌, Bool, true, false, ◌&&◌, arith, some, List, [], ◌∷◌, length,
  ◌==◌, ltb,
}
use libopenssh.Err.{Result}
use libopenssh.Dispatch.{
  Ssh, Incoming, got, Mode, is_nonblock, handler_of, after_call, dispatch_packet, dispatch_run,
}

-- Packets, each with its type and number, in front of others.
abbrev pub arrive : List (ℕ × ℕ) → List Incoming → List Incoming
arrive [] ps = ps
arrive (p ∷ qs) ps = got p.0 p.1 ∷ arrive qs ps

-- Their types have handlers.
abbrev pub Known : {H S : Type 0} → List (ℕ × ℕ) → Ssh H S → Type 0
Known [] ssh = Unit {0}
Known {H} (p ∷ qs) ssh = ((h : H) × (handler_of p.0 ssh ≡ some h)) × Known qs ssh

module _ {H S : Type 0} where
  handler_of-nonzero :
      (t : ℕ) (ssh : Ssh H S) (h : H) → handler_of t ssh ≡ some h → (t == 0) ≡ false
  unfolding handler_of
  handler_of-nonzero t ssh h e = ground arith

  same_ssh : (ssh : Ssh H S) (n : ℕ) → ssh.skip_packets ≡ n → ssh ≡ record ssh { skip_packets = n }
  same_ssh ssh n e = ap (λ (m : ℕ). record ssh { skip_packets = m }) e

  Known-lowered :
      (n : ℕ) (qs : List (ℕ × ℕ)) (ssh : Ssh H S)
      → Known qs ssh
      → Known qs (record ssh { skip_packets = n })
  unfolding handler_of
  Known-lowered n [] ssh k = tt
  Known-lowered n (q ∷ qs) ssh (h, k) = (h, Known-lowered n qs ssh k)

module _ {H S : Type 0} (call : H → ℕ → ℕ → Ssh H S → Ssh H S × Result (Unit {0}))
    (disconnect : ℕ → Ssh H S → Ssh H S × Result (Unit {0})) (finished : Ssh H S → Bool)
    (mode : Mode) where
  dispatch_run_known :
      (t q : ℕ) (rs : List Incoming) (ssh : Ssh H S) (h : H)
      → handler_of t ssh ≡ some h
      → dispatch_run call disconnect finished mode (got t q ∷ rs) ssh
        ≡ dispatch_packet call disconnect finished t q
            (some h)
            ssh
            (dispatch_run call disconnect finished mode rs)
  unfolding dispatch_run
  dispatch_run_known t q rs ssh h e =
      let stays : is_nonblock mode && t == 0 ≡ false =
        ground (arith, handler_of-nonzero t ssh h e) in
      rw (stays, e, dispatch_run) refl

  dispatch_run_skip :
      (qs : List (ℕ × ℕ)) (rs : List Incoming) (ssh : Ssh H S) (n : ℕ)
      → Known qs ssh
      → ssh.skip_packets ≡ length qs + n
      → dispatch_run call disconnect finished mode (arrive qs rs) ssh
        ≡ dispatch_run call disconnect finished mode rs (record ssh { skip_packets = n })
  dispatch_run_skip [] rs ssh n k e =
      ap (dispatch_run call disconnect finished mode rs) (same_ssh ssh n (omega (arith, e)))
  dispatch_run_skip (q ∷ qs) rs ssh n ((h, is), k) e =
      let skips : ltb 0 ssh.skip_packets ≡ true = ground (arith, e) in
      dispatch_run_known q.0 q.1 (arrive qs rs) ssh h is
      ∙ rw skips (
          dispatch_run_skip qs rs (record ssh { skip_packets = ssh.skip_packets - 1 }) n
            (Known-lowered _ qs ssh k) (omega (arith, e)))

-- As many packets of types with handlers as skip_packets says are dropped, the next one goes to its
-- handler, and the loop goes on with what the handler leaves: it ends if the handler fails or the
-- caller's test holds, and otherwise takes the packets behind.
pub dispatch_run-skip :
    {H S : Type 0} (call : H → ℕ → ℕ → Ssh H S → Ssh H S × Result (Unit {0}))
    (disconnect : ℕ → Ssh H S → Ssh H S × Result (Unit {0})) (finished : Ssh H S → Bool)
    (mode : Mode) (qs : List (ℕ × ℕ)) (t q : ℕ) (rs : List Incoming) (ssh : Ssh H S) (h : H)
    → Known qs ssh
    → handler_of t ssh ≡ some h
    → ssh.skip_packets ≡ length qs
    → dispatch_run call disconnect finished mode (arrive qs (got t q ∷ rs)) ssh
      ≡ after_call call disconnect finished
          (call h t q (record ssh { skip_packets = 0 }))
          (dispatch_run call disconnect finished mode rs)
unfolding handler_of
dispatch_run-skip call disconnect finished mode qs t q rs ssh h k is e =
    dispatch_run_skip call disconnect finished mode qs (got t q ∷ rs) ssh 0 k (omega (arith, e))
    ∙ dispatch_run_known call disconnect finished mode t q rs (record ssh { skip_packets = 0 }) h is
