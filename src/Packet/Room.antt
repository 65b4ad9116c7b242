-- ===== src/Packet/Room.antt =====
-- `reserved` is what sshbuf_reserve answers on a buffer of the packet layer.
use libopenssh.Base.{ℕ, ◌+◌, ◌≡◌, inl, inr, refl, Bool, true, false, arith, length, ltb}
use libopenssh.Err.{Result, ok, err, fault}
use libopenssh.Libc.{Allocator}
use libopenssh.Sshbuf.{Sshbuf, size_max, locked, reserve}
use libopenssh.Sshbuf.Sanity.{WellFormed}
use libopenssh.Sshbuf.Content.{content}
use libopenssh.Sshbuf.Reserve.{Reserved, reserve-Reserved}
use libopenssh.Sshbuf.Refusals.{Refused-cases}
use libopenssh.Packet.{Env, reserved}

-- The result without the offset.
abbrev outcome : Result ℕ → Result (Unit {0})
outcome (ok _) = ok tt
outcome (err e) = err e
outcome fault = fault

-- Memory is granted, or not.
abbrev granting : {C : Type 0} → Env C → Bool → Env C
granting env granted = record env { room = λ n. granted }

module _ {C : Type 0} (env : Env C) (m : Allocator) (b : Sshbuf) (n : ℕ) (u : locked b ≡ false)
    (new : b.max_size ≡ size_max) where
  abbrev Answered : Sshbuf × Result ℕ → Type 0
  Answered out =
      (granted : Bool) × (outcome out.1 ≡ reserved (granting env granted) (length (content b) + n))

  Reserved-Answered : (out : Sshbuf × Result ℕ) → Reserved m b n out → Answered out
  unfolding reserved
  Reserved-Answered (c, ok p) (_, (_, low)) =
      let small : ltb size_max (length (content b) + n) ≡ false = ground (arith, low, new) in
      (true, rw small refl)
  Reserved-Answered (c, err e) (_, r) = elim (Refused-cases m b n e r) [
    | inl (_, shut) ↦ cc (u, shut)
    | inr (inl (is, _, over)) ↦
        let full : ltb size_max (length (content b) + n) ≡ true = ground (arith, over, new) in
        (true, rw (is, full) refl)
    | inr (inr (is, (_, low), _)) ↦
        let small : ltb size_max (length (content b) + n) ≡ false = ground (arith, low, new) in
        (false, rw (is, small) refl)
  ]
  Reserved-Answered (c, fault) r = absurd r

  -- On a well-formed buffer that is writable and has the limit of a new one, sshbuf_reserve answers as
  -- `reserved` does for the length of the queue with the new bytes, where memory is granted or not.
  reserve-Answered : WellFormed b → Answered (reserve m n b)
  reserve-Answered w = Reserved-Answered (reserve m n b) (reserve-Reserved m b n w)
