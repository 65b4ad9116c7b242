-- ===== src/Tests/Buffers.antt =====
-- The buffer's theorems at concrete inputs, and runs of its operations.
use libopenssh.Base.{◌≡◌, refl, true, arith, Bytes, [], ◌∷◌, some, replicate}
use libopenssh.Err.{ok, err, internal_error}
use libopenssh.Sshbuf.{
  Sshbuf, check_sanity, insane, maybe_pack, blank, new, reset, reserve, set_max_size, check_reserve,
  grow, regrow, claim, trim, set_limit,
}
use libopenssh.Sshbuf.Sanity.{WellFormed}
use libopenssh.Sshbuf.Reserve.{Reserved, reserve-Reserved}
use libopenssh.Sshbuf.Limits.{reset-insane}
use libopenssh.Tests.{libc, half_full, half_full-WellFormed}

reserve-Reserved_example : Reserved libc half_full 6 (reserve libc 6 half_full)
reserve-Reserved_example = reserve-Reserved libc half_full 6 half_full-WellFormed

-- Six more bytes do not fit the block of eight, which grows to 256.
reserve_grows : ((reserve libc 6 half_full).0.alloc ≡ 256) × ((reserve libc 6 half_full).1 ≡ ok 5)
unfolding reserve check_reserve insane grow regrow claim maybe_pack
reserve_grows = (refl, refl)

abbrev fresh : Sshbuf
fresh = blank 1 (replicate 256 0)

new_runs : new libc true ≡ some fresh
unfolding new
new_runs = refl

abbrev three : Bytes
three = 1 ∷ 2 ∷ 3 ∷ []

-- The same buffer under a limit of ten bytes.
abbrev tight : Sshbuf
tight = record half_full { max_size = 10 }

tight-WellFormed : WellFormed tight
tight-WellFormed = ground arith

reset-insane_example : check_sanity (reset libc tight) ≡ err internal_error
reset-insane_example = reset-insane libc tight tight-WellFormed refl (omega arith) (λ e. cc e)

-- The block is trimmed to the five bytes in use.
set_max_size_runs : (set_max_size libc 6 half_full).0.alloc ≡ 5
unfolding set_max_size trim set_limit insane maybe_pack
set_max_size_runs = refl
