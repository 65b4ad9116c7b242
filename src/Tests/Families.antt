-- ===== src/Tests/Families.antt =====
-- The theorems on several buffers at a concrete store.
use libopenssh.Base.{[], ◌∷◌, ℕ, ◌≡◌, refl, true, false, arith, ◌==◌, some, none}
use libopenssh.Sshbuf.{Sshbuf}
use libopenssh.Sshbuf.Sanity.{WellFormed}
use libopenssh.Sshbuf.Content.{content}
use libopenssh.Sharing.{Store, update, free, fromb, froms}
use libopenssh.Sharing.Lifetime.{Viewed, child, held, free-fromb, free_parent_first}
use libopenssh.Sharing.Strings.{StringViewed, froms-StringViewed}
use libopenssh.Err.{Result}
use libopenssh.Sharing.Dangling.{Chain, released, free-dangling}
use libopenssh.Getput.Between.{get_stringb, Moved, get_stringb-Moved}
use libopenssh.Tests.{libc, empty_buffer, empty_buffer-WellFormed, half_full, half_full-WellFormed}

-- One buffer, at 1.
abbrev alone : Store
alone = update (λ j. none) 1 (some half_full)

free-fromb_example :
    (fromb false 2 1 half_full alone ≡ some (alone, none))
    × (mid out : Store) × (fromb true 2 1 half_full alone ≡ some (mid, some 2))
    × Viewed alone 2 1 half_full mid
    × WellFormed (child 1 half_full)
    × (content (child 1 half_full) ≡ content half_full)
    × (free 2 (some 2) mid ≡ some out)
    × ((j : ℕ) → out j ≡ alone j)
free-fromb_example =
    free-fromb 0 2 1 half_full alone half_full-WellFormed refl (omega arith) refl refl

-- The buffer and a child of it, at 2.
abbrev two : Store
two = update (update (λ j. none) 1 (some (held half_full))) 2 (some (child 1 half_full))

free_parent_first_example :
    (left out : Store) × (free 1 (some 1) two ≡ some left)
    × (left 1 ≡ some half_full)
    × (left 2 ≡ some (child 1 half_full))
    × (free 2 (some 2) left ≡ some out)
    × (out 1 ≡ none)
    × (out 2 ≡ none)
    × ((j : ℕ) → (j == 1) ≡ false → (j == 2) ≡ false → out j ≡ two j)
free_parent_first_example =
    free_parent_first 0 2 1 half_full two half_full-WellFormed refl refl refl refl refl

-- A child of the child, at 3.
abbrev middle : Sshbuf
middle = held (child 1 half_full)

abbrev last : Sshbuf
last = child 2 (child 1 half_full)

abbrev three : Store
three = update (update (update (λ j. none) 1 (some (held half_full))) 2 (some middle)) 3 (some last)

three-Chain : Chain three 1 2 3 (held half_full) middle last
unfolding content
three-Chain = record {
  at_a = refl;
  at_b = refl;
  at_c = refl;
  x-sane = ground arith;
  y-sane = ground arith;
  x-root = refl;
  y-child = refl;
  x-held = refl;
  y-held = refl;
  b-apart = refl;
  c-apart_a = refl;
  c-apart_b = refl;
}

free-dangling_example :
    (mid out : Store) × (free 2 (some 2) three ≡ some mid)
    × (mid 2 ≡ some (released middle))
    × (mid 1 ≡ some (released (held half_full)))
    × (free 1 (some 1) mid ≡ some out)
    × (out 1 ≡ none)
    × (out 2 ≡ some (released middle))
    × (out 3 ≡ some last)
free-dangling_example = free-dangling 0 three three-Chain

-- The buffer of the tests holds the string of one byte, with nothing in front of its length.
abbrev one_string : Sshbuf
one_string = record half_full { mem = 0 ∷ 0 ∷ 0 ∷ 1 ∷ 5 ∷ 0 ∷ 0 ∷ 0 ∷ []; off = 0 }

abbrev strings : Store
strings = update (λ j. none) 1 (some one_string)

froms-StringViewed_example :
    (out : Store × Result ℕ) × (froms true 2 1 one_string strings ≡ some out)
    × StringViewed true strings 2 1 one_string out
froms-StringViewed_example = froms-StringViewed true 2 1 one_string strings (ground arith) refl

get_stringb-Moved_example :
    Moved libc one_string empty_buffer (get_stringb libc one_string empty_buffer)
get_stringb-Moved_example =
    get_stringb-Moved libc one_string empty_buffer (ground arith) empty_buffer-WellFormed
