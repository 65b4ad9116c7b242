-- ===== src/Sharing/Drop.antt =====
-- `sshbuf_free`: what one call does to the structs of the store.
use libopenssh.Base.{
  ℕ, suc, ◌-◌, ◌≡◌, refl, true, false, arith, Option, some, none, ltb, ◌==◌, if◌then◌else◌,
}
use libopenssh.Sshbuf.{Sshbuf, insane}
use libopenssh.Sharing.{Store, update, drop_ref, forget_parent, free}

-- What is left of a struct that is given up once.
abbrev pub dropped : Sshbuf → Option Sshbuf
dropped b =
    if ltb 0 (b.refcount - 1)
    then some (record b { parent = none; refcount = b.refcount - 1 })
    else none

-- In the store `out` the struct at `i`, which was `b`, has been given up, and the others are as in `st`.
abbrev pub Dropped : Store → ℕ → Sshbuf → Store → Type 0
Dropped st i b out = (out i ≡ dropped b) × ((j : ℕ) → (j == i) ≡ false → out j ≡ st j)

pub here : (i : ℕ) → (i == i) ≡ true
here i = ground arith

update_here : (st : Store) (i : ℕ) (b : Option Sshbuf) → update st i b i ≡ b
update_here st i b = rw (here i) refl

drop_ref_at :
    (st : Store) (i : ℕ) (b : Sshbuf)
    → st i ≡ some b
    → drop_ref i st
      ≡ some (
          update st i (
            if ltb 0 (b.refcount - 1) then some (record b { refcount = b.refcount - 1 }) else none))
unfolding drop_ref
drop_ref_at st i b e = rw (e, drop_ref) refl

drop_ref-Dropped :
    (st : Store) (i : ℕ) (b : Sshbuf)
    → st i ≡ some b
    → (out : Store) × (drop_ref i (forget_parent i st) ≡ some out) × Dropped st i b out
drop_ref-Dropped st i b e =
    let forgot : forget_parent i st i ≡ some (record b { parent = none }) = rw (e, here i) refl in
    (
      update (forget_parent i st) i (dropped b),
      drop_ref_at (forget_parent i st) i (record b { parent = none }) forgot,
      (update_here (forget_parent i st) i (dropped b), λ j h. rw h refl),
    )

-- `sshbuf_free` on a sane struct gives it up once its parent has been given up.
pub free-Dropped :
    (fuel i : ℕ) (b : Sshbuf) (st st' : Store)
    → st i ≡ some b
    → insane b ≡ false
    → free fuel b.parent st ≡ some st'
    → st' i ≡ some b
    → (out : Store) × (free (suc fuel) (some i) st ≡ some out) × Dropped st' i b out
unfolding free
free-Dropped fuel i b st st' e sane up e' = rw (e, sane, up) (drop_ref-Dropped st' i b e')

-- On a sane struct without a parent.
pub free-root :
    (fuel i : ℕ) (b : Sshbuf) (st : Store)
    → st i ≡ some b
    → insane b ≡ false
    → b.parent ≡ none
    → (out : Store) × (free (suc fuel) (some i) st ≡ some out) × Dropped st i b out
free-root fuel i b st e sane root =
    free-Dropped fuel i b st st e sane (rw root (unfold free in refl)) e
