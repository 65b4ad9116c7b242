-- ===== src/Sharing/Dangling.antt =====
-- `sshbuf_free` on a chain of a buffer, its child and the child of that.
use libopenssh.Base.{ℕ, suc, ◌-◌, ◌≤◌, ◌≡◌, refl, ◌∙◌, false, arith, some, none, ◌==◌}
use libopenssh.Sshbuf.{Sshbuf}
use libopenssh.Sshbuf.Sanity.{IsSane, insane-IsSane}
use libopenssh.Sharing.Drop.{dropped, free-Dropped, free-root}
use libopenssh.Sharing.{Store, free}

-- A buffer with one reference less and no parent.
abbrev pub released : Sshbuf → Sshbuf
released b = record b { parent = none; refcount = b.refcount - 1 }

dropped-released : (b : Sshbuf) → 2 ≤ b.refcount → dropped b ≡ some (released b)
dropped-released b h = ground arith

two_refs : (b : Sshbuf) → b.refcount ≡ 2 → 2 ≤ b.refcount
two_refs b h = omega (arith, h)

released-IsSane : (b : Sshbuf) → IsSane b → b.refcount ≡ 2 → IsSane (released b)
released-IsSane b s h = ground (arith, s, h)

released-gone : (b : Sshbuf) → b.refcount ≡ 2 → dropped (released b) ≡ none
released-gone b h = rw h refl

swap_apart : (i j : ℕ) → (i == j) ≡ false → (j == i) ≡ false
swap_apart i j h = ground arith

-- A chain in the store: `y` at `b` reads the block of `x` at `a`, and `z` at `c` that of `y`.
pub record Chain (st : Store) (a b c : ℕ) (x y z : Sshbuf) : Type 0 where
  pub at_a : st a ≡ some x
  pub at_b : st b ≡ some y
  pub at_c : st c ≡ some z
  pub x-sane : IsSane x
  pub y-sane : IsSane y
  pub x-root : x.parent ≡ none
  pub y-child : y.parent ≡ some a
  pub x-held : x.refcount ≡ 2
  pub y-held : y.refcount ≡ 2
  pub b-apart : (b == a) ≡ false
  pub c-apart_a : (c == a) ≡ false
  pub c-apart_b : (c == b) ≡ false

-- In a chain of three buffers, the first two of them sane and owned once besides their child, the
-- owner of the second gives it up: it stays, but its reference to the first is gone. When the owner
-- of the first gives that up, it ends, though the third, which reads its block, is there as before.
pub free-dangling :
    (fuel : ℕ) {a b c : ℕ} {x y z : Sshbuf} (st : Store)
    → Chain st a b c x y z
    → (mid out : Store) × (free (suc (suc fuel)) (some b) st ≡ some mid)
      × (mid b ≡ some (released y))
      × (mid a ≡ some (released x))
      × (free (suc fuel) (some a) mid ≡ some out)
      × (out a ≡ none)
      × (out b ≡ some (released y))
      × (out c ≡ some z)
free-dangling fuel {a} {b} {c} {x} {y} {z} st h =
    let (up, run, (x_up, same)) =
      free-root fuel a x st h.at_a (insane-IsSane x h.x-sane) h.x-root in
    let climb : free (suc fuel) y.parent st ≡ some up = rw h.y-child run in
    let (mid, run', (y_mid, same')) =
      free-Dropped (suc fuel) b y st up h.at_b (insane-IsSane y h.y-sane) climb
        (same b h.b-apart ∙ h.at_b) in
    let x_mid : mid a ≡ some (released x) =
      same' a (swap_apart b a h.b-apart) ∙ x_up ∙ dropped-released x (two_refs x h.x-held) in
    let y_at : mid b ≡ some (released y) = y_mid ∙ dropped-released y (two_refs y h.y-held) in
    let (out, run'', (x_out, same'')) =
      free-root fuel a (released x) mid x_mid
        (insane-IsSane (released x) (released-IsSane x h.x-sane h.x-held)) refl in
    (
      mid,
      out,
      run',
      y_at,
      x_mid,
      run'',
      x_out ∙ released-gone x h.x-held,
      same'' b h.b-apart ∙ y_at,
      same'' c h.c-apart_a ∙ same' c h.c-apart_b ∙ same c h.c-apart_a ∙ h.at_c,
    )
