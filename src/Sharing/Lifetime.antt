-- ===== src/Sharing/Lifetime.antt =====
-- A child buffer from its creation to its end.
use libopenssh.Base.{
  ℕ, suc, ◌+◌, ◌≤◌, ◌<◌, ◌≡◌, inl, inr, refl, ap, sym, ◌∙◌, true, false, arith, Bool-cases, some,
  none, length, take, ◌==◌, ==_iff, ◌++◌, take_all, take-append_length,
}
use libopenssh.Err.{ok}
use libopenssh.Sshbuf.{Sshbuf, insane, from, borrowed, len, refs_max}
use libopenssh.Sshbuf.Sanity.{WellFormed, insane-IsSane}
use libopenssh.Sshbuf.Content.{content, length-content, len-content, ptr-content}
use libopenssh.Sharing.Drop.{here, dropped, free-Dropped, free-root}
use libopenssh.Sharing.{Store, update, free, linked, set_parent, child_of, or_free, fromb}

-- The child of a well-formed buffer: read-only, well formed, with the same queue.
abbrev pub view_of : Sshbuf → Sshbuf
view_of b = borrowed (b.cd + b.off) (content b) (length (content b))

pub child_of_ok : (b : Sshbuf) → WellFormed b → child_of true b ≡ some (view_of b)
unfolding child_of from
child_of_ok b w =
    let (rest, e) = ptr-content b w in
    let front : take (len b) (content b ++ rest) ≡ content b =
      rw (len-content b w) (take-append_length (content b) rest) in
    rw e (rw front (rw (len-content b w) (ground (arith, length-content b w))))

-- A buffer with one reference more.
abbrev pub held : Sshbuf → Sshbuf
held b = record b { refcount = b.refcount + 1 }

abbrev pub child : ℕ → Sshbuf → Sshbuf
child i b = record (view_of b) { parent = some i }

-- The child at `new_id` reads the queue of `b`; the parent at `i` is held once more, and so locked.
abbrev pub Viewed : Store → ℕ → ℕ → Sshbuf → Store → Type 0
Viewed st new_id i b out =
    (out new_id ≡ some (child i b))
    × (out i ≡ some (held b))
    × ((j : ℕ) → (j == new_id) ≡ false → (j == i) ≡ false → out j ≡ st j)

pub view_of-WellFormed : (b : Sshbuf) → WellFormed b → WellFormed (view_of b)
view_of-WellFormed b w = ground (arith, length-content b w)

child-WellFormed : (i : ℕ) (b : Sshbuf) → WellFormed b → WellFormed (child i b)
child-WellFormed i b w = ground (arith, length-content b w)

pub view_of-content : (b : Sshbuf) → content (view_of b) ≡ content b
unfolding content
view_of-content b = take_all _ _ (omega arith)

child-content : (i : ℕ) (b : Sshbuf) → content (child i b) ≡ content b
unfolding content
child-content i b = take_all _ _ (omega arith)

pub set_parent-ok :
    (new_id i : ℕ) (c p : Sshbuf) (st : Store)
    → insane c ≡ false
    → insane p ≡ false
    → set_parent new_id i c p st ≡ (linked new_id i c p st, ok tt)
unfolding set_parent
set_parent-ok new_id i c p st hc hp = rw (hc, hp) refl

fromb-linked :
    (new_id i : ℕ) (b : Sshbuf) (st : Store)
    → WellFormed b
    → fromb true new_id i b st
      ≡ some (linked new_id i (view_of b) b (update st new_id (some (view_of b))), some new_id)
unfolding fromb or_free
fromb-linked new_id i b st w =
    rw (insane-IsSane b w.sane, child_of_ok b w)
      (rw
        (set_parent-ok new_id i (view_of b) b (update st new_id (some (view_of b)))
          (insane-IsSane (view_of b) (view_of-WellFormed b w).sane) (insane-IsSane b w.sane))
        refl)

linked-Viewed :
    (new_id i : ℕ) (b : Sshbuf) (st : Store)
    → (new_id == i) ≡ false
    → Viewed st new_id i b (linked new_id i (view_of b) b (update st new_id (some (view_of b))))
linked-Viewed new_id i b st apart =
    (rw (apart, here new_id) refl, rw (here i) refl, λ j h k. rw (k, h) refl)

back : (b : Sshbuf) → b.parent ≡ none → 1 ≤ b.refcount → dropped (held b) ≡ some b
back b root h = ground arith

module _ (fuel new_id i : ℕ) (b : Sshbuf) (mid : Store) (w : WellFormed b) (root : b.parent ≡ none)
    (room : b.refcount < refs_max) where
  held-sane : insane (held b) ≡ false
  held-sane = insane-IsSane (held b) (ground arith)

  child-sane : insane (child i b) ≡ false
  child-sane = insane-IsSane (child i b) (child-WellFormed i b w).sane

  -- Giving up the parent of a child leaves it to the child.
  free-parent :
      mid i ≡ some (held b)
      → (out : Store) × (free (suc fuel) (some i) mid ≡ some out)
        × (out i ≡ some b)
        × ((j : ℕ) → (j == i) ≡ false → out j ≡ mid j)
  free-parent e =
      let (out, run, (gone, same)) = free-root fuel i (held b) mid e held-sane root in
      (out, run, gone ∙ back b root w.referenced, same)

  -- Giving up a child gives up the reference to its parent.
  free-child :
      (up : Store)
      → mid new_id ≡ some (child i b)
      → (new_id == i) ≡ false
      → free (suc fuel) (some i) mid ≡ some up
      → ((j : ℕ) → (j == i) ≡ false → up j ≡ mid j)
      → (out : Store) × (free (suc (suc fuel)) (some new_id) mid ≡ some out)
        × (out new_id ≡ none)
        × ((j : ℕ) → (j == new_id) ≡ false → out j ≡ up j)
  free-child up e apart run same =
      let (out, run', (gone, same')) =
        free-Dropped (suc fuel) new_id (child i b) mid up e child-sane run
          (same new_id apart ∙ e) in
      (out, run', gone, same')

apart_of : (st : Store) (j i : ℕ) (b : Sshbuf) → st i ≡ some b → st j ≡ none → (j == i) ≡ false
apart_of st j i b e fresh = elim (Bool-cases (j == i)) [
  | inl h ↦ absurd (cc (e, fresh, ap st ((==_iff j i).0 h)))
  | inr h ↦ h
]

last_reference : (b : Sshbuf) → b.refcount ≡ 1 → dropped b ≡ none
last_reference b one = ground arith

child_of_refused : (b : Sshbuf) → WellFormed b → child_of false b ≡ none
unfolding child_of from
child_of_refused b w = let (rest, e) = ptr-content b w in rw e (ground arith)

unlinked :
    (new_id i : ℕ) (b : Sshbuf) (st : Store)
    → WellFormed b
    → fromb false new_id i b st ≡ some (st, none)
unfolding fromb
unlinked new_id i b st w = rw (insane-IsSane b w.sane, child_of_refused b w) refl

-- On a well-formed buffer without a parent, and with room for one reference more: if memory for the
-- struct is granted, sshbuf_fromb makes a well-formed read-only child with the same queue, whose parent
-- is held once more, and giving the child up again by sshbuf_free brings every struct back to what it
-- was. If it is not granted, there is no child and no struct changes.
pub free-fromb :
    (fuel new_id i : ℕ) (b : Sshbuf) (st : Store)
    → WellFormed b
    → b.parent ≡ none
    → b.refcount < refs_max
    → st i ≡ some b
    → st new_id ≡ none
    → (fromb false new_id i b st ≡ some (st, none))
      × (mid out : Store) × (fromb true new_id i b st ≡ some (mid, some new_id))
      × Viewed st new_id i b mid
      × WellFormed (child i b)
      × (content (child i b) ≡ content b)
      × (free (suc (suc fuel)) (some new_id) mid ≡ some out)
      × ((j : ℕ) → out j ≡ st j)
free-fromb fuel new_id i b st w root room e fresh =
    let mid = linked new_id i (view_of b) b (update st new_id (some (view_of b))) in
    let apart : (new_id == i) ≡ false = apart_of st new_id i b e fresh in
    let (c, p, rest) = linked-Viewed new_id i b st apart in
    let (up, run, back_at, same) = free-parent fuel new_id i b mid w root room p in
    let (out, run', gone, same') = free-child fuel new_id i b mid w root room up c apart run same in
    (
      unlinked new_id i b st w,
      mid,
      out,
      fromb-linked new_id i b st w,
      (c, p, rest),
      child-WellFormed i b w,
      child-content i b,
      run',
      λ j. elim (Bool-cases (j == new_id)) [
        | inl k ↦
            ap out ((==_iff j new_id).0 k) ∙ gone ∙ sym fresh ∙ sym (ap st ((==_iff j new_id).0 k))
        | inr k ↦ elim (Bool-cases (j == i)) [
          | inl l ↦
              same' j k
              ∙ ap up ((==_iff j i).0 l)
              ∙ back_at
              ∙ sym e
              ∙ sym (ap st ((==_iff j i).0 l))
          | inr l ↦ same' j k ∙ same j l ∙ rest j k l
        ]
      ],
    )

-- If the only owner of a well-formed buffer without a parent gives it up while a child of it is
-- there, the buffer and the child stay as they are until the child is given up; both end then, and no
-- other struct changes.
pub free_parent_first :
    (fuel new_id i : ℕ) (b : Sshbuf) (mid : Store)
    → WellFormed b
    → b.parent ≡ none
    → b.refcount ≡ 1
    → (new_id == i) ≡ false
    → mid new_id ≡ some (child i b)
    → mid i ≡ some (held b)
    → (left out : Store) × (free (suc fuel) (some i) mid ≡ some left)
      × (left i ≡ some b)
      × (left new_id ≡ some (child i b))
      × (free (suc (suc fuel)) (some new_id) left ≡ some out)
      × (out i ≡ none)
      × (out new_id ≡ none)
      × ((j : ℕ) → (j == i) ≡ false → (j == new_id) ≡ false → out j ≡ mid j)
free_parent_first fuel new_id i b mid w root one apart c p =
    let room : b.refcount < refs_max = omega (arith, one) in
    let (left, run, b_at, same) = free-parent fuel new_id i b mid w root room p in
    let sane = insane-IsSane b w.sane in
    let (up, run', (gone, same')) = free-root fuel i b left b_at sane root in
    let c_left = same new_id apart ∙ c in
    let (out, run'', c_gone, same'') =
      free-child fuel new_id i b left w root room up c_left apart run' same' in
    (
      left,
      out,
      run,
      b_at,
      c_left,
      run'',
      same'' i (ground arith) ∙ gone ∙ last_reference b one,
      c_gone,
      λ j h k. same'' j k ∙ same' j h ∙ same j h,
    )
