-- ===== src/Sshbuf/Limits.antt =====
-- Creating a buffer, emptying it and changing its limit.
use libopenssh.Base.{
  ℕ, ◌-◌, ◌≤◌, ◌<◌, ◌≡◌, ◌≢◌, ◌⊎◌, inl, inr, refl, ap, sym, subst, take_none, ◌∙◌, Bool, true,
  false, arith, length, drop, ltb, ◌==◌, Bytes, Bool-cases, Option-cases, replicate,
  length-replicate, length-drop, length-append, take_all, ◌++◌, [], some, none, not, ◌||◌,
}
use libopenssh.Err.{err, internal_error}
use libopenssh.Libc.{Allocator, Pointer}
use libopenssh.Sshbuf.{
  Sshbuf, size_max, size_init, insane, check_sanity, locked, blank, borrowed, new, from, reset,
  shrink_to_init, zeroed,
}
use libopenssh.Sshbuf.Sanity.{WellFormed, insane-IsSane}
use libopenssh.Sshbuf.Content.{content}

-- What `sshbuf_new` promises.
abbrev pub Fresh : Sshbuf → Type 0
Fresh b = WellFormed b × (content b ≡ []) × (locked b ≡ false) × (b.max_size ≡ size_max)

blank-Fresh :
    (p : Pointer) (mem : Bytes) → p ≢ 0 → mem ≡ replicate size_init 0 → Fresh (blank p mem)
unfolding blank content
blank-Fresh p mem h e =
    let l : length mem ≡ size_init = ap length e ∙ length-replicate {A = ℕ} size_init 0 in
    (ground arith, take_none (0 - 0) mem (omega arith), refl, refl)

new-eq-some :
    (m : Allocator) (struct_ok : Bool) {b : Sshbuf}
    → new m struct_ok ≡ some b
    → (q : Pointer × Bytes) × (m.calloc size_init ≡ some q) × (blank q.0 q.1 ≡ b)
unfolding new
new-eq-some m struct_ok e = ground arith

-- A new buffer is well formed, writable and empty, and its limit is the hard maximum.
pub new-Fresh : (m : Allocator) (struct_ok : Bool) {b : Sshbuf} → new m struct_ok ≡ some b → Fresh b
new-Fresh m struct_ok e =
    let (q, granted, is) = new-eq-some m struct_ok e in
    let (there, zero_filled) = m.calloc_zeroed size_init granted in
    subst Fresh is (blank-Fresh q.0 q.1 there zero_filled)

-- What `sshbuf_from` promises over a block.
abbrev pub Wraps : Bytes → Sshbuf → Type 0
Wraps blob b = WellFormed b × (content b ≡ blob) × (locked b ≡ true)

borrowed-Wraps :
    (p : Pointer) (blob : Bytes)
    → p ≢ 0
    → length blob ≤ size_max
    → Wraps blob (borrowed p blob (length blob))
unfolding content
borrowed-Wraps p blob h k = (ground arith, take_all blob (length blob - 0) (omega arith), refl)

-- `sshbuf_from` over a whole block refuses exactly a null pointer, a block over the hard maximum and
-- a failed allocation of the struct. Otherwise it gives a read-only, well-formed buffer that holds
-- the block.
pub from-Wraps :
    (struct_ok : Bool) (p : Pointer) (blob : Bytes)
    → (((p ≡ 0) ⊎ (size_max < length blob) ⊎ (struct_ok ≡ false))
        × (from struct_ok p blob (length blob) ≡ none))
      ⊎ ((b : Sshbuf) × (from struct_ok p blob (length blob) ≡ some b) × Wraps blob b)
unfolding from
from-Wraps struct_ok p blob =
    elim (Bool-cases (p == 0 || ltb size_max (length blob) || not struct_ok)) [
      | inl bad ↦ inl (ground arith, rw bad)
      | inr fine ↦ inr (
        borrowed p blob (length blob),
        rw fine,
        borrowed-Wraps p blob (ground arith) (ground arith),
      )
    ]

-- The buffer is well formed and empty.
abbrev pub Emptied : Sshbuf → Type 0
Emptied b = WellFormed b × (content b ≡ [])

reset-locked : (m : Allocator) (b : Sshbuf) → WellFormed b → locked b ≡ true → Emptied (reset m b)
unfolding reset content
reset-locked m b w u = rw u (ground arith, take_none (b.size - b.size) _ (omega arith))

-- The buffer that `sshbuf_reset` leaves before it looks at the allocation.
abbrev wiped : Sshbuf → Sshbuf
wiped b = record (zeroed b) { off = 0; size = 0 }

wiped-Emptied : (b : Sshbuf) → WellFormed b → Emptied (wiped b)
unfolding content
wiped-Emptied b w = (
  ground (
    arith,
    length-append (replicate {A = ℕ} b.alloc 0) (drop b.alloc b.mem),
    length-replicate {A = ℕ} b.alloc 0,
    length-drop b.alloc b.mem,
  ),
  take_none (0 - 0) (replicate b.alloc 0 ++ drop b.alloc b.mem) (omega arith),
)

reset_unlocked :
    (m : Allocator) (b : Sshbuf)
    → WellFormed b
    → locked b ≡ false
    → reset m b ≡ shrink_to_init m (wiped b)
unfolding reset
reset_unlocked m b w u = rw (u, insane-IsSane b w.sane)

shrunk-Emptied :
    (m : Allocator) (b : Sshbuf) (q : Pointer × Bytes)
    → WellFormed b
    → b.size ≡ 0
    → size_init ≤ b.max_size
    → m.realloc b.d b.mem size_init ≡ some q
    → Emptied (record b { d = q.0; cd = q.0; mem = q.1; alloc = size_init })
unfolding content
shrunk-Emptied m b q w z roomy e =
    let (there, long, same) = m.realloc_keeps b.d b.mem size_init e in
    (ground arith, take_none (b.size - b.off) _ (omega arith))

shrink_to_init-Emptied :
    (m : Allocator) (b : Sshbuf)
    → Emptied b
    → b.size ≡ 0
    → size_init ≤ b.max_size
    → Emptied (shrink_to_init m b)
unfolding shrink_to_init
shrink_to_init-Emptied m b (w, e) z roomy = elim (Bool-cases (b.alloc == size_init)) [
  | inl same ↦ rw same (w, e)
  | inr other ↦ rw other (elim (Option-cases (m.realloc b.d b.mem size_init)) [
    | inl denied ↦ rw (denied, shrink_to_init) (w, e)
    | inr (q, granted) ↦ rw (granted, shrink_to_init) (shrunk-Emptied m b q w z roomy granted)
  ])
]

-- `sshbuf_reset` empties a well-formed buffer whose limit is at least the initial allocation, and
-- keeps it well formed, whatever the allocator does.
pub reset-Emptied :
    (m : Allocator) (b : Sshbuf) → WellFormed b → size_init ≤ b.max_size → Emptied (reset m b)
reset-Emptied m b w roomy = elim (Bool-cases (locked b)) [
  | inl u ↦ reset-locked m b w u
  | inr u ↦
      subst Emptied (sym (reset_unlocked m b w u))
        (shrink_to_init-Emptied m (wiped b) (wiped-Emptied b w) refl roomy)
]

shrunk_too_large :
    (m : Allocator) (b : Sshbuf)
    → b.alloc ≤ b.max_size
    → b.max_size < size_init
    → m.realloc b.d b.mem size_init ≢ none
    → insane (shrink_to_init m b) ≡ true
unfolding shrink_to_init insane
shrunk_too_large m b a small granted = ground arith

-- With a limit below the initial allocation `sshbuf_reset` takes the buffer's block back up to the
-- initial allocation, past the limit, if the allocator grants it: the sanity test then refuses the
-- buffer.
pub reset-insane :
    (m : Allocator) (b : Sshbuf)
    → WellFormed b
    → locked b ≡ false
    → b.max_size < size_init
    → m.realloc b.d (wiped b).mem size_init ≢ none
    → check_sanity (reset m b) ≡ err internal_error
unfolding check_sanity
reset-insane m b w u small granted =
    let e : insane (reset m b) ≡ true =
      ap insane (reset_unlocked m b w u) ∙ shrunk_too_large m (wiped b) w.alloc-le small granted in
    rw e
