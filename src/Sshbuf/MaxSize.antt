-- ===== src/Sshbuf/MaxSize.antt =====
-- `sshbuf_set_max_size`: a new limit, packing and trimming the block where that is needed.
use libopenssh.Base.{
  ℕ, ◌-◌, ◌≤◌, ◌<◌, ◌≡◌, ◌⊎◌, inl, inr, refl, ◌∙◌, Bool, true, false, arith, length, take, drop,
  ltb, ◌==◌, Bytes, Bool-cases, Option-cases, replicate, length-replicate, length-take, length-drop,
  length-append, take-take, take-append_le, take-drop-agree, ◌++◌, some, none, min, ◌&&◌,
}
use libopenssh.Err.{Error, Result, ok, err, fault, no_buffer_space, alloc_fail, buffer_read_only}
use libopenssh.Libc.{Allocator, Pointer}
use libopenssh.Sshbuf.{
  Sshbuf, size_max, maybe_pack, locked, tail_zeroed, trim, set_limit, set_max_size, and_then,
}
use libopenssh.Sshbuf.Sanity.{WellFormed, insane-IsSane}
use libopenssh.Sshbuf.Content.{content}
use libopenssh.Sshbuf.Keeps.{Keeps, Keeps-self, Keeps-trans, maybe_pack-Keeps}

module _ (b : Sshbuf) (w : WellFormed b) where
  length-tail_zeroed : length (tail_zeroed b) ≡ b.alloc
  length-tail_zeroed =
      let gap = replicate {A = ℕ} (b.alloc - b.size) 0 in
      omega (
        arith,
        length-append (take b.size b.mem) (gap ++ drop b.alloc b.mem),
        length-append gap (drop b.alloc b.mem),
        length-take b.size b.mem,
        length-replicate {A = ℕ} (b.alloc - b.size) 0,
        length-drop b.alloc b.mem,
      )

  take-tail_zeroed : take b.size (tail_zeroed b) ≡ take b.size b.mem
  take-tail_zeroed =
      let rest = replicate {A = ℕ} (b.alloc - b.size) 0 ++ drop b.alloc b.mem in
      take-append_le b.size (take b.size b.mem) rest (omega (arith, length-take b.size b.mem))
      ∙ take-take b.size b.size b.mem (omega arith)

  tail_zeroed-Keeps : Keeps b (record b { mem = tail_zeroed b })
  unfolding content
  tail_zeroed-Keeps = record {
    well_formed = ground (arith, length-tail_zeroed);
    content_kept =
        take-drop-agree b.size b.off (b.size - b.off) (tail_zeroed b) b.mem take-tail_zeroed
          (omega arith);
    max_size_kept = refl;
    readonly_kept = refl;
    refcount_kept = refl;
    parent_kept = refl;
  }

trimmed-Keeps :
    (m : Allocator) (b : Sshbuf) (q : Pointer × Bytes)
    → WellFormed b
    → m.realloc b.d (tail_zeroed b) b.size ≡ some q
    → Keeps b (record b { d = q.0; cd = q.0; mem = q.1; alloc = b.size })
unfolding content
trimmed-Keeps m b q w e =
    let (there, long, same) = m.realloc_keeps b.d (tail_zeroed b) b.size e in
    let l = length-tail_zeroed b w in
    let n : min b.size (length (tail_zeroed b)) ≡ b.size = omega arith in
    let front = (rw n at same) ∙ take-tail_zeroed b w in
    record {
      well_formed = ground arith;
      content_kept = take-drop-agree b.size b.off (b.size - b.off) q.1 b.mem front (omega arith);
      max_size_kept = refl;
      readonly_kept = refl;
      refcount_kept = refl;
      parent_kept = refl;
    }

-- A trim is not needed, is made, or is denied by the allocator.
data Trimmed (m : Allocator) (n : ℕ) (b : Sshbuf) : Sshbuf × Result (Unit {0}) → Type 0 where
  unneeded : (n < b.alloc → n ≤ b.size) → Trimmed m n b (b, ok tt)
  made : (c : Sshbuf) → b.size < n → c.alloc ≡ b.size → Keeps b c → Trimmed m n b (c, ok tt)
  denied :
      (c : Sshbuf)
      → Keeps b c
      → m.realloc b.d (tail_zeroed b) b.size ≡ none
      → Trimmed m n b (c, err alloc_fail)

trim-Trimmed : (m : Allocator) (n : ℕ) (b : Sshbuf) → WellFormed b → Trimmed m n b (trim m n b)
unfolding trim
trim-Trimmed m n b w = elim (Bool-cases (ltb n b.alloc && ltb b.size n)) [
  | inr no_need ↦ rw no_need (unneeded (λ h. ground arith))
  | inl needed ↦ rw needed (elim (Option-cases (m.realloc b.d (tail_zeroed b) b.size)) [
    | inl e ↦ rw (e, trim) (denied _ (tail_zeroed-Keeps b w) e)
    | inr (q, e) ↦ rw (e, trim) (made _ (ground arith) refl (trimmed-Keeps m b q w e))
  ])
]

-- Why a new limit is declined.
abbrev pub Declined : Allocator → ℕ → Sshbuf → Error → Type 0
Declined m n b buffer_read_only = locked b ≡ true
Declined m n b no_buffer_space =
    (locked b ≡ false)
    × ((size_max < n) ⊎ ((n < b.alloc) × (n ≤ (maybe_pack b (ltb n b.size)).size)))
Declined m n b alloc_fail =
    (locked b ≡ false) × ((p : Pointer) × (mem : Bytes) × (k : ℕ) × (m.realloc p mem k ≡ none))
Declined m n b _ = ⊥

-- What `sshbuf_set_max_size` leaves.
abbrev pub Limited : Allocator → ℕ → Sshbuf → Sshbuf × Result (Unit {0}) → Type 0
Limited m n b (c, ok _) =
    WellFormed c
    × (content c ≡ content b)
    × (c.max_size ≡ n)
    × (c.readonly ≡ b.readonly)
    × (c.refcount ≡ b.refcount)
Limited m n b (c, err e) = Keeps b c × Declined m n b e
Limited m n b (c, fault) = ⊥

maybe_pack_alloc : (b : Sshbuf) (force : Bool) → (maybe_pack b force).alloc ≡ b.alloc
unfolding maybe_pack
maybe_pack_alloc b force = ground arith

raised-Limited :
    (m : Allocator) (n : ℕ) (b c : Sshbuf)
    → n ≤ size_max
    → Keeps b c
    → c.alloc ≤ n
    → Limited m n b (record c { max_size = n }, ok tt)
unfolding content
raised-Limited m n b c top k h =
    (ground (arith, k.well_formed), k.content_kept, refl, k.readonly_kept, k.refcount_kept)

module _ (m : Allocator) (n : ℕ) (b c : Sshbuf) (u : locked b ≡ false) (top : n ≤ size_max)
    (k : Keeps b c) where
  limit_after :
      (n < b.alloc → n ≤ (maybe_pack b (ltb n b.size)).size)
      → c.alloc ≡ b.alloc
      → Limited m n b (set_limit n c)
  unfolding set_limit
  limit_after short same = elim (Bool-cases (ltb n c.alloc)) [
    | inl low ↦ let l : n < b.alloc = ground arith in rw low (k, (u, inr (l, short l)))
    | inr high ↦ rw high (raised-Limited m n b c top k (ground arith))
  ]

  limit_trimmed : c.alloc ≤ n → Limited m n b (set_limit n c)
  unfolding set_limit
  limit_trimmed h =
      let high : ltb n c.alloc ≡ false = ground arith in rw high (raised-Limited m n b c top k h)

Trimmed-Limited :
    (m : Allocator) (n : ℕ) (b : Sshbuf) {out : Sshbuf × Result (Unit {0})}
    → locked b ≡ false
    → n ≤ size_max
    → Keeps b (maybe_pack b (ltb n b.size))
    → Trimmed m n (maybe_pack b (ltb n b.size)) out
    → Limited m n b (and_then out (λ _. set_limit n))
Trimmed-Limited m n b u top k (unneeded h) =
    limit_after m n b _ u top k (rw maybe_pack_alloc at h) (maybe_pack_alloc b _)
Trimmed-Limited m n b u top k (made c h e kept) =
    limit_trimmed m n b c u top (Keeps-trans k kept) (omega arith)
Trimmed-Limited m n b u top k (denied c kept e) = (Keeps-trans k kept, (u, (_, _, _, e)))

-- On a well-formed buffer `sshbuf_set_max_size` keeps the queue on every path. It sets the limit, or
-- declines and keeps the old one: because the buffer is read-only or shared; because the limit is
-- over the hard maximum, or below the allocation and not above what the packed block has in use; or
-- because the allocator refused.
pub set_max_size-Limited :
    (m : Allocator) (n : ℕ) (b : Sshbuf) → WellFormed b → Limited m n b (set_max_size m n b)
unfolding set_max_size
set_max_size-Limited m n b w = rw (insane-IsSane b w.sane) (elim (Bool-cases (n == b.max_size)) [
  | inl same ↦ rw same (w, refl, ground arith, refl, refl)
  | inr other ↦ rw other (elim (Bool-cases (locked b)) [
    | inl u ↦ rw u (Keeps-self b w, u)
    | inr u ↦ rw u (elim (Bool-cases (ltb size_max n)) [
      | inl over ↦ rw over (Keeps-self b w, (u, inl (ground arith)))
      | inr under ↦
          let k = maybe_pack-Keeps b w (ltb n b.size) in
          rw under (Trimmed-Limited m n b u (ground arith) k (trim-Trimmed m n _ k.well_formed))
    ])
  ])
])
