-- ===== src/Sshbuf/Keeps.antt =====
-- What packing does: `sshbuf_maybe_pack` moves the queue to the front of its block.
use libopenssh.Base.{
  ℕ, ◌-◌, ◌≡◌, refl, ap, ◌∙◌, Bool, true, false, arith, take, drop, length-take, length-drop,
  length-append, take-take, take-append_le, ◌++◌,
}
use libopenssh.Sshbuf.{Sshbuf, maybe_pack, packed, locked}
use libopenssh.Sshbuf.Sanity.{WellFormed}
use libopenssh.Sshbuf.Content.{content}

-- What stays of a buffer when it is packed or grown.
pub record Keeps (b c : Sshbuf) : Type 0 where
  pub well_formed : WellFormed c
  pub content_kept : content c ≡ content b
  pub max_size_kept : c.max_size ≡ b.max_size
  pub readonly_kept : c.readonly ≡ b.readonly
  pub refcount_kept : c.refcount ≡ b.refcount
  pub parent_kept : c.parent ≡ b.parent

pub Keeps-self : (b : Sshbuf) → WellFormed b → Keeps b b
Keeps-self b w = record {
  well_formed = w;
  content_kept = refl;
  max_size_kept = refl;
  readonly_kept = refl;
  refcount_kept = refl;
  parent_kept = refl;
}

module _ (b : Sshbuf) (w : WellFormed b) where
  content-packed : content (packed b) ≡ content b
  unfolding content
  content-packed =
      let n = b.size - b.off in
      let front = take n (drop b.off b.mem) in
      ap (λ (k : ℕ). take k (front ++ drop n b.mem)) (omega arith)
      ∙ take-append_le n front (drop n b.mem)
          (omega (arith, length-take n (drop b.off b.mem), length-drop b.off b.mem))
      ∙ take-take n n (drop b.off b.mem) (omega arith)

  packed-WellFormed : (b.readonly ≡ false) → WellFormed (packed b)
  packed-WellFormed r =
      let n = b.size - b.off in
      ground (
        arith,
        length-append (take n (drop b.off b.mem)) (drop n b.mem),
        length-take n (drop b.off b.mem),
        length-drop b.off b.mem,
        length-drop n b.mem,
      )

  packed-Keeps : (b.readonly ≡ false) → Keeps b (packed b)
  packed-Keeps r = record {
    well_formed = packed-WellFormed r;
    content_kept = content-packed;
    max_size_kept = refl;
    readonly_kept = refl;
    refcount_kept = refl;
    parent_kept = refl;
  }

  -- Packing, forced or not, keeps the queue.
  pub maybe_pack-Keeps : (force : Bool) → Keeps b (maybe_pack b force)
  unfolding maybe_pack
  maybe_pack-Keeps force = ground (arith, packed-Keeps, Keeps-self b w)

  maybe_pack_forced : locked b ≡ false → maybe_pack b true ≡ packed b
  unfolding maybe_pack
  maybe_pack_forced u = rw u

pub Keeps-trans : {a b c : Sshbuf} → Keeps a b → Keeps b c → Keeps a c
Keeps-trans f g = record {
  well_formed = g.well_formed;
  content_kept = g.content_kept ∙ f.content_kept;
  max_size_kept = g.max_size_kept ∙ f.max_size_kept;
  readonly_kept = g.readonly_kept ∙ f.readonly_kept;
  refcount_kept = g.refcount_kept ∙ f.refcount_kept;
  parent_kept = g.parent_kept ∙ f.parent_kept;
}
