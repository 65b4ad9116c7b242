-- ===== src/Sshbuf/Reserve.antt =====
-- `sshbuf_reserve`: packing, growing and claiming keep the queue, and space is refused exactly when
-- the limit forbids it or the allocator fails.
use libopenssh.Base.{
  ℕ, ◌+◌, ◌-◌, ◌≤◌, ◌<◌, ◌≡◌, inl, inr, refl, ap, sym, subst, true, false, arith, length, ltb,
  Bytes, Bool-cases, Option-cases, take-drop-agree, some, none, min,
}
use libopenssh.Err.{
  and_then, Error, Result, ok, err, fault, no_buffer_space, alloc_fail, buffer_read_only,
}
use libopenssh.Libc.{Allocator, size_t}
use libopenssh.Sshbuf.{
  Sshbuf, maybe_pack, locked, check_reserve, grown_size, regrow, claim, grow, reserve,
}
use libopenssh.Sshbuf.Sanity.{WellFormed, insane-IsSane}
use libopenssh.Sshbuf.Content.{content, length-content}
use libopenssh.Sshbuf.Keeps.{Keeps, Keeps-self, Keeps-trans, maybe_pack-Keeps}

-- `n` more bytes are within the limit.
abbrev pub Fits : ℕ → Sshbuf → Type 0
Fits n b = (locked b ≡ false) × (n + length (content b) ≤ b.max_size)

-- `n` bytes are set aside at offset `p`, behind the queue.
pub record Room (b : Sshbuf) (n p : ℕ) (c : Sshbuf) : Type 0 where
  pub keeps : Keeps b (record c { size = p })
  pub ends : p + n ≡ c.size
  pub inside : c.size ≤ c.alloc
  pub under_limit : c.alloc ≤ c.max_size

-- Why `sshbuf_reserve` gives up.
abbrev pub Refused : Allocator → Sshbuf → ℕ → Error → Type 0
Refused m b n buffer_read_only = locked b ≡ true
Refused m b n no_buffer_space = (locked b ≡ false) × (b.max_size < n + length (content b))
Refused m b n alloc_fail =
    Fits n b × ((p : ℕ) × (mem : Bytes) × (k : ℕ) × (m.realloc p mem k ≡ none))
Refused m b n _ = ⊥

abbrev pub Reserved : Allocator → Sshbuf → ℕ → Sshbuf × Result ℕ → Type 0
Reserved m b n (c, ok p) = Room b n p c × Fits n b
Reserved m b n (c, err e) = Keeps b c × Refused m b n e
Reserved m b n (c, fault) = ⊥

module _ (b : Sshbuf) (w : WellFormed b) (n : ℕ) where
  check_reserve_ok : Fits n b → check_reserve n b ≡ ok tt
  unfolding check_reserve
  check_reserve_ok f = ground (arith, insane-IsSane b w.sane, length-content b w)

  check_reserve_full :
      locked b ≡ false
      → b.max_size < n + length (content b)
      → check_reserve n b ≡ err no_buffer_space
  unfolding check_reserve
  check_reserve_full u h = ground (arith, insane-IsSane b w.sane, length-content b w)

  check_reserve-locked : locked b ≡ true → check_reserve n b ≡ err buffer_read_only
  unfolding check_reserve
  check_reserve-locked u = ground (arith, insane-IsSane b w.sane)

-- The size asked for holds the new bytes and stays within the limit.
pub grown_size_bounds :
    (b : Sshbuf) (n : ℕ)
    → WellFormed b
    → b.alloc < b.size + n
    → b.size + n ≤ b.max_size
    → (b.size + n ≤ grown_size n b) × (grown_size n b ≤ b.max_size)
grown_size_bounds b n w tall low = ground arith

module _ (m : Allocator) (b c : Sshbuf) (n : ℕ) (k : Keeps b c) (fits : Fits n b) where
  claim-Reserved : c.size + n ≤ c.alloc → Reserved m b n (claim n c)
  unfolding claim
  claim-Reserved h =
      let w = k.well_formed in
      let e : size_t (c.size + n) ≡ c.size + n = omega arith in
      rw e (record { keeps = k; ends = refl; inside = h; under_limit = w.alloc-le }, fits)

moved-Keeps :
    (m : Allocator) (c : Sshbuf) (n p : ℕ) (mem : Bytes)
    → WellFormed c
    → c.alloc < c.size + n
    → c.size + n ≤ c.max_size
    → m.realloc c.d c.mem (grown_size n c) ≡ some (p, mem)
    → Keeps c (record c { alloc = grown_size n c; d = p; cd = p; mem = mem })
unfolding content
moved-Keeps m c n p mem w tall low granted =
    let (lo, hi) = grown_size_bounds c n w tall low in
    let (there, long, same) = m.realloc_keeps c.d c.mem (grown_size n c) granted in
    record {
      well_formed = ground arith;
      content_kept =
          take-drop-agree (min (grown_size n c) (length c.mem)) c.off (c.size - c.off) mem c.mem
            same (omega arith);
      max_size_kept = refl;
      readonly_kept = refl;
      refcount_kept = refl;
      parent_kept = refl;
    }

Keeps-Fits : (n : ℕ) (b c : Sshbuf) → Keeps b c → Fits n b → Fits n c
Keeps-Fits n b c k f =
    let e : length (content c) ≡ length (content b) = ap length k.content_kept in ground arith

-- The buffer after a realloc that was granted.
abbrev moved : ℕ → Sshbuf → ℕ × Bytes → Sshbuf
moved n c (p, mem) = record c { alloc = grown_size n c; d = p; cd = p; mem = mem }

regrow_granted :
    (m : Allocator) (c : Sshbuf) (n : ℕ) (q : ℕ × Bytes)
    → m.realloc c.d c.mem (grown_size n c) ≡ some q
    → check_reserve n (moved n c q) ≡ ok tt
    → regrow m n c ≡ (moved n c q, ok tt)
unfolding regrow
regrow_granted m c n (p, mem) e fine = rw (e, regrow) (rw fine)

module _ (m : Allocator) (c : Sshbuf) (n : ℕ) (w : WellFormed c)
    (low : c.size + n ≤ c.max_size) where
  grow_room : c.size + n ≤ c.alloc → grow m n c ≡ claim n c
  unfolding grow
  grow_room h = ground arith

  grow_denied :
      c.alloc < c.size + n
      → m.realloc c.d c.mem (grown_size n c) ≡ none
      → grow m n c ≡ (c, err alloc_fail)
  unfolding grow regrow
  grow_denied h e = ground arith

  grow-moved :
      (q : ℕ × Bytes)
      → c.alloc < c.size + n
      → m.realloc c.d c.mem (grown_size n c) ≡ some q
      → check_reserve n (moved n c q) ≡ ok tt
      → grow m n c ≡ claim n (moved n c q)
  unfolding grow
  grow-moved q h e fine =
      let tall : ltb c.alloc (size_t (n + c.size)) ≡ true = ground arith in
      rw tall (
        ap (λ (r : Sshbuf × Result (Unit {0})). and_then r (λ _. claim n))
          (regrow_granted m c n q e fine))

module _ (m : Allocator) (b c : Sshbuf) (n : ℕ) (k : Keeps b c) (fits : Fits n b) where
  grow-Reserved_tall : c.size + n ≤ c.max_size → c.alloc < c.size + n → Reserved m b n (grow m n c)
  grow-Reserved_tall low tall = elim (Option-cases (m.realloc c.d c.mem (grown_size n c))) [
    | inl e ↦
        subst (Reserved m b n) (sym (grow_denied m c n k.well_formed low tall e))
          (k, (fits, (c.d, c.mem, grown_size n c, e)))
    | inr (q, e) ↦
        let kept = moved-Keeps m c n q.0 q.1 k.well_formed tall low e in
        let all = Keeps-trans k kept in
        let fine = check_reserve_ok (moved n c q) all.well_formed n (Keeps-Fits n b _ all fits) in
        subst (Reserved m b n) (sym (grow-moved m c n k.well_formed low q tall e fine)) (
          claim-Reserved m b (moved n c q) n all fits
            (grown_size_bounds c n k.well_formed tall low).0)
  ]

  grow-Reserved : c.size + n ≤ c.max_size → Reserved m b n (grow m n c)
  grow-Reserved low = elim (Bool-cases (ltb c.alloc (c.size + n))) [
    | inl tall ↦ grow-Reserved_tall low (ground arith)
    | inr room ↦
        subst (Reserved m b n) (sym (grow_room m c n k.well_formed low (ground arith)))
          (claim-Reserved m b c n k fits (ground arith))
  ]

-- Where the new bytes would run against the limit, packing makes room for them.
packed_low :
    (b : Sshbuf) (n : ℕ)
    → WellFormed b
    → Fits n b
    → (maybe_pack b (ltb b.max_size (size_t (b.size + n)))).size + n ≤ b.max_size
unfolding maybe_pack
packed_low b n w f = ground (arith, length-content b w)

reserve-Fits :
    (m : Allocator) (b : Sshbuf) (n : ℕ)
    → WellFormed b
    → Fits n b
    → reserve m n b ≡ grow m n (maybe_pack b (ltb b.max_size (size_t (b.size + n))))
unfolding reserve
reserve-Fits m b n w f = rw (check_reserve_ok b w n f)

reserve_refused :
    (m : Allocator) (b : Sshbuf) (n : ℕ) (e : Error)
    → check_reserve n b ≡ err e
    → reserve m n b ≡ (b, err e)
unfolding reserve
reserve_refused m b n e h = rw h

-- On a well-formed buffer `sshbuf_reserve` is defined behaviour and does one of four things. It sets
-- aside exactly `n` bytes behind the queue, which it keeps, within the limit; or it refuses because
-- the buffer is read-only or has children; or because the queue and the new bytes together exceed
-- the limit; or because the allocator refused. In the last three the queue is kept.
pub reserve-Reserved :
    (m : Allocator) (b : Sshbuf) (n : ℕ) → WellFormed b → Reserved m b n (reserve m n b)
reserve-Reserved m b n w = elim (Bool-cases (locked b)) [
  | inl u ↦
      subst (Reserved m b n) (sym (reserve_refused m b n _ (check_reserve-locked b w n u)))
        (Keeps-self b w, u)
  | inr u ↦ elim (Bool-cases (ltb b.max_size (n + length (content b)))) [
    | inl full ↦
        subst (Reserved m b n)
          (sym (reserve_refused m b n _ (check_reserve_full b w n u (ground arith))))
          (Keeps-self b w, (u, ground arith))
    | inr room ↦
        let fits = (let f : Fits n b = (u, ground arith) in f) in
        let k = maybe_pack-Keeps b w (ltb b.max_size (size_t (b.size + n))) in
        subst (Reserved m b n) (sym (reserve-Fits m b n w fits))
          (grow-Reserved m b _ n k fits (omega (arith, k.max_size_kept, packed_low b n w fits)))
  ]
]
