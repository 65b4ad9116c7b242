-- ===== src/Getput/Put.antt =====
-- Writing: every writer appends exactly its encoding to the queue, or keeps the queue and reports why.
use libopenssh.Base.{
  ℕ, ◌+◌, ◌-◌, ◌≤◌, ◌%◌, ◌≡◌, ◌≢◌, inl, inr, refl, ap, sym, subst, ◌∙◌, arith, none, length, take,
  drop, Bytes, ◌∷◌, [], length-take, length-drop, length-append, drop-append_le, drop-take,
  take-append_length, append-nil, append_assoc, ◌++◌,
}
use libopenssh.Err.{and_then, Result, ok, err, fault}
use libopenssh.Libc.{Allocator, overwrite}
use libopenssh.Sshbuf.{Sshbuf, reserve}
use libopenssh.Sshbuf.Sanity.{WellFormed}
use libopenssh.Sshbuf.Content.{content}
use libopenssh.Sshbuf.Keeps.{Keeps}
use libopenssh.Sshbuf.Refusals.{Refused-cases}
use libopenssh.Sshbuf.Reserve.{Fits, Room, Refused, Reserved, reserve-Reserved}
use libopenssh.Getput.{
  store, put, put_u16, put_u32, put_u64, put_u8, u16_bytes, u32_bytes, u64_bytes,
}
use libopenssh.Getput.Codec.{length-u16_bytes, length-u32_bytes, length-u64_bytes}

-- The queue of `b` and then `v` stand in front of offset `p`, and `n` bytes are still to be written.
pub record Filled (b : Sshbuf) (v : Bytes) (n p : ℕ) (c : Sshbuf) : Type 0 where
  pub well_formed : WellFormed c
  pub head : content (record c { size = p }) ≡ content b ++ v
  pub ends : p + n ≡ c.size
  pub starts : c.off ≤ p
  pub max_size_kept : c.max_size ≡ b.max_size
  pub readonly_kept : c.readonly ≡ b.readonly
  pub refcount_kept : c.refcount ≡ b.refcount
  pub parent_kept : c.parent ≡ b.parent

-- `v` is appended to the queue, and nothing else of the abstract state changes.
pub record Appends (b : Sshbuf) (v : Bytes) (c : Sshbuf) : Type 0 where
  pub well_formed : WellFormed c
  pub appended : content c ≡ content b ++ v
  pub max_size_kept : c.max_size ≡ b.max_size
  pub readonly_kept : c.readonly ≡ b.readonly
  pub refcount_kept : c.refcount ≡ b.refcount
  pub parent_kept : c.parent ≡ b.parent

pub Room-Filled : (b : Sshbuf) (n p : ℕ) (c : Sshbuf) → Room b n p c → Filled b [] n p c
Room-Filled b n p c r =
    let w = r.keeps.well_formed in
    record {
      well_formed = ground (arith, r.ends, r.inside, r.under_limit);
      head = r.keeps.content_kept ∙ sym (append-nil (content b));
      ends = r.ends;
      starts = w.off-le;
      max_size_kept = r.keeps.max_size_kept;
      readonly_kept = r.keeps.readonly_kept;
      refcount_kept = r.keeps.refcount_kept;
      parent_kept = r.keeps.parent_kept;
    }

pub Filled-Appends :
    (b : Sshbuf) (v : Bytes) (p : ℕ) (c : Sshbuf) → Filled b v 0 p c → Appends b v c
unfolding content
Filled-Appends b v p c f =
    let e : p ≡ c.size = omega (arith, f.ends) in
    record {
      well_formed = f.well_formed;
      appended = ap (λ (s : ℕ). take (s - c.off) (drop c.off c.mem)) (sym e) ∙ f.head;
      max_size_kept = f.max_size_kept;
      readonly_kept = f.readonly_kept;
      refcount_kept = f.refcount_kept;
      parent_kept = f.parent_kept;
    }

-- Bytes written at offset `p`, behind the part from `off` to `p`.
overwrite_window :
    (off p q : ℕ) (v mem : Bytes)
    → off ≤ p
    → p + length v ≤ length mem
    → q ≡ p + length v
    → take (q - off) (drop off (overwrite p v mem)) ≡ take (p - off) (drop off mem) ++ v
overwrite_window off p q v mem h k e =
    let tail = drop (p + length v) mem in
    let window = take (p - off) (drop off mem) in
    let cut =
      drop-append_le off (take p mem) (v ++ tail) (omega (arith, length-take p mem))
      ∙ ap (λ (xs : Bytes). xs ++ (v ++ tail)) (drop-take off p (p - off) mem (omega arith))
      ∙ sym (append_assoc window v tail) in
    let n : q - off ≡ length (window ++ v) =
      omega (
        arith,
        length-append window v,
        length-take (p - off) (drop off mem),
        length-drop off mem,
      ) in
    ap (take (q - off)) cut
    ∙ ap (λ (k : ℕ). take k ((window ++ v) ++ tail)) n
    ∙ take-append_length (window ++ v) tail

length-overwrite :
    (p : ℕ) (v mem : Bytes) → p + length v ≤ length mem → length (overwrite p v mem) ≡ length mem
length-overwrite p v mem h = omega (
  arith,
  length-append (take p mem) (v ++ drop (p + length v) mem),
  length-append v (drop (p + length v) mem),
  length-take p mem,
  length-drop (p + length v) mem,
)

store_fits :
    (p : ℕ) (v : Bytes) (c : Sshbuf)
    → p + length v ≤ length c.mem
    → store p v c ≡ (record c { mem = overwrite p v c.mem }, ok tt)
unfolding store
store_fits p v c h = ground arith

module _ (b : Sshbuf) (u v : Bytes) (n p : ℕ) (c : Sshbuf) (f : Filled b u n p c)
    (fits : length v ≤ n) where
  stored-Filled :
      Filled b (u ++ v) (n - length v) (p + length v) (record c { mem = overwrite p v c.mem })
  unfolding content
  stored-Filled =
      let w = f.well_formed in
      let room : p + length v ≤ length c.mem = omega (arith, f.ends) in
      record {
        well_formed = ground (arith, length-overwrite p v c.mem room);
        head =
            overwrite_window c.off p (p + length v) v c.mem f.starts room refl
            ∙ ap (λ (xs : Bytes). xs ++ v) f.head
            ∙ append_assoc (take (b.size - b.off) (drop b.off b.mem)) u v;
        ends = omega (arith, f.ends);
        starts = omega (arith, f.starts);
        max_size_kept = f.max_size_kept;
        readonly_kept = f.readonly_kept;
        refcount_kept = f.refcount_kept;
        parent_kept = f.parent_kept;
      }

  -- The store is inside the block, and puts `v` behind what was written before.
  pub store-Filled :
      (d : Sshbuf) × (store p v c ≡ (d, ok tt)) × Filled b (u ++ v) (n - length v) (p + length v) d
  store-Filled =
      let w = f.well_formed in
      (
        record c { mem = overwrite p v c.mem },
        store_fits p v c (omega (arith, f.ends)),
        stored-Filled,
      )

-- What a writer of `v` leaves.
abbrev pub Written : Allocator → Sshbuf → Bytes → Sshbuf × Result (Unit {0}) → Type 0
Written m b v (c, ok _) = Appends b v c × Fits (length v) b
Written m b v (c, err e) = Keeps b c × Refused m b (length v) e
Written m b v (c, fault) = ⊥

pub store-Written :
    (m : Allocator) (b : Sshbuf) (v : Bytes) (out : Sshbuf × Result ℕ)
    → Reserved m b (length v) out
    → Written m b v (and_then out (λ p. store p v))
store-Written m b v (c, ok p) (room, fits) =
    let n = length v in
    let (d, e, f) = store-Filled b [] v n p c (Room-Filled b n p c room) (omega arith) in
    let done : n - n ≡ 0 = omega arith in
    let f' = subst (λ k. Filled b v k (p + n) d) done f in
    subst (Written m b v) (sym e) (Filled-Appends b v (p + n) d f', fits)
store-Written m b v (c, err e) (keeps, why) = (keeps, why)
store-Written m b v (c, fault) h = h

-- `sshbuf_put` on a well-formed buffer is defined behaviour. It appends exactly `v` to the queue if
-- the buffer is writable, the limit allows it and the allocator agrees; otherwise it keeps the queue
-- and returns the error of the condition that failed.
pub put-Written :
    (m : Allocator) (b : Sshbuf) (v : Bytes) → WellFormed b → Written m b v (put m v b)
unfolding put
put-Written m b v w =
    store-Written m b v (reserve m (length v) b) (reserve-Reserved m b (length v) w)

-- The writer of fixed-size integers with encoding `v`.
store_fixed-Written :
    (m : Allocator) (b : Sshbuf) (n : ℕ) (v : Bytes)
    → WellFormed b
    → length v ≡ n
    → Written m b v (and_then (reserve m n b) (λ p. store p v))
store_fixed-Written m b n v w e =
    store-Written m b v (reserve m n b) (rw e (reserve-Reserved m b n w))

-- `sshbuf_put_u32` on a well-formed buffer appends the four bytes of the value, the highest first, or
-- keeps the queue and returns the error of the condition that failed.
pub put_u32-Written :
    (m : Allocator) (b : Sshbuf) (v : ℕ) → WellFormed b → Written m b (u32_bytes v) (put_u32 m v b)
unfolding put_u32
put_u32-Written m b v w = store_fixed-Written m b 4 (u32_bytes v) w (length-u32_bytes v)

pub put_u64-Written :
    (m : Allocator) (b : Sshbuf) (v : ℕ) → WellFormed b → Written m b (u64_bytes v) (put_u64 m v b)
unfolding put_u64
put_u64-Written m b v w = store_fixed-Written m b 8 (u64_bytes v) w (length-u64_bytes v)

pub put_u16-Written :
    (m : Allocator) (b : Sshbuf) (v : ℕ) → WellFormed b → Written m b (u16_bytes v) (put_u16 m v b)
unfolding put_u16
put_u16-Written m b v w = store_fixed-Written m b 2 (u16_bytes v) w (length-u16_bytes v)

pub put_u8-Written :
    (m : Allocator) (b : Sshbuf) (v : ℕ) → WellFormed b → Written m b (v % 256 ∷ []) (put_u8 m v b)
unfolding put_u8
put_u8-Written m b v w = store_fixed-Written m b 1 (v % 256 ∷ []) w refl

pub Written-granted :
    (m : Allocator) (b : Sshbuf) (v : Bytes) (out : Sshbuf × Result (Unit {0}))
    → Fits (length v) b
    → ((p : ℕ) (mem : Bytes) (k : ℕ) → m.realloc p mem k ≢ none)
    → Written m b v out
    → (c : Sshbuf) × (out ≡ (c, ok tt)) × Appends b v c
Written-granted m b v (c, ok _) f all (a, _) = (c, refl, a)
Written-granted m b v (c, err e) f all (k, why) = elim (Refused-cases m b (length v) e why) [
  | inl (is, u) ↦ cc (u, f.0)
  | inr (inl (is, u, h)) ↦ absurd (omega (arith, h, f))
  | inr (inr (is, fits, (p, mem, n, r))) ↦ absurd (all p mem n r)
]
Written-granted m b v (c, fault) f all why = absurd why

-- With an allocator that grants every request, `sshbuf_put` succeeds on every writable buffer whose
-- limit has room, and appends the bytes.
pub put_granted :
    (m : Allocator) (b : Sshbuf) (v : Bytes)
    → WellFormed b
    → Fits (length v) b
    → ((p : ℕ) (mem : Bytes) (k : ℕ) → m.realloc p mem k ≢ none)
    → (c : Sshbuf) × (put m v b ≡ (c, ok tt)) × Appends b v c
put_granted m b v w f all = Written-granted m b v (put m v b) f all (put-Written m b v w)
