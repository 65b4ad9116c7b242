-- ===== src/Getput/Granted.antt =====
-- With an allocator that grants every request, writers succeed where the limit has room. A writer of
-- several values is a writer of what they append together.
use libopenssh.Base.{
  ℕ, ◌+◌, ◌%◌, ◌≤◌, ◌≡◌, ◌≢◌, inl, inr, refl, ap, sym, ◌∙◌, arith, Bytes, [], ◌∷◌, ◌++◌, length,
  none, length-append, append_assoc, append-nil,
}
use libopenssh.Err.{Result, ok, err, fault}
use libopenssh.Libc.{Allocator}
use libopenssh.Sshbuf.{Sshbuf, Op, ◌>>◌, return}
use libopenssh.Sshbuf.Sanity.{WellFormed}
use libopenssh.Sshbuf.Content.{content}
use libopenssh.Sshbuf.Reserve.{Fits}
use libopenssh.Sshbuf.Refusals.{Refused-cases}
use libopenssh.Getput.{put_u8, put_u32, put_string, put_cstring, string_max, u32_bytes}
use libopenssh.Getput.Codec.{length-u32_bytes}
use libopenssh.Getput.Put.{Appends, Written-granted, put_u8-Written, put_u32-Written}
use libopenssh.Getput.PutString.{framed, StringWritten, put_string-StringWritten}

abbrev pub Grants : Allocator → Type 0
Grants m = (p : ℕ) (mem : Bytes) (k : ℕ) → m.realloc p mem k ≢ none

-- The operation appends `v` to every well-formed buffer that has room for it.
abbrev pub Writes : Op (Unit {0}) → Bytes → Type 0
Writes op v =
    (b : Sshbuf)
    → WellFormed b
    → Fits (length v) b
    → (c : Sshbuf) × (op b ≡ (c, ok tt)) × Appends b v c

pub nothing-Writes : Writes (return tt) []
nothing-Writes b w f = (
  b,
  refl,
  record {
    well_formed = w;
    appended = sym (append-nil (content b));
    max_size_kept = refl;
    readonly_kept = refl;
    refcount_kept = refl;
    parent_kept = refl;
  },
)

Appends-Fits :
    {b c : Sshbuf} (v w : Bytes) → Appends b v c → Fits (length (v ++ w)) b → Fits (length w) c
Appends-Fits {b} {c} v w a f = (
  ground (arith, a.readonly_kept, a.refcount_kept),
  omega (
    arith,
    f.1,
    ap length a.appended,
    length-append v w,
    length-append (content b) v,
    a.max_size_kept,
  ),
)

Appends-append :
    {b c d : Sshbuf} (v w : Bytes) → Appends b v c → Appends c w d → Appends b (v ++ w) d
Appends-append {b} {c} {d} v w p q = record {
  well_formed = q.well_formed;
  appended = q.appended ∙ ap (λ (s : Bytes). s ++ w) p.appended ∙ append_assoc (content b) v w;
  max_size_kept = q.max_size_kept ∙ p.max_size_kept;
  readonly_kept = q.readonly_kept ∙ p.readonly_kept;
  refcount_kept = q.refcount_kept ∙ p.refcount_kept;
  parent_kept = q.parent_kept ∙ p.parent_kept;
}

-- One after the other.
pub >>-Writes :
    (p q : Op (Unit {0})) (v w : Bytes) → Writes p v → Writes q w → Writes (p >> q) (v ++ w)
>>-Writes p q v w hp hq b wb f =
    let (c, e, a) = hp b wb (f.0, omega (arith, f.1, length-append v w)) in
    let (d, e', a') = hq c a.well_formed (Appends-Fits v w a f) in
    (d, rw e e', Appends-append v w a a')

module _ (m : Allocator) (all : Grants m) where
  pub put_u8-Writes : (x : ℕ) → Writes (put_u8 m x) (x % 256 ∷ [])
  put_u8-Writes x b w f =
      Written-granted m b (x % 256 ∷ []) (put_u8 m x b) f all (put_u8-Written m b x w)

  pub put_u32-Writes : (x : ℕ) → Writes (put_u32 m x) (u32_bytes x)
  put_u32-Writes x b w f =
      Written-granted m b (u32_bytes x) (put_u32 m x b) f all (put_u32-Written m b x w)

  string-granted :
      (b : Sshbuf) (v : Bytes) (out : Sshbuf × Result (Unit {0}))
      → length v ≤ string_max
      → Fits (length (framed v)) b
      → StringWritten m b v out
      → (c : Sshbuf) × (out ≡ (c, ok tt)) × Appends b (framed v) c
  string-granted b v (c, ok _) short f (a, _, _) = (c, refl, a)
  string-granted b v (c, err e) short f (k, inl (long, _)) = absurd (omega (arith, long, short))
  string-granted b v (c, err e) short f (k, inr why) =
      let size : length (framed v) ≡ length v + 4 =
        omega (arith, length-append (u32_bytes (length v)) v, length-u32_bytes (length v)) in
      elim (Refused-cases m b (length v + 4) e why) [
        | inl (is, u) ↦ cc (u, f.0)
        | inr (inl (is, u, h)) ↦ absurd (omega (arith, h, f, size))
        | inr (inr (is, fits, (p, mem, n, r))) ↦ absurd (all p mem n r)
      ]
  string-granted b v (c, fault) short f h = absurd h

  pub put_cstring-Writes : (v : Bytes) → length v ≤ string_max → Writes (put_cstring m v) (framed v)
  unfolding put_cstring
  put_cstring-Writes v short b w f =
      string-granted b v (put_string m v b) short f (put_string-StringWritten m b v w)
