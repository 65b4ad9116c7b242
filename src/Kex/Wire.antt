-- ===== src/Kex/Wire.antt =====
-- Proposals on the wire: what `kex_prop2buf` writes and `kex_buf2prop` reads.
use libopenssh.Base.{
  inl, inr, Bool-cases, ℕ, zero, suc, ◌%◌, ◌≤◌, ◌<◌, ◌^◌, ◌≡◌, refl, ap, sym, subst, ◌∙◌, true,
  false, arith, Bytes, List, [], ◌∷◌, ◌++◌, length, replicate, append_assoc, append-nil,
  length-append,
}
use libopenssh.Err.{and_then, Result, ok}
use libopenssh.Libc.{Allocator}
use libopenssh.Sshbuf.{Sshbuf, Op, locked, reset, shrink_to_init, insane, size_init, consume}
use libopenssh.Sshbuf.Sanity.{WellFormed}
use libopenssh.Sshbuf.Content.{content, advance, consume_ok}
use libopenssh.Sshbuf.Limits.{reset-Emptied}
use libopenssh.Sshbuf.Reserve.{Fits}
use libopenssh.Getput.{
  put_u8, put_cstring, get_u8, get_u32, get_cstring, u32_bytes, string_max, byte_at,
}
use libopenssh.Getput.PutString.{framed}
use libopenssh.Getput.RoundTrip.{Returns, advance_front, get_u32_front, fixed_front}
use libopenssh.Getput.Cstring.{NoNul, get_cstring_front}
use libopenssh.Getput.Granted.{
  Grants, Writes, nothing-Writes, >>-Writes, put_u8-Writes, put_u32-Writes, put_cstring-Writes,
}
use libopenssh.Sharing.Lifetime.{view_of, child_of_ok, view_of-WellFormed, view_of-content}
use libopenssh.Kex.{
  cookie_len, proposal_max, put_zeros, put_names, kex_prop2buf, c_string, get_names, read_proposal,
  kex_buf2prop,
}

-- The strings of a proposal, each behind its length.
abbrev pub frames : List Bytes → Bytes
frames [] = []
frames (p ∷ ps) = framed p ++ frames ps

-- The strings are C strings that the format can hold.
abbrev pub AreNames : List Bytes → Type 0
AreNames [] = Unit {0}
AreNames (p ∷ ps) = NoNul p × (length p ≤ string_max) × AreNames ps

-- A KEXINIT message behind its type: a cookie, the names, a flag and a reserved word.
abbrev pub message : Bytes → List Bytes → ℕ → ℕ → Bytes
message cookie ps flag reserved = cookie ++ (frames ps ++ ((flag ∷ []) ++ u32_bytes reserved))

c_string-NoNul : (v : Bytes) → NoNul v → c_string (v ++ (0 ∷ [])) ≡ v
c_string-NoNul [] h = refl
c_string-NoNul (x ∷ v) (h, hs) = rw h (ap (◌∷◌ x) (c_string-NoNul v hs))

-- Two reads, one after the other.
Returns-then :
    {A B : Type 0} (out : Sshbuf × Result A) (f : A → Op B) (a : A) (q : Bytes) (b' : B)
    (q' : Bytes)
    → Returns out a q
    → ((c : Sshbuf) → WellFormed c → content c ≡ q → Returns (f a c) b' q')
    → Returns (and_then out f) b' q'
Returns-then out f a q b' q' (c, e, w, k) next = rw e (next c w k)

get_names_front :
    (ps : List Bytes) (rest : Bytes) (b : Sshbuf)
    → AreNames ps
    → WellFormed b
    → content b ≡ frames ps ++ rest
    → Returns (get_names true (length ps) b) ps rest
unfolding get_names
get_names_front [] rest b h w e = (b, refl, w, e)
get_names_front (p ∷ ps) rest b (clean, short, hs) w e =
    Returns-then (get_cstring true b) _ (p ++ (0 ∷ []), length p) (frames ps ++ rest) (p ∷ ps) rest
      (get_cstring_front b p (frames ps ++ rest) w short clean
        (e ∙ append_assoc (framed p) (frames ps) rest))
      λ c wc ec.
        Returns-then (get_names true (length ps) c) _ ps rest (p ∷ ps) rest
          (get_names_front ps rest c hs wc ec)
          λ d wd ed. (d, ap (λ (q : Bytes). (d, ok (q ∷ ps))) (c_string-NoNul p clean), wd, ed)

module _ (cookie : Bytes) (ps : List Bytes) (flag reserved : ℕ) (sized : length cookie ≡ cookie_len)
    (ten : length ps ≡ proposal_max) (names : AreNames ps) (word : reserved < 2 ^ 32) where
  consume_cookie :
      (b : Sshbuf) (rest : Bytes)
      → WellFormed b
      → content b ≡ cookie ++ rest
      → Returns (consume cookie_len b) tt rest
  consume_cookie b rest w e =
      let long : cookie_len ≤ length (content b) =
        omega (arith, ap length e, length-append cookie rest, sized) in
      let (w', e') = rw sized at (advance_front b cookie rest w e) in
      (advance cookie_len b, consume_ok b cookie_len w long, w', e')

  ten_names :
      (b : Sshbuf) (rest : Bytes)
      → WellFormed b
      → content b ≡ frames ps ++ rest
      → Returns (get_names true proposal_max b) ps rest
  ten_names b rest w e =
      subst (λ (n : ℕ). Returns (get_names true n b) ps rest) ten
        (get_names_front ps rest b names w e)

  flag_byte :
      (b : Sshbuf) (rest : Bytes)
      → WellFormed b
      → content b ≡ (flag ∷ []) ++ rest
      → Returns (get_u8 b) (flag % 256) rest
  unfolding get_u8
  flag_byte b rest w e =
      fixed_front (λ v. byte_at v 0) b 1 (flag ∷ []) rest (flag % 256) w refl refl e

  read_proposal_front :
      (b : Sshbuf)
      → WellFormed b
      → content b ≡ message cookie ps flag reserved
      → Returns (read_proposal true b) (reserved, ps) []
  unfolding read_proposal
  read_proposal_front b w e =
      Returns-then (consume cookie_len b) _ tt (frames ps ++ ((flag ∷ []) ++ u32_bytes reserved)) _
        _ (consume_cookie b _ w e)
        λ c wc ec.
          Returns-then (get_names true proposal_max c) _ ps ((flag ∷ []) ++ u32_bytes reserved) _ _
            (ten_names c _ wc ec)
            λ d wd ed.
              Returns-then (get_u8 d) _ (flag % 256) (u32_bytes reserved) _ _ (flag_byte d _ wd ed)
                λ f wf ef.
                  Returns-then (get_u32 f) _ reserved [] (reserved, ps) []
                    (get_u32_front f reserved [] wf word
                      (ef ∙ sym (append-nil (u32_bytes reserved))))
                    λ g wg eg. (g, refl, wg, eg)

-- From a well-formed buffer that holds a KEXINIT message of ten C strings, and with memory granted,
-- kex_buf2prop returns exactly these strings, whatever the cookie is. The number that goes out as
-- first_kex_follows is the reserved word of the message, whatever its flag is.
pub kex_buf2prop-message :
    (cookie : Bytes) (ps : List Bytes) (flag reserved : ℕ) (raw : Sshbuf)
    → length cookie ≡ cookie_len
    → length ps ≡ proposal_max
    → AreNames ps
    → reserved < 2 ^ 32
    → WellFormed raw
    → content raw ≡ message cookie ps flag reserved
    → kex_buf2prop true raw ≡ ok (reserved, ps)
unfolding kex_buf2prop
kex_buf2prop-message cookie ps flag reserved raw sized ten names word w e =
    let (c, run, _, _) =
      read_proposal_front cookie ps flag reserved sized ten names word (view_of raw)
        (view_of-WellFormed raw w) (view_of-content raw ∙ e) in
    rw (child_of_ok raw w, kex_buf2prop) (ap (λ q. q.1) run)

module _ (m : Allocator) (all : Grants m) where
  put_zeros-Writes : (n : ℕ) → Writes (put_zeros m n) (replicate n 0)
  unfolding put_zeros
  put_zeros-Writes zero = nothing-Writes
  put_zeros-Writes (suc n) =
      >>-Writes (put_u8 m 0) (put_zeros m n) (0 ∷ []) (replicate n 0) (put_u8-Writes m all 0)
        (put_zeros-Writes n)

  put_names-Writes : (ps : List Bytes) → AreNames ps → Writes (put_names m ps) (frames ps)
  unfolding put_names
  put_names-Writes [] h = nothing-Writes
  put_names-Writes (p ∷ ps) (_, short, hs) =
      >>-Writes (put_cstring m p) (put_names m ps) (framed p) (frames ps)
        (put_cstring-Writes m all p short) (put_names-Writes ps hs)

  shrink_frame :
      (b : Sshbuf)
      → ((shrink_to_init m b).max_size ≡ b.max_size)
        × ((shrink_to_init m b).readonly ≡ b.readonly)
        × ((shrink_to_init m b).refcount ≡ b.refcount)
  unfolding shrink_to_init
  shrink_frame b = ground arith

  reset_frame :
      (b : Sshbuf)
      → ((reset m b).max_size ≡ b.max_size)
        × ((reset m b).readonly ≡ b.readonly)
        × ((reset m b).refcount ≡ b.refcount)
  unfolding reset
  reset_frame b = elim (Bool-cases (locked b)) [
    | inl e ↦ rw e (refl, refl, refl)
    | inr e ↦ elim (Bool-cases (insane b)) [
      | inl k ↦ rw (e, k) (shrink_frame _)
      | inr k ↦ rw (e, k) (shrink_frame _)
    ]
  ]

  -- The bytes as the chain of writers appends them.
  message-eq :
      (zeros fs tail word : Bytes)
      → ((zeros ++ fs) ++ tail) ++ word ≡ zeros ++ (fs ++ (tail ++ word))
  message-eq zeros fs tail word = simp append_assoc

  -- With memory granted, kex_prop2buf writes a message with a cookie of zeros to every well-formed,
  -- writable buffer whose limit has room for it.
  pub kex_prop2buf-message :
      (ps : List Bytes) (b : Sshbuf)
      → AreNames ps
      → WellFormed b
      → locked b ≡ false
      → size_init ≤ b.max_size
      → length (message (replicate cookie_len 0) ps 0 0) ≤ b.max_size
      → (c : Sshbuf) × (kex_prop2buf m ps b ≡ (c, ok tt))
        × WellFormed c
        × (content c ≡ message (replicate cookie_len 0) ps 0 0)
  unfolding kex_prop2buf
  kex_prop2buf-message ps b names w u roomy fits =
      let (e, keeps, refs) = reset_frame b in
      let (w', empty) = reset-Emptied m b w roomy in
      let whole = message-eq (replicate cookie_len 0) (frames ps) (0 ∷ []) (u32_bytes 0) in
      let f : Fits (length (((replicate cookie_len 0 ++ frames ps) ++ (0 ∷ [])) ++ u32_bytes 0))
          (reset m b) =
        (ground (arith, keeps, refs), omega (arith, ap length whole, ap length empty, e)) in
      let (c, run, a) =
        >>-Writes _ _ _ (u32_bytes 0)
          (>>-Writes _ _ _ (0 ∷ [])
            (>>-Writes _ _ (replicate cookie_len 0) (frames ps) (put_zeros-Writes cookie_len)
              (put_names-Writes ps names))
            (put_u8-Writes m all 0))
          (put_u32-Writes m all 0) (reset m b) w' f in
      (
        c,
        run,
        a.well_formed,
        a.appended
            ∙ ap
                (λ (q : Bytes).
                  q ++ (((replicate cookie_len 0 ++ frames ps) ++ (0 ∷ [])) ++ u32_bytes 0))
                empty
            ∙ whole,
      )

  -- What kex_prop2buf writes of ten C strings, with memory granted and room in a well-formed, writable
  -- buffer whose limit is at least the size of a new block, kex_buf2prop reads back.
  pub kex_buf2prop-prop2buf :
      (ps : List Bytes) (b : Sshbuf)
      → length ps ≡ proposal_max
      → AreNames ps
      → WellFormed b
      → locked b ≡ false
      → size_init ≤ b.max_size
      → length (message (replicate cookie_len 0) ps 0 0) ≤ b.max_size
      → (c : Sshbuf) × (kex_prop2buf m ps b ≡ (c, ok tt)) × (kex_buf2prop true c ≡ ok (0, ps))
  kex_buf2prop-prop2buf ps b ten names w u roomy fits =
      let (c, run, w', e) = kex_prop2buf-message ps b names w u roomy fits in
      (
        c,
        run,
        kex_buf2prop-message (replicate cookie_len 0) ps 0 0 c refl ten names (omega arith) w' e,
      )
