-- ===== src/Compat/Ciphers.antt =====
-- `compat_cipher_proposal`: the names of a proposal without those of AES.
use libopenssh.Base.{
  ℕ, ◌+◌, ◌-◌, ◌≤◌, ◌≡◌, inl, inr, refl, sym, ap, ◌∙◌, true, false, arith, Bool-cases, Bytes, List,
  [], ◌∷◌, ◌++◌, length, ◌==◌, if◌then◌else◌, length-append, append-nil, take_all, append_assoc,
}
use libopenssh.Match.{comma, tokens, prepend, at_end}
use libopenssh.Compat.{
  is_aes, has_bigendianaes, add_cipher, cipher_loop, unless_empty, compat_cipher_proposal, strlcat,
}
use libopenssh.Compat.Table.{Bugs}

-- The names that are left.
abbrev pub kept : List Bytes → List Bytes
kept [] = []
kept (cp ∷ cps) = let rest = kept cps in if is_aes cp then rest else cp ∷ rest

-- The names with a comma in front of each, and the list that they spell.
abbrev pub tail_list : List Bytes → Bytes
tail_list [] = []
tail_list (cp ∷ cps) = comma ∷ (cp ++ tail_list cps)

abbrev pub commas : List Bytes → Bytes
commas [] = []
commas (cp ∷ cps) = cp ++ tail_list cps

abbrev pub NonEmpty : List Bytes → Type 0
NonEmpty [] = Unit {0}
NonEmpty (cp ∷ cps) = (at_end cp ≡ false) × NonEmpty cps

-- The bytes that the names take with a separator or a NUL behind each.
abbrev room : List Bytes → ℕ
room [] = 0
room (cp ∷ cps) = length cp + 1 + room cps

room-prepend : (c : ℕ) (ts : List Bytes) → 1 ≤ room ts → room (prepend c ts) ≡ room ts + 1
unfolding prepend
room-prepend c [] h = absurd (omega arith)
room-prepend c (t ∷ ts) h = omega arith

room-tokens : (s : Bytes) → room (tokens s) ≡ length s + 1
unfolding tokens
room-tokens [] = refl
room-tokens (c ∷ s) = elim (Bool-cases (c == comma)) [
  | inl e ↦ rw e (omega (arith, room-tokens s))
  | inr e ↦
      rw e (omega (arith, room-tokens s, room-prepend c (tokens s) (omega (arith, room-tokens s))))
]

strlcat_fits :
    (dst src : Bytes) (size : ℕ)
    → length dst + length src + 1 ≤ size
    → strlcat dst src size ≡ dst ++ src
strlcat_fits dst src size h =
    ap (◌++◌ dst) (take_all src (size - 1 - length dst) (omega (arith, h)))

-- One further name behind names that are there.
added :
    (maxlen : ℕ) (acc t : Bytes)
    → length acc + length t + 2 ≤ maxlen
    → strlcat (strlcat acc (comma ∷ []) maxlen) t maxlen ≡ acc ++ (comma ∷ t)
added maxlen acc t h = rw (strlcat_fits acc (comma ∷ []) maxlen (omega (arith, h))) (
    strlcat_fits (acc ++ (comma ∷ [])) t maxlen (omega (arith, h, length-append acc (comma ∷ [])))
    ∙ append_assoc acc (comma ∷ []) t)

at_end-append : (s t : Bytes) → at_end s ≡ false → at_end (s ++ t) ≡ false
unfolding at_end
at_end-append [] t h = cc h
at_end-append (x ∷ s) t h = refl

-- A loop that has names already puts a comma in front of each further one.
cipher_loop_behind :
    (maxlen : ℕ) (acc : Bytes) (ts : List Bytes)
    → at_end acc ≡ false
    → NonEmpty ts
    → length acc + room ts + 1 ≤ maxlen
    → cipher_loop maxlen acc ts ≡ acc ++ tail_list (kept ts)
unfolding cipher_loop add_cipher
cipher_loop_behind maxlen acc [] a n h = sym (append-nil acc)
cipher_loop_behind maxlen acc (t ∷ ts) a (n, ns) h = elim (Bool-cases (is_aes t)) [
  | inl e ↦ rw e (cipher_loop_behind maxlen acc ts a ns (omega arith))
  | inr e ↦
      rw (e, a)
        (rw (added maxlen acc t (omega (arith, h))) (
          cipher_loop_behind maxlen (acc ++ (comma ∷ t)) ts (at_end-append acc (comma ∷ t) a) ns
            (omega (arith, h, length-append acc (comma ∷ t)))
          ∙ append_assoc acc (comma ∷ t) (tail_list (kept ts))))
]

cipher_loop_front :
    (maxlen : ℕ) (ts : List Bytes)
    → NonEmpty ts
    → room ts ≤ maxlen
    → cipher_loop maxlen [] ts ≡ commas (kept ts)
unfolding cipher_loop add_cipher at_end
cipher_loop_front maxlen [] n h = refl
cipher_loop_front maxlen (t ∷ ts) (n, ns) h = elim (Bool-cases (is_aes t)) [
  | inl e ↦ rw e (cipher_loop_front maxlen ts ns (omega arith))
  | inr e ↦ rw e (
      rw (take_all t (maxlen - 1 - 0) (omega (arith, h)))
        (cipher_loop_behind maxlen t ts n ns (omega (arith, h))))
]

-- For a peer with the flag SSH_BUG_BIGENDIANAES, a proposal without an empty name and memory granted,
-- compat_cipher_proposal returns the names that do not start with aes, in their order and with commas
-- between them, none of them cut short; if no name is left it returns a null pointer.
pub compat_cipher_proposal-commas :
    (cipher_prop : Bytes) (compat : Bugs)
    → has_bigendianaes compat ≡ true
    → NonEmpty (tokens cipher_prop)
    → compat_cipher_proposal true true cipher_prop compat
      ≡ unless_empty (commas (kept (tokens cipher_prop)))
unfolding compat_cipher_proposal
compat_cipher_proposal-commas cipher_prop compat h n = rw h (
    rw
      (cipher_loop_front (length cipher_prop + 1) (tokens cipher_prop) n
        (omega (arith, room-tokens cipher_prop)))
      refl)
