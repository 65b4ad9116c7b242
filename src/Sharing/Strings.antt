-- ===== src/Sharing/Strings.antt =====
-- `sshbuf_froms`: a child over the string at the front of a buffer.
use libopenssh.Base.{
  inl, inr, ℕ, ◌+◌, ◌-◌, ◌^◌, ◌≡◌, ◌<◌, refl, ◌∙◌, Bool, true, false, arith, Bytes, some, none,
  length, take, drop, ◌==◌, take_all, length-take, length-drop,
}
use libopenssh.Err.{Result, ok, err, fault, alloc_fail, message_incomplete}
use libopenssh.Libc.{size_t}
use libopenssh.Sshbuf.{Sshbuf, from, borrowed, consume}
use libopenssh.Sshbuf.Sanity.{WellFormed, insane-IsSane}
use libopenssh.Sshbuf.Content.{
  content, length-content, advance, consume_ok, advance-WellFormed, content-advance,
}
use libopenssh.Getput.{u32_of}
use libopenssh.Getput.Codec.{u32_of-lt}
use libopenssh.Getput.GetString.{
  HasString, Incomplete, front_string, front_cases, peek_complete, peek-Incomplete,
}
use libopenssh.Sharing.{Store, update, linked, returned, taken, froms}
use libopenssh.Sharing.Drop.{here}
use libopenssh.Sharing.Lifetime.{held, set_parent-ok}

-- The struct that is made over the string of `n` bytes.
abbrev pub string_view : ℕ → Sshbuf → Sshbuf
string_view n b = borrowed (b.cd + b.off + 4) (front_string n b) n

module _ (b : Sshbuf) (w : WellFormed b) (n : ℕ) (h : HasString n b) where
  length-front_string : length (front_string n b) ≡ n
  length-front_string =
      omega (arith, length-take n (drop 4 (content b)), length-drop 4 (content b), h.2)

  string_view-WellFormed : WellFormed (string_view n b)
  string_view-WellFormed = ground (arith, length-front_string, length-content b w, h.2)

  string_view-content : content (string_view n b) ≡ front_string n b
  unfolding content
  string_view-content = take_all (front_string n b) (n - 0) (omega (arith, length-front_string))

  from-string_view : from true (b.cd + b.off + 4) (front_string n b) n ≡ some (string_view n b)
  unfolding from
  from-string_view = ground (arith, length-content b w, h.2)

  taken-linked :
      (new_id i : ℕ) (st : Store)
      → taken new_id i (string_view n b) st (consume (size_t (n + 4)) b) ≡ (
        linked new_id i
            (string_view n b)
            (advance (n + 4) b)
            (update st i (some (advance (n + 4) b))),
        ok tt,
      )
  unfolding taken
  taken-linked new_id i st =
      let lt : n < 2 ^ 32 = omega (arith, u32_of-lt (content b), h.1) in
      let e : size_t (n + 4) ≡ n + 4 = omega arith in
      rw (e, consume_ok b (n + 4) w h.2)
        (set_parent-ok new_id i (string_view n b) (advance (n + 4) b) _
          (insane-IsSane _ string_view-WellFormed.sane)
          (insane-IsSane _ (advance-WellFormed b (n + 4) w h.2).sane))

-- What `sshbuf_froms` does with the store: a complete string is taken off the queue, and a read-only
-- child holds it; otherwise nothing changes.
abbrev pub StringViewed : Bool → Store → ℕ → ℕ → Sshbuf → Store × Result ℕ → Type 0
StringViewed struct_ok st new_id i b (out, ok k) =
    (n : ℕ) × HasString n b
    × (struct_ok ≡ true)
    × (k ≡ new_id)
    × (out new_id ≡ some (record (string_view n b) { parent = some i }))
    × WellFormed (string_view n b)
    × (content (string_view n b) ≡ front_string n b)
    × (out i ≡ some (held (advance (n + 4) b)))
    × (content (advance (n + 4) b) ≡ drop (n + 4) (content b))
    × ((j : ℕ) → (j == new_id) ≡ false → (j == i) ≡ false → out j ≡ st j)
StringViewed struct_ok st new_id i b (out, err alloc_fail) =
    (struct_ok ≡ false) × (HasString (u32_of (content b)) b) × (out ≡ st)
StringViewed struct_ok st new_id i b (out, err message_incomplete) = Incomplete b × (out ≡ st)
StringViewed struct_ok st new_id i b (out, err _) = ⊥
StringViewed struct_ok st new_id i b (out, fault) = ⊥

linked_pair :
    (new_id i : ℕ) (c p : Sshbuf) (st : Store)
    → (new_id == i) ≡ false
    → (linked new_id i c p st new_id ≡ some (record c { parent = some i }))
      × (linked new_id i c p st i ≡ some (held p))
      × ((j : ℕ) → (j == new_id) ≡ false → (j == i) ≡ false → linked new_id i c p st j ≡ st j)
linked_pair new_id i c p st apart =
    (rw (apart, here new_id) refl, rw (here i) refl, λ j h k. rw (k, h) refl)

from_refused : (p : ℕ) (blob : Bytes) (n : ℕ) → from false p blob n ≡ none
unfolding from
from_refused p blob n = ground arith

froms_complete :
    (struct_ok : Bool) (new_id i n : ℕ) (b : Sshbuf) (st : Store)
    → WellFormed b
    → HasString n b
    → (new_id == i) ≡ false
    → (out : Store × Result ℕ) × (froms struct_ok new_id i b st ≡ some out)
      × StringViewed struct_ok st new_id i b out
unfolding froms
froms_complete true new_id i n b st w h apart =
    let (p, seen, is, long) = peek_complete b w n h in
    let run = from-string_view b w n h in
    let made = update st new_id (some (string_view n b)) in
    let rest = update made i (some (advance (n + 4) b)) in
    let (c, q, others) = linked_pair new_id i (string_view n b) (advance (n + 4) b) rest apart in
    (
      (linked new_id i (string_view n b) (advance (n + 4) b) rest, ok new_id),
      rw (seen, is, run, taken-linked b w n h new_id i made, froms) (unfold returned in refl),
      (
        n,
        h,
        refl,
        refl,
        c,
        string_view-WellFormed b w n h,
        string_view-content b w n h,
        q,
        content-advance b (n + 4) w h.2,
        λ j k l. others j k l ∙ rw (l, k) refl,
      ),
    )
froms_complete false new_id i n b st w h apart =
    let (p, seen, is, long) = peek_complete b w n h in
    (
      (st, err alloc_fail),
      rw (seen, from_refused (b.cd + b.off + 4) (take n p) n, froms) refl,
      (refl, (h.0, refl, omega (arith, h.1, h.2)), refl),
    )

-- On a well-formed buffer sshbuf_froms takes one complete length-prefixed string off the queue and
-- returns a well-formed read-only child that holds the string, with the buffer held once more as its
-- parent; with an incomplete string, or without memory for the struct, it reports that and changes
-- nothing.
pub froms-StringViewed :
    (struct_ok : Bool) (new_id i : ℕ) (b : Sshbuf) (st : Store)
    → WellFormed b
    → (new_id == i) ≡ false
    → (out : Store × Result ℕ) × (froms struct_ok new_id i b st ≡ some out)
      × StringViewed struct_ok st new_id i b out
unfolding froms
froms-StringViewed struct_ok new_id i b st w apart = elim (front_cases b) [
  | inl has ↦ froms_complete struct_ok new_id i (u32_of (content b)) b st w has apart
  | inr not_all ↦ (
    (st, err message_incomplete),
    (rw (peek-Incomplete b w not_all, froms) refl),
    (not_all, refl),
  )
]
