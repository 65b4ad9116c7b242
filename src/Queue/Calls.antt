-- ===== src/Queue/Calls.antt =====
-- The buffer's functions as answers to the calls of its clients, in any order.
use libopenssh.Base.{
  zero, suc, ℕ, ◌+◌, ◌-◌, ◌≤◌, ◌<◌, ◌≡◌, inl, inr, refl, ap, sym, ◌∙◌, subst, Bool, true, false,
  arith, Bool-cases, Bytes, List, [], ◌∷◌, ◌++◌, length, take, drop, ltb, take-append-drop,
  length-drop,
}
use libopenssh.Err.{Error, Result, ok, err, fault, alloc_fail, message_incomplete}
use libopenssh.Libc.{Allocator}
use libopenssh.Sshbuf.{Sshbuf, Op, locked}
use libopenssh.Sshbuf as S
use libopenssh.Sshbuf.Sanity.{WellFormed}
use libopenssh.Sshbuf.Keeps.{Keeps}
use libopenssh.Sshbuf.Refusals.{Refused-cases}
use libopenssh.Sshbuf.Reserve.{Refused}
use libopenssh.Sshbuf.Content.{
  content, consume_ok, consume_short, consume_end_ok, consume_end_short, advance,
  advance-WellFormed, content-advance, retract, retract-WellFormed, content-retract,
}
use libopenssh.Getput as G
use libopenssh.Getput.Put.{Written, put-Written}
use libopenssh.Getput.PutString.{StringWritten, put_string-StringWritten}
use libopenssh.Getput.Get.{Got, Takes, get-Got}
use libopenssh.Getput.GetString.{StringGot, get_string-StringGot}
use libopenssh.Queue.{
  Queue, Call, put, put_string, get, get_string, consume, consume_end, Refuses, without, Answers,
  Explains,
}

-- A result without a value.
abbrev pub silent : {A : Type 0} → Sshbuf × Result A → Sshbuf × Result Bytes
silent (b, ok _) = (b, ok [])
silent (b, err e) = (b, err e)
silent (b, fault) = (b, fault)

-- The pointer of a string that is returned with its length.
abbrev pub bytes_of : Sshbuf × Result (Bytes × ℕ) → Sshbuf × Result Bytes
bytes_of (b, ok (v, n)) = (b, ok v)
bytes_of (b, err e) = (b, err e)
bytes_of (b, fault) = (b, fault)

unfoldable pub perform : Allocator → Call → Op Bytes
perform m (put v) b = silent (G.put m v b)
perform m (put_string v) b = silent (G.put_string m v b)
perform m (get n) b = G.get n b
perform m (get_string copy_ok) b = bytes_of (G.get_string copy_ok b)
perform m (consume n) b = silent (S.consume n b)
perform m (consume_end n) b = silent (S.consume_end n b)

-- The calls in order, with what each returns.
unfoldable pub perform_all : Allocator → List Call → Sshbuf → Sshbuf × List (Result Bytes)
perform_all m [] b = (b, [])
perform_all m (c ∷ cs) b =
    let (b', r) = perform m c b in let (d, rs) = perform_all m cs b' in (d, r ∷ rs)

-- The queue that a buffer stands for.
abbrev pub queue_of : Sshbuf → Queue
queue_of b = record { bytes = content b; limit = b.max_size; frozen = locked b }

queue_eq :
    (b c : Sshbuf) (v : Bytes)
    → content c ≡ v
    → c.max_size ≡ b.max_size
    → c.readonly ≡ b.readonly
    → c.refcount ≡ b.refcount
    → queue_of c ≡ record (queue_of b) { bytes = v }
queue_eq b c v h k l n = cc (h, k, l, n)

Keeps-queue : {b c : Sshbuf} → Keeps b c → queue_of c ≡ queue_of b
Keeps-queue {b} {c} k =
    queue_eq b c (content b) k.content_kept k.max_size_kept k.readonly_kept k.refcount_kept

-- A buffer answers as a queue, and stays well formed.
abbrev pub Refines : Sshbuf → Call → Sshbuf × Result Bytes → Type 0
Refines b c (b', r) = WellFormed b' × Answers (queue_of b) c r (queue_of b')

Refused-Refuses :
    (m : Allocator) (b c : Sshbuf) (n : ℕ) (e : Error)
    → Keeps b c
    → Refused m b n e
    → Refuses n (queue_of b) (err e) × (queue_of c ≡ queue_of b)
Refused-Refuses m b c n e k why = elim (Refused-cases m b n e why) [
  | inl (is, u) ↦ rw is (u, Keeps-queue k)
  | inr (inl (is, u, h)) ↦ rw is ((u, h), Keeps-queue k)
  | inr (inr (is, fits, _)) ↦ rw is (fits, Keeps-queue k)
]

Written-Refines :
    (m : Allocator) (b : Sshbuf) (v : Bytes) (out : Sshbuf × Result (Unit {0}))
    → Written m b v out
    → Refines b (put v) (silent out)
Written-Refines m b v (c, ok _) (a, fits) = (
  a.well_formed,
  inl (
    refl,
    fits,
    queue_eq b c (content b ++ v) a.appended a.max_size_kept a.readonly_kept a.refcount_kept,
  ),
)
Written-Refines m b v (c, err e) (k, why) =
    (k.well_formed, inr (Refused-Refuses m b c (length v) e k why))
Written-Refines m b v (c, fault) h = absurd h

StringWritten-Refines :
    (m : Allocator) (b : Sshbuf) (v : Bytes) (out : Sshbuf × Result (Unit {0}))
    → StringWritten m b v out
    → Refines b (put_string v) (silent out)
StringWritten-Refines m b v (c, ok _) (a, short, fits) = (
  a.well_formed,
  inl (
    refl,
    short,
    fits,
    queue_eq b c _ a.appended a.max_size_kept a.readonly_kept a.refcount_kept,
  ),
)
StringWritten-Refines m b v (c, err e) (k, inl (long, is)) =
    (k.well_formed, inr (inl (long, ap err is, Keeps-queue k)))
StringWritten-Refines m b v (c, err e) (k, inr why) =
    (k.well_formed, inr (inr (Refused-Refuses m b c (length v + 4) e k why)))
StringWritten-Refines m b v (c, fault) h = absurd h

drop-take_append : (n : ℕ) (xs ys : Bytes) → n ≤ length xs → drop n (take n xs ++ ys) ≡ ys
drop-take_append zero xs ys h = refl
drop-take_append (suc n) [] ys h = absurd (omega arith)
drop-take_append (suc n) (x ∷ xs) ys h = drop-take_append n xs ys (omega arith)

-- What is taken from the front is gone.
Takes-queue :
    {b c : Sshbuf} (n : ℕ)
    → n ≤ length (content b)
    → Takes b (take n (content b)) c
    → queue_of c ≡ without n (queue_of b)
Takes-queue {b} {c} n h t =
    queue_eq b c (drop n (content b))
      (sym (ap (drop n) t.taken ∙ drop-take_append n (content b) (content c) h)) t.max_size_kept
      t.readonly_kept t.refcount_kept

Got-Refines :
    (n : ℕ) (b : Sshbuf) (out : Sshbuf × Result Bytes)
    → WellFormed b
    → Got (λ v. v) n b out
    → Refines b (get n) out
Got-Refines n b (c, ok v) w (h, t, is) = (t.well_formed, inl (h, ap ok is, Takes-queue n h t))
Got-Refines n b (c, err e) w (few, same, is) =
    (subst WellFormed (sym same) w, inr ((few, ap err is), ap queue_of same))
Got-Refines n b (c, fault) w h = absurd h

StringGot-Refines :
    (copy_ok : Bool) (b : Sshbuf) (out : Sshbuf × Result (Bytes × ℕ))
    → WellFormed b
    → StringGot copy_ok b out
    → Refines b (get_string copy_ok) (bytes_of out)
StringGot-Refines true b (c, ok (v, n)) w (has, t, is, _) =
    (t.well_formed, inl (n, has, ap ok is, Takes-queue (n + 4) has.2 t))
StringGot-Refines false b (c, ok (v, n)) w (has, t, is, no_copy) = cc no_copy
StringGot-Refines true b (c, err message_incomplete) w (no_string, same) =
    (subst WellFormed (sym same) w, inr (no_string, refl, ap queue_of same))
StringGot-Refines false b (c, err message_incomplete) w (no_string, same) =
    (subst WellFormed (sym same) w, inr (no_string, refl, ap queue_of same))
StringGot-Refines true b (c, err alloc_fail) w (no_copy, _) = cc no_copy
StringGot-Refines false b (c, err alloc_fail) w (_, (n, has, t)) =
    (t.well_formed, inl (n, has, refl, Takes-queue (n + 4) has.2 t))
StringGot-Refines copy_ok b (c, err _) w h = absurd h
StringGot-Refines copy_ok b (c, fault) w h = absurd h

module _ (n : ℕ) (b : Sshbuf) (w : WellFormed b) where
  consume-Refines : Refines b (consume n) (silent (S.consume n b))
  consume-Refines = elim (Bool-cases (ltb (length (content b)) n)) [
    | inl few ↦
        let short : length (content b) < n = ground arith in
        rw (consume_short b n w short) (w, inr ((short, refl), refl))
    | inr all ↦
        let h : n ≤ length (content b) = ground arith in
        rw (consume_ok b n w h) (
          advance-WellFormed b n w h,
          inl (h, refl, queue_eq b (advance n b) _ (content-advance b n w h) refl refl refl),
        )
  ]

  consume_end-Refines : Refines b (consume_end n) (silent (S.consume_end n b))
  consume_end-Refines = elim (Bool-cases (ltb (length (content b)) n)) [
    | inl few ↦
        let short : length (content b) < n = ground arith in
        rw (consume_end_short b n w short) (w, inr ((short, refl), refl))
    | inr all ↦
        let h : n ≤ length (content b) = ground arith in
        let k = length (content b) - n in
        rw (consume_end_ok b n w h) (
          retract-WellFormed b n w h,
          inl (
            h,
            refl,
            (
              take k (content b),
              drop k (content b),
              sym (take-append-drop k (content b)),
              omega (arith, length-drop k (content b)),
              queue_eq b (retract n b) _ (content-retract b n w h) refl refl refl,
            ),
          ),
        )
  ]

perform-Refines :
    (m : Allocator) (c : Call) (b : Sshbuf) → WellFormed b → Refines b c (perform m c b)
unfolding perform
perform-Refines m (put v) b w = Written-Refines m b v (G.put m v b) (put-Written m b v w)
perform-Refines m (put_string v) b w =
    StringWritten-Refines m b v (G.put_string m v b) (put_string-StringWritten m b v w)
perform-Refines m (get n) b w = Got-Refines n b (G.get n b) w (get-Got n b w)
perform-Refines m (get_string copy_ok) b w =
    StringGot-Refines copy_ok b (G.get_string copy_ok b) w (get_string-StringGot copy_ok b w)
perform-Refines m (consume n) b w = consume-Refines n b w
perform-Refines m (consume_end n) b w = consume_end-Refines n b w

-- From every well-formed buffer, whatever calls a client makes in whatever order and whenever the
-- allocator refuses memory, the results are answers that the bounded queue of the buffer's bytes may
-- give to these calls in this order, and the buffer that is left is well formed and stands for the
-- queue that is left.
pub perform_all-Refines :
    (m : Allocator) (cs : List Call) (b : Sshbuf)
    → WellFormed b
    → WellFormed (perform_all m cs b).0
      × Explains (queue_of b) cs (perform_all m cs b).1 (queue_of (perform_all m cs b).0)
unfolding perform_all
perform_all-Refines m [] b w = (w, refl)
perform_all-Refines m (c ∷ cs) b w =
    let (w', a) = perform-Refines m c b w in
    let (w'', rest) = perform_all-Refines m cs (perform m c b).0 w' in
    (w'', (queue_of (perform m c b).0, a, rest))
