-- ===== src/Queue.antt =====
-- What ssh/sshbuf.c and ssh/sshbuf-getput-basic.c promise of a buffer: a bounded queue of bytes. Its
-- calls are answered by a relation, since realloc may refuse memory at any time.
pub mod Calls
use libopenssh.Base.{
  ℕ, ◌+◌, ◌≤◌, ◌<◌, ◌≡◌, ◌⊎◌, Bool, true, false, Bytes, List, [], ◌∷◌, ◌++◌, length, take, drop,
}
use libopenssh.Err.{
  Result, ok, err, buffer_read_only, no_buffer_space, alloc_fail, message_incomplete,
}
use libopenssh.Getput.{u32_of, u32_bytes, string_max}

-- The bytes from the oldest to the newest, how many there may be, and whether none may be added.
pub record Queue : Type 0 where
  pub bytes : Bytes
  pub limit : ℕ
  pub frozen : Bool

-- The calls of a client. A string comes out as a copy, which may be refused.
pub data Call : Type 0 where
  put : Bytes → Call
  put_string : Bytes → Call
  get : ℕ → Call
  get_string : Bool → Call
  consume : ℕ → Call
  consume_end : ℕ → Call

abbrev pub Fits : ℕ → Queue → Type 0
Fits n q = (q.frozen ≡ false) × (n + length q.bytes ≤ q.limit)

-- Why `n` bytes are not added.
abbrev pub Refuses : ℕ → Queue → Result Bytes → Type 0
Refuses n q (err buffer_read_only) = q.frozen ≡ true
Refuses n q (err no_buffer_space) = (q.frozen ≡ false) × (q.limit < n + length q.bytes)
Refuses n q (err alloc_fail) = Fits n q
Refuses n q _ = ⊥

abbrev pub Short : ℕ → Queue → Result Bytes → Type 0
Short n q r = (length q.bytes < n) × (r ≡ err message_incomplete)

-- The queue starts with a complete string of `n` bytes, or it does not.
abbrev pub StartsWith : ℕ → Queue → Type 0
StartsWith n q = (4 ≤ length q.bytes) × (u32_of q.bytes ≡ n) × (n + 4 ≤ length q.bytes)

abbrev pub NoString : Queue → Type 0
NoString q = (length q.bytes < 4) ⊎ ((4 ≤ length q.bytes) × (length q.bytes < u32_of q.bytes + 4))

abbrev pub without : ℕ → Queue → Queue
without n q = record q { bytes = drop n q.bytes }

-- `Answers q call r q'`: the queue `q` may answer `call` by `r` and be `q'` then.
abbrev pub Answers : Queue → Call → Result Bytes → Queue → Type 0
Answers q (put v) r q' =
    ((r ≡ ok []) × Fits (length v) q × (q' ≡ record q { bytes = q.bytes ++ v }))
    ⊎ (Refuses (length v) q r × (q' ≡ q))
Answers q (put_string v) r q' =
    ((r ≡ ok [])
      × (length v ≤ string_max)
      × Fits (length v + 4) q
      × (q' ≡ record q { bytes = q.bytes ++ (u32_bytes (length v) ++ v) }))
    ⊎ ((string_max < length v) × (r ≡ err no_buffer_space) × (q' ≡ q))
    ⊎ (Refuses (length v + 4) q r × (q' ≡ q))
Answers q (get n) r q' =
    ((n ≤ length q.bytes) × (r ≡ ok (take n q.bytes)) × (q' ≡ without n q))
    ⊎ (Short n q r × (q' ≡ q))
Answers q (get_string true) r q' =
    ((n : ℕ) × StartsWith n q
      × (r ≡ ok (take n (drop 4 q.bytes) ++ (0 ∷ [])))
      × (q' ≡ without (n + 4) q))
    ⊎ (NoString q × (r ≡ err message_incomplete) × (q' ≡ q))
Answers q (get_string false) r q' =
    ((n : ℕ) × StartsWith n q × (r ≡ err alloc_fail) × (q' ≡ without (n + 4) q))
    ⊎ (NoString q × (r ≡ err message_incomplete) × (q' ≡ q))
Answers q (consume n) r q' =
    ((n ≤ length q.bytes) × (r ≡ ok []) × (q' ≡ without n q)) ⊎ (Short n q r × (q' ≡ q))
Answers q (consume_end n) r q' =
    ((n ≤ length q.bytes)
      × (r ≡ ok [])
      × ((kept : Bytes) × (left : Bytes) × (q.bytes ≡ kept ++ left)
          × (length left ≡ n)
          × (q' ≡ record q { bytes = kept })))
    ⊎ (Short n q r × (q' ≡ q))

-- A queue may answer the calls one after the other by the given results, and be `q'` in the end.
abbrev pub Explains : Queue → List Call → List (Result Bytes) → Queue → Type 0
Explains q [] [] q' = q' ≡ q
Explains q (c ∷ cs) (r ∷ rs) q' = (next : Queue) × Answers q c r next × Explains next cs rs q'
Explains q _ _ q' = ⊥
