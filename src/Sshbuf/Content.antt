-- ===== src/Sshbuf/Content.antt =====
-- The abstract view of a buffer, the queue of bytes that it holds, and what consuming does to it.
use libopenssh.Base.{
  ℕ, ◌+◌, ◌-◌, ◌≤◌, ◌<◌, ◌≡◌, ap, sym, ◌∙◌, arith, length, take, drop, Bytes, length-take,
  length-drop, drop-drop, drop-take, take-take, take-append-drop, ◌++◌, some,
}
use libopenssh.Err.{ok, err, message_incomplete}
use libopenssh.Sshbuf.{Sshbuf, len, ptr, consume, consume_end}
use libopenssh.Sshbuf.Sanity.{WellFormed, insane-IsSane}

-- The readable bytes, oldest first.
unfoldable pub content : Sshbuf → Bytes
content b = take (b.size - b.off) (drop b.off b.mem)

pub length-content : (b : Sshbuf) → WellFormed b → length (content b) ≡ b.size - b.off
unfolding content
length-content b w =
    omega (arith, length-take (b.size - b.off) (drop b.off b.mem), length-drop b.off b.mem)

-- `sshbuf_len` is the length of the queue.
pub len-content : (b : Sshbuf) → WellFormed b → len b ≡ length (content b)
unfolding len
len-content b w = ground (arith, insane-IsSane b w.sane, length-content b w)

-- The bytes behind `sshbuf_ptr` begin with the queue.
pub ptr-content : (b : Sshbuf) → WellFormed b → (rest : Bytes) × (ptr b ≡ some (content b ++ rest))
unfolding ptr content
ptr-content b w = (
  drop (b.size - b.off) (drop b.off b.mem),
  rw (insane-IsSane b w.sane)
      (ap some (sym (take-append-drop (b.size - b.off) (drop b.off b.mem)))),
)

-- The buffer without its oldest `n` bytes, and without its newest.
abbrev pub advance : ℕ → Sshbuf → Sshbuf
advance n b = record b { off = b.off + n }

abbrev pub retract : ℕ → Sshbuf → Sshbuf
retract n b = record b { size = b.size - n }

module _ (b : Sshbuf) (n : ℕ) (w : WellFormed b) where
  pub consume_short : length (content b) < n → consume n b ≡ (b, err message_incomplete)
  unfolding consume
  consume_short h = ground (arith, insane-IsSane b w.sane, len-content b w)

  pub consume_end_short : length (content b) < n → consume_end n b ≡ (b, err message_incomplete)
  unfolding consume_end
  consume_end_short h = ground (arith, insane-IsSane b w.sane, len-content b w)

module _ (b : Sshbuf) (n : ℕ) (w : WellFormed b) (fits : n ≤ length (content b)) where
  pub consume_ok : consume n b ≡ (advance n b, ok tt)
  unfolding consume
  consume_ok = ground (arith, insane-IsSane b w.sane, len-content b w)

  pub advance-WellFormed : WellFormed (advance n b)
  advance-WellFormed = ground (arith, length-content b w)

  pub content-advance : content (advance n b) ≡ drop n (content b)
  unfolding content
  content-advance =
      ap (take (b.size - (b.off + n))) (sym (drop-drop n b.off (b.off + n) b.mem (omega arith)))
      ∙ sym (
          drop-take n (b.size - b.off) (b.size - (b.off + n)) (drop b.off b.mem)
            (omega (arith, length-content b w)))

  pub consume_end_ok : consume_end n b ≡ (retract n b, ok tt)
  unfolding consume_end
  consume_end_ok = ground (arith, insane-IsSane b w.sane, len-content b w)

  pub retract-WellFormed : WellFormed (retract n b)
  retract-WellFormed = ground (arith, length-content b w)

  pub content-retract : content (retract n b) ≡ take (length (content b) - n) (content b)
  unfolding content
  content-retract =
      ap (λ (k : ℕ). take k (drop b.off b.mem)) (omega (arith, length-content b w))
      ∙ sym (
          take-take (length (content b) - n) (b.size - b.off) (drop b.off b.mem)
            (omega (arith, length-content b w)))
