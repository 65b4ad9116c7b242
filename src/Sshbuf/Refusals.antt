-- ===== src/Sshbuf/Refusals.antt =====
-- The reasons for which `sshbuf_reserve` gives up.
use libopenssh.Base.{ℕ, ◌+◌, ◌<◌, ◌≡◌, ◌⊎◌, inl, inr, refl, true, false, Bytes, length, none}
use libopenssh.Err.{Error, alloc_fail, no_buffer_space, buffer_read_only}
use libopenssh.Libc.{Allocator}
use libopenssh.Sshbuf.{Sshbuf, locked}
use libopenssh.Sshbuf.Content.{content}
use libopenssh.Sshbuf.Reserve.{Fits, Refused}

pub Refused-cases :
    (m : Allocator) (b : Sshbuf) (n : ℕ) (e : Error)
    → Refused m b n e
    → ((e ≡ buffer_read_only) × (locked b ≡ true))
      ⊎ ((e ≡ no_buffer_space) × (locked b ≡ false) × (b.max_size < n + length (content b)))
      ⊎ ((e ≡ alloc_fail)
          × Fits n b
          × ((p : ℕ) × (mem : Bytes) × (k : ℕ) × (m.realloc p mem k ≡ none)))
Refused-cases m b n buffer_read_only h = inl (refl, h)
Refused-cases m b n no_buffer_space h = inr (inl (refl, h.0, h.1))
Refused-cases m b n alloc_fail h = inr (inr (refl, h.0, h.1))
Refused-cases m b n _ h = absurd h
