-- ===== src/Sshbuf/Sanity.antt =====
-- The invariant of a buffer, and that the code's own sanity test decides it.
use libopenssh.Base.{◌≤◌, ◌≡◌, ◌≢◌, ◌⊎◌, ◌↔◌, true, false, arith, length}
use libopenssh.Err.{ok}
use libopenssh.Sshbuf.{Sshbuf, size_max, refs_max, insane, check_sanity}

-- What `sshbuf_check_sanity` demands of a non-null pointer.
pub record IsSane (b : Sshbuf) : Type 0 where
  pub not_null : b.cd ≢ 0
  pub d_is_cd : (b.readonly ≡ true) ⊎ (b.d ≡ b.cd)
  pub referenced : 1 ≤ b.refcount
  pub refcount-le : b.refcount ≤ refs_max
  pub max_size-le : b.max_size ≤ size_max
  pub alloc-le : b.alloc ≤ b.max_size
  pub size-le : b.size ≤ b.alloc
  pub off-le : b.off ≤ b.size

-- A sane buffer with a block of the size that it records.
pub record WellFormed (b : Sshbuf) : Type 0 where
  pub sane : IsSane b
  pub open sane use *
  pub block : length b.mem ≡ b.alloc

pub insane-IsSane : (b : Sshbuf) → IsSane b → insane b ≡ false
unfolding insane
insane-IsSane b s = ground arith

IsSane-insane : (b : Sshbuf) → insane b ≡ false → IsSane b
unfolding insane
IsSane-insane b h = ground arith

-- `sshbuf_check_sanity` returns 0 exactly on the buffers that meet all its conditions.
pub check_sanity_iff : (b : Sshbuf) → (check_sanity b ≡ ok tt) ↔ IsSane b
unfolding check_sanity
check_sanity_iff b = (λ h. IsSane-insane b (ground arith), λ s. ground (arith, insane-IsSane b s))
