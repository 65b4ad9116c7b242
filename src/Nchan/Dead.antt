-- ===== src/Nchan/Dead.antt =====
-- `chan_is_dead`, by which a channel is collected.
use libopenssh.Base.{◌≡◌, Bool, true, false, not, ◌&&◌, ◌||◌, ltb, arith}
use libopenssh.Sshbuf.{len}
use libopenssh.Channel.{Session, Channel, input_is_closed, output_is_closed, is_zombie, send_close2}
use libopenssh.Nchan.{is_dead}

-- Extended data is still to be written for a peer that closes too early.
abbrev pub pending : Session → Channel → Bool
pending s c = s.bug_exteof && c.extended_write && c.efd_open && ltb 0 (len c.extended)

-- With protocol 2 the test that may send a CLOSE says dead exactly for a zombie, or if both halves
-- are closed, no extended data is pending and the channel is local or the peer's CLOSE has come. A
-- channel that it says is dead, and is neither local nor a zombie, has sent its own CLOSE.
pub is_dead_sending :
    (s : Session) (c : Channel)
    → s.compat20 ≡ true
    → ((is_dead s true c).1 ≡ (
        is_zombie c.type
        || input_is_closed c.istate
          && output_is_closed c.ostate
          && not (pending s c)
          && (c.local || c.close_rcvd)))
      × ((is_dead s true c).1 ≡ true
          → is_zombie c.type ≡ false
          → c.local ≡ false
          → (is_dead s true c).0.close_sent ≡ true)
unfolding is_dead send_close2
is_dead_sending s c v = (ground arith, λ dead z l. ground arith)

-- Without leave to send, a test never changes the channel, and with protocol 2 it says dead exactly
-- where the sending test would.
pub is_dead_quiet :
    (s : Session) (c : Channel)
    → s.compat20 ≡ true
    → ((is_dead s false c).0 ≡ c) × ((is_dead s false c).1 ≡ (is_dead s true c).1)
unfolding is_dead send_close2
is_dead_quiet s c v = (ground arith, ground arith)
