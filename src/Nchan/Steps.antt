-- ===== src/Nchan/Steps.antt =====
-- What can happen to a channel: the handlers in any order, and data moving through its buffers.
use libopenssh.Base.{◌≡◌, ap, sym, subst, ◌∙◌, Bool, true, false, arith, []}
use libopenssh.Sshbuf.{Sshbuf}
use libopenssh.Channel.{Session, Channel, input_open, output_open}
use libopenssh.Nchan.{
  ibuf_empty, obuf_empty, rcvd_eow, rcvd_ieof, rcvd_oclose, write_failed, read_failed, mark_dead,
  is_dead, input_ieof,
}
use libopenssh.Nchan.Protocol2.{
  IsConsistent, closes, eofs, EofFirst, read_failed-IsConsistent, ibuf_empty-IsConsistent,
  obuf_empty-IsConsistent, rcvd_eow-IsConsistent, rcvd_oclose-IsConsistent,
  write_failed-IsConsistent, rcvd_ieof-IsConsistent, input_ieof-IsConsistent, is_dead-IsConsistent,
}
use libopenssh.Nchan.Order.{
  Advances, Advances-trans, Advances-refl, read_failed-Advances, ibuf_empty-Advances,
  obuf_empty-Advances, rcvd_eow-Advances, rcvd_oclose-Advances, write_failed-Advances,
  rcvd_ieof-Advances, input_ieof-Advances, is_dead-Advances,
}

pub data Step (s : Session) (c : Channel) : Channel → Type 0 where
  reads_fail : Step s c (read_failed s c)
  input_empties : Step s c (ibuf_empty s c)
  output_empties : Step s c (obuf_empty s c)
  eow_arrives : Step s c (rcvd_eow s c)
  eof_arrives : Step s c (rcvd_ieof s c)
  eof_forces : Step s c (input_ieof s c)
  close_arrives : Step s c (rcvd_oclose s c)
  writes_fail : Step s c (write_failed s c)
  dies : Step s c (mark_dead c)
  is_tested : (do_send : Bool) → Step s c (is_dead s do_send c).0
  data_moves : (i o e : Sshbuf) → Step s c (record c { input = i; output = o; extended = e })
  descriptors_change :
      (r w e : Bool) → Step s c (record c { rfd_open = r; wfd_open = w; efd_open = e })

pub data Reach (s : Session) (c : Channel) : Channel → Type 0 where
  here : Reach s c c
  next : {d e : Channel} → Reach s c d → Step s d e → Reach s c e

-- The state in which a channel starts: both halves open, no flag set, nothing sent.
pub record IsNew (c : Channel) : Type 0 where
  pub istate_open : c.istate ≡ input_open
  pub ostate_open : c.ostate ≡ output_open
  pub close_not_sent : c.close_sent ≡ false
  pub eof_not_sent : c.eof_sent ≡ false
  pub nothing_sent : c.events ≡ []

IsNew-IsConsistent : (c : Channel) → IsNew c → IsConsistent c
IsNew-IsConsistent c n = record {
  in_state = ground arith;
  out_state = ground arith;
  one_close = ap closes n.nothing_sent ∙ ground arith;
  one_eof = ap eofs n.nothing_sent ∙ ground arith;
  close_last = ground arith;
  eof_closes = ground arith;
  eof_first = subst EofFirst (sym n.nothing_sent) tt;
}

Step-IsConsistent :
    {s : Session} {c d : Channel} → s.compat20 ≡ true → Step s c d → IsConsistent c → IsConsistent d
unfolding mark_dead
Step-IsConsistent {s} {c} v reads_fail k = read_failed-IsConsistent s v c k
Step-IsConsistent {s} {c} v input_empties k = ibuf_empty-IsConsistent s v c k
Step-IsConsistent {s} {c} v output_empties k = obuf_empty-IsConsistent s v c k
Step-IsConsistent {s} {c} v eow_arrives k = rcvd_eow-IsConsistent s v c k
Step-IsConsistent {s} {c} v eof_arrives k = rcvd_ieof-IsConsistent s v c k
Step-IsConsistent {s} {c} v eof_forces k = input_ieof-IsConsistent s v c k
Step-IsConsistent {s} {c} v close_arrives k = rcvd_oclose-IsConsistent s v c k
Step-IsConsistent {s} {c} v writes_fail k = write_failed-IsConsistent s v c k
Step-IsConsistent {s} {c} v dies k = ground arith
Step-IsConsistent {s} {c} v (is_tested do_send) k = is_dead-IsConsistent s v c k do_send
Step-IsConsistent {s} {c} v (data_moves i o e) k = ground arith
Step-IsConsistent {s} {c} v (descriptors_change r w e) k = ground arith

Reach-keeps-IsConsistent :
    {s : Session} {c d : Channel}
    → s.compat20 ≡ true
    → Reach s c d
    → IsConsistent c
    → IsConsistent d
Reach-keeps-IsConsistent v here k = k
Reach-keeps-IsConsistent v (next r st) k = Step-IsConsistent v st (Reach-keeps-IsConsistent v r k)

-- With protocol 2, whatever happens to a new channel and in whatever order: it never enters the two
-- states of protocol 1; it sends CLOSE at most once, as its flag says, and only after both halves are
-- closed; it sends EOF at most once, only when its input half closes, and never after CLOSE.
pub Reach-IsConsistent :
    {s : Session} {c d : Channel} → s.compat20 ≡ true → IsNew c → Reach s c d → IsConsistent d
Reach-IsConsistent {c = c} v n r = Reach-keeps-IsConsistent v r (IsNew-IsConsistent c n)

Step-Advances : {s : Session} {c d : Channel} → Step s c d → Advances c d
unfolding mark_dead
Step-Advances {s} {c} reads_fail = read_failed-Advances s c
Step-Advances {s} {c} input_empties = ibuf_empty-Advances s c
Step-Advances {s} {c} output_empties = obuf_empty-Advances s c
Step-Advances {s} {c} eow_arrives = rcvd_eow-Advances s c
Step-Advances {s} {c} eof_arrives = rcvd_ieof-Advances s c
Step-Advances {s} {c} eof_forces = input_ieof-Advances s c
Step-Advances {s} {c} close_arrives = rcvd_oclose-Advances s c
Step-Advances {s} {c} writes_fail = write_failed-Advances s c
Step-Advances {s} {c} dies = ground arith
Step-Advances {s} {c} (is_tested do_send) = is_dead-Advances s c do_send
Step-Advances {s} {c} (data_moves i o e) = ground arith
Step-Advances {s} {c} (descriptors_change r w e) = ground arith

-- With either protocol, neither half of a channel ever moves backwards; a closed half stays closed.
pub Reach-Advances : {s : Session} {c d : Channel} → Reach s c d → Advances c d
Reach-Advances {c = c} here = Advances-refl c
Reach-Advances {c = c} (next {d} {e} r st) =
    Advances-trans c d e (Reach-Advances r) (Step-Advances st)
