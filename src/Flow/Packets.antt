-- ===== src/Flow/Packets.antt =====
-- The handlers of ssh/channels.c on whole packets, and data for an output that is no longer open.
use libopenssh.Base.{
  ℕ, ◌+◌, ◌-◌, ◌^◌, not, ◌&&◌, subst, ltb, ◌≤◌, ◌<◌, ◌≡◌, refl, ap, ◌∙◌, Bool, true, false, arith,
  some, Bytes, ◌++◌, length, take, length-append,
}
use libopenssh.Err.{ok}
use libopenssh.Sshbuf.{Sshbuf, size_max}
use libopenssh.Sshbuf.Sanity.{WellFormed}
use libopenssh.Sshbuf.Content.{content, advance}
use libopenssh.Getput.{get_string_direct, u32_bytes, put, string_max}
use libopenssh.Getput.Put.{Written, put-Written}
use libopenssh.Getput.Codec.{length-u32_bytes}
use libopenssh.Getput.PutString.{framed}
use libopenssh.Getput.GetString.{peek_complete, get_string_direct_ok}
use libopenssh.Getput.RoundTrip.{
  advance_front, get_u32_front, framed-HasString, framed-front_string,
}
use libopenssh.Channel.{Session}
use libopenssh.Flow.{
  returned, Flow, Channels, lookup, then_set, win_len, ignored, deliver, deliver_extended,
  is_open_type, stderr_code, input_data, data_for, is_data_type, is_output_open,
}

-- The pointer that comes out leads to the string.
get_string_direct_front :
    (b : Sshbuf) (v rest : Bytes)
    → WellFormed b
    → length v ≤ string_max
    → content b ≡ framed v ++ rest
    → (c : Sshbuf) × (p : Bytes) × (get_string_direct b ≡ (c, ok (p, length v)))
      × (take (length v) p ≡ v)
      × WellFormed c
      × (content c ≡ rest)
get_string_direct_front b v rest w short e =
    let n = length v in
    let has = framed-HasString b v rest short e in
    let (p, seen, is, _) = peek_complete b w n has in
    let size : length (framed v) ≡ n + 4 =
      omega (arith, length-append (u32_bytes n) v, length-u32_bytes n) in
    let after = rw size at (advance_front b (framed v) rest w e) in
    (
      advance (n + 4) b,
      p,
      get_string_direct_ok b w n has p seen,
      is ∙ framed-front_string b v rest short e,
      after.0,
      after.1,
    )

module _ (compat13 : Bool) (s : Session) (chs : Channels) (id : ℕ) (f : Flow)
    (found : lookup id chs ≡ some f) (takes : is_data_type f.chan.type ≡ true) where
  data_for-deliver :
      (p q : Sshbuf) (d : Bytes) (n : ℕ)
      → get_string_direct p ≡ (q, ok (d, n))
      → data_for compat13 s id p chs ≡ then_set id chs (deliver compat13 s (take n d) n q f)
  unfolding data_for
  data_for-deliver p q d n run = rw (found, takes, run, data_for) refl

-- A well-formed packet with a channel number and a string, for a channel in the table that takes
-- data, is a delivery of the string to that channel; what follows the string is left in the packet.
pub input_data-deliver :
    (compat13 : Bool) (s : Session) (packet : Sshbuf) (chs : Channels) (id : ℕ) (v rest : Bytes)
    (f : Flow)
    → WellFormed packet
    → id < 2 ^ 32
    → length v ≤ string_max
    → content packet ≡ u32_bytes id ++ (framed v ++ rest)
    → lookup id chs ≡ some f
    → is_data_type f.chan.type ≡ true
    → (p : Sshbuf) × (content p ≡ rest)
      × (input_data compat13 s packet chs ≡ then_set id chs (deliver compat13 s v (length v) p f))
unfolding input_data
input_data-deliver compat13 s packet chs id v rest f w word short e found takes =
    let (p, run, wp, ep) = get_u32_front packet id (framed v ++ rest) w word e in
    let (q, d, run', is, _, eq) = get_string_direct_front p v rest wp short ep in
    (
      q,
      eq,
      rw (run, input_data)
          (data_for-deliver compat13 s chs id f found takes p q d (length v) run'
            ∙ ap (λ (u : Bytes). then_set id chs (deliver compat13 s u (length v) q f)) is),
    )

-- The channel takes extended data for its standard error.
abbrev pub TakesStderr : Session → Flow → Type 0
TakesStderr s f =
    (is_open_type f.chan.type ≡ true)
    × ((f.chan.eof_rcvd && not s.bug_exteof) ≡ false)
    × (f.chan.efd_open ≡ true)
    × (f.chan.extended_write ≡ true)

deliver_extended-large :
    (s : Session) (f : Flow) (u : Bytes)
    → TakesStderr s f
    → f.local_window < length u
    → deliver_extended s stderr_code u (length u) f ≡ returned f
unfolding deliver_extended
deliver_extended-large s f u (o, early, efd, writes) over =
    let big : ltb f.local_window (length u) ≡ true = ground (arith, over) in
    rw (o, early, efd, writes, big, deliver_extended) refl

deliver_extended-kept :
    (s : Session) (f : Flow) (u : Bytes) (c : Sshbuf)
    → TakesStderr s f
    → length u ≤ f.local_window
    → WellFormed f.chan.extended
    → put s.memory u f.chan.extended ≡ (c, ok tt)
    → (h : Flow) × (deliver_extended s stderr_code u (length u) f ≡ returned h)
      × (content h.chan.extended ≡ content f.chan.extended ++ u)
unfolding deliver_extended
deliver_extended-kept s f u c (o, early, efd, writes) fits w e =
    let small : ltb f.local_window (length u) ≡ false = ground (arith, fits) in
    let (a, _) =
      subst (Written s.memory f.chan.extended u) e (put-Written s.memory f.chan.extended u w) in
    let g = record f {
      local_window = f.local_window - length u;
      chan = record f.chan { extended = c };
    } in
    (g, rw (o, early, efd, writes, small, e, deliver_extended) refl, a.appended)

-- With protocol 2, on an open channel whose output half is no longer open, with a descriptor to write
-- extended data to and no EOF received that rules it out: extended data for standard error that is
-- longer than the window is refused, but after other data that is longer than the window, itself of a
-- length that fits a buffer, the same extended data is taken and stored whole, if its buffer, which is
-- well formed, has room and the memory for it.
pub deliver_extended-deliver :
    (s : Session) (v u : Bytes) (p c : Sshbuf) (f : Flow)
    → s.compat20 ≡ true
    → is_output_open f.chan.ostate ≡ false
    → TakesStderr s f
    → WellFormed f.chan.extended
    → length v ≤ size_max
    → f.local_window < win_len (length v) f
    → f.local_window < length u
    → put s.memory u f.chan.extended ≡ (c, ok tt)
    → (deliver_extended s stderr_code u (length u) f ≡ returned f)
      × (g h : Flow) × (deliver false s v (length v) p f ≡ returned g)
      × (deliver_extended s stderr_code u (length u) g ≡ returned h)
      × (content h.chan.extended ≡ content f.chan.extended ++ u)
unfolding deliver win_len
deliver_extended-deliver s v u p c f two shut takes w short over large e =
    let n = win_len (length v) f in
    let most : n ≤ size_max + 4 = ground (arith, short) in
    let (_, (_, room)) =
      subst (Written s.memory f.chan.extended u) e (put-Written s.memory f.chan.extended u w) in
    let (h, run, is) =
      deliver_extended-kept s (ignored n f) u c takes
        (omega (arith, most, over, room, w.max_size-le)) w e in
    (
      deliver_extended-large s f u takes large,
      ignored n f,
      h,
      rw (shut, two, deliver) refl,
      run,
      is,
    )
