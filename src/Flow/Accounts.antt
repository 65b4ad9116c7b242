-- ===== src/Flow/Accounts.antt =====
-- The receiving side's accounts: what is in the window, in the buffers, and written but not yet
-- credited to the peer.
use libopenssh.Base.{
  ℕ, ◌+◌, ◌-◌, ◌^◌, ◌≤◌, ◌<◌, ◌≡◌, inl, inr, refl, ap, sym, subst, ◌∙◌, Bool, true, false, arith,
  Bool-cases, Bytes, ◌++◌, length, ltb, not, ◌&&◌, ◌||◌, ◌==◌, length-append, if◌then◌else◌,
}
use libopenssh.Err.{Result, ok, err, fault}
use libopenssh.Libc.{Allocator}
use libopenssh.Sshbuf.{Sshbuf}
use libopenssh.Sshbuf.Sanity.{WellFormed}
use libopenssh.Sshbuf.Content.{content}
use libopenssh.Getput.{put, put_string, u32_bytes}
use libopenssh.Getput.Codec.{length-u32_bytes}
use libopenssh.Getput.Put.{Written, put-Written}
use libopenssh.Getput.PutString.{StringWritten, put_string-StringWritten}
use libopenssh.Channel.{Session}
use libopenssh.Flow.{
  Outcome, returned, ended, faulted, Flow, u_int, stored, at_end_of, win_len, keep_data, deliver,
  deliver_extended, wants_adjust, check_window, is_output_open, is_open_type, stderr_code,
}

abbrev pub buffered : Flow → ℕ
buffered f = length (content f.chan.output) + length (content f.chan.extended)

abbrev pub total : Flow → ℕ
total f = f.local_window + f.local_consumed + buffered f

pub record Accounts (f : Flow) : Type 0 where
  pub output_ok : WellFormed f.chan.output
  pub extended_ok : WellFormed f.chan.extended
  pub bounded : total f ≤ f.local_window_max
  pub window_fits : f.local_window_max < 2 ^ 32

-- `g` has the accounts of `f`.
pub record Conserves (f g : Flow) : Type 0 where
  pub accounts : Accounts g
  pub same_total : total g ≡ total f
  pub same_max : g.local_window_max ≡ f.local_window_max
  pub same_state : g.chan.ostate ≡ f.chan.ostate

pub Conserves-self : (f : Flow) → Accounts f → Conserves f f
Conserves-self f a = record { accounts = a; same_total = refl; same_max = refl; same_state = refl }

pub stored-eq :
    (q : Sshbuf × Result (Unit {0})) (h : Sshbuf → Flow) {g : Flow}
    → stored q h ≡ returned g
    → (b : Sshbuf) × (q ≡ (b, ok tt)) × (h b ≡ g)
stored-eq (b, ok tt) h e = (b, refl, cc e)
stored-eq (b, err x) h e = cc e
stored-eq (b, fault) h e = cc e

pub returned-eq : {f g : Flow} → ◌≡◌ {A = Outcome Flow} (returned f) (returned g) → f ≡ g
returned-eq e = cc e

at_end_of-eq :
    (p : Sshbuf) (o : Outcome Flow) {g : Flow} → at_end_of p o ≡ returned g → o ≡ returned g
at_end_of-eq p (returned f) e = ground arith
at_end_of-eq p ended e = e
at_end_of-eq p faulted e = e

-- A string or plain bytes that are stored take `n` bytes.
abbrev stored_size : Bool → ℕ → ℕ
stored_size datagram n = if datagram then n + 4 else n

keep-Appends :
    (m : Allocator) (datagram : Bool) (v : Bytes) (b c : Sshbuf)
    → WellFormed b
    → (if datagram then put_string m v b else put m v b) ≡ (c, ok tt)
    → WellFormed c
      × (length (content c) ≡ length (content b) + stored_size datagram (length v))
      × (length v + 4 < 2 ^ 32)
keep-Appends m true v b c w e =
    let (a, short, fits) = subst (StringWritten m b v) e (put_string-StringWritten m b v w) in
    (
      a.well_formed,
      omega (
        arith,
        ap length a.appended,
        length-append (content b) (u32_bytes (length v) ++ v),
        length-append (u32_bytes (length v)) v,
        length-u32_bytes (length v),
      ),
      omega (arith, fits.1, w.max_size-le),
    )
keep-Appends m false v b c w e =
    let (a, fits) = subst (Written m b v) e (put-Written m b v w) in
    (
      a.well_formed,
      omega (arith, ap length a.appended, length-append (content b) v),
      omega (arith, fits.1, w.max_size-le),
    )

win_len-eq : (n : ℕ) (f : Flow) → n + 4 < 2 ^ 32 → win_len n f ≡ stored_size f.datagram n
unfolding win_len
win_len-eq n f h = elim (Bool-cases f.datagram) [
  | inl e ↦ rw e (omega arith)
  | inr e ↦ rw e (omega arith)
]

-- Data of `n` bytes more in the output buffer, taken out of the window.
deliver-Accounts :
    (f : Flow) (c : Sshbuf) (n : ℕ)
    → Accounts f
    → n ≤ f.local_window
    → WellFormed c
    → length (content c) ≡ length (content f.chan.output) + n
    → Conserves f
        (record f { local_window = f.local_window - n; chan = record f.chan { output = c } })
deliver-Accounts f c n a h w e = record {
  accounts = record {
    output_ok = w;
    extended_ok = a.extended_ok;
    bounded = omega (arith, a.bounded, e);
    window_fits = a.window_fits;
  };
  same_total = omega (arith, e);
  same_max = refl;
  same_state = refl;
}

module _ (s : Session) (two : s.compat20 ≡ true) (f : Flow) (a : Accounts f) where
  module _ (opened : is_output_open f.chan.ostate ≡ true) where
    pub deliver-Conserves :
        (v : Bytes) (p : Sshbuf) {g : Flow}
        → deliver false s v (length v) p f ≡ returned g
        → Conserves f g
    unfolding deliver keep_data
    deliver-Conserves v p {g} e =
        let k = win_len (length v) f in
        elim (Bool-cases (ltb f.local_window k)) [
          | inl big ↦
              let e' = (rw (opened, two, big) at e) in
              subst (Conserves f) (returned-eq e') (Conserves-self f a)
          | inr fits ↦
              let e' = (rw (opened, two, fits) at e) in
              let (b, run, is) = stored-eq _ _ (at_end_of-eq p _ e') in
              let (w, size, small) =
                keep-Appends s.memory f.datagram v f.chan.output b a.output_ok run in
              let k-eq = win_len-eq (length v) f small in
              subst (Conserves f) is (
                deliver-Accounts f b k a (ground arith) w
                  (size ∙ ap (λ n. length (content f.chan.output) + n) (sym k-eq)))
        ]

  -- Extended data of `n` bytes in its buffer, taken out of the window.
  extended-Accounts :
      (c : Sshbuf) (n : ℕ)
      → n ≤ f.local_window
      → WellFormed c
      → length (content c) ≡ length (content f.chan.extended) + n
      → Conserves f
          (record f { local_window = f.local_window - n; chan = record f.chan { extended = c } })
  extended-Accounts c n h w e = record {
    accounts = record {
      output_ok = a.output_ok;
      extended_ok = w;
      bounded = omega (arith, a.bounded, e);
      window_fits = a.window_fits;
    };
    same_total = omega (arith, e);
    same_max = refl;
    same_state = refl;
  }

  pub same : {g : Flow} (o : Outcome Flow) → o ≡ returned g → o ≡ returned f → Conserves f g
  same o e is = subst (Conserves f) (returned-eq (sym is ∙ e)) (Conserves-self f a)

  pub deliver_extended-Conserves :
      (tcode : ℕ) (v : Bytes) {g : Flow}
      → deliver_extended s tcode v (length v) f ≡ returned g
      → Conserves f g
  unfolding deliver_extended
  deliver_extended-Conserves tcode v {g} e = elim (Bool-cases (is_open_type f.chan.type)) [
    | inr shut ↦ same _ e (rw (shut, deliver_extended) refl)
    | inl o ↦ elim (Bool-cases (f.chan.eof_rcvd && not s.bug_exteof)) [
      | inl late ↦ cc (rw (o, late) at e)
      | inr early ↦
          elim (Bool-cases
            (not f.chan.efd_open || not f.chan.extended_write || not (tcode == stderr_code))) [
              | inl bad ↦ same _ e (rw (o, early, bad, deliver_extended) refl)
              | inr good ↦ elim (Bool-cases (ltb f.local_window (length v))) [
                | inl big ↦ same _ e (rw (o, early, good, big, deliver_extended) refl)
                | inr fits ↦
                    let (b, run, is) = stored-eq _ _ (rw (o, early, good, fits) at e) in
                    let (w, size, _) =
                      keep-Appends s.memory false v f.chan.extended b a.extended_ok run in
                    subst (Conserves f) is (extended-Accounts b (length v) (ground arith) w size)
              ]
            ]
    ]
  ]

  pub check_window-Conserves : Conserves f (check_window f)
  unfolding check_window
  check_window-Conserves = elim (Bool-cases (wants_adjust f)) [
    | inr quiet ↦ rw (quiet, check_window) (Conserves-self f a)
    | inl wants ↦
        let fits : u_int (f.local_window + f.local_consumed) ≡ f.local_window + f.local_consumed =
          omega (arith, a.bounded, a.window_fits) in
        rw (wants, check_window)
          (record {
            accounts = record {
              output_ok = a.output_ok;
              extended_ok = a.extended_ok;
              bounded = omega (arith, a.bounded, fits);
              window_fits = a.window_fits;
            };
            same_total = omega (arith, fits);
            same_max = refl;
            same_state = refl;
          })
  ]
