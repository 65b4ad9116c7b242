-- ===== src/Kex/Conf.antt =====
-- `kex_choose_conf` as a whole: the two messages are read, and the choice follows.
use libopenssh.Base.{
  ℕ, ◌≤◌, ◌<◌, ◌^◌, ◌≡◌, refl, ap, ◌∙◌, true, arith, Bytes, List, ◌∷◌, ◌++◌, length, length-append,
}
use libopenssh.Err.{Error, Result, ok, err, fault, invalid_format}
use libopenssh.Sshbuf.{Sshbuf}
use libopenssh.Sshbuf.Sanity.{WellFormed}
use libopenssh.Sshbuf.Content.{content, advance, consume_ok}
use libopenssh.Getput.{string_max}
use libopenssh.Getput.PutString.{framed}
use libopenssh.Getput.RoundTrip.{advance_front}
use libopenssh.Getput.Cstring.{NoNul, get_cstring_nul}
use libopenssh.Sharing.Lifetime.{view_of, child_of_ok, view_of-WellFormed, view_of-content}
use libopenssh.Mac.{Digest}
use libopenssh.Kex.{cookie_len, proposal_max, get_names, read_proposal, kex_buf2prop}
use libopenssh.Kex.Wire.{AreNames, message, kex_buf2prop-message}
use libopenssh.Kex.Choice.{Kex, choose_between, with_proposals, kex_choose_conf}

-- The buffer holds a message of ten C strings with the reserved word `r`.
pub record Holds (b : Sshbuf) (ps : List Bytes) (r : ℕ) : Type 0 where
  pub cookie : Bytes
  pub flag : ℕ
  pub sized : length cookie ≡ cookie_len
  pub ten : length ps ≡ proposal_max
  pub names : AreNames ps
  pub word : r < 2 ^ 32
  pub well_formed : WellFormed b
  pub held : content b ≡ message cookie ps flag r

Holds-read :
    (b : Sshbuf) (ps : List Bytes) (r : ℕ) → Holds b ps r → kex_buf2prop true b ≡ ok (r, ps)
Holds-read b ps r h =
    kex_buf2prop-message h.cookie ps h.flag r b h.sized h.ten h.names h.word h.well_formed h.held

-- With memory granted, and a KEXINIT message of ten C strings in both of its buffers, kex_choose_conf
-- is the choice between these strings. Whether the peer sent a packet by guess is taken from the
-- reserved word of its message, whatever its flag is.
pub kex_choose_conf-messages :
    (md_size : Digest → ℕ) (x : Kex) (mine theirs : List Bytes) (r s : ℕ)
    → Holds x.my mine r
    → Holds x.peer theirs s
    → kex_choose_conf md_size true x ≡ choose_between md_size true s mine theirs x
unfolding kex_choose_conf with_proposals
kex_choose_conf-messages md_size x mine theirs r s h k =
    rw (Holds-read x.my mine r h, Holds-read x.peer theirs s k, kex_choose_conf) refl

module _ (cookie v s rest : Bytes) (sized : length cookie ≡ cookie_len) (clean : NoNul v)
    (more : 1 ≤ length s) (short : length (v ++ (0 ∷ s)) ≤ string_max) where
  read_proposal_nul :
      (b : Sshbuf)
      → WellFormed b
      → content b ≡ cookie ++ (framed (v ++ (0 ∷ s)) ++ rest)
      → (read_proposal true b).1 ≡ err invalid_format
  unfolding read_proposal get_names
  read_proposal_nul b w e =
      let tail = framed (v ++ (0 ∷ s)) ++ rest in
      let long : cookie_len ≤ length (content b) =
        omega (arith, ap length e, length-append cookie tail, sized) in
      let (w', e') = rw sized at (advance_front b cookie tail w e) in
      rw
        (
          consume_ok b cookie_len w long,
          get_cstring_nul (advance cookie_len b) v s rest w' short clean more e',
        )
        refl

  kex_buf2prop_nul :
      (raw : Sshbuf)
      → WellFormed raw
      → content raw ≡ cookie ++ (framed (v ++ (0 ∷ s)) ++ rest)
      → kex_buf2prop true raw ≡ err invalid_format
  unfolding kex_buf2prop
  kex_buf2prop_nul raw w e =
      rw (child_of_ok raw w, kex_buf2prop)
        (read_proposal_nul (view_of raw) (view_of-WellFormed raw w) (view_of-content raw ∙ e))

no_peer :
    (md_size : Digest → ℕ) (x : Kex) (mine : Result (ℕ × List Bytes)) (e : Error)
    → with_proposals md_size true mine (err e) x ≡ (x, fault)
unfolding with_proposals
no_peer md_size x (ok _) e = refl
no_peer md_size x (err _) e = refl
no_peer md_size x fault e = refl

-- If the first name list of the peer's message has a NUL in front of its last byte, kex_choose_conf
-- has undefined behaviour: it reads through a null pointer.
pub kex_choose_conf-nul :
    (md_size : Digest → ℕ) (x : Kex) (cookie v s rest : Bytes)
    → length cookie ≡ cookie_len
    → NoNul v
    → 1 ≤ length s
    → length (v ++ (0 ∷ s)) ≤ string_max
    → WellFormed x.peer
    → content x.peer ≡ cookie ++ (framed (v ++ (0 ∷ s)) ++ rest)
    → kex_choose_conf md_size true x ≡ (x, fault)
unfolding kex_choose_conf
kex_choose_conf-nul md_size x cookie v s rest sized clean more short w e =
    let refused = kex_buf2prop_nul cookie v s rest sized clean more short x.peer w e in
    rw refused (no_peer md_size x (kex_buf2prop true x.my) invalid_format)
