-- ===== src/Packet/Plain.antt =====
-- Before the first keys: what is sent is what is read.
use libopenssh.Base.{
  ℕ, ◌+◌, ◌%◌, ◌^◌, ◌≤◌, ◌<◌, ◌≡◌, ◌≢◌, refl, ap, ◌∙◌, subst, arith, false, none, Bytes, [], ◌∷◌,
  ◌++◌, append_assoc, length, length-append, length-replicate, take_all, take, drop, replicate,
  drop-append_length, get_or, ◌==◌,
}
use libopenssh.Err.{ok}
use libopenssh.Getput.{u32_bytes}
use libopenssh.Packet.{SessionState, Env, aadlen_of, reserved, u32_add, u32_sub}
use libopenssh.Packet.Send.{
  padlen_of, with_header, compressed, padded, sealed, sent_off, send2_wrapped,
}

-- The packet with its header and `p` bytes of padding.
abbrev pub frame : ℕ → Bytes → Bytes
frame p body = u32_bytes (length body + 1 + p) ++ (p ∷ (body ++ replicate p 0))

-- A context that encrypts nothing.
abbrev pub IsPlain : {C : Type 0} → Env C → C → Type 0
IsPlain {C} env c = (v : Bytes) (n : ℕ) → env.crypt c v n 0 0 ≡ (c, ok (take n v))

-- A buffer that stays within `m` bytes always has room.
abbrev pub HasRoom : {C : Type 0} → Env C → ℕ → Type 0
HasRoom env m = (n : ℕ) → n ≤ m → reserved env n ≡ ok tt

-- A state before the first keys are set, with a packet to send.
abbrev pub sending : {C : Type 0} → SessionState C → Bytes → SessionState C
sending st packet = record st { newkeys_out = none; extra_pad = 0; outgoing_packet = packet }

with_header-frame :
    (p : ℕ) (h body : Bytes)
    → length h ≡ 5
    → p < 256
    → length body + 260 < 2 ^ 32
    → with_header p ((h ++ body) ++ replicate p 0) ≡ frame p body
with_header-frame p h body e k m =
    let zeros = replicate {A = ℕ} p 0 in
    let whole : (h ++ body) ++ zeros ≡ h ++ (body ++ zeros) = append_assoc h body zeros in
    let long : length (h ++ (body ++ zeros)) ≡ 5 + (length body + p) = omega (
      arith,
      e,
      length-append h (body ++ zeros),
      length-append body zeros,
      length-replicate {A = ℕ} p 0,
    ) in
    let word : u32_sub (5 + (length body + p)) 4 ≡ length body + 1 + p = omega arith in
    let byte : p % 256 ≡ p = omega arith in
    let rest : drop 5 (h ++ (body ++ zeros)) ≡ body ++ zeros =
      subst (λ n. drop n (h ++ (body ++ zeros)) ≡ body ++ zeros) e
        (drop-append_length h (body ++ zeros)) in
    rw (whole, long, word, byte, rest) refl

padded-frame :
    {C : Type 0} (env : Env C) (st : SessionState C) (p : ℕ) (h body : Bytes) (m : ℕ)
    → HasRoom env m
    → length body + 5 + p ≤ m
    → length h ≡ 5
    → p < 256
    → length body + 260 < 2 ^ 32
    → padlen_of 8 0 (length body + 5) ≡ ok p
    → padded env (sending st (h ++ body)) ≡ (sending st (frame p body), ok tt)
unfolding padded aadlen_of
padded-frame env st p h body most room fits e k m q =
    let long : u32_sub (length (h ++ body)) 0 ≡ length body + 5 =
      omega (arith, e, m, length-append h body) in
    rw (long, padded, q)
      (rw
        (room (length (h ++ body) + length (replicate {A = ℕ} p 0))
          (omega (arith, fits, e, length-append h body, length-replicate {A = ℕ} p 0)))
        (ap (λ (x : Bytes). (sending st x, ok tt)) (with_header-frame p h body e k m)))

sealed-frame :
    {C : Type 0} (env : Env C) (st : SessionState C) (v : Bytes) (m : ℕ)
    → HasRoom env m
    → length st.output + length v ≤ m
    → IsPlain env st.send_context
    → length v < 2 ^ 32
    → sealed env (sending st v) ≡ (record (sending st v) { output = st.output ++ v }, ok tt)
unfolding sealed aadlen_of
sealed-frame env st v m room fits plain k =
    let all : u32_sub (length v) 0 ≡ length v = omega arith in
    rw (room (length st.output + (length v + 0)) (omega (arith, fits)), sealed)
      (rw (all, plain v (length v), take_all v (length v) (omega arith)) refl)

get_or-append_length : (h : Bytes) (x : ℕ) (v : Bytes) → get_or (h ++ (x ∷ v)) (length h) 0 ≡ x
get_or-append_length [] x v = refl
get_or-append_length (y ∷ h) x v = get_or-append_length h x v

pub length-frame : (p : ℕ) (body : Bytes) → length (frame p body) ≡ length body + 5 + p
unfolding u32_bytes
length-frame p body =
    omega (arith, length-append body (replicate {A = ℕ} p 0), length-replicate {A = ℕ} p 0)

behind_five : (h : Bytes) (x : ℕ) (v : Bytes) → length h ≡ 5 → get_or (h ++ (x ∷ v)) 5 0 ≡ x
behind_five h x v e = subst (λ n. get_or (h ++ (x ∷ v)) n 0 ≡ x) e (get_or-append_length h x v)

-- An ordinary type of message, which changes no keys and no compression.
abbrev pub IsOrdinary : ℕ → Type 0
IsOrdinary type = (1 ≤ type) × (type < 192) × (type ≢ 21) × (type ≢ 52)

sent_off-ordinary :
    {C : Type 0} (env : Env C) (st : SessionState C) (type : ℕ)
    → IsOrdinary type
    → st.p_send.packets + 1 < 2 ^ 32
    → ((sent_off env type st).1 ≡ ok tt) × ((sent_off env type st).0.output ≡ st.output)
unfolding sent_off
sent_off-ordinary env st type (a, b, c, d) h =
    let packets : (u32_add st.p_send.packets 1 == 0) ≡ false = ground arith in
    let keys : (type == 21) ≡ false = ground (arith, c) in
    let login : (type == 52) ≡ false = ground (arith, d) in
    rw (packets, sent_off) (rw keys (rw login (refl, refl)))

pub send2_wrapped-frame :
    {C : Type 0} (env : Env C) (st : SessionState C) (p : ℕ) (h : Bytes) (type : ℕ)
    (payload : Bytes) (most : ℕ)
    → HasRoom env most
    → length st.output + (length payload + 261) ≤ most
    → IsPlain env st.send_context
    → IsOrdinary type
    → st.p_send.packets + 1 < 2 ^ 32
    → length h ≡ 5
    → p < 256
    → length payload + 261 < 2 ^ 32
    → padlen_of 8 0 (length payload + 6) ≡ ok p
    → ((send2_wrapped env (sending st (h ++ (type ∷ payload)))).1 ≡ ok tt)
      × ((send2_wrapped env (sending st (h ++ (type ∷ payload)))).0.output
          ≡ st.output ++ frame p (type ∷ payload))
unfolding send2_wrapped compressed
send2_wrapped-frame env st p h type payload most room fits plain ord n e k m q =
    let body = type ∷ payload in
    let v = frame p body in
    let pad =
      padded-frame env st p h body most room (omega (arith, fits, k)) e k (omega arith)
        (ap (padlen_of 8 0) (omega arith) ∙ q) in
    let seal =
      sealed-frame env st v most room (omega (arith, fits, length-frame p body, k)) plain
        (omega (arith, length-frame p body, k, m)) in
    let (fine, out) =
      sent_off-ordinary env (record (sending st v) { output = st.output ++ v }) type ord n in
    rw (behind_five h type payload e, send2_wrapped) (rw pad (rw seal (fine, out)))
