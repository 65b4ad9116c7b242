-- ===== src/Tests/Kexes.antt =====
-- The theorems on proposals, and on the choice between two, at concrete lists.
use libopenssh.Base.{
  ℕ, ◌≡◌, ◌↔◌, refl, true, false, arith, Bytes, List, [], ◌∷◌, some, none, codes, length, replicate,
  ◌++◌,
}
use libopenssh.Err.{ok, fault}
use libopenssh.Sshbuf.{Sshbuf}
use libopenssh.Sshbuf.Sanity.{WellFormed}
use libopenssh.Sshbuf.Content.{content}
use libopenssh.Getput.{u32_bytes}
use libopenssh.Cipher.{ciphers, ciphers_valid}
use libopenssh.Mac.{Digest, macs, mac_valid}
use libopenssh.KeyKind.{unspec}
use libopenssh.Compat.Table.{new_openssh}
use libopenssh.Getput.PutString.{framed}
use libopenssh.Getput.Granted.{Grants}
use libopenssh.Kex.{kexalgs, kex_names_valid, kex_prop2buf, kex_buf2prop}
use libopenssh.Kex.Names.{Accepted, IsCipher, IsMac, IsKex, ciphers_valid-Accepted}
use libopenssh.Kex.Wire.{AreNames, message, kex_buf2prop-prop2buf}
use libopenssh.Kex.Choice.{Kex, choose_between, kex_choose_conf}
use libopenssh.Kex.Conf.{Holds, kex_choose_conf-messages, kex_choose_conf-nul}
use libopenssh.Kex.Mirror.{Mirrors, choose_between-Mirrors}
use libopenssh.Tests.{libc, half_full, empty_buffer, empty_buffer-WellFormed}

ciphers_valid-Accepted_example :
    ((ciphers_valid true (some (codes "aes128-ctr,3des-cbc")) ≡ true)
      ↔ Accepted (λ p. IsCipher p ciphers) (codes "aes128-ctr,3des-cbc"))
    × ((mac_valid true (some (codes "aes128-ctr,3des-cbc")) ≡ true)
        ↔ Accepted (λ p. IsMac p macs) (codes "aes128-ctr,3des-cbc"))
    × ((kex_names_valid true (some (codes "aes128-ctr,3des-cbc")) ≡ true)
        ↔ Accepted (λ p. IsKex p kexalgs) (codes "aes128-ctr,3des-cbc"))
ciphers_valid-Accepted_example = ciphers_valid-Accepted (codes "aes128-ctr,3des-cbc")

-- The lists of a client and of a server.
abbrev mine : List Bytes
mine =
    codes "ecdh-sha2-nistp256,diffie-hellman-group1-sha1"
    ∷ codes "ssh-dss,ssh-rsa"
    ∷ codes "aes128-ctr,3des-cbc"
    ∷ codes "aes128-ctr,3des-cbc"
    ∷ codes "hmac-md5,hmac-sha1"
    ∷ codes "hmac-md5,hmac-sha1"
    ∷ codes "none"
    ∷ codes "none"
    ∷ []
    ∷ []
    ∷ []

abbrev theirs : List Bytes
theirs =
    codes "diffie-hellman-group1-sha1"
    ∷ codes "ssh-rsa"
    ∷ codes "3des-cbc"
    ∷ codes "aes128-ctr"
    ∷ codes "hmac-sha1"
    ∷ codes "hmac-md5"
    ∷ codes "zlib,none"
    ∷ codes "none"
    ∷ []
    ∷ []
    ∷ []

abbrev client : Kex
client = record {
  server = false;
  compat = new_openssh ∷ [];
  my = empty_buffer;
  peer = empty_buffer;
  newkeys_in = none;
  newkeys_out = none;
  we_need = 0;
  name = none;
  alg = none;
  hostkey_type = unspec;
  roaming = false;
  skip_packets = 0;
}

abbrev server : Kex
server = record client { server = true }

abbrev md_size : Digest → ℕ
md_size d = 20

choose_between-Mirrors_example :
    ((x : Kex)
      → choose_between md_size true 0 mine theirs client ≡ (x, ok tt)
      → (y : Kex) × (choose_between md_size true 1 theirs mine server ≡ (y, ok tt)) × Mirrors x y)
    × ((y : Kex)
        → choose_between md_size true 1 theirs mine server ≡ (y, ok tt)
        → (x : Kex) × (choose_between md_size true 0 mine theirs client ≡ (x, ok tt)) × Mirrors x y)
choose_between-Mirrors_example =
    choose_between-Mirrors md_size mine theirs 0 1 client server refl refl refl

-- Ten short lists.
abbrev short : List Bytes
short = codes "dh" ∷ codes "rsa" ∷ [] ∷ codes "a,b" ∷ [] ∷ [] ∷ codes "none" ∷ [] ∷ [] ∷ [] ∷ []

short-AreNames : AreNames short
short-AreNames = ground arith

libc-Grants : Grants libc
libc-Grants p mem k e = cc e

-- A message whose flag is set, and whose reserved word is 7.
abbrev sent : Bytes
sent = message (replicate 16 1) short 1 7

abbrev raw : Sshbuf
raw = record half_full { mem = sent; off = 0; size = length sent; alloc = length sent }

raw-WellFormed : WellFormed raw
unfolding u32_bytes
raw-WellFormed = ground arith

kex_buf2prop-prop2buf_example :
    (c : Sshbuf) × (kex_prop2buf libc short empty_buffer ≡ (c, ok tt))
    × (kex_buf2prop true c ≡ ok (0, short))
unfolding u32_bytes
kex_buf2prop-prop2buf_example =
    kex_buf2prop-prop2buf libc libc-Grants short empty_buffer refl short-AreNames
      empty_buffer-WellFormed refl (omega arith) (omega arith)

raw-Holds : Holds raw short 7
unfolding content u32_bytes
raw-Holds = record {
  cookie = replicate 16 1;
  flag = 1;
  sized = refl;
  ten = refl;
  names = short-AreNames;
  word = omega arith;
  well_formed = raw-WellFormed;
  held = refl;
}

-- An end whose two buffers hold that message.
abbrev read : Kex
read = record client { my = raw; peer = raw }

kex_choose_conf-messages_example :
    kex_choose_conf md_size true read ≡ choose_between md_size true 7 short short read
kex_choose_conf-messages_example =
    kex_choose_conf-messages md_size read short short 7 7 raw-Holds raw-Holds

-- A message that ends behind a first name list with a NUL in it.
abbrev broken : Bytes
broken = replicate 16 1 ++ (framed (codes "dh" ++ (0 ∷ codes "x")) ++ [])

abbrev cut : Sshbuf
cut = record half_full { mem = broken; off = 0; size = length broken; alloc = length broken }

cut-WellFormed : WellFormed cut
unfolding u32_bytes
cut-WellFormed = ground arith

abbrev attacked : Kex
attacked = record read { peer = cut }

kex_choose_conf-nul_example : kex_choose_conf md_size true attacked ≡ (attacked, fault)
unfolding content u32_bytes
kex_choose_conf-nul_example =
    kex_choose_conf-nul md_size attacked (replicate 16 1) (codes "dh") (codes "x") [] refl
      (refl, (refl, tt)) (omega arith) (omega arith) cut-WellFormed refl
