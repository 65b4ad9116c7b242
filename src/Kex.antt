-- ===== src/Kex.antt =====
-- ssh/kex.c: proposals of algorithms on the wire, and the choice between two of them. A proposal is
-- the list of its PROPOSAL_MAX strings; `granted` says whether the calls of calloc and strdup succeed.
pub mod Names
pub mod Wire
pub mod Choice
pub mod Agree
pub mod Mirror
pub mod Conf
use Prim.Native.String.{String}
use libopenssh.Base.{
  ℕ, zero, suc, Bool, true, false, ◌&&◌, ◌||◌, Option, none, some, List, Bytes, [], ◌∷◌, ◌==◌,
  if◌then◌else◌, codes, get_or,
}
use libopenssh.Err.{
  Result, ok, err, fault, alloc_fail, internal_error, no_cipher_alg_match, no_mac_alg_match,
  no_compress_alg_match,
}
use libopenssh.Libc.{Allocator}
use libopenssh.Sshbuf.{Sshbuf, Op, ◌>>=◌, ◌>>◌, return, reset, consume}
use libopenssh.Getput.{put_u8, put_u32, put_cstring, get_u8, get_u32, get_cstring}
use libopenssh.Sharing.{child_of}
use libopenssh.Match.{same_name, match_list, comma}
use libopenssh.Compat.Table.{Bug, Bugs, bug_hmac, bug_firstkex}
use libopenssh.Cipher.{Cipher, cipher_by_name, cipher_ivlen, list_valid}
use libopenssh.Mac.{Digest, sha1, sha256, sha384, sha512, Sshmac, mac_setup}
use libopenssh.KeyKind.{Curve, prime256v1, secp384r1, secp521r1}

-- `enum kex_exchange`.
pub data Method : Type 0 where
  dh_grp1_sha1 dh_grp14_sha1 dh_gex_sha1 dh_gex_sha256 ecdh_sha2 : Method

pub record KexAlg : Type 0 where
  pub name : Bytes
  pub type : Method
  pub ec_nid : Option Curve
  pub mdfunc : Digest

abbrev row : String → Method → Option Curve → Digest → KexAlg
row name type ec_nid mdfunc = record {
  name = codes name;
  type = type;
  ec_nid = ec_nid;
  mdfunc = mdfunc;
}

-- `kexalgs[]`, without the null row at its end.
unfoldable pub kexalgs : List KexAlg
kexalgs =
    row "diffie-hellman-group1-sha1" dh_grp1_sha1 none sha1
    ∷ row "diffie-hellman-group14-sha1" dh_grp14_sha1 none sha1
    ∷ row "diffie-hellman-group-exchange-sha1" dh_gex_sha1 none sha1
    ∷ row "diffie-hellman-group-exchange-sha256" dh_gex_sha256 none sha256
    ∷ row "ecdh-sha2-nistp256" ecdh_sha2 (some prime256v1) sha256
    ∷ row "ecdh-sha2-nistp384" ecdh_sha2 (some secp384r1) sha384
    ∷ row "ecdh-sha2-nistp521" ecdh_sha2 (some secp521r1) sha512
    ∷ []

unfoldable pub find_kex : Bytes → List KexAlg → Option KexAlg
find_kex name [] = none
find_kex name (k ∷ ks) =
    let rest = find_kex name ks in if same_name k.name name then some k else rest

unfoldable pub kex_alg_by_name : Bytes → Option KexAlg
kex_alg_by_name name = find_kex name kexalgs

abbrev pub kex_known : Bytes → Bool
kex_known name = elim (kex_alg_by_name name) [ none ↦ false | some k ↦ true ]

unfoldable pub kex_names_valid : Bool → Option Bytes → Bool
kex_names_valid = list_valid kex_known

abbrev pub cookie_len : ℕ
cookie_len = 16

abbrev pub proposal_max : ℕ
proposal_max = 10

-- The loops of `kex_prop2buf`.
unfoldable pub put_zeros : Allocator → ℕ → Op (Unit {0})
put_zeros m zero = return tt
put_zeros m (suc n) = put_u8 m 0 >> put_zeros m n

unfoldable pub put_names : Allocator → List Bytes → Op (Unit {0})
put_names m [] = return tt
put_names m (p ∷ ps) = put_cstring m p >> put_names m ps

unfoldable pub kex_prop2buf : Allocator → List Bytes → Op (Unit {0})
kex_prop2buf m proposal b =
    (put_zeros m cookie_len >> put_names m proposal >> put_u8 m 0 >> put_u32 m 0) (reset m b)

-- The C string at the start of an allocation.
abbrev pub c_string : Bytes → Bytes
c_string [] = []
c_string (x ∷ s) = let rest = c_string s in if x == 0 then [] else x ∷ rest

unfoldable pub get_names : Bool → ℕ → Op (List Bytes)
get_names granted zero = return []
get_names granted (suc n) =
    get_cstring granted >>= λ s. get_names granted n >>= λ ps. return (c_string s.0 ∷ ps)

-- What `kex_buf2prop` reads from the child buffer: `i`, which goes out as `*first_kex_follows`, and
-- the strings.
unfoldable pub read_proposal : Bool → Op (ℕ × List Bytes)
read_proposal granted =
    consume cookie_len
    >> (get_names granted proposal_max >>= λ proposal.
        get_u8 >>= λ v. get_u32 >>= λ i. return (i, proposal))

-- `kex_buf2prop`. The child is made for the call and given up at its end.
unfoldable pub kex_buf2prop : Bool → Sshbuf → Result (ℕ × List Bytes)
kex_buf2prop granted raw = elim (child_of granted raw) [
  | none ↦ err alloc_fail
  | some b ↦ (read_proposal granted b).1
]

pub record Sshenc : Type 0 where
  pub cipher : Cipher
  pub name : Bytes
  pub iv_len : ℕ
  pub key_len : ℕ
  pub block_size : ℕ

pub data Compression : Type 0 where
  comp_none comp_zlib comp_delayed : Compression

-- `struct newkeys` as calloc leaves it and the choice fills it.
pub record Newkeys : Type 0 where
  pub enc : Option Sshenc
  pub mac : Option (Bytes × Sshmac)
  pub comp : Option (Bytes × Compression)

abbrev pub no_keys : Newkeys
no_keys = record { enc = none; mac = none; comp = none }

-- match_list(client, server, NULL), with memory for its copies granted
abbrev pub pick : Bytes → Bytes → Option Bytes
pick client server = (match_list true true true client server).0

unfoldable pub choose_enc : Bytes → Bytes → Result Sshenc
choose_enc client server = elim (pick client server) [
  | none ↦ err no_cipher_alg_match
  | some name ↦ elim (cipher_by_name name) [
    | none ↦ err internal_error
    | some c ↦ ok (record {
      cipher = c;
      name = name;
      iv_len = cipher_ivlen c;
      key_len = c.key_len;
      block_size = c.block_size;
    })
  ]
]

abbrev pub is_hmac : Bug → Bool
is_hmac bug_hmac = true
is_hmac _ = false

abbrev pub is_firstkex : Bug → Bool
is_firstkex bug_firstkex = true
is_firstkex _ = false

-- compat & SSH_BUG_*, for the bug that `test` picks.
unfoldable pub has_bug : (Bug → Bool) → Bugs → Bool
has_bug test [] = false
has_bug test (b ∷ bs) = test b || has_bug test bs

-- `short_key`: ssh->compat & SSH_BUG_HMAC.
unfoldable pub choose_mac : (Digest → ℕ) → Bool → Bytes → Bytes → Result (Bytes × Sshmac)
choose_mac md_size short_key client server = elim (pick client server) [
  | none ↦ err no_mac_alg_match
  | some name ↦ elim (mac_setup md_size name) [
    | err _ ↦ err internal_error
    | fault ↦ fault
    | ok mac ↦ ok (name, if short_key then record mac { key_len = 16 } else mac)
  ]
]

unfoldable pub choose_comp : Bytes → Bytes → Result (Bytes × Compression)
choose_comp client server = elim (pick client server) [
  | none ↦ err no_compress_alg_match
  | some name ↦
      if same_name name (codes "zlib@openssh.com")
      then ok (name, comp_delayed)
      else if same_name name (codes "zlib")
      then ok (name, comp_zlib)
      else if same_name name (codes "none")
      then ok (name, comp_none)
      else err internal_error
]

-- The part of a name list up to its first comma, as strchr and the NUL written there leave it.
unfoldable pub first_name : Bytes → Bytes
first_name [] = []
first_name (c ∷ s) = let rest = first_name s in if c == comma then [] else c ∷ rest

abbrev pub proposal_kex_algs : ℕ
proposal_kex_algs = 0

abbrev pub proposal_server_host_key_algs : ℕ
proposal_server_host_key_algs = 1

unfoldable pub proposals_match : List Bytes → List Bytes → Bool
proposals_match my peer =
    same_name (first_name (get_or my proposal_kex_algs []))
      (first_name (get_or peer proposal_kex_algs []))
    && same_name (first_name (get_or my proposal_server_host_key_algs []))
        (first_name (get_or peer proposal_server_host_key_algs []))
