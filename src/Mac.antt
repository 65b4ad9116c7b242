-- ===== src/Mac.antt =====
-- ssh/mac.c: the table of MACs, their set-up and the check of names. The digests are OpenSSL's.
use Prim.Native.String.{String}
use libopenssh.Base.{
  ℕ, ◌/◌, Bool, true, false, not, Option, none, some, List, Bytes, [], ◌∷◌, ◌==◌, if◌then◌else◌,
  codes,
}
use libopenssh.Err.{Result, ok, err, fault, invalid_argument, libcrypto_error}
use libopenssh.Match.{same_name}
use libopenssh.Cipher.{list_valid}

pub data MacType : Type 0 where
  evp umac umac128 : MacType

-- The functions EVP_* that give a digest.
pub data Digest : Type 0 where
  md5 ripemd160 sha1 sha256 sha384 sha512 : Digest

pub record MacAlg : Type 0 where
  pub name : Bytes
  pub type : MacType
  pub mdfunc : Option Digest
  pub truncatebits : ℕ
  pub key_len : ℕ
  pub len : ℕ
  pub etm : Bool

abbrev row : String → MacType → Option Digest → ℕ → ℕ → ℕ → Bool → MacAlg
row name type mdfunc truncatebits key_len len etm = record {
  name = codes name;
  type = type;
  mdfunc = mdfunc;
  truncatebits = truncatebits;
  key_len = key_len;
  len = len;
  etm = etm;
}

-- `macs[]`, without the null row at its end.
unfoldable pub macs : List MacAlg
macs =
    row "hmac-sha1" evp (some sha1) 0 0 0 false
    ∷ row "hmac-sha1-96" evp (some sha1) 96 0 0 false
    ∷ row "hmac-sha2-256" evp (some sha256) 0 0 0 false
    ∷ row "hmac-sha2-512" evp (some sha512) 0 0 0 false
    ∷ row "hmac-md5" evp (some md5) 0 0 0 false
    ∷ row "hmac-md5-96" evp (some md5) 96 0 0 false
    ∷ row "hmac-ripemd160" evp (some ripemd160) 0 0 0 false
    ∷ row "hmac-ripemd160@openssh.com" evp (some ripemd160) 0 0 0 false
    ∷ row "umac-64@openssh.com" umac none 0 128 64 false
    ∷ row "umac-128@openssh.com" umac128 none 0 128 128 false
    ∷ row "hmac-sha1-etm@openssh.com" evp (some sha1) 0 0 0 true
    ∷ row "hmac-sha1-96-etm@openssh.com" evp (some sha1) 96 0 0 true
    ∷ row "hmac-sha2-256-etm@openssh.com" evp (some sha256) 0 0 0 true
    ∷ row "hmac-sha2-512-etm@openssh.com" evp (some sha512) 0 0 0 true
    ∷ row "hmac-md5-etm@openssh.com" evp (some md5) 0 0 0 true
    ∷ row "hmac-md5-96-etm@openssh.com" evp (some md5) 96 0 0 true
    ∷ row "hmac-ripemd160-etm@openssh.com" evp (some ripemd160) 0 0 0 true
    ∷ row "umac-64-etm@openssh.com" umac none 0 128 64 true
    ∷ row "umac-128-etm@openssh.com" umac128 none 0 128 128 true
    ∷ []

-- The fields of `struct sshmac` that the set-up and the negotiation fill.
pub record Sshmac : Type 0 where
  pub type : MacType
  pub md : Option Digest
  pub mac_len : ℕ
  pub key_len : ℕ
  pub etm : Bool

unfoldable pub find_mac : Bytes → List MacAlg → Option MacAlg
find_mac name [] = none
find_mac name (m ∷ ms) =
    let rest = find_mac name ms in if same_name name m.name then some m else rest

-- `if (macalg->truncatebits != 0) mac->mac_len = macalg->truncatebits / 8;`
abbrev pub truncated : MacAlg → ℕ → ℕ
truncated m full = if not (m.truncatebits == 0) then m.truncatebits / 8 else full

abbrev pub is_evp : MacType → Bool
is_evp evp = true
is_evp _ = false

module _ (md_size : Digest → ℕ) where
  -- `mac_setup_by_alg`; `md_size` is EVP_MD_size, where 0 stands for a failure. A row of type SSH_EVP
  -- without a function would be a call through a null pointer.
  unfoldable pub mac_setup_by_alg : MacAlg → Result Sshmac
  mac_setup_by_alg m =
      if is_evp m.type
      then elim m.mdfunc [
        | none ↦ fault
        | some d ↦
            if md_size d == 0
            then err libcrypto_error
            else ok (record {
              type = m.type;
              md = some d;
              mac_len = truncated m (md_size d);
              key_len = md_size d;
              etm = m.etm;
            })
      ]
      else ok (record {
        type = m.type;
        md = none;
        mac_len = truncated m (m.len / 8);
        key_len = m.key_len / 8;
        etm = m.etm;
      })

  -- `mac_setup` with a struct to fill.
  unfoldable pub mac_setup : Bytes → Result Sshmac
  mac_setup name = elim (find_mac name macs) [
    | none ↦ err invalid_argument
    | some m ↦ mac_setup_by_alg m
  ]

-- `mac_setup(NULL, name) < 0` does not hold.
unfoldable pub mac_known : Bytes → Bool
mac_known name = elim (find_mac name macs) [ none ↦ false | some m ↦ true ]

unfoldable pub mac_valid : Bool → Option Bytes → Bool
mac_valid = list_valid mac_known
