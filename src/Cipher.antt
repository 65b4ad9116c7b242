-- ===== src/Cipher.antt =====
-- ssh/cipher.c: the table of ciphers and the checks of names. The OpenSSL function of a row is left
-- out; the encryption itself is OpenSSL's.
use Prim.Native.String.{String}
use libopenssh.Base.{
  ℕ, Bool, true, false, ◌&&◌, Option, none, some, List, Bytes, [], ◌∷◌, ◌==◌, if◌then◌else◌, codes,
}
use libopenssh.Match.{same_name, tokens, until_empty, at_end}

-- The SSH_CIPHER_* numbers that the table uses.
pub data CipherNumber : Type 0 where
  null_cipher des triple_des blowfish ssh2 : CipherNumber

pub record Cipher : Type 0 where
  pub name : Bytes
  pub number : CipherNumber
  pub block_size : ℕ
  pub key_len : ℕ
  pub iv_len : ℕ
  pub auth_len : ℕ
  pub discard_len : ℕ
  pub cbc_mode : Bool

abbrev row : String → CipherNumber → ℕ → ℕ → ℕ → ℕ → ℕ → Bool → Cipher
row name number block_size key_len iv_len auth_len discard_len cbc_mode = record {
  name = codes name;
  number = number;
  block_size = block_size;
  key_len = key_len;
  iv_len = iv_len;
  auth_len = auth_len;
  discard_len = discard_len;
  cbc_mode = cbc_mode;
}

-- `ciphers[]`, without the null row at its end.
unfoldable pub ciphers : List Cipher
ciphers =
    row "none" null_cipher 8 0 0 0 0 false
    ∷ row "des" des 8 8 0 0 0 true
    ∷ row "3des" triple_des 8 16 0 0 0 true
    ∷ row "blowfish" blowfish 8 32 0 0 0 true
    ∷ row "3des-cbc" ssh2 8 24 0 0 0 true
    ∷ row "blowfish-cbc" ssh2 8 16 0 0 0 true
    ∷ row "cast128-cbc" ssh2 8 16 0 0 0 true
    ∷ row "arcfour" ssh2 8 16 0 0 0 false
    ∷ row "arcfour128" ssh2 8 16 0 0 1536 false
    ∷ row "arcfour256" ssh2 8 32 0 0 1536 false
    ∷ row "aes128-cbc" ssh2 16 16 0 0 0 true
    ∷ row "aes192-cbc" ssh2 16 24 0 0 0 true
    ∷ row "aes256-cbc" ssh2 16 32 0 0 0 true
    ∷ row "rijndael-cbc@lysator.liu.se" ssh2 16 32 0 0 0 true
    ∷ row "aes128-ctr" ssh2 16 16 0 0 0 false
    ∷ row "aes192-ctr" ssh2 16 24 0 0 0 false
    ∷ row "aes256-ctr" ssh2 16 32 0 0 0 false
    ∷ row "aes128-gcm@openssh.com" ssh2 16 16 12 16 0 false
    ∷ row "aes256-gcm@openssh.com" ssh2 16 32 12 16 0 false
    ∷ []

-- The loop of `cipher_by_name`.
unfoldable pub find_cipher : Bytes → List Cipher → Option Cipher
find_cipher name [] = none
find_cipher name (c ∷ cs) =
    let rest = find_cipher name cs in if same_name c.name name then some c else rest

unfoldable pub cipher_by_name : Bytes → Option Cipher
cipher_by_name name = find_cipher name ciphers

unfoldable pub cipher_ivlen : Cipher → ℕ
cipher_ivlen c = if c.iv_len == 0 then c.block_size else c.iv_len

abbrev pub is_ssh2 : CipherNumber → Bool
is_ssh2 ssh2 = true
is_ssh2 _ = false

-- The body of the loop of `ciphers_valid`.
unfoldable pub cipher_valid : Bytes → Bool
cipher_valid name = elim (cipher_by_name name) [ none ↦ false | some c ↦ is_ssh2 c.number ]

unfoldable pub all_valid : (Bytes → Bool) → List Bytes → Bool
all_valid valid [] = true
all_valid valid (p ∷ ps) = valid p && all_valid valid ps

-- `names` is a null pointer, or a string; `granted` says whether strdup succeeds.
unfoldable pub list_valid : (Bytes → Bool) → Bool → Option Bytes → Bool
list_valid valid granted none = false
list_valid valid granted (some names) =
    if at_end names
    then false
    else if granted
    then all_valid valid (until_empty (tokens names))
    else false

unfoldable pub ciphers_valid : Bool → Option Bytes → Bool
ciphers_valid = list_valid cipher_valid
