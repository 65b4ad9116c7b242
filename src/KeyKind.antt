-- ===== src/KeyKind.antt =====
-- ssh/key.c: the table of key types and the look-up by name.
use Prim.Native.String.{String}
use libopenssh.Base.{
  Bool, true, false, not, ◌&&◌, ◌||◌, Option, none, some, List, Bytes, [], ◌∷◌, ◌==◌, if◌then◌else◌,
  codes,
}
use libopenssh.Match.{same_name, at_end, to_lower}

-- `enum sshkey_types`.
pub data KeyType : Type 0 where
  rsa1 rsa dsa ecdsa rsa_cert dsa_cert ecdsa_cert rsa_cert_v00 dsa_cert_v00 : KeyType
  unspec : KeyType

-- OpenSSL's NIDs of the curves.
pub data Curve : Type 0 where
  prime256v1 secp384r1 secp521r1 : Curve

pub record KeyKind : Type 0 where
  pub name : Option Bytes
  pub shortname : Bytes
  pub type : KeyType
  pub nid : Option Curve
  pub cert : Bool

abbrev row : Option Bytes → String → KeyType → Option Curve → Bool → KeyKind
row name shortname type nid cert = record {
  name = name;
  shortname = codes shortname;
  type = type;
  nid = nid;
  cert = cert;
}

-- `keytypes[]`, without the null row at its end.
unfoldable pub keytypes : List KeyKind
keytypes =
    row none "RSA1" rsa1 none false
    ∷ row (some (codes "ssh-rsa")) "RSA" rsa none false
    ∷ row (some (codes "ssh-dss")) "DSA" dsa none false
    ∷ row (some (codes "ecdsa-sha2-nistp256")) "ECDSA" ecdsa (some prime256v1) false
    ∷ row (some (codes "ecdsa-sha2-nistp384")) "ECDSA" ecdsa (some secp384r1) false
    ∷ row (some (codes "ecdsa-sha2-nistp521")) "ECDSA" ecdsa (some secp521r1) false
    ∷ row (some (codes "ssh-rsa-cert-v01@openssh.com")) "RSA-CERT" rsa_cert none true
    ∷ row (some (codes "ssh-dss-cert-v01@openssh.com")) "DSA-CERT" dsa_cert none true
    ∷ row (some (codes "ecdsa-sha2-nistp256-cert-v01@openssh.com")) "ECDSA-CERT" ecdsa_cert
        (some prime256v1) true
    ∷ row (some (codes "ecdsa-sha2-nistp384-cert-v01@openssh.com")) "ECDSA-CERT" ecdsa_cert
        (some secp384r1) true
    ∷ row (some (codes "ecdsa-sha2-nistp521-cert-v01@openssh.com")) "ECDSA-CERT" ecdsa_cert
        (some secp521r1) true
    ∷ row (some (codes "ssh-rsa-cert-v00@openssh.com")) "RSA-CERT-V00" rsa_cert_v00 none true
    ∷ row (some (codes "ssh-dss-cert-v00@openssh.com")) "DSA-CERT-V00" dsa_cert_v00 none true
    ∷ []

-- strcasecmp(a, b) == 0, in the C locale.
unfoldable pub same_nocase : Bytes → Bytes → Bool
same_nocase [] b = at_end b
same_nocase (x ∷ a) [] = false
same_nocase (x ∷ a) (y ∷ b) = if to_lower true x == to_lower true y then same_nocase a b else false

-- `kt->name != NULL && strcmp(name, kt->name) == 0`
abbrev pub has_name : Bytes → Option Bytes → Bool
has_name name none = false
has_name name (some n) = same_name name n

unfoldable pub find_type : Bytes → List KeyKind → KeyType
find_type name [] = unspec
find_type name (k ∷ ks) =
    let rest = find_type name ks in
    if has_name name k.name || (not k.cert && same_nocase k.shortname name) then k.type else rest

unfoldable pub sshkey_type_from_name : Bytes → KeyType
sshkey_type_from_name name = find_type name keytypes
