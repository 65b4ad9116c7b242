-- ===== src/Tests/Peers.antt =====
-- The theorems on peer versions, protocol lists and cipher proposals at concrete inputs.
use libopenssh.Base.{ℕ, ◌-◌, ◌≡◌, refl, true, false, Bytes, [], ◌∷◌, some, codes}
use libopenssh.Match.{tokens, prepend, until_empty, at_end, same_name}
use libopenssh.Compat.Table.{check}
use libopenssh.Compat.{Protocols, compat_datafellows, proto_spec, spec_loop, add_version, is_aes}
use libopenssh.Compat.Fellows.{Classified, compat_datafellows-Classified}
use libopenssh.Compat.Ciphers.{kept, commas}

abbrev version : Bytes
version = codes "OpenSSH_6.6"

compat_datafellows-Classified_example : Classified version check (compat_datafellows version)
compat_datafellows-Classified_example = compat_datafellows-Classified version

-- The value of a list item of one digit.
abbrev digit : Bytes → ℕ
digit [] = 0
digit (c ∷ s) = c - 48

abbrev both : Bytes
both = codes "2,1"

proto_spec_runs :
    ◌≡◌ {A = Protocols}
      (proto_spec digit true (some both))
      (record { one = true; one_preferred = false; two = true })
unfolding proto_spec spec_loop add_version tokens until_empty prepend
proto_spec_runs = refl

abbrev proposal : Bytes
proposal = codes "aes128-cbc,3des-cbc,aes256-cbc,arcfour"

commas_runs : commas (kept (tokens proposal)) ≡ codes "3des-cbc,arcfour"
unfolding tokens prepend is_aes same_name at_end
commas_runs = refl
