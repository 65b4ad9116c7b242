-- ===== src/Err.antt =====
-- The error codes of ssh/err.h that the modelled functions return, and the C calling convention:
-- `return 0` is `ok`, a negative code is `err`. `fault` is undefined behaviour of C, such as a read
-- behind the end of an allocation or through a null pointer.

pub data Error : Type 0 where
  internal_error alloc_fail message_incomplete invalid_format : Error
  bignum_is_negative bignum_too_large no_buffer_space invalid_argument : Error
  buffer_read_only no_kex_alg_match no_cipher_alg_match no_mac_alg_match : Error
  no_compress_alg_match no_hostkey_alg_match libcrypto_error disconnected : Error
  unexpected_trailing_data mac_invalid key_revoked need_rekey : Error

pub data Result {ℓ} (A : Type ℓ) : Type ℓ where
  ok : A → Result A
  err : Error → Result A
  fault : Result A

-- The call is defined behaviour.
abbrev pub Defined {ℓ} : {A : Type ℓ} → Result A → Type 0
Defined (ok a) = Unit {0}
Defined (err e) = Unit {0}
Defined fault = ⊥

-- `if ((r = m) != 0) return r;` in front of the rest, for calls that change a state of type `S`.
abbrev pub and_then : {S A B : Type 0} → S × Result A → (A → S → S × Result B) → S × Result B
and_then (s, ok a) f = f a s
and_then (s, err e) f = (s, err e)
and_then (s, fault) f = (s, fault)
