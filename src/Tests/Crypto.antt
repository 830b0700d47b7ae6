-- ===== src/Tests/Crypto.antt =====
-- The session keys of crates/provider/src/crypto.rs at concrete inputs, over numbers that are written as
-- one digit, a constant digest and a cipher that puts one byte in front.
use wincred_libsecret_wsl_pl.Prelude.{
  ℕ, ◌+◌, ◌*◌, ◌^◌, ◌%◌, ◌≡◌, refl, arith, Option, none, some, [], ◌∷◌, length, ok, err,
}
use wincred_libsecret_wsl_pl.Protocol.Frame.{Bytes}
use wincred_libsecret_wsl_pl.Provider.Crypto.{
  CryptoLib, IsSound, dh, dh_prime, replicate, pad_shared, invalid_public_key, derive_aes_key,
  derive_dh_aes_key, open_dh,
}
use wincred_libsecret_wsl_pl.Provider.Crypto.Cipher.{IsKey}
use wincred_libsecret_wsl_pl.Provider.Crypto.Agreement.{
  IsPublic, open_dh_total, open_dh-derive_dh_aes_key,
}

unfoldable pub from_digits : ℕ → Bytes → ℕ
from_digits acc [] = acc
from_digits acc (b ∷ bytes) = from_digits (acc * 256 + b) bytes

unfoldable pub unwrap_block : Bytes → Option Bytes
unwrap_block [] = none
unwrap_block (b ∷ value) = some value

abbrev pub toy_lib : CryptoLib
toy_lib = record {
  from_bytes_be = from_digits 0;
  to_bytes_be = λ n. n ∷ [];
  modpow = λ b e p. b ^ e % p;
  sha256 = λ value. replicate 32 (length value);
  cbc_encrypt = λ key iv value. 0 ∷ value;
  cbc_decrypt = λ key iv value. unwrap_block value;
}

pub toy_lib-IsSound : IsSound toy_lib
unfolding from_digits unwrap_block
toy_lib-IsSound = record {
  from_bytes_be-to_bytes_be = λ n. grind arith;
  length-to_bytes_be = λ n k h l. grind arith;
  modpow-eq = λ b e p h. refl;
  cbc_decrypt-cbc_encrypt = λ key iv value h l. refl;
  length-sha256 = λ value. refl;
}

abbrev pub toy_key : Bytes
toy_key = replicate 16 7

open_dh_total_example :
    (IsPublic toy_lib (32 ∷ [])
      → (key : Bytes) × (open_dh toy_lib (32 ∷ []) 3 ≡ some (ok (dh key, 2 ^ 3 % dh_prime ∷ [])))
        × IsKey (dh key))
    × (¬ IsPublic toy_lib (32 ∷ []) → open_dh toy_lib (32 ∷ []) 3 ≡ some (err invalid_public_key))
open_dh_total_example = open_dh_total toy_lib toy_lib-IsSound (32 ∷ []) 3

open_dh-derive_dh_aes_key_example :
    derive_dh_aes_key toy_lib (toy_lib.modpow (toy_lib.from_bytes_be (8 ∷ [])) 5 dh_prime)
    ≡ some (derive_aes_key toy_lib (pad_shared (32768 ∷ [])))
unfolding from_digits open_dh dh_prime
open_dh-derive_dh_aes_key_example =
    open_dh-derive_dh_aes_key toy_lib toy_lib-IsSound (32 ∷ []) 5 3 _ (8 ∷ []) refl refl
