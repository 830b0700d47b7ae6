-- ===== src/Provider/Crypto/Cipher.antt =====
-- `SessionKey::encrypt` and `SessionKey::decrypt` of crates/provider/src/crypto.rs.
use wincred_libsecret_wsl_pl.Prelude.{◌≡◌, ok, arith, length}
use wincred_libsecret_wsl_pl.Protocol.Frame.{Bytes}
use wincred_libsecret_wsl_pl.Provider.Crypto.{
  CryptoLib, IsSound, SessionKey, plain, dh, encrypt, decrypt,
}

-- The keys that a handshake makes are of 16 bytes.
abbrev pub IsKey : SessionKey → Type 0
IsKey plain = Unit
IsKey (dh key) = length key ≡ 16

module _ (c : CryptoLib) (sound : IsSound c) where
  -- With sound cryptography and a key of its cipher's size, what `encrypt` makes of a secret is
  -- decrypted to that secret with the same parameters.
  pub decrypt-encrypt :
      (k : SessionKey) (parameters secret value : Bytes)
      → IsKey k
      → encrypt c k parameters secret ≡ ok value
      → decrypt c k parameters value ≡ ok secret
  unfolding encrypt decrypt
  decrypt-encrypt plain parameters secret value sized h = ground arith
  decrypt-encrypt (dh key) parameters secret value sized h =
      ground (arith, sound.cbc_decrypt-cbc_encrypt key parameters secret)
