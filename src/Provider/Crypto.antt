-- ===== src/Provider/Crypto.antt =====
-- crates/provider/src/crypto.rs: the session keys. The crates for AES, SHA-256 and large numbers are
-- the parameter `CryptoLib`; a byte array of fixed length is a list.
pub mod Agreement
pub mod Cipher
pub mod Powers
use Prim.Native.Nat.{bit_xor}
use wincred_libsecret_wsl_pl.Prelude.{
  ℕ, zero, suc, ◌+◌, ◌-◌, ◌*◌, ◌^◌, ◌%◌, ◌≡◌, ◌<◌, ◌≤◌, Bool, true, false, ◌||◌, Option, none, some,
  List, [], ◌∷◌, ◌++◌, map, codes, length, ltb, leb, ◌==◌, if◌then◌else◌, Result, ok, err,
}
use wincred_libsecret_wsl_pl.Protocol.Frame.{Bytes}
use wincred_libsecret_wsl_pl.Provider.Errors.{ProviderError, invalid_request}

-- `BigUint::from_bytes_be`, `to_bytes_be` and `modpow`, `Sha256::digest`, and AES-128 in CBC mode with
-- PKCS #7 padding, by key and initialization vector.
pub record CryptoLib : Type 0 where
  pub from_bytes_be : Bytes → ℕ
  pub to_bytes_be : ℕ → Bytes
  pub modpow : ℕ → ℕ → ℕ → ℕ
  pub sha256 : Bytes → Bytes
  pub cbc_encrypt : Bytes → Bytes → Bytes → Bytes
  pub cbc_decrypt : Bytes → Bytes → Bytes → Option Bytes

pub record IsSound (c : CryptoLib) : Type 0 where
  pub from_bytes_be-to_bytes_be : (n : ℕ) → c.from_bytes_be (c.to_bytes_be n) ≡ n
  pub length-to_bytes_be : (n k : ℕ) → 1 ≤ k → n < 256 ^ k → length (c.to_bytes_be n) ≤ k
  pub modpow-eq : (b e p : ℕ) → 0 < p → c.modpow b e p ≡ b ^ e % p
  pub cbc_decrypt-cbc_encrypt :
      (key iv value : Bytes)
      → length key ≡ 16
      → length iv ≡ 16
      → c.cbc_decrypt key iv (c.cbc_encrypt key iv value) ≡ some value
  pub length-sha256 : (value : Bytes) → length (c.sha256 value) ≡ 32

-- The second Oakley group.
unfoldable pub dh_prime : ℕ
dh_prime =
    (((0xFFFFFFFFFFFFFFFFC90FDAA22168C234C4C6628B80DC1CD129024E088A67CC74 * 2 ^ 256)
            + 0x020BBEA63B139B22514A08798E3404DDEF9519B3CD3A431B302B0A6DF25F1437)
          * 2 ^ 256
        + 0x4FE1356D6D51C245E485B576625E7EC6F44C42E9A637ED6B0BFF5CB6F406B7ED)
      * 2 ^ 256
    + 0xEE386BFB5A899FA5AE9F24117C4B1FE649286651ECE65381FFFFFFFFFFFFFFFF

abbrev pub dh_group_bytes : ℕ
dh_group_bytes = 128

pub data SessionKey : Type 0 where
  plain : SessionKey
  dh : Bytes → SessionKey

abbrev pub replicate : ℕ → ℕ → Bytes
replicate zero b = []
replicate (suc n) b = b ∷ replicate n b

abbrev pub take : ℕ → Bytes → Bytes
take zero bytes = []
take (suc n) [] = []
take (suc n) (b ∷ bytes) = b ∷ take n bytes

-- The zeros before a shared value that is narrower than the group.
unfoldable pub pad_shared : Bytes → Bytes
pad_shared encoded = replicate (dh_group_bytes - length encoded) 0 ++ encoded

-- `<&[u8; 16]>::try_from`
unfoldable pub checked_iv : Bytes → Result ProviderError Bytes
checked_iv parameters =
    if length parameters == 16
    then ok parameters
    else err (invalid_request (codes "DH sessions require a 16-byte AES-CBC IV"))

abbrev pub invalid_public_key : ProviderError
invalid_public_key = invalid_request (codes "invalid DH public key")

abbrev pub plain_parameters : ProviderError
plain_parameters = invalid_request (codes "plain sessions require empty parameters")

module _ (c : CryptoLib) where
  -- The key, or its digest, with zeros up to the size of a block.
  unfoldable pub padded_key : Bytes → Bytes
  padded_key key =
      let start = if ltb 64 (length key) then c.sha256 key else key in
      start ++ replicate (64 - length start) 0

  unfoldable pub hmac_sha256 : Bytes → Bytes → Bytes
  unfolding padded_key
  hmac_sha256 key value =
      let inner = c.sha256 (map (λ b. bit_xor b 0x36) (padded_key key) ++ value) in
      c.sha256 (map (λ b. bit_xor b 0x5c) (padded_key key) ++ inner)

  unfoldable pub derive_aes_key : Bytes → Bytes
  unfolding hmac_sha256
  derive_aes_key shared_secret =
      let pseudorandom_key = hmac_sha256 (replicate 32 0) shared_secret in
      take 16 (hmac_sha256 pseudorandom_key (1 ∷ []))

  -- `none` is the panic of a shared value that is wider than the group.
  unfoldable pub derive_dh_aes_key : ℕ → Option Bytes
  unfolding derive_aes_key
  derive_dh_aes_key shared =
      let encoded = c.to_bytes_be shared in
      if ltb dh_group_bytes (length encoded)
      then none
      else some (derive_aes_key (pad_shared encoded))

  -- The exponent is drawn by the caller: `gen_biguint_range(2, prime - 2)`.
  unfoldable pub open_dh : Bytes → ℕ → Option (Result ProviderError (SessionKey × Bytes))
  unfolding dh_prime derive_dh_aes_key
  open_dh client_public private =
      if length client_public == 0 || ltb 128 (length client_public)
      then some (err invalid_public_key)
      else let client = c.from_bytes_be client_public in
        if ltb client 2 || leb (dh_prime - 2) client
        then some (err invalid_public_key)
        else elim (derive_dh_aes_key (c.modpow client private dh_prime)) [
          | none ↦ none
          | some key ↦ some (ok (dh key, c.to_bytes_be (c.modpow 2 private dh_prime)))
        ]

  unfoldable pub encrypt : SessionKey → Bytes → Bytes → Result ProviderError Bytes
  unfolding checked_iv
  encrypt plain parameters secret =
      if length parameters == 0 then ok secret else err plain_parameters
  encrypt (dh key) parameters secret = elim (checked_iv parameters) [
    | err e ↦ err e
    | ok iv ↦ ok (c.cbc_encrypt key iv secret)
  ]

  unfoldable pub decrypt : SessionKey → Bytes → Bytes → Result ProviderError Bytes
  unfolding checked_iv
  decrypt plain parameters encrypted =
      if length parameters == 0 then ok encrypted else err plain_parameters
  decrypt (dh key) parameters encrypted = elim (checked_iv parameters) [
    | err e ↦ err e
    | ok iv ↦ elim (c.cbc_decrypt key iv encrypted) [
      | none ↦ err (invalid_request (codes "invalid encrypted secret"))
      | some value ↦ ok value
    ]
  ]
