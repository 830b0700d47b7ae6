-- ===== src/Provider/Crypto/Agreement.antt =====
-- The handshake of crates/provider/src/crypto.rs: both sides derive one key.
use native.Mathlib.Nat.{mod-lt}
use wincred_libsecret_wsl_pl.Prelude.{
  Result, subst, ℕ, zero, suc, ◌-◌, ◌%◌, ◌^◌, ◌<◌, ◌≤◌, ◌≡◌, refl, sym, some, [], ◌∷◌, ok, err,
  arith, length,
}
use wincred_libsecret_wsl_pl.Protocol.Frame.{Bytes}
use wincred_libsecret_wsl_pl.Provider.Crypto.{
  ProviderError, pad_shared, invalid_public_key, CryptoLib, IsSound, SessionKey, dh, dh_prime,
  derive_dh_aes_key, open_dh, derive_aes_key, take, hmac_sha256,
}
use wincred_libsecret_wsl_pl.Provider.Crypto.Cipher.{IsKey}
use wincred_libsecret_wsl_pl.Provider.Crypto.Powers.{shared_comm}

-- The public numbers that the provider accepts.
abbrev pub IsPublic : CryptoLib → Bytes → Type 0
IsPublic c bytes =
    (1 ≤ length bytes)
    × (length bytes ≤ 128)
    × (2 ≤ c.from_bytes_be bytes)
    × (c.from_bytes_be bytes < dh_prime - 2)

dh_prime-positive : 0 < dh_prime
unfolding dh_prime
dh_prime-positive = omega arith

dh_prime-lt : dh_prime < 256 ^ 128
unfolding dh_prime
dh_prime-lt = omega arith

length-take : (n : ℕ) (bytes : Bytes) → n ≤ length bytes → length (take n bytes) ≡ n
length-take zero bytes h = refl
length-take (suc n) [] h = omega arith
length-take (suc n) (b ∷ bytes) h = grind (arith, length-take n bytes)

module _ (c : CryptoLib) (sound : IsSound c) where
  length-derive_aes_key : (value : Bytes) → length (derive_aes_key c value) ≡ 16
  unfolding derive_aes_key hmac_sha256
  length-derive_aes_key value = length-take 16 _ (grind (arith, sound.length-sha256))

  modpow-lt : (b e : ℕ) → c.modpow b e dh_prime < dh_prime
  modpow-lt b e =
      subst (λ n. n < dh_prime) (sym (sound.modpow-eq b e dh_prime dh_prime-positive))
        (mod-lt (b ^ e) dh_prime-positive)

  length-modpow : (b e : ℕ) → length (c.to_bytes_be (c.modpow b e dh_prime)) ≤ 128
  length-modpow b e =
      sound.length-to_bytes_be _ 128 (omega arith) (grind (arith, modpow-lt b e, dh_prime-lt))

  -- The key that both sides derive from a shared value.
  abbrev session_key : ℕ → Bytes
  session_key shared = derive_aes_key c (pad_shared (c.to_bytes_be shared))

  derive_dh_aes_key-modpow :
      (b e : ℕ)
      → derive_dh_aes_key c (c.modpow b e dh_prime) ≡ some (session_key (c.modpow b e dh_prime))
  unfolding derive_dh_aes_key
  derive_dh_aes_key-modpow b e = ground (arith, length-modpow b e)

  abbrev accepted : Bytes → ℕ → Result ProviderError (SessionKey × Bytes)
  accepted bytes private = ok (
    dh (session_key (c.modpow (c.from_bytes_be bytes) private dh_prime)),
    c.to_bytes_be (c.modpow 2 private dh_prime),
  )

  open_dh-IsPublic :
      (bytes : Bytes) (private : ℕ)
      → IsPublic c bytes
      → open_dh c bytes private ≡ some (accepted bytes private)
  unfolding open_dh
  open_dh-IsPublic bytes private h =
      ground (arith, derive_dh_aes_key-modpow (c.from_bytes_be bytes) private)

  open_dh-refused :
      (bytes : Bytes) (private : ℕ)
      → ¬ IsPublic c bytes
      → open_dh c bytes private ≡ some (err invalid_public_key)
  unfolding open_dh
  open_dh-refused bytes private h = ground arith

  -- With sound cryptography `open_dh` ends without a panic: from an acceptable public number, one
  -- of 1 to 128 bytes from 2 to the prime less 3, it makes a key of 16 bytes and answers with its
  -- own public number, and every other one it refuses.
  pub open_dh_total :
      (bytes : Bytes) (private : ℕ)
      → (IsPublic c bytes
          → (key : Bytes) × (open_dh c bytes private
              ≡ some (ok (dh key, c.to_bytes_be (c.modpow 2 private dh_prime))))
            × IsKey (dh key))
        × (¬ IsPublic c bytes → open_dh c bytes private ≡ some (err invalid_public_key))
  open_dh_total bytes private = (
    λ h. (
      session_key (c.modpow (c.from_bytes_be bytes) private dh_prime),
      open_dh-IsPublic bytes private h,
      length-derive_aes_key _,
    ),
    open_dh-refused bytes private,
  )

  open_dh-ok :
      (bytes : Bytes) (private : ℕ) (r : SessionKey × Bytes)
      → open_dh c bytes private ≡ some (ok r)
      → IsPublic c bytes
  unfolding open_dh
  open_dh-ok bytes private r h = ground arith

  modpow_comm :
      (bytes : Bytes) (a private : ℕ)
      → c.from_bytes_be bytes ≡ 2 ^ a % dh_prime
      → c.modpow (c.from_bytes_be (c.to_bytes_be (c.modpow 2 private dh_prime))) a dh_prime
        ≡ c.modpow (c.from_bytes_be bytes) private dh_prime
  modpow_comm bytes a private sent =
      rw (sound.from_bytes_be-to_bytes_be, sent, power 2 private, power _ a, power _ private)
        (sym (shared_comm 2 a private dh_prime))
    where
      power : (g e : ℕ) → c.modpow g e dh_prime ≡ g ^ e % dh_prime
      power g e = sound.modpow-eq g e dh_prime dh_prime-positive

  -- With sound cryptography, a client that keeps the exponent `a` and sends `2 ^ a` modulo the
  -- prime derives the key of a successful `open_dh` from the provider's answer.
  pub open_dh-derive_dh_aes_key :
      (bytes : Bytes) (a private : ℕ) (key answer : Bytes)
      → c.from_bytes_be bytes ≡ 2 ^ a % dh_prime
      → open_dh c bytes private ≡ some (ok (dh key, answer))
      → derive_dh_aes_key c (c.modpow (c.from_bytes_be answer) a dh_prime) ≡ some key
  open_dh-derive_dh_aes_key bytes a private key answer sent h = grind (
    arith,
    open_dh-IsPublic bytes private (open_dh-ok bytes private _ h),
    modpow_comm bytes a private sent,
    derive_dh_aes_key-modpow (c.from_bytes_be bytes) private,
  )

  pub open_dh-IsKey :
      (bytes : Bytes) (private : ℕ) (key : SessionKey) (answer : Bytes)
      → open_dh c bytes private ≡ some (ok (key, answer))
      → IsKey key
  open_dh-IsKey bytes private key answer h = subst IsKey (sym same) (length-derive_aes_key _)
    where
      same : key ≡ dh (session_key (c.modpow (c.from_bytes_be bytes) private dh_prime))
      same =
          ground
            (arith, open_dh-IsPublic bytes private (open_dh-ok bytes private (key, answer) h), h)
