-- ===== src/Provider/Sessions/Secrets.antt =====
-- Secrets through a session of crates/provider/src/service.rs: out and back in, and by whom.
use wincred_libsecret_wsl_pl.Prelude.{
  [], text_eq_refl, ◌≡◌, ◌≤◌, refl, ap, ◌∙◌, some, true, false, inl, inr, arith, Option-cases,
  Bool-cases, text_eq, text_eq_iff, length, Text, ok, err, Option,
}
use wincred_libsecret_wsl_pl.Protocol.Frame.{Bytes}
use wincred_libsecret_wsl_pl.Protocol.Model.{
  Uuid, SecretBytes, new_secret, expose, max_secret_bytes,
}
use wincred_libsecret_wsl_pl.Protocol.Target.{Crates}
use wincred_libsecret_wsl_pl.Provider.Errors.{invalid_session}
use wincred_libsecret_wsl_pl.Provider.Paths.{session_path, session_id}
use wincred_libsecret_wsl_pl.Provider.Paths.RoundTrip.{IsSimple, paths-roundtrip}
use wincred_libsecret_wsl_pl.Provider.Crypto.{
  SessionKey, checked_iv, CryptoLib, IsSound, encrypt, decrypt,
}
use wincred_libsecret_wsl_pl.Provider.Crypto.Cipher.{IsKey, decrypt-encrypt}
use wincred_libsecret_wsl_pl.Provider.Sessions.{
  session_parameters, SessionRecord, Sessions, DbusSecret, own_session, close_session,
  encode_secret, decode_secret,
}
use wincred_libsecret_wsl_pl.Prelude.Order.{nat_ord}
use wincred_libsecret_wsl_pl.Prelude.OrdMap.{get}

-- `SecretBytes` holds no more than its constructor admits.
abbrev pub FitsSecret : SecretBytes → Type 0
FitsSecret secret = length (expose secret) ≤ max_secret_bytes

own_session-foreign :
    (sessions : Sessions) (id : Uuid) (caller : Text)
    → ((r : SessionRecord) → get id sessions ≡ some r → ¬ (r.owner ≡ caller))
    → own_session caller id sessions ≡ err invalid_session
unfolding own_session
own_session-foreign sessions id caller foreign = elim (Option-cases (get id sessions)) [
  | inl e ↦ ground (arith, e)
  | inr (r, e) ↦ ground (arith, e, foreign r e, text_eq_iff r.owner caller)
]

-- A session that is missing, or that another caller opened, is refused as invalid by
-- `close_session`, which changes nothing, by `encode_secret`, and by `decode_secret` where the
-- secret's path names it.
pub session-foreign :
    (u : Crates) (c : CryptoLib) (sessions : Sessions) (id : Uuid) (caller : Text)
    → ((r : SessionRecord) → get id sessions ≡ some r → ¬ (r.owner ≡ caller))
    → (close_session id caller sessions ≡ (err invalid_session, sessions))
      × ((secret : SecretBytes) (content_type : Text) (random : Option Bytes)
          → encode_secret u c caller id secret content_type random sessions ≡ err invalid_session)
      × ((secret : DbusSecret)
          → session_id u secret.session ≡ some id
          → decode_secret u c caller secret sessions ≡ err invalid_session)
unfolding close_session encode_secret decode_secret
session-foreign u c sessions id caller foreign = (
  rw (close_session, own_session-foreign sessions id caller foreign) refl,
  λ secret content_type random.
      rw (encode_secret, own_session-foreign sessions id caller foreign) refl,
  λ secret e. rw (decode_secret, e, own_session-foreign sessions id caller foreign) refl,
)

own_session-own :
    (sessions : Sessions) (id : Uuid) (owner : Text) (r : SessionRecord)
    → get id sessions ≡ some r
    → text_eq r.owner owner ≡ true
    → own_session owner id sessions ≡ ok r
unfolding own_session
own_session-own sessions id owner r e t = ground (arith, e, t)

own_session-other :
    (sessions : Sessions) (id : Uuid) (owner : Text) (r : SessionRecord)
    → get id sessions ≡ some r
    → text_eq r.owner owner ≡ false
    → own_session owner id sessions ≡ err invalid_session
unfolding own_session
own_session-other sessions id owner r e t = ground (arith, e, t)

new_secret-expose :
    (secret : SecretBytes) → FitsSecret secret → new_secret (expose secret) ≡ ok secret
unfolding new_secret
new_secret-expose secret fits = ground arith

module _ (u : Crates) (c : CryptoLib) (sound : IsSound c) where
  -- A successful encoding, part by part.
  encode_secret-ok :
      (sessions : Sessions) (id : Uuid) (owner : Text) (r : SessionRecord) (secret : SecretBytes)
      (content_type : Text) (random : Option Bytes) (sent : DbusSecret)
      → get id sessions ≡ some r
      → encode_secret u c owner id secret content_type random sessions ≡ ok sent
      → (own_session owner id sessions ≡ ok r)
        × (encrypt c r.key sent.parameters (expose secret) ≡ ok sent.value)
        × (sent.session ≡ session_path u id)
        × (sent.content_type ≡ content_type)
  unfolding encode_secret
  encode_secret-ok sessions id owner r secret content_type random sent found h =
      elim (Bool-cases (text_eq r.owner owner)) [
        | inl own ↦ ground (arith, own_session-own sessions id owner r found own)
        | inr other ↦ ground (arith, own_session-other sessions id owner r found other)
      ]

  -- A successful encoding is decoded.
  encode_secret_decodes :
      (sessions : Sessions) (id : Uuid) (owner : Text) (r : SessionRecord) (secret : SecretBytes)
      (content_type : Text) (random : Option Bytes) (sent : DbusSecret)
      → IsSimple u id
      → get id sessions ≡ some r
      → IsKey r.key
      → FitsSecret secret
      → encode_secret u c owner id secret content_type random sessions ≡ ok sent
      → decode_secret u c owner sent sessions ≡ ok (id, secret, content_type)
  unfolding encode_secret decode_secret
  encode_secret_decodes sessions id owner r secret content_type random sent simple found sized fits
        h =
      rw (decode_secret, path_read, parts.0, opened)
        (ground (arith, fits, new_secret-expose secret fits, parts.3))
    where
      parts :
          (own_session owner id sessions ≡ ok r)
          × (encrypt c r.key sent.parameters (expose secret) ≡ ok sent.value)
          × (sent.session ≡ session_path u id)
          × (sent.content_type ≡ content_type)
      parts = encode_secret-ok sessions id owner r secret content_type random sent found h

      path_read : session_id u sent.session ≡ some id
      path_read = ap (session_id u) parts.2 ∙ (paths-roundtrip u id simple).2

      opened : decrypt c r.key sent.parameters sent.value ≡ ok (expose secret)
      opened =
          decrypt-encrypt c sound r.key sent.parameters (expose secret) sent.value sized parts.1

  encrypt-session_parameters :
      (key : SessionKey) (iv value : Bytes)
      → length iv ≡ 16
      → (parameters : Bytes) × (encrypted : Bytes) × (session_parameters u c key (some iv)
          ≡ ok parameters)
        × (encrypt c key parameters value ≡ ok encrypted)
  unfolding session_parameters encrypt checked_iv
  encrypt-session_parameters SessionKey.plain iv value h = ([], value, refl, refl)
  encrypt-session_parameters (SessionKey.dh key) iv value h =
      (iv, c.cbc_encrypt key iv value, refl, ground (arith, h))

  encode_secret_total :
      (sessions : Sessions) (id : Uuid) (r : SessionRecord) (secret : SecretBytes)
      (content_type : Text) (iv : Bytes)
      → get id sessions ≡ some r
      → length iv ≡ 16
      → (sent : DbusSecret) × (encode_secret u c r.owner id secret content_type (some iv) sessions
          ≡ ok sent)
  unfolding encode_secret
  encode_secret_total sessions id r secret content_type iv found sized =
      let (parameters, encrypted, drawn, made) =
        encrypt-session_parameters r.key iv (expose secret) sized in
      (
        record {
          session = session_path u id;
          parameters = parameters;
          value = encrypted;
          content_type = content_type;
        },
        ground (
          arith,
          own_session-own sessions id r.owner r found (text_eq_refl r.owner),
          drawn,
          made,
        ),
      )

  -- With sound cryptography, where the session's path can be read back, its key has its cipher's
  -- size, the secret is within the limit and 16 random bytes are drawn, `encode_secret` succeeds
  -- for the session's owner, and `decode_secret` decodes the result as the session, that secret
  -- and its content type.
  pub decode_secret-encode_secret :
      (sessions : Sessions) (id : Uuid) (r : SessionRecord) (secret : SecretBytes)
      (content_type : Text) (iv : Bytes)
      → IsSimple u id
      → get id sessions ≡ some r
      → IsKey r.key
      → FitsSecret secret
      → length iv ≡ 16
      → (sent : DbusSecret) × (encode_secret u c r.owner id secret content_type (some iv) sessions
          ≡ ok sent)
        × (decode_secret u c r.owner sent sessions ≡ ok (id, secret, content_type))
  decode_secret-encode_secret sessions id r secret content_type iv simple found sized fits drawn =
      let (sent, h) = encode_secret_total sessions id r secret content_type iv found drawn in
      (
        sent,
        h,
        encode_secret_decodes sessions id r.owner r secret content_type (some iv) sent simple found
            sized fits h,
      )
