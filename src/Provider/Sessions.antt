-- ===== src/Provider/Sessions.antt =====
-- The sessions of `Provider` in crates/provider/src/service.rs. The table is a map whose order nothing
-- depends on, and each method holds its lock throughout. Random values are arguments.
pub mod Table
pub mod History
pub mod Secrets
use wincred_libsecret_wsl_pl.Prelude.{
  ℕ, Bool, true, false, not, Option, none, some, List, [], ◌∷◌, ◌++◌, map, Text, codes, length, ltb,
  ◌==◌, text_eq, keep, if◌then◌else◌, Result, ok, err,
}
use wincred_libsecret_wsl_pl.Prelude.Results.{◌>>=◌, map_err}
use wincred_libsecret_wsl_pl.Prelude.Order.{nat_ord}
use wincred_libsecret_wsl_pl.Prelude.OrdMap.{OrdMap, get, insert, remove}
use wincred_libsecret_wsl_pl.Protocol.Frame.{Bytes}
use wincred_libsecret_wsl_pl.Protocol.Model.{
  Uuid, SecretBytes, new_secret, expose, max_secret_bytes,
}
use wincred_libsecret_wsl_pl.Protocol.Target.{Crates}
use wincred_libsecret_wsl_pl.Provider.Errors.{
  ProviderError, invalid_request, invalid_session, secret_too_large, indeterminate, of_protocol,
}
use wincred_libsecret_wsl_pl.Provider.Paths.{session_path, session_id}
use wincred_libsecret_wsl_pl.Provider.Crypto.{
  CryptoLib, SessionKey, plain, dh, open_dh, encrypt, decrypt,
}

pub record SessionRecord : Type 0 where
  pub owner : Text
  pub key : SessionKey

abbrev pub Sessions : Type 0
Sessions = OrdMap Uuid SessionRecord

-- A D-Bus value, as far as the provider tells them apart.
pub data OwnedValue : Type 0 where
  text : Text → OwnedValue
  byte_array : Bytes → OwnedValue
  text_map : List (Text × Text) → OwnedValue
  other : OwnedValue

-- `DbusSecret`: the session's path, the parameters, the value and its content type.
pub record DbusSecret : Type 0 where
  pub session : Text
  pub parameters : Bytes
  pub value : Bytes
  pub content_type : Text

-- The ids of an owner's sessions, and the table without them.
unfoldable pub remove_owner : Text → Sessions → List Uuid × Sessions
remove_owner owner sessions = (
  map (λ entry. entry.0) (keep (λ entry. text_eq entry.1.owner owner) sessions),
  keep (λ entry. not (text_eq entry.1.owner owner)) sessions,
)

unfoldable pub insert_session : Uuid → Text → SessionKey → Sessions → Sessions
insert_session id owner key sessions = insert id (record { owner = owner; key = key }) sessions

-- The lookup that all uses of a session begin with.
unfoldable pub own_session : Text → Uuid → Sessions → Result ProviderError SessionRecord
own_session owner id sessions = elim (get id sessions) [
  | none ↦ err invalid_session
  | some session ↦ if not (text_eq session.owner owner) then err invalid_session else ok session
]

unfoldable pub close_session : Uuid → Text → Sessions → Result ProviderError (Unit {0}) × Sessions
close_session id owner sessions = elim (own_session owner id sessions) [
  | err e ↦ (err e, sessions)
  | ok _ ↦ (ok tt, remove id sessions)
]

abbrev pub plain_algorithm : Text
plain_algorithm = codes "plain"

abbrev pub dh_algorithm : Text
dh_algorithm = codes "dh-ietf1024-sha256-aes128-cbc-pkcs7"

-- `String::try_from` and `Vec::<u8>::try_from`.
abbrev pub try_text : OwnedValue → Text → Result ProviderError Text
try_text (text t) message = ok t
try_text _ message = err (invalid_request message)

abbrev pub try_byte_array : OwnedValue → Text → Result ProviderError Bytes
try_byte_array (byte_array b) message = ok b
try_byte_array _ message = err (invalid_request message)

module _ (c : CryptoLib) where
  unfoldable pub open_plain : OwnedValue → Result ProviderError (OwnedValue × SessionKey)
  open_plain input = do
    value ← try_text input (codes "plain session input must be a string")
    if not (length value == 0)
        then err (invalid_request (codes "plain session input must be empty"))
        else ok (text [], plain)

  -- `none` is the panic of `open_dh`.
  unfoldable pub open_dh_session :
      OwnedValue → ℕ → Option (Result ProviderError (OwnedValue × SessionKey))
  unfolding open_dh
  open_dh_session input private =
      elim (try_byte_array input (codes "DH session input must be a byte array")) [
        | err e ↦ some (err e)
        | ok public ↦ elim (open_dh c public private) [
          | none ↦ none
          | some (err e) ↦ some (err e)
          | some (ok (key, answer)) ↦ some (ok (byte_array answer, key))
        ]
      ]

  -- The new session's id is drawn by the caller, as the exponent is.
  unfoldable pub open_session :
      Text → OwnedValue → ℕ → Uuid → Option (Result ProviderError (OwnedValue × Uuid × SessionKey))
  unfolding open_plain open_dh_session
  open_session algorithm input private id =
      let opened =
        if text_eq algorithm plain_algorithm
        then some (open_plain input)
        else if text_eq algorithm dh_algorithm
        then open_dh_session input private
        else some (err (invalid_request (codes "unsupported session algorithm: " ++ algorithm))) in
      elim opened [
        | none ↦ none
        | some (err e) ↦ some (err e)
        | some (ok (output, key)) ↦ some (ok (output, id, key))
      ]

module _ (u : Crates) (c : CryptoLib) where
  unfoldable pub decode_secret :
      Text → DbusSecret → Sessions → Result ProviderError (Uuid × SecretBytes × Text)
  decode_secret owner secret sessions = elim (session_id u secret.session) [
    | none ↦ err (invalid_request (codes "secret contains an invalid session path"))
    | some session ↦ do
      found ← own_session owner session sessions
      clear ← decrypt c found.key secret.parameters secret.value
      if ltb max_secret_bytes (length clear) then err secret_too_large else do
        bytes ← map_err of_protocol (new_secret clear)
        ok (session, bytes, secret.content_type)
  ]

  -- The parameters of a session: none, or the 16 bytes that the random source gave.
  unfoldable pub session_parameters : SessionKey → Option Bytes → Result ProviderError Bytes
  session_parameters plain random = ok []
  session_parameters (dh key) none = err indeterminate
  session_parameters (dh key) (some random) = ok random

  unfoldable pub encode_secret :
      Text → Uuid → SecretBytes → Text → Option Bytes → Sessions → Result ProviderError DbusSecret
  encode_secret owner session secret content_type random sessions = do
    found ← own_session owner session sessions
    parameters ← session_parameters found.key random
    value ← encrypt c found.key parameters (expose secret)
    ok (record {
      session = session_path u session;
      parameters = parameters;
      value = value;
      content_type = content_type;
    })
