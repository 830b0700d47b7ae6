-- ===== src/Provider/Bus/Foreign.antt =====
-- Calls of the objects of crates/provider/src/service.rs through a session that is not the caller's.
use wincred_libsecret_wsl_pl.Prelude.{
  codes, ◌≡◌, arith, ℕ, Bool, true, false, inl, inr, Option-cases, Option, some, Text, err,
}
use wincred_libsecret_wsl_pl.Prelude.Results.{Result-cases, is_ok}
use wincred_libsecret_wsl_pl.Prelude.Exec.{lift, ◌>>=◌}
use wincred_libsecret_wsl_pl.Prelude.Order.{nat_ord}
use wincred_libsecret_wsl_pl.Prelude.OrdMap.{get}
use wincred_libsecret_wsl_pl.Protocol.Frame.{Bytes}
use wincred_libsecret_wsl_pl.Protocol.Model.{Uuid}
use wincred_libsecret_wsl_pl.Protocol.Target.{Crates}
use wincred_libsecret_wsl_pl.Provider.Errors.{SecretServiceError, of_provider}
use wincred_libsecret_wsl_pl.Provider.Crypto.{CryptoLib}
use wincred_libsecret_wsl_pl.Provider.Paths.{session_id}
use wincred_libsecret_wsl_pl.Provider.Service.{BrokerClient, item}
use wincred_libsecret_wsl_pl.Provider.Sessions.{Sessions, SessionRecord, DbusSecret}
use wincred_libsecret_wsl_pl.Provider.Sessions.Secrets.{session-foreign}
use wincred_libsecret_wsl_pl.Provider.Bus.{
  of_provider, Bus, World, Properties, ask_provider, of_sessions, owner, outside, item_properties,
}
use wincred_libsecret_wsl_pl.Provider.Bus.Item.{get_secret, set_secret}
use wincred_libsecret_wsl_pl.Provider.Bus.Collection.{create_item}

-- The caller has not opened the session.
abbrev pub IsForeign : Sessions → Uuid → Text → Type 0
IsForeign sessions k caller = (r : SessionRecord) → get k sessions ≡ some r → ¬ (r.owner ≡ caller)

module _ (u : Crates) (c : CryptoLib) {W : Type 0} (call : BrokerClient W) (bus : Bus W)
    (id : Uuid) where
  get_secret-foreign :
      (s : World W) (path caller : Text) (k : Uuid) (random : Option Bytes)
      → session_id u path ≡ some k
      → IsForeign s.sessions k caller
      → is_ok (get_secret u c call bus id path (some caller) random s).0 ≡ false
  unfolding get_secret owner lift of_sessions ask_provider outside ◌>>=◌
  get_secret-foreign s path caller k random p foreign =
      let refused = (session-foreign u c s.sessions k caller foreign).1 in
      elim (Result-cases (item call id true s.outside).0) [
        | inr (e, f) ↦ ground (arith, p, f)
        | inl (found, f) ↦ elim (Option-cases found.1) [
          | inl n ↦ ground (arith, p, f, n)
          | inr (secret, n) ↦ ground (arith, p, f, n, refused secret found.0.content_type random)
        ]
      ]

  set_secret-foreign :
      (s : World W) (called caller : Text) (sent : DbusSecret) (timestamp : ℕ) (generation k : Uuid)
      → session_id u sent.session ≡ some k
      → IsForeign s.sessions k caller
      → set_secret u c call bus id called sent (some caller) timestamp generation s
        ≡ (err (SecretServiceError.no_such_session (codes "unknown or expired session")), s)
  unfolding set_secret owner lift of_sessions of_provider ◌>>=◌
  set_secret-foreign s called caller sent timestamp generation k p foreign =
      ground (arith, (session-foreign u c s.sessions k caller foreign).2 sent p)

  create_item-foreign :
      (s : World W) (called caller : Text) (properties : Properties) (sent : DbusSecret)
      (replace : Bool) (timestamp : ℕ) (new generation k : Uuid)
      → session_id u sent.session ≡ some k
      → IsForeign s.sessions k caller
      → (is_ok
            (create_item u c call bus id called properties sent replace
              (some caller)
              timestamp
              new
              generation
              s).0
          ≡ false)
        × ((create_item u c call bus id called properties sent replace
              (some caller)
              timestamp
              new
              generation
              s).1
            ≡ s)
  unfolding create_item owner lift of_sessions ◌>>=◌
  create_item-foreign s called caller properties sent replace timestamp new generation k p foreign =
      let refused = (session-foreign u c s.sessions k caller foreign).2 sent p in
      elim (Result-cases (item_properties properties)) [
        | inr (e, f) ↦ ground (arith, f)
        | inl (given, f) ↦ ground (arith, f, refused)
      ]

  -- Through a session that is missing or that another caller opened, `get_secret` fails,
  -- `set_secret` fails as for an unknown session and changes nothing, and `create_item` fails and
  -- changes nothing.
  pub session_methods-foreign :
      (s : World W) (called caller path : Text) (properties : Properties) (sent : DbusSecret)
      (replace : Bool) (timestamp : ℕ) (new generation k : Uuid) (random : Option Bytes)
      → session_id u path ≡ some k
      → session_id u sent.session ≡ some k
      → IsForeign s.sessions k caller
      → (is_ok (get_secret u c call bus id path (some caller) random s).0 ≡ false)
        × (set_secret u c call bus id called sent (some caller) timestamp generation s
            ≡ (err (SecretServiceError.no_such_session (codes "unknown or expired session")), s))
        × (is_ok
              (create_item u c call bus id called properties sent replace
                (some caller)
                timestamp
                new
                generation
                s).0
            ≡ false)
        × ((create_item u c call bus id called properties sent replace
              (some caller)
              timestamp
              new
              generation
              s).1
            ≡ s)
  session_methods-foreign s called caller path properties sent replace timestamp new generation k
        random p q foreign =
      let (failed, same) =
        create_item-foreign s called caller properties sent replace timestamp new generation k q
          foreign in
      (
        get_secret-foreign s path caller k random p foreign,
        set_secret-foreign s called caller sent timestamp generation k q foreign,
        failed,
        same,
      )
