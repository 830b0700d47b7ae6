-- ===== src/Provider/Bus/Service.antt =====
-- `SecretService` of crates/provider/src/service.rs: the object of the service, and the start.
pub mod Rollback
use wincred_libsecret_wsl_pl.Prelude.{
  true, ℕ, Option, none, some, List, [], ◌∷◌, ◌++◌, map, Text, codes, length, text_eq, ◌==◌,
  if◌then◌else◌, Result, ok, err, suc,
}
use wincred_libsecret_wsl_pl.Prelude.Results.{map_err}
use wincred_libsecret_wsl_pl.Prelude.Exec.{
  pure, raise, lift, match_option, match_result, ◌>>=◌, ◌>>◌,
}
use wincred_libsecret_wsl_pl.Prelude.Order.{text_ord}
use wincred_libsecret_wsl_pl.Prelude.OrdMap.{OrdMap, insert}
use wincred_libsecret_wsl_pl.Protocol.Frame.{Bytes}
use wincred_libsecret_wsl_pl.Protocol.Model.{
  Uuid, SecretBytes, CollectionMetadata, ItemMetadata, AliasMetadata,
}
use wincred_libsecret_wsl_pl.Protocol.Target.{Crates}
use wincred_libsecret_wsl_pl.Provider.Errors.{SecretServiceError, of_provider}
use wincred_libsecret_wsl_pl.Provider.Paths.{
  service_path, collection_path, item_path, session_path, alias_path, collection_id, item_id,
  session_id,
}
use wincred_libsecret_wsl_pl.Provider.Crypto.{CryptoLib, SessionKey}
use wincred_libsecret_wsl_pl.Provider.Sessions
use wincred_libsecret_wsl_pl.Provider.Sessions.{
  OwnedValue, DbusSecret, insert_session, encode_secret, remove_owner,
}
use wincred_libsecret_wsl_pl.Provider.Service as Vault
use wincred_libsecret_wsl_pl.Provider.Service.{BrokerClient}
use wincred_libsecret_wsl_pl.Provider.Service.Aliases.{aliases}
use wincred_libsecret_wsl_pl.Provider.Bus.{
  Object, Interface, Signal, Bus, World, Method, Properties, failed, ask_provider, or_failed,
  try_outside, ignore, owner, collection_label, collect_attributes, of_sessions, root_path,
}

module _ (u : Crates) (c : CryptoLib) {W : Type 0} (call : BrokerClient W) (bus : Bus W) where
  unfoldable pub add_session : Uuid → Text → SessionKey → Method W (Unit {0})
  unfolding insert_session
  add_session id who key s = (ok tt, record s { sessions = insert_session id who key s.sessions })

  unfoldable pub register_session :
      OwnedValue → Uuid → Text → SessionKey → Method W (OwnedValue × Text)
  register_session output id who key = do
    or_failed (codes "unable to register session")
        (bus.at (session_path u id) (Object.session_object id))
    add_session id who key
    pure (output, session_path u id)

  -- `none` is the panic of `open_dh`. The exponent and the id are drawn by the caller.
  unfoldable pub open_session :
      Text
      → OwnedValue
      → Option Text
      → ℕ
      → Uuid
      → World W
      → Option (Result SecretServiceError (OwnedValue × Text) × World W)
  open_session algorithm input sender private id s = elim (owner sender) [
    | err e ↦ some (err e, s)
    | ok who ↦ elim (Sessions.open_session c algorithm input private id) [
      | none ↦ none
      | some (err e) ↦ some (err (of_provider e), s)
      | some (ok (output, made, key)) ↦ some (register_session output made who key s)
    ]
  ]

  -- The object of the collection at the alias's path; a failure takes everything back.
  unfoldable pub register_alias : Text → Uuid → Method W (Unit {0})
  register_alias alias id = match_option (alias_path alias) (pure tt) λ at_alias. do
    ignore (bus.remove Interface.collection_interface at_alias)
    registered ← try_outside (bus.at at_alias (Object.collection_object id))
    match_result registered
        (λ error. do
          ignore (Vault.set_alias call alias none)
          ignore (bus.remove Interface.collection_interface (collection_path u id))
          ignore (Vault.delete_collection call id)
          raise (failed (codes "unable to register collection alias: " ++ error)))
        λ _. pure tt

  unfoldable pub name_collection : Text → Uuid → Method W (Unit {0})
  name_collection alias id = if length alias == 0 then pure tt else do
    named ← try_outside (Vault.set_alias call alias (some id))
    match_result named
        (λ error. do
          ignore (bus.remove Interface.collection_interface (collection_path u id))
          ignore (Vault.delete_collection call id)
          raise (of_provider error))
        λ _. do
          register_alias alias id
          or_failed (codes "unable to emit alias update")
              (bus.emit service_path Signal.aliases_changed)

  unfoldable pub create_collection : Properties → Text → ℕ → Uuid → Method W (Text × Text)
  create_collection properties alias timestamp id = do
    label ← lift (map_err of_provider (collection_label properties))
    made ← ask_provider (Vault.create_collection call label timestamp id)
    registered ← try_outside (bus.at (collection_path u made.id) (Object.collection_object made.id))
    match_result registered
        (λ error. do
          ignore (Vault.delete_collection call made.id)
          raise (failed (codes "unable to register collection: " ++ error)))
        λ _. do
          name_collection alias made.id
          or_failed (codes "unable to emit collection signal")
              (bus.emit service_path (Signal.collection_created (collection_path u made.id)))
          pure (collection_path u made.id, root_path)

  unfoldable pub search_items : List (Text × Text) → Method W (List Text × List Text)
  search_items attributes = do
    items ← ask_provider (Vault.search call (collect_attributes attributes))
    pure (map (λ (i : ItemMetadata). item_path u i.id) items, [])

  -- There is nothing to lock or unlock.
  unfoldable pub unlock : List Text → Method W (List Text × Text)
  unlock objects = pure (objects, root_path)

  unfoldable pub lock : List Text → Method W (List Text × Text)
  lock objects = pure (objects, root_path)

  -- The first loop of `get_secrets`: all secrets are read before any is encoded.
  unfoldable pub read_secrets : List Text → Method W (List (ItemMetadata × SecretBytes))
  read_secrets [] = pure []
  read_secrets (path ∷ paths) =
      let rest = read_secrets paths in
      match_option (item_id u path)
        (raise (SecretServiceError.no_such_object (codes "invalid item path")))
        λ id. do
          found ← ask_provider (Vault.item call id true)
          match_option found.1 (raise (failed (codes "broker omitted secret")))
              λ secret. do others ← rest; pure ((found.0, secret) ∷ others)

  -- The second loop, with the random parameters of each secret in turn.
  unfoldable pub encode_secrets :
      Text
      → Uuid
      → (ℕ → Option Bytes)
      → List (ItemMetadata × SecretBytes)
      → OrdMap Text DbusSecret
      → Method W (OrdMap Text DbusSecret)
  encode_secrets who session random [] values = pure values
  encode_secrets who session random ((i, secret) ∷ raw) values = do
    encoded ← of_sessions (encode_secret u c who session secret i.content_type (random 0))
    encode_secrets who session (λ n. random (suc n)) raw (insert (item_path u i.id) encoded values)

  unfoldable pub get_secrets :
      List Text → Text → Option Text → (ℕ → Option Bytes) → Method W (OrdMap Text DbusSecret)
  get_secrets items session sender random = do
    who ← lift (owner sender)
    match_option (session_id u session)
        (raise (SecretServiceError.no_such_session (codes "invalid session path")))
        λ id. do raw ← read_secrets items; encode_secrets who id random raw []

  abbrev pub alias_target : Option AliasMetadata → Text
  alias_target none = root_path
  alias_target (some alias) = collection_path u alias.collection_id

  unfoldable pub read_alias : Text → Method W Text
  read_alias name = do
    alias ← ask_provider (Vault.resolve_alias call name)
    pure (alias_target alias)

  -- The collection that a path names: none for the root.
  unfoldable pub named_collection : Text → Result SecretServiceError (Option Uuid)
  named_collection path = if text_eq path root_path then ok none else elim (collection_id u path) [
    | none ↦ err (SecretServiceError.no_such_object (codes "invalid collection path"))
    | some id ↦ ok (some id)
  ]

  unfoldable pub move_alias : Text → Option Uuid → Method W (Unit {0})
  move_alias at_alias none = ignore (bus.remove Interface.collection_interface at_alias)
  move_alias at_alias (some id) = do
    ignore (bus.remove Interface.collection_interface at_alias)
    or_failed (codes "unable to register collection alias")
        (bus.at at_alias (Object.collection_object id))
    pure tt

  unfoldable pub set_alias : Text → Text → Method W (Unit {0})
  set_alias name path = do
    id ← lift (named_collection path)
    ask_provider (Vault.set_alias call name id)
    match_option (alias_path name) (pure tt) λ at_alias. move_alias at_alias id
    or_failed (codes "unable to emit alias update") (bus.emit service_path Signal.aliases_changed)

  -- The properties `collections` and `aliases`.
  unfoldable pub list_collections : Method W (List Text)
  list_collections = do
    found ← ask_provider (Vault.collections call)
    pure (map (λ (i : CollectionMetadata). collection_path u i.id) found)

  unfoldable pub list_aliases : Method W (List (Text × Text))
  list_aliases = do
    found ← ask_provider (aliases call)
    pure (map (λ (a : AliasMetadata). (a.name, collection_path u a.collection_id)) found)
