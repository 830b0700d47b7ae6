-- ===== src/Provider/Bus/Item.antt =====
-- `ItemObject` of crates/provider/src/service.rs: the object of one item.
pub mod Secret
use wincred_libsecret_wsl_pl.Prelude.{ℕ, Bool, true, false, Option, none, some, List, Text, codes}
use wincred_libsecret_wsl_pl.Prelude.Exec.{Exec, pure, raise, lift, match_option, ◌>>=◌, ◌>>◌}
use wincred_libsecret_wsl_pl.Protocol.Frame.{Bytes}
use wincred_libsecret_wsl_pl.Protocol.Model.{Uuid, Attributes, ItemMetadata}
use wincred_libsecret_wsl_pl.Protocol.Target.{Crates}
use wincred_libsecret_wsl_pl.Provider.Errors.{SecretServiceError}
use wincred_libsecret_wsl_pl.Provider.Paths.{collection_path, item_path, session_id}
use wincred_libsecret_wsl_pl.Provider.Crypto.{CryptoLib}
use wincred_libsecret_wsl_pl.Provider.Sessions.{DbusSecret, encode_secret, decode_secret}
use wincred_libsecret_wsl_pl.Provider.Service as Vault
use wincred_libsecret_wsl_pl.Provider.Service.{BrokerClient}
use wincred_libsecret_wsl_pl.Provider.Bus.{
  no_signal, Interface, Signal, Bus, Method, Property, of_zbus, failed, outside, ask_provider,
  or_failed, property, owner, collect_attributes, of_sessions, root_path,
}

module _ (u : Crates) (c : CryptoLib) {W : Type 0} (call : BrokerClient W) (bus : Bus W)
    (id : Uuid) where
  unfoldable pub delete : Method W Text
  delete = do
    found ← ask_provider (Vault.item call id false)
    ask_provider (Vault.delete_item call id)
    or_failed (codes "unable to unregister item")
        (bus.remove Interface.item_interface (item_path u id))
    or_failed no_signal
        (bus.emit (collection_path u found.0.collection_id) (Signal.item_deleted (item_path u id)))
    pure root_path

  unfoldable pub get_secret : Text → Option Text → Option Bytes → Method W DbusSecret
  get_secret session sender random = do
    who ← lift (owner sender)
    match_option (session_id u session)
        (raise (SecretServiceError.no_such_session (codes "invalid session path")))
        λ at_session. do
          found ← ask_provider (Vault.item call id true)
          match_option found.1 (raise (failed (codes "broker omitted secret"))) λ secret.
              of_sessions (encode_secret u c who at_session secret found.0.content_type random)

  -- `emit_item_changed`
  abbrev pub item_changed : Uuid → Exec W Text (Unit {0})
  item_changed collection =
      bus.emit (collection_path u collection) (Signal.item_changed (item_path u id))

  unfoldable pub set_secret : Text → DbusSecret → Option Text → ℕ → Uuid → Method W (Unit {0})
  set_secret called secret sender timestamp generation = do
    who ← lift (owner sender)
    decoded ← of_sessions (decode_secret u c who secret)
    found ← ask_provider (Vault.item call id false)
    ask_provider (
        Vault.update_item call (record (found.0) { content_type = decoded.2 }) (some decoded.1)
          timestamp generation)
    or_failed no_signal (item_changed found.0.collection_id)
    or_failed (codes "unable to emit secret signal") (bus.emit called Signal.secret_changed)

  unfoldable pub metadata : Method W ItemMetadata
  metadata = do found ← ask_provider (Vault.item call id false); pure found.0

  unfoldable pub label : Method W Text
  label = do i ← metadata; pure i.label

  -- A change of the metadata alone, and its signal.
  unfoldable pub change : (ItemMetadata → ItemMetadata) → ℕ → Uuid → Property W (Unit {0})
  change edit timestamp generation = do
    i ← property metadata
    property (ask_provider (Vault.update_item call (edit i) none timestamp generation))
    outside of_zbus (item_changed i.collection_id)

  unfoldable pub set_label : Text → ℕ → Uuid → Property W (Unit {0})
  set_label new timestamp generation = change (λ i. record i { label = new }) timestamp generation

  unfoldable pub attributes : Method W Attributes
  attributes = do i ← metadata; pure i.attributes

  unfoldable pub set_attributes : List (Text × Text) → ℕ → Uuid → Property W (Unit {0})
  set_attributes new timestamp generation =
      change (λ i. record i { attributes = collect_attributes new }) timestamp generation

  unfoldable pub locked : Bool
  locked = false

  unfoldable pub created : Method W ℕ
  created = do i ← metadata; pure i.created

  unfoldable pub modified : Method W ℕ
  modified = do i ← metadata; pure i.modified
