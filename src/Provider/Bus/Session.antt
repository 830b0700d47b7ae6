-- ===== src/Provider/Bus/Session.antt =====
-- The start of `Provider`, `SessionObject`, `PromptObject` and the departure of a client, of
-- crates/provider/src/service.rs.
use wincred_libsecret_wsl_pl.Prelude.{true, Option, List, [], ◌∷◌, Text, codes, ok, err}
use wincred_libsecret_wsl_pl.Prelude.Results.{map_err}
use wincred_libsecret_wsl_pl.Prelude.Exec.{Exec, pure, lift, match_option, ◌>>=◌, ◌>>◌}
use wincred_libsecret_wsl_pl.Protocol.Model.{Uuid, CollectionMetadata, ItemMetadata, AliasMetadata}
use wincred_libsecret_wsl_pl.Protocol.Target.{Crates}
use wincred_libsecret_wsl_pl.Provider.Errors.{ProviderError, transport, of_provider}
use wincred_libsecret_wsl_pl.Provider.Paths.{collection_path, item_path, session_path, alias_path}
use wincred_libsecret_wsl_pl.Provider.Sessions
use wincred_libsecret_wsl_pl.Provider.Sessions.{
  OwnedValue, DbusSecret, encode_secret, decode_secret, remove_owner,
}
use wincred_libsecret_wsl_pl.Provider.Service as Vault
use wincred_libsecret_wsl_pl.Provider.Service.{BrokerClient}
use wincred_libsecret_wsl_pl.Provider.Service.Aliases.{aliases}
use wincred_libsecret_wsl_pl.Provider.Bus.{
  Object, Interface, Signal, Bus, Method, or_failed, ignore, owner,
}

module _ (u : Crates) {W : Type 0} (call : BrokerClient W) (bus : Bus W) where
  -- `.await.map_err(|_| ProviderError::Transport)?`
  unfoldable pub register : Text → Object → Exec W ProviderError (Unit {0})
  register path object w =
      let (r, w') = bus.at path object w in (elim r [ ok _ ↦ ok tt | err _ ↦ err transport ], w')

  unfoldable pub register_items : List ItemMetadata → Exec W ProviderError (Unit {0})
  register_items [] = pure tt
  register_items (i ∷ items) = do
    register (item_path u i.id) (Object.item_object i.id)
    register_items items

  unfoldable pub register_collections : List CollectionMetadata → Exec W ProviderError (Unit {0})
  register_collections [] = pure tt
  register_collections (i ∷ collections) = do
    register (collection_path u i.id) (Object.collection_object i.id)
    items ← Vault.items call i.id
    register_items items
    register_collections collections

  unfoldable pub register_aliases : List AliasMetadata → Exec W ProviderError (Unit {0})
  register_aliases [] = pure tt
  register_aliases (a ∷ rest) =
      let others = register_aliases rest in
      match_option (alias_path a.name) others
        λ path. do register path (Object.collection_object a.collection_id); others

  abbrev pub compat_prompt_path : Text
  compat_prompt_path = codes "/org/freedesktop/secrets/prompt/compatibility"

  unfoldable pub initialize : Exec W ProviderError (Unit {0})
  initialize = do
    collections ← Vault.collections call
    register_collections collections
    found ← aliases call
    register_aliases found
    register compat_prompt_path Object.prompt_object

  unfoldable pub remove_sessions : List Uuid → Method W (Unit {0})
  remove_sessions [] = pure tt
  remove_sessions (id ∷ ids) = do
    ignore (bus.remove Interface.session_interface (session_path u id))
    remove_sessions ids

  unfoldable pub remove_owner_sessions : Text → Method W (Unit {0})
  unfolding remove_owner
  remove_owner_sessions who s =
      let (removed, sessions) = remove_owner who s.sessions in
      remove_sessions removed (record s { sessions = sessions })

  unfoldable pub close_entry : Uuid → Text → Method W (Unit {0})
  close_entry id who s =
      let (r, sessions) = Sessions.close_session id who s.sessions in
      (map_err of_provider r, record s { sessions = sessions })

  unfoldable pub close : Uuid → Option Text → Method W (Unit {0})
  close id sender = do
    who ← lift (owner sender)
    close_entry id who
    or_failed (codes "unable to unregister session")
        (bus.remove Interface.session_interface (session_path u id))
    pure tt

  -- `prompt` and `dismiss` both complete at once.
  unfoldable pub prompt : Text → Method W (Unit {0})
  prompt called =
      or_failed (codes "unable to emit prompt signal")
        (bus.emit called (Signal.completed true (OwnedValue.text [])))
