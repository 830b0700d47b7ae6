-- ===== src/Provider/Bus/Collection.antt =====
-- `CollectionObject` of crates/provider/src/service.rs: the object of one collection.
use wincred_libsecret_wsl_pl.Prelude.{
  ℕ, Bool, false, Option, List, [], ◌∷◌, ◌++◌, map, keep, Text, codes, ◌==◌,
}
use wincred_libsecret_wsl_pl.Prelude.Results.{map_err}
use wincred_libsecret_wsl_pl.Prelude.Exec.{
  pure, raise, lift, match_option, match_result, ◌>>=◌, ◌>>◌,
}
use wincred_libsecret_wsl_pl.Protocol.Model.{
  Uuid, ItemMetadata, AliasMetadata, validate_content_type,
}
use wincred_libsecret_wsl_pl.Protocol.Target.{Crates}
use wincred_libsecret_wsl_pl.Broker.Items.{matches}
use wincred_libsecret_wsl_pl.Provider.Errors.{of_provider, of_protocol}
use wincred_libsecret_wsl_pl.Provider.Paths.{service_path, collection_path, item_path, alias_path}
use wincred_libsecret_wsl_pl.Provider.Crypto.{CryptoLib}
use wincred_libsecret_wsl_pl.Provider.Sessions.{DbusSecret, decode_secret}
use wincred_libsecret_wsl_pl.Provider.Service as Vault
use wincred_libsecret_wsl_pl.Provider.Service.{BrokerClient}
use wincred_libsecret_wsl_pl.Provider.Service.Aliases.{aliases}
use wincred_libsecret_wsl_pl.Provider.Bus.{
  no_signal, Object, Interface, Signal, Bus, Method, Property, of_zbus, Properties, failed, outside,
  ask_provider, or_failed, try_outside, ignore, property, owner, item_properties,
  collect_attributes, of_sessions, root_path,
}

module _ (u : Crates) (c : CryptoLib) {W : Type 0} (call : BrokerClient W) (bus : Bus W)
    (id : Uuid) where
  -- The objects of the items, and those of the aliases that have a path.
  unfoldable pub remove_items : List ItemMetadata → Method W (Unit {0})
  remove_items [] = pure tt
  remove_items (i ∷ items) = do
    ignore (bus.remove Interface.item_interface (item_path u i.id))
    remove_items items

  unfoldable pub remove_aliases : List AliasMetadata → Method W (Unit {0})
  remove_aliases [] = pure tt
  remove_aliases (a ∷ rest) =
      let others = remove_aliases rest in
      match_option (alias_path a.name) others
        λ path. do ignore (bus.remove Interface.collection_interface path); others

  unfoldable pub delete : Method W Text
  delete = do
    items ← ask_provider (Vault.items call id)
    all ← ask_provider (aliases call)
    ask_provider (Vault.delete_collection call id)
    remove_items items
    remove_aliases (keep (λ (a : AliasMetadata). a.collection_id == id) all)
    or_failed (codes "unable to unregister collection")
        (bus.remove Interface.collection_interface (collection_path u id))
    or_failed (codes "unable to emit collection signal")
        (bus.emit service_path (Signal.collection_deleted (collection_path u id)))
    pure root_path

  unfoldable pub search_items : List (Text × Text) → Method W (List Text)
  search_items attributes = do
    items ← ask_provider (Vault.items call id)
    pure (
        map (λ (i : ItemMetadata). item_path u i.id)
          (keep (matches (collect_attributes attributes)) items))

  -- The replaced items, one after the other; a signal that fails ends the method.
  unfoldable pub unregister_replaced : Text → List Uuid → Method W (Unit {0})
  unregister_replaced called [] = pure tt
  unregister_replaced called (replaced ∷ rest) = do
    ignore (bus.remove Interface.item_interface (item_path u replaced))
    or_failed no_signal (bus.emit called (Signal.item_deleted (item_path u replaced)))
    unregister_replaced called rest

  -- `called` is the path at which the object was called, from which its signals come.
  unfoldable pub create_item :
      Text → Properties → DbusSecret → Bool → Option Text → ℕ → Uuid → Uuid → Method W (Text × Text)
  unfolding of_protocol
  create_item called properties secret replace sender timestamp new generation = do
    who ← lift (owner sender)
    given ← lift (map_err of_provider (item_properties properties))
    decoded ← of_sessions (decode_secret u c who secret)
    lift (map_err (λ e. of_provider (of_protocol e)) (validate_content_type decoded.2))
    made ← ask_provider (
        Vault.create_item call id given.0 given.1 decoded.2 decoded.1 replace timestamp new
          generation)
    unregister_replaced called made.1
    registered ← try_outside (bus.at (item_path u made.0.id) (Object.item_object made.0.id))
    match_result registered
        (λ error. do
          ignore (Vault.delete_item call made.0.id)
          raise (failed (codes "unable to register item: " ++ error)))
        λ _. do
          or_failed no_signal (bus.emit called (Signal.item_created (item_path u made.0.id)))
          pure (item_path u made.0.id, root_path)

  unfoldable pub label : Method W Text
  label = do found ← ask_provider (Vault.collection call id); pure found.label

  unfoldable pub set_label : Text → ℕ → Property W (Unit {0})
  set_label new timestamp = do
    property (ask_provider (Vault.update_collection_label call id new timestamp))
    outside of_zbus (bus.emit service_path (Signal.collection_changed (collection_path u id)))

  unfoldable pub locked : Bool
  locked = false

  unfoldable pub created : Method W ℕ
  created = do found ← ask_provider (Vault.collection call id); pure found.created

  unfoldable pub modified : Method W ℕ
  modified = do found ← ask_provider (Vault.collection call id); pure found.modified

  unfoldable pub items : Method W (List Text)
  items = do
    found ← ask_provider (Vault.items call id)
    pure (map (λ (i : ItemMetadata). item_path u i.id) found)
