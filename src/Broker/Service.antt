-- ===== src/Broker/Service.antt =====
-- `Broker::execute` and `Broker::reconcile` of crates/broker/src/service.rs.
pub mod Keeps
use wincred_libsecret_wsl_pl.Prelude.{Option, Result, ok, err, some, none}
use wincred_libsecret_wsl_pl.Prelude.Exec.{pure, ◌>>=◌}
use wincred_libsecret_wsl_pl.Protocol.Errors.{BrokerError}
use wincred_libsecret_wsl_pl.Protocol.Message.{Operation, ResponseBody}
use wincred_libsecret_wsl_pl.Broker.Backend.{VaultBackend, Action}
use wincred_libsecret_wsl_pl.Broker.Metadata.{Deps}
use wincred_libsecret_wsl_pl.Broker.Collections.{
  list_collections, get_collection, create_collection, update_collection, delete_collection,
}
use wincred_libsecret_wsl_pl.Broker.Aliases.{list_aliases, resolve_alias, set_alias, remove_alias}
use wincred_libsecret_wsl_pl.Broker.Items.{
  search_items, list_items, get_item, create_item, create_or_replace_item, update_item,
  update_item_cas, delete_item,
}
use wincred_libsecret_wsl_pl.Broker.Recovery.{reconcile_locked}

module _ (d : Deps) {S : Type 0} (b : VaultBackend S) where
  -- The `match operation`.
  unfoldable pub dispatch : Operation → Action S ResponseBody
  dispatch Operation.ping = pure ResponseBody.pong
  dispatch Operation.list_collections = list_collections d b
  dispatch (Operation.get_collection id) = do
    c ← get_collection d b id
    pure (ResponseBody.collection c)
  dispatch (Operation.create_collection c) = create_collection d b c
  dispatch (Operation.update_collection c) = update_collection d b c
  dispatch (Operation.delete_collection id) = delete_collection d b id
  dispatch Operation.list_aliases = list_aliases d b
  dispatch (Operation.resolve_alias name) = resolve_alias d b name
  dispatch (Operation.set_alias alias) = set_alias d b alias
  dispatch (Operation.remove_alias name) = remove_alias d b name
  dispatch (Operation.search_items attributes) = search_items d b attributes
  dispatch (Operation.list_items id) = list_items d b id
  dispatch (Operation.get_item id include_secret) = get_item d b id include_secret
  dispatch (Operation.create_item item secret) = create_item d b item secret
  dispatch (Operation.create_or_replace_item item secret replace) =
      create_or_replace_item d b item secret replace
  dispatch (Operation.update_item item secret) = update_item d b item secret
  dispatch (Operation.update_item_cas item secret expected) =
      update_item_cas d b item secret expected
  dispatch (Operation.delete_item id) = delete_item d b id
  dispatch Operation.reconcile = reconcile_locked d b

  -- Runs an action between `acquire_lock` and the drop of the guard.
  unfoldable pub locked : {A : Type 0} → Action S A → S → Option (Result BrokerError A × S)
  locked m s = elim (b.acquire_lock s) [
    | none ↦ none
    | some (err e, s') ↦ some (err e, s')
    | some (ok _, s') ↦ let (r, s'') = m s' in some (r, b.release s'')
  ]

  unfoldable pub execute : Operation → S → Option (Result BrokerError ResponseBody × S)
  execute operation = locked (dispatch operation)

  unfoldable pub reconcile : S → Option (Result BrokerError ResponseBody × S)
  reconcile = locked (reconcile_locked d b)
