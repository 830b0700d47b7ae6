-- ===== src/Broker/Collections.antt =====
-- The operations of crates/broker/src/service.rs on collections.
use wincred_libsecret_wsl_pl.Prelude.{
  is_some, Option, none, some, List, [], ◌∷◌, Text, codes, ◌==◌, if◌then◌else◌,
}
use wincred_libsecret_wsl_pl.Prelude.Exec.{match_option, pure, raise, lift, outcome, ◌>>=◌, ◌>>◌}
use wincred_libsecret_wsl_pl.Prelude.Results.{map_err}
use wincred_libsecret_wsl_pl.Prelude.Order.{nat_ord}
use wincred_libsecret_wsl_pl.Prelude.OrdMap.{OrdSet, add, sort_by}
use wincred_libsecret_wsl_pl.Protocol.Errors.{BrokerError, ErrorCode, broker_error}
use wincred_libsecret_wsl_pl.Protocol.Model.{Uuid, CollectionMetadata}
use wincred_libsecret_wsl_pl.Protocol.Frame.{Codec}
use wincred_libsecret_wsl_pl.Protocol.Message.{ResponseBody}
use wincred_libsecret_wsl_pl.Protocol.Target.{TargetName}
use wincred_libsecret_wsl_pl.Broker.Backend.{VaultBackend, Action}
use wincred_libsecret_wsl_pl.Broker.Metadata.{
  Deps, not_found, already_exists, corrupt_state, encode_metadata, decode_metadata,
  validate_collection, valid_collection, valid_alias,
}
use wincred_libsecret_wsl_pl.Broker.Entries.{Entry, entries, entry_item}

-- `.ok_or_else(..)?`
unfoldable pub some_or : {S A : Type 0} → Option A → BrokerError → Action S A
some_or none e = raise e
some_or (some a) e = pure a

-- The collections of a list of entries.
unfoldable pub collect_collections : Deps → List Entry → List CollectionMetadata
collect_collections d [] = []
collect_collections d (e ∷ es) =
    let rest = collect_collections d es in
    elim e.kind [
      | TargetName.collection id ↦ elim (valid_collection d id e.blob) [
        | none ↦ rest
        | some c ↦ c ∷ rest
      ]
      | _ ↦ rest
    ]

-- The items of a collection, as the set that `delete_collection` collects.
unfoldable pub items_of : Deps → Uuid → List Entry → OrdSet Uuid
items_of d collection_id [] = []
items_of d collection_id (e ∷ es) =
    let rest = items_of d collection_id es in
    elim (entry_item d e) [
      | none ↦ rest
      | some item ↦ if item.collection_id == collection_id then add item.id rest else rest
    ]

-- The names of the aliases of a collection.
unfoldable pub aliases_of : Deps → Uuid → List Entry → List Text
aliases_of d collection_id [] = []
aliases_of d collection_id (e ∷ es) =
    let rest = aliases_of d collection_id es in
    elim e.kind [
      | TargetName.alias name ↦ elim (valid_alias d name e.blob) [
        | none ↦ rest
        | some a ↦ if a.collection_id == collection_id then a.name ∷ rest else rest
      ]
      | _ ↦ rest
    ]

-- The target of an entry that is a secret of the item.
unfoldable pub secret_of : Uuid → Entry → Option TargetName
secret_of id e = elim e.kind [
  | TargetName.item_secret item_id generation ↦
      if item_id == id then some (TargetName.item_secret item_id generation) else none
  | _ ↦ none
]

-- `map_err` of `require_collection`.
unfoldable pub as_invalid_collection : BrokerError → BrokerError
as_invalid_collection error = elim error.code [
  | ErrorCode.not_found ↦
      broker_error ErrorCode.invalid_collection (codes "referenced collection does not exist")
  | _ ↦ error
]

module _ {S : Type 0} (b : VaultBackend S) where
  unfoldable pub write_metadata : {T : Type 0} → Codec T → TargetName → T → Action S (Unit {0})
  write_metadata c target metadata = do
    encoded ← lift (encode_metadata c metadata)
    b.write target encoded

  -- The loop of `delete_item_from_entries`: the secrets of one item.
  unfoldable pub delete_secrets : Uuid → List Entry → Action S (Unit {0})
  delete_secrets id [] = pure tt
  delete_secrets id (e ∷ es) =
      let rest = delete_secrets id es in
      match_option (secret_of id e) rest (λ target. do b.delete target; rest)

  unfoldable pub delete_item_from_entries : Uuid → List Entry → Action S (Unit {0})
  delete_item_from_entries id es = do b.delete (TargetName.item_metadata id); delete_secrets id es

  unfoldable pub delete_items : OrdSet Uuid → List Entry → Action S (Unit {0})
  delete_items [] es = pure tt
  delete_items (id ∷ ids) es = do delete_item_from_entries id es; delete_items ids es

  unfoldable pub delete_aliases : List Text → Action S (Unit {0})
  delete_aliases [] = pure tt
  delete_aliases (name ∷ names) = do b.delete (TargetName.alias name); delete_aliases names

module _ (d : Deps) {S : Type 0} (b : VaultBackend S) where
  unfoldable pub list_collections : Action S ResponseBody
  list_collections = do
    es ← entries d b
    pure (
        ResponseBody.collections
          (sort_by (λ (c : CollectionMetadata). c.id) (collect_collections d es)))

  unfoldable pub get_collection : Uuid → Action S CollectionMetadata
  get_collection id = do
    found ← b.read (TargetName.collection id)
    blob ← some_or found (not_found (codes "collection does not exist"))
    collection ← lift (decode_metadata d.collections blob)
    if collection.id == id
        then (do lift (validate_collection collection); pure collection)
        else raise (corrupt_state (codes "collection metadata identity does not match target"))

  unfoldable pub create_collection : CollectionMetadata → Action S ResponseBody
  create_collection collection = do
    lift (validate_collection collection)
    existing ← b.read (TargetName.collection collection.id)
    if is_some existing then raise (already_exists (codes "collection already exists")) else do
      write_metadata b d.collections (TargetName.collection collection.id) collection
      pure (ResponseBody.collection collection)

  unfoldable pub update_collection : CollectionMetadata → Action S ResponseBody
  update_collection collection = do
    existing ← get_collection collection.id
    lift (validate_collection collection)
    let updated = record collection { created = existing.created }
    write_metadata b d.collections (TargetName.collection updated.id) updated
    pure (ResponseBody.collection updated)

  unfoldable pub delete_collection : Uuid → Action S ResponseBody
  delete_collection collection_id = do
    get_collection collection_id
    es ← entries d b
    delete_items b (items_of d collection_id es) es
    delete_aliases b (aliases_of d collection_id es)
    b.delete (TargetName.collection collection_id)
    pure ResponseBody.empty

  unfoldable pub require_collection : Uuid → Action S CollectionMetadata
  require_collection id = do r ← outcome (get_collection id); lift (map_err as_invalid_collection r)
