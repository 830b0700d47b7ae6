-- ===== src/Provider/Double.antt =====
-- `InMemoryBroker` of crates/provider/src/broker.rs: the client that keeps everything in three maps.
-- The arms of its `call` are one function each, and the lock of the state makes each of them one step.
pub mod Consistent
use wincred_libsecret_wsl_pl.Prelude.{
  ℕ, max, ◌+◌, Bool, true, false, not, ◌&&◌, ◌==◌, Option, none, some, List, [], ◌∷◌, map, Text,
  codes, keep, is_some, if◌then◌else◌, Result, ok, err,
}
use wincred_libsecret_wsl_pl.Prelude.Exec.{Exec}
use wincred_libsecret_wsl_pl.Prelude.Order.{nat_ord, text_ord}
use wincred_libsecret_wsl_pl.Prelude.OrdMap.{OrdMap, get, insert, remove}
use wincred_libsecret_wsl_pl.Protocol.Errors.{ErrorCode, broker_error}
use wincred_libsecret_wsl_pl.Protocol.Model.{
  Uuid, Attributes, SecretBytes, CollectionMetadata, ItemMetadata, AliasMetadata,
}
use wincred_libsecret_wsl_pl.Protocol.Message.{Operation, ResponseBody}
use wincred_libsecret_wsl_pl.Broker.Items.{matches, replaces, item_ids, saturating_suc}
use wincred_libsecret_wsl_pl.Provider.Errors.{ProviderError}

abbrev pub StoredItem : Type 0
StoredItem = ItemMetadata × SecretBytes

pub record MemoryState : Type 0 where
  pub collections : OrdMap Uuid CollectionMetadata
  pub items : OrdMap Uuid StoredItem
  pub aliases : OrdMap Text AliasMetadata

abbrev pub new_double : MemoryState
new_double = record { collections = []; items = []; aliases = [] }

-- One arm of `call`.
abbrev pub Arm : Type 0
Arm = Exec MemoryState ProviderError ResponseBody

-- `BTreeMap::values`.
abbrev pub values : {K V : Type 0} → OrdMap K V → List V
values m = map (λ entry. entry.1) m

abbrev pub not_found : Text → ProviderError
not_found message = ProviderError.broker (broker_error ErrorCode.not_found message)

abbrev pub missing_collection : ProviderError
missing_collection = not_found (codes "collection not found")

abbrev pub missing_item : ProviderError
missing_item = not_found (codes "item not found")

abbrev pub item_exists : ProviderError
item_exists =
    ProviderError.broker (broker_error ErrorCode.already_exists (codes "item already exists"))

abbrev pub has_collection : MemoryState → Uuid → Bool
has_collection s id = is_some (get id s.collections)

-- The metadata of the items that a test accepts.
abbrev pub found : (ItemMetadata → Bool) → MemoryState → List ItemMetadata
found test s = map (λ (i : StoredItem). i.0) (keep (λ i. test i.0) (values s.items))

unfoldable pub get_collection : Uuid → Arm
get_collection id s = elim (get id s.collections) [
  | none ↦ (err missing_collection, s)
  | some c ↦ (ok (ResponseBody.collection c), s)
]

unfoldable pub create_collection : CollectionMetadata → Arm
create_collection c s =
    if has_collection s c.id
    then (
      err (
          ProviderError.broker
            (broker_error ErrorCode.already_exists (codes "collection already exists"))),
      s,
    )
    else (ok (ResponseBody.collection c), record s { collections = insert c.id c s.collections })

unfoldable pub update_collection : CollectionMetadata → Arm
update_collection c s =
    if not (has_collection s c.id)
    then (err missing_collection, s)
    else (ok (ResponseBody.collection c), record s { collections = insert c.id c s.collections })

-- The items and the aliases of the collection go with it.
abbrev pub drop_collection : Uuid → MemoryState → MemoryState
drop_collection id s = record {
  collections = remove id s.collections;
  items = keep (λ entry. not (entry.1.0.collection_id == id)) s.items;
  aliases = keep (λ entry. not (entry.1.collection_id == id)) s.aliases;
}

unfoldable pub delete_collection : Uuid → Arm
delete_collection id s =
    if not (has_collection s id)
    then (err missing_collection, s)
    else (ok ResponseBody.empty, drop_collection id s)

unfoldable pub set_alias : AliasMetadata → Arm
set_alias a s =
    if not (has_collection s a.collection_id)
    then (err missing_collection, s)
    else (ok (ResponseBody.alias (some a)), record s { aliases = insert a.name a s.aliases })

unfoldable pub remove_alias : Text → Arm
remove_alias name s = (ok ResponseBody.empty, record s { aliases = remove name s.aliases })

unfoldable pub list_items : Uuid → Arm
list_items id s =
    if not (has_collection s id)
    then (err missing_collection, s)
    else (ok (ResponseBody.items (found (λ i. i.collection_id == id) s)), s)

unfoldable pub get_item : Uuid → Bool → Arm
get_item id include_secret s = elim (get id s.items) [
  | none ↦ (err missing_item, s)
  | some (i, secret) ↦ (ok (ResponseBody.item i (if include_secret then some secret else none)), s)
]

unfoldable pub create_item : ItemMetadata → SecretBytes → Arm
create_item i secret s =
    if not (has_collection s i.collection_id)
    then (err missing_collection, s)
    else if is_some (get i.id s.items)
    then (err item_exists, s)
    else (ok (ResponseBody.item i none), record s { items = insert i.id (i, secret) s.items })

-- `state.items.remove(replaced)` over the replaced ids.
unfoldable pub remove_items : List Uuid → OrdMap Uuid StoredItem → OrdMap Uuid StoredItem
remove_items [] m = m
remove_items (id ∷ ids) m = remove_items ids (remove id m)

-- The ids of the items with the same collection and attributes, when they are to be replaced.
abbrev pub replaced_by : ItemMetadata → Bool → MemoryState → List Uuid
replaced_by i replace s = if replace then item_ids (found (replaces i) s) else []

unfoldable pub create_or_replace_item : ItemMetadata → SecretBytes → Bool → Arm
unfolding remove_items
create_or_replace_item i secret replace s =
    if not (has_collection s i.collection_id)
    then (err missing_collection, s)
    else if is_some (get i.id s.items)
    then (err item_exists, s)
    else (
      ok (ResponseBody.replaced_item i (replaced_by i replace s) []),
      record s { items = remove_items (replaced_by i replace s) (insert i.id (i, secret) s.items) },
    )

-- `stored.0 = item` and, with a new secret, `stored.1 = secret`.
abbrev pub stored_item : ItemMetadata → Option SecretBytes → SecretBytes → StoredItem
stored_item i none old = (i, old)
stored_item i (some secret) old = (i, secret)

unfoldable pub update_item : ItemMetadata → Option SecretBytes → Arm
update_item i secret s = elim (get i.id s.items) [
  | none ↦ (err missing_item, s)
  | some (_, old) ↦ (
    ok (ResponseBody.item i none),
    record s { items = insert i.id (stored_item i secret old) s.items },
  )
]

-- The item with the time that the compare-and-set gives it.
abbrev pub advance : ItemMetadata → ItemMetadata → ItemMetadata
advance existing i = record i { modified = max i.modified (saturating_suc existing.modified) }

unfoldable pub update_item_cas : ItemMetadata → Option SecretBytes → ℕ → Arm
update_item_cas i secret expected s = elim (get i.id s.items) [
  | none ↦ (err missing_item, s)
  | some (existing, old) ↦
      if not (existing.modified == expected)
      then (
        err (
            ProviderError.broker
              (broker_error ErrorCode.conflict (codes "item was modified by another provider"))),
        s,
      )
      else (
        ok (ResponseBody.item (advance existing i) none),
        record s { items = insert i.id (stored_item (advance existing i) secret old) s.items },
      )
]

unfoldable pub delete_item : Uuid → Arm
delete_item id s = elim (get id s.items) [
  | none ↦ (err missing_item, s)
  | some _ ↦ (ok ResponseBody.empty, record s { items = remove id s.items })
]

unfoldable pub call : Operation → Arm
unfolding get_collection create_collection update_collection delete_collection set_alias
    remove_alias list_items get_item create_item create_or_replace_item update_item update_item_cas
    delete_item
call Operation.ping s = (ok ResponseBody.pong, s)
call Operation.list_collections s = (ok (ResponseBody.collections (values s.collections)), s)
call (Operation.get_collection id) s = get_collection id s
call (Operation.create_collection c) s = create_collection c s
call (Operation.update_collection c) s = update_collection c s
call (Operation.delete_collection id) s = delete_collection id s
call Operation.list_aliases s = (ok (ResponseBody.aliases (values s.aliases)), s)
call (Operation.resolve_alias name) s = (ok (ResponseBody.alias (get name s.aliases)), s)
call (Operation.set_alias a) s = set_alias a s
call (Operation.remove_alias name) s = remove_alias name s
call (Operation.search_items query) s = (ok (ResponseBody.items (found (matches query) s)), s)
call (Operation.list_items id) s = list_items id s
call (Operation.get_item id include_secret) s = get_item id include_secret s
call (Operation.create_item i secret) s = create_item i secret s
call (Operation.create_or_replace_item i secret replace) s =
    create_or_replace_item i secret replace s
call (Operation.update_item i secret) s = update_item i secret s
call (Operation.update_item_cas i secret expected) s = update_item_cas i secret expected s
call (Operation.delete_item id) s = delete_item id s
call Operation.reconcile s = (ok (ResponseBody.reconciled 0 []), s)
