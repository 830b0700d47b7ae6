-- ===== src/Provider/Double/Consistent.antt =====
-- The three maps of `InMemoryBroker` of crates/provider/src/broker.rs, and what holds between them.
use wincred_libsecret_wsl_pl.Prelude.{
  ℕ, [], Option, Bool, inr, subst, ◌∷◌, inl, List, ==_iff, Bool-cases, Text, All, ◌≡◌, refl, sym,
  ap, ◌∙◌, not, true, is_some, ◌==◌, Option-cases, arith,
}
use wincred_libsecret_wsl_pl.Prelude.Order.{nat_ord, text_ord}
use wincred_libsecret_wsl_pl.Prelude.OrdMap.{
  get, insert, remove, get-insert_self, get-insert_ne, get-remove_ne, OrdMap,
}
use wincred_libsecret_wsl_pl.Prelude.OrdMap.Every.{All-insert, All-remove, All-keep, All-map}
use wincred_libsecret_wsl_pl.Protocol.Message.{Operation}
use wincred_libsecret_wsl_pl.Protocol.Model.{
  SecretBytes, Uuid, CollectionMetadata, ItemMetadata, AliasMetadata,
}
use wincred_libsecret_wsl_pl.Provider.Double.{
  replaced_by, MemoryState, drop_collection, StoredItem, has_collection, call, get_collection,
  create_collection, update_collection, delete_collection, set_alias, remove_alias, list_items,
  get_item, create_item, create_or_replace_item, update_item, update_item_cas, delete_item,
  remove_items, advance,
}

abbrev pub CollectionEntry : Uuid × CollectionMetadata → Type 0
CollectionEntry entry = entry.1.id ≡ entry.0

abbrev pub ItemEntry : MemoryState → Uuid × StoredItem → Type 0
ItemEntry s entry = (entry.1.0.id ≡ entry.0) × (has_collection s entry.1.0.collection_id ≡ true)

abbrev pub AliasEntry : MemoryState → Text × AliasMetadata → Type 0
AliasEntry s entry = (entry.1.name ≡ entry.0) × (has_collection s entry.1.collection_id ≡ true)

-- Every entry stands under the id or the name of its value, and every item and every alias has its
-- collection.
abbrev pub IsConsistent : MemoryState → Type 0
IsConsistent s =
    All CollectionEntry s.collections × All (ItemEntry s) s.items × All (AliasEntry s) s.aliases

-- An update names a collection that is there; the other operations need nothing.
abbrev pub StaysIn : Operation → MemoryState → Type 0
StaysIn (Operation.update_item i secret) s = has_collection s i.collection_id ≡ true
StaysIn (Operation.update_item_cas i secret expected) s = has_collection s i.collection_id ≡ true
StaysIn _ s = Unit

-- A collection stays while others come or get a new value, and while others go.
has_collection-insert :
    (s : MemoryState) (c : CollectionMetadata) (id : Uuid)
    → has_collection s id ≡ true
    → is_some (get id (insert c.id c s.collections)) ≡ true
has_collection-insert s c id h = elim (Bool-cases (c.id == id)) [
  | inl e ↦
      subst (λ k. is_some (get k (insert c.id c s.collections)) ≡ true) ((==_iff c.id id).0 e)
        (ap is_some (get-insert_self c.id c s.collections))
  | inr n ↦
      ap is_some
        (get-insert_ne c.id id c s.collections (λ q. ground (arith, (==_iff c.id id).1 q, n)))
      ∙ h
]

has_collection-remove :
    (s : MemoryState) (gone id : Uuid)
    → has_collection s id ≡ true
    → not (id == gone) ≡ true
    → is_some (get id (remove gone s.collections)) ≡ true
has_collection-remove s gone id h n =
    ap is_some
      (get-remove_ne gone id s.collections (λ q. ground (arith, (==_iff id gone).1 (sym q), n)))
    ∙ h

insert_collection-IsConsistent :
    (c : CollectionMetadata) (s : MemoryState)
    → IsConsistent s
    → IsConsistent (record s { collections = insert c.id c s.collections })
insert_collection-IsConsistent c s h = (
  All-insert CollectionEntry c.id c s.collections refl h.0,
  All-map _ _ s.items (λ e q. (q.0, has_collection-insert s c _ q.1)) h.1,
  All-map _ _ s.aliases (λ e q. (q.0, has_collection-insert s c _ q.1)) h.2,
)

remove_collection-IsConsistent :
    (id : Uuid) (s : MemoryState) → IsConsistent s → IsConsistent (drop_collection id s)
remove_collection-IsConsistent id s h = (
  All-remove CollectionEntry id s.collections h.0,
  All-keep _ _ _ s.items (λ e q n. (q.0, has_collection-remove s id _ q.1 n)) h.1,
  All-keep _ _ _ s.aliases (λ e q n. (q.0, has_collection-remove s id _ q.1 n)) h.2,
)

insert_item-IsConsistent :
    (i : ItemMetadata) (secret : SecretBytes) (s : MemoryState)
    → IsConsistent s
    → has_collection s i.collection_id ≡ true
    → IsConsistent (record s { items = insert i.id (i, secret) s.items })
insert_item-IsConsistent i secret s h e =
    (h.0, All-insert (ItemEntry s) i.id (i, secret) s.items (refl, e) h.1, h.2)

insert_alias-IsConsistent :
    (a : AliasMetadata) (s : MemoryState)
    → IsConsistent s
    → has_collection s a.collection_id ≡ true
    → IsConsistent (record s { aliases = insert a.name a s.aliases })
insert_alias-IsConsistent a s h e =
    (h.0, h.1, All-insert (AliasEntry s) a.name a s.aliases (refl, e) h.2)

All-remove_items :
    (s : MemoryState) (ids : List Uuid) (m : OrdMap Uuid StoredItem)
    → All (ItemEntry s) m
    → All (ItemEntry s) (remove_items ids m)
unfolding remove_items
All-remove_items s [] m h = h
All-remove_items s (id ∷ ids) m h =
    All-remove_items s ids (remove id m) (All-remove (ItemEntry s) id m h)

remove_items-IsConsistent :
    (ids : List Uuid) (s : MemoryState)
    → IsConsistent s
    → IsConsistent (record s { items = remove_items ids s.items })
remove_items-IsConsistent ids s h = (h.0, All-remove_items s ids s.items h.1, h.2)

create_collection-IsConsistent :
    (c : CollectionMetadata) (s : MemoryState)
    → IsConsistent s
    → IsConsistent (create_collection c s).1
unfolding create_collection
create_collection-IsConsistent c s h = ground (arith, insert_collection-IsConsistent c s h)

update_collection-IsConsistent :
    (c : CollectionMetadata) (s : MemoryState)
    → IsConsistent s
    → IsConsistent (update_collection c s).1
unfolding update_collection
update_collection-IsConsistent c s h = ground (arith, insert_collection-IsConsistent c s h)

delete_collection-IsConsistent :
    (id : Uuid) (s : MemoryState) → IsConsistent s → IsConsistent (delete_collection id s).1
unfolding delete_collection
delete_collection-IsConsistent id s h = ground (arith, remove_collection-IsConsistent id s h)

set_alias-IsConsistent :
    (a : AliasMetadata) (s : MemoryState) → IsConsistent s → IsConsistent (set_alias a s).1
unfolding set_alias
set_alias-IsConsistent a s h = ground (arith, insert_alias-IsConsistent a s h)

remove_alias-IsConsistent :
    (name : Text) (s : MemoryState) → IsConsistent s → IsConsistent (remove_alias name s).1
unfolding remove_alias
remove_alias-IsConsistent name s h = (h.0, h.1, All-remove (AliasEntry s) name s.aliases h.2)

get_collection-state : (id : Uuid) (s : MemoryState) → (get_collection id s).1 ≡ s
unfolding get_collection
get_collection-state id s = ground arith

list_items-state : (id : Uuid) (s : MemoryState) → (list_items id s).1 ≡ s
unfolding list_items
list_items-state id s = ground arith

get_item-state :
    (id : Uuid) (include_secret : Bool) (s : MemoryState) → (get_item id include_secret s).1 ≡ s
unfolding get_item
get_item-state id include_secret s = ground arith

create_item-IsConsistent :
    (i : ItemMetadata) (secret : SecretBytes) (s : MemoryState)
    → IsConsistent s
    → IsConsistent (create_item i secret s).1
unfolding create_item
create_item-IsConsistent i secret s h = ground (arith, insert_item-IsConsistent i secret s h)

create_or_replace_item-IsConsistent :
    (i : ItemMetadata) (secret : SecretBytes) (replace : Bool) (s : MemoryState)
    → IsConsistent s
    → IsConsistent (create_or_replace_item i secret replace s).1
unfolding create_or_replace_item
create_or_replace_item-IsConsistent i secret replace s h = ground (
  arith,
  λ (e : has_collection s i.collection_id ≡ true).
      remove_items-IsConsistent (replaced_by i replace s) _
        (insert_item-IsConsistent i secret s h e),
)

update_item-IsConsistent :
    (i : ItemMetadata) (secret : Option SecretBytes) (s : MemoryState)
    → IsConsistent s
    → has_collection s i.collection_id ≡ true
    → IsConsistent (update_item i secret s).1
unfolding update_item
update_item-IsConsistent i secret s h k = elim (Option-cases (get i.id s.items)) [
  | inl e ↦ ground (arith, e)
  | inr (stored, e) ↦ elim (Option-cases secret) [
    | inl n ↦ ground (arith, e, n, insert_item-IsConsistent i stored.1 s h k)
    | inr (new, n) ↦ ground (arith, e, n, insert_item-IsConsistent i new s h k)
  ]
]

update_item_cas-IsConsistent :
    (i : ItemMetadata) (secret : Option SecretBytes) (expected : ℕ) (s : MemoryState)
    → IsConsistent s
    → has_collection s i.collection_id ≡ true
    → IsConsistent (update_item_cas i secret expected s).1
unfolding update_item_cas
update_item_cas-IsConsistent i secret expected s h k = elim (Option-cases (get i.id s.items)) [
  | inl e ↦ ground (arith, e)
  | inr (stored, e) ↦ elim (Option-cases secret) [
    | inl n ↦ ground (arith, e, n, insert_item-IsConsistent (advance stored.0 i) stored.1 s h k)
    | inr (new, n) ↦ ground (arith, e, n, insert_item-IsConsistent (advance stored.0 i) new s h k)
  ]
]

remove_item-IsConsistent :
    (id : Uuid) (s : MemoryState)
    → IsConsistent s
    → IsConsistent (record s { items = remove id s.items })
remove_item-IsConsistent id s h = (h.0, All-remove (ItemEntry s) id s.items h.1, h.2)

delete_item-IsConsistent :
    (id : Uuid) (s : MemoryState) → IsConsistent s → IsConsistent (delete_item id s).1
unfolding delete_item
delete_item-IsConsistent id s h = ground (arith, remove_item-IsConsistent id s h)

-- Every operation of the store in memory leaves it consistent, that is, each entry under the id or
-- name of its value and each item and alias with its collection, where an update of an item names
-- a collection that is there.
pub call-IsConsistent :
    (op : Operation) (s : MemoryState) → IsConsistent s → StaysIn op s → IsConsistent (call op s).1
unfolding call
call-IsConsistent Operation.ping s h k = h
call-IsConsistent Operation.list_collections s h k = h
call-IsConsistent (Operation.get_collection id) s h k =
    subst IsConsistent (sym (get_collection-state id s)) h
call-IsConsistent (Operation.create_collection c) s h k = create_collection-IsConsistent c s h
call-IsConsistent (Operation.update_collection c) s h k = update_collection-IsConsistent c s h
call-IsConsistent (Operation.delete_collection id) s h k = delete_collection-IsConsistent id s h
call-IsConsistent Operation.list_aliases s h k = h
call-IsConsistent (Operation.resolve_alias name) s h k = h
call-IsConsistent (Operation.set_alias a) s h k = set_alias-IsConsistent a s h
call-IsConsistent (Operation.remove_alias name) s h k = remove_alias-IsConsistent name s h
call-IsConsistent (Operation.search_items query) s h k = h
call-IsConsistent (Operation.list_items id) s h k =
    subst IsConsistent (sym (list_items-state id s)) h
call-IsConsistent (Operation.get_item id include_secret) s h k =
    subst IsConsistent (sym (get_item-state id include_secret s)) h
call-IsConsistent (Operation.create_item i secret) s h k = create_item-IsConsistent i secret s h
call-IsConsistent (Operation.create_or_replace_item i secret replace) s h k =
    create_or_replace_item-IsConsistent i secret replace s h
call-IsConsistent (Operation.update_item i secret) s h k = update_item-IsConsistent i secret s h k
call-IsConsistent (Operation.update_item_cas i secret expected) s h k =
    update_item_cas-IsConsistent i secret expected s h k
call-IsConsistent (Operation.delete_item id) s h k = delete_item-IsConsistent id s h
call-IsConsistent Operation.reconcile s h k = h
