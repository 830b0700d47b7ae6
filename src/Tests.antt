-- ===== src/Tests.antt =====
-- Runs of the development on concrete inputs: the broker on the store in memory and on a small Windows
-- store, the protocol on sample messages, the provider on a process that loses its first request, and
-- the management tool on a small system.
pub mod Crypto
pub mod Machines
pub mod Manage
pub mod Mutexes
pub mod Removal
pub mod Room
pub mod Serve
pub mod Sessions
pub mod Unary
pub mod Versions
pub mod Windows
pub mod Wire
use wincred_libsecret_wsl_pl.Prelude.{
  ℕ, ◌≡◌, ◌≢◌, refl, sym, ap, ◌↔◌, ◌⊎◌, Bool, true, false, Option, none, some, List, [], ◌∷◌, ◌++◌,
  codes, Result, ok, err, arith, Text,
}
use wincred_libsecret_wsl_pl.Protocol.Model.{Blob, Uuid, ItemMetadata, new_secret}
use wincred_libsecret_wsl_pl.Protocol.Target.{TargetName, display, from_str}
use wincred_libsecret_wsl_pl.Protocol.Message.{Operation, ResponseBody}
use wincred_libsecret_wsl_pl.Broker.Backend.{VaultBackend, IsLawful}
use wincred_libsecret_wsl_pl.Broker.Memory.{MemoryData, new_memory, memory_backend}
use wincred_libsecret_wsl_pl.Broker.Memory.Lawful.{memory_backend-IsLawful}
use wincred_libsecret_wsl_pl.Broker.Samples.{
  crates, crates-IsFaithful, deps, item_codec, item_codec-IsLawful, sample_collection, sample_item,
  sample_secret,
}
use wincred_libsecret_wsl_pl.Broker.Collections.{create_collection}
use wincred_libsecret_wsl_pl.Broker.Items.{create_item, get_item, update_item, get_item_metadata}
use wincred_libsecret_wsl_pl.Broker.Items.Create.{get_item-create_item}
use wincred_libsecret_wsl_pl.Broker.Recovery.{reconcile_locked}
use wincred_libsecret_wsl_pl.Broker.ReadOnly.{is_read, execute-read}
use wincred_libsecret_wsl_pl.Broker.Metadata.{Deps}
use wincred_libsecret_wsl_pl.Broker.Service.{execute}
use wincred_libsecret_wsl_pl.Broker.View.{visible}
use wincred_libsecret_wsl_pl.Broker.Items.Commit.{Committed, commit_new_generation-atomic}
use wincred_libsecret_wsl_pl.Broker.Items.Update.{Updated, update_item-Updated}
use wincred_libsecret_wsl_pl.Broker.Items.{commit_new_generation, update_item_cas}
use wincred_libsecret_wsl_pl.Prelude.Order.{text_ord}
use wincred_libsecret_wsl_pl.Prelude.OrdMap.{IsUnique, get}
use wincred_libsecret_wsl_pl.Protocol.Errors.{ErrorCode, broker_error}
use wincred_libsecret_wsl_pl.Broker.Recovery.Reconcile.{
  committed_generation, reconcile_locked-keeps, reconcile_locked-deletes,
}

abbrev pub memory : VaultBackend MemoryData
memory = memory_backend crates

abbrev pub lawful : IsLawful crates memory (λ s. IsUnique s.credentials)
lawful = memory_backend-IsLawful crates crates-IsFaithful

absent_lem :
    (s : MemoryData) (t : TargetName)
    → get (display crates t) s.credentials ≡ none
    → lawful.creds s t ≡ none
absent_lem s t h = sym (lawful.read_ok t s none (ap ok h))

-- A store with one collection.
abbrev store : MemoryData
store = record {
  credentials = (display crates (TargetName.collection 7), 1 ∷ 7 ∷ 10 ∷ 10 ∷ 4 ∷ codes "main") ∷ [];
  locked = false;
}

-- A store with a secret that no metadata commits to.
abbrev interrupted : MemoryData
interrupted = record {
  credentials = (display crates (TargetName.item_secret 5 3), codes "hunter2") ∷ [];
  locked = false;
}

visible-none :
    (d : Deps) (view : TargetName → Option Blob) (id : Uuid)
    → view (TargetName.item_metadata id) ≡ none
    → visible d view id ≡ none
unfolding visible
visible-none d view id h = ground (arith, h)

committed_generation-none :
    (d : Deps) (view : TargetName → Option Blob) (id : Uuid)
    → view (TargetName.item_metadata id) ≡ none
    → committed_generation d view id ≡ none
committed_generation-none d view id h = ground (arith, h)

store_has_no_item : get (display crates (TargetName.item_metadata 5)) store.credentials ≡ none
unfolding get display wincred_libsecret_wsl_pl.Prelude.Order.cmp_text
store_has_no_item = refl

interrupted_has_no_item :
    get (display crates (TargetName.item_metadata 5)) interrupted.credentials ≡ none
unfolding get display wincred_libsecret_wsl_pl.Prelude.Order.cmp_text
interrupted_has_no_item = refl

create_collection_store : (create_collection deps memory sample_collection new_memory).1 ≡ store
unfolding create_collection wincred_libsecret_wsl_pl.Prelude.Exec.◌>>=◌
    wincred_libsecret_wsl_pl.Broker.Metadata.validate_collection
    wincred_libsecret_wsl_pl.Prelude.OrdMap.get wincred_libsecret_wsl_pl.Prelude.OrdMap.insert
    wincred_libsecret_wsl_pl.Broker.Collections.write_metadata
    wincred_libsecret_wsl_pl.Broker.Metadata.encode_metadata
    wincred_libsecret_wsl_pl.Protocol.Target.display
    wincred_libsecret_wsl_pl.Broker.Items.check_new_item
    wincred_libsecret_wsl_pl.Broker.Metadata.validate_item
    wincred_libsecret_wsl_pl.Broker.Collections.require_collection
    wincred_libsecret_wsl_pl.Broker.Collections.get_collection
    wincred_libsecret_wsl_pl.Broker.Collections.some_or
    wincred_libsecret_wsl_pl.Broker.Metadata.decode_metadata
    wincred_libsecret_wsl_pl.Broker.Samples.read_collection
    wincred_libsecret_wsl_pl.Broker.Items.commit_new_generation
    wincred_libsecret_wsl_pl.Broker.Items.clean_up wincred_libsecret_wsl_pl.Protocol.Vault.steps
    wincred_libsecret_wsl_pl.Broker.Items.deleted_by
create_collection_store = refl

create_item_ok :
    (create_item deps memory sample_item sample_secret store).0
    ≡ ok (ResponseBody.item sample_item none)
unfolding create_item wincred_libsecret_wsl_pl.Prelude.Exec.◌>>=◌
    wincred_libsecret_wsl_pl.Broker.Metadata.validate_collection
    wincred_libsecret_wsl_pl.Prelude.OrdMap.get wincred_libsecret_wsl_pl.Prelude.OrdMap.insert
    wincred_libsecret_wsl_pl.Broker.Collections.write_metadata
    wincred_libsecret_wsl_pl.Broker.Metadata.encode_metadata
    wincred_libsecret_wsl_pl.Protocol.Target.display
    wincred_libsecret_wsl_pl.Broker.Items.check_new_item
    wincred_libsecret_wsl_pl.Broker.Metadata.validate_item
    wincred_libsecret_wsl_pl.Broker.Collections.require_collection
    wincred_libsecret_wsl_pl.Broker.Collections.get_collection
    wincred_libsecret_wsl_pl.Broker.Collections.some_or
    wincred_libsecret_wsl_pl.Broker.Metadata.decode_metadata
    wincred_libsecret_wsl_pl.Broker.Samples.read_collection
    wincred_libsecret_wsl_pl.Broker.Items.commit_new_generation
    wincred_libsecret_wsl_pl.Broker.Items.clean_up wincred_libsecret_wsl_pl.Protocol.Vault.steps
    wincred_libsecret_wsl_pl.Broker.Items.deleted_by wincred_libsecret_wsl_pl.Prelude.Order.cmp_text
create_item_ok = refl

new_secret_ok : new_secret sample_secret.bytes ≡ ok sample_secret
unfolding new_secret
new_secret_ok = refl

get_item-create_item_example :
    (get_item deps memory 5 true (create_item deps memory sample_item sample_secret store).1).0
    ≡ ok (ResponseBody.item sample_item (some sample_secret))
get_item-create_item_example =
    get_item-create_item deps memory lawful item_codec-IsLawful (λ t s. (_, refl)) sample_item
      sample_secret store (ResponseBody.item sample_item none) new_secret_ok create_item_ok

reconcile_ok : (reconcile_locked deps memory interrupted).0 ≡ ok (ResponseBody.reconciled 1 [])
unfolding reconcile_locked wincred_libsecret_wsl_pl.Prelude.Exec.◌>>=◌
    wincred_libsecret_wsl_pl.Broker.Entries.entries
    wincred_libsecret_wsl_pl.Broker.Recovery.run_plan
    wincred_libsecret_wsl_pl.Protocol.Vault.plan_recovery
    wincred_libsecret_wsl_pl.Broker.Recovery.take_inventory
    wincred_libsecret_wsl_pl.Broker.Entries.to_entries
    wincred_libsecret_wsl_pl.Broker.Memory.listing wincred_libsecret_wsl_pl.Protocol.Target.from_str
    wincred_libsecret_wsl_pl.Protocol.Target.display wincred_libsecret_wsl_pl.Prelude.OrdMap.remove
    wincred_libsecret_wsl_pl.Prelude.OrdMap.add wincred_libsecret_wsl_pl.Prelude.OrdMap.get
reconcile_ok = refl

memory_backend-IsLawful_example : IsLawful crates memory (λ s. IsUnique s.credentials)
memory_backend-IsLawful_example = memory_backend-IsLawful crates crates-IsFaithful

no_item : visible deps (lawful.creds store) 5 ≡ none
no_item =
    visible-none deps (lawful.creds store) 5
      (absent_lem store (TargetName.item_metadata 5) store_has_no_item)

commit_new_generation-atomic_example :
    Committed deps memory lawful item_codec-IsLawful sample_item sample_secret store none
      (commit_new_generation deps memory sample_item none sample_secret store)
commit_new_generation-atomic_example =
    commit_new_generation-atomic deps memory lawful item_codec-IsLawful sample_item sample_secret
      store none (λ i o shown. absurd (cc (no_item, shown)))

store_IsUnique : IsUnique store.credentials
unfolding get
store_IsUnique = (refl, tt)

reconcile_locked-keeps_example :
    lawful.creds (reconcile_locked deps memory store).1 (TargetName.collection 7)
    ≡ lawful.creds store (TargetName.collection 7)
reconcile_locked-keeps_example =
    reconcile_locked-keeps deps memory lawful crates-IsFaithful store store_IsUnique
      (TargetName.collection 7) (λ i k e. absurd (cc e))

interrupted_IsUnique : IsUnique interrupted.credentials
unfolding get
interrupted_IsUnique = (refl, tt)

nothing_committed : committed_generation deps (lawful.creds interrupted) 5 ≡ none
nothing_committed =
    committed_generation-none deps (lawful.creds interrupted) 5
      (absent_lem interrupted (TargetName.item_metadata 5) interrupted_has_no_item)

reconcile_locked-deletes_example :
    lawful.creds (reconcile_locked deps memory interrupted).1 (TargetName.item_secret 5 3) ≡ none
reconcile_locked-deletes_example =
    reconcile_locked-deletes deps memory lawful crates-IsFaithful interrupted interrupted_IsUnique
      (ResponseBody.reconciled 1 []) reconcile_ok 5 3 (λ e. absurd (cc (nothing_committed, e)))

list_collections_ok :
    execute deps memory Operation.list_collections store
    ≡ some (ok (ResponseBody.collections (sample_collection ∷ [])), store)
unfolding execute wincred_libsecret_wsl_pl.Broker.Service.locked
    wincred_libsecret_wsl_pl.Broker.Service.dispatch
    wincred_libsecret_wsl_pl.Broker.Collections.list_collections
    wincred_libsecret_wsl_pl.Prelude.Exec.◌>>=◌ wincred_libsecret_wsl_pl.Broker.Entries.entries
    wincred_libsecret_wsl_pl.Prelude.OrdMap.sort_by
    wincred_libsecret_wsl_pl.Broker.Collections.collect_collections
    wincred_libsecret_wsl_pl.Broker.Entries.to_entries
    wincred_libsecret_wsl_pl.Broker.Memory.listing display from_str
    wincred_libsecret_wsl_pl.Broker.Metadata.valid_collection
    wincred_libsecret_wsl_pl.Broker.Metadata.decode_metadata
    wincred_libsecret_wsl_pl.Broker.Samples.read_collection
    wincred_libsecret_wsl_pl.Broker.Metadata.validate_collection
list_collections_ok = refl

list_is_read : is_read Operation.list_collections ≡ true
unfolding is_read
list_is_read = refl

execute-read_example :
    lawful.creds store (TargetName.collection 7) ≡ lawful.creds store (TargetName.collection 7)
execute-read_example =
    execute-read deps memory lawful Operation.list_collections store
      (ok (ResponseBody.collections (sample_collection ∷ []))) store (TargetName.collection 7)
      list_is_read list_collections_ok

-- A store with the collection and the sample item.
abbrev pub filled : MemoryData
filled = record store {
  credentials =
      (display crates (TargetName.collection 7), 1 ∷ 7 ∷ 10 ∷ 10 ∷ 4 ∷ codes "main")
      ∷ (
        display crates (TargetName.item_metadata 5),
        1 ∷ 5 ∷ 7 ∷ 20 ∷ 20 ∷ 3 ∷ 4 ∷ (codes "mail" ++ (10 ∷ codes "text/plain")),
      )
      ∷ (display crates (TargetName.item_secret 5 3), codes "hunter2")
      ∷ [];
}

abbrev moved : ItemMetadata
moved = record sample_item { modified = 21 }

get_item_metadata_ok : (get_item_metadata deps memory 5 filled).0 ≡ ok sample_item
unfolding get_item_metadata wincred_libsecret_wsl_pl.Prelude.Exec.◌>>=◌
    wincred_libsecret_wsl_pl.Broker.Collections.some_or get
    wincred_libsecret_wsl_pl.Prelude.Order.cmp_text display
    wincred_libsecret_wsl_pl.Broker.Metadata.decode_metadata
    wincred_libsecret_wsl_pl.Broker.Samples.read_item
    wincred_libsecret_wsl_pl.Broker.Metadata.validate_item
get_item_metadata_ok = refl

update_item_ok :
    (update_item deps memory sample_item none filled).0 ≡ ok (ResponseBody.item moved none)
unfolding update_item wincred_libsecret_wsl_pl.Prelude.Exec.◌>>=◌
    wincred_libsecret_wsl_pl.Broker.Items.get_item_metadata
    wincred_libsecret_wsl_pl.Broker.Collections.some_or wincred_libsecret_wsl_pl.Prelude.OrdMap.get
    wincred_libsecret_wsl_pl.Prelude.OrdMap.insert wincred_libsecret_wsl_pl.Prelude.Order.cmp_text
    wincred_libsecret_wsl_pl.Protocol.Target.display
    wincred_libsecret_wsl_pl.Broker.Metadata.decode_metadata
    wincred_libsecret_wsl_pl.Broker.Samples.read_item
    wincred_libsecret_wsl_pl.Broker.Metadata.validate_item
    wincred_libsecret_wsl_pl.Broker.Collections.require_collection
    wincred_libsecret_wsl_pl.Broker.Collections.get_collection
    wincred_libsecret_wsl_pl.Broker.Samples.read_collection
    wincred_libsecret_wsl_pl.Broker.Metadata.validate_collection
    wincred_libsecret_wsl_pl.Broker.Items.write_update
    wincred_libsecret_wsl_pl.Broker.Collections.write_metadata
    wincred_libsecret_wsl_pl.Broker.Metadata.encode_metadata
update_item_ok = refl

update_item-Updated_example :
    (existing : ItemMetadata) × (item : ItemMetadata) × ((get_item_metadata deps memory 5 filled).0
      ≡ ok existing)
    × (ResponseBody.item moved none ≡ ResponseBody.item item none)
    × Updated deps memory none existing sample_item item
update_item-Updated_example =
    update_item-Updated deps memory sample_item none filled (ResponseBody.item moved none)
      update_item_ok
