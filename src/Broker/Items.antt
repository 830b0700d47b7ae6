-- ===== src/Broker/Items.antt =====
-- The operations of crates/broker/src/service.rs on items and their generations.
pub mod Commit
pub mod Create
pub mod Delete
pub mod Update
use wincred_libsecret_wsl_pl.Prelude.{
  is_some, ℕ, suc, ◌+◌, ◌-◌, ◌^◌, max, Bool, true, false, not, ◌&&◌, Option, none, some, List, [],
  ◌∷◌, ◌++◌, map, Text, codes, text_eq, ltb, ◌==◌, every, keep, if◌then◌else◌, Result, ok, err,
}
use wincred_libsecret_wsl_pl.Prelude.Exec.{
  match_option, match_result, pure, raise, lift, outcome, ◌>>=◌, ◌>>◌,
}
use wincred_libsecret_wsl_pl.Prelude.Order.{text_ord}
use wincred_libsecret_wsl_pl.Prelude.OrdMap.{get}
use wincred_libsecret_wsl_pl.Protocol.Errors.{BrokerError, ErrorCode, broker_error}
use wincred_libsecret_wsl_pl.Protocol.Model.{
  Uuid, Blob, Attributes, SecretBytes, ItemMetadata, new_secret, validate_attributes,
}
use wincred_libsecret_wsl_pl.Protocol.Message.{ResponseBody}
use wincred_libsecret_wsl_pl.Protocol.Target.{TargetName}
use wincred_libsecret_wsl_pl.Protocol.Vault.{CommitStep, GenerationCommit, steps}
use wincred_libsecret_wsl_pl.Broker.Backend.{VaultBackend, Action}
use wincred_libsecret_wsl_pl.Broker.Metadata.{
  Deps, not_found, already_exists, corrupt_state, invalid_request, encode_metadata, decode_metadata,
  validate_item,
}
use wincred_libsecret_wsl_pl.Broker.Entries.{Entry, entries, valid_items}
use wincred_libsecret_wsl_pl.Broker.Collections.{
  some_or, secret_of, get_collection, require_collection, write_metadata, delete_item_from_entries,
}
use wincred_libsecret_wsl_pl.Prelude.Results.{map_err}

abbrev pub max_u64 : ℕ
max_u64 = 2 ^ 64 - 1

-- `u64::saturating_add(1)`
abbrev pub saturating_suc : ℕ → ℕ
saturating_suc n = if ltb n max_u64 then n + 1 else max_u64

-- The derived `==` of two attribute maps.
abbrev pub attributes_eq : Attributes → Attributes → Bool
attributes_eq [] [] = true
attributes_eq [] (y ∷ ys) = false
attributes_eq (x ∷ xs) [] = false
attributes_eq ((k, v) ∷ xs) ((j, w) ∷ ys) = text_eq k j && text_eq v w && attributes_eq xs ys

-- `item.attributes.get(key) == Some(value)`
abbrev pub has_attribute : Attributes → Text × Text → Bool
has_attribute attributes (key, value) = elim (get key attributes) [
  | none ↦ false
  | some v ↦ text_eq v value
]

abbrev pub matches : Attributes → ItemMetadata → Bool
matches query item = every (has_attribute item.attributes) query

-- The items that a replacement removes.
abbrev pub replaces : ItemMetadata → ItemMetadata → Bool
replaces item existing =
    existing.collection_id == item.collection_id
    && attributes_eq existing.attributes item.attributes

abbrev pub item_ids : List ItemMetadata → List Uuid
item_ids = map (λ (i : ItemMetadata). i.id)

-- The item of an update, with the times that `update_item` gives it.
abbrev pub renew : ItemMetadata → ItemMetadata → ItemMetadata
renew existing given = record given {
  created = existing.created;
  modified = max given.modified (saturating_suc existing.modified);
}

-- `if let CommitStep::DeleteSecret(target) = step`
unfoldable pub deleted_by : CommitStep → Option TargetName
deleted_by s = elim s [ CommitStep.delete_secret target ↦ some target | _ ↦ none ]

module _ {S : Type 0} (b : VaultBackend S) where
  -- The loop over `commit.steps()`: only deletions are left, and their failures are put off.
  unfoldable pub clean_up : List CommitStep → Action S (Unit {0})
  clean_up [] = pure tt
  clean_up (s ∷ rest) =
      let later = clean_up rest in
      match_option (deleted_by s) later λ target. do outcome (b.delete target); later

  -- The loop of `delete_replaced_item`: a secret that cannot be deleted is put off.
  unfoldable pub try_delete_secrets : Uuid → List Entry → Action S (Unit {0})
  try_delete_secrets id [] = pure tt
  try_delete_secrets id (e ∷ es) =
      let rest = try_delete_secrets id es in
      match_option (secret_of id e) rest λ target. do outcome (b.delete target); rest

  unfoldable pub delete_replaced_item : Uuid → List Entry → Action S (Unit {0})
  delete_replaced_item id es = do b.delete (TargetName.item_metadata id); try_delete_secrets id es

  -- The loop of `create_or_replace_item`: what was deleted, and what could not be.
  unfoldable pub delete_replaced :
      List Uuid → List Entry → List Uuid → List Uuid → Action S (List Uuid × List Uuid)
  delete_replaced [] es deleted failed = pure (deleted, failed)
  delete_replaced (id ∷ ids) es deleted failed = do
    r ← outcome (delete_replaced_item id es)
    match_result r (λ _. delete_replaced ids es deleted (failed ++ (id ∷ [])))
        (λ _. delete_replaced ids es (deleted ++ (id ∷ [])) failed)

module _ (d : Deps) {S : Type 0} (b : VaultBackend S) where
  unfoldable pub commit_new_generation :
      ItemMetadata → Option Uuid → SecretBytes → Action S (Unit {0})
  commit_new_generation item previous_generation secret = do
    let commit : GenerationCommit = record {
      item_id = item.id;
      new_generation = item.current_generation;
      previous_generation = previous_generation;
    }
    let secret_target = TargetName.item_secret item.id item.current_generation
    metadata ← lift (encode_metadata d.items item)
    b.write secret_target secret.bytes
    metadata_write ← outcome (b.write (TargetName.item_metadata item.id) metadata)
    match_result metadata_write (λ error. do outcome (b.delete secret_target); raise error)
        (λ _. clean_up b (steps commit))

  unfoldable pub get_item_metadata : Uuid → Action S ItemMetadata
  get_item_metadata id = do
    found ← b.read (TargetName.item_metadata id)
    blob ← some_or found (not_found (codes "item does not exist"))
    item ← lift (decode_metadata d.items blob)
    if item.id == id
        then (do lift (validate_item item); pure item)
        else raise (corrupt_state (codes "item metadata identity does not match target"))

  unfoldable pub search_items : Attributes → Action S ResponseBody
  search_items attributes = do
    lift (map_err invalid_request (validate_attributes attributes))
    items ← valid_items d b
    pure (ResponseBody.items (keep (matches attributes) items))

  unfoldable pub list_items : Uuid → Action S ResponseBody
  list_items collection_id = do
    get_collection d b collection_id
    items ← valid_items d b
    pure (ResponseBody.items (keep (λ i. i.collection_id == collection_id) items))

  unfoldable pub get_item : Uuid → Bool → Action S ResponseBody
  get_item id include_secret = do
    item ← get_item_metadata id
    if include_secret
        then (do
          found ← b.read (TargetName.item_secret id item.current_generation)
          blob ← some_or found (corrupt_state (codes "item metadata references a missing secret"))
          secret ← lift (map_err invalid_request (new_secret blob))
          pure (ResponseBody.item item (some secret)))
        else pure (ResponseBody.item item none)

  -- The checks that both ways to create an item begin with.
  unfoldable pub check_new_item : ItemMetadata → Action S (Unit {0})
  check_new_item item = do
    lift (validate_item item)
    require_collection d b item.collection_id
    existing ← b.read (TargetName.item_metadata item.id)
    if is_some existing then raise (already_exists (codes "item already exists")) else pure tt

  unfoldable pub create_item : ItemMetadata → SecretBytes → Action S ResponseBody
  create_item item secret = do
    check_new_item item
    commit_new_generation item none secret
    pure (ResponseBody.item item none)

  unfoldable pub replaced_by : ItemMetadata → Bool → Action S (List Uuid)
  replaced_by item false = pure []
  replaced_by item true = do items ← valid_items d b; pure (item_ids (keep (replaces item) items))

  unfoldable pub create_or_replace_item : ItemMetadata → SecretBytes → Bool → Action S ResponseBody
  create_or_replace_item item secret replace = do
    check_new_item item
    replaced_item_ids ← replaced_by item replace
    commit_new_generation item none secret
    es ← entries d b
    outcomes ← delete_replaced b replaced_item_ids es [] []
    pure (ResponseBody.replaced_item item outcomes.0 outcomes.1)

  -- What `update_item` writes, once the times of the item are set.
  unfoldable pub write_update :
      ItemMetadata → ItemMetadata → Option SecretBytes → Action S ResponseBody
  write_update existing item none = do
    let kept = record item { current_generation = existing.current_generation }
    write_metadata b d.items (TargetName.item_metadata kept.id) kept
    pure (ResponseBody.item kept none)
  write_update existing item (some secret) =
      if item.current_generation == existing.current_generation
      then raise (
          broker_error ErrorCode.conflict
            (codes "item update with a secret requires a new generation"))
      else do
        commit_new_generation item (some existing.current_generation) secret
        pure (ResponseBody.item item none)

  unfoldable pub update_item : ItemMetadata → Option SecretBytes → Action S ResponseBody
  update_item given secret = do
    existing ← get_item_metadata given.id
    lift (validate_item given)
    require_collection d b given.collection_id
    write_update existing (renew existing given) secret

  unfoldable pub update_item_cas : ItemMetadata → Option SecretBytes → ℕ → Action S ResponseBody
  update_item_cas item secret expected_modified = do
    existing ← get_item_metadata item.id
    if existing.modified == expected_modified
        then update_item item secret
        else raise (broker_error ErrorCode.conflict (codes "item was modified by another provider"))

  unfoldable pub delete_item : Uuid → Action S ResponseBody
  delete_item id = do
    get_item_metadata id
    es ← entries d b
    delete_item_from_entries b id es
    pure ResponseBody.empty
