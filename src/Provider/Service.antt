-- ===== src/Provider/Service.antt =====
-- The methods of `Provider` in crates/provider/src/service.rs that call the broker. The client is a
-- parameter; the time and the new identifiers, which the code draws on the way, are arguments.
pub mod Aliases
pub mod Answers
pub mod Stored
use wincred_libsecret_wsl_pl.Prelude.{ℕ, Bool, Option, none, some, List, Text, Result, ok, err}
use wincred_libsecret_wsl_pl.Prelude.Results.{map_err}
use wincred_libsecret_wsl_pl.Prelude.Exec.{Exec, pure, lift, ◌>>=◌, ◌>>◌}
use wincred_libsecret_wsl_pl.Protocol.Errors.{ProtocolError}
use wincred_libsecret_wsl_pl.Protocol.Model.{
  Uuid, Attributes, SecretBytes, CollectionMetadata, ItemMetadata, AliasMetadata, validate_label,
  validate_attributes, validate_content_type, validate_alias_name,
}
use wincred_libsecret_wsl_pl.Protocol.Message.{Operation, ResponseBody}
use wincred_libsecret_wsl_pl.Provider.Errors.{ProviderError, transport, of_protocol}

-- The trait `BrokerClient`.
abbrev pub BrokerClient : Type 0 → Type 0
BrokerClient W = Operation → Exec W ProviderError ResponseBody

-- The answers that the methods take, and the failure for every other one.
abbrev pub as_collections : ResponseBody → Result ProviderError (List CollectionMetadata)
as_collections (ResponseBody.collections cs) = ok cs
as_collections _ = err transport

abbrev pub as_collection : ResponseBody → Result ProviderError CollectionMetadata
as_collection (ResponseBody.collection c) = ok c
as_collection _ = err transport

abbrev pub as_items : ResponseBody → Result ProviderError (List ItemMetadata)
as_items (ResponseBody.items is) = ok is
as_items _ = err transport

abbrev pub as_item : ResponseBody → Result ProviderError (ItemMetadata × Option SecretBytes)
as_item (ResponseBody.item i secret) = ok (i, secret)
as_item _ = err transport

abbrev pub as_replaced : ResponseBody → Result ProviderError (ItemMetadata × List Uuid × List Uuid)
as_replaced (ResponseBody.replaced_item i replaced failed) = ok (i, replaced, failed)
as_replaced _ = err transport

abbrev pub as_empty : ResponseBody → Result ProviderError (Unit {0})
as_empty ResponseBody.empty = ok tt
as_empty _ = err transport

abbrev pub as_alias : ResponseBody → Result ProviderError (Option AliasMetadata)
as_alias (ResponseBody.alias a) = ok a
as_alias _ = err transport

abbrev pub as_aliases : ResponseBody → Result ProviderError (List AliasMetadata)
as_aliases (ResponseBody.aliases as') = ok as'
as_aliases _ = err transport

-- `matches!(response, Empty | Alias(Some(_)))`
abbrev pub as_alias_change : ResponseBody → Result ProviderError (Unit {0})
as_alias_change ResponseBody.empty = ok tt
as_alias_change (ResponseBody.alias (some _)) = ok tt
as_alias_change _ = err transport

-- The item that an update sends: a new secret comes with a new generation.
abbrev pub updated : ItemMetadata → Option SecretBytes → ℕ → Uuid → ItemMetadata
updated given none timestamp generation = record given { modified = timestamp }
updated given (some secret) timestamp generation = record given {
  modified = timestamp;
  current_generation = generation;
}

abbrev pub alias_change : Text → Option Uuid → Operation
alias_change name none = Operation.remove_alias name
alias_change name (some id) =
    Operation.set_alias (record { schema_version = 1; name = name; collection_id = id })

module _ {W : Type 0} where
  -- `?` on a validation.
  unfoldable pub check : Result ProtocolError (Unit {0}) → Exec W ProviderError (Unit {0})
  unfolding of_protocol
  check r = lift (map_err of_protocol r)

module _ {W : Type 0} (call : BrokerClient W) where
  -- `response`, and the match on it.
  unfoldable pub ask :
      {A : Type 0} → (ResponseBody → Result ProviderError A) → Operation → Exec W ProviderError A
  ask take op = do body ← call op; lift (take body)

  unfoldable pub collections : Exec W ProviderError (List CollectionMetadata)
  collections = ask as_collections Operation.list_collections

  unfoldable pub collection : Uuid → Exec W ProviderError CollectionMetadata
  collection id = ask as_collection (Operation.get_collection id)

  unfoldable pub items : Uuid → Exec W ProviderError (List ItemMetadata)
  items id = ask as_items (Operation.list_items id)

  unfoldable pub item : Uuid → Bool → Exec W ProviderError (ItemMetadata × Option SecretBytes)
  item id include_secret = ask as_item (Operation.get_item id include_secret)

  unfoldable pub create_collection : Text → ℕ → Uuid → Exec W ProviderError CollectionMetadata
  create_collection label timestamp id = do
    check (validate_label label)
    ask as_collection (
        Operation.create_collection (record {
          schema_version = 1;
          id = id;
          label = label;
          created = timestamp;
          modified = timestamp;
        }))

  unfoldable pub update_collection_label : Uuid → Text → ℕ → Exec W ProviderError (Unit {0})
  update_collection_label id label timestamp = do
    check (validate_label label)
    found ← collection id
    ask as_collection
        (Operation.update_collection (record found { label = label; modified = timestamp }))
    pure tt

  unfoldable pub delete_collection : Uuid → Exec W ProviderError (Unit {0})
  delete_collection id = ask as_empty (Operation.delete_collection id)

  -- The item, the ids of the replaced ones and of those whose secrets are left.
  unfoldable pub create_item :
      Uuid
      → Text
      → Attributes
      → Text
      → SecretBytes
      → Bool
      → ℕ
      → Uuid
      → Uuid
      → Exec W ProviderError (ItemMetadata × List Uuid × List Uuid)
  create_item collection_id label attributes content_type secret replace timestamp id generation =
      do
        check (validate_label label)
        check (validate_attributes attributes)
        check (validate_content_type content_type)
        ask as_replaced (
            Operation.create_or_replace_item
              (record {
                schema_version = 1;
                id = id;
                collection_id = collection_id;
                label = label;
                attributes = attributes;
                content_type = content_type;
                created = timestamp;
                modified = timestamp;
                current_generation = generation;
              })
              secret replace)

  unfoldable pub update_item :
      ItemMetadata → Option SecretBytes → ℕ → Uuid → Exec W ProviderError ItemMetadata
  update_item given secret timestamp generation = do
    check (validate_label given.label)
    check (validate_attributes given.attributes)
    check (validate_content_type given.content_type)
    answer ← ask as_item (
        Operation.update_item_cas (updated given secret timestamp generation) secret given.modified)
    pure answer.0

  unfoldable pub delete_item : Uuid → Exec W ProviderError (Unit {0})
  delete_item id = ask as_empty (Operation.delete_item id)

  unfoldable pub resolve_alias : Text → Exec W ProviderError (Option AliasMetadata)
  resolve_alias name = ask as_alias (Operation.resolve_alias name)

  unfoldable pub set_alias : Text → Option Uuid → Exec W ProviderError (Unit {0})
  set_alias name collection_id = do
    check (validate_alias_name name)
    ask as_alias_change (alias_change name collection_id)

  unfoldable pub search : Attributes → Exec W ProviderError (List ItemMetadata)
  search attributes = do
    check (validate_attributes attributes)
    ask as_items (Operation.search_items attributes)
