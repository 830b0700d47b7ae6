-- ===== src/Broker/Metadata.antt =====
-- The free functions of crates/broker/src/service.rs: metadata as blobs, its validation, errors.
use wincred_libsecret_wsl_pl.Prelude.{
  ℕ, ◌&&◌, ◌||◌, Option, none, some, Text, codes, length, ltb, ◌==◌, text_eq, if◌then◌else◌, Result,
  ok, err,
}
use wincred_libsecret_wsl_pl.Prelude.Results.{◌>>◌, map_err, is_ok}
use wincred_libsecret_wsl_pl.Protocol.Errors.{
  ErrorCode, BrokerError, ProtocolError, broker_error, to_string, contains,
}
use wincred_libsecret_wsl_pl.Protocol.Model.{
  Uuid, Blob, is_nil, max_metadata_bytes, CollectionMetadata, ItemMetadata, AliasMetadata,
  validate_label, validate_alias_name as validate_protocol_alias_name, validate_attributes,
  validate_content_type,
}
use wincred_libsecret_wsl_pl.Protocol.Frame.{Codec}
use wincred_libsecret_wsl_pl.Protocol.Target.{Crates}

-- The crates that the broker calls.
pub record Deps : Type 0 where
  pub crates : Crates
  pub collections : Codec CollectionMetadata
  pub items : Codec ItemMetadata
  pub aliases : Codec AliasMetadata

abbrev pub metadata_schema_version : ℕ
metadata_schema_version = 1

abbrev pub Checked : Type 0 → Type 0
Checked A = Result BrokerError A

abbrev pub not_found : Text → BrokerError
not_found message = broker_error ErrorCode.not_found message

abbrev pub already_exists : Text → BrokerError
already_exists message = broker_error ErrorCode.already_exists message

abbrev pub corrupt_state : Text → BrokerError
corrupt_state message = broker_error ErrorCode.corrupt_state message

unfoldable pub invalid_request : ProtocolError → BrokerError
unfolding to_string
invalid_request error =
    broker_error
      (if contains (codes "secret") (to_string error)
        then ErrorCode.secret_too_large
        else ErrorCode.invalid_request)
      (codes "request metadata is invalid")

unfoldable pub validate_alias_name : Text → Checked (Unit {0})
unfolding validate_protocol_alias_name
validate_alias_name name =
    map_err (λ _. broker_error ErrorCode.invalid_request (codes "alias name is invalid"))
      (validate_protocol_alias_name name)

unfoldable pub validate_schema_version : ℕ → Checked (Unit {0})
validate_schema_version schema_version =
    if schema_version == metadata_schema_version
    then ok tt
    else err
        (broker_error ErrorCode.invalid_request (codes "metadata schema version is unsupported"))

unfoldable pub validate_collection : CollectionMetadata → Checked (Unit {0})
unfolding validate_schema_version invalid_request validate_label
validate_collection collection = do
  validate_schema_version collection.schema_version
  if is_nil collection.id
      then err
          (broker_error ErrorCode.invalid_request (codes "collection identifier cannot be nil"))
      else map_err invalid_request (validate_label collection.label)

unfoldable pub validate_item : ItemMetadata → Checked (Unit {0})
unfolding validate_schema_version invalid_request validate_label validate_attributes
    validate_content_type
validate_item item = do
  validate_schema_version item.schema_version
  if is_nil item.id || is_nil item.collection_id || is_nil item.current_generation
      then err (broker_error ErrorCode.invalid_request (codes "metadata identifiers cannot be nil"))
      else do
        map_err invalid_request (validate_label item.label)
        map_err invalid_request (validate_attributes item.attributes)
        map_err invalid_request (validate_content_type item.content_type)

unfoldable pub validate_alias : AliasMetadata → Checked (Unit {0})
unfolding validate_schema_version validate_alias_name
validate_alias alias = do
  validate_schema_version alias.schema_version
  validate_alias_name alias.name
  if is_nil alias.collection_id
      then err (
          broker_error ErrorCode.invalid_request
            (codes "alias collection identifier cannot be nil"))
      else ok tt

module _ {T : Type 0} (c : Codec T) where
  unfoldable pub encode_metadata : T → Checked Blob
  encode_metadata metadata = elim (c.into_writer metadata) [
    | err _ ↦ err (broker_error ErrorCode.invalid_request (codes "metadata cannot be encoded"))
    | ok encoded ↦
        if ltb max_metadata_bytes (length encoded)
        then err (
            broker_error ErrorCode.metadata_too_large
              (codes "metadata exceeds the credential blob limit"))
        else ok encoded
  ]

  unfoldable pub decode_metadata : Blob → Checked T
  decode_metadata blob =
      if ltb max_metadata_bytes (length blob)
      then err (corrupt_state (codes "metadata exceeds the credential blob limit"))
      else elim (c.from_reader blob) [
        | err _ ↦ err (corrupt_state (codes "metadata is malformed"))
        | ok (decoded, input) ↦
            if length input == 0
            then ok decoded
            else err (corrupt_state (codes "metadata has trailing data"))
      ]

-- The checks that the scans of the vault make of a credential before they use it.
module _ (d : Deps) where
  unfoldable pub valid_collection : Uuid → Blob → Option CollectionMetadata
  valid_collection id blob = elim (decode_metadata d.collections blob) [
    | err _ ↦ none
    | ok c ↦ if c.id == id && is_ok (validate_collection c) then some c else none
  ]

  unfoldable pub valid_item : Uuid → Blob → Option ItemMetadata
  valid_item id blob = elim (decode_metadata d.items blob) [
    | err _ ↦ none
    | ok i ↦ if i.id == id && is_ok (validate_item i) then some i else none
  ]

  unfoldable pub valid_alias : Text → Blob → Option AliasMetadata
  valid_alias name blob = elim (decode_metadata d.aliases blob) [
    | err _ ↦ none
    | ok a ↦ if text_eq a.name name && is_ok (validate_alias a) then some a else none
  ]
