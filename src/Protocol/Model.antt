-- ===== src/Protocol/Model.antt =====
-- crates/protocol/src/model.rs: secrets and metadata, and the validation of metadata fields.
-- A `Uuid` is its 128-bit value, by which the `uuid` crate compares and tests for nil.
use wincred_libsecret_wsl_pl.Prelude.{
  ℕ, ◌*◌, Bool, true, false, not, ◌&&◌, List, [], ◌∷◌, ◌++◌, Text, codes, length, contains_byte,
  ltb, if◌then◌else◌, ok, err, ◌==◌, Result,
}
use wincred_libsecret_wsl_pl.Prelude.Results.{◌>>◌}
use wincred_libsecret_wsl_pl.Prelude.OrdMap.{OrdMap}
use wincred_libsecret_wsl_pl.Protocol.Errors.{ProtocolError, invalid_metadata, show_nat}

abbrev pub Uuid : Type 0
Uuid = ℕ

abbrev pub is_nil : Uuid → Bool
is_nil u = u == 0

-- The bytes of a credential.
abbrev pub Blob : Type 0
Blob = List ℕ

abbrev pub max_secret_bytes : ℕ
max_secret_bytes = 5 * 512

abbrev pub max_metadata_bytes : ℕ
max_metadata_bytes = max_secret_bytes

abbrev pub max_label_bytes : ℕ
max_label_bytes = 1024

abbrev pub max_alias_bytes : ℕ
max_alias_bytes = 255

abbrev pub max_attribute_count : ℕ
max_attribute_count = 64

abbrev pub max_attribute_key_bytes : ℕ
max_attribute_key_bytes = 255

abbrev pub max_attribute_value_bytes : ℕ
max_attribute_value_bytes = 1024

abbrev pub max_content_type_bytes : ℕ
max_content_type_bytes = 255

pub record SecretBytes : Type 0 where
  pub bytes : Blob

-- `SecretBytes::new`, the only way to make one.
unfoldable pub new_secret : Blob → Result ProtocolError SecretBytes
new_secret value =
    if ltb max_secret_bytes (length value)
    then err (
        invalid_metadata (
          codes "secret is "
          ++ (show_nat (length value)
              ++ (codes " bytes; maximum is " ++ show_nat max_secret_bytes))))
    else ok (record { bytes = value })

-- `expose` and `into_inner`.
abbrev pub expose : SecretBytes → Blob
expose s = s.bytes

abbrev pub Attributes : Type 0
Attributes = OrdMap Text Text

pub record CollectionMetadata : Type 0 where
  pub schema_version : ℕ
  pub id : Uuid
  pub label : Text
  pub created : ℕ
  pub modified : ℕ

pub record ItemMetadata : Type 0 where
  pub schema_version : ℕ
  pub id : Uuid
  pub collection_id : Uuid
  pub label : Text
  pub attributes : Attributes
  pub content_type : Text
  pub created : ℕ
  pub modified : ℕ
  pub current_generation : Uuid

pub record AliasMetadata : Type 0 where
  pub schema_version : ℕ
  pub name : Text
  pub collection_id : Uuid

-- The field's name is only written into messages.
unfoldable pub validate_text : Text → Text → ℕ → Bool → Result ProtocolError (Unit {0})
validate_text field value maximum allow_empty =
    if not allow_empty && length value == 0
    then err (invalid_metadata (field ++ codes " cannot be empty"))
    else if ltb maximum (length value)
    then err (
        invalid_metadata (
          field
          ++ (codes " is "
              ++ (show_nat (length value) ++ (codes " bytes; maximum is " ++ show_nat maximum)))))
    else if contains_byte 0 value
    then err (invalid_metadata (field ++ codes " contains a NUL byte"))
    else ok tt

unfoldable pub validate_label : Text → Result ProtocolError (Unit {0})
unfolding validate_text
validate_label label = validate_text (codes "label") label max_label_bytes false

unfoldable pub validate_alias_name : Text → Result ProtocolError (Unit {0})
unfolding validate_text
validate_alias_name name = validate_text (codes "alias name") name max_alias_bytes false

unfoldable pub validate_content_type : Text → Result ProtocolError (Unit {0})
unfolding validate_text
validate_content_type content_type =
    validate_text (codes "content type") content_type max_content_type_bytes false

-- The loop over the entries.
unfoldable pub validate_entries : Attributes → Result ProtocolError (Unit {0})
unfolding validate_text
validate_entries [] = ok tt
validate_entries ((key, value) ∷ rest) = do
  validate_text (codes "attribute key") key max_attribute_key_bytes false
  validate_text (codes "attribute value") value max_attribute_value_bytes true
  validate_entries rest

unfoldable pub validate_attributes : Attributes → Result ProtocolError (Unit {0})
unfolding validate_entries
validate_attributes attributes =
    if ltb max_attribute_count (length attributes)
    then err (
        invalid_metadata (
          codes "attribute count "
          ++ (show_nat (length attributes) ++ (codes " exceeds " ++ show_nat max_attribute_count))))
    else validate_entries attributes
