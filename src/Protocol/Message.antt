-- ===== src/Protocol/Message.antt =====
-- crates/protocol/src/message.rs: the messages, and the negotiation of a version.
pub mod Negotiation
use wincred_libsecret_wsl_pl.Prelude.{
  ◌≡◌, ap, arith, ℕ, max, min, Bool, ◌&&◌, List, [], ◌∷◌, Option, Text, ltb, leb, ◌==◌, keep,
  if◌then◌else◌, Result, ok, err,
}
use wincred_libsecret_wsl_pl.Prelude.Order.{Ord, nat_ord}
use wincred_libsecret_wsl_pl.Prelude.OrdMap.{OrdSet, contains, add}
use wincred_libsecret_wsl_pl.Protocol.Errors.{
  BrokerError, ProtocolError, no_common_version, unsupported_version,
}
use wincred_libsecret_wsl_pl.Protocol.Model.{
  Uuid, Attributes, SecretBytes, CollectionMetadata, ItemMetadata, AliasMetadata,
}

abbrev pub protocol_version : ℕ
protocol_version = 1

pub record VersionRange : Type 0 where
  pub minimum : ℕ
  pub maximum : ℕ

-- `VersionRange::current`.
abbrev pub current_versions : VersionRange
current_versions = record { minimum = protocol_version; maximum = protocol_version }

-- `VersionRange::contains`.
unfoldable pub in_range : VersionRange → ℕ → Bool
in_range r version = leb r.minimum version && leb version r.maximum

pub data Capability : Type 0 where
  binary_secrets collections aliases generation_commits reconciliation : Capability
  atomic_item_mutations : Capability

-- The derived `Ord` follows the order of the constructors.
abbrev pub rank : Capability → ℕ
rank binary_secrets = 0
rank collections = 1
rank aliases = 2
rank generation_commits = 3
rank reconciliation = 4
rank atomic_item_mutations = 5

pub rank-injective : (a b : Capability) → rank a ≡ rank b → a ≡ b
rank-injective a b h = ground arith

instance abbrev pub capability_ord : Ord Capability
capability_ord = record {
  cmp = λ a b. nat_ord.cmp (rank a) (rank b);
  cmp_iff = λ a b. (
    λ h. rank-injective a b ((nat_ord.cmp_iff (rank a) (rank b)).0 h),
    λ e. (nat_ord.cmp_iff (rank a) (rank b)).1 (ap rank e),
  );
}

abbrev pub CapabilitySet : Type 0
CapabilitySet = OrdSet Capability

-- `[..].into_iter().collect()`
unfoldable pub collect_set : List Capability → CapabilitySet
collect_set [] = []
collect_set (c ∷ cs) = add c (collect_set cs)

pub record Hello : Type 0 where
  pub versions : VersionRange
  pub capabilities : CapabilitySet

pub record HelloAck : Type 0 where
  pub version : ℕ
  pub capabilities : CapabilitySet

-- `BTreeSet::intersection`.
abbrev pub intersection : CapabilitySet → CapabilitySet → CapabilitySet
intersection a b = keep (λ c. contains c b) a

unfoldable pub negotiate : Hello → VersionRange → CapabilitySet → Result ProtocolError HelloAck
negotiate client server_versions server_capabilities =
    let minimum = max client.versions.minimum server_versions.minimum in
    let maximum = min client.versions.maximum server_versions.maximum in
    if ltb maximum minimum
    then err no_common_version
    else ok (record {
      version = maximum;
      capabilities = intersection client.capabilities server_capabilities;
    })

pub record Envelope (T : Type 0) : Type 0 where
  pub version : ℕ
  pub payload : T

-- `Envelope::current`.
abbrev pub current : {T : Type 0} → T → Envelope T
current payload = record { version = protocol_version; payload = payload }

unfoldable pub validate_version : {T : Type 0} → Envelope T → Result ProtocolError (Unit {0})
validate_version e =
    if e.version == protocol_version then ok tt else err (unsupported_version e.version)

pub data Operation : Type 0 where
  ping list_collections : Operation
  get_collection : Uuid → Operation
  create_collection update_collection : CollectionMetadata → Operation
  delete_collection : Uuid → Operation
  list_aliases : Operation
  resolve_alias : Text → Operation
  set_alias : AliasMetadata → Operation
  remove_alias : Text → Operation
  search_items : Attributes → Operation
  list_items : Uuid → Operation
  get_item : Uuid → Bool → Operation
  create_item : ItemMetadata → SecretBytes → Operation
  create_or_replace_item : ItemMetadata → SecretBytes → Bool → Operation
  update_item : ItemMetadata → Option SecretBytes → Operation
  update_item_cas : ItemMetadata → Option SecretBytes → ℕ → Operation
  delete_item : Uuid → Operation
  reconcile : Operation

pub record Request : Type 0 where
  pub request_id : ℕ
  pub operation : Operation

pub data ResponseBody : Type 0 where
  pong empty : ResponseBody
  collection : CollectionMetadata → ResponseBody
  collections : List CollectionMetadata → ResponseBody
  aliases : List AliasMetadata → ResponseBody
  alias : Option AliasMetadata → ResponseBody
  item : ItemMetadata → Option SecretBytes → ResponseBody
  replaced_item : ItemMetadata → List Uuid → List Uuid → ResponseBody
  items : List ItemMetadata → ResponseBody
  reconciled : ℕ → List Uuid → ResponseBody

pub record Response : Type 0 where
  pub request_id : ℕ
  pub result : Result BrokerError ResponseBody
