-- ===== src/Tests/Sessions.antt =====
-- Runs of the provider of crates/provider on concrete inputs: its sessions, its client in memory and its
-- objects on a bus that refuses every new object.
use wincred_libsecret_wsl_pl.Prelude.{
  ℕ, suc, ◌≡◌, ◌↔◌, refl, arith, Bool, true, false, Option, none, some, List, [], ◌∷◌, ◌++◌, In,
  Text, codes, ok, err,
}
use wincred_libsecret_wsl_pl.Prelude.Results.{is_ok}
use wincred_libsecret_wsl_pl.Prelude.Order.{nat_ord, text_ord}
use wincred_libsecret_wsl_pl.Prelude.OrdMap.{get}
use wincred_libsecret_wsl_pl.Protocol.Frame.{Bytes}
use wincred_libsecret_wsl_pl.Protocol.Model.{Uuid, SecretBytes, AliasMetadata}
use wincred_libsecret_wsl_pl.Protocol.Message.{Operation}
use wincred_libsecret_wsl_pl.Broker.Samples.{sample_collection, sample_item, sample_secret}
use wincred_libsecret_wsl_pl.Tests.Crypto.{toy_lib, toy_lib-IsSound, toy_key}
use wincred_libsecret_wsl_pl.Tests.Wire.{hex_crates, five_IsSimple}
use wincred_libsecret_wsl_pl.Provider.Errors.{SecretServiceError, invalid_session}
use wincred_libsecret_wsl_pl.Provider.Paths.{session_path, item_path, session_id}
use wincred_libsecret_wsl_pl.Provider.Crypto.{SessionKey, plain, dh, replicate}
use wincred_libsecret_wsl_pl.Provider.Double
use wincred_libsecret_wsl_pl.Provider.Double.{MemoryState}
use wincred_libsecret_wsl_pl.Provider.Double.Consistent.{IsConsistent, call-IsConsistent}
use wincred_libsecret_wsl_pl.Provider.Service.{item}
use wincred_libsecret_wsl_pl.Provider.Service.Stored.{item-create_item, creation, made}
use wincred_libsecret_wsl_pl.Provider.Sessions.{
  Sessions, SessionRecord, DbusSecret, OwnedValue, plain_algorithm, insert_session, close_session,
  remove_owner, encode_secret, decode_secret,
}
use wincred_libsecret_wsl_pl.Provider.Sessions.Secrets.{decode_secret-encode_secret}
use wincred_libsecret_wsl_pl.Provider.Sessions.History.{
  Event, opened, closed, departed, table_after, open_after, get-table_after,
}
use wincred_libsecret_wsl_pl.Provider.Bus.{Bus, World}
use wincred_libsecret_wsl_pl.Provider.Bus.Beside.{beside_call, beside_bus}
use wincred_libsecret_wsl_pl.Provider.Bus.Collection
use wincred_libsecret_wsl_pl.Provider.Bus.Service.{create_collection}
use wincred_libsecret_wsl_pl.Provider.Bus.Service.Rollback.{create_collection-refused}
use wincred_libsecret_wsl_pl.Provider.Bus.Item.{get_secret, set_secret}
use wincred_libsecret_wsl_pl.Provider.Bus.Item.Secret.{get_secret-set_secret}
use wincred_libsecret_wsl_pl.Provider.Bus.Foreign.{session_methods-foreign}

abbrev pub caller : Text
caller = 53 ∷ []

abbrev pub stranger : Text
stranger = 57 ∷ []

abbrev pub key_session : SessionRecord
key_session = record { owner = caller; key = dh toy_key }

abbrev pub table : Sessions
table = (5, key_session) ∷ []

abbrev pub random_iv : Option Bytes
random_iv = some (replicate 16 1)

abbrev pub sent_secret : DbusSecret
sent_secret = record {
  session = session_path hex_crates 5;
  parameters = replicate 16 1;
  value = 0 ∷ sample_secret.bytes;
  content_type = sample_item.content_type;
}

decode_secret-encode_secret_example :
    (sent : DbusSecret) × (encode_secret hex_crates toy_lib caller 5 sample_secret
        sample_item.content_type
        (some (replicate 16 1))
        table
      ≡ ok sent)
    × (decode_secret hex_crates toy_lib caller sent table
        ≡ ok (5, sample_secret, sample_item.content_type))
unfolding get
decode_secret-encode_secret_example =
    decode_secret-encode_secret hex_crates toy_lib toy_lib-IsSound table 5 key_session sample_secret
      sample_item.content_type (replicate 16 1) five_IsSimple refl refl (omega arith) refl

pub table-foreign : (r : SessionRecord) → get 5 table ≡ some r → ¬ (r.owner ≡ stranger)
unfolding get
table-foreign r h e = ground arith

abbrev session_events : List Event
session_events = closed 5 stranger ∷ departed stranger ∷ opened 5 caller plain ∷ []

get-table_after_example : get 5 (table_after session_events) ≡ open_after session_events 5
get-table_after_example = get-table_after session_events 5

abbrev pub named : Uuid → AliasMetadata
named id = record { schema_version = 1; name = codes "default"; collection_id = id }

abbrev pub double : MemoryState
double = record {
  collections = (7, sample_collection) ∷ [];
  items = (5, (sample_item, sample_secret)) ∷ [];
  aliases = (codes "default", named 7) ∷ [];
}

pub double-IsConsistent : IsConsistent double
unfolding get
double-IsConsistent = ((refl, tt), ((refl, refl), tt), ((refl, refl), tt))

call-IsConsistent_example : IsConsistent (Double.call (Operation.delete_collection 7) double).1
call-IsConsistent_example =
    call-IsConsistent (Operation.delete_collection 7) double double-IsConsistent tt

item-create_item_example :
    item Double.call 6 true
      (creation 7 (codes "a") [] (codes "text/plain") sample_secret true 3 6 9 double).1
    ≡ (
      ok (made 7 (codes "a") [] (codes "text/plain") sample_secret true 3 6 9, some sample_secret),
      (creation 7 (codes "a") [] (codes "text/plain") sample_secret true 3 6 9 double).1,
    )
unfolding wincred_libsecret_wsl_pl.Provider.Service.create_item
    wincred_libsecret_wsl_pl.Prelude.Exec.◌>>=◌ wincred_libsecret_wsl_pl.Provider.Service.check
    wincred_libsecret_wsl_pl.Protocol.Model.validate_label
    wincred_libsecret_wsl_pl.Protocol.Model.validate_attributes
    wincred_libsecret_wsl_pl.Protocol.Model.validate_content_type
    wincred_libsecret_wsl_pl.Provider.Service.ask Double.call get
item-create_item_example =
    item-create_item 7 (codes "a") [] (codes "text/plain") sample_secret true 3 6 9 double _ _ _
      double-IsConsistent refl

abbrev pub refusing : Bus ℕ
refusing = record {
  at = λ path object n. (err (codes "refused"), n);
  remove = λ interface path n. (ok false, n);
  emit = λ path signal n. (ok tt, suc n);
}

abbrev pub world : World (MemoryState × ℕ)
world = record { sessions = table; outside = (double, 0) }

create_collection-refused_example :
    (is_ok
        (create_collection hex_crates toy_lib beside_call
          (beside_bus refusing)
          []
          (codes "default")
          3
          8
          world).0
      ≡ false)
    × ((create_collection hex_crates toy_lib beside_call
          (beside_bus refusing)
          []
          (codes "default")
          3
          8
          world).1.outside.0
        ≡ double)
unfolding get
create_collection-refused_example =
    create_collection-refused hex_crates toy_lib refusing [] (codes "default") 3 8 world
      (codes "refused") double-IsConsistent refl refl

session_methods-foreign_example :
    (is_ok
        (get_secret hex_crates toy_lib beside_call
          (beside_bus refusing)
          5
          (session_path hex_crates 5)
          (some stranger)
          random_iv
          world).0
      ≡ false)
    × (set_secret hex_crates toy_lib beside_call
          (beside_bus refusing)
          5
          (item_path hex_crates 5)
          sent_secret
          (some stranger)
          3
          9
          world
        ≡ (err (SecretServiceError.no_such_session (codes "unknown or expired session")), world))
    × (is_ok
          (Collection.create_item hex_crates toy_lib beside_call
            (beside_bus refusing)
            5
            (item_path hex_crates 5)
            []
            sent_secret
            true
            (some stranger)
            3
            6
            9
            world).0
        ≡ false)
    × ((Collection.create_item hex_crates toy_lib beside_call
          (beside_bus refusing)
          5
          (item_path hex_crates 5)
          []
          sent_secret
          true
          (some stranger)
          3
          6
          9
          world).1
        ≡ world)
unfolding session_id session_path
session_methods-foreign_example =
    session_methods-foreign hex_crates toy_lib beside_call (beside_bus refusing) 5 world
      (item_path hex_crates 5) stranger (session_path hex_crates 5) [] sent_secret true 3 6 9 5
      random_iv refl refl table-foreign

abbrev pub set_world : World (MemoryState × ℕ)
set_world =
    (set_secret hex_crates toy_lib beside_call (beside_bus refusing) 5 (item_path hex_crates 5)
      sent_secret (some caller) 3 9 world).1

get_secret-set_secret_example :
    (j : Uuid) × (secret : SecretBytes) × (t : Text) × (out : DbusSecret) × (decode_secret
        hex_crates toy_lib caller sent_secret table
      ≡ ok (j, secret, t))
    × ((get_secret hex_crates toy_lib beside_call
          (beside_bus refusing)
          5
          (session_path hex_crates 5)
          (some caller)
          (some (replicate 16 1))
          set_world).0
        ≡ ok out)
    × (decode_secret hex_crates toy_lib caller out table ≡ ok (5, secret, t))
unfolding session_id session_path get set_secret wincred_libsecret_wsl_pl.Prelude.Exec.◌>>=◌
    wincred_libsecret_wsl_pl.Provider.Bus.owner wincred_libsecret_wsl_pl.Provider.Bus.of_sessions
    decode_secret wincred_libsecret_wsl_pl.Provider.Sessions.own_session
    wincred_libsecret_wsl_pl.Provider.Crypto.decrypt
    wincred_libsecret_wsl_pl.Tests.Crypto.unwrap_block
    wincred_libsecret_wsl_pl.Protocol.Model.new_secret
    wincred_libsecret_wsl_pl.Provider.Bus.ask_provider item
    wincred_libsecret_wsl_pl.Provider.Service.ask Double.call
    wincred_libsecret_wsl_pl.Provider.Service.update_item wincred_libsecret_wsl_pl.Prelude.Exec.lift
    wincred_libsecret_wsl_pl.Prelude.Exec.pure wincred_libsecret_wsl_pl.Prelude.OrdMap.insert
    wincred_libsecret_wsl_pl.Prelude.OrdMap.place wincred_libsecret_wsl_pl.Prelude.OrdMap.remove
    wincred_libsecret_wsl_pl.Prelude.OrdMap.replace wincred_libsecret_wsl_pl.Prelude.Order.cmp_text
    wincred_libsecret_wsl_pl.Protocol.Errors.digits
    wincred_libsecret_wsl_pl.Protocol.Errors.show_nat
    wincred_libsecret_wsl_pl.Protocol.Errors.to_string
    wincred_libsecret_wsl_pl.Protocol.Model.validate_attributes
    wincred_libsecret_wsl_pl.Protocol.Model.validate_content_type
    wincred_libsecret_wsl_pl.Protocol.Model.validate_entries
    wincred_libsecret_wsl_pl.Protocol.Model.validate_label
    wincred_libsecret_wsl_pl.Protocol.Model.validate_text
    wincred_libsecret_wsl_pl.Provider.Bus.or_failed wincred_libsecret_wsl_pl.Provider.Bus.outside
    wincred_libsecret_wsl_pl.Provider.Crypto.checked_iv Double.create_collection Double.create_item
    Double.create_or_replace_item Double.delete_collection Double.delete_item Double.get_collection
    Double.get_item Double.list_items Double.remove_alias Double.remove_items Double.set_alias
    Double.update_collection Double.update_item Double.update_item_cas
    wincred_libsecret_wsl_pl.Provider.Errors.of_broker
    wincred_libsecret_wsl_pl.Provider.Errors.of_protocol
    wincred_libsecret_wsl_pl.Provider.Errors.of_provider
    wincred_libsecret_wsl_pl.Provider.Paths.collection_path item_path
    wincred_libsecret_wsl_pl.Provider.Paths.parse
    wincred_libsecret_wsl_pl.Provider.Paths.parse_value
    wincred_libsecret_wsl_pl.Provider.Service.check get_secret encode_secret
    wincred_libsecret_wsl_pl.Provider.Sessions.session_parameters
    wincred_libsecret_wsl_pl.Provider.Crypto.encrypt
get_secret-set_secret_example =
    get_secret-set_secret hex_crates toy_lib refusing 5 toy_lib-IsSound world
      (item_path hex_crates 5) caller (session_path hex_crates 5) sent_secret 3 9 5 key_session
      (replicate 16 1) double-IsConsistent refl five_IsSimple refl refl refl refl
