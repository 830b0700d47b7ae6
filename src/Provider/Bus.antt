-- ===== src/Provider/Bus.antt =====
-- What the D-Bus objects of crates/provider/src/service.rs share: the state behind them, the calls of the
-- broker and of zbus, and the properties that clients send. zbus is the parameter `Bus`.
pub mod Beside
pub mod Foreign
pub mod Service
pub mod Collection
pub mod Item
pub mod Session
use wincred_libsecret_wsl_pl.Prelude.{
  Bool, true, false, Option, none, some, List, [], ◌∷◌, ◌++◌, Text, codes, Result, ok, err,
}
use wincred_libsecret_wsl_pl.Prelude.Results.{map_err}
use wincred_libsecret_wsl_pl.Prelude.Exec.{Exec, outcome, pure, ◌>>=◌, ◌>>◌}
use wincred_libsecret_wsl_pl.Prelude.Order.{text_ord}
use wincred_libsecret_wsl_pl.Prelude.OrdMap.{OrdMap, get, insert}
use wincred_libsecret_wsl_pl.Protocol.Model.{Uuid, Attributes}
use wincred_libsecret_wsl_pl.Provider.Errors.{
  ProviderError, SecretServiceError, invalid_request, of_provider,
}
use wincred_libsecret_wsl_pl.Provider.Sessions.{Sessions, OwnedValue, try_text}
use wincred_libsecret_wsl_pl.Provider.Service.{BrokerClient}

-- The objects that are registered; each holds the provider.
pub data Object : Type 0 where
  collection_object item_object session_object : Uuid → Object
  prompt_object : Object

-- The interface by which an object is taken off a path.
pub data Interface : Type 0 where
  collection_interface item_interface session_interface : Interface

pub data Signal : Type 0 where
  collection_created collection_deleted collection_changed : Text → Signal
  aliases_changed : Signal
  item_created item_deleted item_changed : Text → Signal
  secret_changed : Signal
  completed : Bool → OwnedValue → Signal

-- `ObjectServer::at` and `ObjectServer::remove`, and a signal from the object at a path. A failure is its
-- text; `at` and `remove` tell whether they changed anything.
pub record Bus (W : Type 0) : Type 0 where
  pub at : Text → Object → Exec W Text Bool
  pub remove : Interface → Text → Exec W Text Bool
  pub emit : Text → Signal → Exec W Text (Unit {0})

-- The shared table of sessions, and everything outside: the broker and the bus.
pub record World (W : Type 0) : Type 0 where
  pub sessions : Sessions
  pub outside : W

abbrev pub Method : Type 0 → Type 0 → Type 0
Method W A = Exec (World W) SecretServiceError A

-- `zbus::fdo::Error` of a property: from the provider's error, or from zbus.
pub data FdoError : Type 0 where
  of_service : SecretServiceError → FdoError
  of_zbus : Text → FdoError

abbrev pub Property : Type 0 → Type 0 → Type 0
Property W A = Exec (World W) FdoError A

abbrev pub failed : Text → SecretServiceError
failed message = SecretServiceError.failed message

module _ {W A : Type 0} where
  -- An outside action, with its failures turned into the method's.
  unfoldable pub outside : {E F : Type 0} → (E → F) → Exec W E A → Exec (World W) F A
  outside f m s = let (r, w) = m s.outside in (map_err f r, record s { outside = w })

  -- `.await.map_err(dbus)?`
  unfoldable pub ask_provider : Exec W ProviderError A → Method W A
  unfolding outside of_provider
  ask_provider m = outside of_provider m

  -- `.await.map_err(|_| Failed(message))?`
  unfoldable pub or_failed : Text → Exec W Text A → Method W A
  unfolding outside
  or_failed message m = outside (λ _. failed message) m

  -- The outcome of an action, for `if let Err(error)`.
  unfoldable pub try_outside : {E F : Type 0} → Exec W E A → Exec (World W) F (Result E A)
  try_outside m s = let (r, w) = m s.outside in (ok r, record s { outside = w })

  -- `let _ = ..`
  unfoldable pub ignore : {E F : Type 0} → Exec W E A → Exec (World W) F (Unit {0})
  ignore m s = (ok tt, record s { outside = (m s.outside).1 })

  -- A property's failure.
  unfoldable pub property : Method W A → Property W A
  property m s = let (r, s') = m s in (map_err FdoError.of_service r, s')

-- `owner(&header)`
unfoldable pub owner : Option Text → Result SecretServiceError Text
owner none = err (SecretServiceError.access_denied (codes "missing D-Bus caller identity"))
owner (some sender) = ok sender

-- The properties of a new collection or item.
abbrev pub Properties : Type 0
Properties = OrdMap Text OwnedValue

-- `.get(short).or_else(|| .get(long))`
abbrev pub lookup_property : Text → Text → Properties → Option OwnedValue
lookup_property short long properties = elim (get short properties) [
  | some v ↦ some v
  | none ↦ get long properties
]

unfoldable pub collection_label : Properties → Result ProviderError Text
collection_label properties =
    elim (lookup_property (codes "Label") (codes "org.freedesktop.Secret.Collection.Label")
      properties) [
        | some value ↦ try_text value (codes "collection Label must be a string")
        | none ↦ ok (codes "Default")
      ]

-- `into_iter().collect()` of a map into a sorted one.
unfoldable pub collect_attributes : List (Text × Text) → Attributes
collect_attributes [] = []
collect_attributes ((key, value) ∷ entries) = insert key value (collect_attributes entries)

abbrev pub try_text_map : OwnedValue → Result ProviderError Attributes
try_text_map (OwnedValue.text_map entries) = ok (collect_attributes entries)
try_text_map _ = err (invalid_request (codes "item Attributes must be a{ss}"))

abbrev pub label_of : Option OwnedValue → Result ProviderError Text
label_of none = err (invalid_request (codes "item Label is required"))
label_of (some value) = try_text value (codes "item Label must be a string")

abbrev pub attributes_of : Option OwnedValue → Result ProviderError Attributes
attributes_of none = ok []
attributes_of (some value) = try_text_map value

unfoldable pub item_properties : Properties → Result ProviderError (Text × Attributes)
item_properties properties =
    elim (label_of
      (lookup_property (codes "Label") (codes "org.freedesktop.Secret.Item.Label") properties)) [
        | err e ↦ err e
        | ok label ↦
            elim (attributes_of (
              lookup_property (codes "Attributes") (codes "org.freedesktop.Secret.Item.Attributes")
                properties)) [ err e ↦ err e | ok attributes ↦ ok (label, attributes) ]
      ]

module _ {W A : Type 0} where
  -- What a method asks of the table of sessions.
  unfoldable pub of_sessions : (Sessions → Result ProviderError A) → Method W A
  unfolding of_provider
  of_sessions f s = (map_err of_provider (f s.sessions), s)

abbrev pub root_path : Text
root_path = codes "/"

abbrev pub no_signal : Text
no_signal = codes "unable to emit item signal"
