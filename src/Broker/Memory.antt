-- ===== src/Broker/Memory.antt =====
-- `InMemoryBackend` of crates/broker/src/backend.rs: a map from names to blobs, and a lock.
-- No thread panics while it holds a mutex, so none is poisoned.
pub mod Lawful
use wincred_libsecret_wsl_pl.Prelude.{
  ◌≡◌, refl, ◌∙◌, Bool, true, false, Option, none, some, List, [], ◌∷◌, Text, In, if◌then◌else◌,
  Result, ok, err, arith,
}
use wincred_libsecret_wsl_pl.Prelude.Order.{text_ord}
use wincred_libsecret_wsl_pl.Prelude.OrdMap.{OrdMap, get, insert, remove}
use wincred_libsecret_wsl_pl.Protocol.Errors.{BrokerError, starts_with}
use wincred_libsecret_wsl_pl.Protocol.Model.{Blob}
use wincred_libsecret_wsl_pl.Protocol.Target.{
  Crates, TargetName, TargetParseError, credential_prefix, display, from_str,
}
use wincred_libsecret_wsl_pl.Broker.Backend.{VaultBackend, shown}

pub record MemoryData : Type 0 where
  pub credentials : OrdMap Text Blob
  pub locked : Bool

abbrev pub new_memory : MemoryData
new_memory = record { credentials = []; locked = false }

-- `matches!(TargetName::from_str(target), Ok(TargetName::ItemSecret { .. }))`
abbrev pub listed_blob : Result TargetParseError TargetName → Blob → Blob
listed_blob (ok t) blob = shown t blob
listed_blob (err _) blob = blob

module _ (c : Crates) where
  -- The filter and the map of `enumerate`.
  unfoldable pub listing : OrdMap Text Blob → List (Text × Blob)
  listing [] = []
  listing ((name, blob) ∷ rest) =
      let others = listing rest in
      if starts_with credential_prefix name
      then (name, listed_blob (from_str c name) blob) ∷ others
      else others

  abbrev pub memory_backend : VaultBackend MemoryData
  memory_backend = record {
    acquire_lock = λ s. if s.locked then none else some (ok tt, record s { locked = true });
    release = λ s. record s { locked = false };
    read = λ t s. (ok (get (display c t) s.credentials), s);
    write = λ t blob s. (ok tt, record s { credentials = insert (display c t) blob s.credentials });
    delete = λ t s. (ok tt, record s { credentials = remove (display c t) s.credentials });
    enumerate = λ s. (ok (listing s.credentials), s);
  }
