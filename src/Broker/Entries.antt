-- ===== src/Broker/Entries.antt =====
-- `entries` and `valid_items` of crates/broker/src/service.rs: the vault as a list.
pub mod Scan
use wincred_libsecret_wsl_pl.Prelude.{Option, none, some, List, [], ◌∷◌, Text, Result, ok, err}
use wincred_libsecret_wsl_pl.Prelude.Exec.{pure, ◌>>=◌}
use wincred_libsecret_wsl_pl.Prelude.Order.{nat_ord}
use wincred_libsecret_wsl_pl.Prelude.OrdMap.{sort_by}
use wincred_libsecret_wsl_pl.Protocol.Model.{Blob, ItemMetadata}
use wincred_libsecret_wsl_pl.Protocol.Target.{Crates, TargetName, TargetParseError, from_str}
use wincred_libsecret_wsl_pl.Broker.Backend.{VaultBackend, Action, shown}
use wincred_libsecret_wsl_pl.Broker.Metadata.{Deps, valid_item}

-- `EntryKind` has the constructors of `TargetName`.
pub record Entry : Type 0 where
  pub kind : TargetName
  pub blob : Blob

-- The blob of a secret is dropped; a name that does not parse is skipped.
unfoldable pub add_entry : Result TargetParseError TargetName → Blob → List Entry → List Entry
add_entry (ok kind) blob rest = record { kind = kind; blob = shown kind blob } ∷ rest
add_entry (err _) blob rest = rest

unfoldable pub to_entries : Crates → List (Text × Blob) → List Entry
unfolding add_entry
to_entries c [] = []
to_entries c ((name, blob) ∷ rest) = add_entry (from_str c name) blob (to_entries c rest)

module _ (d : Deps) where
  -- The item that an entry holds, if it is valid metadata.
  unfoldable pub entry_item : Entry → Option ItemMetadata
  entry_item e = elim e.kind [ TargetName.item_metadata id ↦ valid_item d id e.blob | _ ↦ none ]

  unfoldable pub collect_items : List Entry → List ItemMetadata
  unfolding entry_item
  collect_items [] = []
  collect_items (e ∷ es) =
      let rest = collect_items es in elim (entry_item e) [ none ↦ rest | some item ↦ item ∷ rest ]

module _ (d : Deps) {S : Type 0} (b : VaultBackend S) where
  unfoldable pub entries : Action S (List Entry)
  entries = do listed ← b.enumerate; pure (to_entries d.crates listed)

  unfoldable pub valid_items : Action S (List ItemMetadata)
  valid_items = do es ← entries; pure (sort_by (λ (i : ItemMetadata). i.id) (collect_items d es))
