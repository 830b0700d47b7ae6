-- ===== src/Broker/Recovery.antt =====
-- `reconcile_locked` of crates/broker/src/service.rs: recovery from interrupted commits.
pub mod Inventory
pub mod Reconcile
pub mod Sound
use wincred_libsecret_wsl_pl.Prelude.{ℕ, ◌+◌, Option, none, some, List, [], ◌∷◌, ◌++◌}
use wincred_libsecret_wsl_pl.Prelude.Exec.{pure, ◌>>=◌, ◌>>◌}
use wincred_libsecret_wsl_pl.Prelude.Order.{nat_ord, pair_ord}
use wincred_libsecret_wsl_pl.Prelude.OrdMap.{insert, add}
use wincred_libsecret_wsl_pl.Protocol.Model.{Uuid, ItemMetadata}
use wincred_libsecret_wsl_pl.Protocol.Message.{ResponseBody}
use wincred_libsecret_wsl_pl.Protocol.Target.{TargetName}
use wincred_libsecret_wsl_pl.Protocol.Vault.{
  RecoveryInventory, RecoveryAction, delete_abandoned_generation,
  report_missing_committed_generation, plan_recovery,
}
use wincred_libsecret_wsl_pl.Broker.Backend.{VaultBackend, Action}
use wincred_libsecret_wsl_pl.Broker.Metadata.{Deps, valid_item}
use wincred_libsecret_wsl_pl.Broker.Entries.{Entry, entries}

-- One round of the loop over the entries.
unfoldable pub note_entry : Deps → Entry → RecoveryInventory → RecoveryInventory
note_entry d e inventory = elim e.kind [
  | TargetName.item_metadata id ↦ elim (valid_item d id e.blob) [
    | none ↦ inventory
    | some item ↦ record inventory {
      committed_generations =
          insert item.id item.current_generation inventory.committed_generations;
    }
  ]
  | TargetName.item_secret item_id generation ↦ record inventory {
    stored_generations = add (item_id, generation) inventory.stored_generations;
  }
  | _ ↦ inventory
]

unfoldable pub take_inventory : Deps → List Entry → RecoveryInventory → RecoveryInventory
unfolding note_entry
take_inventory d [] inventory = inventory
take_inventory d (e ∷ es) inventory = take_inventory d es (note_entry d e inventory)

abbrev pub empty_inventory : RecoveryInventory
empty_inventory = record { committed_generations = []; stored_generations = [] }

module _ {S : Type 0} (b : VaultBackend S) where
  -- The loop over the plan, with `removed_generations` and `corrupt_items`.
  unfoldable pub run_plan : List RecoveryAction → ℕ → List Uuid → Action S (ℕ × List Uuid)
  run_plan [] removed corrupt = pure (removed, corrupt)
  run_plan (delete_abandoned_generation item_id generation ∷ rest) removed corrupt = do
    b.delete (TargetName.item_secret item_id generation)
    run_plan rest (removed + 1) corrupt
  run_plan (report_missing_committed_generation item_id generation ∷ rest) removed corrupt =
      run_plan rest removed (corrupt ++ (item_id ∷ []))

module _ (d : Deps) {S : Type 0} (b : VaultBackend S) where
  unfoldable pub reconcile_locked : Action S ResponseBody
  reconcile_locked = do
    es ← entries d b
    result ← run_plan b (plan_recovery (take_inventory d es empty_inventory)) 0 []
    pure (ResponseBody.reconciled result.0 result.1)
