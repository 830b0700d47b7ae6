-- ===== src/Protocol/Vault.antt =====
-- crates/protocol/src/vault.rs: the steps of an item update, and the plan of a recovery.
pub mod Plan
use wincred_libsecret_wsl_pl.Prelude.{
  ℕ, Bool, true, false, not, List, [], ◌∷◌, ◌++◌, Option, none, some, ◌==◌, if◌then◌else◌,
}
use wincred_libsecret_wsl_pl.Prelude.Order.{nat_ord, pair_ord}
use wincred_libsecret_wsl_pl.Prelude.OrdMap.{OrdMap, OrdSet, get, contains}
use wincred_libsecret_wsl_pl.Protocol.Model.{Uuid}
use wincred_libsecret_wsl_pl.Protocol.Target.{TargetName, item_metadata, item_secret}

pub data CommitStep : Type 0 where
  write_secret write_metadata delete_secret : TargetName → CommitStep

pub record GenerationCommit : Type 0 where
  pub item_id : Uuid
  pub new_generation : Uuid
  pub previous_generation : Option Uuid

-- The old generation, where it is another one.
unfoldable pub delete_previous : GenerationCommit → Option Uuid → List CommitStep
delete_previous c none = []
delete_previous c (some previous) =
    if previous == c.new_generation then [] else delete_secret (item_secret c.item_id previous) ∷ []

unfoldable pub steps : GenerationCommit → List CommitStep
unfolding delete_previous
steps c =
    write_secret (item_secret c.item_id c.new_generation)
    ∷ write_metadata (item_metadata c.item_id)
    ∷ delete_previous c c.previous_generation

pub record RecoveryInventory : Type 0 where
  pub committed_generations : OrdMap Uuid Uuid
  pub stored_generations : OrdSet (Uuid × Uuid)

pub data RecoveryAction : Type 0 where
  delete_abandoned_generation report_missing_committed_generation : Uuid → Uuid → RecoveryAction

-- `committed.get(&item_id) == Some(&generation)`
abbrev pub is_committed : OrdMap Uuid Uuid → Uuid → Uuid → Bool
is_committed committed item_id generation = elim (get item_id committed) [
  | none ↦ false
  | some g ↦ g == generation
]

-- The first loop: over the stored generations.
unfoldable pub abandoned : OrdMap Uuid Uuid → OrdSet (Uuid × Uuid) → List RecoveryAction
abandoned committed [] = []
abandoned committed ((item_id, generation) ∷ rest) =
    let actions = abandoned committed rest in
    if not (is_committed committed item_id generation)
    then delete_abandoned_generation item_id generation ∷ actions
    else actions

-- The second loop: over the committed generations.
unfoldable pub missing : OrdSet (Uuid × Uuid) → OrdMap Uuid Uuid → List RecoveryAction
missing stored [] = []
missing stored ((item_id, generation) ∷ rest) =
    let actions = missing stored rest in
    if not (contains (item_id, generation) stored)
    then report_missing_committed_generation item_id generation ∷ actions
    else actions

unfoldable pub plan_recovery : RecoveryInventory → List RecoveryAction
unfolding abandoned missing
plan_recovery inventory =
    abandoned inventory.committed_generations inventory.stored_generations
    ++ missing inventory.stored_generations inventory.committed_generations
