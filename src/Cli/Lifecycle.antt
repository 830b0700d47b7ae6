-- ===== src/Cli/Lifecycle.antt =====
-- `enable_with` and `disable_with` of crates/cli/src/lib.rs. The commands, the registry and the file
-- system are the parameter `ProvisioningSystem`, as in the source.
pub mod Order
use wincred_libsecret_wsl_pl.Prelude.{
  ℕ, Bool, true, false, not, Option, none, some, List, [], ◌∷◌, ◌++◌, Text, codes, ◌==◌,
  if◌then◌else◌, Result, ok, err,
}
use wincred_libsecret_wsl_pl.Prelude.Results.{map_err}
use wincred_libsecret_wsl_pl.Prelude.Exec.{Exec, pure, raise, lift, outcome, ◌>>=◌, ◌>>◌}
use wincred_libsecret_wsl_pl.Protocol.Model.{Uuid}
use wincred_libsecret_wsl_pl.Protocol.Target.{Crates}
use wincred_libsecret_wsl_pl.Cli.Trim.{trim}

abbrev pub distribution_enablement_prefix : Text
distribution_enablement_prefix = codes "Software\\wincred-libsecret\\WSLPlugin\\Distributions\\"

abbrev pub distribution_enablement_value : Text
distribution_enablement_value = codes "Enabled"

abbrev pub distribution_registry_path : Crates → Uuid → Text
distribution_registry_path c id =
    distribution_enablement_prefix ++ (codes "{" ++ (c.hyphenated id ++ codes "}"))

pub record LifecycleState : Type 0 where
  pub enabled : Bool
  pub provisioned : Bool

pub data EnablePlan : Type 0 where
  no_change provision_and_enable enable_only : EnablePlan

abbrev pub enable_plan : LifecycleState → EnablePlan
enable_plan s =
    if s.provisioned then (if s.enabled then no_change else enable_only) else provision_and_enable

pub record CommandResult : Type 0 where
  pub success : Bool
  pub stdout : Text
  pub stderr : Text

-- The methods with `&self` read the state, and those with `&mut self` may change it.
pub record ProvisioningSystem (S E : Type 0) : Type 0 where
  pub run : Text → List Text → Exec S E CommandResult
  pub registry_dword : S → Text → Text → Result E (Option ℕ)
  pub set_registry_dword : Text → Text → ℕ → Exec S E (Unit {0})
  pub remove_registry_tree : Text → Exec S E (Unit {0})
  pub file_exists : S → Text → Result E Bool

pub data ProvisioningError (E : Type 0) : Type 0 where
  command : Text → ProvisioningError E
  system : E → ProvisioningError E

-- `?` on an error of the system.
unfoldable pub of_system : {S E A : Type 0} → Exec S E A → Exec S (ProvisioningError E) A
of_system m s = (map_err system (m s).0, (m s).1)

abbrev pub is_set : Option ℕ → Bool
is_set none = false
is_set (some value) = not (value == 0)

abbrev pub could_not : Text → Text → Text → Text
could_not verb distribution stderr =
    codes "could not " ++ (verb ++ (codes " '" ++ (distribution ++ (codes "': " ++ trim stderr))))

module _ (c : Crates) {S E : Type 0} (y : ProvisioningSystem S E) (distribution : Text) (id : Uuid)
    (args : List Text) (marker : Text) where
  -- A command that has to succeed.
  unfoldable pub run_checked : Text → Exec S (ProvisioningError E) (Unit {0})
  run_checked verb = do
    result ← of_system (y.run (codes "wsl.exe") args)
    if result.success then pure tt else raise (command (could_not verb distribution result.stderr))

  unfoldable pub lifecycle_state : Exec S (ProvisioningError E) LifecycleState
  lifecycle_state = do
    value ←
        of_system λ s.
          (y.registry_dword s (distribution_registry_path c id) distribution_enablement_value, s)
    provisioned ← of_system λ s. (y.file_exists s marker, s)
    pure (record { enabled = is_set value; provisioned = provisioned })

  unfoldable pub set_enabled : Exec S (ProvisioningError E) (Unit {0})
  set_enabled =
      of_system
        (y.set_registry_dword (distribution_registry_path c id) distribution_enablement_value 1)

  -- What `enable_with` does for a plan.
  unfoldable pub carry_out : EnablePlan → Exec S (ProvisioningError E) EnablePlan
  carry_out no_change = pure no_change
  carry_out enable_only = do set_enabled; pure enable_only
  carry_out provision_and_enable = do
    run_checked (codes "provision")
    set_enabled
    pure provision_and_enable

  unfoldable pub enable_with : Exec S (ProvisioningError E) EnablePlan
  enable_with = do state ← lifecycle_state; carry_out (enable_plan state)

  unfoldable pub disable_with : Exec S (ProvisioningError E) (Unit {0})
  disable_with = do
    provisioned ← of_system λ s. (y.file_exists s marker, s)
    (if provisioned then run_checked (codes "disable") else pure tt)
    of_system (y.remove_registry_tree (distribution_registry_path c id))
