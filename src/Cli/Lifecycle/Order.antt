-- ===== src/Cli/Lifecycle/Order.antt =====
-- The order of the steps of `enable_with` and `disable_with` of crates/cli/src/lib.rs.
use wincred_libsecret_wsl_pl.Prelude.{
  ◌≡◌, inl, inr, false, Option, List, Text, codes, ok, err, arith,
}
use wincred_libsecret_wsl_pl.Prelude.Results.{Result-cases}
use wincred_libsecret_wsl_pl.Prelude.Exec.{◌>>=◌}
use wincred_libsecret_wsl_pl.Protocol.Model.{Uuid}
use wincred_libsecret_wsl_pl.Protocol.Target.{Crates}
use wincred_libsecret_wsl_pl.Cli.Lifecycle.{
  ℕ, ProvisioningSystem, system, command, could_not, ProvisioningError, CommandResult, of_system,
  run_checked, enable_with, carry_out, lifecycle_state, distribution_registry_path,
  distribution_enablement_value,
}

module _ (c : Crates) {S E : Type 0} (y : ProvisioningSystem S E) (distribution : Text) (id : Uuid)
    (args : List Text) (marker : Text) where
  -- Where the registry value can be read, the marker file is absent, and the command that
  -- provisions the distribution cannot be run or does not succeed, `enable_with` fails in the
  -- state after the command, so the registry is not set.
  pub enable_with-unprovisioned :
      (s : S) (value : Option ℕ)
      → y.registry_dword s (distribution_registry_path c id) distribution_enablement_value
        ≡ ok value
      → y.file_exists s marker ≡ ok false
      → ((result : CommandResult)
          → (y.run (codes "wsl.exe") args s).0 ≡ ok result
          → result.success ≡ false)
      → ((enable_with c y distribution id args marker s).1 ≡ (y.run (codes "wsl.exe") args s).1)
        × ((e : ProvisioningError E) × ((enable_with c y distribution id args marker s).0 ≡ err e))
  unfolding enable_with lifecycle_state carry_out run_checked of_system ◌>>=◌
  enable_with-unprovisioned s value read absent fails =
      elim (Result-cases (y.run (codes "wsl.exe") args s).0) [
        | inr (e, failed) ↦
            (ground (arith, read, absent, failed), (system e, ground (arith, read, absent, failed)))
        | inl (result, ran) ↦
            let bad = fails result ran in
            (
              ground (arith, read, absent, ran, bad),
              (
                command (could_not (codes "provision") distribution result.stderr),
                ground (arith, read, absent, ran, bad),
              ),
            )
      ]
