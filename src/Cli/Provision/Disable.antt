-- ===== src/Cli/Provision/Disable.antt =====
-- `distro disable` of crates/cli/src/main.rs.
use wincred_libsecret_wsl_pl.Prelude.{
  Bool, false, ◌&&◌, ◌||◌, [], ◌∷◌, ◌++◌, Text, codes, length, ◌==◌, if◌then◌else◌,
}
use wincred_libsecret_wsl_pl.Prelude.Exec.{Exec, pure, ◌>>=◌, ◌>>◌}
use wincred_libsecret_wsl_pl.Protocol.Target.{Crates}
use wincred_libsecret_wsl_pl.Cli.Trim.{trim}
use wincred_libsecret_wsl_pl.Cli.Lifecycle.{CommandResult}
use wincred_libsecret_wsl_pl.Cli.Doctor.{Distribution, Format, display_error}
use wincred_libsecret_wsl_pl.Cli.Machine.{Machine, look, tell, ensure}
use wincred_libsecret_wsl_pl.Cli.Payload.{
  linux_bootstrap, default_payload_root, absolute_existing_directory, verify_payload,
}
use wincred_libsecret_wsl_pl.Cli.Distributions.{find_distribution, set_distribution_enabled}
use wincred_libsecret_wsl_pl.Cli.Provision.{linux_status_helper, run_wsl_root, wsl_path}

module _ (c : Crates) (format : Format) {S : Type 0} (y : Machine S) where
  abbrev pub not_removed : Distribution → CommandResult → Text
  not_removed d result =
      codes "could not remove project-owned files from '"
      ++ (d.name ++ (codes "': " ++ display_error result))

  unfoldable pub disable_distro_with_payload : Distribution → Text → Exec S Text (Unit {0})
  unfolding absolute_existing_directory verify_payload wsl_path run_wsl_root
  disable_distro_with_payload d root = do
    payload_root ← absolute_existing_directory y root (codes "Linux payload root")
    verify_payload y payload_root
    source ← wsl_path c format y d.name payload_root
    result ←
        run_wsl_root c format y d.name
          ((source ++ (codes "/" ++ linux_bootstrap)) ∷ codes "--disable" ∷ [])
    ensure result.success (not_removed d result)

  unfoldable pub run_helper : Distribution → Exec S Text (Unit {0})
  unfolding run_wsl_root
  run_helper d = do
    result ← run_wsl_root c format y d.name (linux_status_helper ∷ codes "--disable" ∷ [])
    ensure result.success (not_removed d result)

  -- `test -x` says nothing where the file is only missing.
  abbrev pub is_silent : CommandResult → Bool
  is_silent result = length (trim result.stdout) == 0 && length (trim result.stderr) == 0

  unfoldable pub disable_distro_with_installed_helper : Distribution → Exec S Text (Unit {0})
  unfolding run_wsl_root run_helper trim display_error
  disable_distro_with_installed_helper d = do
    check ←
        run_wsl_root c format y d.name
          (codes "/usr/bin/test" ∷ codes "-x" ∷ linux_status_helper ∷ [])
    ensure (check.success || is_silent check) (
        codes "could not inspect project files in '"
        ++ (d.name ++ (codes "': " ++ display_error check)))
    (if check.success then run_helper d else pure tt)

  unfoldable pub clean_files : Distribution → Exec S Text (Unit {0})
  unfolding disable_distro_with_payload disable_distro_with_installed_helper
  clean_files d = do
    root ← look (default_payload_root y)
    is_dir ← look (y.is_dir root)
    (if is_dir then disable_distro_with_payload d root else disable_distro_with_installed_helper d)

  abbrev pub disabled_text : Distribution → Text
  disabled_text d =
      codes "Disabled WinCred Secret Service for '"
      ++ (d.name ++ codes "'; the Windows Credential Manager vault was not modified.")

  unfoldable pub distro_disable : Text → Exec S Text (Unit {0})
  unfolding find_distribution clean_files set_distribution_enabled
  distro_disable name = do
    d ← find_distribution c y name
    clean_files d
    set_distribution_enabled c y d.id false
    tell (y.print (disabled_text d))
