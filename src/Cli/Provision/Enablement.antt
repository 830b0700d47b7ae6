-- ===== src/Cli/Provision/Enablement.antt =====
-- The enablement of distributions in the registry, under `distro enable`, `refresh` and `disable` of
-- crates/cli/src/main.rs.
use wincred_libsecret_wsl_pl.Prelude.{◌∙◌, Option, none, some, List, [], ◌∷◌, Text}
use wincred_libsecret_wsl_pl.Prelude.Exec.Keeps.{Keeps, Keeps-bind, Keeps-pure}
use wincred_libsecret_wsl_pl.Protocol.Target.{Crates}
use wincred_libsecret_wsl_pl.Protocol.Model.{Uuid}
use wincred_libsecret_wsl_pl.Cli.Doctor.{Distribution, Format}
use wincred_libsecret_wsl_pl.Cli.Machine.{Machine}
use wincred_libsecret_wsl_pl.Cli.Machine.Apart.{IsApart, Seen, look-Seen, ensure-Seen, seen_rules}
use wincred_libsecret_wsl_pl.Cli.Plugin.{absolute_existing_file}
use wincred_libsecret_wsl_pl.Cli.Distributions.{
  find_distribution, enumerate_distributions, registered_distributions, enabled_distributions,
  keep_enabled, distribution_enabled, only_one,
}
use wincred_libsecret_wsl_pl.Cli.Payload.{
  absolute_existing_directory, validate_broker, verify_file, verify_entry, verify_entries,
  verify_required, verify_payload,
}
use wincred_libsecret_wsl_pl.Cli.Provision.{
  DistroEnableArguments, run_wsl_root, remote_doctor, ensure_wsl_success, wsl_path,
  require_wsl_version, bootstrap, provision_distribution,
}
use wincred_libsecret_wsl_pl.Cli.Provision.Refresh.{
  DistroRefreshArguments, validate_refreshed_distribution, refresh_one, refresh_all, to_refresh,
  distro_refresh,
}
use wincred_libsecret_wsl_pl.Cli.Provision.Disable.{
  disable_distro_with_payload, run_helper, disable_distro_with_installed_helper, clean_files,
}

module _ {S V : Type 0} (y : Machine S) (view : S → V) (apart : IsApart y view) (v : V) where
  -- The payload and the paths.
  absolute_existing_file-Seen :
      (path description : Text) → Keeps (Seen view v) (absolute_existing_file y path description)
  unfolding absolute_existing_file
  absolute_existing_file-Seen path description = search seen_rules depth 12

  absolute_existing_directory-Seen :
      (path description : Text)
      → Keeps (Seen view v) (absolute_existing_directory y path description)
  unfolding absolute_existing_directory
  absolute_existing_directory-Seen path description = search seen_rules depth 12

  validate_broker-Seen : (path : Text) → Keeps (Seen view v) (validate_broker y path)
  unfolding validate_broker
  validate_broker-Seen path = search (seen_rules, absolute_existing_file-Seen) depth 8

  verify_file-Seen :
      (root expected relative : Text) → Keeps (Seen view v) (verify_file y root expected relative)
  unfolding verify_file
  verify_file-Seen root expected relative = search seen_rules depth 12

  verify_entry-Seen : (root line : Text) → Keeps (Seen view v) (verify_entry y root line)
  unfolding verify_entry
  verify_entry-Seen root line = search (seen_rules, verify_file-Seen) depth 8

  verify_entries-Seen :
      (root : Text) (lines : List Text) → Keeps (Seen view v) (verify_entries y root lines)
  unfolding verify_entries
  verify_entries-Seen root [] = search seen_rules
  verify_entries-Seen root (line ∷ rest) =
      Keeps-bind _ _ (verify_entry-Seen root line) λ _. verify_entries-Seen root rest

  verify_required-Seen :
      (root : Text) (names : List Text) → Keeps (Seen view v) (verify_required y root names)
  unfolding verify_required
  verify_required-Seen root [] = search seen_rules
  verify_required-Seen root (name ∷ names) =
      Keeps-bind _ _ (look-Seen view v _)
        λ is_file. Keeps-bind _ _ (ensure-Seen view v _ _) λ _. verify_required-Seen root names

  verify_payload-Seen : (root : Text) → Keeps (Seen view v) (verify_payload y root)
  unfolding verify_payload
  verify_payload-Seen root = search (seen_rules, verify_entries-Seen, verify_required-Seen) depth 12

  -- The distributions.
  enumerate_distributions-Seen : (c : Crates) → Keeps (Seen view v) (enumerate_distributions c y)
  unfolding enumerate_distributions registered_distributions
  enumerate_distributions-Seen c = search seen_rules depth 12

  only_one-Seen :
      (c : Crates) (name : Text) (ds : List Distribution)
      → Keeps (Seen view v) (only_one c y name ds)
  only_one-Seen c name [] = search seen_rules
  only_one-Seen c name (d ∷ []) = search seen_rules
  only_one-Seen c name (d ∷ e ∷ ds) = search seen_rules

  pub find_distribution-Seen :
      (c : Crates) (name : Text) → Keeps (Seen view v) (find_distribution c y name)
  unfolding find_distribution
  find_distribution-Seen c name =
      search (seen_rules, enumerate_distributions-Seen, only_one-Seen) depth 8

  distribution_enabled-Seen :
      (c : Crates) (id : Uuid) → Keeps (Seen view v) (distribution_enabled c y id)
  unfolding distribution_enabled
  distribution_enabled-Seen c id = search seen_rules

  keep_enabled-Seen :
      (c : Crates) (ds : List Distribution) → Keeps (Seen view v) (keep_enabled c y ds)
  unfolding keep_enabled
  keep_enabled-Seen c [] = search seen_rules
  keep_enabled-Seen c (d ∷ ds) =
      Keeps-bind _ _ (distribution_enabled-Seen c _)
        λ enabled. Keeps-bind _ _ (keep_enabled-Seen c ds) λ rest. Keeps-pure _

  enabled_distributions-Seen : (c : Crates) → Keeps (Seen view v) (enabled_distributions c y)
  unfolding enabled_distributions
  enabled_distributions-Seen c =
      search (seen_rules, enumerate_distributions-Seen, keep_enabled-Seen) depth 8

  -- The commands.
  module _ (c : Crates) (format : Format) where
    run_wsl_root-Seen :
        (distribution : Text) (arguments : List Text)
        → Keeps (Seen view v) (run_wsl_root c format y distribution arguments)
    unfolding run_wsl_root
    run_wsl_root-Seen distribution arguments = search seen_rules

    ensure_wsl_success-Seen :
        (distribution : Text) (arguments : List Text) (operation : Text)
        → Keeps (Seen view v) (ensure_wsl_success c format y distribution arguments operation)
    unfolding ensure_wsl_success
    ensure_wsl_success-Seen distribution arguments operation =
        search (seen_rules, run_wsl_root-Seen) depth 8

    wsl_path-Seen :
        (distribution path : Text) → Keeps (Seen view v) (wsl_path c format y distribution path)
    unfolding wsl_path
    wsl_path-Seen distribution path = search seen_rules depth 12

    require_wsl_version-Seen : Keeps (Seen view v) (require_wsl_version c format y)
    unfolding require_wsl_version
    require_wsl_version-Seen = record { at = λ s h. apart.output_keeps _ _ s ∙ h }

    bootstrap-Seen :
        (distribution : Text) (arguments : List Text)
        → Keeps (Seen view v) (bootstrap c format y distribution arguments)
    unfolding bootstrap
    bootstrap-Seen distribution arguments = search (seen_rules, ensure_wsl_success-Seen) depth 8

    ruleset found = (
      seen_rules, absolute_existing_directory-Seen, verify_payload-Seen, validate_broker-Seen,
      wsl_path-Seen, run_wsl_root-Seen,
    )

    pub provision_distribution-Seen :
        (d : Distribution) (arguments : DistroEnableArguments)
        → Keeps (Seen view v) (provision_distribution c format y d arguments)
    unfolding provision_distribution
    provision_distribution-Seen d arguments =
        search (found, require_wsl_version-Seen, bootstrap-Seen) depth 24

    validate_refreshed_distribution-Seen :
        (d : Distribution) → Keeps (Seen view v) (validate_refreshed_distribution c format y d)
    unfolding validate_refreshed_distribution remote_doctor
    validate_refreshed_distribution-Seen d = search (seen_rules, run_wsl_root-Seen) depth 12

    refresh_one-Seen :
        (arguments : DistroRefreshArguments) (d : Distribution)
        → Keeps (Seen view v) (refresh_one c format y arguments d)
    unfolding refresh_one
    refresh_one-Seen arguments d =
        search (seen_rules, provision_distribution-Seen, validate_refreshed_distribution-Seen) depth
          8

    refresh_all-Seen :
        (arguments : DistroRefreshArguments) (ds : List Distribution)
        → Keeps (Seen view v) (refresh_all c format y arguments ds)
    unfolding refresh_all
    refresh_all-Seen arguments [] = search seen_rules
    refresh_all-Seen arguments (d ∷ ds) =
        Keeps-bind _ _ (refresh_one-Seen arguments d) λ _. refresh_all-Seen arguments ds

    to_refresh-Seen : (name : Option Text) → Keeps (Seen view v) (to_refresh c format y name)
    unfolding to_refresh
    to_refresh-Seen none = enabled_distributions-Seen c
    to_refresh-Seen (some name) = search (seen_rules, find_distribution-Seen) depth 12

    pub distro_refresh-Seen :
        (arguments : DistroRefreshArguments)
        → Keeps (Seen view v) (distro_refresh c format y arguments)
    unfolding distro_refresh
    distro_refresh-Seen arguments = search (seen_rules, to_refresh-Seen, refresh_all-Seen) depth 8

    disable_distro_with_payload-Seen :
        (d : Distribution) (root : Text)
        → Keeps (Seen view v) (disable_distro_with_payload c format y d root)
    unfolding disable_distro_with_payload
    disable_distro_with_payload-Seen d root = search found depth 16

    run_helper-Seen : (d : Distribution) → Keeps (Seen view v) (run_helper c format y d)
    unfolding run_helper
    run_helper-Seen d = search found depth 8

    disable_distro_with_installed_helper-Seen :
        (d : Distribution) → Keeps (Seen view v) (disable_distro_with_installed_helper c format y d)
    unfolding disable_distro_with_installed_helper
    disable_distro_with_installed_helper-Seen d = search (found, run_helper-Seen) depth 12

    pub clean_files-Seen : (d : Distribution) → Keeps (Seen view v) (clean_files c format y d)
    unfolding clean_files
    clean_files-Seen d =
        search
          (seen_rules, disable_distro_with_payload-Seen, disable_distro_with_installed_helper-Seen)
          depth 12
