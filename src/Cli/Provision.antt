-- ===== src/Cli/Provision.antt =====
-- `distro enable` of crates/cli/src/main.rs, and what its other commands on a distribution share with it.
pub mod Refresh
pub mod Disable
pub mod Enablement
pub mod Order
use wincred_libsecret_wsl_pl.Prelude.{
  ℕ, Bool, true, false, not, ◌&&◌, ◌||◌, Option, none, some, List, [], ◌∷◌, ◌++◌, Text, codes, map,
  keep, length, ◌==◌, if◌then◌else◌, ok,
}
use wincred_libsecret_wsl_pl.Prelude.Exec.{Exec, pure, ◌>>=◌, ◌>>◌}
use wincred_libsecret_wsl_pl.Protocol.Errors.{show_nat}
use wincred_libsecret_wsl_pl.Protocol.Target.{Crates}
use wincred_libsecret_wsl_pl.Cli.Trim.{trim}
use wincred_libsecret_wsl_pl.Cli.Lifecycle.{CommandResult}
use wincred_libsecret_wsl_pl.Cli.Doctor.{
  Distribution, DoctorFinding, Format, display_error, runtime_findings, is_wsl2,
}
use wincred_libsecret_wsl_pl.Cli.Versions.{WslVersion, check_wsl_version}
use wincred_libsecret_wsl_pl.Cli.Machine.{Machine, look, tell, ensure, context}
use wincred_libsecret_wsl_pl.Cli.Payload.{
  linux_bootstrap, default_payload_root, default_broker_path, absolute_existing_directory,
  validate_broker, verify_payload,
}
use wincred_libsecret_wsl_pl.Cli.Distributions.{
  find_distribution, enabled_distributions, distribution_enabled, set_distribution_enabled,
  to_option,
}

abbrev pub linux_status_helper : Text
linux_status_helper = codes "/usr/libexec/wincred-libsecret/wincred-libsecret-refresh"

pub record DistroEnableArguments : Type 0 where
  pub name : Text
  pub payload_root : Option Text
  pub broker : Option Text
  pub replace_conflicts : Bool

-- The path for `wslpath`, with slashes for backslashes.
abbrev pub wslpath_argument : Text → Text
wslpath_argument path = map (λ (u : ℕ). if u == 92 then 47 else u) path

-- A text without the line end that `wslpath` prints.
abbrev pub strip_line_end : Text → Text
strip_line_end [] = []
strip_line_end (c ∷ []) = if c == 10 then [] else c ∷ []
strip_line_end (c ∷ d ∷ []) =
    if c == 13 && d == 10 then [] else if d == 10 then c ∷ [] else c ∷ d ∷ []
strip_line_end (c ∷ d ∷ e ∷ t) = c ∷ strip_line_end (d ∷ e ∷ t)

abbrev pub or_else : {A : Type 0} → Option A → A → A
or_else none a = a
or_else (some a) b = a

module _ (c : Crates) (format : Format) {S : Type 0} (y : Machine S) where
  unfoldable pub run_wsl_root : Text → List Text → Exec S Text CommandResult
  run_wsl_root distribution arguments = context (codes "could not launch wsl.exe") (
      y.output (codes "wsl.exe")
        (codes "-d" ∷ distribution ∷ codes "-u" ∷ codes "root" ∷ codes "--" ∷ arguments))

  unfoldable pub remote_doctor : Text → Exec S Text CommandResult
  unfolding run_wsl_root
  remote_doctor distribution =
      run_wsl_root distribution (linux_status_helper ∷ codes "--doctor" ∷ [])

  unfoldable pub ensure_wsl_success : Text → List Text → Text → Exec S Text (Unit {0})
  unfolding run_wsl_root display_error
  ensure_wsl_success distribution arguments operation = do
    result ← run_wsl_root distribution arguments
    ensure result.success (operation ++ (codes " failed: " ++ display_error result))

  unfoldable pub wsl_path : Text → Text → Exec S Text Text
  unfolding display_error trim
  wsl_path distribution path = do
    result ← context (codes "could not invoke wslpath") (
        y.output (codes "wsl.exe") (
          codes "-d"
          ∷ distribution
          ∷ codes "--"
          ∷ codes "wslpath"
          ∷ codes "-a"
          ∷ wslpath_argument path
          ∷ []))
    ensure (result.success && not (length (trim result.stdout) == 0))
        (codes "could not translate '" ++ (path ++ (codes "' for WSL: " ++ display_error result)))
    pure (strip_line_end result.stdout)

  unfoldable pub require_wsl_version : Exec S Text WslVersion
  unfolding check_wsl_version
  require_wsl_version s =
      let (r, s') = y.output (codes "wsl.exe") (codes "--version" ∷ []) s in
      (check_wsl_version (to_option r), s')

  abbrev pub wsl_text : Option ℕ → Text
  wsl_text none = codes " with unknown version"
  wsl_text (some version) = show_nat version

  abbrev pub common_arguments : Text → Text → Bool → List Text
  common_arguments source broker replace_conflicts =
      (source ++ (codes "/" ++ linux_bootstrap))
      ∷ codes "--source"
      ∷ source
      ∷ codes "--broker"
      ∷ broker
      ∷ codes "--protocol"
      ∷ y.protocol_version
      ∷ codes "--version"
      ∷ y.package_version
      ∷ (if replace_conflicts then codes "--replace-conflicts" ∷ [] else [])

  -- Both runs of the bootstrap: the check, and then the installation.
  unfoldable pub bootstrap : Text → List Text → Exec S Text (Unit {0})
  unfolding ensure_wsl_success
  bootstrap distribution arguments = do
    ensure_wsl_success distribution (arguments ++ (codes "--check" ∷ []))
        (codes "distribution prerequisite/conflict check")
    ensure_wsl_success distribution (arguments ++ (codes "--install" ∷ []))
        (codes "atomic provider installation")

  unfoldable pub provision_distribution :
      Distribution → DistroEnableArguments → Exec S Text (Unit {0})
  unfolding require_wsl_version bootstrap wsl_path verify_payload validate_broker
      absolute_existing_directory
  provision_distribution d arguments = do
    require_wsl_version
    ensure (is_wsl2 d.version) (
        codes "'"
        ++ (d.name
            ++ (codes "' is WSL"
                ++ (wsl_text d.version ++ codes "; WinCred requires a WSL 2 distribution"))))
    default_root ← look (default_payload_root y)
    payload_root ←
        absolute_existing_directory y (or_else arguments.payload_root default_root)
          (codes "Linux payload root")
    verify_payload y payload_root
    default_broker ← look (default_broker_path y)
    broker ← validate_broker y (or_else arguments.broker default_broker)
    source ← wsl_path d.name payload_root
    broker_wsl ← wsl_path d.name broker
    bootstrap d.name (common_arguments source broker_wsl arguments.replace_conflicts)

  unfoldable pub distro_enable : DistroEnableArguments → Exec S Text (Unit {0})
  unfolding find_distribution provision_distribution set_distribution_enabled
  distro_enable arguments = do
    d ← find_distribution c y arguments.name
    provision_distribution d arguments
    set_distribution_enabled c y d.id true
    tell (
        y.print (
          codes "Enabled WinCred Secret Service for '"
          ++ (d.name ++ (codes "' (" ++ (format.hyphenated d.id ++ codes ").")))))
