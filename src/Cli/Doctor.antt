-- ===== src/Cli/Doctor.antt =====
-- The diagnostics of crates/cli: `DoctorFinding` of lib.rs, and in main.rs what is made of the answers of
-- the registry, of a distribution's helper and of the release query, and the report. `{:?}` of a text and the
-- printing of identifiers are the parameter `Format`; the installed version is an argument.
pub mod Report
pub mod Working
use wincred_libsecret_wsl_pl.Prelude.{
  ℕ, zero, suc, Bool, true, false, not, ◌&&◌, Option, none, some, List, [], ◌∷◌, ◌++◌, map, keep,
  every, Text, codes, length, ◌==◌, if◌then◌else◌, Result, ok, err,
}
use wincred_libsecret_wsl_pl.Protocol.Model.{Uuid}
use wincred_libsecret_wsl_pl.Protocol.Errors.{show_nat, starts_with}
use wincred_libsecret_wsl_pl.Protocol.Target.{strip_prefix}
use wincred_libsecret_wsl_pl.Cli.Releases.{AvailableRelease, Semver}
use wincred_libsecret_wsl_pl.Cli.Lifecycle.{CommandResult}
use wincred_libsecret_wsl_pl.Cli.Trim.{lines, trim}

pub record DoctorFinding : Type 0 where
  pub check : Text
  pub is_ok : Bool
  pub is_warning : Bool
  pub detail : Text
  pub remedy : Option Text

-- `DoctorFinding::ok`, `DoctorFinding::warning` and `DoctorFinding::fail`.
abbrev pub finding_ok : Text → Text → DoctorFinding
finding_ok check detail = record {
  check = check;
  is_ok = true;
  is_warning = false;
  detail = detail;
  remedy = none;
}

abbrev pub finding_warning : Text → Text → Text → DoctorFinding
finding_warning check detail remedy = record {
  check = check;
  is_ok = true;
  is_warning = true;
  detail = detail;
  remedy = some remedy;
}

abbrev pub finding_fail : Text → Text → Text → DoctorFinding
finding_fail check detail remedy = record {
  check = check;
  is_ok = false;
  is_warning = false;
  detail = detail;
  remedy = some remedy;
}

pub record Format : Type 0 where
  pub debug : Text → Text
  pub hyphenated : Uuid → Text

pub record Distribution : Type 0 where
  pub id : Uuid
  pub name : Text
  pub version : Option ℕ

pub record DistributionDiagnostics : Type 0 where
  pub name : Text
  pub enabled : Option Bool
  pub wsl2 : Bool
  pub runtime_ok : Bool
  pub findings : List DoctorFinding

-- The texts of `state`, and which one a distribution has.
pub data State : Type 0 where
  working degraded disabled unknown : State

unfoldable pub state_text : State → Text
state_text working = codes "enabled, working"
state_text degraded = codes "enabled, degraded"
state_text disabled = codes "disabled"
state_text unknown = codes "enablement unknown"

unfoldable pub state : DistributionDiagnostics → State
state d = elim d.enabled [
  | none ↦ unknown
  | some true ↦ if d.wsl2 && d.runtime_ok then working else degraded
  | some false ↦ disabled
]

-- `ProcessResult::display_error`
unfoldable pub display_error : CommandResult → Text
unfolding trim
display_error result =
    let text =
      if length (trim result.stderr) == 0 then trim result.stdout else trim result.stderr in
    if length text == 0 then codes "command returned a non-zero exit status" else text

-- The text up to the first space, and what follows it, if there is one.
abbrev pub split_space : Text → Text × Option Text
split_space [] = ([], none)
split_space (c ∷ t) =
    let rest = split_space t in if c == 32 then ([], some t) else (c ∷ rest.0, rest.1)

-- `splitn(3, ' ')` past its first field: the check and the detail, each with its default.
abbrev pub check_fields : Text → Text × Text
check_fields line = elim (split_space line).1 [
  | none ↦ (codes "distro", [])
  | some rest ↦ elim (split_space rest).1 [
    | none ↦ ((split_space rest).0, [])
    | some detail ↦ ((split_space rest).0, detail)
  ]
]

-- `trim_start_matches("ok ")`, which drops at least one byte at a time: the length is fuel enough.
abbrev pub trim_ok : ℕ → Text → Text
trim_ok zero text = text
trim_ok (suc n) text = elim (strip_prefix (codes "ok ") text) [
  | none ↦ text
  | some rest ↦ trim_ok n rest
]

abbrev pub runtime : Text
runtime = codes "distro-runtime"

abbrev pub is_wsl2 : Option ℕ → Bool
is_wsl2 none = false
is_wsl2 (some version) = version == 2

abbrev pub number_text : Option ℕ → Text
number_text none = codes "unknown"
number_text (some version) = show_nat version

abbrev pub enablement_check : Text
enablement_check = codes "distro-enablement"

abbrev pub known : Result Text Bool → Option Bool
known (ok enabled) = some enabled
known (err error) = none

abbrev pub all_ok : List DoctorFinding → Bool
all_ok findings = every (λ (f : DoctorFinding). f.is_ok) findings

abbrev pub should_check_runtime : Result Text Bool → Bool
should_check_runtime (ok enabled) = enabled
should_check_runtime (err error) = false

module _ (format : Format) where
  unfoldable pub distro_enable_command : Text → Text
  distro_enable_command distribution =
      codes "`wincred-libsecret distro enable " ++ (format.debug distribution ++ codes "`")

  unfoldable pub distro_enable_remedy : Text → Text
  unfolding distro_enable_command
  distro_enable_remedy distribution =
      codes "Run " ++ (distro_enable_command distribution ++ codes ".")

  -- A line of the helper's output.
  unfoldable pub check_finding : Text → Text → DoctorFinding
  unfolding distro_enable_command
  check_finding distribution line =
      let fields = check_fields line in
      if starts_with (codes "ok ") fields.1
      then finding_ok runtime (fields.0 ++ (codes ": " ++ trim_ok (length fields.1) fields.1))
      else finding_fail runtime (fields.0 ++ (codes ": " ++ fields.1)) (
          codes "Run "
          ++ (distro_enable_command distribution
              ++ codes " after resolving the reported prerequisite."))

  abbrev pub no_diagnostics : Text → DoctorFinding
  no_diagnostics distribution =
      finding_fail runtime (codes "the installed refresh helper returned no diagnostics") (
        codes "Re-run "
        ++ (distro_enable_command distribution ++ codes " to repair the installation."))

  abbrev pub or_none_reported : Text → List DoctorFinding → List DoctorFinding
  or_none_reported distribution [] = no_diagnostics distribution ∷ []
  or_none_reported distribution (f ∷ fs) = f ∷ fs

  unfoldable pub runtime_findings : Distribution → Result Text CommandResult → List DoctorFinding
  unfolding display_error check_finding distro_enable_remedy
  runtime_findings distribution (ok result) =
      if result.success
      then or_none_reported distribution.name (
          map (check_finding distribution.name)
            (keep (starts_with (codes "CHECK ")) (lines result.stdout)))
      else finding_fail runtime (display_error result) (distro_enable_remedy distribution.name) ∷ []
  runtime_findings distribution (err error) =
      finding_fail runtime error (
        codes "Start the distribution with `wsl -d "
        ++ (format.debug distribution.name ++ codes "` and retry."))
      ∷ []

  unfoldable pub wsl2_finding : Distribution → DoctorFinding
  wsl2_finding d =
      if is_wsl2 d.version
      then finding_ok (codes "distro-wsl2")
          (codes "WSL 2 (" ++ (format.hyphenated d.id ++ codes ")"))
      else finding_fail (codes "distro-wsl2") (codes "WSL " ++ number_text d.version) (
          codes "Convert the distribution with `wsl --set-version "
          ++ (format.debug d.name ++ codes " 2`."))

  unfoldable pub enablement_finding : Distribution → Result Text Bool → DoctorFinding
  unfolding distro_enable_remedy
  enablement_finding d (ok true) =
      finding_ok enablement_check (codes "enabled: HKCU enablement is set")
  enablement_finding d (ok false) =
      finding_fail enablement_check (codes "disabled: HKCU enablement is absent")
        (distro_enable_remedy d.name)
  enablement_finding d (err error) =
      finding_fail enablement_check error (codes "Check the current-user registry permissions.")

  abbrev pub remote_findings :
      Distribution → Option (Result Text CommandResult) → List DoctorFinding
  remote_findings d none = []
  remote_findings d (some remote) = runtime_findings d remote

  abbrev pub is_remote_ok : Distribution → Option (Result Text CommandResult) → Bool
  is_remote_ok d none = false
  is_remote_ok d (some remote) = all_ok (runtime_findings d remote)

  unfoldable pub distribution_diagnostics :
      Distribution → Result Text Bool → Option (Result Text CommandResult) → DistributionDiagnostics
  unfolding wsl2_finding enablement_finding runtime_findings
  distribution_diagnostics d enablement remote = record {
    name = d.name;
    enabled = known enablement;
    wsl2 = is_wsl2 d.version;
    runtime_ok = is_remote_ok d remote;
    findings = wsl2_finding d ∷ enablement_finding d enablement ∷ remote_findings d remote;
  }

  -- The registry's answer, and that of the helper, which is only asked where it should be.
  unfoldable pub distribution_findings :
      Distribution → Result Text Bool → Result Text CommandResult → DistributionDiagnostics
  unfolding distribution_diagnostics
  distribution_findings d enablement remote =
      distribution_diagnostics d enablement
        (if should_check_runtime enablement then some remote else none)
