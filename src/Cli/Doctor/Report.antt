-- ===== src/Cli/Doctor/Report.antt =====
-- The text of a diagnosis, and the finding on releases, of crates/cli/src/main.rs. The installed version
-- is the text that the build puts in.
use wincred_libsecret_wsl_pl.Prelude.{
  Bool, true, false, Option, none, some, List, [], ◌∷◌, ◌++◌, Text, codes, if◌then◌else◌, Result,
  ok, err,
}
use wincred_libsecret_wsl_pl.Cli.Releases.{AvailableRelease, Semver}
use wincred_libsecret_wsl_pl.Cli.Doctor.{
  DoctorFinding, finding_ok, finding_warning, DistributionDiagnostics, state, state_text,
}

abbrev pub newline : Text
newline = 10 ∷ []

-- WARN before OK, since a warning is also ok.
abbrev pub status : DoctorFinding → Text
status finding =
    if finding.is_warning then codes "WARN" else if finding.is_ok then codes "OK" else codes "FAIL"

abbrev pub check_text : DoctorFinding → Option Text → Text
check_text finding none = finding.check
check_text finding (some name) = finding.check ++ (codes " (" ++ (name ++ codes ")"))

abbrev pub remedy_text : Option Text → Text
remedy_text none = []
remedy_text (some remedy) = codes "       remedy: " ++ (remedy ++ newline)

unfoldable pub doctor_findings_text : List DoctorFinding → Option Text → Text
doctor_findings_text [] distribution = []
doctor_findings_text (finding ∷ findings) distribution =
    codes "["
    ++ (status finding
        ++ (codes "] "
            ++ (check_text finding distribution
                ++ (codes ": "
                    ++ (finding.detail
                        ++ (newline
                            ++ (remedy_text finding.remedy
                                ++ doctor_findings_text findings distribution)))))))

unfoldable pub distributions_text : List DistributionDiagnostics → Text
unfolding state state_text doctor_findings_text
distributions_text [] = []
distributions_text (d ∷ ds) =
    codes "[DISTRO] "
    ++ (d.name
        ++ (codes ": "
            ++ (state_text (state d)
                ++ (newline
                    ++ (doctor_findings_text d.findings (some d.name) ++ distributions_text ds)))))

unfoldable pub format_doctor_report : List DoctorFinding → List DistributionDiagnostics → Text
unfolding doctor_findings_text distributions_text
format_doctor_report findings distributions =
    doctor_findings_text findings none ++ distributions_text distributions

pub data ReleaseUpdate (V : Type 0) : Type 0 where
  is_current : ReleaseUpdate V
  is_available : AvailableRelease V → ReleaseUpdate V
  no_suitable_release : ReleaseUpdate V

unfoldable pub compare_release_update :
    {V : Type 0} → Semver V → V → Option (AvailableRelease V) → ReleaseUpdate V
compare_release_update semver installed none = no_suitable_release
compare_release_update semver installed (some release) =
    if semver.exceeds release.version installed then is_available release else is_current

abbrev pub release_check : Text
release_check = codes "release-update"

abbrev pub upgrade_command : Bool → Text
upgrade_command true = codes "`wincred-libsecret upgrade --include-prerelease`"
upgrade_command false = codes "`wincred-libsecret upgrade`"

unfoldable pub release_update_finding_from_result :
    {V : Type 0} → Text → Result Text (ReleaseUpdate V) → Bool → DoctorFinding
release_update_finding_from_result installed (ok is_current) include_prerelease =
    finding_ok release_check (codes "v" ++ (installed ++ codes " is current"))
release_update_finding_from_result installed (ok (is_available release)) include_prerelease =
    finding_warning release_check
      (release.tag_name ++ (codes " is available (installed: v" ++ (installed ++ codes ")")))
      (codes "Run " ++ (upgrade_command include_prerelease ++ codes "."))
release_update_finding_from_result installed (ok no_suitable_release) include_prerelease =
    finding_warning release_check (codes "no suitable public GitHub Release could be compared")
      (codes "Retry later or inspect the project Releases page.")
release_update_finding_from_result installed (err error) include_prerelease =
    finding_warning release_check (codes "could not query GitHub Releases: " ++ error)
      (codes "Retry later; this does not affect local diagnostics.")
