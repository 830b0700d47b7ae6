-- ===== src/Cli/Provision/Refresh.antt =====
-- `distro refresh` of crates/cli/src/main.rs.
use wincred_libsecret_wsl_pl.Prelude.{
  false, not, Option, none, some, List, [], ◌∷◌, ◌++◌, Text, codes, map, keep, length, ◌==◌,
  if◌then◌else◌, ok,
}
use wincred_libsecret_wsl_pl.Prelude.Exec.{Exec, pure, ◌>>=◌, ◌>>◌}
use wincred_libsecret_wsl_pl.Protocol.Target.{Crates}
use wincred_libsecret_wsl_pl.Cli.Doctor.{
  Distribution, DoctorFinding, Format, display_error, runtime_findings,
}
use wincred_libsecret_wsl_pl.Cli.Machine.{Machine, tell, ensure, context}
use wincred_libsecret_wsl_pl.Cli.Distributions.{
  find_distribution, enabled_distributions, distribution_enabled,
}
use wincred_libsecret_wsl_pl.Cli.Provision.{remote_doctor, provision_distribution}

-- The clap parser gives a name unless all distributions are meant.
pub record DistroRefreshArguments : Type 0 where
  pub all_or_name : Option Text
  pub payload_root : Option Text
  pub broker : Option Text

abbrev pub join_texts : Text → List Text → Text
join_texts between [] = []
join_texts between (t ∷ []) = t
join_texts between (t ∷ u ∷ ts) = t ++ (between ++ join_texts between (u ∷ ts))

module _ (c : Crates) (format : Format) {S : Type 0} (y : Machine S) where
  abbrev pub failures : List DoctorFinding → List Text
  failures findings =
      map (λ (f : DoctorFinding). f.detail) (keep (λ (f : DoctorFinding). not f.is_ok) findings)

  abbrev pub refresh_failed : Distribution → Text → Text
  refresh_failed d text =
      codes "post-refresh diagnostics failed for '" ++ (d.name ++ (codes "': " ++ text))

  unfoldable pub validate_refreshed_distribution : Distribution → Exec S Text (Unit {0})
  unfolding remote_doctor display_error runtime_findings
  validate_refreshed_distribution d = do
    result ←
        context (codes "could not validate '" ++ (d.name ++ codes "'"))
          (remote_doctor c format y d.name)
    ensure result.success (refresh_failed d (display_error result))
    let failed = failures (runtime_findings format d (ok result))
    ensure (length failed == 0) (refresh_failed d (join_texts (codes "; ") failed))

  unfoldable pub refresh_one : DistroRefreshArguments → Distribution → Exec S Text (Unit {0})
  unfolding provision_distribution validate_refreshed_distribution
  refresh_one arguments d = do
    provision_distribution c format y d (record {
      name = d.name;
      payload_root = arguments.payload_root;
      broker = arguments.broker;
      replace_conflicts = false;
    })
    validate_refreshed_distribution d
    tell (
        y.print (
          codes "Refreshed and validated WinCred Secret Service for '"
          ++ (d.name ++ (codes "' (" ++ (format.hyphenated d.id ++ codes ").")))))

  unfoldable pub refresh_all : DistroRefreshArguments → List Distribution → Exec S Text (Unit {0})
  unfolding refresh_one
  refresh_all arguments [] = pure tt
  refresh_all arguments (d ∷ ds) = do refresh_one arguments d; refresh_all arguments ds

  -- The distributions that a refresh is about.
  unfoldable pub to_refresh : Option Text → Exec S Text (List Distribution)
  unfolding enabled_distributions find_distribution distribution_enabled
  to_refresh none = enabled_distributions c y
  to_refresh (some name) = do
    d ← find_distribution c y name
    enabled ← distribution_enabled c y d.id
    ensure enabled (
        codes "'"
        ++ (d.name
            ++ (codes "' is not enabled; run `wincred-libsecret distro enable "
                ++ (format.debug d.name ++ codes "` first"))))
    pure (d ∷ [])

  unfoldable pub distro_refresh : DistroRefreshArguments → Exec S Text (Unit {0})
  unfolding to_refresh refresh_all
  distro_refresh arguments = do
    ds ← to_refresh arguments.all_or_name
    (if length ds == 0
        then tell (y.print (codes "No enabled WSL distributions need a payload refresh."))
        else refresh_all arguments ds)
