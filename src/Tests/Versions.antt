-- ===== src/Tests/Versions.antt =====
-- Runs of the parsing of versions, names and paths of crates/cli.
use wincred_libsecret_wsl_pl.Cli.Lifecycle.{CommandResult}
use wincred_libsecret_wsl_pl.Protocol.Target.{split}
use wincred_libsecret_wsl_pl.Prelude.{◌≡◌, refl, ok, err, [], ◌∷◌, ◌++◌, codes, true, false, some}
use wincred_libsecret_wsl_pl.Cli.Versions.{
  candidate_of, at_least, check_wsl_version, WslVersion, parse_digits, parse_u32, line_version,
  parse_wsl_version, no_wsl_version, minimum_wsl_version, parse_wsl_distribution_names,
  windows_paths_equal, product_publisher_matches,
}

minimum :
    parse_wsl_version (codes "WSL version: 2.5.1.0" ++ (13 ∷ 10 ∷ codes "Kernel version: 6.6"))
    ≡ ok minimum_wsl_version
unfolding parse_wsl_version line_version candidate_of parse_u32 parse_digits split
minimum = refl

kernel : parse_wsl_version (codes "Kernel version: 6.6") ≡ err no_wsl_version
unfolding parse_wsl_version line_version candidate_of parse_u32 parse_digits split
kernel = refl

names :
    parse_wsl_distribution_names (
      239 ∷ 187 ∷ 191 ∷ codes "Ubuntu 24.04"
      ++ (13 ∷ 10 ∷ codes "Arch Linux" ++ (13 ∷ 10 ∷ 13 ∷ 10 ∷ [])))
    ≡ codes "Ubuntu 24.04" ∷ codes "Arch Linux" ∷ []
unfolding parse_wsl_distribution_names
names = refl

paths :
    windows_paths_equal (codes "\\\\?\\C:\\Program Files\\a.dll") (codes "c:\\program files\\A.dll")
    ≡ true
unfolding windows_paths_equal
paths = refl

graphics :
    parse_wsl_version (codes "WSLg version: 1.0.66")
    ≡ ok (record { major = 1; minor = 0; patch = 66 })
unfolding parse_wsl_version line_version candidate_of parse_u32 parse_digits split
graphics = refl

publisher : product_publisher_matches (some (codes "Somebody else")) ≡ false
unfolding product_publisher_matches
publisher = refl

abbrev new_enough : CommandResult
new_enough = record { success = true; stdout = codes "WSL version: 2.7.11.0"; stderr = [] }

abbrev installed : WslVersion
installed = record { major = 2; minor = 7; patch = 11 }

accepted : check_wsl_version (some new_enough) ≡ ok installed
unfolding check_wsl_version parse_wsl_version line_version candidate_of parse_u32 parse_digits split
    at_least
accepted = refl
