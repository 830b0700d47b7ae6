-- ===== src/Cli/Versions.antt =====
-- What crates/cli reads from `wsl.exe`: the version and the names of distributions of lib.rs, with the
-- finding on the version, the comparison of paths and the publisher's test of main.rs.
use wincred_libsecret_wsl_pl.Prelude.{
  text_eq, zero, keep, suc, ◌^◌, ◌-◌, ◌*◌, ◌+◌, ℕ, Bool, false, not, ◌&&◌, ◌||◌, Option, none, some,
  List, [], ◌∷◌, ◌++◌, map, Text, codes, length, leb, ltb, ◌==◌, if◌then◌else◌, Result, ok, err,
}
use wincred_libsecret_wsl_pl.Protocol.Errors.{show_nat, contains}
use wincred_libsecret_wsl_pl.Protocol.Target.{strip_prefix, split}
use wincred_libsecret_wsl_pl.Cli.Lifecycle.{CommandResult}
use wincred_libsecret_wsl_pl.Cli.Doctor.{DoctorFinding, finding_ok, finding_fail, display_error}
use wincred_libsecret_wsl_pl.Cli.Trim.{trim, drop_front, lines}

pub record WslVersion : Type 0 where
  pub major : ℕ
  pub minor : ℕ
  pub patch : ℕ

abbrev pub minimum_wsl_version : WslVersion
minimum_wsl_version = record { major = 2; minor = 5; patch = 1 }

unfoldable pub show_version : WslVersion → Text
show_version v =
    show_nat v.major ++ (codes "." ++ (show_nat v.minor ++ (codes "." ++ show_nat v.patch)))

-- `compare_versions(v, w).is_ge()`, by the derived order: the fields in their order.
unfoldable pub at_least : WslVersion → WslVersion → Bool
at_least v w =
    ltb w.major v.major
    || (v.major == w.major && (ltb w.minor v.minor || (v.minor == w.minor && leb w.patch v.patch)))

pub data ParseError : Type 0 where
  no_wsl_version : ParseError
  invalid_wsl_version : Text → ParseError

abbrev is_digit : ℕ → Bool
is_digit c = leb 48 c && leb c 57

abbrev lower_byte : ℕ → ℕ
lower_byte c = if leb 65 c && leb c 90 then c + 32 else c

abbrev pub to_ascii_lowercase : Text → Text
to_ascii_lowercase text = map lower_byte text

-- The text behind the first colon, or the whole text.
abbrev after_colon : Text → Option Text
after_colon [] = none
after_colon (c ∷ t) = if c == 58 then some t else after_colon t

abbrev value_of : Text → Text
value_of line = elim (after_colon line) [ none ↦ line | some value ↦ value ]

-- `trim_start_matches('v')`
abbrev drop_v : Text → Text
drop_v [] = []
drop_v (c ∷ t) = if c == 118 then drop_v t else c ∷ t

abbrev starts_with_digit : Text → Bool
starts_with_digit [] = false
starts_with_digit (c ∷ t) = is_digit c

-- `split_whitespace().next()` of a text that does not start with white space.
abbrev first_word : Text → Text
first_word [] = []
first_word (c ∷ t) =
    let rest = first_word t in elim (drop_front (c ∷ t)) [ none ↦ c ∷ rest | some after ↦ [] ]

-- `trim_end_matches` of what is neither a digit nor a dot.
abbrev trim_numeric : Text → Text
trim_numeric [] = []
trim_numeric (c ∷ t) =
    let rest = trim_numeric t in
    if length rest == 0 && not (is_digit c || c == 46) then [] else c ∷ rest

-- `u32::from_str`: a plus sign may stand in front of the digits, of which there is at least one.
abbrev pub drop_plus : Text → Text
drop_plus [] = []
drop_plus (c ∷ t) = if c == 43 then t else c ∷ t

abbrev pub add_digit : ℕ → ℕ → Option ℕ
add_digit n c = let m = n * 10 + (c - 48) in if is_digit c && ltb m (2 ^ 32) then some m else none

unfoldable pub parse_digits : ℕ → Text → Option ℕ
parse_digits n [] = some n
parse_digits n (c ∷ t) = elim (add_digit n c) [ none ↦ none | some m ↦ parse_digits m t ]

unfoldable pub parse_u32 : Text → Option ℕ
unfolding parse_digits
parse_u32 part = if length (drop_plus part) == 0 then none else parse_digits 0 (drop_plus part)

abbrev pub parse_parts : List Text → Option (List ℕ)
parse_parts [] = some []
parse_parts (part ∷ parts) = elim (parse_u32 part) [
  | none ↦ none
  | some n ↦ elim (parse_parts parts) [ none ↦ none | some ns ↦ some (n ∷ ns) ]
]

-- The first three components; there are two at least.
abbrev pub version_of : List ℕ → Option WslVersion
version_of [] = none
version_of (a ∷ []) = none
version_of (a ∷ b ∷ []) = some (record { major = a; minor = b; patch = 0 })
version_of (a ∷ b ∷ c ∷ rest) = some (record { major = a; minor = b; patch = c })

abbrev pub parse_numeric : Text → Option WslVersion
parse_numeric numeric =
    let components = split 46 numeric in
    if leb 2 (length components) && leb (length components) 4
    then elim (parse_parts components) [ none ↦ none | some parsed ↦ version_of parsed ]
    else none

unfoldable pub candidate_of : Text → Text
unfolding trim
candidate_of line = drop_v (trim (value_of line))

abbrev pub line_numeric : Text → Text
line_numeric line = trim_numeric (first_word (candidate_of line))

-- The version of a line, where the loop does not go on to the next one.
unfoldable pub line_version : Text → Option WslVersion
line_version line =
    let normalized_line = to_ascii_lowercase line in
    if contains (codes "wsl") normalized_line
      && contains (codes "version") normalized_line
      && starts_with_digit (candidate_of line)
    then parse_numeric (line_numeric line)
    else none

abbrev pub first_version : List Text → Result ParseError WslVersion
first_version [] = err no_wsl_version
first_version (line ∷ rest) = elim (line_version line) [
  | none ↦ first_version rest
  | some version ↦ ok version
]

unfoldable pub parse_wsl_version : Text → Result ParseError WslVersion
unfolding line_version
parse_wsl_version output = first_version (lines output)

-- The answer of `wsl.exe --version`, or the error of running it.
unfoldable pub check_wsl_version : Option CommandResult → Result Text WslVersion
unfolding display_error show_version at_least parse_wsl_version
check_wsl_version none = err (codes "could not run wsl.exe --version; install WSL first")
check_wsl_version (some result) =
    if not result.success
    then err (codes "wsl.exe --version failed: " ++ display_error result)
    else elim (parse_wsl_version result.stdout) [
      | err error ↦ err (codes "could not parse `wsl.exe --version` output")
      | ok version ↦
          if at_least version minimum_wsl_version
          then ok version
          else err (
              codes "WSL "
              ++ (show_version version
                  ++ (codes " is too old; version "
                      ++ (show_version minimum_wsl_version ++ codes " or newer is required"))))
    ]

unfoldable pub wsl_version_finding : Result Text WslVersion → DoctorFinding
unfolding show_version
wsl_version_finding (ok version) =
    finding_ok (codes "wsl-version") (codes "WSL " ++ show_version version)
wsl_version_finding (err error) =
    finding_fail (codes "wsl-version") error
      (codes "Install or update WSL to version 2.5.1 or newer.")

-- `trim_end_matches('\r')` and `trim_start_matches('\u{feff}')`, whose bytes are 239, 187 and 191.
abbrev trim_returns : Text → Text
trim_returns [] = []
trim_returns (c ∷ t) =
    let rest = trim_returns t in if length rest == 0 && c == 13 then [] else c ∷ rest

abbrev trim_marks : ℕ → Text → Text
trim_marks zero text = text
trim_marks (suc n) text = elim (strip_prefix (239 ∷ 187 ∷ 191 ∷ []) text) [
  | none ↦ text
  | some rest ↦ trim_marks n rest
]

abbrev trim_name : Text → Text
trim_name line = let name = trim_returns line in trim_marks (length name) name

unfoldable pub parse_wsl_distribution_names : Text → List Text
parse_wsl_distribution_names output =
    keep (λ line. not (length line == 0)) (map trim_name (lines output))

unfoldable pub normalize_windows_path : Text → Text
normalize_windows_path path = elim (strip_prefix (codes "\\\\?\\UNC\\") path) [
  | some unc ↦ codes "\\\\" ++ unc
  | none ↦ elim (strip_prefix (codes "\\\\?\\") path) [ none ↦ path | some rest ↦ rest ]
]

unfoldable pub windows_paths_equal : Text → Text → Bool
unfolding normalize_windows_path
windows_paths_equal left right =
    text_eq (to_ascii_lowercase (normalize_windows_path left))
      (to_ascii_lowercase (normalize_windows_path right))

unfoldable pub product_publisher_matches : Option Text → Bool
product_publisher_matches none = false
product_publisher_matches (some publisher) =
    text_eq publisher (codes "Bharat Middha")
    || text_eq publisher (codes "wincred-libsecret-wsl-plugin contributors")
