-- ===== src/Cli/Distributions.antt =====
-- The distributions of the Windows user and their enablement, in crates/cli/src/main.rs.
use wincred_libsecret_wsl_pl.Prelude.{
  ℕ, Bool, true, false, not, ◌&&◌, ◌||◌, Option, none, some, List, [], ◌∷◌, ◌++◌, Text, codes, keep,
  length, ◌==◌, if◌then◌else◌, Result, ok, err,
}
use wincred_libsecret_wsl_pl.Prelude.Exec.{Exec, pure, raise, outcome, match_result, ◌>>=◌, ◌>>◌}
use wincred_libsecret_wsl_pl.Prelude.Order.{text_ord}
use wincred_libsecret_wsl_pl.Prelude.OrdMap.{sort_by}
use wincred_libsecret_wsl_pl.Protocol.Model.{Uuid}
use wincred_libsecret_wsl_pl.Protocol.Target.{Crates}
use wincred_libsecret_wsl_pl.Cli.Lifecycle.{
  distribution_registry_path, distribution_enablement_value,
}
use wincred_libsecret_wsl_pl.Cli.Doctor.{Distribution}
use wincred_libsecret_wsl_pl.Cli.Machine.{
  current_user, RegistryError, Machine, look, look_at, registry, with_context, equals_ignoring_case,
}
use wincred_libsecret_wsl_pl.Cli.Machine.{run_process}

abbrev pub is_brace : ℕ → Bool
is_brace c = c == 123 || c == 125

abbrev pub trim_braces_front : Text → Text
trim_braces_front [] = []
trim_braces_front (c ∷ t) = if is_brace c then trim_braces_front t else c ∷ t

abbrev pub trim_braces_back : Text → Text
trim_braces_back [] = []
trim_braces_back (c ∷ t) =
    let rest = trim_braces_back t in if length rest == 0 && is_brace c then [] else c ∷ rest

-- `trim_matches(['{', '}'])`
abbrev pub trim_braces : Text → Text
trim_braces name = trim_braces_back (trim_braces_front name)

abbrev pub lxss_path : Text
lxss_path = codes "Software\\Microsoft\\Windows\\CurrentVersion\\Lxss"

abbrev pub to_option : {E A : Type 0} → Result E A → Option A
to_option (ok a) = some a
to_option (err e) = none

module _ (c : Crates) {S : Type 0} (y : Machine S) where
  abbrev pub subkey : Text → Text
  subkey name = lxss_path ++ (codes "\\" ++ name)

  -- What the registry says of a distribution, past its identifier.
  abbrev pub named_distribution : Uuid → Text → S → Option Distribution
  named_distribution id name s =
      elim (to_option (y.get_string current_user (subkey name) (codes "DistributionName") s)) [
        | none ↦ none
        | some own ↦ some (record {
          id = id;
          name = own;
          version = to_option (y.get_dword current_user (subkey name) (codes "Version") s);
        })
      ]

  abbrev pub opened_distribution : Uuid → Text → S → Option Distribution
  opened_distribution id name s = elim (y.open_subkey current_user (subkey name) s) [
    | err e ↦ none
    | ok _ ↦ named_distribution id name s
  ]

  -- A subkey that is not a distribution is passed over.
  unfoldable pub distribution_at : Result Text Text → S → Option Distribution
  distribution_at (err e) s = none
  distribution_at (ok name) s = elim (c.parse_str (trim_braces name)) [
    | none ↦ none
    | some id ↦ opened_distribution id name s
  ]

  unfoldable pub collect_distributions : List (Result Text Text) → S → List Distribution
  unfolding distribution_at
  collect_distributions [] s = []
  collect_distributions (name ∷ names) s =
      let rest = collect_distributions names s in
      elim (distribution_at name s) [ none ↦ rest | some d ↦ d ∷ rest ]

  abbrev pub by_name : Distribution → Text
  by_name d = d.name

  -- With the key open. What `wsl.exe` lists is not used.
  unfoldable pub registered_distributions : Exec S Text (List Distribution)
  unfolding run_process collect_distributions
  registered_distributions = do
    listed ← outcome (run_process y (codes "wsl.exe") (codes "--list" ∷ codes "--quiet" ∷ []))
    found ← look (λ s. collect_distributions (y.enum_keys current_user lxss_path s) s)
    pure (sort_by by_name found)

  abbrev pub not_enumerated : RegistryError → Exec S Text (List Distribution)
  not_enumerated e =
      if e.is_absent
      then pure []
      else raise (with_context (codes "could not enumerate WSL distribution registry") e.text)

  unfoldable pub enumerate_distributions : Exec S Text (List Distribution)
  unfolding registered_distributions
  enumerate_distributions = do
    opened ← look (y.open_subkey current_user lxss_path)
    match_result opened not_enumerated (λ _. registered_distributions)

  abbrev pub only_one : Text → List Distribution → Exec S Text Distribution
  only_one name [] =
      raise (codes "WSL distribution '" ++ (name ++ codes "' was not found for this Windows user"))
  only_one name (d ∷ []) = pure d
  only_one name (d ∷ e ∷ ds) = raise (
      codes "multiple WSL distributions match '"
      ++ (name ++ codes "'; use its exact registered name"))

  unfoldable pub find_distribution : Text → Exec S Text Distribution
  unfolding enumerate_distributions
  find_distribution name = do
    ds ← enumerate_distributions
    only_one name (keep (λ (d : Distribution). equals_ignoring_case d.name name) ds)

  abbrev pub is_nonzero : Result RegistryError ℕ → Bool
  is_nonzero (ok value) = not (value == 0)
  is_nonzero (err e) = false

  abbrev pub enabled_at : Text → Result RegistryError (Unit {0}) → S → Result Text Bool
  enabled_at path (ok _) s =
      ok (is_nonzero (y.get_dword current_user path distribution_enablement_value s))
  enabled_at path (err e) s =
      if e.is_absent
      then ok false
      else err (with_context (codes "could not read distribution enablement") e.text)

  unfoldable pub distribution_enabled : Uuid → Exec S Text Bool
  distribution_enabled id = look_at λ s.
      enabled_at (distribution_registry_path c id)
        (y.open_subkey current_user (distribution_registry_path c id) s) s

  unfoldable pub enable : Uuid → Exec S Text (Unit {0})
  enable id = do
    registry (codes "could not create distribution enablement key")
        (y.create_subkey current_user (distribution_registry_path c id))
    registry (codes "could not enable the distribution callback")
        (y.set_dword current_user (distribution_registry_path c id) distribution_enablement_value 1)

  abbrev pub removed : Result RegistryError (Unit {0}) → Result Text (Unit {0})
  removed (ok _) = ok tt
  removed (err e) =
      if e.is_absent
      then ok tt
      else err (with_context (codes "could not remove distribution enablement") e.text)

  unfoldable pub disable : Uuid → Exec S Text (Unit {0})
  disable id s =
      let (r, s') = y.delete_subkey_all current_user (distribution_registry_path c id) s in
      (removed r, s')

  unfoldable pub set_distribution_enabled : Uuid → Bool → Exec S Text (Unit {0})
  unfolding enable disable
  set_distribution_enabled id true = enable id
  set_distribution_enabled id false = disable id

  unfoldable pub keep_enabled : List Distribution → Exec S Text (List Distribution)
  unfolding distribution_enabled
  keep_enabled [] = pure []
  keep_enabled (d ∷ ds) = do
    enabled ← distribution_enabled d.id
    rest ← keep_enabled ds
    pure (if enabled then d ∷ rest else rest)

  unfoldable pub enabled_distributions : Exec S Text (List Distribution)
  unfolding enumerate_distributions keep_enabled
  enabled_distributions = do ds ← enumerate_distributions; keep_enabled ds
