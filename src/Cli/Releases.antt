-- ===== src/Cli/Releases.antt =====
-- The choice of a release and of what to do on a conflict, of crates/cli/src/lib.rs. The `semver`
-- crate is a parameter: a parser of versions and their order.
pub mod Offered
pub mod Newest
use wincred_libsecret_wsl_pl.Prelude.{
  ℕ, Bool, true, false, not, ◌&&◌, ◌||◌, Option, none, some, List, [], ◌∷◌, Text, codes, every,
  keep, if◌then◌else◌,
}
use wincred_libsecret_wsl_pl.Protocol.Target.{strip_prefix}

pub record Conflict : Type 0 where
  pub path : Text
  pub project_owned : Bool

pub data ConflictDecision : Type 0 where
  proceed replace_and_backup refuse : ConflictDecision

unfoldable pub conflict_decision : List Conflict → Bool → ConflictDecision
conflict_decision conflicts replace =
    if every (λ c. c.project_owned) conflicts
    then proceed
    else if replace
    then replace_and_backup
    else refuse

-- `Version::parse`, and `left > right` of the order of versions.
pub record Semver (V : Type 0) : Type 0 where
  pub parse : Text → Option V
  pub exceeds : V → V → Bool

pub record ReleaseCandidate : Type 0 where
  pub tag_name : Text
  pub draft : Bool
  pub prerelease : Bool

pub record AvailableRelease (V : Type 0) : Type 0 where
  pub tag_name : Text
  pub version : V

-- `strip_prefix('v')`, else `strip_prefix('V')`, else the tag.
abbrev pub version_text : Text → Text
version_text tag = elim (strip_prefix (b'v' ∷ []) tag) [
  | some rest ↦ rest
  | none ↦ elim (strip_prefix (b'V' ∷ []) tag) [ some rest ↦ rest | none ↦ tag ]
]

abbrev pub is_public : Bool → ReleaseCandidate → Bool
is_public include_prereleases release =
    not release.draft && (include_prereleases || not release.prerelease)

module _ {V : Type 0} (semver : Semver V) where
  -- The `filter_map`.
  unfoldable pub available : List ReleaseCandidate → List (AvailableRelease V)
  available [] = []
  available (release ∷ releases) =
      let rest = available releases in
      elim (semver.parse (version_text release.tag_name)) [
        | none ↦ rest
        | some version ↦ record { tag_name = release.tag_name; version = version } ∷ rest
      ]

  -- `Iterator::max_by`: of equal versions the last one.
  unfoldable pub max_from : AvailableRelease V → List (AvailableRelease V) → AvailableRelease V
  max_from best [] = best
  max_from best (next ∷ rest) =
      max_from (if semver.exceeds best.version next.version then best else next) rest

  unfoldable pub max_by_version : List (AvailableRelease V) → Option (AvailableRelease V)
  max_by_version [] = none
  max_by_version (first ∷ rest) = some (max_from first rest)

  unfoldable pub newest_public_release : List ReleaseCandidate → Bool → Option (AvailableRelease V)
  unfolding available max_from max_by_version
  newest_public_release releases include_prereleases =
      max_by_version (available (keep (is_public include_prereleases) releases))
