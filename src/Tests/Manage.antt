-- ===== src/Tests/Manage.antt =====
-- Runs of the management tool on a small system and on versions that are numbers.
use wincred_libsecret_wsl_pl.Cli.Doctor.{
  Format, Distribution, State, state, distribution_findings, distribution_diagnostics,
  runtime_findings, check_finding,
}
use wincred_libsecret_wsl_pl.Prelude.{
  ℕ, ◌≡◌, refl, ◌⊎◌, true, false, none, some, List, [], ◌∷◌, In, codes, ok, arith, ltb, length,
}
use wincred_libsecret_wsl_pl.Cli.Lifecycle.{CommandResult}
use wincred_libsecret_wsl_pl.Cli.Releases.{
  Semver, ReleaseCandidate, AvailableRelease, newest_public_release, Conflict, conflict_decision,
  refuse,
}
use wincred_libsecret_wsl_pl.Cli.Releases.Newest.{IsOrdered, newest_public_release-newest}
use wincred_libsecret_wsl_pl.Cli.Releases.Offered.{Offered}

-- The version of a tag is its length.
abbrev lengths : Semver ℕ
lengths = record { parse = λ t. some (length t); exceeds = λ u v. ltb v u }

lengths-IsOrdered : IsOrdered lengths
lengths-IsOrdered = record {
  exceeds_irrefl = λ u. ground arith;
  exceeds_asym = λ u v h. ground arith;
  exceeds_cotrans = λ u v w h k. ground arith;
}

abbrev candidates : List ReleaseCandidate
candidates =
    record { tag_name = codes "v1"; draft = false; prerelease = false }
    ∷ record { tag_name = codes "v123"; draft = true; prerelease = false }
    ∷ []

newest_public_release-newest_example :
    ((newest_public_release lengths candidates false ≡ none)
      × ((release : ReleaseCandidate) (version : ℕ)
          → In release candidates
          → ¬ Offered lengths false release version))
    ⊎ ((r : AvailableRelease ℕ) × (release : ReleaseCandidate) × (newest_public_release lengths
            candidates false
          ≡ some r)
        × In release candidates
        × (release.tag_name ≡ r.tag_name)
        × Offered lengths false release r.version
        × ((other : ReleaseCandidate) (version : ℕ)
            → In other candidates
            → Offered lengths false other version
            → lengths.exceeds version r.version ≡ false))
newest_public_release-newest_example =
    newest_public_release-newest lengths lengths-IsOrdered candidates false

abbrev foreign : List Conflict
foreign = record { path = codes "/etc/x"; project_owned = false } ∷ []

foreign-conflict : conflict_decision foreign false ≡ refuse
unfolding conflict_decision
foreign-conflict = refl

abbrev pub plain_format : Format
plain_format = record { debug = λ t. t; hyphenated = λ id. [] }

abbrev pub ubuntu : Distribution
ubuntu = record { id = 5; name = codes "Ubuntu"; version = some 2 }

abbrev pub healthy : CommandResult
healthy = record { success = true; stdout = codes "CHECK dbus ok running"; stderr = [] }

healthy-state :
    state (distribution_findings plain_format ubuntu (ok true) (ok healthy)) ≡ State.working
unfolding state distribution_findings distribution_diagnostics runtime_findings check_finding
healthy-state = refl
