-- ===== src/Cli/Releases/Newest.antt =====
-- What `newest_public_release` and `conflict_decision` of crates/cli/src/lib.rs choose.
use wincred_libsecret_wsl_pl.Prelude.{
  ◌≡◌, refl, sym, subst, ap, ◌∙◌, ◌↔◌, ◌⊎◌, inl, inr, Bool, true, false, none, some, List, [], ◌∷◌,
  In, arith, Bool-cases, every,
}
use wincred_libsecret_wsl_pl.Cli.Releases.{
  Semver, ReleaseCandidate, AvailableRelease, max_from, max_by_version, newest_public_release,
  Conflict, conflict_decision, refuse,
}
use wincred_libsecret_wsl_pl.Cli.Releases.Offered.{
  Offered, available_of, here, available_of-Offered, Offered-available_of,
}

-- The conflicts are refused exactly where some conflicting file is not owned by the project and no
-- replacement was asked for.
pub conflict_decision-refuse_iff :
    (conflicts : List Conflict) (replace : Bool)
    → (conflict_decision conflicts replace ≡ refuse)
      ↔ ((every (λ (c : Conflict). c.project_owned) conflicts ≡ false) × (replace ≡ false))
unfolding conflict_decision
conflict_decision-refuse_iff conflicts replace = (λ h. ground arith, λ h. ground arith)

-- `exceeds` is the strict part of a total order, as of the `Ord` of versions.
pub record IsOrdered {V : Type 0} (semver : Semver V) : Type 0 where
  pub exceeds_irrefl : (u : V) → semver.exceeds u u ≡ false
  pub exceeds_asym : (u v : V) → semver.exceeds u v ≡ true → semver.exceeds v u ≡ false
  pub exceeds_cotrans :
      (u v w : V)
      → semver.exceeds u v ≡ false
      → semver.exceeds v w ≡ false
      → semver.exceeds u w ≡ false

module _ {V : Type 0} (semver : Semver V) (law : IsOrdered semver) where
  max_from-more :
      (best next : AvailableRelease V) (rest : List (AvailableRelease V))
      → semver.exceeds best.version next.version ≡ true
      → max_from semver best (next ∷ rest) ≡ max_from semver best rest
  unfolding max_from
  max_from-more best next rest h = rw h refl

  max_from-less :
      (best next : AvailableRelease V) (rest : List (AvailableRelease V))
      → semver.exceeds best.version next.version ≡ false
      → max_from semver best (next ∷ rest) ≡ max_from semver next rest
  unfolding max_from
  max_from-less best next rest h = rw h refl

  -- The result of the loop is one of the releases, and none of them exceeds it.
  max_from-In :
      (best : AvailableRelease V) (rest : List (AvailableRelease V))
      → In (max_from semver best rest) (best ∷ rest)
  unfolding max_from
  max_from-In best [] = inl refl
  max_from-In best (next ∷ rest) = elim (Bool-cases (semver.exceeds best.version next.version)) [
    | inl more ↦
        subst (λ q. In q (best ∷ next ∷ rest)) (sym (max_from-more best next rest more))
          (elim (max_from-In best rest) [ inl e ↦ inl e | inr i ↦ inr (inr i) ])
    | inr less ↦
        subst (λ q. In q (best ∷ next ∷ rest)) (sym (max_from-less best next rest less))
          (inr (max_from-In next rest))
  ]

  max_from-max :
      (best : AvailableRelease V) (rest : List (AvailableRelease V)) (r : AvailableRelease V)
      → In r (best ∷ rest)
      → semver.exceeds r.version (max_from semver best rest).version ≡ false
  unfolding max_from
  max_from-max best [] r (inl e) = rw e (law.exceeds_irrefl best.version)
  max_from-max best [] r (inr i) = absurd i
  max_from-max best (next ∷ rest) r i =
      elim (Bool-cases (semver.exceeds best.version next.version)) [
        | inl more ↦ rw (max_from-more best next rest more) (elim i [
          | inl e ↦ max_from-max best rest r (inl e)
          | inr (inl e) ↦
              law.exceeds_cotrans r.version best.version (max_from semver best rest).version
                (ap (λ q. semver.exceeds q.version best.version) e
                  ∙ law.exceeds_asym best.version next.version more)
                (max_from-max best rest best (inl refl))
          | inr (inr j) ↦ max_from-max best rest r (inr j)
        ])
        | inr less ↦ rw (max_from-less best next rest less) (elim i [
          | inl e ↦
              law.exceeds_cotrans r.version next.version (max_from semver next rest).version
                (ap (λ q. semver.exceeds q.version next.version) e ∙ less)
                (max_from-max next rest next (inl refl))
          | inr j ↦ max_from-max next rest r j
        ])
      ]

  max_by_version-max :
      (l : List (AvailableRelease V))
      → ((max_by_version semver l ≡ none) × (l ≡ []))
        ⊎ ((r : AvailableRelease V) × (max_by_version semver l ≡ some r)
            × In r l
            × ((other : AvailableRelease V)
                → In other l
                → semver.exceeds other.version r.version ≡ false))
  unfolding max_by_version
  max_by_version-max [] = inl (refl, refl)
  max_by_version-max (first ∷ rest) =
      inr (max_from semver first rest, refl, max_from-In first rest, max_from-max first rest)

  -- Where versions are totally ordered, there is no newest public release and no candidate can be
  -- offered, or the newest has the tag and the version of a candidate that can be offered, and the
  -- version of no such candidate exceeds it. A candidate can be offered that is no draft, and no
  -- prerelease unless these are asked for, and whose tag is a version, by itself or after a `v` of
  -- either case.
  pub newest_public_release-newest :
      (releases : List ReleaseCandidate) (include_prereleases : Bool)
      → ((newest_public_release semver releases include_prereleases ≡ none)
          × ((release : ReleaseCandidate) (version : V)
              → In release releases
              → ¬ Offered semver include_prereleases release version))
        ⊎ ((r : AvailableRelease V) × (release : ReleaseCandidate) × (newest_public_release semver
                releases include_prereleases
              ≡ some r)
            × In release releases
            × (release.tag_name ≡ r.tag_name)
            × Offered semver include_prereleases release r.version
            × ((other : ReleaseCandidate) (version : V)
                → In other releases
                → Offered semver include_prereleases other version
                → semver.exceeds version r.version ≡ false))
  unfolding newest_public_release
  newest_public_release-newest releases include_prereleases =
      elim (max_by_version-max (available_of semver include_prereleases releases)) [
        | inl (e, empty) ↦ inl (
          e,
          λ release version i o.
              subst (In (here semver release version)) empty
                (Offered-available_of semver include_prereleases releases release version i o),
        )
        | inr (r, e, i, most) ↦
            let (release, j, tag, o) =
              available_of-Offered semver include_prereleases releases r i in
            inr (
              r,
              release,
              e,
              j,
              tag,
              o,
              λ other version k p.
                  most (here semver other version)
                    (Offered-available_of semver include_prereleases releases other version k p),
            )
      ]
