-- ===== src/Cli/Releases/Offered.antt =====
-- The candidates that `newest_public_release` of crates/cli/src/lib.rs takes for available.
use wincred_libsecret_wsl_pl.Prelude.{
  ◌≡◌, refl, sym, subst, ap, ◌∙◌, ◌⊎◌, inl, inr, Bool, true, false, some, List, [], ◌∷◌, In, arith,
  Bool-cases, keep,
}
use wincred_libsecret_wsl_pl.Prelude.{ℕ, ◌==◌, ==_iff, Text, Option-cases, some_injective}
use wincred_libsecret_wsl_pl.Cli.Releases.{
  version_text, Semver, ReleaseCandidate, AvailableRelease, is_public, available,
}

-- A tag names a version by itself or after a `v` of either case.
pub data Names : Text → Text → Type 0 where
  after_lower : (text : Text) → Names (118 ∷ text) text
  after_upper : (text : Text) → Names (86 ∷ text) text
  empty_tag : Names [] []
  whole :
      (c : ℕ) (text : Text) → (c == 118) ≡ false → (c == 86) ≡ false → Names (c ∷ text) (c ∷ text)

version_text-Names : (tag text : Text) → Names tag text → version_text tag ≡ text
version_text-Names _ _ (after_lower text) = refl
version_text-Names _ _ (after_upper text) = refl
version_text-Names _ _ empty_tag = refl
version_text-Names _ _ (whole c text lower upper) = ground (arith, lower, upper)

Names-version_text : (tag : Text) → Names tag (version_text tag)
Names-version_text [] = empty_tag
Names-version_text (c ∷ t) = elim (Bool-cases (c == 118)) [
  | inl lower ↦ rw ((==_iff c 118).0 lower) (after_lower t)
  | inr other ↦ elim (Bool-cases (c == 86)) [
    | inl upper ↦ rw ((==_iff c 86).0 upper) (after_upper t)
    | inr neither ↦
        let n : Names (c ∷ t) (c ∷ t) = whole c t other neither in
        subst (Names (c ∷ t)) (sym (version_text-Names (c ∷ t) (c ∷ t) n)) n
  ]
]

module _ {V : Type 0} (semver : Semver V) where
  -- A release that may be offered: no draft, no prerelease unless these are wanted, with a version in its tag.
  pub record Offered (include_prereleases : Bool) (release : ReleaseCandidate) (version : V)
      : Type 0 where
    pub published : release.draft ≡ false
    pub stable : release.prerelease ≡ true → include_prereleases ≡ true
    pub version_name : Text
    pub names : Names release.tag_name version_name
    pub parsed : semver.parse version_name ≡ some version

  Offered-public :
      (b : Bool) (release : ReleaseCandidate) (version : V)
      → Offered b release version
      → (is_public b release ≡ true) × (semver.parse (version_text release.tag_name) ≡ some version)
  Offered-public b release version o = (
    ground (arith, o.published, o.stable),
    ap semver.parse (version_text-Names release.tag_name o.version_name o.names) ∙ o.parsed,
  )

  public-Offered :
      (b : Bool) (release : ReleaseCandidate) (version : V)
      → is_public b release ≡ true
      → semver.parse (version_text release.tag_name) ≡ some version
      → Offered b release version
  public-Offered b release version public parsed = record {
    published = ground (arith, public);
    stable = λ h. ground (arith, public, h);
    version_name = version_text release.tag_name;
    names = Names-version_text release.tag_name;
    parsed = parsed;
  }

  abbrev pub available_of : Bool → List ReleaseCandidate → List (AvailableRelease V)
  available_of b releases = available semver (keep (is_public b) releases)

  abbrev pub here : ReleaseCandidate → V → AvailableRelease V
  here release version = record { tag_name = release.tag_name; version = version }

  -- The first candidate is passed over, or is available before those of the others.
  available_of-cons :
      (b : Bool) (release : ReleaseCandidate) (releases : List ReleaseCandidate)
      → ((available_of b (release ∷ releases) ≡ available_of b releases)
          × ((version : V) → ¬ Offered b release version))
        ⊎ ((version : V) × Offered b release version
            × (available_of b (release ∷ releases)
                ≡ here release version ∷ available_of b releases))
  unfolding available
  available_of-cons b release releases = elim (Bool-cases (is_public b release)) [
    | inr hidden ↦ inl (rw hidden refl, λ v o. cc (hidden, (Offered-public b release v o).0))
    | inl public ↦ elim (Option-cases (semver.parse (version_text release.tag_name))) [
      | inl unread ↦ inl (
        rw (public, available, unread) refl,
        λ v o. cc (unread, (Offered-public b release v o).1),
      )
      | inr (version, read) ↦
          inr (
            version,
            public-Offered b release version public read,
            rw (public, available, read) refl,
          )
    ]
  ]

  pub available_of-Offered :
      (b : Bool) (releases : List ReleaseCandidate) (r : AvailableRelease V)
      → In r (available_of b releases)
      → (release : ReleaseCandidate) × In release releases
        × (release.tag_name ≡ r.tag_name)
        × Offered b release r.version
  unfolding available
  available_of-Offered b [] r i = absurd i
  available_of-Offered b (release ∷ releases) r i = elim (available_of-cons b release releases) [
    | inl (same, _) ↦
        let (found, j, tag, o) = available_of-Offered b releases r (subst (In r) same i) in
        (found, inr j, tag, o)
    | inr (version, o, first) ↦ elim (subst (In r) first i) [
      | inl e ↦ (
        release,
        inl refl,
        ap (λ (q : AvailableRelease V). q.tag_name) (sym e),
        subst (Offered b release) (ap (λ (q : AvailableRelease V). q.version) (sym e)) o,
      )
      | inr later ↦
          let (found, j, tag, p) = available_of-Offered b releases r later in (found, inr j, tag, p)
    ]
  ]

  pub Offered-available_of :
      (b : Bool) (releases : List ReleaseCandidate) (release : ReleaseCandidate) (version : V)
      → In release releases
      → Offered b release version
      → In (here release version) (available_of b releases)
  Offered-available_of b [] release version i o = absurd i
  Offered-available_of b (first ∷ releases) release version i o =
      elim (available_of-cons b first releases) [
        | inl (same, none_there) ↦ elim i [
          | inl e ↦ absurd (none_there version (subst (λ q. Offered b q version) e o))
          | inr later ↦
              subst (In (here release version)) (sym same)
                (Offered-available_of b releases release version later o)
        ]
        | inr (v, p, added) ↦ subst (In (here release version)) (sym added) (elim i [
          | inl e ↦
              let read = (Offered-public b release version o).1 in
              let same : v ≡ version = some_injective (
                sym (Offered-public b first v p).1
                ∙ ap (λ (q : ReleaseCandidate). semver.parse (version_text q.tag_name)) (sym e)
                ∙ read) in
              inl (ap (λ (q : ReleaseCandidate). here q version) e ∙ ap (here first) (sym same))
          | inr later ↦ inr (Offered-available_of b releases release version later o)
        ])
      ]
