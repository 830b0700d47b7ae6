-- ===== src/Cli/Provision/Order.antt =====
-- The order of the steps of `distro enable`, `refresh` and `disable` of crates/cli/src/main.rs.
use wincred_libsecret_wsl_pl.Prelude.{◌≡◌, refl, ap, ◌∙◌, ◌⊎◌, inl, inr, Text, ok, err}
use wincred_libsecret_wsl_pl.Prelude.Results.{Result-cases}
use wincred_libsecret_wsl_pl.Prelude.Exec.{Exec, ◌>>=◌, ◌>>◌}
use wincred_libsecret_wsl_pl.Prelude.Exec.Keeps.{Keeps}
use wincred_libsecret_wsl_pl.Prelude.Exec.Inversion.{bind-outcome, bind-failure}
use wincred_libsecret_wsl_pl.Protocol.Target.{Crates}
use wincred_libsecret_wsl_pl.Cli.Doctor.{Distribution, Format}
use wincred_libsecret_wsl_pl.Cli.Machine.{Machine}
use wincred_libsecret_wsl_pl.Cli.Distributions.{find_distribution}
use wincred_libsecret_wsl_pl.Cli.Provision.{
  DistroEnableArguments, provision_distribution, distro_enable,
}
use wincred_libsecret_wsl_pl.Cli.Provision.Refresh.{DistroRefreshArguments, distro_refresh}
use wincred_libsecret_wsl_pl.Cli.Provision.Disable.{clean_files, distro_disable}
use wincred_libsecret_wsl_pl.Cli.Machine.Apart.{IsApart}
use wincred_libsecret_wsl_pl.Cli.Provision.Enablement.{
  find_distribution-Seen, provision_distribution-Seen, distro_refresh-Seen, clean_files-Seen,
}

-- The action fails and what is seen of the state is as before.
abbrev pub FailsUnchanged : {S V E A : Type 0} → (S → V) → Exec S E A → S → Type 0
FailsUnchanged {E = E} view m s = ((e : E) × ((m s).0 ≡ err e)) × (view (m s).1 ≡ view s)

-- A block whose first two steps leave what is seen alone: one of them fails, and so does the block, or both succeed.
guarded-FailsUnchanged :
    {S V E A B C : Type 0} (view : S → V) (first : Exec S E A) (second : A → Exec S E B)
    (rest : A → Exec S E C) (s : S)
    → ((v : V) → Keeps (λ t. view t ≡ v) first)
    → ((v : V) (a : A) → Keeps (λ t. view t ≡ v) (second a))
    → FailsUnchanged view (first >>= λ a. second a >> rest a) s
      ⊎ ((a : A) × ((first s).0 ≡ ok a) × ((b : B) × ((second a (first s).1).0 ≡ ok b)))
guarded-FailsUnchanged view first second rest s k₁ k₂ = elim (Result-cases (first s).0) [
  | inr (e, failed) ↦
      let q = bind-failure first (λ a. second a >> rest a) s e failed in
      inl ((e, ap (λ x. x.0) q), ap (λ x. view x.1) q ∙ (k₁ (view s)).at s refl)
  | inl (a, done) ↦
      let q = bind-outcome first (λ a. second a >> rest a) s a done in
      elim (Result-cases (second a (first s).1).0) [
        | inl (b, reached) ↦ inr (a, done, (b, reached))
        | inr (e, failed) ↦
            let q' = q ∙ bind-failure (second a) (λ _. rest a) (first s).1 e failed in
            inl (
              (e, ap (λ x. x.0) q'),
              ap (λ x. view x.1) q' ∙ (k₂ (view s) a).at (first s).1 ((k₁ (view s)).at s refl),
            )
      ]
]

module _ (c : Crates) (format : Format) {S V : Type 0} (y : Machine S) (view : S → V)
    (apart : IsApart y view) where
  -- Where running programs and printing leave what is seen of the registry as it is,
  -- `distro_refresh` leaves it as it is, whatever it comes to.
  pub distro_refresh-unchanged :
      (arguments : DistroRefreshArguments) (s : S)
      → view (distro_refresh c format y arguments s).1 ≡ view s
  distro_refresh-unchanged arguments s =
      (distro_refresh-Seen y view apart (view s) c format arguments).at s refl

  -- Where running programs and printing leave what is seen of the registry as it is,
  -- `distro_enable` fails and that is as before, or the distribution was found and provisioned.
  pub distro_enable-provisioned :
      (arguments : DistroEnableArguments) (s : S)
      → FailsUnchanged view (distro_enable c format y arguments) s
        ⊎ ((d : Distribution) × ((find_distribution c y arguments.name s).0 ≡ ok d)
            × ((u : Unit {0}) × ((provision_distribution c format y d arguments
                    (find_distribution c y arguments.name s).1).0
                  ≡ ok u)))
  unfolding distro_enable
  distro_enable-provisioned arguments s =
      guarded-FailsUnchanged view _ _ _ s
        (λ v. find_distribution-Seen y view apart v c arguments.name)
        λ v d. provision_distribution-Seen y view apart v c format d arguments

  -- Where running programs and printing leave what is seen of the registry as it is,
  -- `distro_disable` fails and that is as before, or the distribution was found and `clean_files`
  -- has succeeded for it, the clean-up by the payload or the helper of the distribution, which
  -- does nothing where there is no helper.
  pub distro_disable-cleaned :
      (name : Text) (s : S)
      → FailsUnchanged view (distro_disable c format y name) s
        ⊎ ((d : Distribution) × ((find_distribution c y name s).0 ≡ ok d)
            × ((u : Unit {0}) × ((clean_files c format y d (find_distribution c y name s).1).0
                  ≡ ok u)))
  unfolding distro_disable
  distro_disable-cleaned name s =
      guarded-FailsUnchanged view _ _ _ s (λ v. find_distribution-Seen y view apart v c name)
        λ v d. clean_files-Seen y view apart v c format d
