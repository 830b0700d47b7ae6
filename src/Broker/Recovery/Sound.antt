-- ===== src/Broker/Recovery/Sound.antt =====
-- What the loop over the plan of `reconcile_locked` of crates/broker/src/service.rs deletes.
use wincred_libsecret_wsl_pl.Prelude.{
  ℕ, ◌+◌, ◌++◌, ◌≡◌, refl, ◌∙◌, false, none, List, [], ◌∷◌, In, inl, inr, arith, ok,
}
use wincred_libsecret_wsl_pl.Prelude.Exec.{◌>>=◌}
use wincred_libsecret_wsl_pl.Prelude.Results.{Result-cases}
use wincred_libsecret_wsl_pl.Protocol.Model.{Uuid}
use wincred_libsecret_wsl_pl.Protocol.Target.{TargetName, target_eq}
use wincred_libsecret_wsl_pl.Protocol.Vault.{
  RecoveryAction, delete_abandoned_generation, report_missing_committed_generation,
}
use wincred_libsecret_wsl_pl.Broker.Backend.{VaultBackend, IsLawful}
use wincred_libsecret_wsl_pl.Broker.Backend.Effects.{target_eq_refl, delete_other, delete_cases}
use wincred_libsecret_wsl_pl.Broker.Metadata.{Deps}
use wincred_libsecret_wsl_pl.Broker.Recovery.{run_plan}

module _ (d : Deps) {S : Type 0} (b : VaultBackend S) {good : S → Type 0}
    (law : IsLawful d.crates b good) where
  -- A target that the plan does not delete is left alone, also where a deletion fails.
  pub run_plan-other :
      (plan : List RecoveryAction) (n : ℕ) (bad : List Uuid) (s : S) (u : TargetName)
      → ((i g : Uuid)
          → In (delete_abandoned_generation i g) plan
          → target_eq (TargetName.item_secret i g) u ≡ false)
      → law.creds (run_plan b plan n bad s).1 u ≡ law.creds s u
  unfolding run_plan ◌>>=◌
  run_plan-other [] n bad s u h = refl
  run_plan-other (report_missing_committed_generation i g ∷ plan) n bad s u h =
      run_plan-other plan n (bad ++ (i ∷ [])) s u (λ j k at. h j k (inr at))
  run_plan-other (delete_abandoned_generation i g ∷ plan) n bad s u h =
      elim (Result-cases (b.delete (TargetName.item_secret i g) s).0) [
        | inl (_, e) ↦ rw e (
            run_plan-other plan (n + 1) bad (b.delete (TargetName.item_secret i g) s).1 u
              (λ j k at. h j k (inr at))
            ∙ delete_other b law (TargetName.item_secret i g) s u (h i g (inl refl)))
        | inr (x, e) ↦ rw e (delete_other b law (TargetName.item_secret i g) s u (h i g (inl refl)))
      ]

  -- What is absent stays absent.
  pub run_plan-none :
      (plan : List RecoveryAction) (n : ℕ) (bad : List Uuid) (s : S) (u : TargetName)
      → law.creds s u ≡ none
      → law.creds (run_plan b plan n bad s).1 u ≡ none
  unfolding run_plan ◌>>=◌
  run_plan-none [] n bad s u h = h
  run_plan-none (report_missing_committed_generation i g ∷ plan) n bad s u h =
      run_plan-none plan n (bad ++ (i ∷ [])) s u h
  run_plan-none (delete_abandoned_generation i g ∷ plan) n bad s u h = ground (
    arith,
    delete_cases b law (TargetName.item_secret i g) s u,
    run_plan-none plan (n + 1) bad (b.delete (TargetName.item_secret i g) s).1 u,
  )

  -- A run that succeeds has deleted what the plan says.
  pub run_plan-deleted :
      (plan : List RecoveryAction) (n : ℕ) (bad : List Uuid) (s : S) (i g : Uuid)
      (r : ℕ × List Uuid)
      → (run_plan b plan n bad s).0 ≡ ok r
      → In (delete_abandoned_generation i g) plan
      → law.creds (run_plan b plan n bad s).1 (TargetName.item_secret i g) ≡ none
  unfolding run_plan ◌>>=◌
  run_plan-deleted [] n bad s i g r e at = absurd at
  run_plan-deleted (report_missing_committed_generation j k ∷ plan) n bad s i g r e at =
      run_plan-deleted plan n (bad ++ (j ∷ [])) s i g r e (ground arith)
  run_plan-deleted (delete_abandoned_generation j k ∷ plan) n bad s i g r e at =
      elim (Result-cases (b.delete (TargetName.item_secret j k) s).0) [
        | inr (x, failed) ↦ absurd (ground arith)
        | inl (_, done) ↦ elim at [
          | inl same ↦
              let gone : law.creds (b.delete (TargetName.item_secret j k) s).1
                    (TargetName.item_secret i g)
                  ≡ none =
                ground (
                  arith,
                  law.delete_ok (TargetName.item_secret j k) s (TargetName.item_secret i g) done,
                  target_eq_refl (TargetName.item_secret j k),
                ) in
              rw done (
                run_plan-none plan (n + 1) bad (b.delete (TargetName.item_secret j k) s).1
                  (TargetName.item_secret i g) gone)
          | inr later ↦ rw done (
              run_plan-deleted plan (n + 1) bad (b.delete (TargetName.item_secret j k) s).1 i g r
                (rw done at e) later)
        ]
      ]
