-- ===== src/Protocol/Vault/Plan.antt =====
-- What a recovery plan holds: `plan_recovery` of crates/protocol/src/vault.rs.
use wincred_libsecret_wsl_pl.Prelude.{
  some, ◌≡◌, ◌↔◌, ◌⊎◌, inr, false, List, [], ◌∷◌, ◌++◌, In, arith,
}
use wincred_libsecret_wsl_pl.Prelude.Order.{nat_ord, pair_ord}
use wincred_libsecret_wsl_pl.Prelude.OrdMap.{get, contains_iff, OrdMap, OrdSet, contains}
use wincred_libsecret_wsl_pl.Protocol.Model.{Uuid}
use wincred_libsecret_wsl_pl.Protocol.Vault.{
  RecoveryInventory, delete_abandoned_generation, is_committed, report_missing_committed_generation,
  abandoned, missing, plan_recovery,
}

In-append : {A : Type 0} (a : A) (xs ys : List A) → In a (xs ++ ys) ↔ (In a xs ⊎ In a ys)
In-append a [] ys = (λ h. inr h, λ h. ground arith)
In-append a (x ∷ xs) ys =
    (λ h. ground (arith, In-append a xs ys), λ h. ground (arith, In-append a xs ys))

module _ (i g : Uuid) where
  abandoned-delete :
      (m : OrdMap Uuid Uuid) (s : OrdSet (Uuid × Uuid))
      → In (delete_abandoned_generation i g) (abandoned m s)
        ↔ (In (i, g) s × (is_committed m i g ≡ false))
  unfolding abandoned
  abandoned-delete m [] = (λ h. absurd h, λ h. absurd h.0)
  abandoned-delete m ((j, k) ∷ s) =
      (λ h. ground (arith, abandoned-delete m s), λ h. ground (arith, abandoned-delete m s))

  abandoned-report :
      (m : OrdMap Uuid Uuid) (s : OrdSet (Uuid × Uuid))
      → ¬ (In (report_missing_committed_generation i g) (abandoned m s))
  unfolding abandoned
  abandoned-report m [] h = h
  abandoned-report m ((j, k) ∷ s) h = ground (arith, abandoned-report m s)

  missing-delete :
      (s : OrdSet (Uuid × Uuid)) (m : OrdMap Uuid Uuid)
      → ¬ (In (delete_abandoned_generation i g) (missing s m))
  unfolding missing
  missing-delete s [] h = h
  missing-delete s ((j, k) ∷ m) h = ground (arith, missing-delete s m)

  missing-report :
      (s : OrdSet (Uuid × Uuid)) (m : OrdMap Uuid Uuid)
      → In (report_missing_committed_generation i g) (missing s m)
        ↔ (In (i, g) m × (contains (i, g) s ≡ false))
  unfolding missing
  missing-report s [] = (λ h. absurd h, λ h. absurd h.0)
  missing-report s ((j, k) ∷ m) =
      (λ h. ground (arith, missing-report s m), λ h. ground (arith, missing-report s m))

  is_committed-false :
      (m : OrdMap Uuid Uuid) → (is_committed m i g ≡ false) ↔ (¬ (get i m ≡ some g))
  is_committed-false m = (λ h. ground arith, λ h. ground arith)

  -- A recovery plan deletes exactly the stored generations that are not the committed one of their
  -- item.
  pub plan_recovery-delete_iff :
      (inventory : RecoveryInventory)
      → In (delete_abandoned_generation i g) (plan_recovery inventory) ↔ (
          In (i, g) inventory.stored_generations
          × (¬ (get i inventory.committed_generations ≡ some g)))
  unfolding plan_recovery
  plan_recovery-delete_iff inventory =
      let m = inventory.committed_generations in
      let s = inventory.stored_generations in
      (
        λ h. ground (
          arith,
          In-append (delete_abandoned_generation i g) (abandoned m s) (missing s m),
          abandoned-delete m s,
          missing-delete s m,
          is_committed-false m,
        ),
        λ h. ground (
          arith,
          In-append (delete_abandoned_generation i g) (abandoned m s) (missing s m),
          abandoned-delete m s,
          is_committed-false m,
        ),
      )

  not_contained : (s : OrdSet (Uuid × Uuid)) → (contains (i, g) s ≡ false) ↔ (¬ (In (i, g) s))
  not_contained s =
      (λ h. ground (arith, contains_iff (i, g) s), λ h. ground (arith, contains_iff (i, g) s))

  -- A recovery plan reports exactly the committed generations that are not stored.
  pub plan_recovery-report_iff :
      (inventory : RecoveryInventory)
      → In (report_missing_committed_generation i g) (plan_recovery inventory)
        ↔ (In (i, g) inventory.committed_generations × (¬ (In (i, g) inventory.stored_generations)))
  unfolding plan_recovery
  plan_recovery-report_iff inventory =
      let m = inventory.committed_generations in
      let s = inventory.stored_generations in
      (
        λ h. ground (
          arith,
          In-append (report_missing_committed_generation i g) (abandoned m s) (missing s m),
          abandoned-report m s,
          missing-report s m,
          not_contained s,
        ),
        λ h. ground (
          arith,
          In-append (report_missing_committed_generation i g) (abandoned m s) (missing s m),
          missing-report s m,
          not_contained s,
        ),
      )
