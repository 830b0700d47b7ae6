-- ===== src/Broker/Backend/Effects.antt =====
-- What a call of the backend does to one credential, whether it succeeds or not.
use wincred_libsecret_wsl_pl.Prelude.{
  ◌≡◌, ◌∙◌, ◌⊎◌, inl, inr, true, false, none, some, ok, arith, text_eq_iff, ==_iff, ◌↔◌,
  text_eq_refl, ==_refl,
}
use wincred_libsecret_wsl_pl.Prelude.Results.{Result-cases}
use wincred_libsecret_wsl_pl.Protocol.Model.{Blob}
use wincred_libsecret_wsl_pl.Protocol.Target.{
  Crates, TargetName, target_eq, collection, alias, item_metadata, item_secret,
}
use wincred_libsecret_wsl_pl.Broker.Backend.{VaultBackend, IsLawful}

target_eq→eq : (t u : TargetName) → target_eq t u ≡ true → t ≡ u
target_eq→eq (collection a) (collection b) h = ground (arith, ==_iff a b)
target_eq→eq (alias a) (alias b) h = ground (arith, text_eq_iff a b)
target_eq→eq (item_metadata a) (item_metadata b) h = ground (arith, ==_iff a b)
target_eq→eq (item_secret a g) (item_secret b k) h = ground (arith, ==_iff a b, ==_iff g k)
target_eq→eq _ _ h = cc

pub target_eq_refl : (t : TargetName) → target_eq t t ≡ true
target_eq_refl (collection a) = ==_refl a
target_eq_refl (alias a) = text_eq_refl a
target_eq_refl (item_metadata a) = ==_refl a
target_eq_refl (item_secret a g) = ground (arith, ==_refl a, ==_refl g)

pub target_eq_iff : (t u : TargetName) → (target_eq t u ≡ true) ↔ (t ≡ u)
target_eq_iff t u = (target_eq→eq t u, λ e. rw e (target_eq_refl u))

module _ {c : Crates} {S : Type 0} (b : VaultBackend S) {good : S → Type 0}
    (law : IsLawful c b good) where
  -- Another target is left alone.
  pub write_other :
      (t : TargetName) (blob : Blob) (s : S) (u : TargetName)
      → target_eq t u ≡ false
      → law.creds (b.write t blob s).1 u ≡ law.creds s u
  write_other t blob s u h = elim (Result-cases (b.write t blob s).0) [
    | inl (a, e) ↦ law.write_ok t blob s u e ∙ rw h
    | inr (x, e) ↦ law.write_err t blob s x u e
  ]

  pub delete_other :
      (t : TargetName) (s : S) (u : TargetName)
      → target_eq t u ≡ false
      → law.creds (b.delete t s).1 u ≡ law.creds s u
  delete_other t s u h = elim (Result-cases (b.delete t s).0) [
    | inl (a, e) ↦ law.delete_ok t s u e ∙ rw h
    | inr (x, e) ↦ law.delete_err t s x u e
  ]

  -- A deletion writes nothing: what is there afterwards was there before.
  pub delete_cases :
      (t : TargetName) (s : S) (u : TargetName)
      → (law.creds (b.delete t s).1 u ≡ none) ⊎ (law.creds (b.delete t s).1 u ≡ law.creds s u)
  delete_cases t s u = elim (Result-cases (b.delete t s).0) [
    | inl (a, e) ↦ ground (arith, law.delete_ok t s u)
    | inr (x, e) ↦ inr (law.delete_err t s x u e)
  ]

  pub write_self :
      (t : TargetName) (blob : Blob) (s : S)
      → (b.write t blob s).0 ≡ ok tt
      → law.creds (b.write t blob s).1 t ≡ some blob
  write_self t blob s e = law.write_ok t blob s t e ∙ rw target_eq_refl
