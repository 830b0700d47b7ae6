-- ===== src/Broker/Items/Commit.antt =====
-- `commit_new_generation` of crates/broker/src/service.rs, whichever calls of the backend fail.
use wincred_libsecret_wsl_pl.Prelude.{
  Bool-cases, ◌≡◌, ◌≢◌, refl, ◌∙◌, ◌⊎◌, inl, inr, false, Option, none, some, Result, ok, err, arith,
  ◌==◌, ==_iff,
}
use wincred_libsecret_wsl_pl.Prelude.Results.{Result-cases}
use wincred_libsecret_wsl_pl.Prelude.Exec.{◌>>=◌, match_option}
use wincred_libsecret_wsl_pl.Protocol.Errors.{BrokerError}
use wincred_libsecret_wsl_pl.Protocol.Model.{Uuid, Blob, ItemMetadata, SecretBytes}
use wincred_libsecret_wsl_pl.Protocol.Frame.{IsLawful as IsLawfulCodec}
use wincred_libsecret_wsl_pl.Protocol.Target.{TargetName, target_eq, item_metadata, item_secret}
use wincred_libsecret_wsl_pl.Protocol.Vault.{GenerationCommit, steps, delete_previous}
use wincred_libsecret_wsl_pl.Broker.Backend.{VaultBackend, IsLawful}
use wincred_libsecret_wsl_pl.Broker.Backend.Effects.{write_other, delete_other, write_self}
use wincred_libsecret_wsl_pl.Broker.View.{visible, visible_eq, visible_committed}
use wincred_libsecret_wsl_pl.Broker.Metadata.{Deps, encode_metadata}
use wincred_libsecret_wsl_pl.Broker.Items.{commit_new_generation, clean_up, deleted_by}

module _ (d : Deps) {S : Type 0} (b : VaultBackend S) {good : S → Type 0}
    (law : IsLawful d.crates b good) where
  -- Deleting the previous generation touches nothing else, and never fails.
  clean_up-delete_previous :
      (c : GenerationCommit) (previous : Option Uuid) (s : S) (u : TargetName)
      → ((g : Uuid) → g ≢ c.new_generation → target_eq (item_secret c.item_id g) u ≡ false)
      → ((clean_up b (delete_previous c previous) s).0 ≡ ok tt)
        × (law.creds (clean_up b (delete_previous c previous) s).1 u ≡ law.creds s u)
  unfolding clean_up deleted_by match_option delete_previous ◌>>=◌
  clean_up-delete_previous c none s u h = (refl, refl)
  clean_up-delete_previous c (some g) s u h = elim (Bool-cases (g == c.new_generation)) [
    | inl same ↦ rw same (refl, refl)
    | inr differs ↦
        let other : g ≢ c.new_generation = λ e. ground arith in
        rw differs (refl, delete_other b law (item_secret c.item_id g) s u (h g other))
  ]

  clean_up-steps :
      (c : GenerationCommit) (s : S) (u : TargetName)
      → ((g : Uuid) → g ≢ c.new_generation → target_eq (item_secret c.item_id g) u ≡ false)
      → ((clean_up b (steps c) s).0 ≡ ok tt)
        × (law.creds (clean_up b (steps c) s).1 u ≡ law.creds s u)
  unfolding clean_up deleted_by match_option steps
  clean_up-steps c s u h = clean_up-delete_previous c c.previous_generation s u h

  module _ (codec : IsLawfulCodec d.items) (item : ItemMetadata) (secret : SecretBytes)
      (s : S) where
    abbrev target : TargetName
    target = item_secret item.id item.current_generation

    abbrev pub IsFresh : Type 0
    IsFresh =
        (i : ItemMetadata) (o : Option Blob)
        → visible d (law.creds s) item.id ≡ some (i, o)
        → i.current_generation ≢ item.current_generation

    other_generation :
        (g : Uuid) → g ≢ item.current_generation → target_eq (item_secret item.id g) target ≡ false
    other_generation g h = ground (arith, ==_iff g item.current_generation)

    -- The first write, of the secret: nothing that is visible changes.
    secret_written :
        IsFresh
        → (v : TargetName → Option Blob)
        → ((u : TargetName) → target_eq target u ≡ false → v u ≡ law.creds s u)
        → (id : Uuid) → visible d v id ≡ visible d (law.creds s) id
    secret_written h v same id =
        visible_eq d (law.creds s) v id (same (item_metadata id) refl) λ i o shown.
          same (item_secret id i.current_generation) (elim (Bool-cases (item.id == id)) [
            | inl e ↦
                let here : item.id ≡ id = (==_iff item.id id).0 e in
                ground (arith, h i o (rw here shown))
            | inr e ↦ ground arith
          ])

    abbrev s₁ : S
    s₁ = (b.write target secret.bytes s).1

    abbrev s₂ : Blob → S
    s₂ metadata = (b.write (item_metadata item.id) metadata s₁).1

    abbrev commit : Option Uuid → GenerationCommit
    commit previous = record {
      item_id = item.id;
      new_generation = item.current_generation;
      previous_generation = previous;
    }

    module _ (previous : Option Uuid) where
      not_encoded :
          {e : BrokerError}
          → encode_metadata d.items item ≡ err e
          → commit_new_generation d b item previous secret s ≡ (err e, s)
      unfolding commit_new_generation ◌>>=◌
      not_encoded h = ground arith

      secret_failed :
          {metadata : Blob} {e : BrokerError}
          → encode_metadata d.items item ≡ ok metadata
          → (b.write target secret.bytes s).0 ≡ err e
          → commit_new_generation d b item previous secret s ≡ (err e, s₁)
      unfolding commit_new_generation ◌>>=◌
      secret_failed h w = ground arith

      metadata_failed :
          (metadata : Blob) {e : BrokerError}
          → encode_metadata d.items item ≡ ok metadata
          → (b.write target secret.bytes s).0 ≡ ok tt
          → (b.write (item_metadata item.id) metadata s₁).0 ≡ err e
          → commit_new_generation d b item previous secret s
            ≡ (err e, (b.delete target (s₂ metadata)).1)
      unfolding commit_new_generation ◌>>=◌
      metadata_failed metadata h w m = ground arith

      both_written :
          (metadata : Blob)
          → encode_metadata d.items item ≡ ok metadata
          → (b.write target secret.bytes s).0 ≡ ok tt
          → (b.write (item_metadata item.id) metadata s₁).0 ≡ ok tt
          → commit_new_generation d b item previous secret s
            ≡ clean_up b (steps (commit previous)) (s₂ metadata)
      unfolding commit_new_generation ◌>>=◌
      both_written metadata h w m = ground arith

      -- What the caller of a commit finds: the new item on success, the old view on an error, and
      -- the other items unchanged.
      abbrev pub Committed : Result BrokerError (Unit {0}) × S → Type 0
      Committed out =
          (((out.0 ≡ ok tt)
              × (visible d (law.creds out.1) item.id ≡ some (item, some secret.bytes)))
            ⊎ ((e : BrokerError) × (out.0 ≡ err e)
                × (visible d (law.creds out.1) item.id ≡ visible d (law.creds s) item.id)))
          × ((id : Uuid)
              → id ≢ item.id
              → visible d (law.creds out.1) id ≡ visible d (law.creds s) id)

      undone :
          IsFresh
          → (e : BrokerError) (s' : S)
          → ((u : TargetName) → target_eq target u ≡ false → law.creds s' u ≡ law.creds s u)
          → Committed (err e, s')
      undone h e s' same = (
        inr (e, refl, secret_written h (law.creds s') same item.id),
        λ id _. secret_written h (law.creds s') same id,
      )

      done :
          (metadata : Blob)
          → encode_metadata d.items item ≡ ok metadata
          → (b.write target secret.bytes s).0 ≡ ok tt
          → (b.write (item_metadata item.id) metadata s₁).0 ≡ ok tt
          → Committed (clean_up b (steps (commit previous)) (s₂ metadata))
      done metadata h w m = (
        inl (
          (cleaned target other_generation).0,
          visible_committed d item secret metadata codec
              (law.creds (clean_up b (steps (commit previous)) (s₂ metadata)).1) h
              ((cleaned (item_metadata item.id) (λ g _. refl)).1
                ∙ write_self b law (item_metadata item.id) metadata s₁ m)
              ((cleaned target other_generation).1
                ∙ write_other b law (item_metadata item.id) metadata s₁ target refl
                ∙ write_self b law target secret.bytes s w),
        ),
        λ id differs.
            visible_eq d (law.creds s) _ id
              (elsewhere (item_metadata id) (λ g _. refl) (ground arith) refl)
              λ i o _.
                elsewhere (item_secret id i.current_generation) (λ g _. ground arith) refl
                  (ground arith),
      )
        where
          cleaned :
              (u : TargetName)
              → ((g : Uuid)
                  → g ≢ item.current_generation
                  → target_eq (item_secret item.id g) u ≡ false)
              → ((clean_up b (steps (commit previous)) (s₂ metadata)).0 ≡ ok tt)
                × (law.creds (clean_up b (steps (commit previous)) (s₂ metadata)).1 u
                    ≡ law.creds (s₂ metadata) u)
          cleaned = clean_up-steps (commit previous) (s₂ metadata)

          elsewhere :
              (u : TargetName)
              → ((g : Uuid)
                  → g ≢ item.current_generation
                  → target_eq (item_secret item.id g) u ≡ false)
              → target_eq (item_metadata item.id) u ≡ false
              → target_eq target u ≡ false
              → law.creds (clean_up b (steps (commit previous)) (s₂ metadata)).1 u ≡ law.creds s u
          elsewhere u k m' t =
              (cleaned u k).1
              ∙ write_other b law (item_metadata item.id) metadata s₁ u m'
              ∙ write_other b law target secret.bytes s u t

      -- With a lawful backend and item codec, and a generation that is not the one visible before,
      -- a commit is atomic over any failures of the backend: it succeeds and the item is visible
      -- with the new metadata and secret, or it fails and what was visible of the item still is;
      -- either way what is visible of all other items stays.
      pub commit_new_generation-atomic :
          IsFresh → Committed (commit_new_generation d b item previous secret s)
      commit_new_generation-atomic h = elim (Result-cases (encode_metadata d.items item)) [
        | inr (e, x) ↦ rw (not_encoded x) (undone h e s (λ u _. refl))
        | inl (metadata, x) ↦ elim (Result-cases (b.write target secret.bytes s).0) [
          | inr (e, w) ↦
              rw (secret_failed x w) (undone h e s₁ (write_other b law target secret.bytes s))
          | inl (_, w) ↦ elim (Result-cases (b.write (item_metadata item.id) metadata s₁).0) [
            | inl (_, m) ↦ rw (both_written metadata x w m) (done metadata x w m)
            | inr (e, m) ↦ rw (metadata_failed metadata x w m) (
                undone h e (b.delete target (s₂ metadata)).1 λ u t.
                  delete_other b law target (s₂ metadata) u t
                  ∙ law.write_err (item_metadata item.id) metadata s₁ e u m
                  ∙ write_other b law target secret.bytes s u t)
          ]
        ]
      ]
