-- ===== src/Broker/Items/Update.antt =====
-- The item that `update_item` of crates/broker/src/service.rs makes of the one it is given.
use wincred_libsecret_wsl_pl.Prelude.{
  ℕ, ◌<◌, ◌≤◌, ◌≡◌, ◌≢◌, refl, inl, inr, Option, none, some, ok, arith, ◌==◌, Bool-cases,
}
use wincred_libsecret_wsl_pl.Prelude.Results.{Result-cases}
use wincred_libsecret_wsl_pl.Prelude.Exec.{◌>>=◌}
use wincred_libsecret_wsl_pl.Protocol.Model.{ItemMetadata, SecretBytes}
use wincred_libsecret_wsl_pl.Protocol.Target.{TargetName}
use wincred_libsecret_wsl_pl.Protocol.Message.{ResponseBody}
use wincred_libsecret_wsl_pl.Broker.Backend.{VaultBackend}
use wincred_libsecret_wsl_pl.Broker.Metadata.{Deps, validate_item}
use wincred_libsecret_wsl_pl.Broker.Collections.{require_collection, write_metadata}
use wincred_libsecret_wsl_pl.Broker.Items.{
  saturating_suc, max_u64, commit_new_generation, renew, write_update, update_item,
  get_item_metadata,
}

saturating_suc-lt : (n : ℕ) → n < max_u64 → n < saturating_suc n
saturating_suc-lt n h = ground arith

module _ (d : Deps) {S : Type 0} (b : VaultBackend S) where
  -- What an update makes of the item that it is given: a new secret needs a new generation, and an
  -- update of the metadata alone keeps the generation.
  abbrev pub Renewed : Option SecretBytes → ItemMetadata → ItemMetadata → ItemMetadata → Type 0
  Renewed none existing given item = item.current_generation ≡ existing.current_generation
  Renewed (some _) existing given item =
      (item.current_generation ≡ given.current_generation)
      × (item.current_generation ≢ existing.current_generation)

  abbrev pub Updated : Option SecretBytes → ItemMetadata → ItemMetadata → ItemMetadata → Type 0
  Updated secret existing given item =
      (item.id ≡ given.id)
      × (item.collection_id ≡ given.collection_id)
      × (item.label ≡ given.label)
      × (item.attributes ≡ given.attributes)
      × (item.content_type ≡ given.content_type)
      × (item.created ≡ existing.created)
      × (given.modified ≤ item.modified)
      × (existing.modified < max_u64 → existing.modified < item.modified)
      × Renewed secret existing given item

  write_update-Updated :
      (existing given : ItemMetadata) (secret : Option SecretBytes) (s : S) (body : ResponseBody)
      → (write_update d b existing (renew existing given) secret s).0 ≡ ok body
      → (item : ItemMetadata) × (body ≡ ResponseBody.item item none)
        × Updated secret existing given item
  unfolding write_update ◌>>=◌
  write_update-Updated existing given none s body h =
      let kept = record (renew existing given) {
        current_generation = existing.current_generation;
      } in
      elim (Result-cases (write_metadata b d.items (TargetName.item_metadata given.id) kept s).0) [
        | inr (x, bad) ↦ absurd (ground (arith, bad, h))
        | inl (_, written) ↦ (
          kept,
          ground (arith, written, h),
          (refl, refl, refl, refl, refl, refl, ground arith, ground arith, refl),
        )
      ]
  write_update-Updated existing given (some secret) s body h =
      elim (Bool-cases (given.current_generation == existing.current_generation)) [
        | inl same ↦ absurd (ground (arith, same, h))
        | inr fresh ↦
            elim (Result-cases
              (commit_new_generation d b (renew existing given) (some existing.current_generation)
                secret s).0) [
                  | inr (x, bad) ↦ absurd (ground (arith, fresh, bad, h))
                  | inl (_, written) ↦ (
                    renew existing given,
                    ground (arith, fresh, written, h),
                    (
                      refl,
                      refl,
                      refl,
                      refl,
                      refl,
                      refl,
                      ground arith,
                      ground arith,
                      (refl, ground arith),
                    ),
                  )
                ]
      ]

  update_item-ok :
      (given : ItemMetadata) (secret : Option SecretBytes) (s : S) (body : ResponseBody)
      (existing : ItemMetadata)
      → (get_item_metadata d b given.id s).0 ≡ ok existing
      → (update_item d b given secret s).0 ≡ ok body
      → (item : ItemMetadata) × (body ≡ ResponseBody.item item none)
        × Updated secret existing given item
  unfolding update_item ◌>>=◌
  update_item-ok given secret s body existing found h =
      let s₁ : S = (get_item_metadata d b given.id s).1 in
      elim (Result-cases (validate_item given)) [
        | inr (x, bad) ↦ absurd (ground (arith, found, bad, h))
        | inl (_, valid) ↦ elim (Result-cases (require_collection d b given.collection_id s₁).0) [
          | inr (x, bad) ↦ absurd (ground (arith, found, valid, bad, h))
          | inl (_, required) ↦
              write_update-Updated existing given secret
                (require_collection d b given.collection_id s₁).1 body
                (rw (found, valid, required) at h)
        ]
      ]

  -- An update that succeeds has found the stored item, and returns an item with the identifier,
  -- the collection, the label, the attributes and the content type of the given one, the creation
  -- time of the stored one, a modification time past the stored one (if that is below the largest
  -- machine number) and not before the given one, the stored generation if there is no secret, and
  -- the given generation, which is another one, if there is.
  pub update_item-Updated :
      (given : ItemMetadata) (secret : Option SecretBytes) (s : S) (body : ResponseBody)
      → (update_item d b given secret s).0 ≡ ok body
      → (existing : ItemMetadata) × (item : ItemMetadata) × ((get_item_metadata d b given.id s).0
          ≡ ok existing)
        × (body ≡ ResponseBody.item item none)
        × Updated secret existing given item
  unfolding update_item ◌>>=◌
  update_item-Updated given secret s body h =
      elim (Result-cases (get_item_metadata d b given.id s).0) [
        | inr (x, bad) ↦ absurd (ground (arith, bad, h))
        | inl (existing, found) ↦
            let (item, e, u) = update_item-ok given secret s body existing found h in
            (existing, item, found, e, u)
      ]
