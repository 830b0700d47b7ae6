-- ===== src/Broker/Items/Create.antt =====
-- What `get_item` of crates/broker/src/service.rs returns after `create_item`.
use wincred_libsecret_wsl_pl.Prelude.{
  Option-cases, ◌≡◌, refl, sym, ap, ◌∙◌, inl, inr, true, Option, none, some, ok, arith, ==_refl,
}
use wincred_libsecret_wsl_pl.Prelude.Results.{Result-cases}
use wincred_libsecret_wsl_pl.Prelude.Exec.{◌>>=◌}
use wincred_libsecret_wsl_pl.Protocol.Model.{Uuid, Blob, ItemMetadata, SecretBytes, new_secret}
use wincred_libsecret_wsl_pl.Protocol.Frame.{IsLawful as IsLawfulCodec}
use wincred_libsecret_wsl_pl.Protocol.Target.{TargetName, item_metadata, item_secret}
use wincred_libsecret_wsl_pl.Protocol.Message.{ResponseBody}
use wincred_libsecret_wsl_pl.Broker.Backend.{VaultBackend, IsLawful}
use wincred_libsecret_wsl_pl.Broker.View.{visible}
use wincred_libsecret_wsl_pl.Broker.Metadata.{Deps, decode_metadata, validate_item}
use wincred_libsecret_wsl_pl.Broker.Collections.{some_or, require_collection}
use wincred_libsecret_wsl_pl.Broker.Items.{check_new_item, create_item, get_item, get_item_metadata}
use wincred_libsecret_wsl_pl.Broker.Items.Commit.{commit_new_generation-atomic}

module _ (d : Deps) {S : Type 0} (b : VaultBackend S) {good : S → Type 0}
    (law : IsLawful d.crates b good) where
  -- The reads of the backend succeed.
  abbrev pub Reads : Type 0
  Reads = (t : TargetName) (s : S) → (o : Option Blob) × ((b.read t s).0 ≡ ok o)

  reads_stored : Reads → (t : TargetName) (s : S) → (b.read t s).0 ≡ ok (law.creds s t)
  reads_stored r t s = let (o, e) = r t s in e ∙ ap ok (law.read_ok t s o e)

  visible-some :
      (view : TargetName → Option Blob) (id : Uuid) (item : ItemMetadata) (o : Option Blob)
      → visible d view id ≡ some (item, o)
      → (blob : Blob) × (view (item_metadata id) ≡ some blob)
        × (decode_metadata d.items blob ≡ ok item)
        × (view (item_secret id item.current_generation) ≡ o)
  unfolding visible
  visible-some view id item o h = elim (Option-cases (view (item_metadata id))) [
    | inl absent ↦ absurd (ground arith)
    | inr (blob, found) ↦ elim (Result-cases (decode_metadata d.items blob)) [
      | inl (i, decoded) ↦ (blob, found, ground arith, ground arith)
      | inr (x, failed) ↦ absurd (ground arith)
    ]
  ]

  get_item_metadata-visible :
      Reads
      → (s : S) (id : Uuid) (item : ItemMetadata) (o : Option Blob)
      → visible d (law.creds s) id ≡ some (item, o)
      → item.id ≡ id
      → validate_item item ≡ ok tt
      → get_item_metadata d b id s ≡ (ok item, (b.read (item_metadata id) s).1)
  unfolding get_item_metadata some_or ◌>>=◌
  get_item_metadata-visible r s id item o h same valid =
      let (blob, found, decoded, _) = visible-some (law.creds s) id item o h in
      ground (arith, reads_stored r (item_metadata id) s, found, decoded, same, ==_refl id, valid)

  -- A valid item that is visible with its secret is what `get_item` returns.
  get_item-visible :
      Reads
      → (s : S) (id : Uuid) (item : ItemMetadata) (secret : SecretBytes)
      → visible d (law.creds s) id ≡ some (item, some secret.bytes)
      → item.id ≡ id
      → validate_item item ≡ ok tt
      → new_secret secret.bytes ≡ ok secret
      → (get_item d b id true s).0 ≡ ok (ResponseBody.item item (some secret))
  unfolding get_item some_or ◌>>=◌
  get_item-visible r s id item secret h same valid fits =
      let (blob, found, decoded, stored) =
        visible-some (law.creds s) id item (some secret.bytes) h in
      let s₁ : S = (b.read (item_metadata id) s).1 in
      let at : (b.read (item_secret id item.current_generation) s₁).0 ≡ ok (some secret.bytes) =
        reads_stored r (item_secret id item.current_generation) s₁
        ∙ ap ok (
            law.read_keeps (item_metadata id) s (item_secret id item.current_generation)
            ∙ stored) in
      rw (get_item_metadata-visible r s id item (some secret.bytes) h same valid, at, fits) refl

  -- A new item has no metadata before its commit.
  check_new_item-none :
      (item : ItemMetadata) (s : S)
      → (check_new_item d b item s).0 ≡ ok tt
      → (law.creds (check_new_item d b item s).1 (item_metadata item.id) ≡ none)
        × (validate_item item ≡ ok tt)
  unfolding check_new_item ◌>>=◌
  check_new_item-none item s h = elim (Result-cases (validate_item item)) [
    | inr (x, bad) ↦ absurd (ground (arith, bad, h))
    | inl (_, valid) ↦ elim (Result-cases (require_collection d b item.collection_id s).0) [
      | inr (x, bad) ↦ absurd (ground (arith, valid, bad, h))
      | inl (_, required) ↦
          let s' : S = (require_collection d b item.collection_id s).1 in
          elim (Result-cases (b.read (item_metadata item.id) s').0) [
            | inr (x, bad) ↦ absurd (ground (arith, valid, required, bad, h))
            | inl (none, found) ↦ (
              rw (valid, required, found)
                  (law.read_keeps (item_metadata item.id) s' (item_metadata item.id)
                    ∙ sym (law.read_ok (item_metadata item.id) s' none found)),
              valid,
            )
            | inl (some blob, found) ↦ absurd (ground (arith, valid, required, found, h))
          ]
    ]
  ]

  -- With a lawful backend whose reads succeed and a lawful item codec, after `create_item` has
  -- succeeded with a secret within the limit, `get_item` returns that item with that secret.
  pub get_item-create_item :
      IsLawfulCodec d.items
      → Reads
      → (item : ItemMetadata) (secret : SecretBytes) (s : S) (body : ResponseBody)
      → new_secret secret.bytes ≡ ok secret
      → (create_item d b item secret s).0 ≡ ok body
      → (get_item d b item.id true (create_item d b item secret s).1).0
        ≡ ok (ResponseBody.item item (some secret))
  unfolding create_item ◌>>=◌
  get_item-create_item codec r item secret s body fits h =
      elim (Result-cases (check_new_item d b item s).0) [
        | inr (x, bad) ↦ absurd (ground (arith, bad, h))
        | inl (_, checked) ↦
            let s' : S = (check_new_item d b item s).1 in
            let (absent, valid) = check_new_item-none item s checked in
            elim (commit_new_generation-atomic d b law codec item secret s' none λ i o shown.
              let (blob, found, _, _) = visible-some (law.creds s') item.id i o shown in
              absurd (ground (arith, absent, found))).0 [
                | inr (x, bad, _) ↦ absurd (ground (arith, checked, bad, h))
                | inl (committed, shown) ↦
                    rw (checked, committed)
                      (get_item-visible r _ item.id item secret shown refl valid fits)
              ]
      ]
