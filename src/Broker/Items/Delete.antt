-- ===== src/Broker/Items/Delete.antt =====
-- What `delete_item` of crates/broker/src/service.rs leaves in the vault.
use wincred_libsecret_wsl_pl.Prelude.{
  ◌≡◌, refl, ◌∙◌, inl, inr, false, none, some, List, [], ◌∷◌, In, ok, arith, ==_iff, ==_refl,
  Option-cases, Text,
}
use wincred_libsecret_wsl_pl.Prelude.Results.{Result-cases}
use wincred_libsecret_wsl_pl.Prelude.Exec.{◌>>=◌}
use wincred_libsecret_wsl_pl.Protocol.Model.{Uuid, Blob}
use wincred_libsecret_wsl_pl.Protocol.Target.{
  TargetName, target_eq, IsFaithful, item_metadata, item_secret,
}
use wincred_libsecret_wsl_pl.Protocol.Message.{ResponseBody}
use wincred_libsecret_wsl_pl.Broker.Backend.{VaultBackend, IsLawful}
use wincred_libsecret_wsl_pl.Broker.Backend.Effects.{delete_other, delete_cases, target_eq_refl}
use wincred_libsecret_wsl_pl.Broker.Metadata.{Deps, decode_metadata, validate_item}
use wincred_libsecret_wsl_pl.Broker.Entries.{Entry, entries, to_entries}
use wincred_libsecret_wsl_pl.Broker.Entries.Scan.{entries_complete}
use wincred_libsecret_wsl_pl.Protocol.Target.RoundTrip.{from_str-display}
use wincred_libsecret_wsl_pl.Broker.Collections.{
  some_or, secret_of, delete_secrets, delete_item_from_entries,
}
use wincred_libsecret_wsl_pl.Broker.Items.{delete_item, get_item_metadata}

secret_of_kind :
    (id : Uuid) (kind : TargetName) (blob : Blob) (t : TargetName)
    → secret_of id (record { kind = kind; blob = blob }) ≡ some t
    → (g : Uuid) × (t ≡ item_secret id g)
unfolding secret_of
secret_of_kind id (TargetName.collection c) blob t h = absurd (ground arith)
secret_of_kind id (TargetName.alias c) blob t h = absurd (ground arith)
secret_of_kind id (TargetName.item_metadata c) blob t h = absurd (ground arith)
secret_of_kind id (TargetName.item_secret i g) blob t h = (g, ground (arith, ==_iff i id))

secret_of_own :
    (id g : Uuid) (blob : Blob)
    → secret_of id (record { kind = TargetName.item_secret id g; blob = blob })
      ≡ some (item_secret id g)
unfolding secret_of
secret_of_own id g blob = rw (==_refl id) refl

secret_of-some :
    (id : Uuid) (e : Entry) (t : TargetName)
    → secret_of id e ≡ some t
    → (g : Uuid) × (t ≡ item_secret id g)
secret_of-some id e t h = secret_of_kind id e.kind e.blob t h

module _ (d : Deps) {S : Type 0} (b : VaultBackend S) {good : S → Type 0}
    (law : IsLawful d.crates b good) where
  -- The secrets of other items, and what is no secret, are left alone.
  delete_secrets-other :
      (id : Uuid) (es : List Entry) (s : S) (u : TargetName)
      → ((g : Uuid) → target_eq (item_secret id g) u ≡ false)
      → law.creds (delete_secrets b id es s).1 u ≡ law.creds s u
  unfolding delete_secrets ◌>>=◌
  delete_secrets-other id [] s u h = refl
  delete_secrets-other id (e ∷ es) s u h = elim (Option-cases (secret_of id e)) [
    | inl other ↦ rw other (delete_secrets-other id es s u h)
    | inr (t, found) ↦
        let (g, same) = secret_of-some id e t found in
        let kept = delete_other b law t s u (rw same (h g)) in
        elim (Result-cases (b.delete t s).0) [
          | inl (_, done) ↦
              rw (found, done) (delete_secrets-other id es (b.delete t s).1 u h ∙ kept)
          | inr (x, failed) ↦ rw (found, failed) kept
        ]
  ]

  delete_secrets-none :
      (id : Uuid) (es : List Entry) (s : S) (u : TargetName)
      → law.creds s u ≡ none
      → law.creds (delete_secrets b id es s).1 u ≡ none
  unfolding delete_secrets ◌>>=◌
  delete_secrets-none id [] s u h = h
  delete_secrets-none id (e ∷ es) s u h = elim (Option-cases (secret_of id e)) [
    | inl other ↦ rw other (delete_secrets-none id es s u h)
    | inr (t, found) ↦
        let gone : law.creds (b.delete t s).1 u ≡ none =
          ground (arith, delete_cases b law t s u, h) in
        elim (Result-cases (b.delete t s).0) [
          | inl (_, done) ↦ rw (found, done) (delete_secrets-none id es (b.delete t s).1 u gone)
          | inr (x, failed) ↦ rw (found, failed) gone
        ]
  ]

  delete_secrets-deleted :
      (id g : Uuid) (es : List Entry) (s : S) (e : Entry)
      → (delete_secrets b id es s).0 ≡ ok tt
      → In e es
      → secret_of id e ≡ some (item_secret id g)
      → law.creds (delete_secrets b id es s).1 (item_secret id g) ≡ none
  unfolding delete_secrets ◌>>=◌
  delete_secrets-deleted id g [] s e h i p = absurd i
  delete_secrets-deleted id g (f ∷ es) s e h i p = elim (Option-cases (secret_of id f)) [
    | inl other ↦ elim i [
      | inl same ↦ absurd (ground (arith, other, same, p))
      | inr later ↦ rw other (delete_secrets-deleted id g es s e (rw other at h) later p)
    ]
    | inr (t, found) ↦ elim (Result-cases (b.delete t s).0) [
      | inr (x, failed) ↦ absurd (ground (arith, found, failed, h))
      | inl (_, done) ↦ elim i [
        | inl same ↦
            let here : t ≡ item_secret id g = ground (arith, found, same, p) in
            rw (found, done)
              (delete_secrets-none id es (b.delete t s).1 (item_secret id g) (
                law.delete_ok t s (item_secret id g) done
                ∙ rw here (rw (target_eq_refl (item_secret id g)) refl)))
        | inr later ↦
            rw (found, done)
              (delete_secrets-deleted id g es (b.delete t s).1 e (rw (found, done) at h) later p)
      ]
    ]
  ]

  get_item_metadata-state :
      (id : Uuid) (s : S) → (get_item_metadata d b id s).1 ≡ (b.read (item_metadata id) s).1
  unfolding get_item_metadata some_or ◌>>=◌
  get_item_metadata-state id s = elim (Result-cases (b.read (item_metadata id) s).0) [
    | inr (x, failed) ↦ ground (arith, failed)
    | inl (none, absent) ↦ ground (arith, absent)
    | inl (some blob, found) ↦ elim (Result-cases (decode_metadata d.items blob)) [
      | inr (x, failed) ↦ ground (arith, found, failed)
      | inl (item, decoded) ↦ elim (Result-cases (validate_item item)) [
        | inr (x, failed) ↦ ground (arith, found, decoded, failed)
        | inl (_, valid) ↦ ground (arith, found, decoded, valid)
      ]
    ]
  ]

  -- The secrets of the item that the scan has seen are deleted, and there were no others.
  delete_secrets-all :
      IsFaithful d.crates
      → (id g : Uuid) (l : List (Text × Blob)) (s : S) → good s
      → (b.enumerate s).0 ≡ ok l
      → (b.delete (item_metadata id) (b.enumerate s).1).0 ≡ ok tt
      → (delete_secrets b id
          (to_entries d.crates l)
          (b.delete (item_metadata id) (b.enumerate s).1).1).0
        ≡ ok tt
      → law.creds
          (delete_secrets b id
            (to_entries d.crates l)
            (b.delete (item_metadata id) (b.enumerate s).1).1).1
          (item_secret id g)
        ≡ none
  delete_secrets-all faithful id g l s fine listed gone done =
      let s₂ : S = (b.enumerate s).1 in
      let s₃ : S = (b.delete (item_metadata id) s₂).1 in
      elim (Option-cases (law.creds s (item_secret id g))) [
        | inl absent ↦ delete_secrets-none id (to_entries d.crates l) s₃ (item_secret id g) (
            delete_other b law (item_metadata id) s₂ (item_secret id g) refl
            ∙ law.enumerate_keeps s (item_secret id g)
            ∙ absent)
        | inr (v, stored) ↦
            delete_secrets-deleted id g (to_entries d.crates l) s₃
              (record { kind = item_secret id g; blob = [] }) done
              (entries_complete b law s l (item_secret id g) v fine
                (from_str-display d.crates faithful (item_secret id g) tt) listed stored)
              (secret_of_own id g [])
      ]

  -- With a lawful backend in a good state and faithful crates, after a deletion that succeeds
  -- neither the metadata of the item nor any of its secrets is stored.
  pub delete_item-deletes :
      IsFaithful d.crates
      → (id : Uuid) (s : S) (body : ResponseBody) → good s
      → (delete_item d b id s).0 ≡ ok body
      → (law.creds (delete_item d b id s).1 (item_metadata id) ≡ none)
        × ((g : Uuid) → law.creds (delete_item d b id s).1 (item_secret id g) ≡ none)
  unfolding delete_item delete_item_from_entries entries ◌>>=◌
  delete_item-deletes faithful id s body fine h =
      let s₁ : S = (get_item_metadata d b id s).1 in
      let s₂ : S = (b.enumerate s₁).1 in
      let s₃ : S = (b.delete (item_metadata id) s₂).1 in
      elim (Result-cases (get_item_metadata d b id s).0) [
        | inr (x, bad) ↦ absurd (ground (arith, bad, h))
        | inl (item, found) ↦ elim (Result-cases (b.enumerate s₁).0) [
          | inr (x, bad) ↦ absurd (ground (arith, found, bad, h))
          | inl (l, listed) ↦ elim (Result-cases (b.delete (item_metadata id) s₂).0) [
            | inr (x, bad) ↦ absurd (ground (arith, found, listed, bad, h))
            | inl (_, gone) ↦
                elim (Result-cases (delete_secrets b id (to_entries d.crates l) s₃).0) [
                  | inr (x, bad) ↦ absurd (ground (arith, found, listed, gone, bad, h))
                  | inl (_, done) ↦
                      let fine₁ : good s₁ =
                        rw (get_item_metadata-state id s)
                          (law.read_good (item_metadata id) s fine) in
                      (
                        rw (found, listed, gone, done)
                            (delete_secrets-none id (to_entries d.crates l) s₃ (item_metadata id) (
                              law.delete_ok (item_metadata id) s₂ (item_metadata id) gone
                              ∙ rw (target_eq_refl (item_metadata id)) refl)),
                        λ g.
                            rw (found, listed, gone, done)
                              (delete_secrets-all faithful id g l s₁ fine₁ listed gone done),
                      )
                ]
          ]
        ]
      ]

  -- With a lawful backend, a deletion, whether it succeeds or not, leaves every credential as it
  -- was but the metadata and the secrets of the item.
  pub delete_item-other :
      (id : Uuid) (s : S) (u : TargetName)
      → target_eq (item_metadata id) u ≡ false
      → ((g : Uuid) → target_eq (item_secret id g) u ≡ false)
      → law.creds (delete_item d b id s).1 u ≡ law.creds s u
  unfolding delete_item delete_item_from_entries entries ◌>>=◌
  delete_item-other id s u m h =
      let s₁ : S = (get_item_metadata d b id s).1 in
      let s₂ : S = (b.enumerate s₁).1 in
      let s₃ : S = (b.delete (item_metadata id) s₂).1 in
      let kept₁ : law.creds s₁ u ≡ law.creds s u =
        rw (get_item_metadata-state id s) (law.read_keeps (item_metadata id) s u) in
      let kept₂ : law.creds s₂ u ≡ law.creds s u = law.enumerate_keeps s₁ u ∙ kept₁ in
      let kept₃ : law.creds s₃ u ≡ law.creds s u =
        delete_other b law (item_metadata id) s₂ u m ∙ kept₂ in
      elim (Result-cases (get_item_metadata d b id s).0) [
        | inr (x, bad) ↦ rw bad kept₁
        | inl (item, found) ↦ elim (Result-cases (b.enumerate s₁).0) [
          | inr (x, bad) ↦ rw (found, bad) kept₂
          | inl (l, listed) ↦
              let swept = delete_secrets-other id (to_entries d.crates l) s₃ u h ∙ kept₃ in
              elim (Result-cases (b.delete (item_metadata id) s₂).0) [
                | inr (x, bad) ↦ rw (found, listed, bad) kept₃
                | inl (_, gone) ↦
                    elim (Result-cases (delete_secrets b id (to_entries d.crates l) s₃).0) [
                      | inr (x, bad) ↦ rw (found, listed, gone, bad) swept
                      | inl (_, done) ↦ rw (found, listed, gone, done) swept
                    ]
              ]
        ]
      ]
