-- ===== src/Broker/Recovery/Reconcile.antt =====
-- What `reconcile_locked` of crates/broker/src/service.rs leaves in the vault.
use wincred_libsecret_wsl_pl.Prelude.{
  ℕ, ◌≡◌, ◌≢◌, refl, ◌∙◌, sym, Option, none, some, List, [], In, ◌↔◌, inl, inr, arith, Option-cases,
  ok, ==_iff, Bool-cases, Text,
}
use wincred_libsecret_wsl_pl.Prelude.Exec.{◌>>=◌}
use wincred_libsecret_wsl_pl.Prelude.Results.{Result-cases}
use wincred_libsecret_wsl_pl.Prelude.Order.{nat_ord, pair_ord}
use wincred_libsecret_wsl_pl.Prelude.OrdMap.{get}
use wincred_libsecret_wsl_pl.Protocol.Model.{Uuid, Blob, ItemMetadata}
use wincred_libsecret_wsl_pl.Protocol.Target.{TargetName, target_eq, IsFaithful}
use wincred_libsecret_wsl_pl.Protocol.Target.RoundTrip.{from_str-display}
use wincred_libsecret_wsl_pl.Protocol.Message.{ResponseBody}
use wincred_libsecret_wsl_pl.Protocol.Vault.{
  RecoveryInventory, delete_abandoned_generation, plan_recovery,
}
use wincred_libsecret_wsl_pl.Protocol.Vault.Plan.{plan_recovery-delete_iff}
use wincred_libsecret_wsl_pl.Broker.Backend.{VaultBackend, IsLawful}
use wincred_libsecret_wsl_pl.Broker.Backend.Effects.{target_eq_iff}
use wincred_libsecret_wsl_pl.Broker.Metadata.{Deps, valid_item, decode_metadata}
use wincred_libsecret_wsl_pl.Broker.Entries.{entry_item, to_entries, entries}
use wincred_libsecret_wsl_pl.Broker.Entries.Scan.{entries_sound, entries_complete}
use wincred_libsecret_wsl_pl.Broker.Recovery.{
  run_plan, take_inventory, empty_inventory, reconcile_locked,
}
use wincred_libsecret_wsl_pl.Broker.Recovery.Sound.{run_plan-other, run_plan-none, run_plan-deleted}
use wincred_libsecret_wsl_pl.Broker.Recovery.Inventory.{Agrees, take-Agrees, take-item, take-stored}

-- The generation of an item that its metadata commits to.
abbrev pub committed_generation : Deps → (TargetName → Option Blob) → Uuid → Option Uuid
committed_generation d view id = elim (view (TargetName.item_metadata id)) [
  | none ↦ none
  | some blob ↦ elim (valid_item d id blob) [
    | none ↦ none
    | some item ↦ some item.current_generation
  ]
]

valid_item-id :
    (d : Deps) (i : Uuid) (blob : Blob) (item : ItemMetadata)
    → valid_item d i blob ≡ some item
    → item.id ≡ i
unfolding valid_item
valid_item-id d i blob item h = elim (Result-cases (decode_metadata d.items blob)) [
  | inr (x, failed) ↦ absurd (ground arith)
  | inl (m, decoded) ↦ ground (arith, ==_iff m.id i)
]

entry_item-metadata :
    (d : Deps) (i : Uuid) (blob : Blob) (item : ItemMetadata)
    → valid_item d i blob ≡ some item
    → entry_item d (record { kind = TargetName.item_metadata i; blob = blob }) ≡ some item
unfolding entry_item
entry_item-metadata d i blob item h = h

committed_generation-some :
    (d : Deps) (view : TargetName → Option Blob) (i k : Uuid)
    → committed_generation d view i ≡ some k
    → (blob : Blob) × (item : ItemMetadata) × (view (TargetName.item_metadata i) ≡ some blob)
      × (valid_item d i blob ≡ some item)
      × (item.current_generation ≡ k)
committed_generation-some d view i k h = elim (Option-cases (view (TargetName.item_metadata i))) [
  | inl absent ↦ absurd (ground arith)
  | inr (blob, found) ↦ elim (Option-cases (valid_item d i blob)) [
    | inl bad ↦ absurd (ground arith)
    | inr (item, valid) ↦ (blob, item, found, valid, ground arith)
  ]
]

module _ (d : Deps) {S : Type 0} (b : VaultBackend S) {good : S → Type 0}
    (law : IsLawful d.crates b good) (faithful : IsFaithful d.crates) (s : S) (g : good s)
    (l : List (Text × Blob)) (listed : (b.enumerate s).0 ≡ ok l) where
  abbrev inventory : RecoveryInventory
  inventory = take_inventory d (to_entries d.crates l) empty_inventory

  abbrev committed : Uuid → Option Uuid
  committed = committed_generation d (law.creds s)

  entry_consistent :
      (kind : TargetName) (blob : Blob) (item : ItemMetadata)
      → In (record { kind = kind; blob = blob }) (to_entries d.crates l)
      → entry_item d (record { kind = kind; blob = blob }) ≡ some item
      → committed item.id ≡ some item.current_generation
  unfolding entry_item
  entry_consistent (TargetName.collection id) blob item at found = absurd (ground arith)
  entry_consistent (TargetName.alias n) blob item at found = absurd (ground arith)
  entry_consistent (TargetName.item_secret i k) blob item at found = absurd (ground arith)
  entry_consistent (TargetName.item_metadata i) blob item at found =
      let (v, stored, here) =
        entries_sound b law s l (record { kind = TargetName.item_metadata i; blob = blob }) g listed
          at in
      ground (arith, valid_item-id d i blob item found, stored, here, found)

  agrees : Agrees d committed inventory
  unfolding get
  agrees =
      take-Agrees d committed (to_entries d.crates l) empty_inventory
        (λ e item at found. entry_consistent e.kind e.blob item at found) (λ j. inl refl)

  inventory-committed : (i : Uuid) → get i inventory.committed_generations ≡ committed i
  inventory-committed i = elim (Option-cases (committed i)) [
    | inl absent ↦ elim (agrees i) [ inl e ↦ e ∙ sym absent | inr e ↦ e ]
    | inr (k, found) ↦ elim (agrees i) [
      | inl e ↦
          let (blob, item, stored, valid, _) =
            committed_generation-some d (law.creds s) i k found in
          absurd (
            take-item d (to_entries d.crates l) empty_inventory
              (record { kind = TargetName.item_metadata i; blob = blob }) item
              (entries_complete b law s l (TargetName.item_metadata i) blob g
                (from_str-display d.crates faithful (TargetName.item_metadata i) tt) listed stored)
              (entry_item-metadata d i blob item valid) (rw (valid_item-id d i blob item valid) e))
      | inr e ↦ e
    ]
  ]

  inventory-stored :
      (i k : Uuid)
      → In (i, k) inventory.stored_generations ↔ (law.creds s (TargetName.item_secret i k) ≢ none)
  inventory-stored i k = (
    λ h. elim ((take-stored d (to_entries d.crates l) empty_inventory i k).0 h) [
      | inl (e, at, p) ↦
          let (v, stored, q) = entries_sound b law s l e g listed at in
          λ gone. ground (arith, stored, gone, p)
      | inr k ↦ absurd k
    ],
    λ h. elim (Option-cases (law.creds s (TargetName.item_secret i k))) [
      | inl gone ↦ absurd (h gone)
      | inr (v, stored) ↦ (take-stored d (to_entries d.crates l) empty_inventory i k).1 (
          inl (
            _,
            entries_complete b law s l (TargetName.item_secret i k) v g
                (from_str-display d.crates faithful (TargetName.item_secret i k) tt) listed stored,
            refl,
          ))
    ],
  )

  planned :
      (i k : Uuid)
      → In (delete_abandoned_generation i k) (plan_recovery inventory)
        ↔ ((law.creds s (TargetName.item_secret i k) ≢ none) × (committed i ≢ some k))
  planned i k = (
    λ h. ground (
      arith,
      plan_recovery-delete_iff i k inventory,
      inventory-stored i k,
      inventory-committed i,
    ),
    λ h. ground (
      arith,
      plan_recovery-delete_iff i k inventory,
      inventory-stored i k,
      inventory-committed i,
    ),
  )

module _ (d : Deps) {S : Type 0} (b : VaultBackend S) {good : S → Type 0}
    (law : IsLawful d.crates b good) (faithful : IsFaithful d.crates) (s : S) (g : good s) where
  -- The credentials after the run of a plan that the recovery makes.
  reconcile_listed :
      (l : List (Text × Blob))
      → (b.enumerate s).0 ≡ ok l
      → (u : TargetName)
      → law.creds (reconcile_locked d b s).1 u
        ≡ law.creds
            (run_plan b
              (plan_recovery (take_inventory d (to_entries d.crates l) empty_inventory))
              0
              []
              (b.enumerate s).1).1
            u
  unfolding reconcile_locked entries ◌>>=◌
  reconcile_listed l listed u = ground (arith, listed)

  reconcile_ran :
      (l : List (Text × Blob))
      → (b.enumerate s).0 ≡ ok l
      → (body : ResponseBody) → (reconcile_locked d b s).0 ≡ ok body
      → (r : ℕ × List Uuid) × ((run_plan b
            (plan_recovery (take_inventory d (to_entries d.crates l) empty_inventory))
            0
            []
            (b.enumerate s).1).0
          ≡ ok r)
  unfolding reconcile_locked entries ◌>>=◌
  reconcile_ran l listed body e =
      elim (Result-cases
        (run_plan b (plan_recovery (take_inventory d (to_entries d.crates l) empty_inventory)) 0 []
          (b.enumerate s).1).0) [
            | inl found ↦ found
            | inr (x, failed) ↦ absurd (ground (arith, listed, failed, e))
          ]

  -- With a lawful backend in a good state and faithful crates, a recovery, whether it succeeds or
  -- not, leaves every credential as it was but the secrets of generations that no valid item
  -- metadata commits to.
  pub reconcile_locked-keeps :
      (u : TargetName)
      → ((i k : Uuid)
          → u ≡ TargetName.item_secret i k
          → committed_generation d (law.creds s) i ≡ some k)
      → law.creds (reconcile_locked d b s).1 u ≡ law.creds s u
  unfolding reconcile_locked entries ◌>>=◌
  reconcile_locked-keeps u h = elim (Result-cases (b.enumerate s).0) [
    | inr (x, failed) ↦ rw failed (law.enumerate_keeps s u)
    | inl (l, listed) ↦
        reconcile_listed l listed u
        ∙ (run_plan-other d b law (plan_recovery (inventory d b law faithful s g l listed)) 0 []
              (b.enumerate s).1 u
              (λ i k at. elim (Bool-cases (target_eq (TargetName.item_secret i k) u)) [
                | inl same ↦ absurd (
                    ((planned d b law faithful s g l listed i k).0 at).1
                      (h i k (sym ((target_eq_iff (TargetName.item_secret i k) u).0 same))))
                | inr other ↦ other
              ])
            ∙ law.enumerate_keeps s u)
  ]

  -- With a lawful backend in a good state and faithful crates, after a recovery that succeeds no
  -- secret is stored of a generation that no valid item metadata commits to.
  pub reconcile_locked-deletes :
      (body : ResponseBody)
      → (reconcile_locked d b s).0 ≡ ok body
      → (i k : Uuid) → committed_generation d (law.creds s) i ≢ some k
      → law.creds (reconcile_locked d b s).1 (TargetName.item_secret i k) ≡ none
  unfolding reconcile_locked entries ◌>>=◌
  reconcile_locked-deletes body e i k h = elim (Result-cases (b.enumerate s).0) [
    | inr (x, failed) ↦ absurd (ground arith)
    | inl (l, listed) ↦
        let (r, done) = reconcile_ran l listed body e in
        reconcile_listed l listed (TargetName.item_secret i k)
        ∙ elim (Option-cases (law.creds s (TargetName.item_secret i k))) [
          | inl absent ↦
              run_plan-none d b law _ 0 [] (b.enumerate s).1 (TargetName.item_secret i k)
                (law.enumerate_keeps s (TargetName.item_secret i k) ∙ absent)
          | inr (v, stored) ↦
              run_plan-deleted d b law (plan_recovery (inventory d b law faithful s g l listed)) 0
                [] (b.enumerate s).1 i k r done
                ((planned d b law faithful s g l listed i k).1 (λ none. ground arith, h))
        ]
  ]
