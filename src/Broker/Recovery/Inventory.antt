-- ===== src/Broker/Recovery/Inventory.antt =====
-- The inventory of `reconcile_locked` of crates/broker/src/service.rs, against its entries.
use wincred_libsecret_wsl_pl.Prelude.{
  ◌≡◌, ◌≢◌, refl, ◌∙◌, sym, Option, none, some, List, [], ◌∷◌, In, ◌⊎◌, ◌↔◌, inl, inr, arith,
  Option-cases, ==_iff, Bool-cases, ◌==◌,
}
use wincred_libsecret_wsl_pl.Prelude.Order.{nat_ord, pair_ord}
use wincred_libsecret_wsl_pl.Prelude.OrdMap.{get, insert, get-insert_self, get-insert_ne, In-add}
use wincred_libsecret_wsl_pl.Protocol.Model.{Blob, Uuid, ItemMetadata}
use wincred_libsecret_wsl_pl.Protocol.Target.{TargetName}
use wincred_libsecret_wsl_pl.Protocol.Vault.{RecoveryInventory}
use wincred_libsecret_wsl_pl.Broker.Metadata.{Deps}
use wincred_libsecret_wsl_pl.Broker.Entries.{Entry, entry_item}
use wincred_libsecret_wsl_pl.Broker.Recovery.{note_entry, take_inventory}

-- The loop body by what the entry is.
note_item :
    (d : Deps) (e : Entry) (inv : RecoveryInventory) (item : ItemMetadata)
    → entry_item d e ≡ some item
    → note_entry d e inv ≡ record inv {
      committed_generations = insert item.id item.current_generation inv.committed_generations;
    }
unfolding note_entry entry_item
note_item d e inv item h = ground arith

note_other :
    (d : Deps) (e : Entry) (inv : RecoveryInventory)
    → entry_item d e ≡ none
    → (note_entry d e inv).committed_generations ≡ inv.committed_generations
unfolding note_entry entry_item
note_other d e inv h = ground arith

module _ (d : Deps) (committed : Uuid → Option Uuid) where
  -- Every valid item among the entries is the one that is committed.
  abbrev pub Consistent : List Entry → Type 0
  Consistent es =
      (e : Entry) (item : ItemMetadata)
      → In e es
      → entry_item d e ≡ some item
      → committed item.id ≡ some item.current_generation

  abbrev pub Agrees : RecoveryInventory → Type 0
  Agrees inv =
      (j : Uuid)
      → (get j inv.committed_generations ≡ none) ⊎ (get j inv.committed_generations ≡ committed j)

  note-Agrees :
      (e : Entry) (inv : RecoveryInventory)
      → ((item : ItemMetadata)
          → entry_item d e ≡ some item
          → committed item.id ≡ some item.current_generation)
      → Agrees inv
      → Agrees (note_entry d e inv)
  note-Agrees e inv h a j = elim (Option-cases (entry_item d e)) [
    | inl absent ↦ rw (note_other d e inv absent) (a j)
    | inr (item, found) ↦ rw (note_item d e inv item found) (elim (Bool-cases (item.id == j)) [
      | inl same ↦
          let here : item.id ≡ j = (==_iff item.id j).0 same in
          inr (
            rw (← here) (
              get-insert_self item.id item.current_generation inv.committed_generations
              ∙ sym (h item found)))
      | inr other ↦
          rw
            (get-insert_ne item.id j item.current_generation inv.committed_generations
              (λ p. ground arith))
            (a j)
    ])
  ]

  pub take-Agrees :
      (es : List Entry) (inv : RecoveryInventory)
      → Consistent es
      → Agrees inv
      → Agrees (take_inventory d es inv)
  unfolding take_inventory
  take-Agrees [] inv h a = a
  take-Agrees (e ∷ es) inv h a =
      take-Agrees es (note_entry d e inv) (λ f item i. h f item (inr i))
        (note-Agrees e inv (λ item. h e item (inl refl)) a)

module _ (d : Deps) where
  -- What has been committed stays in the inventory, and every valid item enters it.
  note_present :
      (e : Entry) (inv : RecoveryInventory) (j : Uuid)
      → get j inv.committed_generations ≢ none
      → get j (note_entry d e inv).committed_generations ≢ none
  note_present e inv j p = elim (Option-cases (entry_item d e)) [
    | inl absent ↦ rw (note_other d e inv absent) p
    | inr (item, found) ↦ rw (note_item d e inv item found) (elim (Bool-cases (item.id == j)) [
      | inl same ↦
          let here : item.id ≡ j = (==_iff item.id j).0 same in
          λ q.
            cc (here, q, get-insert_self item.id item.current_generation inv.committed_generations)
      | inr other ↦
          rw
            (get-insert_ne item.id j item.current_generation inv.committed_generations
              (λ q. ground arith))
            p
    ])
  ]

  take_present :
      (es : List Entry) (inv : RecoveryInventory) (j : Uuid)
      → get j inv.committed_generations ≢ none
      → get j (take_inventory d es inv).committed_generations ≢ none
  unfolding take_inventory
  take_present [] inv j p = p
  take_present (e ∷ es) inv j p = take_present es (note_entry d e inv) j (note_present e inv j p)

  pub take-item :
      (es : List Entry) (inv : RecoveryInventory) (e : Entry) (item : ItemMetadata)
      → In e es
      → entry_item d e ≡ some item
      → get item.id (take_inventory d es inv).committed_generations ≢ none
  unfolding take_inventory
  take-item [] inv e item i found = absurd i
  take-item (f ∷ es) inv e item (inr later) found =
      take-item es (note_entry d f inv) e item later found
  take-item (f ∷ es) inv e item (inl same) found = take_present es (note_entry d f inv) item.id (
      rw (note_item d f inv item (rw (← same) found))
        λ q. cc (q, get-insert_self item.id item.current_generation inv.committed_generations))

  -- The stored generations are the secrets among the entries.
  note-stored :
      (kind : TargetName) (blob : Blob) (inv : RecoveryInventory) (i g : Uuid)
      → In (i, g) (note_entry d (record { kind = kind; blob = blob }) inv).stored_generations
        ↔ ((kind ≡ TargetName.item_secret i g) ⊎ In (i, g) inv.stored_generations)
  unfolding note_entry
  note-stored (TargetName.collection c) blob inv i g = (λ h. inr h, λ h. ground arith)
  note-stored (TargetName.alias name) blob inv i g = (λ h. inr h, λ h. ground arith)
  note-stored (TargetName.item_metadata j) blob inv i g = (λ h. ground arith, λ h. ground arith)
  note-stored (TargetName.item_secret j k) blob inv i g = (
    λ h. ground (arith, In-add (j, k) (i, g) inv.stored_generations),
    λ h. ground (arith, In-add (j, k) (i, g) inv.stored_generations),
  )

  pub take-stored :
      (es : List Entry) (inv : RecoveryInventory) (i g : Uuid)
      → In (i, g) (take_inventory d es inv).stored_generations ↔ (
          ((e : Entry) × In e es × (e.kind ≡ TargetName.item_secret i g))
          ⊎ In (i, g) inv.stored_generations)
  unfolding take_inventory
  take-stored [] inv i g = (λ h. inr h, λ h. elim h [ inl (e, at, k) ↦ absurd at | inr k ↦ k ])
  take-stored (e ∷ es) inv i g = (
    λ h. elim ((take-stored es (note_entry d e inv) i g).0 h) [
      | inl (f, at, k) ↦ inl (f, inr at, k)
      | inr k ↦ elim ((note-stored e.kind e.blob inv i g).0 k) [
        | inl here ↦ inl (e, inl refl, here)
        | inr there ↦ inr there
      ]
    ],
    λ h. (take-stored es (note_entry d e inv) i g).1 (elim h [
      | inl (f, inl same, k) ↦ inr ((note-stored e.kind e.blob inv i g).1 (inl (rw same at k)))
      | inl (f, inr at, k) ↦ inl (f, at, k)
      | inr k ↦ inr ((note-stored e.kind e.blob inv i g).1 (inr k))
    ]),
  )
