-- ===== src/Provider/Bus/Service/Rollback.antt =====
-- `SecretService::create_collection` of crates/provider/src/service.rs where the object server refuses the new
-- object: the broker gets its old state back.
use wincred_libsecret_wsl_pl.Prelude.{
  ◌⊎◌, ◌≡◌, arith, ℕ, true, false, not, ◌==◌, ==_iff, inl, inr, none, Text, ok, err,
}
use wincred_libsecret_wsl_pl.Prelude.Results.{Result-cases, is_ok}
use wincred_libsecret_wsl_pl.Prelude.Exec.{lift, raise, match_result, ◌>>=◌}
use wincred_libsecret_wsl_pl.Prelude.Order.{nat_ord, text_ord}
use wincred_libsecret_wsl_pl.Prelude.OrdMap.{get, insert, get-insert_self}
use wincred_libsecret_wsl_pl.Prelude.OrdMap.Every.{All-map}
use wincred_libsecret_wsl_pl.Prelude.OrdMap.Filter.{remove-insert, keep-All}
use wincred_libsecret_wsl_pl.Protocol.Model.{Uuid, CollectionMetadata, validate_label}
use wincred_libsecret_wsl_pl.Protocol.Target.{Crates}
use wincred_libsecret_wsl_pl.Provider.Crypto.{CryptoLib}
use wincred_libsecret_wsl_pl.Provider.Paths.{collection_path}
use wincred_libsecret_wsl_pl.Provider.Double
use wincred_libsecret_wsl_pl.Provider.Double.{MemoryState, drop_collection, has_collection}
use wincred_libsecret_wsl_pl.Provider.Double.Consistent.{IsConsistent, ItemEntry, AliasEntry}
use wincred_libsecret_wsl_pl.Provider.Service as Vault
use wincred_libsecret_wsl_pl.Provider.Service.{ask, as_collection, as_empty, check}
use wincred_libsecret_wsl_pl.Provider.Bus.{
  Bus, Object, World, Properties, ask_provider, outside, try_outside, ignore, collection_label,
}
use wincred_libsecret_wsl_pl.Provider.Bus.Beside.{beside_call, beside_bus}
use wincred_libsecret_wsl_pl.Provider.Bus.Service.{create_collection}

-- The state with a collection.
abbrev put : CollectionMetadata → MemoryState → MemoryState
put c s = record s { collections = insert c.id c s.collections }

-- An entry of a collection that is there is not one of a collection that is not.
other_collection :
    (s : MemoryState) (id k : Uuid)
    → get id s.collections ≡ none
    → has_collection s k ≡ true
    → not (k == id) ≡ true
other_collection s id k fresh there = ground (arith, ==_iff k id)

drop_collection-put :
    (c : CollectionMetadata) (s : MemoryState)
    → IsConsistent s
    → get c.id s.collections ≡ none
    → drop_collection c.id (put c s) ≡ s
drop_collection-put c s h fresh = λ i. record {
  collections = remove-insert c.id c s.collections fresh i;
  items =
      keep-All _ s.items
        (All-map (ItemEntry s) _ s.items (λ e q. other_collection s c.id _ fresh q.1) h.1) i;
  aliases =
      keep-All _ s.aliases
        (All-map (AliasEntry s) _ s.aliases (λ e q. other_collection s c.id _ fresh q.1) h.2) i;
}

module _ (u : Crates) (c : CryptoLib) {B : Type 0} (b : Bus B) where
  abbrev made : Uuid → Text → ℕ → CollectionMetadata
  made id label timestamp = record {
    schema_version = 1;
    id = id;
    label = label;
    created = timestamp;
    modified = timestamp;
  }

  -- The creation in the broker: refused for its label, or the new collection.
  create_collection-cases :
      (label : Text) (timestamp : ℕ) (id : Uuid) (w : MemoryState × B)
      → get id w.0.collections ≡ none
      → ((is_ok (Vault.create_collection beside_call label timestamp id w).0 ≡ false)
          × ((Vault.create_collection beside_call label timestamp id w).1 ≡ w))
        ⊎ (Vault.create_collection beside_call label timestamp id w
            ≡ (ok (made id label timestamp), (put (made id label timestamp) w.0, w.1)))
  unfolding Vault.create_collection check ask lift Double.call Double.create_collection ◌>>=◌
  create_collection-cases label timestamp id w fresh = elim (Result-cases (validate_label label)) [
    | inr (e, f) ↦ inl (ground (arith, f))
    | inl (x, f) ↦ inr (ground (arith, f, fresh))
  ]

  delete_collection-put :
      (d : CollectionMetadata) (w : MemoryState × B)
      → IsConsistent w.0
      → get d.id w.0.collections ≡ none
      → (Vault.delete_collection beside_call d.id (put d w.0, w.1)).1 ≡ w
  unfolding Vault.delete_collection ask Double.call Double.delete_collection ◌>>=◌
  delete_collection-put d w h fresh =
      ground (arith, get-insert_self d.id d w.0.collections, drop_collection-put d w.0 h fresh)

  -- Over a consistent store in memory and a bus beside it, where the new id is not yet a
  -- collection's and the bus refuses the new object, `create_collection` fails and leaves the
  -- store as it was.
  pub create_collection-refused :
      (properties : Properties) (alias : Text) (timestamp : ℕ) (id : Uuid)
      (s : World (MemoryState × B)) (error : Text)
      → IsConsistent s.outside.0
      → get id s.outside.0.collections ≡ none
      → (b.at (collection_path u id) (Object.collection_object id) s.outside.1).0 ≡ err error
      → (is_ok (create_collection u c beside_call (beside_bus b) properties alias timestamp id s).0
          ≡ false)
        × ((create_collection u c beside_call
              (beside_bus b)
              properties
              alias
              timestamp
              id
              s).1.outside.0
            ≡ s.outside.0)
  unfolding create_collection lift ask_provider outside try_outside ignore match_result raise ◌>>=◌
  create_collection-refused properties alias timestamp id s error consistent fresh refused =
      elim (Result-cases (collection_label properties)) [
        | inr (e, l) ↦ (ground (arith, l), ground (arith, l))
        | inl (label, l) ↦ elim (create_collection-cases label timestamp id s.outside fresh) [
          | inl (failed, same) ↦
              elim (Result-cases
                (Vault.create_collection beside_call label timestamp id s.outside).0) [
                  | inl (d, f) ↦ ground (arith, f, failed)
                  | inr (e, f) ↦ (ground (arith, l, f), ground (arith, l, f, same))
                ]
          | inr stored ↦
              let undone =
                delete_collection-put (made id label timestamp)
                  (
                    s.outside.0,
                    (b.at (collection_path u id) (Object.collection_object id) s.outside.1).1,
                  )
                  consistent fresh in
              (ground (arith, l, stored, refused), ground (arith, l, stored, refused, undone))
        ]
      ]
