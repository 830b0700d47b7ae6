-- ===== src/Provider/Service/Stored.antt =====
-- `Provider::create_item` of crates/provider/src/service.rs over `InMemoryBroker`: what is stored is read.
use wincred_libsecret_wsl_pl.Prelude.{
  Option-cases, All, ◌≡◌, ◌≢◌, refl, sym, ap, ◌∙◌, arith, ℕ, Bool, true, false, inl, inr, some,
  none, List, [], ◌∷◌, map, keep, Text, In, ok,
}
use wincred_libsecret_wsl_pl.Prelude.Exec.{Exec, ◌>>=◌}
use wincred_libsecret_wsl_pl.Provider.Service.Answers.{check-ok, ask-ok}
use wincred_libsecret_wsl_pl.Prelude.Order.{nat_ord}
use wincred_libsecret_wsl_pl.Prelude.OrdMap.{
  OrdMap, get, insert, remove, get-insert_self, get-remove_ne,
}
use wincred_libsecret_wsl_pl.Protocol.Model.{Uuid, Attributes, ItemMetadata, SecretBytes}
use wincred_libsecret_wsl_pl.Protocol.Message.{Operation, ResponseBody}
use wincred_libsecret_wsl_pl.Broker.Items.{replaces, item_ids}
use wincred_libsecret_wsl_pl.Provider.Double.{
  MemoryState, StoredItem, call, values, replaced_by, remove_items, create_or_replace_item,
  get_item,
}
use wincred_libsecret_wsl_pl.Provider.Double.Consistent.{IsConsistent, ItemEntry}
use wincred_libsecret_wsl_pl.Provider.Service.{
  ProviderError, Exec, item, create_item, ask, as_replaced,
}

-- An id that a search finds is a key of the map.
found-get :
    (s : MemoryState) (test : ItemMetadata → Bool) (id : Uuid) (m : OrdMap Uuid StoredItem)
    → All (ItemEntry s) m
    → In id (item_ids (map (λ (i : StoredItem). i.0) (keep (λ i. test i.0) (values m))))
    → get id m ≢ none
unfolding get
found-get s test id [] h i e = absurd i
found-get s test id ((k, (j, b)) ∷ m) h i e = ground (arith, h.0, i, found-get s test id m h.1, e)

get-remove_items :
    (id : Uuid) (ids : List Uuid) (m : OrdMap Uuid StoredItem)
    → ¬ In id ids
    → get id (remove_items ids m) ≡ get id m
unfolding remove_items
get-remove_items id [] m h = refl
get-remove_items id (j ∷ ids) m h =
    get-remove_items id ids (remove j m) (λ i. h (inr i))
    ∙ get-remove_ne j id m (λ e. h (inl (sym e)))

In-replaced_by :
    (i : ItemMetadata) (replace : Bool) (s : MemoryState) (id : Uuid)
    → IsConsistent s
    → In id (replaced_by i replace s)
    → get id s.items ≢ none
In-replaced_by i true s id h k = found-get s (replaces i) id s.items h.1 k
In-replaced_by i false s id h k = absurd k

-- A replacement that succeeds stores the item and its secret.
create_or_replace_item-get :
    (i given : ItemMetadata) (secret : SecretBytes) (replace : Bool) (s : MemoryState)
    (replaced failed : List Uuid)
    → IsConsistent s
    → (create_or_replace_item given secret replace s).0
      ≡ ok (ResponseBody.replaced_item i replaced failed)
    → (i ≡ given)
      × (get given.id (create_or_replace_item given secret replace s).1.items
          ≡ some (given, secret))
unfolding create_or_replace_item
create_or_replace_item-get i given secret replace s replaced failed h e =
    elim (Option-cases (get given.id s.items)) [
      | inl n ↦ ground (arith, e, n, kept n)
      | inr (old, n) ↦ ground (arith, e, n)
    ]
  where
    kept :
        get given.id s.items ≡ none
        → get given.id
            (remove_items (replaced_by given replace s) (insert given.id (given, secret) s.items))
          ≡ some (given, secret)
    kept n =
        get-remove_items given.id (replaced_by given replace s)
          (insert given.id (given, secret) s.items)
          (λ k. In-replaced_by given replace s given.id h k n)
        ∙ get-insert_self given.id (given, secret) s.items

as_replaced-ok :
    (body : ResponseBody) (i : ItemMetadata) (replaced failed : List Uuid)
    → as_replaced body ≡ ok (i, replaced, failed)
    → body ≡ ResponseBody.replaced_item i replaced failed
as_replaced-ok body i replaced failed h = ground arith

item-get :
    (i : ItemMetadata) (secret : SecretBytes) (s : MemoryState)
    → get i.id s.items ≡ some (i, secret)
    → item call i.id true s ≡ (ok (i, some secret), s)
unfolding item ask call get_item ◌>>=◌
item-get i secret s h = ground (arith, h)

module _ (collection_id : Uuid) (label : Text) (attributes : Attributes) (content_type : Text)
    (secret : SecretBytes) (replace : Bool) (timestamp : ℕ) (id generation : Uuid) where
  abbrev pub made : ItemMetadata
  made = record {
    schema_version = 1;
    id = id;
    collection_id = collection_id;
    label = label;
    attributes = attributes;
    content_type = content_type;
    created = timestamp;
    modified = timestamp;
    current_generation = generation;
  }

  abbrev pub creation : Exec MemoryState ProviderError (ItemMetadata × List Uuid × List Uuid)
  creation =
      create_item call collection_id label attributes content_type secret replace timestamp id
        generation

  creation-ok :
      (s : MemoryState) (a : ItemMetadata × List Uuid × List Uuid)
      → (creation s).0 ≡ ok a
      → creation s ≡ ask call as_replaced (Operation.create_or_replace_item made secret replace) s
  unfolding create_item
  creation-ok s a h =
      let e₁ = check-ok _ _ s a h in
      let e₂ = check-ok _ _ s a (sym (ap (λ x. x.0) e₁) ∙ h) in
      let e₃ = check-ok _ _ s a (sym (ap (λ x. x.0) (e₁ ∙ e₂)) ∙ h) in e₁ ∙ e₂ ∙ e₃

  -- Over a consistent store in memory, an item that `create_item` has created, with a replacement
  -- or without, is read back by `item` with its secret, and reading changes nothing.
  pub item-create_item :
      (s : MemoryState) (i : ItemMetadata) (replaced failed : List Uuid)
      → IsConsistent s
      → (creation s).0 ≡ ok (i, replaced, failed)
      → item call i.id true (creation s).1 ≡ (ok (i, some secret), (creation s).1)
  unfolding call
  item-create_item s i replaced failed h e =
      let asked = creation-ok s (i, replaced, failed) e in
      let (body, answered, taken, after) =
        ask-ok call as_replaced (Operation.create_or_replace_item made secret replace) s
          (i, replaced, failed) (sym (ap (λ x. x.0) asked) ∙ e) in
      let stored =
        create_or_replace_item-get i made secret replace s replaced failed h
          (answered ∙ ap ok (as_replaced-ok body i replaced failed taken)) in
      rw (asked, after) (item-get i secret _ (ground (arith, stored)))
