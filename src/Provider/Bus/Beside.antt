-- ===== src/Provider/Bus/Beside.antt =====
-- `InMemoryBroker` of crates/provider/src/broker.rs as the broker beside a bus that does not reach it, and
-- what `Provider` of crates/provider/src/service.rs reads and updates there.
use wincred_libsecret_wsl_pl.Prelude.{
  ◌≡◌, sym, ap, ◌∙◌, arith, ℕ, Bool, inl, inr, Option-cases, Option, some, ok,
}
use wincred_libsecret_wsl_pl.Prelude.Results.{ok_injective}
use wincred_libsecret_wsl_pl.Prelude.Exec.{Exec, pure, ◌>>=◌}
use wincred_libsecret_wsl_pl.Prelude.Exec.Inversion.{bind-ok}
use wincred_libsecret_wsl_pl.Prelude.Order.{nat_ord}
use wincred_libsecret_wsl_pl.Prelude.OrdMap.{get, get-insert_self}
use wincred_libsecret_wsl_pl.Protocol.Model.{Uuid, ItemMetadata, SecretBytes}
use wincred_libsecret_wsl_pl.Protocol.Message.{ResponseBody}
use wincred_libsecret_wsl_pl.Provider.Double.{MemoryState, call, get_item, update_item_cas, advance}
use wincred_libsecret_wsl_pl.Provider.Service.{
  BrokerClient, item, update_item, updated, ask, as_item,
}
use wincred_libsecret_wsl_pl.Provider.Service.Answers.{check-ok, ask-ok}
use wincred_libsecret_wsl_pl.Provider.Bus.{Bus}

update_item_cas-stored :
    (given : ItemMetadata) (secret : SecretBytes) (expected : ℕ) (s : MemoryState)
    (i : ItemMetadata) (o : Option SecretBytes)
    → (update_item_cas given (some secret) expected s).0 ≡ ok (ResponseBody.item i o)
    → (get given.id (update_item_cas given (some secret) expected s).1.items ≡ some (i, secret))
      × (i.content_type ≡ given.content_type)
unfolding update_item_cas
update_item_cas-stored given secret expected s i o h = elim (Option-cases (get given.id s.items)) [
  | inl e ↦ ground (arith, e, h)
  | inr (stored, e) ↦
      ground (arith, e, h, get-insert_self given.id (advance stored.0 given, secret) s.items)
]

as_item-ok :
    (body : ResponseBody) (i : ItemMetadata) (o : Option SecretBytes)
    → as_item body ≡ ok (i, o)
    → body ≡ ResponseBody.item i o
as_item-ok body i o h = ground arith

module _ {B : Type 0} where
  abbrev pub on_left : {E A : Type 0} → Exec MemoryState E A → Exec (MemoryState × B) E A
  on_left m w = ((m w.0).0, ((m w.0).1, w.1))

  abbrev pub on_right : {E A : Type 0} → Exec B E A → Exec (MemoryState × B) E A
  on_right m w = ((m w.1).0, (w.0, (m w.1).1))

  abbrev pub beside_call : BrokerClient (MemoryState × B)
  beside_call op = on_left (call op)

  abbrev pub beside_bus : Bus B → Bus (MemoryState × B)
  beside_bus b = record {
    at = λ path object. on_right (b.at path object);
    remove = λ interface path. on_right (b.remove interface path);
    emit = λ path signal. on_right (b.emit path signal);
  }

  -- An item that was read is stored, and nothing changed.
  pub item-found :
      (id : Uuid) (include_secret : Bool) (w : MemoryState × B)
      (a : ItemMetadata × Option SecretBytes)
      → (item beside_call id include_secret w).0 ≡ ok a
      → (secret : SecretBytes) × (get id w.0.items ≡ some (a.0, secret))
        × ((item beside_call id include_secret w).1 ≡ w)
  unfolding item ask call get_item ◌>>=◌
  item-found id include_secret w a h = elim (Option-cases (get id w.0.items)) [
    | inl e ↦ ground (arith, e, h)
    | inr (stored, e) ↦ (stored.1, ground (arith, e, h), ground (arith, e))
  ]

  -- An update that succeeds has stored its secret, with the content type that it was given.
  pub update_item-stored :
      (given : ItemMetadata) (secret : SecretBytes) (timestamp : ℕ) (generation : Uuid)
      (w : MemoryState × B) (i : ItemMetadata)
      → (update_item beside_call given (some secret) timestamp generation w).0 ≡ ok i
      → (get given.id (update_item beside_call given (some secret) timestamp generation w).1.0.items
          ≡ some (i, secret))
        × (i.content_type ≡ given.content_type)
  unfolding update_item call pure
  update_item-stored given secret timestamp generation w i h =
      let e₁ = check-ok _ _ w i h in
      let e₂ = check-ok _ _ w i (sym (ap (λ x. x.0) e₁) ∙ h) in
      let e₃ = check-ok _ _ w i (sym (ap (λ x. x.0) (e₁ ∙ e₂)) ∙ h) in
      let (a, asked, rest, last) = bind-ok _ _ w i (sym (ap (λ x. x.0) (e₁ ∙ e₂ ∙ e₃)) ∙ h) in
      let (body, answered, taken, after) = ask-ok beside_call as_item _ w a asked in
      let (kept, typed) =
        update_item_cas-stored (updated given (some secret) timestamp generation) secret
          given.modified w.0 a.0 a.1 (answered ∙ ap ok (as_item-ok body a.0 a.1 taken)) in
      let same = ok_injective last in
      (
        ap (λ x. get given.id x.1.0.items) (e₁ ∙ e₂ ∙ e₃ ∙ rest)
            ∙ ap (λ (x : MemoryState × B). get given.id x.0.items) after
            ∙ kept
            ∙ ap (λ j. some (j, secret)) same,
        ap (λ (j : ItemMetadata). j.content_type) (sym same) ∙ typed,
      )
