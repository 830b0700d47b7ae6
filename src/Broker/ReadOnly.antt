-- ===== src/Broker/ReadOnly.antt =====
-- The operations of crates/broker/src/service.rs that only read, and the store.
use wincred_libsecret_wsl_pl.Prelude.{
  inr, arith, inl, Option-cases, ◌≡◌, refl, ◌∙◌, Bool, true, false, Option, none, some, List, [],
  ◌∷◌, Text, Result, ok, err,
}
use wincred_libsecret_wsl_pl.Prelude.Exec.Keeps.{
  Keeps-option, Keeps, keeps_rules, Keeps-bind, Keeps-pure,
}
use wincred_libsecret_wsl_pl.Protocol.Errors.{BrokerError}
use wincred_libsecret_wsl_pl.Protocol.Model.{Uuid, Attributes}
use wincred_libsecret_wsl_pl.Protocol.Message.{Operation, ResponseBody}
use wincred_libsecret_wsl_pl.Protocol.Target.{TargetName}
use wincred_libsecret_wsl_pl.Broker.Backend.{VaultBackend, IsLawful}
use wincred_libsecret_wsl_pl.Broker.Service.{locked, execute, dispatch}
use wincred_libsecret_wsl_pl.Broker.Metadata.{Deps}
use wincred_libsecret_wsl_pl.Broker.Entries.{Entry, entries, valid_items}
use wincred_libsecret_wsl_pl.Broker.Collections.{list_collections, get_collection, some_or}
use wincred_libsecret_wsl_pl.Broker.Aliases.{list_aliases, resolve_alias, collect_aliases}
use wincred_libsecret_wsl_pl.Broker.Items.{search_items, list_items, get_item, get_item_metadata}

-- The operations of the wire protocol that only read.
unfoldable pub is_read : Operation → Bool
is_read Operation.ping = true
is_read Operation.list_collections = true
is_read (Operation.get_collection id) = true
is_read Operation.list_aliases = true
is_read (Operation.resolve_alias name) = true
is_read (Operation.search_items attributes) = true
is_read (Operation.list_items id) = true
is_read (Operation.get_item id include_secret) = true
is_read _ = false

module _ (d : Deps) {S : Type 0} (b : VaultBackend S) {good : S → Type 0}
    (law : IsLawful d.crates b good) (s₀ : S) where
  -- The store is the one of `s₀`.
  abbrev Same : S → Type 0
  Same s = (t : TargetName) → law.creds s t ≡ law.creds s₀ t

  pub read-Same : (t : TargetName) → Keeps Same (b.read t)
  read-Same t = record { at = λ s h u. law.read_keeps t s u ∙ h u }

  pub enumerate-Same : Keeps Same b.enumerate
  enumerate-Same = record { at = λ s h u. law.enumerate_keeps s u ∙ h u }

  some_or-Same : {A : Type 0} (o : Option A) (e : BrokerError) → Keeps Same (some_or o e)
  unfolding some_or
  some_or-Same none e = search keeps_rules
  some_or-Same (some a) e = search keeps_rules

  ruleset reads = (keeps_rules, read-Same, enumerate-Same, some_or-Same)

  pub entries-Same : Keeps Same (entries d b)
  unfolding entries
  entries-Same = search reads

  pub valid_items-Same : Keeps Same (valid_items d b)
  unfolding valid_items
  valid_items-Same = search (reads, entries-Same)

  pub get_collection-Same : (id : Uuid) → Keeps Same (get_collection d b id)
  unfolding get_collection
  get_collection-Same id = search reads depth 9

  ruleset scans = (reads, entries-Same, valid_items-Same, get_collection-Same)

  list_collections-Same : Keeps Same (list_collections d b)
  unfolding list_collections
  list_collections-Same = search scans

  resolve_alias-Same : (name : Text) → Keeps Same (resolve_alias d b name)
  unfolding resolve_alias
  resolve_alias-Same name = search scans depth 12

  collect_aliases-Same : (es : List Entry) → Keeps Same (collect_aliases d b es)
  unfolding collect_aliases
  collect_aliases-Same [] = search scans
  collect_aliases-Same (e ∷ es) = Keeps-option _ _ _ (collect_aliases-Same es) λ a.
      Keeps-bind _ _ (search scans)
        λ target. Keeps-bind _ _ (collect_aliases-Same es) λ aliases. Keeps-pure _

  list_aliases-Same : Keeps Same (list_aliases d b)
  unfolding list_aliases
  list_aliases-Same = search (scans, collect_aliases-Same)

  search_items-Same : (attributes : Attributes) → Keeps Same (search_items d b attributes)
  unfolding search_items
  search_items-Same attributes = search scans

  list_items-Same : (id : Uuid) → Keeps Same (list_items d b id)
  unfolding list_items
  list_items-Same id = search scans

  pub get_item_metadata-Same : (id : Uuid) → Keeps Same (get_item_metadata d b id)
  unfolding get_item_metadata
  get_item_metadata-Same id = search scans depth 9

  get_item-Same : (id : Uuid) (include_secret : Bool) → Keeps Same (get_item d b id include_secret)
  unfolding get_item
  get_item-Same id include_secret = search (scans, get_item_metadata-Same) depth 9

  ruleset readers = (
    keeps_rules, list_collections-Same, get_collection-Same, list_aliases-Same, resolve_alias-Same,
    search_items-Same, list_items-Same, get_item-Same,
  )

  -- Every operation that `is_read` accepts leaves the store as it was, whether it succeeds or fails.
  pub dispatch-Same : (op : Operation) → is_read op ≡ true → Keeps Same (dispatch d b op)
  unfolding dispatch is_read
  dispatch-Same Operation.ping h = search readers
  dispatch-Same Operation.list_collections h = search readers
  dispatch-Same (Operation.get_collection id) h = search readers
  dispatch-Same Operation.list_aliases h = search readers
  dispatch-Same (Operation.resolve_alias name) h = search readers
  dispatch-Same (Operation.search_items attributes) h = search readers
  dispatch-Same (Operation.list_items id) h = search readers
  dispatch-Same (Operation.get_item id include_secret) h = search readers
  dispatch-Same _ h = cc

module _ (d : Deps) {S : Type 0} (b : VaultBackend S) {good : S → Type 0}
    (law : IsLawful d.crates b good) where
  -- With a lawful backend, executing an operation that `is_read` accepts, where it returns with
  -- the lock taken and released, leaves every credential as it was, whether it succeeds or fails.
  pub execute-read :
      (op : Operation) (s : S) (r : Result BrokerError ResponseBody) (s' : S) (u : TargetName)
      → is_read op ≡ true
      → execute d b op s ≡ some (r, s')
      → law.creds s' u ≡ law.creds s u
  unfolding execute locked
  execute-read op s r s' u read e = elim (Option-cases (b.acquire_lock s)) [
    | inl waits ↦ absurd (ground (arith, waits, e))
    | inr ((err x, t), refused) ↦
        ground (arith, refused, e, law.acquire_keeps s (err x) t u refused)
    | inr ((ok _, t), locked_at) ↦
        let same = (dispatch-Same d b law t op read).at t (λ v. refl) u in
        let kept = law.acquire_keeps s (ok tt) t u locked_at in
        let gone = law.release_keeps (dispatch d b op t).1 u in
        ground (arith, locked_at, e, same, kept, gone)
  ]
