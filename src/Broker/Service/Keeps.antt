-- ===== src/Broker/Service/Keeps.antt =====
-- The operations of crates/broker/src/service.rs act on the store through the calls of the backend only: what each
-- call keeps, every operation keeps.
use wincred_libsecret_wsl_pl.Prelude.{ℕ, Bool, true, false, Option, none, some, List, [], ◌∷◌, Text}
use wincred_libsecret_wsl_pl.Prelude.Exec.Keeps.{
  Keeps, Keeps-bind, Keeps-pure, Keeps-option, Keeps-result, Keeps-outcome, keeps_rules,
}
use wincred_libsecret_wsl_pl.Protocol.Errors.{BrokerError}
use wincred_libsecret_wsl_pl.Protocol.Frame.{Codec}
use wincred_libsecret_wsl_pl.Protocol.Model.{Uuid, Blob, SecretBytes, ItemMetadata}
use wincred_libsecret_wsl_pl.Protocol.Message.{Operation}
use wincred_libsecret_wsl_pl.Protocol.Target.{TargetName}
use wincred_libsecret_wsl_pl.Protocol.Vault.{
  CommitStep, RecoveryAction, delete_abandoned_generation, report_missing_committed_generation,
}
use wincred_libsecret_wsl_pl.Broker.Backend.{VaultBackend}
use wincred_libsecret_wsl_pl.Broker.Service.{dispatch}
use wincred_libsecret_wsl_pl.Broker.Metadata.{Deps}
use wincred_libsecret_wsl_pl.Broker.Entries.{Entry, entries, valid_items}
use wincred_libsecret_wsl_pl.Broker.Collections.{
  list_collections, get_collection, some_or, write_metadata, delete_secrets,
  delete_item_from_entries, delete_items, delete_aliases, create_collection, update_collection,
  delete_collection, require_collection,
}
use wincred_libsecret_wsl_pl.Broker.Aliases.{
  list_aliases, resolve_alias, collect_aliases, set_alias, remove_alias,
}
use wincred_libsecret_wsl_pl.Broker.Items.{
  search_items, list_items, get_item, get_item_metadata, clean_up, try_delete_secrets,
  delete_replaced_item, delete_replaced, commit_new_generation, check_new_item, create_item,
  replaced_by, create_or_replace_item, write_update, update_item, update_item_cas, delete_item,
}
use wincred_libsecret_wsl_pl.Broker.Recovery.{run_plan, reconcile_locked}

-- What each call of the backend keeps, on every branch.
pub record KeepsCalls {S : Type 0} (b : VaultBackend S) (P : S → Type 0) : Type 0 where
  pub on_read : (t : TargetName) → Keeps P (b.read t)
  pub on_write : (t : TargetName) (blob : Blob) → Keeps P (b.write t blob)
  pub on_delete : (t : TargetName) → Keeps P (b.delete t)
  pub on_enumerate : Keeps P b.enumerate

module _ (d : Deps) {S : Type 0} (b : VaultBackend S) {P : S → Type 0} (k : KeepsCalls b P) where
  read-P : (t : TargetName) → Keeps P (b.read t)
  read-P = k.on_read

  write-P : (t : TargetName) (blob : Blob) → Keeps P (b.write t blob)
  write-P = k.on_write

  delete-P : (t : TargetName) → Keeps P (b.delete t)
  delete-P = k.on_delete

  enumerate-P : Keeps P b.enumerate
  enumerate-P = k.on_enumerate

  some_or-P : {A : Type 0} (o : Option A) (e : BrokerError) → Keeps P (some_or o e)
  unfolding some_or
  some_or-P none e = search keeps_rules
  some_or-P (some a) e = search keeps_rules

  ruleset calls = (keeps_rules, read-P, write-P, delete-P, enumerate-P, some_or-P)

  entries-P : Keeps P (entries d b)
  unfolding entries
  entries-P = search calls

  valid_items-P : Keeps P (valid_items d b)
  unfolding valid_items
  valid_items-P = search (calls, entries-P)

  get_collection-P : (id : Uuid) → Keeps P (get_collection d b id)
  unfolding get_collection
  get_collection-P id = search calls depth 9

  require_collection-P : (id : Uuid) → Keeps P (require_collection d b id)
  unfolding require_collection
  require_collection-P id = search (calls, get_collection-P) depth 9

  get_item_metadata-P : (id : Uuid) → Keeps P (get_item_metadata d b id)
  unfolding get_item_metadata
  get_item_metadata-P id = search calls depth 9

  write_metadata-P :
      {T : Type 0} (c : Codec T) (t : TargetName) (m : T) → Keeps P (write_metadata b c t m)
  unfolding write_metadata
  write_metadata-P c t m = search calls

  ruleset scans = (
    calls, entries-P, valid_items-P, get_collection-P, require_collection-P, get_item_metadata-P,
    write_metadata-P,
  )

  -- The loops.
  delete_secrets-P : (id : Uuid) (es : List Entry) → Keeps P (delete_secrets b id es)
  unfolding delete_secrets
  delete_secrets-P id [] = search calls
  delete_secrets-P id (e ∷ es) =
      Keeps-option _ _ _ (delete_secrets-P id es)
        λ t. Keeps-bind _ _ (delete-P t) λ _. delete_secrets-P id es

  delete_item_from_entries-P :
      (id : Uuid) (es : List Entry) → Keeps P (delete_item_from_entries b id es)
  unfolding delete_item_from_entries
  delete_item_from_entries-P id es = search (calls, delete_secrets-P)

  delete_items-P : (ids : List Uuid) (es : List Entry) → Keeps P (delete_items b ids es)
  unfolding delete_items
  delete_items-P [] es = search calls
  delete_items-P (id ∷ ids) es =
      Keeps-bind _ _ (delete_item_from_entries-P id es) λ _. delete_items-P ids es

  delete_aliases-P : (names : List Text) → Keeps P (delete_aliases b names)
  unfolding delete_aliases
  delete_aliases-P [] = search calls
  delete_aliases-P (name ∷ names) = Keeps-bind _ _ (delete-P _) λ _. delete_aliases-P names

  collect_aliases-P : (es : List Entry) → Keeps P (collect_aliases d b es)
  unfolding collect_aliases
  collect_aliases-P [] = search calls
  collect_aliases-P (e ∷ es) = Keeps-option _ _ _ (collect_aliases-P es) λ a.
      Keeps-bind _ _ (search scans)
        λ target. Keeps-bind _ _ (collect_aliases-P es) λ aliases. Keeps-pure _

  clean_up-P : (steps : List CommitStep) → Keeps P (clean_up b steps)
  unfolding clean_up
  clean_up-P [] = search calls
  clean_up-P (s ∷ rest) =
      Keeps-option _ _ _ (clean_up-P rest)
        λ t. Keeps-bind _ _ (Keeps-outcome _ (delete-P t)) λ _. clean_up-P rest

  try_delete_secrets-P : (id : Uuid) (es : List Entry) → Keeps P (try_delete_secrets b id es)
  unfolding try_delete_secrets
  try_delete_secrets-P id [] = search calls
  try_delete_secrets-P id (e ∷ es) =
      Keeps-option _ _ _ (try_delete_secrets-P id es)
        λ t. Keeps-bind _ _ (Keeps-outcome _ (delete-P t)) λ _. try_delete_secrets-P id es

  delete_replaced_item-P : (id : Uuid) (es : List Entry) → Keeps P (delete_replaced_item b id es)
  unfolding delete_replaced_item
  delete_replaced_item-P id es = search (calls, try_delete_secrets-P)

  delete_replaced-P :
      (ids : List Uuid) (es : List Entry) (deleted failed : List Uuid)
      → Keeps P (delete_replaced b ids es deleted failed)
  unfolding delete_replaced
  delete_replaced-P [] es deleted failed = search calls
  delete_replaced-P (id ∷ ids) es deleted failed =
      Keeps-bind _ _ (Keeps-outcome _ (delete_replaced_item-P id es)) λ r.
        Keeps-result r _ _ (λ _. delete_replaced-P ids es _ _) λ _. delete_replaced-P ids es _ _

  run_plan-P :
      (plan : List RecoveryAction) (n : ℕ) (corrupt : List Uuid)
      → Keeps P (run_plan b plan n corrupt)
  unfolding run_plan
  run_plan-P [] n corrupt = search calls
  run_plan-P (delete_abandoned_generation id g ∷ rest) n corrupt =
      Keeps-bind _ _ (delete-P _) λ _. run_plan-P rest _ _
  run_plan-P (report_missing_committed_generation id g ∷ rest) n corrupt = run_plan-P rest n _

  -- The operations.
  commit_new_generation-P :
      (item : ItemMetadata) (previous : Option Uuid) (secret : SecretBytes)
      → Keeps P (commit_new_generation d b item previous secret)
  unfolding commit_new_generation
  commit_new_generation-P item previous secret = search (calls, clean_up-P) depth 12

  check_new_item-P : (item : ItemMetadata) → Keeps P (check_new_item d b item)
  unfolding check_new_item
  check_new_item-P item = search scans depth 9

  replaced_by-P : (item : ItemMetadata) (replace : Bool) → Keeps P (replaced_by d b item replace)
  unfolding replaced_by
  replaced_by-P item false = search scans
  replaced_by-P item true = search scans

  write_update-P :
      (existing item : ItemMetadata) (secret : Option SecretBytes)
      → Keeps P (write_update d b existing item secret)
  unfolding write_update
  write_update-P existing item none = search scans depth 9
  write_update-P existing item (some secret) = search (scans, commit_new_generation-P) depth 9

  update_item-P :
      (given : ItemMetadata) (secret : Option SecretBytes) → Keeps P (update_item d b given secret)
  unfolding update_item
  update_item-P given secret = search (scans, write_update-P) depth 9

  pub dispatch-Keeps : (op : Operation) → Keeps P (dispatch d b op)
  unfolding dispatch list_collections create_collection update_collection delete_collection
      list_aliases resolve_alias set_alias remove_alias search_items list_items get_item create_item
      create_or_replace_item update_item_cas delete_item reconcile_locked
  dispatch-Keeps Operation.ping = search calls
  dispatch-Keeps Operation.list_collections = search scans
  dispatch-Keeps (Operation.get_collection id) = search scans
  dispatch-Keeps (Operation.create_collection c) = search scans depth 12
  dispatch-Keeps (Operation.update_collection c) = search scans depth 12
  dispatch-Keeps (Operation.delete_collection id) =
      search (scans, delete_items-P, delete_aliases-P) depth 14
  dispatch-Keeps Operation.list_aliases = search (scans, collect_aliases-P)
  dispatch-Keeps (Operation.resolve_alias name) = search scans depth 14
  dispatch-Keeps (Operation.set_alias alias) = search scans depth 12
  dispatch-Keeps (Operation.remove_alias name) = search scans depth 12
  dispatch-Keeps (Operation.search_items attributes) = search scans depth 12
  dispatch-Keeps (Operation.list_items id) = search scans depth 12
  dispatch-Keeps (Operation.get_item id include_secret) = search scans depth 14
  dispatch-Keeps (Operation.create_item item secret) =
      search (scans, check_new_item-P, commit_new_generation-P) depth 12
  dispatch-Keeps (Operation.create_or_replace_item item secret replace) =
      search (scans, check_new_item-P, replaced_by-P, commit_new_generation-P, delete_replaced-P)
        depth 14
  dispatch-Keeps (Operation.update_item item secret) = update_item-P item secret
  dispatch-Keeps (Operation.update_item_cas item secret expected) =
      search (scans, update_item-P) depth 9
  dispatch-Keeps (Operation.delete_item id) = search (scans, delete_item_from_entries-P) depth 12
  dispatch-Keeps Operation.reconcile = search (scans, run_plan-P) depth 9
