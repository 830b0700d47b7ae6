-- ===== src/Broker/Aliases.antt =====
-- The operations of crates/broker/src/service.rs on aliases.
use wincred_libsecret_wsl_pl.Prelude.{
  is_some, Option, none, some, List, [], ◌∷◌, Text, codes, text_eq, if◌then◌else◌,
}
use wincred_libsecret_wsl_pl.Prelude.Exec.{match_option, pure, raise, lift, outcome, ◌>>=◌, ◌>>◌}
use wincred_libsecret_wsl_pl.Prelude.Results.{is_ok}
use wincred_libsecret_wsl_pl.Prelude.Order.{text_ord}
use wincred_libsecret_wsl_pl.Prelude.OrdMap.{sort_by}
use wincred_libsecret_wsl_pl.Protocol.Model.{AliasMetadata}
use wincred_libsecret_wsl_pl.Protocol.Message.{ResponseBody}
use wincred_libsecret_wsl_pl.Protocol.Target.{TargetName}
use wincred_libsecret_wsl_pl.Broker.Backend.{VaultBackend, Action}
use wincred_libsecret_wsl_pl.Broker.Metadata.{
  Deps, not_found, corrupt_state, decode_metadata, validate_alias, validate_alias_name, valid_alias,
}
use wincred_libsecret_wsl_pl.Broker.Entries.{Entry, entries}
use wincred_libsecret_wsl_pl.Broker.Collections.{get_collection, require_collection, write_metadata}

-- The alias that an entry holds, if it is valid metadata.
unfoldable pub entry_alias : Deps → Entry → Option AliasMetadata
entry_alias d e = elim e.kind [ TargetName.alias name ↦ valid_alias d name e.blob | _ ↦ none ]

module _ (d : Deps) {S : Type 0} (b : VaultBackend S) where
  unfoldable pub resolve_alias : Text → Action S ResponseBody
  resolve_alias name = do
    lift (validate_alias_name name)
    found ← b.read (TargetName.alias name)
    match_option found (pure (ResponseBody.alias none)) λ blob. do
      alias ← lift (decode_metadata d.aliases blob)
      if text_eq alias.name name
          then (do
            lift (validate_alias alias)
            target ← outcome (get_collection d b alias.collection_id)
            if is_ok target
                then pure (ResponseBody.alias (some alias))
                else raise (corrupt_state (codes "alias references a missing collection")))
          else raise (corrupt_state (codes "alias metadata identity does not match target"))

  -- The loop of `list_aliases`: an alias whose collection cannot be read is left out.
  unfoldable pub collect_aliases : List Entry → Action S (List AliasMetadata)
  collect_aliases [] = pure []
  collect_aliases (e ∷ es) =
      let rest = collect_aliases es in
      match_option (entry_alias d e) rest λ alias. do
        target ← outcome (get_collection d b alias.collection_id)
        aliases ← rest
        pure (if is_ok target then alias ∷ aliases else aliases)

  unfoldable pub list_aliases : Action S ResponseBody
  list_aliases = do
    es ← entries d b
    aliases ← collect_aliases es
    pure (ResponseBody.aliases (sort_by (λ (a : AliasMetadata). a.name) aliases))

  unfoldable pub set_alias : AliasMetadata → Action S ResponseBody
  set_alias alias = do
    lift (validate_alias alias)
    require_collection d b alias.collection_id
    write_metadata b d.aliases (TargetName.alias alias.name) alias
    pure (ResponseBody.alias (some alias))

  unfoldable pub remove_alias : Text → Action S ResponseBody
  remove_alias name = do
    lift (validate_alias_name name)
    found ← b.read (TargetName.alias name)
    if is_some found
        then (do b.delete (TargetName.alias name); pure ResponseBody.empty)
        else raise (not_found (codes "alias does not exist"))
