-- ===== src/Tests/Removal.antt =====
-- Runs of a deletion on the in-memory store with the sample item.
use wincred_libsecret_wsl_pl.Prelude.{ℕ, ◌≡◌, refl, ◌⊎◌, Option, none, some, Result, ok, err}
use wincred_libsecret_wsl_pl.Prelude.Order.{text_ord}
use wincred_libsecret_wsl_pl.Prelude.OrdMap.{IsUnique, get}
use wincred_libsecret_wsl_pl.Protocol.Model.{Uuid}
use wincred_libsecret_wsl_pl.Protocol.Target.{TargetName, display}
use wincred_libsecret_wsl_pl.Protocol.Message.{ResponseBody}
use wincred_libsecret_wsl_pl.Broker.Samples.{deps, crates-IsFaithful}
use wincred_libsecret_wsl_pl.Broker.Items.{delete_item}
use wincred_libsecret_wsl_pl.Broker.Items.Delete.{delete_item-deletes, delete_item-other}
use wincred_libsecret_wsl_pl.Tests.{memory, lawful, filled}

filled_IsUnique : IsUnique filled.credentials
unfolding get wincred_libsecret_wsl_pl.Prelude.Order.cmp_text display
filled_IsUnique = (refl, (refl, (refl, tt)))

delete_item_ok : (delete_item deps memory 5 filled).0 ≡ ok ResponseBody.empty
unfolding delete_item wincred_libsecret_wsl_pl.Prelude.Exec.◌>>=◌
    wincred_libsecret_wsl_pl.Broker.Items.get_item_metadata
    wincred_libsecret_wsl_pl.Broker.Collections.some_or wincred_libsecret_wsl_pl.Prelude.OrdMap.get
    wincred_libsecret_wsl_pl.Prelude.OrdMap.remove wincred_libsecret_wsl_pl.Prelude.Order.cmp_text
    wincred_libsecret_wsl_pl.Protocol.Target.display
    wincred_libsecret_wsl_pl.Protocol.Target.from_str
    wincred_libsecret_wsl_pl.Broker.Metadata.decode_metadata
    wincred_libsecret_wsl_pl.Broker.Samples.read_item
    wincred_libsecret_wsl_pl.Broker.Metadata.validate_item
    wincred_libsecret_wsl_pl.Broker.Collections.delete_item_from_entries
    wincred_libsecret_wsl_pl.Broker.Collections.delete_secrets
    wincred_libsecret_wsl_pl.Broker.Collections.secret_of
    wincred_libsecret_wsl_pl.Broker.Entries.entries
    wincred_libsecret_wsl_pl.Broker.Entries.to_entries
    wincred_libsecret_wsl_pl.Broker.Memory.listing
delete_item_ok = refl

delete_item-deletes_example :
    (lawful.creds (delete_item deps memory 5 filled).1 (TargetName.item_metadata 5) ≡ none)
    × ((g : Uuid)
        → lawful.creds (delete_item deps memory 5 filled).1 (TargetName.item_secret 5 g) ≡ none)
delete_item-deletes_example =
    delete_item-deletes deps memory lawful crates-IsFaithful 5 filled ResponseBody.empty
      filled_IsUnique delete_item_ok

delete_item-other_example :
    lawful.creds (delete_item deps memory 5 filled).1 (TargetName.collection 7)
    ≡ lawful.creds filled (TargetName.collection 7)
delete_item-other_example =
    delete_item-other deps memory lawful 5 filled (TargetName.collection 7) refl (λ g. refl)
