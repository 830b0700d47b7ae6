-- ===== src/Provider/Bus/Item/Secret.antt =====
-- `ItemObject::set_secret` and `ItemObject::get_secret` of crates/provider/src/service.rs, one after the other.
use wincred_libsecret_wsl_pl.Prelude.{
  length, Result, ◌≡◌, sym, ap, ◌∙◌, arith, ℕ, false, inl, inr, Option, some, Text, ok,
}
use wincred_libsecret_wsl_pl.Prelude.Results.{Result-cases}
use wincred_libsecret_wsl_pl.Prelude.Exec.{lift, ◌>>=◌}
use wincred_libsecret_wsl_pl.Prelude.Order.{nat_ord}
use wincred_libsecret_wsl_pl.Prelude.OrdMap.{get}
use wincred_libsecret_wsl_pl.Prelude.OrdMap.Every.{All-get}
use wincred_libsecret_wsl_pl.Protocol.Frame.{Bytes}
use wincred_libsecret_wsl_pl.Protocol.Model.{Uuid, ItemMetadata, SecretBytes}
use wincred_libsecret_wsl_pl.Protocol.Target.{Crates}
use wincred_libsecret_wsl_pl.Provider.Crypto.{CryptoLib, IsSound}
use wincred_libsecret_wsl_pl.Provider.Double.{StoredItem, MemoryState, get_item}
use wincred_libsecret_wsl_pl.Provider.Double
use wincred_libsecret_wsl_pl.Provider.Paths.{session_id}
use wincred_libsecret_wsl_pl.Provider.Paths.RoundTrip.{IsSimple}
use wincred_libsecret_wsl_pl.Provider.Crypto.Cipher.{IsKey}
use wincred_libsecret_wsl_pl.Provider.Sessions.Secrets.{FitsSecret, decode_secret-encode_secret}
use wincred_libsecret_wsl_pl.Provider.Service.{ask}
use wincred_libsecret_wsl_pl.Provider.Sessions.{SessionRecord}
use wincred_libsecret_wsl_pl.Protocol.Model.{new_secret}
use wincred_libsecret_wsl_pl.Provider.Double.Consistent.{IsConsistent, ItemEntry}
use wincred_libsecret_wsl_pl.Provider.Service.{item, update_item}
use wincred_libsecret_wsl_pl.Provider.Sessions.{Sessions, DbusSecret, encode_secret, decode_secret}
use wincred_libsecret_wsl_pl.Provider.Bus.{
  ProviderError, or_failed, Bus, World, Method, ask_provider, of_sessions, owner, outside,
}
use wincred_libsecret_wsl_pl.Provider.Bus.Beside.{
  beside_call, beside_bus, item-found, update_item-stored,
}
use wincred_libsecret_wsl_pl.Provider.Bus.Item.{get_secret, set_secret}

module _ (u : Crates) (c : CryptoLib) {B : Type 0} (b : Bus B) (id : Uuid) where
  abbrev setting : Text → DbusSecret → Text → ℕ → Uuid → Method (MemoryState × B) (Unit {0})
  setting called sent who timestamp generation =
      set_secret u c beside_call (beside_bus b) id called sent (some who) timestamp generation

  -- The update that a decoded secret makes of the item that was found.
  abbrev updating :
      World (MemoryState × B)
      → Uuid × SecretBytes × Text
      → ItemMetadata × Option SecretBytes
      → ℕ
      → Uuid
      → Result ProviderError ItemMetadata × (MemoryState × B)
  updating s decoded found timestamp generation =
      update_item beside_call (record (found.0) { content_type = decoded.2 }) (some decoded.1)
        timestamp generation (item beside_call id false s.outside).1

  -- A secret that was set has been decoded, its item found, and the update stored.
  set_secret-steps :
      (s : World (MemoryState × B)) (called who : Text) (sent : DbusSecret) (timestamp : ℕ)
      (generation : Uuid)
      → (setting called sent who timestamp generation s).0 ≡ ok tt
      → (decoded : Uuid × SecretBytes × Text) × (found : ItemMetadata × Option SecretBytes)
        × (i : ItemMetadata) × (decode_secret u c who sent s.sessions ≡ ok decoded)
        × ((item beside_call id false s.outside).0 ≡ ok found)
        × ((updating s decoded found timestamp generation).0 ≡ ok i)
        × ((setting called sent who timestamp generation s).1.outside.0
            ≡ (updating s decoded found timestamp generation).1.0)
        × ((setting called sent who timestamp generation s).1.sessions ≡ s.sessions)
  unfolding set_secret owner lift of_sessions ask_provider outside or_failed ◌>>=◌
  set_secret-steps s called who sent timestamp generation h =
      elim (Result-cases (decode_secret u c who sent s.sessions)) [
        | inr (e, d) ↦ ground (arith, d, h)
        | inl (decoded, d) ↦ elim (Result-cases (item beside_call id false s.outside).0) [
          | inr (e, f) ↦ ground (arith, d, f, h)
          | inl (found, f) ↦ elim (Result-cases (updating s decoded found timestamp generation).0) [
            | inr (e, g) ↦ ground (arith, d, f, g, h)
            | inl (i, g) ↦
                (decoded, found, i, d, f, g, ground (arith, d, f, g, h), ground (arith, d, f, g, h))
          ]
        ]
      ]

  -- After a secret has been set, the item has it and its content type, and the sessions are as they were.
  set_secret-stored :
      (s : World (MemoryState × B)) (called who : Text) (sent : DbusSecret) (timestamp : ℕ)
      (generation : Uuid)
      → IsConsistent s.outside.0
      → (setting called sent who timestamp generation s).0 ≡ ok tt
      → (k : Uuid) × (secret : SecretBytes) × (i : ItemMetadata) × (decode_secret u c who sent
            s.sessions
          ≡ ok (k, secret, i.content_type))
        × (get id (setting called sent who timestamp generation s).1.outside.0.items
            ≡ some (i, secret))
        × ((setting called sent who timestamp generation s).1.sessions ≡ s.sessions)
  set_secret-stored s called who sent timestamp generation consistent h =
      let (decoded, found, i, d, f, g, stored, kept) =
        set_secret-steps s called who sent timestamp generation h in
      let (old, there, same) = item-found id false s.outside found f in
      let (put, typed) =
        update_item-stored (record (found.0) { content_type = decoded.2 }) decoded.1 timestamp
          generation _ i g in
      let named =
        (All-get (ItemEntry s.outside.0) id (found.0, old) s.outside.0.items there
          consistent.1).0 in
      (
        decoded.0,
        decoded.1,
        i,
        d ∙ ap (λ t. ok (decoded.0, decoded.1, t)) (sym typed),
        ap (λ (m : MemoryState). get id m.items) stored
            ∙ ap (λ j. get j (updating s decoded found timestamp generation).1.0.items) (sym named)
            ∙ put,
        kept,
      )

  -- Where the item is stored, its secret is what the reader's session makes of it.
  get_secret-stored :
      (s : World (MemoryState × B)) (path reader : Text) (k : Uuid) (random : Option Bytes)
      (i : ItemMetadata) (secret : SecretBytes) (out : DbusSecret)
      → session_id u path ≡ some k
      → get id s.outside.0.items ≡ some (i, secret)
      → encode_secret u c reader k secret i.content_type random s.sessions ≡ ok out
      → (get_secret u c beside_call (beside_bus b) id path (some reader) random s).0 ≡ ok out
  unfolding get_secret owner lift of_sessions ask_provider outside ◌>>=◌ item ask Double.call
      get_item
  get_secret-stored s path reader k random i secret out p g e = ground (arith, p, g, e)

  decode_secret-FitsSecret :
      (who : Text) (sent : DbusSecret) (sessions : Sessions) (k : Uuid) (secret : SecretBytes)
      (t : Text)
      → decode_secret u c who sent sessions ≡ ok (k, secret, t)
      → FitsSecret secret
  unfolding decode_secret new_secret
  decode_secret-FitsSecret who sent sessions k secret t h = ground arith

  -- Over a consistent store in memory and a bus beside it, with sound cryptography: after a
  -- `set_secret` that succeeds, `get_secret` of the item for the owner of a session with a
  -- readable path, a key of its cipher's size and 16 random bytes succeeds, and the session
  -- decodes the answer as the secret and the content type that the setter's session decoded.
  pub get_secret-set_secret :
      (sound : IsSound c) (s : World (MemoryState × B)) (called who path : Text) (sent : DbusSecret)
      (timestamp : ℕ) (generation k : Uuid) (r : SessionRecord) (iv : Bytes)
      → IsConsistent s.outside.0
      → session_id u path ≡ some k
      → IsSimple u k
      → get k s.sessions ≡ some r
      → IsKey r.key
      → length iv ≡ 16
      → (setting called sent who timestamp generation s).0 ≡ ok tt
      → (j : Uuid) × (secret : SecretBytes) × (t : Text) × (out : DbusSecret) × (decode_secret u c
            who sent s.sessions
          ≡ ok (j, secret, t))
        × ((get_secret u c beside_call
              (beside_bus b)
              id
              path
              (some r.owner)
              (some iv)
              (setting called sent who timestamp generation s).1).0
            ≡ ok out)
        × (decode_secret u c r.owner out s.sessions ≡ ok (k, secret, t))
  get_secret-set_secret sound s called who path sent timestamp generation k r iv consistent p simple
        found sized drawn set =
      let (j, secret, i, d, g, kept) =
        set_secret-stored s called who sent timestamp generation consistent set in
      let fits = decode_secret-FitsSecret who sent s.sessions j secret i.content_type d in
      let (out, encoded, decoded) =
        decode_secret-encode_secret u c sound s.sessions k r secret i.content_type iv simple found
          sized fits drawn in
      (
        j,
        secret,
        i.content_type,
        out,
        d,
        get_secret-stored _ path r.owner k (some iv) i secret out p g
            (ap (encode_secret u c r.owner k secret i.content_type (some iv)) kept ∙ encoded),
        decoded,
      )
