-- ===== src/Broker/View.antt =====
-- What a client sees of the items of a vault, read off the stored credentials.
use wincred_libsecret_wsl_pl.Prelude.{
  Option-cases, ◌≡◌, inl, inr, Option, none, some, [], append-nil, ok, err, arith,
}
use wincred_libsecret_wsl_pl.Prelude.Results.{Result-cases}
use wincred_libsecret_wsl_pl.Protocol.Model.{Uuid, Blob, ItemMetadata, SecretBytes}
use wincred_libsecret_wsl_pl.Protocol.Frame.{Codec, IsLawful as IsLawfulCodec}
use wincred_libsecret_wsl_pl.Protocol.Target.{TargetName, item_metadata, item_secret}
use wincred_libsecret_wsl_pl.Broker.Metadata.{Deps, encode_metadata, decode_metadata}

-- Metadata that was encoded within the limit decodes to itself.
pub decode_metadata-encode_metadata :
    {T : Type 0} (c : Codec T)
    → IsLawfulCodec c
    → (t : T) (blob : Blob) → encode_metadata c t ≡ ok blob
    → decode_metadata c blob ≡ ok t
unfolding encode_metadata decode_metadata
decode_metadata-encode_metadata c h t blob e = elim (Result-cases (c.into_writer t)) [
  | inl (w, written) ↦
      let whole = rw append-nil at (h.from_reader-into_writer t w [] written) in
      ground (arith, whole)
  | inr (x, failed) ↦ absurd (ground arith)
]

-- What a client sees of an item: its metadata, and the secret that the metadata names.
unfoldable pub visible :
    Deps → (TargetName → Option Blob) → Uuid → Option (ItemMetadata × Option Blob)
visible d view id = elim (view (item_metadata id)) [
  | none ↦ none
  | some blob ↦ elim (decode_metadata d.items blob) [
    | err _ ↦ none
    | ok item ↦ some (item, view (item_secret id item.current_generation))
  ]
]

module _ (d : Deps) (item : ItemMetadata) (secret : SecretBytes) (metadata : Blob) where
  -- After both writes have succeeded the new item is visible, and it stays so.
  pub visible_committed :
      IsLawfulCodec d.items
      → (view : TargetName → Option Blob) → encode_metadata d.items item ≡ ok metadata
      → view (item_metadata item.id) ≡ some metadata
      → view (item_secret item.id item.current_generation) ≡ some secret.bytes
      → visible d view item.id ≡ some (item, some secret.bytes)
  unfolding visible
  visible_committed codec view e m s =
      ground (arith, decode_metadata-encode_metadata d.items codec item metadata e)

module _ (d : Deps) where
  -- The view of an item depends on its metadata and on the secret that it names.
  pub visible_eq :
      (v w : TargetName → Option Blob) (id : Uuid)
      → w (item_metadata id) ≡ v (item_metadata id)
      → ((i : ItemMetadata) (o : Option Blob)
          → visible d v id ≡ some (i, o)
          → w (item_secret id i.current_generation) ≡ v (item_secret id i.current_generation))
      → visible d w id ≡ visible d v id
  unfolding visible
  visible_eq v w id m h = elim (Option-cases (v (item_metadata id))) [
    | inl absent ↦ ground arith
    | inr (blob, found) ↦ elim (Result-cases (decode_metadata d.items blob)) [
      | inl (i, decoded) ↦ ground (arith, h i (v (item_secret id i.current_generation)))
      | inr (e, failed) ↦ ground arith
    ]
  ]
