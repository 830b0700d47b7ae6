-- ===== src/Provider/Paths/RoundTrip.antt =====
-- The paths of crates/provider/src/paths.rs and their readers.
use wincred_libsecret_wsl_pl.Prelude.{◌≡◌, refl, none, some, true, arith, length, every}
use wincred_libsecret_wsl_pl.Protocol.Model.{Uuid}
use wincred_libsecret_wsl_pl.Protocol.Target.{Crates}
use wincred_libsecret_wsl_pl.Provider.Paths.{
  collection_path, item_path, session_path, collection_id, item_id, session_id, parse, parse_value,
  is_ascii_hexdigit,
}

-- What is relied on of `Uuid::simple`: 32 hexadecimal digits, which are read back.
pub record IsSimple (c : Crates) (id : Uuid) : Type 0 where
  pub simple_length : length (c.simple id) ≡ 32
  pub simple_hexdigits : every is_ascii_hexdigit (c.simple id) ≡ true
  pub parse_str-simple : c.parse_str (c.simple id) ≡ some id

module _ (c : Crates) (id : Uuid) (simple : IsSimple c id) where
  parse_value-simple : parse_value c (c.simple id) ≡ some id
  unfolding parse_value
  parse_value-simple =
      ground (arith, simple.simple_length, simple.simple_hexdigits, simple.parse_str-simple)

  -- Where `Uuid::simple` writes an identifier as 32 hexadecimal digits that are read back, the
  -- path of a collection, an item or a session is read back as that identifier, and as nothing by
  -- the readers of the other two kinds.
  pub paths-roundtrip :
      (collection_id c (collection_path c id) ≡ some id)
      × (item_id c (item_path c id) ≡ some id)
      × (session_id c (session_path c id) ≡ some id)
      × (item_id c (collection_path c id) ≡ none)
      × (session_id c (collection_path c id) ≡ none)
      × (collection_id c (item_path c id) ≡ none)
      × (session_id c (item_path c id) ≡ none)
      × (collection_id c (session_path c id) ≡ none)
      × (item_id c (session_path c id) ≡ none)
  unfolding collection_id item_id session_id collection_path item_path session_path parse
  paths-roundtrip = (
    parse_value-simple, parse_value-simple, parse_value-simple, refl, refl, refl, refl, refl, refl,
  )
