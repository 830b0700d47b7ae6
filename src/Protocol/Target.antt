-- ===== src/Protocol/Target.antt =====
-- crates/protocol/src/target.rs: the names of the credentials that the project owns.
-- The `uuid` and `base64` crates are the parameter `Crates`.
pub mod Split
pub mod RoundTrip
use wincred_libsecret_wsl_pl.Prelude.{
  ◌≡◌, ℕ, suc, Bool, true, false, ◌&&◌, ◌||◌, List, [], ◌∷◌, ◌++◌, Option, none, some, Text, codes,
  length, contains_byte, text_eq, ltb, leb, ◌==◌, if◌then◌else◌, Result, ok, err, zero,
}
use wincred_libsecret_wsl_pl.Prelude.Results.{◌>>=◌}
use wincred_libsecret_wsl_pl.Protocol.Model.{Uuid, max_alias_bytes}

-- `Uuid::to_string`, `Uuid::simple`, `Uuid::parse_str`, and base64 in `URL_SAFE_NO_PAD`.
pub record Crates : Type 0 where
  pub hyphenated : Uuid → Text
  pub simple : Uuid → Text
  pub parse_str : Text → Option Uuid
  pub base64_encode : List ℕ → Text
  pub base64_decode : Text → Option (List ℕ)

abbrev pub slash : ℕ
slash = b'/'

-- What the program relies on: texts of identifiers are read back, base64 without padding is
-- canonical, and neither has a slash.
pub record IsFaithful (c : Crates) : Type 0 where
  pub parse_str-hyphenated : (u : Uuid) → c.parse_str (c.hyphenated u) ≡ some u
  pub hyphenated_no_slash : (u : Uuid) → contains_byte slash (c.hyphenated u) ≡ false
  pub base64_decode-encode : (b : List ℕ) → c.base64_decode (c.base64_encode b) ≡ some b
  pub base64_encode-decode :
      (t : Text) (b : List ℕ) → c.base64_decode t ≡ some b → c.base64_encode b ≡ t
  pub base64_no_slash : (b : List ℕ) → contains_byte slash (c.base64_encode b) ≡ false

pub data TargetName : Type 0 where
  collection : Uuid → TargetName
  alias : Text → TargetName
  item_metadata : Uuid → TargetName
  item_secret : Uuid → Uuid → TargetName

pub data TargetParseError : Type 0 where
  foreign_prefix invalid_shape invalid_uuid non_canonical_uuid : TargetParseError
  invalid_alias_encoding alias_too_long : TargetParseError

-- The derived `==`.
abbrev pub target_eq : TargetName → TargetName → Bool
target_eq (collection a) (collection b) = a == b
target_eq (alias a) (alias b) = text_eq a b
target_eq (item_metadata a) (item_metadata b) = a == b
target_eq (item_secret a g) (item_secret b h) = a == b && g == h
target_eq _ _ = false

abbrev pub credential_prefix : Text
credential_prefix = codes "WinCredLibSecret/v1/"

-- `str::strip_prefix`.
abbrev pub strip_prefix : Text → Text → Option Text
strip_prefix [] t = some t
strip_prefix (p ∷ ps) [] = none
strip_prefix (p ∷ ps) (c ∷ cs) = if p == c then strip_prefix ps cs else none

-- `str::split` at one ASCII byte: there is always a first part.
abbrev pub cons_head : ℕ → List Text → List Text
cons_head c [] = (c ∷ []) ∷ []
cons_head c (part ∷ parts) = (c ∷ part) ∷ parts

unfoldable pub split : ℕ → Text → List Text
split sep [] = [] ∷ []
split sep (c ∷ cs) = let rest = split sep cs in if c == sep then [] ∷ rest else cons_head c rest

-- How many continuation bytes a leading byte asks for, and the range of the first of them.
unfoldable pub lead_byte : ℕ → Option (ℕ × ℕ × ℕ)
lead_byte b =
    if ltb b 0x80
    then some (0, 0x80, 0xbf)
    else if ltb b 0xc2
    then none
    else if ltb b 0xe0
    then some (1, 0x80, 0xbf)
    else if b == 0xe0
    then some (2, 0xa0, 0xbf)
    else if b == 0xed
    then some (2, 0x80, 0x9f)
    else if ltb b 0xf0
    then some (2, 0x80, 0xbf)
    else if b == 0xf0
    then some (3, 0x90, 0xbf)
    else if ltb b 0xf4
    then some (3, 0x80, 0xbf)
    else if b == 0xf4
    then some (3, 0x80, 0x8f)
    else none

-- Well-formed UTF-8, as `String::from_utf8` checks it.
unfoldable pub utf8_tail : ℕ → ℕ → ℕ → List ℕ → Bool
unfolding lead_byte
utf8_tail zero lo hi [] = true
utf8_tail (suc n) lo hi [] = false
utf8_tail zero lo hi (b ∷ bs) = elim (lead_byte b) [
  | none ↦ false
  | some (n, l, h) ↦ utf8_tail n l h bs
]
utf8_tail (suc n) lo hi (b ∷ bs) =
    let rest = utf8_tail n 0x80 0xbf bs in leb lo b && leb b hi && rest

unfoldable pub is_utf8 : List ℕ → Bool
unfolding utf8_tail
is_utf8 bytes = utf8_tail 0 0x80 0xbf bytes

module _ (c : Crates) where
  -- `Display`, and so `TargetName::to_string`.
  unfoldable pub display : TargetName → Text
  display (collection id) = credential_prefix ++ (codes "collection/" ++ c.hyphenated id)
  display (alias name) = credential_prefix ++ (codes "alias/" ++ c.base64_encode name)
  display (item_metadata id) =
      credential_prefix ++ (codes "item/" ++ (c.hyphenated id ++ codes "/meta"))
  display (item_secret id generation) =
      credential_prefix
      ++ (codes "item/" ++ (c.hyphenated id ++ (codes "/secret/" ++ c.hyphenated generation)))

  unfoldable pub parse_uuid : Text → Result TargetParseError Uuid
  parse_uuid value = elim (c.parse_str value) [
    | none ↦ err invalid_uuid
    | some id ↦ if text_eq (c.hyphenated id) value then ok id else err non_canonical_uuid
  ]

  unfoldable pub parse_alias : Text → Result TargetParseError TargetName
  parse_alias encoded = elim (c.base64_decode encoded) [
    | none ↦ err invalid_alias_encoding
    | some bytes ↦
        if ltb max_alias_bytes (length bytes)
        then err alias_too_long
        else if is_utf8 bytes
        then (if length bytes == 0 || contains_byte 0 bytes
            then err invalid_alias_encoding
            else ok (alias bytes))
        else err invalid_alias_encoding
  ]

  -- The `match parts.as_slice()`.
  unfoldable pub from_parts : List Text → Result TargetParseError TargetName
  unfolding parse_uuid parse_alias
  from_parts (kind ∷ id ∷ []) =
      if text_eq kind (codes "collection")
      then (do u ← parse_uuid id; ok (collection u))
      else if text_eq kind (codes "alias")
      then parse_alias id
      else err invalid_shape
  from_parts (kind ∷ id ∷ leaf ∷ []) =
      if text_eq kind (codes "item") && text_eq leaf (codes "meta")
      then (do u ← parse_uuid id; ok (item_metadata u))
      else err invalid_shape
  from_parts (kind ∷ id ∷ leaf ∷ generation ∷ []) =
      if text_eq kind (codes "item") && text_eq leaf (codes "secret")
      then (do u ← parse_uuid id; g ← parse_uuid generation; ok (item_secret u g))
      else err invalid_shape
  from_parts _ = err invalid_shape

  -- `FromStr for TargetName`.
  unfoldable pub from_str : Text → Result TargetParseError TargetName
  unfolding from_parts split
  from_str value = elim (strip_prefix credential_prefix value) [
    | none ↦ err foreign_prefix
    | some suffix ↦ from_parts (split slash suffix)
  ]
