-- ===== src/Provider/Paths.antt =====
-- crates/provider/src/paths.rs: the D-Bus paths of collections, items, sessions and aliases.
pub mod RoundTrip
use wincred_libsecret_wsl_pl.Prelude.{
  ℕ, Bool, ◌&&◌, ◌||◌, not, Option, none, some, List, [], ◌∷◌, ◌++◌, Text, codes, length, leb, ◌==◌,
  every, if◌then◌else◌,
}
use wincred_libsecret_wsl_pl.Protocol.Model.{Uuid}
use wincred_libsecret_wsl_pl.Protocol.Target.{Crates, strip_prefix}

abbrev pub service_path : Text
service_path = codes "/org/freedesktop/secrets"

abbrev pub is_ascii_digit : ℕ → Bool
is_ascii_digit c = leb 48 c && leb c 57

-- `u8::is_ascii_hexdigit` and `u8::is_ascii_alphanumeric`.
abbrev pub is_ascii_hexdigit : ℕ → Bool
is_ascii_hexdigit c = is_ascii_digit c || (leb 65 c && leb c 70) || (leb 97 c && leb c 102)

abbrev pub is_ascii_alphanumeric : ℕ → Bool
is_ascii_alphanumeric c = is_ascii_digit c || (leb 65 c && leb c 90) || (leb 97 c && leb c 122)

-- `{SERVICE_PATH}/{kind}/`
abbrev pub under : Text → Text
under kind = service_path ++ (codes "/" ++ (kind ++ codes "/"))

module _ (c : Crates) where
  abbrev pub segment : ℕ → Uuid → Text
  segment prefix id = prefix ∷ c.simple id

  unfoldable pub collection_path : Uuid → Text
  collection_path id = under (codes "collection") ++ segment b'c' id

  unfoldable pub item_path : Uuid → Text
  item_path id = under (codes "item") ++ segment b'i' id

  unfoldable pub session_path : Uuid → Text
  session_path id = under (codes "session") ++ segment b's' id

  -- The value of a path, past the kind and its letter.
  unfoldable pub parse_value : Text → Option Uuid
  parse_value value =
      if not (length value == 32) || not (every is_ascii_hexdigit value)
      then none
      else c.parse_str value

  unfoldable pub parse : Text → Text → ℕ → Option Uuid
  unfolding parse_value
  parse path kind prefix = elim (strip_prefix (under kind) path) [
    | none ↦ none
    | some value ↦ elim (strip_prefix (prefix ∷ []) value) [
      | none ↦ none
      | some digits ↦ parse_value digits
    ]
  ]

  unfoldable pub collection_id : Text → Option Uuid
  unfolding parse
  collection_id path = parse path (codes "collection") b'c'

  unfoldable pub item_id : Text → Option Uuid
  unfolding parse
  item_id path = parse path (codes "item") b'i'

  unfoldable pub session_id : Text → Option Uuid
  unfolding parse
  session_id path = parse path (codes "session") b's'

unfoldable pub alias_path : Text → Option Text
alias_path name =
    if not (length name == 0) && every (λ b. is_ascii_alphanumeric b || b == b'_') name
    then some (under (codes "aliases") ++ name)
    else none
