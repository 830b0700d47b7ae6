-- ===== src/Broker/Samples.antt =====
-- Concrete crates, codecs and metadata, to evaluate the development with.
use wincred_libsecret_wsl_pl.Prelude.{
  ℕ, ◌+◌, ◌-◌, ◌≡◌, refl, false, Option, none, some, List, [], ◌∷◌, ◌++◌, Text, leb, length,
  contains_byte, if◌then◌else◌, Result, ok, err, arith, Option-cases, inl, inr, append_assoc, codes,
}
use wincred_libsecret_wsl_pl.Protocol.Model.{
  Attributes, CollectionMetadata, ItemMetadata, AliasMetadata, SecretBytes,
}
use wincred_libsecret_wsl_pl.Protocol.Frame.{Bytes, Codec, IsLawful, take_exact}
use wincred_libsecret_wsl_pl.Protocol.Frame.RoundTrip.{take_exact-append}
use wincred_libsecret_wsl_pl.Protocol.Target.{Crates, IsFaithful, slash}
use wincred_libsecret_wsl_pl.Broker.Metadata.{Deps}

-- One character for each number, past the slash.
abbrev pub shift : List ℕ → Text
shift [] = []
shift (x ∷ xs) = (x + 48) ∷ shift xs

abbrev pub unshift : Text → Option (List ℕ)
unshift [] = some []
unshift (x ∷ xs) =
    let rest = unshift xs in
    if leb 48 x then (elim rest [ none ↦ none | some ys ↦ some ((x - 48) ∷ ys) ]) else none

abbrev pub parse_shifted : Text → Option ℕ
parse_shifted (x ∷ []) = if leb 48 x then some (x - 48) else none
parse_shifted _ = none

abbrev pub crates : Crates
crates = record {
  hyphenated = λ u. (u + 48) ∷ [];
  simple = λ u. (u + 48) ∷ [];
  parse_str = parse_shifted;
  base64_encode = shift;
  base64_decode = unshift;
}

unshift-shift : (b : List ℕ) → unshift (shift b) ≡ some b
unshift-shift [] = refl
unshift-shift (x ∷ xs) = ground (arith, unshift-shift xs)

shift-unshift : (t : Text) (b : List ℕ) → unshift t ≡ some b → shift b ≡ t
shift-unshift [] b h = ground arith
shift-unshift (x ∷ t) b h = elim (Option-cases (unshift t)) [
  | inl bad ↦ absurd (ground (arith, bad, h))
  | inr (ys, found) ↦ ground (arith, found, h, shift-unshift t ys found)
]

shift_no_slash : (b : List ℕ) → contains_byte slash (shift b) ≡ false
shift_no_slash [] = refl
shift_no_slash (x ∷ xs) = ground (arith, shift_no_slash xs)

pub crates-IsFaithful : IsFaithful crates
crates-IsFaithful = record {
  parse_str-hyphenated = λ u. ground arith;
  hyphenated_no_slash = λ u. ground arith;
  base64_decode-encode = unshift-shift;
  base64_encode-decode = shift-unshift;
  base64_no_slash = shift_no_slash;
}

-- Numbers are written as they are, and texts after their length.
abbrev pub put_text : Text → Bytes → Bytes
put_text t rest = length t ∷ (t ++ rest)

abbrev pub get_text : Bytes → Option (Text × Bytes)
get_text [] = none
get_text (n ∷ bytes) = take_exact n bytes

-- An item with attributes does not encode.
abbrev pub write_item : ItemMetadata → Result Text Bytes
write_item i = elim i.attributes [
  | [] ↦ ok (
      i.schema_version
      ∷ i.id
      ∷ i.collection_id
      ∷ i.created
      ∷ i.modified
      ∷ i.current_generation
      ∷ put_text i.label (put_text i.content_type []))
  | (_ ∷ _) ↦ err []
]

unfoldable pub read_item : Bytes → Result Text (ItemMetadata × Bytes)
unfolding take_exact
read_item (v ∷ i ∷ c ∷ n ∷ m ∷ g ∷ bytes) = elim (get_text bytes) [
  | none ↦ err []
  | some (label, more) ↦ elim (get_text more) [
    | none ↦ err []
    | some (content_type, rest) ↦ ok (
      record {
        schema_version = v;
        id = i;
        collection_id = c;
        label = label;
        attributes = [];
        content_type = content_type;
        created = n;
        modified = m;
        current_generation = g;
      },
      rest,
    )
  ]
]
read_item _ = err []

abbrev pub item_codec : Codec ItemMetadata
item_codec = record { into_writer = write_item; from_reader = read_item }

get_text-put_text :
    (t : Text) (rest more : Bytes) → get_text (put_text t rest ++ more) ≡ some (t, rest ++ more)
get_text-put_text t rest more = rw append_assoc (take_exact-append t (rest ++ more))

item_law :
    (t : ItemMetadata) (attributes : Attributes) (b rest : Bytes)
    → t.attributes ≡ attributes
    → write_item t ≡ ok b
    → read_item (b ++ rest) ≡ ok (t, rest)
unfolding read_item
item_law t [] b rest bare h = ground (
  arith,
  bare,
  h,
  get_text-put_text t.label (put_text t.content_type []) rest,
  get_text-put_text t.content_type [] rest,
)
item_law t (a ∷ others) b rest more h = absurd (ground (arith, more, h))

pub item_codec-IsLawful : IsLawful item_codec
item_codec-IsLawful = record {
  from_reader-into_writer = λ t b rest h. item_law t t.attributes b rest refl h;
}

abbrev pub write_collection : CollectionMetadata → Result Text Bytes
write_collection c = ok (c.schema_version ∷ c.id ∷ c.created ∷ c.modified ∷ put_text c.label [])

unfoldable pub read_collection : Bytes → Result Text (CollectionMetadata × Bytes)
unfolding take_exact
read_collection (v ∷ i ∷ n ∷ m ∷ bytes) = elim (get_text bytes) [
  | none ↦ err []
  | some (label, rest) ↦
      ok (record { schema_version = v; id = i; label = label; created = n; modified = m }, rest)
]
read_collection _ = err []

abbrev pub write_alias : AliasMetadata → Result Text Bytes
write_alias a = ok (a.schema_version ∷ a.collection_id ∷ put_text a.name [])

unfoldable pub read_alias : Bytes → Result Text (AliasMetadata × Bytes)
unfolding take_exact
read_alias (v ∷ c ∷ bytes) = elim (get_text bytes) [
  | none ↦ err []
  | some (name, rest) ↦ ok (record { schema_version = v; name = name; collection_id = c }, rest)
]
read_alias _ = err []

abbrev pub deps : Deps
deps = record {
  crates = crates;
  collections = record { into_writer = write_collection; from_reader = read_collection };
  items = item_codec;
  aliases = record { into_writer = write_alias; from_reader = read_alias };
}

abbrev pub sample_collection : CollectionMetadata
sample_collection = record {
  schema_version = 1;
  id = 7;
  label = codes "main";
  created = 10;
  modified = 10;
}

abbrev pub sample_item : ItemMetadata
sample_item = record {
  schema_version = 1;
  id = 5;
  collection_id = 7;
  label = codes "mail";
  attributes = [];
  content_type = codes "text/plain";
  created = 20;
  modified = 20;
  current_generation = 3;
}

abbrev pub sample_secret : SecretBytes
sample_secret = record { bytes = codes "hunter2" }
