-- ===== src/Protocol/Target/RoundTrip.antt =====
-- Names of credentials and what they parse to: crates/protocol/src/target.rs.
use mathlib.Core.Option.{Option}
use mathlib.Core.Option
use wincred_libsecret_wsl_pl.Prelude.Results.{bind-eq_ok, ◌>>=◌}
use wincred_libsecret_wsl_pl.Prelude.{
  some, Bool-cases, text_eq, inr, inl, Option-cases, text_eq_iff, codes, text_eq_refl, ℕ, ◌≡◌, refl,
  true, false, List, [], ◌∷◌, ◌++◌, Text, contains_byte, arith, ◌≤◌, length, ok,
}
use wincred_libsecret_wsl_pl.Protocol.Model.{Uuid, max_alias_bytes}
use wincred_libsecret_wsl_pl.Protocol.Target.{
  ◌>>=◌, strip_prefix, credential_prefix, Crates, IsFaithful, TargetName, collection, alias,
  item_metadata, item_secret, display, from_str, from_parts, parse_uuid, parse_alias, split, slash,
  is_utf8,
}
use wincred_libsecret_wsl_pl.Protocol.Target.Split.{join-split, join, split_no_sep, split-append}

-- The alias names that have a target: nonempty UTF-8 of at most 255 bytes with no NUL.
abbrev pub IsAliasName : Text → Type 0
IsAliasName name =
    (1 ≤ length name)
    × (length name ≤ max_alias_bytes)
    × (contains_byte 0 name ≡ false)
    × (is_utf8 name ≡ true)

abbrev pub IsValid : TargetName → Type 0
IsValid (alias name) = IsAliasName name
IsValid _ = Unit

module _ (c : Crates) (h : IsFaithful c) where
  parse_uuid-hyphenated : (u : ℕ) → parse_uuid c (c.hyphenated u) ≡ ok u
  unfolding parse_uuid
  parse_uuid-hyphenated u = rw (h.parse_str-hyphenated u, parse_uuid) (rw text_eq_refl)

  parse_alias-encode :
      (name : Text) → IsAliasName name → parse_alias c (c.base64_encode name) ≡ ok (alias name)
  unfolding parse_alias
  parse_alias-encode name v = rw (h.base64_decode-encode name, parse_alias) (ground arith)

  -- What the name of a target is made of, after the prefix.
  abbrev parts : TargetName → List Text
  parts (collection id) = codes "collection" ∷ c.hyphenated id ∷ []
  parts (alias name) = codes "alias" ∷ c.base64_encode name ∷ []
  parts (item_metadata id) = codes "item" ∷ c.hyphenated id ∷ codes "meta" ∷ []
  parts (item_secret id generation) =
      codes "item" ∷ c.hyphenated id ∷ codes "secret" ∷ c.hyphenated generation ∷ []

  abbrev suffix_parts : Text → Option (List Text)
  suffix_parts t = Option.map (split slash) (strip_prefix credential_prefix t)

  display-parts : (t : TargetName) → suffix_parts (display c t) ≡ some (parts t)
  unfolding display split
  display-parts (collection id) =
      rw (split_no_sep slash (c.hyphenated id) (h.hyphenated_no_slash id))
  display-parts (alias name) =
      rw (split_no_sep slash (c.base64_encode name) (h.base64_no_slash name))
  display-parts (item_metadata id) =
      rw (split-append slash (c.hyphenated id) (codes "meta") (h.hyphenated_no_slash id))
  display-parts (item_secret id generation) = rw (
    split-append slash (c.hyphenated id) (codes "secret/" ++ c.hyphenated generation)
        (h.hyphenated_no_slash id),
    split_no_sep slash (c.hyphenated generation) (h.hyphenated_no_slash generation),
  )

  hyphenated-injective : (a b : Uuid) → c.hyphenated a ≡ c.hyphenated b → a ≡ b
  hyphenated-injective a b e = cc (h.parse_str-hyphenated a, h.parse_str-hyphenated b)

  base64-injective : (a b : Text) → c.base64_encode a ≡ c.base64_encode b → a ≡ b
  base64-injective a b e = cc (h.base64_decode-encode a, h.base64_decode-encode b)

  parts-injective : (t u : TargetName) → parts t ≡ parts u → t ≡ u
  parts-injective (collection a) (collection b) e = ground (arith, hyphenated-injective a b)
  parts-injective (alias a) (alias b) e = ground (arith, base64-injective a b)
  parts-injective (item_metadata a) (item_metadata b) e = ground (arith, hyphenated-injective a b)
  parts-injective (item_secret a g) (item_secret b k) e =
      ground (arith, hyphenated-injective a b, hyphenated-injective g k)
  parts-injective _ _ e = ground arith

  -- Two targets with one name are one target.
  pub display-injective : (t u : TargetName) → display c t ≡ display c u → t ≡ u
  display-injective t u e = parts-injective t u (cc (display-parts t, display-parts u))

  -- With faithful crates, the name of every valid target parses to that target.
  pub from_str-display : (t : TargetName) → IsValid t → from_str c (display c t) ≡ ok t
  unfolding from_str display split
  from_str-display (collection id) v =
      rw (split_no_sep slash (c.hyphenated id) (h.hyphenated_no_slash id))
        (rw (parse_uuid-hyphenated id))
  from_str-display (alias name) v =
      rw (split_no_sep slash (c.base64_encode name) (h.base64_no_slash name))
        (parse_alias-encode name v)
  from_str-display (item_metadata id) v =
      rw (split-append slash (c.hyphenated id) (codes "meta") (h.hyphenated_no_slash id))
        (rw (parse_uuid-hyphenated id))
  from_str-display (item_secret id generation) v =
      rw
        (
          split-append slash (c.hyphenated id) (codes "secret/" ++ c.hyphenated generation)
              (h.hyphenated_no_slash id),
          split_no_sep slash (c.hyphenated generation) (h.hyphenated_no_slash generation),
        )
        (rw (parse_uuid-hyphenated id, parse_uuid-hyphenated generation))

  -- Only the written form of an identifier is accepted.
  parse_uuid_canonical : (t : Text) (u : ℕ) → parse_uuid c t ≡ ok u → c.hyphenated u ≡ t
  unfolding parse_uuid
  parse_uuid_canonical t u e = ground (arith, text_eq_iff (c.hyphenated u) t)

  parse_alias_canonical :
      (t : Text) (n : TargetName)
      → parse_alias c t ≡ ok n
      → (name : Text) × (n ≡ alias name) × (c.base64_encode name ≡ t) × IsAliasName name
  unfolding parse_alias
  parse_alias_canonical t n e = elim (Option-cases (c.base64_decode t)) [
    | inl missing ↦ absurd (ground arith)
    | inr (b, found) ↦ (b, ground arith, h.base64_encode-decode t b found, ground arith)
  ]

  -- The text that the parts were split from is the name of the target.
  abbrev Spells : List Text → TargetName → Type 0
  Spells ps n = (display c n ≡ credential_prefix ++ join slash ps) × IsValid n

  collection_spelled :
      (kind id : Text) (n : TargetName)
      → text_eq kind (codes "collection") ≡ true
      → (parse_uuid c id >>= λ u. ok (collection u)) ≡ ok n
      → Spells (kind ∷ id ∷ []) n
  unfolding display
  collection_spelled kind id n k e =
      let (u, parsed, made) = bind-eq_ok (parse_uuid c id) (λ u. ok (collection u)) e in
      let name : n ≡ collection u = cc made in
      rw (name, (text_eq_iff kind (codes "collection")).0 k, parse_uuid_canonical id u parsed)
        (refl, tt)

  alias_spelled :
      (kind id : Text) (n : TargetName)
      → text_eq kind (codes "alias") ≡ true
      → parse_alias c id ≡ ok n
      → Spells (kind ∷ id ∷ []) n
  unfolding display
  alias_spelled kind id n k e =
      let (name, made, encoded, valid) = parse_alias_canonical id n e in
      rw (made, (text_eq_iff kind (codes "alias")).0 k, encoded) (refl, valid)

  metadata_spelled :
      (kind id leaf : Text) (n : TargetName)
      → text_eq kind (codes "item") ≡ true
      → text_eq leaf (codes "meta") ≡ true
      → (parse_uuid c id >>= λ u. ok (item_metadata u)) ≡ ok n
      → Spells (kind ∷ id ∷ leaf ∷ []) n
  unfolding display
  metadata_spelled kind id leaf n k l e =
      let (u, parsed, made) = bind-eq_ok (parse_uuid c id) (λ u. ok (item_metadata u)) e in
      let name : n ≡ item_metadata u = cc made in
      rw
        (
          name,
          (text_eq_iff kind (codes "item")).0 k,
          (text_eq_iff leaf (codes "meta")).0 l,
          parse_uuid_canonical id u parsed,
        )
        (refl, tt)

  secret_spelled :
      (kind id leaf generation : Text) (n : TargetName)
      → text_eq kind (codes "item") ≡ true
      → text_eq leaf (codes "secret") ≡ true
      → (parse_uuid c id >>= λ u. parse_uuid c generation >>= λ g. ok (item_secret u g)) ≡ ok n
      → Spells (kind ∷ id ∷ leaf ∷ generation ∷ []) n
  unfolding display
  secret_spelled kind id leaf generation n k l e =
      let (u, first, more) =
        bind-eq_ok (parse_uuid c id) (λ u. parse_uuid c generation >>= λ g. ok (item_secret u g))
          e in
      let (g, second, made) =
        bind-eq_ok (parse_uuid c generation) (λ g. ok (item_secret u g)) more in
      let name : n ≡ item_secret u g = cc made in
      rw
        (
          name,
          (text_eq_iff kind (codes "item")).0 k,
          (text_eq_iff leaf (codes "secret")).0 l,
          parse_uuid_canonical id u first,
          parse_uuid_canonical generation g second,
        )
        (refl, tt)

  from_parts_spelled : (ps : List Text) (n : TargetName) → from_parts c ps ≡ ok n → Spells ps n
  unfolding from_parts
  from_parts_spelled (kind ∷ id ∷ []) n e = elim (Bool-cases (text_eq kind (codes "collection"))) [
    | inl k ↦ collection_spelled kind id n k (ground arith)
    | inr k ↦ alias_spelled kind id n (ground arith) (ground arith)
  ]
  from_parts_spelled (kind ∷ id ∷ leaf ∷ []) n e =
      metadata_spelled kind id leaf n (ground arith) (ground arith) (ground arith)
  from_parts_spelled (kind ∷ id ∷ leaf ∷ generation ∷ []) n e =
      secret_spelled kind id leaf generation n (ground arith) (ground arith) (ground arith)
  from_parts_spelled _ n e = cc

  strip_prefix_lem : (p t r : Text) → strip_prefix p t ≡ some r → t ≡ p ++ r
  strip_prefix_lem [] t r e = ground arith
  strip_prefix_lem (x ∷ p) [] r e = cc
  strip_prefix_lem (x ∷ p) (y ∷ t) r e = ground (arith, strip_prefix_lem p t r)

  -- With faithful crates, a text that parses is the name of the target that it parses to, and the
  -- target is a valid one.
  pub display-from_str :
      (t : Text) (n : TargetName) → from_str c t ≡ ok n → (display c n ≡ t) × IsValid n
  unfolding from_str
  display-from_str t n e = elim (Option-cases (strip_prefix credential_prefix t)) [
    | inl none' ↦ absurd (ground arith)
    | inr (r, found) ↦
        let spelled = from_parts_spelled (split slash r) n (ground arith) in
        rw (strip_prefix_lem credential_prefix t r found) (rw (join-split slash r) at spelled)
  ]
