-- ===== src/Cli/Payload/Verified.antt =====
-- A payload that `verify_payload` of crates/cli/src/main.rs accepts.
use wincred_libsecret_wsl_pl.Prelude.{
  ◌≡◌, refl, sym, ap, ◌∙◌, inl, inr, Option-cases, Bool, true, false, some, List, [], ◌∷◌, In, ℕ,
  Text, length, ◌==◌, Result, ok, arith,
}
use wincred_libsecret_wsl_pl.Prelude.Results.{Result-cases}
use wincred_libsecret_wsl_pl.Prelude.Exec.{Exec, ◌>>=◌, raise, match_option}
use wincred_libsecret_wsl_pl.Prelude.Exec.Keeps.{Keeps, Keeps-bind}
use wincred_libsecret_wsl_pl.Prelude.Exec.Inversion.{bind-ok}
use wincred_libsecret_wsl_pl.Cli.Machine.{
  Machine, ensure, context, look, look_at, equals_ignoring_case,
}
use wincred_libsecret_wsl_pl.Cli.Machine.Apart.{Seen, seen_rules}
use wincred_libsecret_wsl_pl.Cli.Payload.{
  linux_payload_manifest, split_entry, required_files, verify_file, verify_entry, verify_entries,
  verify_required, manifest_lines, verify_payload, to_hex,
}

module _ {S : Type 0} where
  ensure-ok :
      (b : Bool) (text : Text) (s : S) (u : Unit {0}) → (ensure b text s).0 ≡ ok u → b ≡ true
  unfolding ensure
  ensure-ok true text s u h = refl
  ensure-ok false text s u h = absurd (cc h)

module _ {S C : Type 0} where
  ensure-then :
      (b : Bool) (text : Text) (f : Unit {0} → Exec S Text C) (s : S) (c : C)
      → ((ensure b text >>= f) s).0 ≡ ok c
      → (b ≡ true) × ((f tt s).0 ≡ ok c)
  unfolding ensure ◌>>=◌
  ensure-then true text f s c h = (refl, h)
  ensure-then false text f s c h = absurd (cc h)

  look_at-then :
      {A : Type 0} (text : Text) (r : S → Result Text A) (f : A → Exec S Text C) (s : S) (c : C)
      → ((context text (look_at r) >>= f) s).0 ≡ ok c
      → (a : A) × (r s ≡ ok a) × ((f a s).0 ≡ ok c)
  unfolding context look_at ◌>>=◌
  look_at-then text r f s c h = elim (Result-cases (r s)) [
    | inl (a, e) ↦ (a, e, ground (arith, e, h))
    | inr (x, e) ↦ absurd (ground (arith, e, h))
  ]

module _ {S : Type 0} (y : Machine S) (root : Text) where
  -- A line of the manifest names a file by a path that is not absolute and has no parent or root
  -- component, and the file has the line's digest.
  pub record IsVerified (line : Text) (s : S) : Type 0 where
    pub digest : Text
    pub relative : Text
    pub contents : List ℕ
    pub split_eq : split_entry line ≡ some (digest, relative)
    pub is_relative : y.is_absolute relative ≡ false
    pub has_no_parent : y.has_parent_or_root relative ≡ false
    pub read_eq : y.read_file (y.join root relative) s ≡ ok contents
    pub hash_eq : equals_ignoring_case (to_hex (y.sha256 contents)) digest ≡ true

  verify_file-Same :
      (expected relative : Text) (s : S)
      → Keeps (Seen (λ t. t) s) (verify_file y root expected relative)
  unfolding verify_file
  verify_file-Same expected relative s = search seen_rules depth 14

  verify_entry-Same : (line : Text) (s : S) → Keeps (Seen (λ t. t) s) (verify_entry y root line)
  unfolding verify_entry
  verify_entry-Same line s = search (seen_rules, verify_file-Same) depth 8

  verify_entries-Same :
      (lines : List Text) (s : S) → Keeps (Seen (λ t. t) s) (verify_entries y root lines)
  unfolding verify_entries
  verify_entries-Same [] s = search seen_rules
  verify_entries-Same (line ∷ rest) s =
      Keeps-bind _ _ (verify_entry-Same line s) λ _. verify_entries-Same rest s

  verify_file-IsVerified :
      (line expected relative : Text) (s : S)
      → split_entry line ≡ some (expected, relative)
      → (verify_file y root expected relative s).0 ≡ ok tt
      → IsVerified line s
  unfolding verify_file
  verify_file-IsVerified line expected relative s split h =
      let (hex, h₁) = ensure-then _ _ _ s tt h in
      let (path, h₂) = ensure-then _ _ _ s tt h₁ in
      let (contents, read, h₃) = look_at-then _ _ _ s tt h₂ in
      record {
        digest = expected;
        relative = relative;
        contents = contents;
        split_eq = split;
        is_relative = ground (arith, path);
        has_no_parent = ground (arith, path);
        read_eq = read;
        hash_eq = ensure-ok _ _ s tt h₃;
      }

  verify_entry-IsVerified :
      (line : Text) (s : S) → (verify_entry y root line s).0 ≡ ok tt → IsVerified line s
  unfolding verify_entry match_option raise
  verify_entry-IsVerified line s h = elim (Option-cases (split_entry line)) [
    | inl e ↦ absurd (ground (arith, e, h))
    | inr ((expected, relative), e) ↦
        verify_file-IsVerified line expected relative s e (ground (arith, e, h))
  ]

  verify_entries-IsVerified :
      (lines : List Text) (s : S) (line : Text)
      → (verify_entries y root lines s).0 ≡ ok tt
      → In line lines
      → IsVerified line s
  unfolding verify_entries
  verify_entries-IsVerified [] s line h member = elim member [ ]
  verify_entries-IsVerified (first ∷ rest) s line h member =
      let (u, done, q, h') =
        bind-ok (verify_entry y root first) (λ _. verify_entries y root rest) s tt h in
      elim member [
        | inl e ↦ rw e (verify_entry-IsVerified first s done)
        | inr later ↦
            verify_entries-IsVerified rest s line
              (rw (sym ((verify_entry-Same first s).at s refl)) h') later
      ]

  verify_required-all :
      (names : List Text) (s : S) (name : Text)
      → (verify_required y root names s).0 ≡ ok tt
      → In name names
      → y.is_file (y.join root name) s ≡ true
  unfolding verify_required look ◌>>=◌
  verify_required-all [] s name h member = elim member [ ]
  verify_required-all (first ∷ rest) s name h member =
      let (there, h') = ensure-then (y.is_file (y.join root first) s) _ _ s tt h in
      elim member [
        | inl e ↦ ap (λ n. y.is_file (y.join root n) s) e ∙ there
        | inr later ↦ verify_required-all rest s name h' later
      ]

  -- Where `verify_payload` succeeds, the manifest can be read and has an entry, every entry names
  -- a file by a path that is not absolute and has no parent or root component, the contents of the
  -- file that this path comes to from the directory have the entry's digest, and each of the files
  -- that a distribution needs is there.
  pub verify_payload-IsVerified :
      (s : S)
      → (verify_payload y root s).0 ≡ ok tt
      → (text : Text) × (y.read_to_string (y.join root linux_payload_manifest) s ≡ ok text)
        × (length (manifest_lines y text) == 0) ≡ false
        × ((line : Text) → In line (manifest_lines y text) → IsVerified line s)
        × ((name : Text) → In name required_files → y.is_file (y.join root name) s ≡ true)
  unfolding verify_payload
  verify_payload-IsVerified s h =
      let (text, read, h₁) = look_at-then _ _ _ s tt h in
      let (u, done, q, h₂) = bind-ok (verify_entries y root (manifest_lines y text)) _ s tt h₁ in
      let (nonempty, h₃) = ensure-then _ _ _ _ tt h₂ in
      let same = (verify_entries-Same (manifest_lines y text) s).at s refl in
      (
        text,
        read,
        ground (arith, nonempty),
        (λ line. verify_entries-IsVerified (manifest_lines y text) s line done),
        λ name. verify_required-all required_files s name (rw (sym same) h₃),
      )
