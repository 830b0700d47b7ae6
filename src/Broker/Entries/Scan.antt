-- ===== src/Broker/Entries/Scan.antt =====
-- What the list of entries says of the vault that it was read from.
use wincred_libsecret_wsl_pl.Prelude.{
  ◌≡◌, refl, ◌∙◌, ap, some, List, [], ◌∷◌, Text, In, inl, inr, ok, arith,
}
use wincred_libsecret_wsl_pl.Prelude.Results.{Result-cases}
use wincred_libsecret_wsl_pl.Protocol.Model.{Blob}
use wincred_libsecret_wsl_pl.Protocol.Target.{Crates, TargetName, display, from_str}
use wincred_libsecret_wsl_pl.Broker.Backend.{VaultBackend, IsLawful, shown}
use wincred_libsecret_wsl_pl.Broker.Entries.{Entry, to_entries, add_entry}

shown_idem : (t : TargetName) (v : Blob) → shown t (shown t v) ≡ shown t v
shown_idem (TargetName.item_secret i g) v = refl
shown_idem _ v = refl

module _ (c : Crates) where
  pub In-to_entries :
      (l : List (Text × Blob)) (e : Entry)
      → In e (to_entries c l)
      → (name : Text) × (blob : Blob) × In (name, blob) l
        × (from_str c name ≡ ok e.kind)
        × (e.blob ≡ shown e.kind blob)
  unfolding to_entries
  In-to_entries [] e i = absurd i
  In-to_entries ((name, blob) ∷ l) e i = elim (Result-cases (from_str c name)) [
    | inl (t, parsed) ↦ elim (rw (parsed, add_entry) at i) [
      | inl same ↦ (name, blob, inl refl, ground arith, ground arith)
      | inr later ↦ let (n, v, at, p, q) = In-to_entries l e later in (n, v, inr at, p, q)
    ]
    | inr (x, failed) ↦
        let (n, v, at, p, q) = In-to_entries l e (rw (failed, add_entry) at i) in
        (n, v, inr at, p, q)
  ]

  pub to_entries-In :
      (l : List (Text × Blob)) (name : Text) (blob : Blob) (t : TargetName)
      → In (name, blob) l
      → from_str c name ≡ ok t
      → In (record { kind = t; blob = shown t blob }) (to_entries c l)
  unfolding to_entries
  to_entries-In [] name blob t i p = absurd i
  to_entries-In ((n, v) ∷ l) name blob t i p = ground (arith, to_entries-In l name blob t)

module _ {c : Crates} {S : Type 0} (b : VaultBackend S) {good : S → Type 0}
    (law : IsLawful c b good) where
  -- Each entry is a stored credential, with its blob unless it is a secret.
  pub entries_sound :
      (s : S) (l : List (Text × Blob)) (e : Entry)
      → good s
      → (b.enumerate s).0 ≡ ok l
      → In e (to_entries c l)
      → (v : Blob) × (law.creds s e.kind ≡ some v) × (e.blob ≡ shown e.kind v)
  entries_sound s l e g listed i =
      let (name, blob, at, parsed, p) = In-to_entries c l e i in
      let (v, found, q) = law.enumerate_sound s l name blob e.kind g listed at parsed in
      (v, found, p ∙ ap (shown e.kind) q ∙ shown_idem e.kind v)

  -- Each stored credential with a valid name is an entry.
  pub entries_complete :
      (s : S) (l : List (Text × Blob)) (t : TargetName) (v : Blob)
      → good s
      → from_str c (display c t) ≡ ok t
      → (b.enumerate s).0 ≡ ok l
      → law.creds s t ≡ some v
      → In (record { kind = t; blob = shown t v }) (to_entries c l)
  entries_complete s l t v g valid listed found =
      let (name, parsed, at) = law.enumerate_complete s l t v g valid listed found in
      rw (shown_idem t v) at (to_entries-In c l name (shown t v) t at parsed)
