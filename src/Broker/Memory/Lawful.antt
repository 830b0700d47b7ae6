-- ===== src/Broker/Memory/Lawful.antt =====
-- The in-memory store meets what the broker relies on.
use wincred_libsecret_wsl_pl.Prelude.{
  ◌≡◌, refl, ◌∙◌, ap, true, false, Option, none, some, List, [], ◌∷◌, Text, In, inl, inr,
  if◌then◌else◌, Result, ok, arith, Bool-cases,
}
use wincred_libsecret_wsl_pl.Prelude.Order.{text_ord}
use wincred_libsecret_wsl_pl.Prelude.OrdMap.{
  get→In, In→get, remove-IsUnique, insert-IsUnique, IsUnique, OrdMap, get, insert, remove,
  get-insert_self, get-insert_ne, get-remove_self, get-remove_ne,
}
use wincred_libsecret_wsl_pl.Protocol.Model.{Blob}
use wincred_libsecret_wsl_pl.Protocol.Target.{
  Crates, IsFaithful, TargetName, target_eq, display, from_str,
}
use wincred_libsecret_wsl_pl.Protocol.Target.RoundTrip.{display-from_str, display-injective}
use wincred_libsecret_wsl_pl.Broker.Backend.{IsLawful, shown}
use wincred_libsecret_wsl_pl.Broker.Backend.Effects.{target_eq_iff}
use wincred_libsecret_wsl_pl.Broker.Memory.{
  BrokerError, credential_prefix, starts_with, MemoryData, memory_backend, listing, listed_blob,
}

module _ (c : Crates) (h : IsFaithful c) where
  abbrev stored : MemoryData → TargetName → Option Blob
  stored s t = get (display c t) s.credentials

  names_differ : (t u : TargetName) → target_eq t u ≡ false → ¬ (display c t ≡ display c u)
  names_differ t u e p = ground (arith, target_eq_iff t u, display-injective c h t u p)

  stored-write :
      (t u : TargetName) (blob : Blob) (s : MemoryData)
      → stored (record s { credentials = insert (display c t) blob s.credentials }) u
        ≡ (if target_eq t u then some blob else stored s u)
  stored-write t u blob s = elim (Bool-cases (target_eq t u)) [
    | inl same ↦
        rw (same, ← (target_eq_iff t u).0 same) (get-insert_self (display c t) blob s.credentials)
    | inr other ↦
        rw other
          (get-insert_ne (display c t) (display c u) blob s.credentials (names_differ t u other))
  ]

  stored-delete :
      (t u : TargetName) (s : MemoryData)
      → stored (record s { credentials = remove (display c t) s.credentials }) u
        ≡ (if target_eq t u then none else stored s u)
  stored-delete t u s = elim (Bool-cases (target_eq t u)) [
    | inl same ↦
        rw (same, ← (target_eq_iff t u).0 same) (get-remove_self (display c t) s.credentials)
    | inr other ↦
        rw other (get-remove_ne (display c t) (display c u) s.credentials (names_differ t u other))
  ]

  listing_sound :
      (m : OrdMap Text Blob) (name : Text) (blob : Blob)
      → In (name, blob) (listing c m)
      → (v : Blob) × In (name, v) m × (blob ≡ listed_blob (from_str c name) v)
  unfolding listing
  listing_sound [] name blob i = absurd i
  listing_sound ((k, v) ∷ m) name blob i = elim (Bool-cases (starts_with credential_prefix k)) [
    | inl own ↦ elim (rw (own, listing) at i) [
      | inl e ↦ (v, ground arith, ground arith)
      | inr later ↦ let (w, at_w, e) = listing_sound m name blob later in (w, inr at_w, e)
    ]
    | inr foreign ↦
        let (w, at_w, e) = listing_sound m name blob (rw (foreign, listing) at i) in
        (w, inr at_w, e)
  ]

  listing_complete :
      (m : OrdMap Text Blob) (name : Text) (v : Blob)
      → starts_with credential_prefix name ≡ true
      → In (name, v) m
      → In (name, listed_blob (from_str c name) v) (listing c m)
  unfolding listing
  listing_complete [] name v own i = absurd i
  listing_complete ((k, w) ∷ m) name v own i = ground (arith, listing_complete m name v own)

  display-prefix : (t : TargetName) → starts_with credential_prefix (display c t) ≡ true
  unfolding display
  display-prefix (TargetName.collection id) = refl
  display-prefix _ = refl

  acquired :
      (s : MemoryData) (r : Result BrokerError (Unit {0})) (s' : MemoryData)
      → (memory_backend c).acquire_lock s ≡ some (r, s')
      → s'.credentials ≡ s.credentials
  acquired s r s' e = ground arith

  enumerated :
      (s : MemoryData) (l : List (Text × Blob)) (name : Text) (blob : Blob) (t : TargetName)
      → IsUnique s.credentials
      → ((memory_backend c).enumerate s).0 ≡ ok l
      → In (name, blob) l
      → from_str c name ≡ ok t
      → (v : Blob) × (stored s t ≡ some v) × (blob ≡ shown t v)
  enumerated s l name blob t g e i p =
      let same : l ≡ listing c s.credentials = cc e in
      let (v, at, b) = listing_sound s.credentials name blob (rw same at i) in
      (
        v,
        rw ((display-from_str c h name t p).0) (In→get name v s.credentials g at),
        b ∙ ap (λ r. listed_blob r v) p,
      )

  enumerates_all :
      (s : MemoryData) (l : List (Text × Blob)) (t : TargetName) (v : Blob)
      → IsUnique s.credentials
      → from_str c (display c t) ≡ ok t
      → ((memory_backend c).enumerate s).0 ≡ ok l
      → stored s t ≡ some v
      → (name : Text) × (from_str c name ≡ ok t) × In (name, shown t v) l
  enumerates_all s l t v g p e q =
      let same : l ≡ listing c s.credentials = cc e in
      let at = get→In (display c t) v s.credentials q in
      (
        display c t,
        p,
        rw (same, ← ap (λ r. listed_blob r v) p)
            (listing_complete s.credentials (display c t) v (display-prefix t) at),
      )

  -- With faithful crates, the in-memory store satisfies the laws of the backend, with good states
  -- those in which each name stands once.
  pub memory_backend-IsLawful : IsLawful c (memory_backend c) (λ s. IsUnique s.credentials)
  memory_backend-IsLawful = record {
    creds = stored;
    acquire_good = λ s r s' e g. rw (acquired s r s' e) g;
    release_good = λ s g. g;
    read_good = λ t s g. g;
    write_good = λ t blob s g. insert-IsUnique (display c t) blob s.credentials g;
    delete_good = λ t s g. remove-IsUnique (display c t) s.credentials g;
    enumerate_good = λ s g. g;
    acquire_keeps = λ s r s' t e. ap (get (display c t)) (acquired s r s' e);
    release_keeps = λ s t. refl;
    read_ok = λ t s o e. ground arith;
    read_keeps = λ t s u. refl;
    write_ok = λ t blob s u _. stored-write t u blob s;
    write_err = λ t blob s x u e. ground arith;
    delete_ok = λ t s u _. stored-delete t u s;
    delete_err = λ t s x u e. ground arith;
    enumerate_keeps = λ s u. refl;
    enumerate_sound = enumerated;
    enumerate_complete = enumerates_all;
  }
