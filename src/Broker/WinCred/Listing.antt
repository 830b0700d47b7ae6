-- ===== src/Broker/WinCred/Listing.antt =====
-- What `enumerate` of crates/broker/src/wincred.rs lists.
use wincred_libsecret_wsl_pl.Prelude.{
  ◌⊎◌, ◌≡◌, refl, sym, ◌∙◌, ap, subst, inl, inr, true, false, not, Option, none, some, List, [],
  ◌∷◌, Text, In, ◌==◌, ok, arith, if-eq_some, unless-eq_some, chain-eq_some, some_injective,
}
use wincred_libsecret_wsl_pl.Protocol.Errors.{starts_with}
use wincred_libsecret_wsl_pl.Protocol.Model.{Blob}
use wincred_libsecret_wsl_pl.Protocol.Target.{Crates, TargetName, credential_prefix, from_str}
use wincred_libsecret_wsl_pl.Broker.Backend.{shown}
use wincred_libsecret_wsl_pl.Broker.Windows.{Credential, WinApi}
use wincred_libsecret_wsl_pl.Broker.WinCred.{
  blob_of, listed, listed_blob, listed_name, push, listing,
}

module _ {A : Type 0} where
  In-push : (o : Option A) (l : List A) (a : A) → In a (push o l) → (o ≡ some a) ⊎ In a l
  In-push none l a i = inr i
  In-push (some b) l a (inl e) = inl (ap some (sym e))
  In-push (some b) l a (inr later) = inr later

  push-here : (o : Option A) (l : List A) (a : A) → o ≡ some a → In a (push o l)
  push-here none l a e = absurd (cc e)
  push-here (some b) l a e = inl (sym (some_injective e))

  push-later : (o : Option A) (l : List A) (a : A) → In a l → In a (push o l)
  push-later none l a i = i
  push-later (some b) l a i = inr i

module _ (c : Crates) {W : Type 0} (api : WinApi W) where
  pub listed_blob-shown :
      (t : TargetName) (found : Credential)
      → listed_blob c api (ok t) found ≡ shown t (blob_of found)
  listed_blob-shown (TargetName.item_secret i g) found = refl
  listed_blob-shown (TargetName.collection i) found = refl
  listed_blob-shown (TargetName.alias n) found = refl
  listed_blob-shown (TargetName.item_metadata i) found = refl

  -- The found behind a listed pair.
  pub record Behind (name : Text) (blob : Blob) (found : Credential) : Type 0 where
    pub generic : found.kind ≡ api.cred_type_generic
    pub named : api.to_string found.target_name ≡ some name
    pub own : starts_with credential_prefix name ≡ true
    pub held : blob ≡ listed_blob c api (from_str c name) found

  generic_kind :
      (x : Credential)
      → not (x.kind == api.cred_type_generic) ≡ false
      → x.kind ≡ api.cred_type_generic
  generic_kind x h = ground arith

  listed_name-eq_some :
      (n name : Text) (x : Credential) (blob : Blob)
      → listed_name c api n x ≡ some (name, blob)
      → (n ≡ name)
        × (starts_with credential_prefix n ≡ true)
        × (blob ≡ listed_blob c api (from_str c n) x)
  listed_name-eq_some n name x blob h =
      let (own, e) =
        if-eq_some (starts_with credential_prefix n) (some (n, listed_blob c api (from_str c n) x))
          (name, blob) h in
      let both = some_injective e in (ap (λ p. p.0) both, own, sym (ap (λ p. p.1) both))

  listed_sound :
      (x : Credential) (name : Text) (blob : Blob)
      → listed c api (some x) ≡ some (name, blob)
      → Behind name blob x
  unfolding listed
  listed_sound x name blob h =
      let (kind, e) = unless-eq_some (not (x.kind == api.cred_type_generic)) _ (name, blob) h in
      let (n, t, p) =
        chain-eq_some (api.to_string x.target_name) (λ n. listed_name c api n x) (name, blob) e in
      let (same, own, held) = listed_name-eq_some n name x blob p in
      record {
        generic = generic_kind x kind;
        named = t ∙ ap some same;
        own = subst (λ u. starts_with credential_prefix u ≡ true) same own;
        held = held ∙ ap (λ u. listed_blob c api (from_str c u) x) same;
      }

  pointer_sound :
      (pointer : Option Credential) (name : Text) (blob : Blob)
      → listed c api pointer ≡ some (name, blob)
      → (found : Credential) × (pointer ≡ some found) × Behind name blob found
  unfolding listed
  pointer_sound none name blob h = absurd (cc h)
  pointer_sound (some x) name blob h = (x, refl, listed_sound x name blob h)

  listed_complete :
      (found : Credential) (name : Text) (blob : Blob)
      → Behind name blob found
      → listed c api (some found) ≡ some (name, blob)
  unfolding listed
  listed_complete found name blob h = ground (arith, h.generic, h.named, h.own, h.held)

  pub listing_sound :
      (l : List (Option Credential)) (name : Text) (blob : Blob)
      → In (name, blob) (listing c api l)
      → (found : Credential) × In (some found) l × Behind name blob found
  unfolding listing
  listing_sound [] name blob i = absurd i
  listing_sound (pointer ∷ l) name blob i =
      elim (In-push (listed c api pointer) (listing c api l) (name, blob) i) [
        | inl e ↦ let (x, p, b) = pointer_sound pointer name blob e in (x, inl (sym p), b)
        | inr later ↦ let (found, at, b) = listing_sound l name blob later in (found, inr at, b)
      ]

  pub listing_complete :
      (l : List (Option Credential)) (found : Credential) (name : Text) (blob : Blob)
      → In (some found) l
      → Behind name blob found
      → In (name, blob) (listing c api l)
  unfolding listing
  listing_complete [] found name blob i b = absurd i
  listing_complete (pointer ∷ l) found name blob (inl e) b =
      push-here (listed c api pointer) (listing c api l) (name, blob)
        (ap (listed c api) (sym e) ∙ listed_complete found name blob b)
  listing_complete (pointer ∷ l) found name blob (inr later) b =
      push-later (listed c api pointer) (listing c api l) (name, blob)
        (listing_complete l found name blob later b)
