-- ===== src/Broker/WinCred/Effects.antt =====
-- What a read, a write or a deletion of crates/broker/src/wincred.rs does to the stored credentials.
use wincred_libsecret_wsl_pl.Prelude.{
  ◌≡◌, refl, sym, ◌∙◌, ap, ◌⊎◌, inl, inr, true, Option, none, some, [], ◌∷◌, ◌++◌, Text, length,
  ltb, ◌==◌, if◌then◌else◌, Result, ok, err, arith, Bool-cases, ==_iff, ◌^◌,
}
use wincred_libsecret_wsl_pl.Prelude.Results.{map_err}
use wincred_libsecret_wsl_pl.Prelude.Exec.{raise}
use wincred_libsecret_wsl_pl.Protocol.Errors.{BrokerError}
use wincred_libsecret_wsl_pl.Protocol.Model.{Blob}
use wincred_libsecret_wsl_pl.Protocol.Target.{Crates, TargetName, target_eq, display}
use wincred_libsecret_wsl_pl.Broker.Backend.Effects.{target_eq_iff, target_eq_refl}
use wincred_libsecret_wsl_pl.Broker.Windows.{Wide, WinError, Credential, WinApi}
use wincred_libsecret_wsl_pl.Broker.WinCred.{
  WinState, wide_target, blob_of, take, windows, map_windows_error, read, read_result, write,
  generic_credential, delete, delete_result,
}
use wincred_libsecret_wsl_pl.Broker.WinCred.Manager.{ascii, IsAscii, HoldsBlob, IsManager}

take-length : (v : Blob) → take (length v) v ≡ v
take-length [] = refl
take-length (b ∷ v) = ap (λ t. b ∷ t) (take-length v)

pub blob_of-HoldsBlob :
    (credential : Credential) (v : Blob) → HoldsBlob credential v → blob_of credential ≡ v
unfolding blob_of
blob_of-HoldsBlob credential [] h = ground (arith, h.sized)
blob_of-HoldsBlob credential (b ∷ v) h = ground (arith, h.sized, h.pointed, take-length (b ∷ v))

ascii-append : (s t : Text) → ascii s ≡ true → ascii t ≡ true → ascii (s ++ t) ≡ true
ascii-append [] t p q = q
ascii-append (b ∷ s) t p q = ground (arith, ascii-append s t)

abbrev pub content : Option (Wide × Blob) → Option Blob
content none = none
content (some (name, blob)) = some blob

module _ (c : Crates) (a : IsAscii c) where
  pub display-ascii : (t : TargetName) → ascii (display c t) ≡ true
  unfolding display
  display-ascii (TargetName.collection id) = a.hyphenated_ascii id
  display-ascii (TargetName.alias name) = a.base64_ascii name
  display-ascii (TargetName.item_metadata id) =
      ascii-append (c.hyphenated id) _ (a.hyphenated_ascii id) refl
  display-ascii (TargetName.item_secret id generation) =
      ascii-append (c.hyphenated id) _ (a.hyphenated_ascii id) (a.hyphenated_ascii generation)

module _ (c : Crates) {W : Type 0} (api : WinApi W) (m : IsManager api) where
  abbrev pub credential : WinState W → TargetName → Option (Wide × Blob)
  credential s t = m.stored s.system (wide_target c t)

  abbrev pub creds : WinState W → TargetName → Option Blob
  creds s t = content (credential s t)

  read_result-content :
      (r : Result WinError (Option Credential)) (x : Option (Wide × Blob)) (o : Option Blob)
      → ((credential : Credential)
          → r ≡ ok (some credential)
          → (name : Wide) × (blob : Blob) × (x ≡ some (name, blob)) × HoldsBlob credential blob)
      → ((e : WinError) → r ≡ err e → e.code ≡ api.error_not_found → x ≡ none)
      → read_result c api r ≡ ok o
      → o ≡ content x
  unfolding read_result
  read_result-content (ok none) x o found missing h = absurd (cc h)
  read_result-content (ok (some credential)) x o found missing h =
      let (name, blob, e, holds) = found credential refl in
      rw e (ground (arith, h, blob_of-HoldsBlob credential blob holds))
  read_result-content (err e) x o found missing h = ground (arith, h, missing e refl)

  pub read_lem :
      (t : TargetName) (s : WinState W) (o : Option Blob)
      → (read c api t s.system).0 ≡ ok o
      → o ≡ creds s t
  unfolding read
  read_lem t s o h =
      read_result-content (api.cred_read (wide_target c t) api.cred_type_generic s.system).0
        (credential s t) o (λ r. m.read_found (wide_target c t) s.system r)
        (λ e. m.read_missing (wide_target c t) s.system e) h

  pub read-keeps :
      (t : TargetName) (s : WinState W) (n : Wide)
      → m.stored (read c api t s.system).1 n ≡ m.stored s.system n
  unfolding read
  read-keeps t s n = m.read_keeps (wide_target c t) s.system n

  HoldsBlob-generic :
      (t : TargetName) (blob : Blob) → HoldsBlob (generic_credential c api t blob) blob
  HoldsBlob-generic t blob = record { sized = refl; pointed = inr refl }

  -- What a write comes to: the credential under its earlier spelling or a new one, or nothing.
  pub data Written (t : TargetName) (blob : Blob) (w : W)
      : Result BrokerError (Unit {0}) × W → Type 0 where
    stored_as :
        (name : Wide) (w' : W)
        → ((name ≡ wide_target c t)
            ⊎ ((old : Blob) × (m.stored w (wide_target c t) ≡ some (name, old))))
        → ((n : Wide)
            → m.stored w' n
              ≡ (if m.same (wide_target c t) n then some (name, blob) else m.stored w n))
        → Written t blob w (ok tt, w')
    refused :
        (e : BrokerError) (w' : W)
        → ((n : Wide) → m.stored w' n ≡ m.stored w n)
        → Written t blob w (err e, w')

  pub write-Written :
      (t : TargetName) (blob : Blob) (w : W) → Written t blob w (write c api t blob w)
  unfolding write windows raise
  write-Written t blob w = elim (Bool-cases (ltb (length blob) (2 ^ 32))) [
    | inl small ↦ rw small (sent (api.cred_write (generic_credential c api t blob) w).0 refl)
    | inr large ↦ rw large (refused _ w (λ n. refl))
  ]
    where
      sent :
          (r : Result WinError (Unit {0}))
          → (api.cred_write (generic_credential c api t blob) w).0 ≡ r
          → Written t blob w (
            map_err (map_windows_error c api) r,
            (api.cred_write (generic_credential c api t blob) w).1,
          )
      sent (ok _) e =
          let (name, spelled, after) =
            m.write_done (generic_credential c api t blob) blob w refl (HoldsBlob-generic t blob)
              e in
          stored_as name _ spelled after
      sent (err x) e = refused _ _ (λ n. m.write_failed (generic_credential c api t blob) w x n e)

  pub data Deleted (t : TargetName) (w : W) : Result BrokerError (Unit {0}) × W → Type 0 where
    removed :
        (w' : W)
        → ((n : Wide) → m.stored w' n ≡ (if m.same (wide_target c t) n then none else m.stored w n))
        → Deleted t w (ok tt, w')
    kept :
        (e : BrokerError) (w' : W)
        → ((n : Wide) → m.stored w' n ≡ m.stored w n)
        → Deleted t w (err e, w')

  -- What was not there is gone.
  removed_missing :
      (t : TargetName) (w : W) (n : Wide)
      → m.stored w (wide_target c t) ≡ none
      → m.stored w n ≡ (if m.same (wide_target c t) n then none else m.stored w n)
  removed_missing t w n missing = elim (Bool-cases (m.same (wide_target c t) n)) [
    | inl e ↦ rw e (sym (m.stored_same w (wide_target c t) n e) ∙ missing)
    | inr e ↦ rw e
  ]

  pub delete-Deleted : (t : TargetName) (w : W) → Deleted t w (delete c api t w)
  unfolding delete delete_result
  delete-Deleted t w = sent (api.cred_delete (wide_target c t) api.cred_type_generic w).0 refl
    where
      after : W
      after = (api.cred_delete (wide_target c t) api.cred_type_generic w).1

      sent :
          (r : Result WinError (Unit {0}))
          → (api.cred_delete (wide_target c t) api.cred_type_generic w).0 ≡ r
          → Deleted t w (delete_result c api r, after)
      sent (ok _) e = removed _ (λ n. m.delete_done (wide_target c t) w n e)
      sent (err x) e = elim (Bool-cases (x.code == api.error_not_found)) [
        | inl nf ↦ rw nf (
            removed after (λ n.
              m.delete_failed (wide_target c t) w x n e
              ∙ removed_missing t w n
                  (m.delete_missing (wide_target c t) w x e ((==_iff _ _).0 nf))))
        | inr other ↦ rw other (kept _ after (λ n. m.delete_failed (wide_target c t) w x n e))
      ]

-- Where no two of the targets in use have names that are the same to Windows.
module _ (c : Crates) {W : Type 0} (api : WinApi W) (m : IsManager api) (used : TargetName → Type 0)
    (apart : (t u : TargetName)
      → used t
      → used u
      → m.same (wide_target c t) (wide_target c u) ≡ true
      → t ≡ u) where
  -- Every credential under a name in use is spelled the way the project spells it.
  pub record IsSpelled (s : WinState W) : Type 0 where
    pub spelled :
        (t : TargetName) (name : Wide) (blob : Blob)
        → used t
        → m.stored s.system (wide_target c t) ≡ some (name, blob)
        → name ≡ wide_target c t

  same-target :
      (t u : TargetName)
      → used t
      → used u
      → m.same (wide_target c t) (wide_target c u) ≡ target_eq t u
  same-target t u p q = elim (Bool-cases (target_eq t u)) [
    | inl e ↦ rw (e, (target_eq_iff t u).0 e) (m.same_refl (wide_target c u))
    | inr e ↦ elim (Bool-cases (m.same (wide_target c t) (wide_target c u))) [
      | inl same ↦ absurd (cc (e, target_eq_refl u, apart t u p q same))
      | inr differs ↦ differs ∙ sym e
    ]
  ]

  content-if :
      (t u : TargetName) (x y : Option (Wide × Blob))
      → used t
      → used u
      → content (if m.same (wide_target c t) (wide_target c u) then x else y)
        ≡ (if target_eq t u then content x else content y)
  content-if t u x y p q = rw (same-target t u p q) (ground arith)

  kept_spelling :
      (s : WinState W) (t : TargetName) (name : Wide)
      → used t
      → IsSpelled s
      → (name ≡ wide_target c t) ⊎ ((old : Blob) × (credential c api m s t ≡ some (name, old)))
      → name ≡ wide_target c t
  kept_spelling s t name p g (inl e) = e
  kept_spelling s t name p g (inr (old, found)) = g.spelled t name old p found

  module _ (t u : TargetName) (p : used t) (q : used u) (blob : Blob) (s : WinState W) where
    pub Written-ok :
        (r : Result BrokerError (Unit {0}) × W)
        → Written c api m t blob s.system r
        → r.0 ≡ ok tt
        → content (m.stored r.1 (wide_target c u))
          ≡ (if target_eq t u then some blob else creds c api m s u)
    Written-ok _ (stored_as name w' spelled after) h =
        ap content (after (wide_target c u)) ∙ content-if t u _ _ p q
    Written-ok _ (refused e w' same) h = absurd (cc h)

    pub Written-err :
        (r : Result BrokerError (Unit {0}) × W) (e : BrokerError)
        → Written c api m t blob s.system r
        → r.0 ≡ err e
        → content (m.stored r.1 (wide_target c u)) ≡ creds c api m s u
    Written-err _ e (stored_as name w' spelled after) h = absurd (cc h)
    Written-err _ e (refused x w' same) h = ap content (same (wide_target c u))

    pub Deleted-ok :
        (r : Result BrokerError (Unit {0}) × W)
        → Deleted c api m t s.system r
        → r.0 ≡ ok tt
        → content (m.stored r.1 (wide_target c u))
          ≡ (if target_eq t u then none else creds c api m s u)
    Deleted-ok _ (removed w' after) h =
        ap content (after (wide_target c u)) ∙ content-if t u _ _ p q
    Deleted-ok _ (kept e w' same) h = absurd (cc h)

    pub Deleted-err :
        (r : Result BrokerError (Unit {0}) × W) (e : BrokerError)
        → Deleted c api m t s.system r
        → r.0 ≡ err e
        → content (m.stored r.1 (wide_target c u)) ≡ creds c api m s u
    Deleted-err _ e (removed w' after) h = absurd (cc h)
    Deleted-err _ e (kept x w' same) h = ap content (same (wide_target c u))

    pub Written-spelled :
        (r : Result BrokerError (Unit {0}) × W)
        → Written c api m t blob s.system r
        → IsSpelled s
        → (name : Wide) (v : Blob) → m.stored r.1 (wide_target c u) ≡ some (name, v)
        → name ≡ wide_target c u
    Written-spelled _ (refused e w' same) g name v h =
        g.spelled u name v q (sym (same (wide_target c u)) ∙ h)
    Written-spelled _ (stored_as written w' spelled after) g name v h =
        elim (Bool-cases (target_eq t u)) [
          | inl e ↦
              let renamed : name ≡ written =
                ground (arith, after (wide_target c u), same-target t u p q) in
              renamed
              ∙ kept_spelling s t written p g spelled
              ∙ ap (wide_target c) ((target_eq_iff t u).0 e)
          | inr e ↦
              g.spelled u name v q (ground (arith, after (wide_target c u), same-target t u p q))
        ]

    pub Deleted-spelled :
        (r : Result BrokerError (Unit {0}) × W)
        → Deleted c api m t s.system r
        → IsSpelled s
        → (name : Wide) (v : Blob) → m.stored r.1 (wide_target c u) ≡ some (name, v)
        → name ≡ wide_target c u
    Deleted-spelled _ (kept e w' same) g name v h =
        g.spelled u name v q (sym (same (wide_target c u)) ∙ h)
    Deleted-spelled _ (removed w' after) g name v h =
        g.spelled u name v q (ground (arith, after (wide_target c u), h))
