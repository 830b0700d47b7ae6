-- ===== src/Broker/WinCred/Lawful.antt =====
-- The production store of crates/broker/src/wincred.rs meets what the broker relies on.
use wincred_libsecret_wsl_pl.Prelude.{
  ◌≡◌, ◌⊎◌, refl, sym, ◌∙◌, ap, subst, inl, inr, true, Option, none, some, List, [], ◌++◌, codes,
  Text, In, ◌==◌, ==_iff, Result, ok, err, arith, Bool-cases,
}
use wincred_libsecret_wsl_pl.Prelude.Results.{ok_injective}
use wincred_libsecret_wsl_pl.Protocol.Errors.{starts_with}
use wincred_libsecret_wsl_pl.Protocol.Model.{Blob}
use wincred_libsecret_wsl_pl.Protocol.Target.{
  Crates, IsFaithful, TargetName, credential_prefix, display, from_str,
}
use wincred_libsecret_wsl_pl.Protocol.Target.RoundTrip.{display-from_str}
use wincred_libsecret_wsl_pl.Broker.Backend.{shown}
use wincred_libsecret_wsl_pl.Broker.Backend.On.{IsLawfulOn}
use wincred_libsecret_wsl_pl.Broker.Windows.{Wide, WinError, Credential, WinApi, wide}
use wincred_libsecret_wsl_pl.Broker.WinCred.{
  WinState, wide_target, listed_blob, listing, enumerate, enumerate_result, wincred_backend,
}
use wincred_libsecret_wsl_pl.Broker.WinCred.Manager.{ascii, IsAscii, IsManager}
use wincred_libsecret_wsl_pl.Broker.WinCred.Effects.{
  content, creds, credential, IsSpelled, display-ascii, blob_of-HoldsBlob, read_lem, read-keeps,
  write-Written, delete-Deleted, Written-ok, Written-err, Deleted-ok, Deleted-err, Written-spelled,
  Deleted-spelled,
}
use wincred_libsecret_wsl_pl.Broker.WinCred.Listing.{
  listing_sound, listing_complete, listed_blob-shown,
}
use wincred_libsecret_wsl_pl.Broker.WinCred.Lock.{acquire_lock-Same, release-Same}

module _ (c : Crates) (f : IsFaithful c) (a : IsAscii c) {W : Type 0} (api : WinApi W)
    (m : IsManager api) (used : TargetName → Type 0)
    (apart : (t u : TargetName)
      → used t
      → used u
      → m.same (wide_target c t) (wide_target c u) ≡ true
      → t ≡ u) where
  display-prefix : (t : TargetName) → starts_with credential_prefix (display c t) ≡ true
  unfolding display
  display-prefix (TargetName.collection id) = refl
  display-prefix _ = refl

  content-some :
      (o : Option (Wide × Blob)) (v : Blob)
      → content o ≡ some v
      → (name : Wide) × (o ≡ some (name, v))
  content-some none v h = absurd (cc h)
  content-some (some (name, blob)) v h = (name, ap (λ b. some (name, b)) (cc h))

  abbrev asked : WinState W → Result WinError (Option (List (Option Credential)))
  asked s = (api.cred_enumerate (wide (credential_prefix ++ codes "*")) s.system).0

  -- A list comes from the pointers, or from the answer that there is nothing.
  enumerate_result-ok :
      (r : Result WinError (Option (List (Option Credential)))) (l : List (Text × Blob))
      → enumerate_result c api r ≡ ok l
      → ((pointers : List (Option Credential)) × (r ≡ ok (some pointers))
          × (l ≡ listing c api pointers))
        ⊎ ((e : WinError) × (r ≡ err e) × (e.code ≡ api.error_not_found) × (l ≡ []))
  unfolding enumerate_result
  enumerate_result-ok (ok none) l h = absurd (cc h)
  enumerate_result-ok (ok (some pointers)) l h = inl (pointers, refl, sym (ok_injective h))
  enumerate_result-ok (err e) l h = elim (Bool-cases (e.code == api.error_not_found)) [
    | inl p ↦ inr (e, refl, (==_iff _ _).0 p, ground (arith, h, p))
    | inr p ↦ absurd (ground (arith, h, p))
  ]

  name_of_target :
      (n : Wide) (name : Text) (t : TargetName)
      → api.to_string n ≡ some name
      → from_str c name ≡ ok t
      → n ≡ wide_target c t
  unfolding wide_target
  name_of_target n name t e p =
      let same = (display-from_str c f name t p).0 in
      m.wide-to_string n name e (subst (λ x. ascii x ≡ true) same (display-ascii c a t))
      ∙ ap wide (sym same)

  target_of_name : (t : TargetName) → api.to_string (wide_target c t) ≡ some (display c t)
  unfolding wide_target
  target_of_name t = m.to_string-wide (display c t) (display-ascii c a t)

  enumerated :
      (s : WinState W) (l : List (Text × Blob)) (name : Text) (blob : Blob) (t : TargetName)
      → used t
      → IsSpelled c api m used apart s
      → enumerate_result c api (asked s) ≡ ok l
      → In (name, blob) l
      → from_str c name ≡ ok t
      → (v : Blob) × (creds c api m s t ≡ some v) × (blob ≡ shown t v)
  enumerated s l name blob t u g e i p = elim (enumerate_result-ok (asked s) l e) [
    | inr (x, r, missing, empty) ↦ absurd (subst (λ k. In (name, blob) k) empty i)
    | inl (pointers, r, same) ↦
        let (found, at, b) =
          listing_sound c api pointers name blob (subst (λ k. In (name, blob) k) same i) in
        let (v, stored, holds) = m.enumerate_found _ s.system pointers found r at b.generic in
        let own : found.target_name ≡ wide_target c t =
          name_of_target found.target_name name t b.named p in
        (
          v,
          ap content (ap (m.stored s.system) (sym own) ∙ stored),
          b.held
              ∙ ap (λ q. listed_blob c api q found) p
              ∙ listed_blob-shown c api t found
              ∙ ap (shown t) (blob_of-HoldsBlob found v holds),
        )
  ]

  at_display :
      (s : WinState W) (t : TargetName) (name : Wide) (v : Blob)
      → credential c api m s t ≡ some (name, v)
      → m.stored s.system (wide (display c t)) ≡ some (name, v)
  unfolding wide_target
  at_display s t name v e = e

  enumerates_all :
      (s : WinState W) (l : List (Text × Blob)) (t : TargetName) (v : Blob)
      → used t
      → IsSpelled c api m used apart s
      → from_str c (display c t) ≡ ok t
      → enumerate_result c api (asked s) ≡ ok l
      → creds c api m s t ≡ some v
      → (name : Text) × (from_str c name ≡ ok t) × In (name, shown t v) l
  enumerates_all s l t v u g p e q =
      let (spelled, at) = content-some (credential c api m s t) v q in
      elim (enumerate_result-ok (asked s) l e) [
        | inr (x, r, missing, empty) ↦
            let gone =
              m.enumerate_missing credential_prefix (display c t) s.system x r missing
                (display-prefix t) in
            absurd (cc (gone, at_display s t spelled v at))
        | inl (pointers, r, same) ↦
            let (found, here, kind, named, holds) =
              m.enumerate_all credential_prefix (display c t) s.system pointers spelled v r
                (display-prefix t) (at_display s t spelled v at) in
            (
              display c t,
              p,
              subst (λ k. In (display c t, shown t v) k) (sym same)
                  (listing_complete c api pointers found (display c t) (shown t v) here (record {
                    generic = kind;
                    named =
                        ap api.to_string (named ∙ g.spelled t spelled v u at) ∙ target_of_name t;
                    own = display-prefix t;
                    held =
                        ap (shown t) (sym (blob_of-HoldsBlob found v holds))
                        ∙ sym (listed_blob-shown c api t found)
                        ∙ ap (λ q. listed_blob c api q found) (sym p);
                  })),
            )
      ]

  enumerate_lem : (s : WinState W) → (enumerate c api s.system).0 ≡ enumerate_result c api (asked s)
  unfolding enumerate
  enumerate_lem s = refl

  enumerate-keeps :
      (s : WinState W) (n : Wide) → m.stored (enumerate c api s.system).1 n ≡ m.stored s.system n
  unfolding enumerate
  enumerate-keeps s n = m.enumerate_keeps _ s.system n

  -- A state with the same credentials is spelled as well.
  IsSpelled-after :
      (s s' : WinState W)
      → ((n : Wide) → m.stored s'.system n ≡ m.stored s.system n)
      → IsSpelled c api m used apart s
      → IsSpelled c api m used apart s'
  IsSpelled-after s s' same g = record {
    spelled = λ t name blob u e. g.spelled t name blob u (sym (same (wide_target c t)) ∙ e);
  }

  pub wincred_backend-IsLawfulOn :
      IsLawfulOn used c (wincred_backend c api) (IsSpelled c api m used apart)
  wincred_backend-IsLawfulOn = record {
    creds = creds c api m;
    acquire_good = λ s r s' e g. IsSpelled-after s s' (λ n. acquire_lock-Same c api m s r s' n e) g;
    release_good = λ s g. IsSpelled-after s _ (release-Same c api m s) g;
    read_good = λ t s p g. IsSpelled-after s _ (read-keeps c api m t s) g;
    write_good = λ t blob s p g. record {
      spelled = λ u name v q e.
          Written-spelled c api m used apart t u p q blob s _
            (write-Written c api m t blob s.system) g name v e;
    };
    delete_good = λ t s p g. record {
      spelled = λ u name v q e.
          Deleted-spelled c api m used apart t u p q [] s _ (delete-Deleted c api m t s.system) g
            name v e;
    };
    enumerate_good = λ s g. IsSpelled-after s _ (enumerate-keeps s) g;
    acquire_keeps =
        λ s r s' t p e. ap content (acquire_lock-Same c api m s r s' (wide_target c t) e);
    release_keeps = λ s t p. ap content (release-Same c api m s (wide_target c t));
    read_ok = λ t s o p e. read_lem c api m t s o e;
    read_keeps = λ t s u p q. ap content (read-keeps c api m t s (wide_target c u));
    write_ok = λ t blob s u p q e.
        Written-ok c api m used apart t u p q blob s _ (write-Written c api m t blob s.system) e;
    write_err = λ t blob s x u p q e.
        Written-err c api m used apart t u p q blob s _ x (write-Written c api m t blob s.system) e;
    delete_ok = λ t s u p q e.
        Deleted-ok c api m used apart t u p q [] s _ (delete-Deleted c api m t s.system) e;
    delete_err = λ t s x u p q e.
        Deleted-err c api m used apart t u p q [] s _ x (delete-Deleted c api m t s.system) e;
    enumerate_keeps = λ s u p. ap content (enumerate-keeps s (wide_target c u));
    enumerate_sound =
        λ s l name blob t u g e i p. enumerated s l name blob t u g (sym (enumerate_lem s) ∙ e) i p;
    enumerate_complete =
        λ s l t v u g p e q. enumerates_all s l t v u g p (sym (enumerate_lem s) ∙ e) q;
  }
