-- ===== src/Tests/Room.antt =====
-- A Windows Credential Manager that has room for one credential.
use wincred_libsecret_wsl_pl.Prelude.{
  ℕ, ◌≡◌, refl, sym, ap, inl, inr, Bool, true, false, Option, none, some, List, [], ◌∷◌, map, codes,
  length, text_eq, text_eq_iff, text_eq_refl, if◌then◌else◌, Result, ok, err, arith, Bool-cases, In,
  if-eq_some, some_injective, ltb, ◌-◌, ◌^◌,
}
use wincred_libsecret_wsl_pl.Prelude.{◌↔◌, subst}
use wincred_libsecret_wsl_pl.Prelude.Results.{ok_injective}
use wincred_libsecret_wsl_pl.Protocol.Model.{Blob}
use wincred_libsecret_wsl_pl.Broker.Windows.{Wide, WinError, Credential, WinApi, WaitEvent, wide}
use wincred_libsecret_wsl_pl.Broker.WinCred.{blob_of}
use wincred_libsecret_wsl_pl.Broker.WinCred.Effects.{blob_of-HoldsBlob}
use wincred_libsecret_wsl_pl.Broker.WinCred.Manager.{HoldsBlob, IsManager}
use wincred_libsecret_wsl_pl.Tests.Unary.{read_text, read_text-wide, wide-read_text}

-- The manager's state: the one credential that it has room for.
abbrev pub Room : Type 0
Room = Option (Wide × Blob)

-- Names are compared past a mapping of their units.
module _ (fold : ℕ → ℕ) where
  abbrev pub same_name : Wide → Wide → Bool
  same_name n m = text_eq (map fold n) (map fold m)

  abbrev pub find : Room → Wide → Room
  find none n = none
  find (some (name, blob)) n = if same_name name n then some (name, blob) else none

  abbrev pub as_credential : Wide → Blob → Credential
  as_credential name blob = record {
    kind = 1;
    target_name = name;
    credential_blob_size = length blob;
    credential_blob = some blob;
    persist = 2;
  }

  abbrev pub not_found : WinError
  not_found = record { code = 1168 }

  abbrev pub found : Room → Result WinError (Option Credential)
  found none = err not_found
  found (some (name, blob)) = ok (some (as_credential name blob))

  abbrev pub put : Credential → Room → Result WinError (Unit {0}) × Room
  put credential none = (ok tt, some (credential.target_name, blob_of credential))
  put credential (some (name, blob)) =
      if same_name name credential.target_name
      then (ok tt, some (credential.target_name, blob_of credential))
      else (err (record { code = 8 }), some (name, blob))

  abbrev pub drop_from : Room → Wide → Result WinError (Unit {0}) × Room
  drop_from none n = (err not_found, none)
  drop_from (some (name, blob)) n =
      if same_name name n then (ok tt, none) else (err not_found, some (name, blob))

  abbrev pub all_of : Room → Result WinError (Option (List (Option Credential)))
  all_of none = err not_found
  all_of (some (name, blob)) = ok (some (some (as_credential name blob) ∷ []))

  abbrev pub one_room : WinApi Room
  one_room = record {
    cred_type_generic = 1;
    cred_persist_local_machine = 2;
    error_not_found = 1168;
    error_access_denied = 5;
    to_string = read_text;
    cred_read = λ n kind w. (found (find w n), w);
    cred_write = put;
    cred_delete = λ n kind w. drop_from w n;
    cred_enumerate = λ filter w. (all_of w, w);
    open_process_token = λ w. (ok 7, w);
    token_user_length = λ token w. (44, w);
    token_user = λ token size w. (ok 8, w);
    convert_sid = λ sid w. (ok (wide (codes "S-1-5-18")), w);
    convert_descriptor = λ sddl w. (ok 9, w);
    create_mutex = λ descriptor n w. (ok 10, w);
    wait_for_single_object =
        λ handle time w. if ltb time (2 ^ 32 - 1) then some (WaitEvent.wait_object_0, w) else none;
    release_mutex = λ handle w. w;
    close_handle = λ handle w. w;
  }

  pub same_name_iff : (n m : Wide) → (same_name n m ≡ true) ↔ (map fold n ≡ map fold m)
  same_name_iff n m = text_eq_iff (map fold n) (map fold m)

  pub find_same : (w : Room) (n m : Wide) → same_name n m ≡ true → find w n ≡ find w m
  find_same none n m h = refl
  find_same (some (name, blob)) n m h =
      ap (λ k. if text_eq (map fold name) k then some (name, blob) else none)
        ((same_name_iff n m).0 h)

  HoldsBlob-as_credential : (name : Wide) (blob : Blob) → HoldsBlob (as_credential name blob) blob
  HoldsBlob-as_credential name blob = record { sized = refl; pointed = inr refl }

  pub found_lem :
      (x : Room) (credential : Credential)
      → found x ≡ ok (some credential)
      → (name : Wide) × (blob : Blob) × (x ≡ some (name, blob)) × HoldsBlob credential blob
  found_lem none credential h = absurd (cc h)
  found_lem (some (name, blob)) credential h = (
    name,
    blob,
    refl,
    subst (λ x. HoldsBlob x blob) (some_injective (ok_injective h))
        (HoldsBlob-as_credential name blob),
  )

  pub missing_lem : (x : Room) (e : WinError) → found x ≡ err e → x ≡ none
  missing_lem none e h = refl
  missing_lem (some (name, blob)) e h = absurd (cc h)

  find_self : (name : Wide) (blob : Blob) → find (some (name, blob)) name ≡ some (name, blob)
  find_self name blob = rw (text_eq_refl (map fold name)) refl

  twice :
      (b : Bool) (x y : Room) → (if b then x else none) ≡ (if b then x else if b then y else none)
  twice true x y = refl
  twice false x y = refl

  taken : (b : Bool) (y : Room) → none ≡ (if b then none else if b then y else none)
  taken true y = refl
  taken false y = refl

  pub put-find :
      (credential : Credential) (blob : Blob) (w : Room) (m : Wide)
      → HoldsBlob credential blob
      → (put credential w).0 ≡ ok tt
      → find (put credential w).1 m ≡ (
          if same_name credential.target_name m
          then some (credential.target_name, blob)
          else find w m)
  put-find credential blob none m holds h = rw (blob_of-HoldsBlob credential blob holds) refl
  put-find credential blob (some (name, old)) m holds h =
      elim (Bool-cases (same_name name credential.target_name)) [
        | inl p ↦
            rw
              (
                p,
                (same_name_iff name credential.target_name).0 p,
                blob_of-HoldsBlob credential blob holds,
              )
              (twice (text_eq (map fold credential.target_name) (map fold m)) _ _)
        | inr p ↦ absurd (ground (arith, h, p))
      ]

  pub put-fails :
      (credential : Credential) (w : Room) (e : WinError) (m : Wide)
      → (put credential w).0 ≡ err e
      → find (put credential w).1 m ≡ find w m
  put-fails credential none e m h = absurd (ground (arith, h))
  put-fails credential (some (name, old)) e m h =
      elim (Bool-cases (same_name name credential.target_name)) [
        | inl p ↦ absurd (ground (arith, h, p))
        | inr p ↦ rw p refl
      ]

  pub drop-find :
      (n : Wide) (w : Room) (m : Wide)
      → (drop_from w n).0 ≡ ok tt
      → find (drop_from w n).1 m ≡ (if same_name n m then none else find w m)
  drop-find n none m h = absurd (cc h)
  drop-find n (some (name, old)) m h = elim (Bool-cases (same_name name n)) [
    | inl p ↦ rw (p, (same_name_iff name n).0 p) (taken (text_eq (map fold n) (map fold m)) _)
    | inr p ↦ absurd (ground (arith, h, p))
  ]

  pub drop-fails :
      (n : Wide) (w : Room) (e : WinError) (m : Wide)
      → (drop_from w n).0 ≡ err e
      → (find (drop_from w n).1 m ≡ find w m) × (find w n ≡ none)
  drop-fails n none e m h = (refl, refl)
  drop-fails n (some (name, old)) e m h = elim (Bool-cases (same_name name n)) [
    | inl p ↦ absurd (ground (arith, h, p))
    | inr p ↦ rw p (refl, refl)
  ]

  pub found_all :
      (w : Room) (l : List (Option Credential)) (credential : Credential)
      → all_of w ≡ ok (some l)
      → In (some credential) l
      → (blob : Blob) × (find w credential.target_name ≡ some (credential.target_name, blob))
        × HoldsBlob credential blob
  found_all none l credential h i = absurd (cc h)
  found_all (some (name, blob)) l credential h i =
      elim (subst (λ k. In (some credential) k) (sym (some_injective (ok_injective h))) i) [
        | inl e ↦
            subst
              (λ (x : Credential).
                (b : Blob) × (find (some (name, blob)) x.target_name ≡ some (x.target_name, b))
                × HoldsBlob x b)
              (sym (some_injective e))
              (blob, find_self name blob, HoldsBlob-as_credential name blob)
        | inr later ↦ absurd later
      ]

  pub all_found :
      (w : Room) (l : List (Option Credential)) (n name : Wide) (blob : Blob)
      → all_of w ≡ ok (some l)
      → find w n ≡ some (name, blob)
      → (credential : Credential) × In (some credential) l
        × (credential.kind ≡ 1)
        × (credential.target_name ≡ name)
        × HoldsBlob credential blob
  all_found none l n name blob h e = absurd (cc e)
  all_found (some (own, held)) l n name blob h e =
      let (test, p) = if-eq_some (same_name own n) (some (own, held)) (name, blob) e in
      let both = some_injective p in
      (
        as_credential own held,
        subst (λ k. In (some (as_credential own held)) k) (some_injective (ok_injective h))
            (inl refl),
        refl,
        ap (λ x. x.0) both,
        subst (λ b. HoldsBlob (as_credential own held) b) (ap (λ x. x.1) both)
            (HoldsBlob-as_credential own held),
      )

  pub nothing_found : (w : Room) (e : WinError) (n : Wide) → all_of w ≡ err e → find w n ≡ none
  nothing_found none e n h = refl
  nothing_found (some (name, blob)) e n h = absurd (cc h)

  abbrev pub one_room-IsManager : IsManager one_room
  one_room-IsManager = record {
    stored = find;
    same = same_name;
    same_refl = λ n. text_eq_refl (map fold n);
    stored_same = find_same;
    to_string-wide = read_text-wide;
    wide-to_string = λ n t h a. wide-read_text n t h;
    read_found = λ n w credential h. found_lem (find w n) credential h;
    read_missing = λ n w e h nf. missing_lem (find w n) e h;
    read_keeps = λ n w m. refl;
    write_done = λ credential blob w kind holds h.
        (credential.target_name, inl refl, λ m. put-find credential blob w m holds h);
    write_failed = put-fails;
    delete_done = λ n w m h. drop-find n w m h;
    delete_failed = λ n w e m h. (drop-fails n w e m h).0;
    delete_missing = λ n w e h nf. (drop-fails n w e n h).1;
    enumerate_keeps = λ filter w m. refl;
    enumerate_found = λ filter w l credential h i kind. found_all w l credential h i;
    enumerate_all = λ p t w l name blob h own e. all_found w l (wide t) name blob h e;
    enumerate_missing = λ p t w e h nf own. nothing_found w e (wide t) h;
    open_process_token_keeps = λ w m. refl;
    token_user_length_keeps = λ token w m. refl;
    token_user_keeps = λ token size w m. refl;
    convert_sid_keeps = λ sid w m. refl;
    convert_descriptor_keeps = λ sddl w m. refl;
    create_mutex_keeps = λ descriptor n w m. refl;
    wait_keeps = λ handle time w event w' m h.
        let (test, p) =
          if-eq_some (ltb time (2 ^ 32 - 1)) (some (WaitEvent.wait_object_0, w)) (event, w') h in
        ap (λ x. find x.1 m) (sym (some_injective p));
    release_mutex_keeps = λ handle w m. refl;
    close_handle_keeps = λ handle w m. refl;
  }
