-- ===== src/Broker/Backend/On.antt =====
-- The laws of `VaultBackend` of crates/broker/src/backend.rs on some of the targets: a vault that uses no others.
use wincred_libsecret_wsl_pl.Prelude.{
  ◌≡◌, Option, none, some, List, Text, In, if◌then◌else◌, Result, ok, err,
}
use wincred_libsecret_wsl_pl.Protocol.Errors.{BrokerError}
use wincred_libsecret_wsl_pl.Protocol.Model.{Blob}
use wincred_libsecret_wsl_pl.Protocol.Target.{display, Crates, TargetName, target_eq, from_str}
use wincred_libsecret_wsl_pl.Broker.Backend.{VaultBackend, shown, IsLawful}

-- As `IsLawful`, for the targets that are `used`.
pub record IsLawfulOn (used : TargetName → Type 0) (c : Crates) {S : Type 0} (b : VaultBackend S)
    (good : S → Type 0) : Type 0 where
  pub creds : S → TargetName → Option Blob
  pub acquire_good :
      (s : S) (r : Result BrokerError (Unit {0})) (s' : S)
      → b.acquire_lock s ≡ some (r, s')
      → good s
      → good s'
  pub release_good : (s : S) → good s → good (b.release s)
  pub read_good : (t : TargetName) (s : S) → used t → good s → good (b.read t s).1
  pub write_good :
      (t : TargetName) (blob : Blob) (s : S) → used t → good s → good (b.write t blob s).1
  pub delete_good : (t : TargetName) (s : S) → used t → good s → good (b.delete t s).1
  pub enumerate_good : (s : S) → good s → good (b.enumerate s).1
  pub acquire_keeps :
      (s : S) (r : Result BrokerError (Unit {0})) (s' : S) (t : TargetName)
      → used t
      → b.acquire_lock s ≡ some (r, s')
      → creds s' t ≡ creds s t
  pub release_keeps : (s : S) (t : TargetName) → used t → creds (b.release s) t ≡ creds s t
  pub read_ok :
      (t : TargetName) (s : S) (o : Option Blob) → used t → (b.read t s).0 ≡ ok o → o ≡ creds s t
  pub read_keeps :
      (t : TargetName) (s : S) (u : TargetName)
      → used t
      → used u
      → creds (b.read t s).1 u ≡ creds s u
  pub write_ok :
      (t : TargetName) (blob : Blob) (s : S) (u : TargetName)
      → used t
      → used u
      → (b.write t blob s).0 ≡ ok tt
      → creds (b.write t blob s).1 u ≡ (if target_eq t u then some blob else creds s u)
  pub write_err :
      (t : TargetName) (blob : Blob) (s : S) (e : BrokerError) (u : TargetName)
      → used t
      → used u
      → (b.write t blob s).0 ≡ err e
      → creds (b.write t blob s).1 u ≡ creds s u
  pub delete_ok :
      (t : TargetName) (s : S) (u : TargetName)
      → used t
      → used u
      → (b.delete t s).0 ≡ ok tt
      → creds (b.delete t s).1 u ≡ (if target_eq t u then none else creds s u)
  pub delete_err :
      (t : TargetName) (s : S) (e : BrokerError) (u : TargetName)
      → used t
      → used u
      → (b.delete t s).0 ≡ err e
      → creds (b.delete t s).1 u ≡ creds s u
  pub enumerate_keeps : (s : S) (u : TargetName) → used u → creds (b.enumerate s).1 u ≡ creds s u
  -- Only stored credentials are listed, and all with a valid name are. Other names may be listed too.
  pub enumerate_sound :
      (s : S) (l : List (Text × Blob)) (name : Text) (blob : Blob) (t : TargetName)
      → used t
      → good s
      → (b.enumerate s).0 ≡ ok l
      → In (name, blob) l
      → from_str c name ≡ ok t
      → (stored : Blob) × (creds s t ≡ some stored) × (blob ≡ shown t stored)
  pub enumerate_complete :
      (s : S) (l : List (Text × Blob)) (t : TargetName) (stored : Blob)
      → used t
      → good s
      → from_str c (display c t) ≡ ok t
      → (b.enumerate s).0 ≡ ok l
      → creds s t ≡ some stored
      → (name : Text) × (from_str c name ≡ ok t) × In (name, shown t stored) l

-- On all targets they are the laws of the backend.
IsLawfulOn-IsLawful :
    (c : Crates) {S : Type 0} (b : VaultBackend S) (good : S → Type 0)
    → IsLawfulOn (λ _. Unit {0}) c b good
    → IsLawful c b good
IsLawfulOn-IsLawful c b good l = record {
  creds = l.creds;
  acquire_good = l.acquire_good;
  release_good = l.release_good;
  read_good = λ t s. l.read_good t s tt;
  write_good = λ t blob s. l.write_good t blob s tt;
  delete_good = λ t s. l.delete_good t s tt;
  enumerate_good = l.enumerate_good;
  acquire_keeps = λ s r s' t. l.acquire_keeps s r s' t tt;
  release_keeps = λ s t. l.release_keeps s t tt;
  read_ok = λ t s o. l.read_ok t s o tt;
  read_keeps = λ t s u. l.read_keeps t s u tt tt;
  write_ok = λ t blob s u. l.write_ok t blob s u tt tt;
  write_err = λ t blob s e u. l.write_err t blob s e u tt tt;
  delete_ok = λ t s u. l.delete_ok t s u tt tt;
  delete_err = λ t s e u. l.delete_err t s e u tt tt;
  enumerate_keeps = λ s u. l.enumerate_keeps s u tt;
  enumerate_sound = λ s l' name blob t. l.enumerate_sound s l' name blob t tt;
  enumerate_complete = λ s l' t stored. l.enumerate_complete s l' t stored tt;
}
