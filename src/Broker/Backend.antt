-- ===== src/Broker/Backend.antt =====
-- `VaultBackend` of crates/broker/src/backend.rs: what the broker needs of a credential store, and
-- what it relies on. Every call may fail.
pub mod Effects
pub mod On
use wincred_libsecret_wsl_pl.Prelude.{
  ◌≡◌, Option, none, some, List, [], Text, In, if◌then◌else◌, Result, ok, err,
}
use wincred_libsecret_wsl_pl.Prelude.Exec.{Exec}
use wincred_libsecret_wsl_pl.Protocol.Errors.{BrokerError}
use wincred_libsecret_wsl_pl.Protocol.Model.{Blob}
use wincred_libsecret_wsl_pl.Protocol.Target.{display, Crates, TargetName, target_eq, from_str}

abbrev pub Action : Type 0 → Type 0 → Type 0
Action S A = Exec S BrokerError A

-- `acquire_lock` is `none` where the call waits for as long as no other process acts; `release` is
-- the drop of the guard.
pub record VaultBackend (S : Type 0) : Type 0 where
  pub acquire_lock : S → Option (Result BrokerError (Unit {0}) × S)
  pub release : S → S
  pub read : TargetName → Action S (Option Blob)
  pub write : TargetName → Blob → Action S (Unit {0})
  pub delete : TargetName → Action S (Unit {0})
  pub enumerate : Action S (List (Text × Blob))

-- An enumeration leaves the blob of a secret out.
abbrev pub shown : TargetName → Blob → Blob
shown (TargetName.item_secret id generation) blob = []
shown _ blob = blob

-- The store as a function from targets, and what each call does to it. `good` holds of a store
-- between calls.
pub record IsLawful (c : Crates) {S : Type 0} (b : VaultBackend S) (good : S → Type 0)
    : Type 0 where
  pub creds : S → TargetName → Option Blob
  pub acquire_good :
      (s : S) (r : Result BrokerError (Unit {0})) (s' : S)
      → b.acquire_lock s ≡ some (r, s')
      → good s
      → good s'
  pub release_good : (s : S) → good s → good (b.release s)
  pub read_good : (t : TargetName) (s : S) → good s → good (b.read t s).1
  pub write_good : (t : TargetName) (blob : Blob) (s : S) → good s → good (b.write t blob s).1
  pub delete_good : (t : TargetName) (s : S) → good s → good (b.delete t s).1
  pub enumerate_good : (s : S) → good s → good (b.enumerate s).1
  pub acquire_keeps :
      (s : S) (r : Result BrokerError (Unit {0})) (s' : S) (t : TargetName)
      → b.acquire_lock s ≡ some (r, s')
      → creds s' t ≡ creds s t
  pub release_keeps : (s : S) (t : TargetName) → creds (b.release s) t ≡ creds s t
  pub read_ok : (t : TargetName) (s : S) (o : Option Blob) → (b.read t s).0 ≡ ok o → o ≡ creds s t
  pub read_keeps : (t : TargetName) (s : S) (u : TargetName) → creds (b.read t s).1 u ≡ creds s u
  pub write_ok :
      (t : TargetName) (blob : Blob) (s : S) (u : TargetName)
      → (b.write t blob s).0 ≡ ok tt
      → creds (b.write t blob s).1 u ≡ (if target_eq t u then some blob else creds s u)
  pub write_err :
      (t : TargetName) (blob : Blob) (s : S) (e : BrokerError) (u : TargetName)
      → (b.write t blob s).0 ≡ err e
      → creds (b.write t blob s).1 u ≡ creds s u
  pub delete_ok :
      (t : TargetName) (s : S) (u : TargetName)
      → (b.delete t s).0 ≡ ok tt
      → creds (b.delete t s).1 u ≡ (if target_eq t u then none else creds s u)
  pub delete_err :
      (t : TargetName) (s : S) (e : BrokerError) (u : TargetName)
      → (b.delete t s).0 ≡ err e
      → creds (b.delete t s).1 u ≡ creds s u
  pub enumerate_keeps : (s : S) (u : TargetName) → creds (b.enumerate s).1 u ≡ creds s u
  -- Only stored credentials are listed, and all with a valid name are. Other names may be listed too.
  pub enumerate_sound :
      (s : S) (l : List (Text × Blob)) (name : Text) (blob : Blob) (t : TargetName)
      → good s
      → (b.enumerate s).0 ≡ ok l
      → In (name, blob) l
      → from_str c name ≡ ok t
      → (stored : Blob) × (creds s t ≡ some stored) × (blob ≡ shown t stored)
  pub enumerate_complete :
      (s : S) (l : List (Text × Blob)) (t : TargetName) (stored : Blob)
      → good s
      → from_str c (display c t) ≡ ok t
      → (b.enumerate s).0 ≡ ok l
      → creds s t ≡ some stored
      → (name : Text) × (from_str c name ≡ ok t) × In (name, shown t stored) l
