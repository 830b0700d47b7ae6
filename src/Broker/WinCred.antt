-- ===== src/Broker/WinCred.antt =====
-- `WinCredBackend` of crates/broker/src/wincred.rs, the store of the broker on Windows. The API calls of the
-- `windows` crate are the parameter `WinApi`, over a state of the system; a pointer that may be null is
-- an `Option`. That memory is freed and wiped changes no result and is left out.
pub mod Manager
pub mod Lock
pub mod Held
pub mod Effects
pub mod Listing
pub mod Lawful
pub mod Names
pub mod Case
use wincred_libsecret_wsl_pl.Prelude.{
  ℕ, zero, suc, ◌+◌, ◌-◌, ◌*◌, ◌/◌, ◌%◌, ◌^◌, Bool, true, false, not, Option, none, some, List, [],
  ◌∷◌, ◌++◌, Text, codes, length, ltb, ◌==◌, if◌then◌else◌, Result, ok, err,
}
use wincred_libsecret_wsl_pl.Prelude.Results.{map_err}
use wincred_libsecret_wsl_pl.Prelude.Exec.{
  Exec, pure, raise, lift, match_option, match_result, outcome, ◌>>=◌, ◌>>◌,
}
use wincred_libsecret_wsl_pl.Protocol.Errors.{ErrorCode, BrokerError, broker_error, starts_with}
use wincred_libsecret_wsl_pl.Protocol.Model.{Blob}
use wincred_libsecret_wsl_pl.Protocol.Target.{
  Crates, TargetName, TargetParseError, credential_prefix, display, from_str,
}
use wincred_libsecret_wsl_pl.Broker.Windows.{
  Wide, WinError, Credential, WaitEvent, WinApi, wide, wait_object_0, wait_abandoned, wait_timeout,
  other_event,
}
use wincred_libsecret_wsl_pl.Broker.Backend.{VaultBackend}

abbrev pub lock_wait_milliseconds : ℕ
lock_wait_milliseconds = 5000

abbrev pub mutex_prefix : Text
mutex_prefix = codes "Global\\WinCredLibSecret-v1-"

unfoldable pub mutex_name : Text → Text
mutex_name sid = mutex_prefix ++ sid

unfoldable pub mutex_sddl : Text → Text
mutex_sddl sid = codes "D:(A;;GA;;;SY)(A;;GA;;;BA)(A;;GA;;;" ++ (sid ++ codes ")")

unfoldable pub wide_target : Crates → TargetName → Wide
wide_target c target = wide (display c target)

abbrev pub take : ℕ → Blob → Blob
take zero bytes = []
take (suc n) [] = []
take (suc n) (b ∷ bytes) = b ∷ take n bytes

unfoldable pub blob_of : Credential → Blob
blob_of credential =
    if credential.credential_blob_size == 0 then [] else elim credential.credential_blob [
      | none ↦ []
      | some bytes ↦ take credential.credential_blob_size bytes
    ]

abbrev pub push : {A : Type 0} → Option A → List A → List A
push none l = l
push (some a) l = a ∷ l

abbrev pub unavailable : Text → BrokerError
unavailable text = broker_error ErrorCode.backend_unavailable text

-- The state with the guard that the broker holds, if it does.
pub record WinState (W : Type 0) : Type 0 where
  pub system : W
  pub guard : Option ℕ

abbrev pub on_system : {W A : Type 0} → Exec W BrokerError A → Exec (WinState W) BrokerError A
on_system m s = let (r, w) = m s.system in (r, record s { system = w })

module _ (c : Crates) {W : Type 0} (api : WinApi W) where
  abbrev pub is_not_found : WinError → Bool
  is_not_found error = error.code == api.error_not_found

  unfoldable pub map_windows_error : WinError → BrokerError
  map_windows_error error =
      let code : ErrorCode =
        (if error.code == api.error_access_denied
          then ErrorCode.permission_denied
          else ErrorCode.backend_unavailable) in
      broker_error code (codes "Windows Credential Manager operation failed")

  unfoldable pub windows : {A : Type 0} → Exec W WinError A → Exec W BrokerError A
  unfolding map_windows_error
  windows m w = let (r, w') = m w in (map_err map_windows_error r, w')

  abbrev pub measure : {A : Type 0} → (W → A × W) → Exec W BrokerError A
  measure f w = let (a, w') = f w in (ok a, w')

  -- The drop of an `OwnedHandle` at the end of its scope.
  unfoldable pub closing : {A : Type 0} → ℕ → Exec W BrokerError A → Exec W BrokerError A
  closing handle m w = let (r, w') = m w in (r, api.close_handle handle w')

  abbrev pub no_sid : BrokerError
  no_sid = unavailable (codes "current user SID unavailable")

  -- With the token of the process.
  unfoldable pub sid_of_token : ℕ → Exec W BrokerError Text
  sid_of_token token = do
    size ← measure (api.token_user_length token)
    if size == 0 then raise no_sid else do
      user ← windows (api.token_user token size)
      sid ← windows (api.convert_sid user)
      match_option (api.to_string sid) (raise no_sid) pure

  unfoldable pub current_user_sid : Exec W BrokerError Text
  unfolding sid_of_token
  current_user_sid = do token ← windows api.open_process_token; closing token (sid_of_token token)

  -- The `match` on the outcome of the wait, with the handle of the mutex.
  unfoldable pub waited : ℕ → WaitEvent → Exec W BrokerError ℕ
  unfolding closing
  waited handle wait_object_0 = pure handle
  waited handle wait_abandoned = pure handle
  waited handle wait_timeout =
      closing handle (raise (broker_error ErrorCode.conflict (codes "credential vault is busy")))
  waited handle other_event =
      closing handle (raise (unavailable (codes "credential vault lock failed")))

  -- The mutex of the user, which other processes may hold.
  unfoldable pub create_user_mutex : Exec W BrokerError ℕ
  unfolding current_user_sid mutex_sddl mutex_name
  create_user_mutex = do
    sid ← current_user_sid
    descriptor ← windows (api.convert_descriptor (wide (mutex_sddl sid)))
    windows (api.create_mutex descriptor (wide (mutex_name sid)))

  -- The wait for the mutex of a handle: `none` where it does not end.
  unfoldable pub wait_for_mutex : Result BrokerError ℕ → W → Option (Result BrokerError ℕ × W)
  unfolding waited
  wait_for_mutex (err e) w = some (err e, w)
  wait_for_mutex (ok handle) w = elim (api.wait_for_single_object handle lock_wait_milliseconds w) [
    | none ↦ none
    | some (event, w') ↦ some (waited handle event w')
  ]

  unfoldable pub take_mutex : W → Option (Result BrokerError ℕ × W)
  unfolding create_user_mutex wait_for_mutex
  take_mutex w = let (r, w') = create_user_mutex w in wait_for_mutex r w'

  abbrev pub guarded :
      Result BrokerError ℕ → W → WinState W → Result BrokerError (Unit {0}) × WinState W
  guarded (ok handle) w s = (ok tt, record s { system = w; guard = some handle })
  guarded (err e) w s = (err e, record s { system = w })

  unfoldable pub acquire_lock : WinState W → Option (Result BrokerError (Unit {0}) × WinState W)
  unfolding take_mutex
  acquire_lock s = elim (take_mutex s.system) [ none ↦ none | some (r, w) ↦ some (guarded r w s) ]

  -- The drop of the guard: of the mutex, and then of its handle.
  unfoldable pub release : WinState W → WinState W
  release s = elim s.guard [
    | none ↦ s
    | some handle ↦ record {
      system = api.close_handle handle (api.release_mutex handle s.system);
      guard = none;
    }
  ]

  unfoldable pub read_result :
      Result WinError (Option Credential) → Result BrokerError (Option Blob)
  unfolding blob_of map_windows_error
  read_result (ok none) =
      err (unavailable (codes "credential manager returned an empty credential"))
  read_result (ok (some credential)) = ok (some (blob_of credential))
  read_result (err e) = if is_not_found e then ok none else err (map_windows_error e)

  unfoldable pub read : TargetName → Exec W BrokerError (Option Blob)
  unfolding read_result
  read target w =
      let (r, w') = api.cred_read (wide_target c target) api.cred_type_generic w in
      (read_result r, w')

  abbrev pub generic_credential : TargetName → Blob → Credential
  generic_credential target blob = record {
    kind = api.cred_type_generic;
    target_name = wide_target c target;
    credential_blob_size = length blob;
    credential_blob = some blob;
    persist = api.cred_persist_local_machine;
  }

  unfoldable pub write : TargetName → Blob → Exec W BrokerError (Unit {0})
  unfolding windows
  write target blob =
      if ltb (length blob) (2 ^ 32)
      then windows (api.cred_write (generic_credential target blob))
      else raise
          (broker_error ErrorCode.secret_too_large (codes "credential blob exceeds WinCred limit"))

  unfoldable pub delete_result : Result WinError (Unit {0}) → Result BrokerError (Unit {0})
  unfolding map_windows_error
  delete_result (ok _) = ok tt
  delete_result (err e) = if is_not_found e then ok tt else err (map_windows_error e)

  unfoldable pub delete : TargetName → Exec W BrokerError (Unit {0})
  unfolding delete_result
  delete target w =
      let (r, w') = api.cred_delete (wide_target c target) api.cred_type_generic w in
      (delete_result r, w')

  -- The `matches!` on the parsed name.
  abbrev pub listed_blob : Result TargetParseError TargetName → Credential → Blob
  listed_blob (ok (TargetName.item_secret id generation)) credential = []
  listed_blob _ credential = blob_of credential

  abbrev pub listed_name : Text → Credential → Option (Text × Blob)
  listed_name name credential =
      if starts_with credential_prefix name
      then some (name, listed_blob (from_str c name) credential)
      else none

  -- One round of the loop over the pointers: what it pushes, if it does not `continue`.
  unfoldable pub listed : Option Credential → Option (Text × Blob)
  unfolding blob_of
  listed none = none
  listed (some credential) =
      if not (credential.kind == api.cred_type_generic)
      then none
      else elim (api.to_string credential.target_name) [
        | none ↦ none
        | some name ↦ listed_name name credential
      ]

  unfoldable pub listing : List (Option Credential) → List (Text × Blob)
  unfolding listed
  listing [] = []
  listing (pointer ∷ pointers) = push (listed pointer) (listing pointers)

  unfoldable pub enumerate_result :
      Result WinError (Option (List (Option Credential))) → Result BrokerError (List (Text × Blob))
  unfolding listing map_windows_error
  enumerate_result (ok none) =
      err (unavailable (codes "credential manager returned an empty enumeration"))
  enumerate_result (ok (some pointers)) = ok (listing pointers)
  enumerate_result (err e) = if is_not_found e then ok [] else err (map_windows_error e)

  unfoldable pub enumerate : Exec W BrokerError (List (Text × Blob))
  unfolding enumerate_result
  enumerate w =
      let (r, w') = api.cred_enumerate (wide (credential_prefix ++ codes "*")) w in
      (enumerate_result r, w')

  abbrev pub wincred_backend : VaultBackend (WinState W)
  wincred_backend = record {
    acquire_lock = acquire_lock;
    release = release;
    read = λ target. on_system (read target);
    write = λ target blob. on_system (write target blob);
    delete = λ target. on_system (delete target);
    enumerate = on_system enumerate;
  }
