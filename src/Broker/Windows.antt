-- ===== src/Broker/Windows.antt =====
-- The calls of Windows that crates/broker/src/wincred.rs makes, as the parameter WinApi, and texts in UTF-16.
use wincred_libsecret_wsl_pl.Prelude.{
  ℕ, ◌+◌, ◌-◌, ◌*◌, ◌/◌, ◌%◌, Option, List, [], ◌∷◌, ◌++◌, Text, ltb, if◌then◌else◌,
}
use wincred_libsecret_wsl_pl.Prelude.Exec.{Exec}
use wincred_libsecret_wsl_pl.Protocol.Model.{Blob}

-- UTF-16 code units.
abbrev pub Wide : Type 0
Wide = List ℕ

pub record WinError : Type 0 where
  pub code : ℕ

-- The fields of `CREDENTIALW` that the source uses.
pub record Credential : Type 0 where
  pub kind : ℕ
  pub target_name : Wide
  pub credential_blob_size : ℕ
  pub credential_blob : Option Blob
  pub persist : ℕ

pub data WaitEvent : Type 0 where
  wait_object_0 wait_abandoned wait_timeout other_event : WaitEvent

-- Handles and addresses are numbers. The two error codes are the `HRESULT`s of the Win32 errors.
pub record WinApi (W : Type 0) : Type 0 where
  pub cred_type_generic : ℕ
  pub cred_persist_local_machine : ℕ
  pub error_not_found : ℕ
  pub error_access_denied : ℕ
  pub to_string : Wide → Option Text
  pub cred_read : Wide → ℕ → Exec W WinError (Option Credential)
  pub cred_write : Credential → Exec W WinError (Unit {0})
  pub cred_delete : Wide → ℕ → Exec W WinError (Unit {0})
  pub cred_enumerate : Wide → Exec W WinError (Option (List (Option Credential)))
  pub open_process_token : Exec W WinError ℕ
  pub token_user_length : ℕ → W → ℕ × W
  pub token_user : ℕ → ℕ → Exec W WinError ℕ
  pub convert_sid : ℕ → Exec W WinError Wide
  pub convert_descriptor : Wide → Exec W WinError ℕ
  pub create_mutex : ℕ → Wide → Exec W WinError ℕ
  -- `none` where the call waits for ever.
  pub wait_for_single_object : ℕ → ℕ → W → Option (WaitEvent × W)
  pub release_mutex : ℕ → W → W
  pub close_handle : ℕ → W → W

-- A code point past the basic plane is a pair of surrogates.
abbrev surrogates : ℕ → Wide
surrogates p = (0xd800 + (p - 0x10000) / 1024) ∷ (0xdc00 + p % 1024) ∷ []

-- `str::encode_utf16`, by the leading bytes of well-formed UTF-8; the last clauses are not reached by it.
unfoldable pub encode_utf16 : Text → Wide
encode_utf16 [] = []
encode_utf16 (a ∷ []) = a ∷ []
encode_utf16 (a ∷ b ∷ []) =
    let one = encode_utf16 (b ∷ []) in
    if ltb a 128 then a ∷ one else ((a - 192) * 64 + (b - 128)) ∷ []
encode_utf16 (a ∷ b ∷ c ∷ []) =
    let one = encode_utf16 (b ∷ c ∷ []) in
    let two = encode_utf16 (c ∷ []) in
    if ltb a 128
    then a ∷ one
    else if ltb a 224
    then ((a - 192) * 64 + (b - 128)) ∷ two
    else ((a - 224) * 4096 + (b - 128) * 64 + (c - 128)) ∷ []
encode_utf16 (a ∷ b ∷ c ∷ d ∷ t) =
    let one = encode_utf16 (b ∷ c ∷ d ∷ t) in
    let two = encode_utf16 (c ∷ d ∷ t) in
    let three = encode_utf16 (d ∷ t) in
    let four = encode_utf16 t in
    if ltb a 128
    then a ∷ one
    else if ltb a 224
    then ((a - 192) * 64 + (b - 128)) ∷ two
    else if ltb a 240
    then ((a - 224) * 4096 + (b - 128) * 64 + (c - 128)) ∷ three
    else surrogates ((a - 240) * 262144 + (b - 128) * 4096 + (c - 128) * 64 + (d - 128)) ++ four

unfoldable pub wide : Text → Wide
wide value = encode_utf16 value ++ (0 ∷ [])
