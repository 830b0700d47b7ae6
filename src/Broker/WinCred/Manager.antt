-- ===== src/Broker/WinCred/Manager.antt =====
-- What crates/broker/src/wincred.rs relies on of the Windows Credential Manager: a store of credentials by
-- name, where names that differ in case only are the same, and a name keeps the case it was created with.
use wincred_libsecret_wsl_pl.Prelude.{
  ℕ, ◌≡◌, ◌⊎◌, Bool, true, ◌&&◌, Option, none, some, List, [], ◌++◌, Text, codes, every, In, leb,
  ltb, length, if◌then◌else◌, ok, err,
}
use wincred_libsecret_wsl_pl.Protocol.Errors.{starts_with}
use wincred_libsecret_wsl_pl.Protocol.Model.{Blob, Uuid}
use wincred_libsecret_wsl_pl.Protocol.Target.{Crates}
use wincred_libsecret_wsl_pl.Broker.Windows.{Wide, WinError, Credential, WinApi, WaitEvent, wide}

-- ASCII, with no NUL.
abbrev pub ascii : Text → Bool
ascii text = every (λ b. leb 1 b && ltb b 128) text

-- The alphabets of identifiers and of base64.
pub record IsAscii (c : Crates) : Type 0 where
  pub hyphenated_ascii : (u : Uuid) → ascii (c.hyphenated u) ≡ true
  pub base64_ascii : (b : List ℕ) → ascii (c.base64_encode b) ≡ true

-- A size, and a pointer to that many bytes where there are any.
pub record HoldsBlob (credential : Credential) (blob : Blob) : Type 0 where
  pub sized : credential.credential_blob_size ≡ length blob
  pub pointed : (blob ≡ []) ⊎ (credential.credential_blob ≡ some blob)

pub record IsManager {W : Type 0} (api : WinApi W) : Type 0 where
  -- The generic credential that a name finds: its name as it was created, and its blob.
  pub stored : W → Wide → Option (Wide × Blob)
  pub same : Wide → Wide → Bool
  pub same_refl : (n : Wide) → same n n ≡ true
  pub stored_same : (w : W) (n m : Wide) → same n m ≡ true → stored w n ≡ stored w m
  pub to_string-wide : (t : Text) → ascii t ≡ true → api.to_string (wide t) ≡ some t
  pub wide-to_string :
      (n : Wide) (t : Text) → api.to_string n ≡ some t → ascii t ≡ true → n ≡ wide t
  pub read_found :
      (n : Wide) (w : W) (credential : Credential)
      → (api.cred_read n api.cred_type_generic w).0 ≡ ok (some credential)
      → (name : Wide) × (blob : Blob) × (stored w n ≡ some (name, blob)) × HoldsBlob credential blob
  pub read_missing :
      (n : Wide) (w : W) (e : WinError)
      → (api.cred_read n api.cred_type_generic w).0 ≡ err e
      → e.code ≡ api.error_not_found
      → stored w n ≡ none
  pub read_keeps :
      (n : Wide) (w : W) (m : Wide)
      → stored (api.cred_read n api.cred_type_generic w).1 m ≡ stored w m
  pub write_done :
      (credential : Credential) (blob : Blob) (w : W)
      → credential.kind ≡ api.cred_type_generic
      → HoldsBlob credential blob
      → (api.cred_write credential w).0 ≡ ok tt
      → (name : Wide) × ((name ≡ credential.target_name)
          ⊎ ((old : Blob) × (stored w credential.target_name ≡ some (name, old))))
        × ((m : Wide)
            → stored (api.cred_write credential w).1 m
              ≡ (if same credential.target_name m then some (name, blob) else stored w m))
  pub write_failed :
      (credential : Credential) (w : W) (e : WinError) (m : Wide)
      → (api.cred_write credential w).0 ≡ err e
      → stored (api.cred_write credential w).1 m ≡ stored w m
  pub delete_done :
      (n : Wide) (w : W) (m : Wide)
      → (api.cred_delete n api.cred_type_generic w).0 ≡ ok tt
      → stored (api.cred_delete n api.cred_type_generic w).1 m
        ≡ (if same n m then none else stored w m)
  pub delete_failed :
      (n : Wide) (w : W) (e : WinError) (m : Wide)
      → (api.cred_delete n api.cred_type_generic w).0 ≡ err e
      → stored (api.cred_delete n api.cred_type_generic w).1 m ≡ stored w m
  pub delete_missing :
      (n : Wide) (w : W) (e : WinError)
      → (api.cred_delete n api.cred_type_generic w).0 ≡ err e
      → e.code ≡ api.error_not_found
      → stored w n ≡ none
  pub enumerate_keeps :
      (filter : Wide) (w : W) (m : Wide) → stored (api.cred_enumerate filter w).1 m ≡ stored w m
  pub enumerate_found :
      (filter : Wide) (w : W) (l : List (Option Credential)) (credential : Credential)
      → (api.cred_enumerate filter w).0 ≡ ok (some l)
      → In (some credential) l
      → credential.kind ≡ api.cred_type_generic
      → (blob : Blob) × (stored w credential.target_name ≡ some (credential.target_name, blob))
        × HoldsBlob credential blob
  -- A filter that ends in a star lists every credential whose name starts with the rest of it.
  pub enumerate_all :
      (p t : Text) (w : W) (l : List (Option Credential)) (name : Wide) (blob : Blob)
      → (api.cred_enumerate (wide (p ++ codes "*")) w).0 ≡ ok (some l)
      → starts_with p t ≡ true
      → stored w (wide t) ≡ some (name, blob)
      → (credential : Credential) × In (some credential) l
        × (credential.kind ≡ api.cred_type_generic)
        × (credential.target_name ≡ name)
        × HoldsBlob credential blob
  pub enumerate_missing :
      (p t : Text) (w : W) (e : WinError)
      → (api.cred_enumerate (wide (p ++ codes "*")) w).0 ≡ err e
      → e.code ≡ api.error_not_found
      → starts_with p t ≡ true
      → stored w (wide t) ≡ none
  -- Tokens, mutexes and handles are apart from the credentials.
  pub open_process_token_keeps :
      (w : W) (m : Wide) → stored (api.open_process_token w).1 m ≡ stored w m
  pub token_user_length_keeps :
      (token : ℕ) (w : W) (m : Wide) → stored (api.token_user_length token w).1 m ≡ stored w m
  pub token_user_keeps :
      (token size : ℕ) (w : W) (m : Wide) → stored (api.token_user token size w).1 m ≡ stored w m
  pub convert_sid_keeps :
      (sid : ℕ) (w : W) (m : Wide) → stored (api.convert_sid sid w).1 m ≡ stored w m
  pub convert_descriptor_keeps :
      (sddl : Wide) (w : W) (m : Wide) → stored (api.convert_descriptor sddl w).1 m ≡ stored w m
  pub create_mutex_keeps :
      (descriptor : ℕ) (n : Wide) (w : W) (m : Wide)
      → stored (api.create_mutex descriptor n w).1 m ≡ stored w m
  pub wait_keeps :
      (handle time : ℕ) (w : W) (event : WaitEvent) (w' : W) (m : Wide)
      → api.wait_for_single_object handle time w ≡ some (event, w')
      → stored w' m ≡ stored w m
  pub release_mutex_keeps :
      (handle : ℕ) (w : W) (m : Wide) → stored (api.release_mutex handle w) m ≡ stored w m
  pub close_handle_keeps :
      (handle : ℕ) (w : W) (m : Wide) → stored (api.close_handle handle w) m ≡ stored w m
