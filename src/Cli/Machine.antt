-- ===== src/Cli/Machine.antt =====
-- What the commands of crates/cli/src/main.rs ask of Windows: the crates `winreg`, `std` and `windows` as the
-- parameter `Machine`, over a state of the system. An error is its text with its contexts, as `{error:#}` prints
-- it; a path is its text.
pub mod Apart
use wincred_libsecret_wsl_pl.Prelude.{
  ℕ, Bool, true, false, Option, List, ◌++◌, Text, codes, Result, ok, err,
}
use wincred_libsecret_wsl_pl.Prelude.Exec.{Exec}
use wincred_libsecret_wsl_pl.Cli.Lifecycle.{CommandResult}
use wincred_libsecret_wsl_pl.Cli.Versions.{to_ascii_lowercase}
use wincred_libsecret_wsl_pl.Prelude.{text_eq}

pub data Hive : Type 0 where
  current_user local_machine : Hive

-- `io::Error` of a registry call: whether its kind is `NotFound`, and its text.
pub record RegistryError : Type 0 where
  pub is_absent : Bool
  pub text : Text

-- Calls that only look are functions of the state. `output` is `Command::output` with the decoding of its streams.
pub record Machine (S : Type 0) : Type 0 where
  pub output : Text → List Text → Exec S Text CommandResult
  pub spawn : Text → List Text → Exec S Text (Unit {0})
  pub print : Text → S → S
  pub process_id : Text
  pub package_version : Text
  pub protocol_version : Text
  pub open_subkey : Hive → Text → S → Result RegistryError (Unit {0})
  pub enum_keys : Hive → Text → S → List (Result Text Text)
  pub get_string : Hive → Text → Text → S → Result RegistryError Text
  pub get_dword : Hive → Text → Text → S → Result RegistryError ℕ
  pub create_subkey : Hive → Text → Exec S RegistryError (Unit {0})
  pub set_string : Hive → Text → Text → Text → Exec S RegistryError (Unit {0})
  pub set_dword : Hive → Text → Text → ℕ → Exec S RegistryError (Unit {0})
  pub delete_value : Hive → Text → Text → Exec S RegistryError (Unit {0})
  pub delete_subkey_all : Hive → Text → Exec S RegistryError (Unit {0})
  pub is_absolute : Text → Bool
  pub is_file : Text → S → Bool
  pub is_dir : Text → S → Bool
  pub canonicalize : Text → S → Result Text Text
  pub read_file : Text → S → Result Text (List ℕ)
  pub read_to_string : Text → S → Result Text Text
  pub file_name : Text → Option Text
  pub parent : Text → Option Text
  pub join : Text → Text → Text
  pub has_parent_or_root : Text → Bool
  pub current_exe : S → Result Text Text
  -- `WinVerifyTrustEx` on a file: the bits of its `i32`.
  pub win_verify_trust : Text → S → ℕ
  pub sha256 : List ℕ → List ℕ

module _ {S : Type 0} where
  -- A look at the state.
  unfoldable pub look : {A : Type 0} → (S → A) → Exec S Text A
  look f s = (ok (f s), s)

  unfoldable pub tell : (S → S) → Exec S Text (Unit {0})
  tell f s = (ok tt, f s)

  -- `ensure!`
  unfoldable pub ensure : Bool → Text → Exec S Text (Unit {0})
  ensure true text s = (ok tt, s)
  ensure false text s = (err text, s)

abbrev pub with_context : Text → Text → Text
with_context context text = context ++ (codes ": " ++ text)

module _ {S A : Type 0} where
  -- `.context(..)?`
  unfoldable pub context : Text → Exec S Text A → Exec S Text A
  context text m s =
      let (r, s') = m s in (elim r [ ok a ↦ ok a | err e ↦ err (with_context text e) ], s')

  unfoldable pub registry : Text → Exec S RegistryError A → Exec S Text A
  registry text m s =
      let (r, s') = m s in (elim r [ ok a ↦ ok a | err e ↦ err (with_context text e.text) ], s')

  -- `?` on a look that may fail.
  unfoldable pub look_at : (S → Result Text A) → Exec S Text A
  look_at f s = (f s, s)

module _ {S : Type 0} (y : Machine S) where
  unfoldable pub run_process : Text → List Text → Exec S Text CommandResult
  run_process program arguments =
      context (codes "could not launch " ++ program) (y.output program arguments)

-- `eq_ignore_ascii_case`
abbrev pub equals_ignoring_case : Text → Text → Bool
equals_ignoring_case a b = text_eq (to_ascii_lowercase a) (to_ascii_lowercase b)
