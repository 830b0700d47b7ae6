-- ===== src/Cli/Payload.antt =====
-- The Linux payload beside the installed tool, in crates/cli/src/main.rs: where it is, and that it is whole.
pub mod Verified
use wincred_libsecret_wsl_pl.Prelude.{
  ℕ, ◌+◌, ◌/◌, ◌%◌, Bool, not, ◌&&◌, ◌||◌, Option, none, some, List, [], ◌∷◌, ◌++◌, Text, codes,
  every, keep, length, leb, ltb, ◌==◌, if◌then◌else◌, Result, ok, err,
}
use wincred_libsecret_wsl_pl.Prelude.Exec.{Exec, pure, raise, match_option, ◌>>=◌, ◌>>◌}
use wincred_libsecret_wsl_pl.Cli.Trim.{trim, lines}
use wincred_libsecret_wsl_pl.Cli.Versions.{normalize_windows_path}
use wincred_libsecret_wsl_pl.Cli.Machine.{
  Machine, look, look_at, ensure, context, equals_ignoring_case,
}
use wincred_libsecret_wsl_pl.Cli.Plugin.{absolute_existing_file, is_named}

abbrev pub linux_payload_manifest : Text
linux_payload_manifest = codes "manifest.sha256"

abbrev pub linux_bootstrap : Text
linux_bootstrap = codes "wincred-libsecret-bootstrap.sh"

-- `split_once` at two spaces.
abbrev pub split_entry : Text → Option (Text × Text)
split_entry [] = none
split_entry (a ∷ []) = none
split_entry (a ∷ b ∷ t) =
    let rest = split_entry (b ∷ t) in
    if a == 32 && b == 32
    then some ([], t)
    else elim rest [ none ↦ none | some (front, back) ↦ some (a ∷ front, back) ]

abbrev pub is_hex_digit : ℕ → Bool
is_hex_digit c = (leb 48 c && leb c 57) || (leb 65 c && leb c 70) || (leb 97 c && leb c 102)

abbrev pub hex_digit : ℕ → ℕ
hex_digit n = if ltb n 10 then 48 + n else 87 + n

abbrev pub to_hex : List ℕ → Text
to_hex [] = []
to_hex (b ∷ bs) = hex_digit (b / 16) ∷ hex_digit (b % 16) ∷ to_hex bs

abbrev pub required_files : List Text
required_files =
    linux_bootstrap
    ∷ codes "wincred-libsecret-provider"
    ∷ codes "org.freedesktop.secrets.service"
    ∷ codes "wincred-libsecret.service"
    ∷ codes "wincred-libsecret-refresh.service"
    ∷ []

module _ {S : Type 0} (y : Machine S) where
  abbrev pub beside_cli : Text → Text → Result Text Text → Text
  beside_cli name fallback (err e) = fallback
  beside_cli name fallback (ok path) = elim (y.parent path) [
    | none ↦ fallback
    | some directory ↦ y.join directory name
  ]

  unfoldable pub default_payload_root : S → Text
  default_payload_root s =
      beside_cli (codes "linux") (codes "C:\\Program Files\\WinCredLibsecret\\linux")
        (y.current_exe s)

  unfoldable pub default_broker_path : S → Text
  default_broker_path s =
      beside_cli (codes "wincred-libsecret-broker.exe")
        (codes "C:\\Program Files\\WinCredLibsecret\\wincred-libsecret-broker.exe")
        (y.current_exe s)

  unfoldable pub absolute_existing_directory : Text → Text → Exec S Text Text
  unfolding normalize_windows_path
  absolute_existing_directory path description = do
    ensure (y.is_absolute path) (description ++ (codes " path must be absolute: " ++ path))
    found ←
        context (description ++ (codes " does not exist: " ++ path)) (look_at (y.canonicalize path))
    let canonical = normalize_windows_path found
    is_dir ← look (y.is_dir canonical)
    ensure is_dir (description ++ (codes " is not a directory: " ++ canonical))
    pure canonical

  unfoldable pub validate_broker : Text → Exec S Text Text
  unfolding absolute_existing_file
  validate_broker path = do
    canonical ← absolute_existing_file y path (codes "broker executable")
    ensure (is_named y (codes "wincred-libsecret-broker.exe") canonical)
        (codes "broker executable must be named wincred-libsecret-broker.exe")
    pure canonical

  -- A line of the manifest: a digest, and the file that has it.
  unfoldable pub verify_file : Text → Text → Text → Exec S Text (Unit {0})
  verify_file root expected relative = do
    ensure (length expected == 64 && every is_hex_digit expected) (codes "invalid payload hash")
    ensure (not (y.is_absolute relative) && not (y.has_parent_or_root relative))
        (codes "payload manifest contains an unsafe path")
    contents ←
        context (codes "payload file is missing: " ++ relative)
          (look_at (y.read_file (y.join root relative)))
    ensure (equals_ignoring_case (to_hex (y.sha256 contents)) expected)
        (codes "payload hash mismatch: " ++ relative)

  unfoldable pub verify_entry : Text → Text → Exec S Text (Unit {0})
  unfolding verify_file
  verify_entry root line =
      match_option (split_entry line) (raise (codes "invalid payload manifest entry"))
        (λ (e : Text × Text). verify_file root e.0 e.1)

  unfoldable pub verify_entries : Text → List Text → Exec S Text (Unit {0})
  unfolding verify_entry
  verify_entries root [] = pure tt
  verify_entries root (line ∷ rest) = do verify_entry root line; verify_entries root rest

  unfoldable pub verify_required : Text → List Text → Exec S Text (Unit {0})
  verify_required root [] = pure tt
  verify_required root (name ∷ names) = do
    is_file ← look (y.is_file (y.join root name))
    ensure is_file (codes "payload is missing " ++ name)
    verify_required root names

  abbrev pub manifest_lines : Text → List Text
  manifest_lines text = keep (λ line. not (length (trim line) == 0)) (lines text)

  unfoldable pub verify_payload : Text → Exec S Text (Unit {0})
  unfolding verify_entries verify_required
  verify_payload root = do
    text ←
        context (codes "payload manifest is missing: " ++ y.join root linux_payload_manifest)
          (look_at (y.read_to_string (y.join root linux_payload_manifest)))
    verify_entries root (manifest_lines text)
    ensure (not (length (manifest_lines text) == 0)) (codes "payload manifest contains no files")
    verify_required root required_files
