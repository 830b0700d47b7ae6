-- ===== src/Cli/Plugin.antt =====
-- `plugin install` and `plugin uninstall` of crates/cli/src/main.rs.
pub mod Foreign
use wincred_libsecret_wsl_pl.Prelude.{
  ℕ, ◌==◌, Bool, true, false, not, ◌||◌, Option, none, some, List, [], ◌∷◌, ◌++◌, Text, codes,
  text_eq, if◌then◌else◌, Result, ok, err,
}
use wincred_libsecret_wsl_pl.Prelude.Exec.{Exec, pure, raise, match_result, ◌>>=◌, ◌>>◌}
use wincred_libsecret_wsl_pl.Protocol.Errors.{contains}
use wincred_libsecret_wsl_pl.Cli.Lifecycle.{CommandResult}
use wincred_libsecret_wsl_pl.Cli.Trim.{trim}
use wincred_libsecret_wsl_pl.Cli.Doctor.{display_error}
use wincred_libsecret_wsl_pl.Cli.Versions.{normalize_windows_path, windows_paths_equal}
use wincred_libsecret_wsl_pl.Cli.Machine.{
  local_machine, RegistryError, Machine, look, look_at, tell, ensure, context, registry,
  run_process, with_context, equals_ignoring_case,
}

abbrev pub plugin_registry_path : Text
plugin_registry_path = codes "SOFTWARE\\Microsoft\\Windows\\CurrentVersion\\Lxss\\Plugins"

abbrev pub plugin_value_name : Text
plugin_value_name = codes "wincred-libsecret-wsl-plugin"

abbrev pub plugin_dll_name : Text
plugin_dll_name = codes "wincred-libsecret-wsl-plugin.dll"

pub record PluginInstallArguments : Type 0 where
  pub dll : Text
  pub allow_unsigned : Bool
  pub restart_wslservice : Bool

pub record PluginUninstallArguments : Type 0 where
  pub dll : Option Text
  pub restart_wslservice : Bool

pub data SignatureStatus : Type 0 where
  valid not_valid : SignatureStatus

-- The `Display` of a status.
abbrev pub status_text : SignatureStatus → Text
status_text valid = codes "Valid"
status_text not_valid = codes "not valid"

abbrev pub is_valid : SignatureStatus → Bool
is_valid valid = true
is_valid not_valid = false

unfoldable pub signature_status_from_winverifytrust : ℕ → SignatureStatus
signature_status_from_winverifytrust result = if result == 0 then valid else not_valid

-- `registry_string`, on the outcome of reading the value.
unfoldable pub string_value : Result RegistryError Text → Result Text (Option Text)
string_value (ok value) = ok (some value)
string_value (err e) =
    if e.is_absent
    then ok none
    else err (with_context (codes "registry value is not a readable string") e.text)

module _ {S : Type 0} (y : Machine S) where
  abbrev pub administrator_script : Text
  administrator_script =
      codes
        "$principal = [Security.Principal.WindowsPrincipal] [Security.Principal.WindowsIdentity]::GetCurrent(); $principal.IsInRole([Security.Principal.WindowsBuiltInRole]::Administrator)"

  abbrev pub unknown_elevation : Text
  unknown_elevation = codes "could not determine whether the process is elevated"

  unfoldable pub is_administrator : Exec S Text Bool
  unfolding run_process trim
  is_administrator = do
    result ← context unknown_elevation (
        run_process y (codes "powershell.exe") (
          codes "-NoLogo"
          ∷ codes "-NoProfile"
          ∷ codes "-NonInteractive"
          ∷ codes "-Command"
          ∷ administrator_script
          ∷ []))
    ensure result.success unknown_elevation
    pure (equals_ignoring_case (trim result.stdout) (codes "true"))

  unfoldable pub require_administrator : Exec S Text (Unit {0})
  unfolding is_administrator
  require_administrator = do
    elevated ← is_administrator
    ensure elevated
        (codes "administrator privileges are required. Start an elevated terminal and retry.")

  unfoldable pub require_non_administrator : Text → Exec S Text (Unit {0})
  unfolding is_administrator
  require_non_administrator command = do
    elevated ← is_administrator
    ensure (not elevated) (
        codes "run `wincred-libsecret "
        ++ (command
            ++ codes
                "` from a non-elevated terminal; it performs WSL work before requesting elevation when needed"))

  -- The file's own path, without the prefix of an extended one.
  unfoldable pub absolute_existing_file : Text → Text → Exec S Text Text
  absolute_existing_file path description = do
    ensure (y.is_absolute path) (description ++ (codes " path must be absolute: " ++ path))
    found ←
        context (description ++ (codes " does not exist: " ++ path)) (look_at (y.canonicalize path))
    let canonical = normalize_windows_path found
    is_file ← look (y.is_file canonical)
    ensure is_file (description ++ (codes " is not a file: " ++ canonical))
    pure canonical

  abbrev pub is_named : Text → Text → Bool
  is_named name path = elim (y.file_name path) [
    | none ↦ false
    | some own ↦ equals_ignoring_case own name
  ]

  unfoldable pub validate_plugin_dll : Text → Exec S Text Text
  unfolding absolute_existing_file
  validate_plugin_dll path = do
    canonical ← absolute_existing_file path (codes "plugin DLL")
    ensure (is_named plugin_dll_name canonical)
        (codes "plugin DLL must be named " ++ plugin_dll_name)
    pure canonical

  unfoldable pub restart : Exec S Text (Unit {0})
  unfolding run_process display_error
  restart = do
    stop ← run_process y (codes "sc.exe") (codes "stop" ∷ codes "wslservice" ∷ [])
    ensure (stop.success || contains (codes "1062") stop.stdout)
        (codes "could not stop wslservice: " ++ display_error stop)
    start ← run_process y (codes "sc.exe") (codes "start" ∷ codes "wslservice" ∷ [])
    ensure (start.success || contains (codes "1056") start.stdout)
        (codes "could not start wslservice: " ++ display_error start)
    tell (y.print (codes "Requested a safe wslservice restart."))

  abbrev pub instruction : Text
  instruction =
      codes
        "Restart wslservice (or restart WSL) before opening a new distribution. Re-run with --restart-wslservice to do this now."

  unfoldable pub restart_or_instruct : Bool → Exec S Text (Unit {0})
  unfolding restart
  restart_or_instruct restart_wslservice =
      if restart_wslservice then restart else tell (y.print instruction)

  unfoldable pub plugin_value : Exec S Text (Option Text)
  unfolding string_value
  plugin_value =
      look_at
        λ s. string_value (y.get_string local_machine plugin_registry_path plugin_value_name s)

  abbrev pub set_plugin : Text → Text → Exec S Text (Unit {0})
  set_plugin text dll =
      registry text (y.set_string local_machine plugin_registry_path plugin_value_name dll)

  -- The project's own value, which may be spelled otherwise.
  unfoldable pub keep_registered : Text → Text → Exec S Text (Unit {0})
  keep_registered dll existing = do
    (if text_eq existing dll
        then pure tt
        else set_plugin (codes "could not normalize the WSL plugin DLL value") dll)
    tell (y.print (codes "Plugin is already registered: " ++ dll))

  abbrev pub refused : Text → Text
  refused existing =
      codes "refusing to overwrite "
      ++ (plugin_value_name
          ++ (codes " at "
              ++ (existing ++ codes ". Remove or inspect the existing project value first.")))

  -- The `match existing`.
  unfoldable pub register : Text → Option Text → Exec S Text (Unit {0})
  unfolding keep_registered windows_paths_equal
  register dll none = do
    set_plugin (codes "could not write the WSL plugin DLL value") dll
    tell (y.print (codes "Registered plugin DLL: " ++ dll))
  register dll (some existing) =
      if windows_paths_equal existing dll
      then keep_registered dll existing
      else raise (refused existing)

  unfoldable pub signature_status : Text → S → SignatureStatus
  signature_status path s = signature_status_from_winverifytrust (y.win_verify_trust path s)

  abbrev pub unsigned_dll : SignatureStatus → Text
  unsigned_dll signature =
      codes "DLL signature is "
      ++ (status_text signature
          ++ codes
              "; refuse to register it. Use a signed release or pass --allow-unsigned only for a local development build.")

  unfoldable pub plugin_install : PluginInstallArguments → Exec S Text (Unit {0})
  unfolding signature_status require_administrator validate_plugin_dll plugin_value register
      restart_or_instruct
  plugin_install arguments = do
    require_administrator
    dll ← validate_plugin_dll arguments.dll
    signature ← look (signature_status dll)
    ensure (is_valid signature || arguments.allow_unsigned) (unsigned_dll signature)
    registry (codes "could not open the WSL plugin registry key")
        (y.create_subkey local_machine plugin_registry_path)
    existing ← plugin_value
    register dll existing
    restart_or_instruct arguments.restart_wslservice

  abbrev pub is_expected : Option Text → Text → Bool
  is_expected none value = true
  is_expected (some expected) value = windows_paths_equal value expected

  abbrev pub already_absent : Text
  already_absent = codes "Project plugin registry value is already absent."

  unfoldable pub remove_value : Text → Exec S Text (Unit {0})
  remove_value value = do
    registry (codes "could not remove the project plugin value")
        (y.delete_value local_machine plugin_registry_path plugin_value_name)
    tell (y.print (codes "Removed project plugin registration: " ++ value))

  abbrev pub preserved : Text → Text
  preserved value =
      codes "Preserved plugin registration because it no longer points to this product DLL: "
      ++ value

  -- With the key open: the value is removed, unless it is another product's.
  unfoldable pub unregister : Option Text → Option Text → Exec S Text (Unit {0})
  unfolding windows_paths_equal remove_value
  unregister expected none = tell (y.print already_absent)
  unregister expected (some value) =
      if is_expected expected value then remove_value value else tell (y.print (preserved value))

  abbrev pub not_opened : RegistryError → Exec S Text (Unit {0})
  not_opened e =
      if e.is_absent
      then tell (y.print already_absent)
      else raise (with_context (codes "could not open the WSL plugin registry key") e.text)

  unfoldable pub plugin_uninstall : PluginUninstallArguments → Exec S Text (Unit {0})
  unfolding require_administrator plugin_value unregister restart_or_instruct
  plugin_uninstall arguments = do
    require_administrator
    opened ← look (y.open_subkey local_machine plugin_registry_path)
    match_result opened not_opened (λ _. do value ← plugin_value; unregister arguments.dll value)
    restart_or_instruct arguments.restart_wslservice
