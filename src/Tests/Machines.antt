-- ===== src/Tests/Machines.antt =====
-- Runs of the management tool's commands on a small system.
use wincred_libsecret_wsl_pl.Prelude.{
  ℕ, zero, suc, ◌+◌, ◌≡◌, refl, ap, sym, ◌∙◌, ◌⊎◌, Bool, true, false, not, ◌==◌, if◌then◌else◌,
  Option, none, some, List, [], ◌∷◌, ◌++◌, In, Text, codes, length, Result, ok, err, text_eq,
}
use wincred_libsecret_wsl_pl.Prelude.Results.{ok_injective}
use wincred_libsecret_wsl_pl.Protocol.Errors.{contains}
use wincred_libsecret_wsl_pl.Broker.Samples.{crates}
use wincred_libsecret_wsl_pl.Cli.Versions.{windows_paths_equal}
use wincred_libsecret_wsl_pl.Cli.Doctor.{Distribution, Format}
use wincred_libsecret_wsl_pl.Cli.Machine.{Hive, local_machine, current_user, RegistryError, Machine}
use wincred_libsecret_wsl_pl.Cli.Machine.Apart.{IsApart}
use wincred_libsecret_wsl_pl.Cli.Plugin.{
  plugin_value_name, PluginInstallArguments, plugin_install, plugin_uninstall, validate_plugin_dll,
}
use wincred_libsecret_wsl_pl.Cli.Plugin.Foreign.{
  IsRegistry, plugin_install-foreign, plugin_uninstall-foreign,
}
use wincred_libsecret_wsl_pl.Cli.Payload.{required_files, manifest_lines, verify_payload}
use wincred_libsecret_wsl_pl.Cli.Payload.Verified.{IsVerified, verify_payload-IsVerified}
use wincred_libsecret_wsl_pl.Cli.Distributions.{find_distribution}
use wincred_libsecret_wsl_pl.Cli.Provision.{
  DistroEnableArguments, distro_enable, provision_distribution,
}
use wincred_libsecret_wsl_pl.Cli.Provision.Refresh.{distro_refresh}
use wincred_libsecret_wsl_pl.Cli.Provision.Disable.{distro_disable, clean_files}
use wincred_libsecret_wsl_pl.Cli.Provision.Order.{
  FailsUnchanged, distro_refresh-unchanged, distro_enable-provisioned, distro_disable-cleaned,
}

-- The plugin's value, the enablement of the one distribution, and what is printed.
record Registry : Type 0 where
  plugin : Option Text
  enabled : Option ℕ
  console : List Text

abbrev absent : RegistryError
absent = record { is_absent = true; text = codes "not found" }

abbrev value_or : {A : Type 0} → Option A → Result RegistryError A
value_or none = err absent
value_or (some a) = ok a

abbrev zeros : ℕ → List ℕ
zeros zero = []
zeros (suc n) = 0 ∷ zeros n

abbrev digits : ℕ → Text
digits zero = []
digits (suc n) = 48 ∷ digits n

-- Every program succeeds, `wsl.exe` prints its version and all others `true`, every file is there, and every digest is zero.
abbrev small : Machine Registry
small = record {
  output = λ program arguments s. (
    ok (record {
      success = true;
      stdout =
          if text_eq program (codes "wsl.exe")
          then codes "WSL version: 2.9.9.0\n"
          else codes "true";
      stderr = [];
    }),
    s,
  );
  spawn = λ program arguments s. (ok tt, s);
  print = λ text s. record s { console = text ∷ s.console };
  process_id = codes "7";
  package_version = codes "1.0.0";
  protocol_version = codes "1";
  open_subkey = λ hive path s. ok tt;
  enum_keys = λ hive path s. ok (codes "{1}") ∷ [];
  get_string = λ hive path name s.
      if text_eq name plugin_value_name then value_or s.plugin else ok (codes "Debian");
  get_dword =
      λ hive path name s. if text_eq name (codes "Version") then ok 2 else value_or s.enabled;
  create_subkey = λ hive path s. (ok tt, s);
  set_string = λ hive path name value s. (ok tt, record s { plugin = some value });
  set_dword = λ hive path name value s. (ok tt, record s { enabled = some value });
  delete_value = λ hive path name s. (ok tt, record s { plugin = none });
  delete_subkey_all = λ hive path s. (ok tt, record s { enabled = none });
  is_absolute = λ path. elim path [ [] ↦ false | c ∷ t ↦ c == 67 ];
  is_file = λ path s. true;
  is_dir = λ path s. true;
  canonicalize = λ path s. ok path;
  read_file = λ path s. ok (1 ∷ []);
  read_to_string = λ path s. ok (digits 64 ++ codes "  provider\n");
  file_name = λ path. some (
      if contains (codes "broker") path
      then codes "wincred-libsecret-broker.exe"
      else codes "wincred-libsecret-wsl-plugin.dll");
  parent = λ path. some path;
  join = λ a b. a ++ (codes "\\" ++ b);
  has_parent_or_root = λ path. false;
  current_exe = λ s. ok (codes "C:\\p");
  win_verify_trust = λ path s. 0;
  sha256 = λ bytes. zeros 32;
}

abbrev start : Registry
start = record { plugin = some (codes "C:\\other.dll"); enabled = none; console = [] }

abbrev format : Format
format = record { hyphenated = λ id. codes "id"; debug = λ t. t }

small-IsRegistry : IsRegistry small
small-IsRegistry = record {
  apart = record { output_keeps = λ _ _ _. refl; print_keeps = λ _ _. refl };
  create_subkey_keeps = λ _ _ _. refl;
}

abbrev enablement : Registry → Option ℕ
enablement s = s.enabled

small-IsApart : IsApart small enablement
small-IsApart = record { output_keeps = λ _ _ _. refl; print_keeps = λ _ _. refl }

distro_refresh-unchanged_example :
    (distro_refresh crates format small
      (record { all_or_name = none; payload_root = none; broker = none })
      start).1.enabled
    ≡ none
distro_refresh-unchanged_example =
    distro_refresh-unchanged crates format small enablement small-IsApart
      (record { all_or_name = none; payload_root = none; broker = none }) start

abbrev wanted : DistroEnableArguments
wanted = record {
  name = codes "Debian";
  payload_root = none;
  broker = none;
  replace_conflicts = false;
}

distro_enable-provisioned_example :
    FailsUnchanged enablement (distro_enable crates format small wanted) start
    ⊎ ((d : Distribution) × ((find_distribution crates small wanted.name start).0 ≡ ok d)
        × ((u : Unit {0}) × ((provision_distribution crates format small d wanted
                (find_distribution crates small wanted.name start).1).0
              ≡ ok u)))
distro_enable-provisioned_example =
    distro_enable-provisioned crates format small enablement small-IsApart wanted start

enabled_debian : (distro_enable crates format small wanted start).1.enabled ≡ some 1
unfolding distro_enable wincred_libsecret_wsl_pl.Prelude.Exec.◌>>=◌
    wincred_libsecret_wsl_pl.Cli.Machine.look wincred_libsecret_wsl_pl.Prelude.OrdMap.sort_by
    wincred_libsecret_wsl_pl.Cli.Versions.candidate_of
    wincred_libsecret_wsl_pl.Protocol.Target.split wincred_libsecret_wsl_pl.Cli.Versions.parse_u32
    wincred_libsecret_wsl_pl.Cli.Machine.ensure
    wincred_libsecret_wsl_pl.Cli.Payload.default_payload_root
    wincred_libsecret_wsl_pl.Cli.Machine.context wincred_libsecret_wsl_pl.Cli.Machine.look_at
    wincred_libsecret_wsl_pl.Cli.Payload.default_broker_path
    wincred_libsecret_wsl_pl.Cli.Machine.registry wincred_libsecret_wsl_pl.Cli.Machine.tell
enabled_debian = refl

distro_disable-cleaned_example :
    FailsUnchanged enablement (distro_disable crates format small (codes "Debian")) start
    ⊎ ((d : Distribution) × ((find_distribution crates small (codes "Debian") start).0 ≡ ok d)
        × ((u : Unit {0}) × ((clean_files crates format small d
                (find_distribution crates small (codes "Debian") start).1).0
              ≡ ok u)))
distro_disable-cleaned_example =
    distro_disable-cleaned crates format small enablement small-IsApart (codes "Debian") start

abbrev install : PluginInstallArguments
install = record { dll = codes "C:\\p.dll"; allow_unsigned = false; restart_wslservice = true }

validate_install :
    (t : Registry) → (validate_plugin_dll small (codes "C:\\p.dll") t).0 ≡ ok (codes "C:\\p.dll")
unfolding validate_plugin_dll wincred_libsecret_wsl_pl.Prelude.Exec.◌>>=◌
    wincred_libsecret_wsl_pl.Cli.Machine.ensure wincred_libsecret_wsl_pl.Cli.Machine.context
    wincred_libsecret_wsl_pl.Cli.Machine.look_at wincred_libsecret_wsl_pl.Cli.Machine.look
    wincred_libsecret_wsl_pl.Cli.Versions.normalize_windows_path
validate_install t = refl

other_paths : windows_paths_equal (codes "C:\\other.dll") (codes "C:\\p.dll") ≡ false
unfolding windows_paths_equal
other_paths = refl

other_file :
    (dll : Text) (t : Registry)
    → (validate_plugin_dll small (codes "C:\\p.dll") t).0 ≡ ok dll
    → windows_paths_equal (codes "C:\\other.dll") dll ≡ false
other_file dll t valid =
    let same = ok_injective (sym (validate_install t) ∙ valid) in
    ap (windows_paths_equal (codes "C:\\other.dll")) (sym same) ∙ other_paths

plugin_install-foreign_example :
    (value_or (plugin_install small install start).1.plugin ≡ ok (codes "C:\\other.dll"))
    × ((e : Text) × ((plugin_install small install start).0 ≡ err e))
plugin_install-foreign_example =
    plugin_install-foreign small small-IsRegistry (codes "C:\\other.dll") install start refl
      other_file

plugin_uninstall-foreign_example :
    value_or
      (plugin_uninstall small
        (record { dll = some (codes "C:\\p.dll"); restart_wslservice = false })
        start).1.plugin
    ≡ ok (codes "C:\\other.dll")
plugin_uninstall-foreign_example =
    plugin_uninstall-foreign small small-IsRegistry (codes "C:\\other.dll")
      (record { dll = some (codes "C:\\p.dll"); restart_wslservice = false }) (codes "C:\\p.dll")
      start refl refl other_paths

verify_small : (verify_payload small (codes "C:\\p") start).0 ≡ ok tt
unfolding verify_payload wincred_libsecret_wsl_pl.Prelude.Exec.◌>>=◌
    wincred_libsecret_wsl_pl.Cli.Machine.context wincred_libsecret_wsl_pl.Cli.Machine.look_at
    wincred_libsecret_wsl_pl.Cli.Trim.trim wincred_libsecret_wsl_pl.Cli.Machine.ensure
    wincred_libsecret_wsl_pl.Cli.Machine.look
verify_small = refl

verify_payload-IsVerified_example :
    (text : Text) × (small.read_to_string (codes "C:\\p\\manifest.sha256") start ≡ ok text)
    × (length (manifest_lines small text) == 0) ≡ false
    × ((line : Text)
        → In line (manifest_lines small text)
        → IsVerified small (codes "C:\\p") line start)
    × ((name : Text)
        → In name required_files
        → small.is_file (codes "C:\\p" ++ (codes "\\" ++ name)) start ≡ true)
verify_payload-IsVerified_example =
    verify_payload-IsVerified small (codes "C:\\p") start verify_small
