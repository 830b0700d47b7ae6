-- ===== src/Cli/Plugin/Foreign.antt =====
-- Another product's value at the plugin's name in the registry, under `plugin install` and `plugin uninstall`
-- of crates/cli/src/main.rs.
use wincred_libsecret_wsl_pl.Prelude.{◌≡◌, refl, ◌∙◌, Bool, Text, Result, ok, err, inl, inr}
use wincred_libsecret_wsl_pl.Prelude.Results.{Result-cases}
use wincred_libsecret_wsl_pl.Prelude.Exec.{Exec, ◌>>=◌}
use wincred_libsecret_wsl_pl.Prelude.Exec.Keeps.{Keeps-bind, Keeps-result, Keeps}
use wincred_libsecret_wsl_pl.Prelude.Exec.Inversion.{bind-outcome, bind-failure}
use wincred_libsecret_wsl_pl.Cli.Machine.{look_at, local_machine, Machine, RegistryError}
use wincred_libsecret_wsl_pl.Cli.Machine.Apart.{IsApart, Seen, seen_rules}
use wincred_libsecret_wsl_pl.Cli.Plugin.{
  not_opened, false, some, windows_paths_equal, Option, register, string_value, restart_or_instruct,
  unregister, PluginUninstallArguments, PluginInstallArguments, plugin_install, plugin_uninstall,
  plugin_value, plugin_registry_path, plugin_value_name, is_administrator, require_administrator,
  absolute_existing_file, validate_plugin_dll, restart, restart_or_instruct,
}

module _ {S : Type 0} (y : Machine S) where
  -- The plugin's value in the registry.
  abbrev pub plugin_string : S → Result RegistryError Text
  plugin_string s = y.get_string local_machine plugin_registry_path plugin_value_name s

  -- The calls that change the value are `set_string` and `delete_value`.
  pub record IsRegistry : Type 0 where
    pub apart : IsApart y plugin_string
    pub create_subkey_keeps :
        (hive : _) (path : Text) (s : S)
        → plugin_string (y.create_subkey hive path s).1 ≡ plugin_string s

-- From a state with `P` the action fails, and leaves `P`.
pub record Refuses {S E A : Type 0} (P : S → Type 0) (m : Exec S E A) : Type 0 where
  pub at : (s : S) → P s → P (m s).1 × ((e : E) × ((m s).0 ≡ err e))

Refuses-bind :
    {S E A B : Type 0} {P : S → Type 0} (m : Exec S E A) (f : A → Exec S E B)
    → Keeps P m
    → ((s : S) (a : A) → (m s).0 ≡ ok a → Refuses P (f a))
    → Refuses P (m >>= f)
Refuses-bind {P = P} m f k rest = record {
  at = λ s p. elim (Result-cases (m s).0) [
    | inl (a, done) ↦ rw (bind-outcome m f s a done) ((rest s a done).at (m s).1 (k.at s p))
    | inr (e, failed) ↦ rw (bind-failure m f s e failed) (k.at s p, (e, refl))
  ];
}

module _ {S : Type 0} (y : Machine S) (registry_law : IsRegistry y) (existing : Text) where
  abbrev Foreign : S → Type 0
  Foreign = Seen (plugin_string y) (ok existing)

  require_administrator-Foreign : Keeps Foreign (require_administrator y)
  unfolding require_administrator is_administrator
  require_administrator-Foreign = search (seen_rules, registry_law.apart) depth 14

  validate_plugin_dll-Foreign : (path : Text) → Keeps Foreign (validate_plugin_dll y path)
  unfolding validate_plugin_dll absolute_existing_file
  validate_plugin_dll-Foreign path = search seen_rules depth 18

  restart_or_instruct-Foreign : (b : Bool) → Keeps Foreign (restart_or_instruct y b)
  unfolding restart_or_instruct restart
  restart_or_instruct-Foreign b = search (seen_rules, registry_law.apart) depth 18

  create_subkey-Foreign : (hive : _) (path : Text) → Keeps Foreign (y.create_subkey hive path)
  create_subkey-Foreign hive path = record {
    at = λ s h. registry_law.create_subkey_keeps hive path s ∙ h;
  }

  plugin_value-Foreign : (s : S) → Foreign s → plugin_value y s ≡ (ok (some existing), s)
  unfolding plugin_value look_at string_value
  plugin_value-Foreign s h = rw h

  -- What follows the reading of the value is the rest for the value of another product.
  Refuses-value :
      {A : Type 0} (f : Option Text → Exec S Text A)
      → Refuses Foreign (f (some existing))
      → Refuses Foreign (plugin_value y >>= f)
  unfolding ◌>>=◌
  Refuses-value f rest = record { at = λ s h. rw (plugin_value-Foreign s h) (rest.at s h) }

  Keeps-value :
      {A : Type 0} (f : Option Text → Exec S Text A)
      → Keeps Foreign (f (some existing))
      → Keeps Foreign (plugin_value y >>= f)
  unfolding ◌>>=◌
  Keeps-value f rest = record { at = λ s h. rw (plugin_value-Foreign s h) (rest.at s h) }

  Refuses-register :
      {A : Type 0} (dll : Text) (rest : Unit {0} → Exec S Text A)
      → windows_paths_equal existing dll ≡ false
      → Refuses Foreign (register y dll (some existing) >>= rest)
  unfolding register ◌>>=◌
  Refuses-register dll rest differs = record { at = λ s h. rw differs (h, (_, refl)) }

  -- Where running programs, printing and creating the key leave the registry's value as it is, and
  -- the value is a path of another file than every DLL that the argument can stand for,
  -- `plugin_install` fails and the value is as before.
  pub plugin_install-foreign :
      (arguments : PluginInstallArguments) (s : S)
      → y.get_string local_machine plugin_registry_path plugin_value_name s ≡ ok existing
      → ((dll : Text) (t : S)
          → (validate_plugin_dll y arguments.dll t).0 ≡ ok dll
          → windows_paths_equal existing dll ≡ false)
      → (y.get_string local_machine plugin_registry_path plugin_value_name
            (plugin_install y arguments s).1
          ≡ ok existing)
        × ((e : Text) × ((plugin_install y arguments s).0 ≡ err e))
  unfolding plugin_install
  plugin_install-foreign arguments s h differs =
      (Refuses-bind _ _ require_administrator-Foreign λ _ _ _.
          Refuses-bind _ _ (validate_plugin_dll-Foreign arguments.dll) λ t dll valid.
            Refuses-bind _ _ (search seen_rules) λ _ _ _.
              Refuses-bind _ _ (search seen_rules) λ _ _ _.
                Refuses-bind _ _ (search (seen_rules, create_subkey-Foreign))
                  λ _ _ _. Refuses-value _ (Refuses-register dll _ (differs dll t valid))).at
        s h

  unregister-Foreign :
      (expected : Text)
      → windows_paths_equal existing expected ≡ false
      → Keeps Foreign (unregister y (some expected) (some existing))
  unfolding unregister
  unregister-Foreign expected differs = rw differs (search (seen_rules, registry_law.apart))

  not_opened-Foreign : (e : RegistryError) → Keeps Foreign (not_opened y e)
  not_opened-Foreign e = search (seen_rules, registry_law.apart)

  plugin_uninstall-Foreign :
      (arguments : PluginUninstallArguments) (expected : Text)
      → arguments.dll ≡ some expected
      → windows_paths_equal existing expected ≡ false
      → Keeps Foreign (plugin_uninstall y arguments)
  unfolding plugin_uninstall
  plugin_uninstall-Foreign arguments expected same differs =
      let step : Keeps Foreign (plugin_value y >>= unregister y arguments.dll) =
        Keeps-value _ (rw same (unregister-Foreign expected differs)) in
      Keeps-bind _ _ require_administrator-Foreign λ _. Keeps-bind _ _ (search seen_rules) λ opened.
        Keeps-bind _ _ (Keeps-result opened _ _ not_opened-Foreign λ _. step)
          λ _. restart_or_instruct-Foreign arguments.restart_wslservice

  -- Where running programs and printing leave the registry's value as it is, and the value is a
  -- path of another file than the DLL expected there, `plugin_uninstall` leaves the value as it
  -- is, whatever it comes to.
  pub plugin_uninstall-foreign :
      (arguments : PluginUninstallArguments) (expected : Text) (s : S)
      → y.get_string local_machine plugin_registry_path plugin_value_name s ≡ ok existing
      → arguments.dll ≡ some expected
      → windows_paths_equal existing expected ≡ false
      → y.get_string local_machine plugin_registry_path plugin_value_name
          (plugin_uninstall y arguments s).1
        ≡ ok existing
  plugin_uninstall-foreign arguments expected s h same differs =
      (plugin_uninstall-Foreign arguments expected same differs).at s h
