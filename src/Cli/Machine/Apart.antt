-- ===== src/Cli/Machine/Apart.antt =====
-- What the calls of crates/cli/src/main.rs leave alone: a part of the system that only some calls change.
use wincred_libsecret_wsl_pl.Prelude.{◌≡◌, ◌∙◌, Bool, true, false, List, Text, Result}
use wincred_libsecret_wsl_pl.Prelude.Exec.{Exec}
use wincred_libsecret_wsl_pl.Prelude.Exec.Keeps.{Keeps, keeps_rules}
use wincred_libsecret_wsl_pl.Cli.Machine.{
  RegistryError, Machine, look, look_at, tell, ensure, context, registry, run_process,
}

-- What other programs and the console leave alone.
pub record IsApart {S V : Type 0} (y : Machine S) (view : S → V) : Type 0 where
  pub output_keeps :
      (program : Text) (arguments : List Text) (s : S)
      → view (y.output program arguments s).1 ≡ view s
  pub print_keeps : (text : Text) (s : S) → view (y.print text s) ≡ view s

module _ {S V : Type 0} (view : S → V) (v : V) where
  abbrev pub Seen : S → Type 0
  Seen s = view s ≡ v

  pub look-Seen : {A : Type 0} (f : S → A) → Keeps Seen (look f)
  unfolding look
  look-Seen f = record { at = λ _ h. h }

  pub look_at-Seen : {A : Type 0} (f : S → Result Text A) → Keeps Seen (look_at f)
  unfolding look_at
  look_at-Seen f = record { at = λ _ h. h }

  pub ensure-Seen : (b : Bool) (text : Text) → Keeps Seen (ensure b text)
  unfolding ensure
  ensure-Seen true text = record { at = λ _ h. h }
  ensure-Seen false text = record { at = λ _ h. h }

module _ {S V A : Type 0} {view : S → V} {v : V} where
  pub context-Seen :
      (text : Text) (m : Exec S Text A)
      → Keeps (Seen view v) m
      → Keeps (Seen view v) (context text m)
  unfolding context
  context-Seen text m k = record { at = k.at }

  pub registry-Seen :
      (text : Text) (m : Exec S RegistryError A)
      → Keeps (Seen view v) m
      → Keeps (Seen view v) (registry text m)
  unfolding registry
  registry-Seen text m k = record { at = k.at }

module _ {S V : Type 0} {y : Machine S} {view : S → V} {v : V} where
  pub print-Seen : IsApart y view → (text : Text) → Keeps (Seen view v) (tell (y.print text))
  unfolding tell
  print-Seen apart text = record { at = λ s h. apart.print_keeps text s ∙ h }

  pub output-Seen :
      IsApart y view
      → (program : Text) (arguments : List Text) → Keeps (Seen view v) (y.output program arguments)
  output-Seen apart program arguments = record {
    at = λ s h. apart.output_keeps program arguments s ∙ h;
  }

  pub run_process-Seen :
      IsApart y view
      → (program : Text) (arguments : List Text)
      → Keeps (Seen view v) (run_process y program arguments)
  unfolding run_process
  run_process-Seen apart program arguments = context-Seen _ _ (output-Seen apart program arguments)

pub ruleset seen_rules = (
  keeps_rules, look-Seen, look_at-Seen, ensure-Seen, context-Seen, registry-Seen, print-Seen,
  output-Seen, run_process-Seen,
)
