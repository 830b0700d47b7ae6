-- ===== src/Prelude/Exec/Keeps.antt =====
-- Invariants of actions: one rule for each way to build an action.
use mathlib.Core.Bool.{Bool, true, false}
use mathlib.Core.Option.{Option, none, some}
use wincred_libsecret_wsl_pl.Prelude.Tests.{if◌then◌else◌}
use wincred_libsecret_wsl_pl.Prelude.Results.{Result, ok, err}
use wincred_libsecret_wsl_pl.Prelude.Exec.{
  Exec, continue, match_option, match_result, pure, raise, lift, outcome, ◌>>=◌,
}

-- Whether the action succeeds or fails, it leaves a state with `P` from a state with `P`.
pub record Keeps {S E A : Type 0} (P : S → Type 0) (m : Exec S E A) : Type 0 where
  pub at : (s : S) → P s → P (m s).1

-- The rest of a block, on what a step has come to.
Keeps-continue :
    {S E A B : Type 0} {P : S → Type 0} (r : Result E A) (f : A → Exec S E B)
    → ((a : A) → Keeps P (f a))
    → Keeps P (continue r f)
Keeps-continue (err e) f rest = record { at = λ _ p. p }
Keeps-continue (ok a) f rest = rest a

module _ {S E A : Type 0} {P : S → Type 0} where
  pub Keeps-if :
      (test : Bool) (on_true on_false : Exec S E A)
      → Keeps P on_true
      → Keeps P on_false
      → Keeps P (if test then on_true else on_false)
  Keeps-if false on_true on_false ky kn = kn
  Keeps-if true on_true on_false ky kn = ky

  pub Keeps-bind :
      {B : Type 0} (step : Exec S E A) (f : A → Exec S E B)
      → Keeps P step
      → ((a : A) → Keeps P (f a))
      → Keeps P (step >>= f)
  unfolding ◌>>=◌
  Keeps-bind step f first rest = record {
    at = λ s p. (Keeps-continue (step s).0 f rest).at (step s).1 (first.at s p);
  }

  pub Keeps-outcome : (step : Exec S E A) → Keeps P step → Keeps P (outcome step)
  unfolding outcome
  Keeps-outcome step k = record { at = k.at }

  pub Keeps-lift : (r : Result E A) → Keeps P (lift r)
  unfolding lift
  Keeps-lift r = record { at = λ _ p. p }

  pub Keeps-raise : (e : E) → Keeps P (raise {A = A} e)
  unfolding raise
  Keeps-raise e = record { at = λ _ p. p }

  pub Keeps-pure : (a : A) → Keeps P (pure {E = E} a)
  unfolding pure
  Keeps-pure a = record { at = λ _ p. p }

-- A `match` on a value that a step has returned.
module _ {S E A B : Type 0} {P : S → Type 0} where
  pub Keeps-option :
      (o : Option A) (n : Exec S E B) (f : A → Exec S E B)
      → Keeps P n
      → ((a : A) → Keeps P (f a))
      → Keeps P (match_option o n f)
  unfolding match_option
  Keeps-option none n f kn kf = kn
  Keeps-option (some a) n f kn kf = kf a

module _ {S E A B F : Type 0} {P : S → Type 0} where
  pub Keeps-result :
      (r : Result F A) (h : F → Exec S E B) (g : A → Exec S E B)
      → ((e : F) → Keeps P (h e))
      → ((a : A) → Keeps P (g a))
      → Keeps P (match_result r h g)
  unfolding match_result
  Keeps-result (err e) h g kh kg = kh e
  Keeps-result (ok a) h g kh kg = kg a

pub ruleset keeps_rules = (
  Keeps-pure, Keeps-raise, Keeps-lift, Keeps-outcome, Keeps-if, Keeps-bind, Keeps-option,
  Keeps-result,
)
