-- ===== src/Prelude/Exec.antt =====
-- A method on a shared object: it may change the object, and it may fail. What was changed before
-- a failure stays changed, so the new state comes with the error too.
pub mod Keeps
pub mod Inversion
use mathlib.Core.Option.{Option, none, some}
use wincred_libsecret_wsl_pl.Prelude.Results.{Result, ok, err}

abbrev pub Exec : Type 0 → Type 0 → Type 0 → Type 0
Exec S E A = S → Result E A × S

module _ {S E A : Type 0} where
  unfoldable pub pure : A → Exec S E A
  pure a s = (ok a, s)

  unfoldable pub raise : E → Exec S E A
  raise e s = (err e, s)

  unfoldable pub lift : Result E A → Exec S E A
  lift r s = (r, s)

  -- The outcome of an action as a value: for `match`, `if let Err(..)` and `let _ =`.
  unfoldable pub outcome : Exec S E A → Exec S E (Result E A)
  outcome m s = let (r, s') = m s in (ok r, s')

module _ {S E A B : Type 0} where
  -- A `match` on an `Option`, on the way.
  unfoldable pub match_option : Option A → Exec S E B → (A → Exec S E B) → Exec S E B
  match_option none n f = n
  match_option (some a) n f = f a

module _ {S E F A B : Type 0} where
  -- A `match` on a `Result`, on the way.
  unfoldable pub match_result : Result F A → (F → Exec S E B) → (A → Exec S E B) → Exec S E B
  match_result (err e) h g = h e
  match_result (ok a) h g = g a

module _ {S E A B : Type 0} where
  abbrev pub continue : Result E A → (A → Exec S E B) → Exec S E B
  continue (ok a) f s = f a s
  continue (err e) f s = (err e, s)

  infixl 5 ◌>>=◌ ◌>>◌
  unfoldable pub ◌>>=◌ : Exec S E A → (A → Exec S E B) → Exec S E B
  unfolding pure raise lift outcome match_option match_result
  ◌>>=◌ m f s = let (r, s') = m s in continue r f s'

  abbrev pub ◌>>◌ : Exec S E A → Exec S E B → Exec S E B
  m >> n = m >>= λ _. n
