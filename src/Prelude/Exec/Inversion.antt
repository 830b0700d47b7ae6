-- ===== src/Prelude/Exec/Inversion.antt =====
-- A block that succeeds: each of its steps did.
use mathlib.Core.Path.{◌≡◌, refl, sym, ap, ◌∙◌}
use native.Mathlib.Omega.{arith}
use wincred_libsecret_wsl_pl.Prelude.Results.{Result, ok, err}
use wincred_libsecret_wsl_pl.Prelude.Exec.{Exec, continue, ◌>>=◌}

continue-ok :
    {S E A B : Type 0} (r : Result E A) (f : A → Exec S E B) (s : S) (b : B)
    → (continue r f s).0 ≡ ok b
    → (a : A) × (r ≡ ok a) × (continue r f s ≡ f a s)
continue-ok (ok a) f s b h = (a, refl, refl)
continue-ok (err e) f s b h = ground arith

-- The first step's value, and the rest of the block on it.
pub bind-ok :
    {S E A B : Type 0} (m : Exec S E A) (f : A → Exec S E B) (s : S) (b : B)
    → ((m >>= f) s).0 ≡ ok b
    → (a : A) × ((m s).0 ≡ ok a) × ((m >>= f) s ≡ f a (m s).1) × ((f a (m s).1).0 ≡ ok b)
unfolding ◌>>=◌
bind-ok m f s b h =
    let (a, e, q) = continue-ok (m s).0 f (m s).1 b h in (a, e, q, sym (ap (λ x. x.0) q) ∙ h)

pub bind-outcome :
    {S E A B : Type 0} (m : Exec S E A) (f : A → Exec S E B) (s : S) (a : A)
    → (m s).0 ≡ ok a
    → (m >>= f) s ≡ f a (m s).1
unfolding ◌>>=◌
bind-outcome m f s a h = ap (λ r. continue r f (m s).1) h

pub bind-failure :
    {S E A B : Type 0} (m : Exec S E A) (f : A → Exec S E B) (s : S) (e : E)
    → (m s).0 ≡ err e
    → (m >>= f) s ≡ (err e, (m s).1)
unfolding ◌>>=◌
bind-failure m f s e h = ap (λ r. continue r f (m s).1) h
