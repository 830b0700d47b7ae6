-- ===== src/Prelude/Order.antt =====
-- `Ord` as the maps and sorts of the program use it, with instances for numbers, texts and pairs.
use Prim.Native.Nat.{ℕ, compare, Ordering}
use Prim.Native.Nat.Ordering.{lt, eq, gt}
use mathlib.Core.Path.{◌≡◌, refl}
use mathlib.Core.Logic.{◌↔◌}
use mathlib.Core.List.{[], ◌∷◌}
use native.Mathlib.Omega.{arith}
use wincred_libsecret_wsl_pl.Prelude.Lists.{Text}

pub record Ord (K : Type 0) : Type 0 where
  pub cmp : K → K → Ordering
  pub cmp_iff : (a b : K) → (cmp a b ≡ eq) ↔ (a ≡ b)

-- `Ordering::then`.
abbrev pub then : Ordering → Ordering → Ordering
then eq second = second
then first _ = first

pub nat-cmp_iff : (a b : ℕ) → (compare a b ≡ eq) ↔ (a ≡ b)
nat-cmp_iff a b = (λ h. ground arith, λ h. ground arith)

instance abbrev pub nat_ord : Ord ℕ
nat_ord = record { cmp = compare; cmp_iff = nat-cmp_iff }

-- `str` compares byte by byte, and a proper prefix comes first.
unfoldable pub cmp_text : Text → Text → Ordering
cmp_text [] [] = eq
cmp_text [] (y ∷ ys) = lt
cmp_text (x ∷ xs) [] = gt
cmp_text (x ∷ xs) (y ∷ ys) = then (compare x y) (cmp_text xs ys)

cmp_text→eq : (xs ys : Text) → cmp_text xs ys ≡ eq → xs ≡ ys
unfolding cmp_text
cmp_text→eq [] [] h = refl
cmp_text→eq [] (y ∷ ys) h = ground arith
cmp_text→eq (x ∷ xs) [] h = ground arith
cmp_text→eq (x ∷ xs) (y ∷ ys) h = ground (arith, cmp_text→eq xs ys)

pub cmp_text_refl : (xs : Text) → cmp_text xs xs ≡ eq
unfolding cmp_text
cmp_text_refl [] = refl
cmp_text_refl (x ∷ xs) = ground (arith, cmp_text_refl xs)

pub text-cmp_iff : (xs ys : Text) → (cmp_text xs ys ≡ eq) ↔ (xs ≡ ys)
text-cmp_iff xs ys = (cmp_text→eq xs ys, λ e. ground (arith, cmp_text_refl xs, e))

instance abbrev pub text_ord : Ord Text
text_ord = record { cmp = cmp_text; cmp_iff = text-cmp_iff }

-- Pairs compare lexicographically.
abbrev pub cmp_pair : ℕ × ℕ → ℕ × ℕ → Ordering
cmp_pair x y = then (compare x.0 y.0) (compare x.1 y.1)

pub pair-cmp_iff : (x y : ℕ × ℕ) → (cmp_pair x y ≡ eq) ↔ (x ≡ y)
pair-cmp_iff x y = (λ h. ground arith, λ h. ground arith)

instance abbrev pub pair_ord : Ord (ℕ × ℕ)
pair_ord = record { cmp = cmp_pair; cmp_iff = pair-cmp_iff }
