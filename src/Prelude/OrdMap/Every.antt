-- ===== src/Prelude/OrdMap/Every.antt =====
-- What each entry of a map has, when entries come and go.
use Prim.Native.Nat.{Ordering}
use mathlib.Core.Path.{◌≡◌, sym, subst}
use mathlib.Core.Logic.{inl, inr}
use mathlib.Core.Bool.{Bool, true}
use mathlib.Core.Option.{some}
use mathlib.Core.List.{List, [], ◌∷◌}
use native.Mathlib.Omega.{arith}
use wincred_libsecret_wsl_pl.Prelude.Tests.{Option-cases, Bool-cases}
use wincred_libsecret_wsl_pl.Prelude.Lists.{All, keep}
use wincred_libsecret_wsl_pl.Prelude.Order.{Ord}
use wincred_libsecret_wsl_pl.Prelude.OrdMap.{OrdMap, get, insert, replace, place, remove}

-- An implication for each entry that a filter keeps.
pub All-keep :
    {A : Type 0} (P Q : A → Type 0) (p : A → Bool) (xs : List A)
    → ((x : A) → P x → p x ≡ true → Q x)
    → All P xs
    → All Q (keep p xs)
All-keep P Q p [] f h = tt
All-keep P Q p (x ∷ xs) f h = elim (Bool-cases (p x)) [
  | inl e ↦ rw (e) (f x h.0 e, All-keep P Q p xs f h.1)
  | inr e ↦ rw (e) (All-keep P Q p xs f h.1)
]

pub All-map :
    {A : Type 0} (P Q : A → Type 0) (xs : List A) → ((x : A) → P x → Q x) → All P xs → All Q xs
All-map P Q [] f h = tt
All-map P Q (x ∷ xs) f h = (f x h.0, All-map P Q xs f h.1)

module _ {K V : Type 0} ⦃o : Ord K⦄ (P : K × V → Type 0) where
  All-replace : (k : K) (v : V) (m : OrdMap K V) → P (k, v) → All P m → All P (replace k v m)
  unfolding replace
  All-replace k v [] p h = tt
  All-replace k v ((j, w) ∷ m) p h = ground (arith, same, All-replace k v m p)
    where
      same : o.cmp k j ≡ Ordering.eq → P (j, v)
      same e = subst (λ i. P (i, v)) ((o.cmp_iff k j).0 e) p

  All-place : (k : K) (v : V) (m : OrdMap K V) → P (k, v) → All P m → All P (place k v m)
  unfolding place
  All-place k v [] p h = (p, tt)
  All-place k v ((j, w) ∷ m) p h = ground (arith, All-place k v m p)

  pub All-insert : (k : K) (v : V) (m : OrdMap K V) → P (k, v) → All P m → All P (insert k v m)
  unfolding insert
  All-insert k v m p h = elim (Option-cases (get k m)) [
    | inl e ↦ rw (e, insert) (All-place k v m p h)
    | inr (w, e) ↦ rw (e, insert) (All-replace k v m p h)
  ]

  pub All-remove : (k : K) (m : OrdMap K V) → All P m → All P (remove k m)
  unfolding remove
  All-remove k [] h = tt
  All-remove k ((j, w) ∷ m) h = ground (arith, All-remove k m)

  pub All-get : (k : K) (v : V) (m : OrdMap K V) → get k m ≡ some v → All P m → P (k, v)
  unfolding get
  All-get k v [] e h = ground arith
  All-get k v ((j, w) ∷ m) e h = ground (arith, same, All-get k v m)
    where
      same : o.cmp k j ≡ Ordering.eq → w ≡ v → P (k, v)
      same c d = subst P (λ i. (sym ((o.cmp_iff k j).0 c) i, d i)) h.0
