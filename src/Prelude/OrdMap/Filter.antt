-- ===== src/Prelude/OrdMap/Filter.antt =====
-- The entries of a map that a filter keeps: `retain`.
use mathlib.Core.Path.{◌≡◌, refl}
use mathlib.Core.Logic.{◌↔◌}
use mathlib.Core.Bool.{Bool, true}
use mathlib.Core.Option.{none, some}
use mathlib.Core.List.{List, [], ◌∷◌}
use native.Mathlib.Omega.{arith}
use wincred_libsecret_wsl_pl.Prelude.Lists.{All, keep}
use wincred_libsecret_wsl_pl.Prelude.Order.{Ord}
use wincred_libsecret_wsl_pl.Prelude.OrdMap.{OrdMap, get, insert, place, remove, IsUnique}

module _ {K V : Type 0} ⦃o : Ord K⦄ (p : K × V → Bool) where
  get-keep-none : (k : K) (m : OrdMap K V) → get k m ≡ none → get k (keep p m) ≡ none
  unfolding get
  get-keep-none k [] h = refl
  get-keep-none k ((j, w) ∷ m) h = ground (arith, get-keep-none k m)

  pub keep-IsUnique : (m : OrdMap K V) → IsUnique m → IsUnique (keep p m)
  keep-IsUnique [] u = tt
  keep-IsUnique ((j, w) ∷ m) u = ground (arith, get-keep-none j m, keep-IsUnique m)

  get-keep→ :
      (k : K) (v : V) (m : OrdMap K V)
      → IsUnique m
      → get k (keep p m) ≡ some v
      → (get k m ≡ some v) × (p (k, v) ≡ true)
  unfolding get
  get-keep→ k v [] u h = ground arith
  get-keep→ k v ((j, w) ∷ m) u h = ground (arith, o.cmp_iff k j, get-keep→ k v m, get-keep-none k m)

  get-keep← :
      (k : K) (v : V) (m : OrdMap K V)
      → get k m ≡ some v
      → p (k, v) ≡ true
      → get k (keep p m) ≡ some v
  unfolding get
  get-keep← k v [] h q = ground arith
  get-keep← k v ((j, w) ∷ m) h q = ground (arith, o.cmp_iff k j, get-keep← k v m)

  -- With each key once, a filter and a lookup can change places.
  pub get-keep_iff :
      (k : K) (v : V) (m : OrdMap K V)
      → IsUnique m
      → (get k (keep p m) ≡ some v) ↔ ((get k m ≡ some v) × (p (k, v) ≡ true))
  get-keep_iff k v m u = (get-keep→ k v m u, λ h. get-keep← k v m h.0 h.1)

module _ {K V : Type 0} ⦃o : Ord K⦄ where
  remove-none : (k : K) (m : OrdMap K V) → get k m ≡ none → remove k m ≡ m
  unfolding get remove
  remove-none k [] h = refl
  remove-none k ((j, w) ∷ m) h = ground (arith, remove-none k m)

  remove-place : (k : K) (v : V) (m : OrdMap K V) → get k m ≡ none → remove k (place k v m) ≡ m
  unfolding get remove place
  remove-place k v [] h = ground (arith, o.cmp_iff k k)
  remove-place k v ((j, w) ∷ m) h =
      ground (arith, o.cmp_iff k k, remove-none k m, remove-place k v m)

  -- A new key that is taken out again leaves the map as it was.
  pub remove-insert :
      (k : K) (v : V) (m : OrdMap K V) → get k m ≡ none → remove k (insert k v m) ≡ m
  unfolding insert
  remove-insert k v m h = rw (h, insert) (remove-place k v m h)

pub keep-All : {A : Type 0} (p : A → Bool) (xs : List A) → All (λ x. p x ≡ true) xs → keep p xs ≡ xs
keep-All p [] h = refl
keep-All p (x ∷ xs) h = ground (arith, keep-All p xs)
