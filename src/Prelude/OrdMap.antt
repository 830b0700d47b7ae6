-- ===== src/Prelude/OrdMap.antt =====
-- `BTreeMap` and `BTreeSet` as lists of entries in the order of their keys, and the stable sort.
pub mod Every
pub mod Filter
use Prim.Native.Nat.{Ordering}
use mathlib.Core.Path.{◌≡◌, refl}
use mathlib.Core.Logic.{◌↔◌, ◌⊎◌, inl, inr}
use mathlib.Core.Bool.{Bool, true, false}
use mathlib.Core.Option.{Option, none, some}
use mathlib.Core.List.{List, [], ◌∷◌}
use native.Mathlib.Omega.{arith}
use wincred_libsecret_wsl_pl.Prelude.Tests.{Option-cases}
use wincred_libsecret_wsl_pl.Prelude.Lists.{In}
use wincred_libsecret_wsl_pl.Prelude.Order.{Ord}

abbrev pub OrdMap : Type 0 → Type 0 → Type 0
OrdMap K V = List (K × V)

abbrev pub OrdSet : Type 0 → Type 0
OrdSet K = List K

module _ {K V : Type 0} ⦃o : Ord K⦄ where
  unfoldable pub get : K → OrdMap K V → Option V
  get k [] = none
  get k ((j, v) ∷ m) = let rest = get k m in elim (o.cmp k j) [ Ordering.eq ↦ some v | _ ↦ rest ]

  -- `BTreeMap::insert`: an entry with the key gets the new value, and a new key goes to its place.
  unfoldable pub replace : K → V → OrdMap K V → OrdMap K V
  replace k v [] = []
  replace k v ((j, w) ∷ m) =
      let rest = replace k v m in
      elim (o.cmp k j) [ Ordering.eq ↦ (j, v) ∷ rest | _ ↦ (j, w) ∷ rest ]

  unfoldable pub place : K → V → OrdMap K V → OrdMap K V
  place k v [] = (k, v) ∷ []
  place k v ((j, w) ∷ m) =
      let rest = place k v m in
      elim (o.cmp k j) [ Ordering.lt ↦ (k, v) ∷ (j, w) ∷ m | _ ↦ (j, w) ∷ rest ]

  unfoldable pub insert : K → V → OrdMap K V → OrdMap K V
  unfolding get replace place
  insert k v m = elim (get k m) [ none ↦ place k v m | some _ ↦ replace k v m ]

  unfoldable pub remove : K → OrdMap K V → OrdMap K V
  remove k [] = []
  remove k ((j, w) ∷ m) =
      let rest = remove k m in elim (o.cmp k j) [ Ordering.eq ↦ rest | _ ↦ (j, w) ∷ rest ]

  get-replace_self :
      (k : K) (v w : V) (m : OrdMap K V) → get k m ≡ some w → get k (replace k v m) ≡ some v
  unfolding get replace
  get-replace_self k v w [] h = cc
  get-replace_self k v w ((j, x) ∷ m) h = ground (arith, get-replace_self k v w m)

  get-replace_ne : (k j : K) (v : V) (m : OrdMap K V) → ¬ (k ≡ j) → get j (replace k v m) ≡ get j m
  unfolding get replace
  get-replace_ne k j v [] h = refl
  get-replace_ne k j v ((i, x) ∷ m) h =
      ground (arith, o.cmp_iff k i, o.cmp_iff j i, get-replace_ne k j v m h)

  get-place_self : (k : K) (v : V) (m : OrdMap K V) → get k m ≡ none → get k (place k v m) ≡ some v
  unfolding get place
  get-place_self k v [] h = ground (arith, o.cmp_iff k k)
  get-place_self k v ((j, x) ∷ m) h = ground (arith, o.cmp_iff k k, get-place_self k v m)

  get-place_ne : (k j : K) (v : V) (m : OrdMap K V) → ¬ (k ≡ j) → get j (place k v m) ≡ get j m
  unfolding get place
  get-place_ne k j v [] h = ground (arith, o.cmp_iff j k)
  get-place_ne k j v ((i, x) ∷ m) h = ground (arith, o.cmp_iff j k, get-place_ne k j v m h)

  pub get-insert_self : (k : K) (v : V) (m : OrdMap K V) → get k (insert k v m) ≡ some v
  unfolding insert
  get-insert_self k v m = elim (Option-cases (get k m)) [
    | inl e ↦ rw (e, insert) (get-place_self k v m e)
    | inr (w, e) ↦ rw (e, insert) (get-replace_self k v w m e)
  ]

  pub get-insert_ne :
      (k j : K) (v : V) (m : OrdMap K V) → ¬ (k ≡ j) → get j (insert k v m) ≡ get j m
  unfolding insert
  get-insert_ne k j v m h = elim (Option-cases (get k m)) [
    | inl e ↦ rw (e, insert) (get-place_ne k j v m h)
    | inr (w, e) ↦ rw (e, insert) (get-replace_ne k j v m h)
  ]

  -- Each key stands once, so that the entries and the lookups agree.
  abbrev pub IsUnique : OrdMap K V → Type 0
  IsUnique [] = Unit
  IsUnique ((k, v) ∷ m) = (get k m ≡ none) × IsUnique m

  get-replace-none :
      (k j : K) (v : V) (m : OrdMap K V) → get j m ≡ none → get j (replace k v m) ≡ none
  unfolding get replace
  get-replace-none k j v [] h = refl
  get-replace-none k j v ((i, x) ∷ m) h = ground (arith, get-replace-none k j v m)

  replace-IsUnique : (k : K) (v : V) (m : OrdMap K V) → IsUnique m → IsUnique (replace k v m)
  unfolding replace
  replace-IsUnique k v [] u = tt
  replace-IsUnique k v ((j, w) ∷ m) u =
      ground (arith, replace-IsUnique k v m, get-replace-none k j v m)

  place-IsUnique :
      (k : K) (v : V) (m : OrdMap K V) → get k m ≡ none → IsUnique m → IsUnique (place k v m)
  unfolding place get
  place-IsUnique k v [] e u = ground arith
  place-IsUnique k v ((j, w) ∷ m) e u =
      ground (arith, o.cmp_iff k j, get-place_ne k j v m, place-IsUnique k v m)

  pub insert-IsUnique : (k : K) (v : V) (m : OrdMap K V) → IsUnique m → IsUnique (insert k v m)
  unfolding insert
  insert-IsUnique k v m u = elim (Option-cases (get k m)) [
    | inl e ↦ rw (e, insert) (place-IsUnique k v m e u)
    | inr (w, e) ↦ rw (e, insert) (replace-IsUnique k v m u)
  ]

  get-remove-none : (k j : K) (m : OrdMap K V) → get j m ≡ none → get j (remove k m) ≡ none
  unfolding get remove
  get-remove-none k j [] h = refl
  get-remove-none k j ((i, x) ∷ m) h = ground (arith, get-remove-none k j m)

  pub remove-IsUnique : (k : K) (m : OrdMap K V) → IsUnique m → IsUnique (remove k m)
  unfolding remove
  remove-IsUnique k [] u = tt
  remove-IsUnique k ((j, w) ∷ m) u = ground (arith, remove-IsUnique k m, get-remove-none k j m)

  pub get→In : (k : K) (v : V) (m : OrdMap K V) → get k m ≡ some v → In (k, v) m
  unfolding get
  get→In k v [] h = ground arith
  get→In k v ((j, w) ∷ m) h = ground (arith, o.cmp_iff k j, get→In k v m)

  pub In→get : (k : K) (v : V) (m : OrdMap K V) → IsUnique m → In (k, v) m → get k m ≡ some v
  unfolding get
  In→get k v [] u h = absurd h
  In→get k v ((j, w) ∷ m) u h = ground (arith, o.cmp_iff k j, In→get k v m)

  pub get-remove_self : (k : K) (m : OrdMap K V) → get k (remove k m) ≡ none
  unfolding get remove
  get-remove_self k [] = refl
  get-remove_self k ((j, w) ∷ m) = ground (arith, get-remove_self k m)

  pub get-remove_ne : (k j : K) (m : OrdMap K V) → ¬ (k ≡ j) → get j (remove k m) ≡ get j m
  unfolding get remove
  get-remove_ne k j [] h = refl
  get-remove_ne k j ((i, w) ∷ m) h =
      ground (arith, o.cmp_iff j k, o.cmp_iff k i, o.cmp_iff j i, get-remove_ne k j m h)

module _ {K : Type 0} ⦃o : Ord K⦄ where
  unfoldable pub contains : K → OrdSet K → Bool
  contains k [] = false
  contains k (j ∷ m) = let rest = contains k m in elim (o.cmp k j) [ Ordering.eq ↦ true | _ ↦ rest ]

  unfoldable pub add : K → OrdSet K → OrdSet K
  add k [] = k ∷ []
  add k (j ∷ m) =
      let rest = add k m in
      elim (o.cmp k j) [ Ordering.lt ↦ k ∷ j ∷ m | Ordering.eq ↦ k ∷ m | Ordering.gt ↦ j ∷ rest ]

  pub contains_iff : (k : K) (m : OrdSet K) → (contains k m ≡ true) ↔ In k m
  unfolding contains
  contains_iff k [] = (λ h. ground arith, λ h. absurd h)
  contains_iff k (j ∷ m) = (
    λ h. ground (arith, o.cmp_iff k j, contains_iff k m),
    λ h. ground (arith, o.cmp_iff k j, contains_iff k m),
  )

  pub In-add : (k j : K) (m : OrdSet K) → In j (add k m) ↔ ((j ≡ k) ⊎ In j m)
  unfolding add
  In-add k j [] = (λ h. h, λ h. h)
  In-add k j (i ∷ m) = (
    λ h. ground (arith, o.cmp_iff k i, In-add k j m),
    λ h. ground (arith, o.cmp_iff k i, In-add k j m),
  )

module _ {A K : Type 0} ⦃o : Ord K⦄ (key : A → K) where
  -- `sort_by_key` and `sort_by` over a key: stable, as an insertion from the right.
  unfoldable pub insert_by : A → List A → List A
  insert_by a [] = a ∷ []
  insert_by a (b ∷ bs) =
      let rest = insert_by a bs in
      elim (o.cmp (key a) (key b)) [ Ordering.gt ↦ b ∷ rest | _ ↦ a ∷ b ∷ bs ]

  unfoldable pub sort_by : List A → List A
  unfolding insert_by
  sort_by [] = []
  sort_by (a ∷ as') = insert_by a (sort_by as')
