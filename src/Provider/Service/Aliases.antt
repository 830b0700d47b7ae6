-- ===== src/Provider/Service/Aliases.antt =====
-- `Provider::aliases` of crates/provider/src/service.rs: the aliases by name, each name once.
use Prim.Native.Nat.{compare, Ordering}
use Prim.Native.Nat.Ordering.{lt, eq, gt}
use wincred_libsecret_wsl_pl.Prelude.{
  ◌≡◌, ◌≢◌, ◌↔◌, ◌⊎◌, inl, inr, refl, sym, subst, arith, false, Bool-cases, List, [], ◌∷◌, map,
  Text, In, text_eq, text_eq_iff, if◌then◌else◌, ok,
}
use wincred_libsecret_wsl_pl.Prelude.Exec.{Exec, pure, ◌>>=◌}
use wincred_libsecret_wsl_pl.Prelude.Order.{Ord, nat_ord, text_ord, then, cmp_text, text-cmp_iff}
use wincred_libsecret_wsl_pl.Prelude.OrdMap.{sort_by, insert_by}
use wincred_libsecret_wsl_pl.Protocol.Model.{Uuid, AliasMetadata}
use wincred_libsecret_wsl_pl.Protocol.Message.{Operation}
use wincred_libsecret_wsl_pl.Provider.Errors.{ProviderError}
use wincred_libsecret_wsl_pl.Provider.Service.{BrokerClient, ask, as_aliases}

-- `left.name.cmp(&right.name).then_with(|| left.collection_id.cmp(&right.collection_id))`
abbrev pub cmp_alias : Text × Uuid → Text × Uuid → Ordering
cmp_alias x y = (then) (cmp_text x.0 y.0) (compare x.1 y.1)

pub alias-cmp_iff : (x y : Text × Uuid) → (cmp_alias x y ≡ eq) ↔ (x ≡ y)
alias-cmp_iff x y =
    (λ h. ground (arith, text-cmp_iff x.0 y.0), λ h. ground (arith, text-cmp_iff x.0 y.0))

abbrev pub alias_ord : Ord (Text × Uuid)
alias_ord = record { cmp = cmp_alias; cmp_iff = alias-cmp_iff }

abbrev pub alias_key : AliasMetadata → Text × Uuid
alias_key a = (a.name, a.collection_id)

-- `dedup_by` on the names, past the first alias of a run.
unfoldable pub dedup_from : AliasMetadata → List AliasMetadata → List AliasMetadata
dedup_from last [] = last ∷ []
dedup_from last (a ∷ rest) =
    let same = dedup_from last rest in
    let next = dedup_from a rest in if text_eq a.name last.name then same else last ∷ next

unfoldable pub dedup_names : List AliasMetadata → List AliasMetadata
unfolding dedup_from
dedup_names [] = []
dedup_names (a ∷ rest) = dedup_from a rest

unfoldable pub ordered : List AliasMetadata → List AliasMetadata
unfolding dedup_names
ordered found = dedup_names (sort_by ⦃o = alias_ord⦄ alias_key found)

unfoldable pub aliases : {W : Type 0} → BrokerClient W → Exec W ProviderError (List AliasMetadata)
aliases call = do found ← ask call as_aliases Operation.list_aliases; pure (ordered found)

-- The first of a list, when there is one, comes after a value.
abbrev pub Before : (Text → Text → Type 0) → Text → List AliasMetadata → Type 0
Before R name [] = Unit
Before R name (a ∷ rest) = R name a.name

abbrev pub IsChain : (Text → Text → Type 0) → List AliasMetadata → Type 0
IsChain R [] = Unit
IsChain R (a ∷ rest) = Before R a.name rest × IsChain R rest

abbrev pub IsBelow : Text → Text → Type 0
IsBelow x y = cmp_text x y ≡ lt

abbrev IsUpTo : Text → Text → Type 0
IsUpTo x y = cmp_text x y ≢ gt

cmp_text_flip : (x y : Text) → cmp_text x y ≡ gt → cmp_text y x ≡ lt
unfolding cmp_text
cmp_text_flip [] [] h = ground arith
cmp_text_flip [] (b ∷ y) h = ground arith
cmp_text_flip (a ∷ x) [] h = ground arith
cmp_text_flip (a ∷ x) (b ∷ y) h = ground (arith, cmp_text_flip x y)

cmp_text_flip_eq : (x y : Text) → cmp_text x y ≡ eq → cmp_text y x ≡ eq
cmp_text_flip_eq x y h = (text-cmp_iff y x).1 (sym ((text-cmp_iff x y).0 h))

Before-insert_by :
    (x : Text) (a : AliasMetadata) (bs : List AliasMetadata)
    → IsUpTo x a.name
    → Before IsUpTo x bs
    → Before IsUpTo x (insert_by ⦃o = alias_ord⦄ alias_key a bs)
unfolding insert_by
Before-insert_by x a [] h k = h
Before-insert_by x a (b ∷ bs) h k = ground arith

gt-cases : (o : Ordering) → (o ≡ gt) ⊎ (o ≢ gt)
gt-cases lt = inr (λ e. ground arith)
gt-cases eq = inr (λ e. ground arith)
gt-cases gt = inl refl

insert_by-IsChain :
    (a : AliasMetadata) (as' : List AliasMetadata)
    → IsChain IsUpTo as'
    → IsChain IsUpTo (insert_by ⦃o = alias_ord⦄ alias_key a as')
unfolding insert_by cmp_text
insert_by-IsChain a [] h = (tt, tt)
insert_by-IsChain a (b ∷ bs) h = elim (gt-cases (cmp_alias (alias_key a) (alias_key b))) [
  | inl e ↦ rw (e) (Before-insert_by b.name a bs (after e) h.0, insert_by-IsChain a bs h.1)
  | inr n ↦ ground (arith, n, h, before n)
]
  where
    after : cmp_alias (alias_key a) (alias_key b) ≡ gt → IsUpTo b.name a.name
    after e = ground (arith, cmp_text_flip a.name b.name, cmp_text_flip_eq a.name b.name)

    before : cmp_alias (alias_key a) (alias_key b) ≢ gt → IsUpTo a.name b.name
    before n = ground arith

sort_by-IsChain :
    (as' : List AliasMetadata) → IsChain IsUpTo (sort_by ⦃o = alias_ord⦄ alias_key as')
unfolding sort_by
sort_by-IsChain [] = tt
sort_by-IsChain (a ∷ rest) = insert_by-IsChain a _ (sort_by-IsChain rest)

Before-dedup_from :
    (x : Text) (last : AliasMetadata) (rest : List AliasMetadata)
    → IsBelow x last.name
    → Before IsBelow x (dedup_from last rest)
unfolding dedup_from
Before-dedup_from x last [] h = h
Before-dedup_from x last (a ∷ rest) h = ground (arith, Before-dedup_from x last rest h)

dedup_from-IsChain :
    (last : AliasMetadata) (rest : List AliasMetadata)
    → Before IsUpTo last.name rest
    → IsChain IsUpTo rest
    → IsChain IsBelow (dedup_from last rest)
unfolding dedup_from
dedup_from-IsChain last [] b h = (tt, tt)
dedup_from-IsChain last (a ∷ rest) b h = elim (Bool-cases (text_eq a.name last.name)) [
  | inl e ↦ rw (e) (
      dedup_from-IsChain last rest
        (subst (λ (n : Text). Before IsUpTo n rest) ((text_eq_iff a.name last.name).0 e) h.0) h.1)
  | inr e ↦
      rw (e) (Before-dedup_from last.name a rest (strict e), dedup_from-IsChain a rest h.0 h.1)
]
  where
    strict : text_eq a.name last.name ≡ false → IsBelow last.name a.name
    strict e = ground (arith, b, text-cmp_iff last.name a.name, text_eq_iff a.name last.name)

ordered-IsChain : (as' : List AliasMetadata) → IsChain IsBelow (ordered as')
unfolding ordered
ordered-IsChain as' = go _ (sort_by-IsChain as')
  where
    go : (bs : List AliasMetadata) → IsChain IsUpTo bs → IsChain IsBelow (dedup_names bs)
    go [] h = tt
    go (b ∷ bs) h = dedup_from-IsChain b bs h.0 h.1

abbrev pub names : List AliasMetadata → List Text
names as' = map (λ (a : AliasMetadata). a.name) as'

In-insert_by :
    (n : Text) (a : AliasMetadata) (bs : List AliasMetadata)
    → In n (names (insert_by ⦃o = alias_ord⦄ alias_key a bs)) ↔ ((n ≡ a.name) ⊎ In n (names bs))
unfolding insert_by
In-insert_by n a [] = (λ h. h, λ h. h)
In-insert_by n a (b ∷ bs) =
    (λ h. ground (arith, In-insert_by n a bs, h), λ h. ground (arith, In-insert_by n a bs, h))

In-sort_by :
    (n : Text) (as' : List AliasMetadata)
    → In n (names (sort_by ⦃o = alias_ord⦄ alias_key as')) ↔ In n (names as')
unfolding sort_by
In-sort_by n [] = (λ h. h, λ h. h)
In-sort_by n (a ∷ rest) = (
  λ h. elim ((In-insert_by n a (sort_by ⦃o = alias_ord⦄ alias_key rest)).0 h) [
    | inl e ↦ inl e
    | inr i ↦ inr ((In-sort_by n rest).0 i)
  ],
  λ h.
      (In-insert_by n a (sort_by ⦃o = alias_ord⦄ alias_key rest)).1
        (elim h [ inl e ↦ inl e | inr i ↦ inr ((In-sort_by n rest).1 i) ]),
)

In-dedup_from :
    (n : Text) (last : AliasMetadata) (rest : List AliasMetadata)
    → In n (names (dedup_from last rest)) ↔ ((n ≡ last.name) ⊎ In n (names rest))
unfolding dedup_from
In-dedup_from n last [] = (λ h. h, λ h. h)
In-dedup_from n last (a ∷ rest) = (
  λ h.
      ground
        (arith, In-dedup_from n last rest, In-dedup_from n a rest, text_eq_iff a.name last.name, h),
  λ h.
      ground
        (arith, In-dedup_from n last rest, In-dedup_from n a rest, text_eq_iff a.name last.name, h),
)

In-dedup_names :
    (n : Text) (as' : List AliasMetadata) → In n (names (dedup_names as')) ↔ In n (names as')
unfolding dedup_names
In-dedup_names n [] = (λ h. h, λ h. h)
In-dedup_names n (a ∷ rest) = In-dedup_from n a rest

In-ordered : (n : Text) (as' : List AliasMetadata) → In n (names (ordered as')) ↔ In n (names as')
unfolding ordered
In-ordered n as' = (
  λ h. (In-sort_by n as').0 ((In-dedup_names n _).0 h),
  λ h. (In-dedup_names n _).1 ((In-sort_by n as').1 h),
)

-- Where the broker's answer is a list of aliases, `aliases` returns aliases in strictly ascending
-- order of their names, and their names are those of the answer.
pub aliases-ascending :
    {W : Type 0} (call : BrokerClient W) (w : W) (listed : List AliasMetadata)
    → (ask call as_aliases Operation.list_aliases w).0 ≡ ok listed
    → (found : List AliasMetadata) × ((aliases call w).0 ≡ ok found)
      × IsChain IsBelow found
      × ((n : Text) → In n (names found) ↔ In n (names listed))
unfolding aliases ◌>>=◌
aliases-ascending call w listed h =
    (ordered listed, ground (arith, h), ordered-IsChain listed, λ n. In-ordered n listed)
