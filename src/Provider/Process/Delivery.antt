-- ===== src/Provider/Process/Delivery.antt =====
-- Who receives a response of the broker's process, in crates/provider/src/broker.rs.
use wincred_libsecret_wsl_pl.Prelude.{
  subst, All, In, ◌≡◌, ◌<◌, ◌-◌, ◌^◌, sym, ap, ◌∙◌, arith, ℕ, inl, inr, Option-cases, some, none,
  List, [], ◌∷◌,
}
use wincred_libsecret_wsl_pl.Prelude.Order.{nat_ord}
use wincred_libsecret_wsl_pl.Prelude.OrdMap.{get, get-remove_self}
use wincred_libsecret_wsl_pl.Prelude.OrdMap.Every.{All-insert, All-remove, All-map, All-get}
use wincred_libsecret_wsl_pl.Protocol.Message.{Response}
use wincred_libsecret_wsl_pl.Provider.Process.{
  ProviderError, map_err, RunningBroker, Caller, Outcome, new_running, next_id, wait_for, abandon,
  deliver, drain,
}

-- The requests of a running broker so far: ids with their callers, the last one first.
abbrev pub History : Type 0
History = List (ℕ × Caller)

-- The interleavings of new ids, entries, failures to write, responses and the end, before the ids run out.
pub data Reachable : RunningBroker → History → Type 0 where
  start : Reachable new_running []
  numbered :
      (r : RunningBroker) (history : History) (caller : Caller)
      → Reachable r history
      → r.requests < 2 ^ 64 - 1
      → Reachable (next_id r).1 (((next_id r).0, caller) ∷ history)
  waiting :
      (r : RunningBroker) (history : History) (id : ℕ) (caller : Caller)
      → Reachable r history
      → In (id, caller) history
      → Reachable (wait_for id caller r) history
  abandoned :
      (r : RunningBroker) (history : History) (id : ℕ)
      → Reachable r history
      → Reachable (abandon id r) history
  delivered :
      (r : RunningBroker) (history : History) (response : Response)
      → Reachable r history
      → Reachable (deliver response r).1 history
  drained :
      (r : RunningBroker) (history : History) → Reachable r history → Reachable (drain r).1 history

-- No id was given out twice, later ones are larger, and those that wait were given out.
abbrev pub IsBelow : ℕ → ℕ × Caller → Type 0
IsBelow bound entry = entry.0 < bound

abbrev pub IsFresh : History → Type 0
IsFresh [] = Unit
IsFresh (entry ∷ history) = All (IsBelow entry.0) history × IsFresh history

abbrev pub IsSound : RunningBroker → History → Type 0
IsSound r history =
    All (IsBelow r.requests) history × IsFresh history × All (λ entry. In entry history) r.pending

deliver-IsSound :
    (response : Response) (r : RunningBroker) (history : History)
    → IsSound r history
    → IsSound (deliver response r).1 history
unfolding deliver
deliver-IsSound response r history h = elim (Option-cases (get response.request_id r.pending)) [
  | inl e ↦ rw (deliver, e) h
  | inr (caller, e) ↦ rw (deliver, e) (h.0, h.1, All-remove _ response.request_id r.pending h.2)
]

Reachable-IsSound :
    (r : RunningBroker) (history : History) → Reachable r history → IsSound r history
unfolding next_id wait_for abandon drain
Reachable-IsSound _ _ start = (tt, tt, tt)
Reachable-IsSound _ _ (numbered r history caller before small) =
    let h = Reachable-IsSound r history before in
    (
      (omega arith, All-map _ _ history (λ e q. omega (arith, q)) h.0),
      (h.0, h.1),
      All-map _ _ r.pending (λ e i. inr i) h.2,
    )
Reachable-IsSound _ _ (waiting r history id caller before i) =
    let h = Reachable-IsSound r history before in (h.0, h.1, All-insert _ id caller r.pending i h.2)
Reachable-IsSound _ _ (abandoned r history id before) =
    let h = Reachable-IsSound r history before in (h.0, h.1, All-remove _ id r.pending h.2)
Reachable-IsSound _ _ (delivered r history response before) =
    deliver-IsSound response r history (Reachable-IsSound r history before)
Reachable-IsSound _ _ (drained r history before) =
    let h = Reachable-IsSound r history before in (h.0, h.1, tt)

All-In : {A : Type 0} (P : A → Type 0) (a : A) (xs : List A) → All P xs → In a xs → P a
All-In P a [] h i = absurd i
All-In P a (x ∷ xs) h (inl e) = subst P (sym e) h.0
All-In P a (x ∷ xs) h (inr i) = All-In P a xs h.1 i

IsFresh-In :
    (history : History) (id : ℕ) (a b : Caller)
    → IsFresh history
    → In (id, a) history
    → In (id, b) history
    → b ≡ a
IsFresh-In [] id a b h i j = absurd i
IsFresh-In (x ∷ history) id a b h (inl e) (inl d) = ap (λ (p : ℕ × Caller). p.1) (d ∙ sym e)
IsFresh-In (x ∷ history) id a b h (inl e) (inr j) =
    omega (arith, All-In (IsBelow x.0) (id, b) history h.0 j, ap (λ (p : ℕ × Caller). p.0) e)
IsFresh-In (x ∷ history) id a b h (inr i) (inl d) =
    omega (arith, All-In (IsBelow x.0) (id, a) history h.0 i, ap (λ (p : ℕ × Caller). p.0) d)
IsFresh-In (x ∷ history) id a b h (inr i) (inr j) = IsFresh-In history id a b h.1 i j

-- Over any interleaving of new ids, entries, failures to write, responses and ends, before the ids
-- run out: a response that is delivered goes to the caller that was given its id, which no other
-- caller was given, with the response's result, and a second response with that id finds nobody.
pub deliver-own :
    (r : RunningBroker) (history : History) (response : Response) (caller : Caller)
    (outcome : Outcome)
    → Reachable r history
    → (deliver response r).0 ≡ some (caller, outcome)
    → In (response.request_id, caller) history
      × ((other : Caller) → In (response.request_id, other) history → other ≡ caller)
      × (outcome ≡ map_err ProviderError.broker response.result)
      × ((again : Response)
          → again.request_id ≡ response.request_id
          → (deliver again (deliver response r).1).0 ≡ none)
unfolding deliver
deliver-own r history response caller outcome before h =
    elim (Option-cases (get response.request_id r.pending)) [
      | inl e ↦ ground (arith, e, h)
      | inr (found, e) ↦ own found e (ground (arith, e, h))
    ]
  where
    sound : IsSound r history
    sound = Reachable-IsSound r history before

    listed :
        (found : Caller)
        → get response.request_id r.pending ≡ some found
        → In (response.request_id, found) history
    listed found e =
        All-get (λ entry. In entry history) response.request_id found r.pending e sound.2

    own :
        (found : Caller)
        → get response.request_id r.pending ≡ some found
        → (caller ≡ found) × (outcome ≡ map_err ProviderError.broker response.result)
        → In (response.request_id, caller) history
          × ((other : Caller) → In (response.request_id, other) history → other ≡ caller)
          × (outcome ≡ map_err ProviderError.broker response.result)
          × ((again : Response)
              → again.request_id ≡ response.request_id
              → (deliver again (deliver response r).1).0 ≡ none)
    own found e same = (
      subst (λ (x : Caller). In (response.request_id, x) history) (sym same.0) (listed found e),
      λ other i.
          IsFresh-In history response.request_id found other sound.1 (listed found e) i
          ∙ sym same.0,
      same.1,
      λ again q. ground (arith, e, q, get-remove_self response.request_id r.pending),
    )
