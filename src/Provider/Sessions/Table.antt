-- ===== src/Provider/Sessions/Table.antt =====
-- The departure of an owner from the table of sessions of crates/provider/src/service.rs.
use wincred_libsecret_wsl_pl.Prelude.{
  Bool, ◌≡◌, ◌↔◌, ap, some, not, inl, inr, arith, List, [], ◌∷◌, text_eq, text_eq_iff, Text, map,
  keep, In,
}
use wincred_libsecret_wsl_pl.Prelude.Order.{nat_ord}
use wincred_libsecret_wsl_pl.Prelude.OrdMap.{get, IsUnique, get→In, In→get}
use wincred_libsecret_wsl_pl.Prelude.OrdMap.Filter.{keep-IsUnique, get-keep_iff}
use wincred_libsecret_wsl_pl.Provider.Sessions.{Uuid, Sessions, SessionRecord, remove_owner}

abbrev ids : Sessions → List Uuid
ids sessions = map (λ (entry : Uuid × SessionRecord). entry.0) sessions

In-ids :
    (id : Uuid) (sessions : Sessions)
    → In id (ids sessions)
    → (r : SessionRecord) × In (id, r) sessions
In-ids id [] h = absurd h
In-ids id ((j, r) ∷ sessions) (inl e) = (r, inl (λ k. (e k, r)))
In-ids id ((j, r) ∷ sessions) (inr h) = let (q, rest) = In-ids id sessions h in (q, inr rest)

ids-In :
    (id : Uuid) (r : SessionRecord) (sessions : Sessions)
    → In (id, r) sessions
    → In id (ids sessions)
ids-In id r [] h = absurd h
ids-In id r ((j, q) ∷ sessions) (inl e) = inl (ap (λ (x : Uuid × SessionRecord). x.0) e)
ids-In id r ((j, q) ∷ sessions) (inr h) = inr (ids-In id r sessions h)

-- With one session per id, `remove_owner` leaves the sessions of the other owners as they were,
-- and reports exactly the ids of that owner's sessions.
pub remove_owner_iff :
    (sessions : Sessions) (owner : Text) (id : Uuid)
    → IsUnique sessions
    → ((r : SessionRecord)
        → (get id (remove_owner owner sessions).1 ≡ some r)
          ↔ ((get id sessions ≡ some r) × ¬ (r.owner ≡ owner)))
      × (In id (remove_owner owner sessions).0
          ↔ ((r : SessionRecord) × (get id sessions ≡ some r) × (r.owner ≡ owner)))
unfolding remove_owner
remove_owner_iff sessions owner id unique = (λ r. stays r, (reported, taken))
  where
    others : Uuid × SessionRecord → Bool
    others entry = not (text_eq entry.1.owner owner)

    mine : Uuid × SessionRecord → Bool
    mine entry = text_eq entry.1.owner owner

    stays :
        (r : SessionRecord)
        → (get id (remove_owner owner sessions).1 ≡ some r)
          ↔ ((get id sessions ≡ some r) × ¬ (r.owner ≡ owner))
    stays r = (
      λ h.
          ground (arith, (get-keep_iff others id r sessions unique).0 h, text_eq_iff r.owner owner),
      λ h.
          (get-keep_iff others id r sessions unique).1
            (h.0, ground (arith, text_eq_iff r.owner owner, h.1)),
    )

    reported :
        In id (remove_owner owner sessions).0
        → (r : SessionRecord) × (get id sessions ≡ some r) × (r.owner ≡ owner)
    reported h =
        let (r, i) = In-ids id (keep mine sessions) h in
        let q =
          (get-keep_iff mine id r sessions unique).0
            (In→get id r _ (keep-IsUnique mine sessions unique) i) in
        (r, q.0, (text_eq_iff r.owner owner).0 q.1)

    taken :
        ((r : SessionRecord) × (get id sessions ≡ some r) × (r.owner ≡ owner))
        → In id (remove_owner owner sessions).0
    taken (r, g, e) = ids-In id r (keep mine sessions) (
        get→In id r (keep mine sessions)
          ((get-keep_iff mine id r sessions unique).1 (g, (text_eq_iff r.owner owner).1 e)))
