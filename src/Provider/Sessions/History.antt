-- ===== src/Provider/Sessions/History.antt =====
-- The table of sessions of crates/provider/src/service.rs over any run of its methods.
use wincred_libsecret_wsl_pl.Prelude.{
  ◌≡◌, refl, sym, ap, ◌∙◌, Option, none, some, List, [], ◌∷◌, inl, inr, arith, text_eq, text_eq_iff,
  Text, ◌==◌, ==_iff, if◌then◌else◌, Bool-cases, Option-cases,
}
use wincred_libsecret_wsl_pl.Prelude.Order.{nat_ord}
use wincred_libsecret_wsl_pl.Prelude.OrdMap.{
  remove, get, IsUnique, insert-IsUnique, remove-IsUnique, get-insert_self, get-insert_ne,
  get-remove_self, get-remove_ne,
}
use wincred_libsecret_wsl_pl.Prelude.OrdMap.Filter.{keep-IsUnique}
use wincred_libsecret_wsl_pl.Prelude.Results.{Result-cases}
use wincred_libsecret_wsl_pl.Provider.Sessions.Table.{remove_owner_iff}
use wincred_libsecret_wsl_pl.Provider.Sessions.{
  Uuid, Sessions, SessionRecord, insert_session, close_session, remove_owner, own_session,
}
use wincred_libsecret_wsl_pl.Provider.Crypto.{SessionKey}

-- A session that was opened, a call that closes one, and the departure of an owner from the bus.
pub data Event : Type 0 where
  opened : Uuid → Text → SessionKey → Event
  closed : Uuid → Text → Event
  departed : Text → Event

-- What the provider does to its table, the events with the last one first.
abbrev pub table_after : List Event → Sessions
table_after [] = []
table_after (opened id owner key ∷ events) = insert_session id owner key (table_after events)
table_after (closed id owner ∷ events) = (close_session id owner (table_after events)).1
table_after (departed owner ∷ events) = (remove_owner owner (table_after events)).1

-- A session unless it is this owner's.
abbrev pub unless_of : Text → Option SessionRecord → Option SessionRecord
unless_of owner none = none
unless_of owner (some session) = if text_eq session.owner owner then none else some session

-- The session of an id that is open after the events.
abbrev pub open_after : List Event → Uuid → Option SessionRecord
open_after [] i = none
open_after (opened id owner key ∷ events) i =
    if id == i then some (record { owner = owner; key = key }) else open_after events i
open_after (closed id owner ∷ events) i =
    if id == i then unless_of owner (open_after events i) else open_after events i
open_after (departed owner ∷ events) i = unless_of owner (open_after events i)

close_session-IsUnique :
    (id : Uuid) (owner : Text) (sessions : Sessions)
    → IsUnique sessions
    → IsUnique (close_session id owner sessions).1
unfolding close_session
close_session-IsUnique id owner sessions u = elim (Result-cases (own_session owner id sessions)) [
  | inl (r, e) ↦ rw (close_session, e) (remove-IsUnique id sessions u)
  | inr (x, e) ↦ rw (close_session, e) u
]

table_after-IsUnique : (events : List Event) → IsUnique (table_after events)
unfolding insert_session remove_owner
table_after-IsUnique [] = tt
table_after-IsUnique (opened id owner key ∷ events) =
    insert-IsUnique id _ _ (table_after-IsUnique events)
table_after-IsUnique (closed id owner ∷ events) =
    close_session-IsUnique id owner _ (table_after-IsUnique events)
table_after-IsUnique (departed owner ∷ events) = keep-IsUnique _ _ (table_after-IsUnique events)

get-insert_session :
    (id i : Uuid) (owner : Text) (key : SessionKey) (sessions : Sessions)
    → get i (insert_session id owner key sessions)
      ≡ (if id == i then some (record { owner = owner; key = key }) else get i sessions)
unfolding insert_session
get-insert_session id i owner key sessions = elim (Bool-cases (id == i)) [
  | inl same ↦
      let e : id ≡ i = (==_iff id i).0 same in rw same (rw (sym e) (get-insert_self id _ sessions))
  | inr differs ↦ rw differs (get-insert_ne id i _ sessions (λ e. ground (arith, e, differs)))
]

get-close_session :
    (id i : Uuid) (owner : Text) (sessions : Sessions)
    → get i (close_session id owner sessions).1
      ≡ (if id == i then unless_of owner (get i sessions) else get i sessions)
unfolding close_session own_session
get-close_session id i owner sessions = elim (Option-cases (get id sessions)) [
  | inl missing ↦ elim (Bool-cases (id == i)) [
    | inl same ↦
        let e : get i sessions ≡ none =
          ap (λ k. get k sessions) (sym ((==_iff id i).0 same)) ∙ missing in
        ground (arith, missing, same, e)
    | inr differs ↦ ground (arith, missing, differs)
  ]
  | inr (session, found) ↦ elim (Bool-cases (text_eq session.owner owner)) [
    | inl own ↦ elim (Bool-cases (id == i)) [
      | inl same ↦
          let e : get i sessions ≡ some session =
            ap (λ k. get k sessions) (sym ((==_iff id i).0 same)) ∙ found in
          let gone : get i (remove id sessions) ≡ none =
            ap (λ k. get k (remove id sessions)) (sym ((==_iff id i).0 same))
            ∙ get-remove_self id sessions in
          ground (arith, found, own, same, e, gone)
      | inr differs ↦
          let kept : get i (remove id sessions) ≡ get i sessions =
            get-remove_ne id i sessions (λ e. ground (arith, e, differs)) in
          ground (arith, found, own, differs, kept)
    ]
    | inr foreign ↦ elim (Bool-cases (id == i)) [
      | inl same ↦
          let e : get i sessions ≡ some session =
            ap (λ k. get k sessions) (sym ((==_iff id i).0 same)) ∙ found in
          ground (arith, found, foreign, same, e)
      | inr differs ↦ ground (arith, found, foreign, differs)
    ]
  ]
]

get-remove_owner :
    (i : Uuid) (owner : Text) (sessions : Sessions)
    → IsUnique sessions
    → get i (remove_owner owner sessions).1 ≡ unless_of owner (get i sessions)
get-remove_owner i owner sessions u =
    let stays = (remove_owner_iff sessions owner i u).0 in
    elim (Option-cases (get i (remove_owner owner sessions).1)) [
      | inr (r, e) ↦
          let (found, foreign) = (stays r).0 e in
          ground (arith, e, found, foreign, text_eq_iff r.owner owner)
      | inl e ↦ elim (Option-cases (get i sessions)) [
        | inl missing ↦ ground (arith, e, missing)
        | inr (r, found) ↦ elim (Bool-cases (text_eq r.owner owner)) [
          | inl own ↦ ground (arith, e, found, own)
          | inr foreign ↦
              let back =
                (stays r).1
                  (found, λ same. ground (arith, foreign, (text_eq_iff r.owner owner).1 same)) in
              absurd (cc (e, back))
        ]
      ]
    ]

-- After any run of openings of sessions, calls that close one, and departures of owners from the
-- bus, the table has for each id the session that was opened last with it, unless its own owner
-- has since closed it or left.
pub get-table_after :
    (events : List Event) (i : Uuid) → get i (table_after events) ≡ open_after events i
unfolding get
get-table_after [] i = refl
get-table_after (opened id owner key ∷ events) i =
    get-insert_session id i owner key (table_after events)
    ∙ ap (λ o. if id == i then some (record { owner = owner; key = key }) else o)
        (get-table_after events i)
get-table_after (closed id owner ∷ events) i =
    get-close_session id i owner (table_after events)
    ∙ ap (λ o. if id == i then unless_of owner o else o) (get-table_after events i)
get-table_after (departed owner ∷ events) i =
    get-remove_owner i owner (table_after events) (table_after-IsUnique events)
    ∙ ap (unless_of owner) (get-table_after events i)
