-- ===== src/Tests/Windows.antt =====
-- Runs of the Windows store over a manager that has room for one credential.
use wincred_libsecret_wsl_pl.Prelude.{
  ℕ, zero, suc, ◌≡◌, refl, sym, ◌∙◌, ap, true, Option, none, some, List, [], ◌∷◌, ◌++◌, map, Text,
  ok,
}
use wincred_libsecret_wsl_pl.Tests.Unary.{
  ones, joined, unary, unary-IsFaithful, unary-IsAscii, wide-ascii, body, body-append,
}
use wincred_libsecret_wsl_pl.Tests.Room.{
  Room, one_room, one_room-IsManager, same_name, same_name_iff,
}
use wincred_libsecret_wsl_pl.Protocol.Model.{Blob}
use wincred_libsecret_wsl_pl.Protocol.Target.{TargetName, display}
use wincred_libsecret_wsl_pl.Broker.Windows.{wide, encode_utf16}
use wincred_libsecret_wsl_pl.Broker.WinCred.{
  write, read, read_result, WinState, wide_target, wincred_backend,
}
use wincred_libsecret_wsl_pl.Broker.Backend.{VaultBackend}
use wincred_libsecret_wsl_pl.Broker.Samples.{crates}
use wincred_libsecret_wsl_pl.Broker.WinCred.Effects.{IsSpelled}
use wincred_libsecret_wsl_pl.Prelude.{In, inl, inr, length}
use wincred_libsecret_wsl_pl.Broker.Backend.On.{IsLawfulOn}
use wincred_libsecret_wsl_pl.Broker.WinCred.Manager.{ascii}
use wincred_libsecret_wsl_pl.Broker.WinCred.Names.{
  lower, lowered, FoldsCase, Used, Used-apart, wincred_backend-IsLawful,
}
use wincred_libsecret_wsl_pl.Broker.WinCred.Case.{read-write_same}

lowered-ones : (n : ℕ) → lowered (ones n) ≡ ones n
lowered-ones zero = refl
lowered-ones (suc n) = ap (λ l. 97 ∷ l) (lowered-ones n)

-- The manager ignores case.
one_room-FoldsCase : FoldsCase (one_room-IsManager lower)
one_room-FoldsCase s t p q h =
    sym (body-append (lowered s))
    ∙ ap body
        (sym (lowered-wide s p) ∙ (same_name_iff lower (wide s) (wide t)).0 h ∙ lowered-wide t q)
    ∙ body-append (lowered t)
  where
    lowered-end : (r : Text) → lowered (r ++ (0 ∷ [])) ≡ lowered r ++ (0 ∷ [])
    lowered-end [] = refl
    lowered-end (u ∷ r) = ap (λ l. lower u ∷ l) (lowered-end r)

    lowered-wide : (r : Text) → ascii r ≡ true → map lower (wide r) ≡ lowered r ++ (0 ∷ [])
    lowered-wide r h = ap lowered (wide-ascii r h) ∙ lowered-end r

-- Two aliases whose encodings differ by more than case; that of `2` and that of `1, 0` would not.
abbrev two_aliases : List Text
two_aliases = (2 ∷ []) ∷ (5 ∷ []) ∷ []

two_aliases-distinct :
    (x y : Text)
    → In x two_aliases
    → In y two_aliases
    → lowered (joined x) ≡ lowered (joined y)
    → x ≡ y
two_aliases-distinct x y (inl p) (inl q) e = p ∙ sym q
two_aliases-distinct x y (inl p) (inr (inl q)) e =
    absurd (differ (ap (λ t. lowered (joined t)) (sym p) ∙ e ∙ ap (λ t. lowered (joined t)) q))
  where
    differ : ¬ (lowered (joined (2 ∷ [])) ≡ lowered (joined (5 ∷ [])))
    differ h = cc (ap length h)
two_aliases-distinct x y (inr (inl p)) (inl q) e =
    absurd (differ (ap (λ t. lowered (joined t)) (sym p) ∙ e ∙ ap (λ t. lowered (joined t)) q))
  where
    differ : ¬ (lowered (joined (5 ∷ [])) ≡ lowered (joined (2 ∷ [])))
    differ h = cc (ap length h)
two_aliases-distinct x y (inr (inl p)) (inr (inl q)) e = p ∙ sym q
two_aliases-distinct x y (inr (inr p)) j e = absurd p
two_aliases-distinct x y (inl p) (inr (inr q)) e = absurd q
two_aliases-distinct x y (inr (inl p)) (inr (inr q)) e = absurd q

wincred_backend-IsLawful_example :
    IsLawfulOn (Used two_aliases) unary (wincred_backend unary (one_room lower)) (
      IsSpelled unary (one_room lower) (one_room-IsManager lower) (Used two_aliases) (
        Used-apart unary unary-IsFaithful lowered-ones two_aliases two_aliases-distinct
          unary-IsAscii
          (one_room lower)
          (one_room-IsManager lower)
          one_room-FoldsCase))
wincred_backend-IsLawful_example =
    wincred_backend-IsLawful unary unary-IsFaithful lowered-ones two_aliases two_aliases-distinct
      unary-IsAscii (one_room lower) (one_room-IsManager lower) one_room-FoldsCase

abbrev empty : WinState Room
empty = record { system = none; guard = none }

-- Two aliases whose encodings are `A` and `a`.
abbrev upper_alias : TargetName
upper_alias = TargetName.alias (17 ∷ [])

abbrev lower_alias : TargetName
lower_alias = TargetName.alias (49 ∷ [])

abbrev lower_backend : VaultBackend (WinState Room)
lower_backend = wincred_backend crates (one_room lower)

aliases_same :
    same_name lower (wide_target crates upper_alias) (wide_target crates lower_alias) ≡ true
unfolding wide_target wide display encode_utf16
aliases_same = refl

alias_written : (lower_backend.write upper_alias (5 ∷ []) empty).0 ≡ ok tt
unfolding write
alias_written = refl

alias_read :
    (lower_backend.read lower_alias (lower_backend.write upper_alias (5 ∷ []) empty).1).0
    ≡ ok (some (5 ∷ []))
unfolding write read read_result wide_target wide display encode_utf16
alias_read = refl

read-write_same_example : ◌≡◌ {A = Option Blob} (some (5 ∷ [])) (some (5 ∷ []))
read-write_same_example =
    read-write_same crates (one_room lower) (one_room-IsManager lower) upper_alias lower_alias
      (5 ∷ []) empty (some (5 ∷ [])) aliases_same alias_written alias_read
