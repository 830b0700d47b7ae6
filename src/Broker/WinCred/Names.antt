-- ===== src/Broker/WinCred/Names.antt =====
-- The names of credentials in crates/broker/src/wincred.rs: Windows compares them without case.
use wincred_libsecret_wsl_pl.Prelude.{
  ℕ, zero, suc, ◌+◌, ◌≡◌, refl, sym, ap, ◌∙◌, inl, inr, Bool, true, false, ◌&&◌, List, [], ◌∷◌,
  ◌++◌, map, Text, codes, In, leb, ◌==◌, if◌then◌else◌, Bool-cases,
}
use wincred_libsecret_wsl_pl.Protocol.Model.{Uuid}
use wincred_libsecret_wsl_pl.Protocol.Target.{
  Crates, IsFaithful, TargetName, credential_prefix, display,
}
use wincred_libsecret_wsl_pl.Protocol.Target.RoundTrip.{display-injective}
use wincred_libsecret_wsl_pl.Broker.Windows.{WinApi, wide}
use wincred_libsecret_wsl_pl.Broker.Backend.On.{IsLawfulOn}
use wincred_libsecret_wsl_pl.Broker.WinCred.{wide_target, wincred_backend}
use wincred_libsecret_wsl_pl.Broker.WinCred.Manager.{ascii, IsAscii, IsManager}
use wincred_libsecret_wsl_pl.Broker.WinCred.Effects.{display-ascii, IsSpelled}
use wincred_libsecret_wsl_pl.Broker.WinCred.Lawful.{wincred_backend-IsLawfulOn}

-- An ASCII letter without its case.
abbrev pub lower : ℕ → ℕ
lower u = if leb 65 u && leb u 90 then u + 32 else u

abbrev pub lowered : Text → Text
lowered text = map lower text

-- Identifiers are printed without capitals.
abbrev pub IsLower : Crates → Type 0
IsLower c = (u : Uuid) → lowered (c.hyphenated u) ≡ c.hyphenated u

-- Of ASCII names, Windows takes those for the same that differ in case at most.
abbrev pub FoldsCase : {W : Type 0} {api : WinApi W} → IsManager api → Type 0
FoldsCase m =
    (s t : Text)
    → ascii s ≡ true
    → ascii t ≡ true
    → m.same (wide s) (wide t) ≡ true
    → lowered s ≡ lowered t

-- The targets of a vault whose aliases are listed.
abbrev pub Used : List Text → TargetName → Type 0
Used aliases (TargetName.alias name) = In name aliases
Used aliases _ = Unit {0}

lowered-append : (s t : Text) → lowered (s ++ t) ≡ lowered s ++ lowered t
lowered-append [] t = refl
lowered-append (u ∷ s) t = ap (λ l. lower u ∷ l) (lowered-append s t)

abbrev drop : ℕ → Text → Text
drop zero t = t
drop (suc k) [] = []
drop (suc k) (u ∷ t) = drop k t

abbrev head : Text → ℕ
head [] = 0
head (u ∷ t) = u

abbrev is_alias : TargetName → Bool
is_alias (TargetName.alias name) = true
is_alias _ = false

module _ (c : Crates) (f : IsFaithful c) where
  -- What a target's name has past the project's prefix.
  abbrev past_prefix : TargetName → Text
  past_prefix t = drop 20 (display c t)

  display_lem : (t : TargetName) → display c t ≡ credential_prefix ++ past_prefix t
  unfolding display
  display_lem (TargetName.collection id) = refl
  display_lem (TargetName.alias name) = refl
  display_lem (TargetName.item_metadata id) = refl
  display_lem (TargetName.item_secret id generation) = refl

  -- Without case, the first letter still tells an alias.
  head_lem : (t : TargetName) → is_alias t ≡ (head (lowered (past_prefix t)) == 97)
  unfolding display
  head_lem (TargetName.collection id) = refl
  head_lem (TargetName.alias name) = refl
  head_lem (TargetName.item_metadata id) = refl
  head_lem (TargetName.item_secret id generation) = refl

  lowered-past_prefix :
      IsLower c → (t : TargetName) → is_alias t ≡ false → lowered (past_prefix t) ≡ past_prefix t
  unfolding display
  lowered-past_prefix l (TargetName.collection id) h = ap (λ x. codes "collection/" ++ x) (l id)
  lowered-past_prefix l (TargetName.alias name) h = absurd (cc h)
  lowered-past_prefix l (TargetName.item_metadata id) h =
      ap (λ x. codes "item/" ++ x)
        (lowered-append (c.hyphenated id) (codes "/meta") ∙ ap (λ x. x ++ codes "/meta") (l id))
  lowered-past_prefix l (TargetName.item_secret id generation) h =
      ap (λ x. codes "item/" ++ x)
        (lowered-append (c.hyphenated id) (codes "/secret/" ++ c.hyphenated generation)
          ∙ ap (λ x. x ++ (codes "/secret/" ++ lowered (c.hyphenated generation))) (l id)
          ∙ ap (λ x. c.hyphenated id ++ (codes "/secret/" ++ x)) (l generation))

  -- The names of targets that are the same without case agree without case past the prefix.
  lowered-agree :
      (t u : TargetName)
      → lowered (display c t) ≡ lowered (display c u)
      → lowered (past_prefix t) ≡ lowered (past_prefix u)
  lowered-agree t u e = ap (drop 20) (
      sym (ap lowered (display_lem t) ∙ lowered-append credential_prefix (past_prefix t))
      ∙ e
      ∙ ap lowered (display_lem u)
      ∙ lowered-append credential_prefix (past_prefix u))

  module _ (l : IsLower c) (aliases : List Text)
      (distinct : (x y : Text)
        → In x aliases
        → In y aliases
        → lowered (c.base64_encode x) ≡ lowered (c.base64_encode y)
        → x ≡ y) where
    same_plain :
        (t u : TargetName)
        → is_alias t ≡ false
        → is_alias u ≡ false
        → lowered (past_prefix t) ≡ lowered (past_prefix u)
        → t ≡ u
    same_plain t u p q e = display-injective c f t u (
        display_lem t
        ∙ ap (λ x. credential_prefix ++ x)
            (sym (lowered-past_prefix l t p) ∙ e ∙ lowered-past_prefix l u q)
        ∙ sym (display_lem u))

    same_alias :
        (t u : TargetName)
        → is_alias t ≡ true
        → is_alias u ≡ true
        → Used aliases t
        → Used aliases u
        → lowered (past_prefix t) ≡ lowered (past_prefix u)
        → t ≡ u
    unfolding display
    same_alias (TargetName.alias x) (TargetName.alias y) p q i j e =
        ap TargetName.alias (distinct x y i j (ap (drop 6) e))
    same_alias (TargetName.alias x) (TargetName.collection id) p q i j e = absurd (cc q)
    same_alias (TargetName.alias x) (TargetName.item_metadata id) p q i j e = absurd (cc q)
    same_alias (TargetName.alias x) (TargetName.item_secret id g) p q i j e = absurd (cc q)
    same_alias (TargetName.collection id) u p q i j e = absurd (cc p)
    same_alias (TargetName.item_metadata id) u p q i j e = absurd (cc p)
    same_alias (TargetName.item_secret id g) u p q i j e = absurd (cc p)

    Used-distinct :
        (t u : TargetName)
        → Used aliases t
        → Used aliases u
        → lowered (display c t) ≡ lowered (display c u)
        → t ≡ u
    Used-distinct t u i j e =
        let past = lowered-agree t u e in
        let kind : is_alias t ≡ is_alias u =
          head_lem t ∙ ap (λ x. head x == 97) past ∙ sym (head_lem u) in
        elim (Bool-cases (is_alias t)) [
          | inl p ↦ same_alias t u p (sym kind ∙ p) i j past
          | inr p ↦ same_plain t u p (sym kind ∙ p) past
        ]

    module _ (a : IsAscii c) {W : Type 0} (api : WinApi W) (m : IsManager api)
        (folds : FoldsCase m) where
      pub Used-apart :
          (t u : TargetName)
          → Used aliases t
          → Used aliases u
          → m.same (wide_target c t) (wide_target c u) ≡ true
          → t ≡ u
      unfolding wide_target
      Used-apart t u i j e =
          Used-distinct t u i j
            (folds (display c t) (display c u) (display-ascii c a t) (display-ascii c a u) e)

      -- With faithful crates whose texts are ASCII and which print identifiers without capitals, a
      -- Windows store that keeps credentials by name and takes ASCII names for the same only if
      -- they differ in case at most, and a list of aliases whose encodings differ by more than
      -- case, the Windows backend satisfies the laws of the backend on the targets of a vault with
      -- aliases of that list, with good states those in which each of its credentials is spelled
      -- as its target.
      pub wincred_backend-IsLawful :
          IsLawfulOn
            (Used aliases)
            c
            (wincred_backend c api)
            (IsSpelled c api m (Used aliases) Used-apart)
      wincred_backend-IsLawful = wincred_backend-IsLawfulOn c f a api m (Used aliases) Used-apart
