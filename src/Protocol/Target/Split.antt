-- ===== src/Protocol/Target/Split.antt =====
-- `str::split` at a byte, against concatenation.
use wincred_libsecret_wsl_pl.Prelude.{
  ℕ, ◌≡◌, refl, ap, ◌∙◌, false, List, [], ◌∷◌, ◌++◌, Text, contains_byte, arith, ◌==◌, Bool-cases,
  inl, inr, ==_iff,
}
use wincred_libsecret_wsl_pl.Protocol.Target.{split, cons_head}

pub split_no_sep : (sep : ℕ) (a : Text) → contains_byte sep a ≡ false → split sep a ≡ a ∷ []
unfolding split
split_no_sep sep [] h = refl
split_no_sep sep (c ∷ cs) h = ground (arith, split_no_sep sep cs)

pub split-append :
    (sep : ℕ) (a b : Text)
    → contains_byte sep a ≡ false
    → split sep (a ++ (sep ∷ b)) ≡ a ∷ split sep b
unfolding split
split-append sep [] b h = ground arith
split-append sep (c ∷ cs) b h = ground (arith, split-append sep cs b)

-- The parts with the separator between them.
abbrev pub join : ℕ → List Text → Text
join sep [] = []
join sep (p ∷ []) = p
join sep (p ∷ q ∷ ps) = p ++ (sep ∷ join sep (q ∷ ps))

join-cons_head :
    (sep c : ℕ) (p : Text) (ps : List Text)
    → join sep (cons_head c (p ∷ ps)) ≡ c ∷ join sep (p ∷ ps)
join-cons_head sep c p [] = refl
join-cons_head sep c p (q ∷ ps) = refl

split_first : (sep : ℕ) (t : Text) → (p : Text) × (ps : List Text) × (split sep t ≡ p ∷ ps)
unfolding split
split_first sep [] = ([], [], refl)
split_first sep (c ∷ cs) = elim (Bool-cases (c == sep)) [
  | inl e ↦ ([], split sep cs, rw e)
  | inr e ↦ let (p, ps, h) = split_first sep cs in (c ∷ p, ps, rw (e, h))
]

pub join-split : (sep : ℕ) (t : Text) → join sep (split sep t) ≡ t
unfolding split
join-split sep [] = refl
join-split sep (c ∷ cs) =
    let (p, ps, h) = split_first sep cs in
    let ih : join sep (p ∷ ps) ≡ cs = rw h at (join-split sep cs) in
    elim (Bool-cases (c == sep)) [
      | inl e ↦ rw (e, h) (cc ((==_iff c sep).0 e, ih))
      | inr e ↦ rw (e, h) (join-cons_head sep c p ps ∙ ap (λ t. c ∷ t) ih)
    ]
