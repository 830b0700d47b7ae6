-- ===== src/Cli/Trim.antt =====
-- `str::trim` and `str::lines`, which crates/cli calls on the output of a command.
use wincred_libsecret_wsl_pl.Prelude.{
  List, ℕ, zero, suc, Bool, List, ◌&&◌, ◌||◌, Option, none, some, [], ◌∷◌, Text, length, leb, ◌==◌,
  if◌then◌else◌,
}
use wincred_libsecret_wsl_pl.Protocol.Errors.{starts_with}
use wincred_libsecret_wsl_pl.Protocol.Target.{cons_head}

-- The Unicode white space characters, by the number of bytes of their UTF-8 form.
abbrev space1 : ℕ → Bool
space1 a = (leb 9 a && leb a 13) || a == 32

abbrev space2 : ℕ → ℕ → Bool
space2 a b = a == 194 && (b == 133 || b == 160)

abbrev space3 : ℕ → ℕ → ℕ → Bool
space3 a b c =
    (a == 225 && b == 154 && c == 128)
    || (a == 226 && b == 128 && (leb 128 c && leb c 138 || c == 168 || c == 169 || c == 175))
    || (a == 226 && b == 129 && c == 159)
    || (a == 227 && b == 128 && c == 128)

-- The text past one white space character, from the front and, in a reversed text, from the back.
abbrev pub drop_front : Text → Option Text
drop_front [] = none
drop_front (a ∷ []) = if space1 a then some [] else none
drop_front (a ∷ b ∷ []) = if space1 a then some (b ∷ []) else if space2 a b then some [] else none
drop_front (a ∷ b ∷ c ∷ t) =
    if space1 a
    then some (b ∷ c ∷ t)
    else if space2 a b
    then some (c ∷ t)
    else if space3 a b c
    then some t
    else none

abbrev drop_back : Text → Option Text
drop_back [] = none
drop_back (a ∷ []) = if space1 a then some [] else none
drop_back (a ∷ b ∷ []) = if space1 a then some (b ∷ []) else if space2 b a then some [] else none
drop_back (a ∷ b ∷ c ∷ t) =
    if space1 a
    then some (b ∷ c ∷ t)
    else if space2 b a
    then some (c ∷ t)
    else if space3 c b a
    then some t
    else none

-- Each round drops at least one byte, so the length of the text is fuel enough.
unfoldable pub drop_while : (Text → Option Text) → ℕ → Text → Text
drop_while drop zero t = t
drop_while drop (suc n) t = elim (drop t) [ none ↦ t | some rest ↦ drop_while drop n rest ]

abbrev reversed : Text → Text → Text
reversed [] back = back
reversed (c ∷ t) back = reversed t (c ∷ back)

unfoldable pub trim : Text → Text
unfolding drop_while
trim t =
    let front = drop_while drop_front (length t) t in
    reversed (drop_while drop_back (length front) (reversed front [])) []

-- `str::lines`: a line ends at a newline, and a carriage return right before it is dropped with it.
abbrev pub lines : Text → List Text
lines [] = []
lines (c ∷ t) =
    let rest = lines t in
    if c == 10
    then [] ∷ rest
    else if (c == 13) && starts_with (10 ∷ []) t
    then rest
    else cons_head c rest
