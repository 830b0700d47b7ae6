-- ===== src/Tests/Unary.antt =====
-- Crates whose texts are ASCII: an identifier is as many letters, and a list of numbers is joined by capitals.
use wincred_libsecret_wsl_pl.Prelude.{
  ℕ, zero, suc, ◌+◌, ◌≡◌, refl, sym, ◌∙◌, ap, inl, inr, Bool, true, false, ◌&&◌, Option, none, some,
  List, [], ◌∷◌, ◌++◌, Text, text_eq, text_eq_iff, text_eq_refl, ◌==◌, if◌then◌else◌, arith,
  Bool-cases, ==_iff, chain-eq_some, contains_byte, if-eq_some, some_injective,
}
use wincred_libsecret_wsl_pl.Protocol.Target.{Crates, IsFaithful, slash}
use wincred_libsecret_wsl_pl.Broker.Windows.{Wide, wide, encode_utf16}
use wincred_libsecret_wsl_pl.Broker.WinCred.Manager.{ascii, IsAscii}

-- A number is as many letters `a`.
abbrev pub ones : ℕ → Text
ones zero = []
ones (suc n) = 97 ∷ ones n

abbrev pub parse_ones : Text → Option ℕ
parse_ones [] = some 0
parse_ones (c ∷ t) = elim (parse_ones t) [
  | none ↦ none
  | some n ↦ if c == 97 then some (suc n) else none
]

-- A list of numbers, each closed by an `A`.
abbrev pub joined : List ℕ → Text
joined [] = []
joined (n ∷ ns) = ones n ++ (65 ∷ joined ns)

abbrev pub parse_joined : ℕ → Text → Option (List ℕ)
parse_joined n [] = if n == 0 then some [] else none
parse_joined n (c ∷ t) =
    let more = parse_joined (suc n) t in
    let closed : Option (List ℕ) = elim (parse_joined 0 t) [
      | none ↦ none
      | some ns ↦ some (n ∷ ns)
    ] in
    if c == 97 then more else if c == 65 then closed else none

abbrev pub unary : Crates
unary = record {
  hyphenated = ones;
  simple = ones;
  parse_str = parse_ones;
  base64_encode = joined;
  base64_decode = parse_joined 0;
}

parse_ones-ones : (n : ℕ) → parse_ones (ones n) ≡ some n
parse_ones-ones zero = refl
parse_ones-ones (suc n) = ground (arith, parse_ones-ones n)

ones_no_slash : (n : ℕ) → contains_byte slash (ones n) ≡ false
ones_no_slash zero = refl
ones_no_slash (suc n) = ones_no_slash n

ones-ascii : (n : ℕ) → ascii (ones n) ≡ true
ones-ascii zero = refl
ones-ascii (suc n) = ones-ascii n

joined-ascii : (ns : List ℕ) → ascii (joined ns) ≡ true
joined-ascii [] = refl
joined-ascii (zero ∷ ns) = joined-ascii ns
joined-ascii (suc n ∷ ns) = joined-ascii (n ∷ ns)

joined_no_slash : (ns : List ℕ) → contains_byte slash (joined ns) ≡ false
joined_no_slash [] = refl
joined_no_slash (zero ∷ ns) = joined_no_slash ns
joined_no_slash (suc n ∷ ns) = joined_no_slash (n ∷ ns)

parse_joined-ones : (n k : ℕ) (t : Text) → parse_joined k (ones n ++ t) ≡ parse_joined (k + n) t
parse_joined-ones zero k t = ap (λ i. parse_joined i t) (omega arith)
parse_joined-ones (suc n) k t =
    parse_joined-ones n (suc k) t ∙ ap (λ i. parse_joined i t) (omega arith)

parse_joined-joined : (ns : List ℕ) → parse_joined 0 (joined ns) ≡ some ns
parse_joined-joined [] = refl
parse_joined-joined (n ∷ ns) =
    parse_joined-ones n 0 (65 ∷ joined ns) ∙ ground (arith, parse_joined-joined ns)

ones_shift : (n : ℕ) (t : Text) → 97 ∷ (ones n ++ t) ≡ ones n ++ (97 ∷ t)
ones_shift zero t = refl
ones_shift (suc n) t = ap (λ l. 97 ∷ l) (ones_shift n t)

joined-parse_joined :
    (t : Text) (n : ℕ) (ns : List ℕ) → parse_joined n t ≡ some ns → joined ns ≡ ones n ++ t
joined-parse_joined [] zero ns h = ap joined (sym (some_injective h))
joined-parse_joined [] (suc n) ns h = absurd (ground (arith, h))
joined-parse_joined (c ∷ t) n ns h = elim (Bool-cases (c == 97)) [
  | inl one ↦
      joined-parse_joined t (suc n) ns (ground (arith, h, one))
      ∙ ones_shift n t
      ∙ ap (λ x. ones n ++ (x ∷ t)) (sym ((==_iff c 97).0 one))
  | inr other ↦
      let (two, e) = if-eq_some (c == 65) _ ns (rw other at h) in
      let (rest, p, q) = chain-eq_some (parse_joined 0 t) (λ r. some (n ∷ r)) ns e in
      ap joined (sym (some_injective q))
      ∙ ap (λ l. ones n ++ (65 ∷ l)) (joined-parse_joined t 0 rest p)
      ∙ ap (λ x. ones n ++ (x ∷ t)) (sym ((==_iff c 65).0 two))
]

pub unary-IsFaithful : IsFaithful unary
unary-IsFaithful = record {
  parse_str-hyphenated = parse_ones-ones;
  hyphenated_no_slash = ones_no_slash;
  base64_decode-encode = parse_joined-joined;
  base64_encode-decode = λ t b h. joined-parse_joined t 0 b h;
  base64_no_slash = joined_no_slash;
}

pub unary-IsAscii : IsAscii unary
unary-IsAscii = record { hyphenated_ascii = ones-ascii; base64_ascii = joined-ascii }

pub encode_utf16-ascii : (t : Text) → ascii t ≡ true → encode_utf16 t ≡ t
unfolding encode_utf16
encode_utf16-ascii [] h = refl
encode_utf16-ascii (a ∷ []) h = refl
encode_utf16-ascii (a ∷ b ∷ []) h = ground (arith, encode_utf16-ascii (b ∷ []))
encode_utf16-ascii (a ∷ b ∷ c ∷ []) h = ground (arith, encode_utf16-ascii (b ∷ c ∷ []))
encode_utf16-ascii (a ∷ b ∷ c ∷ d ∷ t) h = ground (arith, encode_utf16-ascii (b ∷ c ∷ d ∷ t))

pub wide-ascii : (t : Text) → ascii t ≡ true → wide t ≡ t ++ (0 ∷ [])
unfolding wide
wide-ascii t h = ap (λ u. u ++ (0 ∷ [])) (encode_utf16-ascii t h)

-- A buffer without its last unit.
abbrev pub body : Wide → Text
body [] = []
body (u ∷ []) = []
body (u ∷ v ∷ n) = u ∷ body (v ∷ n)

pub body-append : (t : Text) → body (t ++ (0 ∷ [])) ≡ t
body-append [] = refl
body-append (a ∷ []) = refl
body-append (a ∷ b ∷ t) = ap (λ l. a ∷ l) (body-append (b ∷ t))

abbrev pub read_text : Wide → Option Text
read_text n = if ascii (body n) && text_eq n (wide (body n)) then some (body n) else none

pub read_text-wide : (t : Text) → ascii t ≡ true → read_text (wide t) ≡ some t
read_text-wide t h =
    let same : body (wide t) ≡ t = ap body (wide-ascii t h) ∙ body-append t in
    rw (same, h, text_eq_refl (wide t))

pub wide-read_text : (n : Wide) (t : Text) → read_text n ≡ some t → n ≡ wide t
wide-read_text n t h =
    let (test, e) = if-eq_some (ascii (body n) && text_eq n (wide (body n))) (some (body n)) t h in
    (text_eq_iff n (wide (body n))).0 (both (ascii (body n)) _ test) ∙ ap wide (some_injective e)
  where
    both : (a b : Bool) → (a && b) ≡ true → b ≡ true
    both a b h = ground arith
