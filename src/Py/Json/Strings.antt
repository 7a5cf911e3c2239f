-- ===== src/Py/Json/Strings.antt =====
-- A JSON string literal that is printed without `ensure_ascii` is read back as its text.
use proof_forge_near.Prelude.{
  ◌≡◌, refl, ap, ◌∙◌, ℕ, zero, suc, ◌+◌, ◌-◌, ◌*◌, ◌/◌, ◌%◌, ◌<◌, false, ◌&&◌, ◌||◌, Option, none,
  some, [], ◌∷◌, ◌++◌, append_assoc, ◌==◌, ltb, leb, if◌then◌else◌, Bool-cases, inl, inr, arith,
  ==_iff, Text,
}
use proof_forge_near.Py.Json.{hex_digit, hex4, plain_char, escape_char, escape}

-- Where a reader is in a string literal: between characters, behind a backslash, or in the digits of
-- a code point.
pub data Place : Type 0 where
  between behind_backslash : Place
  in_digits : ℕ → ℕ → Place

unfoldable pub hex_value : ℕ → Option ℕ
hex_value c =
    if leb 48 c && leb c 57
    then some (c - 48)
    else if leb 97 c && leb c 102
    then some (c - 87)
    else if leb 65 c && leb c 70
    then some (c - 55)
    else none

unfoldable pub short_escape : ℕ → Option ℕ
short_escape c =
    if c == b'"' || c == b'\\' || c == b'/'
    then some c
    else if c == b'n'
    then some 10
    else if c == b'r'
    then some 13
    else if c == b't'
    then some 9
    else if c == b'f'
    then some 12
    else if c == b'b'
    then some 8
    else none

-- What one character does: it ends the literal, gives a character or none, or is refused.
pub data Move : Type 0 where
  ends refused : Move
  gives : ℕ → Move
  goes : Place → Move

unfoldable pub move : Place → ℕ → Move
unfolding hex_value short_escape
move between c =
    if c == b'"'
    then ends
    else if c == b'\\'
    then goes behind_backslash
    else if ltb c 32
    then refused
    else gives c
move behind_backslash c =
    if c == b'u'
    then goes (in_digits 3 0)
    else (elim (short_escape c) [ none ↦ refused | some d ↦ gives d ])
move (in_digits left acc) c = elim (hex_value c) [
  | none ↦ refused
  | some d ↦ (elim left [
    | zero ↦ gives (16 * acc + d)
    | suc more ↦ goes (in_digits more (16 * acc + d))
  ])
]

more_chars : ℕ → Option (Text × Text) → Option (Text × Text)
more_chars c none = none
more_chars c (some (text, rest)) = some (c ∷ text, rest)

-- The text up to the closing quote, and what is behind it.
unfoldable pub read_string : Place → Text → Option (Text × Text)
unfolding move more_chars
read_string place [] = none
read_string place (c ∷ rest) = elim (move place c) [
  | ends ↦ some ([], rest)
  | refused ↦ none
  | gives d ↦ more_chars d (read_string between rest)
  | goes p ↦ read_string p rest
]

hex_value-hex_digit : (d : ℕ) → d < 16 → hex_value (hex_digit d) ≡ some d
unfolding hex_value hex_digit
hex_value-hex_digit d h = ground arith

step_goes :
    (p q : Place) (c : ℕ) (more : Text)
    → move p c ≡ goes q
    → read_string p (c ∷ more) ≡ read_string q more
unfolding read_string
step_goes p q c more e = rw (read_string, e) refl

step_gives :
    (p : Place) (c d : ℕ) (more : Text)
    → move p c ≡ gives d
    → read_string p (c ∷ more) ≡ more_chars d (read_string between more)
unfolding read_string
step_gives p c d more e = rw (read_string, e) refl

digit_goes :
    (left acc d : ℕ)
    → d < 16
    → move (in_digits (suc left) acc) (hex_digit d) ≡ goes (in_digits left (16 * acc + d))
unfolding move
digit_goes left acc d h = rw (move, hex_value-hex_digit d h) refl

digit_gives : (acc d : ℕ) → d < 16 → move (in_digits zero acc) (hex_digit d) ≡ gives (16 * acc + d)
unfolding move
digit_gives acc d h = rw (move, hex_value-hex_digit d h) refl

backslash : move between b'\\' ≡ goes behind_backslash
unfolding move
backslash = refl

letter : move behind_backslash b'u' ≡ goes (in_digits 3 0)
unfolding move
letter = refl

kept :
    (c : ℕ)
    → (c == b'"') ≡ false
    → (c == b'\\') ≡ false
    → ltb c 32 ≡ false
    → move between c ≡ gives c
unfolding move
kept c h k high = rw (h, k, high) refl

escaped :
    (c e : ℕ) → (e == b'u') ≡ false → short_escape e ≡ some c → move behind_backslash e ≡ gives c
unfolding move
escaped c e h k = rw (h, k) refl

closing : (rest : Text) → read_string between (b'"' ∷ rest) ≡ some ([], rest)
unfolding read_string
closing rest = refl

-- The four digits of a code point below 65536.
read_string-hex4 :
    (c : ℕ) (more : Text)
    → c < 65536
    → read_string between (hex4 c ++ more) ≡ more_chars c (read_string between more)
unfolding hex4
read_string-hex4 c more h =
    let d3 = c / 4096 in
    let d2 = c / 256 % 16 in
    let d1 = c / 16 % 16 in
    let d0 = c % 16 in
    let a3 = 16 * 0 + d3 in
    let a2 = 16 * a3 + d2 in
    let a1 = 16 * a2 + d1 in
    let total : 16 * a1 + d0 ≡ c = omega arith in
    step_goes between behind_backslash b'\\' _ backslash
    ∙ (step_goes behind_backslash (in_digits 3 0) b'u' _ letter
        ∙ (step_goes _ _ (hex_digit d3) _ (digit_goes 2 0 d3 (omega arith))
            ∙ (step_goes _ _ (hex_digit d2) _ (digit_goes 1 a3 d2 (omega arith))
                ∙ (step_goes _ _ (hex_digit d1) _ (digit_goes 0 a2 d1 (omega arith))
                    ∙ (step_gives _ (hex_digit d0) _ more (digit_gives a1 d0 (omega arith))
                        ∙ ap (λ n. more_chars n (read_string between more)) total)))))

read_string-plain_char :
    (c : ℕ) (more : Text)
    → (c == b'"') ≡ false
    → (c == b'\\') ≡ false
    → read_string between (plain_char false c ++ more) ≡ more_chars c (read_string between more)
unfolding plain_char
read_string-plain_char c more h k = elim (Bool-cases (ltb c 32)) [
  | inl low ↦ rw low (read_string-hex4 c more (ground (arith, low)))
  | inr high ↦ rw high (step_gives between c c more (kept c h k high))
]

-- A character with a short escape.
short :
    (c e : ℕ) (more : Text)
    → (e == b'u') ≡ false
    → short_escape e ≡ some c
    → read_string between (b'\\' ∷ e ∷ more) ≡ more_chars c (read_string between more)
short c e more h k =
    step_goes between behind_backslash b'\\' _ backslash
    ∙ step_gives behind_backslash e c more (escaped c e h k)

read_string-escape_char :
    (c : ℕ) (more : Text)
    → read_string between (escape_char false c ++ more) ≡ more_chars c (read_string between more)
unfolding escape_char short_escape
read_string-escape_char c more = elim (Bool-cases (c == b'"')) [
  | inl e ↦ rw (e, (==_iff c b'"').0 e) (short b'"' b'"' more refl refl)
  | inr h ↦ elim (Bool-cases (c == b'\\')) [
    | inl e ↦ rw (h, e, (==_iff c b'\\').0 e) (short b'\\' b'\\' more refl refl)
    | inr k ↦ elim (Bool-cases (c == 10)) [
      | inl e ↦ rw (h, k, e, (==_iff c 10).0 e) (short 10 b'n' more refl refl)
      | inr h1 ↦ elim (Bool-cases (c == 13)) [
        | inl e ↦ rw (h, k, h1, e, (==_iff c 13).0 e) (short 13 b'r' more refl refl)
        | inr h2 ↦ elim (Bool-cases (c == 9)) [
          | inl e ↦ rw (h, k, h1, h2, e, (==_iff c 9).0 e) (short 9 b't' more refl refl)
          | inr h3 ↦ elim (Bool-cases (c == 12)) [
            | inl e ↦ rw (h, k, h1, h2, h3, e, (==_iff c 12).0 e) (short 12 b'f' more refl refl)
            | inr h4 ↦ elim (Bool-cases (c == 8)) [
              | inl e ↦ rw (h, k, h1, h2, h3, h4, e, (==_iff c 8).0 e) (short 8 b'b' more refl refl)
              | inr h5 ↦ rw (h, k, h1, h2, h3, h4, h5) (read_string-plain_char c more h k)
            ]
          ]
        ]
      ]
    ]
  ]
]

-- A string literal that is printed without `ensure_ascii` is read back as its text, with what stands
-- behind it.
pub read_string-escape :
    (text rest : Text)
    → read_string between (escape false text ++ (b'"' ∷ rest)) ≡ some (text, rest)
unfolding escape more_chars
read_string-escape [] rest = closing rest
read_string-escape (c ∷ text) rest =
    rw (append_assoc (escape_char false c) (escape false text) (b'"' ∷ rest)) (
      read_string-escape_char c (escape false text ++ (b'"' ∷ rest))
      ∙ ap (more_chars c) (read_string-escape text rest))
