-- ===== src/Py/Json.antt =====
-- `json.dumps` with the separators `,` and `:`, as far as the suites use it.
pub mod Strings
use proof_forge_near.Prelude.{
  ℕ, ◌+◌, ◌-◌, ◌*◌, ◌/◌, ◌%◌, Bool, true, false, ◌&&◌, ◌||◌, List, [], ◌∷◌, ◌++◌, ◌==◌, ltb, leb,
  if◌then◌else◌, Text, codes,
}
use proof_forge_near.Py.Decimal.{decimal}

mutual
  pub data Json : Type 0 where
    null : Json
    bool : Bool → Json
    number : ℕ → Json
    string : Text → Json
    array : Elements → Json
    object : Members → Json

  pub data Elements : Type 0 where
    none_left : Elements
    element : Json → Elements → Elements

  pub data Members : Type 0 where
    no_more : Members
    member : Text → Json → Members → Members

unfoldable pub hex_digit : ℕ → ℕ
hex_digit d = if ltb d 10 then 48 + d else 87 + d

-- `"\\u{0:04x}"`
unfoldable pub hex4 : ℕ → Text
unfolding hex_digit
hex4 c =
    codes "\\u"
    ++ (hex_digit (c / 4096)
        ∷ hex_digit (c / 256 % 16)
        ∷ hex_digit (c / 16 % 16)
        ∷ hex_digit (c % 16)
        ∷ [])

-- A character that is not escaped for its own sake.
unfoldable pub plain_char : Bool → ℕ → Text
unfolding hex4
plain_char ascii c =
    if ltb c 32
    then hex4 c
    else if ascii && leb 127 c
    then (if ltb c 65536
        then hex4 c
        else hex4 (0xd800 + (c - 65536) / 1024) ++ hex4 (0xdc00 + (c - 65536) % 1024))
    else c ∷ []

-- One character of a string; `ascii` is `ensure_ascii`.
unfoldable pub escape_char : Bool → ℕ → Text
unfolding plain_char
escape_char ascii c =
    if c == b'"'
    then codes "\\\""
    else if c == b'\\'
    then codes "\\\\"
    else if c == 10
    then codes "\\n"
    else if c == 13
    then codes "\\r"
    else if c == 9
    then codes "\\t"
    else if c == 12
    then codes "\\f"
    else if c == 8
    then codes "\\b"
    else plain_char ascii c

unfoldable pub escape : Bool → Text → Text
unfolding escape_char
escape ascii [] = []
escape ascii (c ∷ text) = escape_char ascii c ++ escape ascii text

unfoldable pub quoted : Bool → Text → Text
unfolding escape
quoted ascii text = b'"' ∷ (escape ascii text ++ codes "\"")

unfoldable mutual
  unfolding quoted decimal

  pub dumps : Bool → Json → Text
  dumps ascii null = codes "null"
  dumps ascii (bool true) = codes "true"
  dumps ascii (bool false) = codes "false"
  dumps ascii (number n) = decimal n
  dumps ascii (string t) = quoted ascii t
  dumps ascii (array xs) = b'[' ∷ (elements ascii xs ++ codes "]")
  dumps ascii (object ms) = b'{' ∷ (members ascii ms ++ codes "}")

  pub elements : Bool → Elements → Text
  elements ascii none_left = []
  elements ascii (element x none_left) = dumps ascii x
  elements ascii (element x (element y xs)) =
      dumps ascii x ++ (b',' ∷ elements ascii (element y xs))

  pub members : Bool → Members → Text
  members ascii no_more = []
  members ascii (member k v no_more) = quoted ascii k ++ (b':' ∷ dumps ascii v)
  members ascii (member k v (member k' v' ms)) =
      quoted ascii k ++ (b':' ∷ (dumps ascii v ++ (b',' ∷ members ascii (member k' v' ms))))
