-- ===== src/Suites/Ledger/Wire.antt =====
-- The argument text of a transfer, read back by a reader of its own.
use proof_forge_near.Prelude.{
  ◌≡◌, ap, ◌∙◌, ℕ, Option, none, some, false, [], ◌∷◌, ◌++◌, append_assoc, Text, codes, drop, ◌==◌,
  if◌then◌else◌,
}
use proof_forge_near.Py.Int.{pos}
use proof_forge_near.Py.Decimal.{decimal, value_from, value_from-decimal}
use proof_forge_near.Py.Json.{Json, null, string, object, member, dumps, escape, quoted}
use proof_forge_near.Py.Json.Strings.{between, read_string, read_string-escape}
use proof_forge_near.Suites.Token.{shown}
use proof_forge_near.Suites.Ledger.{Memo, with_memo, ft_object}

-- A transfer's memo: missing, `None` or a text.
abbrev pub memo_of : Option (Option Text) → Memo
memo_of none = none
memo_of (some none) = some null
memo_of (some (some t)) = some (string t)

abbrev pub Fields : Type 0
Fields = Text × ℕ × Option (Option Text)

abbrev memo_read : Text → ℕ → Option (Text × Text) → Option Fields
memo_read receiver amount none = none
memo_read receiver amount (some (memo, rest)) = some (receiver, amount, some (some memo))

-- Behind the amount: the object's end, or a memo.
unfoldable pub read_tail : Text → ℕ → Text → Option Fields
read_tail receiver amount [] = none
read_tail receiver amount (ch ∷ rest) =
    if ch == b'}' then some (receiver, amount, none) else read_memo (drop 7 rest)
  where
    read_memo : Text → Option Fields
    read_memo [] = none
    read_memo (first ∷ more) =
        if first == b'"'
        then memo_read receiver amount (read_string between more)
        else some (receiver, amount, some none)

abbrev amount_read : Text → Option (Text × Text) → Option Fields
amount_read receiver none = none
amount_read receiver (some (digits, rest)) = read_tail receiver (value_from 0 digits) rest

abbrev receiver_read : Option (Text × Text) → Option Fields
receiver_read none = none
receiver_read (some (receiver, rest)) = amount_read receiver (read_string between (drop 11 rest))

-- The receiver behind the first 16 characters, the amount behind 11 more, and the memo.
unfoldable pub read_transfer : Text → Option Fields
unfolding read_tail
read_transfer text = receiver_read (read_string between (drop 16 text))

pub read_last :
    (t tail : Text) → read_string between ((escape false t ++ codes "\"") ++ tail) ≡ some (t, tail)
read_last t tail = rw (append_assoc (escape false t) (codes "\"") tail) (read_string-escape t tail)

read_inner :
    (t more tail : Text)
    → read_string between (((escape false t ++ codes "\"") ++ more) ++ tail)
      ≡ some (t, more ++ tail)
read_inner t more tail =
    rw (append_assoc (escape false t ++ codes "\"") more tail) (read_last t (more ++ tail))

module _ (receiver digits : Text) where
  -- The object of a transfer with the digits of its amount.
  abbrev object_of : Option (Option Text) → Json
  object_of memo = object (
      member (codes "receiver_id") (string receiver)
        (member (codes "amount") (string digits) (with_memo (memo_of memo))))

  read_transfer-dumps :
      (memo : Option (Option Text))
      → read_transfer (dumps false (object_of memo)) ≡ some (receiver, value_from 0 digits, memo)
  unfolding read_transfer dumps with_memo quoted escape read_tail
  read_transfer-dumps none =
      ap receiver_read (read_inner receiver _ (codes "}"))
      ∙ ap (amount_read receiver) (read_last digits (codes "}"))
  read_transfer-dumps (some none) =
      ap receiver_read (read_inner receiver _ (codes "}"))
      ∙ ap (amount_read receiver) (read_inner digits _ (codes "}"))
  read_transfer-dumps (some (some t)) =
      ap receiver_read (read_inner receiver _ (codes "}"))
      ∙ (ap (amount_read receiver) (read_inner digits _ (codes "}"))
          ∙ ap (memo_read receiver (value_from 0 digits)) (read_last t (codes "}")))

-- The argument text of a transfer of a number that is not negative gives its receiver, its amount and
-- its memo back: a memo that is missing, `None` and each text are told apart.
pub read_transfer-ft_object :
    (receiver : Text) (amount : ℕ) (memo : Option (Option Text))
    → read_transfer (dumps false (ft_object receiver (pos amount) (memo_of memo)))
      ≡ some (receiver, amount, memo)
unfolding ft_object shown
read_transfer-ft_object receiver amount memo =
    read_transfer-dumps receiver (decimal amount) memo
    ∙ ap (λ n. some (receiver, n, memo)) (value_from-decimal amount)
