-- ===== src/Suites/Ledger/Event.antt =====
-- The event line of a transfer, read back by a reader of its own.
use proof_forge_near.Prelude.{
  ◌≡◌, ap, ◌∙◌, ℕ, Option, none, some, false, ◌++◌, append_assoc, Text, codes, drop,
}
use proof_forge_near.Py.Int.{pos}
use proof_forge_near.Py.Decimal.{decimal, value_from, value_from-decimal}
use proof_forge_near.Py.Json.{dumps, escape, quoted}
use proof_forge_near.Py.Json.Strings.{between, read_string}
use proof_forge_near.Suites.Token.{shown}
use proof_forge_near.Suites.Ledger.{with_memo, with_event_memo, event_line, transfer_event}
use proof_forge_near.Suites.Ledger.Wire.{memo_of, read_last}

abbrev amount_read : Text → Text → Option (Text × Text) → Option (Text × Text × ℕ)
amount_read sender receiver none = none
amount_read sender receiver (some (digits, rest)) = some (sender, receiver, value_from 0 digits)

abbrev receiver_read : Text → Option (Text × Text) → Option (Text × Text × ℕ)
receiver_read sender none = none
receiver_read sender (some (receiver, rest)) =
    amount_read sender receiver (read_string between (drop 11 rest))

abbrev sender_read : Option (Text × Text) → Option (Text × Text × ℕ)
sender_read none = none
sender_read (some (sender, rest)) = receiver_read sender (read_string between (drop 17 rest))

-- The old owner behind the first 97 characters, the new owner behind 17 more, the amount behind 11.
unfoldable pub read_event : Text → Option (Text × Text × ℕ)
read_event line = sender_read (read_string between (drop 97 line))

assoc3 : (x a b c : Text) → ((x ++ a) ++ b) ++ c ≡ x ++ ((a ++ b) ++ c)
assoc3 x a b c = ap (λ r. r ++ c) (append_assoc x a b) ∙ append_assoc x (a ++ b) c

read_end :
    (t a b c : Text)
    → read_string between ((((escape false t ++ codes "\"") ++ a) ++ b) ++ c)
      ≡ some (t, (a ++ b) ++ c)
read_end t a b c =
    ap (read_string between) (assoc3 (escape false t ++ codes "\"") a b c)
    ∙ read_last t ((a ++ b) ++ c)

read_middle :
    (t more a b c : Text)
    → read_string between (((((escape false t ++ codes "\"") ++ more) ++ a) ++ b) ++ c)
      ≡ some (t, ((more ++ a) ++ b) ++ c)
read_middle t more a b c =
    ap (λ r. read_string between ((r ++ b) ++ c))
      (append_assoc (escape false t ++ codes "\"") more a)
    ∙ read_end t (more ++ a) b c

-- The line gives the two owners and the amount back.
pub read_event-transfer_event :
    (sender receiver : Text) (amount : ℕ) (memo : Option (Option Text))
    → read_event (transfer_event sender receiver (pos amount) (memo_of memo))
      ≡ some (sender, receiver, amount)
unfolding read_event transfer_event event_line dumps quoted shown with_event_memo with_memo escape
read_event-transfer_event sender receiver amount none =
    ap sender_read (read_middle sender _ (codes "}") (codes "]") (codes "}"))
    ∙ (ap (receiver_read sender) (read_middle receiver _ (codes "}") (codes "]") (codes "}"))
        ∙ (ap (amount_read sender receiver)
              (read_end (decimal amount) (codes "}") (codes "]") (codes "}"))
            ∙ ap (λ n. some (sender, receiver, n)) (value_from-decimal amount)))
read_event-transfer_event sender receiver amount (some none) =
    ap sender_read (read_middle sender _ (codes "}") (codes "]") (codes "}"))
    ∙ (ap (receiver_read sender) (read_middle receiver _ (codes "}") (codes "]") (codes "}"))
        ∙ (ap (amount_read sender receiver)
              (read_end (decimal amount) (codes "}") (codes "]") (codes "}"))
            ∙ ap (λ n. some (sender, receiver, n)) (value_from-decimal amount)))
read_event-transfer_event sender receiver amount (some (some t)) =
    ap sender_read (read_middle sender _ (codes "}") (codes "]") (codes "}"))
    ∙ (ap (receiver_read sender) (read_middle receiver _ (codes "}") (codes "]") (codes "}"))
        ∙ (ap (amount_read sender receiver)
              (read_middle (decimal amount) _ (codes "}") (codes "]") (codes "}"))
            ∙ ap (λ n. some (sender, receiver, n)) (value_from-decimal amount)))
