-- ===== src/Suites/JsonOnTransfer.antt =====
-- runtime-tests/near/json_ft_on_transfer_input.py: an account, an amount and a text as a contract's
-- JSON arguments.
use proof_forge_near.Prelude.{
  ℕ, ◌+◌, ◌-◌, ◌/◌, ◌^◌, List, [], ◌∷◌, ◌++◌, ◌==◌, Bytes, codes, length,
}
use proof_forge_near.Py.Decimal.{decimal}
use proof_forge_near.Rpc.Env.{Env, Client}
use proof_forge_near.Suites.Play.{Suite, ◌>>◌, assert}
use proof_forge_near.Suites.Bytes.{repeat, escape_all}
use proof_forge_near.Suites.Matrix.{Fields, prepare, accept_all, refuse_all, commit}
use proof_forge_near.Suites.JsonObject.{
  Field, quoted, sender_id, amount_text, msg, object_text, in_every_order, measured, halves,
  fails_late,
}

abbrev pub amount : ℕ
amount = 2 ^ 127 + 2 ^ 64 + 7

abbrev pub max_amount : ℕ
max_amount = 2 ^ 128 - 1

-- `"raw-\u03bb-\U0001f600\0".encode("utf-8")`
abbrev pub message : Bytes
message = codes "raw-" ++ (206 ∷ 187 ∷ 45 ∷ 240 ∷ 159 ∷ 152 ∷ 128 ∷ 0 ∷ [])

abbrev pub sender_field : Field
unfolding sender_id
sender_field = sender_id (codes "sender.test.near")

abbrev pub amount_field : Field
unfolding amount_text decimal
amount_field = amount_text (decimal amount)

abbrev pub message_field : Field
unfolding msg
message_field = msg (codes "raw-\\u03bb-\\ud83d\\ude00\\u0000")

abbrev pub fields : List Field
fields = sender_field ∷ amount_field ∷ message_field ∷ []

-- What the views return for an account, an amount and a text, by `_expect`.
unfoldable pub receiver_fields : Bytes → ℕ → Bytes → Fields
unfolding measured halves
receiver_fields sender units text =
    measured (codes "sender") sender
    ++ (halves (codes "amount") units ++ measured (codes "message") text)

-- `raw_utf8`
abbrev pub raw_utf8 : Bytes
unfolding object_text sender_id amount_text msg
raw_utf8 = object_text (
    amount_text (codes "18446744073709551617")
    ∷ msg (195 ∷ 169 ∷ 240 ∷ 159 ∷ 152 ∷ 128 ∷ [])
    ∷ sender_id (codes "s\\u0065nder.test.near")
    ∷ [])

unfoldable pub max_wire : Bytes
unfolding repeat object_text sender_id amount_text msg escape_all decimal
max_wire =
    repeat 32 (codes " ")
    ++ object_text (
        sender_id (repeat 64 (codes "\\u0061"))
        ∷ amount_text (escape_all (decimal max_amount))
        ∷ msg (repeat 64 (codes "\\u007a"))
        ∷ [])

unfoldable pub accepted : List (Bytes × Fields)
unfolding object_text in_every_order receiver_fields sender_id amount_text msg
accepted =
    in_every_order fields (receiver_fields (codes "sender.test.near") amount message)
    ++ (
      object_text (msg [] ∷ amount_text (codes "0") ∷ sender_id (codes "aa") ∷ []),
      receiver_fields (codes "aa") 0 [],
    )
      ∷ (
        raw_utf8,
        receiver_fields (codes "sender.test.near") (2 ^ 64 + 1)
            (195 ∷ 169 ∷ 240 ∷ 159 ∷ 152 ∷ 128 ∷ []),
      )
      ∷ []

-- The wires of `invalid`.
unfoldable pub invalid : List Bytes
unfolding repeat object_text quoted sender_id amount_text msg
invalid =
    codes "{}"
    ∷ object_text (amount_field ∷ message_field ∷ [])
    ∷ object_text (sender_field ∷ message_field ∷ [])
    ∷ object_text (sender_field ∷ amount_field ∷ [])
    ∷ object_text (fields ++ (sender_field ∷ []))
    ∷ object_text (fields ++ (amount_field ∷ []))
    ∷ object_text (fields ++ (message_field ∷ []))
    ∷ object_text (fields ++ ((codes "memo", codes "null") ∷ []))
    ∷ object_text (
        (codes "s\\u0065nder_id", quoted (codes "sender.test.near"))
        ∷ amount_field
        ∷ message_field
        ∷ [])
    ∷ object_text ((codes "sender_id", codes "null") ∷ amount_field ∷ message_field ∷ [])
    ∷ object_text (sender_field ∷ (codes "amount", codes "1") ∷ message_field ∷ [])
    ∷ object_text (sender_field ∷ amount_field ∷ (codes "msg", codes "null") ∷ [])
    ∷ object_text (sender_id (codes "a") ∷ amount_field ∷ message_field ∷ [])
    ∷ object_text (sender_id (repeat 65 (codes "a")) ∷ amount_field ∷ message_field ∷ [])
    ∷ object_text (sender_id (codes "Alice.near") ∷ amount_field ∷ message_field ∷ [])
    ∷ object_text (sender_field ∷ amount_text (codes "01") ∷ message_field ∷ [])
    ∷ object_text (
        sender_field
        ∷ amount_text (codes "340282366920938463463374607431768211456")
        ∷ message_field
        ∷ [])
    ∷ object_text (sender_field ∷ amount_field ∷ msg (repeat 65 (codes "x")) ∷ [])
    ∷ object_text (sender_field ∷ amount_field ∷ msg (repeat 65 (codes "\\u0078")) ∷ [])
    ∷ object_text (sender_field ∷ amount_field ∷ msg (codes "\\ud83d") ∷ [])
    ∷ object_text (sender_field ∷ amount_field ∷ msg (codes "\\ude00\\ud83d") ∷ [])
    ∷ object_text (sender_field ∷ amount_field ∷ msg (codes "\\u00xz") ∷ [])
    ∷ object_text (sender_field ∷ amount_field ∷ msg (1 ∷ []) ∷ [])
    ∷ object_text (sender_field ∷ amount_field ∷ msg (240 ∷ 40 ∷ 140 ∷ 40 ∷ []) ∷ [])
    ∷ (object_text fields ++ codes "0")
    ∷ (repeat 33 (codes " ") ++ object_text fields)
    ∷ (max_wire ++ codes "0")
    ∷ []

-- The short wire behind the refused ones.
abbrev pub short_wire : Bytes
unfolding object_text sender_id amount_text msg
short_wire = object_text (msg (codes "q") ∷ amount_text (codes "9") ∷ sender_id (codes "aa") ∷ [])

module _ (E : Env) (c : Client) where
  -- The suite, after its environment variables are read.
  unfoldable pub main : Bytes → Suite E.World (Unit {0})
  unfolding prepare accept_all refuse_all commit receiver_fields object_text repeat fails_late
  main code = do
    prepare E c code 0
    accept_all E c accepted
    assert (length max_wire == 1071)
    accept_all E c (
        (max_wire, receiver_fields (repeat 64 (codes "a")) max_amount (repeat 64 (codes "z"))) ∷ [])
    refuse_all E c (codes "senderLength") invalid
    accept_all E c ((short_wire, receiver_fields (codes "aa") 9 (codes "q")) ∷ [])
    commit E c (codes "commitAmountHigh") (object_text fields) (amount / 2 ^ 64)
    fails_late E c (codes "commitAmountHigh") (object_text fields ++ codes "0") (amount / 2 ^ 64)
