-- ===== src/Suites/JsonResolve.antt =====
-- runtime-tests/near/json_ft_resolve_input.py: two accounts and an amount as a contract's JSON arguments.
use proof_forge_near.Prelude.{
  ℕ, ◌+◌, ◌-◌, ◌/◌, ◌^◌, List, [], ◌∷◌, ◌++◌, ◌==◌, Bytes, codes, length,
}
use proof_forge_near.Py.Decimal.{decimal}
use proof_forge_near.Rpc.Env.{Env, Client}
use proof_forge_near.Suites.Play.{Suite, ◌>>◌, assert}
use proof_forge_near.Suites.Bytes.{repeat, escape_all}
use proof_forge_near.Suites.Matrix.{Fields, prepare, accept_all, refuse_all, commit}
use proof_forge_near.Suites.JsonObject.{
  Field, quoted, sender_id, receiver_id, amount_text, object_text, in_every_order, measured, halves,
  fails_late,
}

abbrev pub amount : ℕ
amount = 2 ^ 127 + 2 ^ 64 + 7

abbrev pub max_amount : ℕ
max_amount = 2 ^ 128 - 1

abbrev pub sender_field : Field
unfolding sender_id
sender_field = sender_id (codes "sender.test.near")

abbrev pub receiver_field : Field
unfolding receiver_id
receiver_field = receiver_id (codes "receiver.test.near")

abbrev pub amount_field : Field
unfolding amount_text decimal
amount_field = amount_text (decimal amount)

abbrev pub fields : List Field
fields = sender_field ∷ receiver_field ∷ amount_field ∷ []

-- What the views return for two accounts and an amount, by `_expect`.
unfoldable pub resolve_fields : Bytes → Bytes → ℕ → Fields
unfolding measured halves
resolve_fields sender receiver units =
    measured (codes "sender") sender
    ++ (measured (codes "receiver") receiver ++ halves (codes "amount") units)

unfoldable pub max_wire : Bytes
unfolding repeat object_text sender_id receiver_id amount_text escape_all decimal
max_wire =
    repeat 32 (codes " ")
    ++ object_text (
        sender_id (repeat 64 (codes "\\u0061"))
        ∷ receiver_id (repeat 64 (codes "\\u0061"))
        ∷ amount_text (escape_all (decimal max_amount))
        ∷ [])

unfoldable pub accepted : List (Bytes × Fields)
unfolding object_text in_every_order resolve_fields sender_id receiver_id amount_text escape_all
    decimal
accepted =
    in_every_order fields
      (resolve_fields (codes "sender.test.near") (codes "receiver.test.near") amount)
    ++ (
      object_text (
          receiver_id (codes "same.test.near")
          ∷ amount_text (codes "0")
          ∷ sender_id (codes "same.test.near")
          ∷ []),
      resolve_fields (codes "same.test.near") (codes "same.test.near") 0,
    )
      ∷ (
        object_text (
            amount_text (escape_all (decimal (2 ^ 64 + 1)))
            ∷ sender_id (codes "s\\u0065nder.test.near")
            ∷ receiver_id (codes "r\\u0065ceiver.test.near")
            ∷ []),
        resolve_fields (codes "sender.test.near") (codes "receiver.test.near") (2 ^ 64 + 1),
      )
      ∷ []

-- The wires of `invalid`.
unfoldable pub invalid : List Bytes
unfolding repeat object_text quoted sender_id receiver_id amount_text
invalid =
    codes "{}"
    ∷ object_text (receiver_field ∷ amount_field ∷ [])
    ∷ object_text (sender_field ∷ amount_field ∷ [])
    ∷ object_text (sender_field ∷ receiver_field ∷ [])
    ∷ object_text (fields ++ (sender_field ∷ []))
    ∷ object_text (fields ++ (receiver_field ∷ []))
    ∷ object_text (fields ++ (amount_field ∷ []))
    ∷ object_text (fields ++ ((codes "memo", codes "null") ∷ []))
    ∷ object_text (
        (codes "s\\u0065nder_id", quoted (codes "sender.test.near"))
        ∷ receiver_field
        ∷ amount_field
        ∷ [])
    ∷ object_text ((codes "sender_id", codes "1") ∷ receiver_field ∷ amount_field ∷ [])
    ∷ object_text (sender_field ∷ (codes "receiver_id", codes "1") ∷ amount_field ∷ [])
    ∷ object_text (sender_field ∷ receiver_field ∷ (codes "amount", codes "1") ∷ [])
    ∷ object_text (sender_id (codes "a") ∷ receiver_field ∷ amount_field ∷ [])
    ∷ object_text (sender_field ∷ receiver_id (codes "a") ∷ amount_field ∷ [])
    ∷ object_text (sender_id (repeat 65 (codes "a")) ∷ receiver_field ∷ amount_field ∷ [])
    ∷ object_text (sender_field ∷ receiver_id (repeat 65 (codes "a")) ∷ amount_field ∷ [])
    ∷ object_text (sender_id (codes "Alice.near") ∷ receiver_field ∷ amount_field ∷ [])
    ∷ object_text (sender_field ∷ receiver_id (codes "bad..near") ∷ amount_field ∷ [])
    ∷ object_text (sender_id (codes "bad\\ud83d") ∷ receiver_field ∷ amount_field ∷ [])
    ∷ object_text (sender_field ∷ receiver_field ∷ amount_text [] ∷ [])
    ∷ object_text (sender_field ∷ receiver_field ∷ amount_text (codes "+1") ∷ [])
    ∷ object_text (sender_field ∷ receiver_field ∷ amount_text (codes "01") ∷ [])
    ∷ object_text (
        sender_field
        ∷ receiver_field
        ∷ amount_text (codes "340282366920938463463374607431768211456")
        ∷ [])
    ∷ (object_text fields ++ codes "0")
    ∷ (repeat 33 (codes " ") ++ object_text fields)
    ∷ (max_wire ++ codes "0")
    ∷ []

-- `short_wire`
abbrev pub short_wire : Bytes
unfolding object_text sender_id receiver_id amount_text
short_wire =
    object_text (amount_text (codes "9") ∷ receiver_id (codes "bb") ∷ sender_id (codes "aa") ∷ [])

module _ (E : Env) (c : Client) where
  -- The suite, after its environment variables are read.
  unfoldable pub main : Bytes → Suite E.World (Unit {0})
  unfolding prepare accept_all refuse_all commit resolve_fields object_text fails_late
  main code = do
    prepare E c code 0
    accept_all E c accepted
    assert (length max_wire == 1079)
    accept_all E c
        ((max_wire, resolve_fields (repeat 64 (codes "a")) (repeat 64 (codes "a")) max_amount) ∷ [])
    refuse_all E c (codes "senderLength") invalid
    accept_all E c ((short_wire, resolve_fields (codes "aa") (codes "bb") 9) ∷ [])
    commit E c (codes "commitAmountHigh") (object_text fields) (amount / 2 ^ 64)
    fails_late E c (codes "commitAmountHigh") (object_text fields ++ codes "0") (amount / 2 ^ 64)
