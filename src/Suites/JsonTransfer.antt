-- ===== src/Suites/JsonTransfer.antt =====
-- runtime-tests/near/json_ft_transfer_input.py: an account, an amount and an optional memo as a
-- contract's JSON arguments.
use proof_forge_near.Prelude.{
  ℕ, ◌-◌, ◌^◌, List, [], ◌∷◌, ◌++◌, ◌==◌, take, drop, Bytes, codes, length,
}
use proof_forge_near.Py.Bytes.{from_le}
use proof_forge_near.Py.Decimal.{decimal}
use proof_forge_near.Rpc.Env.{Env, Client}
use proof_forge_near.Suites.Play.{Suite, ◌>>◌, assert}
use proof_forge_near.Suites.Bytes.{repeat, escape_all, ljust}
use proof_forge_near.Suites.Matrix.{Fields, word_fields, prepare, accept_all, refuse_all, commit}
use proof_forge_near.Suites.JsonObject.{
  Field, receiver_id, amount_text, memo_text, object_text, in_every_order, halves,
}

abbrev pub amount : ℕ
amount = 2 ^ 128 - 1

-- `"😀".encode()`
abbrev pub memo : Bytes
memo = 240 ∷ 159 ∷ 152 ∷ 128 ∷ []

abbrev pub receiver_field : Field
unfolding receiver_id
receiver_field = receiver_id (codes "alice.near")

abbrev pub amount_field : Field
unfolding amount_text
amount_field = amount_text (codes "340282366920938463463374607431768211455")

abbrev pub memo_field : Field
unfolding memo_text
memo_field = memo_text (codes "\\ud83d\\ude00")

abbrev pub fields : List Field
fields = receiver_field ∷ amount_field ∷ memo_field ∷ []

abbrev pub required : List Field
required = receiver_field ∷ amount_field ∷ []

-- What the views return for an account, an amount and a memo, by `_expect`.
unfoldable pub transfer_fields : Bytes → ℕ → ℕ → Bytes → Fields
unfolding word_fields ljust halves
transfer_fields receiver units memo_present text =
    let memo_frame = ljust 16 text in
    (codes "inspectReceiverLength", length receiver)
      ∷ word_fields (codes "inspectReceiverW") 8 0 (ljust 64 receiver)
    ++ halves (codes "inspectAmount") units
    ++ (codes "inspectMemoPresent", memo_present)
      ∷ (codes "inspectMemoLength", length text)
      ∷ (codes "inspectMemoW0", from_le (take 8 memo_frame))
      ∷ (codes "inspectMemoW1", from_le (drop 8 memo_frame))
      ∷ []

unfoldable pub max_wire : Bytes
unfolding repeat object_text receiver_id amount_text memo_text escape_all
max_wire =
    repeat 32 (codes " ")
    ++ object_text (
        receiver_id (repeat 64 (codes "\\u0061"))
        ∷ amount_text (escape_all (codes "340282366920938463463374607431768211455"))
        ∷ memo_text (repeat 16 (codes "\\u0061"))
        ∷ [])

-- `escaped`
abbrev pub escaped : Bytes
unfolding object_text receiver_id amount_text memo_text escape_all decimal
escaped = object_text (
    amount_text (escape_all (decimal (2 ^ 64)))
    ∷ memo_text (codes "\\u00e9\\u96ea")
    ∷ receiver_id (codes "a\\u006cice.near")
    ∷ [])

unfoldable pub accepted : List (Bytes × Fields)
unfolding object_text in_every_order transfer_fields memo_text
accepted =
    in_every_order fields (transfer_fields (codes "alice.near") amount 1 memo)
    ++ in_every_order required (transfer_fields (codes "alice.near") amount 0 [])
    ++ (
      object_text (required ++ ((codes "memo", codes "null") ∷ [])),
      transfer_fields (codes "alice.near") amount 0 [],
    )
      ∷ (object_text (memo_text [] ∷ required), transfer_fields (codes "alice.near") amount 1 [])
      ∷ (
        escaped,
        transfer_fields (codes "alice.near") (2 ^ 64) 1 (195 ∷ 169 ∷ 233 ∷ 155 ∷ 170 ∷ []),
      )
      ∷ []

-- The wires of `invalid`.
unfoldable pub invalid : List Bytes
unfolding repeat object_text receiver_id amount_text memo_text
invalid =
    codes "{}"
    ∷ object_text (receiver_field ∷ [])
    ∷ object_text (amount_field ∷ [])
    ∷ object_text (required ++ (receiver_field ∷ []))
    ∷ object_text (required ++ (amount_field ∷ []))
    ∷ object_text (required ++ (memo_field ∷ memo_field ∷ []))
    ∷ object_text (required ++ ((codes "other", codes "0") ∷ []))
    ∷ object_text ((codes "r\\u0065ceiver_id", codes "\"alice.near\"") ∷ amount_field ∷ [])
    ∷ object_text ((codes "receiver_id", codes "1") ∷ amount_field ∷ [])
    ∷ object_text (receiver_field ∷ (codes "amount", codes "1") ∷ [])
    ∷ object_text (required ++ ((codes "memo", codes "1") ∷ []))
    ∷ object_text (receiver_id (codes "a") ∷ amount_field ∷ [])
    ∷ object_text (receiver_id (repeat 65 (codes "a")) ∷ amount_field ∷ [])
    ∷ object_text (receiver_id (codes "Alice.near") ∷ amount_field ∷ [])
    ∷ object_text
        (receiver_field ∷ amount_text (codes "340282366920938463463374607431768211456") ∷ [])
    ∷ object_text (receiver_field ∷ amount_text (codes "01") ∷ [])
    ∷ object_text (required ++ (memo_text (repeat 17 (codes "a")) ∷ []))
    ∷ object_text (required ++ (memo_text (codes "\\ud83d") ∷ []))
    ∷ object_text (required ++ (memo_text (255 ∷ []) ∷ []))
    ∷ (object_text required ++ codes "0")
    ∷ (repeat 33 (codes " ") ++ object_text required)
    ∷ (take (length (object_text required) - 1) (object_text required) ++ codes ",}")
    ∷ repeat 787 (codes "x")
    ∷ []

module _ (E : Env) (c : Client) where
  -- The suite, after its environment variables are read.
  unfoldable pub main : Bytes → Suite E.World (Unit {0})
  unfolding prepare accept_all refuse_all commit transfer_fields object_text repeat
  main code = do
    prepare E c code 0
    accept_all E c accepted
    assert (length max_wire == 786)
    accept_all E c
        ((max_wire, transfer_fields (repeat 64 (codes "a")) amount 1 (repeat 16 (codes "a"))) ∷ [])
    commit E c (codes "commitMemoLength") (object_text fields) (length memo)
    refuse_all E c (codes "inspectReceiverLength") invalid
