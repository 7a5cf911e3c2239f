-- ===== src/Suites/JsonTransferCall.antt =====
-- runtime-tests/near/json_ft_transfer_call_input.py: an account, an amount, an optional memo and a text
-- as a contract's JSON arguments.
use proof_forge_near.Prelude.{
  ℕ, ◌+◌, ◌-◌, ◌^◌, List, [], ◌∷◌, ◌++◌, ◌==◌, take, drop, Bytes, codes, length,
}
use proof_forge_near.Py.Bytes.{from_le}
use proof_forge_near.Py.Decimal.{decimal}
use proof_forge_near.Rpc.Env.{Env, Client}
use proof_forge_near.Suites.Play.{Suite, ◌>>◌, assert}
use proof_forge_near.Suites.Bytes.{repeat, escape_all, ljust}
use proof_forge_near.Suites.Matrix.{Fields, prepare, accept_all, refuse_all, commit}
use proof_forge_near.Suites.JsonObject.{
  Field, quoted, receiver_id, amount_text, memo_text, msg, object_text, in_every_order, halves,
  fails_late,
}

abbrev pub amount : ℕ
amount = 2 ^ 127 + 2 ^ 64 + 7

abbrev pub maximum : ℕ
maximum = 2 ^ 128 - 1

-- `"é雪".encode()`
abbrev pub memo : Bytes
memo = 195 ∷ 169 ∷ 233 ∷ 155 ∷ 170 ∷ []

-- `b"child\0" + "😀".encode()`
abbrev pub message : Bytes
message = codes "child" ++ (0 ∷ 240 ∷ 159 ∷ 152 ∷ 128 ∷ [])

abbrev pub receiver_field : Field
unfolding receiver_id
receiver_field = receiver_id (codes "receiver.test.near")

abbrev pub amount_field : Field
unfolding amount_text decimal
amount_field = amount_text (decimal amount)

abbrev pub memo_field : Field
unfolding memo_text
memo_field = memo_text (codes "\\u00e9\\u96ea")

abbrev pub message_field : Field
unfolding msg
message_field = msg (codes "child\\u0000\\ud83d\\ude00")

abbrev pub fields : List Field
fields = receiver_field ∷ amount_field ∷ memo_field ∷ message_field ∷ []

abbrev pub required : List Field
required = receiver_field ∷ amount_field ∷ message_field ∷ []

-- What the views return for an account, an amount, a memo and a text, by `_expect`.
unfoldable pub transfer_call_fields : Bytes → ℕ → ℕ → Bytes → Bytes → Fields
unfolding ljust halves
transfer_call_fields receiver units memo_present note text =
    let receiver_frame = ljust 64 receiver in
    let msg_frame = ljust 64 text in
    (codes "receiverLength", length receiver)
      ∷ (codes "receiverW0", from_le (take 8 receiver_frame))
      ∷ (codes "receiverW7", from_le (drop 56 receiver_frame))
      ∷ halves (codes "amount") units
    ++ (codes "memoPresent", memo_present)
      ∷ (codes "memoLength", length note)
      ∷ (codes "memoW1", from_le (drop 8 (ljust 16 note)))
      ∷ (codes "messageLength", length text)
      ∷ (codes "messageW0", from_le (take 8 msg_frame))
      ∷ (codes "messageW7", from_le (drop 56 msg_frame))
      ∷ []

unfoldable pub max_wire : Bytes
unfolding repeat object_text receiver_id amount_text memo_text msg escape_all decimal
max_wire =
    repeat 32 (codes " ")
    ++ object_text (
        receiver_id (repeat 64 (codes "\\u0061"))
        ∷ amount_text (escape_all (decimal maximum))
        ∷ memo_text (repeat 16 (codes "\\u0061"))
        ∷ msg (repeat 64 (codes "\\u0062"))
        ∷ [])

unfoldable pub accepted : List (Bytes × Fields)
unfolding object_text in_every_order transfer_call_fields memo_text msg
accepted =
    in_every_order fields (transfer_call_fields (codes "receiver.test.near") amount 1 memo message)
    ++ in_every_order required
        (transfer_call_fields (codes "receiver.test.near") amount 0 [] message)
    ++ (
      object_text
          (message_field ∷ receiver_field ∷ (codes "memo", codes "null") ∷ amount_field ∷ []),
      transfer_call_fields (codes "receiver.test.near") amount 0 [] message,
    )
      ∷ (
        object_text (amount_field ∷ msg [] ∷ memo_text [] ∷ receiver_field ∷ []),
        transfer_call_fields (codes "receiver.test.near") amount 1 [] [],
      )
      ∷ []

-- The wires of `invalid`.
unfoldable pub invalid : List Bytes
unfolding repeat object_text quoted receiver_id amount_text msg
invalid =
    codes "{}"
    ∷ object_text (receiver_field ∷ amount_field ∷ [])
    ∷ object_text (amount_field ∷ message_field ∷ [])
    ∷ object_text (receiver_field ∷ message_field ∷ [])
    ∷ object_text (required ++ (message_field ∷ []))
    ∷ object_text (required ++ (receiver_field ∷ []))
    ∷ object_text (required ++ (amount_field ∷ []))
    ∷ object_text (required ++ (memo_field ∷ memo_field ∷ []))
    ∷ object_text (required ++ ((codes "other", codes "0") ∷ []))
    ∷ object_text ((codes "m\\u0073g", quoted (codes "x")) ∷ receiver_field ∷ amount_field ∷ [])
    ∷ object_text (receiver_field ∷ amount_field ∷ (codes "msg", codes "null") ∷ [])
    ∷ object_text (receiver_field ∷ amount_field ∷ (codes "msg", codes "1") ∷ [])
    ∷ object_text (receiver_field ∷ amount_field ∷ msg (repeat 65 (codes "a")) ∷ [])
    ∷ object_text (receiver_field ∷ amount_field ∷ msg (codes "\\ud83d") ∷ [])
    ∷ object_text (receiver_field ∷ amount_field ∷ msg (255 ∷ []) ∷ [])
    ∷ object_text (receiver_id (codes "a") ∷ amount_field ∷ message_field ∷ [])
    ∷ object_text (receiver_field ∷ amount_text (codes "01") ∷ message_field ∷ [])
    ∷ (object_text required ++ codes "0")
    ∷ (repeat 33 (codes " ") ++ object_text required)
    ∷ (max_wire ++ codes "0")
    ∷ []

-- `short`
abbrev pub short : Bytes
unfolding object_text receiver_id amount_text msg
short = object_text (msg (codes "z") ∷ amount_text (codes "9") ∷ receiver_id (codes "aa") ∷ [])

module _ (E : Env) (c : Client) where
  -- The suite, after its environment variables are read.
  unfoldable pub main : Bytes → Suite E.World (Unit {0})
  unfolding prepare accept_all refuse_all commit transfer_call_fields object_text repeat fails_late
  main code = do
    prepare E c code 0
    accept_all E c accepted
    assert (length max_wire == 1179)
    accept_all E c (
        (
          max_wire,
          transfer_call_fields (repeat 64 (codes "a")) maximum 1 (repeat 16 (codes "a"))
              (repeat 64 (codes "b")),
        )
        ∷ [])
    refuse_all E c (codes "messageLength") invalid
    accept_all E c ((short, transfer_call_fields (codes "aa") 9 0 [] (codes "z")) ∷ [])
    commit E c (codes "commitMessageLength") (object_text fields) (length message)
    fails_late E c (codes "commitMessageLength") (object_text fields ++ codes "0") (length message)
