-- ===== src/Suites/Token/Tests.antt =====
-- The token suites' checks on a node with one contract, which has the row of the account `aa` up to
-- the first transaction and refunds six yocto in it.
use proof_forge_near.Prelude.{
  ◌≡◌, refl, ℕ, suc, ◌+◌, ◌==◌, true, false, some, [], ◌∷◌, ◌++◌, if◌then◌else◌, Text, Bytes, codes,
  text_eq, replicate,
}
use proof_forge_near.Py.Result.{ok}
use proof_forge_near.Py.Int.{ℤ, pos}
use proof_forge_near.Py.Bytes.{to_le}
use proof_forge_near.Py.Dict.{Dict, lookup}
use proof_forge_near.Py.Json.{dumps}
use proof_forge_near.Py.Value.{Value, int, str, list, dict, Items, nil, item, get, has_key}
use proof_forge_near.Observation.Adapter.Accepts.{byte_items}
use proof_forge_near.Rpc.Dynamic.{object}
use proof_forge_near.Rpc.Env.{Env, Client, answered}
use proof_forge_near.Rpc.Query.{view_state_values}
use proof_forge_near.Rpc.View.{success_value_bytes}
use proof_forge_near.Rpc.Send.{call_on}
use proof_forge_near.Suites.Matrix.{default_gas}
use proof_forge_near.Suites.Receipts.{records_of, assert_transfer_receipt, assert_paid_receipt}
use proof_forge_near.Suites.Receipts.Paid.{
  Finds, Refunded, assert_transfer_receipt-ok_iff, assert_paid_receipt_sound,
}
use proof_forge_near.Suites.Ledger.{ft_object}
use proof_forge_near.Suites.Ledger.Wire.{memo_of, read_transfer, read_transfer-ft_object}
use proof_forge_near.Suites.Registration.{registration_key, assert_exact_reclaim}
use proof_forge_near.Suites.Registration.Reclaim.{assert_exact_reclaim_sound, Behind}
use proof_forge_near.Py.Utf8.{encode, encode_char}
use proof_forge_near.Rpc.Query.{
  rpc_call, read_reply, read_state, decode_row, view_account_balance, collect_rows, or_self,
}
use proof_forge_near.Py.Dict.{insert}
use proof_forge_near.Rpc.Dynamic.{
  get_or_none, subscript, to_int, contains, get_or_default, iterate, to_bytes, truthy,
}
use proof_forge_near.Rpc.Transaction.{action_function_call, join_actions, transaction}
use proof_forge_near.Rpc.Wire.{
  borsh_string, borsh_bytes, decode_u64_le, pack_u32, pack_unsigned, u128, u64,
}
use proof_forge_near.Prelude.{has_substring, starts_with}
use proof_forge_near.Py.Bytes.{from_le}
use proof_forge_near.Py.Value.{is_key}
use proof_forge_near.Rpc.Send.{
  access_key, check_outcome, judge, next, outcome_failed, sign_and_send, sign_transaction,
}
use proof_forge_near.Rpc.View.{
  check_view, last_success, success_in, u64_of, view_bytes, view_on, view_response_on, view_u64_on,
}
use proof_forge_near.Suites.Receipts.{
  actions_of, any_pays, find_transfer, has_succeeded, int_eq, is_text, is_transfer, pays,
  receipt_at, receipt_of, succeeded, transferred, visit,
}
use proof_forge_near.Suites.Registration.{
  exactly_eight, int_le, reclaimed_exactly, result_is, result_u64, unregister,
}
use proof_forge_near.Suites.Token.{balance_key, encoded, rows, send}

abbrev contract : Text
contract = codes "reg"

abbrev key : Bytes
key = codes "BAL2" ++ (to_le 4 2 ++ codes "aa")

abbrev one_row : Items
one_row =
    item (dict (object ((codes "key", str key) ∷ (codes "value", str (replicate 16 0)) ∷ []))) nil

abbrev done : Value
done = dict (object ((codes "SuccessValue", str (to_le 8 1)) ∷ []))

-- A record of a receipt that has succeeded.
abbrev paid_record : Value
paid_record = dict (
    object (
      (codes "id", str (codes "r"))
      ∷ (codes "outcome", dict (object ((codes "status", done) ∷ [])))
      ∷ []))

abbrev outcome : Value
outcome =
    dict (
      object
        ((codes "status", done) ∷ (codes "receipts_outcome", list (item paid_record nil)) ∷ []))

-- The receipt `r`: six yocto for `aa`.
abbrev receipt : Value
receipt = dict (
    object (
      (codes "receiver_id", str (codes "aa"))
      ∷ (
        codes "receipt",
        dict (
            object (
              (
                codes "Action",
                dict (
                    object (
                      (
                        codes "actions",
                        list (
                            item
                              (dict (
                                object (
                                  (
                                    codes "Transfer",
                                    dict (object ((codes "deposit", int (pos 6)) ∷ [])),
                                  )
                                  ∷ [])))
                              nil),
                      )
                      ∷ [])),
              )
              ∷ [])),
      )
      ∷ []))

-- What a query answers behind so many transactions.
abbrev state_fields : ℕ → Value
state_fields n = dict (
    object (
      (codes "nonce", int (pos 0))
      ∷ (codes "block_hash", str (codes "x"))
      ∷ (codes "amount", int (pos (10 + n)))
      ∷ (codes "values", list (if n == 0 then one_row else nil))
      ∷ (codes "result", list (byte_items (to_le 8 5)))
      ∷ []))

abbrev reply : Text → ℕ → Value
reply method n = dict (
    object (
      (
        codes "result",
        (if text_eq method (codes "broadcast_tx_commit")
            then outcome
            else if text_eq method (codes "EXPERIMENTAL_receipt")
            then receipt
            else state_fields n),
      )
      ∷ []))

abbrev node : Env
node = record {
  World = ℕ;
  urlopen = λ method params n. (
    answered (reply method n),
    (if text_eq method (codes "broadcast_tx_commit") then suc n else n),
  );
  b64encode = λ b. b;
  b64decode = λ t. some t;
  b64decode_strict = λ t. some t;
  b58decode = λ t. some (to_le 32 0);
  parse_int = λ t. some (pos 0);
  sha256 = λ b. b;
  sign = λ b. b;
}

abbrev client : Client
client = record { account_id = codes "test.near"; public_key = []; public_key_str = [] }

paid : assert_paid_receipt node client outcome (codes "aa") (pos 6) 1 ≡ (ok tt, 1)
unfolding assert_paid_receipt get_or_default iterate get truthy rpc_call read_reply to_int has_key
paid = refl

reclaimed : assert_exact_reclaim node client contract (codes "aa") 5 1 0 ≡ (ok tt, 1)
unfolding assert_exact_reclaim assert_paid_receipt records_of view_state_values get lookup to_le
    call_on text_eq has_key success_value_bytes registration_key encode rpc_call read_reply
    read_state decode_row insert view_account_balance get_or_none subscript to_int
    action_function_call borsh_string has_substring starts_with from_le encode_char is_key contains
    get_or_default iterate to_bytes truthy collect_rows or_self access_key check_outcome judge next
    outcome_failed sign_and_send sign_transaction join_actions transaction check_view last_success
    success_in u64_of view_bytes view_on view_response_on view_u64_on borsh_bytes decode_u64_le
    pack_u32 pack_unsigned u128 u64 actions_of any_pays find_transfer has_succeeded int_eq is_text
    is_transfer pays receipt_at receipt_of succeeded transferred visit exactly_eight int_le
    reclaimed_exactly result_is result_u64 unregister balance_key encoded rows send
reclaimed = refl

assert_paid_receipt_sound_example : Refunded node client (codes "aa") (pos 6) outcome 1
assert_paid_receipt_sound_example =
    assert_paid_receipt_sound node client (codes "aa") (pos 6) outcome 1 1 paid

transferred_six : assert_transfer_receipt node client outcome (codes "aa") (pos 6) 1 ≡ (ok tt, 1)
unfolding assert_transfer_receipt get_or_default iterate get truthy rpc_call read_reply to_int
    has_key records_of find_transfer visit receipt_of receipt_at is_transfer is_text actions_of
    any_pays pays transferred int_eq get_or_none is_key text_eq
transferred_six = refl

assert_transfer_receipt-ok_iff_example :
    (rows : Items) × (records_of outcome ≡ ok rows)
    × ((found : Value) × Finds node client (codes "aa") (pos 6) rows 1 found 1)
assert_transfer_receipt-ok_iff_example =
    (assert_transfer_receipt-ok_iff node client (codes "aa") (pos 6) outcome 1 1).0 transferred_six

assert_exact_reclaim_sound_example :
    (k : Bytes) × (registration_key (codes "aa") ≡ ok k)
    × ((before : Dict Bytes) × (w1 : ℕ) × (view_state_values node client (some contract) 0
          ≡ (ok before, w1))
        × (lookup k before ≡ some (replicate 16 0))
        × ((balance_before : ℤ) × (w2 : ℕ) × (view_account_balance node client (codes "aa") w1
              ≡ (ok balance_before, w2))
            × ((found : Value) × (w3 : ℕ) × (call_on node client contract
                    (codes "unregisterCaller")
                    []
                    true
                    default_gas
                    (pos 1)
                    (some (codes "aa"))
                    w2
                  ≡ (ok found, w3))
                × Behind node client contract (codes "aa") 5 1 k balance_before found w3 1)))
assert_exact_reclaim_sound_example =
    assert_exact_reclaim_sound node client contract (codes "aa") 5 1 0 1 reclaimed

read_transfer-ft_object_example :
    read_transfer (dumps false (ft_object (codes "a\"b") (pos 40) (memo_of (some (some (9 ∷ []))))))
    ≡ some (codes "a\"b", 40, some (some (9 ∷ [])))
read_transfer-ft_object_example = read_transfer-ft_object (codes "a\"b") 40 (some (some (9 ∷ [])))
