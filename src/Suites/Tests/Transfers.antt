-- ===== src/Suites/Tests/Transfers.antt =====
-- A transfer on a node whose contract logs the transfer's event.
use proof_forge_near.Prelude.{◌≡◌, refl, true, none, some, [], ◌∷◌, Text, Bytes, codes, text_eq}
use proof_forge_near.Py.Result.{ok}
use proof_forge_near.Py.Int.{pos}
use proof_forge_near.Py.Bytes.{to_le, from_le}
use proof_forge_near.Py.Dict.{dict_eq}
use proof_forge_near.Py.Value.{Value, int, str, list, dict, nil, get, has_key, is_key}
use proof_forge_near.Rpc.Dynamic.{
  object, get_or_none, truthy, subscript, to_bytes, to_int, get_or_default, contains, iterate,
}
use proof_forge_near.Rpc.Env.{Env, Client, answered}
use proof_forge_near.Rpc.Query.{view_state_values, rpc_call, read_reply, or_self}
use proof_forge_near.Rpc.Send.{
  call_on, deploy, sign_and_send, access_key, next, check_outcome, outcome_failed, judge, call,
  sign_transaction,
}
use proof_forge_near.Rpc.View.{
  view, view_on, view_u64, view_u64_on, u64_of, view_response_on, check_view, view_bytes,
  success_value_bytes, success_in, last_success,
}
use proof_forge_near.Rpc.Transaction.{
  action_deploy, transaction, action_function_call, join_actions,
}
use proof_forge_near.Rpc.Wire.{
  borsh_bytes, borsh_string, u64, u128, encode_u64_le, decode_u64_le, pack_u32, pack_unsigned,
}
use proof_forge_near.Py.Utf8.{encode, encode_char}
use proof_forge_near.Suites.Contract.{expect_failure}
use proof_forge_near.Suites.Matrix.{prepare, accept_all, refuse_all, default_gas}
use proof_forge_near.Rpc.Query.{read_state, collect_rows}
use proof_forge_near.Py.Json.{dumps}
use proof_forge_near.Suites.Receipts.{receipt_logs, logs_in, same_logs}
use proof_forge_near.Suites.Token.{rows, rows_are, send, json_bytes, encoded, shown}
use proof_forge_near.Suites.Receipts.{append_items}
use proof_forge_near.Suites.Receipts.Logs.{Logged}
use proof_forge_near.Suites.Token.{returns}
use proof_forge_near.Suites.Ledger.Event.{read_event}
use proof_forge_near.Suites.Ledger.Sent.{ft_transfer_sound}
use proof_forge_near.Py.Value.{item}
use proof_forge_near.Py.Json.{quoted, escape}
use proof_forge_near.Suites.Ledger.{
  ft_transfer, transfer_event, event_line, with_memo, logs_are, or_args, ft_args, ft_object,
}
use proof_forge_near.Suites.Ledger.Wire.{memo_of}
use proof_forge_near.Suites.Ledger.Refused.{Sends}

abbrev record_of_event : Value
record_of_event = dict (
    object (
      (
        codes "outcome",
        dict (
            object (
              (
                codes "logs",
                list
                    (item (str (transfer_event (codes "test.near") (codes "aa") (pos 3) none)) nil),
              )
              ∷ [])),
      )
      ∷ []))

-- A query's fields and a transaction's outcome at once.
abbrev answer : Value
answer = dict (
    object (
      (codes "nonce", int (pos 0))
      ∷ (codes "block_hash", str (codes "x"))
      ∷ (codes "status", dict (object ((codes "SuccessValue", str []) ∷ [])))
      ∷ (codes "receipts_outcome", list (item record_of_event nil))
      ∷ []))

abbrev node : Env
node = record {
  World = Unit {0};
  urlopen = λ kind params w. (answered (dict (object ((codes "result", answer) ∷ []))), w);
  b64encode = λ b. b;
  b64decode = λ t. some t;
  b64decode_strict = λ t. some t;
  b58decode = λ t. some (to_le 32 0);
  parse_int = λ t. some (pos 0);
  sha256 = λ b. b;
  sign = λ b. b;
}

abbrev client : Client
client = record { account_id = codes "test.near"; public_key = []; public_key_str = [] }

sent : ft_transfer node client (codes "aa") (pos 3) none (memo_of none) none tt ≡ (ok tt, tt)
unfolding ft_transfer returns append_items transfer_event event_line with_memo quoted escape rows
    rows_are logs_are send or_args ft_args ft_object json_bytes encoded shown dumps receipt_logs
    logs_in same_logs view_state_values read_state dict_eq collect_rows text_eq rpc_call read_reply
    get subscript has_key call_on to_le view view_on view_u64 view_u64_on u64_of decode_u64_le
    view_response_on check_view view_bytes to_bytes get_or_none truthy accept_all refuse_all deploy
    sign_and_send access_key next check_outcome outcome_failed judge call sign_transaction
    action_deploy transaction action_function_call join_actions borsh_bytes borsh_string u64 u128
    encode_u64_le pack_u32 pack_unsigned or_self to_int get_or_default contains iterate encode
    encode_char is_key success_value_bytes success_in last_success from_le prepare expect_failure
sent = refl

ft_transfer_sound_example :
    (args : Bytes) × Sends (codes "aa") 3 none none args
    × ((response : Value) × (call_on node client
            (codes "test.near")
            (codes "ft_transfer")
            args
            true
            default_gas
            (pos 1)
            none
            tt
          ≡ (ok response, tt))
        × (success_value_bytes node.b64decode response ≡ ok (some []))
        × ((line : Text) × Logged response (item (str line) nil)
            × (read_event line ≡ some (codes "test.near", codes "aa", 3))))
unfolding or_self
ft_transfer_sound_example = ft_transfer_sound node client (codes "aa") 3 none none none tt tt sent
