-- ===== src/Rpc/Tests/Node.antt =====
-- The client of near_rpc.py at concrete responses, with a node that holds one contract.
use proof_forge_near.Prelude.{
  ◌≡◌, ◌↔◌, refl, true, false, none, some, [], ◌∷◌, if◌then◌else◌, text_eq, Text, Bytes, codes,
}
use proof_forge_near.Py.Result.{ok, ◌>>=◌}
use proof_forge_near.Py.Int.{pos}
use proof_forge_near.Py.Bytes.{to_le, from_le}
use proof_forge_near.Py.Dict.{Dict, lookup, NodupKeys, insert, dict_eq}
use proof_forge_near.Py.Value.{
  Value, int, str, list, dict, Items, nil, item, Entries, end, entry, get, has_key,
}
use proof_forge_near.Observation.Adapter.{
  CallObservation, observation_from_view_response, require_name, require_bytes, require_object,
  reject_fields, require_result, require_logs, storage_copy,
}
use proof_forge_near.Observation.Adapter.Accepts.{byte_items}
use proof_forge_near.Observation.Check.{require_nullary_uint64_view}
use proof_forge_near.Rpc.Dynamic.{object, get_or_none, subscript, contains}
use proof_forge_near.Rpc.Env.{Env, Client, answered}
use proof_forge_near.Rpc.Query.{
  rpc_call, read_reply, read_state, decode_row, collect_rows, view_state_values,
}
use proof_forge_near.Rpc.Query.State.{DecodesTo, read_state_iff}
use proof_forge_near.Rpc.Send.{check_outcome}
use proof_forge_near.Rpc.Send.Outcome.{HasStatuses, any_failure, check_outcome_iff}
use proof_forge_near.Rpc.View.{
  view_bytes, u64_of, view_response_on, check_view, observe_view, success_in, success_value_bytes,
}
use proof_forge_near.Rpc.View.Decode.{u64_of-int_result}
use proof_forge_near.Rpc.View.Observe.{observe_view_checked, before, after, response}
use proof_forge_near.Rpc.View.Success.{success_value_bytes_lem}

abbrev request_type : Value → Text
request_type (dict (entry k (str t) rest)) = t
request_type _ = []

-- One row, whose key and value stand as they are.
abbrev rows : Items
rows =
    item
      (dict (object ((codes "key", str (codes "count")) ∷ (codes "value", str (to_le 8 7)) ∷ [])))
      nil

abbrev state_fields : Entries
state_fields = object ((codes "values", list rows) ∷ [])

abbrev view_fields : Entries
view_fields =
    object ((codes "result", list (byte_items (to_le 8 7))) ∷ (codes "logs", list nil) ∷ [])

abbrev reply : Value → Value
reply params = dict (
    object (
      (
        codes "result",
        dict (
            if text_eq (request_type params) (codes "view_state")
            then state_fields
            else view_fields),
      )
      ∷ []))

abbrev node : Env
node = record {
  World = Unit {0};
  urlopen = λ method params w. (answered (reply params), w);
  b64encode = λ b. b;
  b64decode = λ t. some t;
  b64decode_strict = λ t. some t;
  b58decode = λ t. some t;
  parse_int = λ t. some (pos 0);
  sha256 = λ b. b;
  sign = λ b. b;
}

abbrev client : Client
client = record { account_id = codes "test.near"; public_key = []; public_key_str = [] }

abbrev state : Dict Bytes
state = (codes "count", to_le 8 7) ∷ []

abbrev seven : CallObservation
seven = record {
  export_name = codes "get";
  input = [];
  return_data = some (to_le 8 7);
  failure_observed = false;
  logs = [];
  promises = [];
  pre = state;
  post = state;
}

read_state_iff_example :
    (d : Entries) × (rows_ : Items) × (dict state_fields ≡ dict d)
    × (get (codes "error") d ≡ none)
    × (get (codes "values") d ≡ some (list rows_))
    × DecodesTo node rows_ state
    × NodupKeys state
unfolding read_state collect_rows decode_row get lookup insert
read_state_iff_example = (read_state_iff node (codes "a") (dict state_fields) state).0 refl

observe_view_checked_example :
    let w : Unit {0} = tt in
    (◌≡◌ {A = Bytes} [] [])
    × ((before node client w).0 ≡ ok state)
    × ((after node client (codes "get") [] w).0 ≡ ok state)
    × ((k : Text) → lookup k state ≡ lookup k state)
    × (7 ≡ from_le (to_le 8 7))
    × ((d : Entries) × ((response node client (codes "get") [] w).0 ≡ ok (dict d))
        × (get (codes "result") d ≡ some (list (byte_items (to_le 8 7))))
        × (get (codes "logs") d ≡ some (list nil)))
unfolding observe_view view_state_values view_response_on rpc_call read_reply read_state
    collect_rows decode_row get lookup insert check_view get_or_none observation_from_view_response
    require_name require_bytes require_object has_key reject_fields require_result require_logs
    storage_copy require_nullary_uint64_view text_eq to_le from_le dict_eq
observe_view_checked_example =
    observe_view_checked node client (codes "get") [] tt seven (to_le 8 7) 7 refl refl

abbrev failed_fields : Entries
failed_fields = object ((codes "Failure", str []) ∷ [])

abbrev done_fields : Entries
done_fields = object ((codes "SuccessValue", str (codes "ab")) ∷ [])

abbrev receipt : Entries → Value
receipt status =
    dict (object ((codes "outcome", dict (object ((codes "status", dict status) ∷ []))) ∷ []))

-- The transaction's own status has neither key, and its two receipts have one each.
abbrev receipts : Items
receipts = item (receipt done_fields) (item (receipt failed_fields) nil)

abbrev committed : Entries
committed = object ((codes "status", dict end) ∷ (codes "receipts_outcome", list receipts) ∷ [])

check_outcome_iff_example :
    (check_outcome false (dict committed) ≡ ok (dict committed))
    ↔ (any_failure (end ∷ done_fields ∷ failed_fields ∷ []) ≡ true)
unfolding get
check_outcome_iff_example =
    check_outcome_iff committed end receipts (done_fields ∷ failed_fields ∷ []) refl refl statuses
      false
  where
    statuses : HasStatuses receipts (done_fields ∷ failed_fields ∷ [])
    statuses = ((_, _, refl, refl, refl), ((_, _, refl, refl, refl), tt))

success_value_bytes_example :
    success_value_bytes (λ t. some t) (dict committed) ≡ ok (some (codes "ab"))
unfolding get success_in contains has_key subscript
success_value_bytes_example =
    success_value_bytes_lem (λ t. some t) committed end receipts (done_fields ∷ failed_fields ∷ [])
      none (some (codes "ab") ∷ none ∷ []) refl refl statuses refl (refl, (refl, tt))
  where
    statuses : HasStatuses receipts (done_fields ∷ failed_fields ∷ [])
    statuses = ((_, _, refl, refl, refl), ((_, _, refl, refl, refl), tt))

u64_of-int_result_example :
    (view_bytes (codes "a") (codes "m") (dict (object ((codes "result", int (pos 9)) ∷ [])))
      >>= λ raw. u64_of (codes "a") (codes "m") raw)
    ≡ ok 0
unfolding get
u64_of-int_result_example =
    u64_of-int_result (codes "a") (codes "m") (object ((codes "result", int (pos 9)) ∷ [])) 9 refl
