-- ===== src/Observation/Tests.antt =====
-- observation_v1.py at concrete responses.
use proof_forge_near.Prelude.{◌≡◌, refl, false, some, [], ◌∷◌, Bytes, codes, text_eq}
use proof_forge_near.Py.Result.{err}
use proof_forge_near.Py.Bytes.{from_le, to_le}
use proof_forge_near.Py.Dict.{Dict, NodupKeys, lookup, insert, dict_eq}
use proof_forge_near.Py.Value.{Value, str, bytes, list, dict, nil, end, entry, has_key, as_mapping}
use proof_forge_near.Observation.Error.{storage_changed}
use proof_forge_near.Observation.Adapter.{
  CallObservation, require_name, require_bytes, require_object, reject_fields, require_result,
  require_logs, observation_from_view_response, storage_copy,
}
use proof_forge_near.Observation.Adapter.Accepts.{
  byte_items, IsViewObservation, observation_from_view_response_iff,
}
use proof_forge_near.Observation.Check.{require_nullary_uint64_view}
use proof_forge_near.Observation.Check.Exact.{IsExactView, require_nullary_uint64_view_iff}

abbrev state : Dict Bytes
state = (codes "count", to_le 8 7) ∷ []

-- What the view `get` of a counter at 7 answers.
abbrev response : Value
response = dict (
    entry (str (codes "result")) (list (byte_items (to_le 8 7)))
      (entry (str (codes "logs")) (list nil) end))

abbrev seven : CallObservation
seven = record {
  export_name = codes "get";
  input = [];
  return_data = some (to_le 8 7);
  failure_observed = false;
  logs = [];
  promises = [];
  pre = state;
  post = state;
}

state-NodupKeys : NodupKeys state
unfolding lookup
state-NodupKeys = (refl, tt)

observation_from_view_response_iff_example :
    IsViewObservation
      (str (codes "get"))
      (bytes [])
      response
      (dict (as_mapping state))
      (dict (as_mapping state))
      seven
unfolding observation_from_view_response require_name require_bytes require_object has_key
    reject_fields require_result to_le require_logs storage_copy insert
observation_from_view_response_iff_example =
    (observation_from_view_response_iff (str (codes "get")) (bytes []) response
        (dict (as_mapping state)) (dict (as_mapping state)) seven).0
      refl

require_nullary_uint64_view_iff_example :
    IsExactView seven (codes "get") (to_le 8 7) × (7 ≡ from_le (to_le 8 7))
unfolding require_nullary_uint64_view to_le text_eq dict_eq from_le
require_nullary_uint64_view_iff_example =
    (require_nullary_uint64_view_iff seven (codes "get") (to_le 8 7) 7 state-NodupKeys
        state-NodupKeys).0
      refl

change_found :
    require_nullary_uint64_view (record seven { post = [] }) (codes "get") (to_le 8 7)
    ≡ err storage_changed
unfolding require_nullary_uint64_view to_le text_eq dict_eq
change_found = refl
