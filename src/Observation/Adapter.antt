-- ===== src/Observation/Adapter.antt =====
-- `call_observation_from_view_response_v1`: from a view response to an observation.
pub mod Accepts
pub mod Copy
use proof_forge_near.Prelude.{
  ℕ, ◌+◌, Bool, true, false, Option, none, some, List, [], ◌∷◌, if◌then◌else◌, leb, Text, Bytes,
  codes,
}
use proof_forge_near.Py.Result.{Result, ok, err, ◌>>=◌, ◌>>◌, raise_if}
use proof_forge_near.Py.Int.{ℤ, pos, negsuc}
use proof_forge_near.Py.Dict.{Dict, insert}
use proof_forge_near.Py.Utf8.{encode}
use proof_forge_near.Py.Value.{
  Value, null, bool, int, str, bytes, list, dict, Items, nil, item, Entries, end, entry, get,
  has_key,
}
use proof_forge_near.Observation.Error.{
  Snapshot, pre_storage, post_storage, ObservationError, storage_not_mapping, storage_row_not_bytes,
  export_name_not_string, input_not_bytes, response_not_object, reports_failure, receipt_field,
  result_not_array, result_not_byte, logs_not_array, log_not_string, log_not_utf8,
}

-- `CallObservationV1`
pub record CallObservation : Type 0 where
  pub export_name : Text
  pub input : Bytes
  pub return_data : Option Bytes
  pub failure_observed : Bool
  pub logs : List Bytes
  pub promises : List Bytes
  pub pre : Dict Bytes
  pub post : Dict Bytes

abbrev pub R : Type 0 → Type 0
R A = Result ObservationError A

-- `copied[key] = value` for each row whose key and value are bytes.
copy_rows : Snapshot → Entries → Dict Bytes → R (Dict Bytes)
copy_rows s end copied = ok copied
copy_rows s (entry (bytes k) (bytes v) rest) copied = copy_rows s rest (insert k v copied)
copy_rows s (entry k v rest) copied = err (storage_row_not_bytes s)

unfoldable pub storage_copy : Value → Snapshot → R (Dict Bytes)
unfolding copy_rows
storage_copy (dict rows) s = copy_rows s rows []
storage_copy v s = err (storage_not_mapping s)

-- `type(export_name) is not str or not export_name`
unfoldable pub require_name : Value → R Text
require_name (str (c ∷ name)) = ok (c ∷ name)
require_name v = err export_name_not_string

unfoldable pub require_bytes : Value → R Bytes
require_bytes (bytes b) = ok b
require_bytes v = err input_not_bytes

unfoldable pub require_object : Value → R Entries
require_object (dict d) = ok d
require_object v = err response_not_object

abbrev pub receipt_fields : List Text
receipt_fields =
    codes "receipts"
    ∷ codes "receipt_ids"
    ∷ codes "receipts_outcome"
    ∷ codes "transaction_outcome"
    ∷ []

-- `for field in receipt_fields: if field in response: raise`
unfoldable pub reject_fields : List Text → Entries → R (Unit {0})
unfolding has_key
reject_fields [] d = ok tt
reject_fields (f ∷ fs) d = do raise_if (has_key f d) (receipt_field f); reject_fields fs d

-- The loop over `result`, which gives `bytes(result)`. A `bool` is not of type `int`.
result_bytes : ℕ → Items → R Bytes
result_bytes i nil = ok []
result_bytes i (item (int (pos n)) rest) = do
  raise_if (leb 256 n) (result_not_byte i)
  more ← result_bytes (i + 1) rest
  ok (n ∷ more)
result_bytes i (item v rest) = err (result_not_byte i)

unfoldable pub require_result : Option Value → R Bytes
unfolding result_bytes
require_result (some (list xs)) = result_bytes 0 xs
require_result v = err result_not_array

encode_log : ℕ → Option Bytes → R Bytes
encode_log i none = err (log_not_utf8 i)
encode_log i (some b) = ok b

log_bytes : ℕ → Items → R (List Bytes)
unfolding encode_log
log_bytes i nil = ok []
log_bytes i (item (str text) rest) = do
  b ← encode_log i (encode text)
  more ← log_bytes (i + 1) rest
  ok (b ∷ more)
log_bytes i (item v rest) = err (log_not_string i)

unfoldable pub require_logs : Option Value → R (List Bytes)
unfolding log_bytes
require_logs (some (list xs)) = log_bytes 0 xs
require_logs v = err logs_not_array

unfoldable pub observation_from_view_response :
    Value → Value → Value → Value → Value → Result ObservationError CallObservation
observation_from_view_response export_name input_bytes response pre_value post_value = do
  name ← require_name export_name
  input ← require_bytes input_bytes
  d ← require_object response
  raise_if (has_key (codes "error") d) reports_failure
  reject_fields receipt_fields d
  return_data ← require_result (get (codes "result") d)
  logs ← require_logs (get (codes "logs") d)
  pre ← storage_copy pre_value pre_storage
  post ← storage_copy post_value post_storage
  ok (record {
    export_name = name;
    input = input;
    return_data = some return_data;
    failure_observed = false;
    logs = logs;
    promises = [];
    pre = pre;
    post = post;
  })
