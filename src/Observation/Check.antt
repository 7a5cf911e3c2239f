-- ===== src/Observation/Check.antt =====
-- `require_nullary_uint64_view_observation_v1`: the check of a nullary UInt64 view.
pub mod Exact
use proof_forge_near.Prelude.{
  ℕ, Bool, true, false, not, Option, none, some, List, [], ◌∷◌, ◌==◌, Text, Bytes, text_eq, length,
}
use proof_forge_near.Py.Result.{Result, ok, err, ◌>>=◌, ◌>>◌, raise_if}
use proof_forge_near.Py.Bytes.{from_le}
use proof_forge_near.Py.Dict.{dict_eq}
use proof_forge_near.Observation.Adapter.{CallObservation}
use proof_forge_near.Observation.Error.{
  ObservationError, expected_width, wrong_export, input_not_empty, observed_failure, no_return_data,
  return_width, return_mismatch, has_logs, has_promises, storage_changed,
}

-- The truth of a sequence: `if observation.logs`.
abbrev nonempty : List Bytes → Bool
nonempty [] = false
nonempty (b ∷ bs) = true

require_data : Option Bytes → Result ObservationError Bytes
require_data none = err no_return_data
require_data (some b) = ok b

unfoldable pub require_nullary_uint64_view :
    CallObservation → Text → Bytes → Result ObservationError ℕ
unfolding require_data
require_nullary_uint64_view o expected_name expected = do
  raise_if (not (length expected == 8)) expected_width
  raise_if (not (text_eq o.export_name expected_name)) wrong_export
  raise_if (not (text_eq o.input [])) input_not_empty
  raise_if o.failure_observed observed_failure
  data_bytes ← require_data o.return_data
  raise_if (not (length data_bytes == 8)) return_width
  raise_if (not (text_eq data_bytes expected)) return_mismatch
  raise_if (nonempty o.logs) has_logs
  raise_if (nonempty o.promises) has_promises
  raise_if (not (dict_eq o.post o.pre)) storage_changed
  ok (from_le data_bytes)
