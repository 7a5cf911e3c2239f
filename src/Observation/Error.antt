-- ===== src/Observation/Error.antt =====
-- The messages of `ObservationError`, in the order of the source, with the values that they show.
use proof_forge_near.Prelude.{ℕ, Text}

pub data Snapshot : Type 0 where
  pre_storage post_storage : Snapshot

pub data ObservationError : Type 0 where
  storage_not_mapping storage_row_not_bytes : Snapshot → ObservationError
  export_name_not_string input_not_bytes response_not_object reports_failure : ObservationError
  receipt_field : Text → ObservationError
  result_not_array : ObservationError
  result_not_byte : ℕ → ObservationError
  logs_not_array : ObservationError
  log_not_string log_not_utf8 : ℕ → ObservationError
  expected_width wrong_export input_not_empty observed_failure no_return_data : ObservationError
  return_width return_mismatch has_logs has_promises storage_changed : ObservationError
