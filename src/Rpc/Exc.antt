-- ===== src/Rpc/Exc.antt =====
-- The exceptions that near_rpc.py raises or lets through.
use proof_forge_near.Prelude.{ℕ, Text, Bytes}
use proof_forge_near.Py.Value.{Value}
use proof_forge_near.Observation.Error.{ObservationError}

-- The messages of `NearRpcError`, with the values that they show.
pub data Reason : Type 0 where
  transport : Text → Reason
  rpc_error : Text → Value → Reason
  missing_block_height missing_block_time : Value → Reason
  view_account : Text → Value → Reason
  state_not_object state_values_not_array : Text → Reason
  state_error : Text → Value → Reason
  malformed_row : Text → Value → Reason
  duplicate_key : Text → Bytes → Reason
  tx_failure expected_failure : Value → Reason
  bad_wasm_magic : Bytes → Reason
  view_not_object malformed_result : Text → Text → Reason
  view_error : Text → Text → Value → Reason
  short_result : Text → Text → ℕ → Bytes → Reason
  invalid_observation : Text → Text → ObservationError → Reason

pub data Exc : Type 0 where
  struct_error overflow_error value_error unicode_error key_error type_error attribute_error : Exc
  near_rpc_error : Reason → Exc
