-- ===== src/Rpc/Transaction.antt =====
-- The actions and the signed transaction of near_rpc.py, as Borsh bytes.
pub mod Bounds
use proof_forge_near.Prelude.{List, [], ◌∷◌, ◌++◌, Text, Bytes, length}
use proof_forge_near.Py.Result.{Result, ok, ◌>>=◌}
use proof_forge_near.Py.Int.{ℤ, pos}
use proof_forge_near.Rpc.Exc.{Exc}
use proof_forge_near.Rpc.Wire.{borsh_bytes, borsh_string, u64, u128, pack_u32}

unfoldable pub action_create_account : Bytes
action_create_account = 0 ∷ []

unfoldable pub action_deploy : Bytes → Result Exc Bytes
action_deploy code = do body ← borsh_bytes code; ok (1 ∷ body)

unfoldable pub action_function_call : Text → Bytes → ℤ → ℤ → Result Exc Bytes
action_function_call method args gas deposit = do
  name ← borsh_string method
  arg_bytes ← borsh_bytes args
  gas_bytes ← u64 gas
  deposit_bytes ← u128 deposit
  ok (2 ∷ (name ++ (arg_bytes ++ (gas_bytes ++ deposit_bytes))))

unfoldable pub action_transfer : ℤ → Result Exc Bytes
action_transfer amount = do body ← u128 amount; ok (3 ∷ body)

unfoldable pub action_add_full_access_key : Bytes → Result Exc Bytes
action_add_full_access_key public_key = do
  nonce ← u64 (pos 0)
  ok (5 ∷ 0 ∷ (public_key ++ (nonce ++ (1 ∷ []))))

-- `b"".join(actions)`
unfoldable pub join_actions : List Bytes → Bytes
join_actions [] = []
join_actions (a ∷ as') = a ++ join_actions as'

-- The unsigned transaction `tx` of `sign_and_send`.
unfoldable pub transaction : Text → Bytes → ℤ → Text → Bytes → List Bytes → Result Exc Bytes
unfolding join_actions
transaction signer_id public_key nonce receiver block_hash actions = do
  count ← pack_u32 (pos (length actions))
  signer_bytes ← borsh_string signer_id
  nonce_bytes ← u64 nonce
  receiver_bytes ← borsh_string receiver
  ok (
      signer_bytes
      ++ (0
          ∷ (public_key
              ++ (nonce_bytes
                  ++ (receiver_bytes ++ (block_hash ++ (count ++ join_actions actions)))))))
