-- ===== src/Suites/Counter.antt =====
-- runtime-tests/near/counter.py: the life of a contract that counts, and its migration. How `repr`
-- shows a response and an exception is a parameter.
use proof_forge_near.Prelude.{
  ℕ, ◌-◌, ◌^◌, Bool, true, false, Option, none, some, [], ◌∷◌, ◌++◌, ◌==◌, leb, if◌then◌else◌, Text,
  Bytes, codes, text_eq, length, has_substring,
}
use proof_forge_near.Py.Result.{Result, ok, err}
use proof_forge_near.Py.Dict.{Dict, lookup}
use proof_forge_near.Py.Int.{pos}
use proof_forge_near.Py.Value.{Value}
use proof_forge_near.Rpc.Exc.{Exc, near_rpc_error, Reason}
use proof_forge_near.Rpc.Env.{Env, Client}
use proof_forge_near.Rpc.Wire.{decode_u64_le}
use proof_forge_near.Rpc.View.{view_u64, success_value_bytes}
use proof_forge_near.Rpc.Send.{deploy, call, call_on, create_subaccount_with_key}
use proof_forge_near.Suites.Play.{
  Stop, assertion_error, raised, Suite, ◌>>=◌, ◌>>◌, step, compute, assert, is_some_eq,
}
use proof_forge_near.Suites.Matrix.{default_gas}
use proof_forge_near.Suites.Scene.{
  word, call_with, failing_call, failing_call_with, view_is, state, row_is,
}

-- `repr` of a response, and of an exception with its reason.
pub record Repr : Type 0 where
  pub value : Value → Text
  pub error : Reason → Text

abbrev pub max_u64 : ℕ
max_u64 = 2 ^ 64 - 1

-- `b"PFNRST01" + bytes.fromhex("ad143be1f1fee08d")`
abbrev pub old_envelope : Bytes
old_envelope = codes "PFNRST01" ++ (0xad ∷ 0x14 ∷ 0x3b ∷ 0xe1 ∷ 0xf1 ∷ 0xfe ∷ 0xe0 ∷ 0x8d ∷ [])

-- `b"PFNRST01" + bytes.fromhex("eefcd2d321ca8f9b")`
abbrev pub new_envelope : Bytes
new_envelope = codes "PFNRST01" ++ (0xee ∷ 0xfc ∷ 0xd2 ∷ 0xd3 ∷ 0x21 ∷ 0xca ∷ 0x8f ∷ 0x9b ∷ [])

-- The `SuccessValue` of the first increment is looked at only where it has eight bytes.
returned_one : Option Bytes → Result Exc Bool
unfolding decode_u64_le
returned_one none = ok true
returned_one (some raw) = elim (leb 8 (length raw)) [
  | true ↦ elim (decode_u64_le raw 0) [ ok n ↦ ok (n == 1) | err e ↦ err e ]
  | false ↦ ok true
]

none_or : Option Bytes → Bytes → Bool
none_or none b = true
none_or (some a) b = text_eq a b

module _ (E : Env) (c : Client) (R : Repr) where
  -- A response that shows the contract's panic.
  shows_panic : Text → Value → Suite E.World (Unit {0})
  unfolding has_substring
  shows_panic panic response = assert (has_substring panic (R.value response))

  panics_with : Text → Text → ℕ → ℕ → Suite E.World (Unit {0})
  unfolding shows_panic failing_call_with
  panics_with panic method n deposit = do
    response ← failing_call_with E c method n deposit
    shows_panic panic response

  refusal_shows : Text → Result Exc ℕ → Result Stop (Unit {0})
  unfolding has_substring
  refusal_shows panic (ok n) = err assertion_error
  refusal_shows panic (err (near_rpc_error r)) =
      if has_substring panic (R.error r) then ok tt else err assertion_error
  refusal_shows panic (err e) = err (raised e)

  -- `try: client.view_u64("get")`, with the panic awaited in the `NearRpcError`.
  unfoldable pub view_refused : Text → Suite E.World (Unit {0})
  unfolding refusal_shows
  view_refused panic w =
      let (r, w') = view_u64 E c (codes "get") [] w in (refusal_shows panic r, w')

  -- `if client.view_state_values(): raise AssertionError(...)`
  state_empty : Suite E.World (Unit {0})
  unfolding state
  state_empty = do rows ← state E c; assert (no_rows rows)
    where
      no_rows : Dict Bytes → Bool
      no_rows [] = true
      no_rows (row ∷ rows) = false

  before_scene : Suite E.World (Unit {0})
  unfolding panics_with view_refused state_empty
  before_scene = do
    panics_with (codes "Method increment doesn't accept deposit") (codes "increment") 1 1
    panics_with (codes "The contract is not initialized") (codes "increment") 1 0
    view_refused (codes "The contract is not initialized")
    state_empty
    panics_with (codes "Method initialize doesn't accept deposit") (codes "initialize") 77 1

  initialize_scene : Suite E.World (Unit {0})
  unfolding call_with row_is view_is panics_with
  initialize_scene = do
    initialized ← call_with E c (codes "initialize") 0
    row_is E c (codes "STATE") old_envelope
    view_is E c (codes "get") [] 0
    panics_with (codes "The contract has already been initialized") (codes "initialize") 99 0
    view_is E c (codes "get") [] 0

  increment_scene : Suite E.World (Unit {0})
  unfolding call_with view_is panics_with failing_call_with returned_one
  increment_scene = do
    response ← call_with E c (codes "increment") 1
    found ← compute (success_value_bytes E.b64decode response)
    good ← compute (returned_one found)
    assert good
    view_is E c (codes "get") [] 1
    panics_with (codes "Method increment doesn't accept deposit") (codes "increment") 9 1
    view_is E c (codes "get") [] 1
    overflow ← failing_call_with E c (codes "increment") max_u64 0
    view_is E c (codes "get") [] 1
    again ← call_with E c (codes "increment") 1
    view_is E c (codes "get") [] 2

  -- The contract's new code is deployed, and its migration is private.
  upgrade_scene : Bytes → Suite E.World (Unit {0})
  unfolding view_refused shows_panic
  upgrade_scene migration_code = do
    deployed ← step (deploy E c migration_code)
    view_refused (codes "The contract state version is incompatible")
    let attacker = codes "migration-attacker.test.near"
    created ← step (create_subaccount_with_key E c attacker (pos (10 ^ 25)))
    rejected ←
        step
          (call_on E c c.account_id (codes "migrate") [] false default_gas (pos 0) (some attacker))
    shows_panic (codes "Method migrate is private") rejected

  migrate_scene : Suite E.World (Unit {0})
  unfolding view_is state word none_or
  migrate_scene = do
    migrated ← step (call E c (codes "migrate") [] true default_gas (pos 0))
    found ← compute (success_value_bytes E.b64decode migrated)
    two ← word E c 2
    assert (none_or found two)
    view_is E c (codes "get") [] 2
    view_is E c (codes "revisionOf") [] 2
    values ← state E c
    assert (is_some_eq (lookup (codes "STATE") values) new_envelope)
    assert (is_some_eq (lookup (codes "total") values) two)
    assert (is_some_eq (lookup (codes "revision") values) two)
    assert (is_some_eq (lookup (codes "value") values) two)

  after_scene : Suite E.World (Unit {0})
  unfolding failing_call shows_panic call_with view_is
  after_scene = do
    repeated ← failing_call E c (codes "migrate") [] 0
    shows_panic (codes "The contract state version is incompatible") repeated
    more ← call_with E c (codes "increment") 1
    view_is E c (codes "get") [] 3
    view_is E c (codes "revisionOf") [] 2

  -- The suite, after its environment variables are read.
  unfoldable pub main : Bytes → Bytes → Suite E.World (Unit {0})
  unfolding before_scene initialize_scene increment_scene upgrade_scene migrate_scene after_scene
  main code migration_code = do
    deployed ← step (deploy E c code)
    before_scene
    initialize_scene
    increment_scene
    upgrade_scene migration_code
    migrate_scene
    after_scene
