-- ===== src/Suites/JsonI64.antt =====
-- runtime-tests/near/json_i64_input.py: signed 64-bit numbers in a JSON object.
use proof_forge_near.Prelude.{
  ◌^◌, ◌-◌, true, List, [], ◌∷◌, ◌++◌, ◌==◌, Text, Bytes, codes, text_eq,
}
use proof_forge_near.Py.Int.{ℤ, pos, negsuc, low_bits}
use proof_forge_near.Rpc.Env.{Env, Client}
use proof_forge_near.Rpc.Wire.{encode_u64_le, decode_u64_le}
use proof_forge_near.Rpc.View.{view, success_value_bytes}
use proof_forge_near.Rpc.Send.{call}
use proof_forge_near.Suites.Play.{Suite, ◌>>=◌, ◌>>◌, step, compute, assert, each, refused}
use proof_forge_near.Suites.Matrix.{prepare, default_gas}
use proof_forge_near.Suites.Lazy.{or_zeros}
use proof_forge_near.Suites.Token.{shown}

-- The numbers that must be accepted.
abbrev pub numbers : List ℤ
numbers =
    pos 0
    ∷ pos 1
    ∷ negsuc 0
    ∷ pos 123
    ∷ negsuc 122
    ∷ pos (2 ^ 62)
    ∷ pos (2 ^ 63 - 1)
    ∷ negsuc (2 ^ 63 - 1)
    ∷ negsuc (2 ^ 63 - 2)
    ∷ []

-- `b" " + b"{" + b'"value"' + b":" + digits + b"}" + b" "`
unfoldable pub wire : ℤ → Bytes
unfolding shown
wire value = codes " {\"value\":" ++ (shown value ++ codes "} ")

-- The digits that must be refused.
abbrev pub failures : List Bytes
failures =
    codes "+1"
    ∷ codes "007"
    ∷ codes "-0"
    ∷ codes "1.0"
    ∷ codes "9223372036854775808"
    ∷ codes "-9223372036854775809"
    ∷ codes "99999999999999999999"
    ∷ codes "true"
    ∷ codes "\"123\""
    ∷ codes "{} "
    ∷ codes "{\"value\":1,\"extra\":2}"
    ∷ []

module _ (E : Env) (c : Client) where
  -- `_expect`
  unfoldable pub expect_i64 : Text → Bytes → ℤ → Suite E.World (Unit {0})
  expect_i64 method wire value = do
    got ← step (view E c method wire)
    expected ← compute (encode_u64_le (pos (low_bits value 64)))
    assert (text_eq got expected)

  -- `_expect_failure`
  unfoldable pub expect_no_i64 : Bytes → Suite E.World (Unit {0})
  unfolding refused
  expect_no_i64 wire = refused (view E c (codes "echoValue") wire)

  commit_scene : Suite E.World (Unit {0})
  unfolding or_zeros
  commit_scene = do
    got ← step (call E c (codes "commitValue") (codes "{\"value\": -5}") true default_gas (pos 0))
    found ← compute (success_value_bytes E.b64decode got)
    used ← compute (decode_u64_le (or_zeros found) 0)
    assert (used == low_bits (negsuc 4) 64)

  unfoldable pub main : Bytes → Suite E.World (Unit {0})
  unfolding prepare each expect_i64 expect_no_i64 commit_scene wire
  main wasm = do
    prepare E c wasm 0
    each (λ value. expect_i64 (codes "echoValue") (wire value) value) numbers
    commit_scene
    each (λ digits. expect_no_i64 (codes "{\"value\":" ++ (digits ++ codes "}"))) failures
