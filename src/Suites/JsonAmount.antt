-- ===== src/Suites/JsonAmount.antt =====
-- runtime-tests/near/json_amount_input.py: a quoted 128-bit number as a contract's JSON argument.
pub mod Verdict
use proof_forge_near.Prelude.{
  ℕ, ◌+◌, ◌-◌, ◌*◌, ◌/◌, ◌%◌, ◌^◌, List, [], ◌∷◌, ◌++◌, ◌==◌, map, Bytes, codes, length,
}
use proof_forge_near.Rpc.Env.{Env, Client}
use proof_forge_near.Suites.Play.{Suite, ◌>>◌, assert}
use proof_forge_near.Py.Decimal.{decimal}
use proof_forge_near.Suites.Bytes.{repeat, join, escape_all, count_space}
use proof_forge_near.Suites.Matrix.{Fields, commit, play}

unfoldable pub wire : Bytes → Bytes
wire digits = codes "{\"amount\":\"" ++ (digits ++ codes "\"}")

abbrev pub max_u128 : ℕ
max_u128 = 2 ^ 128 - 1

unfoldable pub whitespace_32 : Bytes
unfolding join repeat
whitespace_32 = join (
    repeat 5 (codes " ")
    ∷ codes "{"
    ∷ repeat 5 (9 ∷ [])
    ∷ codes "\"amount\""
    ∷ repeat 5 (10 ∷ [])
    ∷ codes ":"
    ∷ repeat 5 (13 ∷ [])
    ∷ codes "\"1\""
    ∷ repeat 5 (codes " ")
    ∷ codes "}"
    ∷ repeat 7 (9 ∷ [])
    ∷ [])

unfoldable pub max_wire : Bytes
unfolding repeat wire escape_all decimal
max_wire = repeat 32 (codes " ") ++ wire (escape_all (decimal max_u128))

-- The numbers, and the wires that hold them.
unfoldable pub numbers : List (ℕ × Bytes)
unfolding wire decimal whitespace_32 max_wire
numbers =
    (0, wire (codes "0"))
    ∷ (2 ^ 64, wire (decimal (2 ^ 64)))
    ∷ (2 ^ 64 + 1, wire (decimal (2 ^ 64 + 1)))
    ∷ (
      0x123456789abcdef0 * 2 ^ 64 + 0x0fedcba987654321,
      wire (decimal (0x123456789abcdef0 * 2 ^ 64 + 0x0fedcba987654321)),
    )
    ∷ (max_u128, wire (decimal max_u128))
    ∷ (123, wire (codes "\\u0031\\u0032\\u0033"))
    ∷ (1, whitespace_32)
    ∷ (max_u128, max_wire)
    ∷ []

-- `_expect_amount`: the two limbs of a number.
unfoldable pub amount_fields : ℕ → Fields
amount_fields value = (codes "amountW0", value % 2 ^ 64) ∷ (codes "amountW1", value / 2 ^ 64) ∷ []

unfoldable pub accepted : List (Bytes × Fields)
unfolding numbers amount_fields
accepted = map (λ a. (a.1, amount_fields a.0)) numbers

-- The wires of `invalid`.
unfoldable pub invalid : List Bytes
unfolding wire decimal repeat
invalid =
    []
    ∷ wire []
    ∷ wire (codes "+1")
    ∷ wire (codes "-1")
    ∷ wire (codes "00")
    ∷ wire (codes "01")
    ∷ wire (decimal (2 ^ 128))
    ∷ wire (codes "999999999999999999999999999999999999999")
    ∷ wire (repeat 40 (codes "1"))
    ∷ wire (codes "1a")
    ∷ wire (codes "\\u00xz")
    ∷ wire (codes "\\ud800")
    ∷ wire (codes "\\u002b")
    ∷ wire (codes "\\u0061")
    ∷ codes "{}"
    ∷ codes "{\"other\":\"1\"}"
    ∷ codes "{\"amount\":1}"
    ∷ codes "{\"amount\":\"1\",\"amount\":\"2\"}"
    ∷ codes "{\"amount\":\"1\",\"other\":0}"
    ∷ codes "{\"am\\u006funt\":\"1\"}"
    ∷ codes "{\"amount\":\"1\"}0"
    ∷ (repeat 33 (codes " ") ++ wire (codes "1"))
    ∷ repeat 280 (codes "x")
    ∷ (codes "{\"amount\":\"" ++ (255 ∷ codes "\"}"))
    ∷ []

module _ (E : Env) (c : Client) where
  -- The suite, after its environment variables are read.
  unfoldable pub main : Bytes → Suite E.World (Unit {0})
  unfolding play commit
  main code =
      play E c code 0 accepted
        (do
          assert (count_space whitespace_32 == 32)
          assert (length max_wire == 279)
          commit E c (codes "commitW1") (wire (decimal (7 * 2 ^ 64 + 9))) 7)
        (codes "amountW0") invalid
