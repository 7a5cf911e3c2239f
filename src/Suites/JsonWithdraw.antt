-- ===== src/Suites/JsonWithdraw.antt =====
-- runtime-tests/near/json_storage_withdraw_input.py: an optional quoted 128-bit number as a contract's JSON argument.
use proof_forge_near.Prelude.{
  ℕ, ◌+◌, ◌-◌, ◌*◌, ◌/◌, ◌%◌, ◌^◌, List, [], ◌∷◌, ◌++◌, ◌==◌, ◌&&◌, Text, Bytes, codes, length, map,
}
use proof_forge_near.Py.Result.{ok}
use proof_forge_near.Py.Bytes.{from_le}
use proof_forge_near.Rpc.Env.{Env, Client}
use proof_forge_near.Rpc.View.{view}
use proof_forge_near.Suites.Play.{Suite, ◌>>=◌, ◌>>◌, step, compute, assert, each}
use proof_forge_near.Py.Decimal.{decimal}
use proof_forge_near.Suites.Bytes.{repeat, escape_all}
use proof_forge_near.Suites.Matrix.{prepare, commit, roll_back}

unfoldable pub wire : Bytes → Bytes
wire value = codes "{\"amount\":\"" ++ (value ++ codes "\"}")

abbrev pub max_u128 : ℕ
max_u128 = 2 ^ 128 - 1

unfoldable pub max_wire : Bytes
unfolding repeat wire escape_all decimal
max_wire = repeat 32 (codes " ") ++ wire (escape_all (decimal max_u128))

-- The accepted wires, each with whether an amount is there and the amount.
unfoldable pub accepted : List (Bytes × (ℕ × ℕ))
unfolding wire max_wire decimal
accepted =
    (codes "{}", (0, 0))
      ∷ (codes "{\"amount\":null}", (0, 0))
      ∷ (codes " { \"amount\" : null } ", (0, 0))
      ∷ map (λ value. (wire (decimal value), (1, value)))
          (0 ∷ (2 ^ 64) ∷ (2 ^ 64 + 1) ∷ (7 * 2 ^ 64 + 11) ∷ max_u128 ∷ [])
    ++ ((wire (codes "\\u0031\\u0032\\u0033"), (1, 123)) ∷ (max_wire, (1, max_u128)) ∷ [])

-- What is accepted behind the refused wires.
unfoldable pub accepted_again : List (Bytes × (ℕ × ℕ))
unfolding wire max_wire
accepted_again =
    (max_wire, (1, max_u128))
    ∷ (codes "{}", (0, 0))
    ∷ (wire (codes "0"), (1, 0))
    ∷ (codes "{\"amount\":null}", (0, 0))
    ∷ []

-- The wires of `invalid`.
unfoldable pub invalid : List Bytes
unfolding wire repeat decimal
invalid =
    []
    ∷ codes "null"
    ∷ wire []
    ∷ wire (codes "+1")
    ∷ wire (codes "-1")
    ∷ wire (codes "00")
    ∷ wire (decimal (2 ^ 128))
    ∷ wire (repeat 39 (codes "9"))
    ∷ wire (repeat 40 (codes "1"))
    ∷ codes "{\"amount\":0}"
    ∷ codes "{\"amount\":false}"
    ∷ codes "{\"amount\":\"1\",\"amount\":\"2\"}"
    ∷ codes "{\"unknown\":\"1\"}"
    ∷ codes "{\"amount\":\"1\",\"unknown\":null}"
    ∷ codes "{\"am\\u006funt\":\"1\"}"
    ∷ codes "{\"amount\":\"1\""
    ∷ codes "{\"amount\":nul}"
    ∷ codes "{\"amount\":\"1\"}0"
    ∷ codes "{\"amount\":\"1\",}"
    ∷ (repeat 33 (codes " ") ++ codes "{}")
    ∷ (max_wire ++ codes " ")
    ∷ codes "{\"amount\":\"\\u00xz\"}"
    ∷ codes "{\"amount\":\"\\ud800\"}"
    ∷ ((codes "{\"amount\":\"" ++ (255 ∷ codes "\"}")))
    ∷ []

module _ (E : Env) (c : Client) where
  -- `_view_u64`
  unfoldable pub view_word : Text → Bytes → Suite E.World ℕ
  view_word method wire = do
    raw ← step (view E c method wire)
    assert (length raw == 8)
    compute (ok (from_le raw))

  -- `_expect`: the three views are read before they are compared.
  unfoldable pub expect_frame : Bytes → ℕ → ℕ → Suite E.World (Unit {0})
  unfolding view_word
  expect_frame wire present value = do
    there ← view_word (codes "amountPresent") wire
    low ← view_word (codes "amountW0") wire
    high ← view_word (codes "amountW1") wire
    assert ((there == present) && (low == value % 2 ^ 64) && (high == value / 2 ^ 64))

  unfoldable pub expect_frames : List (Bytes × (ℕ × ℕ)) → Suite E.World (Unit {0})
  unfolding each expect_frame
  expect_frames frames = each (λ a. expect_frame a.0 a.1.0 a.1.1) frames

  -- The suite, after its environment variables are read.
  unfoldable pub main : Bytes → Suite E.World (Unit {0})
  unfolding prepare expect_frames commit roll_back
  main code = do
    prepare E c code 9
    expect_frames accepted
    assert (length max_wire == 279)
    commit E c (codes "commitW1") (wire (decimal (7 * 2 ^ 64 + 9))) 7
    roll_back E c (codes "amountPresent") invalid (codes "commitW1")
        (codes "{\"amount\":\"2\",\"unknown\":null}")
    expect_frames accepted_again
