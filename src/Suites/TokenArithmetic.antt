-- ===== src/Suites/TokenArithmetic.antt =====
-- runtime-tests/near/token_arithmetic.py: the limbs of a contract's checked 128-bit arithmetic.
use proof_forge_near.Prelude.{ℕ, true, List, [], ◌∷◌, Text, Bytes, codes}
use proof_forge_near.Py.Int.{pos}
use proof_forge_near.Rpc.Env.{Env, Client}
use proof_forge_near.Rpc.Send.{deploy, call}
use proof_forge_near.Suites.Play.{Suite, ◌>>=◌, ◌>>◌, step, each}
use proof_forge_near.Suites.Matrix.{default_gas}
use proof_forge_near.Suites.Scene.{view_is, state, state_is}

abbrev pub expected : List (Text × ℕ)
expected =
    (codes "addCarryOk", 1)
    ∷ (codes "addCarryW0", 0)
    ∷ (codes "addCarryW1", 1)
    ∷ (codes "addOverflowOk", 0)
    ∷ (codes "addOverflowW0", 0)
    ∷ (codes "addOverflowW1", 0)
    ∷ (codes "addHighOk", 1)
    ∷ (codes "addHighW1", 0xfffffffffffffffe)
    ∷ (codes "subBorrowOk", 1)
    ∷ (codes "subBorrowW0", 0xffffffffffffffff)
    ∷ (codes "subBorrowW1", 0)
    ∷ (codes "subUnderflowOk", 0)
    ∷ (codes "subUnderflowW0", 0xffffffffffffffff)
    ∷ (codes "subUnderflowW1", 0xffffffffffffffff)
    ∷ (codes "subHighOk", 1)
    ∷ (codes "subHighW1", 1)
    ∷ (codes "mulFactorZeroOk", 1)
    ∷ (codes "mulFactorZeroW0", 0)
    ∷ (codes "mulFactorZeroW1", 0)
    ∷ (codes "mulTokenZeroOk", 1)
    ∷ (codes "mulTokenZeroW0", 0)
    ∷ (codes "mulTokenZeroW1", 0)
    ∷ (codes "mulMixedOk", 1)
    ∷ (codes "mulMixedW0", 2)
    ∷ (codes "mulMixedW1", 2)
    ∷ (codes "mulU64SquareOk", 1)
    ∷ (codes "mulU64SquareW0", 1)
    ∷ (codes "mulU64SquareW1", 0xfffffffffffffffe)
    ∷ (codes "mulMaxOneOk", 1)
    ∷ (codes "mulMaxOneW1", 0xffffffffffffffff)
    ∷ (codes "mulMaxTwoOk", 0)
    ∷ (codes "mulHighFitOk", 1)
    ∷ (codes "mulHighFitW1", 0xffffffffffffffff)
    ∷ (codes "mulExactMaxOk", 1)
    ∷ (codes "mulExactMaxW0", 0xffffffffffffffff)
    ∷ (codes "mulExactMaxW1", 0xffffffffffffffff)
    ∷ (codes "mulCarryOverflowOk", 0)
    ∷ (codes "mulCarryBoundaryOk", 1)
    ∷ (codes "mulCarryBoundaryW0", 0xffffffff00000000)
    ∷ (codes "mulCarryBoundaryW1", 0xffffffffffffffff)
    ∷ []

module _ (E : Env) (c : Client) where
  -- The views are read between two reads of the state.
  unfoldable pub pure_views : List (Text × ℕ) → Suite E.World (Unit {0})
  unfolding each view_is state state_is
  pure_views table = do
    before ← state E c
    each (λ a. view_is E c a.0 [] a.1) table
    state_is E c before

  -- The suite, after its environment variables are read.
  unfoldable pub main : Bytes → Suite E.World (Unit {0})
  unfolding pure_views
  main code = do
    deployed ← step (deploy E c code)
    initialized ← step (call E c (codes "initialize") [] true default_gas (pos 0))
    pure_views expected
