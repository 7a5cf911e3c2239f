-- ===== src/Suites/Ledger/Supply.antt =====
-- The scenes of runtime-tests/near/ledger.py on minting, burning and transfers between two accounts.
use proof_forge_near.Prelude.{
  ℕ, ◌+◌, ◌-◌, ◌^◌, not, none, some, [], ◌∷◌, ◌++◌, ◌==◌, if◌then◌else◌, Text, codes,
}
use proof_forge_near.Rpc.Env.{Env, Client}
use proof_forge_near.Suites.Play.{Suite, ◌>>=◌, ◌>>◌, compute, assert}
use proof_forge_near.Suites.Scene.{fail_unchanged}
use proof_forge_near.Suites.Token.{encoded, rows}
use proof_forge_near.Suites.Ledger.{
  supply, act_as, act, balance_is, supply_is, json_balance_is, json_supply_is, has_row, gone,
}

abbrev max_u128 : ℕ
max_u128 = 2 ^ 128 - 1

-- `text.replace(".", "\\u002e")`
escape_dots : Text → Text
escape_dots [] = []
escape_dots (ch ∷ text) =
    if ch == b'.' then codes "\\u002e" ++ escape_dots text else ch ∷ escape_dots text

module _ (E : Env) (c : Client) where
  -- The state's row of the contract's own account holds the amount, and so does the supply.
  holds_all : ℕ → Suite E.World (Unit {0})
  unfolding rows balance_is supply_is
  holds_all amount = do
    state ← rows E c none
    balance_is E c state c.account_id (some amount)
    supply_is E c amount

  overflow_scene : Suite E.World (Unit {0})
  unfolding act fail_unchanged
  overflow_scene = do
    act E c (codes "fixturePutSelfMaxNoSupply")
    fail_unchanged E c (codes "mintSelfOne") none
    act E c (codes "fixtureResetSelf")
    act E c (codes "fixtureSetSupplyMax")
    fail_unchanged E c (codes "mintSelfOne") none
    act E c (codes "fixtureResetSelf")
    act E c (codes "fixturePutSelfOneNoSupply")
    fail_unchanged E c (codes "burnSelfOne") none
    act E c (codes "fixtureResetSelf")

  mixed_scene : Suite E.World (Unit {0})
  unfolding act json_supply_is holds_all encoded json_balance_is escape_dots
  mixed_scene = do
    act E c (codes "mintSelfTwo64")
    json_supply_is E c [] (2 ^ 64)
    act E c (codes "mintSelfOne")
    holds_all (2 ^ 64 + 1)
    json_supply_is E c [] (2 ^ 64 + 1)
    raw ← compute (encoded c.account_id)
    json_balance_is E c raw (2 ^ 64 + 1)
    escaped ← compute (encoded (escape_dots c.account_id))
    json_balance_is E c escaped (2 ^ 64 + 1)
    act E c (codes "burnSelfZero")
    holds_all (2 ^ 64 + 1)
    act E c (codes "transferCallerToSelfOne")
    holds_all (2 ^ 64 + 1)

  -- The scenes between the fourth line printed and the sixth.
  unfoldable pub supply_scenes : Suite E.World (Unit {0})
  unfolding overflow_scene mixed_scene
  supply_scenes = do overflow_scene; mixed_scene

  module _ (caller : Text) where
    reset_both : Suite E.World (Unit {0})
    unfolding act act_as
    reset_both = do
      act E c (codes "fixtureResetSelf")
      act_as E c (some caller) (codes "fixtureResetCaller")

    distinct_scene : Suite E.World (Unit {0})
    unfolding reset_both act_as encoded json_balance_is supply supply_is rows has_row balance_is
        fail_unchanged
    distinct_scene = do
      reset_both
      act_as E c (some caller) (codes "mintCallerTwo64")
      act_as E c (some caller) (codes "mintCallerOne")
      raw ← compute (encoded caller)
      json_balance_is E c raw (2 ^ 64 + 1)
      before ← supply E c
      act_as E c (some caller) (codes "transferCallerToSelfOne")
      supply_is E c before
      act_as E c (some caller) (codes "transferCallerToSelfTwo64")
      state ← rows E c none
      found ← has_row E c state caller
      assert (not found)
      now ← supply E c
      balance_is E c state c.account_id (some now)
      assert (now == 2 ^ 64 + 1)
      fail_unchanged E c (codes "transferCallerToSelfOne") (some caller)

    maximum_scene : Suite E.World (Unit {0})
    unfolding act holds_all encoded json_balance_is json_supply_is gone
    maximum_scene = do
      act E c (codes "fixtureResetSelf")
      act E c (codes "mintSelfMax")
      holds_all max_u128
      raw ← compute (encoded c.account_id)
      json_balance_is E c raw max_u128
      json_supply_is E c [] max_u128
      act E c (codes "burnSelfMax")
      gone E c c.account_id
      json_supply_is E c [] 0

    destination_scene : Suite E.World (Unit {0})
    unfolding act_as act fail_unchanged rows balance_is supply_is
    destination_scene = do
      act_as E c (some caller) (codes "mintCallerOne")
      act E c (codes "fixturePutSelfMaxNoSupply")
      fail_unchanged E c (codes "transferCallerToSelfOne") (some caller)
      state ← rows E c none
      balance_is E c state caller (some 1)
      balance_is E c state c.account_id (some max_u128)
      supply_is E c 1

    -- The scenes between the eighth line printed and the eleventh.
    unfoldable pub balance_scenes : Suite E.World (Unit {0})
    unfolding distinct_scene maximum_scene destination_scene
    balance_scenes = do distinct_scene; maximum_scene; destination_scene
