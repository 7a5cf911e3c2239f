-- ===== src/Suites/Ledger/Main.antt =====
-- `main` of runtime-tests/near/ledger.py: the accounts, and the scenes in their order.
use proof_forge_near.Prelude.{◌^◌, true, some, [], ◌∷◌, ◌++◌, Text, Bytes, codes}
use proof_forge_near.Py.Int.{pos}
use proof_forge_near.Rpc.Env.{Env, Client}
use proof_forge_near.Rpc.Send.{create_subaccount_with_key, deploy, deploy_to, call}
use proof_forge_near.Suites.Play.{Suite, ◌>>=◌, ◌>>◌, step, compute, each, pass}
use proof_forge_near.Suites.Matrix.{default_gas}
use proof_forge_near.Suites.Token.{send}
use proof_forge_near.Suites.Ledger.{ledger_key}
use proof_forge_near.Suites.Ledger.Storage.{storage_scenes}
use proof_forge_near.Suites.Ledger.Views.{view_scenes}
use proof_forge_near.Suites.Ledger.Supply.{supply_scenes, balance_scenes}
use proof_forge_near.Suites.Ledger.Transfers.{transfer_scenes}
use proof_forge_near.Suites.Ledger.Calls.{call_scenes}
use proof_forge_near.Suites.Ledger.Resolver.{resolver_scenes}
use proof_forge_near.Suites.Ledger.Dual.{dual_scenes}

-- The code that the suite deploys: the ledger's, those of the fixtures by their names, and the dual
-- receiver's.
pub record Codes : Type 0 where
  pub ledger : Bytes
  pub fixture : Text → Bytes
  pub dual_receiver : Bytes

module _ (E : Env) (c : Client) (files : Codes) where
  -- `f"{name}.{self_id}"`
  abbrev sub : Text → Text
  sub name = name ++ (codes "." ++ c.account_id)

  -- An account of its own with a code.
  create_with : Text → Bytes → Suite E.World (Unit {0})
  create_with account code = do
    created ← step (create_subaccount_with_key E c account (pos (10 ^ 25)))
    deployed ← step (deploy_to E c account code)
    pass

  unfoldable pub set_up : Suite E.World (Unit {0})
  unfolding ledger_key create_with send each
  set_up = do
    deployed ← step (deploy E c files.ledger)
    initialized ← step (call E c (codes "initialize") [] true default_gas (pos 0))
    key ← compute (ledger_key c.account_id)
    create_with (sub (codes "resolver")) files.ledger
    resolver ←
        send E c true (sub (codes "resolver")) (codes "initialize") []
          (some (sub (codes "resolver"))) 0
    each
        (λ outcome.
          create_with (sub outcome)
            (files.fixture (codes "ft-on-transfer-" ++ (outcome ++ codes ".wasm"))))
        (codes "partial" ∷ codes "full" ∷ codes "malformed" ∷ codes "failed" ∷ [])
    create_with (sub (codes "json-result")) (files.fixture (codes "ft-receiver-result.wasm"))

  -- The accounts that hold tokens, and one that never does.
  callers_scene : Suite E.World (Unit {0})
  unfolding ledger_key
  callers_scene = do
    caller ← step (create_subaccount_with_key E c (sub (codes "ledger-caller")) (pos (10 ^ 25)))
    key ← compute (ledger_key (sub (codes "ledger-caller")))
    absent ←
        step (create_subaccount_with_key E c (sub (codes "ledger-unregistered")) (pos (10 ^ 24)))
    pass

  -- The whole of the suite.
  unfoldable pub ledger_suite : Suite E.World (Unit {0})
  unfolding set_up storage_scenes view_scenes supply_scenes callers_scene transfer_scenes
      balance_scenes call_scenes resolver_scenes dual_scenes
  ledger_suite = do
    set_up
    storage_scenes E c
    view_scenes E c
    supply_scenes E c
    callers_scene
    transfer_scenes E c (sub (codes "ledger-caller")) (sub (codes "ledger-unregistered"))
    balance_scenes E c (sub (codes "ledger-caller"))
    call_scenes E c (sub (codes "ledger-caller")) (sub (codes "ledger-unregistered"))
    resolver_scenes E c
    dual_scenes E c files.dual_receiver
