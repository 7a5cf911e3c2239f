-- ===== src/Suites/Ledger/Resolver.antt =====
-- The scenes of runtime-tests/near/ledger.py on the private resolver.
use proof_forge_near.Prelude.{
  ℕ, Bool, true, false, not, ◌||◌, Option, none, some, List, [], ◌∷◌, ◌==◌, Text, Bytes, codes,
}
use proof_forge_near.Py.Result.{ok}
use proof_forge_near.Py.Int.{pos}
use proof_forge_near.Py.Dict.{Dict}
use proof_forge_near.Rpc.Env.{Env, Client}
use proof_forge_near.Suites.Play.{Suite, ◌>>=◌, ◌>>◌, compute, assert, each, pass}
use proof_forge_near.Suites.Token.{rows, rows_are, returns, fails_unchanged}
use proof_forge_near.Suites.Ledger.{
  resolver_event, quoted_number, resolve, act, balance_is, supply_is, has_row,
}

-- One row of `chain_scenes`.
pub record Chain : Type 0 where
  pub seed : Text
  pub method : Text
  pub receiver : Text
  pub used : ℕ
  pub sender_balance : Option ℕ
  pub receiver_balance : ℕ
  pub supply_after : ℕ
  pub event : Text
  pub child_failed : Bool

chain : Text → Text → Text → ℕ → Option ℕ → ℕ → ℕ → Text → Bool → Chain
chain seed method receiver used sender_balance receiver_balance supply_after event child_failed =
    record {
      seed = seed;
      method = method;
      receiver = receiver;
      used = used;
      sender_balance = sender_balance;
      receiver_balance = receiver_balance;
      supply_after = supply_after;
      event = event;
      child_failed = child_failed;
    }

refund_line : Text → ℕ → Text → Text
unfolding resolver_event
refund_line owner amount sender =
    resolver_event (codes "ft_transfer") owner (pos amount) (some sender)

burn_line : Text → ℕ → Text
unfolding resolver_event
burn_line owner amount = resolver_event (codes "ft_burn") owner (pos amount) none

-- `chain_scenes`
unfoldable pub chains : Text → List Chain
unfolding chain refund_line burn_line
chains self =
    chain (codes "fixtureChainPartialPresent") (codes "chainPartial") (codes "partial.test.near") 7
      (some 5) 4 9 (refund_line (codes "partial.test.near") 3 self) false
    ∷ chain (codes "fixtureChainFullMissing") (codes "chainFull") (codes "full.test.near") 10 none 0
        0 (burn_line (codes "full.test.near") 7) false
    ∷ chain (codes "fixtureChainMalformedPresent") (codes "chainMalformed")
        (codes "malformed.test.near") 3 (some 9) 0 9
        (refund_line (codes "malformed.test.near") 7 self) false
    ∷ chain (codes "fixtureChainFailedPresent") (codes "chainFailed") (codes "failed.test.near") 3
        (some 9) 0 9 (refund_line (codes "failed.test.near") 7 self) true
    ∷ []

abbrev sender_id : Text
sender_id = codes "aa"

abbrev receiver_id : Text
receiver_id = codes "bb"

module _ (E : Env) (c : Client) where
  -- The body of the loop over `chain_scenes`.
  unfoldable pub play_chain : Chain → Suite E.World (Unit {0})
  unfolding act resolve returns quoted_number rows balance_is has_row supply_is
  play_chain r = do
    act E c r.seed
    response ←
        resolve E c r.method (some (pos r.used)) (some r.event) true r.child_failed
          (codes "{\"msg\":\"chain\"}")
    returns E c response (quoted_number (pos r.used))
    state ← rows E c none
    balance_is E c state c.account_id r.sender_balance
    balance_is E c state r.receiver (some r.receiver_balance)
    found ← has_row E c state r.receiver
    assert (not (r.receiver_balance == 0) || found)
    supply_is E c r.supply_after

  -- `_resolve(client, method, expected, event=event, child_failure=child_failure)`
  resolves : Text → ℕ → Option Text → Bool → Suite E.World (Unit {0})
  unfolding resolve
  resolves method expected event child_failure = do
    response ← resolve E c method (some (pos expected)) event true child_failure []
    pass

  -- `_resolve(client, method, None, expect_success=False)`
  resolve_fails : Text → Suite E.World (Unit {0})
  unfolding resolve
  resolve_fails method = do response ← resolve E c method none none false false []; pass

  clamp_scene : Suite E.World (Unit {0})
  unfolding act resolves refund_line rows balance_is supply_is has_row each
  clamp_scene = do
    act E c (codes "fixtureResetResolver")
    act E c (codes "fixtureResolverPresent")
    resolves (codes "resolveUnusedThree") 7 (some (refund_line receiver_id 3 sender_id)) false
    state ← rows E c none
    balance_is E c state sender_id (some 5)
    balance_is E c state receiver_id (some 4)
    supply_is E c 9
    act E c (codes "fixtureResolverPresent")
    resolves (codes "resolveUnusedTwenty") 3 (some (refund_line receiver_id 7 sender_id)) false
    clamped ← rows E c none
    balance_is E c clamped sender_id (some 9)
    balance_is E c clamped receiver_id (some 0)
    found ← has_row E c clamped receiver_id
    assert found
    supply_is E c 9
    each
        (λ method. do
          act E c (codes "fixtureResolverPresent")
          resolves method 3 (some (refund_line receiver_id 7 sender_id)) false)
        (codes "resolveMalformed" ∷ codes "resolveOversized" ∷ [])
    act E c (codes "fixtureResolverPresent")
    resolves (codes "resolveFailed") 3 (some (refund_line receiver_id 7 sender_id)) true

  -- A resolution of all that was sent leaves the state as it was; the state before it.
  resolves_unchanged : Text → Text → Suite E.World (Dict Bytes)
  unfolding act rows resolves rows_are
  resolves_unchanged seed method = do
    act E c seed
    before ← rows E c none
    resolves method 10 none false
    rows_are E c none before
    compute (ok before)

  missing_scene : Suite E.World (Unit {0})
  unfolding resolves_unchanged has_row balance_is act resolves burn_line rows supply_is
  missing_scene = do
    present ← resolves_unchanged (codes "fixtureResolverPresent") (codes "resolveUnusedZero")
    missing ←
        resolves_unchanged (codes "fixtureResolverMissingReceiver") (codes "resolveUnusedThree")
    found ← has_row E c missing receiver_id
    assert (not found)
    empty ← resolves_unchanged (codes "fixtureResolverReceiverZero") (codes "resolveUnusedThree")
    balance_is E c empty receiver_id (some 0)
    act E c (codes "fixtureResolverMissingSender")
    resolves (codes "resolveUnusedThree") 10 (some (burn_line receiver_id 3)) false
    state ← rows E c none
    sender_found ← has_row E c state sender_id
    assert (not sender_found)
    balance_is E c state receiver_id (some 4)
    supply_is E c 4

  refused_scene : Suite E.World (Unit {0})
  unfolding each act resolve_fails fails_unchanged
  refused_scene = do
    each (λ seed. do act E c seed; resolve_fails (codes "resolveUnusedThree"))
        (codes "fixtureResolverMalformedReceiver"
          ∷ codes "fixtureResolverMalformedSender"
          ∷ codes "fixtureResolverSenderMax"
          ∷ codes "fixtureResolverSupplyUnderflow"
          ∷ [])
    act E c (codes "fixtureResolverPresent")
    resolve_fails (codes "resolveCountZero")
    act E c (codes "fixtureResolverPresent")
    resolve_fails (codes "resolvePaidCallback")
    fails_unchanged E c none c.account_id (codes "ft_resolve_transfer")
        (codes "{\"sender_id\":\"aa\",\"receiver_id\":\"bb\",\"amount\":\"10\"}") none 0

  -- The scenes between the thirteenth line printed and the seventeenth.
  unfoldable pub resolver_scenes : Suite E.World (Unit {0})
  unfolding each play_chain chains clamp_scene missing_scene refused_scene
  resolver_scenes = do
    each play_chain (chains c.account_id)
    clamp_scene
    missing_scene
    refused_scene
