-- ===== src/Suites/Ledger/Transfers.antt =====
-- The scenes of runtime-tests/near/ledger.py on `ft_transfer`.
use proof_forge_near.Prelude.{
  ℕ, ◌-◌, ◌^◌, false, Option, none, some, [], ◌∷◌, ◌++◌, Text, Bytes, codes,
}
use proof_forge_near.Py.Int.{pos}
use proof_forge_near.Py.Json.{null, string, object, no_more, member}
use proof_forge_near.Rpc.Env.{Env, Client}
use proof_forge_near.Suites.Play.{Suite, ◌>>=◌, ◌>>◌, compute, assert, each}
use proof_forge_near.Suites.Token.{encoded, json_bytes, rows}
use proof_forge_near.Suites.Ledger.{
  Memo, supply, ft_transfer, ft_transfer_fails, act_as, act, balance_is, supply_is, has_row,
}

abbrev max_u128 : ℕ
max_u128 = 2 ^ 128 - 1

-- `b'{"receiver_id":"' + self_id.encode() + b'","amount":"1","amount":"1"}'`
duplicate_field : Bytes → Bytes
duplicate_field raw =
    codes "{\"receiver_id\":\"" ++ (raw ++ codes "\",\"amount\":\"1\",\"amount\":\"1\"}")

module _ (E : Env) (c : Client) (caller absent_sender : Text) where
  -- A transfer of `amount` to `receiver` that must fail, with one yocto attached.
  fails : Option Text → Text → ℕ → Suite E.World (Unit {0})
  unfolding ft_transfer_fails
  fails signer receiver amount = ft_transfer_fails E c receiver (pos amount) signer 1 none none

  unfoldable pub reset_both : Suite E.World (Unit {0})
  unfolding act act_as
  reset_both = do
    act E c (codes "fixtureResetSelf")
    act_as E c (some caller) (codes "fixtureResetCaller")

  guard_scene : Suite E.World (Unit {0})
  unfolding act act_as fails ft_transfer_fails encoded duplicate_field
  guard_scene = do
    act E c (codes "fixturePutSelfZeroNoSupply")
    fails (some absent_sender) c.account_id 1
    act_as E c (some caller) (codes "mintCallerOne")
    fails (some caller) (codes "absent-ledger.test.near") 1
    fails (some caller) caller 1
    fails (some caller) c.account_id 0
    ft_transfer_fails E c c.account_id (pos 1) (some caller) 0 none none
    ft_transfer_fails E c c.account_id (pos 1) (some caller) 2 none none
    fails (some caller) c.account_id max_u128
    raw ← compute (encoded c.account_id)
    ft_transfer_fails E c c.account_id (pos 1) (some caller) 1 none (some (duplicate_field raw))

  malformed_scene : Suite E.World (Unit {0})
  unfolding act act_as fails reset_both
  malformed_scene = do
    act E c (codes "seedSelfMalformed8")
    fails (some caller) c.account_id 1
    reset_both
    act E c (codes "seedSelfMalformed20")
    act_as E c (some caller) (codes "mintCallerOne")
    fails none caller 1
    reset_both
    act E c (codes "fixturePutSelfMaxNoSupply")
    act_as E c (some caller) (codes "mintCallerOne")
    fails (some caller) c.account_id 1
    reset_both

  -- The caller's row is there with nothing in it, and the contract's own account has the amount.
  moved : ℕ → ℕ → Suite E.World (Unit {0})
  unfolding rows balance_is has_row supply_is
  moved amount supply_before = do
    state ← rows E c none
    balance_is E c state caller (some 0)
    found ← has_row E c state caller
    assert found
    balance_is E c state c.account_id (some amount)
    supply_is E c supply_before

  high_limb_scene : Suite E.World (Unit {0})
  unfolding act act_as supply ft_transfer moved reset_both
  high_limb_scene = do
    act E c (codes "fixturePutSelfZeroNoSupply")
    act_as E c (some caller) (codes "mintCallerTwo64")
    before ← supply E c
    ft_transfer E c c.account_id (pos (2 ^ 64)) (some caller) none none
    moved (2 ^ 64) before
    reset_both

  -- A transfer of one with a memo, its fields in another order or not.
  transfer_one : Memo → Option Bytes → Suite E.World (Unit {0})
  unfolding ft_transfer
  transfer_one memo wire = ft_transfer E c c.account_id (pos 1) (some caller) memo wire

  memo_scene : Suite E.World (Unit {0})
  unfolding act each act_as supply transfer_one json_bytes moved
  memo_scene = do
    act E c (codes "fixturePutSelfZeroNoSupply")
    each {A = ℕ} (λ turn. act_as E c (some caller) (codes "mintCallerOne")) (0 ∷ 1 ∷ 2 ∷ 3 ∷ 4 ∷ [])
    before ← supply E c
    transfer_one none none
    transfer_one (some null) none
    transfer_one (some (string [])) none
    transfer_one (some (string (b'"' ∷ b'\\' ∷ 8 ∷ 9 ∷ 10 ∷ []))) none
    permuted ← compute (
        json_bytes false (
          object (
            member (codes "memo") (string (codes "雪😀")) (
              member (codes "amount") (string (codes "1"))
                (member (codes "receiver_id") (string c.account_id) no_more)))))
    transfer_one (some (string (codes "雪😀"))) (some permuted)
    moved 5 before

  -- The scenes between the sixth line printed and the eighth.
  unfoldable pub transfer_scenes : Suite E.World (Unit {0})
  unfolding guard_scene malformed_scene high_limb_scene memo_scene
  transfer_scenes = do guard_scene; malformed_scene; high_limb_scene; memo_scene
