-- ===== src/Suites/TokenStorage.antt =====
-- runtime-tests/near/token_storage.py: a 128-bit number in one row of a contract's state.
use proof_forge_near.Prelude.{
  ℕ, ◌-◌, ◌^◌, true, ◌&&◌, none, [], ◌∷◌, ◌++◌, ◌==◌, Bytes, codes, replicate,
}
use proof_forge_near.Py.Bytes.{to_le}
use proof_forge_near.Py.Int.{pos}
use proof_forge_near.Rpc.Env.{Env, Client}
use proof_forge_near.Rpc.Wire.{borsh_bytes}
use proof_forge_near.Rpc.View.{view_u64}
use proof_forge_near.Rpc.Send.{deploy, call}
use proof_forge_near.Suites.Play.{Suite, ◌>>=◌, ◌>>◌, step, compute, assert}
use proof_forge_near.Suites.Matrix.{default_gas}
use proof_forge_near.Suites.Scene.{call_is, view_is, row_is, row_gone}

abbrev pub key : Bytes
key = codes "TOK1"

-- The low and the high limb.
abbrev pub fallback : ℕ × ℕ
fallback = (0xfedcba9876543210, 0x0123456789abcdef)

-- `bytes(range(20))`
abbrev pub oversized : Bytes
oversized =
    0 ∷ 1 ∷ 2 ∷ 3 ∷ 4 ∷ 5 ∷ 6 ∷ 7 ∷ 8 ∷ 9 ∷ 10 ∷ 11 ∷ 12 ∷ 13 ∷ 14 ∷ 15 ∷ 16 ∷ 17 ∷ 18 ∷ 19 ∷ []

-- Both limbs in eight bytes.
unfoldable pub stored : ℕ × ℕ → Bytes
stored limbs = to_le 8 limbs.0 ++ to_le 8 limbs.1

module _ (E : Env) (c : Client) where
  -- `if _decoded(client) != limbs: raise AssertionError(...)`: both views are read before the test.
  unfoldable pub decoded_is : ℕ × ℕ → Suite E.World (Unit {0})
  decoded_is limbs = do
    low ← step (view_u64 E c (codes "readW0") [])
    high ← step (view_u64 E c (codes "readW1") [])
    assert ((low == limbs.0) && (high == limbs.1))

  -- What the views say of the row.
  unfoldable pub descriptor_is : ℕ → ℕ → ℕ → Suite E.World (Unit {0})
  unfolding view_is decoded_is
  descriptor_is status size fits = do
    view_is E c (codes "readStatus") [] status
    view_is E c (codes "readLength") [] size
    view_is E c (codes "readFits") [] fits
    decoded_is fallback

  put_scene : ℕ × ℕ → ℕ × ℕ → Suite E.World (Unit {0})
  unfolding call_is view_is row_is decoded_is stored
  put_scene mixed maximum = do
    call_is E c (codes "putMixed") [] none 0
    decoded_is mixed
    row_is E c key (stored mixed)
    view_is E c (codes "staleAfterMissW0") [] fallback.0
    call_is E c (codes "putMax") [] none 1
    view_is E c (codes "get") [] 1
    decoded_is maximum
    row_is E c key (replicate 16 255)

  malformed_scene : Suite E.World (Unit {0})
  unfolding call_is descriptor_is row_is
  malformed_scene = do
    call_is E c (codes "putShort") [] none 1
    descriptor_is 1 8 1
    args ← compute (borsh_bytes oversized)
    call_is E c (codes "putOversized") args none 1
    descriptor_is 1 20 0
    row_is E c key oversized

  removal_scene : Suite E.World (Unit {0})
  unfolding call_is view_is row_is row_gone decoded_is
  removal_scene = do
    call_is E c (codes "putZero") [] none 1
    decoded_is (0, 0)
    view_is E c (codes "has") [] 1
    row_is E c key (replicate 16 0)
    call_is E c (codes "remove") [] none 1
    row_gone E c key
    call_is E c (codes "remove") [] none 0
    decoded_is fallback

  -- The suite, after its environment variables are read.
  unfoldable pub main : Bytes → Suite E.World (Unit {0})
  unfolding view_is descriptor_is put_scene malformed_scene removal_scene
  main code = do
    deployed ← step (deploy E c code)
    initialized ← step (call E c (codes "initialize") [] true default_gas (pos 0))
    view_is E c (codes "has") [] 0
    descriptor_is 0 0 1
    put_scene (0x0102030405060708, 0x1112131415161718) (2 ^ 64 - 1, 2 ^ 64 - 1)
    malformed_scene
    removal_scene
