-- ===== src/Suites/Lookup.antt =====
-- runtime-tests/near/lookup.py: maps and sets of a contract, one row of the state for each entry.
use proof_forge_near.Prelude.{
  ℕ, ◌+◌, ◌-◌, ◌*◌, ◌^◌, not, none, some, [], ◌++◌, ◌==◌, Text, Bytes, codes, length, replicate,
  text_eq,
}
use proof_forge_near.Py.Result.{or_raise}
use proof_forge_near.Py.Bytes.{to_le}
use proof_forge_near.Py.Dict.{lookup}
use proof_forge_near.Py.Int.{pos}
use proof_forge_near.Py.Utf8.{encode}
use proof_forge_near.Rpc.Exc.{unicode_error, key_error}
use proof_forge_near.Rpc.Env.{Env, Client}
use proof_forge_near.Rpc.Send.{create_subaccount_with_key}
use proof_forge_near.Suites.Play.{Suite, ◌>>=◌, ◌>>◌, step, compute, assert}
use proof_forge_near.Suites.Matrix.{prepare}
use proof_forge_near.Suites.Scene.{
  is_some, index_key, account_key, call_is, call_word_is, view_is, view_word_is, state, word,
  row_is, row_gone,
}

abbrev pub map_prefix : Bytes
map_prefix = codes "MAP1"

abbrev pub set_prefix : Bytes
set_prefix = codes "SET1"

abbrev pub balance_prefix : Bytes
balance_prefix = codes "BAL1"

abbrev pub isolated_balance_prefix : Bytes
isolated_balance_prefix = codes "ALT1"

abbrev pub map_key : ℕ
map_key = 7

-- `_key`
unfoldable pub key : Bytes → ℕ → Bytes
unfolding index_key
key prefix value = index_key 8 prefix value

abbrev pub maximum : ℕ
maximum = 2 ^ 64 - 1

abbrev pub low_limb : ℕ
low_limb = 0x0123456789abcdef

abbrev pub high_limb : ℕ
high_limb = 0xfedcba9876543210

module _ (E : Env) (c : Client) where
  unfoldable pub account_bytes : Text → Suite E.World Bytes
  account_bytes account = compute (or_raise (encode account) unicode_error)

  row_holds_word : Bytes → ℕ → Suite E.World (Unit {0})
  unfolding word row_is
  row_holds_word k value = do expected ← word E c value; row_is E c k expected

  row_has_length : Bytes → ℕ → Suite E.World (Unit {0})
  unfolding state
  row_has_length k n = do
    now ← state E c
    raw ← compute (or_raise (lookup k now) key_error)
    assert (length raw == n)

  missing_scene : Suite E.World (Unit {0})
  unfolding view_word_is
  missing_scene = do
    view_word_is E c (codes "mapHas") map_key 0
    view_word_is E c (codes "mapGet") map_key 0
    view_word_is E c (codes "setHas") map_key 0

  map_scene : ℕ → ℕ → Suite E.World (Unit {0})
  unfolding call_word_is view_word_is row_holds_word key
  map_scene first replacement = do
    call_word_is E c (codes "mapPut") first 0
    view_word_is E c (codes "mapHas") map_key 1
    view_word_is E c (codes "mapGet") map_key first
    row_holds_word (key map_prefix map_key) first
    call_word_is E c (codes "mapPut") replacement 1
    view_word_is E c (codes "mapGet") map_key replacement
    row_holds_word (key map_prefix map_key) replacement

  set_scene : ℕ → Suite E.World (Unit {0})
  unfolding call_word_is view_word_is row_is row_gone key
  set_scene member = do
    call_word_is E c (codes "setInsert") member 0
    call_word_is E c (codes "setInsert") member 1
    view_word_is E c (codes "setHas") member 1
    row_is E c (key set_prefix member) []
    assert (not (text_eq (key set_prefix member) (key map_prefix map_key)))
    call_word_is E c (codes "setRemove") member 1
    call_word_is E c (codes "setRemove") member 0
    row_gone E c (key set_prefix member)

  removal_scene : Suite E.World (Unit {0})
  unfolding call_is call_word_is view_word_is row_gone key
  removal_scene = do
    call_is E c (codes "mapRemove") [] none 1
    call_is E c (codes "mapRemove") [] none 0
    row_gone E c (key map_prefix map_key)
    view_word_is E c (codes "mapGet") map_key 0
    call_word_is E c (codes "mapPut") 0 0
    view_word_is E c (codes "mapHas") map_key 1
    view_word_is E c (codes "mapGet") map_key 0
    call_is E c (codes "mapRemove") [] none 1
    view_word_is E c (codes "mapHas") map_key 0
    view_word_is E c (codes "mapHas") maximum 0
    view_word_is E c (codes "setHas") maximum 0

  self_scene : Bytes → Bytes → Suite E.World (Unit {0})
  unfolding view_is call_is row_is row_gone
  self_scene self_key isolated_self_key = do
    view_is E c (codes "tokenHasSelf") [] 0
    view_is E c (codes "tokenReadSelfW0") [] 0x1111111111111111
    call_is E c (codes "tokenPutSelfMixed") [] none 0
    row_is E c self_key (to_le 16 (high_limb * 2 ^ 64 + low_limb))
    view_is E c (codes "tokenReadSelfW0") [] low_limb
    view_is E c (codes "tokenReadSelfW1") [] high_limb
    view_is E c (codes "tokenHasSelfIsolated") [] 0
    row_gone E c isolated_self_key

  -- A row of another length than sixteen bytes reads as the fallback.
  malformed_scene : Bytes → Text → ℕ → Suite E.World (Unit {0})
  unfolding view_is call_is row_has_length
  malformed_scene self_key seed size = do
    call_is E c seed [] none 1
    view_is E c (codes "tokenHasSelf") [] 1
    view_is E c (codes "tokenReadSelfW0") [] 0x1111111111111111
    view_is E c (codes "tokenReadSelfW1") [] 0x2222222222222222
    row_has_length self_key size
    call_is E c (codes "tokenPutSelfMixed") [] none 1

  short_scene : Suite E.World (Unit {0})
  unfolding view_is call_is state row_gone account_key
  short_scene = do
    let short_key = account_key balance_prefix (codes "aa")
    call_is E c (codes "tokenPutShortFixture") [] none 0
    view_is E c (codes "tokenHasShortFixture") [] 1
    view_is E c (codes "tokenReadShortW0") [] 0x1111111111111111
    assert (length short_key == 10)
    now ← state E c
    assert (is_some (lookup short_key now))
    call_is E c (codes "tokenRemoveShortFixture") [] none 1
    row_gone E c short_key

  caller_scene : Bytes → Suite E.World (Unit {0})
  unfolding call_is row_is account_bytes account_key
  caller_scene self_key = do
    let caller = codes "balance-caller." ++ c.account_id
    created ← step (create_subaccount_with_key E c caller (pos (10 ^ 25)))
    raw ← account_bytes caller
    let caller_key = account_key balance_prefix raw
    call_is E c (codes "tokenPutCallerMax") [] (some caller) 0
    call_is E c (codes "tokenHasCaller") [] (some caller) 1
    call_is E c (codes "tokenReadCallerW0") [] (some caller) maximum
    call_is E c (codes "tokenReadCallerW1") [] (some caller) maximum
    row_is E c caller_key (replicate 16 255)
    assert (not (text_eq caller_key self_key))

  token_scene : Suite E.World (Unit {0})
  unfolding self_scene malformed_scene short_scene caller_scene view_is call_is row_is row_gone
      account_bytes account_key
  token_scene = do
    raw ← account_bytes c.account_id
    let self_key = account_key balance_prefix raw
    self_scene self_key (account_key isolated_balance_prefix raw)
    malformed_scene self_key (codes "tokenSeedSelfMalformed8") 8
    view_is E c (codes "tokenReadSelfW0") [] low_limb
    malformed_scene self_key (codes "tokenSeedSelfMalformed20") 20
    view_is E c (codes "tokenReadSelfW1") [] high_limb
    call_is E c (codes "tokenPutSelfZero") [] none 1
    view_is E c (codes "tokenHasSelf") [] 1
    row_is E c self_key (replicate 16 0)
    short_scene
    caller_scene self_key
    call_is E c (codes "tokenRemoveSelf") [] none 1
    row_gone E c self_key
    call_is E c (codes "tokenRemoveSelf") [] none 0

  -- The suite, after its environment variables are read.
  unfoldable pub main : Bytes → Suite E.World (Unit {0})
  unfolding prepare missing_scene map_scene set_scene removal_scene token_scene
  main code = do
    prepare E c code 0
    missing_scene
    map_scene 0x0102030405060708 0x8877665544332211
    set_scene 0xffeeddccbbaa0099
    removal_scene
    token_scene
