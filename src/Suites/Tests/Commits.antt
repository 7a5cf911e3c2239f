-- ===== src/Suites/Tests/Commits.antt =====
-- Scenes on a node whose contract commits the number seven with its first call behind the
-- initialization, and refuses every call behind that one.
use proof_forge_near.Prelude.{
  ℕ, suc, ◌≡◌, refl, sym, ap, ◌∙◌, subst, true, false, Bool-cases, inl, inr, none, some, List, [],
  ◌∷◌, ltb, All, if◌then◌else◌, Text, Bytes, codes, text_eq,
}
use proof_forge_near.Py.Result.{Result, ok, err}
use proof_forge_near.Py.Int.{pos}
use proof_forge_near.Py.Bytes.{to_le, from_le}
use proof_forge_near.Py.Dict.{Dict, lookup, dict_eq}
use proof_forge_near.Py.Value.{
  Value, int, str, list, dict, nil, Entries, entry, get, has_key, is_key,
}
use proof_forge_near.Observation.Adapter.Accepts.{byte_items}
use proof_forge_near.Rpc.Dynamic.{
  object, get_or_none, truthy, subscript, to_bytes, to_int, get_or_default, contains, iterate,
}
use proof_forge_near.Rpc.Env.{Env, Client, answered}
use proof_forge_near.Rpc.Exc.{Reason, near_rpc_error, view_error}
use proof_forge_near.Rpc.Query.{view_state_values, rpc_call, read_reply, or_self}
use proof_forge_near.Rpc.Send.{
  call_on, wasm_magic, deploy, sign_and_send, access_key, next, check_outcome, outcome_failed,
  judge, call, sign_transaction,
}
use proof_forge_near.Rpc.View.{
  view, view_on, view_u64, view_u64_on, u64_of, view_response_on, check_view, view_bytes,
  success_value_bytes, success_in, last_success,
}
use proof_forge_near.Rpc.Transaction.{
  action_deploy, transaction, action_function_call, join_actions,
}
use proof_forge_near.Rpc.Wire.{
  borsh_bytes, borsh_string, u64, u128, encode_u64_le, decode_u64_le, pack_u32, pack_unsigned,
}
use proof_forge_near.Py.Utf8.{encode, encode_char}
use proof_forge_near.Suites.Play.{Stop}
use proof_forge_near.Suites.Contract.{Views, Answered, expect_failure}
use proof_forge_near.Suites.Matrix.{
  Fields, Reads, prepare, accept_all, refuse_all, commit, roll_back, play, play_sound, default_gas,
}
use proof_forge_near.Rpc.Query.{read_state, collect_rows}
use proof_forge_near.Rpc.Send.Failed.{ShowsFailure}
use proof_forge_near.Suites.Scene.{fail_unchanged, state, state_is}
use proof_forge_near.Suites.Scene.Sound.{fail_unchanged_sound}
use proof_forge_near.Py.Json.{dumps}
use proof_forge_near.Suites.Receipts.{receipt_logs, logs_in, same_logs}
use proof_forge_near.Suites.Receipts.Logs.{LogsNothing}
use proof_forge_near.Suites.Token.{rows, rows_are, send, json_bytes, encoded, shown}
use proof_forge_near.Suites.Ledger.{ft_transfer_fails, logs_are, or_args, ft_args, ft_object}
use proof_forge_near.Suites.Ledger.Wire.{memo_of}
use proof_forge_near.Suites.Ledger.Refused.{Sends, ft_transfer_fails_sound}
use proof_forge_near.Suites.Matrix.Rollback.{roll_back_sound}

abbrev method_of : Value → Text
method_of (dict (entry k v (entry k2 v2 (entry k3 v3 (entry k4 (str m) rest))))) = m
method_of _ = []

-- What the views return behind so many transactions: a deployment and an initialization are two.
abbrev stored : ℕ → ℕ
stored n = if ltb n 3 then 0 else 7

abbrev outcome : ℕ → Value
outcome n = dict (
    object (
      (
        codes "status",
        dict (
            object (
              ((if ltb n 3 then codes "SuccessValue" else codes "Failure"), str (to_le 8 7)) ∷ [])),
      )
      ∷ []))

abbrev fields : ℕ → Entries
fields n = object (
    (codes "nonce", int (pos 0))
    ∷ (codes "block_hash", str (codes "x"))
    ∷ (codes "values", list nil)
    ∷ (codes "result", list (byte_items (to_le 8 (stored n))))
    ∷ [])

abbrev trap : Entries
trap = object ((codes "error", str (codes "trap")) ∷ [])

abbrev reply : Text → Value → ℕ → Value
reply kind params n = dict (
    object (
      (
        codes "result",
        (if text_eq kind (codes "broadcast_tx_commit")
            then outcome n
            else dict (if text_eq (method_of params) (codes "probe") then trap else fields n)),
      )
      ∷ []))

abbrev node : Env
node = record {
  World = ℕ;
  urlopen = λ kind params n. (
    answered (reply kind params n),
    (if text_eq kind (codes "broadcast_tx_commit") then suc n else n),
  );
  b64encode = λ b. b;
  b64decode = λ t. some t;
  b64decode_strict = λ t. some t;
  b58decode = λ t. some (to_le 32 0);
  parse_int = λ t. some (pos 0);
  sha256 = λ b. b;
  sign = λ b. b;
}

abbrev client : Client
client = record { account_id = codes "test.near"; public_key = []; public_key_str = [] }

-- The worlds behind a number of transactions, and the views there.
abbrev Behind : ℕ → ℕ → Type 0
Behind k n = n ≡ k

abbrev views : ℕ → Views
views k method wire = if text_eq method (codes "probe") then none else some (to_le 8 (stored k))

probe_traps :
    (method : Text) (wire : Bytes) (n : ℕ)
    → text_eq method (codes "probe") ≡ true
    → view node client method wire n
      ≡ (err (near_rpc_error (view_error (codes "test.near") method (str (codes "trap")))), n)
unfolding view view_on view_response_on rpc_call read_reply get check_view get_or_none truthy
    text_eq
probe_traps method wire n h = rw h refl

zero_returns :
    (method : Text) (wire : Bytes)
    → text_eq method (codes "probe") ≡ false
    → view node client method wire 2 ≡ (ok (to_le 8 0), 2)
unfolding view view_on view_response_on rpc_call read_reply get check_view get_or_none view_bytes
    subscript to_bytes to_le text_eq
zero_returns method wire h = rw (h, h) refl

seven_returns :
    (method : Text) (wire : Bytes)
    → text_eq method (codes "probe") ≡ false
    → view node client method wire 3 ≡ (ok (to_le 8 7), 3)
unfolding view view_on view_response_on rpc_call read_reply get check_view get_or_none view_bytes
    subscript to_bytes to_le text_eq
seven_returns method wire h = rw (h, h) refl

answers_at :
    (k : ℕ)
    → ((method : Text) (wire : Bytes)
        → text_eq method (codes "probe") ≡ false
        → view node client method wire k ≡ (ok (to_le 8 (stored k)), k))
    → (method : Text) (wire : Bytes) (n : ℕ) → Behind k n
    → Answered node client (Behind k) (views k method wire) (view node client method wire n)
unfolding Answered
answers_at k returns method wire n live =
    subst
      (λ m. Answered node client (Behind k) (views k method wire) (view node client method wire m))
      (sym live)
      (elim (Bool-cases (text_eq method (codes "probe"))) [
        | inl traps ↦ rw traps (
          view_error (codes "test.near") method (str (codes "trap")),
          k,
          probe_traps method wire k traps,
          refl,
        )
        | inr other ↦ rw other (k, returns method wire other, refl)
      ])

abbrev table : List (Bytes × Fields)
table = (codes "{}", (codes "memoLength", 0) ∷ []) ∷ []

abbrev wires : List Bytes
wires = codes "x" ∷ []

abbrev between : ℕ → Result Stop (Unit {0}) × ℕ
unfolding commit
between = commit node client (codes "commit") (codes "{}") 7

prepared : prepare node client wasm_magic 0 0 ≡ (ok tt, 2)
unfolding prepare text_eq rpc_call read_reply get subscript has_key call_on to_le view view_on
    view_u64 view_u64_on u64_of decode_u64_le view_response_on check_view view_bytes to_bytes
    get_or_none truthy accept_all refuse_all deploy sign_and_send access_key next check_outcome
    outcome_failed judge call sign_transaction action_deploy transaction action_function_call
    join_actions borsh_bytes borsh_string u64 u128 encode_u64_le pack_u32 pack_unsigned or_self
    to_int get_or_default contains iterate encode encode_char is_key success_value_bytes success_in
    last_success from_le expect_failure commit
prepared = refl

committed : between 2 ≡ (ok tt, 3)
unfolding commit text_eq rpc_call read_reply get subscript has_key call_on to_le view view_on
    view_u64 view_u64_on u64_of decode_u64_le view_response_on check_view view_bytes to_bytes
    get_or_none truthy accept_all refuse_all deploy sign_and_send access_key next check_outcome
    outcome_failed judge call sign_transaction action_deploy transaction action_function_call
    join_actions borsh_bytes borsh_string u64 u128 encode_u64_le pack_u32 pack_unsigned or_self
    to_int get_or_default contains iterate encode encode_char is_key success_value_bytes success_in
    last_success from_le prepare expect_failure
committed = refl

played : play node client wasm_magic 0 table between (codes "probe") wires 0 ≡ (ok tt, 3)
unfolding play commit text_eq rpc_call read_reply get subscript has_key call_on to_le view view_on
    view_u64 view_u64_on u64_of decode_u64_le view_response_on check_view view_bytes to_bytes
    get_or_none truthy accept_all refuse_all deploy sign_and_send access_key next check_outcome
    outcome_failed judge call sign_transaction action_deploy transaction action_function_call
    join_actions borsh_bytes borsh_string u64 u128 encode_u64_le pack_u32 pack_unsigned or_self
    to_int get_or_default contains iterate encode encode_char is_key success_value_bytes success_in
    last_success from_le prepare expect_failure
played = refl

rolled_back :
    roll_back node client (codes "probe") wires (codes "commit") (codes "bad") 3 ≡ (ok tt, 4)
unfolding roll_back text_eq rpc_call read_reply get subscript has_key call_on to_le view view_on
    view_u64 view_u64_on u64_of decode_u64_le view_response_on check_view view_bytes to_bytes
    get_or_none truthy accept_all refuse_all deploy sign_and_send access_key next check_outcome
    outcome_failed judge call sign_transaction action_deploy transaction action_function_call
    join_actions borsh_bytes borsh_string u64 u128 encode_u64_le pack_u32 pack_unsigned or_self
    to_int get_or_default contains iterate encode encode_char is_key success_value_bytes success_in
    last_success from_le prepare expect_failure commit
rolled_back = refl

play_sound_example :
    All (Reads (views 2)) table × All (λ wire. views 3 (codes "probe") wire ≡ none) wires
play_sound_example =
    play_sound node client (Behind 2) (Behind 3) (views 2) (views 3) (answers_at 2 zero_returns)
      (answers_at 3 seven_returns) wasm_magic 0 table between (codes "probe") wires 0 3
      (λ x e. ap (λ o. o.1) (sym e ∙ prepared))
      (λ x y live e. ap (λ o. o.1) (sym e ∙ (ap between live ∙ committed))) played

roll_back_sound_example :
    All (λ wire. views 3 (codes "probe") wire ≡ none) wires
    × ((n : ℕ) × (w1 : ℕ) × (view_u64 node client (codes "get") [] 3 ≡ (ok n, w1))
        × ((r : Reason) × (w2 w3 : ℕ) × Behind 3 w2
            × (call node client (codes "commit") (codes "bad") true default_gas (pos 0) w2
                ≡ (err (near_rpc_error r), w3))
            × (view_u64 node client (codes "get") [] w3 ≡ (ok n, 4))))
roll_back_sound_example =
    roll_back_sound node client (Behind 3) (views 3) (answers_at 3 seven_returns) (codes "probe")
      wires (codes "commit") (codes "bad") 3 4 refl rolled_back

kept : fail_unchanged node client (codes "burn") none 3 ≡ (ok tt, 4)
unfolding fail_unchanged state state_is view_state_values read_state dict_eq collect_rows text_eq
    rpc_call read_reply get subscript has_key call_on to_le view view_on view_u64 view_u64_on u64_of
    decode_u64_le view_response_on check_view view_bytes to_bytes get_or_none truthy accept_all
    refuse_all deploy sign_and_send access_key next check_outcome outcome_failed judge call
    sign_transaction action_deploy transaction action_function_call join_actions borsh_bytes
    borsh_string u64 u128 encode_u64_le pack_u32 pack_unsigned or_self to_int get_or_default
    contains iterate encode encode_char is_key success_value_bytes success_in last_success from_le
    prepare expect_failure
kept = refl

fail_unchanged_sound_example :
    (before : Dict Bytes) × (w1 : ℕ) × (view_state_values node client none 3 ≡ (ok before, w1))
    × ((response : Value) × (w2 : ℕ) × (call_on node client
            (codes "test.near")
            (codes "burn")
            []
            false
            default_gas
            (pos 0)
            none
            w1
          ≡ (ok response, w2))
        × ShowsFailure response
        × ((after : Dict Bytes) × (view_state_values node client none w2 ≡ (ok after, 4))
            × ((k : Text) → lookup k after ≡ lookup k before)))
fail_unchanged_sound_example = fail_unchanged_sound node client (codes "burn") none 3 4 kept

refused_transfer :
    ft_transfer_fails node client (codes "aa") (pos 3) none 1 (memo_of none) none 3 ≡ (ok tt, 4)
unfolding ft_transfer_fails rows rows_are logs_are send or_args ft_args ft_object json_bytes encoded
    shown dumps receipt_logs logs_in same_logs view_state_values read_state dict_eq collect_rows
    text_eq rpc_call read_reply get subscript has_key call_on to_le view view_on view_u64
    view_u64_on u64_of decode_u64_le view_response_on check_view view_bytes to_bytes get_or_none
    truthy accept_all refuse_all deploy sign_and_send access_key next check_outcome outcome_failed
    judge call sign_transaction action_deploy transaction action_function_call join_actions
    borsh_bytes borsh_string u64 u128 encode_u64_le pack_u32 pack_unsigned or_self to_int
    get_or_default contains iterate encode encode_char is_key success_value_bytes success_in
    last_success from_le prepare expect_failure
refused_transfer = refl

ft_transfer_fails_sound_example :
    (before : Dict Bytes) × (w1 : ℕ) × (view_state_values node client none 3 ≡ (ok before, w1))
    × ((args : Bytes) × Sends (codes "aa") 3 none none args
        × ((response : Value) × (w2 : ℕ) × (call_on node client
                (codes "test.near")
                (codes "ft_transfer")
                args
                false
                default_gas
                (pos 1)
                none
                w1
              ≡ (ok response, w2))
            × ShowsFailure response
            × LogsNothing response
            × ((after : Dict Bytes) × (view_state_values node client none w2 ≡ (ok after, 4))
                × ((k : Text) → lookup k after ≡ lookup k before))))
ft_transfer_fails_sound_example =
    ft_transfer_fails_sound node client (codes "aa") 3 none 1 none none 3 4 refused_transfer
