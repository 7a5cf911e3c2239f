-- ===== src/Suites/Tests.antt =====
-- The suites' checks on a node with one contract, whose view `probe` traps and whose other views
-- return the number seven.
mod Commits
mod Transfers
use proof_forge_near.Prelude.{
  ◌≡◌, ◌↔◌, refl, true, false, Bool-cases, inl, inr, none, some, List, [], ◌∷◌, All, if◌then◌else◌,
  Text, Bytes, codes, text_eq,
}
use proof_forge_near.Py.Result.{ok, err}
use proof_forge_near.Py.Int.{pos}
use proof_forge_near.Py.Bytes.{to_le}
use proof_forge_near.Py.Dict.{Dict, dict_eq}
use proof_forge_near.Py.Value.{Value, int, str, list, dict, nil, Entries, entry, get, has_key}
use proof_forge_near.Observation.Adapter.Accepts.{byte_items}
use proof_forge_near.Rpc.Dynamic.{object, get_or_none, truthy, subscript, to_bytes}
use proof_forge_near.Rpc.Env.{Env, Client, answered}
use proof_forge_near.Rpc.Exc.{near_rpc_error, view_error}
use proof_forge_near.Rpc.Query.{view_state_values, rpc_call, read_reply}
use proof_forge_near.Rpc.Send.{call_on, wasm_magic}
use proof_forge_near.Rpc.View.{view, view_on, view_response_on, check_view, view_bytes}
use proof_forge_near.Rpc.Send.{
  deploy, sign_and_send, access_key, next, check_outcome, outcome_failed, judge, call,
  sign_transaction,
}
use proof_forge_near.Rpc.Transaction.{
  action_deploy, transaction, action_function_call, join_actions,
}
use proof_forge_near.Rpc.Wire.{
  borsh_bytes, borsh_string, u64, u128, encode_u64_le, pack_u32, pack_unsigned,
}
use proof_forge_near.Rpc.Query.{or_self}
use proof_forge_near.Rpc.Dynamic.{to_int, get_or_default, contains, iterate}
use proof_forge_near.Py.Utf8.{encode, encode_char}
use proof_forge_near.Py.Value.{is_key}
use proof_forge_near.Suites.Play.{pass}
use proof_forge_near.Suites.Exact.{Exact}
use proof_forge_near.Suites.Contract.{Views, Answered}
use proof_forge_near.Suites.Matrix.{
  roll_back, Fields, accept_all, refuse_all, play, Reads, play_sound, default_gas,
}
use proof_forge_near.Suites.Scene.{fail_unchanged}
use mathlib.Core.List.{Permᴰ}
use proof_forge_near.Suites.JsonObject.{
  Field, quoted, sender_id, amount_text, object_text, in_every_order,
}
use proof_forge_near.Suites.JsonObject.Orders.{in_every_order_sound}
use proof_forge_near.Suites.JsonAmount
use proof_forge_near.Suites.JsonAmount.{numbers}
use proof_forge_near.Suites.JsonAmount.Verdict.{HoldsNumber, accepted-Exact}

abbrev method_of : Value → Text
method_of (dict (entry k v (entry k2 v2 (entry k3 v3 (entry k4 (str m) rest))))) = m
method_of _ = []

abbrev fields : Entries
fields = object (
    (codes "nonce", int (pos 0))
    ∷ (codes "block_hash", str (codes "x"))
    ∷ (codes "status", dict (object ((codes "SuccessValue", str []) ∷ [])))
    ∷ (codes "values", list nil)
    ∷ (codes "result", list (byte_items (to_le 8 7)))
    ∷ [])

abbrev trap : Entries
trap = object ((codes "error", str (codes "trap")) ∷ [])

abbrev reply : Value → Value
reply params = dict (
    object (
      (codes "result", dict (if text_eq (method_of params) (codes "probe") then trap else fields))
      ∷ []))

abbrev node : Env
node = record {
  World = Unit {0};
  urlopen = λ method params w. (answered (reply params), w);
  b64encode = λ b. b;
  b64decode = λ t. some t;
  b64decode_strict = λ t. some t;
  b58decode = λ t. some (to_le 32 0);
  parse_int = λ t. some (pos 0);
  sha256 = λ b. b;
  sign = λ b. b;
}

abbrev client : Client
client = record { account_id = codes "test.near"; public_key = []; public_key_str = [] }

abbrev views : Views
views method wire = if text_eq method (codes "probe") then none else some (to_le 8 7)

abbrev Live : Unit {0} → Type 0
Live w = Unit {0}

probe_traps :
    (method : Text) (wire : Bytes)
    → text_eq method (codes "probe") ≡ true
    → view node client method wire tt
      ≡ (err (near_rpc_error (view_error (codes "test.near") method (str (codes "trap")))), tt)
unfolding view view_on view_response_on rpc_call read_reply get check_view get_or_none truthy
probe_traps method wire h = rw h refl

other_returns :
    (method : Text) (wire : Bytes)
    → text_eq method (codes "probe") ≡ false
    → view node client method wire tt ≡ (ok (to_le 8 7), tt)
unfolding view view_on view_response_on rpc_call read_reply get check_view get_or_none view_bytes
    subscript to_bytes to_le
other_returns method wire h = rw (h, h) refl

answers :
    (method : Text) (wire : Bytes) (w : Unit {0})
    → Live w
    → Answered node client Live (views method wire) (view node client method wire w)
unfolding Answered
answers method wire w live = elim (Bool-cases (text_eq method (codes "probe"))) [
  | inl traps ↦ rw traps (
    view_error (codes "test.near") method (str (codes "trap")),
    tt,
    probe_traps method wire traps,
    tt,
  )
  | inr returns ↦ rw returns (tt, other_returns method wire returns, tt)
]

abbrev table : List (Bytes × Fields)
table = (codes "{}", (codes "memoLength", 7) ∷ []) ∷ []

abbrev wires : List Bytes
wires = codes "x" ∷ []

accepted-Exact_example :
    Exact Live (accept_all node client JsonAmount.accepted) (All (HoldsNumber views) numbers)
accepted-Exact_example = accepted-Exact node client Live views answers

abbrev expected : Fields
expected = (codes "memoLength", 7) ∷ []

abbrev named_fields : List Field
unfolding sender_id amount_text quoted
named_fields = sender_id (codes "aa") ∷ amount_text (codes "0") ∷ []

abbrev swapped_fields : List Field
unfolding sender_id amount_text quoted
swapped_fields = amount_text (codes "0") ∷ sender_id (codes "aa") ∷ []

both_orders : accept_all node client (in_every_order named_fields expected) tt ≡ (ok tt, tt)
unfolding accept_all in_every_order text_eq rpc_call read_reply get subscript has_key view view_on
    view_response_on check_view view_bytes to_bytes get_or_none truthy encode_u64_le pack_unsigned
    to_le is_key named_fields
both_orders = refl

in_every_order_sound_example : Reads views (object_text swapped_fields, expected)
unfolding swapped_fields
in_every_order_sound_example =
    in_every_order_sound node client Live views answers named_fields swapped_fields expected tt tt
      tt both_orders ∣ Permᴰ.swap refl refl ∣₁
