-- ===== src/Suites/Token/Checks.antt =====
-- What the checks of Token.antt and of a response's logs decide.
use proof_forge_near.Prelude.{
  ◌≡◌, ◌↔◌, refl, ap, ◌∙◌, true, Option, none, some, List, [], ◌∷◌, Text, Bytes, text_eq_iff, arith,
}
use proof_forge_near.Py.Result.{ok}
use proof_forge_near.Py.Dict.{Dict, dict_eq}
use proof_forge_near.Py.Value.{Value, null, bool, int, str, bytes, list, dict, Items, nil, item}
use proof_forge_near.Rpc.Env.{Env, Client}
use proof_forge_near.Rpc.Query.{view_state_values}
use proof_forge_near.Rpc.View.{success_value_bytes}
use proof_forge_near.Suites.Play.{step, compute, is_some_eq}
use proof_forge_near.Suites.Steps.{step-ok_iff, compute-ok_iff, check-ok_iff}
use proof_forge_near.Suites.Receipts.{receipt_logs, same_logs}
use proof_forge_near.Suites.Token.{rows, rows_are, returns}
use proof_forge_near.Suites.Ledger.{logs_are}

-- The lines as the values of a response.
abbrev pub log_items : List Text → Items
log_items [] = nil
log_items (t ∷ ts) = item (str t) (log_items ts)

pub is_some_eq_iff : (o : Option Bytes) (b : Bytes) → (is_some_eq o b ≡ true) ↔ (o ≡ some b)
is_some_eq_iff none b = (λ e. cc, λ e. cc)
is_some_eq_iff (some a) b = (λ e. ap some ((text_eq_iff a b).0 e), λ e. (text_eq_iff a b).1 (cc e))

pub same_logs_iff :
    (logs : Items) (lines : List Text) → (same_logs logs lines ≡ true) ↔ (logs ≡ log_items lines)
unfolding same_logs
same_logs_iff nil [] = (λ e. refl, λ e. refl)
same_logs_iff nil (t ∷ ts) = (λ e. cc, λ e. cc)
same_logs_iff (item v rest) [] = (λ e. cc, λ e. cc)
same_logs_iff (item (str l) rest) (t ∷ ts) = ground (arith, same_logs_iff rest ts, text_eq_iff l t)
same_logs_iff (item null rest) (t ∷ ts) = (λ e. cc, λ e. cc)
same_logs_iff (item (bool b) rest) (t ∷ ts) = (λ e. cc, λ e. cc)
same_logs_iff (item (int n) rest) (t ∷ ts) = (λ e. cc, λ e. cc)
same_logs_iff (item (bytes b) rest) (t ∷ ts) = (λ e. cc, λ e. cc)
same_logs_iff (item (list xs) rest) (t ∷ ts) = (λ e. cc, λ e. cc)
same_logs_iff (item (dict d) rest) (t ∷ ts) = (λ e. cc, λ e. cc)

module _ (E : Env) (c : Client) where
  pub returns-ok_iff :
      (outcome : Value) (expected : Bytes) (w w' : E.World)
      → (returns E c outcome expected w ≡ (ok tt, w'))
        ↔ ((success_value_bytes E.b64decode outcome ≡ ok (some expected)) × (w ≡ w'))
  unfolding returns
  returns-ok_iff outcome expected w w' =
      let found = success_value_bytes E.b64decode outcome in
      let check = check-ok_iff (compute found) (λ got. is_some_eq got expected) w w' in
      (
        λ e.
            let (got, e1, same) = check.0 e in
            let (is_got, there) = (compute-ok_iff found w w' got).0 e1 in
            (is_got ∙ ap ok ((is_some_eq_iff got expected).0 same), there),
        λ (is_found, there).
            let same = (is_some_eq_iff (some expected) expected).1 refl in
            check.1 (
              some expected,
              (compute-ok_iff found w w' (some expected)).1 (is_found, there),
              same,
            ),
      )

  pub logs_are-ok_iff :
      (response : Value) (lines : List Text) (w w' : E.World)
      → (logs_are E c response lines w ≡ (ok tt, w'))
        ↔ ((receipt_logs response ≡ ok (log_items lines)) × (w ≡ w'))
  unfolding logs_are
  logs_are-ok_iff response lines w w' =
      let found = receipt_logs response in
      let check = check-ok_iff (compute found) (λ logs. same_logs logs lines) w w' in
      (
        λ e.
            let (logs, e1, same) = check.0 e in
            let (is_logs, there) = (compute-ok_iff found w w' logs).0 e1 in
            (is_logs ∙ ap ok ((same_logs_iff logs lines).0 same), there),
        λ known.
            let same = (same_logs_iff (log_items lines) lines).1 refl in
            check.1 (log_items lines, (compute-ok_iff found w w' (log_items lines)).1 known, same),
      )

  pub rows_are-ok_iff :
      (at_ : Option Text) (before : Dict Bytes) (w w' : E.World)
      → (rows_are E c at_ before w ≡ (ok tt, w')) ↔ (
          (after : Dict Bytes) × (view_state_values E c at_ w ≡ (ok after, w'))
          × (dict_eq after before ≡ true))
  unfolding rows_are rows
  rows_are-ok_iff at_ before w w' =
      let read = view_state_values E c at_ in
      let check = check-ok_iff (step read) (λ after. dict_eq after before) w w' in
      (
        λ e. let (after, e1, same) = check.0 e in (after, (step-ok_iff read w w' after).0 e1, same),
        λ (after, e, same). check.1 (after, (step-ok_iff read w w' after).1 e, same),
      )
