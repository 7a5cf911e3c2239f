-- ===== src/Rpc/Send/Failed.antt =====
-- What a response of `sign_and_send` that was sent with `expect_success=False` shows.
use proof_forge_near.Prelude.{
  ◌≡◌, refl, ap, arith, ◌⊎◌, inl, inr, Bool, true, false, Option, some, [], ◌∷◌, Text, Bytes, codes,
}
use proof_forge_near.Py.Result.{Result, ok, err, then-ok, ◌>>=◌ as ◌then◌}
use proof_forge_near.Py.Int.{ℤ}
use proof_forge_near.Py.Value.{Value, str, list, dict, Items, nil, item, end, Among, first, later}
use proof_forge_near.Rpc.Exc.{Exc}
use proof_forge_near.Rpc.Dynamic.{get_or_default, contains, iterate}
use proof_forge_near.Rpc.Env.{Env, Client}
use proof_forge_near.Rpc.Exec.{Exec, ◌>>=◌, lift}
use proof_forge_near.Rpc.Query.{or_self, rpc_call}
use proof_forge_near.Rpc.Transaction.{transaction, action_function_call}
use proof_forge_near.Rpc.Send.{
  receipt_failed, any_receipt_failed, outcome_failed, judge, check_outcome, access_key,
  sign_transaction, next, sign_and_send, call_on,
}

-- The status of a transaction or of a receipt's outcome has the key `Failure`.
abbrev pub StatusFails : Value → Type 0
StatusFails res =
    (status : Value) × (get_or_default (codes "status") (dict end) res ≡ ok status)
    × (contains (codes "Failure") status ≡ ok true)

-- The response's own status fails, or that of one of its receipts' outcomes.
unfoldable pub ShowsFailure : Value → Type 0
ShowsFailure res =
    StatusFails res
    ⊎ ((records : Value) × (receipts : Items) × (receipt outcome : Value) × (get_or_default
            (codes "receipts_outcome") (list nil) res
          ≡ ok records)
        × (iterate records ≡ ok receipts)
        × Among receipt receipts
        × (get_or_default (codes "outcome") (dict end) receipt ≡ ok outcome)
        × StatusFails outcome)

ReceiptFails : Value → Type 0
ReceiptFails receipt =
    (outcome : Value) × (get_or_default (codes "outcome") (dict end) receipt ≡ ok outcome)
    × StatusFails outcome

receipt_failed_sound : (r : Value) → receipt_failed r ≡ ok true → ReceiptFails r
unfolding receipt_failed ReceiptFails
receipt_failed_sound r e =
    let status_of : Value → Result Exc Value =
      λ outcome. get_or_default (codes "status") (dict end) outcome in
    let judged : Value → Result Exc Bool =
      λ outcome. status_of outcome then λ st. contains (codes "Failure") st in
    let (outcome, known, more) =
      then-ok (get_or_default (codes "outcome") (dict end) r) judged true e in
    let (status, has_status, fails) =
      then-ok (status_of outcome) (λ st. contains (codes "Failure") st) true more in
    (outcome, known, (status, has_status, fails))

any_receipt_failed_sound :
    (rs : Items) → any_receipt_failed rs ≡ ok true → (r : Value) × Among r rs × ReceiptFails r
unfolding any_receipt_failed
any_receipt_failed_sound nil e = cc
any_receipt_failed_sound (item r rest) e =
    onward (receipt_failed r) refl (any_receipt_failed_sound rest)
  where
    onward :
        (out : Result Exc Bool)
        → receipt_failed r ≡ out
        → (any_receipt_failed rest ≡ ok true → (x : Value) × Among x rest × ReceiptFails x)
        → (x : Value) × Among x (item r rest) × ReceiptFails x
    onward (ok true) q behind = (r, first, receipt_failed_sound r q)
    onward (ok false) q behind =
        let (x, among, fails) = behind (rw (any_receipt_failed, q) at e) in (x, later among, fails)
    onward (err bad) q behind = absurd (ground (arith, q))

outcome_failed_sound : (res : Value) → outcome_failed res ≡ ok true → ShowsFailure res
unfolding outcome_failed ShowsFailure ReceiptFails
outcome_failed_sound res e =
    let searched : Result Exc Bool =
      get_or_default (codes "receipts_outcome") (list nil) res then λ receipts.
      iterate receipts then λ rs. any_receipt_failed rs in
    let after_status : Bool → Result Exc Bool =
      λ failed. elim failed [ true ↦ ok true | false ↦ searched ] in
    let (status, known, more) =
      then-ok (get_or_default (codes "status") (dict end) res)
        (λ st. contains (codes "Failure") st then after_status) true e in
    let (failed, has, rest) = then-ok (contains (codes "Failure") status) after_status true more in
    onward status known failed has rest
  where
    onward :
        (status : Value)
        → get_or_default (codes "status") (dict end) res ≡ ok status
        → (failed : Bool) → contains (codes "Failure") status ≡ ok failed
        → (elim failed [
          | true ↦ ok true
          | false ↦ get_or_default (codes "receipts_outcome") (list nil) res then λ receipts.
              iterate receipts then λ rs. any_receipt_failed rs
        ])
          ≡ ok true
        → ShowsFailure res
    onward status known true has rest = inl (status, known, has)
    onward status known false has rest =
        let (records, shown, more) =
          then-ok (get_or_default (codes "receipts_outcome") (list nil) res)
            (λ receipts. iterate receipts then λ rs. any_receipt_failed rs) true rest in
        let (receipts, all, some_failed) = then-ok (iterate records) any_receipt_failed true more in
        let (receipt, among, (outcome, known', fails)) =
          any_receipt_failed_sound receipts some_failed in
        inr (records, receipts, receipt, outcome, shown, all, among, known', fails)

check_outcome-ShowsFailure : (res got : Value) → check_outcome false res ≡ ok got → ShowsFailure got
unfolding check_outcome judge
check_outcome-ShowsFailure res got e =
    let (failed, known, more) =
      then-ok (outcome_failed res) (λ failed. judge false failed res) got e in
    onward failed known more
  where
    onward :
        (failed : Bool)
        → outcome_failed res ≡ ok failed
        → judge false failed res ≡ ok got
        → ShowsFailure got
    onward true known more =
        let same : res ≡ got = cc more in outcome_failed_sound got (rw same at known)
    onward false known more = cc

-- A step that ends well, and what is behind it.
bind-ok :
    {W A B : Type 0} (m : Exec W A) (f : A → Exec W B) (w w'' : W) (b : B)
    → (m >>= f) w ≡ (ok b, w'')
    → (a : A) × (w' : W) × (m w ≡ (ok a, w')) × (f a w' ≡ (ok b, w''))
bind-ok {W} {A} {B} m f w w'' b e = onward (m w) refl e
  where
    onward :
        (out : Result Exc A × W)
        → m w ≡ out
        → (m >>= f) w ≡ (ok b, w'')
        → (a : A) × (w' : W) × (m w ≡ (ok a, w')) × (f a w' ≡ (ok b, w''))
    onward (ok a, w') q h = (a, w', q, rw q at h)
    onward (err x, w') q h =
        let bad : ◌≡◌ {A = Result Exc B × W} (err x, w') (ok b, w'') = rw q at h in cc bad

-- A call that was to fail and returns a response has failed.
pub call_on-ShowsFailure :
    (E : Env) (c : Client) (account method : Text) (args : Bytes) (gas deposit : ℤ)
    (signer : Option Text) (w w' : E.World) (res : Value)
    → call_on E c account method args false gas deposit signer w ≡ (ok res, w')
    → ShowsFailure res
unfolding call_on sign_and_send
call_on-ShowsFailure E c account method args gas deposit signer w w' res e =
    let signer_id = or_self (some (or_self signer c.account_id)) c.account_id in
    let sent : Bytes → Exec E.World Value = λ action.
      sign_and_send E c account (action ∷ []) false (some (or_self signer c.account_id)) in
    let judged : Value → Exec E.World Value = λ reply. lift (check_outcome false reply) in
    let broadcast : Bytes → Exec E.World Value = λ tx.
      rpc_call E c (codes "broadcast_tx_commit")
        (list (item (str (E.b64encode (sign_transaction E c tx))) nil)) in
    let (action, w1, e1, r1) =
      bind-ok (lift (action_function_call method args gas deposit)) sent w w' res e in
    let made : Bytes → ℤ × Bytes → Exec E.World Bytes = λ action key.
      lift (transaction signer_id c.public_key (next key.0) account key.1 (action ∷ [])) in
    let (key, w2, e2, r2) =
      bind-ok (access_key E c (some signer_id))
        (λ key. made action key >>= λ tx. broadcast tx >>= judged) w1 w' res r1 in
    let (tx, w3, e3, r3) = bind-ok (made action key) (λ tx. broadcast tx >>= judged) w2 w' res r2 in
    let (reply, w4, e4, r4) = bind-ok (broadcast tx) judged w3 w' res r3 in
    check_outcome-ShowsFailure reply res (ap (λ o. o.0) r4)
