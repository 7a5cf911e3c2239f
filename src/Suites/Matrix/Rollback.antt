-- ===== src/Suites/Matrix/Rollback.antt =====
-- The refused call of the JSON suites, and the state behind it.
use proof_forge_near.Prelude.{
  All, Option, none, some, subst, sym, ap, ◌∙◌, ◌≡◌, ◌↔◌, refl, ℕ, true, List, [], ◌==◌, ==_iff,
  Text, Bytes, codes,
}
use proof_forge_near.Py.Result.{Result, ok, err}
use proof_forge_near.Py.Int.{pos}
use proof_forge_near.Rpc.Exc.{Exc, Reason, near_rpc_error}
use proof_forge_near.Rpc.Exec.{Exec, lift, ◌>>=◌ as ◌then◌}
use proof_forge_near.Rpc.Env.{Env, Client}
use proof_forge_near.Rpc.View.{view, view_u64, view_u64_on, u64_of}
use proof_forge_near.Rpc.Send.{call}
use proof_forge_near.Suites.Play.{Suite, ◌>>=◌, ◌>>◌, step, assert, refused}
use proof_forge_near.Suites.Steps.{bind-ok_iff, step-ok_iff, assert-ok_iff, refused-ok_iff}
use proof_forge_near.Suites.Exact.{Exact-ok}
use proof_forge_near.Suites.Contract.{Views, Answered}
use proof_forge_near.Suites.Matrix.{default_gas, refuse_all, refuse_all-Exact, roll_back}

-- `get` returns a number, the wires are refused, the call raises, and `get` returns the same number.
RollsBack :
    (E : Env) (c : Client) (probe : Text) (wires : List Bytes) (method : Text) (wire : Bytes)
    (w w' : E.World)
    → Type 0
RollsBack E c probe wires method wire w w' =
    (n : ℕ) × (w1 : E.World) × (view_u64 E c (codes "get") [] w ≡ (ok n, w1))
    × ((w2 : E.World) × (refuse_all E c probe wires w1 ≡ (ok tt, w2))
        × ((r : Reason) × (w3 : E.World) × (call E c method wire true default_gas (pos 0) w2
              ≡ (err (near_rpc_error r), w3))
            × (view_u64 E c (codes "get") [] w3 ≡ (ok n, w'))))

roll_back-ok_iff :
    (E : Env) (c : Client) (probe : Text) (wires : List Bytes) (method : Text) (wire : Bytes)
    (w w' : E.World)
    → (roll_back E c probe wires method wire w ≡ (ok tt, w'))
      ↔ RollsBack E c probe wires method wire w w'
unfolding roll_back refused RollsBack
roll_back-ok_iff E c probe wires method wire w w' = (
  λ e.
      let get = step (view_u64 E c (codes "get") []) in
      let called = call E c method wire true default_gas (pos 0) in
      let compared : ℕ → Suite E.World (Unit {0}) = λ n. get >>= λ after. assert (after == n) in
      let (n, w1, e1, r1) =
        (bind-ok_iff get (λ n. refuse_all E c probe wires >> (refused called >> compared n)) w w'
            tt).0
          e in
      let (t, w2, e2, r2) =
        (bind-ok_iff (refuse_all E c probe wires) (λ _. refused called >> compared n) w1 w' tt).0
          r1 in
      let (t', w3, e3, r3) = (bind-ok_iff (refused called) (λ _. compared n) w2 w' tt).0 r2 in
      let (after, w4, e4, r4) = (bind-ok_iff get (λ after. assert (after == n)) w3 w' tt).0 r3 in
      let (same, there) = (assert-ok_iff (after == n) w4 w').0 r4 in
      let (r, raises) = (refused-ok_iff called w2 w3).0 e3 in
      let last = (step-ok_iff (view_u64 E c (codes "get") []) w3 w4 after).0 e4 in
      (
        n,
        w1,
        (step-ok_iff (view_u64 E c (codes "get") []) w w1 n).0 e1,
        (w2, e2, (r, w3, raises, rw (there, (==_iff after n).0 same) at last)),
      ),
  λ (n, w1, e1, (w2, e2, (r, w3, e3, e4))). rw (e1, e2, e3, e4, (==_iff n n).1 refl) refl,
)

-- What is only computed behind a step leaves the step's world.
same_world :
    {W : Type 0} (m : Exec W Bytes) (f : Bytes → Result Exc ℕ) (w : W) (out : Result Exc Bytes × W)
    → m w ≡ out
    → ((m then λ b. lift (f b)) w).1 ≡ out.1
same_world m f w (ok b, v) e = rw e refl
same_world m f w (err x, v) e = rw e refl

module _ (E : Env) (c : Client) (Live : E.World → Type 0) (views : Views)
    (answers : (method : Text) (wire : Bytes) (w : E.World)
      → Live w
      → Answered E c Live (views method wire) (view E c method wire w)) where
  view_u64-Live :
      (o : Option Bytes) (n : ℕ) (w w' : E.World)
      → Answered E c Live o (view E c (codes "get") [] w)
      → view_u64 E c (codes "get") [] w ≡ (ok n, w')
      → Live w'
  unfolding view_u64 view_u64_on view Answered
  view_u64-Live none n w w' (r, v, e, live) h =
      let got = view E c (codes "get") [] in
      let kept = same_world got (u64_of c.account_id (codes "get")) w _ e in
      subst Live (sym kept ∙ ap (λ o. o.1) h) live
  view_u64-Live (some b) n w w' (v, e, live) h =
      let got = view E c (codes "get") [] in
      let kept = same_world got (u64_of c.account_id (codes "get")) w _ e in
      subst Live (sym kept ∙ ap (λ o. o.1) h) live

  -- Where the scenes of a refused call end well from a live world, the view traps on every refused
  -- wire, the call, sent from a live world, raises a `NearRpcError`, and `get` returns behind that call
  -- the number that it returned at first.
  pub roll_back_sound :
      (probe : Text) (wires : List Bytes) (method : Text) (wire : Bytes) (w w' : E.World)
      → Live w
      → roll_back E c probe wires method wire w ≡ (ok tt, w')
      → All (λ wire. views probe wire ≡ none) wires
        × ((n : ℕ) × (w1 : E.World) × (view_u64 E c (codes "get") [] w ≡ (ok n, w1))
            × ((r : Reason) × (w2 w3 : E.World) × Live w2
                × (call E c method wire true default_gas (pos 0) w2 ≡ (err (near_rpc_error r), w3))
                × (view_u64 E c (codes "get") [] w3 ≡ (ok n, w'))))
  unfolding RollsBack
  roll_back_sound probe wires method wire w w' live e =
      let (n, w1, e1, (w2, e2, (r, w3, e3, e4))) =
        (roll_back-ok_iff E c probe wires method wire w w').0 e in
      let live1 =
        view_u64-Live (views (codes "get") []) n w w1 (answers (codes "get") [] w live) e1 in
      let (traps, live2) =
        Exact-ok Live _ _ w1 w2 (refuse_all-Exact E c Live views answers probe wires) live1 e2 in
      (traps, (n, w1, e1, (r, w2, w3, live2, e3, e4)))
