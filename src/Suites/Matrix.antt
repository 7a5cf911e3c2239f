-- ===== src/Suites/Matrix.antt =====
-- The parts that the JSON suites share: a contract is deployed, wires are sent to its views, one call
-- is committed, and wires are sent that the views must refuse.
pub mod Rollback
use proof_forge_near.Prelude.{
  ◌≡◌, ℕ, zero, suc, ◌+◌, ◌*◌, ◌^◌, none, some, List, [], ◌∷◌, ◌++◌, ◌==◌, true, Text, Bytes, codes,
  All,
}
use proof_forge_near.Py.Result.{ok}
use proof_forge_near.Py.Bytes.{from_le, slice}
use proof_forge_near.Py.Int.{ℤ, pos}
use proof_forge_near.Rpc.Env.{Env, Client}
use proof_forge_near.Rpc.Wire.{encode_u64_le}
use proof_forge_near.Rpc.View.{view, view_u64, success_value_bytes}
use proof_forge_near.Rpc.Send.{deploy, call}
use proof_forge_near.Suites.Play.{
  Suite, ◌>>=◌, ◌>>◌, step, compute, assert, refused, each, pass, is_some_eq,
}
use proof_forge_near.Suites.Exact.{le64, Exact, Exact-each, Exact-ok, ok->>}
use proof_forge_near.Suites.Contract.{
  Views, Answered, expect_u64, expect_failure, expect_u64-Exact, expect_failure-Exact,
}

-- What the methods of a contract return on one wire.
abbrev pub Fields : Type 0
Fields = List (Text × ℕ)

abbrev pub default_gas : ℤ
default_gas = pos (50 * 10 ^ 12)

-- `f"{method}{index}"` with the words of a frame, for `count` indices from `index` on.
unfoldable pub word_fields : Text → ℕ → ℕ → Bytes → Fields
word_fields method zero index frame = []
word_fields method (suc count) index frame =
    (method ++ ((48 + index) ∷ []), from_le (slice (index * 8) 8 frame))
    ∷ word_fields method count (index + 1) frame

-- The views return the fields on the wire.
unfoldable pub Reads : Views → Bytes × Fields → Type 0
Reads views a = All (λ f. views f.0 a.0 ≡ some (le64 f.1)) a.1

module _ (E : Env) (c : Client) where
  unfoldable pub prepare : Bytes → ℕ → Suite E.World (Unit {0})
  prepare code start = do
    deployed ← step (deploy E c code)
    word ← compute (encode_u64_le (pos start))
    initialized ← step (call E c (codes "initialize") word true default_gas (pos 0))
    pass

  unfoldable pub expect_fields : Bytes → Fields → Suite E.World (Unit {0})
  unfolding each expect_u64
  expect_fields wire fields = each (λ f. expect_u64 E c f.0 wire f.1) fields

  unfoldable pub accept_all : List (Bytes × Fields) → Suite E.World (Unit {0})
  unfolding each expect_fields
  accept_all table = each (λ a. expect_fields a.0 a.1) table

  unfoldable pub refuse_all : Text → List Bytes → Suite E.World (Unit {0})
  unfolding each expect_failure
  refuse_all method wires = each (λ wire. expect_failure E c method wire) wires

  -- A call returns a number, which the contract's view `get` returns from then on.
  unfoldable pub commit : Text → Bytes → ℕ → Suite E.World (Unit {0})
  commit method wire value = do
    result ← step (call E c method wire true default_gas (pos 0))
    returned ← compute (success_value_bytes E.b64decode result)
    expected ← compute (encode_u64_le (pos value))
    assert (is_some_eq returned expected)
    got ← step (view_u64 E c (codes "get") [])
    assert (got == value)

  -- A call is refused behind the refused views, and `get` returns what it returned before them.
  unfoldable pub roll_back : Text → List Bytes → Text → Bytes → Suite E.World (Unit {0})
  unfolding refuse_all refused
  roll_back probe wires method wire = do
    before ← step (view_u64 E c (codes "get") [])
    refuse_all probe wires
    refused (call E c method wire true default_gas (pos 0))
    after ← step (view_u64 E c (codes "get") [])
    assert (after == before)

  unfoldable pub play :
      Bytes
      → ℕ
      → List (Bytes × Fields)
      → Suite E.World (Unit {0})
      → Text
      → List Bytes
      → Suite E.World (Unit {0})
  unfolding prepare accept_all refuse_all
  play code start table between probe wires = do
    prepare code start
    accept_all table
    between
    refuse_all probe wires

  module _ (Live : E.World → Type 0) (views : Views)
      (answers : (method : Text) (wire : Bytes) (w : E.World)
        → Live w
        → Answered E c Live (views method wire) (view E c method wire w)) where
    -- From a live world, the accepting scenes of a table pass exactly when the contract's views
    -- return, on every wire of the table, every field in eight little-endian bytes.
    pub accept_all-Exact :
        (table : List (Bytes × Fields)) → Exact Live (accept_all table) (All (Reads views) table)
    unfolding accept_all expect_fields Reads
    accept_all-Exact table =
        Exact-each Live _ _ table
          (λ a. Exact-each Live _ _ a.1 (λ f. expect_u64-Exact E c Live views answers f.0 a.0 f.1))

    -- From a live world, the refusing scenes pass exactly when the view traps on every wire.
    pub refuse_all-Exact :
        (method : Text) (wires : List Bytes)
        → Exact Live (refuse_all method wires) (All (λ wire. views method wire ≡ none) wires)
    unfolding refuse_all
    refuse_all-Exact method wires =
        Exact-each Live _ _ wires (λ wire. expect_failure-Exact E c Live views answers method wire)

  module _ (Live Later : E.World → Type 0) (views later_views : Views)
      (answers : (method : Text) (wire : Bytes) (w : E.World)
        → Live w
        → Answered E c Live (views method wire) (view E c method wire w))
      (later_answers : (method : Text) (wire : Bytes) (w : E.World)
        → Later w
        → Answered E c Later (later_views method wire) (view E c method wire w)) where
    -- Where the contract answers by `views` behind its initialization, and by `later_views` behind the
    -- scenes between that end well, a suite that ends well says that `views` return every field of the
    -- table and `later_views` trap on every refused wire.
    pub play_sound :
        (code : Bytes) (start : ℕ) (table : List (Bytes × Fields))
        (between : Suite E.World (Unit {0})) (probe : Text) (wires : List Bytes) (w w' : E.World)
        → ((x : E.World) → prepare code start w ≡ (ok tt, x) → Live x)
        → ((x y : E.World) → Live x → between x ≡ (ok tt, y) → Later y)
        → play code start table between probe wires w ≡ (ok tt, w')
        → All (Reads views) table × All (λ wire. later_views probe wire ≡ none) wires
    unfolding play
    play_sound code start table between probe wires w w' ready kept e =
        let (w1, e1, r1) =
          ok->> (prepare code start) (accept_all table >> (between >> refuse_all probe wires)) w w'
            e in
        let (w2, e2, r2) = ok->> (accept_all table) (between >> refuse_all probe wires) w1 w' r1 in
        let (w3, e3, r3) = ok->> between (refuse_all probe wires) w2 w' r2 in
        let (reads, live2) =
          Exact-ok Live _ _ w1 w2 (accept_all-Exact Live views answers table) (ready w1 e1) e2 in
        let (traps, live3) =
          Exact-ok Later _ _ w3 w' (refuse_all-Exact Later later_views later_answers probe wires)
            (kept w2 w3 live2 e3) r3 in
        (reads, traps)
