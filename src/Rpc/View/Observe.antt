-- ===== src/Rpc/View/Observe.antt =====
-- `observe_view`, and its result under the check of a UInt64 view.
use proof_forge_near.Prelude.{
  ℕ, ◌≡◌, refl, ap, ◌∙◌, Option, none, some, List, [], ◌∷◌, map, arith, Text, Bytes, codes,
}
use proof_forge_near.Py.Result.{Result, ok, err}
use proof_forge_near.Py.Bytes.{from_le}
use proof_forge_near.Py.Dict.{Dict, lookup, NodupKeys}
use proof_forge_near.Py.Utf8.{encode}
use proof_forge_near.Py.Value.{Value, str, bytes, list, dict, nil, Entries, as_mapping, get}
use proof_forge_near.Observation.Error.{pre_storage, post_storage}
use proof_forge_near.Observation.Adapter.{CallObservation, observation_from_view_response}
use proof_forge_near.Observation.Adapter.Accepts.{
  byte_items, text_items, observation_from_view_response_iff,
}
use proof_forge_near.Observation.Adapter.Copy.{storage_copy-as_mapping}
use proof_forge_near.Observation.Check.{require_nullary_uint64_view}
use proof_forge_near.Observation.Check.Exact.{require_nullary_uint64_view_iff}
use proof_forge_near.Rpc.Exc.{Exc}
use proof_forge_near.Rpc.Env.{Env, Client}
use proof_forge_near.Rpc.Query.{or_self, state_query, rpc_call, view_state_values}
use proof_forge_near.Rpc.Query.State.{read_state-NodupKeys}
use proof_forge_near.Rpc.View.{view_response_on, observe_view}

texts-nil : (texts : List Text) → map encode texts ≡ [] → texts ≡ []
texts-nil [] h = refl
texts-nil (t ∷ texts) h = cc

module _ (E : Env) (c : Client) where
  pub view_state_values-NodupKeys :
      (account : Option Text) (w : E.World) (out : Dict Bytes)
      → (view_state_values E c account w).0 ≡ ok out
      → NodupKeys out
  unfolding view_state_values
  view_state_values-NodupKeys account w out h =
      go (rpc_call E c (codes "query") (state_query target) w).0 refl
    where
      target : Text
      target = or_self account c.account_id

      go :
          (r : Result Exc Value)
          → (rpc_call E c (codes "query") (state_query target) w).0 ≡ r
          → NodupKeys out
      go (ok v) q = read_state-NodupKeys E target v out (ground (arith, q))
      go (err e) q = absurd (ground (arith, q))

  -- The three requests of `observe_view`, each in the world that the one before left.
  abbrev pub before : E.World → Result Exc (Dict Bytes) × E.World
  before w = view_state_values E c none w

  abbrev pub response : Text → Bytes → E.World → Result Exc Value × E.World
  response method args w = view_response_on E c c.account_id method args (before w).1

  abbrev pub after : Text → Bytes → E.World → Result Exc (Dict Bytes) × E.World
  after method args w = view_state_values E c none (response method args w).1

  observe_view_parts :
      (method : Text) (args : Bytes) (w : E.World) (o : CallObservation)
      → (observe_view E c method args w).0 ≡ ok o
      → (pre : Dict Bytes) × (r : Value) × (post : Dict Bytes) × ((before w).0 ≡ ok pre)
        × ((response method args w).0 ≡ ok r)
        × ((after method args w).0 ≡ ok post)
        × (observation_from_view_response
              (str method)
              (bytes args)
              r
              (dict (as_mapping pre))
              (dict (as_mapping post))
            ≡ ok o)
  unfolding observe_view
  observe_view_parts method args w o h =
      go (before w).0 (response method args w).0 (after method args w).0 refl refl refl
    where
      go :
          (a : Result Exc (Dict Bytes)) (b : Result Exc Value) (d : Result Exc (Dict Bytes))
          → (before w).0 ≡ a
          → (response method args w).0 ≡ b
          → (after method args w).0 ≡ d
          → (pre : Dict Bytes) × (r : Value) × (post : Dict Bytes) × ((before w).0 ≡ ok pre)
            × ((response method args w).0 ≡ ok r)
            × ((after method args w).0 ≡ ok post)
            × (observation_from_view_response
                  (str method)
                  (bytes args)
                  r
                  (dict (as_mapping pre))
                  (dict (as_mapping post))
                ≡ ok o)
      go (ok a) (ok b) (ok d) p q r = (a, b, d, p, q, r, ground (arith, p, q, r))
      go (err e) _ _ p q r = absurd (ground (arith, p))
      go (ok a) (err e) _ p q r = absurd (ground (arith, p, q))
      go (ok a) (ok b) (err e) p q r = absurd (ground (arith, p, q, r))

  -- A view that is observed and passes the check took no input, answered with an object whose
  -- `result` is the array of the expected bytes and whose `logs` is empty, between two state
  -- queries that gave the same storage; the number is the little-endian value of those bytes.
  pub observe_view_checked :
      (method : Text) (args : Bytes) (w : E.World) (o : CallObservation) (expected : Bytes) (n : ℕ)
      → (observe_view E c method args w).0 ≡ ok o
      → require_nullary_uint64_view o method expected ≡ ok n
      → (args ≡ [])
        × ((before w).0 ≡ ok o.pre)
        × ((after method args w).0 ≡ ok o.post)
        × ((k : Text) → lookup k o.pre ≡ lookup k o.post)
        × (n ≡ from_le expected)
        × ((d : Entries) × ((response method args w).0 ≡ ok (dict d))
            × (get (codes "result") d ≡ some (list (byte_items expected)))
            × (get (codes "logs") d ≡ some (list nil)))
  observe_view_checked method args w o expected n h k =
      let (pre, r, post, hp, hr, hq, adapted) = observe_view_parts method args w o h in
      let v = (observation_from_view_response_iff (str method) (bytes args) r _ _ o).0 adapted in
      let up = view_state_values-NodupKeys none w pre hp in
      let uq = view_state_values-NodupKeys none _ post hq in
      let same_pre : pre ≡ o.pre = cc (storage_copy-as_mapping pre_storage pre up, v.pre_copy) in
      let same_post : post ≡ o.post =
        cc (storage_copy-as_mapping post_storage post uq, v.post_copy) in
      let (exact, value) =
        (require_nullary_uint64_view_iff o method expected n (rw (← same_pre) up)
            (rw (← same_post) uq)).0
          k in
      let ret : v.returned ≡ expected = cc (v.return_data, exact.returned) in
      let no_texts : v.texts ≡ [] = texts-nil v.texts (v.log_bytes ∙ ap (map some) exact.no_logs) in
      let input : bytes args ≡ bytes [] = v.input_bytes ∙ ap bytes exact.nullary in
      (
        cc input,
        hp ∙ ap ok same_pre,
        hq ∙ ap ok same_post,
        exact.same_storage,
        value,
        (
          v.fields,
          hr ∙ ap ok v.object,
          v.result ∙ ap (λ b. some (list (byte_items b))) ret,
          v.log_texts ∙ ap (λ t. some (list (text_items t))) no_texts,
        ),
      )
