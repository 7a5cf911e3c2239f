-- ===== src/Suites/TreeMap.antt =====
-- runtime-tests/near/treemap.py: a sorted map that grows at its largest key.
use proof_forge_near.Prelude.{ℕ, true, [], ◌∷◌, if◌then◌else◌, Bytes, codes}
use proof_forge_near.Py.Int.{pos}
use proof_forge_near.Py.Value.{Value}
use proof_forge_near.Rpc.Env.{Env, Client}
use proof_forge_near.Rpc.Wire.{encode_u64_le}
use proof_forge_near.Rpc.Send.{call}
use proof_forge_near.Suites.Play.{Suite, ◌>>=◌, ◌>>◌, each, pass, refused}
use proof_forge_near.Suites.Matrix.{prepare, default_gas}
use proof_forge_near.Suites.Scene.{view_is, view_word_is, call_with}
use proof_forge_near.Rpc.Exec.{Exec, lift, ◌>>=◌ as ◌then◌}

module _ (E : Env) (c : Client) where
  puts : ℕ → ℕ → Suite E.World (Unit {0})
  unfolding call_with
  puts key value = do
    put ← call_with E c (codes "putKey") key
    set ← call_with E c (codes "putValue") value
    pass

  -- The two calls of a put of which one must be refused.
  put_calls : ℕ → ℕ → Exec E.World Value
  put_calls key value = lift (encode_u64_le (pos key)) then λ k.
      call E c (codes "putKey") k true default_gas (pos 0) then λ put.
      lift (encode_u64_le (pos value)) then λ v.
      call E c (codes "putValue") v true default_gas (pos 0)

  -- A put that must be refused, and the length behind it.
  put_refused : ℕ → ℕ → ℕ → Suite E.World (Unit {0})
  unfolding refused put_calls view_is
  put_refused key value len = do refused (put_calls key value); view_is E c (codes "get") [] len

  put_scene : Suite E.World (Unit {0})
  unfolding view_is puts
  put_scene = do
    view_is E c (codes "get") [] 0
    puts 5 500
    puts 20 2000
    puts 100 10000
    view_is E c (codes "get") [] 3

  read_scene : Suite E.World (Unit {0})
  unfolding each view_word_is
  read_scene = do
    each (λ key. view_word_is E c (codes "has") key 1) (5 ∷ 20 ∷ 100 ∷ [])
    view_word_is E c (codes "has") 7 0
    view_word_is E c (codes "getValue") 20 2000
    view_word_is E c (codes "keyAt") 0 5
    view_word_is E c (codes "keyAt") 1 20
    view_word_is E c (codes "keyAt") 2 100
    view_word_is E c (codes "keyAt") 3 0

  removal_scene : Suite E.World (Unit {0})
  unfolding put_refused call_with view_is view_word_is
  removal_scene = do
    put_refused 20 9999 3
    removed ← call_with E c (codes "removeTail") 100
    view_is E c (codes "get") [] 2
    view_word_is E c (codes "has") 100 0
    put_refused 7 777 2

  unfoldable pub main : Bytes → Suite E.World (Unit {0})
  unfolding prepare put_scene read_scene removal_scene
  main wasm = do prepare E c wasm 0; put_scene; read_scene; removal_scene
