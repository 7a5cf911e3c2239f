-- ===== src/Suites/JsonUnregister.antt =====
-- runtime-tests/near/json_storage_unregister_input.py: an optional Boolean as a contract's JSON argument.
use proof_forge_near.Prelude.{ℕ, List, [], ◌∷◌, ◌++◌, ◌==◌, Bytes, codes, length}
use proof_forge_near.Rpc.Env.{Env, Client}
use proof_forge_near.Suites.Play.{Suite, ◌>>◌, assert}
use proof_forge_near.Suites.Bytes.{repeat}
use proof_forge_near.Suites.Matrix.{Fields, prepare, accept_all, commit, roll_back}

-- What the view returns for an absent or null flag, for false and for true, by `_expect`.
unfoldable pub force_fields : ℕ → Fields
force_fields expected = (codes "inspectForce", expected) ∷ []

unfoldable pub max_wire : Bytes
unfolding repeat
max_wire = repeat 32 (codes " ") ++ codes "{\"force\":false}"

unfoldable pub accepted : List (Bytes × Fields)
unfolding force_fields
accepted =
    (codes "{}", force_fields 0)
    ∷ (codes "{\"force\":null}", force_fields 0)
    ∷ (codes " { \"force\" : null } ", force_fields 0)
    ∷ (codes "{\"force\":false}", force_fields 1)
    ∷ (codes "{\"force\":true}", force_fields 2)
    ∷ []

-- The wires of `invalid`.
unfoldable pub invalid : List Bytes
unfolding repeat
invalid =
    []
    ∷ codes "null"
    ∷ codes "{\"force\":0}"
    ∷ codes "{\"force\":\"true\"}"
    ∷ codes "{\"force\":fals}"
    ∷ codes "{\"force\":tru}"
    ∷ codes "{\"force\":nul}"
    ∷ codes "{\"force\":true,\"force\":false}"
    ∷ codes "{\"unknown\":true}"
    ∷ codes "{\"force\":true,\"unknown\":null}"
    ∷ codes "{\"f\\u006frce\":true}"
    ∷ codes "{\"force\":true}0"
    ∷ codes "{\"force\":true,}"
    ∷ (repeat 33 (codes " ") ++ codes "{}")
    ∷ repeat 48 (codes "x")
    ∷ []

module _ (E : Env) (c : Client) where
  -- The suite, after its environment variables are read.
  unfoldable pub main : Bytes → Suite E.World (Unit {0})
  unfolding prepare accept_all commit roll_back force_fields
  main code = do
    prepare E c code 9
    accept_all E c accepted
    assert (length max_wire == 47)
    accept_all E c ((max_wire, force_fields 1) ∷ [])
    commit E c (codes "commitForce") (codes "{\"force\":true}") 2
    roll_back E c (codes "inspectForce") invalid (codes "commitForce")
        (codes "{\"force\":false,\"unknown\":null}")
    accept_all E c ((codes "{}", force_fields 0) ∷ (codes "{\"force\":true}", force_fields 2) ∷ [])
