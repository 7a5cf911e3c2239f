-- ===== src/Suites/JsonDeposit.antt =====
-- runtime-tests/near/json_storage_deposit_input.py: an optional account and an optional Boolean as a contract's JSON arguments.
use proof_forge_near.Prelude.{ℕ, List, [], ◌∷◌, ◌++◌, ◌==◌, Bytes, codes, length}
use proof_forge_near.Rpc.Env.{Env, Client}
use proof_forge_near.Suites.Play.{Suite, ◌>>◌, assert}
use proof_forge_near.Suites.Bytes.{repeat, ljust}
use proof_forge_near.Suites.Matrix.{Fields, word_fields, prepare, accept_all, commit, roll_back}

-- What the views return for an account and a flag, by `_expect`.
unfoldable pub account_fields : ℕ → Bytes → ℕ → Fields
unfolding word_fields ljust
account_fields present account registration =
    (codes "inspectAccountPresent", present)
      ∷ (codes "inspectAccountLength", length account)
      ∷ word_fields (codes "inspectAccountW") 8 0 (ljust 64 account)
    ++ ((codes "inspectRegistrationOnly", registration) ∷ [])

abbrev max_account : Bytes
unfolding repeat
max_account = repeat 64 (codes "a")

unfoldable pub max_wire : Bytes
unfolding repeat
max_wire =
    repeat 32 (codes " ")
    ++ (codes "{\"account_id\":\""
        ++ (repeat 64 (codes "\\u0061") ++ codes "\",\"registration_only\":false}"))

unfoldable pub accepted : List (Bytes × Fields)
unfolding account_fields max_wire
accepted =
    (codes "{}", account_fields 0 [] 0)
    ∷ (codes "{\"account_id\":null}", account_fields 0 [] 0)
    ∷ (codes "{\"registration_only\":null}", account_fields 0 [] 0)
    ∷ (codes "{\"account_id\":null,\"registration_only\":null}", account_fields 0 [] 0)
    ∷ (codes "{\"registration_only\":false}", account_fields 0 [] 1)
    ∷ (codes "{\"registration_only\":true}", account_fields 0 [] 2)
    ∷ (codes "{\"account_id\":\"alice.near\"}", account_fields 1 (codes "alice.near") 0)
    ∷ (
      codes "{\"account_id\":\"a\\u006cice.near\",\"registration_only\":true}",
      account_fields 1 (codes "alice.near") 2,
    )
    ∷ (codes "{\"registration_only\":false,\"account_id\":\"aa\"}", account_fields 1 (codes "aa") 1)
    ∷ (max_wire, account_fields 1 max_account 1)
    ∷ []

-- The wires of `invalid`.
unfoldable pub invalid : List Bytes
unfolding repeat
invalid =
    []
    ∷ codes "null"
    ∷ codes "{\"account_id\":false}"
    ∷ codes "{\"registration_only\":0}"
    ∷ codes "{\"registration_only\":fals"
    ∷ codes "{\"registration_only\":tru"
    ∷ codes "{\"registration_only\":nul"
    ∷ codes "{\"account_id\":nul"
    ∷ codes "{\"account_id\":\"a\"}"
    ∷ (codes "{\"account_id\":\"" ++ (repeat 65 (codes "a") ++ codes "\"}"))
    ∷ codes "{\"account_id\":\"Alice.near\"}"
    ∷ codes "{\"account_id\":null,\"account_id\":null}"
    ∷ codes "{\"registration_only\":null,\"registration_only\":true}"
    ∷ codes "{\"unknown\":null}"
    ∷ codes "{\"account_id\":null,\"unknown\":0}"
    ∷ codes "{\"account\\u005fid\":null}"
    ∷ codes "{\"registration\\u005fonly\":true}"
    ∷ codes "{\"account_id\":null}0"
    ∷ codes "{\"account_id\":null,}"
    ∷ (repeat 33 (codes " ") ++ codes "{}")
    ∷ repeat 460 (codes "x")
    ∷ []

module _ (E : Env) (c : Client) where
  -- The suite, after its environment variables are read.
  unfoldable pub main : Bytes → Suite E.World (Unit {0})
  unfolding prepare accept_all commit roll_back account_fields
  main code = do
    prepare E c code 0
    accept_all E c accepted
    assert (length max_wire == 459)
    commit E c (codes "commitRegistrationOnly")
        (codes "{\"registration_only\":true,\"account_id\":\"zz\"}") 2
    roll_back E c (codes "inspectAccountPresent") invalid (codes "commitRegistrationOnly")
        (codes "{\"registration_only\":true,\"unknown\":0}")
    accept_all E c ((codes "{}", account_fields 0 [] 0) ∷ [])
