-- ===== src/Suites/JsonAccount.antt =====
-- runtime-tests/near/json_account_input.py: an account name as a contract's JSON argument.
use proof_forge_near.Prelude.{ℕ, ◌*◌, List, [], ◌∷◌, ◌++◌, ◌==◌, Text, Bytes, codes, length}
use proof_forge_near.Py.Bytes.{from_le, slice}
use proof_forge_near.Rpc.Env.{Env, Client}
use proof_forge_near.Suites.Play.{Suite, ◌>>◌, assert}
use proof_forge_near.Py.Decimal.{decimal}
use proof_forge_near.Suites.Bytes.{repeat, count_space, ljust}
use proof_forge_near.Suites.Matrix.{Fields, word_fields, play}

unfoldable pub wire : Bytes → Bytes
wire value = codes "{\"account_id\":\"" ++ (value ++ codes "\"}")

abbrev pub maximum : Bytes
maximum = codes "abcdefgh01234567ijklmnop89abcdefqrstuvwx76543210yzabcdef01234567"

-- `_word`
unfoldable pub word : Bytes → ℕ → ℕ
unfolding ljust from_le
word value index = from_le (ljust 8 (slice (index * 8) 8 value))

abbrev length_field : ℕ → Text × ℕ
length_field n = (codes "accountLength", n)

unfoldable pub whitespace_32 : Bytes
unfolding repeat
whitespace_32 =
    repeat 5 (codes " ")
    ++ (codes "{"
        ++ (repeat 5 (9 ∷ [])
            ++ (codes "\"account_id\""
                ++ (repeat 5 (10 ∷ [])
                    ++ (codes ":"
                        ++ (repeat 5 (13 ∷ [])
                            ++ (codes "\"aa\""
                                ++ (repeat 5 (codes " ")
                                    ++ (codes "}" ++ (repeat 7 (9 ∷ [])))))))))))

unfoldable pub max_wire : Bytes
unfolding repeat wire
max_wire = repeat 32 (codes " ") ++ wire (repeat 64 (codes "\\u0061"))

-- The words of an account that fills its frame.
words : Bytes → Fields
unfolding word_fields
words value = word_fields (codes "accountW") 8 0 value

unfoldable pub accepted : List (Bytes × Fields)
unfolding wire word words whitespace_32 max_wire repeat ljust
accepted =
    (
      wire (codes "aa"),
      length_field 2
          ∷ (codes "accountW0", word (codes "aa") 0)
          ∷ word_fields (codes "accountW") 7 1 (ljust 64 []),
    )
    ∷ (wire maximum, length_field 64 ∷ words maximum)
    ∷ (
      codes "{\"account_id\":\"a\\u0062\\u002ecd\"}",
      length_field 5 ∷ (codes "accountW0", word (codes "ab.cd") 0) ∷ [],
    )
    ∷ (codes "{\"account_id\":\"\\u006A\\u006b\"}", (codes "accountW0", word (codes "jk") 0) ∷ [])
    ∷ (whitespace_32, length_field 2 ∷ [])
    ∷ (max_wire, length_field 64 ∷ words (repeat 64 (codes "a")))
    ∷ []

-- The wires of `invalid`.
unfoldable pub invalid : List Bytes
unfolding wire repeat decimal
invalid =
    []
    ∷ wire []
    ∷ wire (codes "a")
    ∷ wire (repeat 65 (codes "a"))
    ∷ wire (codes "Aa")
    ∷ wire (codes "-aa")
    ∷ wire (codes "aa_")
    ∷ wire (codes "aa.-bb")
    ∷ wire (codes "a/b")
    ∷ codes "{\"account_id\":\"a\\q\"}"
    ∷ codes "{\"account_id\":\"a\\\"}"
    ∷ codes "{\"account_id\":\"a\\u00xz\"}"
    ∷ codes "{\"account_id\":\"a\\u0080\"}"
    ∷ codes "{\"account_id\":\"a\\ud800\"}"
    ∷ ((codes "{\"account_id\":\"a" ++ (1 ∷ codes "b\"}")))
    ∷ ((codes "{\"account_id\":\"a" ++ (195 ∷ 169 ∷ codes "\"}")))
    ∷ ((codes "{\"account_id\":\"" ++ (255 ∷ codes "a\"}")))
    ∷ codes "{}"
    ∷ codes "{\"other\":\"aa\"}"
    ∷ codes "{\"account\\u005fid\":\"aa\"}"
    ∷ codes "{\"account_id\":7}"
    ∷ codes "{\"account_id\":\"aa\",\"account_id\":\"bb\"}"
    ∷ codes "{\"account_id\":\"aa\",\"other\":0}"
    ∷ codes "{\"account_id\":\"aa\"}0"
    ∷ (repeat 33 (codes " ") ++ wire (codes "aa"))
    ∷ repeat 434 (codes "x")
    ∷ []

module _ (E : Env) (c : Client) where
  -- The suite, after its environment variables are read.
  unfoldable pub main : Bytes → Suite E.World (Unit {0})
  unfolding play
  main code =
      play E c code 0 accepted
        (do
          assert (length maximum == 64)
          assert (count_space whitespace_32 == 32)
          assert (length max_wire == 433))
        (codes "accountLength") invalid
