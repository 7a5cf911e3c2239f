-- ===== src/Suites/JsonMemo.antt =====
-- runtime-tests/near/json_memo_input.py: an optional UTF-8 text of at most 16 bytes as a contract's JSON argument.
use proof_forge_near.Prelude.{ℕ, List, [], ◌∷◌, ◌++◌, ◌==◌, Bytes, codes, length, take, drop}
use proof_forge_near.Py.Bytes.{from_le}
use proof_forge_near.Rpc.Env.{Env, Client}
use proof_forge_near.Suites.Play.{Suite, ◌>>◌, assert}
use proof_forge_near.Py.Decimal.{decimal}
use proof_forge_near.Suites.Bytes.{repeat, ljust}
use proof_forge_near.Suites.Matrix.{Fields, commit, play}

unfoldable pub wire : Bytes → Bytes
wire value = codes "{\"memo\":\"" ++ (value ++ codes "\"}")

-- What the views return for a memo, by `_expect`.
unfoldable pub memo_fields : ℕ → Bytes → Fields
unfolding ljust
memo_fields present decoded =
    let padded = ljust 16 decoded in
    (codes "memoPresent", present)
    ∷ (codes "memoLength", length decoded)
    ∷ (codes "memoW0", from_le (take 8 padded))
    ∷ (codes "memoW1", from_le (drop 8 padded))
    ∷ []

unfoldable pub structural_ws_32 : Bytes
unfolding repeat
structural_ws_32 =
    repeat 5 (codes " ")
    ++ (codes "{"
        ++ (repeat 5 (9 ∷ [])
            ++ (codes "\"memo\""
                ++ (repeat 5 (10 ∷ [])
                    ++ (codes ":"
                        ++ (repeat 5 (13 ∷ [])
                            ++ (codes "\""
                                ++ (repeat 16 (codes " ")
                                    ++ (codes "\""
                                        ++ (repeat 5 (codes " ")
                                            ++ (codes "}" ++ (repeat 7 (9 ∷ [])))))))))))))

unfoldable pub max_wire : Bytes
unfolding repeat wire
max_wire = repeat 32 (codes " ") ++ wire (repeat 16 (codes "\\u0061"))

unfoldable pub accepted : List (Bytes × Fields)
unfolding wire memo_fields structural_ws_32 max_wire repeat
accepted =
    (codes "{}", memo_fields 0 [])
    ∷ (codes "{\"memo\":null}", memo_fields 0 [])
    ∷ (wire [], memo_fields 1 [])
    ∷ (wire (codes "a\\\"b\\\\c\\/d"), memo_fields 1 (codes "a\"b\\c/d"))
    ∷ (wire (codes "\\b\\f\\n\\r\\t\\u0000"), memo_fields 1 (8 ∷ 12 ∷ 10 ∷ 13 ∷ 9 ∷ 0 ∷ []))
    ∷ (wire (195 ∷ 169 ∷ 233 ∷ 155 ∷ 170 ∷ []), memo_fields 1 (195 ∷ 169 ∷ 233 ∷ 155 ∷ 170 ∷ []))
    ∷ (wire (codes "\\u00e9\\u96ea"), memo_fields 1 (195 ∷ 169 ∷ 233 ∷ 155 ∷ 170 ∷ []))
    ∷ (wire (codes "\\ud83d\\ude00"), memo_fields 1 (240 ∷ 159 ∷ 152 ∷ 128 ∷ []))
    ∷ (wire (codes "\\udbff\\udfff"), memo_fields 1 (244 ∷ 143 ∷ 191 ∷ 191 ∷ []))
    ∷ (wire (127 ∷ []), memo_fields 1 (127 ∷ []))
    ∷ (structural_ws_32, memo_fields 1 (repeat 16 (codes " ")))
    ∷ (max_wire, memo_fields 1 (repeat 16 (codes "a")))
    ∷ []

-- The wires of `invalid`.
unfoldable pub invalid : List Bytes
unfolding wire repeat decimal
invalid =
    []
    ∷ codes "null"
    ∷ codes "{\"memo\":1}"
    ∷ codes "{\"memo\":false}"
    ∷ codes "{\"other\":null}"
    ∷ codes "{\"memo\":null,\"memo\":null}"
    ∷ codes "{\"memo\":null,\"other\":0}"
    ∷ codes "{\"m\\u0065mo\":null}"
    ∷ codes "{\"memo\":null}0"
    ∷ wire (repeat 17 (codes "a"))
    ∷ wire (repeat 17 (codes "\\u0061"))
    ∷ (wire (codes "a" ++ (1 ∷ codes "b")))
    ∷ wire (codes "\\q")
    ∷ wire (codes "\\u00xz")
    ∷ wire (codes "\\ud83d")
    ∷ wire (codes "\\ud800\\ud800")
    ∷ wire (codes "\\ude00")
    ∷ wire (codes "\\ude00\\ud83d")
    ∷ wire (codes "\\ud83d\\u0041")
    ∷ wire (255 ∷ [])
    ∷ wire (192 ∷ 128 ∷ [])
    ∷ wire (237 ∷ 160 ∷ 128 ∷ [])
    ∷ wire (244 ∷ 144 ∷ 128 ∷ 128 ∷ [])
    ∷ wire (226 ∷ 130 ∷ [])
    ∷ wire (128 ∷ [])
    ∷ (repeat 33 (codes " ") ++ codes "{}")
    ∷ repeat 140 (codes "x")
    ∷ []

module _ (E : Env) (c : Client) where
  -- The suite, after its environment variables are read.
  unfoldable pub main : Bytes → Suite E.World (Unit {0})
  unfolding play commit
  main code =
      play E c code 0 accepted
        (do
          assert (length structural_ws_32 == 59)
          assert (length max_wire == 139)
          commit E c (codes "commitLength") (wire (195 ∷ 169 ∷ 233 ∷ 155 ∷ 170 ∷ [])) 5)
        (codes "memoPresent") invalid
