-- ===== src/Suites/JsonMessage.antt =====
-- runtime-tests/near/json_message_input.py: a UTF-8 text of at most 64 bytes as a contract's JSON argument.
use proof_forge_near.Prelude.{List, [], ◌∷◌, ◌++◌, ◌==◌, Bytes, codes, length}
use proof_forge_near.Rpc.Env.{Env, Client}
use proof_forge_near.Suites.Play.{Suite, ◌>>◌, assert}
use proof_forge_near.Py.Decimal.{decimal}
use proof_forge_near.Suites.Bytes.{repeat, ljust}
use proof_forge_near.Suites.Matrix.{Fields, word_fields, commit, play}

unfoldable pub wire : Bytes → Bytes
wire value = codes "{\"msg\":\"" ++ (value ++ codes "\"}")

-- What the views return for a message, by `_expect`.
unfoldable pub message_fields : Bytes → Fields
unfolding word_fields ljust
message_fields decoded =
    (codes "messageLength", length decoded) ∷ word_fields (codes "messageW") 8 0 (ljust 64 decoded)

abbrev pub asymmetric : Bytes
asymmetric = codes "01234567ABCDEFGHijklmnopQRSTUVWXyzabcdefGHIJKLMNopqrstuv89uvwxyz"

unfoldable pub ws32 : Bytes
unfolding repeat wire
ws32 = repeat 32 (codes " ") ++ wire []

unfoldable pub max_wire : Bytes
unfolding repeat wire
max_wire = repeat 32 (codes " ") ++ wire (repeat 64 (codes "\\u0061"))

unfoldable pub accepted : List (Bytes × Fields)
unfolding wire message_fields ws32 max_wire repeat
accepted =
    (wire [], message_fields [])
    ∷ (wire (codes "12345678Z"), message_fields (codes "12345678Z"))
    ∷ (wire (codes "abcdefghABCDEFGH"), message_fields (codes "abcdefghABCDEFGH"))
    ∷ (wire (codes "a\\\"b\\\\c\\/d"), message_fields (codes "a\"b\\c/d"))
    ∷ (wire (codes "\\b\\f\\n\\r\\t\\u0000"), message_fields (8 ∷ 12 ∷ 10 ∷ 13 ∷ 9 ∷ 0 ∷ []))
    ∷ (wire (195 ∷ 169 ∷ 233 ∷ 155 ∷ 170 ∷ []), message_fields (195 ∷ 169 ∷ 233 ∷ 155 ∷ 170 ∷ []))
    ∷ (wire (codes "\\u00e9\\u96ea"), message_fields (195 ∷ 169 ∷ 233 ∷ 155 ∷ 170 ∷ []))
    ∷ (wire (codes "\\u00Ea\\u96EA"), message_fields (195 ∷ 170 ∷ 233 ∷ 155 ∷ 170 ∷ []))
    ∷ (wire (codes "\\ud83d\\ude00"), message_fields (240 ∷ 159 ∷ 152 ∷ 128 ∷ []))
    ∷ (wire (codes "\\udbff\\udfff"), message_fields (244 ∷ 143 ∷ 191 ∷ 191 ∷ []))
    ∷ (wire (127 ∷ []), message_fields (127 ∷ []))
    ∷ (wire (repeat 64 (codes " ")), message_fields (repeat 64 (codes " ")))
    ∷ (
      wire (repeat 60 (codes "a") ++ (240 ∷ 159 ∷ 152 ∷ 128 ∷ [])),
      message_fields (repeat 60 (codes "a") ++ (240 ∷ 159 ∷ 152 ∷ 128 ∷ [])),
    )
    ∷ (
      wire (repeat 63 (codes "a") ++ codes "\\u0000"),
      message_fields (repeat 63 (codes "a") ++ (0 ∷ [])),
    )
    ∷ (wire asymmetric, message_fields asymmetric)
    ∷ (
      wire (repeat 63 (codes "a") ++ codes "z"),
      message_fields (repeat 63 (codes "a") ++ codes "z"),
    )
    ∷ (ws32, message_fields [])
    ∷ (max_wire, message_fields (repeat 64 (codes "a")))
    ∷ []

-- The wires of `invalid`.
unfoldable pub invalid : List Bytes
unfolding wire repeat decimal
invalid =
    []
    ∷ codes "{}"
    ∷ codes "{\"msg\":null}"
    ∷ codes "{\"msg\":1}"
    ∷ codes "{\"other\":\"\"}"
    ∷ codes "{\"msg\":\"\",\"msg\":\"\"}"
    ∷ codes "{\"msg\":\"\",\"other\":0}"
    ∷ codes "{\"m\\u0073g\":\"\"}"
    ∷ codes "{\"msg\":\"\"}0"
    ∷ wire (repeat 65 (codes "a"))
    ∷ wire (repeat 65 (codes "\\u0061"))
    ∷ (wire (repeat 61 (codes "a") ++ (240 ∷ 159 ∷ 152 ∷ 128 ∷ [])))
    ∷ (wire (repeat 63 (codes "a") ++ codes "\\ud83d\\ude00"))
    ∷ (wire (codes "a" ++ (1 ∷ codes "b")))
    ∷ wire (codes "\\q")
    ∷ wire (codes "\\u00xz")
    ∷ wire (codes "\\ud83d")
    ∷ wire (codes "\\ud800\\ud800")
    ∷ wire (codes "\\ude00")
    ∷ wire (codes "\\ude00\\ud83d")
    ∷ wire (codes "\\ud83d\\u0041")
    ∷ wire (255 ∷ [])
    ∷ wire (192 ∷ 128 ∷ [])
    ∷ wire (237 ∷ 160 ∷ 128 ∷ [])
    ∷ wire (244 ∷ 144 ∷ 128 ∷ 128 ∷ [])
    ∷ wire (226 ∷ 130 ∷ [])
    ∷ wire (128 ∷ [])
    ∷ (repeat 33 (codes " ") ++ wire [])
    ∷ repeat 427 (codes "x")
    ∷ []

module _ (E : Env) (c : Client) where
  -- The suite, after its environment variables are read.
  unfoldable pub main : Bytes → Suite E.World (Unit {0})
  unfolding play commit
  main code =
      play E c code 0 accepted
        (do
          assert (length asymmetric == 64)
          assert (length max_wire == 426)
          commit E c (codes "commitLength")
              (wire (195 ∷ 169 ∷ 233 ∷ 155 ∷ 170 ∷ 240 ∷ 159 ∷ 152 ∷ 128 ∷ [])) 9)
        (codes "messageLength") invalid
