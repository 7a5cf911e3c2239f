-- ===== src/Suites/JsonObject.antt =====
-- What json_ft_transfer_input.py, json_ft_transfer_call_input.py, json_ft_on_transfer_input.py and
-- json_ft_resolve_input.py of runtime-tests/near share: objects with their fields in every order,
-- accounts and texts in a zeroed frame of 64 bytes, and amounts in two words.
pub mod Orders
use proof_forge_near.Prelude.{
  ℕ, zero, suc, ◌*◌, ◌/◌, ◌%◌, ◌^◌, false, List, [], ◌∷◌, ◌++◌, ◌==◌, map, Text, Bytes, codes,
  length,
}
use proof_forge_near.Py.Int.{pos}
use proof_forge_near.Rpc.Env.{Env, Client}
use proof_forge_near.Rpc.View.{view_u64}
use proof_forge_near.Rpc.Send.{call}
use proof_forge_near.Suites.Play.{Suite, ◌>>=◌, ◌>>◌, step, assert}
use proof_forge_near.Suites.Bytes.{ljust}
use proof_forge_near.Suites.Matrix.{Fields, word_fields, default_gas}

-- The name of a field and the JSON text of its value.
abbrev pub Field : Type 0
Field = Bytes × Bytes

-- `b'"' + text + b'"'`
unfoldable pub quoted : Bytes → Bytes
quoted text = b'"' ∷ (text ++ (b'"' ∷ []))

-- The fields of the suites whose value is a text.
unfoldable pub sender_id : Bytes → Field
unfolding quoted
sender_id text = (codes "sender_id", quoted text)

unfoldable pub receiver_id : Bytes → Field
unfolding quoted
receiver_id text = (codes "receiver_id", quoted text)

unfoldable pub amount_text : Bytes → Field
unfolding quoted
amount_text text = (codes "amount", quoted text)

unfoldable pub memo_text : Bytes → Field
unfolding quoted
memo_text text = (codes "memo", quoted text)

unfoldable pub msg : Bytes → Field
unfolding quoted
msg text = (codes "msg", quoted text)

abbrev pub field_text : Field → Bytes
unfolding quoted
field_text f = quoted f.0 ++ (b':' ∷ f.1)

-- `b",".join(... for key, value in fields)`
unfoldable pub fields_text : List Field → Bytes
fields_text [] = []
fields_text (f ∷ []) = field_text f
fields_text (f ∷ g ∷ fields) = field_text f ++ (b',' ∷ fields_text (g ∷ fields))

-- `_object(fields)`, without a prefix.
unfoldable pub object_text : List Field → Bytes
unfolding fields_text
object_text fields = b'{' ∷ (fields_text fields ++ (b'}' ∷ []))

-- Every member of a list with the others, in their order.
unfoldable pub picks {ℓ} : {A : Type ℓ} → List A → List (A × List A)
picks [] = []
picks (x ∷ xs) = (x, xs) ∷ map (λ p. (p.0, x ∷ p.1)) (picks xs)

unfoldable pub concat_map {ℓ κ} : {A : Type ℓ} {B : Type κ} → (A → List B) → List A → List B
concat_map f [] = []
concat_map f (x ∷ xs) = f x ++ concat_map f xs

-- The orders of `count` members.
unfoldable pub orders {ℓ} : {A : Type ℓ} → ℕ → List A → List (List A)
unfolding picks concat_map
orders zero xs = [] ∷ []
orders (suc count) xs = concat_map (λ p. map (λ rest. p.0 ∷ rest) (orders count p.1)) (picks xs)

-- `itertools.permutations(fields)`
unfoldable pub permutations {ℓ} : {A : Type ℓ} → List A → List (List A)
unfolding orders
permutations xs = orders (length xs) xs

-- The object of the fields in every order, and what the views return for it.
unfoldable pub in_every_order : List Field → Fields → List (Bytes × Fields)
unfolding permutations object_text
in_every_order fields expected = map (λ order. (object_text order, expected)) (permutations fields)

-- `_expect_account` and `_expect_words`
unfoldable pub measured : Text → Bytes → Fields
unfolding word_fields ljust
measured prefix value =
    (prefix ++ codes "Length", length value)
    ∷ word_fields (prefix ++ codes "W") 8 0 (ljust 64 value)

-- The low and the high word of an amount.
unfoldable pub halves : Text → ℕ → Fields
halves prefix amount =
    (prefix ++ codes "W0", amount % 2 ^ 64) ∷ (prefix ++ codes "W1", amount / 2 ^ 64) ∷ []

module _ (E : Env) (c : Client) where
  -- A call with a late failure is sent and changes nothing that `get` returns.
  unfoldable pub fails_late : Text → Bytes → ℕ → Suite E.World (Unit {0})
  fails_late method wire value = do
    failed ← step (call E c method wire false default_gas (pos 0))
    got ← step (view_u64 E c (codes "get") [])
    assert (got == value)
