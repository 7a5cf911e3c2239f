-- ===== src/Rpc/Dynamic.antt =====
-- What near_rpc.py does with values of unknown type: truth, `.get`, `in`, subscripts, iteration,
-- `int(...)` and `bytes(...)`.
use proof_forge_near.Prelude.{
  ℕ, ◌-◌, ◌^◌, ltb, ◌==◌, Bool, true, false, ◌||◌, Option, none, some, List, [], ◌∷◌, if◌then◌else◌,
  leb, Text, Bytes, replicate, text_eq, has_substring,
}
use proof_forge_near.Py.Result.{Result, ok, err, ◌>>=◌, ◌>>◌, or_raise, raise_if}
use proof_forge_near.Py.Int.{ℤ, pos, negsuc}
use proof_forge_near.Py.Value.{
  Value, null, bool, int, str, bytes, list, dict, Items, nil, item, Entries, end, entry, get,
  has_key,
}
use proof_forge_near.Rpc.Exc.{
  Exc, value_error, key_error, type_error, attribute_error, overflow_error,
}

-- `bool(v)`
unfoldable pub truthy : Value → Bool
truthy null = false
truthy (bool b) = b
truthy (int n) = elim n [
  | pos m ↦ (elim (m == 0) [ true ↦ false | false ↦ true ])
  | negsuc m ↦ true
]
truthy (str t) = elim t [ [] ↦ false | c ∷ r ↦ true ]
truthy (bytes b) = elim b [ [] ↦ false | c ∷ r ↦ true ]
truthy (list xs) = elim xs [ nil ↦ false | item x r ↦ true ]
truthy (dict d) = elim d [ end ↦ false | entry k v r ↦ true ]

abbrev pub truthy? : Option Value → Bool
truthy? none = false
truthy? (some v) = truthy v

abbrev pub or_default : Option Value → Value → Value
or_default none d = d
or_default (some v) d = v

-- `v.get(k)`, `v.get(k, default)`: only a dict has the method.
unfoldable pub get_or_none : Text → Value → Result Exc (Option Value)
get_or_none k (dict d) = ok (get k d)
get_or_none k v = err attribute_error

unfoldable pub get_or_default : Text → Value → Value → Result Exc Value
unfolding get_or_none
get_or_default k default v = do found ← get_or_none k v; ok (or_default found default)

-- `v[k]` for a `str` key: a KeyError for a dict without it, a TypeError for other values.
unfoldable pub subscript : Text → Value → Result Exc Value
subscript k (dict d) = or_raise (get k d) key_error
subscript k v = err type_error

has_item : Text → Items → Bool
has_item k nil = false
has_item k (item (str t) rest) = text_eq t k || has_item k rest
has_item k (item v rest) = has_item k rest

-- `k in v` for a `str`
unfoldable pub contains : Text → Value → Result Exc Bool
unfolding has_substring has_item
contains k (dict d) = ok (has_key k d)
contains k (list xs) = ok (has_item k xs)
contains k (str t) = ok (has_substring k t)
contains k v = err type_error

keys_of : Entries → Items
keys_of end = nil
keys_of (entry k v rest) = item k (keys_of rest)

chars_of : Text → Items
chars_of [] = nil
chars_of (c ∷ text) = item (str (c ∷ [])) (chars_of text)

bytes_of : Bytes → Items
bytes_of [] = nil
bytes_of (b ∷ bs) = item (int (pos b)) (bytes_of bs)

-- `for x in v`
unfoldable pub iterate : Value → Result Exc Items
unfolding keys_of chars_of bytes_of
iterate (list xs) = ok xs
iterate (dict d) = ok (keys_of d)
iterate (str t) = ok (chars_of t)
iterate (bytes b) = ok (bytes_of b)
iterate v = err type_error

-- `int(v)`, where `parse` is `int` of a text.
unfoldable pub to_int : (Text → Option ℤ) → Value → Result Exc ℤ
to_int parse (int n) = ok n
to_int parse (bool b) = ok (if b then pos 1 else pos 0)
to_int parse (str t) = or_raise (parse t) value_error
to_int parse (bytes b) = or_raise (parse b) value_error
to_int parse v = err type_error

item_bytes : Items → Result Exc Bytes
item_bytes nil = ok []
item_bytes (item (int (pos n)) rest) = do
  raise_if (leb 256 n) value_error
  more ← item_bytes rest
  ok (n ∷ more)
item_bytes (item (int (negsuc n)) rest) = err value_error
item_bytes (item (bool b) rest) = do more ← item_bytes rest; ok ((if b then 1 else 0) ∷ more)
item_bytes (item v rest) = err type_error

-- CPython on 64 bits has no longer `bytes`.
abbrev pub max_bytes : ℕ
max_bytes = 2 ^ 63 - 34

-- `bytes(n)` of an integer: that many zeros. A number that is no index, or whose zeros no `bytes` can
-- hold, raises `OverflowError`. The zeros of a smaller number are taken to fit in memory.
unfoldable pub zeros_of : ℤ → Result Exc Bytes
zeros_of (pos n) = if ltb max_bytes n then err overflow_error else ok (replicate n 0)
zeros_of (negsuc n) = if ltb n (2 ^ 63) then err value_error else err overflow_error

-- `bytes(v)`
unfoldable pub to_bytes : Value → Result Exc Bytes
unfolding item_bytes keys_of zeros_of
to_bytes (list xs) = item_bytes xs
to_bytes (dict d) = item_bytes (keys_of d)
to_bytes (bytes b) = ok b
to_bytes (int n) = zeros_of n
to_bytes (bool b) = ok (replicate (if b then 1 else 0) 0)
to_bytes (str t) = err type_error
to_bytes null = err type_error

-- A JSON object that the source writes out.
abbrev pub object : List (Text × Value) → Entries
object [] = end
object ((k, v) ∷ rest) = entry (str k) v (object rest)
