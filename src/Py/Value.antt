-- ===== src/Py/Value.antt =====
-- The dynamic values that the sources take apart: what `json.loads` gives, and `bytes`. Floats are
-- not among them.
use proof_forge_near.Prelude.{Bool, true, false, Option, none, some, List, [], ◌∷◌, if◌then◌else◌}
use proof_forge_near.Prelude.{Text, Bytes, text_eq}
use proof_forge_near.Py.Int.{ℤ}

mutual
  pub data Value : Type 0 where
    null : Value
    bool : Bool → Value
    int : ℤ → Value
    str : Text → Value
    bytes : Bytes → Value
    list : Items → Value
    dict : Entries → Value

  pub data Items : Type 0 where
    nil : Items
    item : Value → Items → Items

  pub data Entries : Type 0 where
    end : Entries
    entry : Value → Value → Entries → Entries

-- Whether a key is the `str` that is asked for.
unfoldable pub is_key : Text → Value → Bool
unfolding text_eq
is_key k (str j) = text_eq j k
is_key k null = false
is_key k (bool b) = false
is_key k (int n) = false
is_key k (bytes b) = false
is_key k (list xs) = false
is_key k (dict d) = false

-- `d.get(k)` for a `str` key.
unfoldable pub get : Text → Entries → Option Value
unfolding is_key
get k end = none
get k (entry j v d) = if is_key k j then some v else get k d

-- `k in d`
unfoldable pub has_key : Text → Entries → Bool
unfolding get
has_key k d = elim (get k d) [ none ↦ false | some v ↦ true ]

-- A snapshot as the mapping that the adapter is given.
abbrev pub as_mapping : List (Bytes × Bytes) → Entries
as_mapping [] = end
as_mapping ((k, v) ∷ rows) = entry (bytes k) (bytes v) (as_mapping rows)

-- One of the values is the given one.
pub data Among (v : Value) : Items → Type 0 where
  first : {rest : Items} → Among v (item v rest)
  later : {x : Value} {rest : Items} → Among v rest → Among v (item x rest)
