-- ===== src/Suites/Receipts/Actions.antt =====
-- The actions of a receipt that pay an amount.
use proof_forge_near.Prelude.{
  ◌≡◌, refl, ap, ◌∙◌, Bool, true, false, Option, none, some, Text, text_eq_iff, arith,
}
use proof_forge_near.Py.Result.{Result, ok, then-ok}
use proof_forge_near.Py.Int.{ℤ, pos, negsuc}
use proof_forge_near.Py.Value.{
  Value, null, bool, int, str, bytes, list, dict, Items, nil, item, Entries, Among, first, later,
}
use proof_forge_near.Rpc.Exc.{Exc}
use proof_forge_near.Suites.Receipts.{transferred, int_eq, pays, any_pays, is_text, when}

-- An action of the list is an object whose transfer has exactly the amount.
unfoldable pub PaidIn : (Text → Option ℤ) → ℤ → Items → Type 0
PaidIn parse amount actions =
    (a : Entries) × Among (dict a) actions × (transferred parse (dict a) ≡ ok amount)

int_eq_sound : (a b : ℤ) → int_eq a b ≡ true → a ≡ b
unfolding int_eq
int_eq_sound (pos a) (pos b) e = ap pos (ground (arith, e))
int_eq_sound (pos a) (negsuc b) e = cc
int_eq_sound (negsuc a) (pos b) e = cc
int_eq_sound (negsuc a) (negsuc b) e = ap negsuc (ground (arith, e))

pays_sound :
    (parse : Text → Option ℤ) (amount : ℤ) (action : Value)
    → pays parse amount action ≡ ok true
    → (a : Entries) × (action ≡ dict a) × (transferred parse (dict a) ≡ ok amount)
unfolding pays
pays_sound parse amount (dict a) e =
    let (n, known, same) =
      then-ok (transferred parse (dict a)) (λ n. ok (int_eq n amount)) true e in
    (a, refl, known ∙ ap ok (int_eq_sound n amount (cc same)))
pays_sound parse amount null e = cc
pays_sound parse amount (bool b) e = cc
pays_sound parse amount (int n) e = cc
pays_sound parse amount (str t) e = cc
pays_sound parse amount (bytes b) e = cc
pays_sound parse amount (list xs) e = cc

abbrev go_on_with : (Text → Option ℤ) → ℤ → Items → Bool → Result Exc Bool
go_on_with parse amount rest p = elim p [ true ↦ ok true | false ↦ any_pays parse amount rest ]

pub any_pays_sound :
    (parse : Text → Option ℤ) (amount : ℤ) (actions : Items)
    → any_pays parse amount actions ≡ ok true
    → PaidIn parse amount actions
unfolding any_pays PaidIn
any_pays_sound parse amount nil e = cc
any_pays_sound parse amount (item action rest) e =
    let (p, known, more) =
      then-ok (pays parse amount action) (go_on_with parse amount rest) true e in
    onward (any_pays_sound parse amount rest) p known more
  where
    onward :
        (any_pays parse amount rest ≡ ok true → PaidIn parse amount rest)
        → (p : Bool) → pays parse amount action ≡ ok p
        → go_on_with parse amount rest p ≡ ok true
        → PaidIn parse amount (item action rest)
    onward behind true known more =
        let (a, same, paid) = pays_sound parse amount action known in (a, rw same first, paid)
    onward behind false known more = let (a, among, paid) = behind more in (a, later among, paid)

pub is_text_sound : (o : Option Value) (t : Text) → is_text o t ≡ true → o ≡ some (str t)
unfolding is_text
is_text_sound none t e = cc
is_text_sound (some (str s)) t e = let same = (text_eq_iff s t).0 e in rw same refl
is_text_sound (some null) t e = cc
is_text_sound (some (bool b)) t e = cc
is_text_sound (some (int n)) t e = cc
is_text_sound (some (bytes b)) t e = cc
is_text_sound (some (list xs)) t e = cc
is_text_sound (some (dict d)) t e = cc

pub when-true : (b : Bool) (r : Result Exc Bool) → when b r ≡ ok true → (b ≡ true) × (r ≡ ok true)
when-true true r e = (refl, e)
when-true false r e = cc
