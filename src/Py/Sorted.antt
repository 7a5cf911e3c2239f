-- ===== src/Py/Sorted.antt =====
-- `sorted(set(texts))`, by code points.
use proof_forge_near.Prelude.{
  ◌≡◌, refl, Bool, true, false, ◌&&◌, ◌||◌, List, [], ◌∷◌, ◌==◌, ltb, arith, if◌then◌else◌, Text,
  text_eq, text_eq_iff, mem,
}

-- `a < b` of two texts.
text_less : Text → Text → Bool
text_less xs [] = false
text_less [] (y ∷ ys) = true
text_less (x ∷ xs) (y ∷ ys) = ltb x y || (x == y && text_less xs ys)

insert_sorted : Text → List Text → List Text
unfolding text_less
insert_sorted x [] = x ∷ []
insert_sorted x (y ∷ ys) =
    if text_eq x y then y ∷ ys else if text_less x y then x ∷ y ∷ ys else y ∷ insert_sorted x ys

unfoldable pub sorted_set : List Text → List Text
unfolding insert_sorted
sorted_set [] = []
sorted_set (x ∷ xs) = insert_sorted x (sorted_set xs)

mem-insert_sorted :
    (k x : Text) (ys : List Text) → mem k (insert_sorted x ys) ≡ (text_eq k x || mem k ys)
unfolding insert_sorted mem
mem-insert_sorted k x [] = refl
mem-insert_sorted k x (y ∷ ys) =
    ground (arith, mem-insert_sorted k x ys, text_eq_iff x y, text_eq_iff k x, text_eq_iff k y)

-- Sorting loses no text and makes none up.
pub mem-sorted_set : (k : Text) (xs : List Text) → mem k (sorted_set xs) ≡ mem k xs
unfolding sorted_set mem
mem-sorted_set k [] = refl
mem-sorted_set k (x ∷ xs) =
    ground (arith, mem-insert_sorted k x (sorted_set xs), mem-sorted_set k xs)
