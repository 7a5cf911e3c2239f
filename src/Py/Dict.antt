-- ===== src/Py/Dict.antt =====
-- Python's dicts with byte or text keys, in insertion order.
use proof_forge_near.Prelude.{
  ◌≡◌, ◌↔◌, refl, ap, sym, ◌∙◌, Bool-cases, inl, inr, Bool, true, false, ◌&&◌, Option, none, some,
  List, [], ◌∷◌, ◌++◌, arith, if◌then◌else◌, Text, text_eq, text_eq_iff,
}

abbrev pub Dict {ℓ} : Type ℓ → Type ℓ
Dict V = List (Text × V)

module _ {ℓ} {V : Type ℓ} where
  -- `d.get(k)`
  unfoldable pub lookup : Text → Dict V → Option V
  lookup k [] = none
  lookup k ((j, v) ∷ d) = if text_eq j k then some v else lookup k d

  -- `d[k] = v`
  unfoldable pub insert : Text → V → Dict V → Dict V
  insert k v [] = (k, v) ∷ []
  insert k v ((j, w) ∷ d) = if text_eq j k then (j, v) ∷ d else (j, w) ∷ insert k v d

  pub lookup-insert :
      (k j : Text) (v : V) (d : Dict V)
      → lookup j (insert k v d) ≡ (if text_eq k j then some v else lookup j d)
  unfolding lookup insert
  lookup-insert k j v [] = refl
  lookup-insert k j v ((i, w) ∷ d) =
      ground (arith, text_eq_iff k j, text_eq_iff i k, text_eq_iff i j, lookup-insert k j v d)

  -- No key twice.
  abbrev pub NodupKeys : Dict V → Type ℓ
  NodupKeys [] = Unit
  NodupKeys ((k, v) ∷ d) = (lookup k d ≡ none) × NodupKeys d

  pub insert-NodupKeys : (k : Text) (v : V) (d : Dict V) → NodupKeys d → NodupKeys (insert k v d)
  unfolding lookup insert
  insert-NodupKeys k v [] u = (refl, tt)
  insert-NodupKeys k v ((j, w) ∷ d) u =
      ground
        (arith, lookup-insert k j v d, insert-NodupKeys k v d u.1, text_eq_iff k j, text_eq_iff j k)

  pub insert-new :
      (k : Text) (v : V) (d : Dict V) → lookup k d ≡ none → insert k v d ≡ d ++ ((k, v) ∷ [])
  unfolding lookup insert
  insert-new k v [] h = refl
  insert-new k v ((j, w) ∷ d) h = ground (arith, insert-new k v d)

  pub lookup_middle :
      (k : Text) (v : V) (d e : Dict V) → NodupKeys (d ++ ((k, v) ∷ e)) → lookup k d ≡ none
  unfolding lookup
  lookup_middle k v [] e u = refl
  lookup_middle k v ((j, w) ∷ d) e u = elim (Bool-cases (text_eq j k)) [
    | inl same ↦ absurd (found d (rw ((text_eq_iff j k).0 same) at u.0))
    | inr other ↦ rw other (lookup_middle k v d e u.1)
  ]
    where
      found : (d : Dict V) → lookup k (d ++ ((k, v) ∷ e)) ≡ none → ⊥
      found [] h = ground (arith, text_eq_iff k k)
      found ((i, x) ∷ d) h = found d (ground arith)

-- `a == b` for dicts with byte values: each row of one is in the other.
holds : Option Text → Text → Bool
holds none v = false
holds (some w) v = text_eq w v

rows_in : Dict Text → Dict Text → Bool
unfolding holds
rows_in [] b = true
rows_in ((k, v) ∷ a) b = holds (lookup k b) v && rows_in a b

unfoldable pub dict_eq : Dict Text → Dict Text → Bool
unfolding rows_in lookup text_eq
dict_eq a b = rows_in a b && rows_in b a

rows_in-lookup :
    (a b : Dict Text) (k v : Text) → rows_in a b ≡ true → lookup k a ≡ some v → lookup k b ≡ some v
unfolding rows_in lookup
rows_in-lookup [] b k v h e = cc
rows_in-lookup ((j, w) ∷ a) b k v h e = elim (Bool-cases (text_eq j k)) [
  | inl same ↦
      let p : j ≡ k = (text_eq_iff j k).0 same in
      let q : w ≡ v = ground (arith, e, same) in
      rw (← p, ← q) (held (lookup j b) (ground (arith, h)))
  | inr other ↦ rows_in-lookup a b k v (ground (arith, h)) (ground (arith, e, other))
]
  where
    held : (o : Option Text) → holds o w ≡ true → o ≡ some w
    held none g = cc
    held (some x) g = ap some ((text_eq_iff x w).0 g)

rows_in-keep :
    (a b : Dict Text)
    → NodupKeys a
    → ((k v : Text) → lookup k a ≡ some v → lookup k b ≡ some v)
    → rows_in a b ≡ true
unfolding rows_in lookup
rows_in-keep [] b u f = refl
rows_in-keep ((j, w) ∷ a) b u f =
    let here : lookup j b ≡ some w = f j w (rw ((text_eq_iff j j).1 refl)) in
    rw here (rw ((text_eq_iff w w).1 refl) (rows_in-keep a b u.1 later))
  where
    later : (k v : Text) → lookup k a ≡ some v → lookup k b ≡ some v
    later k v e = elim (Bool-cases (text_eq j k)) [
      | inl same ↦ let p : j ≡ k = (text_eq_iff j k).0 same in ground (arith, rw p at u.0, e)
      | inr other ↦ f k v (rw other e)
    ]

-- Two dicts are equal exactly when every key has the same value, or none, in both.
pub dict_eq_iff :
    (a b : Dict Text)
    → NodupKeys a
    → NodupKeys b
    → (dict_eq a b ≡ true) ↔ ((k : Text) → lookup k a ≡ lookup k b)
unfolding dict_eq
dict_eq_iff a b ua ub = (
  λ h k. same_lookup k (rows_in-lookup a b k) (rows_in-lookup b a k) h,
  λ f. rw (rows_in-keep a b ua (λ k v e. sym (f k) ∙ e)) (rows_in-keep b a ub (λ k v e. f k ∙ e)),
)
  where
    agree :
        (o p : Option Text)
        → ((v : Text) → o ≡ some v → p ≡ some v)
        → ((v : Text) → p ≡ some v → o ≡ some v)
        → o ≡ p
    agree none none f g = refl
    agree none (some v) f g = g v refl
    agree (some v) p f g = sym (f v refl)

    same_lookup :
        (k : Text)
        → ((v : Text) → rows_in a b ≡ true → lookup k a ≡ some v → lookup k b ≡ some v)
        → ((v : Text) → rows_in b a ≡ true → lookup k b ≡ some v → lookup k a ≡ some v)
        → (rows_in a b && rows_in b a) ≡ true
        → lookup k a ≡ lookup k b
    same_lookup k f g h =
        agree (lookup k a) (lookup k b) (λ v. f v (ground arith)) (λ v. g v (ground arith))
