-- ===== src/Closure/Fuel.antt =====
-- The walk ends: fuel above the size of a set of modules that is closed under imports is enough.
use proof_forge_near.Prelude.{
  ℕ, zero, suc, ◌+◌, ◌≤◌, ◌<◌, ◌≡◌, refl, true, false, some, Bool-cases, inl, inr, List, [], ◌∷◌,
  ◌++◌, arith, if◌then◌else◌, length, length-append, Text, text_eq, text_eq_iff, mem,
}
use proof_forge_near.Closure.{is_forbidden, unseen, closure_loop, closure}
use proof_forge_near.Closure.Reachable.{mem-append, mem-unseen_in}

length-unseen : (seen ds : List Text) → length (unseen seen ds) ≤ length ds
unfolding unseen
length-unseen seen [] = omega arith
length-unseen seen (d ∷ ds) = ground (arith, length-unseen seen ds)

module _ (imports : Text → List Text) where
  -- A module that is not yet seen costs itself and its imports.
  abbrev pub weight : List Text → List Text → ℕ
  weight seen [] = 0
  weight seen (u ∷ us) = (if mem u seen then 0 else suc (length (imports u))) + weight seen us

  weight-le : (m : Text) (seen us : List Text) → weight (m ∷ seen) us ≤ weight seen us
  unfolding mem
  weight-le m seen [] = omega arith
  weight-le m seen (u ∷ us) = ground (arith, weight-le m seen us)

  weight-lt :
      (m : Text) (seen us : List Text)
      → mem m us ≡ true
      → mem m seen ≡ false
      → weight (m ∷ seen) us + suc (length (imports m)) ≤ weight seen us
  unfolding mem
  weight-lt m seen [] h n = cc
  weight-lt m seen (u ∷ us) h n = elim (Bool-cases (text_eq m u)) [
    | inl same ↦
        let e : m ≡ u = (text_eq_iff m u).0 same in
        rw (← e) (ground (arith, n, text_eq_iff m m, weight-le m seen us))
    | inr other ↦
        ground (arith, weight-lt m seen us (ground (arith, h, other)) n, weight-le m seen us)
  ]

  module _ (universe : List Text)
      (closed : (m d : Text)
        → mem m universe ≡ true
        → mem d (imports m) ≡ true
        → mem d universe ≡ true) where
    queue_inside :
        (m : Text) (q seen : List Text)
        → ((x : Text) → mem x (m ∷ q) ≡ true → mem x universe ≡ true)
        → mem m universe ≡ true
        → (x : Text) → mem x (q ++ unseen (m ∷ seen) (imports m)) ≡ true
        → mem x universe ≡ true
    unfolding mem
    queue_inside m q seen u inside x i = elim (Bool-cases (mem x q)) [
      | inl old ↦ u x (ground (arith, old))
      | inr new ↦ closed m x inside (
          mem-unseen_in x (m ∷ seen) (imports m)
            (ground (arith, mem-append x q (unseen (m ∷ seen) (imports m)), new, i)))
    ]

    closure_loop-total :
        (fuel : ℕ) (q seen bad : List Text)
        → ((x : Text) → mem x q ≡ true → mem x universe ≡ true)
        → length q + weight seen universe < fuel
        → (r : List Text × List Text) × (closure_loop imports fuel q seen bad ≡ some r)
    unfolding closure_loop mem
    closure_loop-total zero q seen bad u h = absurd (omega arith)
    closure_loop-total (suc fuel) [] seen bad u h = ((seen, bad), refl)
    closure_loop-total (suc fuel) (m ∷ q) seen bad u h =
        let inside : mem m universe ≡ true = u m (ground (arith, text_eq_iff m m)) in
        elim (Bool-cases (mem m seen)) [
          | inl old ↦
              let (r, e) =
                closure_loop-total fuel q seen bad (λ x i. u x (ground arith)) (omega arith) in
              (r, ground (arith, old, e))
          | inr new ↦
              let lighter = weight-lt m seen universe inside new in
              elim (Bool-cases (is_forbidden m)) [
                | inl f ↦
                    let (r, e) =
                      closure_loop-total fuel q (m ∷ seen) (bad ++ (m ∷ []))
                        (λ x i. u x (ground arith)) (omega (arith, lighter)) in
                    (r, ground (arith, new, f, e))
                | inr f ↦
                    let more = unseen (m ∷ seen) (imports m) in
                    let (r, e) =
                      closure_loop-total fuel (q ++ more) (m ∷ seen) bad
                        (queue_inside m q seen u inside)
                        (omega (
                          arith,
                          lighter,
                          length-append q more,
                          length-unseen (m ∷ seen) (imports m),
                        )) in
                    (r, ground (arith, new, f, e))
              ]
        ]

    -- From an entry in a set of modules that is closed under imports the walk ends with a result,
    -- on any fuel above one and the number of the set's modules and of their imports.
    pub closure_total :
        (fuel : ℕ) (entry : Text)
        → mem entry universe ≡ true
        → 1 + weight [] universe < fuel
        → (r : List Text × List Text) × (closure imports fuel entry ≡ some r)
    unfolding closure mem
    closure_total fuel entry inside h =
        closure_loop-total fuel (entry ∷ []) [] []
          (λ x i. rw ((text_eq_iff x entry).0 (ground arith)) inside) (omega arith)
