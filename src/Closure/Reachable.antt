-- ===== src/Closure/Reachable.antt =====
-- What `closure` has seen when it ends: the modules that the entry reaches.
use proof_forge_near.Prelude.{
  ℕ, zero, suc, ◌≡◌, ◌↔◌, refl, ap, true, false, ◌&&◌, ◌||◌, some, Bool-cases, inl, inr, List, [],
  ◌∷◌, ◌++◌, arith, Text, text_eq, text_eq_iff, mem,
}
use proof_forge_near.Closure.{is_forbidden, unseen, closure_loop, closure}

pub mem-append : (x : Text) (xs ys : List Text) → mem x (xs ++ ys) ≡ (mem x xs || mem x ys)
unfolding mem
mem-append x [] ys = refl
mem-append x (y ∷ xs) ys = ground (arith, mem-append x xs ys)

mem-unseen :
    (x : Text) (seen ds : List Text)
    → (mem x seen || mem x (unseen seen ds)) ≡ (mem x seen || mem x ds)
unfolding mem unseen
mem-unseen x seen [] = refl
mem-unseen x seen (d ∷ ds) = ground (arith, mem-unseen x seen ds, text_eq_iff x d)

mem-same : (d m : Text) (xs : List Text) → text_eq d m ≡ true → mem m xs ≡ true → mem d xs ≡ true
mem-same d m xs e h = rw ((text_eq_iff d m).0 e) h

forbidden-same : (x m : Text) → text_eq x m ≡ true → is_forbidden x ≡ is_forbidden m
forbidden-same x m e = ap is_forbidden ((text_eq_iff x m).0 e)

pub mem-unseen_in :
    (x : Text) (seen ds : List Text) → mem x (unseen seen ds) ≡ true → mem x ds ≡ true
unfolding mem unseen
mem-unseen_in x seen [] h = h
mem-unseen_in x seen (d ∷ ds) h = ground (arith, mem-unseen_in x seen ds)

module _ (imports : Text → List Text) (entry : Text) where
  -- A module that the walk is to reach: the entry, and what a reached module imports that is not
  -- itself forbidden.
  pub data Reach : Text → Type 0 where
    here : Reach entry
    next :
        {m : Text} (d : Text)
        → Reach m
        → is_forbidden m ≡ false
        → mem d (imports m) ≡ true
        → Reach d

  record IsWalk (q seen bad : List Text) : Type 0 where
    queued : (x : Text) → mem x q ≡ true → Reach x
    reached : (x : Text) → mem x seen ≡ true → Reach x
    followed :
        (x : Text)
        → mem x seen ≡ true
        → is_forbidden x ≡ false
        → (d : Text) → mem d (imports x) ≡ true
        → (mem d seen || mem d q) ≡ true
    found : (x : Text) → mem x bad ≡ (mem x seen && is_forbidden x)
    begun : (mem entry seen || mem entry q) ≡ true

  IsWalk-start : IsWalk (entry ∷ []) [] []
  unfolding mem
  IsWalk-start = record {
    queued = λ x h. queued_start x (ground arith);
    reached = λ x h. cc;
    followed = λ x h f d i. cc;
    found = λ x. refl;
    begun = ground (arith, text_eq_iff entry entry);
  }
    where
      queued_start : (x : Text) → text_eq x entry ≡ true → Reach x
      queued_start x h = rw ((text_eq_iff x entry).0 h) here

  IsWalk-skip :
      (m : Text) (q seen bad : List Text)
      → mem m seen ≡ true
      → IsWalk (m ∷ q) seen bad
      → IsWalk q seen bad
  unfolding mem
  IsWalk-skip m q seen bad h w = record {
    queued = λ x e. w.queued x (ground arith);
    reached = w.reached;
    followed = λ x s f d i. ground (arith, w.followed x s f d i, mem-same d m seen, h);
    found = w.found;
    begun = ground (arith, w.begun, mem-same entry m seen, h);
  }

  -- A forbidden module is noted, and its imports are left alone.
  IsWalk-forbidden :
      (m : Text) (q seen bad : List Text)
      → is_forbidden m ≡ true
      → IsWalk (m ∷ q) seen bad
      → IsWalk q (m ∷ seen) (bad ++ (m ∷ []))
  unfolding mem
  IsWalk-forbidden m q seen bad h w = record {
    queued = λ x e. w.queued x (ground arith);
    reached = λ x e. elim (Bool-cases (text_eq x m)) [
      | inl same ↦ w.queued x (rw same refl)
      | inr other ↦ w.reached x (rw other at e)
    ];
    followed = λ x s f d i. elim (Bool-cases (text_eq x m)) [
      | inl same ↦ ground (arith, forbidden-same x m same, h, f)
      | inr other ↦ ground (arith, w.followed x (rw other at s) f d i)
    ];
    found = λ x. ground (arith, w.found x, mem-append x bad (m ∷ []), forbidden-same x m, h);
    begun = ground (arith, w.begun);
  }

  IsWalk-follow :
      (m : Text) (q seen bad : List Text)
      → is_forbidden m ≡ false
      → IsWalk (m ∷ q) seen bad
      → IsWalk (q ++ unseen (m ∷ seen) (imports m)) (m ∷ seen) bad
  unfolding mem
  IsWalk-follow m q seen bad h w = record {
    queued = λ x e. elim (Bool-cases (mem x q)) [
      | inl old ↦ w.queued x (ground (arith, old))
      | inr new ↦
          let added : mem x (unseen (m ∷ seen) (imports m)) ≡ true =
            ground (arith, mem-append x q (unseen (m ∷ seen) (imports m)), new, e) in
          next x (w.queued m (ground (arith, text_eq_iff m m))) h
            (mem-unseen_in x (m ∷ seen) (imports m) added)
    ];
    reached = λ x e. elim (Bool-cases (text_eq x m)) [
      | inl same ↦ w.queued x (rw same refl)
      | inr other ↦ w.reached x (rw other at e)
    ];
    followed = λ x s f d i.
        let split = mem-append d q (unseen (m ∷ seen) (imports m)) in
        elim (Bool-cases (text_eq x m)) [
          | inl same ↦
              let i' : mem d (imports m) ≡ true = rw ((text_eq_iff x m).0 same) at i in
              ground (arith, i', split, mem-unseen d (m ∷ seen) (imports m))
          | inr other ↦ ground (arith, w.followed x (rw other at s) f d i, split)
        ];
    found = λ x. ground (arith, w.found x, forbidden-same x m, h);
    begun = ground (arith, w.begun, mem-append entry q (unseen (m ∷ seen) (imports m)));
  }

  closure_loop-IsWalk :
      (fuel : ℕ) (q seen bad seen' bad' : List Text)
      → IsWalk q seen bad
      → closure_loop imports fuel q seen bad ≡ some (seen', bad')
      → IsWalk [] seen' bad'
  unfolding closure_loop
  closure_loop-IsWalk zero q seen bad seen' bad' w h = cc
  closure_loop-IsWalk (suc fuel) [] seen bad seen' bad' w h =
      let e : seen ≡ seen' = ground arith in let f : bad ≡ bad' = ground arith in rw (← e, ← f) w
  closure_loop-IsWalk (suc fuel) (m ∷ q) seen bad seen' bad' w h = elim (Bool-cases (mem m seen)) [
    | inl old ↦
        closure_loop-IsWalk fuel q seen bad seen' bad' (IsWalk-skip m q seen bad old w)
          (ground (arith, old, h))
    | inr new ↦ elim (Bool-cases (is_forbidden m)) [
      | inl f ↦
          closure_loop-IsWalk fuel q (m ∷ seen) (bad ++ (m ∷ [])) seen' bad'
            (IsWalk-forbidden m q seen bad f w) (ground (arith, new, f, h))
      | inr f ↦
          closure_loop-IsWalk fuel (q ++ unseen (m ∷ seen) (imports m)) (m ∷ seen) bad seen' bad'
            (IsWalk-follow m q seen bad f w) (ground (arith, new, f, h))
    ]
  ]

  Reach-seen :
      (seen bad : List Text) → IsWalk [] seen bad → (x : Text) → Reach x → mem x seen ≡ true
  unfolding mem
  Reach-seen seen bad w x here = ground (arith, w.begun)
  Reach-seen seen bad w x (next d r f i) =
      ground (arith, w.followed _ (Reach-seen seen bad w _ r) f d i)

  -- When the walk ends, it has seen exactly the modules that the entry reaches through modules that
  -- are not forbidden, and has noted exactly the forbidden ones of them.
  pub closure_sound :
      (fuel : ℕ) (seen bad : List Text)
      → closure imports fuel entry ≡ some (seen, bad)
      → (x : Text)
      → ((mem x seen ≡ true) ↔ Reach x) × ((mem x bad ≡ true) ↔ (Reach x × (is_forbidden x ≡ true)))
  unfolding closure
  closure_sound fuel seen bad h x =
      let w = closure_loop-IsWalk fuel (entry ∷ []) [] [] seen bad IsWalk-start h in
      (
        (w.reached x, Reach-seen seen bad w x),
        (
          λ b. (w.reached x (ground (arith, b, w.found x)), ground (arith, b, w.found x)),
          λ (r, f). ground (arith, Reach-seen seen bad w x r, f, w.found x),
        ),
      )
