-- ===== src/Suites/JsonObject/Orders.antt =====
-- `itertools.permutations`, with which the suites of JSON objects send the fields in every order.
use proof_forge_near.Prelude.{
  ◌≡◌, refl, sym, ap, ◌∙◌, subst, suc, List, [], ◌∷◌, ◌++◌, map, length, some, All, Text, Bytes,
}
use mathlib.Core.List.{Memᴰ, Mem, Perm, Mem-prop, mem-cons_self, append_of_mem, perm_middle}
use mathlib.Core.List.Memᴰ
use mathlib.Core.List.{Permᴰ}
use mathlib.Core.List.Perm
use mathlib.Core.Logic.{∥∥₁_map, ∥∥₁_elim}
use proof_forge_near.Py.Result.{ok}
use proof_forge_near.Rpc.Env.{Env, Client}
use proof_forge_near.Rpc.View.{view}
use proof_forge_near.Suites.Exact.{le64, Exact-ok}
use proof_forge_near.Suites.Contract.{Views, Answered}
use proof_forge_near.Suites.Matrix.{Fields, Reads, accept_all, accept_all-Exact}
use proof_forge_near.Suites.JsonObject.{
  Field, picks, concat_map, orders, permutations, object_text, in_every_order,
}

module _ {ℓ} {A : Type ℓ} where
  picks-Mem : (l r : List A) (y : A) → Memᴰ (y, l ++ r) (picks (l ++ (y ∷ r)))
  unfolding picks
  picks-Mem [] r y = Memᴰ.head refl
  picks-Mem (x ∷ l) r y = Memᴰ.tail (Memᴰ.map (λ p. (p.0, x ∷ p.1)) (picks-Mem l r y))

  concat_map-Mem {κ} :
      {B : Type κ} (f : A → List B) (a : A) (b : B) {xs : List A}
      → Memᴰ a xs
      → Memᴰ b (f a)
      → Memᴰ b (concat_map f xs)
  unfolding concat_map
  concat_map-Mem f a b (Memᴰ.head {x = x} e) there =
      Memᴰ.append_left _ (subst (λ v. Memᴰ b (f v)) e there)
  concat_map-Mem f a b (Memᴰ.tail {x = x} m) there =
      Memᴰ.append_right (f x) (concat_map-Mem f a b m there)

module _ {ℓ} {A : Type ℓ} where
  orders-complete : (ys xs : List A) → Perm ys xs → Mem ys (orders (length ys) xs)
  unfolding orders
  orders-complete [] xs p = ∣ Memᴰ.head refl ∣₁
  orders-complete (y ∷ ys) xs p =
      ∥∥₁_elim (append_of_mem ((Perm.mem_iff p).0 mem-cons_self)) Mem-prop (λ (l, r, e).
        let moved : Perm (y ∷ ys) (y ∷ (l ++ r)) =
          Perm.trans (subst (λ v. Perm (y ∷ ys) v) e p) (perm_middle l r) in
        ∥∥₁_map (orders-complete ys (l ++ r) (Perm.cons_inv moved)) (λ d.
          subst (λ v. Memᴰ (y ∷ ys) (orders (suc (length ys)) v)) (sym e)
            (concat_map-Mem (λ p. map (λ rest. p.0 ∷ rest) (orders (length ys) p.1)) (y, l ++ r)
              (y ∷ ys) (picks-Mem l r y) (Memᴰ.map (λ rest. y ∷ rest) d))))

  length-Permᴰ : {xs ys : List A} → Permᴰ xs ys → length xs ≡ length ys
  length-Permᴰ Permᴰ.nil = refl
  length-Permᴰ (Permᴰ.cons e d) = ap (λ n. suc n) (length-Permᴰ d)
  length-Permᴰ (Permᴰ.swap e e') = refl
  length-Permᴰ (Permᴰ.trans d d') = length-Permᴰ d ∙ length-Permᴰ d'

  permutations-complete : {ys xs : List A} → Permᴰ ys xs → Mem ys (permutations xs)
  unfolding permutations
  permutations-complete {ys} {xs} d =
      subst (λ n. Mem ys (orders n xs)) (length-Permᴰ d) (orders-complete ys xs ∣ d ∣₁)

  All-Mem {κ} : (P : A → Type κ) {a : A} {xs : List A} → All P xs → Memᴰ a xs → P a
  All-Mem P h (Memᴰ.head e) = subst P (sym e) h.0
  All-Mem P h (Memᴰ.tail m) = All-Mem P h.1 m

IsProp-All {ℓ κ} :
    {A : Type ℓ} (P : A → Type κ) → ((a : A) → IsProp (P a)) → (xs : List A) → IsProp (All P xs)
IsProp-All P h [] = hlevel
IsProp-All P h (x ∷ xs) = λ p q i. (h x p.0 q.0 i, IsProp-All P h xs p.1 q.1 i)

Reads-prop : (views : Views) (a : Bytes × Fields) → IsProp (Reads views a)
unfolding Reads
Reads-prop views a = IsProp-All (λ f. views f.0 a.0 ≡ some (le64 f.1)) (λ f. hlevel) a.1

module _ (E : Env) (c : Client) (Live : E.World → Type 0) (views : Views)
    (answers : (method : Text) (wire : Bytes) (w : E.World)
      → Live w
      → Answered E c Live (views method wire) (view E c method wire w)) where
  -- From a live world, where the scenes of an object with its fields in every order pass, the views
  -- return the expected words for each permutation of the fields.
  pub in_every_order_sound :
      (fields order : List Field) (expected : Fields) (w w' : E.World)
      → Live w
      → accept_all E c (in_every_order fields expected) w ≡ (ok tt, w')
      → Perm order fields
      → Reads views (object_text order, expected)
  unfolding in_every_order
  in_every_order_sound fields order expected w w' live e p =
      let entry : List Field → Bytes × Fields = λ o. (object_text o, expected) in
      let (reads, live') =
        Exact-ok Live (accept_all E c (in_every_order fields expected)) _ w w'
          (accept_all-Exact E c Live views answers (in_every_order fields expected)) live e in
      let prop : IsProp (Reads views (object_text order, expected)) =
        Reads-prop views (entry order) in
      ∥∥₁_elim p prop (λ d.
        ∥∥₁_elim (permutations-complete d) prop
          (λ m. All-Mem (Reads views) reads (Memᴰ.map entry m)))
