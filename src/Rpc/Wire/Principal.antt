-- ===== src/Rpc/Wire/Principal.antt =====
-- The nine words of an account id, against the bytes that they lay out.
use Prim.Native.Nat.add
use proof_forge_near.Prelude.{
  ℕ, zero, suc, ◌+◌, ◌-◌, ◌*◌, ◌^◌, ◌≤◌, ◌<◌, ◌≡◌, refl, sym, ap, ◌∙◌, ◌&&◌, some, List, [], ◌∷◌,
  ◌++◌, if◌then◌else◌, lt→ltb, leb, arith, Bool-cases, inl, inr, Text, Bytes, All, All-append,
  length, take, drop, replicate, length-append, length-replicate,
}
use proof_forge_near.Py.Result.{ok, err}
use proof_forge_near.Py.Int.{pos}
use proof_forge_near.Py.Bytes.{IsByte, to_le, from_le, to_le-from_le, from_le-lt}
use proof_forge_near.Py.Utf8.{encode, encode-IsByte}
use proof_forge_near.Rpc.Exc.{value_error}
use proof_forge_near.Rpc.Wire.{u64, body_words, join_words, encode_principal_account_id}
use proof_forge_near.Rpc.Wire.Words.{u64_fits}

module _ {ℓ} {A : Type ℓ} where
  drop-nil : (n : ℕ) → drop {A = A} n [] ≡ []
  drop-nil zero = refl
  drop-nil (suc n) = refl

  drop-add : (m n : ℕ) (xs : List A) → drop (m + n) xs ≡ drop n (drop m xs)
  drop-add zero n xs = ap (λ k. drop k xs) (omega arith)
  drop-add (suc m) n [] = drop-nil (suc m + n) ∙ sym (drop-nil n)
  drop-add (suc m) n (x ∷ xs) = rw add.suc (drop-add m n xs)

  take-append-drop : (n : ℕ) (xs : List A) → take n xs ++ drop n xs ≡ xs
  take-append-drop zero xs = refl
  take-append-drop (suc n) [] = refl
  take-append-drop (suc n) (x ∷ xs) = rw (take-append-drop n xs)

  length-take_le : (n : ℕ) (xs : List A) → n ≤ length xs → length (take n xs) ≡ n
  length-take_le zero xs h = refl
  length-take_le (suc n) [] h = absurd (omega arith)
  length-take_le (suc n) (x ∷ xs) h = ap suc (length-take_le n xs (omega arith))

  length-drop : (n : ℕ) (xs : List A) → length (drop n xs) ≡ length xs - n
  length-drop zero xs = omega arith
  length-drop (suc n) [] = omega arith
  length-drop (suc n) (x ∷ xs) = omega (arith, length-drop n xs)

  drop-all : (n : ℕ) (xs : List A) → length xs ≤ n → drop n xs ≡ []
  drop-all zero [] h = refl
  drop-all (suc n) [] h = refl
  drop-all zero (x ∷ xs) h = absurd (omega arith)
  drop-all (suc n) (x ∷ xs) h = drop-all n xs (omega arith)

All-take : (n : ℕ) (xs : Bytes) → All IsByte xs → All IsByte (take n xs)
All-take zero xs h = tt
All-take (suc n) [] h = tt
All-take (suc n) (x ∷ xs) h = (h.0, All-take n xs h.1)

All-drop : (n : ℕ) (xs : Bytes) → All IsByte xs → All IsByte (drop n xs)
All-drop zero xs h = h
All-drop (suc n) [] h = tt
All-drop (suc n) (x ∷ xs) h = All-drop n xs h.1

All-zeros : (n : ℕ) → All IsByte (replicate n 0)
All-zeros zero = tt
All-zeros (suc n) = (omega arith, All-zeros n)

-- One word of eight bytes is packed back to them.
u64-from_le : (b : Bytes) → length b ≡ 8 → All IsByte b → u64 (pos (from_le b)) ≡ ok b
u64-from_le b e h =
    let bound : from_le b < 256 ^ 8 = rw e at (from_le-lt b h) in
    u64_fits (from_le b) bound ∙ ap ok (rw e at (to_le-from_le b h))

join_words-body_words :
    (k i : ℕ) (body : Bytes)
    → All IsByte body
    → length body ≡ (i + k) * 8
    → join_words (body_words k i body) ≡ ok (drop (i * 8) body)
unfolding body_words join_words
join_words-body_words zero i body h e = rw (drop-all (i * 8) body (omega arith))
join_words-body_words (suc k) i body h e =
    let rest = drop (i * 8) body in
    let size : 8 ≤ length rest = omega (arith, length-drop (i * 8) body) in
    let later = join_words-body_words k (i + 1) body h (omega arith) in
    let step : drop ((i + 1) * 8) body ≡ drop 8 rest =
      ap (λ n. drop n body) (omega arith) ∙ drop-add (i * 8) 8 body in
    rw
      (u64-from_le (take 8 rest) (length-take_le 8 rest size)
        (All-take 8 rest (All-drop (i * 8) body h)))
      (rw later (rw step (ap ok (take-append-drop 8 rest))))

-- The account id is laid out as its length in eight bytes, its UTF-8 bytes and zeros up to 64 bytes;
-- an id of fewer than 2 or more than 64 bytes raises `ValueError`.
pub encode_principal_account_id_lem :
    (account_id : Text) (raw : Bytes)
    → encode account_id ≡ some raw
    → encode_principal_account_id account_id ≡ (
        if leb 2 (length raw) && leb (length raw) 64
        then ok (to_le 8 (length raw) ++ (raw ++ replicate (64 - length raw) 0))
        else err value_error)
unfolding encode_principal_account_id
encode_principal_account_id_lem account_id raw e =
    rw e (elim (Bool-cases (leb 2 (length raw) && leb (length raw) 64)) [
      | inl h ↦ rw h (layout (ground arith))
      | inr h ↦ rw h
    ])
  where
    layout :
        length raw ≤ 64
        → join_words (length raw ∷ body_words 8 0 (raw ++ replicate (64 - length raw) 0))
          ≡ ok (to_le 8 (length raw) ++ (raw ++ replicate (64 - length raw) 0))
    layout h =
        let pad = replicate (64 - length raw) 0 in
        let size : length (raw ++ pad) ≡ (0 + 8) * 8 =
          omega (arith, length-append raw pad, length-replicate (64 - length raw) (zero)) in
        let all_bytes = All-append IsByte raw pad (encode-IsByte account_id raw e) (All-zeros _) in
        rw (lt→ltb (length raw) (256 ^ 8) (omega arith))
          (rw (join_words-body_words 8 0 (raw ++ pad) all_bytes size))
