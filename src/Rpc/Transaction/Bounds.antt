-- ===== src/Rpc/Transaction/Bounds.antt =====
-- The numbers and lengths that an action can carry.
use proof_forge_near.Prelude.{
  ◌≡◌, ◌↔◌, refl, ap, ◌∙◌, ℕ, ◌^◌, ◌<◌, Bool-cases, inl, inr, ltb, ltb→lt, Option, none, some, ◌∷◌,
  ◌++◌, Text, Bytes, length, arith,
}
use proof_forge_near.Py.Result.{Result, ok, ◌>>=◌, then-ok, or_raise}
use proof_forge_near.Py.Int.{ℤ, pos, negsuc}
use proof_forge_near.Py.Bytes.{to_le}
use proof_forge_near.Py.Utf8.{encode}
use proof_forge_near.Rpc.Exc.{Exc, struct_error, overflow_error, unicode_error}
use proof_forge_near.Rpc.Wire.{pack_unsigned, pack_u32, u64, u128, borsh_bytes, borsh_string}
use proof_forge_near.Rpc.Transaction.{action_function_call}

pack_pos-ok_iff :
    (w : ℕ) (e : Exc) (n : ℕ) (b : Bytes)
    → (pack_unsigned w e (pos n) ≡ ok b) ↔ ((n < 256 ^ w) × (to_le w n ≡ b))
unfolding pack_unsigned
pack_pos-ok_iff w e n b = elim (Bool-cases (ltb n (256 ^ w))) [
  | inl fits ↦
      (λ h. (ltb→lt n (256 ^ w) fits, cc (rw fits at h)), λ (k, same). rw fits (ap ok same))
  | inr large ↦ (λ h. cc (rw large at h), λ (k, same). absurd (ground (arith, large, k)))
]

pack_negsuc : (w : ℕ) (e : Exc) (n : ℕ) (b : Bytes) → ¬ (pack_unsigned w e (negsuc n) ≡ ok b)
unfolding pack_unsigned
pack_negsuc w e n b h = cc h

pack_unsigned-ok_iff :
    (w : ℕ) (e : Exc) (n : ℤ) (b : Bytes)
    → (pack_unsigned w e n ≡ ok b) ↔ ((m : ℕ) × (n ≡ pos m) × (m < 256 ^ w) × (to_le w m ≡ b))
pack_unsigned-ok_iff w e (negsuc n) b =
    (λ h. absurd (pack_negsuc w e n b h), λ (m, h, k, same). cc h)
pack_unsigned-ok_iff w e (pos n) b = (
  λ h. let (k, same) = (pack_pos-ok_iff w e n b).0 h in (n, refl, k, same),
  λ (m, h, k, same).
      let is_m : m ≡ n = cc h in (pack_pos-ok_iff w e n b).1 (rw is_m at k, rw is_m at same),
)

-- A length of four bytes before the bytes.
abbrev pub framed : Bytes → Bytes
framed b = to_le 4 (length b) ++ b

borsh_bytes-ok_iff :
    (b out : Bytes) → (borsh_bytes b ≡ ok out) ↔ ((length b < 2 ^ 32) × (framed b ≡ out))
unfolding borsh_bytes pack_u32
borsh_bytes-ok_iff b out = (
  λ e.
      let (size, packed, same) =
        then-ok (pack_u32 (pos (length b))) (λ size. ok (size ++ b)) out e in
      let (fits, is_size) = (pack_pos-ok_iff 4 struct_error (length b) size).0 packed in
      (fits, ap (λ r. r ++ b) is_size ∙ cc same),
  λ (fits, same).
      let packed =
        (pack_pos-ok_iff 4 struct_error (length b) (to_le 4 (length b))).1 (fits, refl) in
      rw packed (ap ok same),
)

borsh_string-ok_iff :
    (s : Text) (out : Bytes)
    → (borsh_string s ≡ ok out)
      ↔ ((raw : Bytes) × (encode s ≡ some raw) × (length raw < 2 ^ 32) × (framed raw ≡ out))
unfolding borsh_string borsh_bytes
borsh_string-ok_iff s out = (
  λ e.
      let (raw, known, framed_) = then-ok (or_raise (encode s) unicode_error) borsh_bytes out e in
      let (fits, same) = (borsh_bytes-ok_iff raw out).0 framed_ in
      (raw, raised_or (encode s) raw known, fits, same),
  λ (raw, known, fits, same). rw known ((borsh_bytes-ok_iff raw out).1 (fits, same)),
)
  where
    raised_or : (o : Option Bytes) (raw : Bytes) → or_raise o unicode_error ≡ ok raw → o ≡ some raw
    raised_or none raw e = cc
    raised_or (some b) raw e = cc e

-- A call's action is made exactly when its method is UTF-8 text, the method's and the arguments'
-- lengths are below 2 ^ 32, the gas is not negative and below 2 ^ 64 and the deposit is not negative
-- and below 2 ^ 128; its bytes are then the tag 2, both texts behind their lengths, and both numbers.
pub action_function_call-ok_iff :
    (method : Text) (args : Bytes) (gas deposit : ℤ) (b : Bytes)
    → (action_function_call method args gas deposit ≡ ok b) ↔ (
        (name : Bytes) × (g : ℕ) × (d : ℕ) × (encode method ≡ some name)
        × ((length name < 2 ^ 32) × (length args < 2 ^ 32))
        × ((gas ≡ pos g) × (g < 2 ^ 64))
        × ((deposit ≡ pos d) × (d < 2 ^ 128))
        × (2 ∷ (framed name ++ (framed args ++ (to_le 8 g ++ to_le 16 d))) ≡ b))
unfolding action_function_call u64 u128
action_function_call-ok_iff method args gas deposit b = (
  λ e.
      let with_deposit : Bytes → Bytes → Bytes → Bytes → Result Exc Bytes =
        λ name arg_bytes gas_bytes deposit_bytes.
          ok (2 ∷ (name ++ (arg_bytes ++ (gas_bytes ++ deposit_bytes)))) in
      let with_gas : Bytes → Bytes → Bytes → Result Exc Bytes =
        λ name arg_bytes gas_bytes. u128 deposit >>= with_deposit name arg_bytes gas_bytes in
      let with_args : Bytes → Bytes → Result Exc Bytes =
        λ name arg_bytes. u64 gas >>= with_gas name arg_bytes in
      let (n, e1, r1) =
        then-ok (borsh_string method) (λ name. borsh_bytes args >>= with_args name) b e in
      let (a, e2, r2) = then-ok (borsh_bytes args) (with_args n) b r1 in
      let (x, e3, r3) = then-ok (u64 gas) (with_gas n a) b r2 in
      let (y, e4, r4) = then-ok (u128 deposit) (with_deposit n a x) b r3 in
      let (name, is_utf8, name_fits, is_n) = (borsh_string-ok_iff method n).0 e1 in
      let (args_fit, is_a) = (borsh_bytes-ok_iff args a).0 e2 in
      let (g, is_gas, gas_fits, is_x) = (pack_unsigned-ok_iff 8 struct_error gas x).0 e3 in
      let (d, is_deposit, deposit_fits, is_y) =
        (pack_unsigned-ok_iff 16 overflow_error deposit y).0 e4 in
      (
        name,
        g,
        d,
        is_utf8,
        (name_fits, args_fit),
        (is_gas, gas_fits),
        (is_deposit, deposit_fits),
        (ap (λ r. 2 ∷ r) (ap (λ r. r ++ (framed args ++ (to_le 8 g ++ to_le 16 d))) is_n)
            ∙ (ap (λ r. 2 ∷ (n ++ (r ++ (to_le 8 g ++ to_le 16 d)))) is_a
                ∙ (ap (λ r. 2 ∷ (n ++ (a ++ (r ++ to_le 16 d)))) is_x
                    ∙ (ap (λ r. 2 ∷ (n ++ (a ++ (x ++ r)))) is_y ∙ cc r4)))),
      ),
  λ (
    name,
    g,
    d,
    is_utf8,
    (name_fits, args_fit),
    (is_gas, gas_fits),
    (is_deposit, deposit_fits),
    same,
  ).
      let e1 = (borsh_string-ok_iff method (framed name)).1 (name, is_utf8, name_fits, refl) in
      let e2 = (borsh_bytes-ok_iff args (framed args)).1 (args_fit, refl) in
      let e3 = (pack_pos-ok_iff 8 struct_error g (to_le 8 g)).1 (gas_fits, refl) in
      let e4 = (pack_pos-ok_iff 16 overflow_error d (to_le 16 d)).1 (deposit_fits, refl) in
      rw (is_gas, is_deposit, e1, e2, e3, e4) (ap ok same),
)
