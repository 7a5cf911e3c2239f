-- ===== src/Rpc/Tests/Words.antt =====
-- The encoders, decoders and transactions at concrete values.
use proof_forge_near.Prelude.{
  Bool, ◌&&◌, leb, arith, take, ◌*◌, ◌/◌, ◌≡◌, ◌↔◌, refl, ℕ, ◌<◌, ◌^◌, some, [], ◌∷◌, ◌++◌,
  replicate, Bytes, codes, length,
}
use proof_forge_near.Py.Result.{ok, ◌>>=◌}
use proof_forge_near.Py.Int.{pos, negsuc}
use proof_forge_near.Py.Bytes.{to_le}
use proof_forge_near.Py.Utf8.{encode}
use proof_forge_near.Rpc.Wire.{
  encode_u64_le, decode_u64_le, encode_i64_le, decode_i64_le, encode_principal_account_id, pack_u32,
  borsh_string, u64,
}
use proof_forge_near.Rpc.Wire.Words.{decode_u64_le-encode_u64_le, decode_i64_le-encode_i64_le}
use proof_forge_near.Rpc.Wire.Principal.{encode_principal_account_id_lem}
use proof_forge_near.Rpc.Transaction.{transaction, join_actions, action_function_call}
use proof_forge_near.Rpc.Transaction.Bounds.{framed, action_function_call-ok_iff}
use proof_forge_near.Rpc.Send.Layout.{read_transaction, read_transaction-transaction}
use proof_forge_near.Rpc.BlockTime.{whole_seconds, with_zone, six_digits}
use proof_forge_near.Rpc.BlockTime.Units.{whole_seconds_units}
use proof_forge_near.Rpc.BlockTime.Iso.{six_digits-with_zone}

decode_u64_le-encode_u64_le_example :
    (encode_u64_le (negsuc 0) >>= λ b. decode_u64_le ((9 ∷ []) ++ (b ++ (8 ∷ []))) 1)
    ≡ ok 18446744073709551615
decode_u64_le-encode_u64_le_example = decode_u64_le-encode_u64_le (9 ∷ []) (8 ∷ []) (negsuc 0)

decode_i64_le-encode_i64_le_example :
    (encode_i64_le (negsuc 4) >>= λ b. decode_i64_le ((9 ∷ []) ++ (b ++ [])) 1) ≡ ok (negsuc 4)
decode_i64_le-encode_i64_le_example = decode_i64_le-encode_i64_le (9 ∷ []) [] (negsuc 4)

alice_bytes : encode (codes "alice") ≡ some (codes "alice")
unfolding encode
alice_bytes = refl

bob_bytes : encode (codes "bob") ≡ some (codes "bob")
unfolding encode
bob_bytes = refl

encode_principal_account_id_example :
    encode_principal_account_id (codes "alice")
    ≡ ok (to_le 8 5 ++ (codes "alice" ++ replicate 59 0))
encode_principal_account_id_example =
    encode_principal_account_id_lem (codes "alice") (codes "alice") alice_bytes

-- The bytes of a transaction of `alice` to `bob` with two actions.
abbrev alice_tx : Bytes
alice_tx =
    5
    ∷ 0
    ∷ 0
    ∷ 0
    ∷ (codes "alice"
        ++ (0
            ∷ (replicate 32 7
                ++ (41
                    ∷ 0
                    ∷ 0
                    ∷ 0
                    ∷ 0
                    ∷ 0
                    ∷ 0
                    ∷ 0
                    ∷ 3
                    ∷ 0
                    ∷ 0
                    ∷ 0
                    ∷ (codes "bob" ++ (replicate 32 9 ++ (2 ∷ 0 ∷ 0 ∷ 0 ∷ 0 ∷ 3 ∷ 1 ∷ [])))))))

alice_tx-transaction :
    transaction
      (codes "alice")
      (replicate 32 7)
      (pos 41)
      (codes "bob")
      (replicate 32 9)
      ((0 ∷ []) ∷ (3 ∷ 1 ∷ []) ∷ [])
    ≡ ok alice_tx
unfolding transaction pack_u32 borsh_string u64 to_le
alice_tx-transaction = refl

read_transaction-transaction_example :
    read_transaction alice_tx
    ≡ some (record {
      signer = codes "alice";
      curve = 0;
      public_key = replicate 32 7;
      nonce = 41;
      receiver = codes "bob";
      block_hash = replicate 32 9;
      action_count = 2;
      actions = 0 ∷ 3 ∷ 1 ∷ [];
    })
unfolding join_actions
read_transaction-transaction_example =
    read_transaction-transaction (codes "alice") (codes "bob") (codes "alice") (codes "bob")
      (replicate 32 7) (replicate 32 9) alice_tx 41 ((0 ∷ []) ∷ (3 ∷ 1 ∷ []) ∷ []) refl refl
      alice_bytes bob_bytes alice_tx-transaction

action_function_call-ok_iff_example :
    (action_function_call (codes "get") [] (pos 5) (pos 0)
      ≡ ok (2 ∷ ((to_le 4 3 ++ codes "get") ++ ((to_le 4 0 ++ []) ++ (to_le 8 5 ++ to_le 16 0)))))
    ↔ ((name : Bytes) × (g : ℕ) × (d : ℕ) × (encode (codes "get") ≡ some name)
        × ((length name < 2 ^ 32) × (◌<◌ 0 (2 ^ 32)))
        × ((pos 5 ≡ pos g) × (g < 2 ^ 64))
        × ((pos 0 ≡ pos d) × (d < 2 ^ 128))
        × (◌≡◌ {A = Bytes}
            (2 ∷ (framed name ++ (framed [] ++ (to_le 8 g ++ to_le 16 d))))
            (2 ∷ ((to_le 4 3 ++ codes "get") ++ ((to_le 4 0 ++ []) ++ (to_le 8 5 ++ to_le 16 0))))))
action_function_call-ok_iff_example =
    action_function_call-ok_iff (codes "get") [] (pos 5) (pos 0)
      (2 ∷ ((to_le 4 3 ++ codes "get") ++ ((to_le 4 0 ++ []) ++ (to_le 8 5 ++ to_le 16 0))))

-- 1 700 000 000 seconds are in November 2023; its milliseconds are read as 1 700 seconds.
whole_seconds_units_example :
    (whole_seconds (pos 1700000000) ≡ pos 1700000000)
    × (whole_seconds (pos (10 ^ 9 * 1700000000)) ≡ pos 1700000000)
    × (whole_seconds (pos (1000 * 1700000000)) ≡ pos (1700000000 / 10 ^ 6))
whole_seconds_units_example = whole_seconds_units 1700000000 (omega arith) (omega arith)

abbrev ascii_digit : ℕ → Bool
ascii_digit ch = leb 48 ch && leb ch 57

six_digits-with_zone_example :
    six_digits ascii_digit (with_zone (codes "05" ++ (b'.' ∷ (codes "12" ++ codes "Z"))))
    ≡ codes "05" ++ (b'.' ∷ (take 6 (codes "12" ++ codes "000000") ++ codes "+00:00"))
six_digits-with_zone_example =
    six_digits-with_zone ascii_digit refl (codes "05") (codes "12") (refl, (refl, tt))
      (refl, (refl, tt))
