-- ===== src/Rpc/Send/Layout.antt =====
-- The transaction bytes read back, field by field.
use proof_forge_near.Prelude.{
  ℕ, ◌^◌, ◌<◌, ◌≡◌, refl, ap, ◌∙◌, false, Option, none, some, List, [], ◌∷◌, ◌++◌, append_assoc,
  arith, if◌then◌else◌, ltb, Text, Bytes, length, take, drop, length-append, take-length_append,
  drop-length_append,
}
use proof_forge_near.Py.Result.{Result, ok, err}
use proof_forge_near.Py.Int.{pos}
use proof_forge_near.Py.Bytes.{to_le, from_le, length-to_le, from_le-to_le}
use proof_forge_near.Py.Utf8.{encode}
use proof_forge_near.Rpc.Exc.{Exc}
use proof_forge_near.Rpc.Wire.{borsh_string, u64, pack_u32}
use proof_forge_near.Rpc.Transaction.{transaction, join_actions}

-- A Borsh reader: the value, and the bytes behind it.
abbrev pub Reader : Type 0 → Type 0
Reader A = Bytes → Option (A × Bytes)

infixl 5 ◌>>=◌
abbrev pub ◌>>=◌ : {A B : Type 0} → Reader A → (A → Reader B) → Reader B
◌>>=◌ m f b = elim (m b) [ none ↦ none | some (a, rest) ↦ f a rest ]

abbrev pub pure : {A : Type 0} → A → Reader A
pure a b = some (a, b)

pub read_n : ℕ → Reader Bytes
read_n n b = if ltb (length b) n then none else some (take n b, drop n b)

-- An unsigned field of `w` bytes.
pub read_word : ℕ → Reader ℕ
read_word w = do b ← read_n w; pure (from_le b)

-- A `Vec<u8>` or a `String`.
pub read_block : Reader Bytes
read_block = do n ← read_word 4; read_n n

pub record Transaction : Type 0 where
  pub signer : Bytes
  pub curve : ℕ
  pub public_key : Bytes
  pub nonce : ℕ
  pub receiver : Bytes
  pub block_hash : Bytes
  pub action_count : ℕ
  pub actions : Bytes

pub read_transaction : Bytes → Option Transaction
read_transaction tx = elim (fields tx) [
  | none ↦ none
  | some (t, rest) ↦ some (record t { actions = rest })
]
  where
    fields : Reader Transaction
    fields = do
      signer ← read_block
      curve ← read_word 1
      public_key ← read_n 32
      nonce ← read_word 8
      receiver ← read_block
      block_hash ← read_n 32
      action_count ← read_word 4
      pure (record {
        signer = signer;
        curve = curve;
        public_key = public_key;
        nonce = nonce;
        receiver = receiver;
        block_hash = block_hash;
        action_count = action_count;
        actions = [];
      })

read_n-append : (b rest : Bytes) → read_n (length b) (b ++ rest) ≡ some (b, rest)
unfolding read_n
read_n-append b rest =
    let fits : ltb (length (b ++ rest)) (length b) ≡ false = ground (arith, length-append b rest) in
    rw (fits, take-length_append b rest, drop-length_append b rest)

read_n_exact : (n : ℕ) (b rest : Bytes) → length b ≡ n → read_n n (b ++ rest) ≡ some (b, rest)
read_n_exact n b rest e = rw (← e) (read_n-append b rest)

read_word-to_le :
    (w n : ℕ) (rest : Bytes) → n < 256 ^ w → read_word w (to_le w n ++ rest) ≡ some (n, rest)
unfolding read_word
read_word-to_le w n rest h =
    ground (arith, read_n_exact w (to_le w n) rest (length-to_le w n), from_le-to_le w n h)

read_block-append :
    (b rest : Bytes)
    → length b < 256 ^ 4
    → read_block (to_le 4 (length b) ++ (b ++ rest)) ≡ some (b, rest)
unfolding read_block
read_block-append b rest h =
    ground (arith, read_word-to_le 4 (length b) (b ++ rest) h, read_n-append b rest)

pack_u32_sound : (n : ℕ) (b : Bytes) → pack_u32 (pos n) ≡ ok b → (n < 256 ^ 4) × (b ≡ to_le 4 n)
unfolding pack_u32
pack_u32_sound n b h = ground arith

u64_sound : (n : ℕ) (b : Bytes) → u64 (pos n) ≡ ok b → (n < 256 ^ 8) × (b ≡ to_le 8 n)
unfolding u64
u64_sound n b h = ground arith

borsh_string_sound :
    (s : Text) (raw b : Bytes)
    → encode s ≡ some raw
    → borsh_string s ≡ ok b
    → (length raw < 256 ^ 4) × (b ≡ to_le 4 (length raw) ++ raw)
unfolding borsh_string
borsh_string_sound s raw b e h = ground arith

-- The parts of a transaction that was built.
transaction_parts :
    (signer receiver : Text) (signer_raw receiver_raw public_key block_hash tx : Bytes) (nonce : ℕ)
    (actions : List Bytes)
    → encode signer ≡ some signer_raw
    → encode receiver ≡ some receiver_raw
    → transaction signer public_key (pos nonce) receiver block_hash actions ≡ ok tx
    → (length actions < 256 ^ 4)
      × (length signer_raw < 256 ^ 4)
      × (nonce < 256 ^ 8)
      × (length receiver_raw < 256 ^ 4)
      × (tx
          ≡ (to_le 4 (length signer_raw) ++ signer_raw)
            ++ (0
                ∷ (public_key
                    ++ (to_le 8 nonce
                        ++ ((to_le 4 (length receiver_raw) ++ receiver_raw)
                            ++ (block_hash
                                ++ (to_le 4 (length actions) ++ join_actions actions)))))))
unfolding transaction
transaction_parts s r sr rr pk bh tx n acts es er h =
    build (pack_u32 (pos (length acts))) (borsh_string s) (u64 (pos n)) (borsh_string r) refl refl
      refl refl
  where
    build :
        (c a b d : Result Exc Bytes)
        → pack_u32 (pos (length acts)) ≡ c
        → borsh_string s ≡ a
        → u64 (pos n) ≡ b
        → borsh_string r ≡ d
        → (length acts < 256 ^ 4)
          × (length sr < 256 ^ 4)
          × (n < 256 ^ 8)
          × (length rr < 256 ^ 4)
          × (tx
              ≡ (to_le 4 (length sr) ++ sr)
                ++ (0
                    ∷ (pk
                        ++ (to_le 8 n
                            ++ ((to_le 4 (length rr) ++ rr)
                                ++ (bh ++ (to_le 4 (length acts) ++ join_actions acts)))))))
    build (ok c) (ok a) (ok b) (ok d) ec ea eb ed = ground (
      arith,
      ec,
      ea,
      eb,
      ed,
      pack_u32_sound (length acts) c ec,
      borsh_string_sound s sr a es ea,
      u64_sound n b eb,
      borsh_string_sound r rr d er ed,
    )
    build (err e) _ _ _ ec ea eb ed = absurd (ground (arith, ec))
    build (ok c) (err e) _ _ ec ea eb ed = absurd (ground (arith, ec, ea))
    build (ok c) (ok a) (err e) _ ec ea eb ed = absurd (ground (arith, ec, ea, eb))
    build (ok c) (ok a) (ok b) (err e) ec ea eb ed = absurd (ground (arith, ec, ea, eb, ed))

read_byte : (rest : Bytes) → read_word 1 (0 ∷ rest) ≡ some (0, rest)
unfolding read_word from_le
read_byte rest = ground (arith, read_n_exact 1 (0 ∷ []) rest refl)

-- Reading a transaction back gives the UTF-8 bytes of the signer and of the receiver, curve byte 0,
-- the public key, the nonce, the block hash, the number of actions and their bytes joined. The key
-- and the hash have 32 bytes.
pub read_transaction-transaction :
    (signer receiver : Text) (signer_raw receiver_raw public_key block_hash tx : Bytes) (nonce : ℕ)
    (actions : List Bytes)
    → length public_key ≡ 32
    → length block_hash ≡ 32
    → encode signer ≡ some signer_raw
    → encode receiver ≡ some receiver_raw
    → transaction signer public_key (pos nonce) receiver block_hash actions ≡ ok tx
    → read_transaction tx
      ≡ some (record {
        signer = signer_raw;
        curve = 0;
        public_key = public_key;
        nonce = nonce;
        receiver = receiver_raw;
        block_hash = block_hash;
        action_count = length actions;
        actions = join_actions actions;
      })
unfolding read_transaction
read_transaction-transaction s r sr rr pk bh tx n acts hk hh es er h =
    let (b1, b2, b3, b4, e) = transaction_parts s r sr rr pk bh tx n acts es er h in
    let r7 = join_actions acts in
    let r6 = to_le 4 (length acts) ++ r7 in
    let r5 = bh ++ r6 in
    let r4 = to_le 4 (length rr) ++ (rr ++ r5) in
    let r3 = to_le 8 n ++ r4 in
    let r2 = pk ++ r3 in
    rw
      (e
        ∙ (append_assoc (to_le 4 (length sr)) sr _
            ∙ ap (λ x. to_le 4 (length sr) ++ (sr ++ (0 ∷ (pk ++ (to_le 8 n ++ x)))))
                (append_assoc (to_le 4 (length rr)) rr r5)))
      (ground (
        arith,
        read_block-append sr (0 ∷ r2) b2,
        read_byte r2,
        read_n_exact 32 pk r3 hk,
        read_word-to_le 8 n r4 b3,
        read_block-append rr r5 b4,
        read_n_exact 32 bh r6 hh,
        read_word-to_le 4 (length acts) r7 b1,
      ))
