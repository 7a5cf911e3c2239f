-- ===== src/Suites/Bytes.antt =====
-- What the suites' fixtures are built from.
use proof_forge_near.Prelude.{
  ℕ, zero, suc, ◌+◌, ◌-◌, ◌/◌, ◌%◌, ◌||◌, List, [], ◌∷◌, ◌++◌, ◌==◌, ltb, if◌then◌else◌, Bytes,
  codes, length, replicate,
}

-- `unit * n`
unfoldable pub repeat : ℕ → Bytes → Bytes
repeat zero unit = []
repeat (suc n) unit = unit ++ repeat n unit

-- `b"".join(parts)`
unfoldable pub join : List Bytes → Bytes
join [] = []
join (p ∷ ps) = p ++ join ps

hex_digit : ℕ → ℕ
hex_digit d = if ltb d 10 then 48 + d else 87 + d

-- `f"{byte:02x}"`
unfoldable pub hex2 : ℕ → Bytes
unfolding hex_digit
hex2 b = hex_digit (b / 16) ∷ hex_digit (b % 16) ∷ []

-- `b"".join(b"\\u00" + bytes(f"{byte:02x}", "ascii") for byte in raw)`
unfoldable pub escape_all : Bytes → Bytes
unfolding hex2
escape_all [] = []
escape_all (b ∷ bs) = codes "\\u00" ++ (hex2 b ++ escape_all bs)

-- `raw.ljust(n, b"\0")`
unfoldable pub ljust : ℕ → Bytes → Bytes
ljust n raw = raw ++ replicate (n - length raw) 0

-- `sum(byte in b" \t\r\n" for byte in raw)`
unfoldable pub count_space : Bytes → ℕ
count_space [] = 0
count_space (b ∷ bs) =
    let more = count_space bs in if b == 32 || b == 9 || b == 13 || b == 10 then suc more else more
