-- ===== src/Rpc/BlockTime.antt =====
-- `latest_block_time_unix_seconds` of near_rpc.py. Which characters are digits, how a value that is
-- neither a number nor a text is shown, and `datetime` are parameters.
pub mod Units
pub mod Iso
use proof_forge_near.Prelude.{
  ℕ, ◌+◌, ◌/◌, ◌^◌, Bool, true, false, Option, none, some, List, [], ◌∷◌, ◌++◌, ◌==◌, ltb,
  if◌then◌else◌, Text, codes, take,
}
use proof_forge_near.Py.Result.{Result, ok, err, or_raise}
use proof_forge_near.Py.Int.{ℤ, pos, negsuc}
use proof_forge_near.Py.Space.{strip_space}
use proof_forge_near.Py.Value.{Value, null, bool, int, str}
use proof_forge_near.Rpc.Exc.{Exc, near_rpc_error, missing_block_time, value_error}
use proof_forge_near.Rpc.Dynamic.{get_or_none}
use proof_forge_near.Rpc.Env.{Env, Client}
use proof_forge_near.Rpc.Exec.{Exec, ◌>>=◌, lift}
use proof_forge_near.Rpc.Query.{status, or_empty}

-- A number of nanoseconds, milliseconds or seconds.
unfoldable pub whole_seconds : ℤ → ℤ
whole_seconds (pos n) =
    if ltb (10 ^ 12) n then pos (n / 10 ^ 9) else if ltb (10 ^ 10) n then pos (n / 1000) else pos n
whole_seconds (negsuc n) = negsuc n

-- `if s.endswith("Z"): s = s[:-1] + "+00:00"`
unfoldable pub with_zone : Text → Text
with_zone [] = []
with_zone (ch ∷ []) = if ch == b'Z' then codes "+00:00" else ch ∷ []
with_zone (ch ∷ next ∷ rest) = ch ∷ with_zone (next ∷ rest)

behind : ℕ → Option (Text × Text) → Option (Text × Text)
behind ch none = none
behind ch (some (head, rest)) = some (ch ∷ head, rest)

-- `s.split(".", 1)`, where there is a dot.
unfoldable pub split_dot : Text → Option (Text × Text)
unfolding behind
split_dot [] = none
split_dot (ch ∷ rest) =
    let more = split_dot rest in if ch == b'.' then some ([], rest) else behind ch more

module _ (is_digit : ℕ → Bool) where
  -- The digits at the front, and what is behind them.
  unfoldable pub digits_first : Text → Text × Text
  digits_first [] = ([], [])
  digits_first (ch ∷ rest) =
      let (frac, tz) = digits_first rest in if is_digit ch then (ch ∷ frac, tz) else ([], ch ∷ rest)

  -- The fraction of a second has six digits behind it.
  unfoldable pub six_digits : Text → Text
  unfolding split_dot digits_first
  six_digits s = elim (split_dot s) [
    | none ↦ s
    | some (head, rest) ↦
        let (frac, tz) = digits_first rest in
        head ++ (b'.' ∷ (take 6 (frac ++ codes "000000") ++ tz))
  ]

  unfoldable pub iso_text : Text → Text
  unfolding strip_space with_zone six_digits
  iso_text s = six_digits (with_zone (strip_space s))

  module _ (show : Value → Text) (timestamp : Text → Option ℤ) where
    -- The seconds that a status `st` names.
    unfoldable pub time_of : Value → Option Value → Result Exc ℤ
    unfolding whole_seconds iso_text
    time_of st none = err (near_rpc_error (missing_block_time st))
    time_of st (some null) = err (near_rpc_error (missing_block_time st))
    time_of st (some (int n)) = ok (whole_seconds n)
    time_of st (some (bool b)) = ok (whole_seconds (pos (if b then 1 else 0)))
    time_of st (some (str s)) = or_raise (timestamp (iso_text s)) value_error
    time_of st (some v) = or_raise (timestamp (iso_text (show v))) value_error

    unfoldable pub latest_block_time : (E : Env) → Client → Exec E.World ℤ
    unfolding status or_empty time_of
    latest_block_time E c = do
      st ← status E c
      sync ← lift (get_or_none (codes "sync_info") st)
      raw ← lift (get_or_none (codes "latest_block_time") (or_empty sync))
      lift (time_of st raw)
