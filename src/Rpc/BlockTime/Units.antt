-- ===== src/Rpc/BlockTime/Units.antt =====
-- The unit that `latest_block_time_unix_seconds` takes a number to be in.
use proof_forge_near.Prelude.{◌≡◌, ℕ, ◌*◌, ◌/◌, ◌^◌, ◌<◌, ◌≤◌, arith}
use proof_forge_near.Py.Int.{pos}
use proof_forge_near.Rpc.BlockTime.{whole_seconds}

-- A time `s` from 2001 up to 10 ^ 10 seconds is read right from its seconds and from its nanoseconds,
-- but its milliseconds are taken to be nanoseconds, which gives a millionth of it.
pub whole_seconds_units :
    (s : ℕ)
    → 10 ^ 9 < s
    → s ≤ 10 ^ 10
    → (whole_seconds (pos s) ≡ pos s)
      × (whole_seconds (pos (10 ^ 9 * s)) ≡ pos s)
      × (whole_seconds (pos (1000 * s)) ≡ pos (s / 10 ^ 6))
unfolding whole_seconds
whole_seconds_units s low high = (ground arith, ground arith, ground arith)
