-- ===== src/Tcp/Seq.antt =====
-- Comparisons of sequence numbers that wrap (inc/base/stddef.h): on positions of a stream less than
-- 2^31 apart, they compare the positions.
use caladan.Common.{ℕ, ◌+◌, ◌-◌, ◌%◌, ◌^◌, ◌≤◌, ◌<◌, ◌≡◌, ltb, leb, arith}
use caladan.Tcp.{word32, sub32, wraps_lt, wraps_lte, wraps_gt, wraps_gte}

-- The distance that the comparisons decide
abbrev pub Near : ℕ → ℕ → Type 0
Near a b = (a < b + 2 ^ 31) × (b < a + 2 ^ 31)

pub wraps_lt-Near : (a b : ℕ) → Near a b → wraps_lt (a % word32) (b % word32) ≡ ltb a b
unfolding wraps_lt
wraps_lt-Near a b h = ground arith

pub wraps_lte-Near : (a b : ℕ) → Near a b → wraps_lte (a % word32) (b % word32) ≡ leb a b
unfolding wraps_lte
wraps_lte-Near a b h = ground arith

pub wraps_gt-Near : (a b : ℕ) → Near a b → wraps_gt (a % word32) (b % word32) ≡ ltb b a
unfolding wraps_gt
wraps_gt-Near a b h = ground arith

wraps_gte-Near : (a b : ℕ) → Near a b → wraps_gte (a % word32) (b % word32) ≡ leb b a
unfolding wraps_gte
wraps_gte-Near a b h = ground arith

-- On positions of a stream that are less than 2^31 apart, the four comparisons of sequence numbers
-- compare the positions, however often the numbers have wrapped.
pub wraps_lem :
    (a b : ℕ)
    → Near a b
    → (wraps_lt (a % word32) (b % word32) ≡ ltb a b)
      × (wraps_lte (a % word32) (b % word32) ≡ leb a b)
      × (wraps_gt (a % word32) (b % word32) ≡ ltb b a)
      × (wraps_gte (a % word32) (b % word32) ≡ leb b a)
wraps_lem a b h =
    (wraps_lt-Near a b h, wraps_lte-Near a b h, wraps_gt-Near a b h, wraps_gte-Near a b h)

pub sub32_near : (a b : ℕ) → b ≤ a → a < b + word32 → sub32 (a % word32) (b % word32) ≡ a - b
sub32_near a b h k = ground arith
