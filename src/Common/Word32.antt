-- ===== src/Common/Word32.antt =====
-- Unsigned words of 32 bits, and their comparison up to wrap-around (inc/base/stddef.h).
use Prim.Native.Nat.{ℕ, ◌+◌, ◌-◌, ◌%◌}
use mathlib.Core.Bool.{Bool, ◌||◌}
use caladan.Common.Tests.{ltb, ◌==◌}

abbrev pub word32 : ℕ
word32 = 4294967296

-- Sum and difference on 32 bits
abbrev pub add32 : ℕ → ℕ → ℕ
add32 a b = (a + b) % word32

abbrev pub sub32 : ℕ → ℕ → ℕ
sub32 a b = (a + word32 - b) % word32

-- Whether a difference on 32 bits is below 0 as a signed number.
abbrev pub is_negative : ℕ → Bool
is_negative d = ltb 2147483647 d

unfoldable pub wraps_lt : ℕ → ℕ → Bool
wraps_lt a b = is_negative (sub32 a b)

unfoldable pub wraps_lte : ℕ → ℕ → Bool
wraps_lte a b = is_negative (sub32 a b) || sub32 a b == 0

unfoldable pub wraps_gt : ℕ → ℕ → Bool
wraps_gt a b = is_negative (sub32 b a)

unfoldable pub wraps_gte : ℕ → ℕ → Bool
wraps_gte a b = is_negative (sub32 b a) || sub32 b a == 0
