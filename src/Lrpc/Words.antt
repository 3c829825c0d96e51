-- ===== src/Lrpc/Words.antt =====
-- What the masks and the wrapping counters of a ring of 2^k messages compute (base/lrpc.c).
use Prim.Native.Nat.{bit_and, bit_or}
use native.Mathlib.Nat.{one-le-pow, pow-suc}
use caladan.Common.{
  ℕ, zero, suc, ◌+◌, ◌-◌, ◌*◌, ◌/◌, ◌%◌, ◌^◌, ◌≤◌, ◌<◌, ◌≡◌, refl, arith, ap, ◌∙◌, sym,
}
use caladan.Common.Bits.{bit_and-mask, bit_and-bit, bit_or-bit, bit_or-zero}
use caladan.Common.Mod.{pow-add, mod-mod_low, div-mod_high}
use caladan.Lrpc.{u32_mod, done_parity, cmd_mask, sub_u32, inc_u32, parity, slot}

-- 2^k times its cofactor is 2^32, and the cofactor is even.
cofactor : (k : ℕ) → k ≤ 31 → 2 ^ k * (2 * 2 ^ (31 - k)) ≡ u32_mod
cofactor k h =
    let all : k + suc (31 - k) ≡ 32 = omega arith in
    let twice : 2 * 2 ^ (31 - k) ≡ 2 ^ suc (31 - k) = omega (arith, pow-suc 2 (31 - k)) in
    ap (λ (t : ℕ). 2 ^ k * t) twice ∙ sym (pow-add k (suc (31 - k))) ∙ ap (λ (t : ℕ). 2 ^ t) all

pub slot_lem : (k n : ℕ) → k ≤ 31 → slot (n % u32_mod) (2 ^ k) ≡ n % 2 ^ k
unfolding slot
slot_lem k n h =
    bit_and-mask k (n % u32_mod)
    ∙ mod-mod_low (2 ^ k) (2 * 2 ^ (31 - k)) u32_mod (one-le-pow k 2 (omega arith)) (cofactor k h) n

-- The parity that a message at position `n` carries: set in the rounds of even number.
abbrev pub round : ℕ → ℕ → ℕ
round k n = n / 2 ^ k % 2

round_word : (k n : ℕ) → k ≤ 31 → n % u32_mod / 2 ^ k % 2 ≡ round k n
round_word k n h =
    let even = 2 ^ (31 - k) in
    ap (λ (t : ℕ). t % 2)
      (div-mod_high (2 ^ k) (2 * even) u32_mod (one-le-pow k 2 (omega arith)) (cofactor k h) n
        (omega arith))
    ∙ mod-mod_low 2 even (2 * even) (omega arith) refl (n / 2 ^ k)

pub parity_lem : (k n : ℕ) → k ≤ 31 → parity (n % u32_mod) (2 ^ k) ≡ (1 - round k n) * done_parity
unfolding parity
parity_lem k n h = ground (arith, bit_and-bit k (n % u32_mod), round_word k n h, one-le-pow k 2)

pub distance : (a b : ℕ) → a ≤ b → b < a + u32_mod → sub_u32 (b % u32_mod) (a % u32_mod) ≡ b - a
distance a b h near = omega arith

pub increment : (n : ℕ) → inc_u32 (n % u32_mod) ≡ (n + 1) % u32_mod
increment n = omega arith

pub encode :
    (cmd b : ℕ) → cmd < done_parity → b < 2 → bit_or cmd (b * done_parity) ≡ cmd + b * done_parity
encode cmd zero h hb = omega (arith, bit_or-zero cmd)
encode cmd (suc b) h hb = let e : b ≡ 0 = omega arith in rw e (omega (arith, bit_or-bit 63 cmd h))

pub decode_parity : (x : ℕ) → x < 2 ^ 64 → bit_and x done_parity ≡ x / done_parity * done_parity
decode_parity x h = omega (arith, bit_and-bit 63 x)

pub decode_cmd : (x : ℕ) → bit_and x cmd_mask ≡ x % done_parity
decode_cmd x = bit_and-mask 63 x
