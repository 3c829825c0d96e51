-- ===== src/Common/Mod.antt =====
-- Counters that wrap: what the low digits of a word keep of the number that it stands for.
use Prim.Native.Nat.{ℕ, zero, suc, ◌+◌, ◌*◌, ◌/◌, ◌%◌, ◌^◌, ◌<◌}
use mathlib.Core.Path.{◌≡◌, ap, ◌∙◌, sym}
use mathlib.Core.Logic.{◌≢◌}
use native.Mathlib.Nat.{
  pow-suc, mod-add-div', mod-lt, mod-eq_of_lt, div-lt_iff_lt-mul, mul_assoc, mul_comm,
  add-mul-div_right, add-mul-mod_self_right,
}
use native.Mathlib.Omega.{arith}

pub pow-add : (k n : ℕ) → 2 ^ (k + n) ≡ 2 ^ k * 2 ^ n
pow-add zero n = let e : 0 + n ≡ n = omega arith in rw e (omega arith)
pow-add (suc k) n =
    let e : suc k + n ≡ suc (k + n) = omega arith in
    rw e (
      omega (
        arith,
        pow-suc 2 (k + n),
        ap (λ (t : ℕ). t * 2) (pow-add k n),
        ap (λ (t : ℕ). t * 2 ^ n) (pow-suc 2 k),
      ))

-- `w` is `p` times `d`.
module _ (p d w : ℕ) (pos : 0 < p) (e : p * d ≡ w) where
  decompose : (x : ℕ) → x ≡ x % w + x / w * d * p
  decompose x = omega (
    arith,
    mod-add-div' x w,
    ap (λ (t : ℕ). x / w * t) e,
    mul_assoc (x / w) d p,
    ap (λ (t : ℕ). x / w * t) (mul_comm d p),
  )

  pub mod-mod_low : (x : ℕ) → x % w % p ≡ x % p
  mod-mod_low x =
      sym (ap (λ (t : ℕ). t % p) (decompose x) ∙ add-mul-mod_self_right (x % w) (x / w * d) p)

  pub div-mod_high : (x : ℕ) → 0 < w → x % w / p ≡ x / p % d
  div-mod_high x posw = sym (
      ap (λ (t : ℕ). t / p % d) (decompose x)
      ∙ ap (λ (t : ℕ). t % d) (add-mul-div_right (x % w) (x / w * d) pos)
      ∙ add-mul-mod_self_right (x % w / p) (x / w) d
      ∙ mod-eq_of_lt (
          (div-lt_iff_lt-mul pos).1
            (let lt = mod-lt x {m = w} posw in omega (arith, mul_comm p d, e))))

-- Numbers less than `p` apart have different remainders by `p`.
pub mod-ne-mod : (a b p : ℕ) → a < b → b < a + p → a % p ≢ b % p
mod-ne-mod a b p lt near e =
    grind (arith, mod-add-div' a p, mod-add-div' b p, mod-lt a {m = p} (omega arith))
