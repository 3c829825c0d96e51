-- ===== src/Common/Fun.antt =====
-- Memory as functions: an array or a store of objects is a function on its indices, and a write
-- updates it at one index.
use Prim.Native.Nat.{ℕ}
use mathlib.Core.Path.{◌≡◌}
use mathlib.Core.Logic.{◌≢◌}
use native.Mathlib.Omega.{arith}
use mathlib.Core.Path.{refl, ap, ◌∙◌}
use mathlib.Core.Logic.{inl, inr}
use caladan.Common.Tests.{◌==◌, if◌then◌else◌, Bool-cases}

module _ {ℓ} {A : Type ℓ} where
  abbrev pub update : (ℕ → A) → ℕ → A → ℕ → A
  update f i v j = if i == j then v else f j

  pub update_self : (f : ℕ → A) (i : ℕ) (v : A) → update f i v i ≡ v
  update_self f i v = ground arith

  pub update_ne : (f : ℕ → A) {i j : ℕ} (v : A) → i ≢ j → update f i v j ≡ f j
  update_ne f v h = ground arith

  -- What holds of the new value and of the old one at another index
  pub update-elim {ℓ'} :
      (P : A → Type ℓ') (f : ℕ → A) (i j : ℕ) {v : A}
      → (i ≡ j → P v)
      → (i ≢ j → P (f j))
      → P (update f i v j)
  update-elim P f i j a b = elim (Bool-cases (i == j)) [
    | inl e ↦ rw e (a (ground (arith, e)))
    | inr e ↦ rw e (b (ground (arith, e)))
  ]

  -- A field that the new value has kept
  pub update-field {ℓ'} :
      {B : Type ℓ'} (g : A → B) (f : ℕ → A) (i j : ℕ) {v : A}
      → g v ≡ g (f i)
      → g (update f i v j) ≡ g (f j)
  update-field g f i j e =
      update-elim (λ x. g x ≡ g (f j)) f i j (λ h. e ∙ ap (λ (k : ℕ). g (f k)) h) (λ h. refl)
