-- ===== src/Tcache/Bag.antt =====
-- No item is lost and none appears: the items of a cache as a bag (base/tcache.c).
use caladan.Common.{
  ℕ, ◌+◌, ◌≤◌, ◌<◌, ◌≡◌, refl, sym, ap, ◌∙◌, ◌⊎◌, inl, inr, List, [], ◌∷◌, arith, length, times,
}
use mathlib.Core.List.{cons-ne-nil}
use caladan.Tcache.{TcacheOps, Laws, State}

-- Every magazine of the list is full.
abbrev pub AllFull : ℕ → List (List ℕ) → Type 0
AllFull n [] = Unit {0}
AllFull n (mag ∷ mags) = (length mag ≡ n) × AllFull n mags

abbrev pub times_mags : ℕ → List (List ℕ) → ℕ
times_mags a [] = 0
times_mags a (mag ∷ mags) = times a mag + times_mags a mags

pub nil_of_length : (xs : List ℕ) → length xs ≡ 0 → xs ≡ []
nil_of_length [] h = refl
nil_of_length (x ∷ xs) h = absurd (omega (arith, h))

module _ {P : Type 0} (ops : TcacheOps P) (laws : Laws P ops) where
  pub record IsValid (s : State P) : Type 0 where
    pub sized : s.ltc.capacity ≡ s.tc.mag_size
    pub positive : 0 < s.tc.mag_size
    pub counted : length s.ltc.loaded ≡ s.ltc.rounds
    pub bounded : s.ltc.rounds ≤ s.ltc.capacity
    pub previous_full : (s.ltc.previous ≡ []) ⊎ (length s.ltc.previous ≡ s.ltc.capacity)
    pub shared_full : AllFull s.tc.mag_size s.tc.shared_mags
    pub sound : laws.IsSound s.pool

  -- How often an item stands in the handle, in the shared magazines and in what backs the cache.
  abbrev pub total : ℕ → State P → ℕ
  total a s =
      times a s.ltc.loaded
      + times a s.ltc.previous
      + times_mags a s.tc.shared_mags
      + times a (laws.stock s.pool)

  pub mag_full :
      (s : State P) (x : ℕ) (xs : List ℕ)
      → IsValid s
      → s.ltc.previous ≡ x ∷ xs
      → length (x ∷ xs) ≡ s.tc.mag_size
  mag_full s x xs v e = elim v.previous_full [
    | inl empty ↦ absurd (cons-ne-nil x xs (sym e ∙ empty))
    | inr f ↦ ap length (sym e) ∙ f ∙ v.sized
  ]
