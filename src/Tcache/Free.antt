-- ===== src/Tcache/Free.antt =====
-- The bag of items under frees (inc/base/tcache.h, base/tcache.c).
use caladan.Common.{
  ℕ, ◌+◌, ◌≤◌, ◌≡◌, refl, ap, inl, inr, List, [], ◌∷◌, leb, arith, Bool-cases, times,
}
use caladan.Tcache.{TcacheOps, Laws, State, start_mag, slow_free, tcache_free}
use caladan.Tcache.Bag.{IsValid, total, mag_full}

module _ {P : Type 0} (ops : TcacheOps P) (laws : Laws P ops) where
  -- After a free: valid, with one item more.
  abbrev Added : State P → ℕ → State P → Type 0
  Added s item s' =
      IsValid ops laws s'
      × ((a : ℕ) → total ops laws a s' ≡ times a (item ∷ []) + total ops laws a s)

  slow_free_lem :
      (s : State P) (item : ℕ) (prev : List ℕ)
      → s.ltc.previous ≡ prev
      → s.ltc.capacity ≤ s.ltc.rounds
      → IsValid ops laws s
      → Added s item (slow_free ops s prev item)
  unfolding slow_free start_mag
  slow_free_lem s item [] e full v = (
    record {
      sized = v.sized;
      positive = v.positive;
      counted = refl;
      bounded = omega (arith, v.positive, v.sized);
      previous_full = inr (omega (arith, v.counted, v.bounded, full));
      shared_full = v.shared_full;
      sound = v.sound;
    },
    λ a. omega (arith, ap (times a) e),
  )
  slow_free_lem s item (x ∷ xs) e full v = (
    record {
      sized = v.sized;
      positive = v.positive;
      counted = refl;
      bounded = omega (arith, v.positive, v.sized);
      previous_full = inr (omega (arith, v.counted, v.bounded, full));
      shared_full = (mag_full ops laws s x xs v e, v.shared_full);
      sound = v.sound;
    },
    λ a. omega (arith, ap (times a) e),
  )

  -- `tcache_free` keeps the cache valid, puts the item into it once, and moves no other item in or
  -- out.
  pub tcache_free_lem :
      (s : State P) (item : ℕ)
      → IsValid ops laws s
      → IsValid ops laws (tcache_free ops s item)
        × ((a : ℕ)
            → total ops laws a (tcache_free ops s item) ≡ times a (item ∷ []) + total ops laws a s)
  unfolding tcache_free
  tcache_free_lem s item v = elim (Bool-cases (leb s.ltc.capacity s.ltc.rounds)) [
    | inl full ↦ rw full (slow_free_lem s item s.ltc.previous refl (ground arith) v)
    | inr space ↦ rw space (
      record {
        sized = v.sized;
        positive = v.positive;
        counted = omega (arith, v.counted);
        bounded = ground arith;
        previous_full = v.previous_full;
        shared_full = v.shared_full;
        sound = v.sound;
      },
      λ a. omega arith,
    )
  ]
