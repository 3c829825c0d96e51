-- ===== src/Tcache/Reclaim.antt =====
-- Shared magazines given back (base/tcache.c).
use caladan.Common.{ℕ, ◌+◌, ◌-◌, ◌%◌, ◌^◌, ◌≤◌, ◌≡◌, refl, List, [], ◌∷◌, arith, length, times}
use caladan.Tcache.{TcacheOps, Laws, State, free_mags, reclaim}
use caladan.Tcache.Bag.{times_mags, IsValid, total}

-- The items of all the magazines
abbrev pub length_mags : List (List ℕ) → ℕ
length_mags [] = 0
length_mags (mag ∷ mags) = length mag + length_mags mags

module _ {P : Type 0} (ops : TcacheOps P) (laws : Laws P ops) where
  -- The magazines have gone to the backing, and nothing else has moved.
  record Gone (mags : List (List ℕ)) (s s' : State P) : Type 0 where
    handle : s'.ltc ≡ s.ltc
    shared : s'.tc.shared_mags ≡ s.tc.shared_mags
    sized : s'.tc.mag_size ≡ s.tc.mag_size
    sound : laws.IsSound s'.pool
    returned :
        (a : ℕ) → times a (laws.stock s'.pool) ≡ times_mags a mags + times a (laws.stock s.pool)
    out : laws.out s'.pool + length_mags mags ≡ laws.out s.pool

  free_mags-Gone :
      (s : State P) (mags : List (List ℕ))
      → laws.IsSound s.pool
      → length_mags mags ≤ laws.out s.pool
      → Gone mags s (free_mags ops s mags)
  unfolding free_mags
  free_mags-Gone s [] v h = record {
    handle = refl;
    shared = refl;
    sized = refl;
    sound = v;
    returned = λ a. omega arith;
    out = omega arith;
  }
  free_mags-Gone s (mag ∷ mags) v h =
      let f = laws.free_some s.pool mag v (omega (arith, h)) in
      let g =
        free_mags-Gone
          (record s {
            tc = record s.tc { mags_allocated = (s.tc.mags_allocated + 2 ^ 64 - 1) % 2 ^ 64 };
            pool = ops.free s.pool mag;
          })
          mags f.0 (omega (arith, h, f.1)) in
      record {
        handle = g.handle;
        shared = g.shared;
        sized = g.sized;
        sound = g.sound;
        returned = λ a. omega (arith, g.returned a, f.2 a);
        out = omega (arith, g.out, f.1);
      }

  -- `tcache_reclaim`, while what the shared magazines hold is out of the backing: it gives every item
  -- of theirs back to it, leaves none shared, and touches neither the handle nor any other item.
  pub reclaim_lem :
      (s : State P)
      → IsValid ops laws s
      → length_mags s.tc.shared_mags ≤ laws.out s.pool
      → ((reclaim ops s).tc.shared_mags ≡ [])
        × ((reclaim ops s).ltc ≡ s.ltc)
        × (laws.out (reclaim ops s).pool + length_mags s.tc.shared_mags ≡ laws.out s.pool)
        × laws.IsSound (reclaim ops s).pool
        × ((a : ℕ) → total ops laws a (reclaim ops s) ≡ total ops laws a s)
  unfolding reclaim
  reclaim_lem s v h =
      let g =
        free_mags-Gone (record s { tc = record s.tc { shared_mags = [] } }) s.tc.shared_mags v.sound
          h in
      (
        g.shared,
        g.handle,
        g.out,
        g.sound,
        λ a. rw (g.handle, g.shared) (omega (arith, g.returned a)),
      )
