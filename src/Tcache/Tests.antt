-- ===== src/Tcache/Tests.antt =====
-- A cache with magazines of two items on a pool of four.
use caladan.Common.{ℕ, ◌+◌, ◌*◌, ◌≡◌, refl, inl, [], ◌∷◌, arith, times}
use caladan.Mempool.{Mempool}
use caladan.Mempool.Stock
use caladan.Tcache.{State, tcache_alloc, tcache_free}
use caladan.Tcache.Bag.{IsValid, total}
use caladan.Tcache.Free.{tcache_free_lem}
use caladan.Tcache.Alloc.{Allocated, tcache_alloc_lem}
use caladan.Tcache.Pool.{mempool_ops, mempool_laws}

-- Two of four items are free, at 1032 and 1048.
abbrev half : Mempool
half = record {
  free_items = λ i. 1000 + 16 * i;
  allocated = 2;
  capacity = 4;
  buf = 1000;
  len = 64;
  pgsize = 64;
  item_len = 16;
}

half-IsValid : Stock.IsValid half
half-IsValid = record { in_use = omega arith; counted = omega arith }

-- The handle is spent, and one magazine is shared.
abbrev spent : State Mempool
spent = record {
  tc = record { mag_size = 2; shared_mags = (1000 ∷ 1016 ∷ []) ∷ []; mags_allocated = 1 };
  ltc = record { rounds = 0; capacity = 2; loaded = []; previous = [] };
  pool = half;
}

spent-IsValid : IsValid mempool_ops mempool_laws spent
unfolding mempool_laws
spent-IsValid = record {
  sized = refl;
  positive = omega arith;
  counted = refl;
  bounded = omega arith;
  previous_full = inl refl;
  shared_full = (refl, tt);
  sound = half-IsValid;
}

tcache_alloc_lem_example : Allocated mempool_ops mempool_laws spent (tcache_alloc mempool_ops spent)
tcache_alloc_lem_example = tcache_alloc_lem mempool_ops mempool_laws spent spent-IsValid

tcache_free_lem_example :
    IsValid mempool_ops mempool_laws (tcache_free mempool_ops spent 5000)
    × ((a : ℕ)
        → total mempool_ops mempool_laws a (tcache_free mempool_ops spent 5000)
          ≡ times a (5000 ∷ []) + total mempool_ops mempool_laws a spent)
tcache_free_lem_example = tcache_free_lem mempool_ops mempool_laws spent 5000 spent-IsValid
