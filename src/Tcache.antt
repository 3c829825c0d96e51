-- ===== src/Tcache.antt =====
-- The cache of items per thread, by magazines (base/tcache.c, inc/base/tcache.h). A magazine is the
-- list of its items as `next_item` links them, the shared magazines are a list as `next_mag` links
-- them, and NULL is the empty list. Statistics of the threads are left out.
pub mod Bag
pub mod Free
pub mod Alloc
pub mod Reclaim
pub mod Pool
mod Tests
use caladan.Common.{
  ℕ, zero, suc, ◌+◌, ◌-◌, ◌^◌, ◌%◌, ◌≤◌, ◌≡◌, Bool, true, false, List, [], ◌∷◌, ltb, leb, ◌==◌,
  if◌then◌else◌, Option, none, some, length, times,
}

-- `struct tcache_ops`, on the state of what backs the cache: `alloc` yields as many items as asked
-- or, on an error, none.
pub record TcacheOps (P : Type 0) : Type 0 where
  pub alloc : P → ℕ → P × Option (List ℕ)
  pub free : P → List ℕ → P

-- What the cache relies on: which items the backing state has, and how many of its own are out.
pub record Laws (P : Type 0) (ops : TcacheOps P) : Type 1 where
  pub IsSound : P → Type 0
  pub stock : P → List ℕ
  pub out : P → ℕ
  pub alloc_none : (p : P) (n : ℕ) → IsSound p → (ops.alloc p n).1 ≡ none → (ops.alloc p n).0 ≡ p
  pub alloc_some :
      (p : P) (n : ℕ) (items : List ℕ)
      → IsSound p
      → (ops.alloc p n).1 ≡ some items
      → IsSound (ops.alloc p n).0
        × (length items ≡ n)
        × (out (ops.alloc p n).0 ≡ out p + n)
        × ((a : ℕ) → times a (stock p) ≡ times a items + times a (stock (ops.alloc p n).0))
  pub free_some :
      (p : P) (items : List ℕ)
      → IsSound p
      → length items ≤ out p
      → IsSound (ops.free p items)
        × (out (ops.free p items) + length items ≡ out p)
        × ((a : ℕ) → times a (stock (ops.free p items)) ≡ times a items + times a (stock p))

-- `struct tcache`: the fields that change, and the size of a magazine
pub record Tcache : Type 0 where
  pub mag_size : ℕ
  pub shared_mags : List (List ℕ)
  pub mags_allocated : ℕ

-- `struct tcache_perthread`
pub record Perthread : Type 0 where
  pub rounds : ℕ
  pub capacity : ℕ
  pub loaded : List ℕ
  pub previous : List ℕ

abbrev pub null : ℕ
null = 0

abbrev pub first : List ℕ → ℕ
first [] = null
first (x ∷ xs) = x

abbrev pub rest : List ℕ → List ℕ
rest [] = []
rest (x ∷ xs) = xs

pub create : ℕ → Tcache
create mag_size = record { mag_size = mag_size; shared_mags = []; mags_allocated = 0 }

pub init_perthread : Tcache → Perthread
init_perthread tc = record { rounds = 0; capacity = tc.mag_size; loaded = []; previous = [] }

-- What a call sees: the cache, the handle of the thread, and what backs the cache.
pub record State (P : Type 0) : Type 0 where
  pub tc : Tcache
  pub ltc : Perthread
  pub pool : P

module _ {P : Type 0} (ops : TcacheOps P) where
  -- At the label `alloc`: the magazine is the one just loaded.
  pub reload : State P → List ℕ → State P × Option ℕ
  reload s mag =
      let ltc' = record s.ltc { rounds = s.ltc.capacity - 1; loaded = rest mag } in
      (record s { ltc = ltc' }, some (first mag))

  -- The third case, with what `tcache_alloc_mag` got: without a magazine the call returns NULL.
  pub new_mag : State P → P × Option (List ℕ) → State P × Option ℕ
  unfolding reload
  new_mag s (p', none) = (record s { pool = p' }, none)
  new_mag s (p', some items) =
      let tc' = record s.tc { mags_allocated = (s.tc.mags_allocated + 1) % 2 ^ 64 } in
      reload (record s { tc = tc'; pool = p' }) items

  -- The second and third case.
  pub shared_alloc : State P → List (List ℕ) → State P × Option ℕ
  shared_alloc s [] = new_mag s (ops.alloc s.pool s.tc.mag_size)
  shared_alloc s (mag ∷ mags) = reload (record s { tc = record s.tc { shared_mags = mags } }) mag

  -- `__tcache_alloc`
  pub slow_alloc : State P → List ℕ → State P × Option ℕ
  slow_alloc s [] = shared_alloc s s.tc.shared_mags
  slow_alloc s (x ∷ xs) = reload (record s { ltc = record s.ltc { previous = [] } }) (x ∷ xs)

  pub tcache_alloc : State P → State P × Option ℕ
  tcache_alloc s = if s.ltc.rounds == 0 then slow_alloc s s.ltc.previous else (
    record s { ltc = record s.ltc { rounds = s.ltc.rounds - 1; loaded = rest s.ltc.loaded } },
    some (first s.ltc.loaded),
  )

  -- At the label `free` of `__tcache_free`: the item starts a magazine.
  pub start_mag : State P → ℕ → State P
  start_mag s item = record s { ltc = record s.ltc { rounds = 1; loaded = item ∷ [] } }

  -- `__tcache_free`
  pub slow_free : State P → List ℕ → ℕ → State P
  slow_free s [] item = start_mag (record s { ltc = record s.ltc { previous = s.ltc.loaded } }) item
  slow_free s (x ∷ xs) item =
      start_mag
        (record s {
          tc = record s.tc { shared_mags = (x ∷ xs) ∷ s.tc.shared_mags };
          ltc = record s.ltc { previous = s.ltc.loaded };
        })
        item

  pub tcache_free : State P → ℕ → State P
  tcache_free s item =
      if leb s.ltc.capacity s.ltc.rounds then slow_free s s.ltc.previous item else record s {
        ltc = record s.ltc { rounds = s.ltc.rounds + 1; loaded = item ∷ s.ltc.loaded };
      }

  -- `tcache_free_mag` for each magazine
  pub free_mags : State P → List (List ℕ) → State P
  free_mags s [] = s
  free_mags s (mag ∷ mags) =
      free_mags
        (record s {
          tc = record s.tc { mags_allocated = (s.tc.mags_allocated + 2 ^ 64 - 1) % 2 ^ 64 };
          pool = ops.free s.pool mag;
        })
        mags

  pub reclaim : State P → State P
  reclaim s = free_mags (record s { tc = record s.tc { shared_mags = [] } }) s.tc.shared_mags
