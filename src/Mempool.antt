-- ===== src/Mempool.antt =====
-- A pool of items of one length (base/mempool.c, inc/base/mempool.h) and the allocator of magazines
-- on top of it. The array `free_items` is a function on its indices; sizes are 64-bit and the region
-- lies below 2^64. Memory for the array is taken to be there; the checks of debug builds are left out.
pub mod Stock
pub mod Create
pub mod Places
pub mod Batch
mod Tests
use caladan.Common.{
  ℕ, zero, suc, ◌+◌, ◌-◌, ◌*◌, ◌/◌, ◌%◌, ◌^◌, Bool, true, false, ◌||◌, not, List, [], ◌∷◌, ◌++◌,
  ltb, leb, ◌==◌, if◌then◌else◌, update, Option, none, some, length,
}
use caladan.Lrpc.{is_power_of_two}

-- `struct mempool`
pub record Mempool : Type 0 where
  pub free_items : ℕ → ℕ
  pub allocated : ℕ
  pub capacity : ℕ
  pub buf : ℕ
  pub len : ℕ
  pub pgsize : ℕ
  pub item_len : ℕ

pub member : Mempool → ℕ → Bool
member m addr = if leb m.buf addr then ltb addr (m.buf + m.len) else false

-- The item stands second; `none` is NULL.
pub alloc : Mempool → Mempool × Option ℕ
alloc m =
    if leb m.capacity m.allocated
    then (m, none)
    else (record m { allocated = m.allocated + 1 }, some (m.free_items m.allocated))

-- At 0 the counter wraps, as the assertion of debug builds says.
pub free : Mempool → ℕ → Mempool
free m item =
    let allocated' = (m.allocated + 2 ^ 64 - 1) % 2 ^ 64 in
    record m { free_items = update m.free_items allocated' item; allocated = allocated' }

-- The inner loop of `mempool_populate`, with `n` items of the page left from item `j` on.
pub populate_page : ℕ → ℕ → ℕ → Mempool → Mempool
populate_page zero page j m = m
populate_page (suc n) page j m = populate_page n page (j + 1) (record m {
  free_items = update m.free_items m.capacity (page + m.item_len * j);
  capacity = m.capacity + 1;
})

-- The outer loop, with `n` pages left from page `i` on.
pub populate_pages : ℕ → ℕ → ℕ → Mempool → Mempool
populate_pages zero i items_per_page m = m
populate_pages (suc n) i items_per_page m =
    populate_pages n (i + 1) items_per_page
      (populate_page items_per_page (m.buf + m.pgsize * i) 0 m)

pub populate : Mempool → Mempool
populate m = populate_pages (m.len / m.pgsize) 0 (m.pgsize / m.item_len) m

-- `none` is -EINVAL. The capacity is not set.
pub create : Mempool → ℕ → ℕ → ℕ → ℕ → Option Mempool
create m buf len pgsize item_len =
    if item_len == 0 || not (is_power_of_two pgsize) || not (len % pgsize == 0)
    then none
    else some (
        populate
          (record m { allocated = 0; buf = buf; len = len; pgsize = pgsize; item_len = item_len }))

pub tcache_free : Mempool → List ℕ → Mempool
tcache_free m [] = m
tcache_free m (item ∷ items) = tcache_free (free m item) items

-- The loop of `mempool_tcache_alloc`, with `n` items to go; those taken are kept to be given back.
pub alloc_loop : ℕ → List ℕ → Mempool → Mempool × Option (List ℕ)
alloc_loop zero taken m = (m, some taken)
alloc_loop (suc n) taken m =
    let (m', item) = alloc m in
    elim item [ none ↦ (tcache_free m' taken, none) | some x ↦ alloc_loop n (taken ++ x ∷ []) m' ]

-- The test ahead of the lock and the loop under it, with nobody in between; `none` is -ENOMEM.
pub tcache_alloc : Mempool → ℕ → Mempool × Option (List ℕ)
tcache_alloc m nr = if ltb m.capacity (m.allocated + nr) then (m, none) else alloc_loop nr [] m
