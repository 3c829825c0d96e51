-- ===== src/Mempool/Stock.antt =====
-- The free items of a pool as a stack (inc/base/mempool.h).
use caladan.Common.{
  ℕ, zero, suc, ◌+◌, ◌-◌, ◌^◌, ◌%◌, ◌≤◌, ◌<◌, ◌≡◌, refl, ap, false, List, [], ◌∷◌, leb, update,
  update_self, update_ne, Option, none, some, arith, length,
}
use caladan.Mempool.{Mempool, alloc, free}

-- `n` items of an array from one index on
abbrev pub slots : (ℕ → ℕ) → ℕ → ℕ → List ℕ
slots f i zero = []
slots f i (suc n) = f i ∷ slots f (i + 1) n

pub record IsValid (m : Mempool) : Type 0 where
  pub in_use : m.allocated ≤ m.capacity
  pub counted : m.capacity < 2 ^ 64

-- The items that are free, the next one to be handed out first
abbrev pub stock : Mempool → List ℕ
stock m = slots m.free_items m.allocated (m.capacity - m.allocated)

slots-update : (f : ℕ → ℕ) (i n a v : ℕ) → a < i → slots (update f a v) i n ≡ slots f i n
slots-update f i zero a v h = refl
slots-update f i (suc n) a v h =
    let other : update f a v i ≡ f i = update_ne f v (λ e. omega arith) in
    rw (other, slots-update f (i + 1) n a v (omega arith)) refl

length-slots : (f : ℕ → ℕ) (i n : ℕ) → length (slots f i n) ≡ n
length-slots f i zero = refl
length-slots f i (suc n) = ap suc (length-slots f (i + 1) n)

pub length-stock : (m : Mempool) → length (stock m) ≡ m.capacity - m.allocated
length-stock m = length-slots m.free_items m.allocated (m.capacity - m.allocated)

-- What an allocation yields: NULL exactly if nothing is free, else the first free item.
abbrev pub Taken : Mempool → List ℕ → Mempool × Option ℕ → Type 0
Taken m [] r = r ≡ (m, none)
Taken m (x ∷ xs) r =
    (r.1 ≡ some x) × (stock r.0 ≡ xs) × IsValid r.0 × (r.0.allocated ≡ m.allocated + 1)

alloc-slots :
    (m : Mempool) (n : ℕ)
    → IsValid m
    → m.capacity - m.allocated ≡ n
    → Taken m (slots m.free_items m.allocated n) (alloc m)
unfolding alloc
alloc-slots m zero v e = ground (arith, v.in_use)
alloc-slots m (suc n) v e =
    let some_left : leb m.capacity m.allocated ≡ false = ground arith in
    let one_less : m.capacity - (m.allocated + 1) ≡ n = omega arith in
    rw some_left
      (refl, rw one_less refl, record { in_use = omega arith; counted = v.counted }, refl)

-- `mempool_alloc` pops the stack of free items.
pub alloc_lem : (m : Mempool) → IsValid m → Taken m (stock m) (alloc m)
alloc_lem m v = alloc-slots m (m.capacity - m.allocated) v refl

-- `mempool_free` of an item, while one is allocated, pushes it onto the stack of free items.
pub free_lem :
    (m : Mempool) (item : ℕ)
    → IsValid m
    → 0 < m.allocated
    → (stock (free m item) ≡ item ∷ stock m)
      × IsValid (free m item)
      × ((free m item).allocated + 1 ≡ m.allocated)
unfolding free
free_lem m item v h =
    let down : (m.allocated + 2 ^ 64 - 1) % 2 ^ 64 ≡ m.allocated - 1 =
      ground (arith, v.in_use, v.counted) in
    rw down (
      freed (m.allocated - 1) (omega arith),
      record { in_use = omega arith; counted = v.counted },
      omega arith,
    )
  where
    freed :
        (a : ℕ)
        → a + 1 ≡ m.allocated
        → slots (update m.free_items a item) a (m.capacity - a) ≡ item ∷ stock m
    freed a e =
        let more : m.capacity - a ≡ suc (m.capacity - m.allocated) = omega arith in
        rw more (
          rw
            (
              update_self m.free_items a item,
              slots-update m.free_items (a + 1) (m.capacity - m.allocated) a item (omega arith),
              e,
            )
            refl)
