-- ===== src/Mempool/Batch.antt =====
-- Items by the magazine, all or none (base/mempool.c).
use caladan.Common.{
  ℕ, zero, suc, ◌+◌, ◌-◌, ◌≤◌, ◌<◌, ◌≡◌, refl, sym, ap, ◌∙◌, subst, ◌⊎◌, inl, inr, List, [], ◌∷◌,
  ◌++◌, ltb, Option, none, some, arith, length, Bool-cases, rev_append,
}
use mathlib.Core.List.{append-nil, append_assoc}
use caladan.Mempool.{Mempool, alloc, free, alloc_loop, tcache_alloc, tcache_free}
use caladan.Mempool.Stock.{IsValid, stock, Taken, alloc_lem, free_lem, length-stock}

-- What a loop of `n` allocations yields from a stock that has as many.
record Got (n : ℕ) (taken : List ℕ) (m : Mempool) (r : Mempool × Option (List ℕ)) : Type 0 where
  items : List ℕ
  got : r.1 ≡ some (taken ++ items)
  counted : length items ≡ n
  rest : stock m ≡ items ++ stock r.0
  valid : IsValid r.0
  out : r.0.allocated ≡ m.allocated + n

-- One turn of the loop.
turn :
    (n : ℕ) (taken : List ℕ) (m : Mempool) (x : ℕ) (xs : List ℕ)
    → stock m ≡ x ∷ xs
    → Taken m (x ∷ xs) (alloc m)
    → Got n (taken ++ x ∷ []) (alloc m).0 (alloc_loop n (taken ++ x ∷ []) (alloc m).0)
    → Got (suc n) taken m (alloc_loop (suc n) taken m)
unfolding alloc_loop
turn n taken m x xs e t g =
    rw (t.0, alloc_loop)
      (record {
        items = x ∷ g.items;
        got = rw g.got (ap some (append_assoc taken (x ∷ []) g.items));
        counted = ap suc g.counted;
        rest = e ∙ ap (λ (l : List ℕ). x ∷ l) (sym t.1 ∙ g.rest);
        valid = g.valid;
        out = omega (arith, g.out, t.3);
      })

alloc_loop-Got :
    (n : ℕ) (taken : List ℕ) (m : Mempool) (xs : List ℕ)
    → IsValid m
    → stock m ≡ xs
    → n ≤ length xs
    → Got n taken m (alloc_loop n taken m)
alloc_loop-Got zero taken m xs v e h =
    unfold alloc_loop in
    record {
      items = [];
      got = ap some (sym (append-nil taken));
      counted = refl;
      rest = refl;
      valid = v;
      out = omega arith;
    }
alloc_loop-Got (suc n) taken m [] v e h = absurd (omega (arith, h))
alloc_loop-Got (suc n) taken m (x ∷ xs) v e h =
    let t : Taken m (x ∷ xs) (alloc m) =
      subst (λ (l : List ℕ). Taken m l (alloc m)) e (alloc_lem m v) in
    turn n taken m x xs e t
      (alloc_loop-Got n (taken ++ x ∷ []) (alloc m).0 xs t.2 t.1 (omega (arith, h)))

-- `mempool_tcache_alloc` gives nothing and leaves the pool exactly if fewer items are free; else it
-- takes as many as asked off the stack of free items, in order.
pub batch_alloc_lem :
    (m : Mempool) (nr : ℕ)
    → IsValid m
    → ((m.capacity - m.allocated < nr) × (tcache_alloc m nr ≡ (m, none)))
      ⊎ ((m' : Mempool) × (items : List ℕ) × (tcache_alloc m nr ≡ (m', some items))
          × (length items ≡ nr)
          × (stock m ≡ items ++ stock m')
          × IsValid m'
          × (m'.allocated ≡ m.allocated + nr))
unfolding tcache_alloc
batch_alloc_lem m nr v = elim (Bool-cases (ltb m.capacity (m.allocated + nr))) [
  | inl few ↦ inl (ground arith, rw few refl)
  | inr enough ↦
      let room : nr ≤ m.capacity - m.allocated = ground (arith, v.in_use) in
      let g = alloc_loop-Got nr [] m (stock m) v refl (omega (arith, length-stock m, room)) in
      inr (
        (alloc_loop nr [] m).0,
        g.items,
        rw (enough, g.got) refl,
        g.counted,
        g.rest,
        g.valid,
        g.out,
      )
]

-- `mempool_tcache_free` of items that are out pushes them, one after the other.
pub batch_free_lem :
    (m : Mempool) (items : List ℕ)
    → IsValid m
    → length items ≤ m.allocated
    → (stock (tcache_free m items) ≡ rev_append items (stock m))
      × IsValid (tcache_free m items)
      × ((tcache_free m items).allocated + length items ≡ m.allocated)
unfolding tcache_free
batch_free_lem m [] v h = (refl, v, omega arith)
batch_free_lem m (x ∷ xs) v h =
    let f = free_lem m x v (omega (arith, h)) in
    let g = batch_free_lem (free m x) xs f.1 (omega (arith, h, f.2)) in
    (g.0 ∙ ap (rev_append xs) f.0, g.1, omega (arith, g.2, f.2))
