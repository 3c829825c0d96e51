-- ===== src/Tcache/Pool.antt =====
-- A memory pool behind a cache (`mempool_create_tcache` of base/mempool.c).
use caladan.Common.{
  ℕ, ◌+◌, ◌≡◌, sym, ap, ◌∙◌, inl, inr, List, ◌++◌, some, length, times, times-append,
  times-rev_append,
}
use mathlib.Core.Option.{none-ne-some, some-injective}
use caladan.Mempool.{Mempool}
use caladan.Mempool
use caladan.Mempool.Stock.{stock, length-stock}
use caladan.Mempool.Stock
use caladan.Mempool.Batch.{batch_alloc_lem, batch_free_lem}
use caladan.Tcache.{TcacheOps, Laws}

-- `mempool_tcache_ops`
abbrev pub mempool_ops : TcacheOps Mempool
mempool_ops = record { alloc = Mempool.tcache_alloc; free = Mempool.tcache_free }

pub some_lem :
    (m : Mempool) (n : ℕ) (items : List ℕ)
    → Stock.IsValid m
    → (Mempool.tcache_alloc m n).1 ≡ some items
    → Stock.IsValid (Mempool.tcache_alloc m n).0
      × (length items ≡ n)
      × ((Mempool.tcache_alloc m n).0.allocated ≡ m.allocated + n)
      × ((a : ℕ) → times a (stock m) ≡ times a items + times a (stock (Mempool.tcache_alloc m n).0))
some_lem m n items v h = elim (batch_alloc_lem m n v) [
  | inl (few, e) ↦ absurd (none-ne-some items (sym (ap (λ r. r.1) e) ∙ h))
  | inr (m', got, e, c, t, w, o) ↦
      (let same : got ≡ items = some-injective got items (sym (ap (λ r. r.1) e) ∙ h) in
        rw e (
          w,
          ap length (sym same) ∙ c,
          o,
          λ a.
              ap (times a) (t ∙ ap (λ (l : List ℕ). l ++ stock m') same)
              ∙ times-append a items (stock m'),
        ))
]

unfoldable pub mempool_laws : Laws Mempool mempool_ops
mempool_laws = record {
  IsSound = Stock.IsValid;
  stock = stock;
  out = λ m. m.allocated;
  alloc_none = λ m n v h. elim (batch_alloc_lem m n v) [
    | inl (few, e) ↦ ap (λ r. r.0) e
    | inr (m', items, e, c, t, w, o) ↦ absurd (none-ne-some items (sym h ∙ ap (λ r. r.1) e))
  ];
  alloc_some = λ m n items v h. some_lem m n items v h;
  free_some = λ m items v h.
      let (e, v', o) = batch_free_lem m items v h in
      (v', o, λ a. ap (times a) e ∙ times-rev_append a items (stock m));
}
