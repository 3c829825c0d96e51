-- ===== src/Mempool/Create.antt =====
-- How a new pool is filled (base/mempool.c).
use caladan.Common.{
  ℕ, zero, suc, ◌+◌, ◌*◌, ◌/◌, ◌%◌, ◌<◌, ◌≡◌, ◌≢◌, refl, sym, ◌∙◌, ◌⊎◌, inl, inr, true, false, ◌==◌,
  update, update_self, update_ne, none, some, arith, Bool-cases,
}
use native.Mathlib.Nat.{mul_comm, mul-suc}
use caladan.Lrpc.{is_power_of_two}
use caladan.Mempool.{Mempool, populate_page, populate_pages, populate, create}

-- The pool after `n` items of a page from item `j` on
record Page (n page j : ℕ) (m m' : Mempool) : Type 0 where
  counted : m'.capacity ≡ m.capacity + n
  kept : (i : ℕ) → i < m.capacity → m'.free_items i ≡ m.free_items i
  filled : (t : ℕ) → t < n → m'.free_items (m.capacity + t) ≡ page + m.item_len * (j + t)
  same :
      (m'.buf ≡ m.buf)
      × (m'.pgsize ≡ m.pgsize)
      × (m'.item_len ≡ m.item_len)
      × (m'.allocated ≡ m.allocated)
      × (m'.len ≡ m.len)

add_item : Mempool → ℕ → ℕ → Mempool
add_item m page j = record m {
  free_items = update m.free_items m.capacity (page + m.item_len * j);
  capacity = m.capacity + 1;
}

Page-suc :
    (n page j : ℕ) (m m' : Mempool)
    → Page n page (j + 1) (add_item m page j) m'
    → Page (suc n) page j m m'
unfolding add_item
Page-suc n page j m m' p = record {
  counted = omega (arith, p.counted);
  kept = λ i h.
      p.kept i (omega arith)
      ∙ update_ne m.free_items {j = i} (page + m.item_len * j) (λ e. omega arith);
  filled = λ t h. fill t h;
  same = p.same;
}
  where
    fill : (t : ℕ) → t < suc n → m'.free_items (m.capacity + t) ≡ page + m.item_len * (j + t)
    fill zero h =
        let e : m.capacity + 0 ≡ m.capacity = omega arith in
        let e' : j + 0 ≡ j = omega arith in
        rw (e, e')
          (p.kept m.capacity (omega arith)
            ∙ update_self m.free_items m.capacity (page + m.item_len * j))
    fill (suc t) h =
        let e : m.capacity + suc t ≡ m.capacity + 1 + t = omega arith in
        let e' : j + suc t ≡ j + 1 + t = omega arith in rw (e, e') (p.filled t (omega arith))

populate_page-Page : (n page j : ℕ) (m : Mempool) → Page n page j m (populate_page n page j m)
unfolding populate_page add_item
populate_page-Page zero page j m = record {
  counted = omega arith;
  kept = λ i h. refl;
  filled = λ t h. omega arith;
  same = (refl, refl, refl, refl, refl);
}
populate_page-Page (suc n) page j m =
    Page-suc n page j m (populate_page n page (j + 1) (add_item m page j))
      (populate_page-Page n page (j + 1) (add_item m page j))

-- The pool after `n` pages from page `i` on, with `per` items on each
pub record Pages (n i per : ℕ) (m m' : Mempool) : Type 0 where
  pub counted : m'.capacity ≡ m.capacity + n * per
  pub kept : (a : ℕ) → a < m.capacity → m'.free_items a ≡ m.free_items a
  pub filled :
      (s t : ℕ)
      → s < n
      → t < per
      → m'.free_items (m.capacity + (s * per + t)) ≡ m.buf + m.pgsize * (i + s) + m.item_len * t
  pub same : (m'.allocated ≡ m.allocated) × (m'.len ≡ m.len)

suc-mul : (n per : ℕ) → suc n * per ≡ per + n * per
suc-mul n per = omega (arith, mul_comm (suc n) per, mul_comm n per, mul-suc per n)

Pages-suc :
    (n i per : ℕ) (m m₁ m' : Mempool)
    → Page per (m.buf + m.pgsize * i) 0 m m₁
    → Pages n (i + 1) per m₁ m'
    → Pages (suc n) i per m m'
Pages-suc n i per m m₁ m' p q = record {
  counted = omega (arith, p.counted, q.counted, suc-mul n per);
  kept = λ a h. q.kept a (omega (arith, p.counted)) ∙ p.kept a h;
  filled = fill;
  same = (q.same.0 ∙ p.same.3, q.same.1 ∙ p.same.4);
}
  where
    fill :
        (s t : ℕ)
        → s < suc n
        → t < per
        → m'.free_items (m.capacity + (s * per + t)) ≡ m.buf + m.pgsize * (i + s) + m.item_len * t
    fill zero t h k =
        let e : m.capacity + (0 * per + t) ≡ m.capacity + t = omega arith in
        let e' : i + 0 ≡ i = omega arith in
        let e'' : 0 + t ≡ t = omega arith in
        let f = p.filled t k in
        let g : m₁.free_items (m.capacity + t) ≡ m.buf + m.pgsize * i + m.item_len * t =
          rw e'' at f in
        rw (e, e') (q.kept (m.capacity + t) (omega (arith, p.counted)) ∙ g)
    fill (suc s) t h k =
        let e : m.capacity + (suc s * per + t) ≡ m₁.capacity + (s * per + t) =
          omega (arith, p.counted, suc-mul s per) in
        let e' : i + suc s ≡ i + 1 + s = omega arith in
        let f = q.filled s t (omega arith) k in
        rw (e, e', sym p.same.0, sym p.same.1, sym p.same.2) f

populate_pages-Pages : (n i per : ℕ) (m : Mempool) → Pages n i per m (populate_pages n i per m)
unfolding populate_pages
populate_pages-Pages zero i per m = record {
  counted = omega arith;
  kept = λ a h. refl;
  filled = λ s t h k. omega arith;
  same = (refl, refl);
}
populate_pages-Pages (suc n) i per m =
    let m₁ = populate_page per (m.buf + m.pgsize * i) 0 m in
    Pages-suc n i per m m₁ (populate_pages n (i + 1) per m₁)
      (populate_page-Page per (m.buf + m.pgsize * i) 0 m) (populate_pages-Pages n (i + 1) per m₁)

-- `mempool_create` refuses exactly an empty item, a page size that is no power of two, and a region
-- that is no whole number of pages. Else nothing is allocated, and the pool gains, from the capacity
-- that it had on, as many items as the pages hold: item t of page s stands t items into page s.
pub create_lem :
    (m : Mempool) (buf len pgsize item_len : ℕ)
    → let refused = (item_len ≡ 0) ⊎ (is_power_of_two pgsize ≡ false) ⊎ (len % pgsize ≢ 0) in
      let given = record m {
        allocated = 0;
        buf = buf;
        len = len;
        pgsize = pgsize;
        item_len = item_len;
      } in
      (refused × (create m buf len pgsize item_len ≡ none))
      ⊎ (¬ refused
          × ((m' : Mempool) × (create m buf len pgsize item_len ≡ some m')
              × Pages (len / pgsize) 0 (pgsize / item_len) given m'))
unfolding create populate
create_lem m buf len pgsize item_len = elim (Bool-cases (item_len == 0)) [
  | inl no_items ↦ inl (inl (ground arith), rw no_items refl)
  | inr items ↦ elim (Bool-cases (is_power_of_two pgsize)) [
    | inr odd ↦ inl (inr (inl odd), rw (items, odd) refl)
    | inl pow ↦ elim (Bool-cases (len % pgsize == 0)) [
      | inr ragged ↦ inl (inr (inr (ground arith)), rw (items, pow, ragged) refl)
      | inl whole ↦ inr (
        accepted items pow whole,
        (
          populate given,
          rw (items, pow, whole) refl,
          populate_pages-Pages (len / pgsize) 0 (pgsize / item_len) given,
        ),
      )
    ]
  ]
]
  where
    given : Mempool
    given = record m { allocated = 0; buf = buf; len = len; pgsize = pgsize; item_len = item_len }

    accepted :
        (item_len == 0) ≡ false
        → is_power_of_two pgsize ≡ true
        → (len % pgsize == 0) ≡ true
        → ¬ ((item_len ≡ 0) ⊎ (is_power_of_two pgsize ≡ false) ⊎ (len % pgsize ≢ 0))
    accepted items pow whole (inl none_) = ground arith
    accepted items pow whole (inr (inl odd)) = cc
    accepted items pow whole (inr (inr ragged)) = ground arith
