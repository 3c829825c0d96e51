-- ===== src/Mempool/Places.antt =====
-- Where the items of a new pool stand (base/mempool.c).
use caladan.Common.{
  ℕ, suc, ◌+◌, ◌*◌, ◌/◌, ◌%◌, ◌≤◌, ◌<◌, ◌≡◌, sym, ap, ◌∙◌, subst, inl, inr, arith, some, ltb,
  Bool-cases,
}
use native.Mathlib.Nat.{
  mul_comm, mul-suc, mod-add-div', mod-lt, div-lt_iff_lt-mul, div-mul-le_self, mul-le-mul_right,
}
use mathlib.Core.Option.{some-injective, none-ne-some}
use caladan.Mempool.{Mempool, create}
use caladan.Mempool.Create.{Pages, create_lem}

lt-mul : (a n k : ℕ) → a < n → a * k + k ≤ n * k
lt-mul a n k h =
    omega (
      arith,
      mul-le-mul_right {m = suc a} {n = n} k h,
      mul_comm (suc a) k,
      mul-suc k a,
      mul_comm k a,
    )

-- A pool filled from empty with `n` pages of `per` items that fit on a page
module _ (m m' : Mempool) (n per : ℕ) (p : Pages n 0 per m m') (empty : m.capacity ≡ 0)
    (fits : per * m.item_len ≤ m.pgsize) where
  per_pos : (a : ℕ) → a < n * per → 0 < per
  per_pos a h = elim (Bool-cases (ltb 0 per)) [
    | inl some_items ↦ ground arith
    | inr none_left ↦
        (let e : per ≡ 0 = ground arith in let h' : a < n * 0 = rw e at h in omega arith)
  ]

  page_lt : (a : ℕ) → a < n * per → a / per < n
  page_lt a h = (div-lt_iff_lt-mul (per_pos a h)).1 h

  place :
      (a : ℕ)
      → a < n * per
      → m'.free_items a ≡ m.buf + m.pgsize * (a / per) + m.item_len * (a % per)
  place a h =
      let e : m.capacity + (a / per * per + a % per) ≡ a = omega (arith, mod-add-div' a per) in
      let e' : 0 + a / per ≡ a / per = omega arith in
      let f = p.filled (a / per) (a % per) (page_lt a h) (mod-lt a (per_pos a h)) in
      let f' = rw e at f in rw e' at f'

  item_fits : (a : ℕ) → a < n * per → m.item_len * (a % per) + m.item_len ≤ m.pgsize
  item_fits a h = omega (
    arith,
    lt-mul (a % per) per m.item_len (mod-lt a (per_pos a h)),
    mul_comm m.item_len (a % per),
  )

  page_fits : (a : ℕ) → a < n * per → m.pgsize * (a / per) + m.pgsize ≤ n * m.pgsize
  page_fits a h =
      omega (arith, lt-mul (a / per) n m.pgsize (page_lt a h), mul_comm m.pgsize (a / per))

  same_page : (a b : ℕ) → a < b → b < n * per → b / per ≤ a / per → a / per ≡ b / per
  same_page a b ab h le = elim (Bool-cases (ltb (b / per) (a / per))) [
    | inl earlier ↦ omega (
      arith,
      lt-mul (b / per) (a / per) per (ground arith),
      mod-add-div' a per,
      mod-add-div' b per,
      mod-lt b (per_pos b h),
    )
    | inr none_left ↦ ground arith
  ]

  -- An item ends before the next begins.
  increasing : (a b : ℕ) → a < b → b < n * per → m'.free_items a + m.item_len ≤ m'.free_items b
  increasing a b ab h =
      let ha : a < n * per = omega arith in
      elim (Bool-cases (ltb (a / per) (b / per))) [
        | inl later ↦ omega (
          arith,
          place a ha,
          place b h,
          item_fits a ha,
          lt-mul (a / per) (b / per) m.pgsize (ground arith),
          mul_comm m.pgsize (a / per),
          mul_comm m.pgsize (b / per),
        )
        | inr not_later ↦
            (let same = same_page a b ab h (ground arith) in
              let before : a % per < b % per =
                omega
                  (arith, mod-add-div' a per, mod-add-div' b per, ap (λ (t : ℕ). t * per) same) in
              omega (
                arith,
                place a ha,
                place b h,
                lt-mul (a % per) (b % per) m.item_len before,
                ap (λ (t : ℕ). m.pgsize * t) same,
                mul_comm m.item_len (a % per),
                mul_comm m.item_len (b % per),
              ))
      ]

-- Each item stands within one page of the region, and ends before the next begins.
pub record AreApart (m : Mempool) (buf len pgsize item_len : ℕ) : Type 0 where
  pub none_out : m.allocated ≡ 0
  pub counted : m.capacity ≡ len / pgsize * (pgsize / item_len)
  pub paged :
      (a : ℕ)
      → a < m.capacity
      → (page : ℕ) × (buf + pgsize * page ≤ m.free_items a)
        × (m.free_items a + item_len ≤ buf + pgsize * page + pgsize)
        × (pgsize * page + pgsize ≤ len)
  pub ordered : (a b : ℕ) → a < b → b < m.capacity → m.free_items a + item_len ≤ m.free_items b

-- A pool that `mempool_create` makes in a structure with no capacity has as many items as the pages
-- of the region hold; each stands within one page of the region, and no two overlap.
pub create-AreApart :
    (m m' : Mempool) (buf len pgsize item_len : ℕ)
    → m.capacity ≡ 0
    → create m buf len pgsize item_len ≡ some m'
    → AreApart m' buf len pgsize item_len
create-AreApart m m' buf len pgsize item_len empty made =
    elim (create_lem m buf len pgsize item_len) [
      | inl (bad, e) ↦ absurd (none-ne-some m' (sym e ∙ made))
      | inr (ok, (m'', e, p)) ↦
          subst (λ (x : Mempool). AreApart x buf len pgsize item_len)
            (some-injective m'' m' (sym e ∙ made)) (apart m'' p)
    ]
  where
    n : ℕ
    n = len / pgsize

    per : ℕ
    per = pgsize / item_len

    given : Mempool
    given = record m { allocated = 0; buf = buf; len = len; pgsize = pgsize; item_len = item_len }

    fits : per * item_len ≤ pgsize
    fits = div-mul-le_self pgsize item_len

    apart : (x : Mempool) → Pages n 0 per given x → AreApart x buf len pgsize item_len
    apart x p =
        let count : x.capacity ≡ n * per = omega (arith, p.counted, empty) in
        record {
          none_out = p.same.0;
          counted = count;
          paged = λ a h.
              let ha : a < n * per = omega (arith, h, count) in
              (
                a / per,
                omega (arith, place given x n per p empty fits a ha),
                omega (
                  arith,
                  place given x n per p empty fits a ha,
                  item_fits given x n per p empty fits a ha,
                ),
                omega
                    (arith, page_fits given x n per p empty fits a ha, div-mul-le_self len pgsize),
              );
          ordered =
              λ a b h k. increasing given x n per p empty fits a b h (omega (arith, k, count));
        }
