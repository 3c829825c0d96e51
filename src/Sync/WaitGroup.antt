-- ===== src/Sync/WaitGroup.antt =====
-- The wait group (runtime/sync.c). The sum of two counts is taken not to overflow an int.
use caladan.Common.{
  ℕ, ◌+◌, ◌<◌, ◌≡◌, refl, ◌⊎◌, inl, inr, Bool, true, false, List, [], ◌∷◌, ◌++◌, if◌then◌else◌,
  arith, Option, some, none, Bool-cases, length,
}
use caladan.Common.Int.{ℤ, pos, negsuc, pos_part, neg_part, ◌+ℤ◌, ltb_ℤ, eqb_ℤ}

-- `struct waitgroup`, without its spin lock
pub record WaitGroup : Type 0 where
  pub cnt : ℤ
  pub waiters : List ℕ

pub init : WaitGroup
init = record { cnt = pos 0; waiters = [] }

-- The new group and the threads that are readied; `none` is a stop at BUG_ON.
pub add : WaitGroup → ℤ → Option (WaitGroup × List ℕ)
add wg cnt =
    let sum = wg.cnt +ℤ cnt in
    if ltb_ℤ sum (pos 0)
    then none
    else if eqb_ℤ sum (pos 0)
    then some (record { cnt = sum; waiters = [] }, wg.waiters)
    else some (record wg { cnt = sum }, [])

-- `waitgroup_done`
pub done : WaitGroup → Option (WaitGroup × List ℕ)
unfolding add
done wg = add wg (negsuc 0)

-- Whether the caller returns at once; else it parks.
pub wait : WaitGroup → ℕ → WaitGroup × Bool
wait wg self =
    if eqb_ℤ wg.cnt (pos 0)
    then (wg, true)
    else (record wg { waiters = wg.waiters ++ self ∷ [] }, false)

-- The count is not negative, and threads wait only for a count above 0.
pub record IsValid (wg : WaitGroup) : Type 0 where
  pub counted : neg_part wg.cnt ≡ 0
  pub waiting : (length wg.waiters ≡ 0) ⊎ (0 < pos_part wg.cnt)

-- `waitgroup_add` stops exactly if the count would fall below 0. At 0 it readies every waiter, in
-- order, and above 0 nobody; the group stays valid.
pub add_lem :
    (wg : WaitGroup) (n : ℤ)
    → IsValid wg
    → ((pos_part wg.cnt + pos_part n < neg_part n) × (add wg n ≡ none))
      ⊎ ((wg' : WaitGroup) × (woken : List ℕ) × (add wg n ≡ some (wg', woken))
          × (pos_part wg'.cnt + neg_part n ≡ pos_part wg.cnt + pos_part n)
          × IsValid wg'
          × (((pos_part wg'.cnt ≡ 0) × (woken ≡ wg.waiters) × (wg'.waiters ≡ []))
              ⊎ ((0 < pos_part wg'.cnt) × (woken ≡ []) × (wg'.waiters ≡ wg.waiters))))
unfolding add
add_lem wg n v = elim (Bool-cases (ltb_ℤ (wg.cnt +ℤ n) (pos 0))) [
  | inl below ↦ inl (ground arith, ground arith)
  | inr ok ↦ elim (Bool-cases (eqb_ℤ (wg.cnt +ℤ n) (pos 0))) [
    | inl zero_sum ↦ inr (
      record { cnt = wg.cnt +ℤ n; waiters = [] },
      wg.waiters,
      ground arith,
      ground arith,
      ground arith,
      inl (ground arith, refl, refl),
    )
    | inr above ↦ inr (
      record wg { cnt = wg.cnt +ℤ n },
      [],
      ground arith,
      ground arith,
      ground arith,
      inr (ground arith, refl, refl),
    )
  ]
]

-- `waitgroup_wait` returns at once exactly if the count is 0; else the caller is the last waiter.
pub wait_lem :
    (wg : WaitGroup) (self : ℕ)
    → IsValid wg
    → IsValid (wait wg self).0
      × (((wg.cnt ≡ pos 0) × (wait wg self ≡ (wg, true)))
          ⊎ ((0 < pos_part wg.cnt)
              × (wait wg self ≡ (record wg { waiters = wg.waiters ++ self ∷ [] }, false))))
unfolding wait
wait_lem wg self v = elim (Bool-cases (eqb_ℤ wg.cnt (pos 0))) [
  | inl zero_cnt ↦ (ground arith, inl (ground arith, ground arith))
  | inr more ↦ (ground arith, inr (ground arith, ground arith))
]
