-- ===== src/Sync/Barrier.antt =====
-- The barrier (runtime/sync.c). The counts are those of threads, so they do not overflow.
use caladan.Common.{
  ℕ, ◌+◌, ◌<◌, ◌≡◌, refl, List, [], ◌∷◌, ◌++◌, leb, if◌then◌else◌, arith, length, map,
}
use mathlib.Core.List.{append_assoc, append-nil}

-- `struct barrier`, without its spin lock
pub record Barrier : Type 0 where
  pub waiting : ℕ
  pub count : ℕ
  pub waiters : List ℕ

pub init : ℕ → Barrier
init count = record { waiting = 0; count = count; waiters = [] }

-- What a caller of `barrier_wait` gets: it parks, or returns true and readies threads.
pub data Arrival : Type 0 where
  parks : Arrival
  releases : List ℕ → Arrival

pub wait : Barrier → ℕ → Barrier × Arrival
wait b self =
    if leb b.count (b.waiting + 1)
    then (record b { waiting = 0; waiters = [] }, releases b.waiters)
    else (record b { waiting = b.waiting + 1; waiters = b.waiters ++ self ∷ [] }, parks)

-- Threads that arrive in order, and what each gets.
pub arrive : Barrier → List ℕ → Barrier × List Arrival
arrive b [] = (b, [])
arrive b (t ∷ ts) = let (b', a) = wait b t in let (b'', as_) = arrive b' ts in (b'', a ∷ as_)

-- As long as the count is not reached, each thread parks.
arrive_early :
    (b : Barrier) (ts : List ℕ)
    → b.waiting + length ts < b.count
    → arrive b ts ≡ (
      record b { waiting = b.waiting + length ts; waiters = b.waiters ++ ts },
      map (λ t. parks) ts,
    )
unfolding arrive
arrive_early b [] h = ground (arith, append-nil b.waiters)
arrive_early b (t ∷ ts) h =
    rw
      (
        parked,
        arrive_early (record b { waiting = b.waiting + 1; waiters = b.waiters ++ t ∷ [] }) ts
            (omega arith),
      )
      (ground (arith, append_assoc b.waiters (t ∷ []) ts))
  where
    parked : wait b t ≡ (record b { waiting = b.waiting + 1; waiters = b.waiters ++ t ∷ [] }, parks)
    parked = unfold wait in ground arith

arrive-append :
    (b : Barrier) (ts us : List ℕ)
    → arrive b (ts ++ us)
      ≡ (let (b', a) = arrive b ts in let (b'', a') = arrive b' us in (b'', a ++ a'))
unfolding arrive
arrive-append b [] us = refl
arrive-append b (t ∷ ts) us = rw (arrive-append (wait b t).0 ts us)

wait_last :
    (b : Barrier) (t : ℕ)
    → b.count ≡ b.waiting + 1
    → wait b t ≡ (record b { waiting = 0; waiters = [] }, releases b.waiters)
unfolding wait
wait_last b t h = ground arith

-- Of as many threads as the barrier counts, all but the last park; the last returns true, readies
-- exactly the others in order, and leaves the barrier as it was at the start.
pub round_lem :
    (count : ℕ) (ts : List ℕ) (last : ℕ)
    → length ts + 1 ≡ count
    → arrive (init count) (ts ++ last ∷ []) ≡ (init count, map (λ t. parks) ts ++ releases ts ∷ [])
unfolding init
round_lem count ts last h =
    rw
      (
        arrive-append (record { waiting = 0; count = count; waiters = [] }) ts (last ∷ []),
        arrive_early (record { waiting = 0; count = count; waiters = [] }) ts (omega arith),
      )
      (unfold arrive in
        rw (
          wait_last (record { waiting = 0 + length ts; count = count; waiters = [] ++ ts }) last
            (omega arith)))
