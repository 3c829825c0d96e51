-- ===== src/Sync/Mutex/Safety.antt =====
-- Threads that use a mutex in any interleaving of its fast and slow paths (runtime/sync.c).
use caladan.Common.{
  ℕ, ◌+◌, ◌-◌, ◌≤◌, ◌<◌, ◌≡◌, refl, ◌⊎◌, inl, inr, Bool, true, false, arith, List, [], ◌∷◌, length,
  subst, ap,
}
use caladan.Sync.Mutex.{
  Mutex, waiter_flag, init, try_lock, fast_unlock, SlowLock, races, parks, slow_lock,
  slow_lock_write, SlowUnlock, empties, wakes, pop_waiter, slow_unlock, slow_unlock_write,
}

-- Where the thread is that holds the spin lock.
pub data Spin : Type 0 where
  free about_to_take about_to_clear : Spin

-- The mutex, and how many threads hold it, from the access that gave it to them up to the access
-- that gives it up.
pub record Use : Type 0 where
  pub m : Mutex
  pub spin : Spin
  pub holders : ℕ

abbrev given : Bool → ℕ
given true = 1
given false = 0

abbrev after_lock : SlowLock → Spin
after_lock races = about_to_take
after_lock parks = free

abbrev after_unlock : SlowUnlock → Spin
after_unlock empties = about_to_clear
after_unlock (wakes th) = free

-- A thread that is woken holds the mutex.
abbrev handed : SlowUnlock → ℕ
handed empties = 0
handed (wakes th) = 1

-- One access to the word, by any thread. Only a holder unlocks, and a slow path starts only while the
-- spin lock is free.
pub data Step (u : Use) : Use → Type 0 where
  tries_lock :
      Step u (let (m', b) = try_lock u.m in record u { m = m'; holders = u.holders + given b })
  unlocks :
      0 < u.holders
      → Step u (let (m', b) = fast_unlock u.m in record u { m = m'; holders = u.holders - given b })
  slow_locks :
      (self : ℕ)
      → u.spin ≡ free
      → Step u (let (m', o) = slow_lock u.m self in record u { m = m'; spin = after_lock o })
  takes :
      u.spin ≡ about_to_take
      → Step u (record { m = slow_lock_write u.m; spin = free; holders = u.holders + 1 })
  slow_unlocks :
      0 < u.holders
      → u.spin ≡ free
      → Step u (
          let (m', o) = slow_unlock u.m in
          record { m = m'; spin = after_unlock o; holders = u.holders - 1 + handed o })
  clears : u.spin ≡ about_to_clear → Step u (record u { m = slow_unlock_write u.m; spin = free })

pub data Reach : Use → Type 0 where
  start : Reach (record { m = init; spin = free; holders = 0 })
  later : {u v : Use} → Reach u → Step u v → Reach v

-- What the word, the waiters and the holders are at each place of the spin lock's holder.
abbrev pub Fits : Spin → ℕ → ℕ → ℕ → Type 0
Fits free held n holders =
    ((held ≡ 0) × (n ≡ 0) × (holders ≡ 0))
    ⊎ ((held ≡ 1) × (n ≡ 0) × (holders ≡ 1))
    ⊎ ((held ≡ waiter_flag + 1) × (holders ≡ 1))
Fits about_to_take held n holders = (held ≡ waiter_flag) × (n ≡ 0) × (holders ≡ 0)
Fits about_to_clear held n holders =
    ((held ≡ 1) ⊎ (held ≡ waiter_flag + 1)) × (n ≡ 0) × (holders ≡ 0)

abbrev pub IsSafe : Use → Type 0
IsSafe u = Fits u.spin u.m.held (length u.m.waiters) u.holders

try_lock-IsSafe :
    (m : Mutex) (s : Spin) (n : ℕ)
    → Fits s m.held (length m.waiters) n
    → (let (m', b) = try_lock m in Fits s m'.held (length m'.waiters) (n + given b))
unfolding try_lock
try_lock-IsSafe m free n f = ground arith
try_lock-IsSafe m about_to_take n f = ground arith
try_lock-IsSafe m about_to_clear n f = ground arith

fast_unlock-IsSafe :
    (m : Mutex) (s : Spin) (n : ℕ)
    → 0 < n
    → Fits s m.held (length m.waiters) n
    → (let (m', b) = fast_unlock m in Fits s m'.held (length m'.waiters) (n - given b))
unfolding fast_unlock
fast_unlock-IsSafe m free n h f = ground arith
fast_unlock-IsSafe m about_to_take n h f = ground arith
fast_unlock-IsSafe m about_to_clear n h f = ground arith

slow_lock-IsSafe :
    (m : Mutex) (self n : ℕ)
    → Fits free m.held (length m.waiters) n
    → (let (m', o) = slow_lock m self in Fits (after_lock o) m'.held (length m'.waiters) n)
unfolding slow_lock
slow_lock-IsSafe m self n (inl (e, w, h)) = rw e (refl, w, h)
slow_lock-IsSafe m self n (inr (inl (e, w, h))) = rw e (inr (inr (refl, h)))
slow_lock-IsSafe m self n (inr (inr (e, h))) = rw e (inr (inr (refl, h)))

slow_unlock-IsSafe :
    (m : Mutex) (ws : List ℕ) (n : ℕ)
    → m.waiters ≡ ws
    → 0 < n
    → Fits free m.held (length m.waiters) n
    → (let (m', o) = pop_waiter m ws in
        Fits (after_unlock o) m'.held (length m'.waiters) (n - 1 + handed o))
unfolding pop_waiter
slow_unlock-IsSafe m [] n e h f = ground arith
slow_unlock-IsSafe m (th ∷ ths) n e h f = ground arith

-- Every access keeps the mutex safe.
pub Step-IsSafe : {u v : Use} → Step u v → IsSafe u → IsSafe v
unfolding slow_lock_write slow_unlock_write slow_unlock
Step-IsSafe {u} tries_lock s = try_lock-IsSafe u.m u.spin u.holders s
Step-IsSafe {u} (unlocks h) s = fast_unlock-IsSafe u.m u.spin u.holders h s
Step-IsSafe {u} (slow_locks self e) s =
    slow_lock-IsSafe u.m self u.holders
      (subst (λ (p : Spin). Fits p u.m.held (length u.m.waiters) u.holders) e s)
Step-IsSafe {u} (takes e) s =
    let f = subst (λ (p : Spin). Fits p u.m.held (length u.m.waiters) u.holders) e s in
    inr (inl (refl, f.1, omega (arith, f.2)))
Step-IsSafe {u} (slow_unlocks h e) s =
    slow_unlock-IsSafe u.m u.m.waiters u.holders refl h
      (subst (λ (p : Spin). Fits p u.m.held (length u.m.waiters) u.holders) e s)
Step-IsSafe {u} (clears e) s =
    let f = subst (λ (p : Spin). Fits p u.m.held (length u.m.waiters) u.holders) e s in
    inl (refl, f.1, f.2)

pub Reach-IsSafe : {u : Use} → Reach u → IsSafe u
unfolding init
Reach-IsSafe start = inl (refl, refl, refl)
Reach-IsSafe (later r st) = Step-IsSafe st (Reach-IsSafe r)

IsSafe-exclusive :
    (m : Mutex) (s : Spin) (n : ℕ)
    → Fits s m.held (length m.waiters) n
    → (n ≤ 1)
      × ((length m.waiters ≡ 0)
          ⊎ ((n ≡ 1) × ((try_lock m).1 ≡ false) × ((fast_unlock m).1 ≡ false)))
unfolding try_lock fast_unlock
IsSafe-exclusive m free n f = ground arith
IsSafe-exclusive m about_to_take n f = ground arith
IsSafe-exclusive m about_to_clear n f = ground arith

-- However the accesses of any threads to the mutex interleave, if only holders unlock, at most one
-- thread holds it; and while threads wait, one holds it, no fast path of a lock succeeds, and the
-- holder's fast path of an unlock fails, so that it goes the slow one.
pub mutex_excludes :
    {u : Use}
    → Reach u
    → (u.holders ≤ 1)
      × ((length u.m.waiters ≡ 0)
          ⊎ ((u.holders ≡ 1) × ((try_lock u.m).1 ≡ false) × ((fast_unlock u.m).1 ≡ false)))
mutex_excludes {u} r = IsSafe-exclusive u.m u.spin u.holders (Reach-IsSafe r)

hands_over_free :
    (m : Mutex) (s : Spin) (th n : ℕ) (ths : List ℕ)
    → m.waiters ≡ th ∷ ths
    → Fits s m.held (length m.waiters) n
    → (s ≡ free)
      × (slow_unlock m ≡ (record m { waiters = ths }, wakes th))
      × ((try_lock (record m { waiters = ths })).1 ≡ false)
unfolding slow_unlock pop_waiter try_lock
hands_over_free m free th n ths e f = (refl, rw e refl, ground (arith, e))
hands_over_free m about_to_take th n ths e f = absurd (omega (arith, f.1, ap length e))
hands_over_free m about_to_clear th n ths e f = absurd (omega (arith, f.1, ap length e))

-- However the accesses interleave, while threads wait, the spin lock is free, the slow path of an
-- unlock readies the first of them, and the word stays held, so that no newcomer takes the mutex
-- before the thread that was woken.
pub slow_unlock_hands_over :
    {u : Use} (th : ℕ) (ths : List ℕ)
    → Reach u
    → u.m.waiters ≡ th ∷ ths
    → (u.spin ≡ free)
      × (slow_unlock u.m ≡ (record u.m { waiters = ths }, wakes th))
      × ((try_lock (slow_unlock u.m).0).1 ≡ false)
slow_unlock_hands_over {u} th ths r e =
    let h = hands_over_free u.m u.spin th u.holders ths e (Reach-IsSafe r) in (h.0, h.1, rw h.1 h.2)
