-- ===== src/Sync/RwMutex/Safety.antt =====
-- Threads that use a read-write mutex in any order (runtime/sync.c): writers exclude all others,
-- and nobody waits for a mutex that is free.
use caladan.Common.{
  ℕ, ◌+◌, ◌-◌, ◌≤◌, ◌<◌, ◌≡◌, refl, ◌⊎◌, inl, inr, Bool, true, false, arith, ltb, ◌==◌,
  if◌then◌else◌, List, [], ◌∷◌, length, length-append, Bool-cases,
}
use caladan.Common.Int.{pos, eqb_ℤ}
use caladan.Sync.RwMutex.{
  RwMutex, Outcome, acquired, parked, Woken, nobody, readers, writer, init, rdlock, try_rdlock,
  wrlock, try_wrlock, wake, release, unlock, write_held, zero_count,
}

-- The mutex with the numbers of the threads that hold it to read and to write.
pub record Use : Type 0 where
  pub m : RwMutex
  pub reading : ℕ
  pub writing : ℕ

abbrev grant_read : Outcome → ℕ
grant_read acquired = 1
grant_read parked = 0

abbrev grant_try : Bool → ℕ
grant_try true = 1
grant_try false = 0

abbrev woken_readers : Woken → ℕ
woken_readers nobody = 0
woken_readers (readers ths) = length ths
woken_readers (writer th) = 0

abbrev woken_writers : Woken → ℕ
woken_writers nobody = 0
woken_writers (readers ths) = 0
woken_writers (writer th) = 1

-- A call by any thread. Only a holder unlocks; who is woken holds the mutex from then on.
pub data Step (u : Use) : Use → Type 0 where
  rdlocks :
      (self : ℕ)
      → Step u (
          let (m', o) = rdlock u.m self in
          record { m = m'; reading = u.reading + grant_read o; writing = u.writing })
  tries_rdlock : Step u (
      let (m', b) = try_rdlock u.m in
      record { m = m'; reading = u.reading + grant_try b; writing = u.writing })
  wrlocks :
      (self : ℕ)
      → Step u (
          let (m', o) = wrlock u.m self in
          record { m = m'; reading = u.reading; writing = u.writing + grant_read o })
  tries_wrlock : Step u (
      let (m', b) = try_wrlock u.m in
      record { m = m'; reading = u.reading; writing = u.writing + grant_try b })
  reader_unlocks :
      0 < u.reading
      → Step u (
          let (m', w) = unlock u.m in
          record {
            m = m';
            reading = u.reading - 1 + woken_readers w;
            writing = u.writing + woken_writers w;
          })
  writer_unlocks :
      0 < u.writing
      → Step u (
          let (m', w) = unlock u.m in
          record {
            m = m';
            reading = u.reading + woken_readers w;
            writing = u.writing - 1 + woken_writers w;
          })

pub data Reach : Use → Type 0 where
  start : Reach (record { m = init; reading = 0; writing = 0 })
  later : {u v : Use} → Reach u → Step u v → Reach v

-- The count tells who holds the mutex; a writer is alone; readers wait only for a writer, and
-- writers only while somebody holds it.
pub record IsSafe (u : Use) : Type 0 where
  pub counted : u.m.count ≡ (if u.writing == 0 then pos u.reading else write_held)
  pub one_writer : u.writing ≤ 1
  pub alone : (u.writing ≡ 0) ⊎ (u.reading ≡ 0)
  pub waiters : u.m.read_waiter_count ≡ length u.m.read_waiters
  pub readers_wait : (length u.m.read_waiters ≡ 0) ⊎ (u.writing ≡ 1)
  pub writers_wait : (length u.m.write_waiters ≡ 0) ⊎ (0 < u.reading + u.writing)

-- Behind the release: `n` readers are left, and nobody writes.
module _ (m : RwMutex) (n none_left : ℕ) (count : m.count ≡ pos n) (nobody_writes : none_left ≡ 0)
    (waiters : m.read_waiter_count ≡ length m.read_waiters)
    (no_writer : (length m.read_waiters ≡ 0) ⊎ (n ≡ 0)) where
  abbrev woke : Use
  woke =
      let (m', w) = wake m in
      record { m = m'; reading = n + woken_readers w; writing = none_left + woken_writers w }

  wake-IsSafe_for : (ws : List ℕ) → m.write_waiters ≡ ws → IsSafe woke
  unfolding wake
  wake-IsSafe_for [] e = ground arith
  wake-IsSafe_for (th ∷ ths) e = ground arith

  wake-IsSafe : IsSafe woke
  wake-IsSafe = wake-IsSafe_for m.write_waiters refl

-- Every call keeps the mutex safe.
pub Step-IsSafe : {u v : Use} → Step u v → IsSafe u → IsSafe v
unfolding rdlock try_rdlock wrlock try_wrlock unlock release
Step-IsSafe {u} (rdlocks self) s = ground (arith, length-append u.m.read_waiters (self ∷ []))
Step-IsSafe tries_rdlock s = ground arith
Step-IsSafe {u} (wrlocks self) s = ground (arith, length-append u.m.write_waiters (self ∷ []))
Step-IsSafe tries_wrlock s = ground arith
Step-IsSafe {u} (reader_unlocks h) s =
    wake-IsSafe (release u.m) (u.reading - 1) u.writing (ground arith) (omega (arith, s.alone))
      s.waiters (omega (arith, s.alone, s.readers_wait))
Step-IsSafe {u} (writer_unlocks h) s =
    wake-IsSafe (release u.m) u.reading (u.writing - 1) (ground arith) (omega (arith, s.one_writer))
      s.waiters (omega (arith, s.alone))

-- After any calls by threads that unlock only what they hold, at most one thread writes and then
-- nobody reads, the count tells who holds the mutex, readers wait only for a writer, and writers
-- wait only while somebody holds it.
pub Reach-IsSafe : {u : Use} → Reach u → IsSafe u
unfolding init
Reach-IsSafe start = ground arith
Reach-IsSafe (later r st) = Step-IsSafe st (Reach-IsSafe r)

-- Who gets the mutex when its last holder lets go: all readers that wait, else the first writer.
abbrev pub heir : List ℕ → List ℕ → Woken
heir (r ∷ rs) ws = readers (r ∷ rs)
heir [] (w ∷ ws) = writer w
heir [] [] = nobody

wake-heir :
    (m : RwMutex) (rs ws : List ℕ)
    → m.read_waiters ≡ rs
    → m.write_waiters ≡ ws
    → m.count ≡ zero_count
    → m.read_waiter_count ≡ length m.read_waiters
    → (wake m).1 ≡ heir rs ws
unfolding wake
wake-heir m [] [] er ew c n = ground arith
wake-heir m [] (w ∷ ws) er ew c n = ground arith
wake-heir m (r ∷ rs) ws er ew c n = ground arith

wake_busy : (m : RwMutex) → eqb_ℤ m.count zero_count ≡ false → (wake m).1 ≡ nobody
unfolding wake
wake_busy m h = ground arith

-- An unlock by one of several readers wakes nobody; one by the last holder wakes every reader that
-- waits, and the writer that has waited longest only if no reader does.
pub unlock_wakes :
    (u : Use)
    → IsSafe u
    → 0 < u.reading + u.writing
    → ((1 < u.reading) × ((unlock u.m).1 ≡ nobody))
      ⊎ ((u.reading + u.writing ≡ 1) × ((unlock u.m).1 ≡ heir u.m.read_waiters u.m.write_waiters))
unfolding unlock release
unlock_wakes u s h = elim (Bool-cases (ltb 1 u.reading)) [
  | inl more ↦ inl (ground arith, wake_busy (release u.m) (ground arith))
  | inr last ↦ inr (
    ground arith,
    wake-heir (release u.m) u.m.read_waiters u.m.write_waiters refl refl (ground arith) s.waiters,
  )
]
