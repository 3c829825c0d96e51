-- ===== src/Simple/Choose.antt =====
-- Which core a process gets, which process gets a core, and the events that ask for it
-- (iokernel/simple.c).
use caladan.Common.{
  ℕ, zero, suc, ◌+◌, Bool, true, false, not, ◌&&◌, ◌||◌, ◌==◌, leb, if◌then◌else◌, List, [], ◌∷◌,
  Option, none, some, update,
}
use caladan.Simple.{
  ncpu, nhist, enoent, SimpleData, Simple, CoreConfig, Sched, is_preemptible, with_sd, cleanup_core,
  mark_congested, unmark_congested, run_kthread_on_core,
}

-- Whether another process may get the core: it is not its own, and it is free or can be taken.
abbrev pub can_take : Simple → ℕ → ℕ → Bool
can_take s p core =
    not (s.cores core == p)
    && (s.cores core == 0 || is_preemptible (s.sds (s.cores core)) (s.sds p))

-- The sibling of a core of the process
unfoldable pub match_sibling : CoreConfig → Simple → ℕ → List ℕ → Option ℕ
match_sibling g s p [] = none
match_sibling g s p (core ∷ cs) =
    let sib = g.siblings core in
    let rest = match_sibling g s p cs in
    if not (s.cores core == p)
    then rest
    else if not (can_take s p sib)
    then rest
    else if g.is_allowed sib
    then some sib
    else rest

-- A core that one of the parked kthreads ran on, or its sibling; the search ends at a kthread that
-- never ran.
unfoldable pub previous_core : CoreConfig → Simple → ℕ → List ℕ → Option ℕ
previous_core g s p [] = none
previous_core g s p (core ∷ cs) =
    let sib = g.siblings core in
    let rest = previous_core g s p cs in
    if leb ncpu core
    then none
    else if can_take s p core
    then some core
    else if g.noht
    then rest
    else if can_take s p sib && g.is_allowed sib
    then some sib
    else rest

-- The first idle core of the `n` from `c` on (`bitmap_find_next_set`)
unfoldable pub find_idle : Simple → ℕ → ℕ → Option ℕ
find_idle s c zero = none
find_idle s c (suc n) = let rest = find_idle s (c + 1) n in if s.idle_cores c then some c else rest

-- A core of a process that has more than it is guaranteed
unfoldable pub find_preemptible : Simple → ℕ → List ℕ → Option ℕ
find_preemptible s p [] = none
find_preemptible s p (core ∷ cs) =
    let rest = find_preemptible s p cs in
    if s.cores core == p
    then rest
    else if not (s.cores core == 0) && is_preemptible (s.sds (s.cores core)) (s.sds p)
    then some core
    else rest

abbrev pub or_else : Option ℕ → Option ℕ → Option ℕ
or_else (some c) o = some c
or_else none o = o

-- `simple_choose_core`, with `none` for NCPU, of the cores that the parked kthreads ran on last
unfoldable pub choose_core : CoreConfig → Simple → ℕ → List ℕ → Option ℕ
choose_core g s p last = or_else (if g.noht then none else match_sibling g s p g.cores_tbl) (
    or_else (previous_core g s p last)
      (or_else (find_idle s 0 ncpu) (find_preemptible s p g.cores_tbl)))

abbrev pub run_chosen : {W : Type 0} → Sched W → Simple → W → ℕ → Option ℕ → ℕ × Simple × W
run_chosen o s w p none = (enoent, s, w)
run_chosen o s w p (some core) = run_kthread_on_core o s w p core

-- `simple_add_kthread`, which `simple_notify_core_needed` calls
unfoldable pub add_kthread : {W : Type 0} → CoreConfig → Sched W → Simple → W → ℕ → ℕ × Simple × W
unfolding choose_core
add_kthread g o s w p =
    if leb (s.sds p).threads_max (s.sds p).threads_active
    then (enoent, s, w)
    else run_chosen o s w p (choose_core g s p (o.idle_threads w p))

-- `struct delay_info`, with the whole part of the delay
pub record DelayInfo : Type 0 where
  pub parked_thread_busy : Bool
  pub standing_queue : Bool
  pub max_delay_us : ℕ

abbrev pub congested : SimpleData → DelayInfo → Bool
congested d delay =
    (if d.qdelay_us == 0 then delay.standing_queue else leb d.qdelay_us delay.max_delay_us)
    || delay.parked_thread_busy

abbrev pub added : {W : Type 0} → ℕ → ℕ × Simple × W → Simple × W
added p (ret, s, w) = ((if ret == 0 then s else mark_congested s p), w)

-- `simple_notify_congested`, which always returns false
unfoldable pub notify_congested :
    {W : Type 0} → CoreConfig → Sched W → Simple → W → ℕ → DelayInfo → Simple × W
unfolding mark_congested
notify_congested g o s w p delay =
    let d = s.sds p in
    if d.waking
    then (with_sd s p (record d { waking = false }), w)
    else if not (congested d delay)
    then (unmark_congested s p, w)
    else if d.is_congested
    then (s, w)
    else added p (add_kthread g o s w p)

-- A process that is congested and has kthreads to run; not NULL
abbrev pub wants : {W : Type 0} → Sched W → Simple → W → ℕ → Bool
wants o s w p = not (p == 0) && (s.sds p).is_congested && not (o.threads_avail w p == 0)

-- The processes that ran on a core or its sibling, the last first, from `i` on
unfoldable pub choose_past : {W : Type 0} → CoreConfig → Sched W → Simple → W → ℕ → ℕ → ℕ → Option ℕ
choose_past g o s w core i zero = none
choose_past g o s w core i (suc n) =
    let rest = choose_past g o s w core (i + 1) n in
    if wants o s w (s.hist core i)
    then some (s.hist core i)
    else if g.noht
    then rest
    else if wants o s w (s.hist (g.siblings core) i)
    then some (s.hist (g.siblings core) i)
    else rest

unfoldable pub choose_listed : {W : Type 0} → Sched W → W → List ℕ → Option ℕ
choose_listed o w [] = none
choose_listed o w (p ∷ ps) =
    let rest = choose_listed o w ps in if o.threads_avail w p == 0 then rest else some p

-- `simple_choose_kthread`
unfoldable pub choose_kthread : {W : Type 0} → CoreConfig → Sched W → Simple → W → ℕ → Option ℕ
choose_kthread g o s w core =
    or_else
      (if not g.noht && wants o s w (s.cores (g.siblings core))
        then some (s.cores (g.siblings core))
        else none)
      (or_else (choose_past g o s w core 0 nhist) (choose_listed o w s.congested_procs))

abbrev pub set_idle : Simple → ℕ → Simple
set_idle s core = record s { idle_cores = update s.idle_cores core true }

-- A core that no process gets, or that the chosen one fails to run on, is idle.
abbrev pub polled : {W : Type 0} → ℕ → ℕ → ℕ × Simple × W → Simple × W
polled core p (ret, s, w) = ((if ret == 0 then s else mark_congested (set_idle s core) p), w)

abbrev pub run_polled : {W : Type 0} → Sched W → Simple → W → ℕ → Option ℕ → Simple × W
run_polled o s w core none = (set_idle s core, w)
run_polled o s w core (some p) = polled core p (run_kthread_on_core o s w p core)

-- One turn of the loop of `simple_sched_poll`
unfoldable pub poll_core : {W : Type 0} → CoreConfig → Sched W → Simple → W → ℕ → Simple × W
unfolding choose_kthread
poll_core g o s w core =
    let s₁ = if s.cores core == 0 then s else unmark_congested s (s.cores core) in
    let s₂ = cleanup_core s₁ core in run_polled o s₂ w core (choose_kthread g o s₂ w core)

unfoldable pub poll_each : {W : Type 0} → CoreConfig → Sched W → Simple → W → List ℕ → Simple × W
unfolding poll_core
poll_each g o s w [] = (s, w)
poll_each g o s w (core ∷ cs) = let (s', w') = poll_core g o s w core in poll_each g o s' w' cs

-- `simple_sched_poll`, of the number of idle cores and these in order
unfoldable pub sched_poll :
    {W : Type 0} → CoreConfig → Sched W → Simple → W → ℕ → List ℕ → Simple × W
unfolding poll_each
sched_poll g o s w idle_cnt idle = if idle_cnt == 0 then (s, w) else poll_each g o s w idle
