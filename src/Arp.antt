-- ===== src/Arp.antt =====
-- The ARP table (runtime/net/arp.c). What runs under the lock of the table is one step; the hash of an
-- address is an argument, time comes with each event, a packet is a number, and what is sent, freed
-- or woken is a list of effects, in order.
pub mod Buckets
pub mod Valid
pub mod Update
pub mod Lookup
pub mod Age
pub mod Probe
pub mod Tick
mod Tests
use caladan.Common.{
  ℕ, zero, suc, ◌+◌, ◌-◌, ◌*◌, ◌%◌, Bool, true, false, not, ◌&&◌, ◌||◌, ◌==◌, ltb, if◌then◌else◌,
  List, [], ◌∷◌, ◌++◌, Option, none, some, update, map,
}

abbrev pub arp_table_capacity : ℕ
arp_table_capacity = 1024

abbrev pub arp_retries : ℕ
arp_retries = 3

abbrev pub one_second : ℕ
one_second = 1000000

abbrev pub arp_retry_time : ℕ
arp_retry_time = one_second

abbrev pub arp_reprobe_time : ℕ
arp_reprobe_time = 10 * one_second

pub data ArpState : Type 0 where
  probing : ArpState
  resolved : ArpState
  reprobing : ArpState
  fixed : ArpState

-- `struct arp_entry`
pub record ArpEntry : Type 0 where
  pub state : ArpState
  pub ip : ℕ
  pub eth : ℕ
  pub local : Bool
  pub q : List ℕ
  pub ts : ℕ
  pub tries_left : ℕ

-- The table, how many of its entries are not static, and whether the worker is parked.
pub record Arp : Type 0 where
  pub tbl : ℕ → List ArpEntry
  pub nr_dynamic_entries : ℕ
  pub parked : Bool

pub data ArpEffect : Type 0 where
  sends : ℕ → ℕ → Bool → ArpEffect
  requests : ℕ → ArpEffect
  fails : ℕ → ArpEffect
  frees : ℕ → ArpEffect
  wakes : ArpEffect

abbrev pub is_probing : ArpState → Bool
is_probing probing = true
is_probing resolved = false
is_probing reprobing = false
is_probing fixed = false

abbrev pub is_fixed : ArpState → Bool
is_fixed probing = false
is_fixed resolved = false
is_fixed reprobing = false
is_fixed fixed = true

unfoldable pub lookup_entry : List ArpEntry → ℕ → Option ArpEntry
lookup_entry [] daddr = none
lookup_entry (e ∷ es) daddr =
    let rest = lookup_entry es daddr in if e.ip == daddr then some e else rest

-- The entry of an address is written.
unfoldable pub put_entry : List ArpEntry → ArpEntry → List ArpEntry
put_entry [] e' = []
put_entry (e ∷ es) e' = let rest = put_entry es e' in if e.ip == e'.ip then e' ∷ es else e ∷ rest

abbrev pub with_bucket : Arp → ℕ → List ArpEntry → Arp
with_bucket a idx es = record a { tbl = update a.tbl idx es }

-- `insert_entry`
unfoldable pub insert_entry : Arp → ArpEntry → ℕ → Arp × List ArpEffect
insert_entry a e idx =
    let a' = with_bucket a idx (e ∷ a.tbl idx) in
    if is_fixed e.state
    then (a', [])
    else if (a.nr_dynamic_entries + 1 == 1) && a.parked
    then (record a' { nr_dynamic_entries = a.nr_dynamic_entries + 1; parked = false }, wakes ∷ [])
    else (record a' { nr_dynamic_entries = a.nr_dynamic_entries + 1 }, [])

-- `create_entry`, whose ethernet address is not set
abbrev pub create_entry : ℕ → ℕ → ℕ → ArpEntry
create_entry daddr eth now = record {
  state = probing;
  ip = daddr;
  eth = eth;
  local = false;
  q = [];
  ts = now;
  tries_left = arp_retries;
}

abbrev pub send_all : List ℕ → ℕ → Bool → List ArpEffect
send_all [] dhost local = []
send_all (m ∷ ms) dhost local = sends m dhost local ∷ send_all ms dhost local

abbrev pub resolve : ArpEntry → ℕ → Bool → ℕ → ArpEntry
resolve e dhost local now = record e {
  eth = dhost;
  local = local;
  ts = now;
  state = resolved;
  q = [];
}

abbrev pub resolve_found : Arp → ℕ → ArpEntry → ℕ → Bool → ℕ → Arp × List ArpEffect
resolve_found a idx e dhost local now = if is_fixed e.state then (a, []) else (
  with_bucket a idx (put_entry (a.tbl idx) (resolve e dhost local now)),
  send_all e.q dhost local,
)

-- The new entry goes into the table before it is resolved.
abbrev pub resolve_new : Arp × List ArpEffect → ℕ → ArpEntry → ℕ → Bool → ℕ → Arp × List ArpEffect
resolve_new (a, fx) idx e dhost local now = (
  with_bucket a idx (put_entry (a.tbl idx) (resolve e dhost local now)),
  fx ++ send_all e.q dhost local,
)

-- By the entry that the table has of the address
abbrev pub update_by :
    Arp → ℕ → ℕ → ℕ → Bool → Bool → ℕ → ℕ → Option ArpEntry → Arp × List ArpEffect
update_by a idx daddr dhost local memory eth now none =
    let e = create_entry daddr eth now in
    if not memory then (a, []) else resolve_new (insert_entry a e idx) idx e dhost local now
update_by a idx daddr dhost local memory eth now (some e) = resolve_found a idx e dhost local now

-- `arp_update`: `idx` is the hash of the address, `local` whether the host is our own, `memory` whether
-- an entry can be allocated, and `eth` what is in its memory.
unfoldable pub arp_update : Arp → ℕ → ℕ → ℕ → Bool → Bool → ℕ → ℕ → Arp × List ArpEffect
unfolding insert_entry lookup_entry put_entry
arp_update a idx daddr dhost local memory eth now =
    update_by a idx daddr dhost local memory eth now (lookup_entry (a.tbl idx) daddr)

-- What a lookup comes to: an address, with whether it is of this machine if that is told, or the
-- packet waits, or no entry can be allocated.
pub data Answer : Type 0 where
  answers : ℕ → Option Bool → Answer
  in_progress : Answer
  no_memory : Answer

-- The hot path of `arp_lookup`
unfoldable pub lookup_hot : Arp → ℕ → ℕ → Option Answer
unfolding lookup_entry
lookup_hot a idx daddr = elim (lookup_entry (a.tbl idx) daddr) [
  | none ↦ none
  | some e ↦ if is_probing e.state then none else some (answers e.eth (some e.local))
]

abbrev pub wait_found : Arp → ℕ → ArpEntry → Option ℕ → Arp × List ArpEffect × Answer
wait_found a idx e none =
    if not (is_probing e.state) then (a, [], answers e.eth none) else (a, [], in_progress)
wait_found a idx e (some m) = if not (is_probing e.state) then (a, [], answers e.eth none) else (
  with_bucket a idx (put_entry (a.tbl idx) (record e { q = e.q ++ m ∷ [] })),
  [],
  in_progress,
)

abbrev pub wait_new : Arp × List ArpEffect → ℕ → ArpEntry → Option ℕ → Arp × List ArpEffect × Answer
wait_new (a, fx) idx e none = (a, fx, in_progress)
wait_new (a, fx) idx e (some m) =
    (with_bucket a idx (put_entry (a.tbl idx) (record e { q = e.q ++ m ∷ [] })), fx, in_progress)

abbrev pub give_up : Arp → Option ℕ → Arp × List ArpEffect × Answer
give_up a none = (a, [], in_progress)
give_up a (some m) = (a, frees m ∷ [], in_progress)

-- By the entry that the table has, and the new one
abbrev pub wait_by :
    Arp → ℕ → Option ℕ → Option ArpEntry → Option ArpEntry → Arp × List ArpEffect × Answer
wait_by a idx m newe (some e) = wait_found a idx e m
wait_by a idx m none none = give_up a m
wait_by a idx m (some e) none = wait_new (insert_entry a e idx) idx e m

-- What `arp_lookup` does under the lock, with a new entry if there was none before
unfoldable pub lookup_cold :
    Arp → ℕ → ℕ → Option ℕ → Option ArpEntry → Arp × List ArpEffect × Answer
unfolding lookup_entry insert_entry put_entry
lookup_cold a idx daddr m newe = wait_by a idx m newe (lookup_entry (a.tbl idx) daddr)

-- The cold path, by the entry that the hot path has seen: without one the address is asked for and a
-- new entry made, if there is memory.
abbrev pub solicit :
    Option ArpEntry → Arp → ℕ → ℕ → Option ℕ → Bool → ℕ → ℕ → Arp × List ArpEffect × Answer
solicit (some e) a idx daddr m memory eth now = lookup_cold a idx daddr m none
solicit none a idx daddr m memory eth now =
    let (a', fx, r) = lookup_cold a idx daddr m (some (create_entry daddr eth now)) in
    if not memory then (a, requests daddr ∷ [], no_memory) else (a', requests daddr ∷ fx, r)

abbrev pub lookup_by :
    Option Answer → Arp → Arp × List ArpEffect × Answer → Arp × List ArpEffect × Answer
lookup_by (some r) a cold = (a, [], r)
lookup_by none a cold = cold

-- `arp_lookup`, of the table before and of that once the lock is held
unfoldable pub arp_lookup :
    Arp → Arp → ℕ → ℕ → Option ℕ → Bool → ℕ → ℕ → Arp × List ArpEffect × Answer
unfolding lookup_hot lookup_cold
arp_lookup a a' idx daddr m memory eth now =
    lookup_by (lookup_hot a idx daddr) a'
      (solicit (lookup_entry (a.tbl idx) daddr) a' idx daddr m memory eth now)
