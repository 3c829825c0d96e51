-- ===== src/Arp/Age.antt =====
-- Entries of the ARP table grow old (`arp_age_entry` and `arp_worker` of runtime/net/arp.c).
use caladan.Common.{
  ℕ, suc, ◌+◌, ◌-◌, ◌%◌, ◌^◌, ◌==◌, ltb, if◌then◌else◌, List, [], ◌∷◌, ◌++◌, Option, none, some,
  update,
}
use caladan.Arp.{
  ArpState, probing, resolved, reprobing, fixed, ArpEntry, Arp, ArpEffect, requests, fails, frees,
  arp_retries, arp_retry_time, arp_reprobe_time,
}

-- The difference of two times, as an unsigned number of 64 bits
abbrev pub elapsed : ℕ → ℕ → ℕ
elapsed a b = (a + 2 ^ 64 - b) % 2 ^ 64

abbrev pub age_timeout : ArpState → ℕ
age_timeout probing = arp_retry_time
age_timeout resolved = arp_reprobe_time
age_timeout reprobing = arp_retry_time
age_timeout fixed = arp_retry_time

-- The packets that waited for a deleted entry
abbrev pub fail_all : List ℕ → List ArpEffect
fail_all [] = []
fail_all (m ∷ ms) = fails m ∷ frees m ∷ fail_all ms

-- An entry afterwards, `none` if it is deleted, and what is done
abbrev pub retry : ArpEntry → ℕ → Option ArpEntry × List ArpEffect
retry e now' =
    if e.tries_left == 0
    then (none, fail_all e.q)
    else (some (record e { tries_left = e.tries_left - 1; ts = now' }), requests e.ip ∷ [])

abbrev pub expire : ArpState → ArpEntry → ℕ → Option ArpEntry × List ArpEffect
expire probing e now' = retry e now'
expire reprobing e now' = retry e now'
expire resolved e now' =
    (some (record e { state = reprobing; tries_left = arp_retries; ts = now' }), requests e.ip ∷ [])
expire fixed e now' = (some e, [])

-- `arp_age_entry`, at the time `now` of the worker and `now'` of a request
unfoldable pub arp_age_entry : ℕ → ℕ → ArpEntry → Option ArpEntry × List ArpEffect
arp_age_entry now now' e =
    if ltb (elapsed now e.ts) (age_timeout e.state) then (some e, []) else expire e.state e now'

-- A bucket, how many of its entries are deleted, and what is done
pub record Aged : Type 0 where
  pub entries : List ArpEntry
  pub deleted : ℕ
  pub effects : List ArpEffect

abbrev pub age_onto : Option ArpEntry × List ArpEffect → Aged → Aged
age_onto (none, fx) r = record r { deleted = suc r.deleted; effects = fx ++ r.effects }
age_onto (some e, fx) r = record r { entries = e ∷ r.entries; effects = fx ++ r.effects }

-- The loop of `arp_worker` over a bucket; `clock` is the time of the request for an address.
unfoldable pub age_bucket : ℕ → (ℕ → ℕ) → List ArpEntry → Aged
unfolding arp_age_entry
age_bucket now clock [] = record { entries = []; deleted = 0; effects = [] }
age_bucket now clock (e ∷ es) =
    age_onto (arp_age_entry now (clock e.ip) e) (age_bucket now clock es)

-- A turn of the loop over the buckets
unfoldable pub age_table : Arp → ℕ → (ℕ → ℕ) → ℕ → Arp × List ArpEffect
unfolding age_bucket
age_table a now clock i =
    let r = age_bucket now clock (a.tbl i) in
    (
      record a {
        tbl = update a.tbl i r.entries;
        nr_dynamic_entries = a.nr_dynamic_entries - r.deleted;
      },
      r.effects,
    )
