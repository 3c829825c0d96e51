-- ===== src/Arp/Lookup.antt =====
-- A packet whose address is not known waits for it (`arp_lookup` of runtime/net/arp.c).
use caladan.Common.{
  ℕ, ◌<◌, ◌≡◌, ◌⊎◌, refl, ap, ◌∙◌, subst, inl, inr, true, false, List, [], ◌∷◌, ◌++◌, Option, none,
  some, Bool-cases,
}
use caladan.Common.{update_self}
use caladan.Arp.{
  arp_table_capacity, ArpEntry, Arp, ArpEffect, wakes, lookup_entry, put_entry, is_probing,
  with_bucket, Answer, answers, in_progress, frees, wait_found, wait_new, wait_by, lookup_cold,
}
use caladan.Arp.Buckets.{lookup-put, lookup-Fits}
use caladan.Arp.Valid.{IsValid, put-IsValid, Inserted, insert_entry-Inserted}
use caladan.Arp.Update.{lookup-first}

-- An entry as `arp_lookup` makes it, with nothing in its queue
abbrev pub IsNew : ℕ → Option ArpEntry → Type 0
IsNew daddr none = Unit {0}
IsNew daddr (some e) = (e.ip ≡ daddr) × (is_probing e.state ≡ true) × (e.q ≡ [])

-- Where the packet is after the lookup, by the entry that the table had and the new one: an address
-- that is resolved is given back; another gets the packet behind those that wait, in the old entry
-- or in the new one; and without an entry the packet is freed.
abbrev pub Waits :
    Arp → ℕ → ℕ → ℕ → Option ArpEntry → Option ArpEntry → Arp × List ArpEffect × Answer → Type 0
Waits a idx daddr m (some e) newe (a', fx, r) =
    ((is_probing e.state ≡ false) × (a' ≡ a) × (fx ≡ []) × (r ≡ answers e.eth none))
    ⊎ ((is_probing e.state ≡ true)
        × (lookup_entry (a'.tbl idx) daddr ≡ some (record e { q = e.q ++ m ∷ [] }))
        × (fx ≡ [])
        × (r ≡ in_progress))
Waits a idx daddr m none (some e) (a', fx, r) =
    (lookup_entry (a'.tbl idx) daddr ≡ some (record e { q = m ∷ [] }))
    × ((fx ≡ []) ⊎ (fx ≡ wakes ∷ []))
    × (r ≡ in_progress)
Waits a idx daddr m none none (a', fx, r) = (a' ≡ a) × (fx ≡ frees m ∷ []) × (r ≡ in_progress)

-- A packet is queued behind the others of an entry that is probed.
queued : ArpEntry → ℕ → ArpEntry
queued e m = record e { q = e.q ++ m ∷ [] }

module _ (hash : ℕ → ℕ) (a : Arp) (daddr m : ℕ) (v : IsValid hash a)
    (h : hash daddr < arp_table_capacity) where
  put_queued :
      (a' : Arp) (e : ArpEntry)
      → IsValid hash a'
      → lookup_entry (a'.tbl (hash daddr)) daddr ≡ some e
      → is_probing e.state ≡ true
      → let a'' = with_bucket a' (hash daddr) (put_entry (a'.tbl (hash daddr)) (queued e m)) in
        IsValid hash a'' × (lookup_entry (a''.tbl (hash daddr)) daddr ≡ some (queued e m))
  unfolding queued
  put_queued a' e v' l s =
      let (f, same) =
        lookup-Fits hash (hash daddr) (a'.tbl (hash daddr)) e daddr (v'.buckets (hash daddr)) l in
      let l' = ap (λ (p : ℕ). lookup_entry (a'.tbl (hash daddr)) p) same ∙ l in
      (
        put-IsValid hash a' (hash daddr) e (queued e m) v' h l' refl
            (record { place = f.place; waits = inr s }),
        ap (λ (es : List ArpEntry). lookup_entry es daddr) (update_self a'.tbl (hash daddr) _)
            ∙ subst
                (λ (p : ℕ).
                  lookup_entry (put_entry (a'.tbl (hash daddr)) (queued e m)) p ≡ some (queued e m))
                same (lookup-put (a'.tbl (hash daddr)) e (queued e m) l'),
      )

  wait_found-Waits :
      (e : ArpEntry) (newe : Option ArpEntry)
      → lookup_entry (a.tbl (hash daddr)) daddr ≡ some e
      → let r = wait_found a (hash daddr) e (some m) in
        IsValid hash r.0 × Waits a (hash daddr) daddr m (some e) newe r
  unfolding queued
  wait_found-Waits e newe l = elim (Bool-cases (is_probing e.state)) [
    | inr s ↦ rw s (v, inl (refl, refl, refl, refl))
    | inl s ↦ (let (v', l') = put_queued a e v l s in rw s (v', inr (refl, l', refl, refl)))
  ]

  wait_new-Waits :
      (e : ArpEntry) (r : Arp × List ArpEffect)
      → IsNew daddr (some e)
      → Inserted hash a (hash daddr) e r
      → let r' = wait_new r (hash daddr) e (some m) in
        IsValid hash r'.0 × Waits a (hash daddr) daddr m none (some e) r'
  unfolding queued
  wait_new-Waits e (a', fx) n w =
      let here =
        ap (λ (t : ℕ → List ArpEntry). t (hash daddr)) w.bucket
        ∙ update_self a.tbl (hash daddr) _ in
      let l =
        ap (λ (es : List ArpEntry). lookup_entry es daddr) here
        ∙ subst (λ (p : ℕ). lookup_entry (e ∷ a.tbl (hash daddr)) p ≡ some e) n.0
            (lookup-first (a.tbl (hash daddr)) e) in
      let (v', l') = put_queued a' e w.valid l n.1 in
      (v', (l' ∙ ap (λ (q : List ℕ). some (record e { q = q ++ m ∷ [] })) n.2, w.effects, refl))

  wait_by-Waits :
      (newe o : Option ArpEntry)
      → IsNew daddr newe
      → lookup_entry (a.tbl (hash daddr)) daddr ≡ o
      → let r = wait_by a (hash daddr) (some m) newe o in
        IsValid hash r.0 × Waits a (hash daddr) daddr m o newe r
  wait_by-Waits newe (some e) n l = wait_found-Waits e newe l
  wait_by-Waits none none n l = (v, (refl, refl, refl))
  wait_by-Waits (some e) none n l = wait_new-Waits e _ n (
      insert_entry-Inserted hash a (hash daddr) e v h
        (ap (λ (p : ℕ). lookup_entry (a.tbl (hash daddr)) p) n.0 ∙ l)
        (record { place = ap hash n.0; waits = inl n.2 }))

-- `arp_lookup` of a packet leaves a valid table valid, once it has the lock: if the address is resolved
-- by now, it is given back; else the packet waits behind those that wait for it already, or alone in
-- the new entry, or is freed if there is no entry any more.
pub lookup_cold_lem :
    (hash : ℕ → ℕ) (a : Arp) (daddr m : ℕ) (newe : Option ArpEntry)
    → IsValid hash a
    → hash daddr < arp_table_capacity
    → IsNew daddr newe
    → let r = lookup_cold a (hash daddr) daddr (some m) newe in
      IsValid hash r.0
      × Waits a (hash daddr) daddr m (lookup_entry (a.tbl (hash daddr)) daddr) newe r
unfolding lookup_cold
lookup_cold_lem hash a daddr m newe v h n =
    wait_by-Waits hash a daddr m v h newe (lookup_entry (a.tbl (hash daddr)) daddr) n refl
