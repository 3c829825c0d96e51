-- ===== src/Arp/Update.antt =====
-- An answer resolves the entry of its sender and sends what waits for it (`arp_update` of
-- runtime/net/arp.c).
use caladan.Common.{
  ℕ, ◌<◌, ◌≡◌, ◌⊎◌, refl, ap, ◌∙◌, subst, inl, inr, Bool, true, false, ◌==◌, List, [], ◌∷◌, ◌++◌,
  Option, none, some, map, arith, Bool-cases,
}
use caladan.Common.{update_self}
use caladan.Arp.{
  arp_table_capacity, ArpEntry, Arp, ArpEffect, sends, wakes, resolved, lookup_entry, put_entry,
  is_fixed, create_entry, send_all, resolve, resolve_found, resolve_new, update_by, arp_update,
}
use caladan.Arp.Buckets.{Fits, lookup-put, lookup-Fits}
use caladan.Arp.Valid.{IsValid, put-IsValid, Inserted, insert_entry-Inserted}

-- The entry of an address whose host is told before it is asked for
abbrev new_resolved : ℕ → ℕ → Bool → ℕ → ArpEntry
new_resolved daddr dhost local now = record {
  state = resolved;
  ip = daddr;
  eth = dhost;
  local = local;
  q = [];
  ts = now;
  tries_left = 3;
}

-- Every packet of a queue is sent, in order, and nothing else is done.
send_all-map :
    (q : List ℕ) (dhost : ℕ) (local : Bool)
    → send_all q dhost local ≡ map (λ m. sends m dhost local) q
send_all-map [] dhost local = refl
send_all-map (m ∷ ms) dhost local =
    ap (λ (fx : List ArpEffect). sends m dhost local ∷ fx) (send_all-map ms dhost local)

-- What an answer for an address does, by the entry that the table has of it
abbrev pub Updates :
    Arp → ℕ → ℕ → ℕ → Bool → Bool → ℕ → ℕ → Option ArpEntry → Arp × List ArpEffect → Type 0
Updates a idx daddr dhost local memory eth now none (a', fx) =
    ((memory ≡ false) × (a' ≡ a) × (fx ≡ []))
    ⊎ ((memory ≡ true)
        × (lookup_entry (a'.tbl idx) daddr ≡ some (new_resolved daddr dhost local now))
        × ((fx ≡ []) ⊎ (fx ≡ wakes ∷ [])))
Updates a idx daddr dhost local memory eth now (some e) (a', fx) =
    ((is_fixed e.state ≡ true) × (a' ≡ a) × (fx ≡ []))
    ⊎ ((is_fixed e.state ≡ false)
        × (lookup_entry (a'.tbl idx) daddr
            ≡ some (record e { state = resolved; eth = dhost; local = local; ts = now; q = [] }))
        × (fx ≡ map (λ m. sends m dhost local) e.q))

-- A bucket with a new entry for an address has it.
pub lookup-first : (es : List ArpEntry) (e : ArpEntry) → lookup_entry (e ∷ es) e.ip ≡ some e
unfolding lookup_entry
lookup-first es e = let k : e.ip == e.ip ≡ true = ground arith in rw k refl

resolve-Fits :
    (hash : ℕ → ℕ) (i : ℕ) (e : ArpEntry) (dhost : ℕ) (local : Bool) (now : ℕ)
    → hash e.ip ≡ i
    → Fits hash i (resolve e dhost local now)
resolve-Fits hash i e dhost local now h = record { place = h; waits = inl refl }

module _ (hash : ℕ → ℕ) (a : Arp) (daddr dhost : ℕ) (local memory : Bool) (eth now : ℕ)
    (v : IsValid hash a) (h : hash daddr < arp_table_capacity) where
  update_found :
      (e : ArpEntry)
      → lookup_entry (a.tbl (hash daddr)) daddr ≡ some e
      → let r = resolve_found a (hash daddr) e dhost local now in
        IsValid hash r.0 × Updates a (hash daddr) daddr dhost local memory eth now (some e) r
  update_found e l = elim (Bool-cases (is_fixed e.state)) [
    | inl s ↦ rw s (v, inl (refl, refl, refl))
    | inr s ↦
        (let (f, same) =
            lookup-Fits hash (hash daddr) (a.tbl (hash daddr)) e daddr (v.buckets (hash daddr)) l in
          let l' = ap (λ (p : ℕ). lookup_entry (a.tbl (hash daddr)) p) same ∙ l in
          let e' = resolve e dhost local now in
          rw s (
            put-IsValid hash a (hash daddr) e e' v h l' s
                (resolve-Fits hash (hash daddr) e dhost local now f.place),
            inr (
              refl,
              ap (λ (es : List ArpEntry). lookup_entry es daddr) (update_self a.tbl (hash daddr) _)
                  ∙ subst (λ (p : ℕ). lookup_entry (put_entry (a.tbl (hash daddr)) e') p ≡ some e')
                      same (lookup-put (a.tbl (hash daddr)) e e' l'),
              send_all-map e.q dhost local,
            ),
          ))
  ]

  update_new :
      (r : Arp × List ArpEffect)
      → Inserted hash a (hash daddr) (create_entry daddr eth now) r
      → let r' = resolve_new r (hash daddr) (create_entry daddr eth now) dhost local now in
        IsValid hash r'.0
        × (lookup_entry (r'.0.tbl (hash daddr)) daddr
            ≡ some (resolve (create_entry daddr eth now) dhost local now))
        × ((r'.1 ≡ []) ⊎ (r'.1 ≡ wakes ∷ []))
  update_new (a', fx) w =
      let e = create_entry daddr eth now in
      let here =
        ap (λ (t : ℕ → List ArpEntry). t (hash daddr)) w.bucket
        ∙ update_self a.tbl (hash daddr) _ in
      let l =
        ap (λ (es : List ArpEntry). lookup_entry es daddr) here
        ∙ lookup-first (a.tbl (hash daddr)) e in
      (
        put-IsValid hash a' (hash daddr) e (resolve e dhost local now) w.valid h l refl
            (resolve-Fits hash (hash daddr) e dhost local now refl),
        ap (λ (es : List ArpEntry). lookup_entry es daddr) (update_self a'.tbl (hash daddr) _)
            ∙ lookup-put (a'.tbl (hash daddr)) e (resolve e dhost local now) l,
        elim w.effects [
          | inl k ↦ inl (ap (λ (x : List ArpEffect). x ++ []) k)
          | inr k ↦ inr (ap (λ (x : List ArpEffect). x ++ []) k)
        ],
      )

  update_by-Updates :
      (o : Option ArpEntry)
      → lookup_entry (a.tbl (hash daddr)) daddr ≡ o
      → let r = update_by a (hash daddr) daddr dhost local memory eth now o in
        IsValid hash r.0 × Updates a (hash daddr) daddr dhost local memory eth now o r
  update_by-Updates (some e) l = update_found e l
  update_by-Updates none l = elim (Bool-cases memory) [
    | inr m ↦ rw m (v, inl (refl, refl, refl))
    | inl m ↦
        (let w = update_new _ (
            insert_entry-Inserted hash a (hash daddr) (create_entry daddr eth now) v h l
              (record { place = refl; waits = inl refl })) in
          rw m (w.0, inr (refl, w.1, w.2)))
  ]

-- `arp_update` of a valid table leaves it valid. A static entry stays as it is; any other entry of the
-- address is resolved to the host, and the packets that wait for it, and no others, are sent there in
-- their order; without an entry a resolved one is made, if there is memory.
pub arp_update_lem :
    (hash : ℕ → ℕ) (a : Arp) (daddr dhost : ℕ) (local memory : Bool) (eth now : ℕ)
    → IsValid hash a
    → hash daddr < arp_table_capacity
    → let r = arp_update a (hash daddr) daddr dhost local memory eth now in
      IsValid hash r.0
      × Updates a
          (hash daddr)
          daddr
          dhost
          local
          memory
          eth
          now
          (lookup_entry (a.tbl (hash daddr)) daddr)
          r
unfolding arp_update
arp_update_lem hash a daddr dhost local memory eth now v h =
    update_by-Updates hash a daddr dhost local memory eth now v h
      (lookup_entry (a.tbl (hash daddr)) daddr) refl
