-- ===== src/Tcp/Text/Queue.antt =====
-- Where an out-of-order segment goes in its queue (`tcp_rx_text` of runtime/net/tcp_in.c).
use caladan.Common.{
  ℕ, suc, ◌≤◌, ◌<◌, ◌≡◌, refl, sym, ap, ◌∙◌, ◌⊎◌, inl, inr, true, false, ltb, leb, if◌then◌else◌,
  List, [], ◌∷◌, Option, none, some, length, arith, Bool-cases,
}
use caladan.Tcp.{add32, wraps_gt, wraps_gte, Seg, Ingress}
use caladan.Tcp.Seq.{Near, wraps_gt-Near}
use caladan.Tcp.Text.{Place, covered, ahead, placed, find_place, insert_ooo, ooo_max_size}
use caladan.Tcp.Text.Drain.{EndsBefore, Sorted, Pending, AllPending, IsValid}

-- A segment is put between those of a queue, or at an end of it.
pub data Inserted (m : Seg) : List Seg → List Seg → Type 0 where
  at_front : {ps : List Seg} → Inserted m ps (m ∷ ps)
  behind : {x : Seg} {ps q : List Seg} → Inserted m ps q → Inserted m (x ∷ ps) (x ∷ q)

-- A segment of the queue starts no later than `m` and ends no earlier.
abbrev pub Spans : Seg → List Seg → Type 0
Spans m [] = ⊥
Spans m (x ∷ xs) =
    ((wraps_gt m.seg_end x.seg_end ≡ false) × (wraps_gte m.seg_seq x.seg_seq ≡ true)) ⊎ Spans m xs

-- The queue is full, or a segment of it has all of `m`.
abbrev pub Refuses : Ingress → Seg → Type 0
Refuses r m = (ooo_max_size ≤ length r.rxq_ooo) ⊎ Spans m r.rxq_ooo

module _ (stream : ℕ → ℕ) (fin_at : ℕ) where
  -- What a place found in the queue is worth
  abbrev PlaceFits : ℕ → Seg → List Seg → Place → Type 0
  PlaceFits edge m ps covered = Spans m ps
  PlaceFits edge m ps ahead = EndsBefore m ps
  PlaceFits edge m ps (placed q) =
      AllPending stream fin_at edge q
      × (length q ≡ suc (length ps))
      × Sorted q
      × Inserted m ps q
      × ((x : Seg) → EndsBefore x ps → EndsBefore x q)

  ends_after :
      (edge : ℕ) (x y : Seg)
      → Pending stream fin_at edge x
      → Pending stream fin_at edge y
      → wraps_gt x.seg_end y.seg_end ≡ true
      → wraps_gt y.seg_end x.seg_end ≡ false
  ends_after edge x y p q h =
      let near : Near p.last q.last =
        omega (
          arith, p.not_old, p.not_new, p.carries.forward, q.not_old, q.not_new, q.carries.forward,
        ) in
      let t₁ : wraps_gt x.seg_end y.seg_end ≡ ltb q.last p.last =
        rw (p.carries.ends, q.carries.ends) (wraps_gt-Near p.last q.last near) in
      let t₂ : wraps_gt y.seg_end x.seg_end ≡ ltb p.last q.last =
        rw (p.carries.ends, q.carries.ends) (wraps_gt-Near q.last p.last (near.1, near.0)) in
      let k : ltb q.last p.last ≡ true = sym t₁ ∙ h in t₂ ∙ ground (arith, k)

  find_place-Fits :
      (edge : ℕ) (ps : List Seg) (m : Seg)
      → AllPending stream fin_at edge ps
      → Sorted ps
      → Pending stream fin_at edge m
      → PlaceFits edge m ps (find_place ps m)
  unfolding find_place
  find_place-Fits edge [] m h s p = tt
  find_place-Fits edge (pos ∷ ps) m h s p =
      go (find_place ps m) (find_place-Fits edge ps m h.1 s.1 p)
    where
      go :
          (r : Place)
          → PlaceFits edge m ps r
          → PlaceFits edge m (pos ∷ ps) (elim r [
            | covered ↦ covered
            | placed q ↦ placed (pos ∷ q)
            | ahead ↦
                if wraps_gt m.seg_end pos.seg_end
                then placed (pos ∷ m ∷ ps)
                else if wraps_gte m.seg_seq pos.seg_seq
                then covered
                else ahead
          ])
      go covered f = inr f
      go (placed q) f = ((h.0, f.0), ap suc f.1, (f.4 pos s.0, f.2), behind f.3, λ x k. k)
      go ahead f = elim (Bool-cases (wraps_gt m.seg_end pos.seg_end)) [
        | inl later ↦ rw later (
          (h.0, (p, h.1)),
          refl,
          (ends_after edge m pos p h.0 later, (f, s.1)),
          behind at_front,
          λ x k. k,
        )
        | inr not_later ↦ rw not_later (elim (Bool-cases (wraps_gte m.seg_seq pos.seg_seq)) [
          | inl within ↦ rw within (inl (not_later, within))
          | inr before ↦ rw before not_later
        ])
      ]

  -- A segment is put into the out-of-order queue.
  pub record Grows (r : Ingress) (m : Seg) (n edge : ℕ) (r' : Ingress) : Type 0 where
    pub valid : IsValid stream fin_at r' n edge
    pub same : r'.rxq ≡ r.rxq
    pub inserted : Inserted m r.rxq_ooo r'.rxq_ooo

  pub insert_ooo_lem :
      (r : Ingress) (m : Seg) (n edge : ℕ)
      → IsValid stream fin_at r n edge
      → Pending stream fin_at edge m
      → ((insert_ooo r m ≡ none) × Refuses r m)
        ⊎ ((r' : Ingress) × (insert_ooo r m ≡ some r') × Grows r m n edge r')
  unfolding insert_ooo
  insert_ooo_lem r m n edge v p = elim (Bool-cases (leb ooo_max_size r.rxq_ooo_len)) [
    | inl full ↦
        (let l = v.counted in
          let k : ooo_max_size ≤ length r.rxq_ooo = ground (arith, full, l) in
          inl (rw full refl, inl k))
    | inr space ↦ rw space (
        go (find_place r.rxq_ooo m) (find_place-Fits edge r.rxq_ooo m v.queue v.sorted p)
          (ground (arith, space, v.counted)))
  ]
    where
      grown :
          (q : List Seg)
          → AllPending stream fin_at edge q
          → length q ≡ suc (length r.rxq_ooo)
          → Sorted q
          → Inserted m r.rxq_ooo q
          → length r.rxq_ooo < ooo_max_size
          → Grows r m n edge (record r { rxq_ooo = q; rxq_ooo_len = add32 r.rxq_ooo_len 1 })
      grown q h k s i l = record {
        valid = record {
          window = v.window;
          small = v.small;
          position = record { next = v.position.next; window = v.position.window };
          queue = h;
          sorted = s;
          counted = omega (arith, v.counted, k, l);
          few = omega (arith, k, l);
        };
        same = refl;
        inserted = i;
      }

      go :
          (c : Place)
          → PlaceFits edge m r.rxq_ooo c
          → length r.rxq_ooo < ooo_max_size
          → let o : Option Ingress = elim c [
            | covered ↦ none
            | placed q ↦ some (record r { rxq_ooo = q; rxq_ooo_len = add32 r.rxq_ooo_len 1 })
            | ahead ↦
                some (record r { rxq_ooo = m ∷ r.rxq_ooo; rxq_ooo_len = add32 r.rxq_ooo_len 1 })
          ] in
            ((o ≡ none) × Refuses r m) ⊎ ((r' : Ingress) × (o ≡ some r') × Grows r m n edge r')
      go covered f l = inl (refl, inr f)
      go (placed q) f l = inr (
        record r { rxq_ooo = q; rxq_ooo_len = add32 r.rxq_ooo_len 1 },
        refl,
        grown q f.0 f.1 f.2 f.3 l,
      )
      go ahead f l = inr (
        record r { rxq_ooo = m ∷ r.rxq_ooo; rxq_ooo_len = add32 r.rxq_ooo_len 1 },
        refl,
        grown (m ∷ r.rxq_ooo) (p, v.queue) refl (f, v.sorted) at_front l,
      )
