-- ===== src/MbufQ/Refine.antt =====
-- The linked queue is a list of mbufs (inc/net/mbufq.h).
use caladan.Common.{
  ℕ, suc, ◌≡◌, ◌≢◌, refl, sym, ◌∙◌, ap, subst, true, false, List, [], ◌∷◌, ◌++◌, ◌==◌, update,
  update_self, update_ne, some, arith, length, Absent, Distinct, Apart, Distinct-append,
}
use mathlib.Core.List.{append-nil}
use caladan.MbufQ.{Store, null, MbufQ, push_tail, pop_head, merge_to_tail, release}

-- The mbufs from one address on, as `next` links them, up to NULL.
abbrev pub Chain : Store → ℕ → List ℕ → Type 0
Chain next p [] = p ≡ null
Chain next p (x ∷ xs) = (p ≡ x) × (x ≢ null) × Chain next (next x) xs

abbrev pub IsLast : ℕ → List ℕ → Type 0
IsLast t [] = Unit {0}
IsLast t (x ∷ []) = t ≡ x
IsLast t (x ∷ y ∷ ys) = IsLast t (y ∷ ys)

-- The queue holds these mbufs; the tail of an empty queue is anything.
pub record Holds (next : Store) (q : MbufQ) (xs : List ℕ) : Type 0 where
  pub chained : Chain next q.head xs
  pub last : IsLast q.tail xs
  pub distinct : Distinct xs

-- A write to an mbuf that is not of the chain leaves the chain.
Chain-update :
    (next : Store) (p a v : ℕ) (xs : List ℕ)
    → Absent a xs
    → Chain next p xs
    → Chain (update next a v) p xs
Chain-update next p a v [] h c = c
Chain-update next p a v (x ∷ xs) h c =
    let e : update next a v x ≡ next x = update_ne next v (λ e. h.0 (sym e)) in
    (c.0, c.1, rw e (Chain-update next (next x) a v xs h.1 c.2))

Holds-update :
    (next : Store) (q : MbufQ) (a v : ℕ) (xs : List ℕ)
    → Absent a xs
    → Holds next q xs
    → Holds (update next a v) q xs
Holds-update next q a v xs h w = record {
  chained = Chain-update next q.head a v xs h w.chained;
  last = w.last;
  distinct = w.distinct;
}

IsLast-append : (t y : ℕ) (xs ys : List ℕ) → IsLast t (y ∷ ys) → IsLast t (xs ++ y ∷ ys)
IsLast-append t y [] ys h = h
IsLast-append t y (x ∷ []) ys h = h
IsLast-append t y (x ∷ x' ∷ xs) ys h = IsLast-append t y (x' ∷ xs) ys h

Absent-last : (a t : ℕ) (x : ℕ) (xs : List ℕ) → Absent a (x ∷ xs) → IsLast t (x ∷ xs) → a ≢ t
Absent-last a t x [] h l = λ e. h.0 (sym l ∙ sym e)
Absent-last a t x (y ∷ xs) h l = Absent-last a t y xs h.1 l

Apart-last : (t : ℕ) (x : ℕ) (xs ys : List ℕ) → Apart (x ∷ xs) ys → IsLast t (x ∷ xs) → Absent t ys
Apart-last t x [] ys h l = subst (λ a. Absent a ys) (sym l) h.0
Apart-last t x (y ∷ xs) ys h l = Apart-last t y xs ys h.1 l

-- A link from the last mbuf to another chain that it is not of makes one chain of both.
Chain-append :
    (next : Store) (p t s : ℕ) (x : ℕ) (xs ys : List ℕ)
    → Distinct (x ∷ xs)
    → Absent t ys
    → IsLast t (x ∷ xs)
    → Chain next p (x ∷ xs)
    → Chain next s ys
    → Chain (update next t s) p (x ∷ xs ++ ys)
Chain-append next p t s x [] ys d a l c k = rw at_end (c.0, c.1, Chain-update next s t s ys a k)
  where
    at_end : update next t s x ≡ s
    at_end = ground arith
Chain-append next p t s x (y ∷ zs) ys d a l c k =
    let e : update next t s x ≡ next x =
      update_ne next s (λ e. Absent-last x t y zs d.0 l (sym e)) in
    (c.0, c.1, rw e (Chain-append next (next x) t s y zs ys d.1 a l c.2 k))

-- A chain of mbufs linked to the tail of a queue that is not empty.
link :
    (next : Store) (q : MbufQ) (s t : ℕ) (x : ℕ) (xs : List ℕ) (y : ℕ) (ys : List ℕ)
    → Holds next q (x ∷ xs)
    → Holds next (record { head = s; tail = t }) (y ∷ ys)
    → Apart (x ∷ xs) (y ∷ ys)
    → Holds (update next q.tail s) (record q { tail = t }) (x ∷ xs ++ y ∷ ys)
link next q s t x xs y ys w v a = record {
  chained =
      Chain-append next q.head q.tail s x xs (y ∷ ys) w.distinct
        (Apart-last q.tail x xs (y ∷ ys) a w.last) w.last w.chained v.chained;
  last = IsLast-append t y (x ∷ xs) ys v.last;
  distinct = Distinct-append (x ∷ xs) (y ∷ ys) w.distinct v.distinct a;
}

Apart-singleton : (m : ℕ) (xs : List ℕ) → Absent m xs → Apart xs (m ∷ [])
Apart-singleton m [] h = tt
Apart-singleton m (x ∷ xs) h = (((λ e. h.0 (sym e)), tt), Apart-singleton m xs h.1)

singleton :
    (next : Store) (m : ℕ)
    → m ≢ null
    → Holds (update next m null) (record { head = m; tail = m }) (m ∷ [])
singleton next m h = record {
  chained = (refl, h, update_self next m null);
  last = refl;
  distinct = (tt, tt);
}

-- `mbufq_push_tail` of an mbuf that the queue does not hold appends it.
pub push_tail_refines :
    (next : Store) (q : MbufQ) (m : ℕ) (xs : List ℕ)
    → Holds next q xs
    → m ≢ null
    → Absent m xs
    → (let (next', q') = push_tail next q m in Holds next' q' (xs ++ m ∷ []))
unfolding push_tail
push_tail_refines next q m [] w h a = rw w.chained (singleton next m h)
push_tail_refines next q m (x ∷ xs) w h a =
    let not_empty : (q.head == null) ≡ false = ground (arith, w.chained) in
    rw not_empty (
      link (update next m null) q m m x xs m [] (Holds-update next q m null (x ∷ xs) a w)
        (singleton next m h) (Apart-singleton m (x ∷ xs) a))

-- What a pop of the list yields: NULL exactly if it is empty, else the first mbuf, which leaves the
-- rest.
abbrev pub Popped : Store → MbufQ → List ℕ → MbufQ × ℕ → Type 0
Popped next q [] r = r ≡ (q, null)
Popped next q (x ∷ xs) r = (r.1 ≡ x) × (x ≢ null) × Holds next r.0 xs

Holds-rest :
    (next : Store) (q : MbufQ) (x : ℕ) (xs : List ℕ)
    → Holds next q (x ∷ xs)
    → Holds next (record q { head = next x }) xs
Holds-rest next q x [] w = record { chained = w.chained.2; last = tt; distinct = tt }
Holds-rest next q x (y ∷ ys) w = record {
  chained = w.chained.2;
  last = w.last;
  distinct = w.distinct.1;
}

pop_head_first :
    (next : Store) (q : MbufQ) (x : ℕ) (xs : List ℕ)
    → Holds next q (x ∷ xs)
    → pop_head next q ≡ (record q { head = next x }, x)
unfolding pop_head
pop_head_first next q x xs w =
    let not_null : (x == null) ≡ false = ground (arith, w.chained) in
    rw (w.chained.0, not_null) refl

pop_head_empty : (next : Store) (q : MbufQ) → Holds next q [] → pop_head next q ≡ (q, null)
unfolding pop_head
pop_head_empty next q w =
    let is_null : (q.head == null) ≡ true = ground (arith, w.chained) in rw is_null refl

-- `mbufq_pop_head` takes the first mbuf of the list and leaves the rest; it yields NULL and leaves
-- the queue exactly if the list is empty.
pub pop_head_refines :
    (next : Store) (q : MbufQ) (xs : List ℕ) → Holds next q xs → Popped next q xs (pop_head next q)
pop_head_refines next q [] w = pop_head_empty next q w
pop_head_refines next q (x ∷ xs) w =
    rw (pop_head_first next q x xs w) (refl, w.chained.1, Holds-rest next q x xs w)

-- `mbufq_merge_to_tail` of two queues that share no mbuf leaves all mbufs in the destination, those
-- of the source last, and the source empty.
pub merge_to_tail_refines :
    (next : Store) (dst src : MbufQ) (xs ys : List ℕ)
    → Holds next dst xs
    → Holds next src ys
    → Apart xs ys
    → let (next', dst', src') = merge_to_tail next dst src in
      Holds next' dst' (xs ++ ys) × Holds next' src' []
unfolding merge_to_tail
merge_to_tail_refines next dst src xs [] w v a =
    let is_null : (src.head == null) ≡ true = ground (arith, v.chained) in
    rw is_null (rw (append-nil xs) w, record { chained = v.chained; last = tt; distinct = tt })
merge_to_tail_refines next dst src [] (y ∷ ys) w v a =
    let not_null : (src.head == null) ≡ false = ground (arith, v.chained) in
    rw (not_null, w.chained) (v, record { chained = refl; last = tt; distinct = tt })
merge_to_tail_refines next dst src (x ∷ xs) (y ∷ ys) w v a =
    let src_not_null : (src.head == null) ≡ false = ground (arith, v.chained) in
    let dst_not_null : (dst.head == null) ≡ false = ground (arith, w.chained) in
    rw (src_not_null, dst_not_null)
      (
        link next dst src.head src.tail x xs y ys w v a,
        record { chained = refl; last = tt; distinct = tt },
      )

-- A chain is the same in a store that agrees on its mbufs.
abbrev Agree : Store → Store → List ℕ → Type 0
Agree next next' [] = Unit {0}
Agree next next' (x ∷ xs) = (next' x ≡ next x) × Agree next next' xs

Chain-Agree :
    (next next' : Store) (p : ℕ) (xs : List ℕ)
    → Agree next next' xs
    → Chain next p xs
    → Chain next' p xs
Chain-Agree next next' p [] a c = c
Chain-Agree next next' p (x ∷ xs) a c =
    (c.0, c.1, rw a.0 (Chain-Agree next next' (next x) xs a.1 c.2))

Holds-Agree :
    (next next' : Store) (q : MbufQ) (xs : List ℕ)
    → Agree next next' xs
    → Holds next q xs
    → Holds next' q xs
Holds-Agree next next' q xs a w = record {
  chained = Chain-Agree next next' q.head xs a w.chained;
  last = w.last;
  distinct = w.distinct;
}

module _ (mbuf_free : Store → ℕ → Store)
    -- Freeing an mbuf writes to no other.
    (frees_one : (next : Store) (m p : ℕ) → p ≢ m → mbuf_free next m p ≡ next p) where
  Agree-free : (next : Store) (m : ℕ) (xs : List ℕ) → Absent m xs → Agree next (mbuf_free next m) xs
  Agree-free next m [] h = tt
  Agree-free next m (x ∷ xs) h = (frees_one next m x h.0, Agree-free next m xs h.1)

  release_step :
      (n : ℕ) (next : Store) (q : MbufQ) (x : ℕ) (xs : List ℕ) (r : Store × MbufQ × List ℕ)
      → Holds next q (x ∷ xs)
      → release mbuf_free n (mbuf_free next x) (record q { head = next x }) ≡ some r
      → release mbuf_free (suc n) next q ≡ some (r.0, r.1, x ∷ r.2)
  unfolding release
  release_step n next q x xs r w e =
      let not_null : (x == null) ≡ false = ground (arith, w.chained.1) in
      rw (pop_head_first next q x xs w, not_null, e)
        (ap (λ (h : MbufQ × ℕ). some (r.0, r.1, h.1 ∷ r.2)) (pop_head_first next q x xs w))

  -- If freeing an mbuf writes to no other, `mbufq_release` ends, in one turn more than the queue is
  -- long: it frees each mbuf of the queue once, in order, and leaves the queue empty.
  pub release_refines :
      (next : Store) (q : MbufQ) (xs : List ℕ)
      → Holds next q xs
      → (next' : Store) × (q' : MbufQ) × (release mbuf_free (suc (length xs)) next q
          ≡ some (next', q', xs))
        × Holds next' q' []
  release_refines next q [] w = (next, q, unfold release in rw (pop_head_empty next q w) refl, w)
  release_refines next q (x ∷ xs) w =
      let rest = Holds-rest next q x xs w in
      let (next', q', e, v) =
        release_refines (mbuf_free next x) (record q { head = next x }) xs
          (Holds-Agree next (mbuf_free next x) (record q { head = next x }) xs
            (Agree-free next x xs w.distinct.0) rest) in
      (next', q', release_step (suc (length xs)) next q x xs (next', q', xs) w e, v)
