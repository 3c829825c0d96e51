-- ===== src/Tcp/Text/Drain.antt =====
-- The out-of-order queue and the whole of `tcp_rx_text` (runtime/net/tcp_in.c).
use caladan.Common.{
  ℕ, ◌+◌, ◌-◌, ◌%◌, ◌^◌, ◌≤◌, ◌<◌, ◌≡◌, refl, sym, ap, ◌∙◌, ◌⊎◌, inl, inr, Bool, true, false, ◌&&◌,
  ◌||◌, ltb, leb, List, [], ◌∷◌, ◌++◌, some, length, arith, Bool-cases,
}
use mathlib.Core.List.{append-nil, append_assoc}
use caladan.Tcp.{word32, sub32, wraps_lte, wraps_gt, Seg, Ingress}
use caladan.Tcp.Seq.{Near, wraps_lte-Near, wraps_gt-Near}
use caladan.Tcp.Text.{append_text, Drained, drain, ooo_max_size}
use caladan.Tcp.Text.Stream.{piece, piece-none, piece-append, Carries, At, reach, append_text_lem}

-- All the text of the segments
abbrev pub text_of : List Seg → List ℕ
text_of [] = []
text_of (m ∷ ms) = m.text ++ text_of ms

text_of-append : (xs ys : List Seg) → text_of (xs ++ ys) ≡ text_of xs ++ text_of ys
text_of-append [] ys = refl
text_of-append (x ∷ xs) ys =
    ap (λ (l : List ℕ). x.text ++ l) (text_of-append xs ys)
    ∙ sym (append_assoc x.text (text_of xs) (text_of ys))

-- The first segment of the queue, if there is one, starts behind the next octet.
abbrev pub Gap : ℕ → List Seg → Type 0
Gap rcv_nxt [] = Unit {0}
Gap rcv_nxt (m ∷ ms) = wraps_gt m.seg_seq rcv_nxt ≡ true

-- The first segment of the queue, if there is one, does not end before `m` does.
abbrev pub EndsBefore : Seg → List Seg → Type 0
EndsBefore m [] = Unit {0}
EndsBefore m (x ∷ xs) = wraps_gt m.seg_end x.seg_end ≡ false

-- The ends of the segments are in order.
abbrev pub Sorted : List Seg → Type 0
Sorted [] = Unit {0}
Sorted (m ∷ ms) = EndsBefore m ms × Sorted ms

-- Whether the FIN is among the positions from `n` up to `n'`
abbrev pub reaches_fin : ℕ → ℕ → ℕ → Bool
reaches_fin fin_at n n' = ltb n n' && ltb fin_at n'

module _ (stream : ℕ → ℕ) (fin_at : ℕ) where
  -- A segment near the end of the window, which stays while segments arrive. A FIN is within it.
  pub record Pending (edge : ℕ) (m : Seg) : Type 0 where
    pub first : ℕ
    pub last : ℕ
    pub carries : Carries stream fin_at m first last
    pub room : (last ≤ fin_at) ⊎ (last ≤ edge)
    pub not_old : edge ≤ first + 2 ^ 30
    pub not_new : last ≤ edge + 2 ^ 30

  abbrev pub AllPending : ℕ → List Seg → Type 0
  AllPending edge [] = Unit {0}
  AllPending edge (m ∷ ms) = Pending edge m × AllPending edge ms

  -- The next octet is at position `n`, and the window ends at `edge`; the out-of-order queue holds
  -- pieces of the stream and is counted.
  pub record IsValid (r : Ingress) (n edge : ℕ) : Type 0 where
    pub window : n ≤ edge
    pub small : edge < n + 2 ^ 30
    pub position : At r n (edge - n)
    pub queue : AllPending edge r.rxq_ooo
    pub sorted : Sorted r.rxq_ooo
    pub counted : r.rxq_ooo_len ≡ length r.rxq_ooo
    pub few : length r.rxq_ooo ≤ ooo_max_size

  -- From one state to another the queue of the reader gains the stream from `n` up to `n'`.
  pub record Advances (r r' : Ingress) (n n' edge : ℕ) : Type 0 where
    pub forward : n ≤ n'
    pub valid : IsValid r' n' edge
    pub queued : text_of r'.rxq ≡ text_of r.rxq ++ piece stream fin_at n n'

  -- A segment whose bytes are read, up to the end of the window
  pub record Passed (edge n' : ℕ) (m : Seg) : Type 0 where
    pub was : Pending edge m
    pub read : reach edge was.last ≤ n'

  -- Of the segments of a queue those at its front are read, and the others still wait in it.
  pub data Kept (edge n' : ℕ) : List Seg → List Seg → Type 0 where
    rest : {ps : List Seg} → Kept edge n' ps ps
    gone :
        {m : Seg} {ps q : List Seg} → Passed edge n' m → Kept edge n' ps q → Kept edge n' (m ∷ ps) q

  -- A segment at hand that starts at or before the next octet and ends behind it
  pub append-Advances :
      (r : Ingress) (ps : List Seg) (m : Seg) (n edge : ℕ)
      → IsValid (record r { rxq_ooo = ps }) n edge
      → (p : Pending edge m) → p.first ≤ n
      → n < p.last
      → (r' : Ingress) × (append_text r m ≡ some r')
        × Advances r (record r' { rxq_ooo = ps }) n (reach edge p.last) edge
        × (r'.rxq_ooo ≡ r.rxq_ooo)
  append-Advances r ps m n edge v p le ne =
      let (m', e, t, f) =
        append_text_lem stream fin_at r m n (edge - n) p.first p.last
          (record { next = v.position.next; window = v.position.window })
          (omega (arith, v.small, v.window)) p.carries le ne (ground (arith, p.room, v.window))
          (omega (arith, v.window, p.not_old)) (omega (arith, v.small, p.not_new)) in
      let at_edge : n + (edge - n) ≡ edge = omega (arith, v.window) in
      let there : n ≤ reach edge p.last = ground (arith, ne, v.window) in
      let within : reach edge p.last ≤ edge = ground arith in
      (
        record r {
          rcv_nxt = reach edge p.last % word32;
          rcv_wnd = edge - reach edge p.last;
          rxq = r.rxq ++ m' ∷ [];
        },
        rw at_edge at e,
        record {
          forward = there;
          valid = record {
            window = within;
            small = omega (arith, there, v.small);
            position = record { next = refl; window = refl };
            queue = v.queue;
            sorted = v.sorted;
            counted = v.counted;
            few = v.few;
          };
          queued =
              text_of-append r.rxq (m' ∷ [])
              ∙ ap (λ (l : List ℕ). text_of r.rxq ++ l) (append-nil m'.text ∙ (rw at_edge at t));
        },
        refl,
      )

  pub Advances-trans :
      (r r' r'' : Ingress) (n n' n'' edge : ℕ)
      → Advances r r' n n' edge
      → Advances r' r'' n' n'' edge
      → Advances r r'' n n'' edge
  Advances-trans r r' r'' n n' n'' edge a b = record {
    forward = omega (arith, a.forward, b.forward);
    valid = b.valid;
    queued =
        b.queued
        ∙ ap (λ (l : List ℕ). l ++ piece stream fin_at n' n'') a.queued
        ∙ append_assoc (text_of r.rxq) (piece stream fin_at n n') (piece stream fin_at n' n'')
        ∙ ap (λ (l : List ℕ). text_of r.rxq ++ l)
            (piece-append stream fin_at n n' n'' a.forward b.forward);
  }

  -- Nothing is queued.
  pub Advances-refl :
      (r r' : Ingress) (n edge : ℕ) → IsValid r' n edge → r'.rxq ≡ r.rxq → Advances r r' n n edge
  Advances-refl r r' n edge v same = record {
    forward = omega arith;
    valid = v;
    queued = ap text_of same ∙ rw (piece-none stream fin_at n) (sym (append-nil (text_of r.rxq)));
  }

  drain_next :
      (pos : Seg) (ps : List Seg) (d : Drained) (r' : Ingress)
      → wraps_lte pos.seg_end d.ingress.rcv_nxt ≡ false
      → wraps_gt pos.seg_seq d.ingress.rcv_nxt ≡ false
      → append_text (record d.ingress { rxq_ooo_len = sub32 d.ingress.rxq_ooo_len 1 }) pos ≡ some r'
      → drain (pos ∷ ps) d
        ≡ drain ps (record d { ingress = r'; wake = true; fin = d.fin || pos.flags.fin })
  unfolding drain
  drain_next pos ps d r' late ready e = rw (late, ready, e)

  -- Where the FIN is after one more segment
  pub fin_step :
      (b f x : Bool) (n last n' edge : ℕ)
      → x ≡ (b || f)
      → f ≡ ltb fin_at last
      → n ≤ edge
      → n < last
      → (last ≤ fin_at) ⊎ (last ≤ edge)
      → reach edge last ≤ n'
      → (x || reaches_fin fin_at (reach edge last) n') ≡ (b || reaches_fin fin_at n n')
  fin_step b f x n last n' edge e e' w ne room h = rw (e, e') (ground arith)

  -- What the loop over the segments that wait does
  pub record Drains (ps : List Seg) (d d' : Drained) (n n' edge : ℕ) : Type 0 where
    pub advances : Advances d.ingress d'.ingress n n' edge
    pub gap : Gap d'.ingress.rcv_nxt d'.ingress.rxq_ooo
    pub fins : d'.fin ≡ (d.fin || reaches_fin fin_at n n')
    pub kept : Kept edge n' ps d'.ingress.rxq_ooo

  old_read : (last n n' edge : ℕ) → leb last n ≡ true → n ≤ n' → reach edge last ≤ n'
  old_read last n n' edge h k = ground arith

  pub none_reached : (b : Bool) (n : ℕ) → b ≡ (b || reaches_fin fin_at n n)
  none_reached b n = ground arith

  pub drain_lem :
      (ps : List Seg) (d : Drained) (n edge : ℕ)
      → IsValid (record d.ingress { rxq_ooo = ps }) n edge
      → (d' : Drained) × (drain ps d ≡ some d') × (n' : ℕ) × Drains ps d d' n n' edge
  unfolding drain
  drain_lem [] d n edge v = (
    record d { ingress = record d.ingress { rxq_ooo = [] } },
    refl,
    n,
    record {
      advances = Advances-refl d.ingress (record d.ingress { rxq_ooo = [] }) n edge v refl;
      gap = tt;
      fins = none_reached d.fin n;
      kept = rest;
    },
  )
  drain_lem (pos ∷ ps) d n edge v =
      let p = v.queue.0 in
      let near_last : Near p.last n =
        omega (arith, v.window, v.small, p.not_old, p.not_new, p.carries.forward) in
      let near_first : Near p.first n =
        omega (arith, v.window, v.small, p.not_old, p.not_new, p.carries.forward) in
      let end_test : wraps_lte pos.seg_end d.ingress.rcv_nxt ≡ leb p.last n =
        rw (p.carries.ends, v.position.next) (wraps_lte-Near p.last n near_last) in
      let start_test : wraps_gt pos.seg_seq d.ingress.rcv_nxt ≡ ltb n p.first =
        rw (p.carries.starts, v.position.next) (wraps_gt-Near p.first n near_first) in
      let r = record d.ingress { rxq_ooo_len = sub32 d.ingress.rxq_ooo_len 1 } in
      let later : IsValid (record r { rxq_ooo = ps }) n edge = record {
        window = v.window;
        small = v.small;
        position = record { next = v.position.next; window = v.position.window };
        queue = v.queue.1;
        sorted = v.sorted.1;
        counted = omega (arith, v.counted, v.few);
        few = omega (arith, v.few);
      } in
      elim (Bool-cases (leb p.last n)) [
        | inl old ↦
            (let (d', e, n', a) =
                drain_lem ps (record d { ingress = r; freed = d.freed ++ pos ∷ [] }) n edge later in
              let f = a.advances.forward in
              (
                d',
                rw (end_test ∙ old) e,
                n',
                record {
                  advances = record {
                    forward = f;
                    valid = a.advances.valid;
                    queued = a.advances.queued;
                  };
                  gap = a.gap;
                  fins = a.fins;
                  kept = gone (record { was = p; read = old_read p.last n n' edge old f }) a.kept;
                },
              ))
        | inr late ↦ elim (Bool-cases (ltb n p.first)) [
          | inl beyond ↦ (
            record d { ingress = record d.ingress { rxq_ooo = pos ∷ ps } },
            rw (end_test ∙ late, start_test ∙ beyond) refl,
            n,
            record {
              advances =
                  Advances-refl d.ingress (record d.ingress { rxq_ooo = pos ∷ ps }) n edge v refl;
              gap = start_test ∙ beyond;
              fins = none_reached d.fin n;
              kept = rest;
            },
          )
          | inr ready ↦
              (let ne : n < p.last = ground (arith, late) in
                let (r', e, a, _) =
                  append-Advances r ps pos n edge later p (ground (arith, ready)) ne in
                let far = reach edge p.last in
                let (d', e', n', b) =
                  drain_lem ps
                    (record d { ingress = r'; wake = true; fin = d.fin || pos.flags.fin }) far edge
                    a.valid in
                let c = b.advances in
                (
                  d',
                  drain_next pos ps d r' (end_test ∙ late) (start_test ∙ ready) e ∙ e',
                  n',
                  record {
                    advances =
                        Advances-trans d.ingress (record r' { rxq_ooo = ps }) d'.ingress n far n'
                          edge (record { forward = a.forward; valid = a.valid; queued = a.queued })
                          (record { forward = c.forward; valid = c.valid; queued = c.queued });
                    gap = b.gap;
                    fins =
                        b.fins
                        ∙ fin_step d.fin pos.flags.fin (d.fin || pos.flags.fin) n p.last n' edge
                            refl p.carries.marked v.window ne p.room c.forward;
                    kept = gone (record { was = p; read = c.forward }) b.kept;
                  },
                ))
        ]
      ]
