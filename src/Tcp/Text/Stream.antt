-- ===== src/Tcp/Text/Stream.antt =====
-- The text that is queued for the reader is the stream, in order and with no gap
-- (runtime/net/tcp_in.c). Positions of the stream do not wrap; a sequence number is a position on
-- 32 bits. The FIN has the position behind the last byte.
use caladan.Common.{
  ℕ, zero, suc, ◌+◌, ◌-◌, ◌%◌, ◌^◌, ◌≤◌, ◌<◌, ◌≡◌, refl, sym, ap, ◌∙◌, subst, ◌⊎◌, inl, inr, true,
  false, ltb, if◌then◌else◌, List, [], ◌∷◌, ◌++◌, some, length, take, drop, arith, Bool-cases,
}
use mathlib.Core.List.{append-nil}
use caladan.Tcp.{word32, add32, sub32, wraps_lt, Seg, Ingress}
use caladan.Tcp.Seq.{wraps_lt-Near, sub32_near}
use caladan.Tcp.Text.{clip_head, clip_tail, enqueue, append_text}

-- The next octet is at a position, and the window has a size.
pub record At (r : Ingress) (nxt wnd : ℕ) : Type 0 where
  pub next : r.rcv_nxt ≡ nxt % word32
  pub window : r.rcv_wnd ≡ wnd

-- How far the next octet gets: to the end of the segment or of the window.
abbrev pub reach : ℕ → ℕ → ℕ
reach edge e = if ltb edge e then edge else e

module _ (stream : ℕ → ℕ) where
  -- `n` bytes of the stream from a position on
  abbrev pub bytes : ℕ → ℕ → List ℕ
  bytes s zero = []
  bytes s (suc n) = stream s ∷ bytes (s + 1) n

  length-bytes : (s n : ℕ) → length (bytes s n) ≡ n
  length-bytes s zero = refl
  length-bytes s (suc n) = ap suc (length-bytes (s + 1) n)

  drop-bytes : (k s n : ℕ) → k ≤ n → drop k (bytes s n) ≡ bytes (s + k) (n - k)
  drop-bytes zero s n h =
      let e : s + 0 ≡ s = omega arith in let e' : n - 0 ≡ n = omega arith in rw (e, e')
  drop-bytes (suc k) s zero h = absurd (omega arith)
  drop-bytes (suc k) s (suc n) h =
      let e : s + suc k ≡ s + 1 + k = omega arith in
      let e' : suc n - suc k ≡ n - k = omega arith in
      rw (e, e') (drop-bytes k (s + 1) n (omega arith))

  take-bytes : (k s n : ℕ) → k ≤ n → take k (bytes s n) ≡ bytes s k
  take-bytes zero s n h = refl
  take-bytes (suc k) s zero h = absurd (omega arith)
  take-bytes (suc k) s (suc n) h =
      ap (λ (l : List ℕ). stream s ∷ l) (take-bytes k (s + 1) n (omega arith))

  pub bytes-append : (s a b : ℕ) → bytes s a ++ bytes (s + a) b ≡ bytes s (a + b)
  bytes-append s zero b =
      let e : s + 0 ≡ s = omega arith in let e' : 0 + b ≡ b = omega arith in rw (e, e')
  bytes-append s (suc a) b =
      let e : s + suc a ≡ s + 1 + a = omega arith in
      let e' : suc a + b ≡ suc (a + b) = omega arith in
      rw (e, e') (ap (λ (l : List ℕ). stream s ∷ l) (bytes-append (s + 1) a b))

  -- Bytes up to a position `k`, cut at their head and at their tail, and put together
  drop_to : (k s n : ℕ) → s ≤ n → n ≤ k → drop (n - s) (bytes s (k - s)) ≡ bytes n (k - n)
  drop_to k s n h h' =
      let a : s + (n - s) ≡ n = omega arith in
      let b : k - s - (n - s) ≡ k - n = omega arith in
      drop-bytes (n - s) s (k - s) (omega arith) ∙ rw (a, b) refl

  pub join_to :
      (n n' k : ℕ) → n ≤ n' → n' ≤ k → bytes n (n' - n) ++ bytes n' (k - n') ≡ bytes n (k - n)
  join_to n n' k h h' =
      let there : n + (n' - n) ≡ n' = omega arith in
      let both : n' - n + (k - n') ≡ k - n = omega arith in
      ap (λ (i : ℕ). bytes n (n' - n) ++ bytes i (k - n')) (sym there)
      ∙ bytes-append n (n' - n) (k - n')
      ∙ ap (bytes n) both

-- The bytes of the stream end at the position of the FIN.
abbrev pub stop : ℕ → ℕ → ℕ
stop fin_at e = if ltb fin_at e then fin_at else e

module _ (stream : ℕ → ℕ) (fin_at : ℕ) where
  -- The bytes of the stream from position `s` up to `e`; a FIN among the positions has none.
  abbrev pub piece : ℕ → ℕ → List ℕ
  piece s e = bytes stream s (stop fin_at e - s)

  pub piece-none : (n : ℕ) → piece n n ≡ []
  piece-none n = let z : stop fin_at n - n ≡ 0 = ground arith in rw z refl

  pub piece-append : (n n' n'' : ℕ) → n ≤ n' → n' ≤ n'' → piece n n' ++ piece n' n'' ≡ piece n n''
  piece-append n n' n'' h h' = elim (Bool-cases (ltb fin_at n')) [
    | inl past ↦
        (let past' : ltb fin_at n'' ≡ true = ground (arith, past) in
          let z : fin_at - n' ≡ 0 = ground (arith, past) in
          rw (past, past', z) (append-nil (bytes stream n (fin_at - n))))
    | inr before ↦
        (let le : n' ≤ stop fin_at n'' = ground (arith, before) in
          rw before (join_to stream n n' (stop fin_at n'') h le))
  ]

  -- The segment holds the stream from position `s` up to `e`, and has the FIN exactly if it gets
  -- behind the position of the FIN.
  pub record Carries (m : Seg) (s e : ℕ) : Type 0 where
    pub starts : m.seg_seq ≡ s % word32
    pub ends : m.seg_end ≡ e % word32
    pub forward : s < e
    pub within : e ≤ suc fin_at
    pub marked : m.flags.fin ≡ ltb fin_at e
    pub holds : m.text ≡ piece s e

  -- A segment that starts at or before the next octet is clipped to start there.
  clip_head_lem :
      (m : Seg) (n s e : ℕ)
      → Carries m s e
      → s ≤ n
      → n < e
      → n < s + 2 ^ 31
      → (m' : Seg) × (clip_head (n % word32) m ≡ some m') × Carries m' n e × (m'.flags ≡ m.flags)
  unfolding clip_head
  clip_head_lem m n s e c le ne near = elim (Bool-cases (ltb s n)) [
    | inl early ↦
        (let test : wraps_lt m.seg_seq (n % word32) ≡ true =
            rw c.starts (wraps_lt-Near s n (omega (arith, near, le)) ∙ early) in
          let by : sub32 (n % word32) m.seg_seq ≡ n - s =
            rw c.starts (sub32_near n s le (omega (arith, near))) in
          let w = c.within in
          let inside : n ≤ stop fin_at e = ground (arith, ne, w) in
          let enough : ltb (length m.text) (n - s) ≡ false =
            rw (c.holds, length-bytes stream s (stop fin_at e - s)) (ground (arith, ne, w)) in
          (
            record m { text = drop (n - s) m.text; seg_seq = add32 m.seg_seq (n - s) },
            rw (test, by, enough),
            record {
              starts = omega (arith, c.starts, le);
              ends = c.ends;
              forward = ne;
              within = w;
              marked = c.marked;
              holds = ap (drop (n - s)) c.holds ∙ drop_to stream (stop fin_at e) s n le inside;
            },
            refl,
          ))
    | inr late ↦
        (let same : s ≡ n = ground (arith, late, le) in
          let test : wraps_lt m.seg_seq (n % word32) ≡ false =
            rw c.starts (wraps_lt-Near s n (omega (arith, near, le)) ∙ late) in
          (m, rw test, subst (λ (k : ℕ). Carries m k e) same c, refl))
  ]

  -- A segment that ends behind the edge, which only one with no FIN may, is clipped to end there.
  clip_tail_lem :
      (m : Seg) (edge s e : ℕ)
      → Carries m s e
      → s ≤ edge
      → (e ≤ fin_at) ⊎ (e ≤ edge)
      → e < edge + 2 ^ 31
      → edge < e + 2 ^ 31
      → (m' : Seg) × (clip_tail (edge % word32) m ≡ some m')
        × (m'.seg_seq ≡ s % word32)
        × (m'.seg_end ≡ reach edge e % word32)
        × (m'.text ≡ piece s (reach edge e))
        × (m'.flags ≡ m.flags)
  unfolding clip_tail
  clip_tail_lem m edge s e c le room near near' = elim (Bool-cases (ltb edge e)) [
    | inl late ↦
        (let test : wraps_lt (edge % word32) m.seg_end ≡ true =
            rw c.ends (wraps_lt-Near edge e (omega (arith, near, near')) ∙ late) in
          let by : sub32 m.seg_end (edge % word32) ≡ e - edge =
            rw c.ends (sub32_near e edge (ground (arith, late)) (omega (arith, near))) in
          let no_fin : ltb fin_at e ≡ false = ground (arith, late, room) in
          let no_fin' : ltb fin_at edge ≡ false = ground (arith, late, room) in
          let holds : m.text ≡ bytes stream s (e - s) = c.holds ∙ rw no_fin refl in
          let long : length m.text ≡ e - s = ap length holds ∙ length-bytes stream s (e - s) in
          let enough : ltb (length m.text) (e - edge) ≡ false = rw long (ground (arith, le)) in
          (
            record m { text = take (length m.text - (e - edge)) m.text; seg_end = edge % word32 },
            rw (test, by, enough),
            c.starts,
            rw late refl,
            rw (late, no_fin', long, holds)
                (take-bytes stream (e - s - (e - edge)) s (e - s) (omega arith)
                  ∙ ap (bytes stream s) (ground (arith, le, late))),
            refl,
          ))
    | inr fits ↦
        (let test : wraps_lt (edge % word32) m.seg_end ≡ false =
            rw c.ends (wraps_lt-Near edge e (omega (arith, near, near')) ∙ fits) in
          (m, rw test, c.starts, rw fits c.ends, rw fits c.holds, refl))
  ]

  append_text_steps :
      (r : Ingress) (m m₁ m₂ : Seg)
      → clip_head r.rcv_nxt m ≡ some m₁
      → clip_tail (add32 r.rcv_nxt r.rcv_wnd) m₁ ≡ some m₂
      → append_text r m ≡ some (enqueue r m₂)
  unfolding append_text
  append_text_steps r m m₁ m₂ first second = rw (first, append_text) (rw (second, append_text))

  -- `tcp_rx_append_text` of a segment that starts at or before the next octet `n` and ends behind
  -- it, with no FIN behind the window, never stops: it queues exactly the bytes of the stream from
  -- `n` up to the end of the segment or of the window, and moves the next octet there; the end of the
  -- window stays.
  pub append_text_lem :
      (r : Ingress) (m : Seg) (n w s e : ℕ)
      → At r n w
      → w < 2 ^ 30
      → Carries m s e
      → s ≤ n
      → n < e
      → (e ≤ fin_at) ⊎ (e ≤ n + w)
      → n < s + 2 ^ 31
      → e < n + 2 ^ 31
      → (m' : Seg) × (append_text r m
          ≡ some (record r {
            rcv_nxt = reach (n + w) e % word32;
            rcv_wnd = n + w - reach (n + w) e;
            rxq = r.rxq ++ m' ∷ [];
          }))
        × (m'.text ≡ piece n (reach (n + w) e))
        × (m'.flags ≡ m.flags)
  unfolding enqueue
  append_text_lem r m n w s e a small c le ne room near near' =
      let (m₁, e₁, c₁, f₁) = clip_head_lem m n s e c le ne near in
      let (m₂, e₂, starts, ends, holds, f₂) =
        clip_tail_lem m₁ (n + w) n e c₁ (omega arith) room (omega (arith, near'))
          (omega (arith, small, ne)) in
      let edge : add32 r.rcv_nxt r.rcv_wnd ≡ (n + w) % word32 = omega (arith, a.next, a.window) in
      let first : clip_head r.rcv_nxt m ≡ some m₁ = rw a.next e₁ in
      let second : clip_tail (add32 r.rcv_nxt r.rcv_wnd) m₁ ≡ some m₂ = rw edge e₂ in
      let within : reach (n + w) e ≤ n + w = ground arith in
      let forward : n ≤ reach (n + w) e = ground (arith, ne) in
      let taken : sub32 m₂.seg_end m₂.seg_seq ≡ reach (n + w) e - n =
        rw (starts, ends) (sub32_near (reach (n + w) e) n forward (omega (arith, within, small))) in
      let left : sub32 r.rcv_wnd (sub32 m₂.seg_end m₂.seg_seq) ≡ n + w - reach (n + w) e =
        rw (taken, a.window) (omega (arith, within, forward, small)) in
      (m₂, append_text_steps r m m₁ m₂ first second ∙ rw (left, ends) refl, holds, f₂ ∙ f₁)
