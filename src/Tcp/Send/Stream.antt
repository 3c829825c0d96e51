-- ===== src/Tcp/Send/Stream.antt =====
-- What the segmenter sends, as a stream of bytes (runtime/net/tcp_out.c).
use caladan.Common.{
  ℕ, zero, suc, ◌+◌, ◌-◌, ◌≤◌, ◌<◌, ◌^◌, ◌≡◌, refl, sym, ap, inl, inr, ◌∙◌, subst, Bool, true,
  false, ◌==◌, List, [], ◌∷◌, ◌++◌, Option, none, some, length, take, drop, arith, Bool-cases,
  length-append, length-take, length-drop,
}
use mathlib.Core.List.{append_assoc, append-nil}
use caladan.Tcp.{word32, add32, Seg}
use caladan.Tcp.Conn.{TcpConn, Sent}
use caladan.Tcp.Send.Runs.{first_of, Runs, Runs-append, Adds, buffer-run}
use caladan.Tcp.Send.{
  buffer, seg_room, fill, keeps, send_one, lacks, send_loop, tx_send, SendProgress,
}

abbrev pub sent_text : List Sent → List ℕ
sent_text [] = []
sent_text (s ∷ ss) = s.seg.text ++ sent_text ss

abbrev pub pending_text : Option Seg → List ℕ
pending_text none = []
pending_text (some m) = m.text

-- All that has been taken from the writer and is not acknowledged, the buffer that waits included.
abbrev pub out : TcpConn → List ℕ
out c = sent_text c.txq ++ pending_text c.tx_pending

-- No segment holds more than the peer takes.
abbrev pub AllFit : ℕ → List Sent → Type 0
AllFit mss [] = Unit {0}
AllFit mss (s ∷ ss) = (length s.seg.text ≤ mss) × AllFit mss ss

pub record IsReady (c : TcpConn) : Type 0 where
  pub some_room : 0 < c.pcb.snd_mss
  pub small : c.pcb.snd_mss < 2 ^ 32
  pub pending_fits : length (pending_text c.tx_pending) ≤ c.pcb.snd_mss
  pub sent_fit : AllFit c.pcb.snd_mss c.txq
  pub word : c.pcb.snd_nxt < word32
  pub run : Runs (first_of c.tx_pending c.pcb.snd_nxt) [] c.tx_pending c.pcb.snd_nxt

sent_text-append : (xs ys : List Sent) → sent_text (xs ++ ys) ≡ sent_text xs ++ sent_text ys
sent_text-append [] ys = refl
sent_text-append (x ∷ xs) ys =
    ap (λ (l : List ℕ). x.seg.text ++ l) (sent_text-append xs ys)
    ∙ sym (append_assoc x.seg.text (sent_text xs) (sent_text ys))

AllFit-append :
    (mss : ℕ) (xs : List Sent) (y : Sent)
    → AllFit mss xs
    → length y.seg.text ≤ mss
    → AllFit mss (xs ++ y ∷ [])
AllFit-append mss [] y h k = (k, tt)
AllFit-append mss (x ∷ xs) y h k = (h.0, AllFit-append mss xs y h.1 k)

buffer-text : (c : TcpConn) (o : Option Seg) → (buffer c o).text ≡ pending_text o
buffer-text c none = refl
buffer-text c (some m) = refl

-- The bytes of one turn
abbrev step_len : TcpConn → List ℕ → ℕ
step_len c buf = seg_room c (buffer c c.tx_pending) (length buf)

step_len-fits :
    (c : TcpConn) (buf : List ℕ)
    → IsReady c
    → (step_len c buf ≤ length buf)
      × (length (pending_text c.tx_pending) + step_len c buf ≤ c.pcb.snd_mss)
step_len-fits c buf r =
    let e = ap length (buffer-text c c.tx_pending) in
    let p = r.pending_fits in let q = r.small in (ground arith, rw e (ground (arith, p, q)))

-- One turn
record Turn (c c' : TcpConn) (bs : List ℕ) : Type 0 where
  ready : IsReady c'
  grows : out c' ≡ out c ++ bs
  next : c'.pcb.snd_nxt ≡ add32 c.pcb.snd_nxt (length bs)
  mss : c'.pcb.snd_mss ≡ c.pcb.snd_mss
  adds : Adds c c'

turn_lem :
    (c : TcpConn) (buf : List ℕ) (push : Bool) (now : ℕ)
    → IsReady c
    → Turn c (send_one c buf push now) (take (step_len c buf) buf)
unfolding send_one
turn_lem c buf push now r =
    let b = buffer c c.tx_pending in
    let n = step_len c buf in
    let f = step_len-fits c buf r in
    let len = length-take n buf f.0 in
    let text : b.text ++ take n buf ≡ pending_text c.tx_pending ++ take n buf =
      ap (λ (l : List ℕ). l ++ take n buf) (buffer-text c c.tx_pending) in
    let size : length (b.text ++ take n buf) ≤ c.pcb.snd_mss =
      rw text (omega (arith, length-append (pending_text c.tx_pending) (take n buf), len, f.1)) in
    let start = buffer-run c c.tx_pending r.word r.run in
    let a = first_of c.tx_pending c.pcb.snd_nxt in
    let ends : add32 b.seg_end n ≡ add32 a (length (b.text ++ take n buf)) =
      omega (arith, start.1, length-append b.text (take n buf), len) in
    let nxt : add32 b.seg_end n ≡ add32 c.pcb.snd_nxt n = ap (λ (i : ℕ). add32 i n) start.2 in
    elim (Bool-cases (keeps c push (n == length buf) (fill b n buf))) [
      | inl k ↦ rw k (record {
        ready = record {
          some_room = r.some_room;
          small = r.small;
          pending_fits = size;
          sent_fit = r.sent_fit;
          word = omega arith;
          run = (refl, rw start.0 ends, nxt);
        };
        grows =
            ap (λ (l : List ℕ). sent_text c.txq ++ l) text
            ∙ sym (append_assoc (sent_text c.txq) (pending_text c.tx_pending) (take n buf));
        next = ap (add32 c.pcb.snd_nxt) (sym len);
        mss = refl;
        adds = ([], sym (append-nil c.txq), (start.0, ends, nxt));
      })
      | inr k ↦ rw k (record {
        ready = record {
          some_room = r.some_room;
          small = r.small;
          pending_fits = omega arith;
          sent_fit = AllFit-append c.pcb.snd_mss c.txq _ r.sent_fit size;
          word = omega arith;
          run = refl;
        };
        grows =
            append-nil _
            ∙ sent_text-append c.txq _
            ∙ ap (λ (l : List ℕ). sent_text c.txq ++ l) (append-nil _ ∙ text)
            ∙ sym (append_assoc (sent_text c.txq) (pending_text c.tx_pending) (take n buf));
        next = ap (add32 c.pcb.snd_nxt) (sym len);
        mss = refl;
        adds = (_ ∷ [], refl, (start.0, ends, nxt));
      })
    ]

none_waits :
    (c : TcpConn) (buf : List ℕ) (push : Bool) (now : ℕ)
    → (step_len c buf == length buf) ≡ false
    → (send_one c buf push now).tx_pending ≡ none
unfolding send_one
none_waits c buf push now h = grind (arith, h)

-- A turn that is needed only to send the buffer that waits
abbrev waiting : Option Seg → ℕ
waiting none = 0
waiting (some m) = 1

-- With a push nothing is kept for later.
push_waits : (c : TcpConn) (buf : List ℕ) (now : ℕ) → (send_one c buf true now).tx_pending ≡ none
unfolding send_one
push_waits c buf now = refl

-- From `c` on, `more` bytes of the buffer are taken.
pub record Sends (c c' : TcpConn) (buf : List ℕ) (more : ℕ) : Type 0 where
  pub ready : IsReady c'
  pub within : more ≤ length buf
  pub grows : out c' ≡ out c ++ take more buf
  pub next : c'.pcb.snd_nxt ≡ add32 c.pcb.snd_nxt more
  pub mss : c'.pcb.snd_mss ≡ c.pcb.snd_mss
  pub adds : Adds c c'

none-Sends : (c : TcpConn) (buf : List ℕ) → IsReady c → Sends c c buf 0
none-Sends c buf r =
    let w = r.word in
    record {
      ready = r;
      within = omega arith;
      grows = sym (append-nil (out c));
      next = omega (arith, w);
      mss = refl;
      adds = ([], sym (append-nil c.txq), r.run);
    }

turn-Sends :
    (c : TcpConn) (buf : List ℕ) (push : Bool) (now : ℕ)
    → IsReady c
    → Sends c (send_one c buf push now) buf (step_len c buf)
turn-Sends c buf push now r =
    let t = turn_lem c buf push now r in
    let f = step_len-fits c buf r in
    record {
      ready = t.ready;
      within = f.0;
      grows = t.grows;
      next = t.next ∙ ap (add32 c.pcb.snd_nxt) (length-take (step_len c buf) buf f.0);
      mss = t.mss;
      adds = t.adds;
    }

take_nil : (k : ℕ) → take {A = ℕ} k [] ≡ []
take_nil zero = refl
take_nil (suc k) = refl

take-add : (n k : ℕ) (xs : List ℕ) → take n xs ++ take k (drop n xs) ≡ take (n + k) xs
take-add zero k xs = ap (λ (n : ℕ). take n xs) (omega arith)
take-add (suc n) k [] = take_nil k ∙ sym (take_nil (suc n + k))
take-add (suc n) k (x ∷ xs) =
    let e : suc (n + k) ≡ suc n + k = omega arith in
    ap (λ (l : List ℕ). x ∷ l) (take-add n k xs) ∙ ap (λ (i : ℕ). take i (x ∷ xs)) e

both-Sends :
    (c c' c'' : TcpConn) (buf : List ℕ) (n k : ℕ)
    → Sends c c' buf n
    → Sends c' c'' (drop n buf) k
    → Sends c c'' buf (n + k)
both-Sends c c' c'' buf n k s t =
    let l = length-drop n buf in
    record {
      ready = t.ready;
      within = omega (arith, s.within, t.within, l);
      grows =
          t.grows
          ∙ ap (λ (x : List ℕ). x ++ take k (drop n buf)) s.grows
          ∙ append_assoc (out c) (take n buf) (take k (drop n buf))
          ∙ ap (λ (x : List ℕ). out c ++ x) (take-add n k buf);
      next = t.next ∙ rw s.next (omega arith);
      mss = t.mss ∙ s.mss;
      adds = (
        s.adds.0 ++ t.adds.0,
        t.adds.1
            ∙ ap (λ (q : List Sent). q ++ t.adds.0) s.adds.1
            ∙ append_assoc c.txq s.adds.0 t.adds.0,
        Runs-append (first_of c.tx_pending c.pcb.snd_nxt) s.adds.0 t.adds.0 c'.tx_pending
            c''.tx_pending c'.pcb.snd_nxt c''.pcb.snd_nxt s.adds.2 t.adds.2,
      );
    }

-- Every turn but one that sends what waits makes the rest shorter.
shorter :
    (c : TcpConn) (buf : List ℕ) (o : Option Seg)
    → 0 < c.pcb.snd_mss
    → c.pcb.snd_mss < 2 ^ 32
    → (seg_room c (buffer c o) (length buf) == length buf) ≡ false
    → length buf - seg_room c (buffer c o) (length buf) < length buf + waiting o
shorter c buf none p q h = ground (arith, p, q, h)
shorter c buf (some m) p q h = omega arith

lacks-none : (o : Option Seg) (b : Bool) → lacks o b ≡ true → o ≡ none
lacks-none none b h = refl
lacks-none (some m) b h = cc

lacks_lem : (o : Option Seg) (b : Bool) → lacks o b ≡ true → b ≡ true → ⊥
lacks_lem o b h k = grind (arith, h, k)

send_loop_lem :
    (fuel : ℕ) (has_buffer : ℕ → Bool) (c : TcpConn) (buf : List ℕ) (push : Bool) (now done : ℕ)
    → IsReady c
    → length buf + waiting c.tx_pending < fuel
    → (p : SendProgress) × (send_loop fuel has_buffer c buf push now done ≡ some p)
      × (more : ℕ) × (p.taken ≡ done + more)
      × Sends c p.conn buf more
      × (((i : ℕ) → has_buffer i ≡ true) → more ≡ length buf)
      × (push ≡ true → more ≡ length buf → p.conn.tx_pending ≡ none)
unfolding send_loop
send_loop_lem zero has c buf push now done r h = absurd (omega (arith, h))
send_loop_lem (suc fuel) has c buf push now done r h =
    let n = step_len c buf in
    let c' = send_one c buf push now in
    let t = turn-Sends c buf push now r in
    elim (Bool-cases (lacks c.tx_pending (has fuel))) [
      | inl e ↦ (
        record { conn = c; taken = done },
        rw e refl,
        0,
        omega arith,
        none-Sends c buf r,
        λ all. absurd (lacks_lem c.tx_pending (has fuel) e (all fuel)),
        λ pushed whole. lacks-none c.tx_pending (has fuel) e,
      )
      | inr e ↦ elim (Bool-cases (n == length buf)) [
        | inl whole ↦ (
          record { conn = c'; taken = done + n },
          rw (e, whole) refl,
          n,
          refl,
          t,
          λ all. ground (arith, whole),
          λ pushed k.
              subst (λ (b : Bool). (send_one c buf b now).tx_pending ≡ none) (sym pushed)
                (push_waits c buf now),
        )
        | inr part ↦
            (let gone = none_waits c buf push now part in
              let less = shorter c buf c.tx_pending r.some_room r.small part in
              let l = length-drop n buf in
              let enough : length (drop n buf) + waiting c'.tx_pending < fuel =
                rw gone (omega (arith, l, less, h)) in
              let (p, run, k, taken, s, all_sent, none_left) =
                send_loop_lem fuel has c' (drop n buf) push now (done + n) t.ready enough in
              (
                p,
                rw (e, part) run,
                n + k,
                omega (arith, taken),
                both-Sends c c' p.conn buf n k t s,
                λ all. omega (arith, all_sent all, l, t.within),
                λ pushed whole. none_left pushed (omega (arith, whole, l, t.within)),
              ))
      ]
    ]

waiting_lem : (n : ℕ) (o : Option Seg) → n + waiting o < n + 2
waiting_lem n none = omega arith
waiting_lem n (some m) = omega arith

-- From a connection whose segments hold no more than the peer takes, and whose waiting buffer ends
-- at the next sequence number, `tcp_tx_send` ends. What it has taken of the buffer is behind what
-- was sent or kept before, in order and once, in segments that again hold no more than the peer
-- takes; the new segments, and a buffer that is kept, are numbered by their bytes from the first
-- unsent one on, with no gap, up to the next sequence number. All of the buffer is taken if there is
-- always a buffer for a segment; and if all is taken with a push, all is sent and nothing is kept.
pub tx_send_lem :
    (has_buffer : ℕ → Bool) (c : TcpConn) (buf : List ℕ) (push : Bool) (now : ℕ)
    → IsReady c
    → (p : SendProgress) × (tx_send has_buffer c buf push now ≡ some p)
      × Sends c p.conn buf p.taken
      × (((i : ℕ) → has_buffer i ≡ true) → p.taken ≡ length buf)
      × (push ≡ true → p.taken ≡ length buf → p.conn.tx_pending ≡ none)
unfolding tx_send
tx_send_lem has c buf push now r =
    let (p, run, more, e, s, all, none_left) =
      send_loop_lem (length buf + 2) has c buf push now 0 r
        (waiting_lem (length buf) c.tx_pending) in
    let same : more ≡ p.taken = omega (arith, e) in
    (
      p,
      run,
      subst (λ (k : ℕ). Sends c p.conn buf k) same s,
      λ h. sym same ∙ all h,
      λ h k. none_left h (same ∙ k),
    )
