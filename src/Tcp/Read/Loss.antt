-- ===== src/Tcp/Read/Loss.antt =====
-- What a read takes, and what is lost (runtime/net/tcp.c).
use caladan.Common.{
  ℕ, ◌+◌, ◌-◌, ◌≤◌, ◌<◌, ◌≡◌, refl, sym, ap, ◌⊎◌, inl, inr, ◌∙◌, subst, Bool, true, false, not,
  ◌&&◌, ◌||◌, ◌==◌, ltb, leb, if◌then◌else◌, List, [], ◌∷◌, ◌++◌, length, take, drop, arith,
  Bool-cases, length-append, take-drop, length-take,
}
use mathlib.Core.List.{append_assoc}
use caladan.Tcp.{add32, Seg, Ingress}
use caladan.Tcp.Text.{is_nil}
use caladan.Tcp.Text.Drain.{text_of}
use caladan.Tcp.Conn.{TcpConn, Effect, shutdown_rx}
use caladan.Tcp.Read.{
  Popped, pop, stops_here, copied, left, head_bytes, ends, reads, take_read, read,
}

-- Nothing is left, or the first segment that is has a FIN and no text.
abbrev pub Ended : List Seg → Type 0
Ended [] = Unit {0}
Ended (m ∷ ms) = (m.flags.fin ≡ true) × (length m.text ≡ 0)

-- Whether a segment that starts among the first `n` bytes of the queue has a FIN
abbrev pub fin_within : ℕ → List Seg → Bool
fin_within n [] = false
fin_within n (m ∷ ms) = not (n == 0) && (m.flags.fin || fin_within (n - length m.text) ms)

fin_within-zero : (ms : List Seg) → fin_within 0 ms ≡ false
fin_within-zero [] = refl
fin_within-zero (m ∷ ms) = refl

fin_within-part :
    (n : ℕ) (m : Seg) (ms : List Seg)
    → 0 < n
    → n ≤ length m.text
    → fin_within n (m ∷ ms) ≡ m.flags.fin
fin_within-part n m ms h k =
    let z : n - length m.text ≡ 0 = omega arith in
    let e : (n == 0) ≡ false = ground (arith, h) in rw (z, fin_within-zero ms, e) (ground arith)

record Reads (rxq : List Seg) (p : Popped) (readlen n : ℕ) : Type 0 where
  whole : copied p n ++ text_of (left p n) ≡ text_of rxq
  count : p.readlen ≡ readlen + length (copied p n)
  room : p.readlen ≤ readlen + n
  full : (p.readlen ≡ readlen + n) ⊎ Ended (left p n)
  fins : p.meets_fin ≡ fin_within n rxq

-- One more segment ahead of what is taken
more-Reads :
    (m : Seg) (ms : List Seg) (p : Popped) (fin : Bool) (readlen n : ℕ)
    → length m.text ≤ n
    → fin ≡ fin_within n (m ∷ ms)
    → Reads ms p (readlen + length m.text) (n - length m.text)
    → Reads (m ∷ ms) (record p { q = m ∷ p.q; meets_fin = fin }) readlen n
more-Reads m ms p fin readlen n h k r =
    let size = length-append m.text (text_of p.q) in
    let same : n - length (text_of (m ∷ p.q)) ≡ n - length m.text - length (text_of p.q) =
      omega (arith, size) in
    let part =
      if p.in_part then head_bytes (n - length m.text - length (text_of p.q)) p.rest else [] in
    let ahead : copied (record p { q = m ∷ p.q; meets_fin = fin }) n
        ≡ m.text ++ copied p (n - length m.text) =
      rw same (append_assoc m.text (text_of p.q) part) in
    let behind : left (record p { q = m ∷ p.q; meets_fin = fin }) n ≡ left p (n - length m.text) =
      rw same refl in
    record {
      whole =
          rw (ahead, behind)
            (append_assoc m.text (copied p (n - length m.text)) _
              ∙ ap (λ (l : List ℕ). m.text ++ l) r.whole);
      count =
          rw ahead (omega (arith, r.count, length-append m.text (copied p (n - length m.text))));
      room = omega (arith, r.room, h);
      full = elim r.full [ inl e ↦ inl (omega (arith, e, h)) | inr e ↦ inr (rw behind e) ];
      fins = k;
    }

pop_lem :
    (rxq : List Seg) (len readlen : ℕ)
    → readlen ≤ len
    → Reads rxq (pop rxq len readlen) readlen (len - readlen)
unfolding pop
pop_lem [] len readlen h = record {
  whole = refl;
  count = omega arith;
  room = omega arith;
  full = inr tt;
  fins = refl;
}
pop_lem (m ∷ ms) len readlen h = elim (Bool-cases (leb len readlen)) [
  | inl full ↦
      (let z : len - readlen ≡ 0 = ground (arith, full) in
        rw full (record {
          whole = refl;
          count = omega arith;
          room = omega arith;
          full = inl (omega (arith, z));
          fins = rw z refl;
        }))
  | inr open_ ↦ elim (Bool-cases (m.flags.fin && length m.text == 0)) [
    | inl fin ↦
        rw (open_, fin)
          (record {
            whole = refl;
            count = omega arith;
            room = omega arith;
            full = inr (ground (arith, fin), ground (arith, fin));
            fins = ground (arith, fin, open_);
          })
    | inr goes ↦ elim (Bool-cases (ltb (len - readlen) (length m.text))) [
      | inl part ↦
          (let le : len - readlen ≤ length m.text = ground (arith, part) in
            let size = length-take (len - readlen) m.text le in
            let z : len - readlen - 0 ≡ len - readlen = omega arith in
            rw (open_, goes, part)
              (record {
                whole = rw z (
                    sym (
                      append_assoc (take (len - readlen) m.text) (drop (len - readlen) m.text)
                        (text_of ms))
                    ∙ ap (λ (l : List ℕ). l ++ text_of ms) (take-drop (len - readlen) m.text));
                count = rw z (omega (arith, size, h));
                room = omega (arith, h);
                full = inl (omega (arith, h));
                fins = sym (fin_within-part (len - readlen) m ms (ground (arith, open_)) le);
              }))
      | inr all ↦
          (let le : length m.text ≤ len - readlen = ground (arith, all) in
            let less : len - (readlen + length m.text) ≡ len - readlen - length m.text =
              omega arith in
            let later = pop ms len (readlen + length m.text) in
            let r = pop_lem ms len (readlen + length m.text) (ground (arith, le, open_)) in
            let met : (m.flags.fin || later.meets_fin)
                ≡ (m.flags.fin || fin_within (len - (readlen + length m.text)) ms) =
              ap (λ (b : Bool). m.flags.fin || b) r.fins in
            rw (open_, goes, all)
              (more-Reads m ms later (m.flags.fin || later.meets_fin) readlen (len - readlen) le
                (met ∙ rw less (ground (arith, open_)))
                (subst (λ (n : ℕ). Reads ms later (readlen + length m.text) n) less r)))
    ]
  ]
]

take_read-ingress :
    (c : TcpConn) (len : ℕ) (b : Bool)
    → (take_read c len b).1.0.ingress ≡ record c.ingress {
      rxq = left (pop c.ingress.rxq len 0) len;
      rcv_wnd = add32 c.ingress.rcv_wnd (pop c.ingress.rxq len 0).readlen;
    }
unfolding take_read
take_read-ingress c len b = grind arith

take_read-bytes :
    (c : TcpConn) (len : ℕ) (b : Bool)
    → (take_read c len b).0 ≡ copied (pop c.ingress.rxq len 0) len
unfolding take_read
take_read-bytes c len b = refl

take_read-shut :
    (c : TcpConn) (len : ℕ) (b : Bool)
    → (pop c.ingress.rxq len 0).meets_fin ≡ true
    → ((take_read c len b).1.0.rx_closed ≡ true) × ((take_read c len b).1.0.err ≡ c.err)
unfolding take_read shutdown_rx
take_read-shut c len b h = (grind (arith, h), grind (arith, h))

take_read-closed :
    (c : TcpConn) (len : ℕ) (b : Bool)
    → c.rx_closed ≡ false
    → (take_read c len b).1.0.rx_closed ≡ (pop c.ingress.rxq len 0).meets_fin
unfolding take_read shutdown_rx
take_read-closed c len b h = grind (arith, h)

pop-fin :
    (m : Seg) (ms : List Seg) (len : ℕ)
    → m.flags.fin ≡ true
    → 0 < len
    → len < length m.text
    → pop (m ∷ ms) len 0 ≡ record (stops_here (m ∷ ms) len) { in_part = true; meets_fin = true }
unfolding pop
pop-fin m ms len f pos part =
    let more : leb len 0 ≡ false = ground (arith, pos) in
    let some_text : (length m.text == 0) ≡ false = ground (arith, part) in
    let cut : ltb (len - 0) (length m.text) ≡ true = ground (arith, part) in
    rw (more, some_text, f, cut) refl

read_steps :
    (c : TcpConn) (len : ℕ) (b : Bool)
    → c.rx_closed ≡ false
    → c.rx_exclusive ≡ false
    → is_nil c.ingress.rxq ≡ false
    → read c len b ≡ reads (take_read c len b).0 (take_read c len b).1.0 (take_read c len b).1.1
unfolding read
read_steps c len b o e n = rw (o, e, n) refl

-- A read of a connection that is open for reading, with no reader at a part of a segment and with
-- something in the queue, returns. The bytes are those at the front of the queue, in order; they are
-- as many as are asked for, or else all up to the end of the queue or to a segment of a FIN without
-- text. What stays in the queue is the rest, the window opens by as many, and the connection is
-- closed for reading exactly if a segment that starts among the bytes asked for has a FIN.
pub read_lem :
    (c : TcpConn) (len : ℕ) (has_buffer : Bool)
    → c.rx_closed ≡ false
    → c.rx_exclusive ≡ false
    → is_nil c.ingress.rxq ≡ false
    → (bs : List ℕ) × (c' : TcpConn) × (es : List Effect) × (read c len has_buffer ≡ reads bs c' es)
      × (bs ++ text_of c'.ingress.rxq ≡ text_of c.ingress.rxq)
      × (length bs ≤ len)
      × ((length bs ≡ len) ⊎ Ended c'.ingress.rxq)
      × (c'.rx_closed ≡ fin_within len c.ingress.rxq)
      × (c'.ingress.rcv_wnd ≡ add32 c.ingress.rcv_wnd (length bs))
read_lem c len has_buffer o e n =
    let p = pop c.ingress.rxq len 0 in
    let z : len - 0 ≡ len = omega arith in
    let r =
      subst (λ (k : ℕ). Reads c.ingress.rxq p 0 k) z (pop_lem c.ingress.rxq len 0 (omega arith)) in
    let same = take_read-ingress c len has_buffer in
    let t = take_read c len has_buffer in
    let size : p.readlen ≡ length t.0 =
      rw (take_read-bytes c len has_buffer) (omega (arith, r.count)) in
    (
      t.0,
      t.1.0,
      t.1.1,
      read_steps c len has_buffer o e n,
      (rw (take_read-bytes c len has_buffer, same) r.whole),
      rw (take_read-bytes c len has_buffer) (omega (arith, r.count, r.room)),
      elim r.full [
        | inl e ↦ inl (omega (arith, size, e))
        | inr e ↦ inr (subst (λ (i : Ingress). Ended i.rxq) (sym same) e)
      ],
      take_read-closed c len has_buffer o ∙ r.fins,
      ap (λ (i : Ingress). i.rcv_wnd) same ∙ ap (add32 c.ingress.rcv_wnd) size,
    )

-- A read that takes a part of a segment with a FIN at the front of the queue leaves the rest of its
-- text there, and closes ingress: the next read returns the error, 0, and none of that text.
pub read_loses_rest :
    (c : TcpConn) (m : Seg) (ms : List Seg) (len next : ℕ) (has_buffer has_buffer' : Bool)
    → c.ingress.rxq ≡ m ∷ ms
    → c.rx_closed ≡ false
    → c.rx_exclusive ≡ false
    → m.flags.fin ≡ true
    → 0 < len
    → len < length m.text
    → (c' : TcpConn) × (es : List Effect) × (read c len has_buffer ≡ reads (take len m.text) c' es)
      × (text_of c'.ingress.rxq ≡ drop len m.text ++ text_of ms)
      × (read c' next has_buffer' ≡ ends c.err)
unfolding read
read_loses_rest c m ms len next b b' q o e f pos part =
    let p : pop c.ingress.rxq len 0
        ≡ record (stops_here (m ∷ ms) len) { in_part = true; meets_fin = true } =
      rw q (pop-fin m ms len f pos part) in
    let t = take_read c len b in
    let z : len - 0 ≡ len = omega arith in
    let shut = take_read-shut c len b (ap (λ (x : Popped). x.meets_fin) p) in
    let some_seg : is_nil c.ingress.rxq ≡ false = rw q refl in
    let got : t.0 ≡ take len m.text = take_read-bytes c len b ∙ rw (p, z) refl in
    (
      t.1.0,
      t.1.1,
      read_steps c len b o e some_seg ∙ ap (λ (bs : List ℕ). reads bs t.1.0 t.1.1) got,
      ap (λ (i : Ingress). text_of i.rxq) (take_read-ingress c len b) ∙ rw (p, z) refl,
      rw shut.0 (ap ends shut.1),
    )
