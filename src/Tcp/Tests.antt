-- ===== src/Tcp/Tests.antt =====
-- The theorems about TCP on concrete segments.
mod Data
use caladan.Common.{
  ◌&&◌, ◌-◌, ℕ, ◌+◌, ◌-◌, ◌%◌, ◌≤◌, ◌<◌, ◌≡◌, ◌↔◌, ◌⊎◌, inr, refl, Bool, true, false, leb,
  if◌then◌else◌, List, [], ◌∷◌, ◌++◌, Option, none, some, length, arith,
}
use caladan.Tcp.{word32, add32, wraps_lt, wraps_lte, wraps_gt, wraps_gte, Flags, Seg, Ingress}
use caladan.Tcp.Seq.{wraps_lem}
use caladan.Tcp.Text.{
  is_acceptable, rx_text, append_text, clip_head, clip_tail, enqueue, drain, finish, Drained,
}
use caladan.Tcp.Text.Stream.{bytes}
use caladan.Tcp.Text.Drain.{IsValid, Pending, text_of}
use caladan.Tcp.Text.Rx.{Overlaps, is_acceptable_iff, Received, rx_text_lem}
use caladan.Tcp.Options.{TcpOptions, no_options, parse_loop, put_options}
use caladan.Tcp.Options.Loop.{parse_loop_ends, parse-put_options, read_back}
use caladan.Tcp.Conn.{
  ack_timeout, sub64, is_snd_full, set_state, timer_update, earliest_timeout, conn_ack, split_acked,
  established, close_wait, closed, TcpConn, Effect, readies, frees, sends_ack,
}
use caladan.Tcp.Segment.{Arrival, sent}
use caladan.Tcp.Segment.Handler.{
  Reply, take_text, with_text, after_text, take_fin, handle, at_done, rx_conn_slow,
}
use caladan.Tcp.Segment.Ack.{
  check_segment, ack_opens, process_ack, take_ack, take_window, count_acks, resend, ack_moves,
}
use caladan.Tcp.Segment.States.{Reaches}
use caladan.Tcp.Segment.States.Moves.{rx_conn_slow-Reaches}
use caladan.Tcp.Segment.Errors.{rx_conn_slow-refuses, rx_conn_slow-resets, syn_divides}
use caladan.Tcp.Send.{tx_send, SendProgress}
use caladan.Tcp.Send.Stream.{Sends, tx_send_lem}
use caladan.Tcp.Read.{read, reads, ends}
use caladan.Tcp.Read.Loss.{Ended, fin_within, read_lem, read_loses_rest}
use caladan.Tcp.Tests.Data.{
  no_flags, ack_flag, stream, ingress, next_seg, own_seg, conn, arrival, with_flags, old_seg,
}

is_acceptable_iff_example :
    (is_acceptable (1000 % word32) (1500 - 1000) (1003 - 990) (990 % word32) ack_flag ≡ true)
    ↔ (Overlaps 1000 1500 990 1003 × ((1000 ≤ 990) ⊎ (1003 ≤ 1500)))
is_acceptable_iff_example =
    is_acceptable_iff 1000 1500 990 1003 ack_flag (omega arith) (omega arith) (omega arith)
      (omega arith) (omega arith) (omega arith)

ingress-IsValid : IsValid stream 1003 ingress 1000 66535
ingress-IsValid = record {
  window = omega arith;
  small = omega arith;
  position = record { next = refl; window = refl };
  queue = tt;
  sorted = tt;
  counted = refl;
  few = omega arith;
}

-- Five bytes and a FIN that start two ahead of the next octet
abbrev late_seg : Seg
late_seg = record {
  seg_seq = 998;
  seg_end = 1004;
  flags = record ack_flag { fin = true };
  text = bytes stream 998 5;
}

late-Pending : Pending stream 1003 66535 late_seg
late-Pending = record {
  first = 998;
  last = 1004;
  carries = record {
    starts = refl;
    ends = refl;
    forward = omega arith;
    within = omega arith;
    marked = refl;
    holds = refl;
  };
  room = inr (omega arith);
  not_old = omega arith;
  not_new = omega arith;
}

rx_text_lem_example :
    (used : Bool) × (d : Drained) × (rx_text ingress late_seg false false ≡ some (used, d))
    × (n' : ℕ) × Received stream 1003 ingress late_seg false 1000 n' 66535 998 1004 used d
unfolding late-Pending
rx_text_lem_example =
    rx_text_lem stream 1003 ingress late_seg 1000 66535 false false ingress-IsValid late-Pending
      (omega arith, omega arith, omega arith)

-- An option of size 0 at address 3
abbrev bad_memory : ℕ → ℕ
bad_memory p = if leb p 2 then 1 else if leb p 3 then 8 else 0

parse_loop_ends_example :
    ((o' : TcpOptions) × (parse_loop 9 bad_memory 0 8 no_options ≡ some o'))
    ⊎ ((q : ℕ) × (0 ≤ q)
        × (q < 0 + 8)
        × (1 < bad_memory q)
        × (bad_memory (q + 1) ≡ 0)
        × ((n : ℕ) → parse_loop n bad_memory 0 8 no_options ≡ none))
parse_loop_ends_example = parse_loop_ends 9 bad_memory 0 8 no_options (omega arith)

abbrev opened : TcpOptions
opened = record { has_mss = true; has_wscale = true; mss = 1460; wscale = 7 }

-- Memory that holds the bytes of `opened` from address 0 on
abbrev option_bytes : ℕ → ℕ
option_bytes p =
    if leb p 0
    then 1
    else if leb p 2
    then 3
    else if leb p 3
    then 7
    else if leb p 4
    then 2
    else if leb p 5
    then 4
    else if leb p 6
    then 5
    else 180

parse-put_options_example :
    parse_loop 4 option_bytes 0 (length (put_options opened)) no_options ≡ some (read_back opened)
unfolding put_options
parse-put_options_example =
    parse-put_options opened option_bytes 0
      (refl, (refl, (refl, (refl, (refl, (refl, (refl, (refl, tt))))))))

abbrev fin_arrival : Arrival
fin_arrival = arrival (with_flags (record ack_flag { fin = true }))

-- The reply, if there is one
abbrev reply_of : Option Reply → Reply
reply_of none = record { conn = conn; used = false; effects = [] }
reply_of (some r) = r

rx_conn_slow-Reaches_example : Reaches conn fin_arrival established close_wait
unfolding rx_conn_slow handle check_segment ack_opens process_ack take_ack take_window conn_ack
    split_acked count_acks resend ack_moves take_text with_text after_text take_fin at_done
    set_state timer_update earliest_timeout is_snd_full is_acceptable wraps_lt wraps_lte wraps_gt
    rx_text append_text clip_head clip_tail enqueue drain finish
rx_conn_slow-Reaches_example =
    rx_conn_slow-Reaches conn fin_arrival (reply_of (rx_conn_slow conn fin_arrival)) refl

abbrev rst_arrival : Arrival
rst_arrival = arrival (with_flags (record no_flags { rst = true }))

rx_conn_slow-resets_example :
    (r : Reply) × (rx_conn_slow conn rst_arrival ≡ some r)
    × (r.used ≡ false)
    × (r.conn.pcb.state ≡ closed)
    × (r.conn.err ≡ 104)
    × (r.conn.rx_closed ≡ true)
    × (r.conn.tx_closed ≡ true)
unfolding is_acceptable wraps_lte wraps_lt
rx_conn_slow-resets_example = rx_conn_slow-resets conn rst_arrival refl refl refl refl

abbrev syn_arrival : Arrival
syn_arrival = arrival (with_flags (record ack_flag { syn = true }))

-- A connection with five bytes and a FIN to read, after three bytes
abbrev fin_seg : Seg
fin_seg = record {
  seg_seq = 1003;
  seg_end = 1009;
  flags = record ack_flag { fin = true };
  text = bytes stream 1003 5;
}

abbrev readable : List Seg → TcpConn
readable q = record conn { ingress = record ingress { rxq = q; rcv_wnd = 60000 } }

read_lem_example :
    (bs : List ℕ) × (c' : TcpConn) × (es : List Effect) × (read
        (readable (next_seg ∷ fin_seg ∷ []))
        6
        true
      ≡ reads bs c' es)
    × (bs ++ text_of c'.ingress.rxq ≡ bytes stream 1000 8)
    × (length bs ≤ 6)
    × ((length bs ≡ 6) ⊎ Ended c'.ingress.rxq)
    × (c'.rx_closed ≡ fin_within 6 (next_seg ∷ fin_seg ∷ []))
    × (c'.ingress.rcv_wnd ≡ add32 60000 (length bs))
read_lem_example = read_lem (readable (next_seg ∷ fin_seg ∷ [])) 6 true refl refl refl

-- A peer that takes four bytes in a segment, with two that wait
abbrev pending_seg : Seg
pending_seg = record { seg_seq = 508; seg_end = 510; flags = ack_flag; text = bytes stream 508 2 }

abbrev narrow : TcpConn
narrow = record conn {
  pcb = record conn.pcb { snd_mss = 4 };
  tx_pending = some pending_seg;
  txq = [];
}

tx_send_lem_example :
    (p : SendProgress) × (tx_send (λ i. true) narrow (bytes stream 510 5) true 99 ≡ some p)
    × Sends narrow p.conn (bytes stream 510 5) p.taken
    × (((i : ℕ) → true ≡ true) → p.taken ≡ 5)
    × (true ≡ true → p.taken ≡ 5 → p.conn.tx_pending ≡ none)
tx_send_lem_example =
    tx_send_lem (λ i. true) narrow (bytes stream 510 5) true 99
      (record {
        some_room = omega arith;
        small = omega arith;
        pending_fits = omega arith;
        sent_fit = tt;
        word = omega arith;
        run = (refl, refl, refl);
      })
