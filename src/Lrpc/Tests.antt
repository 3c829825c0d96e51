-- ===== src/Lrpc/Tests.antt =====
-- Runs of a channel, and the theorems about it at a concrete channel.
use caladan.Common.{ℕ, ◌+◌, ◌^◌, ◌≡◌, refl, true, false, arith, List, [], ◌∷◌, some, none, update}
use caladan.Lrpc.{Channel, send, recv}
use caladan.Lrpc.Refine.{
  Queue, Op, put, get, sent, got, run, run_queue, push, send_refines, run_refines,
}
use caladan.Lrpc.Rep.{message}
use caladan.Lrpc.Setup.{no_msg}

abbrev wrap : ℕ
wrap = 2 ^ 32

-- Two slots; both counters have gone round the 32-bit word, and one message is queued.
abbrev wrapped : Channel
wrapped = record {
  out = record { send_head = 1; send_tail = 0; size = 2 };
  inward = record { recv_head = 0; size = 2 };
  tbl = update (λ j. no_msg) 0 (record { cmd = 5 + 2 ^ 63; payload = 9 });
  recv_head_wb = 0;
}

wrapped-Queue : Queue wrapped 1 (message 5 9 ∷ [])
wrapped-Queue = record {
  received = wrap;
  sent = wrap + 1;
  known = wrap;
  rep = record {
    small = omega arith;
    out_size = refl;
    in_size = refl;
    head = refl;
    tail = refl;
    recv_head = refl;
    written_back = refl;
    behind = omega arith;
    count = refl;
    fits = omega arith;
    filled = (omega arith, refl, tt);
    stale = λ j h0 h1. (ground arith, ground arith);
  };
}

abbrev script : List Op
script = put 1 11 ∷ put 2 12 ∷ get ∷ get ∷ get ∷ put 3 13 ∷ get ∷ []

-- The ring has two slots: the second send is refused.
run-wrapped :
    run wrapped script
    ≡ sent true
      ∷ sent false
      ∷ got (some (message 5 9))
      ∷ got (some (message 1 11))
      ∷ got none
      ∷ sent true
      ∷ got (some (message 3 13))
      ∷ []
unfolding run send recv
run-wrapped = refl

run_refines_example : run wrapped script ≡ run_queue 2 (message 5 9 ∷ []) script
run_refines_example = run_refines wrapped 1 (message 5 9 ∷ []) script wrapped-Queue (omega arith)

send_refines_example :
    let (q', pushed) = push 2 (message 5 9 ∷ []) (message 1 11) in
    ((send wrapped 1 11).1 ≡ pushed) × Queue (send wrapped 1 11).0 1 q'
send_refines_example = send_refines wrapped 1 1 11 (message 5 9 ∷ []) wrapped-Queue (omega arith)
