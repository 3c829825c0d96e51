-- ===== src/Tcp/Tests/Data.antt =====
-- A connection that has sent a segment of ten bytes and awaits octet 1000 of the peer.
use caladan.Common.{ℕ, ◌%◌, true, false, [], ◌∷◌, none}
use caladan.Tcp.{Flags, Seg, Ingress}
use caladan.Tcp.Text.Stream.{bytes}
use caladan.Tcp.Conn.{established, TcpConn}
use caladan.Tcp.Segment.{Arrival, sent}

abbrev pub no_flags : Flags
no_flags = record { fin = false; syn = false; rst = false; push = false; ack = false; urg = false }

abbrev pub ack_flag : Flags
ack_flag = record no_flags { ack = true }

-- The byte at a position
abbrev pub stream : ℕ → ℕ
stream n = n % 256

abbrev pub ingress : Ingress
ingress = record { rcv_nxt = 1000; rcv_wnd = 65535; rxq = []; rxq_ooo = []; rxq_ooo_len = 0 }

abbrev pub next_seg : Seg
next_seg = record { seg_seq = 1000; seg_end = 1003; flags = ack_flag; text = bytes stream 1000 3 }

abbrev pub own_seg : Seg
own_seg = record { seg_seq = 500; seg_end = 510; flags = ack_flag; text = bytes stream 500 10 }

abbrev pub conn : TcpConn
conn = record {
  pcb = record {
    state = established;
    snd_una = 500;
    snd_nxt = 510;
    snd_wnd = 8000;
    snd_wl1 = 900;
    snd_wl2 = 500;
    iss = 499;
    snd_wscale = 0;
    snd_mss = 1460;
    irs = 899;
    rcv_wscale = 0;
    rcv_mss = 1460;
  };
  ingress = ingress;
  next_timeout = 0;
  nonblocking = false;
  refs = 2;
  err = 0;
  winmax = 65535;
  rx_closed = false;
  rx_exclusive = false;
  rx_wq = 7 ∷ [];
  tx_closed = false;
  tx_exclusive = false;
  tx_wq = [];
  tx_last_ack = 900;
  tx_last_win = 65535;
  tx_pending = none;
  txq = record { seg = own_seg; timestamp = 0 } ∷ [];
  do_fast_retransmit = false;
  fast_retransmit_last_ack = 0;
  ack_ts = 0;
  zero_wnd_ts = 0;
  wait_ts = 0;
  zero_wnd = false;
  ack_delayed = false;
  rep_acks = 0;
  acks_delayed_cnt = 1;
}

abbrev pub arrival : Seg → Arrival
arrival m = record {
  seg = m;
  ack = 510;
  snd_nxt = 510;
  win = 9000;
  memory = λ p. 0;
  optp = 0;
  optlen = 0;
  now = 5000;
  ctl = sent;
  ack_buffer = true;
  copy_buffer = true;
}

abbrev pub with_flags : Flags → Seg
with_flags f = record next_seg { flags = f }

-- A segment that has been read before
abbrev pub old_seg : Seg
old_seg = record next_seg { seg_seq = 900; seg_end = 903 }
