-- ===== src/Tcp/Segment/Fast/Agree.antt =====
-- The two paths of the handler of a segment side by side (runtime/net/tcp_in.c).
