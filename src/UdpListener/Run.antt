-- ===== src/UdpListener/Run.antt =====
-- The client of `UdpListener.Abandoned` in a run of a UDP listener.
use backhaul_plus.Prelude.{ℕ, zero, suc, ◌<◌, sym, ◌∙◌, List, [], ◌∷◌, ◌++◌, All, All-append}
use mathlib.Core.Path.{subst}
use backhaul_plus.Maps.{delete}
use backhaul_plus.Strings.{Bytes}
use backhaul_plus.UdpListener.{
  Kind, plain_udp, over_tcp, Cell, LocalUdpConn, UdpListener, change_at, is_congested_at,
  is_late_conn, take_up, deleted, finish_at, at_handled, copied, congested, read, Event, datagram,
  taken_up, finished, marked, step, run,
}
use backhaul_plus.UdpListener.Abandoned.{
  IsOther, IsAbandoned, length-change_at, congested-elsewhere, with_cells-IsAbandoned,
  deleted_key-IsAbandoned, on_datagram-IsAbandoned, if-IsAbandoned,
}

with_queues-IsAbandoned :
    (key : Bytes) (i : ℕ) (s : UdpListener) (q hs : List LocalUdpConn)
    → IsAbandoned key i s
    → All (IsOther key i) q
    → All (IsOther key i) hs
    → IsAbandoned key i (record s { udp_chan = q; handled = hs })
with_queues-IsAbandoned key i s q hs h a b = record {
  entry = h.entry;
  uncongested = h.uncongested;
  exists = h.exists;
  not_queued = a;
  not_handled = b;
}

take_up-IsAbandoned :
    (kind : Kind) (now : ℕ) (key : Bytes) (i : ℕ) (q : List LocalUdpConn) (s : UdpListener)
    → All (IsOther key i) q
    → IsAbandoned key i s
    → IsAbandoned key i (take_up kind now q s)
unfolding take_up
take_up-IsAbandoned kind now key i [] s a h = h
take_up-IsAbandoned kind now key i (c ∷ q) s a h =
    if-IsAbandoned key i (is_late_conn kind now c) (record s { udp_chan = q })
      (record s { udp_chan = q; handled = c ∷ s.handled })
      (with_queues-IsAbandoned key i s q s.handled h a.1 h.not_handled)
      (with_queues-IsAbandoned key i s q (c ∷ s.handled) h a.1 (a.0, h.not_handled))

deleted-IsAbandoned :
    (kind : Kind) (key : Bytes) (i : ℕ) (c : LocalUdpConn) (s : UdpListener)
    → IsOther key i c
    → IsAbandoned key i s
    → IsAbandoned key i (deleted kind c s)
deleted-IsAbandoned plain_udp key i c s o h = deleted_key-IsAbandoned key c.addr i s o.0 h
deleted-IsAbandoned over_tcp key i c s o h =
    if-IsAbandoned key i (is_congested_at c.id s.cells) s
      (record s { active_connections = delete c.addr s.active_connections }) h
      (deleted_key-IsAbandoned key c.addr i s o.0 h)

finish_at-IsAbandoned :
    (kind : Kind) (key : Bytes) (i n : ℕ) (before rest : List LocalUdpConn) (s : UdpListener)
    → All (IsOther key i) before
    → All (IsOther key i) rest
    → IsAbandoned key i s
    → IsAbandoned key i (finish_at kind n before rest s)
unfolding finish_at
finish_at-IsAbandoned kind key i n before [] s a b h = h
finish_at-IsAbandoned kind key i zero before (c ∷ rest) s a b h =
    deleted-IsAbandoned kind key i c (record s { handled = before ++ rest }) b.0
      (with_queues-IsAbandoned key i s s.udp_chan (before ++ rest) h h.not_queued
        (All-append (IsOther key i) before rest a b.1))
finish_at-IsAbandoned kind key i (suc n) before (c ∷ rest) s a b h =
    finish_at-IsAbandoned kind key i n (before ++ (c ∷ [])) rest s
      (All-append (IsOther key i) before (c ∷ []) a (b.0, tt)) b.1 h

at_handled-IsAbandoned :
    (f : Cell → Cell) (key : Bytes) (i n : ℕ) (rest : List LocalUdpConn) (s : UdpListener)
    → All (IsOther key i) rest
    → IsAbandoned key i s
    → IsAbandoned key i (at_handled f n rest s)
unfolding at_handled
at_handled-IsAbandoned f key i n [] s a h = h
at_handled-IsAbandoned f key i zero (c ∷ rest) s a h =
    with_cells-IsAbandoned key i s (change_at f c.id s.cells) s.active_connections h h.entry
      (congested-elsewhere f c.id i s.cells a.0.1 ∙ h.uncongested)
      (subst (λ n. i < n) (sym (length-change_at f c.id s.cells)) h.exists)
at_handled-IsAbandoned f key i (suc n) (c ∷ rest) s a h =
    at_handled-IsAbandoned f key i n rest s a.1 h

step-IsAbandoned :
    (kind : Kind) (key : Bytes) (i : ℕ) (e : Event) (s : UdpListener)
    → IsAbandoned key i s
    → IsAbandoned key i (step kind e s)
unfolding step
step-IsAbandoned kind key i (datagram now other packet) s h =
    on_datagram-IsAbandoned kind now key other packet i s h
step-IsAbandoned kind key i (taken_up now) s h =
    take_up-IsAbandoned kind now key i s.udp_chan s h.not_queued h
step-IsAbandoned kind key i (finished n) s h =
    finish_at-IsAbandoned kind key i n [] s.handled s tt h.not_handled h
step-IsAbandoned plain_udp key i (marked n) s h = h
step-IsAbandoned over_tcp key i (marked n) s h =
    at_handled-IsAbandoned congested key i n s.handled s h.not_handled h
step-IsAbandoned kind key i (read n) s h =
    at_handled-IsAbandoned copied key i n s.handled s h.not_handled h

pub run-IsAbandoned :
    (kind : Kind) (key : Bytes) (i : ℕ) (es : List Event) (s : UdpListener)
    → IsAbandoned key i s
    → IsAbandoned key i (run kind es s)
unfolding run
run-IsAbandoned kind key i [] s h = h
run-IsAbandoned kind key i (e ∷ es) s h =
    run-IsAbandoned kind key i es (step kind e s) (step-IsAbandoned kind key i e s h)
