-- ===== src/Transfer/Complete.antt =====
-- What `transferData` has copied when it ends.
use backhaul_plus.Prelude.{
  two_64, ℕ, zero, suc, ◌+◌, ◌%◌, ◌<◌, ◌≡◌, refl, sym, ap, ◌∙◌, Bool, true, false, [], ◌∷◌, ◌++◌,
  Option, none, some, ℤ, pos, negsuc, ◌==◌, if◌then◌else◌, length, length-append, append_assoc,
  append-nil, Option-cases, inl, inr, arith,
}
use backhaul_plus.Prefixed
use backhaul_plus.Prefixed.{NetConn, plain, prefixed, embedded, unread, close}
use backhaul_plus.Prefixed.Fuel.{reads_left, read-reads_left}
use backhaul_plus.Prefixed.Replay.{IsHeld, read-unread, read-IsHeld, read-end_of_unread}
use backhaul_plus.Stream
use backhaul_plus.Stream.{Conn, IoError}
use backhaul_plus.Strings.{Bytes}
use backhaul_plus.Transfer.{
  Link, write_all, both_closed, copy_buffer_size, chunk_written, chunk_read, transfer_loop,
  transfer_data,
}
use backhaul_plus.UdpOverTcp.{counted}
use backhaul_plus.Usage.{UsageMap}
use backhaul_plus.Usage.Totals.{usage_at, usage_at-add_or_update_port}

-- The traffic that is counted of `n` bytes.
abbrev pub counts : Bool → ℕ → ℕ
counts sniffer n = if sniffer then n else 0

-- All that was still to be read is written, and counted; both connections are closed.
pub record Copied (sniffer : Bool) (port : ℕ) (l l' : Link) : Type 0 where
  pub written : (embedded l'.to).written ≡ (embedded l.to).written ++ unread l.from
  pub from_closed : (embedded l'.from).closed ≡ true
  pub to_closed : (embedded l'.to).closed ≡ true
  pub counted_all :
      usage_at port l'.usage % two_64
      ≡ (usage_at port l.usage + counts sniffer (length (unread l.from))) % two_64

close-closed : (n : NetConn) → (embedded (close n)).closed ≡ true
close-closed (plain c) = refl
close-closed (prefixed p) = refl

close-written : (n : NetConn) → (embedded (close n)).written ≡ (embedded n).written
close-written (plain c) = refl
close-written (prefixed p) = refl

usage_at-counted :
    (sniffer : Bool) (port n : ℕ) (m : UsageMap)
    → usage_at port (counted sniffer port n m) % two_64
      ≡ (usage_at port m + counts sniffer n) % two_64
usage_at-counted true port n m =
    let added = usage_at-add_or_update_port port port n m in ground (arith, added)
usage_at-counted false port n m = omega arith

-- Bytes are written whole to a connection whose writes succeed.
write_all_lem :
    (bytes : Bytes) (to : NetConn)
    → (embedded to).write_error ≡ none
    → (to' : NetConn) × (write_all bytes to ≡ (none, to'))
      × ((embedded to').written ≡ (embedded to).written ++ bytes)
      × ((embedded to').write_error ≡ none)
unfolding Stream.write
write_all_lem [] to h = (to, refl, sym (append-nil (embedded to).written), h)
write_all_lem (b ∷ bytes) (plain c) h =
    let some_bytes : (suc (length bytes) == 0) ≡ false = ground arith in
    (plain (record c { written = c.written ++ (b ∷ bytes) }), rw (some_bytes, h) refl, refl, h)
write_all_lem (b ∷ bytes) (prefixed p) h =
    let some_bytes : (suc (length bytes) == 0) ≡ false = ground arith in
    let c : Conn = record p.conn { written = p.conn.written ++ (b ∷ bytes) } in
    (prefixed (record p { conn = c }), rw (some_bytes, h) refl, refl, h)

-- A chunk in front of what the rest of the loop copies.
one_chunk :
    (sniffer : Bool) (port : ℕ) (bytes : Bytes) (l next l' : Link)
    → bytes ++ unread next.from ≡ unread l.from
    → (embedded next.to).written ≡ (embedded l.to).written ++ bytes
    → next.usage ≡ counted sniffer port (length bytes) l.usage
    → Copied sniffer port next l'
    → Copied sniffer port l l'
one_chunk sniffer port bytes l next l' joined more usage c = record {
  written =
      c.written
      ∙ ap (λ (t : Bytes). t ++ unread next.from) more
      ∙ append_assoc (embedded l.to).written bytes (unread next.from)
      ∙ ap (λ (t : Bytes). (embedded l.to).written ++ t) joined;
  from_closed = c.from_closed;
  to_closed = c.to_closed;
  counted_all =
      let rest = c.counted_all in
      let first = ap (usage_at port) usage in
      let step = usage_at-counted sniffer port (length bytes) l.usage in
      let sizes = sym (length-append bytes (unread next.from)) ∙ ap length joined in
      add_up sniffer (length bytes) (length (unread next.from)) (length (unread l.from)) sizes
        (usage_at port l.usage) (usage_at port next.usage) (usage_at port l'.usage)
        (ap (λ (n : ℕ). n % two_64) first ∙ step) rest;
}
  where
    add_up :
        (b : Bool) (n k t : ℕ)
        → n + k ≡ t
        → (u v w : ℕ) → v % two_64 ≡ (u + counts b n) % two_64
        → w % two_64 ≡ (v + counts b k) % two_64
        → w % two_64 ≡ (u + counts b t) % two_64
    add_up true n k t e u v w p q = omega arith
    add_up false n k t e u v w p q = omega arith

module _ (sniffer : Bool) (port size : ℕ) (pos : 0 < size) where
  -- A round of the loop, whose further rounds are `next`.
  chunk_read-Copied :
      (next : Link → Option Link) (l : Link) (bytes : Bytes) (from : NetConn)
      → bytes ++ unread from ≡ unread l.from
      → (embedded l.to).write_error ≡ none
      → ((to : NetConn) (m : UsageMap)
          → (embedded to).write_error ≡ none
          → (l' : Link) × (next (record { from = from; to = to; usage = m }) ≡ some l')
            × Copied sniffer port (record { from = from; to = to; usage = m }) l')
      → (l' : Link) × (chunk_read sniffer port size next l (bytes, none, from) ≡ some l')
        × Copied sniffer port l l'
  unfolding chunk_read chunk_written
  chunk_read-Copied next l bytes from joined works ih =
      let (to, e, more, still) = write_all_lem bytes l.to works in
      let m : UsageMap = counted sniffer port (length bytes) l.usage in
      let (l', done, c) = ih to m still in
      (
        l',
        ap (chunk_written sniffer port size next (length bytes) (record l { from = from })) e
            ∙ done,
        one_chunk sniffer port bytes l (record { from = from; to = to; usage = m }) l' joined more
            refl c,
      )

  ended :
      (next : Link → Option Link) (l : Link) (bytes : Bytes) (e : IoError) (from : NetConn)
      → unread l.from ≡ []
      → (l' : Link) × (chunk_read sniffer port size next l (bytes, some e, from) ≡ some l')
        × Copied sniffer port l l'
  unfolding chunk_read
  ended next l bytes e from none_left = (
    both_closed (record l { from = from }),
    refl,
    record {
      written =
          close-written l.to
          ∙ sym (append-nil (embedded l.to).written)
          ∙ ap (λ (t : Bytes). (embedded l.to).written ++ t) (sym none_left);
      from_closed = close-closed from;
      to_closed = close-closed l.to;
      counted_all =
          ap (λ (n : ℕ). n % two_64) (nothing sniffer)
          ∙ ap (λ (t : Bytes). (usage_at port l.usage + counts sniffer (length t)) % two_64)
              (sym none_left);
    },
  )
    where
      nothing : (b : Bool) → usage_at port l.usage ≡ usage_at port l.usage + counts b 0
      nothing true = omega arith
      nothing false = omega arith

  loop-Copied :
      (fuel : ℕ) (l : Link)
      → IsHeld l.from
      → (embedded l.to).write_error ≡ none
      → reads_left l.from < fuel
      → (l' : Link) × (transfer_loop sniffer port size fuel l ≡ some l') × Copied sniffer port l l'
  unfolding transfer_loop
  loop-Copied zero l held works enough = absurd (omega arith)
  loop-Copied (suc fuel) l held works enough = elim (Option-cases (Prefixed.read size l.from).1) [
    | inl read_on ↦
        let less = read-reads_left size l.from pos held read_on in
        let (l', e, c) =
          chunk_read-Copied (transfer_loop sniffer port size fuel) l (Prefixed.read size l.from).0
            (Prefixed.read size l.from).2 (read-unread size l.from) works
            (λ to m still.
              loop-Copied fuel (record { from = (Prefixed.read size l.from).2; to = to; usage = m })
                (read-IsHeld size l.from held) still (omega arith)) in
        (l', result (Prefixed.read size l.from) read_on ∙ e, c)
    | inr (x, at_end) ↦
        let (l', e, c) =
          ended (transfer_loop sniffer port size fuel) l (Prefixed.read size l.from).0 x
            (Prefixed.read size l.from).2 (read-end_of_unread size l.from held at_end) in
        (l', result (Prefixed.read size l.from) at_end ∙ e, c)
  ]
    where
      result :
          (r : Bytes × Option IoError × NetConn) {o : Option IoError}
          → r.1 ≡ o
          → chunk_read sniffer port size (transfer_loop sniffer port size fuel) l r
            ≡ chunk_read sniffer port size (transfer_loop sniffer port size fuel) l (r.0, o, r.2)
      result r h =
          ap
            (λ (o : Option IoError).
              chunk_read sniffer port size (transfer_loop sniffer port size fuel) l (r.0, o, r.2))
            h

-- From a connection to one whose writes succeed, whatever the size of the buffer: the copy comes to an
-- end when nothing is left to read. It has then written every byte that was to be read, those in front of
-- a wrapped connection first, has counted each on 64 bits if the sniffer is on, and has closed both.
pub transfer_data-Copied :
    (sniffer : Bool) (port : ℕ) (size : ℤ) (fuel : ℕ) (l : Link)
    → IsHeld l.from
    → (embedded l.to).write_error ≡ none
    → reads_left l.from < fuel
    → (l' : Link) × (transfer_data sniffer port size fuel l ≡ some l') × Copied sniffer port l l'
unfolding transfer_data
transfer_data-Copied sniffer port size fuel l held works enough =
    loop-Copied sniffer port (copy_buffer_size size) (some_room size) fuel l held works enough
  where
    some_room : (size : ℤ) → 0 < copy_buffer_size size
    some_room (pos zero) = omega arith
    some_room (pos (suc n)) = omega arith
    some_room (negsuc n) = omega arith
