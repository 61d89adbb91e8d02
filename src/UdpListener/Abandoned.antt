-- ===== src/UdpListener/Abandoned.antt =====
-- A client of the UDP listeners whose datagrams go to a connection that nothing reads, and the datagrams that arrive.
use backhaul_plus.Prelude.{
  ℕ, zero, suc, ◌<◌, ◌≡◌, refl, sym, ap, ◌∙◌, Bool, false, List, [], ◌∷◌, ◌++◌, some, ◌==◌,
  if◌then◌else◌, length, length-append, All, Bool-cases, inl, inr, arith, Option, none, true,
  All-append,
}
use mathlib.Core.Path.{subst}
use backhaul_plus.Maps.{Map, lookup, insert, delete, lookup-insert, lookup-delete}
use backhaul_plus.Registry.{has_room}
use backhaul_plus.Strings.{Bytes, equal}
use backhaul_plus.UdpListener.{
  Kind, plain_udp, over_tcp, Cell, LocalUdpConn, UdpListener, pushed, change_at, is_congested_at,
  rejected, new_conn, by_entry, on_datagram,
}
use backhaul_plus.Strings.Search.{equal_iff}

-- Another client's connection, which is not the one of index `i`.
abbrev pub IsOther : Bytes → ℕ → LocalUdpConn → Type 0
IsOther key i c = (equal c.addr key ≡ false) × ((c.id == i) ≡ false)

-- The client's datagrams go to a connection that is neither queued nor handled, as is no other of the client.
pub record IsAbandoned (key : Bytes) (i : ℕ) (s : UdpListener) : Type 0 where
  pub entry : lookup key s.active_connections ≡ some i
  pub uncongested : is_congested_at i s.cells ≡ false
  pub exists : i < length s.cells
  pub not_queued : All (IsOther key i) s.udp_chan
  pub not_handled : All (IsOther key i) s.handled

pub length-change_at :
    (f : Cell → Cell) (i : ℕ) (cs : List Cell) → length (change_at f i cs) ≡ length cs
length-change_at f i [] = refl
length-change_at f zero (c ∷ cs) = refl
length-change_at f (suc i) (c ∷ cs) = ap suc (length-change_at f i cs)

congested-pushed :
    (packet : Bytes) (i j : ℕ) (cs : List Cell)
    → is_congested_at j (change_at (pushed packet) i cs) ≡ is_congested_at j cs
congested-pushed packet i j [] = refl
congested-pushed packet zero zero (c ∷ cs) =
    elim (Bool-cases (has_room 100000 (length c.payload))) [
      | inl room ↦
          ap
            (λ (b : Bool).
              (if b then record c { payload = c.payload ++ (packet ∷ []) } else c).is_congested)
            room
      | inr full ↦
          ap
            (λ (b : Bool).
              (if b then record c { payload = c.payload ++ (packet ∷ []) } else c).is_congested)
            full
    ]
congested-pushed packet zero (suc j) (c ∷ cs) = refl
congested-pushed packet (suc i) zero (c ∷ cs) = refl
congested-pushed packet (suc i) (suc j) (c ∷ cs) = congested-pushed packet i j cs

pub congested-elsewhere :
    (f : Cell → Cell) (i j : ℕ) (cs : List Cell)
    → (i == j) ≡ false
    → is_congested_at j (change_at f i cs) ≡ is_congested_at j cs
congested-elsewhere f i j [] h = refl
congested-elsewhere f zero zero (c ∷ cs) h = absurd (ground arith)
congested-elsewhere f zero (suc j) (c ∷ cs) h = refl
congested-elsewhere f (suc i) zero (c ∷ cs) h = refl
congested-elsewhere f (suc i) (suc j) (c ∷ cs) h = congested-elsewhere f i j cs (ground arith)

congested-append :
    (j : ℕ) (cs ds : List Cell)
    → j < length cs
    → is_congested_at j (cs ++ ds) ≡ is_congested_at j cs
congested-append j [] ds h = absurd (omega arith)
congested-append zero (c ∷ cs) ds h = refl
congested-append (suc j) (c ∷ cs) ds h = congested-append j cs ds (omega arith)

pub last_congested :
    (cs : List Cell) (c : Cell) → is_congested_at (length cs) (cs ++ (c ∷ [])) ≡ c.is_congested
last_congested [] c = refl
last_congested (d ∷ cs) c = last_congested cs c

-- Whichever branch is taken.
pub if-IsAbandoned :
    (key : Bytes) (i : ℕ) (b : Bool) (s s' : UdpListener)
    → IsAbandoned key i s
    → IsAbandoned key i s'
    → IsAbandoned key i (if b then s else s')
if-IsAbandoned key i true s s' h h' = h
if-IsAbandoned key i false s s' h h' = h'

pub with_cells-IsAbandoned :
    (key : Bytes) (i : ℕ) (s : UdpListener) (cs : List Cell) (m : Map ℕ)
    → IsAbandoned key i s
    → lookup key m ≡ some i
    → is_congested_at i cs ≡ false
    → i < length cs
    → IsAbandoned key i (record s { cells = cs; active_connections = m })
with_cells-IsAbandoned key i s cs m h e u x = record {
  entry = e;
  uncongested = u;
  exists = x;
  not_queued = h.not_queued;
  not_handled = h.not_handled;
}

pushed-IsAbandoned :
    (key : Bytes) (i j : ℕ) (packet : Bytes) (s : UdpListener)
    → IsAbandoned key i s
    → IsAbandoned key i (record s { cells = change_at (pushed packet) j s.cells })
pushed-IsAbandoned key i j packet s h =
    with_cells-IsAbandoned key i s (change_at (pushed packet) j s.cells) s.active_connections h
      h.entry (congested-pushed packet j i s.cells ∙ h.uncongested)
      (subst (λ n. i < n) (sym (length-change_at (pushed packet) j s.cells)) h.exists)

-- A new connection of another client, before it is queued.
stored-IsAbandoned :
    (key other : Bytes) (i : ℕ) (c : Cell) (s : UdpListener)
    → equal other key ≡ false
    → IsAbandoned key i s
    → IsAbandoned key i (record s {
      cells = s.cells ++ (c ∷ []);
      active_connections = insert other (length s.cells) s.active_connections;
    })
stored-IsAbandoned key other i c s ne h =
    with_cells-IsAbandoned key i s (s.cells ++ (c ∷ []))
      (insert other (length s.cells) s.active_connections) h
      (lookup-insert other key (length s.cells) s.active_connections
        ∙ ap (λ (b : Bool). if b then some (length s.cells) else lookup key s.active_connections) ne
        ∙ h.entry)
      (congested-append i s.cells (c ∷ []) h.exists ∙ h.uncongested)
      (let n = length-append s.cells (c ∷ []) in let x = h.exists in omega arith)

queued-IsAbandoned :
    (key : Bytes) (i n : ℕ) (c : LocalUdpConn) (s : UdpListener)
    → IsOther key i c
    → IsAbandoned key i s
    → IsAbandoned key i (record s { udp_chan = s.udp_chan ++ (c ∷ []); req_new_conn_chan = n })
queued-IsAbandoned key i n c s o h = record {
  entry = h.entry;
  uncongested = h.uncongested;
  exists = h.exists;
  not_queued = All-append (IsOther key i) s.udp_chan (c ∷ []) h.not_queued (o, tt);
  not_handled = h.not_handled;
}

pub deleted_key-IsAbandoned :
    (key other : Bytes) (i : ℕ) (s : UdpListener)
    → equal other key ≡ false
    → IsAbandoned key i s
    → IsAbandoned key i (record s { active_connections = delete other s.active_connections })
deleted_key-IsAbandoned key other i s ne h =
    with_cells-IsAbandoned key i s s.cells (delete other s.active_connections) h
      (lookup-delete other key s.active_connections ne ∙ h.entry) h.uncongested h.exists

rejected-IsAbandoned :
    (kind : Kind) (key other : Bytes) (i : ℕ) (s : UdpListener)
    → equal other key ≡ false
    → IsAbandoned key i s
    → IsAbandoned key i (rejected kind other s)
rejected-IsAbandoned plain_udp key other i s ne h = deleted_key-IsAbandoned key other i s ne h
rejected-IsAbandoned over_tcp key other i s ne h = h

new_conn-IsAbandoned :
    (kind : Kind) (now : ℕ) (key other packet : Bytes) (i : ℕ) (s : UdpListener)
    → equal other key ≡ false
    → IsAbandoned key i s
    → IsAbandoned key i (new_conn kind now other packet s)
unfolding new_conn
new_conn-IsAbandoned kind now key other packet i s ne h =
    let id = length s.cells in
    let cell : Cell = record { payload = []; is_congested = false } in
    let stored = stored-IsAbandoned key other i cell s ne h in
    let s1 : UdpListener = record s {
      cells = s.cells ++ (cell ∷ []);
      active_connections = insert other id s.active_connections;
    } in
    let apart : (id == i) ≡ false = (let x = h.exists in ground arith) in
    if-IsAbandoned key i (has_room s.channel_size (length s.udp_chan)) _ (rejected kind other s1)
      (queued-IsAbandoned key i _ (record { id = id; addr = other; time_created = now })
        (record s1 { cells = change_at (pushed packet) id s1.cells }) (ne, apart)
        (pushed-IsAbandoned key i id packet s1 stored))
      (rejected-IsAbandoned kind key other i s1 ne stored)

by_entry-IsAbandoned :
    (kind : Kind) (now : ℕ) (key other packet : Bytes) (i : ℕ) (s : UdpListener) (e : Option ℕ)
    → equal other key ≡ false
    → IsAbandoned key i s
    → IsAbandoned key i (by_entry kind now other packet s e)
unfolding by_entry
by_entry-IsAbandoned kind now key other packet i s none ne h =
    new_conn-IsAbandoned kind now key other packet i s ne h
by_entry-IsAbandoned plain_udp now key other packet i s (some j) ne h =
    pushed-IsAbandoned key i j packet s h
by_entry-IsAbandoned over_tcp now key other packet i s (some j) ne h =
    if-IsAbandoned key i (is_congested_at j s.cells) (new_conn over_tcp now other packet s)
      (record s { cells = change_at (pushed packet) j s.cells })
      (new_conn-IsAbandoned over_tcp now key other packet i s ne h)
      (pushed-IsAbandoned key i j packet s h)

-- The datagrams of the client itself go to its entry.
own_entry-IsAbandoned :
    (kind : Kind) (now : ℕ) (key packet : Bytes) (i : ℕ) (s : UdpListener)
    → IsAbandoned key i s
    → IsAbandoned key i (by_entry kind now key packet s (some i))
unfolding by_entry
own_entry-IsAbandoned plain_udp now key packet i s h = pushed-IsAbandoned key i i packet s h
own_entry-IsAbandoned over_tcp now key packet i s h =
    subst
      (λ (b : Bool). IsAbandoned key i (
        if b
        then new_conn over_tcp now key packet s
        else record s { cells = change_at (pushed packet) i s.cells }))
      (sym h.uncongested) (pushed-IsAbandoned key i i packet s h)

pub on_datagram-IsAbandoned :
    (kind : Kind) (now : ℕ) (key other packet : Bytes) (i : ℕ) (s : UdpListener)
    → IsAbandoned key i s
    → IsAbandoned key i (on_datagram kind now other packet s)
unfolding on_datagram
on_datagram-IsAbandoned kind now key other packet i s h = elim (Bool-cases (equal other key)) [
  | inl same ↦
      subst (λ k. IsAbandoned key i (by_entry kind now k packet s (lookup k s.active_connections)))
        (sym ((equal_iff other key).0 same))
        (subst (λ e. IsAbandoned key i (by_entry kind now key packet s e)) (sym h.entry)
          (own_entry-IsAbandoned kind now key packet i s h))
  | inr ne ↦
      by_entry-IsAbandoned kind now key other packet i s (lookup other s.active_connections) ne h
]
