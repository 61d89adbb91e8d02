-- ===== src/TcpMux/Sessions/Balance.antt =====
-- `streamCounter`, `sessionCounter` and `counter` of tcpmux.go under one step of a session.
use backhaul_plus.Prelude.{
  ℕ, ◌+◌, ◌%◌, ◌≤◌, ◌≡◌, List, [], ◌∷◌, length, Bool, if◌then◌else◌, some, none, true, false, ltb,
  ◌==◌, refl, length-append, ◌<◌, arith, Option, ◌-◌, suc, Bool-cases, ap, inl, inr,
}
use backhaul_plus.TcpMux.Sessions.{
  Pipeline, Phase, for_slot, for_conn, ended, cancelled, stranded, putting_back, giving_up, Session,
  session_step, acquired, LocalTcpConn, done_handler, put_back, has_room, carry, receive, Action,
  decremented, Opened, received, is_stale, open_failed, send_failed, carried, context_done,
}
use mathlib.Core.Path.{subst}
use mathlib.Core.Path.{subst}
use backhaul_plus.TcpMux.Sessions.Counts.{held, waiting, counted_session, two_32}

-- What a step of one session keeps.
pub record Balanced (x : Session) (s : Pipeline) (x' : Session) (s' : Pipeline) : Type 0 where
  pub stream_change :
      (s'.stream_counter + (length s.local_channel + (x.handlers + held x.phase))) % two_32
      ≡ (s.stream_counter + (length s'.local_channel + (x'.handlers + held x'.phase))) % two_32
  pub session_change :
      (s'.session_counter + counted_session x.phase) % two_32
      ≡ (s.session_counter + counted_session x'.phase) % two_32
  pub within : (x'.handlers + waiting x'.phase ≤ x'.taken) × (x'.taken ≤ s.mux_con)
  pub queue : length s'.local_channel ≤ s.channel_size
  pub same_mux : s'.mux_con ≡ s.mux_con
  pub same_size : s'.channel_size ≡ s.channel_size

pub some-injective {ℓ} : {A : Type ℓ} {u r : A} → ◌≡◌ {A = Option A} (some u) (some r) → u ≡ r
some-injective h = cc

if-some {ℓ} :
    {A : Type ℓ} (b : Bool) {u r : A} → (if b then some u else none) ≡ some r → (b ≡ true) × (u ≡ r)
if-some true h = (refl, cc)
if-some false h = cc

pub if_not-some {ℓ} :
    {A : Type ℓ} (b : Bool) {u r : A}
    → (if b then none else some u) ≡ some r
    → (b ≡ false) × (u ≡ r)
if_not-some true h = cc
if_not-some false h = (refl, cc)

module _ (taken handlers : ℕ) (s : Pipeline) where
  -- A session with these numbers.
  abbrev pub at_phase : Phase → Session
  at_phase p = record { phase = p; taken = taken; handlers = handlers }

  -- What is assumed of it in front of a step.
  abbrev pub Fit : Phase → Type 0
  Fit p =
      (handlers + waiting p ≤ taken)
      × (taken ≤ s.mux_con)
      × (length s.local_channel ≤ s.channel_size)

  abbrev pub After : Phase → Session × Pipeline → Type 0
  After p r = Balanced (at_phase p) s r.0 r.1

  acquired-Balanced :
      {r : Session × Pipeline}
      → session_step acquired for_slot (at_phase for_slot) s ≡ some r
      → Fit for_slot
      → After for_slot r
  unfolding session_step
  acquired-Balanced h (f, u, q) =
      let (room, e) = if-some (ltb taken s.mux_con) h in
      subst (After for_slot) e (record {
        stream_change = refl;
        session_change = refl;
        within = (omega arith, ground arith);
        queue = q;
        same_mux = refl;
        same_size = refl;
      })

  put_back-Balanced :
      (entry : LocalTcpConn) {r : Session × Pipeline}
      → session_step put_back (putting_back entry) (at_phase (putting_back entry)) s ≡ some r
      → Fit (putting_back entry)
      → After (putting_back entry) r
  unfolding session_step
  put_back-Balanced entry h (f, u, q) =
      let (room, e) = if-some (has_room s.channel_size (length s.local_channel)) h in
      let l = length-append s.local_channel (entry ∷ []) in
      subst (After (putting_back entry)) e (record {
        stream_change = omega arith;
        session_change = refl;
        within = (omega arith, u);
        queue = ground arith;
        same_mux = refl;
        same_size = refl;
      })

  gave_up-Balanced :
      (entry : LocalTcpConn) {r : Session × Pipeline}
      → session_step put_back (giving_up entry) (at_phase (giving_up entry)) s ≡ some r
      → Fit (giving_up entry)
      → After (giving_up entry) r
  unfolding session_step
  gave_up-Balanced entry h (f, u, q) =
      let (room, e) = if-some (has_room s.channel_size (length s.local_channel)) h in
      let l = length-append s.local_channel (entry ∷ []) in
      subst (After (giving_up entry)) e (record {
        stream_change = omega arith;
        session_change = refl;
        within = (omega arith, u);
        queue = ground arith;
        same_mux = refl;
        same_size = refl;
      })

  done_handler-Balanced :
      (p : Phase) {r : Session × Pipeline}
      → session_step done_handler p (at_phase p) s ≡ some r
      → Fit p
      → After p r
  unfolding session_step
  done_handler-Balanced p h (f, u, q) =
      let (busy, e) = if_not-some (handlers == 0) h in
      let some_handler : 0 < handlers = ground arith in
      subst (After p) e (record {
        stream_change = omega arith;
        session_change = refl;
        within = (omega arith, omega arith);
        queue = q;
        same_mux = refl;
        same_size = refl;
      })

  stale-Balanced :
      (entry : LocalTcpConn) (rest : List LocalTcpConn)
      → s.local_channel ≡ entry ∷ rest
      → Fit for_conn
      → After for_conn (
        record (at_phase for_slot) { taken = taken - 1 },
        record s { local_channel = rest; stream_counter = decremented s.stream_counter },
      )
  stale-Balanced entry rest l (f, u, q) =
      let n : length s.local_channel ≡ suc (length rest) = ap length l in
      record {
        stream_change = omega arith;
        session_change = refl;
        within = (omega arith, omega arith);
        queue = omega arith;
        same_mux = refl;
        same_size = refl;
      }

  carry-Balanced :
      (opened : Opened) (entry : LocalTcpConn) (rest : List LocalTcpConn)
      → s.local_channel ≡ entry ∷ rest
      → Fit for_conn
      → After for_conn (carry opened entry (at_phase for_conn) (record s { local_channel = rest }))
  unfolding carry
  carry-Balanced open_failed entry rest l (f, u, q) =
      let n : length s.local_channel ≡ suc (length rest) = ap length l in
      record {
        stream_change = omega arith;
        session_change = omega arith;
        within = (omega arith, u);
        queue = omega arith;
        same_mux = refl;
        same_size = refl;
      }
  carry-Balanced send_failed entry rest l (f, u, q) =
      let n : length s.local_channel ≡ suc (length rest) = ap length l in
      record {
        stream_change = omega arith;
        session_change = refl;
        within = (omega arith, u);
        queue = omega arith;
        same_mux = refl;
        same_size = refl;
      }
  carry-Balanced carried entry rest l (f, u, q) =
      let n : length s.local_channel ≡ suc (length rest) = ap length l in
      record {
        stream_change = omega arith;
        session_change = refl;
        within = (omega arith, u);
        queue = omega arith;
        same_mux = refl;
        same_size = refl;
      }

  receive-Balanced :
      (now : ℕ) (opened : Opened) (queue : List LocalTcpConn) {r : Session × Pipeline}
      → s.local_channel ≡ queue
      → receive now opened queue (at_phase for_conn) s ≡ some r
      → Fit for_conn
      → After for_conn r
  unfolding receive
  receive-Balanced now opened [] l h f = cc
  receive-Balanced now opened (entry ∷ rest) {r} l h f = elim (Bool-cases (is_stale now entry)) [
    | inl stale ↦
        let e = rw stale at h in
        subst (After for_conn) (some-injective e) (stale-Balanced entry rest l f)
    | inr fresh ↦
        let e = rw fresh at h in
        subst (After for_conn) (some-injective e) (carry-Balanced opened entry rest l f)
  ]

  cancelled-Balanced : Fit for_conn → After for_conn (at_phase cancelled, s)
  cancelled-Balanced (f, u, q) = record {
    stream_change = refl;
    session_change = refl;
    within = (omega arith, u);
    queue = q;
    same_mux = refl;
    same_size = refl;
  }

  -- A step of a session that holds its bounds.
  pub session_step-Balanced :
      (a : Action) (p : Phase) {r : Session × Pipeline}
      → session_step a p (at_phase p) s ≡ some r
      → Fit p
      → After p r
  unfolding session_step
  session_step-Balanced acquired for_slot h f = acquired-Balanced h f
  session_step-Balanced (received now opened) for_conn h f =
      receive-Balanced now opened s.local_channel refl h f
  session_step-Balanced context_done for_conn h f =
      subst (After for_conn) (some-injective h) (cancelled-Balanced f)
  session_step-Balanced put_back (putting_back entry) h f = put_back-Balanced entry h f
  session_step-Balanced put_back (giving_up entry) h f = gave_up-Balanced entry h f
  session_step-Balanced done_handler p h f = done_handler-Balanced p h f
  session_step-Balanced acquired for_conn h f = cc
  session_step-Balanced acquired ended h f = cc
  session_step-Balanced acquired cancelled h f = cc
  session_step-Balanced acquired stranded h f = cc
  session_step-Balanced acquired (putting_back entry) h f = cc
  session_step-Balanced acquired (giving_up entry) h f = cc
  session_step-Balanced (received now opened) for_slot h f = cc
  session_step-Balanced (received now opened) ended h f = cc
  session_step-Balanced (received now opened) cancelled h f = cc
  session_step-Balanced (received now opened) stranded h f = cc
  session_step-Balanced (received now opened) (putting_back entry) h f = cc
  session_step-Balanced (received now opened) (giving_up entry) h f = cc
  session_step-Balanced context_done for_slot h f = cc
  session_step-Balanced context_done ended h f = cc
  session_step-Balanced context_done cancelled h f = cc
  session_step-Balanced context_done stranded h f = cc
  session_step-Balanced context_done (putting_back entry) h f = cc
  session_step-Balanced context_done (giving_up entry) h f = cc
  session_step-Balanced put_back for_slot h f = cc
  session_step-Balanced put_back for_conn h f = cc
  session_step-Balanced put_back ended h f = cc
  session_step-Balanced put_back cancelled h f = cc
  session_step-Balanced put_back stranded h f = cc
