-- ===== src/TcpMux/Sessions/Counts.antt =====
-- What the counters of tcpmux.go count.
use backhaul_plus.Prelude.{ℕ, ◌+◌, ◌%◌, ◌≤◌, ◌≡◌, List, [], ◌∷◌, length}
use backhaul_plus.TcpMux.Sessions.{
  Pipeline, Phase, for_slot, for_conn, ended, cancelled, stranded, putting_back, giving_up, Session,
}

-- A connection that the session's goroutine holds.
abbrev pub held : Phase → ℕ
held (putting_back entry) = 1
held (giving_up entry) = 1
held for_slot = 0
held for_conn = 0
held ended = 0
held cancelled = 0
held stranded = 0

-- A slot that the goroutine holds while it waits for a connection.
abbrev pub waiting : Phase → ℕ
waiting for_conn = 1
waiting (putting_back entry) = 1
waiting (giving_up entry) = 1
waiting for_slot = 0
waiting ended = 0
waiting cancelled = 0
waiting stranded = 0

abbrev pub counted_session : Phase → ℕ
counted_session (giving_up entry) = 0
counted_session ended = 0
counted_session for_slot = 1
counted_session for_conn = 1
counted_session cancelled = 1
counted_session stranded = 0
counted_session (putting_back entry) = 1

-- The connections that are carried or held, and the sessions that have not ended by an error.
abbrev pub streams : List Session → ℕ
streams [] = 0
streams (x ∷ xs) = x.handlers + held x.phase + streams xs

abbrev pub live : List Session → ℕ
live [] = 0
live (x ∷ xs) = counted_session x.phase + live xs

-- No session carries more than `MuxCon` connections.
abbrev pub Bounded : ℕ → List Session → Type 0
Bounded n [] = Unit
Bounded n (x ∷ xs) = ((x.handlers + waiting x.phase ≤ x.taken) × (x.taken ≤ n)) × Bounded n xs

abbrev pub two_32 : ℕ
two_32 = 4294967296

pub record Conserved (xs : List Session) (s : Pipeline) : Type 0 where
  pub stream_count : s.stream_counter % two_32 ≡ (length s.local_channel + streams xs) % two_32
  pub session_count : s.session_counter % two_32 ≡ live xs % two_32
  pub bounded : Bounded s.mux_con xs
  pub queue : length s.local_channel ≤ s.channel_size
