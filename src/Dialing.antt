-- ===== src/Dialing.antt =====
-- internal/client/transport/shared.go: `TcpDialer`, its retries and the waits between them. The attempt
-- itself is the system's.
pub mod Backoff
use backhaul_plus.Prelude.{
  two_64, ◌%◌, ℕ, zero, suc, ◌+◌, ◌*◌, ◌-◌, List, [], ◌∷◌, Option, none, some, ◌==◌, if◌then◌else◌,
}

-- An attempt connects or fails with an error.
pub data Attempt {ℓ κ} (C : Type ℓ) (E : Type κ) : Type (ℓ ⊔ κ) where
  connected : C → Attempt C E
  failed : E → Attempt C E

-- `1 * time.Second`, in nanoseconds. A `time.Duration` is signed; it is written here by its 64 bits, so
-- from 2 ^ 63 on it is negative.
abbrev pub second_ns : ℕ
second_ns = 1000000000

-- `tcpConn` and `err`, and the durations that it slept. With no retry at all Go returns nil for both.
pub record Dialed {ℓ κ} (C : Type ℓ) (E : Type κ) : Type (ℓ ⊔ κ) where
  pub tcp_conn : Option C
  pub err : Option E
  pub slept : List ℕ

module _ {ℓ κ} {C : Type ℓ} {E : Type κ} (attempt : ℕ → Attempt C E) where
  abbrev pub after_sleep : ℕ → Dialed C E → Dialed C E
  after_sleep backoff d = record d { slept = backoff ∷ d.slept }

  abbrev pub attempted : ℕ → ℕ → ℕ → Dialed C E → Attempt C E → Dialed C E
  attempted retries i backoff again (connected c) = record {
    tcp_conn = some c;
    err = none;
    slept = [];
  }
  attempted retries i backoff again (failed e) =
      if i == retries - 1
      then record { tcp_conn = none; err = some e; slept = [] }
      else after_sleep backoff again

  -- `for i := 0; i < retries; i++`, with `left` passes to go.
  unfoldable pub dial_loop : ℕ → ℕ → ℕ → ℕ → Dialed C E
  dial_loop retries zero i backoff = record { tcp_conn = none; err = none; slept = [] }
  dial_loop retries (suc left) i backoff =
      attempted retries i backoff (dial_loop retries left (suc i) (backoff * 2 % two_64))
        (attempt i)

  -- `TcpDialer`
  unfoldable pub tcp_dialer : ℕ → Dialed C E
  unfolding dial_loop
  tcp_dialer retry = dial_loop retry retry 0 second_ns
