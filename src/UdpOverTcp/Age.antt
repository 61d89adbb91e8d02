-- ===== src/UdpOverTcp/Age.antt =====
-- accept_udp.go: the age of a packet, and what the times within ten minutes tell of it.
use backhaul_plus.Prelude.{
  ℕ, suc, ◌+◌, ◌*◌, ◌/◌, ◌%◌, ltb, ◌<◌, ◌≤◌, ◌≡◌, refl, Bool, false, ◌&&◌, ◌||◌, ◌==◌, List, [],
  ◌∷◌, arith,
}
use backhaul_plus.UdpOverTcp.Stamped.{Stamped, any_late}

-- Each packet is read less than ten minutes after it was sent, by clocks that agree.
abbrev pub AllPrompt : (ℕ → ℕ) → ℕ → List Stamped → Type 0
AllPrompt clock k [] = Unit
AllPrompt clock k ((sent_at, packet) ∷ rest) =
    (sent_at ≤ clock k) × (clock k < sent_at + 600000) × AllPrompt clock (suc k) rest

-- The packet is older than three round trips, and its time of sending and that of reading lie within the
-- same ten minutes of the clock.
abbrev pub is_old : ℕ → ℕ → ℕ → Bool
is_old rtt sent_at now = ltb (sent_at + 3 * rtt) now && (sent_at / 600000 == now / 600000)

abbrev pub any_old : ℕ → (ℕ → ℕ) → ℕ → List Stamped → Bool
any_old rtt clock k [] = false
any_old rtt clock k ((sent_at, packet) ∷ rest) =
    is_old rtt sent_at (clock k) || any_old rtt clock (suc k) rest

late-is_old :
    (rtt sent_at now : ℕ)
    → sent_at ≤ now
    → now < sent_at + 600000
    → ltb (sent_at % 600000 + 3 * rtt) (now % 600000) ≡ is_old rtt sent_at now
late-is_old rtt sent_at now l u = ground arith

pub any_late-any_old :
    (rtt : ℕ) (clock : ℕ → ℕ) (k : ℕ) (packets : List Stamped)
    → AllPrompt clock k packets
    → any_late rtt clock k packets ≡ any_old rtt clock k packets
any_late-any_old rtt clock k [] a = refl
any_late-any_old rtt clock k ((sent_at, packet) ∷ rest) a =
    rw (late-is_old rtt sent_at (clock k) a.0 a.1, any_late-any_old rtt clock (suc k) rest a.2) refl
