-- ===== src/Ws/Tunnel/Ordered.antt =====
-- What goes out on a WebSocket tunnel connection, and in which order.
use backhaul_plus.Prelude.{
  ℕ, zero, suc, ◌≡◌, refl, sym, ap, ◌∙◌, Bool, true, false, ◌&&◌, ◌||◌, List, [], ◌∷◌, ◌++◌,
  append_assoc, map, arith, if_cases, if_both, append-nil, if◌then◌else◌,
}
use mathlib.Core.Path.{subst}
use backhaul_plus.Strings.{Bytes}
use backhaul_plus.Ws.{Message, text, binary, ping_message}
use backhaul_plus.Ws.Tunnel.{
  Keeper, selecting, pinging, giving_up, stopped, HandOver, offered, unpinged, locking, copying,
  failed, Tunnel, fresh_tunnel, on_tick, on_ping, on_given_up, on_ping_closed, on_done, on_taken,
  on_lock, on_announce, on_chunk, Event, ticked, gave_up, saw_ping_closed, done, taken, locked,
  pinged, announced, chunk, step, run,
}

-- The bytes of the chunks whose write succeeded, behind `acc`.
abbrev pub on_accepted : Bytes → Bool → HandOver → Tunnel → Bytes → Bytes
on_accepted bytes ok copying t acc = if ok && t.is_open then acc ++ bytes else acc
on_accepted bytes ok h t acc = acc

abbrev pub accepted : Event → Tunnel → Bytes → Bytes
accepted (chunk bytes ok) t acc = on_accepted bytes ok t.handing t acc
accepted e t acc = acc

unfoldable pub all_accepted : Bytes → List Event → Tunnel → Bytes → Bytes
unfolding step
all_accepted remote_addr [] t acc = acc
all_accepted remote_addr (e ∷ es) t acc =
    all_accepted remote_addr es (step remote_addr e t) (accepted e t acc)

abbrev pub pings : ℕ → List Message
pings zero = []
pings (suc n) = ping_message ∷ pings n

-- Which of the two goroutines holds the mutex.
abbrev pub keeper_holds : Keeper → Bool
keeper_holds pinging = true
keeper_holds selecting = false
keeper_holds giving_up = false
keeper_holds stopped = false

abbrev pub loop_holds : HandOver → Bool
loop_holds offered = false
loop_holds unpinged = false
loop_holds locking = true
loop_holds copying = true
loop_holds failed = true

abbrev pub joined : List Bytes → Bytes
joined [] = []
joined (c ∷ chunks) = c ++ joined chunks

-- Pings, and then, if the connection is copied to, the announcement and chunks of the bytes `acc`.
abbrev pub InOrder : Bytes → HandOver → Bytes → List Message → Type 0
InOrder remote_addr copying acc sent =
    (n : ℕ) × (chunks : List Bytes) × (sent ≡ pings n ++ (text remote_addr ∷ map binary chunks))
    × (joined chunks ≡ acc)
InOrder remote_addr offered acc sent = (n : ℕ) × (sent ≡ pings n) × (acc ≡ [])
InOrder remote_addr unpinged acc sent = (n : ℕ) × (sent ≡ pings n) × (acc ≡ [])
InOrder remote_addr locking acc sent = (n : ℕ) × (sent ≡ pings n) × (acc ≡ [])
InOrder remote_addr failed acc sent = (n : ℕ) × (sent ≡ pings n) × (acc ≡ [])

-- The mutex is held by one goroutine at most, and is free if by none.
pub record IsSound (remote_addr acc : Bytes) (t : Tunnel) : Type 0 where
  pub held : t.mu ≡ keeper_holds t.keeper || loop_holds t.handing
  pub exclusive : (keeper_holds t.keeper && loop_holds t.handing) ≡ false
  pub in_order : InOrder remote_addr t.handing acc t.sent

pub fresh_tunnel-IsSound : (remote_addr : Bytes) → IsSound remote_addr [] fresh_tunnel
fresh_tunnel-IsSound remote_addr = record {
  held = refl;
  exclusive = refl;
  in_order = (0, refl, refl);
}

pings-append : (n : ℕ) → pings n ++ (ping_message ∷ []) ≡ pings (suc n)
pings-append zero = refl
pings-append (suc n) = ap (◌∷◌ ping_message) (pings-append n)

map-append_one :
    (chunks : List Bytes) (c : Bytes)
    → map binary chunks ++ (binary c ∷ []) ≡ map binary (chunks ++ (c ∷ []))
map-append_one [] c = refl
map-append_one (d ∷ chunks) c = ap (◌∷◌ (binary d)) (map-append_one chunks c)

-- A ping more, while the loop does not hold the mutex.
InOrder-ping :
    (remote_addr acc : Bytes) (h : HandOver) (sent : List Message)
    → loop_holds h ≡ false
    → InOrder remote_addr h acc sent
    → InOrder remote_addr h acc (sent ++ (ping_message ∷ []))
InOrder-ping remote_addr acc offered sent free (n, e, none_yet) =
    (suc n, ap (λ s. s ++ (ping_message ∷ [])) e ∙ pings-append n, none_yet)
InOrder-ping remote_addr acc unpinged sent free (n, e, none_yet) =
    (suc n, ap (λ s. s ++ (ping_message ∷ [])) e ∙ pings-append n, none_yet)
InOrder-ping remote_addr acc locking sent free o = cc
InOrder-ping remote_addr acc copying sent free o = cc
InOrder-ping remote_addr acc failed sent free o = cc

joined-append_one :
    (chunks : List Bytes) (c : Bytes) → joined (chunks ++ (c ∷ [])) ≡ joined chunks ++ c
joined-append_one [] c = append-nil c
joined-append_one (d ∷ chunks) c =
    ap (λ s. d ++ s) (joined-append_one chunks c) ∙ sym (append_assoc d (joined chunks) c)

InOrder-chunk :
    (remote_addr acc bytes : Bytes) (sent : List Message)
    → InOrder remote_addr copying acc sent
    → InOrder remote_addr copying (acc ++ bytes) (sent ++ (binary bytes ∷ []))
InOrder-chunk remote_addr acc bytes sent (n, chunks, e, j) = (
  n,
  chunks ++ (bytes ∷ []),
  ap (λ s. s ++ (binary bytes ∷ [])) e
      ∙ (append_assoc (pings n) (text remote_addr ∷ map binary chunks) (binary bytes ∷ [])
          ∙ ap (λ s. pings n ++ (text remote_addr ∷ s)) (map-append_one chunks bytes)),
  joined-append_one chunks bytes ∙ ap (λ s. s ++ bytes) j,
)

module _ (remote_addr : Bytes) where
  tick-IsSound :
      (acc : Bytes) (k : Keeper) (t : Tunnel)
      → t.keeper ≡ k
      → IsSound remote_addr acc t
      → IsSound remote_addr acc (on_tick k t)
  tick-IsSound acc selecting t e s =
      if_cases (IsSound remote_addr acc) t.mu
        (λ busy. record { held = ground arith; exclusive = refl; in_order = s.in_order })
        (λ free. record { held = refl; exclusive = ground arith; in_order = s.in_order })
  tick-IsSound acc pinging t e s = s
  tick-IsSound acc giving_up t e s = s
  tick-IsSound acc stopped t e s = s

  pinged-IsSound :
      (acc : Bytes) (ok : Bool) (k : Keeper) (t : Tunnel)
      → t.keeper ≡ k
      → IsSound remote_addr acc t
      → IsSound remote_addr acc (on_ping ok k t)
  pinged-IsSound acc ok pinging t e s =
      let free : loop_holds t.handing ≡ false = (let x = s.exclusive in ground arith) in
      if_cases (IsSound remote_addr acc) (ok && t.is_open)
        (λ sent. record {
          held = sym free;
          exclusive = refl;
          in_order = InOrder-ping remote_addr acc t.handing t.sent free s.in_order;
        })
        (λ lost. record { held = sym free; exclusive = refl; in_order = s.in_order })
  pinged-IsSound acc ok selecting t e s = s
  pinged-IsSound acc ok giving_up t e s = s
  pinged-IsSound acc ok stopped t e s = s

  given_up-IsSound :
      (acc : Bytes) (k : Keeper) (t : Tunnel)
      → t.keeper ≡ k
      → IsSound remote_addr acc t
      → IsSound remote_addr acc (on_given_up k t)
  given_up-IsSound acc giving_up t e s = record {
    held = (let x = s.held in ground arith);
    exclusive = refl;
    in_order = s.in_order;
  }
  given_up-IsSound acc selecting t e s = s
  given_up-IsSound acc pinging t e s = s
  given_up-IsSound acc stopped t e s = s

  ping_closed-IsSound :
      (acc : Bytes) (k : Keeper) (t : Tunnel)
      → t.keeper ≡ k
      → IsSound remote_addr acc t
      → IsSound remote_addr acc (on_ping_closed k t)
  ping_closed-IsSound acc selecting t e s =
      if_cases (IsSound remote_addr acc) t.ping_closed
        (λ closed. record {
          held = (let x = s.held in ground arith);
          exclusive = refl;
          in_order = s.in_order;
        })
        (λ open_still. s)
  ping_closed-IsSound acc pinging t e s = s
  ping_closed-IsSound acc giving_up t e s = s
  ping_closed-IsSound acc stopped t e s = s

  done-IsSound :
      (acc : Bytes) (k : Keeper) (t : Tunnel)
      → t.keeper ≡ k
      → IsSound remote_addr acc t
      → IsSound remote_addr acc (on_done k t)
  done-IsSound acc selecting t e s = record {
    held = (let x = s.held in ground arith);
    exclusive = refl;
    in_order = s.in_order;
  }
  done-IsSound acc pinging t e s = s
  done-IsSound acc giving_up t e s = s
  done-IsSound acc stopped t e s = s

  taken-IsSound :
      (acc : Bytes) (h : HandOver) (t : Tunnel)
      → t.handing ≡ h
      → IsSound remote_addr acc t
      → IsSound remote_addr acc (on_taken h t)
  taken-IsSound acc offered t e s = record {
    held = (let x = s.held in ground arith);
    exclusive = ground arith;
    in_order = subst (λ h. InOrder remote_addr h acc t.sent) e s.in_order;
  }
  taken-IsSound acc unpinged t e s = s
  taken-IsSound acc locking t e s = s
  taken-IsSound acc copying t e s = s
  taken-IsSound acc failed t e s = s

  lock-IsSound :
      (acc : Bytes) (h : HandOver) (t : Tunnel)
      → t.handing ≡ h
      → IsSound remote_addr acc t
      → IsSound remote_addr acc (on_lock h t)
  lock-IsSound acc unpinged t e s =
      if_cases (IsSound remote_addr acc) t.mu (λ busy. s)
        (λ free. record {
          held = ground arith;
          exclusive = (let x = s.held in ground arith);
          in_order = subst (λ h. InOrder remote_addr h acc t.sent) e s.in_order;
        })
  lock-IsSound acc offered t e s = s
  lock-IsSound acc locking t e s = s
  lock-IsSound acc copying t e s = s
  lock-IsSound acc failed t e s = s

  announce-IsSound :
      (acc : Bytes) (ok : Bool) (h : HandOver) (t : Tunnel)
      → t.handing ≡ h
      → IsSound remote_addr acc t
      → IsSound remote_addr acc (on_announce remote_addr ok h t)
  announce-IsSound acc ok locking t e s =
      let order : InOrder remote_addr locking acc t.sent =
        subst (λ h. InOrder remote_addr h acc t.sent) e s.in_order in
      let held : t.mu ≡ keeper_holds t.keeper || true =
        subst (λ h. t.mu ≡ keeper_holds t.keeper || loop_holds h) e s.held in
      let alone : (keeper_holds t.keeper && true) ≡ false =
        subst (λ h. (keeper_holds t.keeper && loop_holds h) ≡ false) e s.exclusive in
      if_cases (IsSound remote_addr acc) (ok && t.is_open)
        (λ sent. record {
          held = held;
          exclusive = alone;
          in_order = (order.0, [], ap (λ s. s ++ (text remote_addr ∷ [])) order.1, sym order.2);
        })
        (λ lost. record { held = held; exclusive = alone; in_order = order })
  announce-IsSound acc ok offered t e s = s
  announce-IsSound acc ok unpinged t e s = s
  announce-IsSound acc ok copying t e s = s
  announce-IsSound acc ok failed t e s = s

  chunk-IsSound :
      (acc : Bytes) (bytes : Bytes) (ok : Bool) (h : HandOver) (t : Tunnel)
      → t.handing ≡ h
      → IsSound remote_addr acc t
      → IsSound remote_addr (on_accepted bytes ok h t acc) (on_chunk bytes ok h t)
  chunk-IsSound acc bytes ok copying t e s =
      let order : InOrder remote_addr copying acc t.sent =
        subst (λ h. InOrder remote_addr h acc t.sent) e s.in_order in
      if_both (λ (a : Bytes) (t' : Tunnel). IsSound remote_addr a t') (ok && t.is_open)
        (λ sent. record {
          held = s.held;
          exclusive = s.exclusive;
          in_order =
              subst (λ h. InOrder remote_addr h (acc ++ bytes) (t.sent ++ (binary bytes ∷ [])))
                (sym e) (InOrder-chunk remote_addr acc bytes t.sent order);
        })
        (λ lost. record { held = s.held; exclusive = s.exclusive; in_order = s.in_order })
  chunk-IsSound acc bytes ok offered t e s = s
  chunk-IsSound acc bytes ok unpinged t e s = s
  chunk-IsSound acc bytes ok locking t e s = s
  chunk-IsSound acc bytes ok failed t e s = s

  step-IsSound :
      (acc : Bytes) (e : Event) (t : Tunnel)
      → IsSound remote_addr acc t
      → IsSound remote_addr (accepted e t acc) (step remote_addr e t)
  unfolding step
  step-IsSound acc ticked t s = tick-IsSound acc t.keeper t refl s
  step-IsSound acc (pinged ok) t s = pinged-IsSound acc ok t.keeper t refl s
  step-IsSound acc gave_up t s = given_up-IsSound acc t.keeper t refl s
  step-IsSound acc saw_ping_closed t s = ping_closed-IsSound acc t.keeper t refl s
  step-IsSound acc done t s = done-IsSound acc t.keeper t refl s
  step-IsSound acc taken t s = taken-IsSound acc t.handing t refl s
  step-IsSound acc locked t s = lock-IsSound acc t.handing t refl s
  step-IsSound acc (announced ok) t s = announce-IsSound acc ok t.handing t refl s
  step-IsSound acc (chunk bytes ok) t s = chunk-IsSound acc bytes ok t.handing t refl s

  -- In every run one of the goroutines at most holds the mutex, and what is sent is pings, and then,
  -- if the connection is copied to, the announcement and the chunks that were accepted.
  pub run-IsSound :
      (acc : Bytes) (es : List Event) (t : Tunnel)
      → IsSound remote_addr acc t
      → IsSound remote_addr (all_accepted remote_addr es t acc) (run remote_addr es t)
  unfolding run all_accepted
  run-IsSound acc [] t s = s
  run-IsSound acc (e ∷ es) t s =
      run-IsSound (accepted e t acc) es (step remote_addr e t) (step-IsSound acc e t s)
