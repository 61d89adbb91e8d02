-- ===== src/Pool/Balance.antt =====
-- poolMaintainer and channelHandler of the client: the size that the pool aims at against the dials.
use backhaul_plus.Prelude.{
  ltb→lt, ℕ, ◌+◌, ◌≤◌, ◌<◌, ◌≡◌, refl, ap, ◌∙◌, Bool, true, false, ◌&&◌, inl, inr, List, [], ◌∷◌,
  ltb, ◌==◌, if◌then◌else◌, arith, Bool-cases,
}
use backhaul_plus.Signals.{sg_chan, sg_hb, sg_closed, sg_rtt}
use backhaul_plus.Pool.{
  Pool, is_short, is_idle, tenth, adjusted, load_tick, pool_tick, requested, on_message, Event,
  ticked_pool, ticked_load, sent_flow, dialed, taken, message, step, run, filled,
}

abbrev pub pending : Pool → ℕ
pending p = if p.sending then 1 else 0

-- The requests of the server that were heard, and the ticks of the load.
abbrev pub requests : Bool → Event → ℕ
requests running (message msg sent) = if running && msg == sg_chan then 1 else 0
requests running ticked_pool = 0
requests running ticked_load = 0
requests running sent_flow = 0
requests running dialed = 0
requests running taken = 0

abbrev pub requests_in : List Event → Pool → ℕ
requests_in [] p = 0
requests_in (e ∷ es) p = requests p.running e + requests_in es (step e p)

-- From `p`, the pool has come to `q` on `n` requests.
pub record Balanced (n : ℕ) (p q : Pool) : Type 0 where
  pub balance :
      q.dials + (p.new_pool_size + p.control_flow + pending p)
      ≡ p.dials + (q.new_pool_size + q.control_flow + pending q) + n
  pub floor : q.conn_pool_size ≤ q.new_pool_size
  pub same_floor : q.conn_pool_size ≡ p.conn_pool_size

if-Balanced :
    (b : Bool) (n : ℕ) (p q r : Pool)
    → (b ≡ true → Balanced n p q)
    → (b ≡ false → Balanced n p r)
    → Balanced n p (if b then q else r)
if-Balanced true n p q r then' else' = then' refl
if-Balanced false n p q r then' else' = else' refl

unchanged : (p : Pool) → p.conn_pool_size ≤ p.new_pool_size → Balanced 0 p p
unchanged p f = record { balance = omega arith; floor = f; same_floor = refl }

module _ (p : Pool) (f : p.conn_pool_size ≤ p.new_pool_size) where
  adjusted-Balanced : (load avg : ℕ) → p.sending ≡ false → Balanced 0 p (adjusted load avg p)
  unfolding adjusted
  adjusted-Balanced load avg h =
      if-Balanced (is_short p.aggressive_pool load avg) 0 p _ _
        (λ _. record { balance = omega arith; floor = omega arith; same_floor = refl })
        (λ _.
          if-Balanced (is_idle p.aggressive_pool load avg && ltb p.conn_pool_size p.new_pool_size) 0
            p _ _
            (λ above.
              let larger : p.conn_pool_size < p.new_pool_size =
                above_floor (is_idle p.aggressive_pool load avg) above in
              let none_pending : pending p ≡ 0 = ap (λ (b : Bool). if b then 1 else 0) h in
              record { balance = omega arith; floor = omega arith; same_floor = refl })
            (λ _. unchanged p f))
    where
      above_floor :
          (b : Bool)
          → (b && ltb p.conn_pool_size p.new_pool_size) ≡ true
          → p.conn_pool_size < p.new_pool_size
      above_floor true above = ltb→lt _ _ above
      above_floor false above = cc

module _ (p : Pool) (f : p.conn_pool_size ≤ p.new_pool_size) where
  requested-Balanced : Balanced 1 p (requested p)
  unfolding requested
  requested-Balanced =
      if-Balanced (p.control_flow == 0) 1 p _ _
        (λ _. record { balance = omega arith; floor = f; same_floor = refl })
        (λ some_left.
          let positive : 0 < p.control_flow = ground arith in
          record { balance = omega arith; floor = f; same_floor = refl })

  message-Balanced :
      (msg : ℕ) (sent : Bool) → Balanced (if msg == sg_chan then 1 else 0) p (on_message msg sent p)
  unfolding on_message
  message-Balanced msg sent = elim (Bool-cases (msg == sg_chan)) [
    | inl request ↦ rw request requested-Balanced
    | inr other ↦ rw other (
        if-Balanced (msg == sg_hb) 0 p _ _ (λ _. unchanged p f)
          (λ _.
            if-Balanced (msg == sg_closed) 0 p _ _ (λ _. halted false)
              (λ _. if-Balanced (msg == sg_rtt) 0 p _ _ (λ _. halted sent) (λ _. halted false))))
  ]
    where
      halted : (b : Bool) → Balanced 0 p (record p { running = b })
      halted b = record { balance = omega arith; floor = f; same_floor = refl }

  sent-Balanced : Balanced 0 p (step sent_flow p)
  unfolding step
  sent-Balanced =
      if-Balanced (p.sending && ltb p.control_flow 100) 0 p _ _
        (λ both.
          let was : pending p ≡ 1 =
            ap (λ (b : Bool). if b then 1 else 0)
              (first_of p.sending (ltb p.control_flow 100) both) in
          record { balance = omega arith; floor = f; same_floor = refl })
        (λ _. unchanged p f)
    where
      first_of : (b c : Bool) → (b && c) ≡ true → b ≡ true
      first_of true c h = refl
      first_of false c h = h

  step-Balanced : (e : Event) → Balanced (requests p.running e) p (step e p)
  unfolding step pool_tick load_tick
  step-Balanced ticked_pool =
      if-Balanced p.sending 0 p _ _ (λ _. unchanged p f)
        (λ _. record { balance = omega arith; floor = f; same_floor = refl })
  step-Balanced ticked_load =
      if-Balanced p.sending 0 p _ _ (λ _. unchanged p f)
        (λ idle.
          let reset : Pool = record p { load_connections = 0; pool_connections_sum = 0 } in
          let done =
            adjusted-Balanced reset f (tenth p.load_connections) (tenth p.pool_connections_sum)
              idle in
          record { balance = done.balance; floor = done.floor; same_floor = done.same_floor })
  step-Balanced sent_flow = sent-Balanced
  step-Balanced dialed = record { balance = omega arith; floor = f; same_floor = refl }
  step-Balanced taken = record { balance = omega arith; floor = f; same_floor = refl }
  step-Balanced (message msg sent) = heard p.running refl
    where
      heard :
          (b : Bool)
          → p.running ≡ b
          → Balanced
              (if b && msg == sg_chan then 1 else 0)
              p
              (if b then on_message msg sent p else p)
      heard true r = message-Balanced msg sent
      heard false r = unchanged p f

-- Every run keeps the balance.
run-Balanced :
    (events : List Event) (p : Pool)
    → p.conn_pool_size ≤ p.new_pool_size
    → Balanced (requests_in events p) p (run events p)
unfolding run
run-Balanced [] p f = unchanged p f
run-Balanced (e ∷ es) p f =
    let first = step-Balanced p f e in
    let a = first.balance in
    let rest = run-Balanced es (step e p) first.floor in
    let b = rest.balance in
    record {
      balance = omega arith;
      floor = rest.floor;
      same_floor = rest.same_floor ∙ first.same_floor;
    }

-- From the initial filling, in every run: the size that the pool aims at does not fall below
-- `ConnPoolSize`, and the dials are as many as this size, the requests of the server that were heard, and
-- the requests that the values in `controlFlow` or about to be sent to it will leave unanswered.
pub run-dials :
    (events : List Event) (size : ℕ) (aggressive : Bool)
    → (size ≤ (run events (filled size aggressive)).new_pool_size)
      × ((run events (filled size aggressive)).dials
          ≡ (run events (filled size aggressive)).new_pool_size
            + requests_in events (filled size aggressive)
            + ((run events (filled size aggressive)).control_flow
                + pending (run events (filled size aggressive))))
run-dials events size aggressive =
    let p = filled size aggressive in
    let all = run-Balanced events p (omega arith) in
    let a = all.balance in let b = all.floor in let c = all.same_floor in (omega arith, omega arith)
