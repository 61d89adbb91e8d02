-- ===== src/Dialing/Backoff.antt =====
-- `TcpDialer`: how many attempts it makes, and how long it waits.
use backhaul_plus.Prelude.{
  two_63, two_64, ◌%◌, ℕ, zero, suc, ◌+◌, ◌*◌, ◌-◌, ◌<◌, ◌≡◌, refl, sym, ap, ◌∙◌, true, false, List,
  [], ◌∷◌, none, some, ◌==◌, arith, Bool, ◌≤◌, ltb, ◌&&◌,
}
use backhaul_plus.Dialing.{
  Attempt, connected, failed, after_sleep, dial_loop, tcp_dialer, second_ns,
}

-- `n` waits, of which each is twice the one before it.
abbrev pub doubling : ℕ → ℕ → List ℕ
doubling zero w = []
doubling (suc n) w = w ∷ doubling n (w * 2)

-- The same on 64 bits.
abbrev pub wrapped : ℕ → ℕ → List ℕ
wrapped zero w = []
wrapped (suc n) w = w ∷ wrapped n (w * 2 % two_64)

-- None of the waits is negative as a `time.Duration`.
abbrev pub fits : ℕ → ℕ → Bool
fits zero w = true
fits (suc n) w = ltb w two_63 && fits n (w * 2)

and_true : (a b : Bool) → (a && b) ≡ true → (a ≡ true) × (b ≡ true)
and_true a b h = ground arith

wrapped-fits : (n w : ℕ) → fits n w ≡ true → wrapped n w ≡ doubling n w
wrapped-fits zero w h = refl
wrapped-fits (suc n) w h =
    let (small, rest) = and_true (ltb w two_63) (fits n (w * 2)) h in
    let same : w * 2 % two_64 ≡ w * 2 = ground arith in
    ap (λ (ws : List ℕ). w ∷ ws) (ap (wrapped n) same ∙ wrapped-fits n (w * 2) rest)

fits-fewer : (n m w : ℕ) → fits (n + m) w ≡ true → fits n w ≡ true
fits-fewer zero m w h = refl
fits-fewer (suc n) m w h =
    let same : suc (n + m) ≡ suc n + m = omega arith in
    let (small, rest) =
      and_true (ltb w two_63) (fits (n + m) (w * 2)) (ap (λ k. fits k w) same ∙ h) in
    rw (small, fits-fewer n m (w * 2) rest) refl

-- From one second on, 34 waits fit.
waits : (n : ℕ) → n ≤ 34 → wrapped n second_ns ≡ doubling n second_ns
waits n l =
    let same : n + (34 - n) ≡ 34 = omega arith in
    wrapped-fits n second_ns (fits-fewer n (34 - n) second_ns (ap (λ k. fits k second_ns) same))

module _ {ℓ κ} {C : Type ℓ} {E : Type κ} (attempt : ℕ → Attempt C E) where
  -- `n` attempts from the `i`-th on fail.
  abbrev pub Fails : ℕ → ℕ → Type (ℓ ⊔ κ)
  Fails zero i = Unit {ℓ ⊔ κ}
  Fails (suc n) i = ((e : E) × (attempt i ≡ failed e)) × Fails n (suc i)

  retried :
      (retries left i backoff : ℕ) {e : E}
      → attempt i ≡ failed e
      → suc i < retries
      → dial_loop attempt retries (suc left) i backoff
        ≡ after_sleep attempt backoff
            (dial_loop attempt retries left (suc i) (backoff * 2 % two_64))
  unfolding dial_loop
  retried retries left i backoff h l =
      let more : (i == retries - 1) ≡ false = ground arith in rw (h, more) refl

  loop-connected :
      (retries n left i backoff : ℕ) {c : C}
      → Fails n i
      → attempt (i + n) ≡ connected c
      → n < left
      → i + left ≡ retries
      → dial_loop attempt retries left i backoff
        ≡ record { tcp_conn = some c; err = none; slept = wrapped n backoff }
  unfolding dial_loop
  loop-connected retries n zero i backoff f h u l = absurd (omega arith)
  loop-connected retries zero (suc left) i backoff f h u l =
      let here : i + 0 ≡ i = omega arith in rw (ap attempt (sym here) ∙ h) refl
  loop-connected retries (suc n) (suc left) i backoff f h u l =
      let there : suc i + n ≡ i + suc n = omega arith in
      retried retries left i backoff f.0.1 (omega arith)
      ∙ ap (after_sleep attempt backoff) (
          loop-connected retries n left (suc i) (backoff * 2 % two_64) f.1 (ap attempt there ∙ h)
            (omega arith) (omega arith))

  loop-failed :
      (retries n i backoff : ℕ) {e : E}
      → Fails n i
      → attempt (i + n) ≡ failed e
      → i + suc n ≡ retries
      → dial_loop attempt retries (suc n) i backoff
        ≡ record { tcp_conn = none; err = some e; slept = wrapped n backoff }
  unfolding dial_loop
  loop-failed retries zero i backoff f h l =
      let here : i + 0 ≡ i = omega arith in
      let last : (i == retries - 1) ≡ true = ground arith in
      rw (ap attempt (sym here) ∙ h, last) refl
  loop-failed retries (suc n) i backoff f h l =
      let there : suc i + n ≡ i + suc n = omega arith in
      retried retries (suc n) i backoff f.0.1 (omega arith)
      ∙ ap (after_sleep attempt backoff) (
          loop-failed retries n (suc i) (backoff * 2 % two_64) f.1 (ap attempt there ∙ h)
            (omega arith))

  -- After `n` failed attempts, at most 34 and fewer than the retries allow, the dialer has waited `n`
  -- times, for one second and then for twice the wait before, and no wait has wrapped around; a connection then made is returned. When the last attempt
  -- of all fails too, its error is returned after the same waits, and there is no wait behind it.
  pub tcp_dialer_lem :
      (retry n : ℕ) {c : C} {e : E}
      → Fails n 0
      → n < retry
      → n ≤ 34
      → (attempt n ≡ connected c
          → tcp_dialer attempt retry
            ≡ record { tcp_conn = some c; err = none; slept = doubling n second_ns })
        × (attempt n ≡ failed e
            → n + 1 ≡ retry
            → tcp_dialer attempt retry
              ≡ record { tcp_conn = none; err = some e; slept = doubling n second_ns })
  unfolding tcp_dialer
  tcp_dialer_lem retry n {c} {e} f u few =
      let here : n ≡ 0 + n = omega arith in
      (
        λ h.
            loop-connected retry n retry 0 second_ns f (ap attempt (sym here) ∙ h) u (omega arith)
            ∙ ap (λ (ws : List ℕ). record { tcp_conn = some c; err = none; slept = ws })
                (waits n few),
        λ h l.
            let whole : suc n ≡ retry = omega arith in
            ap (λ (k : ℕ). dial_loop attempt retry k 0 second_ns) (sym whole)
            ∙ loop-failed retry n 0 second_ns f (ap attempt (sym here) ∙ h) (omega arith)
            ∙ ap (λ (ws : List ℕ). record { tcp_conn = none; err = some e; slept = ws })
                (waits n few),
      )
