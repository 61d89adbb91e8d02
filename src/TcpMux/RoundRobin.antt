-- ===== src/TcpMux/RoundRobin.antt =====
-- `sendNewConnSignalRoundRobin` of tcpmux.go: who is asked for a new connection.
use native.Mathlib.Nat.{mod-lt, mod-eq_of_lt, add-mod_right}
use mathlib.Core.Path.{subst}
use backhaul_plus.Prelude.{
  ℕ, zero, suc, ◌+◌, ◌-◌, ◌%◌, ◌≤◌, ◌<◌, ◌≡◌, refl, sym, ap, ◌∙◌, ◌⊎◌, inl, inr, List, [], ◌∷◌,
  Option, none, some, arith, length, leb, leb→le, Bool-cases, ◌==◌,
}
use backhaul_plus.Result.{Result, ok, err}
use backhaul_plus.TcpMux.{
  ControlConn, Controls, in_order, placed, channels, with_channels, round_robin, next_channel,
  rotated, send_new_conn_signal,
}
use backhaul_plus.TcpMux.Signalled.{
  AllKept, ToldOne, AliveAt, all_kept, AllKept-trans, ToldOne-kept, AliveAt-kept, AllKept-length,
  signal_at-cases,
}

-- The loop ends with one channel asked, or it has found every channel from pass `i` on closed.
abbrev Asked : ℕ → ℕ → ℕ → List ControlConn → Result (Unit {0}) ℕ × List ControlConn → Type 0
Asked left i start cs r =
    ((idx : ℕ) × (ds : List ControlConn) × (r ≡ (ok idx, ds)) × (idx < length cs) × ToldOne cs ds)
    ⊎ ((ds : List ControlConn) × (r ≡ (err tt, ds))
        × AllKept cs ds
        × ((k : ℕ) → i ≤ k → k < i + left → AliveAt ((start + k) % length cs) cs → ⊥))

-- A pass that finds a channel dead, in front of the others.
one_dead :
    (left i start : ℕ) (cs ds : List ControlConn) (r : Result (Unit {0}) ℕ × List ControlConn)
    → AllKept cs ds
    → (AliveAt ((start + i) % length cs) cs → ⊥)
    → Asked left (suc i) start ds r
    → Asked (suc left) i start cs r
one_dead left i start cs ds r kept dead (inl (idx, es, e, u, t)) =
    let same = AllKept-length cs ds kept in
    inl (idx, es, e, omega arith, ToldOne-kept cs ds es kept t)
one_dead left i start cs ds r kept dead (inr (es, e, kept', others)) =
    inr (es, e, AllKept-trans cs ds es kept kept', none_left)
  where
    none_left : (k : ℕ) → i ≤ k → k < i + suc left → AliveAt ((start + k) % length cs) cs → ⊥
    none_left k l u a = elim (Bool-cases (leb k i)) [
      | inl first ↦
          let now : k ≡ i = ground arith in
          dead (subst (λ (j : ℕ). AliveAt ((start + j) % length cs) cs) now a)
      | inr later ↦ others k (ground arith) (omega arith) (
          subst (λ (n : ℕ). AliveAt ((start + k) % n) ds) (sym (AllKept-length cs ds kept))
            (AliveAt-kept _ cs ds kept a))
    ]

round_robin-Asked :
    (left i start : ℕ) (cs : List ControlConn)
    → 0 < length cs
    → Asked left i start cs (round_robin left i start cs)
unfolding round_robin
round_robin-Asked zero i start cs h = inr (cs, refl, all_kept cs, λ k l u a. absurd (omega arith))
round_robin-Asked (suc left) i start cs h =
    let pass =
      next_channel (round_robin left (suc i) start) ((start + i) % length cs) (length cs) in
    elim (signal_at-cases ((start + i) % length cs) cs (mod-lt (start + i) h)) [
      | inl (ds, e, t) ↦ inl (
        ((start + i) % length cs + 1) % length cs,
        ds,
        ap pass e,
        mod-lt ((start + i) % length cs + 1) h,
        t,
      )
      | inr (ds, e, kept, dead) ↦
          let some_left : 0 < length ds = let same = AllKept-length cs ds kept in omega arith in
          subst (Asked (suc left) i start cs) (sym (ap pass e)) (
            one_dead left i start cs ds _ kept dead
              (round_robin-Asked left (suc i) start ds some_left))
    ]

-- Some pass looks at each position.
passes : (n start p : ℕ) → start < n → p < n → (k : ℕ) × (k < n) × ((start + k) % n ≡ p)
passes n start p h l = elim (Bool-cases (leb start p)) [
  | inl ahead ↦
      let le = leb→le start p ahead in
      let there : start + (p - start) ≡ p = omega arith in
      (p - start, omega arith, ap (λ (x : ℕ). x % n) there ∙ mod-eq_of_lt l)
  | inr behind ↦
      let less : p < start = ground arith in
      let there : start + (p + n - start) ≡ p + n = omega arith in
      (p + n - start, omega arith, ap (λ (x : ℕ). x % n) there ∙ add-mod_right p n ∙ mod-eq_of_lt l)
]

AliveAt-bound : (p : ℕ) (cs : List ControlConn) → AliveAt p cs → p < length cs
AliveAt-bound p [] a = elim a [ ]
AliveAt-bound zero (c ∷ cs) a = omega arith
AliveAt-bound (suc p) (c ∷ cs) a = let rest = AliveAt-bound p cs a in omega arith

channels-with_channels :
    (s : Controls) (cs : List ControlConn)
    → length cs ≡ length (channels s)
    → channels (with_channels cs s) ≡ cs
channels-with_channels s cs l = back s.control_channel cs l
  where
    back :
        (o : Option ControlConn) (cs : List ControlConn)
        → length cs ≡ length (in_order o s.extra_ctrl_conns)
        → channels (placed o cs (record s { control_channel = o })) ≡ cs
    back none cs l = refl
    back (some c) [] l = absurd (omega arith)
    back (some c) (d ∷ ds) l = refl

placed_index :
    (o : Option ControlConn) (cs : List ControlConn) (s : Controls)
    → (placed o cs s).rr_control_idx ≡ s.rr_control_idx
placed_index none cs s = refl
placed_index (some c) [] s = refl
placed_index (some c) (d ∷ ds) s = refl

told-AliveAt : (cs ds : List ControlConn) → ToldOne cs ds → (p : ℕ) × AliveAt p cs
told-AliveAt (c ∷ cs) (d ∷ ds) (inl ((a, _), _)) = (0, a)
told-AliveAt (c ∷ cs) (d ∷ ds) (inr (_, t)) = let (p, a) = told-AliveAt cs ds t in (suc p, a)
told-AliveAt [] ds t = elim t [ ]
told-AliveAt (c ∷ cs) [] t = elim t [ ]

ToldOne-length : (cs ds : List ControlConn) → ToldOne cs ds → length ds ≡ length cs
ToldOne-length (c ∷ cs) (d ∷ ds) (inl (_, k)) = ap suc (AllKept-length cs ds k)
ToldOne-length (c ∷ cs) (d ∷ ds) (inr (_, t)) = ap suc (ToldOne-length cs ds t)
ToldOne-length [] ds t = elim t [ ]
ToldOne-length (c ∷ cs) [] t = elim t [ ]

-- Some channel can be written to and one such is asked, or none can.
abbrev pub Requested : Controls → Result (Unit {0}) (Unit {0}) × Controls → Type 0
Requested s r =
    (((p : ℕ) × AliveAt p (channels s))
      × (r.0 ≡ ok tt)
      × ToldOne (channels s) (channels r.1)
      × (r.1.rr_control_idx < length (channels s)))
    ⊎ (((p : ℕ) → AliveAt p (channels s) → ⊥)
        × (r.0 ≡ err tt)
        × AllKept (channels s) (channels r.1))

rotated-Requested :
    (s : Controls) (start : ℕ) (r : Result (Unit {0}) ℕ × List ControlConn)
    → start < length (channels s)
    → Asked (length (channels s)) 0 start (channels s) r
    → Requested s (rotated r s)
rotated-Requested s start r h (inl (idx, ds, e, u, t)) =
    let same =
      channels-with_channels (record s { rr_control_idx = idx }) ds
        (ToldOne-length (channels s) ds t) in
    let index = placed_index s.control_channel ds (record s { rr_control_idx = idx }) in
    subst (λ q. Requested s (rotated q s)) (sym e)
      (inl (
        told-AliveAt (channels s) ds t,
        refl,
        subst (ToldOne (channels s)) (sym same) t,
        subst (λ (i : ℕ). i < length (channels s)) (sym index) u,
      ))
rotated-Requested s start r h (inr (ds, e, k, dead)) =
    let same = channels-with_channels s ds (AllKept-length (channels s) ds k) in
    subst (λ q. Requested s (rotated q s)) (sym e)
      (inr (
        (λ p a.
            let (i, l, at_p) =
              passes (length (channels s)) start p h (AliveAt-bound p (channels s) a) in
            dead i (omega arith) (omega arith)
              (subst (λ (j : ℕ). AliveAt j (channels s)) (sym at_p) a)),
        refl,
        subst (AllKept (channels s)) (sym same) k,
      ))

-- A request for a connection succeeds exactly if some control channel can be written to, whatever the
-- index was. Then exactly one such channel is asked, once; of the others each is as it was, or could not
-- be written to and is closed; and the index is the position of a channel. Else no channel is asked.
pub send_new_conn_signal-Requested : (s : Controls) → Requested s (send_new_conn_signal s)
unfolding send_new_conn_signal
send_new_conn_signal-Requested s = elim (Bool-cases (length (channels s) == 0)) [
  | inl empty ↦
      let nothing : length (channels s) ≡ 0 = ground arith in
      rw empty (
        inr (
          (λ p a. let l = AliveAt-bound p (channels s) a in absurd (omega arith)),
          refl,
          all_kept (channels s),
        ))
  | inr full ↦
      let h : 0 < length (channels s) = ground arith in
      let start = s.rr_control_idx % length (channels s) in
      rw full (
        rotated-Requested s start _ (mod-lt s.rr_control_idx h)
          (round_robin-Asked (length (channels s)) 0 start (channels s) h))
]
