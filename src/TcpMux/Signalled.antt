-- ===== src/TcpMux/Signalled.antt =====
-- tcpmux.go: a control channel before and after a signal.
use backhaul_plus.Prelude.{
  ℕ, zero, suc, ◌<◌, ◌≡◌, refl, sym, ap, ◌∙◌, Bool, true, false, ◌⊎◌, inl, inr, List, [], ◌∷◌, ◌++◌,
  Option, none, some, arith, length, Option-cases,
}
use backhaul_plus.Signals.{sg_chan}
use backhaul_plus.Stream.{IoError, write, close}
use backhaul_plus.TcpMux.{ControlConn, signal, signal_at, cons_result}

-- Writes to the channel succeed.
abbrev pub IsAlive : ControlConn → Type 0
IsAlive c = c.conn.write_error ≡ none

-- The channel behind a signal that was sent, and behind one that was not.
abbrev pub told : ℕ → ControlConn → ControlConn
told sg c = record c { conn = record c.conn { written = c.conn.written ++ (sg ∷ []) } }

abbrev pub hung_up : ControlConn → ControlConn
hung_up c = record c { conn = close c.conn }

abbrev pub is_none {ℓ} : {A : Type ℓ} → Option A → Bool
is_none none = true
is_none (some a) = false

pub signal-alive : (sg : ℕ) (c : ControlConn) → IsAlive c → signal sg c ≡ (true, told sg c)
unfolding signal write
signal-alive sg c h = rw h refl

pub signal-dead :
    (sg : ℕ) (c : ControlConn) {e : IoError}
    → c.conn.write_error ≡ some e
    → signal sg c ≡ (false, hung_up c)
unfolding signal write
signal-dead sg c h = rw h refl

-- A channel is left as it was, or it could not be written to and was closed.
abbrev pub Kept : ControlConn → ControlConn → Type 0
Kept c d = (d ≡ c) ⊎ ((IsAlive c → ⊥) × (d ≡ hung_up c))

abbrev pub AllKept : List ControlConn → List ControlConn → Type 0
AllKept [] [] = Unit
AllKept (c ∷ cs) (d ∷ ds) = Kept c d × AllKept cs ds
AllKept _ _ = ⊥

-- One channel that can be written to has one more request, and the others are kept.
abbrev pub ToldOne : List ControlConn → List ControlConn → Type 0
ToldOne (c ∷ cs) (d ∷ ds) =
    ((IsAlive c × (d ≡ told sg_chan c)) × AllKept cs ds) ⊎ (Kept c d × ToldOne cs ds)
ToldOne _ _ = ⊥

abbrev pub AliveAt : ℕ → List ControlConn → Type 0
AliveAt i [] = ⊥
AliveAt zero (c ∷ cs) = IsAlive c
AliveAt (suc i) (c ∷ cs) = AliveAt i cs

pub all_kept : (cs : List ControlConn) → AllKept cs cs
all_kept [] = tt
all_kept (c ∷ cs) = (inl refl, all_kept cs)

IsAlive-Kept : (c d : ControlConn) → Kept c d → IsAlive d → IsAlive c × (d ≡ c)
IsAlive-Kept c d (inl e) a = (ap (λ (x : ControlConn). x.conn.write_error) (sym e) ∙ a, e)
IsAlive-Kept c d (inr (dead, e)) a =
    absurd (dead (ap (λ (x : ControlConn). x.conn.write_error) (sym e) ∙ a))

Kept-IsAlive : (c d : ControlConn) → Kept c d → IsAlive c → IsAlive d
Kept-IsAlive c d (inl e) a = ap (λ (x : ControlConn). x.conn.write_error) e ∙ a
Kept-IsAlive c d (inr (dead, e)) a = absurd (dead a)

Kept-trans : (c d e : ControlConn) → Kept c d → Kept d e → Kept c e
Kept-trans c d e (inl p) (inl q) = inl (q ∙ p)
Kept-trans c d e (inl p) (inr (dead, q)) =
    inr (λ a. dead (Kept-IsAlive c d (inl p) a), q ∙ ap hung_up p)
Kept-trans c d e (inr (dead, p)) (inl q) = inr (dead, q ∙ p)
Kept-trans c d e (inr (dead, p)) (inr (dead', q)) = inr (dead, q ∙ ap hung_up p)

pub AllKept-trans : (cs ds es : List ControlConn) → AllKept cs ds → AllKept ds es → AllKept cs es
AllKept-trans [] [] [] k l = tt
AllKept-trans (c ∷ cs) (d ∷ ds) (e ∷ es) k l =
    (Kept-trans c d e k.0 l.0, AllKept-trans cs ds es k.1 l.1)
AllKept-trans [] [] (e ∷ es) k l = elim l [ ]
AllKept-trans [] (d ∷ ds) es k l = elim k [ ]
AllKept-trans (c ∷ cs) [] es k l = elim k [ ]
AllKept-trans (c ∷ cs) (d ∷ ds) [] k l = elim l [ ]

pub ToldOne-kept : (cs ds es : List ControlConn) → AllKept cs ds → ToldOne ds es → ToldOne cs es
ToldOne-kept (c ∷ cs) (d ∷ ds) (e ∷ es) k (inl ((a, t), l)) =
    let (alive, same) = IsAlive-Kept c d k.0 a in
    inl ((alive, t ∙ ap (told sg_chan) same), AllKept-trans cs ds es k.1 l)
ToldOne-kept (c ∷ cs) (d ∷ ds) (e ∷ es) k (inr (l, t)) =
    inr (Kept-trans c d e k.0 l, ToldOne-kept cs ds es k.1 t)
ToldOne-kept [] [] es k t = elim t [ ]
ToldOne-kept [] (d ∷ ds) es k t = elim k [ ]
ToldOne-kept (c ∷ cs) [] es k t = elim k [ ]
ToldOne-kept (c ∷ cs) (d ∷ ds) [] k t = elim t [ ]

pub AliveAt-kept : (i : ℕ) (cs ds : List ControlConn) → AllKept cs ds → AliveAt i cs → AliveAt i ds
AliveAt-kept zero (c ∷ cs) (d ∷ ds) k a = Kept-IsAlive c d k.0 a
AliveAt-kept (suc i) (c ∷ cs) (d ∷ ds) k a = AliveAt-kept i cs ds k.1 a
AliveAt-kept i [] ds k a = elim a [ ]
AliveAt-kept i (c ∷ cs) [] k a = elim k [ ]

pub AllKept-length : (cs ds : List ControlConn) → AllKept cs ds → length ds ≡ length cs
AllKept-length [] [] k = refl
AllKept-length (c ∷ cs) (d ∷ ds) k = ap suc (AllKept-length cs ds k.1)
AllKept-length [] (d ∷ ds) k = elim k [ ]
AllKept-length (c ∷ cs) [] k = elim k [ ]

-- What a request at a position within the channels does.
pub signal_at-cases :
    (i : ℕ) (cs : List ControlConn)
    → i < length cs
    → ((ds : List ControlConn) × (signal_at sg_chan i cs ≡ some (true, ds)) × ToldOne cs ds)
      ⊎ ((ds : List ControlConn) × (signal_at sg_chan i cs ≡ some (false, ds))
          × AllKept cs ds
          × (AliveAt i cs → ⊥))
unfolding signal_at
signal_at-cases i [] h = absurd (omega arith)
signal_at-cases zero (c ∷ cs) h = elim (Option-cases c.conn.write_error) [
  | inl works ↦ inl (
    told sg_chan c ∷ cs,
    rw (signal-alive sg_chan c works) refl,
    inl ((works, refl), all_kept cs),
  )
  | inr (e, fails) ↦
      let dead : IsAlive c → ⊥ = λ a. cc in
      inr (
        hung_up c ∷ cs,
        rw (signal-dead sg_chan c fails) refl,
        (inr (dead, refl), all_kept cs),
        dead,
      )
]
signal_at-cases (suc i) (c ∷ cs) h = elim (signal_at-cases i cs (omega arith)) [
  | inl (ds, e, t) ↦ inl (c ∷ ds, ap (cons_result c) e, inr (inl refl, t))
  | inr (ds, e, k, dead) ↦ inr (c ∷ ds, ap (cons_result c) e, (inl refl, k), dead)
]
