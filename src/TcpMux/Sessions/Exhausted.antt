-- ===== src/TcpMux/Sessions/Exhausted.antt =====
-- `handleSession` of tcpmux.go when the target cannot be written to a stream.
use backhaul_plus.Prelude.{
  ℕ, zero, suc, ◌+◌, ◌≤◌, ◌<◌, ◌≡◌, refl, ap, ◌∙◌, true, false, [], ◌∷◌, Option, none, some, arith,
  ltb,
}
use backhaul_plus.Registry.{LocalTcpConn, has_room}
use backhaul_plus.TcpMux.Sessions.{
  Pipeline, for_slot, Session, new_session, Action, acquired, put_back, done_handler, context_done,
  received, send_failed, is_stale, carry, receive, session_step,
}

abbrev pub then_step : Action → Option (Session × Pipeline) → Option (Session × Pipeline)
then_step a none = none
then_step a (some (x, s)) = session_step a x.phase x s

-- A session takes a slot and a connection, fails to send its target, and puts it back.
abbrev pub failed_round : ℕ → Option (Session × Pipeline) → Option (Session × Pipeline)
failed_round now r =
    then_step put_back (then_step (received now send_failed) (then_step acquired r))

abbrev pub failed_rounds : ℕ → ℕ → Option (Session × Pipeline) → Option (Session × Pipeline)
failed_rounds now zero r = r
failed_rounds now (suc n) r = failed_round now (failed_rounds now n r)

module _ (now : ℕ) (entry : LocalTcpConn) (s : Pipeline) where
  abbrev pub slots_taken : ℕ → Session
  slots_taken n = record { phase = for_slot; taken = n; handlers = 0 }

  -- Only this connection is queued.
  abbrev pub queued_alone : Pipeline
  queued_alone = record s { local_channel = entry ∷ [] }

  failed_round_lem :
      (n : ℕ)
      → is_stale now entry ≡ false
      → 0 < s.channel_size
      → n < s.mux_con
      → failed_round now (some (slots_taken n, queued_alone))
        ≡ some (slots_taken (n + 1), queued_alone)
  unfolding session_step receive carry
  failed_round_lem n f c h =
      let free : ltb n s.mux_con ≡ true = ground arith in
      let room : has_room s.channel_size 0 ≡ true = ground arith in rw (free, f, room) refl

  failed_rounds_lem :
      (n : ℕ)
      → is_stale now entry ≡ false
      → 0 < s.channel_size
      → n ≤ s.mux_con
      → failed_rounds now n (some (new_session, queued_alone)) ≡ some (slots_taken n, queued_alone)
  failed_rounds_lem zero f c h = refl
  failed_rounds_lem (suc n) f c h =
      ap (failed_round now) (failed_rounds_lem n f c (omega arith))
      ∙ failed_round_lem n f c (omega arith)
      ∙ ap (λ (k : ℕ). some (slots_taken k, queued_alone)) (omega arith)

  blocked : (a : Action) → session_step a for_slot (slots_taken s.mux_con) queued_alone ≡ none
  unfolding session_step
  blocked acquired = let full : ltb s.mux_con s.mux_con ≡ false = ground arith in rw full refl
  blocked put_back = refl
  blocked done_handler = refl
  blocked context_done = refl
  blocked (received later opened) = refl

  -- A session that failed to send `MuxCon` targets has all its slots taken and carries nothing. The
  -- connection is queued as before, and no step of the session is possible any more.
  pub failed_rounds-exhausted :
      is_stale now entry ≡ false
      → 0 < s.channel_size
      → (failed_rounds now s.mux_con (some (new_session, queued_alone))
          ≡ some (slots_taken s.mux_con, queued_alone))
        × ((a : Action) → session_step a for_slot (slots_taken s.mux_con) queued_alone ≡ none)
  failed_rounds-exhausted f c = (failed_rounds_lem s.mux_con f c (omega arith), blocked)
