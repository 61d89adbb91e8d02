-- ===== src/Ws/Guarded.antt =====
-- What the WebSocket server lets in.
use backhaul_plus.Prelude.{
  ℕ, ◌≡◌, refl, sym, ap, ◌∙◌, Bool, true, false, ◌&&◌, List, [], ◌∷◌, ◌++◌, if◌then◌else◌,
  Bool-cases, inl, inr,
}
use backhaul_plus.Strings.{Bytes, codes, equal}
use backhaul_plus.Ws.Server.{
  Event, http_request, looked_on, accept, inbound, take_inbound, loop_done, check, pair,
  waiting_done, keeper_done, copy_ended, queued_ping, new_conn, heartbeat, done, read, read_nil,
  read_error, reader_done, message, stop, listener_done, restart, restarted, step, run,
}
use backhaul_plus.Ws.Server.State.{WsTransport}
use backhaul_plus.Ws.Server.Requests.{Request, on_path, on_request}

-- The header is that of a client that knows the token.
abbrev pub bears : Bytes → Request → Bool
bears token r = equal r.authorization (codes "Bearer " ++ token)

abbrev pub is_let_in : Bytes → Event → Bool
is_let_in token (http_request cpus r) = bears token r
is_let_in token e = true

-- The events without the requests that do not bear the token.
unfoldable pub let_in : Bytes → List Event → List Event
let_in token [] = []
let_in token (e ∷ es) = if is_let_in token e then e ∷ let_in token es else let_in token es

step-refused :
    (token : Bytes) (size : ℕ) (e : Event) (s : WsTransport)
    → is_let_in token e ≡ false
    → step token size e s ≡ s
unfolding step on_request
step-refused token size (http_request cpus r) s h =
    ap (λ (b : Bool). if b && r.upgrades then on_path size cpus r.path s else s) h
step-refused token size (looked_on n) s h = cc
step-refused token size (accept now target) s h = cc
step-refused token size (inbound now target port) s h = cc
step-refused token size take_inbound s h = cc
step-refused token size loop_done s h = cc
step-refused token size (check n now) s h = cc
step-refused token size (pair n ok) s h = cc
step-refused token size (waiting_done n) s h = cc
step-refused token size (keeper_done n) s h = cc
step-refused token size (copy_ended n) s h = cc
step-refused token size (queued_ping n ok) s h = cc
step-refused token size (new_conn n ok) s h = cc
step-refused token size (heartbeat n ok) s h = cc
step-refused token size (done n ok) s h = cc
step-refused token size (read n msg) s h = cc
step-refused token size (read_nil n) s h = cc
step-refused token size (read_error n) s h = cc
step-refused token size (reader_done n) s h = cc
step-refused token size (message n) s h = cc
step-refused token size stop s h = cc
step-refused token size listener_done s h = cc
step-refused token size restart s h = cc
step-refused token size restarted s h = cc

if_same {ℓ} : {A : Type ℓ} (b : Bool) (x : A) → (if b then x else x) ≡ x
if_same true x = refl
if_same false x = refl

-- The requests that do not bear the token make no difference: a run ends as the run without them.
pub run-let_in :
    (token : Bytes) (size : ℕ) (es : List Event) (s : WsTransport)
    → run token size es s ≡ run token size (let_in token es) s
unfolding run let_in
run-let_in token size [] s = refl
run-let_in token size (e ∷ es) s = elim (Bool-cases (is_let_in token e)) [
  | inl good ↦
      run-let_in token size es (if s.crashed then s else step token size e s)
      ∙ sym (
          ap (λ (b : Bool). run token size (if b then e ∷ let_in token es else let_in token es) s)
            good)
  | inr bad ↦
      ap (λ t. run token size es (if s.crashed then s else t)) (step-refused token size e s bad)
      ∙ (ap (run token size es) (if_same s.crashed s)
          ∙ (run-let_in token size es s
              ∙ sym (
                  ap
                    (λ (b : Bool).
                      run token size (if b then e ∷ let_in token es else let_in token es) s)
                    bad)))
]
