-- ===== src/Gateway/Delivery/Total.antt =====
-- `sendWithRetry` of cli/gateway/gateway.go does not panic.
use xclaw.Prelude.{
  ℕ, zero, suc, ◌+◌, ◌-◌, ◌≢◌, refl, Bool, true, false, List, [], ◌∷◌, Option, none, some, String,
  Option-cases, inl, inr,
}
use xclaw.Gateway.RateLimiter.{RateLimiter}
use xclaw.Gateway.RateLimiter.Panics.{three_level_total}
use xclaw.Gateway.Events.{OutboundEvent, Provider}
use xclaw.Gateway.Delivery.{
  Gateway, Outside, Sent, let_through, may_send, subject_of, attempt_once, try_piece, send_segments,
  send_with_retry, degraded, segments_of, unsent,
}

let_through_total :
    (out : Outside) (p : Provider) (piece : OutboundEvent) (attempt : ℕ) (s : Sent)
    (passed : Option Bool × RateLimiter)
    → passed.0 ≢ none
    → let_through out p piece attempt s passed ≢ none
let_through_total out p piece attempt s (none, limiter) some_answer e = some_answer refl
let_through_total out p piece attempt s (some false, limiter) some_answer e = cc
let_through_total out p piece attempt s (some true, limiter) some_answer e = cc

-- The limiter does not panic.
attempt_once_total :
    (out : Outside) (attempt : ℕ) (agent_id : String) (p : Provider) (piece : OutboundEvent)
    (s : Sent)
    → attempt_once out attempt agent_id p piece s ≢ none
unfolding attempt_once
attempt_once_total out attempt agent_id p piece s =
    let_through_total out p piece attempt s (may_send out agent_id p.capabilities piece s) (
      three_level_total (λ i. out.clock (i + s.next)) (subject_of out agent_id p.capabilities piece)
        s.limiter)

again_total :
    (step : Option (Bool × Sent)) (again : Sent → Option Sent)
    → step ≢ none
    → ((s : Sent) → again s ≢ none)
    → (elim step [ none ↦ none | some st ↦ elim st.0 [ true ↦ some st.1 | false ↦ again st.1 ] ])
      ≢ none
again_total none again some_step rest e = some_step refl
again_total (some (true, s)) again some_step rest e = cc
again_total (some (false, s)) again some_step rest e = rest s e

try_piece_total :
    (out : Outside) (left : ℕ) (agent_id : String) (p : Provider) (piece : OutboundEvent) (s : Sent)
    → try_piece out left agent_id p piece s ≢ none
unfolding try_piece
try_piece_total out zero agent_id p piece s = λ e. cc
try_piece_total out (suc left) agent_id p piece s =
    again_total (attempt_once out (5 - left) agent_id p piece s)
      (try_piece out left agent_id p piece) (attempt_once_total out (5 - left) agent_id p piece s)
      (try_piece_total out left agent_id p piece)

rest_total :
    (run : Option Sent) (rest : Sent → Option Sent)
    → run ≢ none
    → ((s : Sent) → rest s ≢ none)
    → (elim run [ none ↦ none | some s ↦ elim s.error [ none ↦ rest s | some message ↦ some s ] ])
      ≢ none
rest_total none rest some_run total e = some_run refl
rest_total (some s) rest some_run total e = elim (Option-cases s.error) [
  | inl fresh ↦ total s (rw fresh at e)
  | inr (message, bad) ↦ never (rw bad at e)
]
  where
    never : ◌≢◌ {A = Option Sent} (some s) none
    never p = cc

send_segments_total :
    (out : Outside) (agent_id : String) (p : Provider) (event : OutboundEvent)
    (segments : List String) (s : Sent)
    → send_segments out agent_id p event segments s ≢ none
unfolding send_segments
send_segments_total out agent_id p event [] s = λ e. cc
send_segments_total out agent_id p event (seg ∷ segments) s =
    let piece = record event { text_markdown = seg } in
    rest_total (try_piece out 5 agent_id p piece s) (send_segments out agent_id p event segments)
      (try_piece_total out 5 agent_id p piece s) (send_segments_total out agent_id p event segments)

pub send_with_retry_total :
    (out : Outside) (agent_id : String) (p : Provider) (event : OutboundEvent) (next : ℕ)
    (g : Gateway)
    → send_with_retry out agent_id p event next g ≢ none
unfolding send_with_retry
send_with_retry_total out agent_id p event next g =
    send_segments_total out agent_id p (degraded out p event) (segments_of out p event)
      (unsent out next g)
