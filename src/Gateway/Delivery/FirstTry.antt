-- ===== src/Gateway/Delivery/FirstTry.antt =====
-- What an error that `sendWithRetry` of cli/gateway/gateway.go does not give says of the attempts: its
-- `lastErr` stays set when a later attempt goes through.
use xclaw.Prelude.{
  ℕ, zero, suc, ◌-◌, ◌+◌, ◌≡◌, ◌≢◌, refl, Bool, true, false, List, [], ◌∷◌, Option, none, some,
  String, Option-cases, inl, inr, ◌↔◌,
}
use xclaw.Prelude.Result.{Result, ok, err}
use xclaw.Gateway.RateLimiter.{RateLimiter}
use xclaw.Gateway.Events.{OutboundEvent, SendResult, Provider}
use xclaw.Gateway.Delivery.{
  Gateway, Outside, Sent, may_send, told_by, let_through, attempt_once, try_piece, send_segments,
  degraded, segments_of, unsent, send_with_retry,
}

module _ (out : Outside) where
  -- Each piece goes out at its first attempt: the limiter lets it through and the provider takes it.
  abbrev pub at_first : Option (Bool × Sent) → Option Sent
  at_first none = none
  at_first (some (false, s)) = none
  at_first (some (true, s)) = some s

  unfoldable pub at_once : String → Provider → OutboundEvent → List String → Sent → Option Sent
  at_once agent_id p event [] s = some s
  at_once agent_id p event (seg ∷ segments) s =
      elim (at_first (attempt_once out 1 agent_id p (record event { text_markdown = seg }) s)) [
        | none ↦ none
        | some s' ↦ at_once agent_id p event segments s'
      ]

  -- An attempt that was the last keeps the error, and one that was not sets it.
  abbrev KeepsError : Sent → Option (Bool × Sent) → Type 0
  KeepsError s none = Unit
  KeepsError s (some (true, s')) = s'.error ≡ s.error
  KeepsError s (some (false, s')) = s'.error ≢ none

  told_by-KeepsError :
      (p : Provider) (attempt : ℕ) (limiter : RateLimiter) (s : Sent)
      (res : Result String SendResult)
      → KeepsError s (some (told_by out p attempt limiter s res))
  told_by-KeepsError p attempt limiter s (ok res) = refl
  told_by-KeepsError p attempt limiter s (err message) = λ e. cc

  let_through-KeepsError :
      (p : Provider) (piece : OutboundEvent) (attempt : ℕ) (s : Sent)
      (passed : Option Bool × RateLimiter)
      → KeepsError s (let_through out p piece attempt s passed)
  let_through-KeepsError p piece attempt s (none, limiter) = tt
  let_through-KeepsError p piece attempt s (some false, limiter) = λ e. cc
  let_through-KeepsError p piece attempt s (some true, limiter) =
      told_by-KeepsError p attempt limiter s (out.provider_send (7 + s.next) p.name piece)

  attempt_once-KeepsError :
      (attempt : ℕ) (agent_id : String) (p : Provider) (piece : OutboundEvent) (s : Sent)
      → KeepsError s (attempt_once out attempt agent_id p piece s)
  unfolding attempt_once
  attempt_once-KeepsError attempt agent_id p piece s =
      let_through-KeepsError p piece attempt s (may_send out agent_id p.capabilities piece s)

  abbrev or_again : (Sent → Option Sent) → Option (Bool × Sent) → Option Sent
  or_again again step = elim step [
    | none ↦ none
    | some st ↦ elim st.0 [ true ↦ some st.1 | false ↦ again st.1 ]
  ]

  -- No error is left where there was one before.
  abbrev Clean : (Sent → Option Sent) → Type 0
  Clean run = (s s' : Sent) → run s ≡ some s' → s'.error ≡ none → s.error ≡ none

  or_again-Clean :
      (again : Sent → Option Sent) (s s' : Sent) (step : Option (Bool × Sent))
      → Clean again
      → KeepsError s step
      → or_again again step ≡ some s'
      → s'.error ≡ none
      → s.error ≡ none
  or_again-Clean again s s' none clean keeps e no_error = absurd cc
  or_again-Clean again s s' (some (true, s₁)) clean keeps e no_error = cc
  or_again-Clean again s s' (some (false, s₁)) clean keeps e no_error =
      absurd (keeps (clean s₁ s' e no_error))

  try_piece-Clean :
      (left : ℕ) (agent_id : String) (p : Provider) (piece : OutboundEvent)
      → Clean (try_piece out left agent_id p piece)
  unfolding try_piece
  try_piece-Clean zero agent_id p piece s s' e no_error = cc
  try_piece-Clean (suc left) agent_id p piece s s' e no_error =
      or_again-Clean (try_piece out left agent_id p piece) s s'
        (attempt_once out (5 - left) agent_id p piece s) (try_piece-Clean left agent_id p piece)
        (attempt_once-KeepsError (5 - left) agent_id p piece s) e no_error

  -- The results without an error of the one are the results of the other.
  abbrev Agree : Option Sent → Option Sent → Type 0
  Agree run once = (s' : Sent) → ((run ≡ some s') × (s'.error ≡ none)) ↔ (once ≡ some s')

  or_again-at_first :
      (again : Sent → Option Sent) (s : Sent) (step : Option (Bool × Sent))
      → s.error ≡ none
      → Clean again
      → KeepsError s step
      → Agree (or_again again step) (at_first step)
  or_again-at_first again s none fresh clean keeps s' = (λ e. absurd (cc e.0), λ e. absurd cc)
  or_again-at_first again s (some (true, s₁)) fresh clean keeps s' = (λ e. e.0, λ e. (e, cc))
  or_again-at_first again s (some (false, s₁)) fresh clean keeps s' =
      (λ e. absurd (keeps (clean s₁ s' e.0 e.1)), λ e. absurd cc)

  try_piece-first_try :
      (agent_id : String) (p : Provider) (piece : OutboundEvent) (s : Sent)
      → s.error ≡ none
      → Agree
          (try_piece out 5 agent_id p piece s)
          (at_first (attempt_once out 1 agent_id p piece s))
  unfolding try_piece
  try_piece-first_try agent_id p piece s fresh =
      or_again-at_first (try_piece out 4 agent_id p piece) s (attempt_once out 1 agent_id p piece s)
        fresh (try_piece-Clean 4 agent_id p piece) (attempt_once-KeepsError 1 agent_id p piece s)

  abbrev stop_at_error : (Sent → Option Sent) → Option Sent → Option Sent
  stop_at_error rest run = elim run [
    | none ↦ none
    | some s ↦ elim s.error [ none ↦ rest s | some message ↦ some s ]
  ]

  abbrev then_rest : (Sent → Option Sent) → Option Sent → Option Sent
  then_rest rest once = elim once [ none ↦ none | some s ↦ rest s ]

  stopped_agrees :
      (rest rest_once : Sent → Option Sent) (s₁ s' : Sent)
      → ((s : Sent) → s.error ≡ none → Agree (rest s) (rest_once s))
      → stop_at_error rest (some s₁) ≡ some s'
      → s'.error ≡ none
      → (s₁.error ≡ none) × (rest_once s₁ ≡ some s')
  stopped_agrees rest rest_once s₁ s' ih e no_error = elim (Option-cases s₁.error) [
    | inl fresh ↦ (fresh, (ih s₁ fresh s').0 (rw fresh at e, no_error))
    | inr (message, bad) ↦ absurd (bad_end bad (rw bad at e))
  ]
    where
      bad_end : {message : String} → s₁.error ≡ some message → some s₁ ≡ some s' → ⊥
      bad_end bad same = cc

  step_agrees :
      (rest rest_once : Sent → Option Sent) (run once : Option Sent)
      → ((s : Sent) → s.error ≡ none → Agree (rest s) (rest_once s))
      → Agree run once
      → Agree (stop_at_error rest run) (then_rest rest_once once)
  step_agrees rest rest_once run once ih agree s' = (to run agree, from once agree)
    where
      to :
          (run : Option Sent)
          → Agree run once
          → (stop_at_error rest run ≡ some s') × (s'.error ≡ none)
          → then_rest rest_once once ≡ some s'
      to none ag e = absurd (cc e.0)
      to (some s₁) ag e =
          let (fresh, out_at_once) = stopped_agrees rest rest_once s₁ s' ih e.0 e.1 in
          rw ((ag s₁).0 (refl, fresh)) out_at_once

      from :
          (once : Option Sent)
          → Agree run once
          → then_rest rest_once once ≡ some s'
          → (stop_at_error rest run ≡ some s') × (s'.error ≡ none)
      from none ag e = absurd cc
      from (some s₁) ag e =
          let (ran, fresh) = (ag s₁).1 refl in
          let (rested, no_error) = (ih s₁ fresh s').1 e in (rw (ran, fresh) rested, no_error)

  send_segments-at_once :
      (agent_id : String) (p : Provider) (event : OutboundEvent) (segments : List String) (s : Sent)
      → s.error ≡ none
      → Agree (send_segments out agent_id p event segments s) (at_once agent_id p event segments s)
  unfolding send_segments at_once
  send_segments-at_once agent_id p event [] s fresh = λ s'. (λ e. e.0, λ e. (e, cc))
  send_segments-at_once agent_id p event (seg ∷ segments) s fresh =
      let piece = record event { text_markdown = seg } in
      step_agrees (send_segments out agent_id p event segments) (at_once agent_id p event segments)
        (try_piece out 5 agent_id p piece s) (at_first (attempt_once out 1 agent_id p piece s))
        (send_segments-at_once agent_id p event segments)
        (try_piece-first_try agent_id p piece s fresh)

-- sendWithRetry gives no error exactly if the limiter lets each segment through and the provider takes
-- it at the first of the five attempts: a message that goes out at a later attempt is reported as
-- failed.
pub send_with_retry_iff-at_once :
    (out : Outside) (agent_id : String) (p : Provider) (event : OutboundEvent) (next : ℕ)
    (g : Gateway) (s : Sent)
    → ((send_with_retry out agent_id p event next g ≡ some s) × (s.error ≡ none)) ↔ (
        at_once out agent_id p (degraded out p event) (segments_of out p event) (unsent out next g)
        ≡ some s)
unfolding send_with_retry
send_with_retry_iff-at_once out agent_id p event next g =
    send_segments-at_once out agent_id p (degraded out p event) (segments_of out p event)
      (unsent out next g) refl
