-- ===== src/Gateway/Send/Accounts.antt =====
-- What becomes of a message in `Send` of cli/gateway/gateway.go: it is sent and marked, held back, or
-- kept with the undelivered.
use xclaw.Prelude.{ℕ, ◌+◌, ◌*◌, ◌≡◌, false, length, Option, none, some, String}
use xclaw.Prelude.Dict
use xclaw.Prelude.Dict.{Dict, lookup-insert}
use xclaw.Prelude.Result.{Result}
use xclaw.Gateway.Events.{OutboundEvent, Config, Provider}
use xclaw.Gateway.Targets.{get_provider}
use xclaw.Gateway.Delivery.{Gateway, Outside, Sent, degraded, segments_of}
use xclaw.Gateway.Delivery.GoesOut.{GoesOut}
use xclaw.Gateway.Send.Verdict.{SameMessage, Takes, Accounted}
use xclaw.Gateway.Send.{SendOutcome, Prepared, answer, deliver, is_blank}

module _ (out : Outside) (agent_id : String) (base : OutboundEvent)
    (some_key : is_blank base.idempotency_key ≡ false) where
  abbrev Same : OutboundEvent → Type 0
  Same = SameMessage out agent_id base

  abbrev At : Provider → String → Gateway → Type 0
  At = Takes out agent_id base

  abbrev Fine : SendOutcome → Type 0
  Fine = Accounted out agent_id base

  abbrev Answers : (ℕ → String → OutboundEvent → Gateway → Option SendOutcome) → Type 0
  Answers again =
      (next : ℕ) (target : String) (event : OutboundEvent) (g : Gateway) (o : SendOutcome)
      → Same event
      → again next target event g ≡ some o
      → Fine o

  -- What is known of a sending that left no error.
  abbrev Went : Provider → OutboundEvent → ℕ → Gateway → Sent → Type 0
  Went p event next g s =
      GoesOut out agent_id p (degraded out p event) (segments_of out p event) next g.rate_limiter
      × (s.next ≡ length (segments_of out p event) * 10 + next)

  -- The checks answer and account for it, or the message is as before.
  abbrev Ready : Config → Prepared → Type 0
  Ready cfg (answer o) = Fine o
  Ready cfg (deliver r p event next g) = Same event × At p event.platform g × (g.config ≡ cfg)

  -- The provider of the platform or the console, or there is no console.
  abbrev Picked : String → Gateway → Option Provider → Type 0
  Picked platform g none = get_provider "console" g.providers ≡ none
  Picked platform g (some p) = At p platform g
