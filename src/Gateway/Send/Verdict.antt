-- ===== src/Gateway/Send/Verdict.antt =====
-- What each answer of `Send` of cli/gateway/gateway.go means: what went out, what was looked at, and
-- what is kept.
use xclaw.Prelude.{
  ℕ, suc, ◌+◌, ◌*◌, ◌<◌, ◌≡◌, true, false, List, [], ◌∷◌, ◌++◌, length, Option, none, some, String,
  trim_space, ◌⊎◌,
}
use xclaw.Prelude.Dict
use xclaw.Prelude.Result.{err}
use xclaw.Gateway.Reliability.{day}
use xclaw.Gateway.RateLimiter.{RateLimiter}
use xclaw.Gateway.Stream.{CapabilityProfile}
use xclaw.Gateway.Events.{Action, OutboundEvent, DlqItem, Provider}
use xclaw.Gateway.Adapter.{ContentAdapter, adapt}
use xclaw.Gateway.Targets.{resolve_target, get_provider, in_quiet_hours}
use xclaw.Gateway.Delivery.{Gateway, Outside, degraded, segments_of}
use xclaw.Gateway.Delivery.GoesOut.{GoesOut}
use xclaw.Gateway.Send.{SendOutcome, is_urgent}

-- The text, or what Adapt has made of it for a platform, or of that for the next one.
pub data TextFrom (headings : String → List ℕ) (text : String) : String → Type 0 where
  as_given : TextFrom headings text text
  adapted :
      {s : String} (actions : List Action) (caps : CapabilityProfile) (a : ContentAdapter)
      → TextFrom headings text s
      → TextFrom headings text (adapt headings s actions caps a).0.0

module _ (out : Outside) (agent_id : String) (base : OutboundEvent) where
  -- The event is the message `base`, with its text perhaps adapted.
  abbrev pub SameMessage : OutboundEvent → Type 0
  SameMessage event =
      (event.idempotency_key ≡ base.idempotency_key)
      × (event.attachments ≡ base.attachments)
      × (event.reply_to_id ≡ base.reply_to_id)
      × (event.priority ≡ base.priority)
      × TextFrom out.headings base.text_markdown event.text_markdown

  -- The provider of the message's platform, or the console.
  abbrev pub Takes : Provider → String → Gateway → Type 0
  Takes p platform g =
      (get_provider platform g.providers ≡ some p) ⊎ (get_provider "console" g.providers ≡ some p)

  -- The message was sent: each segment of it was let through and taken by its provider, and then, by the
  -- last event of the call, its key was marked for a day.
  abbrev pub WasSent : SendOutcome → Type 0
  WasSent o =
      (p : Provider) × (event : OutboundEvent) × (first : ℕ) × (limiter : RateLimiter)
      × (SameMessage event × Takes p event.platform o.gateway)
      × GoesOut out agent_id p (degraded out p event) (segments_of out p event) first limiter
      × (o.next ≡ suc (length (segments_of out p event) * 10 + first))
      × (Dict.lookup base.idempotency_key o.gateway.reliability.outbound_idem.items
          ≡ some (out.clock (length (segments_of out p event) * 10 + first) + day))

  -- By the last event of the call, the key counted as sent.
  abbrev pub WasMarked : SendOutcome → Type 0
  WasMarked o =
      (n : ℕ) × (until : ℕ) × (o.next ≡ suc n)
      × (Dict.lookup base.idempotency_key o.gateway.reliability.outbound_idem.items ≡ some until)
      × (out.clock n < until)

  -- By the last event of the call, it was quiet, and the message is not urgent.
  abbrev pub IsQuiet : SendOutcome → Type 0
  IsQuiet o =
      (n : ℕ) × (o.next ≡ suc n)
      × (in_quiet_hours out.clock_minutes (out.minute_of_day n) o.gateway.config ≡ true)
      × (is_urgent base ≡ false)

  -- The last of the undelivered is the message, with the error.
  abbrev pub Kept : String → SendOutcome → Type 0
  Kept message o =
      (front : List DlqItem) × (item : DlqItem) × (o.gateway.dlq ≡ front ++ (item ∷ []))
      × SameMessage item.event
      × (item.agent_id ≡ trim_space agent_id)
      × (item.error ≡ message)

  -- The target names a binding that the gateway does not have.
  abbrev pub IsUnbound : String → SendOutcome → Type 0
  IsUnbound message o =
      (raw : String) × (event : OutboundEvent) × (resolve_target o.gateway.config o.gateway.bindings
          o.gateway.last_targets agent_id raw event
        ≡ err message)
      × (message ≡ "binding not found")

  abbrev pub IsUnprovided : String → SendOutcome → Type 0
  IsUnprovided message o =
      (message ≡ "no provider") × (get_provider "console" o.gateway.providers ≡ none)

  abbrev pub Settled : SendOutcome → Option String → Type 0
  Settled o none =
      ((o.result.status ≡ "idempotent_skip") × WasMarked o)
      ⊎ ((o.result.status ≡ "deferred_quiet_hours") × IsQuiet o)
      ⊎ WasSent o
  Settled o (some message) = IsUnbound message o ⊎ IsUnprovided message o ⊎ Kept message o

  abbrev pub Accounted : SendOutcome → Type 0
  Accounted o = Settled o o.error
