-- ===== src/Gateway/Events.antt =====
-- What the communication gateway sends and keeps (cli/gateway/types.go), and the helpers on its texts
-- (cli/gateway/gateway.go). A `time.Time` is its distance in nanoseconds from Go's zero time.
use xclaw.Prelude.{ℕ, Bool, List, String, str_eq, to_lower, trim_space, ◌<>◌, ◌||◌, if◌then◌else◌}
use xclaw.Prelude.Dict.{Dict}
use xclaw.Gateway.Stream.{CapabilityProfile}

pub record Attachment : Type 0 where
  pub kind : String
  pub url : String
  pub file_name : String
  pub mime : String
  pub size : ℕ

pub record Action : Type 0 where
  pub label : String
  pub value : String
  pub url : String

pub record OutboundEvent : Type 0 where
  pub message_id : String
  pub target : String
  pub platform : String
  pub chat_id : String
  pub thread_id : String
  pub reply_to_id : String
  pub text_markdown : String
  pub actions : List Action
  pub attachments : List Attachment
  pub stream : Bool
  pub phase : String
  pub idempotency_key : String
  pub priority : String
  pub ttl_seconds : ℕ

pub record SendResult : Type 0 where
  pub provider_message_id : String
  pub status : String
  pub retry_count : ℕ
  pub latency_ms : ℕ

abbrev pub no_result : SendResult
no_result = record { provider_message_id = ""; status = ""; retry_count = 0; latency_ms = 0 }

pub record Binding : Type 0 where
  pub id : String
  pub agent_id : String
  pub platform : String
  pub chat_id : String
  pub thread_id : String
  pub sender_id : String
  pub display_name : String
  pub enabled : Bool
  pub metadata : Dict String
  pub updated_at : ℕ

pub record Config : Type 0 where
  pub default_target : String
  pub fallback_targets : List String
  pub quiet_hours_start : String
  pub quiet_hours_end : String

pub record DlqItem : Type 0 where
  pub id : String
  pub agent_id : String
  pub target : String
  pub event : OutboundEvent
  pub error : String
  pub retry_count : ℕ
  pub created_at : ℕ

-- What a `Provider` says of itself.
pub record Provider : Type 0 where
  pub name : String
  pub capabilities : CapabilityProfile

unfoldable pub join_target : String → String → String → String
join_target platform chat_id thread_id =
    let p = trim_space (to_lower platform) in
    let c = trim_space chat_id in
    let t = trim_space thread_id in
    if str_eq p "" || str_eq c ""
    then ""
    else if str_eq t ""
    then p <> ":" <> c
    else p <> ":" <> c <> ":" <> t

unfoldable pub normalize_presence : String → String
normalize_presence state =
    let s = to_lower (trim_space state) in
    if str_eq s "thinking" || str_eq s "typing" || str_eq s "executing" || str_eq s "idle"
    then s
    else "typing"
