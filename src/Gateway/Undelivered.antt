-- ===== src/Gateway/Undelivered.antt =====
-- The messages that could not be sent (cli/gateway/gateway.go): `ListDLQ`, `ReplayDLQ`, `DeleteDLQ`,
-- `BatchRetryDLQ` and `PurgeDLQ`, and `SendPresence`. `fuel` is for `Send`; what is saved is not
-- modelled. The list is sorted as sort.Slice sorts up to twelve.
use xclaw.Prelude.{
  ℕ, suc, ◌-◌, ◌*◌, ◌^◌, false, List, [], ◌∷◌, length, Option, none, some, String, str_eq,
  trim_space, ltb, ◌==◌, if◌then◌else◌,
}
use xclaw.Prelude.Dict
use xclaw.Prelude.Dict.{Dict}
use xclaw.Prelude.Result.{Result, ok, err}
use xclaw.Gateway.Events.{OutboundEvent, DlqItem, normalize_presence}
use xclaw.Gateway.Delivery.{Gateway, Outside}
use xclaw.Gateway.Send.{SendOutcome, send}

pub record PresenceEvent : Type 0 where
  pub platform : String
  pub chat_id : String
  pub thread_id : String
  pub state : String
  pub message : String
  pub ttl_ms : ℕ

abbrev presence_message : String → PresenceEvent → OutboundEvent
presence_message target presence = record {
  message_id = "";
  target = target;
  platform = presence.platform;
  chat_id = presence.chat_id;
  thread_id = presence.thread_id;
  reply_to_id = "";
  text_markdown = trim_space presence.message;
  actions = [];
  attachments = [];
  stream = false;
  phase = normalize_presence presence.state;
  idempotency_key = "";
  priority = "normal";
  ttl_seconds = 0;
}

unfoldable pub insert_item : DlqItem → List DlqItem → List DlqItem
insert_item i [] = i ∷ []
insert_item i (q ∷ items) =
    let further = q ∷ insert_item i items in
    if ltb i.created_at q.created_at then further else i ∷ q ∷ items

unfoldable pub list_dlq : List DlqItem → List DlqItem
unfolding insert_item
list_dlq [] = []
list_dlq (i ∷ items) = insert_item i (list_dlq items)

unfoldable pub find_item : String → List DlqItem → Option DlqItem
find_item id [] = none
find_item id (i ∷ items) = let rest = find_item id items in if str_eq i.id id then some i else rest

unfoldable pub without_item : String → List DlqItem → List DlqItem
without_item id [] = []
without_item id (i ∷ items) =
    let rest = without_item id items in if str_eq i.id id then rest else i ∷ rest

unfoldable pub delete_dlq : String → Gateway → Result String Gateway
unfolding without_item
delete_dlq raw g =
    let id = trim_space raw in
    if str_eq id "" then err "dlq id required" else ok (record g { dlq = without_item id g.dlq })

-- 30 * 24 * time.Hour
abbrev month : ℕ
month = 30 * 24 * 3600 * 10 ^ 9

unfoldable pub older_than : ℕ → List DlqItem → List DlqItem
older_than cutoff [] = []
older_than cutoff (i ∷ items) =
    let rest = older_than cutoff items in if ltb i.created_at cutoff then rest else i ∷ rest

-- How many were purged, and what is left.
unfoldable pub purge_dlq : ℕ → ℕ → Gateway → ℕ × Gateway
unfolding older_than
purge_dlq now max_age g =
    let age = if max_age == 0 then month else max_age in
    let left = older_than (now - age) g.dlq in (length g.dlq - length left, record g { dlq = left })

unfoldable pub items_named : List String → List DlqItem → Dict DlqItem
unfolding find_item
items_named [] items = []
items_named (id ∷ ids) items =
    let rest = items_named ids items in
    elim (find_item (trim_space id) items) [
      | none ↦ rest
      | some i ↦ Dict.insert (trim_space id) i rest
    ]

-- What an operation that sends answers: its error, the next event, and the gateway after it.
pub record Replayed : Type 0 where
  pub error : Option String
  pub next : ℕ
  pub gateway : Gateway

module _ (out : Outside) (fuel : ℕ) where
  unfoldable pub send_presence : ℕ → String → String → PresenceEvent → Gateway → Option Replayed
  send_presence next agent_id target presence g =
      elim (send out fuel next agent_id target (presence_message target presence) g) [
        | none ↦ none
        | some o ↦ some (record { error = o.error; next = o.next; gateway = o.gateway })
      ]

  abbrev refused_with : String → ℕ → Gateway → Option Replayed
  refused_with message next g = some (record { error = some message; next = next; gateway = g })

  -- An item without an id is not deleted.
  abbrev without_sent : String → SendOutcome → Gateway
  without_sent id o =
      if str_eq id "" then o.gateway else record (o.gateway) { dlq = without_item id o.gateway.dlq }

  -- The item is deleted by its id where it could be sent.
  abbrev after_replay : String → Option SendOutcome → Option Replayed
  after_replay id none = none
  after_replay id (some o) = elim o.error [
    | some message ↦ refused_with message o.next o.gateway
    | none ↦ some (record { error = none; next = o.next; gateway = without_sent id o })
  ]

  unfoldable pub replay_dlq : ℕ → String → Gateway → Option Replayed
  unfolding find_item
  replay_dlq next raw g =
      let id = trim_space raw in
      if str_eq id "" then refused_with "dlq id required" next g else elim (find_item id g.dlq) [
        | none ↦ refused_with "dlq item not found" next g
        | some i ↦ after_replay id (send out fuel next i.agent_id i.target i.event g)
      ]

  -- The loop over the ids, with how many went out so far and the last error.
  unfoldable pub retry_items :
      Dict DlqItem
      → List String
      → ℕ
      → Option String
      → ℕ
      → Gateway
      → Option (ℕ × Option String × ℕ × Gateway)
  retry_items items [] retried last next g = some (retried, last, next, g)
  retry_items items (raw ∷ ids) retried last next g =
      let id = trim_space raw in
      elim (Dict.lookup id items) [
        | none ↦ retry_items items ids retried last next g
        | some i ↦ elim (send out fuel next i.agent_id i.target i.event g) [
          | none ↦ none
          | some o ↦ elim o.error [
            | some message ↦ retry_items items ids retried (some message) o.next o.gateway
            | none ↦ retry_items items ids (suc retried) last o.next (without_sent id o)
          ]
        ]
      ]

  unfoldable pub batch_retry_dlq :
      ℕ → List String → Gateway → Option (ℕ × Option String × ℕ × Gateway)
  unfolding items_named retry_items
  batch_retry_dlq next ids g = retry_items (items_named ids g.dlq) ids 0 none next g
