-- ===== src/Engine/EventHub.antt =====
-- The event hub: cli/engine/event_hub.go. A channel has a number, in the order of creation, and holds
-- the frames that its reader has not taken; json.Marshal's answer for an event is an argument.
pub mod Order
pub mod Delivery
pub mod Backlog
mod Examples
use xclaw.Prelude.{
  ℕ, ◌+◌, ◌-◌, Bool, true, false, ◌&&◌, ◌||◌, not, List, [], ◌∷◌, ◌++◌, Option, none, some, String,
  length, drop, ltb, leb, ◌==◌, if◌then◌else◌,
}
use xclaw.Prelude.Dict as Dict
use xclaw.Prelude.Dict.{Dict}

pub record EventFrame : Type 0 where
  pub sequence : ℕ
  pub payload : String

pub record Channel : Type 0 where
  pub number : ℕ
  pub frames : List EventFrame
  pub closed : Bool

-- `subscribers` has the numbers of the channels, `channels` what each of them holds.
pub record EventHub : Type 0 where
  pub subscribers : Dict (List ℕ)
  pub history : Dict (List EventFrame)
  pub next_seq : ℕ
  pub max_history : ℕ
  pub channels : List Channel

abbrev pub new_event_hub : EventHub
new_event_hub = record {
  subscribers = [];
  history = [];
  next_seq = 0;
  max_history = 512;
  channels = [];
}

abbrev pub channel_size : ℕ
channel_size = 128

abbrev pub list_or_empty {ℓ} : {A : Type ℓ} → Option (List A) → List A
list_or_empty none = []
list_or_empty (some xs) = xs

abbrev pub history_of : String → EventHub → List EventFrame
history_of session h = list_or_empty (Dict.lookup session h.history)

abbrev pub subscribers_of : String → EventHub → List ℕ
subscribers_of session h = list_or_empty (Dict.lookup session h.subscribers)

-- The frames of the history behind `after`.
unfoldable pub frames_after : ℕ → List EventFrame → List EventFrame
frames_after after [] = []
frames_after after (f ∷ history) =
    let rest = frames_after after history in if ltb after f.sequence then f ∷ rest else rest

-- The new channel and the backlog; 0 stands for every `after` that is not positive.
unfoldable pub subscribe_since : String → ℕ → EventHub → (ℕ × List EventFrame) × EventHub
subscribe_since session after h =
    let ch = length h.channels in
    let history = history_of session h in
    (
      (ch, if after == 0 then [] else frames_after after history),
      record h {
        subscribers = Dict.insert session (ch ∷ subscribers_of session h) h.subscribers;
        channels = h.channels ++ record { number = ch; frames = []; closed = false } ∷ [];
      },
    )

unfoldable pub subscribe : String → EventHub → ℕ × EventHub
unfolding subscribe_since
subscribe session h = let (answer, h') = subscribe_since session 0 h in (answer.0, h')

unfoldable pub without : ℕ → List ℕ → List ℕ
without ch [] = []
without ch (c ∷ cs) = let rest = without ch cs in if c == ch then rest else c ∷ rest

-- close(ch)
unfoldable pub close : ℕ → List Channel → List Channel
close ch [] = []
close ch (c ∷ cs) = (if c.number == ch then record c { closed = true } else c) ∷ close ch cs

abbrev pub store_bucket : String → List ℕ → Dict (List ℕ) → Dict (List ℕ)
store_bucket session [] subscribers = Dict.erase session subscribers
store_bucket session (c ∷ cs) subscribers = Dict.insert session (c ∷ cs) subscribers

unfoldable pub is_closed : ℕ → List Channel → Bool
is_closed ch [] = false
is_closed ch (c ∷ cs) = c.number == ch && c.closed || is_closed ch cs

-- The hub without a subscriber, whose channel is closed.
unfoldable pub left_by : String → ℕ → EventHub → EventHub
left_by session ch h = elim (Dict.lookup session h.subscribers) [
  | none ↦ record h { channels = close ch h.channels }
  | some bucket ↦ record h {
    subscribers = store_bucket session (without ch bucket) h.subscribers;
    channels = close ch h.channels;
  }
]

-- `none` is the panic at a channel that is closed already.
unfoldable pub unsubscribe : String → ℕ → EventHub → Option EventHub
unfolding left_by is_closed
unsubscribe session ch h = if is_closed ch h.channels then none else some (left_by session ch h)

unfoldable pub is_member : ℕ → List ℕ → Bool
is_member n [] = false
is_member n (x ∷ xs) = x == n || is_member n xs

-- `select { case ch <- frame: default: }`: a full channel misses the frame, a closed one panics.
unfoldable pub send : EventFrame → Channel → Option Channel
send frame c =
    if c.closed
    then none
    else if ltb (length c.frames) channel_size
    then some (record c { frames = c.frames ++ frame ∷ [] })
    else some c

abbrev pub cons_option : Option Channel → Option (List Channel) → Option (List Channel)
cons_option (some c) (some cs) = some (c ∷ cs)
cons_option (some c) none = none
cons_option none cs = none

-- The sends to the channels that were subscribed; `none` is a panic.
unfoldable pub send_all : EventFrame → List ℕ → List Channel → Option (List Channel)
send_all frame targets [] = some []
send_all frame targets (c ∷ cs) =
    let rest = send_all frame targets cs in
    cons_option (if is_member c.number targets then send frame c else some c) rest

-- The last `max` frames.
unfoldable pub trimmed : ℕ → List EventFrame → List EventFrame
trimmed max history =
    if ltb max (length history) then drop (length history - max) history else history

-- Publish up to the unlock: the sequence number, the history, and the frame for the subscribers that
-- are there; `encode` is json.Marshal on the event with its number. The number is used up even if
-- that fails.
unfoldable pub record_event :
    (ℕ → Option String) → String → EventHub → Option (EventFrame × List ℕ) × EventHub
record_event encode session h =
    let seq = h.next_seq + 1 in
    elim (encode seq) [
      | none ↦ (none, record h { next_seq = seq })
      | some payload ↦
          let frame : EventFrame = record { sequence = seq; payload = payload } in
          (
            some (frame, subscribers_of session h),
            record h {
              next_seq = seq;
              history =
                  Dict.insert session (trimmed h.max_history (history_of session h ++ frame ∷ []))
                    h.history;
            },
          )
    ]

-- Publish behind the unlock, when other calls may have come in between.
unfoldable pub deliver : Option (EventFrame × List ℕ) → EventHub → Option EventHub
deliver none h = some h
deliver (some (frame, targets)) h = elim (send_all frame targets h.channels) [
  | none ↦ none
  | some channels ↦ some (record h { channels = channels })
]

-- Publish, if no other call comes between its halves.
unfoldable pub publish : (ℕ → Option String) → String → EventHub → Option EventHub
unfolding record_event deliver send_all send is_member trimmed
publish encode session h = let (sent, h') = record_event encode session h in deliver sent h'
