-- ===== src/Engine/EventHub/Examples.antt =====
-- A hub with two sessions.
use xclaw.Prelude.{
  ℕ, ◌≡◌, refl, arith, true, false, List, [], ◌∷◌, ◌++◌, length, ◌≤◌, Option, none, some, String,
  show_decimal,
}
use xclaw.Prelude.Dict
use xclaw.Engine.EventHub.{
  EventFrame, EventHub, subscribe_since, unsubscribe, is_closed, record_event, publish, deliver,
  history_of, trimmed, send, send_all, is_member,
}
use xclaw.Engine.EventHub.Order.{
  Operation, subscribe_op, record_op, deliver_op, perform, perform_all, IsOrdered, ascends,
  perform_all-IsOrdered,
}
use xclaw.Engine.EventHub.Backlog.{backlog_split}
use xclaw.Engine.EventHub.Delivery.{has_channel, leaving_panics}

abbrev encode : ℕ → Option String
encode n = some (show_decimal n)

abbrev frame : ℕ → String → EventFrame
frame n payload = record { sequence = n; payload = payload }

-- Channel 0 listens to session "a", and three events are recorded, two of them for it.
abbrev operations : List Operation
operations =
    subscribe_op "a" 0
    ∷ record_op encode "a"
    ∷ record_op encode "b"
    ∷ record_op encode "a"
    ∷ deliver_op (some (frame 1 "1", 0 ∷ []))
    ∷ []

abbrev busy_hub : EventHub
busy_hub = record {
  subscribers = ("a", 0 ∷ []) ∷ [];
  history = ("a", frame 1 "1" ∷ frame 3 "3" ∷ []) ∷ ("b", frame 2 "2" ∷ []) ∷ [];
  next_seq = 3;
  max_history = 512;
  channels = record { number = 0; frames = frame 1 "1" ∷ []; closed = false } ∷ [];
}

perform_all-IsOrdered_example : IsOrdered busy_hub "a" × (length (history_of "a" busy_hub) ≤ 512)
unfolding perform_all perform subscribe_since unsubscribe record_event deliver send_all send
    is_member trimmed show_decimal Dict.lookup Dict.insert
perform_all-IsOrdered_example = perform_all-IsOrdered operations "a" busy_hub refl

backlog_split_example :
    (older : List EventFrame) × (history_of "a" busy_hub
      ≡ older ++ (subscribe_since "a" 1 busy_hub).0.1)
    × (ascends 0 1 older ≡ true)
    × (ascends 1 busy_hub.next_seq (subscribe_since "a" 1 busy_hub).0.1 ≡ true)
unfolding ascends Dict.lookup
backlog_split_example = backlog_split busy_hub "a" 1 (omega arith) (refl, omega arith)

leaving_panics_example :
    (h' : EventHub) × (unsubscribe "a" 0 (record_event encode "a" busy_hub).1 ≡ some h')
    × (deliver (record_event encode "a" busy_hub).0 h' ≡ none)
unfolding is_member has_channel is_closed Dict.lookup show_decimal
leaving_panics_example = leaving_panics encode "a" 0 busy_hub "4" refl refl refl refl

-- The channel that stays gets the frame.
published :
    publish encode "a" busy_hub
    ≡ some (record busy_hub {
      next_seq = 4;
      history = ("a", frame 1 "1" ∷ frame 3 "3" ∷ frame 4 "4" ∷ []) ∷ ("b", frame 2 "2" ∷ []) ∷ [];
      channels =
          record { number = 0; frames = frame 1 "1" ∷ frame 4 "4" ∷ []; closed = false } ∷ [];
    })
unfolding publish record_event deliver send_all send is_member trimmed show_decimal Dict.lookup
    Dict.insert
published = refl
