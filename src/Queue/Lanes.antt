-- ===== src/Queue/Lanes.antt =====
-- The lane queue: cli/queue/lanes.go. Its goroutines take steps; a step that has to wait is one that is
-- not possible yet. A task is a number.
pub mod Changes
pub mod Bound
pub mod Buffers
pub mod Order
mod Examples
use xclaw.Prelude.{
  ℕ, ◌+◌, ◌-◌, ◌≡◌, Bool, true, false, ◌&&◌, not, List, [], ◌∷◌, ◌++◌, Option, none, some, String,
  length, ltb, ◌==◌, if◌then◌else◌, str_eq,
}
use xclaw.Prelude.Dict as Dict
use xclaw.Prelude.Dict.{Dict}

-- Where runLane stands: at the receive, at the wait for a token with a task, or in the task.
pub data Phase : Type 0 where
  idle : Phase
  waiting : ℕ → Phase
  running : ℕ → Phase

pub record Lane : Type 0 where
  pub buffer : List ℕ
  pub phase : Phase

-- `tokens` is how many the channel globalTokens holds, of `capacity`.
pub record LaneQueue : Type 0 where
  pub capacity : ℕ
  pub tokens : ℕ
  pub lanes : Dict Lane
  pub closed : Bool

abbrev pub new_lane_queue : ℕ → LaneQueue
new_lane_queue n = record {
  capacity = if n == 0 then 16 else n;
  tokens = 0;
  lanes = [];
  closed = false;
}

abbrev pub lane_size : ℕ
lane_size = 128

-- What goroutines do: Enqueue up to the unlock and its send; the receive of runLane, the token that it
-- gets or gives up, the end of the task, the end of runLane; and Close.
pub data Action : Type 0 where
  enter : String → Action
  send : String → ℕ → Action
  take : String → Action
  acquire : String → Action
  give_up : String → Action
  finish : String → Action
  leave : String → Action
  close : Action

abbrev pub with_lane : String → Lane → LaneQueue → LaneQueue
with_lane id lane q = record q { lanes = Dict.insert id lane q.lanes }

-- Enqueue up to the unlock; on a closed queue it ends there.
unfoldable pub enter_lane : String → LaneQueue → LaneQueue
enter_lane id q = if q.closed then q else elim (Dict.lookup id q.lanes) [
  | none ↦ with_lane id (record { buffer = []; phase = idle }) q
  | some lane ↦ q
]

-- `lane <- env`, which waits while the buffer is full.
unfoldable pub send_lane : ℕ → Phase → List ℕ → Option Lane
send_lane task phase buffer =
    if ltb (length buffer) lane_size
    then some (record { buffer = buffer ++ task ∷ []; phase = phase })
    else none

abbrev pub at : Phase → List ℕ → Lane
at phase buffer = record { buffer = buffer; phase = phase }

-- for env := range lane
unfoldable pub take_lane : Phase → List ℕ → Option Lane
take_lane idle (task ∷ rest) = some (at (waiting task) rest)
take_lane phase buffer = none

-- q.globalTokens <- struct{}{}, which waits while there are as many tokens as the capacity.
unfoldable pub acquire_lane : Bool → Phase → List ℕ → Option Lane
acquire_lane true (waiting task) buffer = some (at (running task) buffer)
acquire_lane free phase buffer = none

-- <-env.ctx.Done() in the wait for a token
unfoldable pub give_up_lane : Phase → List ℕ → Option Lane
give_up_lane (waiting task) buffer = some (at idle buffer)
give_up_lane phase buffer = none

-- The task returns: <-q.globalTokens.
unfoldable pub finish_lane : Phase → List ℕ → Option Lane
finish_lane (running task) buffer = some (at idle buffer)
finish_lane phase buffer = none

-- The loop of runLane ends: the channel is closed and empty.
unfoldable pub may_leave : Bool → Phase → List ℕ → Bool
may_leave true idle [] = true
may_leave closed phase buffer = false

abbrev pub on_lane :
    String → (Phase → List ℕ → Option Lane) → (LaneQueue → LaneQueue) → LaneQueue → Option LaneQueue
on_lane id change after q = elim (Dict.lookup id q.lanes) [
  | none ↦ none
  | some lane ↦ elim (change lane.phase lane.buffer) [
    | none ↦ none
    | some lane' ↦ some (after (with_lane id lane' q))
  ]
]

abbrev pub same : LaneQueue → LaneQueue
same q = q

-- `none`: the step is not possible. A send to a lane of a closed queue panics, so no step follows it.
unfoldable pub act : Action → LaneQueue → Option LaneQueue
unfolding enter_lane send_lane take_lane acquire_lane give_up_lane finish_lane may_leave
act (enter id) q = some (enter_lane id q)
act (send id task) q = if q.closed then none else on_lane id (send_lane task) same q
act (take id) q = on_lane id take_lane same q
act (acquire id) q =
    on_lane id (acquire_lane (ltb q.tokens q.capacity)) (λ r. record r { tokens = r.tokens + 1 }) q
act (give_up id) q = on_lane id give_up_lane same q
act (finish id) q = on_lane id finish_lane (λ r. record r { tokens = r.tokens - 1 }) q
act (leave id) q = elim (Dict.lookup id q.lanes) [
  | none ↦ none
  | some lane ↦
      if may_leave q.closed lane.phase lane.buffer
      then some (record q { lanes = Dict.erase id q.lanes })
      else none
]
act close q = some (record q { closed = true })

-- What a queue can come to by steps of its goroutines, in any order.
pub data Reaches (q : LaneQueue) : LaneQueue → Type 0 where
  here : Reaches q q
  step : {r r' : LaneQueue} → Reaches q r → (a : Action) → act a r ≡ some r' → Reaches q r'
