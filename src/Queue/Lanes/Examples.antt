-- ===== src/Queue/Lanes/Examples.antt =====
-- Two lanes that share one token.
use xclaw.Prelude.{◌≤◌, ◌≡◌, refl, [], ◌∷◌, ◌++◌, none, false}
use xclaw.Prelude.Dict
use xclaw.Queue.Lanes.{
  LaneQueue, waiting, running, new_lane_queue, enter, send, take, acquire, act, Reaches, here, step,
  enter_lane, send_lane, take_lane, acquire_lane,
}
use xclaw.Queue.Lanes.Changes.{running_count}
use xclaw.Queue.Lanes.Bound.{running_bound}
use xclaw.Queue.Lanes.Buffers.{buffer_of}
use xclaw.Queue.Lanes.Order.{sent, taken, lane_order}

abbrev shared : LaneQueue
shared = record {
  capacity = 1;
  tokens = 1;
  lanes =
      ("a", record { buffer = 8 ∷ []; phase = running 7 })
      ∷ ("b", record { buffer = []; phase = waiting 9 })
      ∷ [];
  closed = false;
}

steps : Reaches (new_lane_queue 1) shared
unfolding act enter_lane send_lane take_lane acquire_lane Dict.lookup Dict.insert
steps =
    step
      (step
        (step
          (step
            (step (step (step (step here (enter "a") refl) (enter "b") refl) (send "a" 7) refl)
              (send "a" 8) refl)
            (send "b" 9) refl)
          (take "a") refl)
        (take "b") refl)
      (acquire "a") refl

-- The second lane gets no token.
no_second_token : act (acquire "b") shared ≡ none
unfolding act acquire_lane Dict.lookup
no_second_token = refl

running_bound_example : running_count shared.lanes ≤ 1
running_bound_example = running_bound 1 shared steps

lane_order_example : sent "a" steps ≡ taken "a" steps ++ buffer_of "a" shared
lane_order_example = lane_order 1 "a" shared steps
