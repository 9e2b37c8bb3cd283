-- ===== src/Queue/Lanes/Bound.antt =====
-- How many tasks run at a time.
use xclaw.Prelude.{
  ℕ, ◌+◌, ◌-◌, ◌≤◌, ◌<◌, ◌≡◌, refl, ap, sym, ◌∙◌, Bool, true, false, List, [], Option, none, some,
  String, ltb, ◌==◌, ltb→lt, if◌then◌else◌, arith, Bool-cases, Option-cases, inl, inr,
}
use mathlib.Core.Path.{subst}
use xclaw.Prelude.Dict as Dict
use xclaw.Prelude.Dict.{Dict}
use xclaw.Queue.Lanes.{
  Phase, idle, Lane, LaneQueue, new_lane_queue, Action, enter, send, take, acquire, give_up, finish,
  leave, close, with_lane, enter_lane, send_lane, take_lane, acquire_lane, give_up_lane,
  finish_lane, may_leave, on_lane, same, act, Reaches, here, step,
}
use xclaw.Queue.Lanes.Changes.{
  runs, running_count, runs_at, count-insert, zero_le, count-erase, send-runs, take-runs,
  give_up-runs, acquire-runs, finish-runs,
}

module _ (n : ℕ) where
  -- No more tasks run than there are tokens, and no more tokens are out than the capacity.
  abbrev pub IsBounded : LaneQueue → Type 0
  IsBounded q = (running_count q.lanes ≤ q.tokens) × ((q.tokens ≤ n) × (q.capacity ≡ n))

  abbrev EndsBounded : Option LaneQueue → Type 0
  EndsBounded none = Unit
  EndsBounded (some q) = IsBounded q

  -- A step of one lane that runs no more than before.
  on_lane-EndsBounded :
      (id : String) (change : Phase → List ℕ → Option Lane) (after : LaneQueue → LaneQueue)
      (q : LaneQueue)
      → ((lane lane' : Lane)
          → Dict.lookup id q.lanes ≡ some lane
          → change lane.phase lane.buffer ≡ some lane'
          → running_count (Dict.insert id lane' q.lanes) + runs lane.phase
            ≡ running_count q.lanes + runs lane'.phase
          → IsBounded (after (with_lane id lane' q)))
      → EndsBounded (on_lane id change after q)
  on_lane-EndsBounded id change after q keeps = by_lane (Dict.lookup id q.lanes) refl
    where
      by_change :
          (lane : Lane) (o : Option Lane)
          → Dict.lookup id q.lanes ≡ some lane
          → change lane.phase lane.buffer ≡ o
          → EndsBounded (elim o [ none ↦ none | some lane' ↦ some (after (with_lane id lane' q)) ])
      by_change lane none e f = tt
      by_change lane (some lane') e f = keeps lane lane' e f (
          ap (λ (o : Option Lane). running_count (Dict.insert id lane' q.lanes) + runs_at o) (sym e)
          ∙ count-insert id lane' q.lanes)

      by_lane :
          (o : Option Lane)
          → Dict.lookup id q.lanes ≡ o
          → EndsBounded (elim o [
            | none ↦ none
            | some lane ↦ elim (change lane.phase lane.buffer) [
              | none ↦ none
              | some lane' ↦ some (after (with_lane id lane' q))
            ]
          ])
      by_lane none e = tt
      by_lane (some lane) e = by_change lane (change lane.phase lane.buffer) e refl

  none_runs :
      (q : LaneQueue) (id : String) {k : ℕ}
      → running_count q.lanes ≤ q.tokens
      → k + 0 ≡ running_count q.lanes + 0
      → k ≤ q.tokens
  none_runs q id run count = omega arith

  enter-IsBounded : (id : String) (q : LaneQueue) → IsBounded q → IsBounded (enter_lane id q)
  unfolding enter_lane runs
  enter-IsBounded id q (run, out) = elim (Bool-cases q.closed) [
    | inl shut ↦ rw (enter_lane, shut) (run, out)
    | inr open_now ↦ elim (Option-cases (Dict.lookup id q.lanes)) [
      | inr (lane, e) ↦ rw (enter_lane, open_now, e) (run, out)
      | inl e ↦
          let fresh : Lane = record { buffer = []; phase = idle } in
          let count =
            ap (λ (o : Option Lane). running_count (Dict.insert id fresh q.lanes) + runs_at o)
              (sym e)
            ∙ count-insert id fresh q.lanes in
          rw (enter_lane, open_now, e) (none_runs q id run count, out)
    ]
  ]

  unless_closed :
      (b : Bool) (o : Option LaneQueue) → EndsBounded o → EndsBounded (if b then none else o)
  unless_closed true o h = tt
  unless_closed false o h = h

  if_bounded : (b : Bool) (q : LaneQueue) → IsBounded q → EndsBounded (if b then some q else none)
  if_bounded true q h = h
  if_bounded false q h = tt

  leave_bounded :
      (id : String) (q : LaneQueue) (o : Option Lane)
      → IsBounded q
      → EndsBounded (elim o [
        | none ↦ none
        | some lane ↦
            if may_leave q.closed lane.phase lane.buffer
            then some (record q { lanes = Dict.erase id q.lanes })
            else none
      ])
  leave_bounded id q none bounded = tt
  leave_bounded id q (some lane) (run, out) =
      let fewer = count-erase id q.lanes in
      if_bounded (may_leave q.closed lane.phase lane.buffer)
        (record q { lanes = Dict.erase id q.lanes }) (omega arith, out)

  room : (tokens capacity : ℕ) → tokens < capacity → capacity ≡ n → tokens + 1 ≤ n
  room tokens capacity less e = omega arith

  fewer_tokens : (tokens : ℕ) → tokens ≤ n → tokens - 1 ≤ n
  fewer_tokens tokens h = omega arith

  act-EndsBounded : (a : Action) (q : LaneQueue) → IsBounded q → EndsBounded (act a q)
  unfolding act
  act-EndsBounded (enter id) q bounded = enter-IsBounded id q bounded
  act-EndsBounded (send id task) q (run, out) =
      unless_closed q.closed (on_lane id (send_lane task) same q) (
        on_lane-EndsBounded id (send_lane task) same q (λ lane lane' e f count.
          let r = send-runs task lane.phase lane.buffer lane' f in (omega arith, out)))
  act-EndsBounded (take id) q (run, out) =
      on_lane-EndsBounded id take_lane same q (λ lane lane' e f count.
        let r = take-runs lane.phase lane.buffer lane' f in (omega arith, out))
  act-EndsBounded (acquire id) q (run, out) =
      on_lane-EndsBounded id (acquire_lane (ltb q.tokens q.capacity))
        (λ r. record r { tokens = r.tokens + 1 }) q
        (λ lane lane' e f count.
          let (free, r) = acquire-runs (ltb q.tokens q.capacity) lane.phase lane.buffer lane' f in
          (
            omega arith,
            (room q.tokens q.capacity (ltb→lt q.tokens q.capacity free) (out.1), out.1),
          ))
  act-EndsBounded (give_up id) q (run, out) =
      on_lane-EndsBounded id give_up_lane same q (λ lane lane' e f count.
        let r = give_up-runs lane.phase lane.buffer lane' f in (omega arith, out))
  act-EndsBounded (finish id) q (run, out) =
      on_lane-EndsBounded id finish_lane (λ r. record r { tokens = r.tokens - 1 }) q
        (λ lane lane' e f count.
          let r = finish-runs lane.phase lane.buffer lane' f in (omega arith, omega arith))
  act-EndsBounded (leave id) q bounded = leave_bounded id q (Dict.lookup id q.lanes) bounded
  act-EndsBounded close q bounded = bounded

  reaches-IsBounded : {q r : LaneQueue} → Reaches q r → IsBounded q → IsBounded r
  reaches-IsBounded here bounded = bounded
  reaches-IsBounded (step {r = r} before a e) bounded =
      subst EndsBounded e (act-EndsBounded a r (reaches-IsBounded before bounded))

-- In whatever order the goroutines of a new queue take their steps, no more tasks run at a time than
-- the concurrency that it was made with, which is 16 for 0.
pub running_bound :
    (n : ℕ) (q : LaneQueue)
    → Reaches (new_lane_queue n) q
    → running_count q.lanes ≤ (if n == 0 then 16 else n)
unfolding running_count
running_bound n q steps =
    let limit = (new_lane_queue n).capacity in
    let (run, (out, _)) = reaches-IsBounded limit steps (zero_le 0, (zero_le limit, refl)) in
    omega arith
