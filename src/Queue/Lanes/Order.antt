-- ===== src/Queue/Lanes/Order.antt =====
-- The order of a lane's tasks.
use xclaw.Prelude.{
  ℕ, ◌+◌, ◌-◌, ◌≡◌, refl, ap, sym, ◌∙◌, Bool, true, false, List, [], ◌∷◌, ◌++◌, Option, none, some,
  String, str_eq, eq_iff, ltb, if◌then◌else◌, Bool-cases, inl, inr,
}
use mathlib.Core.Path.{subst}
use mathlib.Core.List.{append-nil, append_assoc}
use xclaw.Prelude.Dict as Dict
use xclaw.Prelude.Dict.{Dict}
use xclaw.Queue.Lanes.{
  Lane, LaneQueue, new_lane_queue, Action, enter, send, take, acquire, give_up, finish, leave,
  close, with_lane, enter_lane, send_lane, take_lane, acquire_lane, give_up_lane, finish_lane,
  may_leave, on_lane, same, act, Reaches, here, step,
}
use xclaw.Queue.Lanes.Buffers.{
  buffer_of, front, sent_by, taken_by, Shifts, buffer_of-with_lane, on_lane-Shifts,
  lookup-buffer_of, kept_buffer, send-buffer, take-buffer, acquire-buffer, give_up-buffer,
  finish-buffer, unchanged, enter-buffer, leave-buffer,
}

-- The tasks that a run sends to the lane, and those that its goroutine takes, in their order.
unfoldable pub sent : String → {q r : LaneQueue} → Reaches q r → List ℕ
unfolding sent_by
sent id here = []
sent id (step before a e) = sent id before ++ sent_by id a

unfoldable pub taken : String → {q r : LaneQueue} → Reaches q r → List ℕ
unfolding taken_by
taken id here = []
taken id (step {r = r} before a e) = taken id before ++ taken_by id a r

unless_closed :
    (id : String) (a : Action) (q : LaneQueue) (b : Bool) (o : Option LaneQueue)
    → Shifts id a q o
    → Shifts id a q (if b then none else o)
unless_closed id a q true o h = tt
unless_closed id a q false o h = h

send-Shifts :
    (id other : String) (task : ℕ) (q : LaneQueue) (lane lane' : Lane)
    → Dict.lookup id q.lanes ≡ some lane
    → lane'.buffer ≡ lane.buffer ++ task ∷ []
    → buffer_of other q ++ (if str_eq id other then task ∷ [] else [])
      ≡ buffer_of other (with_lane id lane' q)
send-Shifts id other task q lane lane' e f = elim (Bool-cases (str_eq id other)) [
  | inr apart ↦
      rw apart (
        append-nil (buffer_of other q) ∙ sym (buffer_of-with_lane id other lane' q ∙ rw apart refl))
  | inl at_it ↦
      let p = (eq_iff id other).0 at_it in
      let own = ap (λ (k : String). buffer_of k q) (sym p) ∙ lookup-buffer_of id q lane e in
      rw at_it (
        ap (λ (b : List ℕ). b ++ task ∷ []) own
        ∙ sym f
        ∙ sym (buffer_of-with_lane id other lane' q ∙ rw at_it refl))
]

take-Shifts :
    (id other : String) (q : LaneQueue) (lane lane' : Lane)
    → Dict.lookup id q.lanes ≡ some lane
    → lane.buffer ≡ front lane.buffer ++ lane'.buffer
    → buffer_of other q ++ []
      ≡ (if str_eq id other then front (buffer_of other q) else [])
        ++ buffer_of other (with_lane id lane' q)
take-Shifts id other q lane lane' e f = elim (Bool-cases (str_eq id other)) [
  | inr apart ↦
      rw apart (
        append-nil (buffer_of other q) ∙ sym (buffer_of-with_lane id other lane' q ∙ rw apart refl))
  | inl at_it ↦
      let p = (eq_iff id other).0 at_it in
      let own = ap (λ (k : String). buffer_of k q) (sym p) ∙ lookup-buffer_of id q lane e in
      let now = buffer_of-with_lane id other lane' q ∙ rw at_it refl in
      rw at_it (
        append-nil (buffer_of other q)
        ∙ own
        ∙ f
        ∙ ap (λ (b : List ℕ). front b ++ lane'.buffer) (sym own)
        ∙ ap (λ (b : List ℕ). front (buffer_of other q) ++ b) (sym now))
]

leave-Shifts : (id other : String) (q : LaneQueue) → Shifts id (leave other) q (act (leave other) q)
unfolding act sent_by taken_by
leave-Shifts id other q = by_lane (Dict.lookup other q.lanes) refl
  where
    by_end :
        (lane : Lane) (b : Bool)
        → Dict.lookup other q.lanes ≡ some lane
        → may_leave q.closed lane.phase lane.buffer ≡ b
        → Shifts id
            (leave other)
            q
            (if b then some (record q { lanes = Dict.erase other q.lanes }) else none)
    by_end lane false e f = tt
    by_end lane true e f =
        unchanged (buffer_of id q) (buffer_of id (record q { lanes = Dict.erase other q.lanes }))
          (leave-buffer other id q lane e f)

    by_lane :
        (o : Option Lane)
        → Dict.lookup other q.lanes ≡ o
        → Shifts id (leave other) q (elim o [
          | none ↦ none
          | some lane ↦
              if may_leave q.closed lane.phase lane.buffer
              then some (record q { lanes = Dict.erase other q.lanes })
              else none
        ])
    by_lane none e = tt
    by_lane (some lane) e = by_end lane (may_leave q.closed lane.phase lane.buffer) e refl

-- Every action shifts each lane.
act-Shifts : (id : String) (a : Action) (q : LaneQueue) → Shifts id a q (act a q)
unfolding act sent_by taken_by
act-Shifts id (enter other) q =
    unchanged (buffer_of id q) (buffer_of id (enter_lane other q)) (enter-buffer other id q)
act-Shifts id (send other task) q =
    unless_closed id (send other task) q q.closed (on_lane other (send_lane task) same q) (
      on_lane-Shifts other id (send other task) (send_lane task) same q (λ lane lane' e f.
        send-Shifts other id task q lane lane' e (send-buffer task lane.phase lane.buffer lane' f)))
act-Shifts id (take other) q =
    on_lane-Shifts other id (take other) take_lane same q (λ lane lane' e f.
      take-Shifts other id q lane lane' e (take-buffer lane.phase lane.buffer lane' f))
act-Shifts id (acquire other) q =
    on_lane-Shifts other id (acquire other) (acquire_lane (ltb q.tokens q.capacity))
      (λ r. record r { tokens = r.tokens + 1 }) q
      (λ lane lane' e f. unchanged (buffer_of id q) (buffer_of id (with_lane other lane' q)) (
        kept_buffer other id q lane lane' e
          (acquire-buffer (ltb q.tokens q.capacity) lane.phase lane.buffer lane' f)))
act-Shifts id (give_up other) q =
    on_lane-Shifts other id (give_up other) give_up_lane same q (λ lane lane' e f.
      unchanged (buffer_of id q) (buffer_of id (with_lane other lane' q))
        (kept_buffer other id q lane lane' e (give_up-buffer lane.phase lane.buffer lane' f)))
act-Shifts id (finish other) q =
    on_lane-Shifts other id (finish other) finish_lane (λ r. record r { tokens = r.tokens - 1 }) q
      (λ lane lane' e f.
        unchanged (buffer_of id q) (buffer_of id (with_lane other lane' q))
          (kept_buffer other id q lane lane' e (finish-buffer lane.phase lane.buffer lane' f)))
act-Shifts id (leave other) q = leave-Shifts id other q
act-Shifts id close q = append-nil (buffer_of id q)

reaches-sent :
    (id : String) {q r : LaneQueue} (run : Reaches q r)
    → buffer_of id q ≡ []
    → sent id run ≡ taken id run ++ buffer_of id r
unfolding sent taken
reaches-sent id here empty = sym empty
reaches-sent id (step {r = r} {r' = r'} before a e) empty =
    let shift = subst (Shifts id a r) e (act-Shifts id a r) in
    ap (λ (l : List ℕ). l ++ sent_by id a) (reaches-sent id before empty)
    ∙ append_assoc (taken id before) (buffer_of id r) (sent_by id a)
    ∙ ap (λ (l : List ℕ). taken id before ++ l) shift
    ∙ sym (append_assoc (taken id before) (taken_by id a r) (buffer_of id r'))

-- In whatever order the goroutines of a new queue take their steps, the tasks sent to a lane are those
-- that its goroutine has taken, in the same order, and behind them those in its buffer.
pub lane_order :
    (n : ℕ) (id : String) (q : LaneQueue) (run : Reaches (new_lane_queue n) q)
    → sent id run ≡ taken id run ++ buffer_of id q
unfolding buffer_of Dict.lookup
lane_order n id q run = reaches-sent id run refl
