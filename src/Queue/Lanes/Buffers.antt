-- ===== src/Queue/Lanes/Buffers.antt =====
-- What each step does to a lane's buffer.
use xclaw.Prelude.{
  ℕ, ◌≡◌, refl, ap, sym, ◌∙◌, Bool, true, false, List, [], ◌∷◌, ◌++◌, Option, none, some, String,
  str_eq, eq_iff, ltb, length, if◌then◌else◌, arith, Bool-cases, Option-cases, inl, inr, some_inj,
}
use mathlib.Core.List.{append-nil}
use xclaw.Prelude.Dict as Dict
use xclaw.Prelude.Dict.{Dict}
use xclaw.Queue.Lanes.{
  Phase, idle, waiting, running, Lane, LaneQueue, lane_size, Action, send, take, with_lane,
  enter_lane, send_lane, take_lane, acquire_lane, give_up_lane, finish_lane, may_leave, on_lane,
}

-- The tasks that wait in a lane's buffer.
unfoldable pub buffer_of : String → LaneQueue → List ℕ
buffer_of id q = elim (Dict.lookup id q.lanes) [ none ↦ [] | some lane ↦ lane.buffer ]

unfoldable pub front : List ℕ → List ℕ
front [] = []
front (task ∷ buffer) = task ∷ []

-- What an action sends to the lane, and what it takes from the lane's buffer, on a queue where it is
-- possible.
unfoldable pub sent_by : String → Action → List ℕ
sent_by id (send other task) = if str_eq other id then task ∷ [] else []
sent_by id a = []

unfoldable pub taken_by : String → Action → LaneQueue → List ℕ
unfolding front buffer_of
taken_by id (take other) q = if str_eq other id then front (buffer_of id q) else []
taken_by id a q = []

-- An action takes from the front and sends to the back.
abbrev pub Shifts : String → Action → LaneQueue → Option LaneQueue → Type 0
Shifts id a q none = Unit
Shifts id a q (some r) = buffer_of id q ++ sent_by id a ≡ taken_by id a q ++ buffer_of id r

pub buffer_of-with_lane :
    (id other : String) (lane : Lane) (q : LaneQueue)
    → buffer_of other (with_lane id lane q)
      ≡ (if str_eq id other then lane.buffer else buffer_of other q)
unfolding buffer_of
buffer_of-with_lane id other lane q = elim (Bool-cases (str_eq id other)) [
  | inl e ↦ rw (buffer_of, Dict.lookup-insert id other lane q.lanes, e) refl
  | inr e ↦ rw (buffer_of, Dict.lookup-insert id other lane q.lanes, e) refl
]

-- A step of another lane, or one that leaves the buffer as it is.
pub on_lane-Shifts :
    (id other : String) (a : Action) (change : Phase → List ℕ → Option Lane)
    (after : LaneQueue → LaneQueue) (q : LaneQueue)
    → ((lane lane' : Lane)
        → Dict.lookup id q.lanes ≡ some lane
        → change lane.phase lane.buffer ≡ some lane'
        → Shifts other a q (some (after (with_lane id lane' q))))
    → Shifts other a q (on_lane id change after q)
on_lane-Shifts id other a change after q keeps = by_lane (Dict.lookup id q.lanes) refl
  where
    by_change :
        (lane : Lane) (o : Option Lane)
        → Dict.lookup id q.lanes ≡ some lane
        → change lane.phase lane.buffer ≡ o
        → Shifts other a q
            (elim o [ none ↦ none | some lane' ↦ some (after (with_lane id lane' q)) ])
    by_change lane none e f = tt
    by_change lane (some lane') e f = keeps lane lane' e f

    by_lane :
        (o : Option Lane)
        → Dict.lookup id q.lanes ≡ o
        → Shifts other a q (elim o [
          | none ↦ none
          | some lane ↦ elim (change lane.phase lane.buffer) [
            | none ↦ none
            | some lane' ↦ some (after (with_lane id lane' q))
          ]
        ])
    by_lane none e = tt
    by_lane (some lane) e = by_change lane (change lane.phase lane.buffer) e refl

pub lookup-buffer_of :
    (id : String) (q : LaneQueue) (lane : Lane)
    → Dict.lookup id q.lanes ≡ some lane
    → buffer_of id q ≡ lane.buffer
unfolding buffer_of
lookup-buffer_of id q lane e = rw (buffer_of, e) refl

pub kept_buffer :
    (id other : String) (q : LaneQueue) (lane lane' : Lane)
    → Dict.lookup id q.lanes ≡ some lane
    → lane'.buffer ≡ lane.buffer
    → buffer_of other (with_lane id lane' q) ≡ buffer_of other q
kept_buffer id other q lane lane' e f = elim (Bool-cases (str_eq id other)) [
  | inr apart ↦ buffer_of-with_lane id other lane' q ∙ rw apart refl
  | inl at_it ↦
      let p = (eq_iff id other).0 at_it in
      buffer_of-with_lane id other lane' q
      ∙ rw at_it (f ∙ sym (lookup-buffer_of id q lane e) ∙ ap (λ (k : String). buffer_of k q) p)
]

pub send-buffer :
    (task : ℕ) (phase : Phase) (buffer : List ℕ) (lane : Lane)
    → send_lane task phase buffer ≡ some lane
    → lane.buffer ≡ buffer ++ task ∷ []
unfolding send_lane
send-buffer task phase buffer lane e = elim (Bool-cases (ltb (length buffer) lane_size)) [
  | inl room ↦
      let first : some (record { buffer = buffer ++ task ∷ []; phase = phase }) ≡ some lane =
        sym (rw (send_lane, room) refl) ∙ e in
      ap (λ (l : Lane). l.buffer) (sym (some_inj first))
  | inr full ↦ ground arith
]

pub take-buffer :
    (phase : Phase) (buffer : List ℕ) (lane : Lane)
    → take_lane phase buffer ≡ some lane
    → buffer ≡ front buffer ++ lane.buffer
unfolding take_lane front
take-buffer idle (task ∷ rest) lane e = ap (λ (l : Lane). task ∷ l.buffer) (some_inj e)
take-buffer idle [] lane e = ground arith
take-buffer (waiting task) buffer lane e = ground arith
take-buffer (running task) buffer lane e = ground arith

pub acquire-buffer :
    (free : Bool) (phase : Phase) (buffer : List ℕ) (lane : Lane)
    → acquire_lane free phase buffer ≡ some lane
    → lane.buffer ≡ buffer
unfolding acquire_lane
acquire-buffer true idle buffer lane e = ground arith
acquire-buffer true (waiting task) buffer lane e = ap (λ (l : Lane). l.buffer) (sym (some_inj e))
acquire-buffer true (running task) buffer lane e = ground arith
acquire-buffer false phase buffer lane e = ground arith

pub give_up-buffer :
    (phase : Phase) (buffer : List ℕ) (lane : Lane)
    → give_up_lane phase buffer ≡ some lane
    → lane.buffer ≡ buffer
unfolding give_up_lane
give_up-buffer idle buffer lane e = ground arith
give_up-buffer (waiting task) buffer lane e = ap (λ (l : Lane). l.buffer) (sym (some_inj e))
give_up-buffer (running task) buffer lane e = ground arith

pub finish-buffer :
    (phase : Phase) (buffer : List ℕ) (lane : Lane)
    → finish_lane phase buffer ≡ some lane
    → lane.buffer ≡ buffer
unfolding finish_lane
finish-buffer idle buffer lane e = ground arith
finish-buffer (waiting task) buffer lane e = ground arith
finish-buffer (running task) buffer lane e = ap (λ (l : Lane). l.buffer) (sym (some_inj e))

pub unchanged : (before after : List ℕ) → after ≡ before → before ++ [] ≡ after
unchanged before after e = append-nil before ∙ sym e

pub absent-buffer_of :
    (id : String) (q : LaneQueue) → Dict.lookup id q.lanes ≡ none → buffer_of id q ≡ []
unfolding buffer_of
absent-buffer_of id q e = rw (buffer_of, e) refl

pub fresh_buffer :
    (id other : String) (q : LaneQueue)
    → Dict.lookup id q.lanes ≡ none
    → buffer_of other (with_lane id (record { buffer = []; phase = idle }) q) ≡ buffer_of other q
fresh_buffer id other q e =
    let fresh : Lane = record { buffer = []; phase = idle } in
    elim (Bool-cases (str_eq id other)) [
      | inr apart ↦ buffer_of-with_lane id other fresh q ∙ rw apart refl
      | inl at_it ↦
          let p = (eq_iff id other).0 at_it in
          buffer_of-with_lane id other fresh q
          ∙ rw at_it (sym (absent-buffer_of id q e) ∙ ap (λ (k : String). buffer_of k q) p)
    ]

pub enter-buffer :
    (id other : String) (q : LaneQueue) → buffer_of other (enter_lane id q) ≡ buffer_of other q
unfolding enter_lane buffer_of
enter-buffer id other q = elim (Bool-cases q.closed) [
  | inl shut ↦ rw (buffer_of, enter_lane, shut) refl
  | inr open_now ↦ elim (Option-cases (Dict.lookup id q.lanes)) [
    | inr (lane, e) ↦ rw (enter_lane, open_now, e) refl
    | inl e ↦ rw (enter_lane, open_now, e) (fresh_buffer id other q e)
  ]
]

pub may_leave-empty :
    (closed : Bool) (phase : Phase) (buffer : List ℕ)
    → may_leave closed phase buffer ≡ true
    → buffer ≡ []
unfolding may_leave
may_leave-empty true idle [] may = refl
may_leave-empty true idle (task ∷ buffer) may = ground arith
may_leave-empty true (waiting task) buffer may = ground arith
may_leave-empty true (running task) buffer may = ground arith
may_leave-empty false phase buffer may = ground arith

pub leave-buffer :
    (id other : String) (q : LaneQueue) (lane : Lane)
    → Dict.lookup id q.lanes ≡ some lane
    → may_leave q.closed lane.phase lane.buffer ≡ true
    → buffer_of other (record q { lanes = Dict.erase id q.lanes }) ≡ buffer_of other q
unfolding buffer_of
leave-buffer id other q lane e may = elim (Bool-cases (str_eq id other)) [
  | inr apart ↦ rw (buffer_of, Dict.lookup-erase id other q.lanes, apart) refl
  | inl at_it ↦
      let p = (eq_iff id other).0 at_it in
      rw (buffer_of, Dict.lookup-erase id other q.lanes, at_it)
        (sym (may_leave-empty q.closed lane.phase lane.buffer may)
          ∙ sym (lookup-buffer_of id q lane e)
          ∙ ap (λ (k : String). buffer_of k q) p)
]
