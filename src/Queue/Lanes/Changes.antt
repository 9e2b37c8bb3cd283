-- ===== src/Queue/Lanes/Changes.antt =====
-- What each step of a lane does to the number of the tasks that run.
use xclaw.Prelude.{
  ℕ, ◌+◌, ◌≤◌, ◌≡◌, refl, ap, sym, ◌∙◌, Bool, true, false, List, [], ◌∷◌, ◌++◌, Option, none, some,
  String, ltb, arith, Bool-cases, inl, inr, some_inj, length,
}
use xclaw.Prelude.Dict as Dict
use xclaw.Prelude.Dict.{Dict}
use xclaw.Queue.Lanes.{
  Phase, idle, waiting, running, Lane, lane_size, send_lane, take_lane, acquire_lane, give_up_lane,
  finish_lane,
}

unfoldable pub runs : Phase → ℕ
runs (running task) = 1
runs phase = 0

-- The tasks that run.
unfoldable pub running_count : Dict Lane → ℕ
running_count [] = 0
running_count ((id, lane) ∷ lanes) = runs lane.phase + running_count lanes

abbrev pub runs_at : Option Lane → ℕ
runs_at none = 0
runs_at (some lane) = runs lane.phase

pub count-insert :
    (id : String) (lane : Lane) (d : Dict Lane)
    → running_count (Dict.insert id lane d) + runs_at (Dict.lookup id d)
      ≡ running_count d + runs lane.phase
unfolding running_count Dict.insert Dict.lookup
count-insert id lane [] = omega arith
count-insert id lane ((k, old) ∷ d) = let rest = count-insert id lane d in ground arith

pub zero_le : (n : ℕ) → 0 ≤ n
zero_le n = omega arith

pub count-erase : (id : String) (d : Dict Lane) → running_count (Dict.erase id d) ≤ running_count d
unfolding running_count Dict.erase
count-erase id [] = omega arith
count-erase id ((k, lane) ∷ d) = let rest = count-erase id d in ground arith

pub send-runs :
    (task : ℕ) (phase : Phase) (buffer : List ℕ) (lane : Lane)
    → send_lane task phase buffer ≡ some lane
    → runs lane.phase ≡ runs phase
unfolding send_lane
send-runs task phase buffer lane e = elim (Bool-cases (ltb (length buffer) lane_size)) [
  | inl room ↦
      let first : some (record { buffer = buffer ++ task ∷ []; phase = phase }) ≡ some lane =
        sym (rw (send_lane, room) refl) ∙ e in
      ap (λ (l : Lane). runs l.phase) (sym (some_inj first))
  | inr full ↦ ground arith
]

pub take-runs :
    (phase : Phase) (buffer : List ℕ) (lane : Lane)
    → take_lane phase buffer ≡ some lane
    → runs lane.phase ≡ runs phase
unfolding take_lane runs
take-runs idle (task ∷ rest) lane e = ap (λ (l : Lane). runs l.phase) (sym (some_inj e))
take-runs idle [] lane e = ground arith
take-runs (waiting task) buffer lane e = ground arith
take-runs (running task) buffer lane e = ground arith

pub give_up-runs :
    (phase : Phase) (buffer : List ℕ) (lane : Lane)
    → give_up_lane phase buffer ≡ some lane
    → runs lane.phase ≡ runs phase
unfolding give_up_lane runs
give_up-runs idle buffer lane e = ground arith
give_up-runs (waiting task) buffer lane e = ap (λ (l : Lane). runs l.phase) (sym (some_inj e))
give_up-runs (running task) buffer lane e = ground arith

pub acquire-runs :
    (free : Bool) (phase : Phase) (buffer : List ℕ) (lane : Lane)
    → acquire_lane free phase buffer ≡ some lane
    → (free ≡ true) × (runs lane.phase ≡ runs phase + 1)
unfolding acquire_lane runs
acquire-runs true idle buffer lane e = ground arith
acquire-runs true (waiting task) buffer lane e =
    (refl, ap (λ (l : Lane). runs l.phase) (sym (some_inj e)))
acquire-runs true (running task) buffer lane e = ground arith
acquire-runs false phase buffer lane e = ground arith

pub finish-runs :
    (phase : Phase) (buffer : List ℕ) (lane : Lane)
    → finish_lane phase buffer ≡ some lane
    → runs lane.phase + 1 ≡ runs phase
unfolding finish_lane runs
finish-runs idle buffer lane e = ground arith
finish-runs (waiting task) buffer lane e = ground arith
finish-runs (running task) buffer lane e = ap (λ (l : Lane). runs l.phase + 1) (sym (some_inj e))
