-- ===== src/Scheduler/CronExpr.antt =====
-- Cron expressions: `parseField`, `parseCron` and `match` of cli/scheduler/cronexpr.go. A field's
-- bounds are small numbers; what a loop counts is a 64-bit `int`, kept as its bit pattern.
mod Tests
mod Values
pub mod Fields
pub mod Steps
use Prim.Native.Char.{code}
use xclaw.Prelude.{
  ℕ, zero, suc, ◌+◌, ◌-◌, ◌%◌, ◌^◌, Bool, true, false, ◌&&◌, ◌||◌, List, [], ◌∷◌, ◌++◌, Option,
  none, some, String, str_eq, has_prefix, trim_space, leb, ltb, ◌==◌, if◌then◌else◌,
}
pub use xclaw.Prelude.Result.{Result, ok, err, ◌>>=◌}
use xclaw.Prelude.Int.{ℤ, pos, negsuc, ltb_ℕ, gtb_ℕ}
use xclaw.Prelude.Parse.{split, split_once, fields, atoi}

-- The errors of parseField, with the segment that they name.
pub data FieldError : Type 0 where
  invalid_step : String → FieldError
  invalid_range_start : String → FieldError
  invalid_range_end : String → FieldError
  range_out_of_bounds : String → FieldError
  invalid_step_base : String → FieldError
  invalid_value : String → FieldError
  value_out_of_bounds : ℤ → FieldError
  empty_field : FieldError

abbrev pub FieldResult : Type 0 → Type 0
FieldResult A = Result FieldError A

-- i <= last, for the bit pattern of an `int` and a small bound.
abbrev pub at_most : ℕ → ℕ → Bool
at_most i last = leb (2 ^ 63) i || leb i last

-- for i := i; i <= last; i += step { values[i] = struct{}{} }: the patterns that it adds. A sum may
-- wrap around; 128 rounds are fuel enough for a field of at most 60 values.
unfoldable pub stepped : ℕ → ℕ → ℕ → ℕ → List ℕ
stepped zero i last step = []
stepped (suc fuel) i last step =
    let rest = i ∷ stepped fuel ((i + step) % 2 ^ 64) last step in
    if at_most i last then rest else []

abbrev pub rounds : ℕ
rounds = 128

-- `err != nil || step <= 0`
abbrev pub positive_step : String → Option ℤ → FieldResult ℕ
positive_step seg none = err (invalid_step seg)
positive_step seg (some (negsuc n)) = err (invalid_step seg)
positive_step seg (some (pos n)) = if n == 0 then err (invalid_step seg) else ok n

abbrev pub number_or : FieldError → Option ℤ → FieldResult ℤ
number_or e none = err e
number_or e (some v) = ok v

abbrev pub exceeds : ℤ → ℤ → Bool
exceeds (pos a) (pos b) = ltb b a
exceeds (pos a) (negsuc b) = true
exceeds (negsuc a) (pos b) = false
exceeds (negsuc a) (negsuc b) = ltb a b

-- `start < min || end > max || start > end`; bounds that pass are not negative.
abbrev pub checked_range : String → ℕ → ℕ → ℤ → ℤ → FieldResult (ℕ × ℕ)
checked_range seg min max (pos start) (pos end) =
    if ltb start min || ltb max end || ltb end start
    then err (range_out_of_bounds seg)
    else ok (start, end)
checked_range seg min max start end = err (range_out_of_bounds seg)

-- The bounds of a range, and the step of the loop over it.
unfoldable pub parse_range : String → ℕ → ℕ → String → String → ℕ → FieldResult (List ℕ)
parse_range seg min max first second step = do
  start ← number_or (invalid_range_start seg) (atoi first)
  end ← number_or (invalid_range_end seg) (atoi second)
  bounds ← checked_range seg min max start end
  ok (stepped rounds bounds.0 bounds.1 step)

-- The base of `base/step`.
unfoldable pub parse_base : String → ℕ → ℕ → String → ℕ → FieldResult (List ℕ)
parse_base seg min max base step =
    if str_eq base "*" then ok (stepped rounds min max step) else elim (split_once b'-' base) [
      | none ↦ err (invalid_step_base seg)
      | some (first, second) ↦ parse_range seg min max (trim_space first) (trim_space second) step
    ]

-- strings.TrimPrefix(seg, "*/"), if the segment begins so.
unfoldable pub every_step : String → Option String
every_step (String.◌∷◌ star (String.◌∷◌ slash rest)) =
    if code star == b'*' && code slash == b'/' then some rest else none
every_step s = none

abbrev pub single_value : ℕ → ℕ → ℤ → FieldResult (List ℕ)
single_value min max (pos n) =
    if ltb n min || ltb max n then err (value_out_of_bounds (pos n)) else ok (n ∷ [])
single_value min max (negsuc n) = err (value_out_of_bounds (negsuc n))

-- One segment that is trimmed and not blank, in the order of the tests: `*/step`, `base/step`,
-- `start-end`, a value.
unfoldable pub parse_segment : ℕ → ℕ → String → FieldResult (List ℕ)
parse_segment min max seg = elim (every_step seg) [
  | some rest ↦ do step ← positive_step seg (atoi rest); ok (stepped rounds min max step)
  | none ↦ elim (split_once b'/' seg) [
    | some (base, step_text) ↦ do
      step ← positive_step seg (atoi (trim_space step_text))
      parse_base seg min max (trim_space base) step
    | none ↦ elim (split_once b'-' seg) [
      | some (first, second) ↦ parse_range seg min max first second 1
      | none ↦ do v ← number_or (invalid_value seg) (atoi seg); single_value min max v
    ]
  ]
]

-- The loop over the segments: the values that it adds to the set, a blank segment adding none.
unfoldable pub parse_segments : ℕ → ℕ → List String → FieldResult (List ℕ)
parse_segments min max [] = ok []
parse_segments min max (raw ∷ segments) =
    let seg = trim_space raw in
    let rest = parse_segments min max segments in
    if str_eq seg ""
    then rest
    else do values ← parse_segment min max seg; others ← rest; ok (values ++ others)

unfoldable pub contains : List ℕ → ℕ → Bool
contains [] v = false
contains (x ∷ list) v = x == v || contains list v

-- The loop from `i` over `count` values that keeps those in the set.
unfoldable pub pick : ℕ → ℕ → List ℕ → List ℕ
pick zero i values = []
pick (suc count) i values =
    let rest = pick count (i + 1) values in if contains values i then i ∷ rest else rest

-- for i := min; i <= max; i++, from `i` over `count` values
unfoldable pub range_from : ℕ → ℕ → List ℕ
range_from zero i = []
range_from (suc count) i = i ∷ range_from count (i + 1)

abbrev pub picked : ℕ → ℕ → List ℕ → FieldResult (List ℕ)
picked min max [] = err empty_field
picked min max (v ∷ values) = ok (pick (max + 1 - min) min (v ∷ values))

unfoldable pub parse_field : String → ℕ → ℕ → FieldResult (List ℕ)
parse_field field min max =
    if str_eq field "*"
    then ok (range_from (max + 1 - min) min)
    else do values ← parse_segments min max (split b',' field); picked min max values

pub record CronExpr : Type 0 where
  pub minute : List ℕ
  pub hour : List ℕ
  pub dom : List ℕ
  pub month : List ℕ
  pub dow : List ℕ

-- Which field an error is about.
pub data CronError : Type 0 where
  wrong_count : CronError
  minute_error hour_error dom_error month_error dow_error : FieldError → CronError

abbrev pub in_field : (FieldError → CronError) → FieldResult (List ℕ) → Result CronError (List ℕ)
in_field wrap (ok values) = ok values
in_field wrap (err e) = err (wrap e)

-- A field for seconds, in front of the five, is left out.
abbrev pub without_seconds : List String → List String
without_seconds (s ∷ a ∷ b ∷ c ∷ d ∷ e ∷ []) = a ∷ b ∷ c ∷ d ∷ e ∷ []
without_seconds parts = parts

unfoldable pub parse_parts : List String → Result CronError CronExpr
parse_parts (m ∷ h ∷ d ∷ mo ∷ w ∷ []) = do
  minute ← in_field minute_error (parse_field m 0 59)
  hour ← in_field hour_error (parse_field h 0 23)
  dom ← in_field dom_error (parse_field d 1 31)
  month ← in_field month_error (parse_field mo 1 12)
  dow ← in_field dow_error (parse_field w 0 6)
  ok (record { minute = minute; hour = hour; dom = dom; month = month; dow = dow })
parse_parts parts = err wrong_count

unfoldable pub parse_cron : String → Result CronError CronExpr
parse_cron expression = parse_parts (without_seconds (fields (trim_space expression)))
