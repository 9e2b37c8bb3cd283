-- ===== src/Scheduler/CronExpr/Fields.antt =====
-- What parseField and parseCron accept.
use xclaw.Prelude.{
  ℕ, suc, ◌+◌, ◌-◌, ◌≤◌, ◌≡◌, refl, ap, sym, ◌∙◌, Bool, true, false, ◌&&◌, List, [], ◌∷◌, ◌++◌,
  String, str_eq, trim_space, arith, leb, Option-cases, Bool-cases, inl, inr,
}
use xclaw.Prelude.Int.{ℤ, pos, negsuc}
use xclaw.Prelude.Parse.{split, split_once, atoi, fields}
use xclaw.Scheduler.CronExpr.{
  FieldError, CronError, CronExpr, minute_error, hour_error, dom_error, month_error, dow_error,
  in_field, parse_parts, parse_cron, without_seconds, FieldResult, invalid_range_start,
  invalid_range_end, invalid_value, Result, ok, err, ◌>>=◌, rounds, stepped, positive_step,
  number_or, checked_range, parse_range, parse_base, every_step, single_value, parse_segment,
  parse_segments, contains, pick, range_from, picked, parse_field,
}
use xclaw.Scheduler.CronExpr.Values.{
  is_field, pick-ascending, range_from-ascending, pick-is_empty, ascending-is_field,
  range_from-is_empty,
}

-- The first value lies within the bounds.
unfoldable starts_within : ℕ → ℕ → List ℕ → Bool
starts_within min max [] = false
starts_within min max (v ∷ values) = leb min v && leb v max

-- What holds of a result's value, if it has one.
unfoldable on_ok : {E A : Type 0} → (A → Bool) → Result E A → Bool
on_ok p (ok a) = p a
on_ok p (err e) = true

on_ok-value :
    {E A : Type 0} (p : A → Bool) {r : Result E A} {a : A}
    → on_ok p r ≡ true
    → r ≡ ok a
    → p a ≡ true
unfolding on_ok
on_ok-value p h e = ap (on_ok p) (sym e) ∙ h

on_ok-bind :
    {E A B : Type 0} (p : B → Bool) (r : Result E A) (f : A → Result E B)
    → ((a : A) → r ≡ ok a → on_ok p (f a) ≡ true)
    → on_ok p (r >>= f) ≡ true
unfolding on_ok
on_ok-bind p (ok a) f h = h a refl
on_ok-bind p (err e) f h = refl

le→leb : (a b : ℕ) → a ≤ b → leb a b ≡ true
le→leb a b h = ground arith

suc-stepped-starts_within :
    (fuel min max start last step : ℕ)
    → min ≤ start
    → start ≤ last
    → last ≤ max
    → starts_within min max (stepped (suc fuel) start last step) ≡ true
unfolding stepped starts_within
suc-stepped-starts_within fuel min max start last step low fits high =
    let stays = le→leb start last fits in rw stays (ground arith)

stepped-starts_within :
    (min max start last step : ℕ)
    → min ≤ start
    → start ≤ last
    → last ≤ max
    → starts_within min max (stepped rounds start last step) ≡ true
stepped-starts_within = suc-stepped-starts_within 127

checked-starts_within :
    (seg : String) (min max step : ℕ) (start end : ℤ) (bounds : ℕ × ℕ)
    → checked_range seg min max start end ≡ ok bounds
    → starts_within min max (stepped rounds bounds.0 bounds.1 step) ≡ true
checked-starts_within seg min max step (pos start) (pos end) (a, b) h =
    stepped-starts_within min max a b step (ground arith) (ground arith) (ground arith)
checked-starts_within seg min max step (pos start) (negsuc end) bounds h = ground arith
checked-starts_within seg min max step (negsuc start) end bounds h = ground arith

range-starts_within :
    (seg : String) (min max : ℕ) (first second : String) (step : ℕ)
    → on_ok (starts_within min max) (parse_range seg min max first second step) ≡ true
unfolding parse_range on_ok
range-starts_within seg min max first second step =
    on_ok-bind (starts_within min max) (number_or (invalid_range_start seg) (atoi first)) _
      (λ start _.
        on_ok-bind (starts_within min max) (number_or (invalid_range_end seg) (atoi second)) _
          (λ end _.
            on_ok-bind (starts_within min max) (checked_range seg min max start end) _
              (λ bounds h. checked-starts_within seg min max step start end bounds h)))

base-starts_within :
    (seg : String) (min max : ℕ) (base : String) (step : ℕ)
    → min ≤ max
    → on_ok (starts_within min max) (parse_base seg min max base step) ≡ true
unfolding parse_base on_ok
base-starts_within seg min max base step fits = elim (Bool-cases (str_eq base "*")) [
  | inl star ↦ rw star (stepped-starts_within min max min max step (omega arith) fits (omega arith))
  | inr other ↦ elim (Option-cases (split_once b'-' base)) [
    | inl e ↦ rw (other, e) refl
    | inr ((first, second), e) ↦
        rw (other, e) (range-starts_within seg min max (trim_space first) (trim_space second) step)
  ]
]

single-starts_within :
    (min max : ℕ) (v : ℤ) → on_ok (starts_within min max) (single_value min max v) ≡ true
unfolding on_ok starts_within
single-starts_within min max (pos n) = ground arith
single-starts_within min max (negsuc n) = refl

segment-starts_within :
    (min max : ℕ) (seg : String)
    → min ≤ max
    → on_ok (starts_within min max) (parse_segment min max seg) ≡ true
unfolding parse_segment on_ok
segment-starts_within min max seg fits =
    let all =
      λ (step : ℕ). stepped-starts_within min max min max step (omega arith) fits (omega arith) in
    elim (Option-cases (every_step seg)) [
      | inr (rest, e) ↦
          rw (e, on_ok)
            (on_ok-bind (starts_within min max) (positive_step seg (atoi rest)) _
              (λ step _. all step))
      | inl e ↦ elim (Option-cases (split_once b'/' seg)) [
        | inr ((base, step_text), f) ↦
            rw (e, f, on_ok)
              (on_ok-bind (starts_within min max) (positive_step seg (atoi (trim_space step_text)))
                _ (λ step _. base-starts_within seg min max (trim_space base) step fits))
        | inl f ↦ elim (Option-cases (split_once b'-' seg)) [
          | inr ((first, second), g) ↦
              rw (e, f, g, on_ok) (range-starts_within seg min max first second 1)
          | inl g ↦
              rw (e, f, g, on_ok)
                (on_ok-bind (starts_within min max) (number_or (invalid_value seg) (atoi seg)) _
                  (λ v _. single-starts_within min max v))
        ]
      ]
    ]

-- What the loop over the segments adds to the set: nothing, or a value within the bounds first.
empty_or_within : ℕ → ℕ → List ℕ → Bool
unfolding starts_within
empty_or_within min max [] = true
empty_or_within min max (v ∷ values) = starts_within min max (v ∷ values)

within-append :
    (min max : ℕ) (values others : List ℕ)
    → starts_within min max values ≡ true
    → empty_or_within min max (values ++ others) ≡ true
unfolding starts_within empty_or_within
within-append min max [] others h = ground arith
within-append min max (v ∷ values) others h = h

segments-empty_or_within :
    (min max : ℕ) (segments : List String)
    → min ≤ max
    → on_ok (empty_or_within min max) (parse_segments min max segments) ≡ true
unfolding parse_segments on_ok empty_or_within
segments-empty_or_within min max [] fits = refl
segments-empty_or_within min max (raw ∷ segments) fits =
    let rest = segments-empty_or_within min max segments fits in
    elim (Bool-cases (str_eq (trim_space raw) "")) [
      | inl blank ↦ rw blank rest
      | inr text ↦
          rw (text, on_ok)
            (on_ok-bind (empty_or_within min max) (parse_segment min max (trim_space raw)) _
              (λ values e.
                on_ok-bind (empty_or_within min max) (parse_segments min max segments) _
                  (λ others _. within-append min max values others (
                    on_ok-value (starts_within min max)
                      (segment-starts_within min max (trim_space raw) fits) e))))
    ]

picked-is_field :
    (min max : ℕ) (values : List ℕ)
    → min ≤ max
    → empty_or_within min max values ≡ true
    → on_ok (is_field min max) (picked min max values) ≡ true
unfolding on_ok empty_or_within starts_within contains
picked-is_field min max [] fits h = refl
picked-is_field min max (v ∷ values) fits h =
    ascending-is_field min max (pick (max + 1 - min) min (v ∷ values))
      (pick-is_empty (max + 1 - min) min v (v ∷ values) (ground arith) (ground arith)
        (ground arith))
      (pick-ascending (max + 1 - min) min max (v ∷ values) (omega arith))

all-is_field : (min max : ℕ) → min ≤ max → is_field min max (range_from (max + 1 - min) min) ≡ true
all-is_field min max fits =
    ascending-is_field min max (range_from (max + 1 - min) min)
      (range_from-is_empty (max + 1 - min) min (omega arith))
      (range_from-ascending (max + 1 - min) min max (omega arith))

field-is_field :
    (field : String) (min max : ℕ)
    → min ≤ max
    → on_ok (is_field min max) (parse_field field min max) ≡ true
unfolding parse_field on_ok
field-is_field field min max fits = elim (Bool-cases (str_eq field "*")) [
  | inl star ↦ rw star (all-is_field min max fits)
  | inr other ↦
      rw (other, on_ok)
        (on_ok-bind (is_field min max) (parse_segments min max (split b',' field)) _ (λ values e.
          picked-is_field min max values fits (
            on_ok-value (empty_or_within min max)
              (segments-empty_or_within min max (split b',' field) fits) e)))
]

in_field-is_field :
    (wrap : FieldError → CronError) (field : String) (min max : ℕ) {values : List ℕ}
    → min ≤ max
    → in_field wrap (parse_field field min max) ≡ ok values
    → is_field min max values ≡ true
unfolding on_ok
in_field-is_field wrap field min max fits e =
    on_ok-value (is_field min max)
      (go (parse_field field min max) (field-is_field field min max fits)) e
  where
    go :
        (r : FieldResult (List ℕ))
        → on_ok (is_field min max) r ≡ true
        → on_ok (is_field min max) (in_field wrap r) ≡ true
    go (ok values) h = h
    go (err e) h = refl

-- Every field as parseField makes it, for minutes, hours, days, months and days of the week.
unfoldable pub is_cron : CronExpr → Bool
is_cron e =
    is_field 0 59 e.minute
    && (is_field 0 23 e.hour
        && (is_field 1 31 e.dom && (is_field 1 12 e.month && is_field 0 6 e.dow)))

parts-is_cron : (parts : List String) → on_ok is_cron (parse_parts parts) ≡ true
unfolding parse_parts on_ok is_cron
parts-is_cron (m ∷ h ∷ d ∷ mo ∷ w ∷ []) =
    on_ok-bind is_cron (in_field minute_error (parse_field m 0 59)) _ (λ minute a.
      on_ok-bind is_cron (in_field hour_error (parse_field h 0 23)) _ (λ hour b.
        on_ok-bind is_cron (in_field dom_error (parse_field d 1 31)) _ (λ dom c.
          on_ok-bind is_cron (in_field month_error (parse_field mo 1 12)) _ (λ month e.
            on_ok-bind is_cron (in_field dow_error (parse_field w 0 6)) _ (λ dow f.
              let a' = in_field-is_field minute_error m 0 59 (omega arith) a in
              let b' = in_field-is_field hour_error h 0 23 (omega arith) b in
              let c' = in_field-is_field dom_error d 1 31 (omega arith) c in
              let e' = in_field-is_field month_error mo 1 12 (omega arith) e in
              let f' = in_field-is_field dow_error w 0 6 (omega arith) f in
              rw (a', b', c', e', f') refl)))))
parts-is_cron [] = refl
parts-is_cron (a ∷ []) = refl
parts-is_cron (a ∷ b ∷ []) = refl
parts-is_cron (a ∷ b ∷ c ∷ []) = refl
parts-is_cron (a ∷ b ∷ c ∷ d ∷ []) = refl
parts-is_cron (a ∷ b ∷ c ∷ d ∷ e ∷ f ∷ parts) = refl

-- A cron expression that is accepted has, for each field, at least one value, and the values ascend
-- within the field's bounds.
pub parse_cron-is_cron :
    (expression : String) (e : CronExpr) → parse_cron expression ≡ ok e → is_cron e ≡ true
unfolding parse_cron
parse_cron-is_cron expression e h =
    on_ok-value is_cron (parts-is_cron (without_seconds (fields (trim_space expression)))) h
