-- ===== src/Gateway/Routes/First.antt =====
-- `matchRoute` of cli/gateway/gateway.go takes a rule of the highest priority.
use xclaw.Prelude.{
  ◌≡◌, refl, Bool, true, false, List, [], ◌∷◌, Option, none, some, String, trim_space, str_eq,
  Bool-cases, ◌⊎◌, inl, inr, arith,
}
use xclaw.Prelude.Int.{ℤ, pos, negsuc}
use xclaw.Prelude.Result.{Result, ok, err}
use xclaw.Gateway.Routes.{
  InboundEvent, RouteRule, higher, applies, match_route, put_route, insert_route, highest_first,
  upsert_route, without_route, delete_route,
}

higher_reverse : (p q : ℤ) → higher q p ≡ true → higher p q ≡ false
higher_reverse (pos a) (pos b) h = ground arith
higher_reverse (pos a) (negsuc b) h = absurd cc
higher_reverse (negsuc a) (pos b) h = refl
higher_reverse (negsuc a) (negsuc b) h = ground arith

higher_over : (a b c : ℤ) → higher b a ≡ false → higher c b ≡ false → higher c a ≡ false
higher_over (pos a) (pos b) (pos c) h k = ground arith
higher_over (pos a) (pos b) (negsuc c) h k = refl
higher_over (pos a) (negsuc b) (pos c) h k = absurd cc
higher_over (pos a) (negsuc b) (negsuc c) h k = refl
higher_over (negsuc a) (pos b) c h k = absurd cc
higher_over (negsuc a) (negsuc b) (pos c) h k = absurd cc
higher_over (negsuc a) (negsuc b) (negsuc c) h k = ground arith

-- No rule has a higher priority than `p`.
abbrev pub NoneAbove : ℤ → List RouteRule → Type 0
NoneAbove p [] = Unit
NoneAbove p (q ∷ rules) = (higher q.priority p ≡ false) × NoneAbove p rules

abbrev pub Descending : List RouteRule → Type 0
Descending [] = Unit
Descending (r ∷ rules) = NoneAbove r.priority rules × Descending rules

over-NoneAbove :
    (a b : ℤ) (rules : List RouteRule) → higher b a ≡ false → NoneAbove b rules → NoneAbove a rules
over-NoneAbove a b [] h below = tt
over-NoneAbove a b (q ∷ rules) h (first, below) =
    (higher_over a b q.priority h first, over-NoneAbove a b rules h below)

insert_route-NoneAbove :
    (p : ℤ) (r : RouteRule) (rules : List RouteRule)
    → higher r.priority p ≡ false
    → NoneAbove p rules
    → NoneAbove p (insert_route r rules)
unfolding insert_route
insert_route-NoneAbove p r [] h below = (h, tt)
insert_route-NoneAbove p r (q ∷ rules) h (first, below) =
    elim (Bool-cases (higher q.priority r.priority)) [
      | inl e ↦ rw e (first, insert_route-NoneAbove p r rules h below)
      | inr e ↦ rw e (h, (first, below))
    ]

insert_route-Descending :
    (r : RouteRule) (rules : List RouteRule) → Descending rules → Descending (insert_route r rules)
unfolding insert_route
insert_route-Descending r [] sorted = (tt, tt)
insert_route-Descending r (q ∷ rules) (below, sorted) =
    elim (Bool-cases (higher q.priority r.priority)) [
      | inl e ↦ rw e (
        insert_route-NoneAbove q.priority r rules (higher_reverse r.priority q.priority e) below,
        insert_route-Descending r rules sorted,
      )
      | inr e ↦ rw e ((e, over-NoneAbove r.priority q.priority rules e below), (below, sorted))
    ]

highest_first-Descending : (rules : List RouteRule) → Descending (highest_first rules)
unfolding highest_first
highest_first-Descending [] = tt
highest_first-Descending (r ∷ rules) =
    insert_route-Descending r (highest_first rules) (highest_first-Descending rules)

without_route-NoneAbove :
    (p : ℤ) (name : String) (rules : List RouteRule)
    → NoneAbove p rules
    → NoneAbove p (without_route name rules)
unfolding without_route
without_route-NoneAbove p name [] below = tt
without_route-NoneAbove p name (q ∷ rules) (first, below) = elim (Bool-cases (str_eq q.name name)) [
  | inl e ↦ rw e (without_route-NoneAbove p name rules below)
  | inr e ↦ rw e (first, without_route-NoneAbove p name rules below)
]

without_route-Descending :
    (name : String) (rules : List RouteRule)
    → Descending rules
    → Descending (without_route name rules)
unfolding without_route
without_route-Descending name [] sorted = tt
without_route-Descending name (q ∷ rules) (below, sorted) = elim (Bool-cases (str_eq q.name name)) [
  | inl e ↦ rw e (without_route-Descending name rules sorted)
  | inr e ↦ rw e (
    without_route-NoneAbove q.priority name rules below,
    without_route-Descending name rules sorted,
  )
]

pub data RouteChange : Type 0 where
  upsert : String → RouteRule → RouteChange
  delete : String → RouteChange

abbrev unless_error : List RouteRule → Result String (List RouteRule) → List RouteRule
unless_error rules (err message) = rules
unless_error rules (ok rules') = rules'

abbrev pub change_route : RouteChange → List RouteRule → List RouteRule
change_route (upsert fresh route) rules = upsert_route fresh route rules
change_route (delete name) rules = unless_error rules (delete_route name rules)

abbrev pub change_routes : List RouteChange → List RouteRule → List RouteRule
change_routes [] rules = rules
change_routes (c ∷ changes) rules = change_routes changes (change_route c rules)

change_route-Descending :
    (c : RouteChange) (rules : List RouteRule)
    → Descending rules
    → Descending (change_route c rules)
unfolding upsert_route delete_route
change_route-Descending (upsert fresh route) rules sorted =
    highest_first-Descending (put_route _ rules)
change_route-Descending (delete raw) rules sorted = elim (Bool-cases (str_eq (trim_space raw) "")) [
  | inl e ↦ rw e sorted
  | inr e ↦ rw e (without_route-Descending (trim_space raw) rules sorted)
]

change_routes-Descending :
    (changes : List RouteChange) (rules : List RouteRule)
    → Descending rules
    → Descending (change_routes changes rules)
change_routes-Descending [] rules sorted = sorted
change_routes-Descending (c ∷ changes) rules sorted =
    change_routes-Descending changes (change_route c rules) (change_route-Descending c rules sorted)

module _ (regexp_match : String → String → Option Bool) (event : InboundEvent) where
  -- Of the rules that apply, none has a higher priority than `p`.
  abbrev pub BestOf : ℤ → List RouteRule → Type 0
  BestOf p [] = Unit
  BestOf p (q ∷ rules) =
      (applies regexp_match event q ≡ true → higher q.priority p ≡ false) × BestOf p rules

  abbrev pub NoneApplies : List RouteRule → Type 0
  NoneApplies [] = Unit
  NoneApplies (q ∷ rules) = (applies regexp_match event q ≡ false) × NoneApplies rules

  abbrev pub Among : RouteRule → List RouteRule → Type 0
  Among r [] = ⊥
  Among r (q ∷ rules) = (r ≡ q) ⊎ Among r rules

  -- What matchRoute gives is right.
  abbrev pub Chosen : List RouteRule → Option RouteRule → Type 0
  Chosen rules none = NoneApplies rules
  Chosen rules (some r) =
      Among r rules × (applies regexp_match event r ≡ true) × BestOf r.priority rules

  NoneAbove-BestOf : (p : ℤ) (rules : List RouteRule) → NoneAbove p rules → BestOf p rules
  NoneAbove-BestOf p [] below = tt
  NoneAbove-BestOf p (q ∷ rules) (first, below) = ((λ a. first), NoneAbove-BestOf p rules below)

  same_not_higher : (p : ℤ) → higher p p ≡ false
  same_not_higher (pos a) = ground arith
  same_not_higher (negsuc a) = ground arith

  skipped :
      (q : RouteRule) (rules : List RouteRule) (found : Option RouteRule)
      → applies regexp_match event q ≡ false
      → Chosen rules found
      → Chosen (q ∷ rules) found
  skipped q rules none e chosen = (e, chosen)
  skipped q rules (some r) e (among, applied, best) =
      (inr among, applied, ((λ a. absurd (cc (e, a))), best))

  match_route-Chosen :
      (rules : List RouteRule)
      → Descending rules
      → Chosen rules (match_route regexp_match rules event)
  unfolding match_route
  match_route-Chosen [] sorted = tt
  match_route-Chosen (q ∷ rules) (below, sorted) =
      elim (Bool-cases (applies regexp_match event q)) [
        | inl e ↦ rw e (
          inl refl,
          e,
          ((λ a. same_not_higher q.priority), NoneAbove-BestOf q.priority rules below),
        )
        | inr e ↦ rw e (skipped q rules _ e (match_route-Chosen rules sorted))
      ]

-- The rules are what any calls of UpsertRoute and DeleteRoute have made of none. Then a message that
-- comes in gets one of the rules, which is enabled and matches it, such that no such rule has a higher
-- priority; and no rule only where none is enabled and matches.
pub match_route_highest :
    (regexp_match : String → String → Option Bool) (changes : List RouteChange)
    (event : InboundEvent)
    → Chosen regexp_match event
        (change_routes changes [])
        (match_route regexp_match (change_routes changes []) event)
match_route_highest regexp_match changes event =
    match_route-Chosen regexp_match event (change_routes changes [])
      (change_routes-Descending changes [] tt)
