-- ===== src/Engine/EventHub/Order.antt =====
-- The histories of the sessions.
use xclaw.Prelude.{
  false, if◌then◌else◌, ℕ, zero, suc, ◌+◌, ◌-◌, ◌≤◌, ◌≡◌, ◌∙◌, refl, Bool, true, ◌&&◌, List, [],
  ◌∷◌, ◌++◌, Option, none, some, String, length, drop, length-drop, str_eq, eq_iff, eq_refl, sym,
  arith, leb, ltb, Bool-cases, Option-cases, inl, inr,
}
use mathlib.Core.Path.{subst}
use xclaw.Prelude.Dict as Dict
use xclaw.Prelude.Dict.{Dict}
use xclaw.Engine.EventHub.{
  EventFrame, EventHub, history_of, subscribe_since, unsubscribe, left_by, is_closed, trimmed,
  record_event, send_all, deliver, new_event_hub,
}

-- The numbers ascend, from above `low` up to `high`.
unfoldable pub ascends : ℕ → ℕ → List EventFrame → Bool
ascends low high [] = true
ascends low high (f ∷ frames) =
    ltb low f.sequence && (leb f.sequence high && ascends f.sequence high frames)

pub ascends_weaken :
    (low low' high high' : ℕ) (frames : List EventFrame)
    → low' ≤ low
    → high ≤ high'
    → ascends low high frames ≡ true
    → ascends low' high' frames ≡ true
unfolding ascends
ascends_weaken low low' high high' [] l h e = refl
ascends_weaken low low' high high' (f ∷ frames) l h e =
    let rest = ascends_weaken f.sequence f.sequence high high' frames (omega arith) h in
    ground arith

ascends-append :
    (low high : ℕ) (frames : List EventFrame) (f : EventFrame)
    → low ≤ high
    → ascends low high frames ≡ true
    → f.sequence ≡ high + 1
    → ascends low (high + 1) (frames ++ f ∷ []) ≡ true
unfolding ascends
ascends-append low high [] f le e next = ground arith
ascends-append low high (g ∷ frames) f le e next =
    let rest = ascends-append g.sequence high frames f in ground arith

ascends-drop :
    (n low high : ℕ) (frames : List EventFrame)
    → ascends low high frames ≡ true
    → ascends low high (drop n frames) ≡ true
unfolding ascends
ascends-drop zero low high frames e = e
ascends-drop (suc n) low high [] e = refl
ascends-drop (suc n) low high (f ∷ frames) e =
    ascends_weaken f.sequence low high high (drop n frames) (ground arith) (omega arith)
      (ascends-drop n f.sequence high frames (ground arith))

-- The numbers of a session's history ascend, up to the hub's last, and the history is no longer than
-- the maximum.
abbrev pub IsOrdered : EventHub → String → Type 0
IsOrdered h session =
    (ascends 0 h.next_seq (history_of session h) ≡ true)
    × (length (history_of session h) ≤ h.max_history)

length-trimmed : (max : ℕ) (frames : List EventFrame) → length (trimmed max frames) ≤ max
unfolding trimmed
length-trimmed max frames = elim (Bool-cases (ltb max (length frames))) [
  | inl long ↦ rw long (ground (arith, length-drop (length frames - max) frames))
  | inr short ↦ rw short (ground arith)
]

trimmed-ascends :
    (max low high : ℕ) (frames : List EventFrame)
    → ascends low high frames ≡ true
    → ascends low high (trimmed max frames) ≡ true
unfolding trimmed
trimmed-ascends max low high frames e = elim (Bool-cases (ltb max (length frames))) [
  | inl long ↦ rw long (ascends-drop (length frames - max) low high frames e)
  | inr short ↦ rw short e
]

own-IsOrdered :
    (encode : ℕ → Option String) (session : String) (h : EventHub) (payload : String)
    → encode (h.next_seq + 1) ≡ some payload
    → IsOrdered h session
    → IsOrdered (record_event encode session h).1 session
unfolding record_event
own-IsOrdered encode session h payload e (ordered, short) =
    let frame : EventFrame = record { sequence = h.next_seq + 1; payload = payload } in
    let longer = history_of session h ++ frame ∷ [] in
    let grown = trimmed h.max_history longer in
    rw (record_event, e, Dict.lookup-insert session session grown h.history, eq_refl session)
      (
        trimmed-ascends h.max_history 0 (h.next_seq + 1) longer
            (ascends-append 0 h.next_seq (history_of session h) frame (omega arith) ordered refl),
        length-trimmed h.max_history longer,
      )

record_event-IsOrdered :
    (encode : ℕ → Option String) (session other : String) (h : EventHub)
    → IsOrdered h other
    → IsOrdered (record_event encode session h).1 other
unfolding record_event
record_event-IsOrdered encode session other h (ordered, short) =
    elim (Option-cases (encode (h.next_seq + 1))) [
      | inl e ↦
          rw (record_event, e)
            (
              ascends_weaken 0 0 h.next_seq (h.next_seq + 1) (history_of other h) (omega arith)
                  (omega arith) ordered,
              short,
            )
      | inr (payload, e) ↦
          let frame : EventFrame = record { sequence = h.next_seq + 1; payload = payload } in
          let grown = trimmed h.max_history (history_of session h ++ frame ∷ []) in
          elim (Bool-cases (str_eq session other)) [
            | inl same ↦
                let p = (eq_iff session other).0 same in
                subst (IsOrdered (record_event encode session h).1) p (
                  own-IsOrdered encode session h payload e
                    (subst (IsOrdered h) (sym p) (ordered, short)))
            | inr apart ↦
                rw (record_event, e, Dict.lookup-insert session other grown h.history, apart)
                  (
                    ascends_weaken 0 0 h.next_seq (h.next_seq + 1) (history_of other h)
                        (omega arith) (omega arith) ordered,
                    short,
                  )
          ]
    ]

-- What the hub can be asked to do. The sends of a Publish may come at any later time, and they are
-- taken as they come, whatever they send.
pub data Operation : Type 0 where
  subscribe_op : String → ℕ → Operation
  unsubscribe_op : String → ℕ → Operation
  record_op : (ℕ → Option String) → String → Operation
  deliver_op : Option (EventFrame × List ℕ) → Operation

unfoldable pub perform : Operation → EventHub → Option EventHub
unfolding record_event deliver subscribe_since unsubscribe
perform (subscribe_op session after) h = some (subscribe_since session after h).1
perform (unsubscribe_op session ch) h = unsubscribe session ch h
perform (record_op encode session) h = some (record_event encode session h).1
perform (deliver_op sent) h = deliver sent h

abbrev pub after_perform : Option EventHub → (EventHub → Option EventHub) → Option EventHub
after_perform none f = none
after_perform (some h) f = f h

-- Operations one after the other; `none` is a panic.
unfoldable pub perform_all : List Operation → EventHub → Option EventHub
unfolding perform
perform_all [] h = some h
perform_all (op ∷ ops) h = after_perform (perform op h) (perform_all ops)

-- An ordered hub with the maximum of a new one.
abbrev IsCapped : EventHub → String → Type 0
IsCapped h session = IsOrdered h session × (h.max_history ≡ 512)

record_event-max :
    (encode : ℕ → Option String) (session : String) (h : EventHub)
    → (record_event encode session h).1.max_history ≡ h.max_history
unfolding record_event
record_event-max encode session h = elim (Option-cases (encode (h.next_seq + 1))) [
  | inl e ↦ rw (record_event, e) refl
  | inr (payload, e) ↦ rw (record_event, e) refl
]

left_by-IsCapped :
    (other : String) (ch : ℕ) (session : String) (h : EventHub)
    → IsCapped h session
    → IsCapped (left_by other ch h) session
unfolding left_by
left_by-IsCapped other ch session h ordered =
    elim (Option-cases (Dict.lookup other h.subscribers)) [
      | inl e ↦ rw (left_by, e) ordered
      | inr (bucket, e) ↦ rw (left_by, e) ordered
    ]

-- An ordered hub, if there was no panic.
abbrev EndsOrdered : String → Option EventHub → Type 0
EndsOrdered session none = Unit
EndsOrdered session (some h) = IsCapped h session

deliver-EndsOrdered :
    (sent : Option (EventFrame × List ℕ)) (session : String) (h : EventHub)
    → IsCapped h session
    → EndsOrdered session (deliver sent h)
unfolding deliver
deliver-EndsOrdered none session h ordered = ordered
deliver-EndsOrdered (some (frame, targets)) session h ordered =
    elim (Option-cases (send_all frame targets h.channels)) [
      | inl e ↦ rw (e, EndsOrdered) tt
      | inr (channels, e) ↦ rw (e, EndsOrdered) ordered
    ]

unless_closed :
    (session : String) (b : Bool) (h : EventHub)
    → IsCapped h session
    → EndsOrdered session (if b then none else some h)
unless_closed session true h ordered = tt
unless_closed session false h ordered = ordered

perform-EndsOrdered :
    (op : Operation) (session : String) (h : EventHub)
    → IsCapped h session
    → EndsOrdered session (perform op h)
unfolding perform unsubscribe
perform-EndsOrdered (subscribe_op other after) session h ordered = ordered
perform-EndsOrdered (unsubscribe_op other ch) session h ordered =
    unless_closed session (is_closed ch h.channels) (left_by other ch h)
      (left_by-IsCapped other ch session h ordered)
perform-EndsOrdered (record_op encode other) session h ordered = (
  record_event-IsOrdered encode other session h ordered.0,
  record_event-max encode other h ∙ ordered.1,
)
perform-EndsOrdered (deliver_op sent) session h ordered = deliver-EndsOrdered sent session h ordered

perform_all-EndsOrdered :
    (ops : List Operation) (session : String) (h : EventHub)
    → IsCapped h session
    → EndsOrdered session (perform_all ops h)
unfolding perform_all
perform_all-EndsOrdered [] session h ordered = ordered
perform_all-EndsOrdered (op ∷ ops) session h ordered =
    go (perform op h) (perform-EndsOrdered op session h ordered)
      (λ between. perform_all-EndsOrdered ops session between)
  where
    go :
        (first : Option EventHub)
        → EndsOrdered session first
        → ((between : EventHub)
            → IsCapped between session
            → EndsOrdered session (perform_all ops between))
        → EndsOrdered session (after_perform first (perform_all ops))
    go none h rest = tt
    go (some between) h rest = rest between h

zero_le : (n : ℕ) → 0 ≤ n
zero_le n = omega arith

-- Over any operations on a new hub, sends that come late among them, each session's history is in the
-- order of the sequence numbers, and no longer than 512 frames.
pub perform_all-IsOrdered :
    (ops : List Operation) (session : String) (h : EventHub)
    → perform_all ops new_event_hub ≡ some h
    → IsOrdered h session × (length (history_of session h) ≤ 512)
unfolding ascends Dict.lookup
perform_all-IsOrdered ops session h e =
    let (ordered, cap) =
      subst (EndsOrdered session) e
        (perform_all-EndsOrdered ops session new_event_hub ((refl, zero_le 512), refl)) in
    (ordered, subst (λ max. length (history_of session h) ≤ max) cap ordered.1)
