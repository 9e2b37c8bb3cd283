-- ===== src/Engine/EventHub/Backlog.antt =====
-- What a subscriber that comes back is given.
use xclaw.Prelude.{
  ℕ, ◌≤◌, ◌<◌, ◌≡◌, refl, ap, true, false, List, [], ◌∷◌, ◌++◌, String, arith, ltb, ◌==◌,
  Bool-cases, inl, inr,
}
use xclaw.Engine.EventHub.{EventFrame, EventHub, history_of, frames_after, subscribe_since}
use xclaw.Engine.EventHub.Order.{ascends, IsOrdered}

all_after :
    (after low high : ℕ) (frames : List EventFrame)
    → after ≤ low
    → ascends low high frames ≡ true
    → frames_after after frames ≡ frames
unfolding frames_after ascends
all_after after low high [] le e = refl
all_after after low high (f ∷ frames) le e =
    let rest = all_after after f.sequence high frames (ground arith) (ground arith) in
    let here : ltb after f.sequence ≡ true = ground arith in
    rw here (ap (λ (fs : List EventFrame). f ∷ fs) rest)

frames_after_split :
    (after low high : ℕ) (frames : List EventFrame)
    → ascends low high frames ≡ true
    → (older : List EventFrame) × (frames ≡ older ++ frames_after after frames)
      × (ascends low after older ≡ true)
      × (ascends after high (frames_after after frames) ≡ true)
unfolding frames_after ascends
frames_after_split after low high [] e = ([], refl, refl, refl)
frames_after_split after low high (f ∷ frames) e = elim (Bool-cases (ltb after f.sequence)) [
  | inl newer ↦
      let rest = all_after after f.sequence high frames (ground arith) (ground arith) in
      rw (newer, rest) ([], refl, refl, ground arith)
  | inr seen ↦
      let (older, split, old, new) =
        frames_after_split after f.sequence high frames (ground arith) in
      rw seen (f ∷ older, ap (λ (fs : List EventFrame). f ∷ fs) split, ground arith, new)
]

-- If `after` is positive, the history of an ordered hub falls into frames up to `after` and the backlog
-- that SubscribeSince gives, whose numbers lie behind `after`: a subscriber that comes back with the
-- number of a frame misses nothing that is held.
pub backlog_split :
    (h : EventHub) (session : String) (after : ℕ)
    → 0 < after
    → IsOrdered h session
    → (older : List EventFrame) × (history_of session h
        ≡ older ++ (subscribe_since session after h).0.1)
      × (ascends 0 after older ≡ true)
      × (ascends after h.next_seq (subscribe_since session after h).0.1 ≡ true)
unfolding subscribe_since
backlog_split h session after positive (ordered, short) =
    let given : (after == 0) ≡ false = ground arith in
    rw given (frames_after_split after 0 h.next_seq (history_of session h) ordered)
