-- ===== src/Engine/EventHub/Delivery.antt =====
-- Who gets a frame, and when a send panics.
use xclaw.Prelude.{
  ℕ, ◌+◌, ◌≡◌, refl, ap, ◌∙◌, Bool, true, false, ◌&&◌, ◌||◌, ◌↔◌, List, [], ◌∷◌, ◌++◌, Option, none,
  some, String, length, arith, ltb, ◌==◌, Bool-cases, Option-cases, inl, inr, if◌then◌else◌,
}
use xclaw.Prelude.Dict as Dict
use xclaw.Engine.EventHub.{
  EventFrame, EventHub, Channel, channel_size, is_member, send, send_all, cons_option, close,
  unsubscribe, left_by, is_closed, deliver, record_event, subscribers_of, history_of, trimmed,
}

-- Some channel among the targets is closed.
unfoldable pub hits_closed : List ℕ → List Channel → Bool
unfolding is_member
hits_closed targets [] = false
hits_closed targets (c ∷ cs) = (is_member c.number targets && c.closed) || hits_closed targets cs

cons_option-none : (o : Option Channel) → cons_option o none ≡ none
cons_option-none none = refl
cons_option-none (some c) = refl

send_closed :
    (frame : EventFrame) (targets : List ℕ) (c : Channel) (rest : Option (List Channel))
    → (is_member c.number targets && c.closed) ≡ true
    → cons_option (if is_member c.number targets then send frame c else some c) rest ≡ none
unfolding send
send_closed frame targets c rest h = ground arith

send_all-none :
    (frame : EventFrame) (targets : List ℕ) (cs : List Channel)
    → hits_closed targets cs ≡ true
    → send_all frame targets cs ≡ none
unfolding send_all hits_closed
send_all-none frame targets [] h = ground arith
send_all-none frame targets (c ∷ cs) h =
    elim (Bool-cases (is_member c.number targets && c.closed)) [
      | inl here ↦ send_closed frame targets c (send_all frame targets cs) here
      | inr elsewhere ↦
          rw (send_all-none frame targets cs (ground arith))
            (cons_option-none (if is_member c.number targets then send frame c else some c))
    ]

send_open :
    (frame : EventFrame) (targets : List ℕ) (c : Channel)
    → (is_member c.number targets && c.closed) ≡ false
    → (c' : Channel) × ((if is_member c.number targets then send frame c else some c) ≡ some c')
unfolding send
send_open frame targets c h = elim (Bool-cases (is_member c.number targets)) [
  | inr away ↦ rw away (c, refl)
  | inl target ↦
      let open_now : c.closed ≡ false = ground arith in
      elim (Bool-cases (ltb (length c.frames) channel_size)) [
        | inl room ↦
            rw (target, open_now, room)
              (record c { frames = c.frames ++ frame ∷ []; closed = false }, refl)
        | inr full ↦ rw (target, open_now, full) (record c { closed = false }, refl)
      ]
]

send_all-some :
    (frame : EventFrame) (targets : List ℕ) (cs : List Channel)
    → hits_closed targets cs ≡ false
    → (cs' : List Channel) × (send_all frame targets cs ≡ some cs')
unfolding send_all hits_closed
send_all-some frame targets [] h = ([], refl)
send_all-some frame targets (c ∷ cs) h =
    let (c', e) = send_open frame targets c (ground arith) in
    let (cs', es) = send_all-some frame targets cs (ground arith) in (c' ∷ cs', rw (e, es) refl)

-- The sends of a Publish panic exactly if a channel that was subscribed is closed by then.
pub deliver_panics_iff :
    (frame : EventFrame) (targets : List ℕ) (h : EventHub)
    → (deliver (some (frame, targets)) h ≡ none) ↔ (hits_closed targets h.channels ≡ true)
unfolding deliver
deliver_panics_iff frame targets h = elim (Bool-cases (hits_closed targets h.channels)) [
  | inl hit ↦ (λ _. hit, λ _. rw (deliver, send_all-none frame targets h.channels hit) refl)
  | inr clear ↦
      let (channels, e) = send_all-some frame targets h.channels clear in
      let sent : deliver (some (frame, targets)) h ≡ some (record h { channels = channels }) =
        rw (deliver, e) refl in
      (λ panics. cc, λ hit. cc)
]

unfoldable pub has_channel : ℕ → List Channel → Bool
has_channel ch [] = false
has_channel ch (c ∷ cs) = c.number == ch || has_channel ch cs

close-hits_closed :
    (ch : ℕ) (targets : List ℕ) (cs : List Channel)
    → is_member ch targets ≡ true
    → has_channel ch cs ≡ true
    → hits_closed targets (close ch cs) ≡ true
unfolding close hits_closed has_channel
close-hits_closed ch targets [] member there = ground arith
close-hits_closed ch targets (c ∷ cs) member there = elim (Bool-cases (c.number == ch)) [
  | inl same ↦
      let at : c.number ≡ ch = ground arith in
      let member' = ap (λ (n : ℕ). is_member n targets) at ∙ member in rw (same, member') refl
  | inr other ↦
      let rest = close-hits_closed ch targets cs member (ground arith) in
      rw (other, rest) (ground arith)
]

left_by-closes :
    (session : String) (ch : ℕ) (h : EventHub)
    → (left_by session ch h).channels ≡ close ch h.channels
unfolding left_by
left_by-closes session ch h = elim (Option-cases (Dict.lookup session h.subscribers)) [
  | inl e ↦ rw (left_by, e) refl
  | inr (bucket, e) ↦ rw (left_by, e) refl
]

leaving_hits :
    (session : String) (ch : ℕ) (frame : EventFrame) (targets : List ℕ) (h : EventHub)
    → is_member ch targets ≡ true
    → has_channel ch h.channels ≡ true
    → deliver (some (frame, targets)) (left_by session ch h) ≡ none
leaving_hits session ch frame targets h member there =
    (deliver_panics_iff frame targets (left_by session ch h)).1
      (rw (left_by-closes session ch h) (close-hits_closed ch targets h.channels member there))

-- If a subscriber whose channel is open leaves between the two halves of a Publish to its session,
-- whose event has a frame, then it leaves, and Publish panics.
pub leaving_panics :
    (encode : ℕ → Option String) (session : String) (ch : ℕ) (h : EventHub) (payload : String)
    → encode (h.next_seq + 1) ≡ some payload
    → is_member ch (subscribers_of session h) ≡ true
    → has_channel ch h.channels ≡ true
    → is_closed ch h.channels ≡ false
    → (h' : EventHub) × (unsubscribe session ch (record_event encode session h).1 ≡ some h')
      × (deliver (record_event encode session h).0 h' ≡ none)
unfolding record_event unsubscribe
leaving_panics encode session ch h payload e member there fresh =
    let frame : EventFrame = record { sequence = h.next_seq + 1; payload = payload } in
    let grown = trimmed h.max_history (history_of session h ++ frame ∷ []) in
    let h1 : EventHub = record h {
      next_seq = h.next_seq + 1;
      history = Dict.insert session grown h.history;
    } in
    rw (record_event, e, unsubscribe, fresh)
      (
        left_by session ch h1,
        refl,
        leaving_hits session ch frame (subscribers_of session h) h1 member there,
      )
