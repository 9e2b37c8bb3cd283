-- ===== src/Gateway/Reliability/Window.antt =====
-- For how long an event, or a reply, counts as seen.
use xclaw.Prelude.{
  ℕ, ◌+◌, ◌<◌, ◌≡◌, ◌≢◌, false, List, [], ◌∷◌, some, String, arith, str_eq, eq_iff, eq_refl, ltb,
  if◌then◌else◌,
}
use text.Mathlib.TextLemmas.{append-eq-nil_iff}
use xclaw.Prelude.Dict
use xclaw.Prelude.Dict.{
  HasNoRepeat, lookup-insert, lookup-remove_if, insert-HasNoRepeat, remove_if-HasNoRepeat,
}
use xclaw.Gateway.Reliability.{
  DedupeCache, purge, seen, mark, ReliabilityManager, day, inbound_key, seen_inbound, seen_outbound,
  mark_outbound,
}

-- The cache is well-formed, and `key` counts as seen up to `until`.
pub record Marked (key : String) (until : ℕ) (c : DedupeCache) : Type 0 where
  pub no_repeat : HasNoRepeat c.items
  pub marked : Dict.lookup key c.items ≡ some until

abbrev pub IsWellFormed : DedupeCache → Type 0
IsWellFormed c = HasNoRepeat c.items

purge-lookup :
    (now : ℕ) (key : String) (c : DedupeCache)
    → IsWellFormed c
    → Dict.lookup key (purge now c).items
      ≡ Dict.keep_unless (λ until. ltb until now) (Dict.lookup key c.items)
unfolding purge
purge-lookup now key c h = lookup-remove_if (λ until. ltb until now) key c.items h

purge-IsWellFormed : (now : ℕ) (c : DedupeCache) → IsWellFormed c → IsWellFormed (purge now c)
unfolding purge
purge-IsWellFormed now c h = remove_if-HasNoRepeat (λ until. ltb until now) c.items h

seen-IsWellFormed :
    (now : ℕ) (key : String) (ttl : ℕ) (c : DedupeCache)
    → IsWellFormed c
    → IsWellFormed (seen now key ttl c).1
unfolding seen
seen-IsWellFormed now key ttl c h =
    ground
      (arith, purge-IsWellFormed now c h, insert-HasNoRepeat key (now + ttl) (purge now c).items)

-- A first sight marks its key up to the end of the window.
seen-Marked :
    (now : ℕ) (key : String) (ttl : ℕ) (c : DedupeCache)
    → key ≢ ""
    → IsWellFormed c
    → (seen now key ttl c).0 ≡ false
    → Marked key (now + ttl) (seen now key ttl c).1
unfolding seen
seen-Marked now key ttl c named h fresh = record {
  no_repeat = seen-IsWellFormed now key ttl c h;
  marked =
      ground
        (arith, eq_iff key "", eq_refl key, lookup-insert key key (now + ttl) (purge now c).items);
}

-- Inside the window no other sight, of whatever key, takes the mark away or moves it.
seen_keeps :
    (now : ℕ) (other key : String) (ttl until : ℕ) (c : DedupeCache)
    → now < until
    → Marked key until c
    → Marked key until (seen now other ttl c).1
unfolding seen
seen_keeps now other key ttl until c inside h = record {
  no_repeat = seen-IsWellFormed now other ttl c h.no_repeat;
  marked = ground (
    arith,
    h.marked,
    purge-lookup now key c h.no_repeat,
    lookup-insert other key (now + ttl) (purge now c).items,
    eq_iff other key,
  );
}

-- What a marked key answers.
seen-Marked' :
    (now : ℕ) (key : String) (ttl until : ℕ) (c : DedupeCache)
    → key ≢ ""
    → Marked key until c
    → (seen now key ttl c).0 ≡ ltb now until
unfolding seen
seen-Marked' now key ttl until c named h =
    ground (arith, h.marked, purge-lookup now key c h.no_repeat, eq_iff key "")

inbound_key-ne-empty : (platform event_id : String) → inbound_key platform event_id ≢ ""
inbound_key-ne-empty platform event_id h =
    not_colon ((append-eq-nil_iff {p = ":"}).0 ((append-eq-nil_iff {p = platform}).0 h).1).0
  where
    not_colon : ◌≢◌ {A = String} ":" ""
    not_colon = ground (arith, eq_iff ":" "")

-- An event that arrives at a time.
pub record Arrival : Type 0 where
  pub now : ℕ
  pub platform : String
  pub event_id : String

-- Arrivals, one after the other; what each was answered is not kept.
unfoldable pub receive : List Arrival → ReliabilityManager → ReliabilityManager
receive [] r = r
receive (a ∷ arrivals) r = receive arrivals (seen_inbound a.now a.platform a.event_id r).1

abbrev pub AllBefore : ℕ → List Arrival → Type 0
AllBefore t [] = Unit
AllBefore t (a ∷ arrivals) = (a.now < t) × AllBefore t arrivals

receive_keeps :
    (arrivals : List Arrival) (key : String) (until : ℕ) (r : ReliabilityManager)
    → AllBefore until arrivals
    → Marked key until r.inbound_dedupe
    → Marked key until (receive arrivals r).inbound_dedupe
unfolding receive seen_inbound
receive_keeps [] key until r before h = h
receive_keeps (a ∷ arrivals) key until r before h =
    receive_keeps arrivals key until (seen_inbound a.now a.platform a.event_id r).1 before.1 (
      seen_keeps a.now (inbound_key a.platform a.event_id) key day until r.inbound_dedupe before.0
        h)

-- An event that was let in at `t₀` is refused for a day, whatever other events arrive in that day,
-- its own redeliveries among them, and it is let in again at the end of the day: the refusals do not
-- lengthen the window.
pub redelivery_window :
    (t₀ t : ℕ) (platform event_id : String) (arrivals : List Arrival) (r : ReliabilityManager)
    → IsWellFormed r.inbound_dedupe
    → (seen_inbound t₀ platform event_id r).0 ≡ false
    → AllBefore (t₀ + day) arrivals
    → (seen_inbound t platform event_id
        (receive arrivals (seen_inbound t₀ platform event_id r).1)).0
      ≡ ltb t (t₀ + day)
unfolding seen_inbound
redelivery_window t₀ t platform event_id arrivals r h fresh before =
    let key = inbound_key platform event_id in
    let named = inbound_key-ne-empty platform event_id in
    let first = seen-Marked t₀ key day r.inbound_dedupe named h fresh in
    seen-Marked' t key day (t₀ + day) _ named
      (receive_keeps arrivals key (t₀ + day) (seen_inbound t₀ platform event_id r).1 before first)

mark-IsWellFormed :
    (now : ℕ) (key : String) (ttl : ℕ) (c : DedupeCache)
    → IsWellFormed c
    → IsWellFormed (mark now key ttl c)
unfolding mark
mark-IsWellFormed now key ttl c h =
    ground
      (arith, purge-IsWellFormed now c h, insert-HasNoRepeat key (now + ttl) (purge now c).items)

-- Marking a reply makes it count as sent for a day, exactly; a blank key never counts as sent.
pub outbound_window :
    (t₀ t : ℕ) (key : String) (r : ReliabilityManager)
    → IsWellFormed r.outbound_idem
    → (seen_outbound t key (mark_outbound t₀ key r)).0
      ≡ (if str_eq key "" then false else ltb t (t₀ + day))
unfolding seen_outbound mark_outbound
outbound_window t₀ t key r h = ground (
  arith,
  purge-lookup t key (mark t₀ key day r.outbound_idem)
      (mark-IsWellFormed t₀ key day r.outbound_idem h),
  lookup-insert key key (t₀ + day) (purge t₀ r.outbound_idem).items,
  eq_refl key,
)
