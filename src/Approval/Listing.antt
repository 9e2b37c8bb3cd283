-- ===== src/Approval/Listing.antt =====
-- The list of the requests, the newest first: `ListRequests` of cli/approval/manager.go. `sort.Slice`
-- leaves the order of requests of the same instant open; here they stay in the map's order.
use xclaw.Prelude.{
  ℕ, ◌≤◌, refl, inl, inr, List, [], ◌∷◌, arith, Bool-cases, ltb, ltb→lt, if◌then◌else◌,
}
use mathlib.Core.List.{Permᴰ}
use mathlib.Core.List.Permᴰ
use xclaw.Prelude.Dict.{values}
use xclaw.Approval.Request.{Request}
use xclaw.Approval.Manager.{Manager, expire_requests}

unfoldable pub insert_newest : Request → List Request → List Request
insert_newest r [] = r ∷ []
insert_newest r (q ∷ out) =
    let further = q ∷ insert_newest r out in
    if ltb r.created_at q.created_at then further else r ∷ q ∷ out

-- sort.Slice by After on the creation times.
unfoldable pub newest_first : List Request → List Request
newest_first [] = []
newest_first (r ∷ out) = insert_newest r (newest_first out)

unfoldable pub list_requests : ℕ → Manager → List Request × Manager
unfolding newest_first insert_newest
list_requests now m = let m' = expire_requests now m in (newest_first (values m'.requests), m')

-- Each request is at least as new as the next.
abbrev pub NotOlder : Request → List Request → Type 0
NotOlder r [] = Unit
NotOlder r (q ∷ out) = q.created_at ≤ r.created_at

abbrev pub NewestFirst : List Request → Type 0
NewestFirst [] = Unit
NewestFirst (r ∷ out) = NotOlder r out × NewestFirst out

insert_newest-Perm : (r : Request) (out : List Request) → Permᴰ (insert_newest r out) (r ∷ out)
unfolding insert_newest
insert_newest-Perm r [] = Permᴰ.refl (r ∷ [])
insert_newest-Perm r (q ∷ out) = elim (Bool-cases (ltb r.created_at q.created_at)) [
  | inl e ↦ rw e (Permᴰ.trans (Permᴰ.cons refl (insert_newest-Perm r out)) (Permᴰ.swap refl refl))
  | inr e ↦ rw e (Permᴰ.refl (r ∷ q ∷ out))
]

insert_newest-NotOlder :
    (p r : Request) (out : List Request)
    → r.created_at ≤ p.created_at
    → NotOlder p out
    → NotOlder p (insert_newest r out)
unfolding insert_newest
insert_newest-NotOlder p r [] h _ = h
insert_newest-NotOlder p r (q ∷ out) h hq = elim (Bool-cases (ltb r.created_at q.created_at)) [
  | inl e ↦ rw e hq
  | inr e ↦ rw e h
]

insert_newest-NewestFirst :
    (r : Request) (out : List Request) → NewestFirst out → NewestFirst (insert_newest r out)
unfolding insert_newest
insert_newest-NewestFirst r [] h = (tt, tt)
insert_newest-NewestFirst r (q ∷ out) (hq, h) = elim (Bool-cases (ltb r.created_at q.created_at)) [
  | inl e ↦ rw e (
    insert_newest-NotOlder q r out (omega (arith, ltb→lt r.created_at q.created_at e)) hq,
    insert_newest-NewestFirst r out h,
  )
  | inr e ↦ rw e (ground (arith, e), (hq, h))
]

newest_first-Perm : (out : List Request) → Permᴰ (newest_first out) out
unfolding newest_first
newest_first-Perm [] = Permᴰ.nil
newest_first-Perm (r ∷ out) =
    Permᴰ.trans (insert_newest-Perm r (newest_first out)) (Permᴰ.cons refl (newest_first-Perm out))

newest_first-NewestFirst : (out : List Request) → NewestFirst (newest_first out)
unfolding newest_first
newest_first-NewestFirst [] = tt
newest_first-NewestFirst (r ∷ out) =
    insert_newest-NewestFirst r (newest_first out) (newest_first-NewestFirst out)

-- ListRequests gives every request that is stored after the expiry, once, the newest first.
pub list_requests_lem :
    (now : ℕ) (m : Manager)
    → Permᴰ (list_requests now m).0 (values (expire_requests now m).requests)
      × NewestFirst (list_requests now m).0
unfolding list_requests
list_requests_lem now m =
    let stored = values (expire_requests now m).requests in
    (newest_first-Perm stored, newest_first-NewestFirst stored)
