-- ===== src/Tools/Path/Inside.antt =====
-- A path that `safePath` of cli/tools/executor.go gives out lies in the workspace.
use text.Mathlib.TextPositions.{starts_with-append}
use text.Mathlib.TextLemmas.{append-nil as text_append-nil}
use xclaw.Prelude.{
  ◌≡◌, refl, sym, ap, ◌∙◌, true, false, inl, inr, List, [], ◌∷◌, ◌++◌, All, All-append, Option,
  none, some, String, arith, Bool-cases, str_eq, eq_iff, has_prefix, ◌<>◌, ◌||◌, if◌then◌else◌,
}
use mathlib.Core.Path.{subst}
use xclaw.Prelude.Parse.{split, join}
use xclaw.Prelude.Result.{Result, ok, err, ◌>>=◌}
use xclaw.Tools.Path.{
  parent, walk, clean_from, absolute, abs_names, past_common, ups, or_dot, rel, within, safe_path,
}

-- The name of an entry of a directory, not of the directory or its parent.
pub record IsName (name : String) : Type 0 where
  pub not_blank : (str_eq name "" || str_eq name ".") ≡ false
  pub not_parent : str_eq name ".." ≡ false

parent-names : (dir : List String) → All IsName dir → All IsName (parent dir)
parent-names [] h = tt
parent-names (n ∷ []) h = tt
parent-names (n ∷ k ∷ names) (hn, h) = (hn, parent-names (k ∷ names) h)

walk-names : (dir parts : List String) → All IsName dir → All IsName (walk dir parts)
unfolding walk
walk-names dir [] h = h
walk-names dir (part ∷ parts) h = elim (Bool-cases (str_eq part "" || str_eq part ".")) [
  | inl e ↦ rw e (walk-names dir parts h)
  | inr e ↦ rw e (elim (Bool-cases (str_eq part "..")) [
    | inl u ↦ rw u (walk-names (parent dir) parts (parent-names dir h))
    | inr u ↦ rw u (
        walk-names (dir ++ part ∷ []) parts
          (All-append IsName dir (part ∷ []) h (record { not_blank = e; not_parent = u }, tt)))
  ])
]

-- Where nothing of the base is left, the target continues it.
past_common-target :
    (base target : List String)
    → (past_common base target).0 ≡ []
    → target ≡ base ++ (past_common base target).1
unfolding past_common
past_common-target [] target h = refl
past_common-target (b ∷ base) [] h = cc
past_common-target (b ∷ base) (t ∷ target) h = elim (Bool-cases (str_eq b t)) [
  | inl e ↦ rw e (
      ap (λ n. n ∷ target) (sym ((eq_iff b t).0 e))
      ∙ ap (λ names. b ∷ names) (past_common-target base target (rw (past_common, e) at h)))
  | inr e ↦ ground (arith, rw (past_common, e) at h)
]

join-head : (n : String) (names : List String) → has_prefix (join "/" (n ∷ names)) n ≡ true
unfolding join
join-head n [] = subst (λ v. has_prefix v n ≡ true) (text_append-nil n) (starts_with-append n "")
join-head n (k ∷ names) = starts_with-append n ("/" <> join "/" (k ∷ names))

-- A relative path that leaves the base begins with two dots.
ups-dots :
    (left rest : List String) → has_prefix (or_dot (ups left ++ rest)) ".." ≡ false → left ≡ []
ups-dots [] rest h = refl
ups-dots (b ∷ left) rest h = ground (arith, h, join-head ".." (ups left ++ rest))

ok_inj : {A : Type 0} {a b : A} → ◌≡◌ {A = Result String A} (ok a) (ok b) → a ≡ b
ok_inj h = cc

-- A chain that succeeds has succeeded at each step.
bound :
    {A B : Type 0} (r : Result String A) (f : A → Result String B) {b : B}
    → (r >>= f) ≡ ok b
    → (a : A) × (r ≡ ok a) × (f a ≡ ok b)
bound (ok a) f h = (a, refl, h)
bound (err e) f h = cc

All-behind : (xs ys : List String) → All IsName (xs ++ ys) → All IsName ys
All-behind [] ys h = h
All-behind (x ∷ xs) ys (hx, h) = All-behind xs ys h

abs_names-names :
    (cwd : Option String) (path : String) (base : List String)
    → abs_names cwd path ≡ ok base
    → All IsName base
unfolding abs_names
abs_names-names cwd path base h = elim (Bool-cases (has_prefix path "/")) [
  | inl e ↦ subst (All IsName) (ok_inj (rw (abs_names, e) at h)) (walk-names [] (split 47 path) tt)
  | inr e ↦ relative cwd (rw (abs_names, e) at h)
]
  where
    relative :
        (cwd : Option String)
        → elim cwd as (λ c. Result String (List String)) [
          | none ↦ err "getwd"
          | some dir ↦ ok (clean_from (clean_from [] dir) path)
        ]
          ≡ ok base
        → All IsName base
    relative none h = cc
    relative (some dir) h =
        subst (All IsName) (ok_inj h)
          (walk-names (clean_from [] dir) (split 47 path) (walk-names [] (split 47 dir) tt))

within-inside :
    (target path : String) (base : List String)
    → All IsName base
    → within target base ≡ ok path
    → (rest : List String) × (path ≡ absolute (base ++ rest)) × All IsName rest
unfolding within rel
within-inside target path base hb h =
    let names = clean_from base target in
    let parts = past_common base names in
    elim (Bool-cases (has_prefix (rel base names) "..")) [
      | inl e ↦ ground (arith, rw (within, e) at h)
      | inr e ↦
          let same : names ≡ base ++ parts.1 =
            past_common-target base names (ups-dots parts.0 parts.1 e) in
          (
            parts.1,
            sym (ok_inj (rw (within, e) at h)) ∙ ap absolute same,
            All-behind base parts.1
                (subst (All IsName) same (walk-names base (split 47 target) hb)),
          )
    ]

-- If safePath gives a path out, it is the workspace's path followed by names of entries: no "..", no
-- "." and no blank name.
pub safe_path-inside :
    (cwd : Option String) (root target path : String)
    → safe_path cwd root target ≡ ok path
    → (base rest : List String) × (abs_names cwd root ≡ ok base)
      × (path ≡ absolute (base ++ rest))
      × All IsName rest
unfolding safe_path
safe_path-inside cwd root target path h = elim (Bool-cases (str_eq root "")) [
  | inl e ↦ ground (arith, rw (safe_path, e) at h)
  | inr e ↦
      let wanted = if str_eq target "" then "." else target in
      let (base, found, inside) =
        bound (abs_names cwd root) (within wanted) (rw (safe_path, e) at h) in
      let (rest, same, names) =
        within-inside wanted path base (abs_names-names cwd root base found) inside in
      (base, rest, found, same, names)
]
