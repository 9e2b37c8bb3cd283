-- ===== src/Prelude/Dict.antt =====
-- A Go map with string keys: an association list that holds a key once. The order of the entries
-- stands for the order, unspecified in Go, in which `range` visits them.
use Prim.Native.String.{String}
use mathlib.Core.Bool.{Bool}
use mathlib.Core.List.{List, [], ◌∷◌}
use mathlib.Core.Option.{Option, none, some}
use mathlib.Core.Path.{◌≡◌, refl}
use native.Mathlib.Omega.{arith}
use text.Mathlib.Text.{◌==◌ as str_eq}
use text.Mathlib.TextEquality.{eq_iff}
use mathlib.Core.Path.{subst}
use mathlib.Core.Logic.{inl, inr}
use mathlib.Core.Bool.{false}
use xclaw.Prelude.Tests.{if◌then◌else◌, Bool-cases}

abbrev pub Dict {ℓ} : Type ℓ → Type ℓ
Dict V = List (String × V)

module _ {ℓ} {V : Type ℓ} where
  -- value, ok := m[key]
  unfoldable pub lookup : String → Dict V → Option V
  lookup key [] = none
  lookup key ((k, value) ∷ rest) = if str_eq k key then some value else lookup key rest

  -- m[key] = value: an entry that is there is overwritten, a new one comes last.
  unfoldable pub insert : String → V → Dict V → Dict V
  insert key value [] = (key, value) ∷ []
  insert key value ((k, old) ∷ rest) =
      let kept = (k, old) ∷ insert key value rest in
      if str_eq k key then (key, value) ∷ rest else kept

  -- delete(m, k)
  unfoldable pub erase : String → Dict V → Dict V
  erase k [] = []
  erase k ((j, v) ∷ m) = let rest = erase k m in if str_eq j k then rest else (j, v) ∷ rest

  -- for k, v := range m { if drop(v) { delete(m, k) } }
  unfoldable pub remove_if : (V → Bool) → Dict V → Dict V
  remove_if p [] = []
  remove_if p ((j, v) ∷ m) = let rest = remove_if p m in if p v then rest else (j, v) ∷ rest

  -- for k, v := range m { m[k] = f(v) }
  unfoldable pub map_values : (V → V) → Dict V → Dict V
  map_values f [] = []
  map_values f ((j, v) ∷ m) = (j, f v) ∷ map_values f m

  abbrev pub values : Dict V → List V
  values [] = []
  values ((j, v) ∷ m) = v ∷ values m

  abbrev pub map_option : (V → V) → Option V → Option V
  map_option f none = none
  map_option f (some v) = some (f v)

  abbrev pub keep_unless : (V → Bool) → Option V → Option V
  keep_unless p none = none
  keep_unless p (some v) = if p v then none else some v

  -- Reading behind a write.
  pub lookup-insert :
      (key other : String) (value : V) (m : Dict V)
      → lookup other (insert key value m)
        ≡ (if str_eq key other then some value else lookup other m)
  unfolding lookup insert
  lookup-insert key other value [] = refl
  lookup-insert key other value ((k, old) ∷ rest) =
      ground
        (arith, lookup-insert key other value rest, eq_iff k other, eq_iff k key, eq_iff key other)

  pub lookup-erase :
      (k j : String) (m : Dict V) → lookup j (erase k m) ≡ (if str_eq k j then none else lookup j m)
  unfolding lookup erase
  lookup-erase k j [] = ground arith
  lookup-erase k j ((i, w) ∷ m) =
      ground (arith, lookup-erase k j m, eq_iff i k, eq_iff i j, eq_iff k j)

  pub lookup-map_values :
      (f : V → V) (k : String) (m : Dict V) → lookup k (map_values f m) ≡ map_option f (lookup k m)
  unfolding lookup map_values
  lookup-map_values f k [] = refl
  lookup-map_values f k ((i, w) ∷ m) = ground (arith, lookup-map_values f k m)

  -- A key is held once.
  abbrev pub Lacks : String → Dict V → Type ℓ
  Lacks k m = lookup k m ≡ none

  abbrev pub HasNoRepeat : Dict V → Type ℓ
  HasNoRepeat [] = Unit
  HasNoRepeat ((j, v) ∷ m) = Lacks j m × HasNoRepeat m

  pub remove_if-Lacks :
      (p : V → Bool) (k : String) (m : Dict V) → Lacks k m → Lacks k (remove_if p m)
  unfolding lookup remove_if
  remove_if-Lacks p k [] h = refl
  remove_if-Lacks p k ((i, w) ∷ m) h = ground (arith, remove_if-Lacks p k m)

  pub lookup-remove_if :
      (p : V → Bool) (k : String) (m : Dict V)
      → HasNoRepeat m
      → lookup k (remove_if p m) ≡ keep_unless p (lookup k m)
  unfolding lookup remove_if
  lookup-remove_if p k [] h = refl
  lookup-remove_if p k ((i, w) ∷ m) h =
      ground (arith, lookup-remove_if p k m h.1, remove_if-Lacks p i m h.0, eq_iff i k)

  pub insert-Lacks :
      (k j : String) (v : V) (m : Dict V) → str_eq k j ≡ false → Lacks j m → Lacks j (insert k v m)
  insert-Lacks k j v m ne h = ground (arith, lookup-insert k j v m)

  pub insert-HasNoRepeat :
      (k : String) (v : V) (m : Dict V) → HasNoRepeat m → HasNoRepeat (insert k v m)
  unfolding insert
  insert-HasNoRepeat k v [] h = (unfold lookup in refl, tt)
  insert-HasNoRepeat k v ((i, w) ∷ m) h = elim (Bool-cases (str_eq i k)) [
    | inl e ↦ rw e (subst (λ x. Lacks x m) ((eq_iff i k).0 e) h.0, h.1)
    | inr e ↦ rw e (
      insert-Lacks k i v m (ground (arith, eq_iff i k, eq_iff k i)) h.0,
      insert-HasNoRepeat k v m h.1,
    )
  ]

  pub remove_if-HasNoRepeat :
      (p : V → Bool) (m : Dict V) → HasNoRepeat m → HasNoRepeat (remove_if p m)
  unfolding remove_if
  remove_if-HasNoRepeat p [] h = tt
  remove_if-HasNoRepeat p ((i, w) ∷ m) h = elim (Bool-cases (p w)) [
    | inl e ↦ rw e (remove_if-HasNoRepeat p m h.1)
    | inr e ↦ rw e (remove_if-Lacks p i m h.0, remove_if-HasNoRepeat p m h.1)
  ]

  erase-Lacks : (k j : String) (m : Dict V) → Lacks j m → Lacks j (erase k m)
  erase-Lacks k j m h = ground (arith, lookup-erase k j m)

  pub erase-HasNoRepeat : (k : String) (m : Dict V) → HasNoRepeat m → HasNoRepeat (erase k m)
  unfolding erase
  erase-HasNoRepeat k [] h = tt
  erase-HasNoRepeat k ((i, w) ∷ m) h = elim (Bool-cases (str_eq i k)) [
    | inl e ↦ rw e (erase-HasNoRepeat k m h.1)
    | inr e ↦ rw e (erase-Lacks k i m h.0, erase-HasNoRepeat k m h.1)
  ]
