-- ===== src/Prelude/Text.antt =====
-- Go's strings as native texts, and the functions of the package `strings` that the program uses.
use Prim.Native.Char.{Char, code}
use Prim.Native.String.{char_at, ◌++◌}
use Prim.Native.Nat.{ℕ, ◌-◌, ◌/◌, ◌%◌, ◌<◌, zero, suc}
use native.Mathlib.Omega.{arith}
use text.Mathlib.TextLemmas.{nil-append, cons-append, append-eq-nil_iff}
use Prim.Native.String.{String}
use mathlib.Core.Bool.{Bool, false, false, ◌&&◌, ◌||◌}
use mathlib.Core.Path.{◌≡◌, refl}
use mathlib.Core.Logic.{inl, inr}
pub use text.Mathlib.Text.{starts_with as has_prefix, ◌==◌ as str_eq}
pub use text.Mathlib.TextEquality.{eq_iff}
pub use text.Mathlib.TextPositions.{eq_refl}
use xclaw.Prelude.Tests.{leb, ◌==◌, if◌then◌else◌, Bool-cases}

-- unicode.IsSpace
unfoldable pub is_space : ℕ → Bool
is_space c =
    (leb 9 c && leb c 13)
    || c == 32
    || c == 0x85
    || c == 0xa0
    || c == 0x1680
    || (leb 0x2000 c && leb c 0x200a)
    || c == 0x2028
    || c == 0x2029
    || c == 0x202f
    || c == 0x205f
    || c == 0x3000

trim_left : String → String
trim_left String.[] = String.[]
trim_left (String.◌∷◌ c s) = if is_space (code c) then trim_left s else String.◌∷◌ c s

abbrev keep_end : Char → String → String
keep_end c String.[] = if is_space (code c) then String.[] else String.◌∷◌ c String.[]
keep_end c (String.◌∷◌ d s) = String.◌∷◌ c (String.◌∷◌ d s)

trim_right : String → String
trim_right String.[] = String.[]
trim_right (String.◌∷◌ c s) = keep_end c (trim_right s)

-- strings.TrimSpace
unfoldable pub trim_space : String → String
unfolding trim_left trim_right is_space
trim_space s = trim_right (trim_left s)

-- No white space at the front.
abbrev IsFlush : String → Type 0
IsFlush String.[] = Unit
IsFlush (String.◌∷◌ c s) = is_space (code c) ≡ false

trim_left-IsFlush : (s : String) → IsFlush (trim_left s)
unfolding trim_left
trim_left-IsFlush String.[] = tt
trim_left-IsFlush (String.◌∷◌ c s) = elim (Bool-cases (is_space (code c))) [
  | inl e ↦ rw e (trim_left-IsFlush s)
  | inr e ↦ rw e e
]

keep_end-IsFlush : (c : Char) (s : String) → is_space (code c) ≡ false → IsFlush (keep_end c s)
keep_end-IsFlush c String.[] h = rw h h
keep_end-IsFlush c (String.◌∷◌ d s) h = h

trim_right-IsFlush : (s : String) → IsFlush s → IsFlush (trim_right s)
unfolding trim_right
trim_right-IsFlush String.[] h = tt
trim_right-IsFlush (String.◌∷◌ c s) h = keep_end-IsFlush c (trim_right s) h

trim_left_of_IsFlush : (s : String) → IsFlush s → trim_left s ≡ s
unfolding trim_left
trim_left_of_IsFlush String.[] h = refl
trim_left_of_IsFlush (String.◌∷◌ c s) h = rw h

keep_end_fixed :
    (c : Char) (s : String) → trim_right s ≡ s → trim_right (keep_end c s) ≡ keep_end c s
unfolding trim_right
keep_end_fixed c String.[] h = elim (Bool-cases (is_space (code c))) [
  | inl e ↦ rw e
  | inr e ↦ rw (e, trim_right, e)
]
keep_end_fixed c (String.◌∷◌ d s) h = rw h

trim_right_idem : (s : String) → trim_right (trim_right s) ≡ trim_right s
unfolding trim_right
trim_right_idem String.[] = refl
trim_right_idem (String.◌∷◌ c s) = keep_end_fixed c (trim_right s) (trim_right_idem s)

-- Trimming a trimmed text changes nothing.
pub trim_space_idem : (s : String) → trim_space (trim_space s) ≡ trim_space s
unfolding trim_space
trim_space_idem s =
    rw
      (trim_left_of_IsFlush (trim_right (trim_left s))
        (trim_right-IsFlush (trim_left s) (trim_left-IsFlush s)))
      (trim_right_idem (trim_left s))

-- a + b on strings
infixr 65 ◌<>◌
abbrev pub ◌<>◌ : String → String → String
a <> b = a ++ b

lower_char : Char → Char
lower_char c =
    if leb 65 (code c) && leb (code c) 90
    then char_at "abcdefghijklmnopqrstuvwxyz" (code c - 65)
    else c

-- strings.ToLower on ASCII letters; other letters stay as they are.
unfoldable pub to_lower : String → String
unfolding lower_char
to_lower String.[] = String.[]
to_lower (String.◌∷◌ c s) = String.◌∷◌ (lower_char c) (to_lower s)

-- strings.Contains
unfoldable pub contains_text : String → String → Bool
contains_text String.[] sub = str_eq sub ""
contains_text (String.◌∷◌ c s) sub = has_prefix (String.◌∷◌ c s) sub || contains_text s sub

-- The decimal digits of a number, before the text that follows; the first number is fuel.
decimal : ℕ → ℕ → String → String
decimal zero n rest = rest
decimal (suc fuel) n rest =
    let digit = String.◌∷◌ (char_at "0123456789" (n % 10)) rest in
    let more = decimal fuel (n / 10) digit in if leb 10 n then more else digit

-- fmt.Sprintf("%d", n); a number below 10^40 has at most 40 digits.
unfoldable pub show_decimal : ℕ → String
unfolding decimal
show_decimal n = decimal 40 n ""

-- No white space anywhere.
abbrev pub IsSolid : String → Type 0
IsSolid String.[] = Unit
IsSolid (String.◌∷◌ c s) = (is_space (code c) ≡ false) × IsSolid s

trim_right_of_IsSolid : (s : String) → IsSolid s → trim_right s ≡ s
unfolding trim_right
trim_right_of_IsSolid String.[] h = refl
trim_right_of_IsSolid (String.◌∷◌ c s) (hc, hs) = rw (trim_right_of_IsSolid s hs) (keep c s hc)
  where
    keep : (c : Char) (s : String) → is_space (code c) ≡ false → keep_end c s ≡ String.◌∷◌ c s
    keep c String.[] h = rw h
    keep c (String.◌∷◌ d s) h = refl

trim_space_of_IsSolid : (s : String) → IsSolid s → trim_space s ≡ s
unfolding trim_space
trim_space_of_IsSolid String.[] h = unfold trim_left trim_right in refl
trim_space_of_IsSolid (String.◌∷◌ c s) h =
    rw (trim_left_of_IsFlush (String.◌∷◌ c s) h.0) (trim_right_of_IsSolid (String.◌∷◌ c s) h)

not_below : (d : ℕ) → ¬ (suc (suc (suc (suc (suc (suc (suc (suc (suc (suc d))))))))) < 10)
not_below d h = omega arith

digit-IsSolid : (d : ℕ) → d < 10 → is_space (code (char_at "0123456789" d)) ≡ false
unfolding is_space
digit-IsSolid zero h = refl
digit-IsSolid (suc zero) h = refl
digit-IsSolid (suc (suc zero)) h = refl
digit-IsSolid (suc (suc (suc zero))) h = refl
digit-IsSolid (suc (suc (suc (suc zero)))) h = refl
digit-IsSolid (suc (suc (suc (suc (suc zero))))) h = refl
digit-IsSolid (suc (suc (suc (suc (suc (suc zero)))))) h = refl
digit-IsSolid (suc (suc (suc (suc (suc (suc (suc zero))))))) h = refl
digit-IsSolid (suc (suc (suc (suc (suc (suc (suc (suc zero)))))))) h = refl
digit-IsSolid (suc (suc (suc (suc (suc (suc (suc (suc (suc zero))))))))) h = refl
digit-IsSolid (suc (suc (suc (suc (suc (suc (suc (suc (suc (suc d)))))))))) h =
    absurd (not_below d h)

decimal-IsSolid : (fuel n : ℕ) (rest : String) → IsSolid rest → IsSolid (decimal fuel n rest)
unfolding decimal
decimal-IsSolid zero n rest h = h
decimal-IsSolid (suc fuel) n rest h = elim (Bool-cases (leb 10 n)) [
  | inl e ↦ rw e (decimal-IsSolid fuel (n / 10) _ (digit-IsSolid (n % 10) (omega arith), h))
  | inr e ↦ rw e (digit-IsSolid (n % 10) (omega arith), h)
]

append-IsSolid : (s t : String) → IsSolid s → IsSolid t → IsSolid (s ++ t)
append-IsSolid String.[] t h ht = rw (nil-append t) ht
append-IsSolid (String.◌∷◌ c s) t (hc, hs) ht =
    rw (cons-append c s t) (hc, append-IsSolid s t hs ht)

-- A name that the program makes has nothing to trim.
pub trim_space-numbered :
    (s : String) (n : ℕ) → IsSolid s → trim_space (s <> show_decimal n) ≡ s <> show_decimal n
unfolding show_decimal
trim_space-numbered s n h =
    trim_space_of_IsSolid (s <> show_decimal n) (append-IsSolid s _ h (decimal-IsSolid 40 n "" tt))

pub numbered-not_empty :
    (s : String) (n : ℕ) → str_eq s "" ≡ false → str_eq (s <> show_decimal n) "" ≡ false
numbered-not_empty s n h = ground (arith, eq_iff (s <> show_decimal n) "", eq_iff s "", split)
  where
    split : s <> show_decimal n ≡ "" → s ≡ ""
    split e = ((append-eq-nil_iff {p = s}).0 e).0
