-- ===== src/Prelude/Parse.antt =====
-- Cutting texts to pieces and reading numbers: the functions of Go's `strings` and `strconv` that the
-- program's parsers use. Characters are told apart by their code.
use Prim.Native.Char.{Char, code}
use Prim.Native.Nat.{ℕ, ◌+◌, ◌-◌, ◌*◌, ◌^◌}
use Prim.Native.String.{String}
use mathlib.Core.Bool.{◌&&◌}
use mathlib.Core.List.{List, [], ◌∷◌}
use mathlib.Core.Option.{Option, none, some}
use xclaw.Prelude.Tests.{leb, ltb, ◌==◌, if◌then◌else◌}
use xclaw.Prelude.Text.{is_space, str_eq, ◌<>◌}
use xclaw.Prelude.Int.{ℤ, pos, negsuc}

unfoldable pub put_first : Char → List String → List String
put_first c [] = String.◌∷◌ c String.[] ∷ []
put_first c (p ∷ parts) = String.◌∷◌ c p ∷ parts

-- strings.Split at the character `sep`.
unfoldable pub split : ℕ → String → List String
unfolding put_first
split sep String.[] = "" ∷ []
split sep (String.◌∷◌ c s) =
    let rest = split sep s in if code c == sep then "" ∷ rest else put_first c rest

abbrev pub longer : Char → Option (String × String) → Option (String × String)
longer c none = none
longer c (some (a, b)) = some (String.◌∷◌ c a, b)

-- strings.SplitN(s, sep, 2), where the separator occurs: the text before it and the text behind it.
unfoldable pub split_once : ℕ → String → Option (String × String)
split_once sep String.[] = none
split_once sep (String.◌∷◌ c s) =
    let rest = split_once sep s in if code c == sep then some ("", s) else longer c rest

-- A word that is not empty, before the words behind it.
abbrev pub flush : String × List String → List String
flush (w, ws) = if str_eq w "" then ws else w ∷ ws

-- The word at the front, and the words behind it.
words : String → String × List String
words String.[] = ("", [])
words (String.◌∷◌ c s) =
    let (w, ws) = words s in if is_space (code c) then ("", flush (w, ws)) else (String.◌∷◌ c w, ws)

-- strings.Fields
unfoldable pub fields : String → List String
unfolding words is_space
fields s = flush (words s)

-- The number that decimal digits spell behind `n`.
unfoldable pub read_digits : ℕ → String → Option ℕ
read_digits n String.[] = some n
read_digits n (String.◌∷◌ c s) =
    let rest = read_digits (n * 10 + (code c - b'0')) s in
    if leb b'0' (code c) && leb (code c) b'9' then rest else none

unsigned : String → Option ℕ
unfolding read_digits
unsigned String.[] = none
unsigned (String.◌∷◌ c s) = read_digits 0 (String.◌∷◌ c s)

abbrev positive : Option ℕ → Option ℤ
positive none = none
positive (some n) = if ltb n (2 ^ 63) then some (pos n) else none

abbrev negative : Option ℕ → Option ℤ
negative none = none
negative (some n) =
    if n == 0 then some (pos 0) else if leb n (2 ^ 63) then some (negsuc (n - 1)) else none

-- strconv.Atoi on 64-bit `int`s.
unfoldable pub atoi : String → Option ℤ
unfolding unsigned
atoi String.[] = none
atoi (String.◌∷◌ c s) =
    if code c == b'-'
    then negative (unsigned s)
    else if code c == b'+'
    then positive (unsigned s)
    else positive (unsigned (String.◌∷◌ c s))

-- strings.Join
unfoldable pub join : String → List String → String
join sep [] = ""
join sep (p ∷ []) = p
join sep (p ∷ q ∷ parts) = p <> sep <> join sep (q ∷ parts)
