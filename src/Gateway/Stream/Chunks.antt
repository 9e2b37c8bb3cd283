-- ===== src/Gateway/Stream/Chunks.antt =====
-- What ChunkText makes of a text.
use xclaw.Prelude.{
  ℕ, zero, suc, ◌+◌, ◌-◌, ◌≤◌, ◌<◌, ◌≡◌, refl, true, false, List, [], ◌∷◌, ◌++◌, length, take, drop,
  take-append-drop, length-take, length-drop, some, arith, leb, ◌==◌, Option-cases, Bool-cases, inl,
  inr,
}
use mathlib.Core.List.{append-nil}
use xclaw.Prelude.{leb→le}
use xclaw.Gateway.Stream.{
  Bytes, StreamChunk, StreamConfig, last_index, newline_end, chunk_end, chunk_at, chunk_loop,
  effective_size, chunk_text,
}

last_index-lt : (b : ℕ) (xs : Bytes) (i : ℕ) → last_index b xs ≡ some i → i < length xs
unfolding last_index
last_index-lt b [] i h = cc
last_index-lt b (x ∷ xs) i h = elim (Option-cases (last_index b xs)) [
  | inl e ↦ ground arith
  | inr (j, e) ↦ ground (arith, last_index-lt b xs j e)
]

-- A chunk of a text that is not empty takes a byte at least, and no more than the size or the text.
chunk_end_bounds :
    (size : ℕ) (rest : Bytes)
    → 0 < size
    → 0 < length rest
    → (0 < chunk_end size rest) × (chunk_end size rest ≤ size) × (chunk_end size rest ≤ length rest)
unfolding chunk_end
chunk_end_bounds size rest pos some_left = elim (Option-cases (last_index b'\n' (take size rest))) [
  | inl e ↦ rw (e, newline_end) (ground arith)
  | inr (i, e) ↦
      rw (e, newline_end)
        (ground (arith, last_index-lt b'\n' (take size rest) i e, length-take size rest))
]

-- The contents one behind the other.
abbrev pub joined : List StreamChunk → Bytes
joined [] = []
joined (c ∷ chunks) = c.content ++ joined chunks

-- Every chunk fits and holds something.
abbrev pub AllFit : ℕ → List StreamChunk → Type 0
AllFit size [] = Unit
AllFit size (c ∷ chunks) = (length c.content ≤ size) × (0 < length c.content) × AllFit size chunks

-- The chunks are numbered from `i` on, and the last alone is marked as finished.
abbrev pub Numbered : ℕ → List StreamChunk → Type 0
Numbered i [] = Unit
Numbered i (c ∷ chunks) = (c.index ≡ i) × Numbered (i + 1) chunks

abbrev pub LastFinished : List StreamChunk → Type 0
LastFinished [] = ⊥
LastFinished (c ∷ []) = c.finished ≡ true
LastFinished (c ∷ d ∷ chunks) = (c.finished ≡ false) × LastFinished (d ∷ chunks)

module _ (size : ℕ) (pos : 0 < size) where
  loop_joined :
      (fuel : ℕ) (rest : Bytes) (i : ℕ)
      → length rest ≤ fuel
      → joined (chunk_loop fuel size rest i) ≡ rest
  unfolding chunk_loop
  loop_joined zero [] i h = refl
  loop_joined zero (b ∷ rest) i h = absurd (omega arith)
  loop_joined (suc fuel) [] i h = refl
  loop_joined (suc fuel) (b ∷ rest) i h =
      let (some_taken, _, _) = chunk_end_bounds size (b ∷ rest) pos (omega arith) in
      let end = chunk_end size (b ∷ rest) in
      rw
        (loop_joined fuel (drop end (b ∷ rest)) (i + 1) (omega (arith, length-drop end (b ∷ rest))))
        (take-append-drop end (b ∷ rest))

  loop_AllFit : (fuel : ℕ) (rest : Bytes) (i : ℕ) → AllFit size (chunk_loop fuel size rest i)
  unfolding chunk_loop
  loop_AllFit zero rest i = tt
  loop_AllFit (suc fuel) [] i = tt
  loop_AllFit (suc fuel) (b ∷ rest) i =
      let end = chunk_end size (b ∷ rest) in
      let (some_taken, fits, inside) = chunk_end_bounds size (b ∷ rest) pos (omega arith) in
      (
        omega (arith, length-take end (b ∷ rest)),
        omega (arith, length-take end (b ∷ rest)),
        loop_AllFit fuel (drop end (b ∷ rest)) (i + 1),
      )

  loop_Numbered : (fuel : ℕ) (rest : Bytes) (i : ℕ) → Numbered i (chunk_loop fuel size rest i)
  unfolding chunk_loop
  loop_Numbered zero rest i = tt
  loop_Numbered (suc fuel) [] i = tt
  loop_Numbered (suc fuel) (b ∷ rest) i =
      (refl, loop_Numbered fuel (drop (chunk_end size (b ∷ rest)) (b ∷ rest)) (i + 1))

  -- A chunk before others is not finished, and one behind which nothing is left is.
  finish_last :
      (c : StreamChunk) (fuel : ℕ) (left : Bytes) (i : ℕ)
      → length left ≤ fuel
      → c.finished ≡ (length left == 0)
      → (0 < length left → LastFinished (chunk_loop fuel size left i))
      → LastFinished (c ∷ chunk_loop fuel size left i)
  unfolding chunk_loop
  finish_last c zero [] i h e more = e
  finish_last c zero (b ∷ left) i h e more = absurd (omega arith)
  finish_last c (suc fuel) [] i h e more = e
  finish_last c (suc fuel) (b ∷ left) i h e more = (ground arith, more (omega arith))

  finished_iff : (n end : ℕ) → end ≤ n → leb n end ≡ ((n - end) == 0)
  finished_iff n end h = ground arith

  loop_LastFinished :
      (fuel : ℕ) (rest : Bytes) (i : ℕ)
      → length rest ≤ fuel
      → 0 < length rest
      → LastFinished (chunk_loop fuel size rest i)
  unfolding chunk_loop
  loop_LastFinished zero rest i h some_left = absurd (omega arith)
  loop_LastFinished (suc fuel) [] i h some_left = absurd (omega arith)
  loop_LastFinished (suc fuel) (b ∷ rest) i h some_left =
      let end = chunk_end size (b ∷ rest) in
      let (some_taken, fits, inside) = chunk_end_bounds size (b ∷ rest) pos some_left in
      let left = length-drop end (b ∷ rest) in
      finish_last (chunk_at size (b ∷ rest) i) fuel (drop end (b ∷ rest)) (i + 1)
        (omega (arith, left)) (rw left (finished_iff (length (b ∷ rest)) end inside))
        (λ more. loop_LastFinished fuel (drop end (b ∷ rest)) (i + 1) (omega (arith, left)) more)

-- The chunks of a text that is not empty, whatever size is asked for: they spell the text, each holds
-- something and fits the size in force, they are numbered from 0, and the last alone is marked as
-- finished.
pub chunk_text_lem :
    (h : StreamConfig) (text : Bytes) (max_size : ℕ)
    → 0 < length text
    → let chunks = chunk_text h text max_size in
      (joined chunks ≡ text)
      × AllFit (effective_size h max_size) chunks
      × Numbered 0 chunks
      × LastFinished chunks
unfolding chunk_text
chunk_text_lem h text max_size some_left =
    let size = effective_size h max_size in
    let pos : 0 < size = ground arith in
    elim (Bool-cases (leb (length text) size)) [
      | inl short ↦ rw short (append-nil text, (leb→le _ _ short, some_left, tt), (refl, tt), refl)
      | inr long ↦ rw long (
        loop_joined size pos (length text) text 0 (omega arith),
        loop_AllFit size pos (length text) text 0,
        loop_Numbered size pos (length text) text 0,
        loop_LastFinished size pos (length text) text 0 (omega arith) some_left,
      )
    ]
