-- ===== src/Server/Child/Args.antt =====
-- The loop that cuts a command into its arguments (src/server.c).
use so.Base.{
  ℕ, zero, suc, ◌+◌, ◌≤◌, ◌<◌, ◌≡◌, refl, sym, ap, ◌≢◌, ◌⊎◌, inl, inr, true, false, ◌||◌, some,
  List, [], ◌∷◌, ◌++◌, append_assoc, arith, ◌==◌, ne→==, Bool-cases, length, drop, length-append,
  All, fault_after, done, fault, ◌>>=◌,
}
use so.Base.Cells.{Buf, block, store}
use so.Base.Cells.Laws.{store_lem}
use mathlib.Core.Option
use so.ParseSize.{is_space}
use so.Server.Child.{Pointer, to_word_end, split_args}

-- A character of a word.
abbrev pub IsSolid : ℕ → Type 0
IsSolid c = (c ≢ 0) × (is_space c ≡ false)

-- Words, each with the space behind it.
abbrev pub Pieces : Type 0
Pieces = List (List ℕ × ℕ)

-- The characters of a process, its NUL, and what stands behind it.
abbrev pub source : List ℕ → Pieces → List ℕ
source behind [] = 0 ∷ behind
source behind ((word, space) ∷ pieces) = word ++ space ∷ source behind pieces

-- The same with a NUL in place of each space.
abbrev pub cut_up : List ℕ → Pieces → List ℕ
cut_up behind [] = 0 ∷ behind
cut_up behind ((word, space) ∷ pieces) = word ++ 0 ∷ cut_up behind pieces

-- Where the words begin.
abbrev pub starts : ℕ → Pieces → List Pointer
starts offset [] = []
starts offset ((word, space) ∷ pieces) = some offset ∷ starts (offset + length word + 1) pieces

abbrev pub WellCut : List ℕ × ℕ → Type 0
WellCut (word, space) = All IsSolid word × (0 < length word) × (is_space space ≡ true)

to_word_end_solid :
    (word : List ℕ) (d : ℕ) (r : List ℕ)
    → All IsSolid word
    → ((d == 0) || is_space d) ≡ true
    → to_word_end (word ++ d ∷ r) ≡ done (word, d ∷ r)
unfolding to_word_end
to_word_end_solid [] d r solid stops = rw stops
to_word_end_solid (c ∷ word) d r ((no_nul, no_space), solid) stops =
    rw (ne→== c 0 no_nul, no_space, to_word_end_solid word d r solid stops)

space_stops : (d : ℕ) → is_space d ≡ true → ((d == 0) || is_space d) ≡ true
space_stops d h = ground arith

pub space-NoNul : (d : ℕ) → is_space d ≡ true → d ≢ 0
unfolding is_space
space-NoNul d h = ground arith

-- Words with one space behind each are cut at their ends, and `argv` gets their beginnings.
pub split_args_lem :
    (fuel : ℕ) (bs os : List Pointer) (i offset : ℕ) (behind : List ℕ) (pieces : Pieces)
    → length pieces < fuel
    → i ≡ length bs
    → length pieces ≤ length os
    → All WellCut pieces
    → split_args fuel (block (bs ++ os)) i offset (source behind pieces)
      ≡ done (
          some
            (block (bs ++ (starts offset pieces ++ drop (length pieces) os)), cut_up behind pieces))
unfolding split_args
split_args_lem zero bs os i offset behind pieces enough at_i room good = absurd (omega arith)
split_args_lem (suc fuel) bs os i offset behind [] enough at_i room good = refl
split_args_lem (suc fuel) bs os i offset behind (([], space) ∷ pieces) enough at_i room
      ((_, nonempty, _), good) =
    absurd (omega arith)
split_args_lem (suc fuel) bs [] i offset behind ((c ∷ word, space) ∷ pieces) enough at_i room good =
    absurd (omega arith)
split_args_lem (suc fuel) bs (a ∷ os) i offset behind ((c ∷ word, space) ∷ pieces) enough at_i room
      ((solid, nonempty, blank), good) =
    let stored : store (block (bs ++ a ∷ os)) i (some offset)
        ≡ done (block (bs ++ some offset ∷ os)) =
      store_lem bs a (some offset) os i at_i in
    let ended =
      to_word_end_solid (c ∷ word) space (source behind pieces) solid (space_stops space blank) in
    let regroup : bs ++ some offset ∷ os ≡ (bs ++ some offset ∷ []) ++ os =
      sym (append_assoc bs (some offset ∷ []) os) in
    let rest =
      split_args_lem fuel (bs ++ some offset ∷ []) os (i + 1) (offset + length (c ∷ word) + 1)
        behind pieces (omega arith) (omega (arith, length-append bs (some offset ∷ [])))
        (omega arith) good in
    let next : ℕ = offset + length (c ∷ word) + 1 in
    let join : (bs ++ some offset ∷ []) ++ (starts next pieces ++ drop (length pieces) os)
        ≡ bs ++ (some offset ∷ (starts next pieces ++ drop (length pieces) os)) =
      append_assoc bs (some offset ∷ []) (starts next pieces ++ drop (length pieces) os) in
    rw (ne→== c 0 solid.0.0, split_args) (rw (stored, ended, regroup, rest, join))

-- A space at the start of a process is taken for the end of an empty word.
pub split_args_blank :
    (fuel : ℕ) (a : Pointer) (os : List Pointer) (offset space : ℕ) (s : List ℕ)
    → is_space space ≡ true
    → split_args (suc fuel) (block (a ∷ os)) 0 offset (space ∷ s) ≡ (
        split_args fuel (block (some offset ∷ os)) 1 (offset + 1) s >>= λ result.
        done (Option.map (λ (final, chars). (final, 0 ∷ chars)) result))
unfolding split_args
split_args_blank fuel a os offset space s blank =
    let stored : store (block (a ∷ os)) 0 (some offset) ≡ done (block (some offset ∷ os)) =
      store_lem [] a (some offset) os 0 refl in
    let ended = to_word_end_solid [] space s tt (space_stops space blank) in
    let one : 0 + 1 ≡ 1 = omega arith in
    let step : offset + 0 + 1 ≡ offset + 1 = omega arith in
    rw (ne→== space 0 (space-NoNul space blank), split_args) (rw (stored, ended, step))

-- The text is not empty, and its last character is no space.
abbrev pub EndsSolid : List ℕ → Type 0
EndsSolid [] = ⊥
EndsSolid (c ∷ []) = is_space c ≡ false
EndsSolid (c ∷ c' ∷ s) = EndsSolid (c' ∷ s)

-- Where the loop over a word stops in such a text: at a space, with a text of the same kind behind it,
-- or at the NUL.
to_word_end_stops :
    (s : List ℕ)
    → All (λ c. c ≢ 0) s
    → EndsSolid s
    → (word : List ℕ) × (r : List ℕ) × (to_word_end (s ++ 0 ∷ []) ≡ done (word, r))
      × ((r ≡ 0 ∷ [])
          ⊎ ((d : ℕ) × (s' : List ℕ) × (r ≡ d ∷ (s' ++ 0 ∷ []))
              × All (λ c. c ≢ 0) s'
              × EndsSolid s'
              × (length s' < length s)))
unfolding to_word_end
to_word_end_stops [] clean solid = absurd solid
to_word_end_stops (c ∷ []) (no_nul, clean) solid =
    (c ∷ [], 0 ∷ [], rw (ne→== c 0 no_nul, solid), inl refl)
to_word_end_stops (c ∷ c' ∷ s) (no_nul, clean) solid = elim (Bool-cases (is_space c)) [
  | inl blank ↦ (
    [],
    c ∷ c' ∷ (s ++ 0 ∷ []),
    rw (ne→== c 0 no_nul, blank),
    inr (c, c' ∷ s, refl, clean, solid, omega arith),
  )
  | inr other ↦
      let (word, r, ended, where_it_is) = to_word_end_stops (c' ∷ s) clean solid in
      (
        c ∷ word,
        r,
        rw (ne→== c 0 no_nul, other, ended),
        elim where_it_is [
          | inl at_nul ↦ inl at_nul
          | inr (d, s', e, clean', solid', less) ↦ inr (d, s', e, clean', solid', omega arith)
        ],
      )
]

-- A text without a NUL that does not end with a space: the loop steps over the NUL at its end, and
-- reads behind the block, if `argv` did not overflow before.
pub split_args_overrun :
    (fuel : ℕ) (argv : Buf Pointer) (i offset : ℕ) (s : List ℕ)
    → length s + 1 < fuel
    → All (λ c. c ≢ 0) s
    → EndsSolid s
    → split_args fuel argv i offset (s ++ 0 ∷ []) ≡ fault
unfolding split_args
split_args_overrun zero argv i offset s enough clean solid = absurd (omega arith)
split_args_overrun (suc zero) argv i offset s enough clean solid = absurd (omega arith)
split_args_overrun (suc fuel) argv i offset [] enough clean solid = absurd solid
split_args_overrun (suc (suc fuel)) argv i offset (c ∷ s) enough clean solid =
    let (word, r, ended, where_it_is) = to_word_end_stops (c ∷ s) clean solid in
    rw (ne→== c 0 clean.0, split_args, ended)
      (fault_after (store argv i (some offset)) _ λ argv'. elim where_it_is [
        | inl at_nul ↦ rw at_nul
        | inr (d, s', e, clean', solid', less) ↦ rw e (
            ap (λ m. m >>= λ result. done (Option.map (λ p. (p.0, word ++ 0 ∷ p.1)) result))
              (split_args_overrun (suc fuel) argv' (i + 1) (offset + length word + 1) s'
                (omega arith) clean' solid'))
      ])
