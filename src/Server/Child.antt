-- ===== src/Server/Child.antt =====
-- The code of a child process of the server (src/server.c), behind the `fork` of its command.
pub mod Words
pub mod Procs
pub mod Args
pub mod Argv
pub mod Launch
pub mod Pipeline
mod Tests
use mathlib.Core.Option
use so.Base.{
  ℕ, zero, suc, ◌+◌, ◌-◌, ◌*◌, ◌/◌, ◌%◌, Bool, true, false, ◌||◌, Option, none, some, List, [], ◌∷◌,
  ◌++◌, map, ◌==◌, if◌then◌else◌, size_mod, length, get_elem?, take, drop, Exec, done, fault, ◌>>=◌,
}
use so.Base.Cells.{Buf, Grant, malloc, store}
use so.ParseSize.{is_space}
use so.Server.{c_string}

-- `count_char`, for the characters of a string without its NUL.
unfoldable pub count_char : List ℕ → ℕ → ℕ
count_char [] c = 0
count_char (a ∷ s) c = let count = count_char s c in if a == c then count + 1 else count

-- The two inner loops of `count_words`.
unfoldable pub skip_blanks : List ℕ → List ℕ
skip_blanks [] = []
skip_blanks (c ∷ s) = let rest = skip_blanks s in if is_space c then rest else c ∷ s

unfoldable pub skip_word : List ℕ → List ℕ
skip_word [] = []
skip_word (c ∷ s) = let rest = skip_word s in if is_space c then c ∷ s else rest

-- `count_words` on fuel, for the characters of a string; `none` means that the fuel ran out.
unfoldable pub count_words_from : ℕ → List ℕ → ℕ → Option ℕ
count_words_from zero s count = none
count_words_from (suc fuel) [] count = some count
count_words_from (suc fuel) (c ∷ s) count = elim (skip_blanks (c ∷ s)) [
  | [] ↦ count_words_from fuel [] count
  | ◌∷◌ d r ↦ count_words_from fuel (skip_word (d ∷ r)) (count + 1)
]

unfoldable pub count_words : List ℕ → Option ℕ
unfolding count_words_from
count_words s = count_words_from (length s + 2) s 0

-- A pointer into the copy of the command: its offset, or NULL.
abbrev pub Pointer : Type 0
Pointer = Option ℕ

abbrev pub sizeof_pointer : ℕ
sizeof_pointer = 8

-- What the calls of `strtok` with the bar return, one after another: the offsets of the parts that are
-- not empty, then NULL. The Boolean is whether the character before the offset belongs to a part.
unfoldable pub tokens : Bool → ℕ → List ℕ → List ℕ
tokens within offset [] = []
tokens within offset (c ∷ s) =
    let behind_bar = tokens false (offset + 1) s in
    let inside = tokens true (offset + 1) s in
    if c == b'|' then behind_bar else if within then inside else offset ∷ inside

-- The loop that stores the parts, from index `i` on: `procs_end` is so many rounds behind it.
unfoldable pub store_procs : Buf Pointer → ℕ → ℕ → List ℕ → Exec (Buf Pointer)
store_procs procs zero i parts = done procs
store_procs procs (suc rounds) i parts = do
  procs' ← store procs i (get_elem? parts i)
  store_procs procs' rounds (i + 1) parts

-- The child up to the end of that loop: the copy of the command, by `strndup`, its number of parts,
-- and their pointers. `procs_end` is `procs + procs_size`, where `procs_size` is in bytes.
unfoldable pub split_procs : Grant ℕ → Grant Pointer → List ℕ → ℕ → Exec (Buf Pointer)
unfolding store_procs
split_procs copy_grant procs_grant line_buf read_bytes = c_string (drop 2 line_buf) >>= λ text.
    let cmd_start = take read_bytes text in
    let proc_count = count_char cmd_start b'|' + 1 in
    let procs_size = proc_count * sizeof_pointer % size_mod in
    let parts = tokens false 0 cmd_start in
    elim copy_grant [
      | none ↦ fault
      | some _ ↦
          store (malloc procs_grant (procs_size / sizeof_pointer)) 0 (get_elem? parts 0)
          >>= λ procs. store_procs procs (procs_size - 1) 1 parts
    ]

-- The inner loop over the characters of a word: the word, and what is left from where it stops. A read
-- behind the end of the block is a memory error.
unfoldable pub to_word_end : List ℕ → Exec (List ℕ × List ℕ)
to_word_end [] = fault
to_word_end (c ∷ s) =
    let rest = to_word_end s in
    if (c == 0) || is_space c then done ([], c ∷ s) else (rest >>= λ (word, r). done (c ∷ word, r))

-- `*char_i++ = '\0'`: what is left behind it.
abbrev pub cut_here : List ℕ → Exec (List ℕ)
cut_here [] = fault
cut_here (c ∷ s) = done s

-- The loop that cuts a command into its arguments, on fuel, from the offset of `char_i` with what is
-- left of the block there and the index of `argv_i`: the new `argv`, and the new characters.
unfoldable pub split_args : ℕ → Buf Pointer → ℕ → ℕ → List ℕ → Exec (Option (Buf Pointer × List ℕ))
split_args zero argv i offset s = done none
split_args (suc fuel) argv i offset [] = fault
split_args (suc fuel) argv i offset (c ∷ s) = elim (c == 0) [
  | true ↦ done (some (argv, c ∷ s))
  | false ↦ store argv i (some offset) >>= λ argv'. to_word_end (c ∷ s) >>= λ (word, r).
      cut_here r >>= λ left.
      split_args fuel argv' (i + 1) (offset + length word + 1) left >>= λ result.
      done (Option.map (λ (final, chars). (final, word ++ 0 ∷ chars)) result)
]

-- `argv`, with NULL behind the places for the arguments.
unfoldable pub make_argv : Grant Pointer → ℕ → Exec (Buf Pointer)
make_argv g argc =
    store (malloc g ((argc + 1) * sizeof_pointer % size_mod / sizeof_pointer)) argc none

-- The arguments of the process at an offset of the copy of the command, with its characters before its
-- NUL: `argv`, and the copy behind the loop. `none` would be a loop that ran out of its fuel.
unfoldable pub arguments_of :
    Grant Pointer → List ℕ → ℕ → List ℕ → Exec (Option (Buf Pointer × List ℕ))
arguments_of g copy offset text = elim (count_words text) [
  | none ↦ done none
  | some argc ↦ make_argv g argc >>= λ argv.
      split_args (length copy + 2) argv 0 offset (drop offset copy) >>= λ result.
      done (Option.map (λ (final, chars). (final, take offset copy ++ chars)) result)
]

unfoldable pub arguments : Grant Pointer → List ℕ → ℕ → Exec (Option (Buf Pointer × List ℕ))
unfolding arguments_of
arguments g copy offset = c_string (drop offset copy) >>= arguments_of g copy offset
