-- ===== src/Server/Child/Argv.antt =====
-- The count of the words and the loop that cuts a command into its arguments, together
-- (src/server.c).
use so.Base.{
  ℕ, ◌+◌, ◌*◌, ◌/◌, ◌%◌, ◌^◌, ◌<◌, ◌≡◌, refl, sym, ap, ◌∙◌, ◌≢◌, true, false, none, some, List, [],
  ◌∷◌, ◌++◌, arith, size_mod, length, drop, take, take-exact, suc, ne→==, append-nil,
  nonempty_parts, length_zero, length-drop, length-append, drop-append, last_parts, All,
  fault_after, done, fault, ◌>>=◌,
}
use so.Base.Cells.{block, Grant, fill, malloc, store}
use so.Base.Cells.Laws.{length-fill, store_lem}
use so.ParseSize.{is_space}
use so.Server.{c_string}
use so.Server.Child.{
  split_args, Pointer, sizeof_pointer, make_argv, arguments, arguments_of, count_words,
}
use so.Server.Child.Words.{words, count_words_lem}
use so.Server.Child.Args.{
  IsSolid, Pieces, source, cut_up, starts, WellCut, split_args_lem, space-NoNul, split_args_blank,
  EndsSolid, split_args_overrun,
}

-- The characters of the command before its NUL.
abbrev pub spaced : Pieces → List ℕ
spaced [] = []
spaced ((word, space) ∷ pieces) = word ++ space ∷ spaced pieces

solid_c_string :
    (word : List ℕ) (d : ℕ) (s text : List ℕ)
    → All IsSolid word
    → d ≢ 0
    → c_string s ≡ done text
    → c_string (word ++ d ∷ s) ≡ done (word ++ d ∷ text)
unfolding c_string
solid_c_string [] d s text solid no_nul e = rw (ne→== d 0 no_nul, e)
solid_c_string (c ∷ word) d s text ((other, _), solid) no_nul e =
    rw (ne→== c 0 other, solid_c_string word d s text solid no_nul e)

c_string-source :
    (behind : List ℕ) (pieces : Pieces)
    → All WellCut pieces
    → c_string (source behind pieces) ≡ done (spaced pieces)
unfolding c_string
c_string-source behind [] good = refl
c_string-source behind ((word, space) ∷ pieces) ((solid, _, blank), good) =
    solid_c_string word space (source behind pieces) (spaced pieces) solid (space-NoNul space blank)
      (c_string-source behind pieces good)

pub clean_c_string : (s behind : List ℕ) → All (λ c. c ≢ 0) s → c_string (s ++ 0 ∷ behind) ≡ done s
unfolding c_string
clean_c_string [] behind clean = refl
clean_c_string (c ∷ s) behind (no_nul, clean) = rw (ne→== c 0 no_nul, clean_c_string s behind clean)

words_inside :
    (word : List ℕ) (space : ℕ) (r : List ℕ)
    → All IsSolid word
    → is_space space ≡ true
    → words false (word ++ space ∷ r) ≡ words true r
words_inside [] space r solid blank = rw blank
words_inside (c ∷ word) space r ((_, other), solid) blank =
    rw other (words_inside word space r solid blank)

words-spaced : (pieces : Pieces) → All WellCut pieces → words true (spaced pieces) ≡ length pieces
words-spaced [] good = refl
words-spaced (([], space) ∷ pieces) ((_, nonempty, _), good) = absurd (omega arith)
words-spaced ((c ∷ word, space) ∷ pieces) ((((_, other), solid), nonempty, blank), good) =
    rw (other, words_inside word space (spaced pieces) solid blank, words-spaced pieces good)
      (omega arith)

length-source : (behind : List ℕ) (pieces : Pieces) → length pieces < length (source behind pieces)
length-source behind [] = omega arith
length-source behind ((word, space) ∷ pieces) =
    omega (arith, length-append word (space ∷ source behind pieces), length-source behind pieces)

last_stored :
    (xs : List Pointer) (n : ℕ)
    → length xs ≡ n + 1
    → (bs : List Pointer) × (store (block xs) n none ≡ done (block (bs ++ none ∷ [])))
      × (length bs ≡ n)
last_stored xs n h =
    let (bs, m, e) = last_parts xs (omega arith) in
    let size : length bs ≡ n = omega (arith, ap length e, length-append bs (m ∷ [])) in
    (bs, ap (λ ys. store (block ys) n none) e ∙ store_lem bs m none [] n (sym size), size)

make_argv_lem :
    (junk : ℕ → Pointer) (argc : ℕ)
    → argc < 2 ^ 32
    → (bs : List Pointer) × (make_argv (some junk) argc ≡ done (block (bs ++ none ∷ [])))
      × (length bs ≡ argc)
unfolding make_argv
make_argv_lem junk argc small =
    let places : (argc + 1) * sizeof_pointer % size_mod / sizeof_pointer ≡ argc + 1 = omega arith in
    let (bs, stored, size) =
      last_stored (fill (argc + 1) junk) argc (length-fill (argc + 1) junk) in
    (bs, ap (λ k. store (malloc (some junk) k) argc none) places ∙ stored, size)

-- What stands at the offset.
module _ (pre rest : List ℕ) where
  at_offset : drop (length pre) (pre ++ rest) ≡ rest
  at_offset = drop-append pre rest (length pre) refl

  before_offset : take (length pre) (pre ++ rest) ≡ pre
  before_offset = take-exact pre rest (length pre) refl

-- A process at an offset of the copy of the command, of words that are not empty, each with one
-- space behind it, becomes an argv of the beginnings of just these words with NULL behind them;
-- each of its words ends with a NUL then, and the rest of the copy stays: the count and the loops
-- end, and there is no memory error, where malloc gives the storage.
pub arguments_lem :
    (junk : ℕ → Pointer) (pre behind : List ℕ) (pieces : Pieces)
    → All WellCut pieces
    → length pieces < 2 ^ 32
    → arguments (some junk) (pre ++ source behind pieces) (length pre)
      ≡ done (some (block (starts (length pre) pieces ++ none ∷ []), pre ++ cut_up behind pieces))
unfolding arguments
arguments_lem junk pre behind pieces good small =
    let copy = pre ++ source behind pieces in
    let counted : count_words (spaced pieces) ≡ some (length pieces) =
      count_words_lem (spaced pieces) ∙ ap some (words-spaced pieces good) in
    let (bs, makes, size) = make_argv_lem junk (length pieces) small in
    let left : drop (length pieces) (bs ++ none ∷ []) ≡ none ∷ [] =
      drop-append bs (none ∷ []) (length pieces) (sym size) in
    let enough : length pieces < length copy + 2 =
      omega (arith, length-append pre (source behind pieces), length-source behind pieces) in
    let splits : split_args (length copy + 2) (block (bs ++ none ∷ [])) 0 (length pre)
          (source behind pieces)
        ≡ done (some (block (starts (length pre) pieces ++ none ∷ []), cut_up behind pieces)) =
      split_args_lem (length copy + 2) [] (bs ++ none ∷ []) 0 (length pre) behind pieces enough refl
        (omega (arith, length-append bs (none ∷ []))) good
      ∙ rw left in
    ap (λ m. m >>= arguments_of (some junk) copy (length pre))
      (ap c_string (at_offset pre (source behind pieces)) ∙ c_string-source behind pieces good)
    ∙ rw (counted, arguments_of)
        (rw (
          makes,
          at_offset pre (source behind pieces),
          splits,
          before_offset pre (source behind pieces),
        ))

-- A part of a command that begins with a space, before words that are not empty, each with one
-- space behind it, becomes an argv without a NULL, where malloc gives the storage: its first place
-- holds an empty word, and the others, up to the last, the beginnings of the words.
pub arguments_unterminated :
    (junk : ℕ → Pointer) (pre behind : List ℕ) (space : ℕ) (pieces : Pieces)
    → is_space space ≡ true
    → All WellCut pieces
    → length pieces < 2 ^ 32
    → arguments (some junk) (pre ++ space ∷ source behind pieces) (length pre)
      ≡ done (
          some (
            block (some (length pre) ∷ starts (length pre + 1) pieces),
            pre ++ 0 ∷ cut_up behind pieces,
          ))
unfolding arguments
arguments_unterminated junk pre behind space pieces blank good small =
    let rest = space ∷ source behind pieces in
    let no_nul = space-NoNul space blank in
    let text : c_string rest ≡ done (space ∷ spaced pieces) =
      solid_c_string [] space (source behind pieces) (spaced pieces) tt no_nul
        (c_string-source behind pieces good) in
    let counted : count_words (space ∷ spaced pieces) ≡ some (length pieces) =
      count_words_lem (space ∷ spaced pieces) ∙ ap some (rw blank (words-spaced pieces good)) in
    let (bs, makes, size) = make_argv_lem junk (length pieces) small in
    let fuel = length (pre ++ rest) + 1 in
    let more : length (pre ++ rest) + 2 ≡ suc fuel = omega arith in
    let (a, os, cells) =
      nonempty_parts (bs ++ none ∷ []) (omega (arith, length-append bs (none ∷ []))) in
    let os_size : length os ≡ length pieces =
      omega (arith, ap length cells, length-append bs (none ∷ [])) in
    let none_left : drop (length pieces) os ≡ [] =
      length_zero (drop (length pieces) os) (omega (arith, length-drop (length pieces) os)) in
    let splits =
      split_args_lem fuel (some (length pre) ∷ []) os 1 (length pre + 1) behind pieces
        (omega (arith, length-append pre rest, length-source behind pieces)) refl (omega arith)
        good in
    let first = split_args_blank fuel a os (length pre) space (source behind pieces) blank in
    ap (λ m. m >>= arguments_of (some junk) (pre ++ rest) (length pre))
      (ap c_string (at_offset pre rest) ∙ text)
    ∙ rw (counted, arguments_of)
        (rw (
          makes,
          at_offset pre rest,
          more,
          cells,
          first,
          splits,
          before_offset pre rest,
          none_left,
          append-nil,
        ))

-- The last process of a command, characters without a NUL that do not end with a space, makes the
-- loop read behind the end of the copy of the command, or store behind the end of argv, whatever
-- the allocator answers.
pub arguments_overrun :
    (g : Grant Pointer) (pre text : List ℕ)
    → All (λ c. c ≢ 0) text
    → EndsSolid text
    → arguments g (pre ++ (text ++ 0 ∷ [])) (length pre) ≡ fault
unfolding arguments
arguments_overrun g pre text clean solid =
    let copy = pre ++ (text ++ 0 ∷ []) in
    let enough : length text + 1 < length copy + 2 =
      omega (arith, length-append pre (text ++ 0 ∷ []), length-append text (0 ∷ [])) in
    ap (λ m. m >>= arguments_of g copy (length pre))
      (ap c_string (at_offset pre (text ++ 0 ∷ [])) ∙ clean_c_string text [] clean)
    ∙ rw (count_words_lem text, arguments_of)
        (fault_after (make_argv g (words true text)) _ λ argv. rw (
          at_offset pre (text ++ 0 ∷ []),
          split_args_overrun (length copy + 2) argv 0 (length pre) text enough clean solid,
        ))
