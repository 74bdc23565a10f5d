-- ===== src/Server/Child/Tests.antt =====
-- Concrete commands of a child process: runs of the functions, and the theorems at inputs where their
-- hypotheses hold.
use so.Base.{ℕ, ◌≡◌, refl, true, false, none, some, List, [], ◌∷◌, ◌++◌, arith, All, done, fault}
use so.Base.Cells.{block}
use so.ParseSize.{is_space}
use so.Server.Child.{Pointer, count_char, count_words, split_procs, tokens, arguments}
use so.Server.Child.Words.{count_words_lem}
use so.Server.Child.Procs.{split_procs_overrun}
use so.Server.Child.Args.{Pieces, WellCut}
use so.Server.{c_string, in_child, in_parent}
use so.Server.Child.Argv.{spaced, arguments_lem, arguments_unterminated, arguments_overrun}
use so.Server.Child.Launch.{inherited, read_end, write_end, Turn, becomes, launch, child}
use so.Server.Child.Pipeline.{IsProcess, launch_backwards, child_overrun}

abbrev ls : List ℕ
ls = b'l' ∷ b's' ∷ []

abbrev flag : List ℕ
flag = b'-' ∷ b'l' ∷ []

-- `ls -l` and a newline.
abbrev listing : Pieces
listing = (ls, 32) ∷ (flag, 10) ∷ []

abbrev no_pointers : ℕ → Pointer
no_pointers i = none

abbrev line : List ℕ
line = b'e' ∷ 32 ∷ b'l' ∷ b's' ∷ b'|' ∷ b'w' ∷ b'c' ∷ 0 ∷ []

bars_run : count_char line b'|' ≡ 1
unfolding count_char
bars_run = refl

tokens_run : tokens false 0 line ≡ 0 ∷ 5 ∷ []
unfolding tokens
tokens_run = refl

count_words_lem_example : count_words (32 ∷ 32 ∷ spaced listing) ≡ some 2
unfolding is_space
count_words_lem_example = count_words_lem (32 ∷ 32 ∷ spaced listing)

split_procs_overrun_run : split_procs (some (λ i. 0)) (some no_pointers) line 7 ≡ fault
split_procs_overrun_run =
    split_procs_overrun (some (λ i. 0)) (some no_pointers) line 7 (omega arith)

abbrev wc : Pieces
wc = (b'w' ∷ b'c' ∷ [], 32) ∷ []

abbrev parent : Turn
parent = record { grant = some no_pointers; piped = true; forking = in_parent 7; runs = true }

abbrev runner : Turn
runner = record { grant = some no_pointers; piped = true; forking = in_child; runs = true }

listing-WellCut : All WellCut listing
unfolding is_space
listing-WellCut = (
  (((omega arith, refl), ((omega arith, refl), tt)), omega arith, refl),
  ((((omega arith, refl), ((omega arith, refl), tt)), omega arith, refl), tt),
)

listing-IsProcess : IsProcess listing
listing-IsProcess = (listing-WellCut, omega arith)

wc-IsProcess : IsProcess wc
unfolding is_space
wc-IsProcess =
    (((((omega arith, refl), ((omega arith, refl), tt)), omega arith, refl), tt), omega arith)

arguments_lem_example :
    arguments (some no_pointers) (0 ∷ 0 ∷ ls ++ 32 ∷ flag ++ 10 ∷ 0 ∷ 7 ∷ []) 2
    ≡ done (some (block (some 2 ∷ some 5 ∷ none ∷ []), 0 ∷ 0 ∷ ls ++ 0 ∷ flag ++ 0 ∷ 0 ∷ 7 ∷ []))
arguments_lem_example =
    arguments_lem no_pointers (0 ∷ 0 ∷ []) (7 ∷ []) listing listing-WellCut (omega arith)

arguments_unterminated_example :
    arguments (some no_pointers) (0 ∷ 32 ∷ ls ++ 32 ∷ flag ++ 10 ∷ 0 ∷ []) 1
    ≡ done (some (block (some 1 ∷ some 2 ∷ some 5 ∷ []), 0 ∷ 0 ∷ ls ++ 0 ∷ flag ++ 0 ∷ 0 ∷ []))
unfolding is_space
arguments_unterminated_example =
    arguments_unterminated no_pointers (0 ∷ []) [] 32 listing refl listing-WellCut (omega arith)

arguments_overrun_example : arguments (some no_pointers) (9 ∷ ls ++ 0 ∷ []) 1 ≡ fault
unfolding is_space
arguments_overrun_example =
    arguments_overrun (some no_pointers) (9 ∷ []) ls (omega arith, (omega arith, tt)) refl

-- `wc |ls -l`, from the child of the second round.
launch_backwards_example :
    (copy : List ℕ) × (launch
        (parent ∷ runner ∷ [])
        16
        0
        (block (some 0 ∷ some 4 ∷ []))
        (b'w' ∷ b'c' ∷ 32 ∷ 0 ∷ ls ++ 32 ∷ flag ++ 10 ∷ 0 ∷ [])
        (record { input = inherited; output = inherited })
      ≡ done (
          some (
            becomes
              (block (some 4 ∷ some 7 ∷ none ∷ []))
              copy
              (record { input = read_end 1; output = write_end 0 }))))
    × (c_string copy ≡ done (b'w' ∷ b'c' ∷ []))
launch_backwards_example =
    launch_backwards (parent ∷ []) [] runner (b'w' ∷ b'c' ∷ []) 32 [] [] listing [] [] 16 0
      ((refl, (7, refl), (no_pointers, refl)), tt) (refl, refl, refl, (no_pointers, refl)) refl refl
      (wc-IsProcess, tt) listing-IsProcess (omega arith)

child_overrun_example :
    child (some (λ i. 0)) (some no_pointers) (parent ∷ runner ∷ []) line 7 ≡ fault
child_overrun_example =
    child_overrun (some (λ i. 0)) (some no_pointers) (parent ∷ runner ∷ []) line 7 (omega arith)
