-- ===== src/Server/Child/Pipeline.antt =====
-- What a process of a command is given by the loop that launches it (src/server.c).
use so.Base.{
  ℕ, zero, suc, ◌+◌, ◌^◌, ◌<◌, ◌≡◌, refl, sym, ap, ◌∙◌, ◌≢◌, true, none, some, List, [], ◌∷◌, ◌++◌,
  append_assoc, arith, length, length-append, All, All-mono, done, fault,
}
use so.Base.Cells.{block, Grant}
use so.Base.Cells.Laws.{load_lem}
use so.Server.{c_string, in_child, in_parent}
use so.Server.Child.{Pointer}
use so.Server.Child.Args.{IsSolid, Pieces, source, cut_up, starts, WellCut}
use so.Server.Child.Argv.{arguments_lem, clean_c_string}
use so.Server.Child.Procs.{split_procs_overrun}
use so.Server.Child.Launch.{
  Channel, inherited, read_end, write_end, Standard, Turn, becomes, launch, child,
}

-- The processes of a command one after another, each with its NUL, and what stands behind them; and
-- the same when their words are cut.
abbrev pub whole : List Pieces → List ℕ → List ℕ
whole [] behind = behind
whole (process ∷ processes) behind = source (whole processes behind) process

abbrev pub cut_whole : List Pieces → List ℕ → List ℕ
cut_whole [] behind = behind
cut_whole (process ∷ processes) behind = cut_up [] process ++ cut_whole processes behind

-- Where the processes begin, and where they end.
abbrev pub behind_all : ℕ → List Pieces → ℕ
behind_all offset [] = offset
behind_all offset (process ∷ processes) = behind_all (offset + length (cut_up [] process)) processes

abbrev pub pointers : ℕ → List Pieces → List Pointer
pointers offset [] = []
pointers offset (process ∷ processes) =
    some offset ∷ pointers (offset + length (cut_up [] process)) processes

abbrev pub IsProcess : Pieces → Type 0
IsProcess process = All WellCut process × (length process < 2 ^ 32)

-- A round in which the process that is followed stays the parent.
abbrev pub IsParent : Turn → Type 0
IsParent turn =
    (turn.piped ≡ true)
    × ((pid : ℕ) × (turn.forking ≡ in_parent pid))
    × ((junk : ℕ → Pointer) × (turn.grant ≡ some junk))

-- A round in which it is the child, and runs the program.
abbrev pub IsRun : Turn → Type 0
IsRun turn =
    (turn.piped ≡ true)
    × (turn.forking ≡ in_child)
    × (turn.runs ≡ true)
    × ((junk : ℕ → Pointer) × (turn.grant ≡ some junk))

-- The output that the parent has when it made so many pipes from round `i` on.
abbrev pub output_behind : ℕ → Channel → List Turn → Channel
output_behind i output [] = output
output_behind i output (turn ∷ turns) = output_behind (i + 1) (write_end i) turns

cut_up-append :
    (behind : List ℕ) (process : Pieces) → cut_up behind process ≡ cut_up [] process ++ behind
cut_up-append behind [] = refl
cut_up-append behind ((word, space) ∷ process) =
    ap (λ zs. word ++ 0 ∷ zs) (cut_up-append behind process)
    ∙ sym (append_assoc word (0 ∷ cut_up [] process) behind)

launch_run :
    (turn : Turn) (turns : List Turn) (bs cs : List Pointer) (pre behind : List ℕ)
    (process : Pieces) (rounds i : ℕ) (std : Standard)
    → IsRun turn
    → IsProcess process
    → i ≡ length bs
    → launch
        (turn ∷ turns)
        (suc rounds)
        i
        (block (bs ++ some (length pre) ∷ cs))
        (pre ++ source behind process)
        std
      ≡ done (
          some (
            becomes
              (block (starts (length pre) process ++ none ∷ []))
              (pre ++ cut_up behind process)
              (record std { input = read_end i })))
unfolding launch
launch_run turn turns bs cs pre behind process rounds i std (piped, forking, runs, (junk, grant))
      (good, small) at_i =
    let loads = load_lem bs (some (length pre)) cs i at_i in
    let args = arguments_lem junk pre behind process good small in
    rw (loads, grant, args, forking, piped, runs) refl

launch_parent :
    (turn : Turn) (turns : List Turn) (bs cs : List Pointer) (pre behind : List ℕ)
    (process : Pieces) (rounds i : ℕ) (std : Standard)
    → IsParent turn
    → IsProcess process
    → i ≡ length bs
    → launch
        (turn ∷ turns)
        (suc rounds)
        i
        (block (bs ++ some (length pre) ∷ cs))
        (pre ++ source behind process)
        std
      ≡ launch turns rounds
          (i + 1)
          (block ((bs ++ some (length pre) ∷ []) ++ cs))
          ((pre ++ cut_up [] process) ++ behind)
          (record std { output = write_end i })
unfolding launch
launch_parent turn turns bs cs pre behind process rounds i std
      (piped, (pid, forking), (junk, grant)) (good, small) at_i =
    let loads = load_lem bs (some (length pre)) cs i at_i in
    let args = arguments_lem junk pre behind process good small in
    let copy : pre ++ cut_up behind process ≡ (pre ++ cut_up [] process) ++ behind =
      ap (λ zs. pre ++ zs) (cut_up-append behind process)
      ∙ sym (append_assoc pre (cut_up [] process) behind) in
    let procs = append_assoc bs (some (length pre) ∷ []) cs in
    rw (loads, grant, args, forking, piped, copy, procs) refl

launch_rounds :
    (earlier turns : List Turn) (turn : Turn) (processes : List Pieces) (process : Pieces)
    (bs cs : List Pointer) (pre behind : List ℕ) (rounds i : ℕ) (std : Standard)
    → All IsParent earlier
    → IsRun turn
    → length earlier ≡ length processes
    → All IsProcess processes
    → IsProcess process
    → length processes < rounds
    → i ≡ length bs
    → launch
        (earlier ++ turn ∷ turns)
        rounds
        i
        (block (
          bs ++ (pointers (length pre) processes ++ some (behind_all (length pre) processes) ∷ cs)))
        (pre ++ whole processes (source behind process))
        std
      ≡ done (
          some (
            becomes
              (block (starts (behind_all (length pre) processes) process ++ none ∷ []))
              (pre ++ cut_whole processes (cut_up behind process))
              (record {
                input = read_end (i + length earlier);
                output = output_behind i std.output earlier;
              })))
launch_rounds earlier turns turn processes process bs cs pre behind zero i std parents run same good
      good' enough at_i =
    absurd (omega arith)
launch_rounds [] turns turn [] process bs cs pre behind (suc rounds) i std parents run same good
      good' enough at_i =
    let none_yet : i + 0 ≡ i = omega arith in
    rw none_yet (launch_run turn turns bs cs pre behind process rounds i std run good' at_i)
launch_rounds [] turns turn (p ∷ processes) process bs cs pre behind (suc rounds) i std parents run
      same good good' enough at_i =
    absurd (omega arith)
launch_rounds (t ∷ earlier) turns turn [] process bs cs pre behind (suc rounds) i std parents run
      same good good' enough at_i =
    absurd (omega arith)
launch_rounds (t ∷ earlier) turns turn (p ∷ processes) process bs cs pre behind (suc rounds) i std
      (parent, parents) run same (good, goods) good' enough at_i =
    let pre' = pre ++ cut_up [] p in
    let size : length pre' ≡ length pre + length (cut_up [] p) = length-append pre (cut_up [] p) in
    let next : i + suc (length earlier) ≡ i + 1 + length earlier = omega arith in
    let rest =
      launch_rounds earlier turns turn processes process (bs ++ some (length pre) ∷ []) cs pre'
        behind rounds (i + 1) (record std { output = write_end i }) parents run (omega arith) goods
        good' (omega arith) (omega (arith, length-append bs (some (length pre) ∷ []))) in
    launch_parent t (earlier ++ turn ∷ turns) bs
      (pointers (length pre + length (cut_up [] p)) processes
        ++ some (behind_all (length pre + length (cut_up [] p)) processes) ∷ cs)
      pre (whole processes (source behind process)) p rounds i std parent good at_i
    ∙ rw (next, ← size)
        (rest
          ∙ rw (append_assoc pre (cut_up [] p) (cut_whole processes (cut_up behind process))) refl)

output_behind-last :
    (i n : ℕ) (output : Channel) (turns : List Turn)
    → length turns ≡ suc n
    → output_behind i output turns ≡ write_end (i + n)
output_behind-last i n output [] many = absurd (omega arith)
output_behind-last i n output (turn ∷ []) many =
    let same : i ≡ i + n = omega arith in ap write_end same
output_behind-last i zero output (turn ∷ t ∷ turns) many = absurd (omega arith)
output_behind-last i (suc n) output (turn ∷ t ∷ turns) many =
    let next : i + 1 + n ≡ i + suc n = omega arith in
    rw (output_behind-last (i + 1) n (write_end i) (t ∷ turns) (omega arith)) (ap write_end next)

-- The first word of the copy, once it is cut.
first_word :
    (word : List ℕ) (space : ℕ) (pieces : Pieces) (processes : List Pieces) (behind : List ℕ)
    → All IsSolid word
    → c_string (cut_whole (((word, space) ∷ pieces) ∷ processes) behind) ≡ done word
first_word word space pieces processes behind solid =
    let clean = All-mono IsSolid (λ c. c ≢ 0) word solid (λ c (no_nul, _). no_nul) in
    ap c_string (append_assoc word (0 ∷ cut_up [] pieces) (cut_whole processes behind))
    ∙ clean_c_string word (cut_up [] pieces ++ cut_whole processes behind) clean

-- In the loop over the processes of a command, where each word has one space behind it, consider
-- the process that stays the parent in some rounds, at least one, and is the child in the next,
-- where in all these rounds malloc gives the storage and the pipe is made, and execv runs the
-- program: it becomes the program that is named by the first word of the whole command, with the
-- argv of the words of its own part, its input is the read end of the pipe of its own round, and
-- its output the write end of the pipe of the round before.
pub launch_backwards :
    (earlier turns : List Turn) (turn : Turn) (word : List ℕ) (space : ℕ) (pieces : Pieces)
    (processes : List Pieces) (process : Pieces) (cs : List Pointer) (behind : List ℕ)
    (rounds n : ℕ)
    → All IsParent earlier
    → IsRun turn
    → length earlier ≡ suc n
    → length processes ≡ n
    → All IsProcess (((word, space) ∷ pieces) ∷ processes)
    → IsProcess process
    → suc n < rounds
    → let all = ((word, space) ∷ pieces) ∷ processes in
      (copy : List ℕ) × (launch
          (earlier ++ turn ∷ turns)
          rounds
          0
          (block (pointers 0 all ++ some (behind_all 0 all) ∷ cs))
          (whole all (source behind process))
          (record { input = inherited; output = inherited })
        ≡ done (
            some (
              becomes
                (block (starts (behind_all 0 all) process ++ none ∷ []))
                copy
                (record { input = read_end (suc n); output = write_end n }))))
      × (c_string copy ≡ done word)
launch_backwards earlier turns turn word space pieces processes process cs behind rounds n parents
      run many few goods good enough =
    let all = ((word, space) ∷ pieces) ∷ processes in
    let std : Standard = record { input = inherited; output = inherited } in
    let ((((solid, _, _), _), _), _) = goods in
    let read : 0 + suc n ≡ suc n = omega arith in
    let write : 0 + n ≡ n = omega arith in
    (
      cut_whole all (cut_up behind process),
      launch_rounds earlier turns turn all process [] cs [] behind rounds 0 std parents run
            (omega arith) goods good (omega arith) refl
          ∙ rw (many, output_behind-last 0 n inherited earlier many, read, write) refl,
      first_word word space pieces processes (cut_up behind process) solid,
    )

-- Whatever the command is, and whatever the allocator and the system answer, the branch of the
-- child has a memory error, on a line buffer of fewer than 2 ^ 32 characters.
pub child_overrun :
    (copy_grant : Grant ℕ) (procs_grant : Grant Pointer) (turns : List Turn) (line_buf : List ℕ)
    (read_bytes : ℕ)
    → length line_buf < 2 ^ 32
    → child copy_grant procs_grant turns line_buf read_bytes ≡ fault
unfolding child
child_overrun copy_grant procs_grant turns line_buf read_bytes small =
    rw (split_procs_overrun copy_grant procs_grant line_buf read_bytes small)
