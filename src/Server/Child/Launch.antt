-- ===== src/Server/Child/Launch.antt =====
-- The loop of a child process that launches the processes of a command, and the child from its `fork`
-- to the end of that loop (src/server.c).
use so.Base.{
  ℕ, zero, suc, ◌+◌, ◌*◌, ◌%◌, Bool, true, false, Option, none, some, List, [], ◌∷◌, ◌++◌, ◌==◌,
  if◌then◌else◌, size_mod, take, drop, Exec, done, fault, ◌>>=◌,
}
use so.Base.Cells.{Buf, Grant, load}
use so.Server.{c_string, Forking, fork_failed, in_child, in_parent}
use so.Server.Child.{Pointer, sizeof_pointer, count_char, split_procs, arguments}

-- What a process has as its standard input or output: what it had before the loop, or an end of the
-- pipe that a round of the loop made.
pub data Channel : Type 0 where
  inherited : Channel
  read_end write_end : ℕ → Channel

pub record Standard : Type 0 where
  pub input : Channel
  pub output : Channel

-- What the system does in a round: the storage for `argv`, whether `pipe` makes a pipe, what `fork`
-- returns, and whether `execv` runs the program, in which case it does not return.
pub record Turn : Type 0 where
  pub grant : Grant Pointer
  pub piped : Bool
  pub forking : Forking
  pub runs : Bool

-- How the process that is followed leaves the loop: `main` returns EXIT_FAILURE; the process becomes
-- the program that the copy of the command begins with, with an `argv` into that copy; or the loop ends.
pub data Launched : Type 0 where
  returns_failure : Launched
  becomes : Buf Pointer → List ℕ → Standard → Launched
  ends : Standard → Launched

-- A copy of the command in which `strtok` ended each part by a NUL in place of the bar behind it.
unfoldable pub cut_bars : Bool → List ℕ → List ℕ
cut_bars within [] = []
cut_bars within (c ∷ s) =
    let behind_bar = cut_bars false s in
    let inside = cut_bars true s in
    if c == b'|' then (if within then 0 else c) ∷ behind_bar else c ∷ inside

-- `dup2` of an end of the pipe of the round, whose descriptors `pipe` may have left unset.
abbrev pub dup : Bool → Standard → Exec Standard
dup piped std = if piped then done std else fault

-- What follows `fork` in the process that is followed; `rest` is the next round.
unfoldable pub after_fork :
    Turn
    → ℕ
    → Buf Pointer
    → List ℕ
    → Standard
    → (Standard → Exec (Option Launched))
    → Exec (Option Launched)
after_fork turn i argv copy std rest = elim turn.forking [
  | fork_failed ↦ done (some returns_failure)
  | in_child ↦ dup turn.piped (record std { input = read_end i }) >>= λ std'. elim turn.runs [
    | true ↦ done (some (becomes argv copy std'))
    | false ↦ rest std'
  ]
  | in_parent pid ↦ dup turn.piped (record std { output = write_end i }) >>= rest
]

-- The loop, from index `i` of `procs` on with so many rounds left, over what the system does in its
-- rounds. `none` is the wait for what is not in the list, or an inner loop out of its fuel.
unfoldable pub launch : List Turn → ℕ → ℕ → Buf Pointer → List ℕ → Standard → Exec (Option Launched)
unfolding after_fork
launch turns zero i procs copy std = done (some (ends std))
launch [] (suc rounds) i procs copy std = done none
launch (turn ∷ turns) (suc rounds) i procs copy std = load procs i >>= λ proc. elim proc [
  | none ↦ fault
  | some offset ↦ arguments turn.grant copy offset >>= λ result. elim result [
    | none ↦ done none
    | some (argv, copy') ↦
        after_fork turn i argv copy' std λ std'. launch turns rounds (i + 1) procs copy' std'
  ]
]

-- The branch of the child: the copy of the command, its processes, and the loop over them.
unfoldable pub child : Grant ℕ → Grant Pointer → List Turn → List ℕ → ℕ → Exec (Option Launched)
unfolding launch
child copy_grant procs_grant turns line_buf read_bytes =
    split_procs copy_grant procs_grant line_buf read_bytes >>= λ procs.
    c_string (drop 2 line_buf) >>= λ text.
    let cmd_start = take read_bytes text in
    let procs_size = (count_char cmd_start b'|' + 1) * sizeof_pointer % size_mod in
    launch turns procs_size 0 procs (cut_bars false cmd_start ++ 0 ∷ [])
      (record { input = inherited; output = inherited })
