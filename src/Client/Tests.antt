-- ===== src/Client/Tests.antt =====
-- A concrete client: runs of the functions, and the theorems at inputs where their hypotheses hold.
mod Exit
use mathlib.Core.Path.{subst}
use so.Base.{
  ℕ, ◌+◌, ◌≡◌, refl, ◌≢◌, inl, inr, true, none, some, List, map, All, [], ◌∷◌, ◌++◌, arith, codes,
  done, Ensures,
}
use so.Base.Cells.{block, fill}
use so.Files.{Answer, sent}
use so.ParseSize.{is_space, is_digit, skip_space, parse_size, ParseSizeOutcome}
use so.BufWriter.{BufWriter}
use so.TaskVec.{Task}
use so.Server
use so.Server.{on_line, Server, Place, Round, fork_failed, read_failed}
use so.Server.Start.{unset_vec}
use so.Client.{Command, success, failure, find_cmd, find_among, strncmp_zero, cmd_name, commands}
use so.Client.Lines.{reads_on, skip_spaces, split_word}
use so.Client.Lines
use so.Client.Options.{on_option, send, Setup}
use so.Client.Names.{FindsAmong, find_cmd_lem}
use so.Client.Copy.{
  waits, breaks, copy_finished, copy_finished_i, list_running_option, list_finished_option,
}
use so.Client.Listing.{request, IsBlind, list_running_option_lem, list_finished_option-IsBlind}
use so.Client.Session.{Turn, Opening, interactive}
use so.Client.Quiet.{IsListingByte}
use so.Client.Ends.{IsServed, interactive-Ended}
use so.Client.Turns.{Answered, interactive-Quiet}
use so.Client.Send.{message, send_lem}
use so.Client.Interactive.{on_line-sends_nothing, on_option-refuses}

abbrev zeros : ℕ → ℕ
zeros i = 0

abbrev takes : ℕ → Answer
takes i = some 10000

abbrev writer : BufWriter
writer = record { file_des = 3; buf = block (fill 16 zeros); pos = 0; cap = 16 }

abbrev setup : Setup
setup = record { opened = some 3; grant = some zeros; answers = takes }

-- A prefix that two names share is taken for the first.
te_run : find_cmd (codes "te") ≡ some Command.end_task
unfolding find_cmd find_among strncmp_zero cmd_name
te_run = refl

find_cmd_lem_example : FindsAmong commands (codes "tem") (find_cmd (codes "tem"))
find_cmd_lem_example = find_cmd_lem (codes "tem") (omega arith, (omega arith, (omega arith, tt)))

on_line-sends_nothing_run :
    Lines.on_line 500 takes writer (codes "executar ls\n") [] ≡ done (reads_on, writer, [])
unfolding find_cmd find_among strncmp_zero cmd_name skip_spaces split_word is_space
on_line-sends_nothing_run =
    on_line-sends_nothing 500 takes writer (codes "executar ls\n") [] Command.exec_task refl
      (inl refl) (omega arith)

on_option-refuses_run : on_option setup (codes "-t") (some (codes "x")) ≡ done (failure, [])
unfolding parse_size skip_space is_space is_digit
on_option-refuses_run = on_option-refuses setup b't' [] (some (codes "x")) (inl refl) λ arg e.
    let same : codes "x" ≡ arg = cc in
    subst (λ a. (parse_size a 0 (some 0)).outcome ≢ ParseSizeOutcome.ok) same (λ h. cc)

send_lem_example : Ensures (send setup Command.exec_task (codes "ls")) (λ (result, log).
    (result ≡ success)
    × (sent 3 log
        ≡ message Command.exec_task (codes "ls") ++ message Command.exec_task (codes "ls")))
send_lem_example =
    send_lem setup Command.exec_task (codes "ls") 3 10000 10000 zeros (inl refl) (omega arith) refl
      refl refl refl (omega arith) (omega arith)

abbrev place : Place
place = record { line_addr = 1000 }

abbrev round : Round
round = record {
  reading = read_failed;
  forking = fork_failed;
  alloc = λ k n. none;
  kills = true;
  answers = takes;
}

abbrev task : ℕ → Task
task n = record { task_id = n; task_name = 1002; process_group = 100 + n }

abbrev server : Server
server = record {
  file_running = unset_vec;
  file_finished = unset_vec;
  running = record { buf = block (task 4 ∷ task 42 ∷ []); len = 2; cap = 2 };
  finished = unset_vec;
  running_writer = writer;
  finished_writer = writer;
  total_tasks = 43;
  line_buf = fill 16 zeros;
  log = [];
  signalled = [];
}

-- What the fifo of a listing gives: two texts, and its end.
abbrev texts : List (List ℕ)
texts = codes "ls\n" ∷ codes "wc\n" ∷ []

list_running_option_lem_example :
    Ensures (list_running_option setup true (map some texts ++ some [] ∷ [])) (λ (result, log, out).
      (result ≡ some success)
      × (sent 3 log ≡ request Command.list_running_tasks ++ request Command.list_running_tasks)
      × (out ≡ (codes "ls\n", 3) ∷ (codes "wc\n", 3) ∷ []))
list_running_option_lem_example =
    list_running_option_lem setup texts [] 3 10000 10000 zeros (omega arith, (omega arith, tt)) refl
      refl refl refl (omega arith) (omega arith)

list_finished_option-IsBlind_example :
    Ensures
      (list_finished_option setup true (none ∷ map some texts))
      (λ (result, log, out). IsBlind out)
list_finished_option-IsBlind_example =
    list_finished_option-IsBlind setup (none ∷ map some texts) 3 10000 10000 zeros refl refl refl
      refl (omega arith) (omega arith)

copy_finished_run : copy_finished (some (codes "ls\n") ∷ []) ≡ (breaks, [])
unfolding copy_finished
copy_finished_run = refl

copy_finished_i_run :
    copy_finished_i (none ∷ some (codes "ls") ∷ [])
    ≡ (waits, ([], 18446744073709551615) ∷ (codes "ls", 2) ∷ [])
unfolding copy_finished_i
copy_finished_i_run = refl

-- A client that reads a line to execute a task, one that lists, and the end of its input.
abbrev turn : List ℕ → Turn
turn line = record { line = some line; answers = takes; readings = some [] ∷ [] }

abbrev turns : List Turn
turns = turn (codes "executar ls\n") ∷ turn (codes "listar\n") ∷ turn [] ∷ []

abbrev opening : Opening
opening = record {
  commands_opened = some 3;
  running_opens = true;
  finished_opens = true;
  grant = some zeros;
  last_answer = some 10000;
}

turn-Answered : (line : List ℕ) → Answered (turn line)
turn-Answered line = λ i. inr (10000, refl, omega arith)

interactive-Quiet_example :
    Ensures (interactive 500 opening turns) (λ (_, log, _). All IsListingByte (sent 3 log))
interactive-Quiet_example =
    interactive-Quiet 500 opening turns 3 10000 zeros refl refl refl refl refl (omega arith) (
      turn-Answered (codes "executar ls\n"),
      (turn-Answered (codes "listar\n"), (turn-Answered [], tt)),
    )

turn-IsServed : (c : ℕ) (s : List ℕ) → IsServed (turn (c ∷ s))
turn-IsServed c s = record {
  has_line = (c, s, refl);
  takes = λ i. (10000, refl, omega arith);
  reaches_end = tt;
}

interactive-Ended_example :
    Ensures
      (interactive 500 opening
        ((turn (codes "executar ls\n") ∷ turn (codes "listar\n") ∷ []) ++ turn [] ∷ []))
      (λ (result, _, _). result ≡ some success)
interactive-Ended_example =
    interactive-Ended 500 opening (turn (codes "executar ls\n") ∷ turn (codes "listar\n") ∷ [])
      (turn []) 3 10000 zeros refl refl refl refl refl (omega arith)
      (turn-IsServed b'e' (codes "xecutar ls\n"), (turn-IsServed b'l' (codes "istar\n"), tt)) refl
