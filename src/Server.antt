-- ===== src/Server.antt =====
-- src/server.c: the state of the server, what it does with each command that it reads, and what a
-- signal does. A round follows a child process up to the call of `fork` that creates it; what the child
-- does then is in Server/Child.
--
-- `line_buf` is an array of the loop's body. The model gives it the same storage in each round, as
-- compilers do; C says that it is another one.
pub mod Start
pub mod Begin
pub mod Listing
pub mod Commands
pub mod Invariant
pub mod Preserves
pub mod Receive
pub mod Safety
pub mod Rounds
pub mod Dispatch
pub mod Loop
pub mod Ledger
pub mod Refines
pub mod System
pub mod Child
pub mod Signals
pub mod Exit
pub mod Leaves
mod Tests
use so.Base.{
  ℕ, zero, suc, ◌+◌, ◌-◌, ◌%◌, Bool, true, false, ◌||◌, Option, none, some, List, [], ◌∷◌, ◌++◌,
  map, ltb, ◌==◌, if◌then◌else◌, size_mod, length, drop, Exec, done, fault, ◌>>=◌,
}
use so.Base.Cells.{Buf, block, cells, load, copy_to, store}
use so.Files.{Answer, Log}
use so.Conf.{exec_task_flag, end_task_flag, list_running_tasks_flag, list_finished_tasks_flag}
use so.TaskVec
use so.TaskVec.{Task, TaskVec, Alloc}
use so.ParseSize.{parse_size_slice, ParseSizeOutcome}
use so.BufWriter
use so.BufWriter.{BufWriter, BwOutcome}

abbrev pub line_buf_size : ℕ
line_buf_size = 8192

abbrev pub sigint : ℕ
sigint = 2

abbrev pub sigterm : ℕ
sigterm = 15

-- The variables of the file and of `main`. `main` declares `running_tasks` and `finished_tasks` once
-- more: its own are `running` and `finished`, those of the file are the ones that a signal sees.
-- `signalled` tells the process groups to which a signal was sent, and the signal.
pub record Server : Type 0 where
  pub file_running : TaskVec
  pub file_finished : TaskVec
  pub running : TaskVec
  pub finished : TaskVec
  pub running_writer : BufWriter
  pub finished_writer : BufWriter
  pub total_tasks : ℕ
  pub line_buf : List ℕ
  pub log : Log
  pub signalled : List (ℕ × ℕ)

-- Where `line_buf` lies.
pub record Place : Type 0 where
  pub line_addr : ℕ

-- What `read` returns: -1, or the bytes that it put into `line_buf`.
pub data Reading : Type 0 where
  read_failed : Reading
  read_line : List ℕ → Reading

-- What `fork` returns.
pub data Forking : Type 0 where
  fork_failed in_child : Forking
  in_parent : ℕ → Forking

-- What the operating system does in a round of the loop: the answer of each call that the round may
-- make. The writes of a listing are numbered.
pub record Round : Type 0 where
  pub reading : Reading
  pub forking : Forking
  pub alloc : Alloc
  pub kills : Bool
  pub answers : ℕ → Answer

-- How a round or a signal ends: with the next round, with the status EXIT_FAILURE or 0, or in a child
-- process, whose state this is then.
pub data Ending : Type 0 where
  goes_on exits exits_well becomes_child : Ending

abbrev pub Step : Type 0
Step = Exec (Ending × Server)

-- The characters from a pointer into `line_buf` up to a NUL.
unfoldable pub c_string : List ℕ → Exec (List ℕ)
c_string [] = fault
c_string (c ∷ s) = if c == 0 then done [] else (c_string s >>= λ t. done (c ∷ t))

unfoldable pub string_at : Place → List ℕ → ℕ → Exec (List ℕ)
unfolding c_string
string_at place line_buf address =
    if ltb address place.line_addr
    then fault
    else c_string (drop (address - place.line_addr) line_buf)

-- `read`, and the NUL behind the bytes.
unfoldable pub receive : List ℕ → List ℕ → Exec (List ℕ)
receive line_buf bytes = do
  b ← copy_to (block line_buf) 0 bytes
  b' ← store b (length bytes) 0
  done (cells b')

unfoldable pub exec_task : Place → Alloc → Server → Forking → Step
exec_task place alloc s fork_failed = done (exits, s)
exec_task place alloc s in_child = done (becomes_child, s)
exec_task place alloc s (in_parent pid) =
    let task : Task = record {
      task_id = s.total_tasks;
      task_name = place.line_addr + 2;
      process_group = pid;
    } in
    TaskVec.push alloc s.running task >>= λ r.
    done (goes_on, record s { running = r.1; total_tasks = (s.total_tasks + 1) % size_mod })

-- `kill` and what follows it, for the task at an index of `running_tasks`.
unfoldable pub end_task_at : Round → Server → ℕ → Step
end_task_at round s idx = load s.running.buf idx >>= λ task.
    if round.kills
    then (TaskVec.rm_ord_at s.running idx >>= λ r. done (
      goes_on,
      record s { running = r.1; signalled = s.signalled ++ (task.process_group, sigterm) ∷ [] },
    ))
    else done (exits, s)

unfoldable pub end_found : Round → Server → Option ℕ → Step
end_found round s none = done (goes_on, s)
end_found round s (some idx) = end_task_at round s idx

unfoldable pub end_task_parsed : Round → Server → ℕ → ParseSizeOutcome → Step
end_task_parsed round s task_id ParseSizeOutcome.ok =
    TaskVec.search_by_tid s.running task_id >>= end_found round s
end_task_parsed round s task_id _ = done (goes_on, s)

-- The bytes are those that were read; a single one leaves a slice that ends before it begins.
unfoldable pub end_task : Place → Round → Server → List ℕ → Step
end_task place round s bytes =
    if ltb (length bytes) 2
    then fault
    else (parse_size_slice (place.line_addr + 2) (drop 2 bytes) 0 none >>= λ parsed.
        end_task_parsed round s parsed.size parsed.outcome)

-- A writer and a log behind a listing, and whether all calls went well.
abbrev pub Listed : Type 0
Listed = Exec (Bool × BufWriter × Log)

-- The rounds of the listing from index `i` on, as many as there are tasks behind it.
unfoldable pub list_from :
    Place → List ℕ → (ℕ → Answer) → TaskVec → ℕ → ℕ → BufWriter → Log → Listed
list_from place line_buf answers v zero i w log = done (true, w, log)
list_from place line_buf answers v (suc rounds) i w log = load v.buf i >>= λ task.
    string_at place line_buf task.task_name >>= λ name.
    BufWriter.write_line (answers i) w name (length name) log >>= λ (outcome, w', log').
    let rest = list_from place line_buf answers v rounds (i + 1) w' log' in
    elim outcome [ BwOutcome.ok ↦ rest | _ ↦ done (false, w', log') ]

unfoldable pub list_tasks : Place → List ℕ → (ℕ → Answer) → TaskVec → BufWriter → Log → Listed
unfolding list_from
list_tasks place line_buf answers v w log =
    list_from place line_buf answers v v.len 0 w log >>= λ (all_written, w', log').
    if all_written
    then (BufWriter.flush (answers v.len) w' log' >>= λ (outcome, w'', log'').
        done (elim outcome [ BwOutcome.ok ↦ true | _ ↦ false ], w'', log''))
    else done (false, w', log')

abbrev pub ending : Bool → Ending
ending all_well = if all_well then goes_on else exits

unfoldable pub list_running : Place → Round → Server → Step
list_running place round s =
    list_tasks place s.line_buf round.answers s.running s.running_writer s.log
    >>= λ (all_well, w, log). done (ending all_well, record s { running_writer = w; log = log })

unfoldable pub list_finished : Place → Round → Server → Step
list_finished place round s =
    list_tasks place s.line_buf round.answers s.finished s.finished_writer s.log
    >>= λ (all_well, w, log). done (ending all_well, record s { finished_writer = w; log = log })

-- The `switch` over the first byte; the commands for the timeouts do nothing.
unfoldable pub dispatch : Place → Round → Server → List ℕ → ℕ → Step
dispatch place round s bytes flag =
    if flag == exec_task_flag
    then exec_task place round.alloc s round.forking
    else if flag == end_task_flag
    then end_task place round s bytes
    else if flag == list_running_tasks_flag
    then list_running place round s
    else if flag == list_finished_tasks_flag
    then list_finished place round s
    else done (goes_on, s)

unfoldable pub on_line : Place → Round → Server → List ℕ → Step
on_line place round s [] = done (goes_on, s)
on_line place round s (c ∷ bytes) = receive s.line_buf (c ∷ bytes) >>= λ line_buf.
    dispatch place round (record s { line_buf = line_buf }) (c ∷ bytes) c

unfoldable pub on_reading : Place → Round → Server → Reading → Step
on_reading place round s read_failed = done (exits, s)
on_reading place round s (read_line bytes) = on_line place round s bytes

-- A round of the loop of `main`.
unfoldable pub step : Place → Round → Server → Step
step place round s = on_reading place round s round.reading

-- The loop, over the rounds that it makes: a round that ends it leaves the others out.
unfoldable pub after_round : Ending → Server → Step → Step
after_round goes_on s rest = rest
after_round how s rest = done (how, s)

unfoldable pub run : Place → List Round → Server → Step
run place [] s = done (goes_on, s)
run place (round ∷ rounds) s =
    step place round s >>= λ (how, s'). after_round how s' (run place rounds s')

-- The loop of the handler, from index `i` on: the process groups that get the signal.
unfoldable pub groups_from : Buf Task → ℕ → ℕ → Exec (List ℕ)
groups_from b zero i = done []
groups_from b (suc rounds) i = do
  task ← load b i
  groups ← groups_from b rounds (i + 1)
  done (task.process_group ∷ groups)

-- The handler sees the variables of the file.
unfoldable pub sighandler : ℕ → Server → Step
sighandler signum s =
    if (signum == sigint) || (signum == sigterm)
    then (groups_from s.file_running.buf s.file_running.len 0 >>= λ groups.
        done (
          exits_well,
          record s { signalled = s.signalled ++ map (λ group. (group, signum)) groups },
        ))
    else done (goes_on, s)
