-- ===== src/Server/Tests/Start.antt =====
-- A server from its start on: the theorems at inputs where their hypotheses hold.
use so.Base.{
  ℕ, ◌≡◌, ◌≤◌, ◌++◌, refl, inr, true, some, List, [], ◌∷◌, All, arith, done, fault, Ensures, ◌⊎◌,
}
use so.Base.Cells.{null, block, freed, fill, copy_to, store}
use so.ParseSize.{is_space, skip_space}
use so.TaskVec
use so.TaskVec.{TaskVec}
use so.BufWriter.{BufWriter, default_cap, with_default_cap}
use so.Server.{
  Server, Round, Reading, Ending, goes_on, read_line, in_parent, run, line_buf_size, step,
  on_reading, on_line, receive, dispatch, exec_task,
}
use so.Server.System.{System, Reach, later, writes, reads, system-IsServer, system_refines}
use so.Server.Ledger.{ledger_of}
use so.Server.Start.{Setup, start, start_writers, unset_vec}
use so.Server.Begin.{Begins, start_lem}
use so.Server.Invariant.{IsServer}
use so.Server.Dispatch.{Sized, IsSane, IsUntested, reads_tested}
use so.Server.Loop.{run-start-IsServer}
use so.Server.Exit.{Descriptors, at_exit}
use so.Server.Leaves.{Left, run-at_exit}
use so.Server.Tests.{zeros, place, task}

abbrev pub setup : Setup
setup = record {
  directory_made = true;
  commands_made = true;
  running_made = true;
  finished_made = true;
  commands_opened = some 3;
  running_opened = some 4;
  finished_opened = some 5;
  running_grant = some zeros;
  finished_grant = some zeros;
  handlers_set = true;
  junk = zeros;
}

start_lem_run :
    (s : Server) × (start setup ≡ some s)
    × Begins s
    × (s.running_writer.file_des ≡ 0)
    × (s.finished_writer.file_des ≡ 0)
start_lem_run = start_lem 3 4 5 zeros zeros zeros

-- The server before its first round.
abbrev fresh : BufWriter
fresh = record { file_des = 0; buf = block (fill default_cap zeros); pos = 0; cap = default_cap }

abbrev pub started : Server
started = record {
  file_running = unset_vec;
  file_finished = unset_vec;
  running = TaskVec.new unset_vec;
  finished = TaskVec.new unset_vec;
  running_writer = fresh;
  finished_writer = fresh;
  total_tasks = 0;
  line_buf = fill line_buf_size zeros;
  log = [];
  signalled = [];
}

pub start_run : start setup ≡ some started
unfolding start start_writers with_default_cap
start_run = refl

-- A client asks for a task and for the tasks that run, and to end a task without naming it.
abbrev visit : Reading → Round
visit reading = record {
  reading = reading;
  forking = in_parent 55;
  alloc = λ k n. some (λ i. task 0);
  kills = true;
  answers = λ i. some 100000;
}

abbrev visits : List Round
visits =
    visit (read_line (b'e' ∷ 32 ∷ b'x' ∷ []))
    ∷ visit (read_line (b'l' ∷ 32 ∷ []))
    ∷ visit (read_line (b't' ∷ 32 ∷ 10 ∷ []))
    ∷ []

visit-IsSane : (reading : Reading) → Sized reading → IsSane (visit reading)
visit-IsSane reading sized = record {
  sized = sized;
  grants = λ n. (0, omega arith, (λ i. task 0), refl);
  whole = λ i. inr (100000, refl, omega arith);
}

visits-IsSane : All IsSane visits
visits-IsSane = (
  visit-IsSane (read_line (b'e' ∷ 32 ∷ b'x' ∷ [])) (omega arith, omega arith),
  (
    visit-IsSane (read_line (b'l' ∷ 32 ∷ [])) (omega arith, omega arith),
    (visit-IsSane (read_line (b't' ∷ 32 ∷ 10 ∷ [])) (omega arith, omega arith), tt),
  ),
)

visits-IsUntested : All IsUntested visits
unfolding is_space skip_space
visits-IsUntested = (refl, (refl, (refl, tt)))

run-start-IsServer_example : Ensures (run place visits started) (λ r. IsServer place r.1)
run-start-IsServer_example =
    run-start-IsServer setup place visits started start_run visits-IsSane visits-IsUntested
      (omega arith)

-- An array of the file that has a block.
abbrev held : TaskVec
held = record { buf = block (task 0 ∷ []); len = 1; cap = 1 }

abbrev fds : Descriptors
fds = record { commands_fd = 3; running_tasks_fd = 0; finished_tasks_fd = 0 }

run-at_exit_example : Ensures (run place visits started) (λ (how, s').
    Ensures
      (at_exit (λ i. some 8192) fds s')
      (λ (t, closed). Left s' null null t × (closed ≡ 0 ∷ 0 ∷ 3 ∷ []))
    × Ensures
        (at_exit (λ i. some 8192) fds (record s' { file_running = held; file_finished = held }))
        (λ (t, closed).
          Left (record s' { file_running = held; file_finished = held }) freed freed t
          × (closed ≡ 0 ∷ 0 ∷ 3 ∷ [])))
run-at_exit_example =
    run-at_exit setup place visits started (λ i. some 8192) fds 8192 8192 held held (task 0 ∷ [])
      (task 0 ∷ []) start_run visits-IsSane visits-IsUntested (omega arith) refl refl (omega arith)
      (omega arith) refl refl

-- Two clients write at once, and the server takes both commands in one round.
abbrev both : List ℕ
both = b'm' ∷ 32 ∷ b'5' ∷ 10 ∷ b'i' ∷ 32 ∷ b'6' ∷ 10 ∷ []

abbrev listened : Server
listened = record started { line_buf = both ++ 0 ∷ fill 8183 zeros }

both_run : step place (visit (read_line both)) started ≡ done (goes_on, listened)
unfolding step on_reading on_line receive dispatch copy_to store
both_run = refl

abbrev crowd : System
crowd = record { server = listened; fifo = []; written = both; received = both; rounds = 1 }

crowd-Reach : Reach place started crowd
crowd-Reach =
    later
      (later (later Reach.started (writes (b'm' ∷ 32 ∷ b'5' ∷ 10 ∷ [])))
        (writes (b'i' ∷ 32 ∷ b'6' ∷ 10 ∷ [])))
      (reads (visit (read_line both)) 8 (visit-IsSane (read_line both) (omega arith, omega arith))
        refl both_run)

-- The next round would end a task.
abbrev ending : Round
ending = visit (read_line (b't' ∷ 32 ∷ b'0' ∷ []))

system-IsServer_example :
    IsServer place listened
    × (listened.total_tasks ≤ 1)
    × (both ≡ both ++ [])
    × ((IsUntested ending
          × ((how : Ending) × (server' : Server) × (step place ending listened
                ≡ done (how, server'))))
        ⊎ ((reads_tested ending.reading ≡ true) × (step place ending listened ≡ fault)))
system-IsServer_example =
    system-IsServer setup place started crowd ending start_run crowd-Reach (omega arith)
      (visit-IsSane (read_line (b't' ∷ 32 ∷ b'0' ∷ [])) (omega arith, omega arith))

-- The server starts a task, reads both commands, and ends the task.
abbrev working : Server
working = record started {
  running = record {
    buf = block (record { task_id = 0; task_name = 1002; process_group = 55 } ∷ task 0 ∷ []);
    len = 1;
    cap = 2;
  };
  total_tasks = 1;
  line_buf = b'e' ∷ 32 ∷ b'x' ∷ 0 ∷ fill 8188 zeros;
}

work_run : step place (visit (read_line (b'e' ∷ 32 ∷ b'x' ∷ []))) started ≡ done (goes_on, working)
unfolding step on_reading on_line receive dispatch copy_to store exec_task TaskVec.push
    TaskVec.make_room TaskVec.place TaskVec.grow TaskVec.new so.Base.Cells.realloc
work_run = refl

abbrev busy : System
busy = record {
  server = working;
  fifo = both;
  written = b'e' ∷ 32 ∷ b'x' ∷ both;
  received = b'e' ∷ 32 ∷ b'x' ∷ [];
  rounds = 1;
}

busy-Reach : Reach place started busy
busy-Reach = later (later Reach.started (writes (b'e' ∷ 32 ∷ b'x' ∷ both))) (
    reads (visit (read_line (b'e' ∷ 32 ∷ b'x' ∷ []))) 3
      (visit-IsSane (read_line (b'e' ∷ 32 ∷ b'x' ∷ [])) (omega arith, omega arith)) refl work_run)

system_refines_example :
    ledger_of working ≡ record { jobs = (0, 55) ∷ []; count = 1; signalled = [] }
unfolding busy-Reach
system_refines_example = system_refines setup place started busy start_run busy-Reach (omega arith)
