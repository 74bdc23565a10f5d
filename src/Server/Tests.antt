-- ===== src/Server/Tests.antt =====
-- A concrete server: runs of the functions, and the theorems at inputs where their hypotheses hold.
mod Start
mod Twice
use so.Base.{
  ℕ, ◌+◌, ◌≡◌, refl, inl, inr, true, none, some, List, [], ◌∷◌, ◌++◌, arith, done, fault, Ensures,
}
use so.Base.Cells.{block, fill, copy_to, store}
use so.Base.Cells.Laws.{length-fill}
use so.Files.{sent}
use so.TaskVec
use so.TaskVec.{Task, TaskVec, Alloc}
use so.TaskVec.Valid as Vec
use so.BufWriter.{BufWriter}
use so.BufWriter.Valid.{IsValid, Follows, stream, pending}
use so.ParseSize.{ParseSizeOutcome, is_space}
use so.Server.{
  Server, Place, Round, Reading, read_failed, read_line, Forking, fork_failed, in_parent, goes_on,
  exits_well, exec_task, end_task_parsed, after_round, list_running, c_string, on_line, on_reading,
  receive, dispatch, run, step, sighandler, sigterm, line_buf_size,
}
use so.Server.Start.{unset_vec}
use so.Server.Signals.{run-sighandler}
use so.Server.Commands.{exec_task_lem, end_task_lem, on_line_tested, on_line_overrun, EndsTask}
use so.Server.Listing.{lines, list_running_lem}

abbrev zeros : ℕ → ℕ
zeros i = 0

abbrev letters : ℕ → ℕ
letters i = b'e'

abbrev denies : Alloc
denies k n = none

abbrev place : Place
place = record { line_addr = 1000 }

abbrev task : ℕ → Task
task n = record { task_id = n; task_name = 1002; process_group = 100 + n }

abbrev two_tasks : TaskVec
two_tasks = record { buf = block (task 0 ∷ task 1 ∷ task 9 ∷ []); len = 2; cap = 3 }

abbrev writer : ℕ → BufWriter
writer fd = record { file_des = fd; buf = block (fill 16 (λ i. 0)); pos = 0; cap = 16 }

-- Two tasks run, and the line buffer has room for sixteen characters.
abbrev server : Server
server = record {
  file_running = unset_vec;
  file_finished = unset_vec;
  running = two_tasks;
  finished = unset_vec;
  running_writer = writer 0;
  finished_writer = writer 0;
  total_tasks = 2;
  line_buf = b'l' ∷ 32 ∷ b'x' ∷ b'y' ∷ 0 ∷ fill 11 (λ i. 0);
  log = [];
  signalled = [];
}

abbrev round : Reading → Forking → Round
round reading forking = record {
  reading = reading;
  forking = forking;
  alloc = denies;
  kills = true;
  answers = λ i. some 100;
}

two_tasks-IsValid : Vec.IsValid two_tasks
two_tasks-IsValid = record { live = refl; storage = refl; len_in = omega arith; fits = omega arith }

writer-IsValid : IsValid (writer 0)
writer-IsValid = record {
  live = refl;
  storage = refl;
  pos_in = omega arith;
  positive = omega arith;
  small = omega arith;
}

exec_task_lem_run : Ensures (exec_task place denies server (in_parent 55)) (λ (how, s').
    let task : Task = record { task_id = 2; task_name = 1002; process_group = 55 } in
    (how ≡ goes_on)
    × Vec.IsValid s'.running
    × (Vec.tasks s'.running ≡ Vec.tasks server.running ++ task ∷ [])
    × (s' ≡ record server { running = s'.running; total_tasks = 3 }))
exec_task_lem_run =
    exec_task_lem place denies server 55 two_tasks-IsValid (inl (omega arith)) (omega arith)

end_task_lem_example :
    Ensures
      (end_task_parsed (round read_failed fork_failed) server 1 ParseSizeOutcome.ok)
      (EndsTask server 1)
end_task_lem_example = end_task_lem (round read_failed fork_failed) server 1 two_tasks-IsValid refl

on_line_tested_example :
    on_line place (round read_failed fork_failed) server (b't' ∷ 32 ∷ (32 ∷ []) ++ b'1' ∷ 10 ∷ [])
    ≡ fault
unfolding is_space
on_line_tested_example =
    on_line_tested place (round read_failed fork_failed) server 32 (32 ∷ []) b'1' (10 ∷ [])
      (refl, tt) refl (omega arith)

on_line_overrun_example :
    on_line place
      (round read_failed fork_failed)
      (record server { line_buf = fill line_buf_size zeros })
      (fill line_buf_size letters)
    ≡ fault
on_line_overrun_example =
    on_line_overrun place (round read_failed fork_failed)
      (record server { line_buf = fill line_buf_size zeros }) (fill line_buf_size letters)
      (length-fill line_buf_size zeros) (length-fill line_buf_size letters)

list_running_lem_example :
    Ensures (list_running place (round read_failed fork_failed) server) (λ (how, s').
      (how ≡ goes_on)
      × Follows (writer 0) s'.running_writer
      × (sent 0 s'.log ≡ stream (writer 0) [] ++ lines 2 (b'x' ∷ b'y' ∷ []))
      × (stream s'.running_writer s'.log ≡ sent 0 s'.log ++ pending s'.running_writer)
      × (s' ≡ record server { running_writer = s'.running_writer; log = s'.log }))
unfolding c_string
list_running_lem_example =
    list_running_lem place (round read_failed fork_failed) server (b'x' ∷ b'y' ∷ [])
      two_tasks-IsValid writer-IsValid (refl, (refl, tt)) refl (omega arith)
      (λ i. (100, refl, omega arith))

-- A command that the server does not know.
abbrev unknown : List ℕ
unknown = b'm' ∷ 32 ∷ b'5' ∷ []

abbrev server_after : Server
server_after = record server { line_buf = b'm' ∷ 32 ∷ b'5' ∷ 0 ∷ 0 ∷ fill 11 zeros }

listens_run :
    run place (round (read_line unknown) fork_failed ∷ []) server ≡ done (goes_on, server_after)
unfolding run step on_reading on_line receive dispatch store copy_to after_round
listens_run = refl

run-sighandler_example : sighandler sigterm server_after ≡ done (exits_well, server_after)
run-sighandler_example =
    run-sighandler sigterm place (round (read_line unknown) fork_failed ∷ []) server server_after
      goes_on (inr refl) refl listens_run
