-- ===== src/Client/Options.antt =====
-- The options of the client (src/client.c). Where the client goes on to copy a fifo to its output it is
-- followed in Client/Copy.
use so.Base.{ℕ, Option, none, some, List, [], ◌==◌, if◌then◌else◌, Exec, done, ◌>>=◌}
use so.Base.Cells.{null, Grant}
use so.Files.{Answer, Log}
use so.Conf.{
  exec_task_flag, end_task_flag, set_active_timeout_flag, set_inactive_timeout_flag,
  list_running_tasks_flag, list_finished_tasks_flag, help_flag,
}
use so.ParseSize.{deref, next, parse_size}
use so.BufWriter
use so.BufWriter.{BufWriter, BwOutcome}
use so.Client.{
  Command, exec_task, end_task, set_active_timeout, set_inactive_timeout, list_running_tasks,
  list_finished_tasks, Status, success, failure, write_cmd, is_read,
}

-- What the system answers to a client that is started with an option: what `open` returns for the
-- fifo of the commands, the storage for the writer, and the answers to the system calls that write.
pub record Setup : Type 0 where
  pub opened : Option ℕ
  pub grant : Grant ℕ
  pub answers : ℕ → Answer

abbrev pub unset_writer : BufWriter
unset_writer = record { file_des = 0; buf = null; pos = 0; cap = 0 }

-- `drop_commands_writer`, which runs at exit.
unfoldable pub at_exit : Answer → Status × BufWriter × Log → Exec (Status × Log)
at_exit ans (result, w, log) = BufWriter.drop ans w log >>= λ (_, _, log'). done (result, log')

-- The fifo is opened, the writer set up, and the command written; then the client ends. For a listing
-- this has all but the copying of its fifo, which stands before the end.
unfoldable pub send : Setup → Command → List ℕ → Exec (Status × Log)
unfolding at_exit
send setup cmd arg = elim setup.opened [
  | none ↦ done (failure, [])
  | some fd ↦
      let (outcome, w) = BufWriter.with_default_cap setup.grant unset_writer fd in
      elim outcome [
        | BwOutcome.ok ↦ write_cmd setup.answers w cmd arg [] >>= at_exit (setup.answers 3)
        | _ ↦ done (failure, [])
      ]
]

-- An option with a number behind it.
unfoldable pub send_number : Setup → Command → List ℕ → Exec (Status × Log)
unfolding send
send_number setup cmd arg =
    if is_read (parse_size arg 0 (some 0)).outcome then send setup cmd arg else done (failure, [])

-- An option without the argument that it needs fails.
abbrev pub given : Option (List ℕ) → (List ℕ → Exec (Status × Log)) → Exec (Status × Log)
given none follow = done (failure, [])
given (some arg) follow = follow arg

-- The `switch` over the character of the option, with `argv[2]`, if there is one.
unfoldable pub on_flag : Setup → ℕ → Option (List ℕ) → Exec (Status × Log)
unfolding send send_number
on_flag setup flag argument =
    if flag == exec_task_flag
    then given argument (send setup exec_task)
    else if flag == end_task_flag
    then given argument (send_number setup end_task)
    else if flag == set_active_timeout_flag
    then given argument (send_number setup set_active_timeout)
    else if flag == set_inactive_timeout_flag
    then given argument (send_number setup set_inactive_timeout)
    else if flag == list_running_tasks_flag
    then send setup list_running_tasks []
    else if flag == list_finished_tasks_flag
    then send setup list_finished_tasks []
    else if flag == help_flag
    then done (success, [])
    else done (failure, [])

-- `main` with an option: the string `argv[1]`.
unfoldable pub on_option : Setup → List ℕ → Option (List ℕ) → Exec (Status × Log)
unfolding on_flag
on_option setup option argument =
    if deref option == b'-'
    then on_flag setup (deref (next option)) argument
    else done (failure, [])
