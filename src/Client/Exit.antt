-- ===== src/Client/Exit.antt =====
-- The functions that the client runs at exit (src/client.c), the last that it gave to `atexit` first.
pub mod Order
use so.Base.{
  ℕ, Bool, false, ◌||◌, none, some, List, [], ◌∷◌, ◌++◌, ◌==◌, if◌then◌else◌, codes, drop, Exec,
  done, fault, ◌>>=◌,
}
use so.Files.{Answer, Log}
use so.BufWriter
use so.BufWriter.{BufWriter, BwOutcome}
use so.BufWriter.Messages.{bw_outcome_msg}
use so.ComfyIo.{Stderr, program_eprintln}
use so.Client.Session.{Opening}

pub data Handler : Type 0 where
  close_commands_fifo close_running_tasks_fifo close_finished_tasks_fifo drop_commands_writer :
      Handler

-- The variables of the file that hold the descriptors.
pub record FifoDescriptors : Type 0 where
  pub commands_fd : ℕ
  pub running_tasks_fd : ℕ
  pub finished_tasks_fd : ℕ

-- What the functions change: the writer, what was written, the descriptors that `close` was called
-- for, and the standard error.
pub record Exit : Type 0 where
  pub commands_writter : BufWriter
  pub log : Log
  pub closed : List ℕ
  pub stderr : Stderr

-- What the system answers: whether the `close` of a function succeeds, and the call that writes; and
-- the `errno` behind a function, with the texts of `strerror`.
pub record Closing : Type 0 where
  pub closes : Handler → Bool
  pub answer : Answer
  pub errno : Handler → ℕ
  pub strerror : ℕ → List ℕ

unfoldable pub is_among : ℕ → List ℕ → Bool
is_among fd [] = false
is_among fd (d ∷ fds) = let rest = is_among fd fds in (d == fd) || rest

abbrev pub program_name : List ℕ
program_name = codes "argus"

-- What a function that fails says before the text of its error.
unfoldable pub failed : Handler → List ℕ
failed close_commands_fifo = codes "Failed closing the commands fifo: "
failed close_running_tasks_fifo = codes "Failed closing the running tasks fifo: "
failed close_finished_tasks_fifo = codes "Failed closing the finished tasks fifo: "
failed drop_commands_writer = codes "Failed dropping the commands fifo buffered writer: "

unfoldable pub complain : Handler → List ℕ → Stderr → Stderr
complain handler text err =
    program_eprintln program_name (failed handler ++ (text ++ codes ".")) err

unfoldable pub close_fifo : Closing → Handler → ℕ → Exit → Exec Exit
close_fifo closing handler fd s =
    let text = closing.strerror (closing.errno handler) in
    done (record s {
      closed = s.closed ++ fd ∷ [];
      stderr = if closing.closes handler then s.stderr else complain handler text s.stderr;
    })

-- The value of an outcome of the enumeration.
abbrev pub value : BwOutcome → ℕ
value BwOutcome.ok = 0
value BwOutcome.err_alloc_fail = 1
value BwOutcome.err_write_fail = 2
value BwOutcome.err_close_fail = 3

-- The message, if the outcome is not BW_OK.
abbrev pub complain_of : Closing → BwOutcome → Stderr → Exec Stderr
complain_of closing BwOutcome.ok err = done err
complain_of closing outcome err =
    elim (bw_outcome_msg closing.strerror (value outcome)
      (some (closing.errno drop_commands_writer))) [
        | none ↦ fault
        | some text ↦ done (complain drop_commands_writer text err)
      ]

-- A system call that writes to a descriptor that was closed fails.
unfoldable pub drop_writer : Closing → Exit → Exec Exit
drop_writer closing s =
    let w = s.commands_writter in
    let ans = if is_among w.file_des s.closed then none else closing.answer in
    BufWriter.drop ans w s.log >>= λ (outcome, w', log).
    complain_of closing outcome s.stderr >>= λ err.
    done (record s { commands_writter = w'; log = log; stderr = err })

unfoldable pub run_handler : Closing → FifoDescriptors → Handler → Exit → Exec Exit
run_handler closing fds close_commands_fifo s =
    close_fifo closing close_commands_fifo fds.commands_fd s
run_handler closing fds close_running_tasks_fifo s =
    close_fifo closing close_running_tasks_fifo fds.running_tasks_fd s
run_handler closing fds close_finished_tasks_fifo s =
    close_fifo closing close_finished_tasks_fifo fds.finished_tasks_fd s
run_handler closing fds drop_commands_writer s = drop_writer closing s

unfoldable pub run_all : Closing → FifoDescriptors → List Handler → Exit → Exec Exit
unfolding run_handler
run_all closing fds [] s = done s
run_all closing fds (handler ∷ handlers) s =
    run_handler closing fds handler s >>= run_all closing fds handlers

-- The functions that the interactive client gives to `atexit` before its loop, the last first.
unfoldable pub registered : Opening → List Handler
registered opening = elim opening.commands_opened [
  | none ↦ []
  | some fd ↦
      if opening.running_opens
      then if opening.finished_opens
        then elim opening.grant [
          | none ↦ close_finished_tasks_fifo ∷ close_running_tasks_fifo ∷ close_commands_fifo ∷ []
          | some junk ↦
              drop_commands_writer ∷ close_finished_tasks_fifo ∷ close_running_tasks_fifo
              ∷ close_commands_fifo ∷ []
        ]
        else close_running_tasks_fifo ∷ close_commands_fifo ∷ []
      else close_commands_fifo ∷ []
]
