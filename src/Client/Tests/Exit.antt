-- ===== src/Client/Tests/Exit.antt =====
-- The end of a client: the theorem at an input where its hypotheses hold, and a run.
use so.Base.{◌≡◌, refl, false, some, [], ◌∷◌, ◌++◌, arith, codes, take, Ensures}
use so.Base.Cells.{block}
use so.BufWriter.{BufWriter}
use so.BufWriter.Valid.{IsValid}
use so.Client.Exit.{
  FifoDescriptors, Exit, Closing, registered, run_all, complain, close_commands_fifo,
  close_running_tasks_fifo, close_finished_tasks_fifo,
}
use so.Client.Exit.Order.{Emptied, exit-registered, complaints}
use so.Client.Help.{print_help}
use so.Client.Tests.{opening, zeros}

-- A writer to the fifo of the commands, with two bytes in its buffer.
abbrev writer : BufWriter
writer = record { file_des = 3; buf = block (b'l' ∷ 32 ∷ 0 ∷ []); pos = 2; cap = 3 }

writer-IsValid : IsValid writer
writer-IsValid = record {
  live = refl;
  storage = refl;
  pos_in = omega arith;
  positive = omega arith;
  small = omega arith;
}

abbrev fds : FifoDescriptors
fds = record { commands_fd = 3; running_tasks_fd = 4; finished_tasks_fd = 5 }

abbrev closing : Closing
closing = record {
  closes = λ handler. false;
  answer = some 100;
  errno = λ handler. 5;
  strerror = λ errno. codes "EIO";
}

abbrev stopped : Exit
stopped = record { commands_writter = writer; log = []; closed = []; stderr = [] }

exit-registered_example : Ensures (run_all closing fds (registered opening) stopped) (λ s'.
    Emptied stopped s'
    × (s'.closed ≡ 5 ∷ 4 ∷ 3 ∷ [])
    × (s'.stderr
        ≡ complaints closing
            (close_finished_tasks_fifo ∷ close_running_tasks_fifo ∷ close_commands_fifo ∷ [])
            []))
exit-registered_example =
    exit-registered closing fds opening stopped 3 100 zeros refl refl refl refl writer-IsValid refl
      (omega arith) refl

complain_run :
    complain close_commands_fifo (codes "EIO") []
    ≡ codes "argus: Failed closing the commands fifo: EIO." ++ 10 ∷ []
unfolding complain so.ComfyIo.program_eprintln so.Client.Exit.failed
complain_run = refl

help_run : take 24 print_help ≡ codes "Usage: argus [options]\nO"
unfolding print_help
help_run = refl
