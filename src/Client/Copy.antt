-- ===== src/Client/Copy.antt =====
-- The loops of the client that copy a fifo of a listing to its output, and the options that list
-- (src/client.c).
use so.Base.{
  ℕ, Bool, Option, none, some, List, [], ◌∷◌, ◌-◌, if◌then◌else◌, length, size_mod, Exec, done,
  ◌>>=◌,
}
use so.Files.{Answer, Log}
use so.BufWriter
use so.BufWriter.{BufWriter, BwOutcome}
use so.Client.{
  Command, list_running_tasks, list_finished_tasks, Status, success, failure, write_cmd,
}
use so.Client.Options.{Setup, unset_writer, at_exit}

-- What `read` gives, one call after another: -1, or the bytes that it puts into `line_buf`, none at
-- the end of the fifo.
abbrev pub Readings : Type 0
Readings = List (Option (List ℕ))

-- The calls `write(STDOUT_FILENO, line_buf, n)`: what the read put into `line_buf`, and `n` as a
-- `size_t`.
abbrev pub Output : Type 0
Output = List (List ℕ × ℕ)

-- How a loop stops: in a call of `read` for which the list has no answer, at the `break`, or with the
-- return of EXIT_FAILURE.
pub data Stop : Type 0 where
  waits breaks returns_failure : Stop

abbrev pub writing : List ℕ → ℕ → Stop × Output → Stop × Output
writing bytes n (stop, out) = (stop, (bytes, n) ∷ out)

-- The loop over the running tasks, the same for an option and for a line.
unfoldable pub copy_running : Readings → Stop × Output
copy_running [] = (waits, [])
copy_running (none ∷ readings) = (returns_failure, [])
copy_running (some [] ∷ readings) = (breaks, [])
copy_running (some (c ∷ bytes) ∷ readings) =
    writing (c ∷ bytes) (length (c ∷ bytes)) (copy_running readings)

-- The loop over the finished tasks for a line: a read that fails goes on with -1 as the number of
-- bytes.
unfoldable pub copy_finished_i : Readings → Stop × Output
copy_finished_i [] = (waits, [])
copy_finished_i (none ∷ readings) = writing [] (size_mod - 1) (copy_finished_i readings)
copy_finished_i (some [] ∷ readings) = (breaks, [])
copy_finished_i (some (c ∷ bytes) ∷ readings) =
    writing (c ∷ bytes) (length (c ∷ bytes)) (copy_finished_i readings)

-- The loop over the finished tasks for an option.
unfoldable pub copy_finished : Readings → Stop × Output
copy_finished [] = (waits, [])
copy_finished (none ∷ readings) = writing [] (size_mod - 1) (copy_finished readings)
copy_finished (some bytes ∷ readings) = (breaks, [])

-- How a client stops, if it does, what went to the descriptors of the writer, and the output.
abbrev pub Listing : Type 0
Listing = Exec (Option Status × Log × Output)

unfoldable pub exit_with : Answer → Status → BufWriter → Log → Output → Listing
unfolding at_exit
exit_with ans result w log out =
    at_exit ans (result, w, log) >>= λ (result', log'). done (some result', log', out)

unfoldable pub after_copy : Answer → BufWriter → Log → Stop × Output → Listing
unfolding exit_with
after_copy ans w log (waits, out) = done (none, log, out)
after_copy ans w log (breaks, out) = exit_with ans success w log out
after_copy ans w log (returns_failure, out) = exit_with ans failure w log out

-- The command is written, the fifo of the listing opened, and copied.
unfoldable pub list_with : (Readings → Stop × Output) → Setup → Bool → Readings → Command → Listing
unfolding exit_with after_copy
list_with copy setup fifo_opens readings cmd = elim setup.opened [
  | none ↦ done (some failure, [], [])
  | some fd ↦
      let (outcome, w) = BufWriter.with_default_cap setup.grant unset_writer fd in
      elim outcome [
        | BwOutcome.ok ↦ write_cmd setup.answers w cmd [] [] >>= λ (result, w', log). elim result [
          | failure ↦ exit_with (setup.answers 3) failure w' log []
          | success ↦
              if fifo_opens
              then after_copy (setup.answers 3) w' log (copy readings)
              else exit_with (setup.answers 3) failure w' log []
        ]
        | _ ↦ done (some failure, [], [])
      ]
]

-- The cases LIST_RUNNING_TASKS_FLAG and LIST_FINISHED_TASKS_FLAG.
unfoldable pub list_running_option : Setup → Bool → Readings → Listing
unfolding list_with
list_running_option setup fifo_opens readings =
    list_with copy_running setup fifo_opens readings list_running_tasks

unfoldable pub list_finished_option : Setup → Bool → Readings → Listing
unfolding list_with
list_finished_option setup fifo_opens readings =
    list_with copy_finished setup fifo_opens readings list_finished_tasks
