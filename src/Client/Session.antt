-- ===== src/Client/Session.antt =====
-- The interactive client (`main` of src/client.c without an argument): the loop over the lines, with
-- the copying of the fifos, from the opening of the fifos to the end of the writer.
use so.Base.{
  ℕ, Bool, ◌&&◌, Option, none, some, List, [], ◌∷◌, ◌++◌, if◌then◌else◌, Exec, done, ◌>>=◌,
}
use so.Base.Cells.{Grant}
use so.Files.{Answer, Log}
use so.BufWriter
use so.BufWriter.{BufWriter, BwOutcome}
use so.Client.{Command, list_running_tasks, list_finished_tasks, Status, failure}
use so.Client.Options.{unset_writer, at_exit}
use so.Client.Lines.{reads_on, ends, copies, on_line}
use so.Client.Copy.{
  Readings, Output, Stop, waits, breaks, returns_failure, copy_running, copy_finished_i,
}

-- What the system answers in a round: what `read` gives for the standard input, -1 or the bytes of a
-- line, the answers to the calls that write to the fifo of the commands, and what the fifo of a
-- listing gives.
pub record Turn : Type 0 where
  pub line : Option (List ℕ)
  pub answers : ℕ → Answer
  pub readings : Readings

-- How the client stops; `none` is the wait for a `read` that has no answer yet.
abbrev pub Stopped : Type 0
Stopped = Option Status × BufWriter × Log × Output

-- Only the two listings have a loop that copies.
unfoldable pub copy_for : Command → Readings → Stop × Output
copy_for list_running_tasks readings = copy_running readings
copy_for list_finished_tasks readings = copy_finished_i readings
copy_for _ readings = (breaks, [])

abbrev pub after_copies : BufWriter → Log → Output → Stop → Exec Stopped → Exec Stopped
after_copies w log out waits rest = done (none, w, log, out)
after_copies w log out breaks rest = rest
after_copies w log out returns_failure rest = done (some failure, w, log, out)

-- The loop; `line_addr` is the address of the line buffer.
unfoldable pub loop : ℕ → List Turn → BufWriter → Log → Output → Exec Stopped
unfolding copy_for
loop line_addr [] w log out = done (none, w, log, out)
loop line_addr (turn ∷ turns) w log out = elim turn.line [
  | none ↦ done (some failure, w, log, out)
  | some line ↦ on_line line_addr turn.answers w line log >>= λ (next, w', log'). elim next [
    | reads_on ↦ loop line_addr turns w' log' out
    | ends status ↦ done (some status, w', log', out)
    | copies cmd ↦
        let (stop, more) = copy_for cmd turn.readings in
        let rest = loop line_addr turns w' log' (out ++ more) in
        after_copies w' log' (out ++ more) stop rest
  ]
]

-- What the system answers before the loop: what `open` returns for the fifo of the commands, whether
-- the fifos of the listings open, and the storage for the writer; and at exit.
pub record Opening : Type 0 where
  pub commands_opened : Option ℕ
  pub running_opens : Bool
  pub finished_opens : Bool
  pub grant : Grant ℕ
  pub last_answer : Answer

-- A client that stops ends its writer; one that waits does not.
unfoldable pub leave : Answer → Stopped → Exec (Option Status × Log × Output)
unfolding at_exit
leave ans (none, w, log, out) = done (none, log, out)
leave ans (some status, w, log, out) =
    at_exit ans (status, w, log) >>= λ (status', log'). done (some status', log', out)

unfoldable pub interactive : ℕ → Opening → List Turn → Exec (Option Status × Log × Output)
unfolding loop leave
interactive line_addr opening turns = elim opening.commands_opened [
  | none ↦ done (some failure, [], [])
  | some fd ↦
      if opening.running_opens && opening.finished_opens
      then (let (outcome, w) = BufWriter.with_default_cap opening.grant unset_writer fd in
          elim outcome [
            | BwOutcome.ok ↦ loop line_addr turns w [] [] >>= leave opening.last_answer
            | _ ↦ done (some failure, [], [])
          ])
      else done (some failure, [], [])
]
