-- ===== src/Client/Ends.antt =====
-- The interactive client comes to the end of its input (src/client.c).
use so.Base.{
  ℕ, ◌+◌, ◌≤◌, ◌≡◌, refl, ap, ◌∙◌, true, none, some, List, [], ◌∷◌, ◌++◌, arith, All, Ensures-bind,
  Ensures-mono, done, Ensures,
}
use so.Base.Cells.{block, fill}
use so.Files.{Log}
use so.BufWriter
use so.BufWriter.{BufWriter, default_cap, with_default_cap, with_cap}
use so.BufWriter.Valid.{IsValid, Follows, Follows-self, Follows-trans}
use so.BufWriter.Flush.{drop_lem}
use so.Client.{
  Command, exec_task, end_task, set_active_timeout, set_inactive_timeout, list_running_tasks,
  list_finished_tasks, help, success,
}
use so.Client.Options.{at_exit}
use so.Client.Lines.{Next, reads_on, ends, copies, on_line}
use so.Client.Copy.{Readings, Output, breaks, copy_running, copy_finished_i}
use so.Client.Session.{Turn, Stopped, copy_for, after_copies, loop, Opening, leave, interactive}
use so.Client.Send.{fresh}
use so.Client.GoesOn.{Takes, GoesOn, on_line-GoesOn}

-- The reads give texts, and then the end of the fifo.
abbrev pub ReachesEnd : Readings → Type 0
ReachesEnd [] = ⊥
ReachesEnd (none ∷ readings) = ⊥
ReachesEnd (some [] ∷ readings) = Unit {0}
ReachesEnd (some (c ∷ bytes) ∷ readings) = ReachesEnd readings

-- A round in which a line is read, the calls that write take all bytes, and the fifo of a listing
-- comes to its end.
pub record IsServed (turn : Turn) : Type 0 where
  pub has_line : (c : ℕ) × (s : List ℕ) × (turn.line ≡ some (c ∷ s))
  pub takes : (i : ℕ) → Takes (default_cap + 2) (turn.answers i)
  pub reaches_end : ReachesEnd turn.readings

copy_running-breaks :
    (readings : Readings) → ReachesEnd readings → (copy_running readings).0 ≡ breaks
unfolding copy_running
copy_running-breaks [] h = absurd h
copy_running-breaks (none ∷ readings) h = absurd h
copy_running-breaks (some [] ∷ readings) h = refl
copy_running-breaks (some (c ∷ bytes) ∷ readings) h = copy_running-breaks readings h

copy_finished_i-breaks :
    (readings : Readings) → ReachesEnd readings → (copy_finished_i readings).0 ≡ breaks
unfolding copy_finished_i
copy_finished_i-breaks [] h = absurd h
copy_finished_i-breaks (none ∷ readings) h = absurd h
copy_finished_i-breaks (some [] ∷ readings) h = refl
copy_finished_i-breaks (some (c ∷ bytes) ∷ readings) h = copy_finished_i-breaks readings h

copy_for-breaks :
    (cmd : Command) (readings : Readings) → ReachesEnd readings → (copy_for cmd readings).0 ≡ breaks
unfolding copy_for
copy_for-breaks list_running_tasks readings h = copy_running-breaks readings h
copy_for-breaks list_finished_tasks readings h = copy_finished_i-breaks readings h
copy_for-breaks exec_task readings h = refl
copy_for-breaks end_task readings h = refl
copy_for-breaks set_active_timeout readings h = refl
copy_for-breaks set_inactive_timeout readings h = refl
copy_for-breaks help readings h = refl

-- The loop returned EXIT_SUCCESS.
abbrev Ended : BufWriter → Stopped → Type 0
Ended w (r, w', _, _) = (r ≡ some success) × Follows w w'

loop-Ended :
    (line_addr : ℕ) (turns : List Turn) (last : Turn) (w : BufWriter) (log : Log) (out : Output)
    → All IsServed turns
    → last.line ≡ some []
    → IsValid w
    → w.cap ≡ default_cap
    → Ensures (loop line_addr (turns ++ last ∷ []) w log out) (Ended w)
unfolding loop on_line
loop-Ended line_addr [] last w log out served over valid at_cap = rw over (refl, Follows-self valid)
loop-Ended line_addr (turn ∷ turns) last w log out (first, served) over valid at_cap =
    let (c, s, read) = first.has_line in
    rw read (
      Ensures-bind (λ (next, w', _). GoesOn next × Follows w w') _
        (on_line line_addr turn.answers w (c ∷ s) log) _
        (on_line-GoesOn turn.answers w log first.takes valid at_cap c s line_addr)
        (go_on (λ w' log' out' f.
          Ensures-mono (Ended w') (Ended w) (loop line_addr (turns ++ last ∷ []) w' log' out')
            (loop-Ended line_addr turns last w' log' out' served over f.valid (f.same_cap ∙ at_cap))
            λ r (fine, g). (fine, Follows-trans f g))))
  where
    go_on :
        ((w' : BufWriter) (log' : Log) (out' : Output)
          → Follows w w'
          → Ensures (loop line_addr (turns ++ last ∷ []) w' log' out') (Ended w))
        → (r : Next × BufWriter × Log) → GoesOn r.0 × Follows w r.1
        → Ensures
            (elim r.0 [
              | reads_on ↦ loop line_addr (turns ++ last ∷ []) r.1 r.2 out
              | ends status ↦ done (some status, r.1, r.2, out)
              | copies cmd ↦
                  let (stop, more) = copy_for cmd turn.readings in
                  let rest = loop line_addr (turns ++ last ∷ []) r.1 r.2 (out ++ more) in
                  after_copies r.1 r.2 (out ++ more) stop rest
            ])
            (Ended w)
    go_on rest (reads_on, w', log') (on, f) = rest w' log' out f
    go_on rest (ends status, w', log') (on, f) = absurd on
    go_on rest (copies cmd, w', log') (on, f) =
        rw (copy_for-breaks cmd turn.readings first.reaches_end)
          (rest w' log' (out ++ (copy_for cmd turn.readings).1) f)

-- When the fifos open and the writer has its storage, the calls that write take all bytes, and the
-- fifo of a listing comes to its end in each round, the interactive client deals with every line
-- that it reads, whatever it is, has no memory error, and returns EXIT_SUCCESS at the end of its
-- input.
pub interactive-Ended :
    (line_addr : ℕ) (opening : Opening) (turns : List Turn) (last : Turn) (fd k : ℕ) (junk : ℕ → ℕ)
    → opening.commands_opened ≡ some fd
    → opening.running_opens ≡ true
    → opening.finished_opens ≡ true
    → opening.grant ≡ some junk
    → opening.last_answer ≡ some k
    → default_cap ≤ k
    → All IsServed turns
    → last.line ≡ some []
    → Ensures
        (interactive line_addr opening (turns ++ last ∷ []))
        (λ (result, _, _). result ≡ some success)
unfolding interactive leave at_exit with_default_cap with_cap
interactive-Ended line_addr opening turns last fd k junk opens runs finishes grants takes room
      served over =
    let w : BufWriter = record {
      file_des = fd;
      buf = block (fill default_cap junk);
      pos = 0;
      cap = default_cap;
    } in
    rw (opens, runs, finishes, grants, with_default_cap, with_cap, grants, takes)
      (Ensures-bind (Ended w) _ (loop line_addr (turns ++ last ∷ []) w [] []) _
        (loop-Ended line_addr turns last w [] [] served over (fresh fd junk) refl)
        λ (r, w', log, out) (fine, f). rw fine (
          Ensures-bind (λ (status, _). status ≡ success) _ (at_exit (some k) (success, w', log)) _
            (Ensures-bind _ _ (BufWriter.drop (some k) w' log) _
              (drop_lem k w' log f.valid (omega (arith, f.same_cap))) λ r h. refl)
            λ (status, log') e. ap some e))
