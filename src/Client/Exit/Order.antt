-- ===== src/Client/Exit/Order.antt =====
-- What the functions that the client runs at exit do to its writer and to its descriptors
-- (src/client.c).
use so.Base.{
  ℕ, ◌≤◌, ◌≡◌, refl, sym, ap, ◌∙◌, ◌≢◌, true, false, none, some, List, [], ◌∷◌, ◌++◌, append_assoc,
  append-nil, if◌then◌else◌, All, Ensures-bind, Ensures-mono, Exec, done, fault, ◌>>=◌, Ensures,
}
use so.Base.Cells.{freed}
use so.Files.{Log, sent}
use so.BufWriter
use so.BufWriter.{BufWriter, BwOutcome}
use so.BufWriter.Valid.{IsValid, stream}
use so.BufWriter.Flush.{drop_lem}
use so.BufWriter.Messages.{bw_outcome_msg, bw_outcome_msg-Fits}
use so.ComfyIo.{Stderr}
use so.Client.{Status}
use so.Client.Session.{Opening}
use so.Client.Options.{at_exit}
use so.Client.Exit.{
  Handler, close_commands_fifo, close_running_tasks_fifo, close_finished_tasks_fifo,
  drop_commands_writer, FifoDescriptors, Exit, Closing, is_among, complain, close_fifo, complain_of,
  drop_writer, run_handler, run_all, registered,
}

-- The descriptors that functions close, in their order.
abbrev pub closings : FifoDescriptors → List Handler → List ℕ
closings fds [] = []
closings fds (close_commands_fifo ∷ handlers) = fds.commands_fd ∷ closings fds handlers
closings fds (close_running_tasks_fifo ∷ handlers) = fds.running_tasks_fd ∷ closings fds handlers
closings fds (close_finished_tasks_fifo ∷ handlers) = fds.finished_tasks_fd ∷ closings fds handlers
closings fds (drop_commands_writer ∷ handlers) = closings fds handlers

-- The standard error behind functions that close.
abbrev pub complaints : Closing → List Handler → Stderr → Stderr
complaints closing [] err = err
complaints closing (handler ∷ handlers) err = complaints closing handlers (
    if closing.closes handler
    then err
    else complain handler (closing.strerror (closing.errno handler)) err)

-- A function that closes a fifo.
abbrev pub Closes : Handler → Type 0
Closes handler = handler ≢ drop_commands_writer

run_all-append :
    (closing : Closing) (fds : FifoDescriptors) (xs ys : List Handler) (s : Exit)
    → run_all closing fds (xs ++ ys) s ≡ run_all closing fds xs s >>= run_all closing fds ys
unfolding run_all
run_all-append closing fds [] ys s = refl
run_all-append closing fds (h ∷ xs) ys s =
    later (run_handler closing fds h s) (run_all-append closing fds xs ys)
  where
    later :
        (m : Exec Exit)
        → ((s' : Exit)
            → run_all closing fds (xs ++ ys) s'
              ≡ run_all closing fds xs s' >>= run_all closing fds ys)
        → (m >>= run_all closing fds (xs ++ ys))
          ≡ ((m >>= run_all closing fds xs) >>= run_all closing fds ys)
    later fault same = refl
    later (done s') same = same s'

-- Functions that close leave the writer and the log, and close their descriptors in their order.
abbrev pub ClosedBy : Closing → FifoDescriptors → List Handler → Exit → Exit → Type 0
ClosedBy closing fds handlers s s' =
    (s'.commands_writter ≡ s.commands_writter)
    × (s'.log ≡ s.log)
    × (s'.closed ≡ s.closed ++ closings fds handlers)
    × (s'.stderr ≡ complaints closing handlers s.stderr)

run_all-Closes :
    (closing : Closing) (fds : FifoDescriptors) (handlers : List Handler) (s : Exit)
    → All Closes handlers
    → Ensures (run_all closing fds handlers s) (ClosedBy closing fds handlers s)
unfolding run_all run_handler close_fifo
run_all-Closes closing fds [] s only = (refl, refl, sym (append-nil s.closed), refl)
run_all-Closes closing fds (close_commands_fifo ∷ handlers) s (_, only) =
    Ensures-mono _ _ (run_all closing fds handlers _) (run_all-Closes closing fds handlers _ only)
      λ s' (w, l, c, e).
        (w, l, c ∙ append_assoc s.closed (fds.commands_fd ∷ []) (closings fds handlers), e)
run_all-Closes closing fds (close_running_tasks_fifo ∷ handlers) s (_, only) =
    Ensures-mono _ _ (run_all closing fds handlers _) (run_all-Closes closing fds handlers _ only)
      λ s' (w, l, c, e).
        (w, l, c ∙ append_assoc s.closed (fds.running_tasks_fd ∷ []) (closings fds handlers), e)
run_all-Closes closing fds (close_finished_tasks_fifo ∷ handlers) s (_, only) =
    Ensures-mono _ _ (run_all closing fds handlers _) (run_all-Closes closing fds handlers _ only)
      λ s' (w, l, c, e).
        (w, l, c ∙ append_assoc s.closed (fds.finished_tasks_fd ∷ []) (closings fds handlers), e)
run_all-Closes closing fds (drop_commands_writer ∷ handlers) s (other, only) = absurd (other refl)

-- The end of a writer whose descriptor is open.
abbrev pub Emptied : Exit → Exit → Type 0
Emptied s s' =
    (sent s.commands_writter.file_des s'.log ≡ stream s.commands_writter s.log)
    × (s'.commands_writter ≡ record s.commands_writter { buf = freed; pos = 0 })

-- Neither the descriptors nor the standard error.
abbrev pub Aside : Exit → Exit → Type 0
Aside s s' = (s'.closed ≡ s.closed) × (s'.stderr ≡ s.stderr)

drop_writer_lem :
    (closing : Closing) (s : Exit) (k : ℕ)
    → IsValid s.commands_writter
    → closing.answer ≡ some k
    → s.commands_writter.cap ≤ k
    → is_among s.commands_writter.file_des s.closed ≡ false
    → Ensures (drop_writer closing s) (λ s'. Emptied s s' × Aside s s')
unfolding drop_writer
drop_writer_lem closing s k valid takes room still =
    let w = s.commands_writter in
    rw (still, takes)
      (Ensures-bind _ (λ s'. Emptied s s' × Aside s s') (BufWriter.drop (some k) w s.log) _
        (drop_lem k w s.log valid room)
        λ (o, w', log) (well, ended, out). rw well ((out, ended), (refl, refl)))

-- Functions that close, the end of the writer, and functions that close.
pub exit_lem :
    (closing : Closing) (fds : FifoDescriptors) (before after : List Handler) (s : Exit) (k : ℕ)
    → All Closes before
    → All Closes after
    → IsValid s.commands_writter
    → closing.answer ≡ some k
    → s.commands_writter.cap ≤ k
    → is_among s.commands_writter.file_des (s.closed ++ closings fds before) ≡ false
    → Ensures (run_all closing fds (before ++ drop_commands_writer ∷ after) s) (λ s'.
      Emptied s s'
      × (s'.closed ≡ (s.closed ++ closings fds before) ++ closings fds after)
      × (s'.stderr ≡ complaints closing after (complaints closing before s.stderr)))
unfolding run_all run_handler
exit_lem closing fds before after s k only only' valid takes room still =
    rw (run_all-append closing fds before (drop_commands_writer ∷ after) s) (
      Ensures-bind (ClosedBy closing fds before s) _ (run_all closing fds before s) _
        (run_all-Closes closing fds before s only)
        λ s₁ (same_w, same_log, closed, said).
          Ensures-bind (λ s₂. Emptied s₁ s₂ × Aside s₁ s₂) _ (drop_writer closing s₁)
            (run_all closing fds after)
            (drop_writer_lem closing s₁ k (rw same_w valid) takes (rw same_w room)
              (rw (same_w, closed) still))
            λ s₂ ((out, ended), (closed', said')).
              Ensures-mono (ClosedBy closing fds after s₂) _ (run_all closing fds after s₂)
                (run_all-Closes closing fds after s₂ only')
                λ s' (w', log', closed'', said''). (
                  (
                    rw (log', ← same_w, ← same_log) out,
                    w' ∙ ended ∙ ap {A = BufWriter} (λ w. record w { buf = freed; pos = 0 }) same_w,
                  ),
                  closed'' ∙ ap (λ l. l ++ closings fds after) (closed' ∙ closed),
                  said'' ∙ ap (complaints closing after) (said' ∙ said),
                ))

-- When the interactive client opened its fifos, its writer is valid, its last call that writes
-- takes all bytes, and no descriptor was closed yet, then the functions that it gave to atexit
-- before its loop have no memory error, whatever the closes answer: the bytes of the writer reach
-- its descriptor and its buffer is given back, the three fifos are closed, the last that was
-- opened first, and the standard error gets the messages of just the closes that fail, in this
-- order.
pub exit-registered :
    (closing : Closing) (fds : FifoDescriptors) (opening : Opening) (s : Exit) (fd k : ℕ)
    (junk : ℕ → ℕ)
    → opening.commands_opened ≡ some fd
    → opening.running_opens ≡ true
    → opening.finished_opens ≡ true
    → opening.grant ≡ some junk
    → IsValid s.commands_writter
    → closing.answer ≡ some k
    → s.commands_writter.cap ≤ k
    → s.closed ≡ []
    → Ensures (run_all closing fds (registered opening) s) (λ s'.
      Emptied s s'
      × (s'.closed ≡ fds.finished_tasks_fd ∷ fds.running_tasks_fd ∷ fds.commands_fd ∷ [])
      × (s'.stderr
          ≡ complaints closing
              (close_finished_tasks_fifo ∷ close_running_tasks_fifo ∷ close_commands_fifo ∷ [])
              s.stderr))
unfolding registered is_among
exit-registered closing fds opening s fd k junk opens runs finishes grants valid takes room fresh =
    let after = close_finished_tasks_fifo ∷ close_running_tasks_fifo ∷ close_commands_fifo ∷ [] in
    rw (opens, runs, finishes, grants)
      (Ensures-mono _ _ (run_all closing fds (drop_commands_writer ∷ after) s)
        (exit_lem closing fds [] after s k tt
          ((λ e. absurd (cc)), ((λ e. absurd (cc)), ((λ e. absurd (cc)), tt))) valid takes room
          (rw fresh refl))
        λ s' (emptied, closed, said). (emptied, closed ∙ rw fresh refl, said))

abbrev pub report : Status → Exit → Exec (Status × Log)
report result s = done (result, s.log)

abbrev report_log : Status → BufWriter.Result → Exec (Status × Log)
report_log result (_, _, log) = done (result, log)

logged :
    (m : Exec Exit) (log : Log) (result : Status) (P : Exit → Type 0)
    → Ensures m P
    → ((s : Exit) → P s → s.log ≡ log)
    → (m >>= report result) ≡ done (result, log)
logged fault log result P h same = absurd h
logged (done s) log result P h same = ap (λ l. done (result, l)) (same s h)

printed :
    (closing : Closing) (n : ℕ) (err : Stderr)
    → (err' : Stderr) × (elim (bw_outcome_msg closing.strerror n
          (some (closing.errno drop_commands_writer))) [
            | none ↦ fault
            | some text ↦ done (complain drop_commands_writer text err)
          ]
        ≡ done err')
printed closing n err =
    let (text, e, _) =
      bw_outcome_msg-Fits closing.strerror n (some (closing.errno drop_commands_writer)) in
    (complain drop_commands_writer text err, rw e refl)

-- The message of an outcome can be printed.
complain_done :
    (closing : Closing) (outcome : BwOutcome) (err : Stderr)
    → (err' : Stderr) × (complain_of closing outcome err ≡ done err')
complain_done closing BwOutcome.ok err = (err, refl)
complain_done closing BwOutcome.err_alloc_fail err = printed closing 1 err
complain_done closing BwOutcome.err_write_fail err = printed closing 2 err
complain_done closing BwOutcome.err_close_fail err = printed closing 3 err

-- When the end of the writer comes first, the functions write what it writes, and have its memory
-- errors.
pub exit-at_exit :
    (closing : Closing) (fds : FifoDescriptors) (after : List Handler) (s : Exit) (result : Status)
    → All Closes after
    → is_among s.commands_writter.file_des s.closed ≡ false
    → (run_all closing fds (drop_commands_writer ∷ after) s >>= report result)
      ≡ at_exit closing.answer (result, s.commands_writter, s.log)
unfolding run_all run_handler drop_writer at_exit
exit-at_exit closing fds after s result only still = rw still (
    by_drop (BufWriter.drop closing.answer s.commands_writter s.log) λ s₂.
      logged (run_all closing fds after s₂) s₂.log result (ClosedBy closing fds after s₂)
        (run_all-Closes closing fds after s₂ only) λ s' (_, same, _, _). same)
  where
    behind : BufWriter.Result → Exec Exit
    behind (outcome, w', log) = complain_of closing outcome s.stderr >>= λ err.
        done (record s { commands_writter = w'; log = log; stderr = err })

    by_drop :
        (m : Exec BufWriter.Result)
        → ((s₂ : Exit) → (run_all closing fds after s₂ >>= report result) ≡ done (result, s₂.log))
        → (((m >>= behind) >>= run_all closing fds after) >>= report result)
          ≡ (m >>= report_log result)
    by_drop fault rest = refl
    by_drop (done (outcome, w', log)) rest =
        let (err, said) = complain_done closing outcome s.stderr in
        rw said (rest (record s { commands_writter = w'; log = log; stderr = err }))
