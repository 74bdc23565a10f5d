-- ===== src/Server/Leaves.antt =====
-- What the server leaves at exit (src/server.c).
use mathlib.Core.Path.{subst}
use so.Base.{
  ℕ, ◌≤◌, ◌≡◌, refl, sym, ap, ◌∙◌, some, List, [], ◌∷◌, arith, length, All, Allows, Ensures-and,
  Ensures-bind, Ensures-mono, Exec, done, fault, Ensures,
}
use so.Base.Cells.{Buf, null, block, freed, free}
use so.Files.{Answer}
use so.TaskVec
use so.TaskVec.{Task, TaskVec}
use so.BufWriter
use so.BufWriter.{BufWriter, default_cap}
use so.BufWriter.Flush.{drop_lem}
use so.Server.{Server, Place, Round, run, Ending}
use so.Server.Start.{Setup, start}
use so.Server.Begin.{start-Begins}
use so.Server.Invariant.{WriterReady}
use so.Server.Dispatch.{IsSane, IsUntested}
use so.Server.Loop.{run-start-IsServer}
use so.Server.Signals.{Keeps, Keeps-run}
use so.TaskVec.Ready.{task_limit}
use so.Server.Exit.{
  Descriptors, drop_task_vecs, drop_finished_tasks_writer, drop_running_tasks_writer, at_exit,
}

-- Both writers are at their end, the arrays of `main` have their blocks still, and those of the
-- file have the given ones.
abbrev pub Left : Server → Buf Task → Buf Task → Server → Type 0
Left s b c t =
    (t.running ≡ s.running)
    × (t.finished ≡ s.finished)
    × (t.running_writer ≡ record s.running_writer { buf = freed; pos = 0 })
    × (t.finished_writer ≡ record s.finished_writer { buf = freed; pos = 0 })
    × (t.file_running ≡ record s.file_running { buf = b })
    × (t.file_finished ≡ record s.file_finished { buf = c })

-- The fifos are closed, that of the finished tasks first.
abbrev pub closed_by : Descriptors → List ℕ
closed_by fds = fds.finished_tasks_fd ∷ fds.running_tasks_fd ∷ fds.commands_fd ∷ []

abbrev ended : BufWriter → BufWriter
ended w = record w { buf = freed; pos = 0 }

at_exit-Left :
    (answers : ℕ → Answer) (fds : Descriptors) (s : Server) (b c : Buf Task) (k k' : ℕ)
    → WriterReady s.running_writer
    → WriterReady s.finished_writer
    → free s.file_running.buf ≡ done b
    → free s.file_finished.buf ≡ done c
    → answers 0 ≡ some k
    → answers 1 ≡ some k'
    → default_cap ≤ k
    → default_cap ≤ k'
    → Ensures (at_exit answers fds s) (λ (t, closed). Left s b c t × (closed ≡ closed_by fds))
unfolding at_exit drop_task_vecs drop_finished_tasks_writer drop_running_tasks_writer TaskVec.drop
at_exit-Left answers fds s b c k k' r f frees frees' takes takes' room room' =
    rw (frees, frees', takes, takes')
      (Ensures-bind
        (λ t.
          (t.running ≡ s.running)
          × (t.finished ≡ s.finished)
          × (t.running_writer ≡ s.running_writer)
          × (t.finished_writer ≡ record s.finished_writer { buf = freed; pos = 0 })
          × (t.file_running ≡ record s.file_running { buf = b })
          × (t.file_finished ≡ record s.file_finished { buf = c }))
        _
        (drop_finished_tasks_writer (some k) (record s {
          file_running = record s.file_running { buf = b };
          file_finished = record s.file_finished { buf = c };
        }))
        _
        (Ensures-bind _ _ (BufWriter.drop (some k) s.finished_writer s.log) _
          (drop_lem k s.finished_writer s.log f.valid (omega (arith, f.whole_cap)))
          λ (o, w, log) (_, e, _). (refl, refl, refl, e, refl, refl))
        λ t (same_r, same_f, same_w, e, gone_r, gone_f).
          let w_ready : WriterReady t.running_writer = subst WriterReady (sym same_w) r in
          Ensures-bind
            (λ u.
              (u.running ≡ t.running)
              × (u.finished ≡ t.finished)
              × (u.finished_writer ≡ t.finished_writer)
              × (u.running_writer ≡ record t.running_writer { buf = freed; pos = 0 })
              × (u.file_running ≡ t.file_running)
              × (u.file_finished ≡ t.file_finished))
            _ (drop_running_tasks_writer (some k') t) _
            (Ensures-bind _ _ (BufWriter.drop (some k') t.running_writer t.log) _
              (drop_lem k' t.running_writer t.log w_ready.valid (omega (arith, w_ready.whole_cap)))
              λ (o, w, log) (_, e', _). (refl, refl, refl, e', refl, refl))
            λ u (a, b, c, d, g, h).
              ((a ∙ same_r, b ∙ same_f, d ∙ ap ended same_w, c ∙ e, g ∙ gone_r, h ∙ gone_f), refl))

unset-Keeps :
    (s : Server) (m : Exec (Ending × Server))
    → Keeps s m
    → Allows m
        (λ (how, s'). (s'.file_running ≡ s.file_running) × (s'.file_finished ≡ s.file_finished))
unset-Keeps s (done r) h = h
unset-Keeps s fault h = tt

free_null : {b : Buf Task} → b ≡ null → free b ≡ done null
unfolding free
free_null e = rw e refl

free_block : {b : Buf Task} {xs : List Task} → b ≡ block xs → free b ≡ done freed
unfolding free
free_block e = rw e refl

-- Whatever rounds the server took from the start of main, under the conditions of its invariant,
-- when the last calls that write take all bytes: what it runs at exit has no memory error, closes
-- the fifos of the finished tasks, of the running tasks and of the commands, in this order, and
-- gives back the buffers of both writers; but the two arrays of main are left as they are, their
-- blocks not given back, while those of the file have no blocks to give back; and if the arrays of
-- the file had blocks, just these would be given back.
pub run-at_exit :
    (setup : Setup) (place : Place) (rounds : List Round) (s : Server) (answers : ℕ → Answer)
    (fds : Descriptors) (k k' : ℕ) (v u : TaskVec) (xs ys : List Task)
    → start setup ≡ some s
    → All IsSane rounds
    → All IsUntested rounds
    → length rounds ≤ task_limit
    → answers 0 ≡ some k
    → answers 1 ≡ some k'
    → default_cap ≤ k
    → default_cap ≤ k'
    → v.buf ≡ block xs
    → u.buf ≡ block ys
    → Ensures (run place rounds s) (λ (how, s').
      Ensures
        (at_exit answers fds s')
        (λ (t, closed). Left s' null null t × (closed ≡ closed_by fds))
      × Ensures
          (at_exit answers fds (record s' { file_running = v; file_finished = u }))
          (λ (t, closed).
            Left (record s' { file_running = v; file_finished = u }) freed freed t
            × (closed ≡ closed_by fds)))
run-at_exit setup place rounds s answers fds k k' v u xs ys starts sane untested small takes takes'
      room room' held held' =
    let b = start-Begins setup s starts in
    Ensures-mono _ _ (run place rounds s)
      (Ensures-and _ _ (run place rounds s)
        (run-start-IsServer setup place rounds s starts sane untested small)
        (unset-Keeps s (run place rounds s) (Keeps-run place rounds s)))
      λ (how, s') (h, (same_r, same_f)). (
        at_exit-Left answers fds s' null null k k' h.running_writer_ready h.finished_writer_ready
            (free_null (ap (λ v. v.buf) same_r ∙ b.none_running_there))
            (free_null (ap (λ v. v.buf) same_f ∙ b.none_finished_there)) takes takes' room room',
        at_exit-Left answers fds (record s' { file_running = v; file_finished = u }) freed freed k
            k' h.running_writer_ready h.finished_writer_ready (free_block held) (free_block held')
            takes takes' room room',
      )
