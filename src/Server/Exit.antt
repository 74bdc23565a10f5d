-- ===== src/Server/Exit.antt =====
-- The functions that the server runs at exit (src/server.c).
use so.Base.{ℕ, List, [], ◌∷◌, Exec, done, ◌>>=◌}
use so.Files.{Answer}
use so.TaskVec
use so.TaskVec.{TaskVec}
use so.BufWriter
use so.BufWriter.{BufWriter}
use so.Server.{Server}

-- The variables of the file that hold the descriptors of the fifos, as the start leaves them.
pub record Descriptors : Type 0 where
  pub commands_fd : ℕ
  pub running_tasks_fd : ℕ
  pub finished_tasks_fd : ℕ

-- The arrays are those of the file.
unfoldable pub drop_task_vecs : Server → Exec Server
drop_task_vecs s = TaskVec.drop s.file_running >>= λ v.
    TaskVec.drop s.file_finished >>= λ u. done (record s { file_running = v; file_finished = u })

unfoldable pub drop_finished_tasks_writer : Answer → Server → Exec Server
drop_finished_tasks_writer ans s = BufWriter.drop ans s.finished_writer s.log >>= λ (_, w, log).
    done (record s { finished_writer = w; log = log })

unfoldable pub drop_running_tasks_writer : Answer → Server → Exec Server
drop_running_tasks_writer ans s = BufWriter.drop ans s.running_writer s.log >>= λ (_, w, log).
    done (record s { running_writer = w; log = log })

-- All functions that `main` gives to `atexit`, the last first: the server behind them, and the
-- descriptors that were closed.
unfoldable pub at_exit : (ℕ → Answer) → Descriptors → Server → Exec (Server × List ℕ)
unfolding drop_task_vecs drop_finished_tasks_writer drop_running_tasks_writer
at_exit answers fds s = do
  s₁ ← drop_task_vecs s
  s₂ ← drop_finished_tasks_writer (answers 0) s₁
  s₃ ← drop_running_tasks_writer (answers 1) s₂
  done (s₃, fds.finished_tasks_fd ∷ fds.running_tasks_fd ∷ fds.commands_fd ∷ [])
