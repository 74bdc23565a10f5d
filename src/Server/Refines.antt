-- ===== src/Server/Refines.antt =====
-- Each round of the server's loop does to its ledger what it is told (src/server.c).
use so.Base.{
  ℕ, ◌<◌, refl, ap, ◌∙◌, inl, inr, List, [], ◌∷◌, arith, ◌==◌, Bool-cases, if◌then◌else◌, drop,
  length, Allows, Allows-after, Ensures-Allows,
}
use so.Conf.{exec_task_flag, end_task_flag, list_running_tasks_flag, list_finished_tasks_flag}
use so.TaskVec.Valid as Vec
use so.TaskVec.Ready.{task_limit}
use so.Server.{
  Server, Place, Round, Reading, read_failed, read_line, Forking, fork_failed, in_child, in_parent,
  step, on_reading, on_line, receive, dispatch, exec_task, end_task, list_running, list_finished,
  list_tasks,
}
use so.Server.Commands.{exec_task_lem, end_task_tested, end_task_untested, end_task_short}
use so.ParseSize.Slices.{is_tested}
use native.Mathlib.Decide.{dec_lt}
use so.Server.Invariant.{IsServer, TasksReady}
use so.Server.Preserves.{TasksReady-HasRoom}
use so.Server.Dispatch.{IsSane}
use so.Server.Ledger.{
  starts_task, nothing, started, order_of_reading, order_of, ledger_of, Obeys, jobs_of-append,
}

module _ (place : Place) where
  exec_task-Obeys :
      (round : Round) (s : Server) (f : Forking)
      → TasksReady place s.total_tasks s.running
      → IsSane round
      → s.total_tasks < task_limit
      → Allows (exec_task place round.alloc s f) (Obeys (started f) s)
  unfolding exec_task
  exec_task-Obeys round s fork_failed h sane small = λ goes. refl
  exec_task-Obeys round s in_child h sane small = λ goes. refl
  exec_task-Obeys round s (in_parent pid) h sane small =
      Ensures-Allows _ (Obeys (starts_task pid) s) (exec_task place round.alloc s (in_parent pid))
        (exec_task_lem place round.alloc s pid h.valid
          (TasksReady-HasRoom round.alloc s.running h sane.grants small) (omega arith))
        λ (how, s') (_, _, held, same) _.
          ap ledger_of same ∙ rw (held, jobs_of-append (Vec.tasks s.running)) refl

  end_task-Obeys :
      (round : Round) (s : Server) (bytes : List ℕ)
      → Allows (end_task place round s bytes) (Obeys nothing s)
  end_task-Obeys round s bytes = elim (Bool-cases (is_tested (drop 2 bytes))) [
    | inl tested ↦ rw (end_task_tested place round s bytes tested) tt
    | inr untested ↦ elim (dec_lt (length bytes) 2) [
      | yes short ↦ rw (end_task_short place round s bytes short) tt
      | no enough ↦ rw (end_task_untested place round s bytes (omega arith) untested) (λ goes. refl)
    ]
  ]

  list_running-Obeys :
      (round : Round) (s : Server) → Allows (list_running place round s) (Obeys nothing s)
  unfolding list_running
  list_running-Obeys round s =
      Allows-after (Obeys nothing s)
        (list_tasks place s.line_buf round.answers s.running s.running_writer s.log) _
        λ r goes. refl

  list_finished-Obeys :
      (round : Round) (s : Server) → Allows (list_finished place round s) (Obeys nothing s)
  unfolding list_finished
  list_finished-Obeys round s =
      Allows-after (Obeys nothing s)
        (list_tasks place s.line_buf round.answers s.finished s.finished_writer s.log) _
        λ r goes. refl

  dispatch-Obeys :
      (round : Round) (s : Server) (bytes : List ℕ) (flag : ℕ)
      → TasksReady place s.total_tasks s.running
      → IsSane round
      → s.total_tasks < task_limit
      → Allows
          (dispatch place round s bytes flag)
          (Obeys (if flag == exec_task_flag then started round.forking else nothing) s)
  unfolding dispatch
  dispatch-Obeys round s bytes flag h sane small = elim (Bool-cases (flag == exec_task_flag)) [
    | inl e ↦ rw e (exec_task-Obeys round s round.forking h sane small)
    | inr e ↦ rw e (elim (Bool-cases (flag == end_task_flag)) [
      | inl e ↦ rw e (end_task-Obeys round s bytes)
      | inr e ↦ rw e (elim (Bool-cases (flag == list_running_tasks_flag)) [
        | inl e ↦ rw e (list_running-Obeys round s)
        | inr e ↦ rw e (elim (Bool-cases (flag == list_finished_tasks_flag)) [
          | inl e ↦ rw e (list_finished-Obeys round s)
          | inr e ↦ rw e (λ goes. refl)
        ])
      ])
    ])
  ]

  on_reading-Obeys :
      (round : Round) (s : Server) (r : Reading)
      → TasksReady place s.total_tasks s.running
      → IsSane round
      → s.total_tasks < task_limit
      → Allows (on_reading place round s r) (Obeys (order_of_reading round r) s)
  unfolding on_reading on_line
  on_reading-Obeys round s read_failed h sane small = λ goes. refl
  on_reading-Obeys round s (read_line []) h sane small = λ goes. refl
  on_reading-Obeys round s (read_line (c ∷ bytes)) h sane small =
      Allows-after (Obeys (if c == exec_task_flag then started round.forking else nothing) s)
        (receive s.line_buf (c ∷ bytes))
        (λ line_buf. dispatch place round (record s { line_buf = line_buf }) (c ∷ bytes) c)
        λ line_buf.
          dispatch-Obeys round (record s { line_buf = line_buf }) (c ∷ bytes) c h sane small

  -- A round.
  pub step-Obeys :
      (round : Round) (s : Server)
      → IsServer place s
      → IsSane round
      → s.total_tasks < task_limit
      → Allows (step place round s) (Obeys (order_of round) s)
  unfolding step
  step-Obeys round s h sane small =
      on_reading-Obeys round s round.reading h.running_ready sane small
