-- ===== src/Server/Safety.antt =====
-- A round of the server's loop and the loop itself keep the invariant and have no memory error
-- (src/server.c).
use so.Base.{
  ℕ, ◌+◌, ◌%◌, ◌≤◌, ◌<◌, ◌≡◌, inl, inr, Option, none, some, List, [], ◌∷◌, ◌++◌, arith, size_mod,
  Bool-cases, take, drop, Ensures-and, Ensures-bind, Ensures,
}
use so.TaskVec
use so.TaskVec.{Task, TaskVec, Alloc, rm_ord_at}
use so.TaskVec.Valid as Vec
use so.TaskVec.Grow.{CapFollows}
use so.TaskVec.Caps.{rm_ord_at_cap}
use so.TaskVec.Push.{Leaves, push_lem, push_cap}
use so.TaskVec.Remove.{rm_ord_at_lem}
use so.TaskVec.Search.{FindsFrom, search_by_tid_lem, get_elem?-lt}
use so.ParseSize.{ParseSizeOutcome}
use so.Server.{
  Server, Place, Round, Forking, fork_failed, in_child, in_parent, Ending, goes_on, exits,
  becomes_child, exec_task, end_task_parsed, end_found, end_task_at,
}
use so.Server.Commands.{load_task}
use so.Server.Invariant.{TasksReady, IsServer}
use so.TaskVec.Ready.{task_limit, Grants}
use so.Server.Preserves.{TasksReady-HasRoom, TasksReady-push, TasksReady-without}

-- The invariant holds, and there is at most one task more.
abbrev pub Keeps : Place → ℕ → Ending × Server → Type 0
Keeps place total (how, s') = IsServer place s' × (s'.total_tasks ≤ total + 1)

module _ (place : Place) where
  pub stays : (how : Ending) (s : Server) → IsServer place s → Keeps place s.total_tasks (how, s)
  stays how s h = (h, omega arith)

  with_running :
      (s : Server) (v : TaskVec) (total : ℕ) (signalled : List (ℕ × ℕ))
      → IsServer place s
      → TasksReady place total v
      → IsServer place (record s { running = v; total_tasks = total; signalled = signalled })
  with_running s v total signalled h ready = record {
    running_ready = ready;
    finished_valid = h.finished_valid;
    none_finished = h.none_finished;
    handler_sees = h.handler_sees;
    running_writer_ready = h.running_writer_ready;
    finished_writer_ready = h.finished_writer_ready;
    line_room = h.line_room;
  }

  pub exec_task-Keeps :
      (alloc : Alloc) (s : Server) (f : Forking)
      → IsServer place s
      → Grants alloc
      → s.total_tasks < task_limit
      → Ensures (exec_task place alloc s f) (Keeps place s.total_tasks)
  unfolding exec_task
  exec_task-Keeps alloc s fork_failed h grants small = stays exits s h
  exec_task-Keeps alloc s in_child h grants small = stays becomes_child s h
  exec_task-Keeps alloc s (in_parent pid) h grants small =
      let task : Task = record {
        task_id = s.total_tasks;
        task_name = place.line_addr + 2;
        process_group = pid;
      } in
      let valid = h.running_ready.valid in
      let room = TasksReady-HasRoom alloc s.running h.running_ready grants small in
      let counted : (s.total_tasks + 1) % size_mod ≡ s.total_tasks + 1 = omega arith in
      rw counted (
        Ensures-bind _ (Keeps place s.total_tasks) (TaskVec.push alloc s.running task) _
          (Ensures-and (Leaves (Vec.tasks s.running ++ task ∷ []))
            (λ r. CapFollows s.running r.1.cap) (TaskVec.push alloc s.running task)
            (push_lem alloc s.running task valid room) (push_cap alloc s.running task valid room))
          λ (b, v) ((_, valid', held), follows). (
            with_running s v (s.total_tasks + 1) s.signalled h (
                TasksReady-push place s.total_tasks s.running v pid h.running_ready valid' held
                  follows),
            omega arith,
          ))

  end_found-Keeps :
      (round : Round) (s : Server) (tid : ℕ) (r : Option ℕ)
      → IsServer place s
      → FindsFrom 0 tid (Vec.tasks s.running) r
      → Ensures (end_found round s r) (Keeps place s.total_tasks)
  unfolding end_found end_task_at
  end_found-Keeps round s tid none h found = stays goes_on s h
  end_found-Keeps round s tid (some i) h (inl (e, others)) = cc
  end_found-Keeps round s tid (some i) h (inr (j, t, e, at_j, same, others)) =
      let here : i ≡ j = ground arith in
      let ready = h.running_ready in
      let within = get_elem?-lt (Vec.tasks s.running) j at_j in
      rw (here, load_task s.running j t ready.valid at_j)
        (elim (Bool-cases round.kills) [
          | inr spared ↦ rw spared (stays exits s h)
          | inl kills ↦ rw kills (
              Ensures-bind _ (Keeps place s.total_tasks) (rm_ord_at s.running j) _
                (Ensures-and
                  (Leaves (take j (Vec.tasks s.running) ++ drop (j + 1) (Vec.tasks s.running)))
                  (λ r. r.1.cap ≡ s.running.cap) (rm_ord_at s.running j)
                  (rm_ord_at_lem s.running j ready.valid
                    (omega (arith, within, Vec.length-tasks ready.valid)))
                  (rm_ord_at_cap s.running j))
                λ (b, v) ((_, valid', left), same_cap). (
                  with_running s v s.total_tasks _ h (
                      TasksReady-without place s.total_tasks j s.running v ready valid' left
                        same_cap),
                  omega arith,
                ))
        ])

  pub end_task_parsed-Keeps :
      (round : Round) (s : Server) (tid : ℕ) (o : ParseSizeOutcome)
      → IsServer place s
      → Ensures (end_task_parsed round s tid o) (Keeps place s.total_tasks)
  unfolding end_task_parsed
  end_task_parsed-Keeps round s tid ParseSizeOutcome.ok h =
      Ensures-bind (FindsFrom 0 tid (Vec.tasks s.running)) _ (TaskVec.search_by_tid s.running tid) _
        (search_by_tid_lem s.running tid h.running_ready.valid)
        λ r found. end_found-Keeps round s tid r h found
  end_task_parsed-Keeps round s tid ParseSizeOutcome.err_negative h = stays goes_on s h
  end_task_parsed-Keeps round s tid ParseSizeOutcome.err_inv_char h = stays goes_on s h
  end_task_parsed-Keeps round s tid ParseSizeOutcome.err_no_digits h = stays goes_on s h
  end_task_parsed-Keeps round s tid ParseSizeOutcome.err_out_of_range h = stays goes_on s h
