-- ===== src/Server/Signals.antt =====
-- What a signal does (`server_sighandler` of src/server.c), whatever the server did before.
use mathlib.Core.Path.{subst}
use so.Base.{
  ℕ, ◌+◌, ◌≡◌, refl, ap, ◌∙◌, ◌⊎◌, inl, inr, true, ◌||◌, Option, none, some, List, [], ◌∷◌, ◌++◌,
  append-nil, arith, ltb, ◌==◌, Bool-cases, length, drop, Exec, done, fault, ◌>>=◌,
}
use so.Base.Cells.{load}
use so.TaskVec.{TaskVec, Alloc}
use so.TaskVec
use so.Conf.{exec_task_flag, end_task_flag, list_running_tasks_flag, list_finished_tasks_flag}
use so.ParseSize.{ParseSizeOutcome, parse_size_slice}
use so.Server.{
  Server, Place, Reading, read_failed, read_line, Forking, fork_failed, in_child, in_parent, Round,
  Ending, goes_on, exits, exits_well, becomes_child, Step, receive, exec_task, end_task,
  end_task_at, end_task_parsed, end_found, on_reading, after_round, list_running, list_finished,
  list_tasks, dispatch, on_line, step, run, sighandler, groups_from, sigint, sigterm,
}

-- The computation has a memory error, or its result keeps the variables of the file.
abbrev pub Keeps : Server → Step → Type 0
Keeps s (done (how, s')) = (s'.file_running ≡ s.file_running) × (s'.file_finished ≡ s.file_finished)
Keeps s fault = Unit

module _ {A : Type 0} where
  Keeps-bind :
      (s : Server) (m : Exec A) (f : A → Step) → ((a : A) → Keeps s (f a)) → Keeps s (m >>= f)
  Keeps-bind s (done a) f h = h a
  Keeps-bind s fault f h = tt

Keeps-exec_task :
    (place : Place) (alloc : Alloc) (s : Server) (f : Forking) → Keeps s (exec_task place alloc s f)
unfolding exec_task
Keeps-exec_task place alloc s fork_failed = (refl, refl)
Keeps-exec_task place alloc s in_child = (refl, refl)
Keeps-exec_task place alloc s (in_parent pid) =
    Keeps-bind s (TaskVec.push alloc s.running _) _ λ r. (refl, refl)

Keeps-end_found : (round : Round) (s : Server) (r : Option ℕ) → Keeps s (end_found round s r)
unfolding end_found end_task_at
Keeps-end_found round s none = (refl, refl)
Keeps-end_found round s (some idx) = Keeps-bind s (load s.running.buf idx) _ λ task.
    elim (Bool-cases round.kills) [
      | inl kills ↦ rw kills (Keeps-bind s (TaskVec.rm_ord_at s.running idx) _ λ r. (refl, refl))
      | inr fails ↦ rw fails (refl, refl)
    ]

Keeps-end_task_parsed :
    (round : Round) (s : Server) (tid : ℕ) (o : ParseSizeOutcome)
    → Keeps s (end_task_parsed round s tid o)
unfolding end_task_parsed
Keeps-end_task_parsed round s tid ParseSizeOutcome.ok =
    Keeps-bind s (TaskVec.search_by_tid s.running tid) _ (Keeps-end_found round s)
Keeps-end_task_parsed round s tid ParseSizeOutcome.err_negative = (refl, refl)
Keeps-end_task_parsed round s tid ParseSizeOutcome.err_inv_char = (refl, refl)
Keeps-end_task_parsed round s tid ParseSizeOutcome.err_no_digits = (refl, refl)
Keeps-end_task_parsed round s tid ParseSizeOutcome.err_out_of_range = (refl, refl)

Keeps-list_running :
    (place : Place) (round : Round) (s : Server) → Keeps s (list_running place round s)
unfolding list_running
Keeps-list_running place round s =
    Keeps-bind s (list_tasks place s.line_buf round.answers s.running s.running_writer s.log) _
      λ r. (refl, refl)

Keeps-list_finished :
    (place : Place) (round : Round) (s : Server) → Keeps s (list_finished place round s)
unfolding list_finished
Keeps-list_finished place round s =
    Keeps-bind s (list_tasks place s.line_buf round.answers s.finished s.finished_writer s.log) _
      λ r. (refl, refl)

Keeps-end_task :
    (place : Place) (round : Round) (s : Server) (bytes : List ℕ)
    → Keeps s (end_task place round s bytes)
unfolding end_task
Keeps-end_task place round s bytes = elim (Bool-cases (ltb (length bytes) 2)) [
  | inl short ↦ rw short tt
  | inr behind ↦ rw behind (
      Keeps-bind s (parse_size_slice (place.line_addr + 2) (drop 2 bytes) 0 none) _
        λ p. Keeps-end_task_parsed round s p.size p.outcome)
]

Keeps-self : (s : Server) → Keeps s (done (goes_on, s))
Keeps-self s = (refl, refl)

Keeps-dispatch :
    (place : Place) (round : Round) (s : Server) (bytes : List ℕ) (flag : ℕ)
    → Keeps s (dispatch place round s bytes flag)
unfolding dispatch
Keeps-dispatch place round s bytes flag = elim (Bool-cases (flag == exec_task_flag)) [
  | inl e ↦ rw e (Keeps-exec_task place round.alloc s round.forking)
  | inr e ↦ rw e (elim (Bool-cases (flag == end_task_flag)) [
    | inl e ↦ rw e (Keeps-end_task place round s bytes)
    | inr e ↦ rw e (elim (Bool-cases (flag == list_running_tasks_flag)) [
      | inl e ↦ rw e (Keeps-list_running place round s)
      | inr e ↦ rw e (elim (Bool-cases (flag == list_finished_tasks_flag)) [
        | inl e ↦ rw e (Keeps-list_finished place round s)
        | inr e ↦ rw e (Keeps-self s)
      ])
    ])
  ])
]

Keeps-on_reading :
    (place : Place) (round : Round) (s : Server) (r : Reading)
    → Keeps s (on_reading place round s r)
unfolding on_reading on_line
Keeps-on_reading place round s read_failed = (refl, refl)
Keeps-on_reading place round s (read_line []) = (refl, refl)
Keeps-on_reading place round s (read_line (c ∷ bytes)) =
    Keeps-bind s (receive s.line_buf (c ∷ bytes)) _
      λ line_buf. Keeps-dispatch place round (record s { line_buf = line_buf }) (c ∷ bytes) c

Keeps-trans : (s s' : Server) (m : Step) → Keeps s (done (goes_on, s')) → Keeps s' m → Keeps s m
Keeps-trans s s' (done (how, s'')) (p, q) (p', q') = (p' ∙ p, q' ∙ q)
Keeps-trans s s' fault h h' = tt

Keeps-after :
    (s : Server) (m : Step) (f : Server → Step)
    → ((s' : Server) → Keeps s' (f s'))
    → Keeps s m
    → Keeps s (m >>= λ (how, s'). after_round how s' (f s'))
unfolding after_round
Keeps-after s (done (goes_on, s')) f h k = Keeps-trans s s' (f s') k (h s')
Keeps-after s (done (exits, s')) f h k = k
Keeps-after s (done (exits_well, s')) f h k = k
Keeps-after s (done (becomes_child, s')) f h k = k
Keeps-after s fault f h k = tt

pub Keeps-run : (place : Place) (rounds : List Round) (s : Server) → Keeps s (run place rounds s)
unfolding run step
Keeps-run place [] s = (refl, refl)
Keeps-run place (round ∷ rounds) s =
    Keeps-after s (on_reading place round s round.reading) (run place rounds)
      (Keeps-run place rounds) (Keeps-on_reading place round s round.reading)

kills_nobody :
    (signum : ℕ) (s : Server)
    → (signum ≡ sigint) ⊎ (signum ≡ sigterm)
    → s.file_running.len ≡ 0
    → sighandler signum s ≡ done (exits_well, record s { signalled = s.signalled ++ [] })
unfolding sighandler groups_from
kills_nobody signum s h none_there =
    let signals : ((signum == sigint) || (signum == sigterm)) ≡ true = ground arith in
    rw (signals, none_there)

-- Whatever rounds the server took from a state whose array of the file is empty, if it comes to a
-- state, SIGINT and SIGTERM then make it exit with the status 0 and send a signal to no process
-- group.
pub run-sighandler :
    (signum : ℕ) (place : Place) (rounds : List Round) (s s' : Server) (how : Ending)
    → (signum ≡ sigint) ⊎ (signum ≡ sigterm)
    → s.file_running.len ≡ 0
    → run place rounds s ≡ done (how, s')
    → sighandler signum s' ≡ done (exits_well, s')
run-sighandler signum place rounds s s' how h none_there ran =
    let kept : Keeps s (done (how, s')) = subst (Keeps s) ran (Keeps-run place rounds s) in
    let none_yet : s'.file_running.len ≡ 0 = ap (λ v. v.len) kept.0 ∙ none_there in
    kills_nobody signum s' h none_yet
    ∙ ap (λ gs. done (exits_well, record s' { signalled = gs })) (append-nil s'.signalled)
