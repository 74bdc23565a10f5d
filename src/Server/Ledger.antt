-- ===== src/Server/Ledger.antt =====
-- What the loop of the server promises, without its memory: which tasks run, in the order of their
-- start, how many were started, and which process groups got a signal (src/server.c).
use so.Base.{ℕ, ◌+◌, ◌≡◌, refl, ap, some, List, [], ◌∷◌, ◌++◌, ◌==◌, if◌then◌else◌}
use so.Conf.{exec_task_flag}
use so.TaskVec.{Task}
use so.TaskVec.Valid as Vec
use so.Server.{Server, Round, Reading, read_failed, read_line, Forking, in_parent, Ending, goes_on}
use so.Server.Start.{Setup, start}
use so.Server.Begin.{start-Begins}

-- The ids and the groups of the tasks that run, the number of tasks so far, and the signals.
pub record Ledger : Type 0 where
  pub jobs : List (ℕ × ℕ)
  pub count : ℕ
  pub signalled : List (ℕ × ℕ)

abbrev pub empty : Ledger
empty = record { jobs = []; count = 0; signalled = [] }

pub data Order : Type 0 where
  starts_task : ℕ → Order
  nothing : Order

abbrev pub obey : Order → Ledger → Ledger
obey (starts_task group) l = record l {
  jobs = l.jobs ++ (l.count, group) ∷ [];
  count = l.count + 1;
}
obey nothing l = l

-- What a round is told to do, by the bytes that it reads and what `fork` returns. No command ends a
-- task.
abbrev pub started : Forking → Order
started (in_parent pid) = starts_task pid
started _ = nothing

abbrev pub order_of_reading : Round → Reading → Order
order_of_reading round read_failed = nothing
order_of_reading round (read_line []) = nothing
order_of_reading round (read_line (c ∷ bytes)) =
    if c == exec_task_flag then started round.forking else nothing

abbrev pub order_of : Round → Order
order_of round = order_of_reading round round.reading

abbrev pub jobs_of : List Task → List (ℕ × ℕ)
jobs_of [] = []
jobs_of (t ∷ ts) = (t.task_id, t.process_group) ∷ jobs_of ts

abbrev pub ledger_of : Server → Ledger
ledger_of s = record {
  jobs = jobs_of (Vec.tasks s.running);
  count = s.total_tasks;
  signalled = s.signalled;
}

-- A round that goes on does what it is told.
abbrev pub Obeys : Order → Server → Ending × Server → Type 0
Obeys order s (how, s') = how ≡ goes_on → ledger_of s' ≡ obey order (ledger_of s)

pub jobs_of-append : (ts us : List Task) → jobs_of (ts ++ us) ≡ jobs_of ts ++ jobs_of us
jobs_of-append [] us = refl
jobs_of-append (t ∷ ts) us = ap (λ js. (t.task_id, t.process_group) ∷ js) (jobs_of-append ts us)

-- The ledger that `main` comes to its loop with.
pub start-ledger : (setup : Setup) (s : Server) → start setup ≡ some s → ledger_of s ≡ empty
start-ledger setup s starts =
    let b = start-Begins setup s starts in rw (b.nothing_runs, b.counted, b.no_signal) refl
