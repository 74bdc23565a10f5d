-- ===== src/Server/Loop.antt =====
-- A round of the server's loop, and the loop from the start of `main` on: the invariant holds, and
-- there is no memory error (src/server.c).
use so.Base.{◌+◌, ◌≤◌, ◌<◌, ◌≡◌, ap, some, List, [], ◌∷◌, arith, length, All, Ensures-bind, Ensures}
use so.TaskVec.Valid as Vec
use so.Server.{
  Server, Place, Round, Ending, goes_on, exits, exits_well, becomes_child, Step, step, run,
  after_round,
}
use so.Server.Start.{Setup, start}
use so.Server.Begin.{Begins, start-Begins}
use so.Server.Invariant.{IsServer}
use so.TaskVec.Ready.{task_limit}
use so.Server.Safety.{Keeps}
use so.Server.Dispatch.{IsSane, IsUntested, on_reading-Keeps}

module _ (place : Place) where
  -- A round of the loop.
  pub step-Keeps :
      (round : Round) (s : Server)
      → IsServer place s
      → IsSane round
      → s.total_tasks < task_limit
      → IsUntested round
      → Ensures (step place round s) (Keeps place s.total_tasks)
  unfolding step
  step-Keeps round s h sane small untested =
      on_reading-Keeps place round s round.reading h sane sane.sized small untested

  after_round-IsServer :
      (how : Ending) (s : Server) (rest : Step)
      → IsServer place s
      → Ensures rest (λ r. IsServer place r.1)
      → Ensures (after_round how s rest) (λ r. IsServer place r.1)
  unfolding after_round
  after_round-IsServer goes_on s rest h k = k
  after_round-IsServer exits s rest h k = h
  after_round-IsServer exits_well s rest h k = h
  after_round-IsServer becomes_child s rest h k = h

  -- The loop from a state with the invariant.
  pub run-IsServer :
      (rounds : List Round) (s : Server)
      → IsServer place s
      → All IsSane rounds
      → All IsUntested rounds
      → s.total_tasks + length rounds ≤ task_limit
      → Ensures (run place rounds s) (λ r. IsServer place r.1)
  unfolding run
  run-IsServer [] s h sane untested small = h
  run-IsServer (round ∷ rounds) s h (first, sane) (here, untested) small =
      Ensures-bind (Keeps place s.total_tasks) _ (step place round s) _
        (step-Keeps round s h first (omega arith) here)
        λ (how, s') (h', more).
          after_round-IsServer how s' (run place rounds s') h'
            (run-IsServer rounds s' h' sane untested (omega arith))

  Begins-IsServer : (s : Server) → Begins s → IsServer place s
  Begins-IsServer s b =
      let empty : s.running.len ≡ 0 =
        omega (arith, Vec.length-tasks b.running_valid, ap length b.nothing_runs) in
      record {
        running_ready = record {
          valid = b.running_valid;
          named = rw b.nothing_runs tt;
          counted = rw b.nothing_runs tt;
          increasing = rw b.nothing_runs tt;
          few = omega arith;
          cap_few = omega (arith, b.no_storage);
          cap_not_one = ground (arith, b.no_storage);
        };
        finished_valid = b.finished_valid;
        none_finished =
            omega (arith, Vec.length-tasks b.finished_valid, ap length b.nothing_finished);
        handler_sees = b.handler_sees;
        running_writer_ready = record { valid = b.running_fresh.0; whole_cap = b.running_fresh.2 };
        finished_writer_ready = record {
          valid = b.finished_fresh.0;
          whole_cap = b.finished_fresh.2;
        };
        line_room = b.line_room;
      }

-- From the start of main on, in any number of rounds up to 2 ^ 57 in which what is read is nothing
-- or more than one byte and leaves room for a NUL, and in which no text behind the spaces of a
-- command to end a task begins with another character than a minus sign, the allocator grants a
-- request of each call, and a system call that writes fails or takes all bytes, the server has no
-- memory error and keeps its invariant: the tasks that run stand in a valid array, with increasing
-- ids below their number so far.
pub run-start-IsServer :
    (setup : Setup) (place : Place) (rounds : List Round) (s : Server)
    → start setup ≡ some s
    → All IsSane rounds
    → All IsUntested rounds
    → length rounds ≤ task_limit
    → Ensures (run place rounds s) (λ r. IsServer place r.1)
run-start-IsServer setup place rounds s starts sane untested small =
    let b = start-Begins setup s starts in
    run-IsServer place rounds s (Begins-IsServer place s b) sane untested (omega (arith, b.counted))

-- The state that `main` comes to its loop with.
pub start-IsServer :
    (setup : Setup) (place : Place) (s : Server)
    → start setup ≡ some s
    → IsServer place s × (s.total_tasks ≡ 0)
start-IsServer setup place s starts =
    let b = start-Begins setup s starts in (Begins-IsServer place s b, b.counted)
