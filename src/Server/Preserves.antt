-- ===== src/Server/Preserves.antt =====
-- The commands that start and end a task keep the invariant (src/server.c).
use so.Base.{
  ℕ, ◌+◌, ◌*◌, ◌<◌, ◌≡◌, refl, ap, inl, inr, [], ◌∷◌, ◌++◌, arith, length, take, drop,
  length-append, length-take, length-drop, All-append, All-take-drop, All-mono,
}
use so.TaskVec.{Task, TaskVec, Alloc, sizeof_task}
use so.TaskVec.Valid as Vec
use so.TaskVec.Ready.{task_limit, Grants, grown_cap_bounds}
use so.TaskVec.Grow.{HasRoom, CapFollows, grown_cap}
use so.Server.{Place}
use so.Server.Invariant.{Increasing-snoc, Increasing-without, TasksReady}

pub TasksReady-HasRoom :
    {place : Place} {total : ℕ} (alloc : Alloc) (v : TaskVec)
    → TasksReady place total v
    → Grants alloc
    → total < task_limit
    → HasRoom alloc v
TasksReady-HasRoom alloc v ready grants small = inr (
  ready.cap_not_one,
  omega (arith, (grown_cap_bounds v ready.cap_not_one).0, ready.cap_few),
  grants (grown_cap v * sizeof_task),
)

-- A task with the next id behind the others.
pub TasksReady-push :
    (place : Place) (total : ℕ) (v v' : TaskVec) (pid : ℕ)
    → TasksReady place total v
    → Vec.IsValid v'
    → Vec.tasks v'
      ≡ Vec.tasks v
        ++ record { task_id = total; task_name = place.line_addr + 2; process_group = pid } ∷ []
    → CapFollows v v'.cap
    → TasksReady place (total + 1) v'
TasksReady-push place total v v' pid ready valid held follows =
    let new : Task = record {
      task_id = total;
      task_name = place.line_addr + 2;
      process_group = pid;
    } in
    let ts = Vec.tasks v in
    let sizes : v'.len ≡ v.len + 1 = omega (
      arith,
      Vec.length-tasks valid,
      Vec.length-tasks ready.valid,
      ap length held,
      length-append ts (new ∷ []),
    ) in
    let bounds = grown_cap_bounds v ready.cap_not_one in
    record {
      valid = valid;
      named = rw held (
          All-append (λ t. t.task_name ≡ place.line_addr + 2) ts (new ∷ []) ready.named (refl, tt));
      counted = rw held (
          All-append (λ t. t.task_id < total + 1) ts (new ∷ [])
            (All-mono (λ t. t.task_id < total) (λ t. t.task_id < total + 1) ts ready.counted
              (λ t h. omega arith))
            (omega arith, tt));
      increasing = rw held (Increasing-snoc ts new ready.increasing ready.counted);
      few = omega (arith, ready.few);
      cap_few = elim follows [
        | inl e ↦ omega (arith, ready.cap_few)
        | inr (full, e) ↦ omega (arith, ready.few, bounds.0)
      ];
      cap_not_one = elim follows [
        | inl e ↦ rw e ready.cap_not_one
        | inr (full, e) ↦ rw e (λ one. omega (arith, bounds.1))
      ];
    }

-- One task less.
pub TasksReady-without :
    (place : Place) (total i : ℕ) (v v' : TaskVec)
    → TasksReady place total v
    → Vec.IsValid v'
    → Vec.tasks v' ≡ take i (Vec.tasks v) ++ drop (i + 1) (Vec.tasks v)
    → v'.cap ≡ v.cap
    → TasksReady place total v'
TasksReady-without place total i v v' ready valid left same =
    let ts = Vec.tasks v in
    record {
      valid = valid;
      named =
          rw left (All-take-drop (λ t. t.task_name ≡ place.line_addr + 2) i (i + 1) ts ready.named);
      counted = rw left (All-take-drop (λ t. t.task_id < total) i (i + 1) ts ready.counted);
      increasing = rw left (Increasing-without i ts ready.increasing);
      few = omega (
        arith,
        ready.few,
        Vec.length-tasks valid,
        Vec.length-tasks ready.valid,
        ap length left,
        length-append (take i ts) (drop (i + 1) ts),
        length-take i ts,
        length-drop (i + 1) ts,
      );
      cap_few = rw same ready.cap_few;
      cap_not_one = rw same ready.cap_not_one;
    }
