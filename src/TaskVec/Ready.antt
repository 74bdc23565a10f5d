-- ===== src/TaskVec/Ready.antt =====
-- What lets an array grow with each new task (`tvec_push` and `tvec_insert_at` of
-- src/task/task_vec.c).
use so.Base.{ℕ, ◌+◌, ◌*◌, ◌/◌, ◌^◌, ◌≤◌, ◌<◌, ◌≡◌, ◌≢◌, inl, inr, some, arith}
use so.TaskVec.{Task, TaskVec, Alloc, alloc_attempt_count, sizeof_task}
use so.TaskVec.Valid.{IsValid}
use so.TaskVec.Grow.{HasRoom, CapFollows, grown_cap}

-- More tasks than this would make the sizes in bytes overflow.
abbrev pub task_limit : ℕ
task_limit = 2 ^ 57

-- The allocator grants one of the requests of a call, whatever their size is.
abbrev pub Grants : Alloc → Type 0
Grants alloc =
    (n : ℕ) → (k : ℕ) × (k < alloc_attempt_count) × (junk : ℕ → Task) × (alloc k n ≡ some junk)

pub grown_cap_bounds :
    (v : TaskVec) → v.cap ≢ 1 → (grown_cap v ≤ v.cap + v.cap / 2 + 2) × (2 ≤ grown_cap v)
grown_cap_bounds v h = ground arith

-- A valid array that took at most `n` tasks from the start, and does not stand at the capacity from
-- which it cannot grow.
pub record Ready (n : ℕ) (v : TaskVec) : Type 0 where
  pub valid : IsValid v
  pub few : v.len ≤ n
  pub cap_few : v.cap ≤ 2 * n + 2
  pub cap_not_one : v.cap ≢ 1

pub Ready-HasRoom :
    (n : ℕ) (alloc : Alloc) (v : TaskVec)
    → Ready n v
    → Grants alloc
    → n < task_limit
    → HasRoom alloc v
Ready-HasRoom n alloc v ready grants small = inr (
  ready.cap_not_one,
  omega (arith, (grown_cap_bounds v ready.cap_not_one).0, ready.cap_few),
  grants (grown_cap v * sizeof_task),
)

-- One more task, at most.
pub Ready-follows :
    (n : ℕ) (v w : TaskVec)
    → Ready n v
    → IsValid w
    → w.len ≤ n + 1
    → CapFollows v w.cap
    → Ready (n + 1) w
Ready-follows n v w ready valid few follows =
    let bounds = grown_cap_bounds v ready.cap_not_one in
    record {
      valid = valid;
      few = few;
      cap_few = elim follows [
        | inl e ↦ omega (arith, ready.cap_few)
        | inr (full, e) ↦ omega (arith, ready.few, bounds.0)
      ];
      cap_not_one = elim follows [
        | inl e ↦ rw e ready.cap_not_one
        | inr (full, e) ↦ rw e (λ one. omega (arith, bounds.1))
      ];
    }
