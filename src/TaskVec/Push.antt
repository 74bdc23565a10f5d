-- ===== src/TaskVec/Push.antt =====
-- `tvec_push` (src/task/task_vec.c).
use so.Base.{
  ℕ, ◌+◌, ◌*◌, ◌≤◌, ◌<◌, ◌≡◌, refl, sym, ap, ◌∙◌, Bool, true, false, none, some, List, [], ◌∷◌,
  ◌++◌, append_assoc, arith, size_mod, length, length-append, done, fault, Ensures, Allows,
  Allows-after, Allows-mono,
}
use so.Base.Cells.{block, store}
use so.Base.Cells.Laws.{store_lem, store_outside, store_null}
use so.TaskVec.{after_grow, alloc_attempt_count, Task, TaskVec, sizeof_task, Alloc, place, push}
use so.TaskVec.Valid.{IsValid, tasks, length-tasks, free_cell, of_parts}
use so.TaskVec.Grow.{
  HasRoom, CapFollows, grown_cap, make_room_lem, make_room_full, grow_granted, make_room_too_large,
  make_room_denied,
}

-- A call that succeeds leaves a valid array that holds the given tasks.
abbrev pub Leaves : List Task → Bool × TaskVec → Type 0
Leaves ts (result, v) = (result ≡ true) × IsValid v × (tasks v ≡ ts)

-- A task stored in the cell between two runs of tasks joins them.
pub place_lem :
    (v w : TaskVec) (t m : Task) (bs ds cs : List Task) (i : ℕ)
    → IsValid v
    → w.buf ≡ block (bs ++ m ∷ (ds ++ cs))
    → i ≡ length bs
    → w.len ≡ length bs + length ds
    → w.cap ≡ v.cap
    → length bs + length ds + 1 + length cs ≡ v.cap
    → Ensures (place w i t) (Leaves (bs ++ t ∷ ds))
unfolding place
place_lem v w t m bs ds cs i valid eb ei el ec size =
    let stored : store w.buf i t ≡ done (block (bs ++ t ∷ (ds ++ cs))) =
      ap (λ b. store b i t) eb ∙ store_lem bs m t (ds ++ cs) i ei in
    let (valid', same) =
      of_parts v (bs ++ t ∷ ds) cs valid (ap block (sym (append_assoc bs (t ∷ ds) cs)))
        (omega (arith, length-append bs (t ∷ ds), valid.fits)) ec
        (omega (arith, length-append bs (t ∷ ds))) in
    rw stored (refl, valid', same)

-- On a valid array with room, tvec_push has no memory error, returns true, and puts the task
-- behind the others, which stay as they are; the array stays valid.
pub push_lem :
    (alloc : Alloc) (v : TaskVec) (t : Task)
    → IsValid v
    → HasRoom alloc v
    → Ensures (push alloc v t) (Leaves (tasks v ++ t ∷ []))
unfolding push
push_lem alloc v t valid room =
    let (w, makes, valid', len', free, same, _) = make_room_lem alloc v valid room in
    let (m, cs, e, size) = free_cell valid' free in
    rw (makes, ← same)
      (place_lem w w t m (tasks w) [] cs w.len valid' e (omega (arith, length-tasks valid'))
        (omega (arith, length-tasks valid')) refl (omega (arith, length-tasks valid')))

pub place_cap : (w : TaskVec) (i : ℕ) (t : Task) → Allows (place w i t) (λ r. r.1.cap ≡ w.cap)
unfolding place
place_cap w i t = Allows-after (λ r. r.1.cap ≡ w.cap) (store w.buf i t) _ λ b. refl

-- The capacity that a push with room leaves.
pub push_cap :
    (alloc : Alloc) (v : TaskVec) (t : Task)
    → IsValid v
    → HasRoom alloc v
    → Allows (push alloc v t) (λ r. CapFollows v r.1.cap)
unfolding push
push_cap alloc v t valid room =
    let (w, makes, _, _, _, _, follows) = make_room_lem alloc v valid room in
    rw makes (
      Allows-mono (λ r. r.1.cap ≡ w.cap) _ (place w w.len t) (place_cap w w.len t)
        λ r e. rw e follows)

-- A full array whose grown size in bytes is no `size_t` refuses the task and stays as it is.
pub push_too_large :
    (alloc : Alloc) (v : TaskVec) (t : Task)
    → IsValid v
    → v.len ≡ v.cap
    → size_mod ≤ grown_cap v * sizeof_task
    → push alloc v t ≡ done (false, v)
unfolding push
push_too_large alloc v t valid full large = rw (make_room_too_large alloc v valid full large)

-- A full valid array whose grown size in bytes a size_t holds, and whose requests are all refused,
-- is not left as it is by tvec_push: the task is stored through a null pointer.
pub push_denied :
    (alloc : Alloc) (v : TaskVec) (t : Task)
    → IsValid v
    → v.len ≡ v.cap
    → grown_cap v * sizeof_task < size_mod
    → ((k : ℕ) → alloc k (grown_cap v * sizeof_task) ≡ none)
    → push alloc v t ≡ fault
unfolding push
push_denied alloc v t valid full small denied =
    rw (make_room_denied alloc v valid full small denied, store_null)

-- A full valid array of capacity one does not grow in tvec_push: when a request is granted, the
-- task is stored behind the end of the block.
pub push_at_cap_one :
    (alloc : Alloc) (v : TaskVec) (t : Task)
    → IsValid v
    → v.len ≡ 1
    → v.cap ≡ 1
    → ((k : ℕ) × (k < alloc_attempt_count)
        × (junk : ℕ → Task) × (alloc k (grown_cap v * sizeof_task) ≡ some junk))
    → push alloc v t ≡ fault
unfolding push place after_grow
push_at_cap_one alloc v t valid one cap_one granted =
    let same : grown_cap v ≡ 1 = ground arith in
    let grows = grow_granted alloc v valid (omega arith) granted in
    rw (
      make_room_full alloc v (omega arith),
      grows.1,
      store_outside grows.0 v.len t (omega (arith, grows.2)),
    )
