-- ===== src/TaskVec/Insert.antt =====
-- `tvec_insert_at` (src/task/task_vec.c).
use so.Base.{
  ℕ, ◌+◌, ◌-◌, ◌*◌, ◌≤◌, ◌<◌, ◌≡◌, refl, ap, ◌∙◌, ◌⊎◌, inl, inr, false, [], ◌∷◌, ◌++◌, append_assoc,
  arith, ltb, size_mod, lt→ltb, ltb→le, le→ltb, Bool-cases, length, take, drop, length-take,
  length-drop, length_zero, done, Ensures,
}
use so.Base.Cells.{block, memmove}
use so.Base.Cells.Laws.{cut, memmove_up}
use so.TaskVec.{Task, TaskVec, Alloc, place, open_gap, insert_at, sizeof_task}
use so.TaskVec.Valid.{IsValid, tasks, length-tasks, free_cell}
use so.TaskVec.Grow.{HasRoom, grown_cap, make_room_lem, make_room_too_large}
use so.TaskVec.Push.{Leaves, place_lem}

module _ (v : TaskVec) (t : Task) (idx : ℕ) (valid : IsValid v) (free : v.len < v.cap)
    (within : idx ≤ v.len) where
  open_gap_lem : Ensures (open_gap v idx t) (Leaves (take idx (tasks v) ++ t ∷ drop idx (tasks v)))
  unfolding open_gap
  open_gap_lem =
      let bs = take idx (tasks v) in
      let ms = drop idx (tasks v) in
      let (m, cs, e, size) = free_cell valid free in
      let len_t = length-tasks valid in
      let bs_len : idx ≡ length bs = omega (arith, length-take idx (tasks v), len_t) in
      let ms_len : v.len - idx ≡ length ms = omega (arith, length-drop idx (tasks v), len_t) in
      let parts : v.buf ≡ block (bs ++ (ms ++ m ∷ cs)) =
        e ∙ ap block (ap (λ zs. zs ++ m ∷ cs) (cut (tasks v) idx) ∙ append_assoc bs ms (m ∷ cs)) in
      let (y, moves) = memmove_up bs ms m cs idx (v.len - idx) bs_len ms_len in
      let moved' : memmove v.buf (idx + 1) idx (v.len - idx) ≡ done (block (bs ++ y ∷ (ms ++ cs))) =
        ap (λ b. memmove b (idx + 1) idx (v.len - idx)) parts ∙ moves in
      rw moved' (
        place_lem v (record v { buf = block (bs ++ y ∷ (ms ++ cs)) }) t y bs ms cs idx valid refl
          bs_len (omega arith) refl (omega arith))

  -- Into an empty array the task is put at the index 0.
  first_lem :
      v.len ≡ 0 → Ensures (place v 0 t) (Leaves (take idx (tasks v) ++ t ∷ drop idx (tasks v)))
  first_lem empty =
      let (m, cs, e, size) = free_cell valid free in
      let none_yet : tasks v ≡ [] = length_zero (tasks v) (omega (arith, length-tasks valid)) in
      let here : idx ≡ 0 = omega arith in
      rw (none_yet, here)
        (place_lem v v t m [] [] cs 0 valid (e ∙ ap (λ ts. block (ts ++ m ∷ cs)) none_yet) refl
          empty refl (omega arith))

-- On a valid array with room and an index that is at most the length, tvec_insert_at has no memory
-- error, returns true, and puts the task between those before the index and the others; the array
-- stays valid.
pub insert_at_lem :
    (alloc : Alloc) (v : TaskVec) (t : Task) (idx : ℕ)
    → IsValid v
    → HasRoom alloc v
    → idx ≤ v.len
    → Ensures (insert_at alloc v t idx) (Leaves (take idx (tasks v) ++ t ∷ drop idx (tasks v)))
unfolding insert_at
insert_at_lem alloc v t idx valid room within =
    let (w, makes, valid', len', free, same, _) = make_room_lem alloc v valid room in
    rw (le→ltb v.len idx within, makes, ← same)
      (elim (Bool-cases (ltb 0 w.len)) [
        | inl some_yet ↦ rw some_yet (open_gap_lem w t idx valid' free (omega arith))
        | inr none_yet ↦
            rw none_yet
              (first_lem w t idx valid' free (omega arith) (omega (arith, ltb→le 0 w.len none_yet)))
      ])

-- An index behind the end, and a full array whose grown size in bytes is no `size_t`, are refused:
-- the result is false and the array stays as it is.
pub insert_at_refused :
    (alloc : Alloc) (v : TaskVec) (t : Task) (idx : ℕ)
    → IsValid v
    → (v.len < idx) ⊎ ((v.len ≡ v.cap) × (size_mod ≤ grown_cap v * sizeof_task))
    → insert_at alloc v t idx ≡ done (false, v)
unfolding insert_at
insert_at_refused alloc v t idx valid (inl outside) = rw (lt→ltb v.len idx outside)
insert_at_refused alloc v t idx valid (inr (full, large)) =
    rw (make_room_too_large alloc v valid full large) (ground arith)
