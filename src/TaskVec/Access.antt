-- ===== src/TaskVec/Access.antt =====
-- The functions that show a field of a `TaskVec` (src/task/task_vec.c). A pointer into the block is an
-- index, and those with `_mut` in their names return the same, without the `const`.
use so.Base.{
  ℕ, ◌≤◌, ◌<◌, ◌≡◌, refl, sym, ap, ◌∙◌, none, some, [], ◌∷◌, le→leb, lt→leb, length, get_elem?,
  take, get_elem?-append, done,
}
use so.Base.Cells.{Buf, cells, load, read_range}
use so.Base.Cells.Laws.{read_range_lem, load_lem}
use so.TaskVec.{Task, TaskVec, at}
use so.TaskVec.Valid.{IsValid, tasks, length-tasks, cells_parts, spare, parts_at}

unfoldable pub tvec_len : TaskVec → ℕ
tvec_len v = v.len

unfoldable pub tvec_cap : TaskVec → ℕ
tvec_cap v = v.cap

unfoldable pub tvec_begin : TaskVec → Buf Task
tvec_begin v = v.buf

-- The macro `end_`.
unfoldable pub tvec_end : TaskVec → ℕ
tvec_end v = v.len

-- What a client of a valid array sees: the range from its begin to its end, and the element that a
-- pointer of `tvec_at` points at.
pub access_lem :
    (v : TaskVec) (idx : ℕ)
    → IsValid v
    → (tvec_len v ≤ tvec_cap v)
      × (read_range (cells (tvec_begin v)) 0 (tvec_end v) ≡ done (tasks v))
      × (tvec_len v ≡ length (tasks v))
      × ((idx < tvec_len v
            → (t : Task) × (at v idx ≡ some idx)
              × (load (tvec_begin v) idx ≡ done t)
              × (get_elem? (tasks v) idx ≡ some t))
          × (tvec_len v ≤ idx → at v idx ≡ none))
unfolding tvec_len tvec_cap tvec_begin tvec_end at
access_lem v idx valid = (
  valid.len_in,
  whole,
  sym (length-tasks valid),
  (inside, λ past. rw (le→leb v.len idx past) refl),
)
  where
    whole : read_range (cells v.buf) 0 v.len ≡ done (tasks v)
    whole =
        ap (λ zs. read_range zs 0 v.len) (cells_parts v)
        ∙ read_range_lem [] (tasks v) (spare v) 0 v.len refl (sym (length-tasks valid))

    inside :
        idx < v.len
        → (t : Task) × (at v idx ≡ some idx)
          × (load v.buf idx ≡ done t)
          × (get_elem? (tasks v) idx ≡ some t)
    inside h =
        let (t, ds, e, block_e, at_idx, size) = parts_at idx valid h in
        (
          t,
          rw (lt→leb v.len idx h) refl,
          ap (λ b. load b idx) block_e ∙ load_lem (take idx (tasks v)) t _ idx at_idx,
          ap (λ zs. get_elem? zs idx) e ∙ get_elem?-append (take idx (tasks v)) (t ∷ ds) idx at_idx,
        )
