-- ===== src/TaskVec/Search.antt =====
-- `tvec_search_by_tid` and `tvec_rm_by_tid` (src/task/task_vec.c).
use so.Base.{
  ℕ, zero, suc, ◌+◌, ◌<◌, ◌≡◌, refl, sym, ap, ◌∙◌, ◌≢◌, ◌⊎◌, inl, inr, Bool, false, Option, none,
  some, List, [], ◌∷◌, ◌++◌, append_assoc, arith, ◌==◌, ==_iff, Bool-cases, length, get_elem?, take,
  drop, length-append, All, Ensures-bind, Ensures-mono, Exec, done, ◌>>=◌, Ensures,
}
use so.Base.Cells.{Buf, cells}
use so.Base.Cells.Laws.{load-cells}
use so.TaskVec.{Task, TaskVec, search_from, search_by_tid, rm_ord_at, rm_by_tid_from, rm_by_tid}
use so.TaskVec.Valid.{IsValid, tasks, spare, length-tasks, cells_parts}
use so.TaskVec.Push.{Leaves}
use so.TaskVec.Remove.{rm_ord_at_lem}

-- The result of a search that starts at index `i`, where the tasks from there on are `ts`: the index
-- of the first task with the id, or nothing when no task has it.
abbrev pub FindsFrom : ℕ → ℕ → List Task → Option ℕ → Type 0
FindsFrom i tid ts r =
    ((r ≡ none) × All (λ t. t.task_id ≢ tid) ts)
    ⊎ ((j : ℕ) × (t : Task) × (r ≡ some (i + j))
        × (get_elem? ts j ≡ some t)
        × (t.task_id ≡ tid)
        × All (λ t. t.task_id ≢ tid) (take j ts))

search_from_lem :
    (b : Buf Task) (tid rounds i : ℕ) (bs ts cs : List Task)
    → cells b ≡ bs ++ (ts ++ cs)
    → i ≡ length bs
    → rounds ≡ length ts
    → Ensures (search_from b tid rounds i) (FindsFrom i tid ts)
unfolding search_from
search_from_lem b tid zero i bs [] cs eb ei er = inl (refl, tt)
search_from_lem b tid zero i bs (t ∷ ts) cs eb ei er = absurd (omega arith)
search_from_lem b tid (suc rounds) i bs [] cs eb ei er = absurd (omega arith)
search_from_lem b tid (suc rounds) i bs (t ∷ ts) cs eb ei er =
    rw (load-cells b bs t (ts ++ cs) i eb ei) (elim (Bool-cases (t.task_id == tid)) [
      | inl hit ↦ rw hit (inr (0, t, ap some (omega arith), refl, (==_iff t.task_id tid).0 hit, tt))
      | inr miss ↦ rw miss (
          Ensures-mono (FindsFrom (i + 1) tid ts) _ (search_from b tid rounds (i + 1))
            (search_from_lem b tid rounds (i + 1) (bs ++ t ∷ []) ts cs
              (eb ∙ sym (append_assoc bs (t ∷ []) (ts ++ cs)))
              (omega (arith, length-append bs (t ∷ []))) (omega arith))
            (further miss))
    ])
  where
    further :
        (t.task_id == tid) ≡ false
        → (r : Option ℕ) → FindsFrom (i + 1) tid ts r
        → FindsFrom i tid (t ∷ ts) r
    further miss r (inl (e, others)) = inl (e, (ground arith, others))
    further miss r (inr (j, u, e, at_j, same, others)) =
        inr (suc j, u, e ∙ ap some (omega arith), at_j, same, (ground arith, others))

-- On a valid array the search has no memory error, and finds the first task with the id, or finds
-- nothing exactly when no task has it.
pub search_by_tid_lem :
    (v : TaskVec) (tid : ℕ) → IsValid v → Ensures (search_by_tid v tid) (FindsFrom 0 tid (tasks v))
unfolding search_by_tid
search_by_tid_lem v tid valid =
    search_from_lem v.buf tid v.len 0 [] (tasks v) (spare v) (cells_parts v) refl
      (omega (arith, length-tasks valid))

-- What the removal by id does with the result of the search.
abbrev pub remove_found : TaskVec → Option ℕ → Exec (Bool × TaskVec)
remove_found v none = done (false, v)
remove_found v (some i) = rm_ord_at v i

rm_by_tid_from_lem :
    (v : TaskVec) (tid rounds i : ℕ)
    → i + rounds ≡ v.len
    → rm_by_tid_from v tid rounds i ≡ (search_from v.buf tid rounds i >>= remove_found v)
unfolding rm_by_tid_from search_from rm_ord_at
rm_by_tid_from_lem v tid zero i e = refl
rm_by_tid_from_lem v tid (suc rounds) i e = ground (arith, rm_by_tid_from_lem v tid rounds (i + 1))

-- On any array, valid or not, tvec_rm_by_tid does what a search and tvec_rm_ord_at at the index
-- that it finds do: the same result, and the same memory errors.
pub rm_by_tid-eq-search :
    (v : TaskVec) (tid : ℕ) → rm_by_tid v tid ≡ (search_by_tid v tid >>= remove_found v)
unfolding rm_by_tid search_by_tid
rm_by_tid-eq-search v tid = rm_by_tid_from_lem v tid v.len 0 (omega arith)

-- What a removal by id leaves: with a task of that id, the first such task is gone and the others
-- are left in their order; with none, the result is false and the array is as it was.
abbrev pub RemovesId : TaskVec → ℕ → Bool × TaskVec → Type 0
RemovesId v tid r =
    ((r ≡ (false, v)) × All (λ t. t.task_id ≢ tid) (tasks v))
    ⊎ ((i : ℕ) × (t : Task) × (get_elem? (tasks v) i ≡ some t)
        × (t.task_id ≡ tid)
        × All (λ t. t.task_id ≢ tid) (take i (tasks v))
        × Leaves (take i (tasks v) ++ drop (i + 1) (tasks v)) r)

pub get_elem?-lt {ℓ} :
    {A : Type ℓ} (xs : List A) (i : ℕ) {x : A} → get_elem? xs i ≡ some x → i < length xs
get_elem?-lt [] i h = cc
get_elem?-lt (y ∷ xs) zero h = omega arith
get_elem?-lt (y ∷ xs) (suc i) h = omega (arith, get_elem?-lt xs i h)

-- On a valid array tvec_rm_by_tid has no memory error, and removes the first task with the id;
-- when no task has it the result is false and the array is as it was.
pub rm_by_tid_lem :
    (v : TaskVec) (tid : ℕ) → IsValid v → Ensures (rm_by_tid v tid) (RemovesId v tid)
rm_by_tid_lem v tid valid = rw (rm_by_tid-eq-search v tid) (
    Ensures-bind (FindsFrom 0 tid (tasks v)) _ (search_by_tid v tid) (remove_found v)
      (search_by_tid_lem v tid valid) by_result)
  where
    by_result :
        (r : Option ℕ) → FindsFrom 0 tid (tasks v) r → Ensures (remove_found v r) (RemovesId v tid)
    by_result none (inl (e, others)) = inl (refl, others)
    by_result none (inr (j, t, e, _, _, _)) = cc
    by_result (some i) (inl (e, others)) = cc
    by_result (some i) (inr (j, t, e, at_j, same, others)) =
        let here : i ≡ j = ground arith in
        rw here (
          Ensures-mono (Leaves (take j (tasks v) ++ drop (j + 1) (tasks v))) _ (rm_ord_at v j)
            (rm_ord_at_lem v j valid
              (omega (arith, get_elem?-lt (tasks v) j at_j, length-tasks valid)))
            λ r leaves. inr (j, t, at_j, same, others, leaves))
