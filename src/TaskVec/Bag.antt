-- ===== src/TaskVec/Bag.antt =====
-- The tasks of a `TaskVec` without their order (src/task/task_vec.c).
use mathlib.Core.Option
use mathlib.Core.List
use mathlib.Core.List.Perm
use mathlib.Core.Quot
use mathlib.Core.Quot.{Quot, Quot-set}
use so.Base.{
  ℕ, ◌+◌, ◌<◌, ◌≡◌, sym, ap, ◌∙◌, true, some, List, [], ◌∷◌, ◌++◌, append_assoc, Perm, arith,
  get_elem?, take, drop, length-append, drop-append, get_elem?-append, Ensures-mono, Ensures-done,
  done, Ensures,
}
use so.TaskVec.{Task, TaskVec, Alloc, push, rm_at, rm_ord_at}
use so.TaskVec.Valid.{IsValid, tasks, parts_at}
use so.TaskVec.Grow.{HasRoom}
use so.TaskVec.Push.{Leaves, push_lem}
use so.TaskVec.Remove.{SwapsOut, rm_at_lem, rm_ord_at_lem}

abbrev pub SameTasks : List Task → List Task → Type 0
SameTasks ts us = Perm ts us

abbrev pub Bag : Type 0
Bag = Quot SameTasks

abbrev pub bag : TaskVec → Bag
bag v = Quot.mk (tasks v)

-- One task more.
unfoldable pub put : Task → Bag → Bag
put t = Quot.lift Quot-set (λ ts. Quot.mk (t ∷ ts)) λ ts us same. Quot.sound (Perm.cons t same)

-- tvec_push, whatever the order of the tasks is.
pub bag-push :
    (alloc : Alloc) (v : TaskVec) (t : Task)
    → IsValid v
    → HasRoom alloc v
    → Ensures (push alloc v t) (λ (result, w). (result ≡ true) × (bag w ≡ put t (bag v)))
unfolding put
bag-push alloc v t valid room =
    Ensures-mono (Leaves (tasks v ++ t ∷ [])) _ (push alloc v t) (push_lem alloc v t valid room)
      λ (result, w) (well, _, held). (
        well,
        ap {A = List Task} {B = Bag} Quot.mk held
            ∙ Quot.sound (List.perm_append_singleton t (tasks v)),
      )

taken_out :
    (ts bs ds us : List Task) (t' t : Task)
    → ts ≡ bs ++ t' ∷ ds
    → t' ≡ t
    → us ≡ bs ++ ds
    → Perm ts (t ∷ us)
taken_out ts bs ds us t' t split same left = rw (split, same, left) (List.perm_middle bs ds)

-- At the index of a task of a valid array, tvec_rm_at and tvec_rm_ord_at both return true without
-- a memory error and leave the same tasks up to their order, which are those of the array without
-- the task at the index.
pub rm_at-eq-rm_ord_at :
    (v : TaskVec) (idx : ℕ)
    → IsValid v
    → idx < v.len
    → (t : Task) × (w : TaskVec) × (w' : TaskVec) × (get_elem? (tasks v) idx ≡ some t)
      × (rm_at v idx ≡ done (true, w))
      × (rm_ord_at v idx ≡ done (true, w'))
      × (bag w ≡ bag w')
      × (put t (bag w) ≡ bag v)
unfolding put
rm_at-eq-rm_ord_at v idx valid inside =
    let ((r, w), does, (well, _, _, (t, at_idx, perm))) =
      Ensures-done (SwapsOut v idx) (rm_at v idx) (rm_at_lem v idx valid inside) in
    let ((r', w'), does', (well', _, left)) =
      Ensures-done (Leaves _) (rm_ord_at v idx) (rm_ord_at_lem v idx valid inside) in
    let (t', ds, split, _, at_idx', _) = parts_at idx valid inside in
    let bs = take idx (tasks v) in
    let found : get_elem? (tasks v) idx ≡ some t' =
      ap (λ zs. get_elem? zs idx) split ∙ get_elem?-append bs (t' ∷ ds) idx at_idx' in
    let same : t' ≡ t = Option.some-injective _ _ (sym found ∙ at_idx) in
    let behind : drop (idx + 1) (tasks v) ≡ ds =
      ap (drop (idx + 1)) (split ∙ sym (append_assoc bs (t' ∷ []) ds))
      ∙ drop-append (bs ++ t' ∷ []) ds (idx + 1) (omega (arith, length-append bs (t' ∷ []))) in
    let held : tasks w' ≡ bs ++ ds = left ∙ ap (λ zs. bs ++ zs) behind in
    let around = taken_out (tasks v) bs ds (tasks w') t' t split same held in
    let same_tasks : Perm (tasks w) (tasks w') =
      Perm.cons_inv (Perm.trans (Perm.symm perm) around) in
    (
      t,
      w,
      w',
      at_idx,
      does ∙ ap (λ b. done (b, w)) well,
      does' ∙ ap (λ b. done (b, w')) well',
      Quot.sound same_tasks,
      Quot.sound (Perm.symm perm),
    )
