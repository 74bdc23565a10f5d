-- ===== src/TaskVec/Pop.antt =====
-- `tvec_pop` (src/task/task_vec.c), by itself and behind `tvec_push`.
use so.Base.{
  ◌-◌, ◌<◌, ◌≡◌, refl, sym, ap, ◌∙◌, Bool, true, false, Option, none, some, [], ◌∷◌, ◌++◌, arith,
  if◌then◌else◌, ne→==, length, take, length-append, length_zero, done, ◌>>=◌, Ensures,
  snoc_injective, Ensures-bind, Ensures-mono,
}
use so.Base.Cells.{load}
use so.Base.Cells.Laws.{load_lem}
use so.TaskVec.{Task, TaskVec, Alloc, pop, push, is_empty}
use so.TaskVec.Valid.{IsValid, tasks, spare, length-tasks, length-spare, of_parts, parts_at}
use so.TaskVec.Grow.{HasRoom}
use so.TaskVec.Push.{Leaves, push_lem}

-- What `tvec_pop` leaves of an array that holds a task: the last task is gone, and it is the result
-- when it is wanted.
abbrev pub Pops : TaskVec → Bool → Option Task × TaskVec → Type 0
Pops v wanted (result, w) =
    IsValid w
    × ((t : Task) × (tasks v ≡ tasks w ++ t ∷ []) × (result ≡ (if wanted then some t else none)))

-- On a valid array that holds a task tvec_pop has no memory error, removes the last task, and
-- returns a copy of it exactly when a place for it is given; the array stays valid.
pub pop_lem :
    (v : TaskVec) (wanted : Bool) → IsValid v → 0 < v.len → Ensures (pop v wanted) (Pops v wanted)
unfolding pop is_empty
pop_lem v wanted valid some_yet =
    let idx = v.len - 1 in
    let bs = take idx (tasks v) in
    let (t, ds, split, eb, bs_len, ds_len) = parts_at idx valid (omega arith) in
    let no_more : ds ≡ [] = length_zero ds (omega arith) in
    let loads : load v.buf idx ≡ done t =
      ap (λ b. load b idx) eb ∙ load_lem bs t (ds ++ spare v) idx bs_len in
    let (valid', same) =
      of_parts v {w = record v { len = idx }} bs (t ∷ (ds ++ spare v)) valid eb bs_len refl
        (omega (arith, length-spare valid, length-append ds (spare v))) in
    let left : tasks v ≡ tasks (record v { len = idx }) ++ t ∷ [] =
      split ∙ ap (λ zs. bs ++ t ∷ zs) no_more ∙ ap (λ zs. zs ++ t ∷ []) (sym same) in
    rw (ne→== v.len 0 (omega arith)) (by_wish wanted t loads valid' left)
  where
    by_wish :
        (b : Bool) (t : Task)
        → load v.buf (v.len - 1) ≡ done t
        → IsValid (record v { len = v.len - 1 })
        → tasks v ≡ tasks (record v { len = v.len - 1 }) ++ t ∷ []
        → Ensures
            (if b
              then (load v.buf (v.len - 1) >>= λ t. done (some t, record v { len = v.len - 1 }))
              else done (none, record v { len = v.len - 1 }))
            (Pops v b)
    by_wish true t loads valid' left = rw loads (valid', (t, left, refl))
    by_wish false t loads valid' left = (valid', (t, left, refl))

-- On a valid array tvec_pop behind a tvec_push that has room gives the pushed task back and leaves
-- the tasks that were there before.
pub pop-push :
    (alloc : Alloc) (v : TaskVec) (t : Task)
    → IsValid v
    → HasRoom alloc v
    → Ensures
        (push alloc v t >>= λ r. pop r.1 true)
        (λ r. (r.0 ≡ some t) × IsValid r.1 × (tasks r.1 ≡ tasks v))
pop-push alloc v t valid room =
    Ensures-bind (Leaves (tasks v ++ t ∷ [])) _ (push alloc v t) (λ r. pop r.1 true)
      (push_lem alloc v t valid room)
      λ (_, w) (_, valid', same).
        Ensures-mono (Pops w true) _ (pop w true)
          (pop_lem w true valid'
            (omega (arith, length-tasks valid', ap length same, length-append (tasks v) (t ∷ []))))
          λ (result, u) (valid'', (t', left, e)).
            let (first, last) = snoc_injective (tasks v) (tasks u) (sym same ∙ left) in
            (e ∙ ap some (sym last), valid'', sym first)
