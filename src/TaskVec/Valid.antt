-- ===== src/TaskVec/Valid.antt =====
-- The representation invariant of a `TaskVec`, and the tasks that it holds.
use so.Base.{
  ℕ, ◌+◌, ◌-◌, ◌*◌, ◌≤◌, ◌<◌, ◌≡◌, sym, ap, ◌∙◌, true, List, ◌∷◌, ◌++◌, append_assoc, arith,
  size_mod, length, take, drop, length-append, length-take, length-drop, take-append-drop,
  take-exact, nonempty_parts,
}
use so.Base.Cells.{block, cells, is_live}
use so.Base.Cells.Laws.{cut, live_block}
use so.TaskVec.{Task, TaskVec, sizeof_task}

pub record IsValid (v : TaskVec) : Type 0 where
  pub live : is_live v.buf ≡ true
  pub storage : length (cells v.buf) ≡ v.cap
  pub len_in : v.len ≤ v.cap
  pub fits : v.cap * sizeof_task < size_mod

abbrev pub tasks : TaskVec → List Task
tasks v = take v.len (cells v.buf)

abbrev pub spare : TaskVec → List Task
spare v = drop v.len (cells v.buf)

pub length-tasks : {v : TaskVec} → IsValid v → length (tasks v) ≡ v.len
length-tasks {v} h = omega (arith, length-take v.len (cells v.buf))

pub cells_parts : (v : TaskVec) → cells v.buf ≡ tasks v ++ spare v
cells_parts v = sym (take-append-drop v.len (cells v.buf))

pub length-spare : {v : TaskVec} → IsValid v → length (spare v) ≡ v.cap - v.len
length-spare {v} h = omega (arith, length-drop v.len (cells v.buf))

-- With free cells, the block is the tasks, the first free cell and the others.
pub free_cell :
    {v : TaskVec}
    → IsValid v
    → v.len < v.cap
    → (m : Task) × (cs : List Task) × (v.buf ≡ block (tasks v ++ m ∷ cs))
      × (v.len + 1 + length cs ≡ v.cap)
free_cell {v} h free =
    let (m, cs, e) = nonempty_parts (spare v) (omega (arith, length-spare h)) in
    (
      m,
      cs,
      live_block v.buf h.live (omega arith) ∙ ap block (cells_parts v ∙ ap (λ ys. tasks v ++ ys) e),
      omega (arith, length-spare h, ap length e, h.len_in),
    )

-- What makes a block and a length a valid array of the same capacity that holds given tasks.
pub of_parts :
    (v : TaskVec) {w : TaskVec} (ts cs : List Task)
    → IsValid v
    → w.buf ≡ block (ts ++ cs)
    → w.len ≡ length ts
    → w.cap ≡ v.cap
    → length ts + length cs ≡ v.cap
    → IsValid w × (tasks w ≡ ts)
of_parts v {w} ts cs h eb el ec size = (
  record {
    live = rw eb;
    storage = rw eb (omega (arith, length-append ts cs));
    len_in = omega arith;
    fits = omega (arith, h.fits);
  },
  rw eb (take-exact ts cs w.len el),
)

-- The block of an array, cut behind the index `idx`: the tasks before it, the task at it, the tasks
-- behind it, and the free cells.
pub parts_at :
    {v : TaskVec} (idx : ℕ)
    → IsValid v
    → idx < v.len
    → (t : Task) × (ds : List Task) × (tasks v ≡ take idx (tasks v) ++ t ∷ ds)
      × (v.buf ≡ block (take idx (tasks v) ++ t ∷ (ds ++ spare v)))
      × (idx ≡ length (take idx (tasks v)))
      × (idx + 1 + length ds ≡ v.len)
parts_at {v} idx valid within =
    let ts = tasks v in
    let len_t = length-tasks valid in
    let (t, ds, e) = nonempty_parts (drop idx ts) (omega (arith, length-drop idx ts, len_t)) in
    let split : ts ≡ take idx ts ++ t ∷ ds = cut ts idx ∙ ap (λ zs. take idx ts ++ zs) e in
    (
      t,
      ds,
      split,
      live_block v.buf valid.live (omega (arith, valid.storage, valid.len_in))
          ∙ ap block (
              cells_parts v
              ∙ ap (λ zs. zs ++ spare v) split
              ∙ append_assoc (take idx ts) (t ∷ ds) (spare v)),
      omega (arith, length-take idx ts, len_t),
      omega (arith, ap length e, length-drop idx ts, len_t),
    )
