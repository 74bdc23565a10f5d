-- ===== src/TaskVec/Shrink.antt =====
-- `tvec_shrink_to_fit` and `tvec_shrink_to` (src/task/task_vec.c).
use so.Base.{
  ℕ, ◌*◌, ◌/◌, ◌%◌, ◌≤◌, ◌<◌, ◌≡◌, refl, ap, ◌∙◌, ◌⊎◌, inl, inr, Bool, true, false, none, some,
  arith, size_mod, le→ltb, ne→==, Bool-cases, length, done, fault, ◌>>=◌, Ensures,
}
use so.Base.Cells.{block, Grant, free, cells, resize, moved, released, realloc}
use so.Base.Cells.Laws.{
  store_outside, realloc_refused, live_block, realloc_moved, realloc_zero, length-resize_le,
  take-resize,
}
use so.TaskVec.{
  Task, TaskVec, Alloc, sizeof_task, shrink, after_shrink, shrink_to_fit, shrink_to, is_at_max_cap,
  drop as give_back, push, place, make_room,
}
use so.TaskVec.Valid.{IsValid, tasks}

bytes_back :
    (v : TaskVec) (n : ℕ) → IsValid v → n ≤ v.cap → (n * sizeof_task % size_mod) / sizeof_task ≡ n
bytes_back v n valid h = omega (arith, valid.fits)

-- What a shrinking of an array to its length leaves: the array as it was, with the result false, or
-- the same tasks in a valid array with no free cell, with the result true.
abbrev pub Shrinks : TaskVec → Bool × TaskVec → Type 0
Shrinks v (result, w) =
    ((result ≡ false) × (w ≡ v))
    ⊎ ((result ≡ true) × IsValid w × (tasks w ≡ tasks v) × (w.cap ≡ v.len))

after_realloc_lem :
    (g : Grant Task) (v : TaskVec) (n : ℕ)
    → IsValid v
    → n ≤ v.cap
    → shrink g v n ≡ after_shrink v n (realloc g v.buf n)
unfolding shrink
after_realloc_lem g v n valid h =
    ap (λ k. after_shrink v n (realloc g v.buf k)) (bytes_back v n valid h)

shrink_block :
    (g : Grant Task) (v : TaskVec)
    → IsValid v
    → 0 < v.len
    → v.buf ≡ block (cells v.buf)
    → Ensures (after_shrink v v.len (realloc g v.buf v.len)) (Shrinks v)
unfolding after_shrink
shrink_block none v valid some_yet eb =
    rw (realloc_refused v.buf v.len valid.live some_yet) (inl (refl, refl))
shrink_block (some junk) v valid some_yet eb =
    let xs = cells v.buf in
    let fits : v.len ≤ length xs = omega (arith, valid.storage, valid.len_in) in
    let moves : realloc (some junk) v.buf v.len ≡ moved (resize xs v.len junk) =
      ap (λ b. realloc (some junk) b v.len) eb ∙ realloc_moved xs junk v.len some_yet in
    rw moves (
      inr (
        refl,
        record {
          live = refl;
          storage = length-resize_le xs v.len junk fits;
          len_in = omega arith;
          fits = omega (arith, valid.fits, valid.len_in);
        },
        take-resize xs v.len junk fits,
        refl,
      ))

-- On a valid array that holds a task tvec_shrink_to_fit has no memory error: it returns false and
-- the array is as it was, or it returns true and the array is valid, holds the same tasks, and has
-- their number as its capacity.
pub shrink_to_fit_lem :
    (g : Grant Task) (v : TaskVec) → IsValid v → 0 < v.len → Ensures (shrink_to_fit g v) (Shrinks v)
unfolding shrink_to_fit
shrink_to_fit_lem g v valid some_yet = elim (Bool-cases (is_at_max_cap v)) [
  | inl full ↦ rw full (inl (refl, refl))
  | inr room ↦
      rw (room, after_realloc_lem g v v.len valid valid.len_in)
        (shrink_block g v valid some_yet
          (live_block v.buf valid.live (omega (arith, valid.storage, valid.len_in))))
]

-- `tvec_shrink_to` with a capacity that is at least the length does what `tvec_shrink_to_fit` does.
pub shrink_to-eq-shrink_to_fit :
    (g : Grant Task) (v : TaskVec) (n : ℕ) → v.len ≤ n → shrink_to g v n ≡ shrink_to_fit g v
unfolding shrink_to shrink_to_fit
shrink_to-eq-shrink_to_fit g v n h = ground arith

-- On a valid array with free cells and no task, tvec_shrink_to_fit gives the block back and keeps
-- the pointer to it, so tvec_drop gives it back a second time.
pub shrink_to_fit_empty :
    (g : Grant Task) (v : TaskVec)
    → IsValid v
    → v.len ≡ 0
    → 0 < v.cap
    → (shrink_to_fit g v >>= λ r. give_back r.1) ≡ fault
unfolding shrink_to_fit is_at_max_cap after_shrink give_back free
shrink_to_fit_empty g v valid none_yet some_cells =
    let eb = live_block v.buf valid.live (omega (arith, valid.storage)) in
    let released' : realloc g v.buf v.len ≡ released =
      ap (λ n. realloc g v.buf n) none_yet
      ∙ ap (λ b. realloc g b 0) eb
      ∙ realloc_zero g (cells v.buf) in
    rw (ne→== v.len v.cap (omega arith), after_realloc_lem g v v.len valid valid.len_in, released')

-- A granted tvec_shrink_to to a positive capacity below the length of a valid array leaves an
-- array that is longer than its block, and the next tvec_push stores outside the block.
pub shrink_to_below :
    (g : Grant Task) (alloc : Alloc) (v : TaskVec) (n : ℕ) (t : Task) (junk : ℕ → Task)
    → IsValid v
    → v.len < v.cap
    → 0 < n
    → n < v.len
    → g ≡ some junk
    → Ensures (shrink_to g v n) (λ r. (r.0 ≡ true) × (r.1.cap ≡ n) × (r.1.len ≡ v.len))
      × ((shrink_to g v n >>= λ r. push alloc r.1 t) ≡ fault)
unfolding shrink_to is_at_max_cap after_shrink push make_room place
shrink_to_below g alloc v n t junk valid free pos below granted =
    let xs = cells v.buf in
    let eb = live_block v.buf valid.live (omega (arith, valid.storage)) in
    let moves : realloc g v.buf n ≡ moved (resize xs n junk) =
      ap (λ g. realloc g v.buf n) granted
      ∙ ap (λ b. realloc (some junk) b n) eb
      ∙ realloc_moved xs junk n pos in
    let shrinks : shrink_to g v n
        ≡ done (true, record v { buf = block (resize xs n junk); cap = n }) =
      rw (
        ne→== v.len v.cap (omega arith),
        le→ltb v.len n (omega arith),
        after_realloc_lem g v n valid (omega arith),
        moves,
      ) in
    (
      rw shrinks (refl, refl, refl),
      rw (
        shrinks,
        ne→== v.len n (omega arith),
        store_outside (resize xs n junk) v.len t
            (omega (arith, length-resize_le xs n junk (omega (arith, valid.storage)))),
      ),
    )
