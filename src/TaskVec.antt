-- ===== src/TaskVec.antt =====
-- src/task/task_vec.c with include/task/task.h: the growable array of tasks, one function for each
-- `tvec_` function. One that changes `*self` returns the new array beside its result.
pub mod Valid
pub mod Grow
pub mod Push
pub mod Caps
pub mod Ready
pub mod Access
pub mod Session
pub mod Replay
pub mod Insert
pub mod Remove
pub mod Pop
pub mod Search
pub mod Bag
pub mod Shrink
mod Tests
use so.Base.{
  ℕ, zero, suc, ◌+◌, ◌-◌, ◌*◌, ◌/◌, ◌%◌, ◌^◌, Bool, true, false, ◌||◌, Option, none, some, ltb, leb,
  ◌==◌, if◌then◌else◌, size_mod, Exec, done, fault, ◌>>=◌,
}
use so.Base.Cells.{
  Buf, null, block, freed, Grant, malloc, free, realloc, Realloc, moved, refused, released,
  undefined, load, store, memmove,
}

-- `struct Task`. A name is a pointer, and only its address is kept.
pub record Task : Type 0 where
  pub task_id : ℕ
  pub task_name : ℕ
  pub process_group : ℕ

-- `struct TaskVec`
pub record TaskVec : Type 0 where
  pub buf : Buf Task
  pub len : ℕ
  pub cap : ℕ

abbrev pub first_alloc_cap : ℕ
first_alloc_cap = 2

abbrev pub alloc_attempt_count : ℕ
alloc_attempt_count = 5

-- `sizeof(Task)` where pointers and `size_t` have 8 bytes and `pid_t` has 4
abbrev pub sizeof_task : ℕ
sizeof_task = 24

-- What the allocator answers to the request number `i` of a call, for so many bytes.
abbrev pub Alloc : Type 0
Alloc = ℕ → ℕ → Grant Task

unfoldable pub new : TaskVec → TaskVec
new init = record init { buf = null; len = 0; cap = 0 }

-- False is the result NULL; it leaves what was written to `*init` until then.
unfoldable pub with_cap : Grant Task → TaskVec → ℕ → Bool × TaskVec
with_cap g init capacity =
    if leb size_mod (capacity * sizeof_task) then (false, init) else elim (malloc g capacity) [
      | block xs ↦ (true, record { buf = block xs; len = 0; cap = capacity })
      | b ↦ (false, record init { buf = b })
    ]

unfoldable pub drop : TaskVec → Exec TaskVec
drop v = free v.buf >>= λ b. done (record v { buf = b })

unfoldable pub is_empty : TaskVec → Bool
is_empty v = v.len == 0

unfoldable pub is_at_max_cap : TaskVec → Bool
is_at_max_cap v = v.len == v.cap

-- The array when `realloc` was asked for room for `n` tasks.
unfoldable pub after_shrink : TaskVec → ℕ → Realloc Task → Exec (Bool × TaskVec)
after_shrink v n (moved xs) = done (true, record v { buf = block xs; cap = n })
after_shrink v n refused = done (false, v)
after_shrink v n released = done (false, record v { buf = freed })
after_shrink v n undefined = fault

unfoldable pub shrink : Grant Task → TaskVec → ℕ → Exec (Bool × TaskVec)
unfolding after_shrink
shrink g v n = after_shrink v n (realloc g v.buf ((n * sizeof_task % size_mod) / sizeof_task))

unfoldable pub shrink_to_fit : Grant Task → TaskVec → Exec (Bool × TaskVec)
unfolding is_at_max_cap
shrink_to_fit g v = if is_at_max_cap v then done (false, v) else shrink g v v.len

unfoldable pub shrink_to : Grant Task → TaskVec → ℕ → Exec (Bool × TaskVec)
unfolding is_at_max_cap
shrink_to g v min_capacity =
    if is_at_max_cap v
    then done (false, v)
    else shrink g v (if ltb v.len min_capacity then v.len else min_capacity)

-- An iterator is the index that it points at.
unfoldable pub at : TaskVec → ℕ → Option ℕ
at v idx = if leb v.len idx then none else some idx

-- The rounds `i, i + 1, …` of the search, as many as there are tasks behind index `i`.
unfoldable pub search_from : Buf Task → ℕ → ℕ → ℕ → Exec (Option ℕ)
search_from b tid zero i = done none
search_from b tid (suc rounds) i =
    let rest = search_from b tid rounds (i + 1) in
    load b i >>= λ t. if t.task_id == tid then done (some i) else rest

-- The index is both the iterator that is returned and what goes through `opt_idx`.
unfoldable pub search_by_tid : TaskVec → ℕ → Exec (Option ℕ)
unfolding search_from
search_by_tid v tid = search_from v.buf tid v.len 0

-- How the allocation loop of `tvec_push` and `tvec_insert_at` ends: by `return false`, behind the
-- loop with `new_buf` and `new_cap`, or in a `realloc` of a block that was given back.
pub data Grown : Type 0 where
  gives_up : Grown
  proceeds : Buf Task → ℕ → Grown
  invalid : Grown

-- What the loop does behind `realloc`, given the rounds that are left.
unfoldable pub after_realloc : Realloc Task → ℕ → Grown → Grown
after_realloc (moved xs) new_cap retry = proceeds (block xs) new_cap
after_realloc refused new_cap retry = retry
after_realloc released new_cap retry = invalid
after_realloc undefined new_cap retry = invalid

-- The arguments behind the array: the rounds left, `i`, `additional_cap` and `new_cap`.
unfoldable pub grow_from : Alloc → TaskVec → ℕ → ℕ → ℕ → ℕ → Grown
unfolding after_realloc
grow_from alloc v zero i additional_cap new_cap = proceeds null new_cap
grow_from alloc v (suc rounds) i additional_cap _ =
    let sum = v.cap + additional_cap in
    let new_cap = sum % size_mod in
    let smaller = v.cap / 2 ^ (i + 1) in
    let retry_smaller = grow_from alloc v rounds (i + 1) smaller new_cap in
    let retry = grow_from alloc v rounds (i + 1) additional_cap new_cap in
    if leb size_mod sum || leb size_mod (new_cap * sizeof_task)
    then if leb smaller v.cap || (i == alloc_attempt_count - 1) then gives_up else retry_smaller
    else after_realloc (realloc (alloc i (new_cap * sizeof_task)) v.buf new_cap) new_cap retry

abbrev pub first_additional_cap : ℕ → ℕ
first_additional_cap cap = if cap == 0 then first_alloc_cap else cap / 2

unfoldable pub grow : Alloc → TaskVec → Grown
unfolding grow_from
grow alloc v = grow_from alloc v alloc_attempt_count 0 (first_additional_cap v.cap) 0

-- What follows the loop: `none` is `return false`, else the array has the new block.
unfoldable pub after_grow : TaskVec → Grown → Exec (Option TaskVec)
after_grow v gives_up = done none
after_grow v (proceeds new_buf new_cap) = done (some (record v { buf = new_buf; cap = new_cap }))
after_grow v invalid = fault

-- The first half of `tvec_push` and of `tvec_insert_at`.
unfoldable pub make_room : Alloc → TaskVec → Exec (Option TaskVec)
unfolding is_at_max_cap after_grow
make_room alloc v = if is_at_max_cap v then after_grow v (grow alloc v) else done (some v)

unfoldable pub place : TaskVec → ℕ → Task → Exec (Bool × TaskVec)
place v idx task =
    store v.buf idx task >>= λ b. done (true, record v { buf = b; len = (v.len + 1) % size_mod })

unfoldable pub push : Alloc → TaskVec → Task → Exec (Bool × TaskVec)
unfolding place
push alloc v task =
    make_room alloc v >>= λ room. elim room [ none ↦ done (false, v) | some w ↦ place w w.len task ]

unfoldable pub open_gap : TaskVec → ℕ → Task → Exec (Bool × TaskVec)
unfolding place
open_gap v idx task =
    memmove v.buf (idx + 1) idx (v.len - idx) >>= λ b. place (record v { buf = b }) idx task

unfoldable pub insert_at : Alloc → TaskVec → Task → ℕ → Exec (Bool × TaskVec)
unfolding place open_gap
insert_at alloc v task idx =
    if ltb v.len idx
    then done (false, v)
    else make_room alloc v >>= λ room. elim room [
      | none ↦ done (false, v)
      | some w ↦ if ltb 0 w.len then open_gap w idx task else place w 0 task
    ]

-- The test is whether `opt_task` is given; the result is what it points to when it is returned.
unfoldable pub pop : TaskVec → Bool → Exec (Option Task × TaskVec)
unfolding is_empty
pop v wanted =
    if is_empty v
    then done (none, v)
    else let shorter = record v { len = v.len - 1 } in
      if wanted
      then (load v.buf (v.len - 1) >>= λ t. done (some t, shorter))
      else done (none, shorter)

unfoldable pub rm_at : TaskVec → ℕ → Exec (Bool × TaskVec)
rm_at v idx =
    if leb v.len idx
    then done (false, v)
    else if ltb 1 v.len
    then (do
      t ← load v.buf (v.len - 1)
      b ← store v.buf idx t
      done (true, record v { buf = b; len = v.len - 1 }))
    else done (true, record v { len = v.len - 1 })

-- The tasks behind index `idx` moved down by one.
unfoldable pub close_gap : TaskVec → ℕ → Exec (Bool × TaskVec)
close_gap v idx =
    if ltb 1 v.len
    then (do
      b ← memmove v.buf idx (idx + 1) (v.len - idx - 1)
      done (true, record v { buf = b; len = v.len - 1 }))
    else done (true, record v { len = v.len - 1 })

unfoldable pub rm_ord_at : TaskVec → ℕ → Exec (Bool × TaskVec)
rm_ord_at v idx = if leb v.len idx then done (false, v) else close_gap v idx

-- The loop of `tvec_rm_by_tid`, by the rounds left and the index.
unfoldable pub rm_by_tid_from : TaskVec → ℕ → ℕ → ℕ → Exec (Bool × TaskVec)
rm_by_tid_from v tid zero i = done (false, v)
rm_by_tid_from v tid (suc rounds) i =
    let rest = rm_by_tid_from v tid rounds (i + 1) in
    load v.buf i >>= λ t. if t.task_id == tid then close_gap v i else rest

unfoldable pub rm_by_tid : TaskVec → ℕ → Exec (Bool × TaskVec)
unfolding rm_by_tid_from
rm_by_tid v tid = rm_by_tid_from v tid v.len 0
