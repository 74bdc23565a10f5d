-- ===== src/TaskVec/Grow.antt =====
-- The allocation loop that `tvec_push` and `tvec_insert_at` share (src/task/task_vec.c): when it
-- makes room, and when it does not.
use so.Base.{
  ℕ, zero, suc, ◌+◌, ◌*◌, ◌/◌, ◌%◌, ◌≤◌, ◌<◌, ◌≡◌, ◌≢◌, ◌⊎◌, inl, inr, refl, ◌∙◌, none, some, List,
  length, take, size_mod, le→leb, lt→leb, eq→==, ne→==, Option-cases, take-length, arith, done,
}
use native.Mathlib.Decide.{ℕ_discrete}
use so.Base.Cells.{null, block, cells, realloc}
use so.Base.Cells.Laws.{realloc_granted, realloc_refused}
use so.TaskVec.{
  Task, TaskVec, sizeof_task, Alloc, Grown, proceeds, grow_from, grow, make_room, after_realloc,
  after_grow, first_additional_cap, alloc_attempt_count,
}
use so.TaskVec.Valid.{IsValid, tasks}

-- The capacity that the first round of the loop asks for.
abbrev pub grown_cap : TaskVec → ℕ
grown_cap v = v.cap + first_additional_cap v.cap

-- The array has a free cell; or its capacity is not one, the grown capacity has a size in bytes
-- that a `size_t` holds, and the allocator grants one of the five requests for it.
abbrev pub HasRoom : Alloc → TaskVec → Type 0
HasRoom alloc v =
    (v.len < v.cap)
    ⊎ ((v.cap ≢ 1)
        × (grown_cap v * sizeof_task < size_mod)
        × ((k : ℕ) × (k < alloc_attempt_count)
            × (junk : ℕ → Task) × (alloc k (grown_cap v * sizeof_task) ≡ some junk)))

-- The loop left with a block of the given capacity that begins with the old cells.
abbrev pub Extends : List Task → ℕ → Grown → Type 0
Extends xs cap g =
    (ys : List Task) × (g ≡ proceeds (block ys) cap)
    × (length ys ≡ cap)
    × (take (length xs) ys ≡ xs)

module _ (alloc : Alloc) (v : TaskVec) (add : ℕ) (valid : IsValid v) (pos : 0 < v.cap + add)
    (small : (v.cap + add) * sizeof_task < size_mod) where
  new_cap_lem : (v.cap + add) % size_mod ≡ v.cap + add
  new_cap_lem = omega arith

  grow_round :
      (rounds i c : ℕ)
      → grow_from alloc v (suc rounds) i add c
        ≡ after_realloc
            (realloc (alloc i ((v.cap + add) * sizeof_task)) v.buf (v.cap + add))
            (v.cap + add)
            (grow_from alloc v rounds (i + 1) add (v.cap + add))
  unfolding grow_from
  grow_round rounds i c = rw (
    lt→leb size_mod (v.cap + add) (omega arith),
    new_cap_lem,
    lt→leb size_mod ((v.cap + add) * sizeof_task) small,
  )

  -- A granted request among the rounds that are left ends the loop with a larger block.
  grow_from_granted :
      (rounds i c k : ℕ) (junk : ℕ → Task)
      → i ≤ k
      → k < i + rounds
      → alloc k ((v.cap + add) * sizeof_task) ≡ some junk
      → Extends (cells v.buf) (v.cap + add) (grow_from alloc v rounds i add c)
  unfolding after_realloc
  grow_from_granted zero i c k junk hi hk e = absurd (omega arith)
  grow_from_granted (suc rounds) i c k junk hi hk e =
      elim (Option-cases (alloc i ((v.cap + add) * sizeof_task))) [
        | inr (junk', e') ↦
            let (ys, moves, size, kept) =
              realloc_granted v.buf junk' (v.cap + add) valid.live pos
                (omega (arith, valid.storage)) in
            (ys, grow_round rounds i c ∙ rw (e', moves), size, kept)
        | inl e' ↦
            rw (grow_round rounds i c, e', realloc_refused v.buf (v.cap + add) valid.live pos)
              (grow_from_granted rounds (i + 1) (v.cap + add) k junk (later e') (omega arith) e)
      ]
    where
      later : alloc i ((v.cap + add) * sizeof_task) ≡ none → i + 1 ≤ k
      later e' = elim (ℕ_discrete i k) [ yes p ↦ cc | no p ↦ omega arith ]

  -- With no request granted the loop runs out of rounds, and leaves no block.
  grow_from_denied :
      (rounds i c : ℕ)
      → ((k : ℕ) → alloc k ((v.cap + add) * sizeof_task) ≡ none)
      → grow_from alloc v (suc rounds) i add c ≡ proceeds null (v.cap + add)
  unfolding grow_from after_realloc
  grow_from_denied zero i c denied =
      grow_round 0 i c ∙ rw (denied i, realloc_refused v.buf (v.cap + add) valid.live pos)
  grow_from_denied (suc rounds) i c denied =
      grow_round (suc rounds) i c
      ∙ rw (denied i, realloc_refused v.buf (v.cap + add) valid.live pos)
          (grow_from_denied rounds (i + 1) (v.cap + add) denied)

grown_cap_pos : (v : TaskVec) → 0 < grown_cap v
grown_cap_pos v = ground arith

grown_cap-lt : (v : TaskVec) → IsValid v → grown_cap v < size_mod
grown_cap-lt v valid = ground arith

grown_cap_lem : (v : TaskVec) → IsValid v → grown_cap v % size_mod ≡ grown_cap v
grown_cap_lem v valid = omega (arith, grown_cap-lt v valid)

first_additional_cap_pos : (cap : ℕ) → cap ≢ 1 → 0 < first_additional_cap cap
first_additional_cap_pos cap h = ground arith

pub make_room_full :
    (alloc : Alloc) (v : TaskVec) → v.len ≡ v.cap → make_room alloc v ≡ after_grow v (grow alloc v)
unfolding make_room
make_room_full alloc v full = rw (eq→== v.len v.cap full)

-- The capacity stays, or the array was full and it grows.
abbrev pub CapFollows : TaskVec → ℕ → Type 0
CapFollows v cap = (cap ≡ v.cap) ⊎ ((v.len ≡ v.cap) × (cap ≡ grown_cap v))

-- What a call of `make_room` that succeeds leaves: the same tasks, with a free cell behind them.
abbrev pub Roomy : Alloc → TaskVec → Type 0
Roomy alloc v =
    (w : TaskVec) × (make_room alloc v ≡ done (some w))
    × IsValid w
    × (w.len ≡ v.len)
    × (w.len < w.cap)
    × (tasks w ≡ tasks v)
    × CapFollows v w.cap

make_room_extended :
    (alloc : Alloc) (v : TaskVec)
    → IsValid v
    → v.len ≡ v.cap
    → v.cap ≢ 1
    → grown_cap v * sizeof_task < size_mod
    → Extends (cells v.buf) (grown_cap v) (grow alloc v)
    → Roomy alloc v
unfolding after_grow
make_room_extended alloc v valid full not_one small (ys, grows, size, kept) = (
  record v { buf = block ys; cap = grown_cap v },
  make_room_full alloc v full ∙ rw grows,
  record { live = refl; storage = size; len_in = omega arith; fits = small },
  refl,
  omega (arith, first_additional_cap_pos v.cap not_one),
  let e : length (cells v.buf) ≡ v.len = omega (arith, valid.storage) in
      let all : take v.len (cells v.buf) ≡ cells v.buf =
        take-length v.len (cells v.buf) (omega arith) in
      rw (all, ← e) kept,
  inr (full, refl),
)

pub grow_granted :
    (alloc : Alloc) (v : TaskVec)
    → IsValid v
    → grown_cap v * sizeof_task < size_mod
    → ((k : ℕ) × (k < alloc_attempt_count)
        × (junk : ℕ → Task) × (alloc k (grown_cap v * sizeof_task) ≡ some junk))
    → Extends (cells v.buf) (grown_cap v) (grow alloc v)
unfolding grow
grow_granted alloc v valid small (k, hk, junk, e) =
    grow_from_granted alloc v (first_additional_cap v.cap) valid (grown_cap_pos v) small
      alloc_attempt_count 0 0 k junk (omega arith) (omega arith) e

-- With room, the first half of an insertion succeeds.
pub make_room_lem : (alloc : Alloc) (v : TaskVec) → IsValid v → HasRoom alloc v → Roomy alloc v
unfolding make_room
make_room_lem alloc v valid (inl free) =
    (v, rw (ne→== v.len v.cap (omega arith)), valid, refl, free, refl, inl refl)
make_room_lem alloc v valid (inr (not_one, small, granted)) = elim (ℕ_discrete v.len v.cap) [
  | yes full ↦
      make_room_extended alloc v valid full not_one small (grow_granted alloc v valid small granted)
  | no room ↦
      (v, rw (ne→== v.len v.cap room), valid, refl, omega (arith, valid.len_in), refl, inl refl)
]

-- When the size of the grown array is not a `size_t`, there is no second attempt: nothing changes.
pub make_room_too_large :
    (alloc : Alloc) (v : TaskVec)
    → IsValid v
    → v.len ≡ v.cap
    → size_mod ≤ grown_cap v * sizeof_task
    → make_room alloc v ≡ done none
unfolding after_grow grow grow_from
make_room_too_large alloc v valid full large =
    make_room_full alloc v full
    ∙ rw (
      grown_cap_lem v valid,
      le→leb size_mod (grown_cap v * sizeof_task) large,
      lt→leb size_mod (grown_cap v) (grown_cap-lt v valid),
      le→leb (v.cap / 2) v.cap (omega arith),
    )

-- When every request is refused, the array is left without a block, but with a larger capacity.
pub make_room_denied :
    (alloc : Alloc) (v : TaskVec)
    → IsValid v
    → v.len ≡ v.cap
    → grown_cap v * sizeof_task < size_mod
    → ((k : ℕ) → alloc k (grown_cap v * sizeof_task) ≡ none)
    → make_room alloc v ≡ done (some (record v { buf = null; cap = grown_cap v }))
unfolding after_grow grow
make_room_denied alloc v valid full small denied =
    make_room_full alloc v full
    ∙ rw (
        grow_from_denied alloc v (first_additional_cap v.cap) valid (grown_cap_pos v) small 4 0 0
          denied)
