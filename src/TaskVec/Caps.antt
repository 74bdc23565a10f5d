-- ===== src/TaskVec/Caps.antt =====
-- The capacity that the functions of an array leave (src/task/task_vec.c).
use so.Base.{
  ℕ, zero, suc, ◌+◌, ◌-◌, ◌≡◌, refl, inl, inr, true, ltb, leb, ◌==◌, Bool-cases, Allows,
  Allows-after, Allows-mono,
}
use so.Base.Cells.{load, memmove}
use so.TaskVec.{
  Task, TaskVec, Alloc, place, open_gap, insert_at, pop, is_empty, close_gap, rm_ord_at, rm_by_tid,
  rm_by_tid_from,
}
use so.TaskVec.Valid.{IsValid}
use so.TaskVec.Grow.{HasRoom, CapFollows, make_room_lem}
use so.TaskVec.Push.{place_cap}

open_gap_cap : (w : TaskVec) (idx : ℕ) (t : Task) → Allows (open_gap w idx t) (λ r. r.1.cap ≡ w.cap)
unfolding open_gap
open_gap_cap w idx t =
    Allows-after (λ r. r.1.cap ≡ w.cap) (memmove w.buf (idx + 1) idx (w.len - idx)) _
      λ b. place_cap (record w { buf = b }) idx t

pub insert_cap :
    (alloc : Alloc) (v : TaskVec) (t : Task) (idx : ℕ)
    → IsValid v
    → HasRoom alloc v
    → Allows (insert_at alloc v t idx) (λ r. CapFollows v r.1.cap)
unfolding insert_at
insert_cap alloc v t idx valid room =
    let (w, makes, _, _, _, _, follows) = make_room_lem alloc v valid room in
    elim (Bool-cases (ltb v.len idx)) [
      | inl over ↦ rw over (inl refl)
      | inr within ↦
          rw (within, makes)
            (elim (Bool-cases (ltb 0 w.len)) [
              | inl some_yet ↦ rw some_yet (
                  Allows-mono (λ r. r.1.cap ≡ w.cap) _ (open_gap w idx t) (open_gap_cap w idx t)
                    λ r e. rw e follows)
              | inr none_yet ↦ rw none_yet (
                  Allows-mono (λ r. r.1.cap ≡ w.cap) _ (place w 0 t) (place_cap w 0 t)
                    λ r e. rw e follows)
            ])
    ]

pub pop_cap : (v : TaskVec) → Allows (pop v true) (λ r. r.1.cap ≡ v.cap)
unfolding pop
pop_cap v = elim (Bool-cases (is_empty v)) [
  | inl empty ↦ rw empty refl
  | inr some_yet ↦
      rw some_yet (Allows-after (λ r. r.1.cap ≡ v.cap) (load v.buf (v.len - 1)) _ λ t. refl)
]

close_gap_cap : (v : TaskVec) (i : ℕ) → Allows (close_gap v i) (λ r. r.1.cap ≡ v.cap)
unfolding close_gap
close_gap_cap v i = elim (Bool-cases (ltb 1 v.len)) [
  | inl many ↦
      rw many
        (Allows-after (λ r. r.1.cap ≡ v.cap) (memmove v.buf i (i + 1) (v.len - i - 1)) _ λ b. refl)
  | inr one ↦ rw one refl
]

pub rm_ord_at_cap : (v : TaskVec) (i : ℕ) → Allows (rm_ord_at v i) (λ r. r.1.cap ≡ v.cap)
unfolding rm_ord_at
rm_ord_at_cap v i = elim (Bool-cases (leb v.len i)) [
  | inl outside ↦ rw outside refl
  | inr inside ↦ rw inside (close_gap_cap v i)
]

rm_by_tid_from_cap :
    (v : TaskVec) (tid rounds i : ℕ) → Allows (rm_by_tid_from v tid rounds i) (λ r. r.1.cap ≡ v.cap)
unfolding rm_by_tid_from
rm_by_tid_from_cap v tid zero i = refl
rm_by_tid_from_cap v tid (suc rounds) i =
    let rest = rm_by_tid_from_cap v tid rounds (i + 1) in
    Allows-after (λ r. r.1.cap ≡ v.cap) (load v.buf i) _
      λ t. elim (Bool-cases (t.task_id == tid)) [
        | inl same ↦ rw same (close_gap_cap v i)
        | inr other ↦ rw other rest
      ]

pub rm_by_tid_cap : (v : TaskVec) (tid : ℕ) → Allows (rm_by_tid v tid) (λ r. r.1.cap ≡ v.cap)
unfolding rm_by_tid
rm_by_tid_cap v tid = rm_by_tid_from_cap v tid v.len 0
