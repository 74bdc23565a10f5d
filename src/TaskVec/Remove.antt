-- ===== src/TaskVec/Remove.antt =====
-- `tvec_rm_at` and `tvec_rm_ord_at` (src/task/task_vec.c).
use so.Base.{
  ℕ, ◌+◌, ◌-◌, ◌≤◌, ◌<◌, ◌≡◌, refl, sym, ap, ◌∙◌, inl, inr, Bool, true, false, none, some, List, [],
  ◌∷◌, ◌++◌, append_assoc, append-nil, Perm, perm_middle, arith, ltb, lt→ltb, ltb→le, le→leb,
  lt→leb, Bool-cases, length, get_elem?, take, drop, length-append, drop-append, take-exact,
  get_elem?-append, last_parts, done, Ensures,
}
use so.Base.Cells.{block, load, store, memmove}
use so.Base.Cells.Laws.{store_lem, load_lem, memmove_down}
use mathlib.Core.List
use mathlib.Core.List.Perm
use so.TaskVec.{Task, TaskVec, at, close_gap, rm_at, rm_ord_at}
use so.TaskVec.Valid.{parts_at, IsValid, tasks, spare, length-spare, of_parts}
use so.TaskVec.Push.{Leaves}

nothing_beside :
    (bs ds : List Task) (t : Task) (cs : List Task)
    → length bs + length ds ≡ 0
    → bs ++ t ∷ (ds ++ cs) ≡ (bs ++ ds) ++ t ∷ cs
nothing_beside [] [] t cs h = refl
nothing_beside (b ∷ bs) ds t cs h = absurd (omega arith)
nothing_beside [] (d ∷ ds) t cs h = absurd (omega arith)

-- `tvec_rm_ord_at` and the removal in `tvec_rm_by_tid`, at an index of a task: no memory error, and
-- the tasks before and behind the index are left, in their order.
pub close_gap_lem :
    {v : TaskVec} (idx : ℕ)
    → IsValid v
    → idx < v.len
    → Ensures (close_gap v idx) (Leaves (take idx (tasks v) ++ drop (idx + 1) (tasks v)))
unfolding close_gap
close_gap_lem {v} idx valid within =
    let bs = take idx (tasks v) in
    let (t, ds, split, eb, bs_len, ds_len) = parts_at idx valid within in
    let rest : drop (idx + 1) (tasks v) ≡ ds =
      ap (drop (idx + 1)) (split ∙ sym (append_assoc bs (t ∷ []) ds))
      ∙ drop-append (bs ++ t ∷ []) ds (idx + 1) (omega (arith, length-append bs (t ∷ []))) in
    rw rest (elim (Bool-cases (ltb 1 v.len)) [
      | inl many ↦
          let (zs, moves, zs_len) =
            memmove_down bs t ds (spare v) idx (v.len - idx - 1) bs_len (omega arith) in
          let moved' : memmove v.buf idx (idx + 1) (v.len - idx - 1)
              ≡ done (block (bs ++ (ds ++ zs))) =
            ap (λ b. memmove b idx (idx + 1) (v.len - idx - 1)) eb ∙ moves in
          rw (many, moved')
            (left (record v { buf = block (bs ++ (ds ++ zs)); len = v.len - 1 }) bs ds zs
              (ap block (sym (append_assoc bs ds zs))) (omega arith) refl
              (omega (arith, length-spare valid)))
      | inr one ↦ rw one (
          left (record v { len = v.len - 1 }) bs ds (t ∷ spare v)
            (eb ∙ ap block (nothing_beside bs ds t (spare v) (omega (arith, ltb→le 1 v.len one))))
            (omega arith) refl (omega (arith, length-spare valid)))
    ])
  where
    left :
        (w : TaskVec) (bs ds zs : List Task)
        → w.buf ≡ block ((bs ++ ds) ++ zs)
        → w.len ≡ length bs + length ds
        → w.cap ≡ v.cap
        → length bs + length ds + length zs ≡ v.cap
        → Leaves (bs ++ ds) (true, w)
    left w bs ds zs eb el ec size =
        let (valid', same) =
          of_parts v (bs ++ ds) zs valid eb (omega (arith, length-append bs ds)) ec
            (omega (arith, length-append bs ds)) in
        (refl, valid', same)

-- At the index of a task of a valid array, tvec_rm_ord_at has no memory error, removes that task,
-- keeps the others in their order, and returns true; the array stays valid.
pub rm_ord_at_lem :
    (v : TaskVec) (idx : ℕ)
    → IsValid v
    → idx < v.len
    → Ensures (rm_ord_at v idx) (Leaves (take idx (tasks v) ++ drop (idx + 1) (tasks v)))
unfolding rm_ord_at
rm_ord_at_lem v idx valid within = rw (lt→leb v.len idx within) (close_gap_lem idx valid within)

-- At an index behind the tasks both removals return false and leave the array as it is, and there
-- is no iterator.
pub outside_lem :
    (v : TaskVec) (idx : ℕ)
    → v.len ≤ idx
    → (rm_at v idx ≡ done (false, v)) × (rm_ord_at v idx ≡ done (false, v)) × (at v idx ≡ none)
unfolding rm_at rm_ord_at at
outside_lem v idx outside = let e = le→leb v.len idx outside in (rw e, rw e, rw e)

-- What `tvec_rm_at` leaves of an array: the task at the index is gone, those before it stay, and of
-- the others only the order changes.
abbrev pub SwapsOut : TaskVec → ℕ → Bool × TaskVec → Type 0
SwapsOut v idx (result, w) =
    (result ≡ true)
    × IsValid w
    × (take idx (tasks w) ≡ take idx (tasks v))
    × ((t : Task) × (get_elem? (tasks v) idx ≡ some t) × Perm (tasks v) (t ∷ tasks w))

module _ (v : TaskVec) (idx : ℕ) (valid : IsValid v) where
  swapped_out :
      (w : TaskVec) (bs : List Task) (t : Task) (ds es cs : List Task)
      → tasks v ≡ bs ++ t ∷ ds
      → idx ≡ length bs
      → Perm ds es
      → w.buf ≡ block ((bs ++ es) ++ cs)
      → w.len ≡ length bs + length es
      → w.cap ≡ v.cap
      → length bs + length es + length cs ≡ v.cap
      → SwapsOut v idx (true, w)
  swapped_out w bs t ds es cs split bs_len perm eb el ec size =
      let (valid', same) =
        of_parts v (bs ++ es) cs valid eb (omega (arith, length-append bs es)) ec
          (omega (arith, length-append bs es)) in
      (
        refl,
        valid',
        rw (same, split, take-exact bs es idx bs_len, take-exact bs (t ∷ ds) idx bs_len),
        (
          t,
          rw split (get_elem?-append bs (t ∷ ds) idx bs_len),
          rw (same, split)
              (Perm.trans (List.perm_middle bs ds) (Perm.cons t (Perm.append_left bs perm))),
        ),
      )

  -- The task is the last one: it is stored over itself, or not at all.
  rm_at_last :
      (t : Task)
      → tasks v ≡ take idx (tasks v) ++ t ∷ []
      → v.buf ≡ block (take idx (tasks v) ++ t ∷ spare v)
      → idx ≡ length (take idx (tasks v))
      → idx + 1 ≡ v.len
      → Ensures (rm_at v idx) (SwapsOut v idx)
  unfolding rm_at
  rm_at_last t split eb bs_len len =
      let bs = take idx (tasks v) in
      let loads : load v.buf (v.len - 1) ≡ done t =
        ap (λ b. load b (v.len - 1)) eb ∙ load_lem bs t (spare v) (v.len - 1) (omega arith) in
      let stores : store v.buf idx t ≡ done (block (bs ++ t ∷ spare v)) =
        ap (λ b. store b idx t) eb ∙ store_lem bs t t (spare v) idx bs_len in
      let kept : block (bs ++ t ∷ spare v) ≡ block ((bs ++ []) ++ t ∷ spare v) =
        ap (λ zs. block (zs ++ t ∷ spare v)) (sym (append-nil bs)) in
      rw (lt→leb v.len idx (omega arith)) (elim (Bool-cases (ltb 1 v.len)) [
        | inl many ↦
            rw (many, loads, stores)
              (swapped_out (record v { buf = block (bs ++ t ∷ spare v); len = v.len - 1 }) bs t []
                [] (t ∷ spare v) split bs_len (Perm.refl []) kept (omega arith) refl
                (omega (arith, length-spare valid)))
        | inr one ↦ rw one (
            swapped_out (record v { len = v.len - 1 }) bs t [] [] (t ∷ spare v) split bs_len
              (Perm.refl []) (eb ∙ kept) (omega arith) refl (omega (arith, length-spare valid)))
      ])

  -- There are tasks behind it: the last of them takes its place.
  rm_at_inner :
      (t : Task) (ms : List Task) (l : Task)
      → tasks v ≡ take idx (tasks v) ++ t ∷ (ms ++ l ∷ [])
      → v.buf ≡ block (take idx (tasks v) ++ t ∷ (ms ++ l ∷ spare v))
      → idx ≡ length (take idx (tasks v))
      → idx + 1 + length ms + 1 ≡ v.len
      → Ensures (rm_at v idx) (SwapsOut v idx)
  unfolding rm_at
  rm_at_inner t ms l split eb bs_len len =
      let bs = take idx (tasks v) in
      let loads : load v.buf (v.len - 1) ≡ done l =
        ap (λ b. load b (v.len - 1)) (eb ∙ ap block (sym (append_assoc bs (t ∷ ms) (l ∷ spare v))))
        ∙ load_lem (bs ++ t ∷ ms) l (spare v) (v.len - 1)
            (omega (arith, length-append bs (t ∷ ms))) in
      let stores : store v.buf idx l ≡ done (block (bs ++ l ∷ (ms ++ l ∷ spare v))) =
        ap (λ b. store b idx l) eb ∙ store_lem bs t l (ms ++ l ∷ spare v) idx bs_len in
      rw (lt→leb v.len idx (omega arith), lt→ltb 1 v.len (omega arith), loads, stores)
        (swapped_out (record v { buf = block (bs ++ l ∷ (ms ++ l ∷ spare v)); len = v.len - 1 }) bs
          t (ms ++ l ∷ []) (l ∷ ms) (l ∷ spare v) split bs_len (List.perm_append_singleton l ms)
          (ap block (sym (append_assoc bs (l ∷ ms) (l ∷ spare v)))) (omega arith) refl
          (omega (arith, length-spare valid)))

  -- At the index of a task of a valid array, tvec_rm_at has no memory error, removes that task,
  -- keeps the tasks before it where they are and the others in some order, and returns true; the
  -- array stays valid.
  pub rm_at_lem : idx < v.len → Ensures (rm_at v idx) (SwapsOut v idx)
  rm_at_lem within =
      let (t, ds, split, eb, bs_len, ds_len) = parts_at idx valid within in
      by_rest t ds split eb bs_len ds_len
    where
      by_rest :
          (t : Task) (ds : List Task)
          → tasks v ≡ take idx (tasks v) ++ t ∷ ds
          → v.buf ≡ block (take idx (tasks v) ++ t ∷ (ds ++ spare v))
          → idx ≡ length (take idx (tasks v))
          → idx + 1 + length ds ≡ v.len
          → Ensures (rm_at v idx) (SwapsOut v idx)
      by_rest t [] split eb bs_len ds_len = rm_at_last t split eb bs_len (omega arith)
      by_rest t (d ∷ ds) split eb bs_len ds_len =
          let (ms, l, e) = last_parts (d ∷ ds) (omega arith) in
          rm_at_inner t ms l (split ∙ ap (λ zs. take idx (tasks v) ++ t ∷ zs) e)
            (eb
              ∙ ap (λ zs. block (take idx (tasks v) ++ t ∷ (zs ++ spare v))) e
              ∙ ap (λ zs. block (take idx (tasks v) ++ t ∷ zs))
                  (append_assoc ms (l ∷ []) (spare v)))
            bs_len (omega (arith, ap length e, length-append ms (l ∷ [])))
