-- ===== src/TaskVec/Replay.antt =====
-- The proof that any sequence of calls of an array of tasks (src/task/task_vec.c) gives what the same
-- calls give on a list.
use mathlib.Core.Path.{subst}
use so.Base.{
  ℕ, ◌+◌, ◌≤◌, ◌<◌, ◌≡◌, refl, sym, ap, ◌∙◌, inl, inr, true, false, some, List, [], ◌∷◌, ◌++◌,
  arith, ltb, leb, ltb→lt, ltb→le, le→leb, lt→leb, eq→==, Bool-cases, length, take, drop,
  length-append, length-take, length-drop, length_zero, Ensures-and, Ensures-bind, Ensures,
}
use native.Mathlib.Decide.{dec_lt}
use so.TaskVec.{Task, TaskVec, Alloc, new, push, insert_at, pop, is_empty, rm_ord_at, rm_by_tid}
use so.TaskVec.Valid.{IsValid, tasks, length-tasks}
use so.TaskVec.Push.{push_lem, push_cap}
use so.TaskVec.Insert.{insert_at_lem, insert_at_refused}
use so.TaskVec.Pop.{pop_lem}
use so.TaskVec.Remove.{rm_ord_at_lem, outside_lem}
use so.TaskVec.Search.{rm_by_tid_lem}
use so.TaskVec.Caps.{insert_cap, pop_cap, rm_ord_at_cap, rm_by_tid_cap}
use so.TaskVec.Ready.{task_limit, Grants, Ready, Ready-HasRoom, Ready-follows}
use so.TaskVec.Session.{
  Call, pushing, inserting, popping, removing, removing_id, Reply, said, gave, perform, perform_all,
  without_last, act, act_all, without_last-snoc, without_id_none, without_id_first,
}

-- What a call leaves, by the list.
abbrev pub Acts : ℕ → TaskVec → Call → Reply × TaskVec → Type 0
Acts n v call (reply, w) =
    Ready (n + 1) w × (reply ≡ (act (tasks v) call).0) × (tasks w ≡ (act (tasks v) call).1)

same_cap :
    (v : TaskVec) (n : ℕ) (w : TaskVec)
    → Ready n v
    → IsValid w
    → length (tasks w) ≤ n + 1
    → w.cap ≡ v.cap
    → Ready (n + 1) w
same_cap v n w ready valid few e =
    Ready-follows n v w ready valid (omega (arith, length-tasks valid)) (inl e)

kept : (n : ℕ) (v : TaskVec) → Ready n v → Ready (n + 1) v
kept n v ready = Ready-follows n v v ready ready.valid (omega (arith, ready.few)) (inl refl)

module _ (alloc : Alloc) (n : ℕ) (v : TaskVec) (ready : Ready n v) (grants : Grants alloc)
    (small : n < task_limit) where
  len_v : length (tasks v) ≡ v.len
  len_v = length-tasks ready.valid

  push-Acts : (t : Task) → Ensures (perform alloc v (pushing t)) (Acts n v (pushing t))
  unfolding perform
  push-Acts t =
      let room = Ready-HasRoom n alloc v ready grants small in
      Ensures-bind _ _ (push alloc v t) _
        (Ensures-and _ _ (push alloc v t) (push_lem alloc v t ready.valid room)
          (push_cap alloc v t ready.valid room))
        λ (b, w) ((well, valid, held), follows).
          let few : w.len ≤ n + 1 = omega (
            arith,
            length-tasks valid,
            ap length held,
            length-append (tasks v) (t ∷ []),
            len_v,
            ready.few,
          ) in
          (Ready-follows n v w ready valid few follows, ap said well, held)

  insert-Acts :
      (t : Task) (i : ℕ) → Ensures (perform alloc v (inserting t i)) (Acts n v (inserting t i))
  unfolding perform
  insert-Acts t i = elim (Bool-cases (ltb v.len i)) [
    | inl over ↦
        rw (insert_at_refused alloc v t i ready.valid (inl (ltb→lt v.len i over)))
          (kept n v ready, rw (len_v, over) refl, rw (len_v, over) refl)
    | inr within ↦
        let room = Ready-HasRoom n alloc v ready grants small in
        let inside : i ≤ v.len = ltb→le v.len i within in
        Ensures-bind _ _ (insert_at alloc v t i) _
          (Ensures-and _ _ (insert_at alloc v t i)
            (insert_at_lem alloc v t i ready.valid room inside)
            (insert_cap alloc v t i ready.valid room))
          λ (b, w) ((well, valid, held), follows).
            let few : w.len ≤ n + 1 = omega (
              arith,
              length-tasks valid,
              ap length held,
              length-append (take i (tasks v)) (t ∷ drop i (tasks v)),
              length-take i (tasks v),
              length-drop i (tasks v),
              len_v,
              ready.few,
            ) in
            (
              Ready-follows n v w ready valid few follows,
              rw (len_v, within) (ap said well),
              rw (len_v, within) held,
            )
  ]

  pop-Acts : Ensures (perform alloc v popping) (Acts n v popping)
  unfolding perform pop is_empty
  pop-Acts = elim (dec_lt 0 v.len) [
    | yes some_yet ↦
        Ensures-bind _ _ (pop v true) _
          (Ensures-and _ _ (pop v true) (pop_lem v true ready.valid some_yet) (pop_cap v))
          λ (o, w) ((valid, (t, held, gives)), e).
            let last : without_last (tasks v) ≡ (some t, tasks w) =
              ap without_last held ∙ without_last-snoc (tasks w) t in
            let few : length (tasks w) ≤ n + 1 =
              omega (arith, ap length held, length-append (tasks w) (t ∷ []), len_v, ready.few) in
            (
              same_cap v n w ready valid few e,
              ap gave (gives ∙ sym (ap (λ r. r.0) last)),
              sym (ap (λ r. r.1) last),
            )
    | no none_yet ↦
        let empty : v.len ≡ 0 = omega arith in
        let nothing : tasks v ≡ [] = length_zero (tasks v) (omega (arith, len_v)) in
        rw (eq→== v.len 0 empty) (kept n v ready, rw nothing refl, rw nothing refl)
  ]

  fewer :
      (i : ℕ) (w : TaskVec)
      → tasks w ≡ take i (tasks v) ++ drop (i + 1) (tasks v)
      → length (tasks w) ≤ n + 1
  fewer i w held = omega (
    arith,
    ap length held,
    length-append (take i (tasks v)) (drop (i + 1) (tasks v)),
    length-take i (tasks v),
    length-drop (i + 1) (tasks v),
    len_v,
    ready.few,
  )

  remove-Acts : (i : ℕ) → Ensures (perform alloc v (removing i)) (Acts n v (removing i))
  unfolding perform
  remove-Acts i = elim (dec_lt i v.len) [
    | no outside ↦
        let over : v.len ≤ i = omega arith in
        let past : leb v.len i ≡ true = le→leb v.len i over in
        rw ((outside_lem v i over).1) (kept n v ready, rw (len_v, past) refl, rw (len_v, past) refl)
    | yes inside ↦
        let within : leb v.len i ≡ false = lt→leb v.len i inside in
        Ensures-bind _ _ (rm_ord_at v i) _
          (Ensures-and _ _ (rm_ord_at v i) (rm_ord_at_lem v i ready.valid inside)
            (rm_ord_at_cap v i))
          λ (b, w) ((well, valid, held), e). (
            same_cap v n w ready valid (fewer i w held) e,
            rw (len_v, within) (ap said well),
            rw (len_v, within) held,
          )
  ]

  remove_id-Acts :
      (tid : ℕ) → Ensures (perform alloc v (removing_id tid)) (Acts n v (removing_id tid))
  unfolding perform
  remove_id-Acts tid =
      Ensures-bind _ _ (rm_by_tid v tid) _
        (Ensures-and _ _ (rm_by_tid v tid) (rm_by_tid_lem v tid ready.valid) (rm_by_tid_cap v tid))
        λ (b, w) (how, e). elim how [
          | inl (same, others) ↦
              let none_has = without_id_none tid (tasks v) others in
              let said_no : b ≡ false = ap (λ r. r.0) same in
              let unchanged : w ≡ v = ap (λ r. r.1) same in
              (
                subst (Ready (n + 1)) (sym unchanged) (kept n v ready),
                ap said (said_no ∙ sym (ap (λ r. r.0) none_has)),
                ap tasks unchanged ∙ sym (ap (λ r. r.1) none_has),
              )
          | inr (i, t, at_i, same, others, (well, valid, held)) ↦
              let first = without_id_first tid i t (tasks v) at_i same others in
              (
                same_cap v n w ready valid (fewer i w held) e,
                ap said (well ∙ sym (ap (λ r. r.0) first)),
                held ∙ sym (ap (λ r. r.1) first),
              )
        ]

  perform-Acts : (call : Call) → Ensures (perform alloc v call) (Acts n v call)
  perform-Acts (pushing t) = push-Acts t
  perform-Acts (inserting t i) = insert-Acts t i
  perform-Acts popping = pop-Acts
  perform-Acts (removing i) = remove-Acts i
  perform-Acts (removing_id tid) = remove_id-Acts tid

perform_all-act_all :
    (alloc : Alloc) (n : ℕ) (v : TaskVec) (calls : List Call)
    → Ready n v
    → Grants alloc
    → n + length calls ≤ task_limit
    → Ensures (perform_all alloc v calls) (λ (replies, w).
      IsValid w × (replies ≡ (act_all (tasks v) calls).0) × (tasks w ≡ (act_all (tasks v) calls).1))
unfolding perform_all
perform_all-act_all alloc n v [] ready grants small = (ready.valid, refl, refl)
perform_all-act_all alloc n v (call ∷ calls) ready grants small =
    Ensures-bind (Acts n v call) _ (perform alloc v call) _
      (perform-Acts alloc n v ready grants (omega arith) call)
      λ (reply, w) (ready', answered, held).
        Ensures-bind _ _ (perform_all alloc w calls) _
          (perform_all-act_all alloc (n + 1) w calls ready' grants (omega arith))
          λ (replies, u) (valid, more, left). (
            valid,
            ap (λ r. r ∷ replies) answered
                ∙ ap (λ rs. (act (tasks v) call).0 ∷ rs)
                    (more ∙ ap (λ ts. (act_all ts calls).0) held),
            left ∙ ap (λ ts. (act_all ts calls).1) held,
          )

new-Ready : (init : TaskVec) → Ready 0 (new init)
unfolding new
new-Ready init = record {
  valid = record { live = refl; storage = refl; len_in = omega arith; fits = omega arith };
  few = omega arith;
  cap_few = omega arith;
  cap_not_one = omega arith;
}

-- Any sequence of up to 2 ^ 57 pushes, insertions, pops, removals at an index and removals by an
-- id, at any indices, on an array that tvec_new sets up, with an allocator that grants a request
-- of each call: there is no memory error, each call replies what the same call on a list of tasks
-- replies, and the array is valid and holds that list in the end.
pub session_refines :
    (alloc : Alloc) (init : TaskVec) (calls : List Call)
    → Grants alloc
    → length calls ≤ task_limit
    → Ensures (perform_all alloc (new init) calls) (λ (replies, w).
      IsValid w × (replies ≡ (act_all [] calls).0) × (tasks w ≡ (act_all [] calls).1))
unfolding new
session_refines alloc init calls grants small =
    perform_all-act_all alloc 0 (new init) calls (new-Ready init) grants (omega arith)
