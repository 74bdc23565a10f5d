-- ===== src/TaskVec/Tests.antt =====
-- Concrete arrays: runs of the functions, and the theorems at inputs where their hypotheses hold.
use so.Base.{
  ℕ, ◌+◌, ◌≡◌, refl, inr, true, false, none, some, List, [], ◌∷◌, arith, ◌==◌, if◌then◌else◌, take,
  get_elem?, done, fault, ◌>>=◌, Ensures,
}
use so.Base.Cells.{block, cells, realloc, load, copy_to, store, memmove}
use so.TaskVec.{
  Task, TaskVec, Alloc, at, new, with_cap, shrink_to_fit, shrink_to, search_by_tid, push, grow,
  make_room, insert_at, pop, rm_at, rm_ord_at, rm_by_tid, close_gap, drop as give_back,
}
use so.TaskVec.Valid.{IsValid, tasks}
use so.TaskVec.Session.{
  Call, pushing, inserting, popping, removing, removing_id, said, gave, perform_all,
}
use so.TaskVec.Bag.{bag, put, rm_at-eq-rm_ord_at, bag-push}
use so.TaskVec.Access.{tvec_len, tvec_end, access_lem}
use so.TaskVec.Replay.{session_refines}
use so.TaskVec.Grow.{HasRoom}
use so.TaskVec.Push.{Leaves, push_lem, push_denied, push_at_cap_one}
use so.TaskVec.Insert.{insert_at_lem}
use so.TaskVec.Remove.{SwapsOut, rm_ord_at_lem, rm_at_lem}
use so.TaskVec.Pop.{Pops, pop_lem, pop-push}
use so.TaskVec.Search.{
  FindsFrom, RemovesId, search_by_tid_lem, rm_by_tid-eq-search, rm_by_tid_lem, remove_found,
}
use so.TaskVec.Shrink.{Shrinks, shrink_to_fit_lem, shrink_to_fit_empty, shrink_to_below}

abbrev task : ℕ → Task
task n = record { task_id = n; task_name = 2; process_group = 100 + n }

-- Two tasks and a free cell.
abbrev pair : TaskVec
pair = record { buf = block (task 0 ∷ task 1 ∷ task 9 ∷ []); len = 2; cap = 3 }

-- Three tasks and no free cell.
abbrev triple : TaskVec
triple = record pair { len = 3 }

abbrev single : TaskVec
single = record { buf = block (task 0 ∷ []); len = 1; cap = 1 }

abbrev hollow : TaskVec
hollow = record { buf = block (task 0 ∷ []); len = 0; cap = 1 }

abbrev grants : Alloc
grants k n = some (λ i. task 77)

-- The third request of a call is the first to be granted.
abbrev third : Alloc
third k n = if k == 2 then some (λ i. task 77) else none

abbrev refuses : Alloc
refuses k n = none

pair-IsValid : IsValid pair
pair-IsValid = record { live = refl; storage = refl; len_in = omega arith; fits = omega arith }

triple-IsValid : IsValid triple
triple-IsValid = record { live = refl; storage = refl; len_in = omega arith; fits = omega arith }

single-IsValid : IsValid single
single-IsValid = record { live = refl; storage = refl; len_in = omega arith; fits = omega arith }

hollow-IsValid : IsValid hollow
hollow-IsValid = record { live = refl; storage = refl; len_in = omega arith; fits = omega arith }

triple-HasRoom : HasRoom third triple
triple-HasRoom = inr (omega arith, omega arith, (2, omega arith, (λ i. task 77), refl))

-- A full array of three cells grows to four.
push_run :
    push third triple (task 5)
    ≡ done (true, record { buf = block (task 0 ∷ task 1 ∷ task 9 ∷ task 5 ∷ []); len = 4; cap = 4 })
unfolding push make_room grow copy_to store realloc
push_run = refl

insert_run :
    insert_at grants pair (task 5) 1
    ≡ done (true, record { buf = block (task 0 ∷ task 5 ∷ task 1 ∷ []); len = 3; cap = 3 })
unfolding insert_at make_room store memmove
insert_run = refl

rm_run :
    rm_at triple 0
    ≡ done (true, record triple { buf = block (task 9 ∷ task 1 ∷ task 9 ∷ []); len = 2 })
unfolding rm_at store load
rm_run = refl

rm_by_tid_run :
    rm_by_tid triple 1
    ≡ done (true, record triple { buf = block (task 0 ∷ task 9 ∷ task 9 ∷ []); len = 2 })
unfolding rm_by_tid load close_gap memmove
rm_by_tid_run = refl

with_cap_run : (with_cap none pair 4).0 ≡ false
unfolding with_cap
with_cap_run = refl

push_lem_example :
    Ensures (push third triple (task 5)) (Leaves (task 0 ∷ task 1 ∷ task 9 ∷ task 5 ∷ []))
push_lem_example = push_lem third triple (task 5) triple-IsValid triple-HasRoom

push_denied_example : push refuses triple (task 5) ≡ fault
push_denied_example =
    push_denied refuses triple (task 5) triple-IsValid refl (omega arith) (λ k. refl)

push_at_cap_one_run : push grants single (task 5) ≡ fault
push_at_cap_one_run =
    push_at_cap_one grants single (task 5) single-IsValid refl refl
      (0, omega arith, (λ i. task 77), refl)

insert_at_lem_run :
    Ensures (insert_at third triple (task 5) 1) (Leaves (task 0 ∷ task 5 ∷ task 1 ∷ task 9 ∷ []))
insert_at_lem_run =
    insert_at_lem third triple (task 5) 1 triple-IsValid triple-HasRoom (omega arith)

rm_ord_at_lem_example : Ensures (rm_ord_at triple 1) (Leaves (task 0 ∷ task 9 ∷ []))
rm_ord_at_lem_example = rm_ord_at_lem triple 1 triple-IsValid (omega arith)

rm_at_lem_run : Ensures (rm_at triple 0) (SwapsOut triple 0)
rm_at_lem_run = rm_at_lem triple 0 triple-IsValid (omega arith)

pop_lem_run : Ensures (pop triple true) (Pops triple true)
pop_lem_run = pop_lem triple true triple-IsValid (omega arith)

pop-push_example : Ensures (push third triple (task 5) >>= λ r. pop r.1 true) (λ r.
    (r.0 ≡ some (task 5))
    × IsValid r.1
    × (take r.1.len (cells r.1.buf) ≡ task 0 ∷ task 1 ∷ task 9 ∷ []))
pop-push_example = pop-push third triple (task 5) triple-IsValid triple-HasRoom

search_by_tid_run : Ensures (search_by_tid triple 9) (FindsFrom 0 9 (task 0 ∷ task 1 ∷ task 9 ∷ []))
search_by_tid_run = search_by_tid_lem triple 9 triple-IsValid

rm_by_tid-eq-search_example : rm_by_tid triple 1 ≡ (search_by_tid triple 1 >>= remove_found triple)
rm_by_tid-eq-search_example = rm_by_tid-eq-search triple 1

rm_by_tid_lem_run : Ensures (rm_by_tid triple 1) (RemovesId triple 1)
rm_by_tid_lem_run = rm_by_tid_lem triple 1 triple-IsValid

shrink_to_fit_lem_run : Ensures (shrink_to_fit (some (λ i. task 77)) pair) (Shrinks pair)
shrink_to_fit_lem_run = shrink_to_fit_lem (some (λ i. task 77)) pair pair-IsValid (omega arith)

shrink_to_fit_empty_run : (shrink_to_fit none hollow >>= λ r. give_back r.1) ≡ fault
shrink_to_fit_empty_run = shrink_to_fit_empty none hollow hollow-IsValid refl (omega arith)

shrink_to_below_run :
    Ensures
      (shrink_to (some (λ i. task 77)) pair 1)
      (λ r. (r.0 ≡ true) × (r.1.cap ≡ 1) × (r.1.len ≡ 2))
    × ((shrink_to (some (λ i. task 77)) pair 1 >>= λ r. push grants r.1 (task 5)) ≡ fault)
shrink_to_below_run =
    shrink_to_below (some (λ i. task 77)) grants pair 1 (task 5) (λ i. task 77) pair-IsValid
      (omega arith) (omega arith) (omega arith) refl

-- Calls on a new array; the third removal finds no task.
abbrev calls : List Call
calls =
    pushing (task 1)
    ∷ pushing (task 2)
    ∷ inserting (task 3) 1
    ∷ inserting (task 4) 9
    ∷ removing 0
    ∷ removing_id 2
    ∷ removing_id 7
    ∷ popping
    ∷ popping
    ∷ []

session_refines_example : Ensures (perform_all grants (new hollow) calls) (λ (replies, w).
    IsValid w
    × (replies
        ≡ said true
          ∷ said true
          ∷ said true
          ∷ said false
          ∷ said true
          ∷ said true
          ∷ said false
          ∷ gave (some (task 3))
          ∷ gave none
          ∷ [])
    × (tasks w ≡ []))
session_refines_example =
    session_refines grants hollow calls (λ n. (0, omega arith, (λ i. task 77), refl)) (omega arith)

rm_at-eq-rm_ord_at_example :
    (t : Task) × (w : TaskVec) × (w' : TaskVec) × (get_elem? (task 0 ∷ task 1 ∷ task 9 ∷ []) 0
      ≡ some t)
    × (rm_at triple 0 ≡ done (true, w))
    × (rm_ord_at triple 0 ≡ done (true, w'))
    × (bag w ≡ bag w')
    × (put t (bag w) ≡ bag triple)
rm_at-eq-rm_ord_at_example = rm_at-eq-rm_ord_at triple 0 triple-IsValid (omega arith)

bag-push_run :
    Ensures
      (push third triple (task 5))
      (λ (result, w). (result ≡ true) × (bag w ≡ put (task 5) (bag triple)))
bag-push_run = bag-push third triple (task 5) triple-IsValid triple-HasRoom

access_run : tvec_len pair ≡ tvec_end pair
unfolding tvec_len tvec_end
access_run = refl

access_lem_run :
    (t : Task) × (at pair 1 ≡ some 1)
    × (load pair.buf 1 ≡ done t)
    × (get_elem? (tasks pair) 1 ≡ some t)
unfolding tvec_len so.TaskVec.Access.tvec_begin
access_lem_run = let (_, _, _, (inside, _)) = access_lem pair 1 pair-IsValid in inside (omega arith)
