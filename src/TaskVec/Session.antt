-- ===== src/TaskVec/Session.antt =====
-- Any sequence of calls of an array of tasks (src/task/task_vec.c) gives what the same calls give on a
-- list.
use so.Base.{
  ℕ, zero, suc, ◌+◌, ◌≡◌, refl, sym, ap, ◌∙◌, ◌≢◌, Bool, true, false, Option, none, some, List, [],
  ◌∷◌, ◌++◌, arith, ltb, leb, ◌==◌, if◌then◌else◌, eq→==, ne→==, length, get_elem?, take, drop, All,
  Exec, done, ◌>>=◌,
}
use so.TaskVec.{Task, TaskVec, Alloc, push, insert_at, pop, rm_ord_at, rm_by_tid}

-- A call, and what it tells its caller.
pub data Call : Type 0 where
  pushing : Task → Call
  inserting : Task → ℕ → Call
  popping : Call
  removing removing_id : ℕ → Call

pub data Reply : Type 0 where
  said : Bool → Reply
  gave : Option Task → Reply

unfoldable pub perform : Alloc → TaskVec → Call → Exec (Reply × TaskVec)
perform alloc v (pushing t) = push alloc v t >>= λ (b, w). done (said b, w)
perform alloc v (inserting t i) = insert_at alloc v t i >>= λ (b, w). done (said b, w)
perform alloc v popping = pop v true >>= λ (o, w). done (gave o, w)
perform alloc v (removing i) = rm_ord_at v i >>= λ (b, w). done (said b, w)
perform alloc v (removing_id tid) = rm_by_tid v tid >>= λ (b, w). done (said b, w)

unfoldable pub perform_all : Alloc → TaskVec → List Call → Exec (List Reply × TaskVec)
unfolding perform
perform_all alloc v [] = done ([], v)
perform_all alloc v (call ∷ calls) = perform alloc v call >>= λ (reply, w).
    perform_all alloc w calls >>= λ (replies, u). done (reply ∷ replies, u)

-- The same on a list.
abbrev pub without_last : List Task → Option Task × List Task
without_last [] = (none, [])
without_last (t ∷ []) = (some t, [])
without_last (t ∷ u ∷ ts) = let (o, rest) = without_last (u ∷ ts) in (o, t ∷ rest)

abbrev pub without_id : ℕ → List Task → Bool × List Task
without_id tid [] = (false, [])
without_id tid (t ∷ ts) =
    let (b, rest) = without_id tid ts in if t.task_id == tid then (true, ts) else (b, t ∷ rest)

abbrev pub act : List Task → Call → Reply × List Task
act ts (pushing t) = (said true, ts ++ t ∷ [])
act ts (inserting t i) =
    if ltb (length ts) i then (said false, ts) else (said true, take i ts ++ t ∷ drop i ts)
act ts popping = let (o, rest) = without_last ts in (gave o, rest)
act ts (removing i) =
    if leb (length ts) i then (said false, ts) else (said true, take i ts ++ drop (i + 1) ts)
act ts (removing_id tid) = let (b, rest) = without_id tid ts in (said b, rest)

abbrev pub act_all : List Task → List Call → List Reply × List Task
act_all ts [] = ([], ts)
act_all ts (call ∷ calls) =
    let (reply, ts') = act ts call in
    let (replies, ts'') = act_all ts' calls in (reply ∷ replies, ts'')

pub without_last-snoc : (ts : List Task) (t : Task) → without_last (ts ++ t ∷ []) ≡ (some t, ts)
without_last-snoc [] t = refl
without_last-snoc (u ∷ []) t = refl
without_last-snoc (u ∷ u' ∷ ts) t = ap (λ r. (r.0, u ∷ r.1)) (without_last-snoc (u' ∷ ts) t)

pub without_id_none :
    (tid : ℕ) (ts : List Task) → All (λ t. t.task_id ≢ tid) ts → without_id tid ts ≡ (false, ts)
without_id_none tid [] h = refl
without_id_none tid (t ∷ ts) (other, h) =
    rw (ne→== t.task_id tid other) (ap (λ r. (r.0, t ∷ r.1)) (without_id_none tid ts h))

pub without_id_first :
    (tid i : ℕ) (t : Task) (ts : List Task)
    → get_elem? ts i ≡ some t
    → t.task_id ≡ tid
    → All (λ u. u.task_id ≢ tid) (take i ts)
    → without_id tid ts ≡ (true, take i ts ++ drop (i + 1) ts)
without_id_first tid i t [] at_i same others = cc
without_id_first tid zero t (u ∷ ts) at_i same others =
    let here : u ≡ t = cc in rw (eq→== u.task_id tid (ap (λ x. x.task_id) here ∙ same)) refl
without_id_first tid (suc i) t (u ∷ ts) at_i same (other, others) =
    let next : suc i + 1 ≡ suc (i + 1) = omega arith in
    rw (ne→== u.task_id tid other) (
      ap (λ r. (r.0, u ∷ r.1)) (without_id_first tid i t ts at_i same others)
      ∙ ap (λ k. (true, u ∷ (take i ts ++ drop k (u ∷ ts)))) (sym next))
