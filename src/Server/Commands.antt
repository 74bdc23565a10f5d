-- ===== src/Server/Commands.antt =====
-- What the server does with the commands that start and end a task (src/server.c).
use so.Base.{
  ℕ, ◌+◌, ◌%◌, ◌≤◌, ◌<◌, ◌≡◌, refl, sym, ap, ◌∙◌, ◌≢◌, ◌⊎◌, inl, inr, true, false, Bool-cases,
  fault_after, ltb, Option, none, some, List, [], ◌∷◌, ◌++◌, arith, size_mod, le→ltb, lt→ltb,
  length, get_elem?, take, drop, get_elem?-append, All, Ensures-bind, done, fault, Ensures,
}
use so.Base.Cells.{load}
use so.Base.Cells.Laws.{load_lem, store_outside, copy_in}
use so.TaskVec
use so.TaskVec.{Task, TaskVec, Alloc}
use so.TaskVec.Valid.{IsValid, tasks, spare, parts_at, length-tasks}
use so.TaskVec.Grow.{HasRoom}
use so.TaskVec.Push.{Leaves, push_lem}
use so.TaskVec.Remove.{rm_ord_at_lem}
use so.TaskVec.Search.{FindsFrom, search_by_tid_lem, get_elem?-lt}
use so.ParseSize.{ParseSizeOutcome, is_space}
use so.ParseSize.Scan.{IsSpace}
use so.ParseSize.Slices.{is_tested, slice_tested, slice_untested, text_tested}
use so.Conf.{end_task_flag}
use so.Server.{
  Server, Place, in_parent, Round, Ending, goes_on, receive, exec_task, end_task, end_task_at,
  end_task_parsed, end_found, on_line, dispatch, sigterm, line_buf_size,
}

-- On a valid array with room, and with fewer tasks so far than a size_t counts, a command to
-- execute makes the parent add a task behind the others whose id is the number of tasks so far,
-- which goes up by one, whose group is the child's, and whose name is the address behind the
-- command in the line buffer.
pub exec_task_lem :
    (place : Place) (alloc : Alloc) (s : Server) (pid : ℕ)
    → IsValid s.running
    → HasRoom alloc s.running
    → s.total_tasks + 1 < size_mod
    → Ensures (exec_task place alloc s (in_parent pid)) (λ (how, s').
      let task : Task = record {
        task_id = s.total_tasks;
        task_name = place.line_addr + 2;
        process_group = pid;
      } in
      (how ≡ goes_on)
      × IsValid s'.running
      × (tasks s'.running ≡ tasks s.running ++ task ∷ [])
      × (s' ≡ record s { running = s'.running; total_tasks = s.total_tasks + 1 }))
unfolding exec_task
exec_task_lem place alloc s pid valid room small =
    let task : Task = record {
      task_id = s.total_tasks;
      task_name = place.line_addr + 2;
      process_group = pid;
    } in
    let counted : (s.total_tasks + 1) % size_mod ≡ s.total_tasks + 1 = omega arith in
    Ensures-bind (Leaves (tasks s.running ++ task ∷ [])) _ (TaskVec.push alloc s.running task) _
      (push_lem alloc s.running task valid room)
      λ (b, v) (_, valid', held).
        (refl, valid', held, ap (λ n. record s { running = v; total_tasks = n }) counted)

-- What the command to end a task leaves, where `kill` succeeds: with a task of that id, the group of
-- the first such task has got SIGTERM, and the task is gone from the array; with none, nothing.
abbrev pub EndsTask : Server → ℕ → Ending × Server → Type 0
EndsTask s tid (how, s') =
    (how ≡ goes_on)
    × (((s' ≡ s) × All (λ t. t.task_id ≢ tid) (tasks s.running))
        ⊎ ((i : ℕ) × (t : Task) × (get_elem? (tasks s.running) i ≡ some t)
            × (t.task_id ≡ tid)
            × All (λ t. t.task_id ≢ tid) (take i (tasks s.running))
            × IsValid s'.running
            × (tasks s'.running ≡ take i (tasks s.running) ++ drop (i + 1) (tasks s.running))
            × (s' ≡ record s {
              running = s'.running;
              signalled = s.signalled ++ (t.process_group, sigterm) ∷ [];
            })))

pub load_task :
    (v : TaskVec) (i : ℕ) (t : Task)
    → IsValid v
    → get_elem? (tasks v) i ≡ some t
    → load v.buf i ≡ done t
unfolding load
load_task v i t valid at_i =
    let (u, ds, split, block_eq, here, _) =
      parts_at i valid (omega (arith, get_elem?-lt (tasks v) i at_i, length-tasks valid)) in
    let same : some u ≡ some t =
      sym (ap (λ ts. get_elem? ts i) split ∙ get_elem?-append (take i (tasks v)) (u ∷ ds) i here)
      ∙ at_i in
    let loads : load v.buf i ≡ done u =
      ap (λ b. load b i) block_eq ∙ load_lem (take i (tasks v)) u (ds ++ spare v) i here in
    let one : u ≡ t = cc in loads ∙ ap done one

pub end_found_lem :
    (round : Round) (s : Server) (tid : ℕ) (r : Option ℕ)
    → IsValid s.running
    → round.kills ≡ true
    → FindsFrom 0 tid (tasks s.running) r
    → Ensures (end_found round s r) (EndsTask s tid)
unfolding end_found end_task_at
end_found_lem round s tid none valid kills (inl (e, others)) = (refl, inl (refl, others))
end_found_lem round s tid none valid kills (inr (j, t, e, _, _, _)) = cc
end_found_lem round s tid (some i) valid kills (inl (e, others)) = cc
end_found_lem round s tid (some i) valid kills (inr (j, t, e, at_j, same, others)) =
    let here : i ≡ j = ground arith in
    rw (here, load_task s.running j t valid at_j, kills)
      (Ensures-bind (Leaves (take j (tasks s.running) ++ drop (j + 1) (tasks s.running))) _
        (TaskVec.rm_ord_at s.running j) _
        (rm_ord_at_lem s.running j valid
          (omega (arith, get_elem?-lt (tasks s.running) j at_j, length-tasks valid)))
        λ (b, v) (_, valid', left). (refl, inr (j, t, at_j, same, others, valid', left, refl)))

-- On a valid array, where kill succeeds, what stands behind the parse of a command to end a task
-- sends SIGTERM, for any size and the outcome PARSE_SIZE_OK, to the group of the first task with
-- that id and removes the task, the others staying in their order; with no such task nothing
-- changes; there is no memory error.
pub end_task_lem :
    (round : Round) (s : Server) (tid : ℕ)
    → IsValid s.running
    → round.kills ≡ true
    → Ensures (end_task_parsed round s tid ParseSizeOutcome.ok) (EndsTask s tid)
unfolding end_task_parsed
end_task_lem round s tid valid kills =
    Ensures-bind (FindsFrom 0 tid (tasks s.running)) _ (TaskVec.search_by_tid s.running tid) _
      (search_by_tid_lem s.running tid valid)
      λ r found. end_found_lem round s tid r valid kills found

pub nothing_ended :
    (round : Round) (s : Server) (tid : ℕ) (o : ParseSizeOutcome)
    → o ≢ ParseSizeOutcome.ok
    → end_task_parsed round s tid o ≡ done (goes_on, s)
unfolding end_task_parsed
nothing_ended round s tid ParseSizeOutcome.ok h = absurd (h refl)
nothing_ended round s tid ParseSizeOutcome.err_negative h = refl
nothing_ended round s tid ParseSizeOutcome.err_inv_char h = refl
nothing_ended round s tid ParseSizeOutcome.err_no_digits h = refl
nothing_ended round s tid ParseSizeOutcome.err_out_of_range h = refl

-- A command to end a task whose text is blank, or goes on behind its spaces with a minus sign, changes
-- nothing; with any other text it has a memory error.
pub end_task_untested :
    (place : Place) (round : Round) (s : Server) (bytes : List ℕ)
    → 2 ≤ length bytes
    → is_tested (drop 2 bytes) ≡ false
    → end_task place round s bytes ≡ done (goes_on, s)
unfolding end_task
end_task_untested place round s bytes behind untested =
    let (p, read, unread) = slice_untested (place.line_addr + 2) (drop 2 bytes) 0 none untested in
    rw (le→ltb (length bytes) 2 behind, read) (nothing_ended round s p.size p.outcome unread)

pub end_task_short :
    (place : Place) (round : Round) (s : Server) (bytes : List ℕ)
    → length bytes < 2
    → end_task place round s bytes ≡ fault
unfolding end_task
end_task_short place round s bytes short = rw (lt→ltb (length bytes) 2 short) refl

pub end_task_tested :
    (place : Place) (round : Round) (s : Server) (bytes : List ℕ)
    → is_tested (drop 2 bytes) ≡ true
    → end_task place round s bytes ≡ fault
unfolding end_task
end_task_tested place round s bytes tested = elim (Bool-cases (ltb (length bytes) 2)) [
  | inl short ↦ rw short refl
  | inr behind ↦ rw (behind, slice_tested (place.line_addr + 2) (drop 2 bytes) 0 none tested) refl
]

-- Whatever the state of the server is, a command to end a task whose text, behind any spaces, goes
-- on with a character that is neither a space nor a minus sign, such as the digit of an id, has a
-- memory error: the pointer to the text is given to isdigit.
pub on_line_tested :
    (place : Place) (round : Round) (s : Server) (b : ℕ) (ws : List ℕ) (c : ℕ) (text : List ℕ)
    → All IsSpace ws
    → is_space c ≡ false
    → c ≢ b'-'
    → on_line place round s (end_task_flag ∷ b ∷ (ws ++ c ∷ text)) ≡ fault
unfolding on_line dispatch
on_line_tested place round s b ws c text blank no_space no_minus =
    let bytes = end_task_flag ∷ b ∷ (ws ++ c ∷ text) in
    fault_after (receive s.line_buf bytes) _ λ line_buf.
      end_task_tested place round (record s { line_buf = line_buf }) bytes
        (text_tested ws c text blank no_space no_minus)

-- A message that fills the line buffer has its NUL stored behind the end of the buffer, whatever
-- the command is.
pub on_line_overrun :
    (place : Place) (round : Round) (s : Server) (bytes : List ℕ)
    → length s.line_buf ≡ line_buf_size
    → length bytes ≡ line_buf_size
    → on_line place round s bytes ≡ fault
unfolding on_line receive
on_line_overrun place round s [] held read = absurd (omega arith)
on_line_overrun place round s (c ∷ bytes) held read =
    let (zs, copied, size, _) = copy_in s.line_buf (c ∷ bytes) 0 (omega arith) in
    rw (copied, store_outside zs (length (c ∷ bytes)) 0 (omega arith))
