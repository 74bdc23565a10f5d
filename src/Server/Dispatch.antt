-- ===== src/Server/Dispatch.antt =====
-- What the server does with what it reads (src/server.c): the invariant holds, and there is no memory
-- error.
use so.Base.{
  ℕ, ◌+◌, ◌-◌, ◌≤◌, ◌<◌, ◌≡◌, refl, ◌∙◌, inl, inr, Bool, true, false, ◌&&◌, fault, fault_after,
  List, [], ◌∷◌, ◌++◌, arith, ltb, ◌==◌, le→ltb, Bool-cases, length, drop, Ensures-bind, done,
  Ensures,
}
use so.Conf.{exec_task_flag, end_task_flag, list_running_tasks_flag, list_finished_tasks_flag}
use so.Files.{Whole}
use so.TaskVec.Valid as Vec
use so.BufWriter.{default_cap}
use so.BufWriter.Valid.{Follows}
use so.Server.{
  Server, Place, Round, Reading, read_failed, read_line, goes_on, exits, receive, c_string,
  string_at, list_running, list_finished, list_tasks, dispatch, on_line, on_reading, end_task, step,
  line_buf_size,
}
use so.Server.Invariant.{IsServer, Follows-WriterReady}
use so.TaskVec.Ready.{task_limit, Grants}
use so.Server.Safety.{Keeps, stays, exec_task-Keeps}
use so.Server.Commands.{end_task_untested, end_task_tested}
use so.ParseSize.Slices.{is_tested}
use so.Server.Rounds.{list_tasks-Follows}
use so.Server.Receive.{c_string_stops, receive_lem}

-- What is read leaves room for a NUL, and is more than one byte, if it is any.
abbrev pub Sized : Reading → Type 0
Sized read_failed = Unit {0}
Sized (read_line []) = Unit {0}
Sized (read_line (c ∷ bytes)) = (0 < length bytes) × (length bytes + 1 < line_buf_size)

-- Whether what is read is a command to end a task whose text goes on, with no minus sign, behind its
-- spaces, so that the pointer is tested in place of the character.
abbrev pub reads_tested : Reading → Bool
reads_tested read_failed = false
reads_tested (read_line []) = false
reads_tested (read_line (c ∷ bytes)) = (c == end_task_flag) && is_tested (drop 1 bytes)

abbrev pub IsUntested : Round → Type 0
IsUntested round = reads_tested round.reading ≡ false

second : {a b : Bool} → a ≡ true → (a && b) ≡ false → b ≡ false
second {a} {b} first both = rw (← both, first) refl

-- A round in which what is read has a size that the server can hold, the allocator grants a request
-- of each call, and a system call that writes fails or takes all bytes. `fork` and `kill` may do what
-- they like.
pub record IsSane (round : Round) : Type 0 where
  pub sized : Sized round.reading
  pub grants : Grants round.alloc
  pub whole : (i : ℕ) → Whole (default_cap + line_buf_size) (round.answers i)

module _ (place : Place) where
  name_read :
      (line_buf : List ℕ)
      → string_at place line_buf (place.line_addr + 2) ≡ c_string (drop 2 line_buf)
  unfolding string_at
  name_read line_buf =
      let behind : ltb (place.line_addr + 2) place.line_addr ≡ false =
        le→ltb (place.line_addr + 2) place.line_addr (omega arith) in
      let two : place.line_addr + 2 - place.line_addr ≡ 2 = omega arith in rw (behind, two)

  list_running-Keeps :
      (round : Round) (s : Server) (name : List ℕ)
      → IsServer place s
      → IsSane round
      → c_string (drop 2 s.line_buf) ≡ done name
      → length name < default_cap
      → Ensures (list_running place round s) (Keeps place s.total_tasks)
  unfolding list_running
  list_running-Keeps round s name h sane reads short =
      Ensures-bind (λ r. Follows s.running_writer r.1) _
        (list_tasks place s.line_buf round.answers s.running s.running_writer s.log) _
        (list_tasks-Follows place s.line_buf round.answers s.running name (place.line_addr + 2)
          (name_read s.line_buf ∙ reads) short sane.whole s.running_writer s.log
          h.running_ready.valid h.running_ready.named h.running_writer_ready)
        λ (b, w, log) f. (
          record {
            running_ready = h.running_ready;
            finished_valid = h.finished_valid;
            none_finished = h.none_finished;
            handler_sees = h.handler_sees;
            running_writer_ready = Follows-WriterReady h.running_writer_ready f;
            finished_writer_ready = h.finished_writer_ready;
            line_room = h.line_room;
          },
          omega arith,
        )

  list_finished-Keeps :
      (round : Round) (s : Server) (name : List ℕ)
      → IsServer place s
      → IsSane round
      → c_string (drop 2 s.line_buf) ≡ done name
      → length name < default_cap
      → Ensures (list_finished place round s) (Keeps place s.total_tasks)
  unfolding list_finished
  list_finished-Keeps round s name h sane reads short =
      let none_there : Vec.tasks s.finished ≡ [] = rw h.none_finished in
      Ensures-bind (λ r. Follows s.finished_writer r.1) _
        (list_tasks place s.line_buf round.answers s.finished s.finished_writer s.log) _
        (list_tasks-Follows place s.line_buf round.answers s.finished name (place.line_addr + 2)
          (name_read s.line_buf ∙ reads) short sane.whole s.finished_writer s.log h.finished_valid
          (rw none_there tt) h.finished_writer_ready)
        λ (b, w, log) f. (
          record {
            running_ready = h.running_ready;
            finished_valid = h.finished_valid;
            none_finished = h.none_finished;
            handler_sees = h.handler_sees;
            running_writer_ready = h.running_writer_ready;
            finished_writer_ready = Follows-WriterReady h.finished_writer_ready f;
            line_room = h.line_room;
          },
          omega arith,
        )

  end_task-Keeps :
      (round : Round) (s : Server) (bytes : List ℕ)
      → IsServer place s
      → 2 ≤ length bytes
      → is_tested (drop 2 bytes) ≡ false
      → Ensures (end_task place round s bytes) (Keeps place s.total_tasks)
  end_task-Keeps round s bytes h enough untested =
      rw (end_task_untested place round s bytes enough untested) (stays place goes_on s h)

  dispatch-Keeps :
      (round : Round) (s : Server) (bytes name : List ℕ) (flag : ℕ)
      → IsServer place s
      → IsSane round
      → s.total_tasks < task_limit
      → 2 ≤ length bytes
      → c_string (drop 2 s.line_buf) ≡ done name
      → length name < default_cap
      → ((flag == end_task_flag) && is_tested (drop 2 bytes)) ≡ false
      → Ensures (dispatch place round s bytes flag) (Keeps place s.total_tasks)
  unfolding dispatch
  dispatch-Keeps round s bytes name flag h sane small enough reads short untested =
      elim (Bool-cases (flag == exec_task_flag)) [
        | inl e ↦ rw e (exec_task-Keeps place round.alloc s round.forking h sane.grants small)
        | inr e ↦ rw e (elim (Bool-cases (flag == end_task_flag)) [
          | inl e ↦ rw e (end_task-Keeps round s bytes h enough (second e untested))
          | inr e ↦ rw e (elim (Bool-cases (flag == list_running_tasks_flag)) [
            | inl e ↦ rw e (list_running-Keeps round s name h sane reads short)
            | inr e ↦ rw e (elim (Bool-cases (flag == list_finished_tasks_flag)) [
              | inl e ↦ rw e (list_finished-Keeps round s name h sane reads short)
              | inr e ↦ rw e (stays place goes_on s h)
            ])
          ])
        ])
      ]

  with_line :
      (s : Server) (line_buf : List ℕ)
      → IsServer place s
      → length line_buf ≡ line_buf_size
      → IsServer place (record s { line_buf = line_buf })
  with_line s line_buf h room = record {
    running_ready = h.running_ready;
    finished_valid = h.finished_valid;
    none_finished = h.none_finished;
    handler_sees = h.handler_sees;
    running_writer_ready = h.running_writer_ready;
    finished_writer_ready = h.finished_writer_ready;
    line_room = room;
  }

  pub on_reading-Keeps :
      (round : Round) (s : Server) (r : Reading)
      → IsServer place s
      → IsSane round
      → Sized r
      → s.total_tasks < task_limit
      → reads_tested r ≡ false
      → Ensures (on_reading place round s r) (Keeps place s.total_tasks)
  unfolding on_reading on_line
  on_reading-Keeps round s read_failed h sane sized small untested = stays place exits s h
  on_reading-Keeps round s (read_line []) h sane sized small untested = stays place goes_on s h
  on_reading-Keeps round s (read_line (c ∷ [])) h sane (more, fits) small untested =
      absurd (omega arith)
  on_reading-Keeps round s (read_line (c ∷ d ∷ xs)) h sane (more, fits) small untested =
      let (rest, received, room) = receive_lem s.line_buf (c ∷ d ∷ xs) h.line_room (omega arith) in
      let (name, reads, short) = c_string_stops xs rest in
      rw received (
        dispatch-Keeps round (record s { line_buf = c ∷ d ∷ (xs ++ 0 ∷ rest) }) (c ∷ d ∷ xs) name c
          (with_line s (c ∷ d ∷ (xs ++ 0 ∷ rest)) h room) sane small (omega arith) reads
          (omega arith) untested)

both_true : (a b : Bool) → (a && b) ≡ true → (a ≡ true) × (b ≡ true)
both_true true b h = (refl, h)
both_true false b h = cc

on_reading_tested :
    (place : Place) (round : Round) (s : Server) (r : Reading)
    → reads_tested r ≡ true
    → on_reading place round s r ≡ fault
unfolding on_reading on_line dispatch
on_reading_tested place round s read_failed h = cc
on_reading_tested place round s (read_line []) h = cc
on_reading_tested place round s (read_line (c ∷ bytes)) h =
    let (flag, tested) = both_true (c == end_task_flag) (is_tested (drop 1 bytes)) h in
    let other : (c == exec_task_flag) ≡ false = ground arith in
    fault_after (receive s.line_buf (c ∷ bytes)) _ λ line_buf.
      rw (other, flag)
        (end_task_tested place round (record s { line_buf = line_buf }) (c ∷ bytes) tested)

-- The other rounds.
pub step_tested :
    (place : Place) (round : Round) (s : Server)
    → reads_tested round.reading ≡ true
    → step place round s ≡ fault
unfolding step
step_tested place round s tested = on_reading_tested place round s round.reading tested
