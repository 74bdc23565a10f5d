-- ===== src/Server/Invariant.antt =====
-- The invariant of the server's state between two rounds of its loop (src/server.c).
use so.Base.{
  ℕ, zero, suc, ◌+◌, ◌*◌, ◌≤◌, ◌<◌, ◌≡◌, ◌∙◌, ◌≢◌, List, [], ◌∷◌, ◌++◌, arith, length, take, drop,
  All, All-append, All-take-drop,
}
use so.TaskVec.{Task, TaskVec}
use so.TaskVec.Valid as Vec
use so.BufWriter.{BufWriter, default_cap}
use so.BufWriter.Valid.{IsValid, Follows}
use so.Server.{Server, Place, line_buf_size}

-- Each id is less than those behind it, so no two tasks have one id.
abbrev pub Increasing : List Task → Type 0
Increasing [] = Unit {0}
Increasing (t ∷ ts) = All (λ u. t.task_id < u.task_id) ts × Increasing ts

pub Increasing-snoc :
    (ts : List Task) (u : Task)
    → Increasing ts
    → All (λ t. t.task_id < u.task_id) ts
    → Increasing (ts ++ u ∷ [])
Increasing-snoc [] u h below = (tt, tt)
Increasing-snoc (t ∷ ts) u (first, h) (less, below) = (
  All-append (λ x. t.task_id < x.task_id) ts (u ∷ []) first (less, tt),
  Increasing-snoc ts u h below,
)

pub Increasing-without :
    (i : ℕ) (ts : List Task) → Increasing ts → Increasing (take i ts ++ drop (i + 1) ts)
Increasing-without zero [] h = tt
Increasing-without zero (t ∷ ts) h = h.1
Increasing-without (suc i) [] h = let e : suc i + 1 ≡ suc (i + 1) = omega arith in rw e tt
Increasing-without (suc i) (t ∷ ts) (first, h) =
    let e : suc i + 1 ≡ suc (i + 1) = omega arith in
    rw e (All-take-drop (λ u. t.task_id < u.task_id) i (i + 1) ts first, Increasing-without i ts h)

-- A writer as `main` set it up, or a later state of it.
pub record WriterReady (w : BufWriter) : Type 0 where
  pub valid : IsValid w
  pub whole_cap : w.cap ≡ default_cap

-- The tasks that run: a valid array, whose capacity is not one and not much more than the number of
-- tasks so far, with the name that the server gives and with increasing ids below that number.
pub record TasksReady (place : Place) (total : ℕ) (v : TaskVec) : Type 0 where
  pub valid : Vec.IsValid v
  pub named : All (λ t. t.task_name ≡ place.line_addr + 2) (Vec.tasks v)
  pub counted : All (λ t. t.task_id < total) (Vec.tasks v)
  pub increasing : Increasing (Vec.tasks v)
  pub few : v.len ≤ total
  pub cap_few : v.cap ≤ 2 * total + 2
  pub cap_not_one : v.cap ≢ 1

pub record IsServer (place : Place) (s : Server) : Type 0 where
  pub running_ready : TasksReady place s.total_tasks s.running
  pub finished_valid : Vec.IsValid s.finished
  pub none_finished : s.finished.len ≡ 0
  pub handler_sees : s.file_running.len ≡ 0
  pub running_writer_ready : WriterReady s.running_writer
  pub finished_writer_ready : WriterReady s.finished_writer
  pub line_room : length s.line_buf ≡ line_buf_size

pub Follows-WriterReady : {w w' : BufWriter} → WriterReady w → Follows w w' → WriterReady w'
Follows-WriterReady ready f = record { valid = f.valid; whole_cap = f.same_cap ∙ ready.whole_cap }
