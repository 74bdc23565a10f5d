-- ===== src/Server/Start.antt =====
-- The start of `main` (src/server.c).
use so.Base.{ℕ, Bool, ◌&&◌, Option, none, some, [], ◌==◌, if◌then◌else◌}
use so.Base.Cells.{null, Grant, fill}
use so.TaskVec
use so.TaskVec.{TaskVec, new}
use so.BufWriter
use so.BufWriter.{BufWriter, BwOutcome, with_default_cap}
use so.Server.{Server, line_buf_size}

-- What the system answers while `main` sets the server up: whether the directory and the three fifos
-- are there then, what `open` returns for the fifos, the storage for the two writers, whether the
-- handler could be set; and what `line_buf` holds first.
pub record Setup : Type 0 where
  pub directory_made : Bool
  pub commands_made : Bool
  pub running_made : Bool
  pub finished_made : Bool
  pub commands_opened : Option ℕ
  pub running_opened : Option ℕ
  pub finished_opened : Option ℕ
  pub running_grant : Grant ℕ
  pub finished_grant : Grant ℕ
  pub handlers_set : Bool
  pub junk : ℕ → ℕ

-- `open(...) == -1`, which is what `main` stores as the descriptor of the second and the third fifo.
abbrev pub open_test : Option ℕ → ℕ
open_test none = 1
open_test (some fd) = 0

abbrev pub unset_writer : BufWriter
unset_writer = record { file_des = 0; buf = null; pos = 0; cap = 0 }

abbrev pub unset_vec : TaskVec
unset_vec = record { buf = null; len = 0; cap = 0 }

unfoldable pub start_writers : Setup → ℕ → ℕ → Option Server
start_writers setup running_fd finished_fd =
    let (outcome₁, w₁) = BufWriter.with_default_cap setup.running_grant unset_writer running_fd in
    let (outcome₂, w₂) = BufWriter.with_default_cap setup.finished_grant unset_writer finished_fd in
    elim outcome₁ [
      | BwOutcome.ok ↦ elim outcome₂ [
        | BwOutcome.ok ↦
            if setup.handlers_set
            then some (record {
              file_running = unset_vec;
              file_finished = unset_vec;
              running = TaskVec.new unset_vec;
              finished = TaskVec.new unset_vec;
              running_writer = w₁;
              finished_writer = w₂;
              total_tasks = 0;
              line_buf = fill line_buf_size setup.junk;
              log = [];
              signalled = [];
            })
            else none
        | _ ↦ none
      ]
      | _ ↦ none
    ]

-- `main` up to its loop: the state of the server, or nothing where it returns EXIT_FAILURE.
unfoldable pub start : Setup → Option Server
unfolding start_writers
start setup =
    if setup.directory_made && setup.commands_made && setup.running_made && setup.finished_made
    then elim setup.commands_opened [
      | none ↦ none
      | some fd ↦
          let running_fd = open_test setup.running_opened in
          let finished_fd = open_test setup.finished_opened in
          if (running_fd == 0) && (finished_fd == 0)
          then start_writers setup running_fd finished_fd
          else none
    ]
    else none
