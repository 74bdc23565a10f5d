-- ===== src/Server/Begin.antt =====
-- The state in which the loop of `main` begins (src/server.c).
use mathlib.Core.Path.{subst}
use so.Base.{
  ℕ, ◌≡◌, refl, inl, inr, true, ◌&&◌, Option, none, some, [], arith, ◌==◌, if◌then◌else◌,
  Bool-cases, Option-cases, length,
}
use so.Base.Cells.{null, fill}
use so.Base.Cells.Laws.{length-fill}
use so.TaskVec.{new}
use so.TaskVec.Valid as Vec
use so.BufWriter.{BufWriter, with_default_cap, with_cap, default_cap}
use so.BufWriter.Valid.{IsValid, pending}
use so.Server.{Server, line_buf_size}
use so.Server.Start.{Setup, start, start_writers, open_test, unset_writer, unset_vec}

-- A valid writer with an empty buffer.
abbrev Fresh : BufWriter → Type 0
Fresh w = IsValid w × (pending w ≡ []) × (w.cap ≡ default_cap)

-- The state in which the loop begins.
pub record Begins (s : Server) : Type 0 where
  pub running_fresh : Fresh s.running_writer
  pub finished_fresh : Fresh s.finished_writer
  pub running_valid : Vec.IsValid s.running
  pub finished_valid : Vec.IsValid s.finished
  pub nothing_runs : Vec.tasks s.running ≡ []
  pub no_storage : s.running.cap ≡ 0
  pub nothing_finished : Vec.tasks s.finished ≡ []
  pub handler_sees : s.file_running.len ≡ 0
  pub none_running_there : s.file_running.buf ≡ null
  pub none_finished_there : s.file_finished.buf ≡ null
  pub line_room : length s.line_buf ≡ line_buf_size
  pub counted : s.total_tasks ≡ 0
  pub no_signal : s.signalled ≡ []

fresh : (fd : ℕ) (junk : ℕ → ℕ) → Fresh (with_default_cap (some junk) unset_writer fd).1
unfolding with_default_cap with_cap
fresh fd junk = (
  record {
    live = refl;
    storage = length-fill default_cap junk;
    pos_in = omega arith;
    positive = omega arith;
    small = omega arith;
  },
  refl,
  refl,
)

empty_vec : Vec.IsValid (new unset_vec)
unfolding new
empty_vec = record { live = refl; storage = refl; len_in = omega arith; fits = omega arith }

-- What the start makes, for two descriptors.
abbrev begun : ℕ → ℕ → (ℕ → ℕ) → (ℕ → ℕ) → (ℕ → ℕ) → Server
begun fd₁ fd₂ junk₁ junk₂ junk = record {
  file_running = unset_vec;
  file_finished = unset_vec;
  running = new unset_vec;
  finished = new unset_vec;
  running_writer = (with_default_cap (some junk₁) unset_writer fd₁).1;
  finished_writer = (with_default_cap (some junk₂) unset_writer fd₂).1;
  total_tasks = 0;
  line_buf = fill line_buf_size junk;
  log = [];
  signalled = [];
}

begun-Begins : (fd₁ fd₂ : ℕ) (junk₁ junk₂ junk : ℕ → ℕ) → Begins (begun fd₁ fd₂ junk₁ junk₂ junk)
unfolding new
begun-Begins fd₁ fd₂ junk₁ junk₂ junk = record {
  running_fresh = fresh fd₁ junk₁;
  finished_fresh = fresh fd₂ junk₂;
  running_valid = empty_vec;
  finished_valid = empty_vec;
  nothing_runs = refl;
  no_storage = refl;
  nothing_finished = refl;
  handler_sees = refl;
  none_running_there = refl;
  none_finished_there = refl;
  line_room = length-fill line_buf_size junk;
  counted = refl;
  no_signal = refl;
}

-- When every call succeeds, whatever descriptors open returns, main comes to its loop with empty
-- valid arrays and valid writers, and both writers write to the descriptor 0.
pub start_lem :
    (commands_fd running_fd finished_fd : ℕ) (junk₁ junk₂ junk : ℕ → ℕ)
    → let setup : Setup = record {
      directory_made = true;
      commands_made = true;
      running_made = true;
      finished_made = true;
      commands_opened = some commands_fd;
      running_opened = some running_fd;
      finished_opened = some finished_fd;
      running_grant = some junk₁;
      finished_grant = some junk₂;
      handlers_set = true;
      junk = junk;
    } in
      (s : Server) × (start setup ≡ some s)
      × Begins s
      × (s.running_writer.file_des ≡ 0)
      × (s.finished_writer.file_des ≡ 0)
unfolding start start_writers with_default_cap with_cap new
start_lem commands_fd running_fd finished_fd junk₁ junk₂ junk =
    (_, refl, begun-Begins 0 0 junk₁ junk₂ junk, refl, refl)

start_writers-Begins :
    (setup : Setup) (fd₁ fd₂ : ℕ) (s : Server) → start_writers setup fd₁ fd₂ ≡ some s → Begins s
unfolding start_writers with_default_cap with_cap
start_writers-Begins setup fd₁ fd₂ s h = elim (Option-cases setup.running_grant) [
  | inl e ↦ let never : ◌≡◌ {A = Option Server} none (some s) = rw e at h in absurd (cc)
  | inr (junk₁, e) ↦ elim (Option-cases setup.finished_grant) [
    | inl e' ↦ let never : ◌≡◌ {A = Option Server} none (some s) = rw (e, e') at h in absurd (cc)
    | inr (junk₂, e') ↦ elim (Bool-cases setup.handlers_set) [
      | inr e'' ↦
          let never : ◌≡◌ {A = Option Server} none (some s) = rw (e, e', e'') at h in absurd (cc)
      | inl e'' ↦
          let made : some (begun fd₁ fd₂ junk₁ junk₂ setup.junk) ≡ some s = rw (e, e', e'') at h in
          let same : begun fd₁ fd₂ junk₁ junk₂ setup.junk ≡ s = cc in
          subst Begins same (begun-Begins fd₁ fd₂ junk₁ junk₂ setup.junk)
    ]
  ]
]

start_opened-Begins :
    (setup : Setup) (fd₁ fd₂ : ℕ) (s : Server)
    → (if (fd₁ == 0) && (fd₂ == 0) then start_writers setup fd₁ fd₂ else none) ≡ some s
    → Begins s
start_opened-Begins setup fd₁ fd₂ s h = elim (Bool-cases ((fd₁ == 0) && (fd₂ == 0))) [
  | inl e ↦ start_writers-Begins setup fd₁ fd₂ s (rw e at h)
  | inr e ↦ let never : ◌≡◌ {A = Option Server} none (some s) = rw e at h in absurd (cc)
]

-- Whenever `main` comes to its loop, its arrays are empty and its writers are fresh.
pub start-Begins : (setup : Setup) (s : Server) → start setup ≡ some s → Begins s
unfolding start
start-Begins setup s h =
    elim (Bool-cases
      (setup.directory_made && setup.commands_made && setup.running_made && setup.finished_made)) [
        | inr e ↦ let never : ◌≡◌ {A = Option Server} none (some s) = rw e at h in absurd (cc)
        | inl e ↦ elim (Option-cases setup.commands_opened) [
          | inl e' ↦
              let never : ◌≡◌ {A = Option Server} none (some s) = rw (e, e') at h in absurd (cc)
          | inr (fd, e') ↦
              start_opened-Begins setup (open_test setup.running_opened)
                (open_test setup.finished_opened) s (rw (e, e') at h)
        ]
      ]
