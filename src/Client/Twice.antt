-- ===== src/Client/Twice.antt =====
-- The way of a command to execute from the client to a server that reads its two lines with two calls
-- (src/client.c and src/server.c).
use so.Base.{
  ℕ, ◌+◌, ◌≤◌, ◌<◌, ◌≡◌, refl, ap, ◌∙◌, inl, some, List, [], ◌∷◌, ◌++◌, arith, length, take, drop,
  length-append, drop-append, take-exact, Allows, Allows-after, Ensures-and, Allows-and,
  Ensures-bind, Ensures-mono, Ensures,
}
use so.Files.{sent}
use so.BufWriter.{newline, default_cap}
use so.TaskVec
use so.TaskVec.Ready.{task_limit}
use so.Server.{
  Server, Place, Round, Ending, goes_on, in_parent, read_line, exec_task, dispatch, on_line,
  on_reading, receive, step, run, after_round,
}
use so.Server.Invariant.{IsServer}
use so.Server.Safety.{Keeps}
use so.Server.Dispatch.{IsSane}
use so.Server.Loop.{step-Keeps}
use so.Server.Ledger.{starts_task, obey, order_of, ledger_of, Obeys}
use so.Server.Refines.{step-Obeys}
use so.Client.{Command, success, arg_str}
use so.Client.Options.{Setup, send}
use so.Client.Send.{message, send_lem}

-- A round that reads bytes and whose `fork` makes a child.
abbrev pub reads_for : List ℕ → ℕ → Round → Round
reads_for bytes pid round = record round { reading = read_line bytes; forking = in_parent pid }

-- What a round leaves that starts a task.
abbrev pub Starts : Place → ℕ → Server → Ending × Server → Type 0
Starts place pid s (how, s') =
    (how ≡ goes_on)
    × Keeps place s.total_tasks (how, s')
    × (ledger_of s' ≡ obey (starts_task pid) (ledger_of s))

module _ (place : Place) (arg : List ℕ) where
  exec_goes_on :
      (round : Round) (pid : ℕ) (s : Server)
      → Allows
          (step place (reads_for (message Command.exec_task arg) pid round) s)
          (λ (how, _). how ≡ goes_on)
  unfolding step on_reading on_line dispatch exec_task arg_str
  exec_goes_on round pid s =
      Allows-after (λ (how, _). how ≡ goes_on) (receive s.line_buf (message Command.exec_task arg))
        (λ line_buf.
          dispatch place (reads_for (message Command.exec_task arg) pid round)
            (record s { line_buf = line_buf }) (message Command.exec_task arg) b'e')
        λ line_buf.
          Allows-after (λ (how, _). how ≡ goes_on)
            (TaskVec.push round.alloc s.running (record {
              task_id = s.total_tasks;
              task_name = place.line_addr + 2;
              process_group = pid;
            }))
            _ λ r. refl

  exec-Starts :
      (round : Round) (pid : ℕ) (s : Server)
      → IsServer place s
      → IsSane (reads_for (message Command.exec_task arg) pid round)
      → s.total_tasks < task_limit
      → Ensures
          (step place (reads_for (message Command.exec_task arg) pid round) s)
          (Starts place pid s)
  unfolding arg_str
  exec-Starts round pid s h sane small =
      let r = reads_for (message Command.exec_task arg) pid round in
      Ensures-mono _ (Starts place pid s) (step place r s)
        (Ensures-and (Keeps place s.total_tasks) _ (step place r s)
          (step-Keeps place r s h sane small refl)
          (Allows-and (λ (how, _). how ≡ goes_on) (Obeys (order_of r) s) (step place r s)
            (exec_goes_on round pid s) (step-Obeys place r s h sane small)))
        λ (how, s') (kept, (goes, obeys)). (goes, kept, obeys goes)

  -- Two rounds that read the same command.
  start_twice :
      (r₁ r₂ : Round) (p q : ℕ) (s : Server)
      → IsServer place s
      → IsSane (reads_for (message Command.exec_task arg) p r₁)
      → IsSane (reads_for (message Command.exec_task arg) q r₂)
      → s.total_tasks + 1 < task_limit
      → Ensures
          (run place
            (reads_for (message Command.exec_task arg) p r₁
              ∷ reads_for (message Command.exec_task arg) q r₂
              ∷ [])
            s)
          (λ (how, s').
            (how ≡ goes_on)
            × (ledger_of s' ≡ obey (starts_task q) (obey (starts_task p) (ledger_of s))))
  unfolding run after_round
  start_twice r₁ r₂ p q s h sane sane' small =
      Ensures-bind (Starts place p s) _ _ _ (exec-Starts r₁ p s h sane (omega arith))
        λ (how, s') (goes, (h', more), told). rw goes (
          Ensures-bind (Starts place q s') _ _ _ (exec-Starts r₂ q s' h' sane' (omega arith))
            λ (how', s'') (goes', _, told').
              rw goes' (refl, told' ∙ ap (obey (starts_task q)) told))

-- When the fifo opens and the writer has its storage, the option to execute a command that fits
-- into the buffer of the writer succeeds, if the flush and the end of the writer have their calls
-- take all bytes; and when a server with its invariant, and fewer than 2 ^ 57 - 1 tasks so far,
-- reads what the client sent with two calls, a line with each, in rounds where fork makes a child,
-- the allocator grants a request of each call and a line leaves room for a NUL, then it starts two
-- tasks, one for each round, and goes on.
pub send-starts_twice :
    (setup : Setup) (fd k k' : ℕ) (junk : ℕ → ℕ) (place : Place) (r₁ r₂ : Round) (p q : ℕ)
    (s : Server) (arg : List ℕ)
    → setup.opened ≡ some fd
    → setup.grant ≡ some junk
    → setup.answers 2 ≡ some k
    → setup.answers 3 ≡ some k'
    → default_cap ≤ k
    → default_cap ≤ k'
    → 2 + length arg < default_cap
    → IsServer place s
    → IsSane (reads_for (message Command.exec_task arg) p r₁)
    → IsSane (reads_for (message Command.exec_task arg) q r₂)
    → s.total_tasks + 1 < task_limit
    → Ensures (send setup Command.exec_task arg) (λ (result, log).
      (result ≡ success)
      × Ensures
          (run place
            (reads_for (take (length arg + 3) (sent fd log)) p r₁
              ∷ reads_for (drop (length arg + 3) (sent fd log)) q r₂
              ∷ [])
            s)
          (λ (how, s').
            (how ≡ goes_on)
            × (ledger_of s' ≡ obey (starts_task q) (obey (starts_task p) (ledger_of s)))))
unfolding arg_str
send-starts_twice setup fd k k' junk place r₁ r₂ p q s arg opens grants takes takes' room room'
      short h sane sane' small =
    let m = message Command.exec_task arg in
    let size : length arg + 3 ≡ length m = omega (arith, length-append arg (newline ∷ [])) in
    let first : take (length arg + 3) (m ++ m) ≡ m = take-exact m m (length arg + 3) size in
    let second : drop (length arg + 3) (m ++ m) ≡ m = drop-append m m (length arg + 3) size in
    Ensures-mono _ _ (send setup Command.exec_task arg)
      (send_lem setup Command.exec_task arg fd k k' junk (inl refl) short opens grants takes takes'
        room room')
      λ (result, log) (well, out). (
        well,
        rw (ap (take (length arg + 3)) out ∙ first, ap (drop (length arg + 3)) out ∙ second)
            (start_twice place arg r₁ r₂ p q s h sane sane' small),
      )
