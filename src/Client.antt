-- ===== src/Client.antt =====
-- src/client.c: the commands and their names, and how the client writes a command to the fifo.
pub mod Lines
pub mod Options
pub mod Copy
pub mod Names
pub mod Send
pub mod Listing
pub mod Interactive
pub mod Lost
pub mod Twice
pub mod Session
pub mod Quiet
pub mod Turns
pub mod GoesOn
pub mod Ends
pub mod Exit
pub mod Help
mod Tests
use so.Base.{
  ℕ, zero, suc, Bool, true, false, not, ◌&&◌, Option, none, some, List, [], ◌∷◌, ◌==◌,
  if◌then◌else◌, length, Exec, done, ◌>>=◌,
}
use so.Files.{Answer, Log}
use so.Conf.{
  exec_task_cmd, end_task_cmd, set_active_timeout_cmd, set_inactive_timeout_cmd,
  list_running_tasks_cmd, list_finished_tasks_cmd, help_cmd,
}
use so.ParseSize.{is_space, ParseSizeOutcome}
use so.BufWriter
use so.BufWriter.{BufWriter, BwOutcome}

-- `typedef enum { ... } Command`
pub data Command : Type 0 where
  exec_task end_task set_active_timeout set_inactive_timeout list_running_tasks list_finished_tasks
        help :
      Command

-- `arg_strs[cmd]`, two characters without a NUL.
unfoldable pub arg_str : Command → List ℕ
arg_str exec_task = b'e' ∷ b' ' ∷ []
arg_str end_task = b't' ∷ b' ' ∷ []
arg_str set_active_timeout = b'm' ∷ b' ' ∷ []
arg_str set_inactive_timeout = b'i' ∷ b' ' ∷ []
arg_str list_running_tasks = b'l' ∷ b' ' ∷ []
arg_str list_finished_tasks = b'r' ∷ b' ' ∷ []
arg_str help = b'h' ∷ b' ' ∷ []

-- EXIT_SUCCESS and EXIT_FAILURE
pub data Status : Type 0 where
  success failure : Status

abbrev pub Sent : Type 0
Sent = Exec (Status × BufWriter × Log)

abbrev pub status : BwOutcome → Status
status BwOutcome.ok = success
status _ = failure

-- What follows a call of the writer: the rest of the function, or the return of EXIT_FAILURE.
unfoldable pub if_ok : (BufWriter → Log → Sent) → BufWriter.Result → Sent
if_ok follow (BwOutcome.ok, w, log) = follow w log
if_ok follow (_, w, log) = done (failure, w, log)

-- The flush at the end of each branch.
unfoldable pub finish : Answer → BufWriter → Log → Sent
unfolding if_ok
finish ans w log = BufWriter.flush ans w log >>= if_ok (λ w' log'. done (success, w', log'))

-- The branch of the commands with an argument.
unfoldable pub write_with_arg : (ℕ → Answer) → BufWriter → Command → List ℕ → Log → Sent
unfolding if_ok finish
write_with_arg answers w cmd arg log =
    BufWriter.write (answers 0) w (arg_str cmd) 2 log
    >>= if_ok λ w' log'.
      BufWriter.write_line (answers 1) w' arg (length arg) log'
      >>= if_ok λ w'' log''. finish (answers 2) w'' log''

-- The branch of the two listings.
unfoldable pub write_alone : (ℕ → Answer) → BufWriter → Command → Log → Sent
unfolding if_ok finish
write_alone answers w cmd log =
    BufWriter.write_line (answers 0) w (arg_str cmd) 2 log
    >>= if_ok λ w' log'. finish (answers 1) w' log'

-- `write_cmd`, where `arg` is the string `argv[2]`.
unfoldable pub write_cmd : (ℕ → Answer) → BufWriter → Command → List ℕ → Log → Sent
write_cmd answers w exec_task arg log = write_with_arg answers w exec_task arg log
write_cmd answers w end_task arg log = write_with_arg answers w end_task arg log
write_cmd answers w set_active_timeout arg log = write_with_arg answers w set_active_timeout arg log
write_cmd answers w set_inactive_timeout arg log =
    write_with_arg answers w set_inactive_timeout arg log
write_cmd answers w list_running_tasks arg log = write_alone answers w list_running_tasks log
write_cmd answers w list_finished_tasks arg log = write_alone answers w list_finished_tasks log
write_cmd answers w help arg log = done (success, w, log)

-- `write_cmd_i`, which has the same branches, where `arg` is what stands between the two pointers.
unfoldable pub write_cmd_i : (ℕ → Answer) → BufWriter → Command → List ℕ → Log → Sent
write_cmd_i answers w exec_task arg log = write_with_arg answers w exec_task arg log
write_cmd_i answers w end_task arg log = write_with_arg answers w end_task arg log
write_cmd_i answers w set_active_timeout arg log =
    write_with_arg answers w set_active_timeout arg log
write_cmd_i answers w set_inactive_timeout arg log =
    write_with_arg answers w set_inactive_timeout arg log
write_cmd_i answers w list_running_tasks arg log = write_alone answers w list_running_tasks log
write_cmd_i answers w list_finished_tasks arg log = write_alone answers w list_finished_tasks log
write_cmd_i answers w help arg log = done (success, w, log)

-- `is_empty_str`: what the test says of a character is dropped.
unfoldable pub is_empty_str : List ℕ → Bool
is_empty_str [] = true
is_empty_str (c ∷ s) = let dropped = if not (is_space c) then false else true in is_empty_str s

-- `strncmp(s, t, n) == 0`; `t` is a string without its NUL, and there are `n` characters of `s`.
unfoldable pub strncmp_zero : List ℕ → List ℕ → ℕ → Bool
strncmp_zero s t zero = true
strncmp_zero [] t (suc n) = false
strncmp_zero (a ∷ s) [] (suc n) = a == 0
strncmp_zero (a ∷ s) (b ∷ t) (suc n) = let rest = strncmp_zero s t n in (a == b) && rest

unfoldable pub cmd_name : Command → List ℕ
cmd_name exec_task = exec_task_cmd
cmd_name end_task = end_task_cmd
cmd_name set_active_timeout = set_active_timeout_cmd
cmd_name set_inactive_timeout = set_inactive_timeout_cmd
cmd_name list_running_tasks = list_running_tasks_cmd
cmd_name list_finished_tasks = list_finished_tasks_cmd
cmd_name help = help_cmd

-- The commands in the order in which `find_cmd` tries them.
abbrev pub commands : List Command
commands =
    exec_task ∷ end_task ∷ set_active_timeout ∷ set_inactive_timeout ∷ list_running_tasks
    ∷ list_finished_tasks ∷ help ∷ []

unfoldable pub find_among : List Command → List ℕ → Option Command
find_among [] word = none
find_among (cmd ∷ cmds) word =
    let rest = find_among cmds word in
    if strncmp_zero word (cmd_name cmd) (length word) then some cmd else rest

unfoldable pub find_cmd : List ℕ → Option Command
find_cmd word = find_among commands word

unfoldable pub is_read : ParseSizeOutcome → Bool
is_read ParseSizeOutcome.ok = true
is_read _ = false
