-- ===== src/Client/Lines.antt =====
-- A round of the interactive loop of the client (src/client.c).
use so.Base.{
  ℕ, ◌+◌, ◌-◌, Option, none, some, List, [], ◌∷◌, ◌==◌, if◌then◌else◌, length, Exec, done, ◌>>=◌,
}
use so.Files.{Answer, Log}
use so.ParseSize.{parse_size_slice, is_space}
use so.BufWriter.{BufWriter}
use so.Client.{
  Command, exec_task, end_task, set_active_timeout, set_inactive_timeout, list_running_tasks,
  list_finished_tasks, help, Status, success, failure, write_cmd_i, is_empty_str, find_cmd, is_read,
}

unfoldable pub skip_spaces : List ℕ → List ℕ
skip_spaces [] = []
skip_spaces (c ∷ s) = let rest = skip_spaces s in if is_space c then rest else c ∷ s

-- The characters up to the next space, and the others.
unfoldable pub split_word : List ℕ → List ℕ × List ℕ
split_word [] = ([], [])
split_word (c ∷ s) =
    let (word, rest) = split_word s in if is_space c then ([], c ∷ s) else (c ∷ word, rest)

-- Behind a line the client reads the next one, ends with a status, or copies the fifo of the listing
-- to its output.
pub data Next : Type 0 where
  reads_on : Next
  ends : Status → Next
  copies : Command → Next

abbrev pub Line : Type 0
Line = Exec (Next × BufWriter × Log)

-- The macro `try_write_cmd_i_`, and what the client does when all went well.
unfoldable pub try_write_cmd_i : (ℕ → Answer) → BufWriter → Command → List ℕ → Log → Next → Line
try_write_cmd_i answers w cmd arg log next =
    write_cmd_i answers w cmd arg log >>= λ (result, w', log').
    done (elim result [ success ↦ next | failure ↦ ends failure ], w', log')

-- The case of a command whose argument is a number; `i` is the address of `rest`.
unfoldable pub with_number : ℕ → (ℕ → Answer) → BufWriter → Command → List ℕ → Log → Line
with_number i answers w cmd rest log =
    if is_empty_str rest
    then done (reads_on, w, log)
    else (parse_size_slice i rest 0 (some 0) >>= λ parsed.
        if is_read parsed.outcome
        then try_write_cmd_i answers w cmd rest log reads_on
        else done (reads_on, w, log))

unfoldable pub on_command : ℕ → (ℕ → Answer) → BufWriter → Command → List ℕ → Log → Line
on_command i answers w exec_task rest log =
    if is_empty_str rest
    then done (reads_on, w, log)
    else try_write_cmd_i answers w exec_task rest log reads_on
on_command i answers w list_running_tasks rest log =
    try_write_cmd_i answers w list_running_tasks rest log (copies list_running_tasks)
on_command i answers w list_finished_tasks rest log =
    try_write_cmd_i answers w list_finished_tasks rest log (copies list_finished_tasks)
on_command i answers w help rest log = done (reads_on, w, log)
on_command i answers w end_task rest log = with_number i answers w end_task rest log
on_command i answers w set_active_timeout rest log =
    with_number i answers w set_active_timeout rest log
on_command i answers w set_inactive_timeout rest log =
    with_number i answers w set_inactive_timeout rest log

unfoldable pub on_word : ℕ → (ℕ → Answer) → BufWriter → Option Command → List ℕ → Log → Line
on_word i answers w none rest log = done (reads_on, w, log)
on_word i answers w (some cmd) rest log = on_command i answers w cmd rest log

-- A round of the interactive loop, for the characters that `read` gave; `line_addr` is the address of
-- the line buffer.
unfoldable pub on_line : ℕ → (ℕ → Answer) → BufWriter → List ℕ → Log → Line
on_line line_addr answers w [] log = done (ends success, w, log)
on_line line_addr answers w (c ∷ s) log =
    let (word, rest) = split_word (skip_spaces (c ∷ s)) in
    let i = line_addr + (length (c ∷ s) - length rest) in
    if length word == 0
    then done (reads_on, w, log)
    else on_word i answers w (find_cmd word) rest log
