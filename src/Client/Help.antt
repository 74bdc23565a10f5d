-- ===== src/Client/Help.antt =====
-- `print_help` (src/client.c), and the options that it lists.
use so.Base.{ℕ, ◌≡◌, refl, false, Option, List, [], ◌∷◌, ◌++◌, arith, ne→==, codes, done}
use so.Conf.{
  exec_task_flag, end_task_flag, set_active_timeout_flag, set_inactive_timeout_flag,
  list_running_tasks_flag, list_finished_tasks_flag, help_flag,
}
use so.Client.{failure}
use so.Client.Options.{Setup, on_flag, on_option}
use so.Client.Exit.{program_name, is_among}

-- The options in the order of the text: the flag, what stands behind it, and what it is for.
abbrev pub help_options : List (ℕ × List ℕ × List ℕ)
help_options =
    (exec_task_flag, codes " [task1 | task2 | ...]\t", codes "Execute a task")
    ∷ (end_task_flag, codes " n\t\t\t\t", codes "End a task with id 'n'")
    ∷ (
      set_active_timeout_flag,
      codes " n\t\t\t\t",
      codes "Set a timeout of n seconds for task activity",
    )
    ∷ (
      set_inactive_timeout_flag,
      codes " n\t\t\t\t",
      codes "Set a timeout of n seconds for task inactivity",
    )
    ∷ (list_running_tasks_flag, codes "\t\t\t\t", codes "List all active tasks")
    ∷ (list_finished_tasks_flag, codes "\t\t\t\t", codes "List all finished tasks")
    ∷ (help_flag, codes "\t\t\t\t", codes "Display this message")
    ∷ []

unfoldable pub help_lines : List (ℕ × List ℕ × List ℕ) → List ℕ
help_lines [] = []
help_lines ((flag, gap, text) ∷ options) =
    codes "  -" ++ (flag ∷ gap ++ (text ++ (codes ".\n" ++ help_lines options)))

-- What is printed to the standard output.
unfoldable pub print_help : List ℕ
unfolding help_lines
print_help =
    codes "Usage: " ++ (program_name ++ (codes " [options]\nOptions:\n" ++ help_lines help_options))

abbrev pub flags : List (ℕ × List ℕ × List ℕ) → List ℕ
flags [] = []
flags ((flag, _, _) ∷ options) = flag ∷ flags options

-- An option that the text does not list.
pub unlisted_fails :
    (setup : Setup) (flag : ℕ) (more : List ℕ) (argument : Option (List ℕ))
    → is_among flag (flags help_options) ≡ false
    → on_option setup (b'-' ∷ flag ∷ more) argument ≡ done (failure, [])
unfolding on_option on_flag is_among
unlisted_fails setup flag more argument unlisted =
    rw
      (
        ne→== flag exec_task_flag (ground arith),
        ne→== flag end_task_flag (ground arith),
        ne→== flag set_active_timeout_flag (ground arith),
        ne→== flag set_inactive_timeout_flag (ground arith),
        ne→== flag list_running_tasks_flag (ground arith),
        ne→== flag list_finished_tasks_flag (ground arith),
        ne→== flag help_flag (ground arith),
      )
      refl
