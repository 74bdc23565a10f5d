-- ===== src/Conf.antt =====
-- include/argus_conf.h: the first byte of each command, and the words for them.
use so.Base.{ℕ, List, codes}

abbrev pub exec_task_flag : ℕ
exec_task_flag = b'e'

abbrev pub end_task_flag : ℕ
end_task_flag = b't'

abbrev pub set_active_timeout_flag : ℕ
set_active_timeout_flag = b'm'

abbrev pub set_inactive_timeout_flag : ℕ
set_inactive_timeout_flag = b'i'

abbrev pub list_running_tasks_flag : ℕ
list_running_tasks_flag = b'l'

abbrev pub list_finished_tasks_flag : ℕ
list_finished_tasks_flag = b'r'

abbrev pub help_flag : ℕ
help_flag = b'h'

abbrev pub exec_task_cmd : List ℕ
exec_task_cmd = codes "executar"

abbrev pub end_task_cmd : List ℕ
end_task_cmd = codes "terminar"

abbrev pub set_active_timeout_cmd : List ℕ
set_active_timeout_cmd = codes "tempo-execucao"

abbrev pub set_inactive_timeout_cmd : List ℕ
set_inactive_timeout_cmd = codes "tempo-inactividade"

abbrev pub list_running_tasks_cmd : List ℕ
list_running_tasks_cmd = codes "listar"

abbrev pub list_finished_tasks_cmd : List ℕ
list_finished_tasks_cmd = codes "historico"

abbrev pub help_cmd : List ℕ
help_cmd = codes "ajuda"
