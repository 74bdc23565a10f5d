-- ===== src/ComfyIo.antt =====
-- include/comfy_io.h: the macros that print to the standard error. Texts are their characters, as
-- `fprintf` formats them, and the standard error is what was printed to it so far. `program_eputc` is
-- left out: it names a macro that is not there.
use so.Base.{ℕ, List, [], ◌∷◌, ◌++◌, codes}

abbrev pub Stderr : Type 0
Stderr = List ℕ

unfoldable pub eprintf : List ℕ → Stderr → Stderr
eprintf text err = err ++ text

unfoldable pub eprintln : List ℕ → Stderr → Stderr
unfolding eprintf
eprintln text err = eprintf (text ++ 10 ∷ []) err

unfoldable pub eputs : List ℕ → Stderr → Stderr
unfolding eprintln
eputs s err = eprintln s err

unfoldable pub eputc : ℕ → Stderr → Stderr
eputc c err = err ++ c ∷ []

unfoldable pub program_eprintf : List ℕ → List ℕ → Stderr → Stderr
unfolding eprintf
program_eprintf program_name text err = eprintf (program_name ++ codes ": " ++ text) err

unfoldable pub program_eprintln : List ℕ → List ℕ → Stderr → Stderr
unfolding program_eprintf
program_eprintln program_name text err = program_eprintf program_name (text ++ 10 ∷ []) err

unfoldable pub program_eputs : List ℕ → List ℕ → Stderr → Stderr
unfolding program_eprintln
program_eputs program_name s err = program_eprintln program_name s err
