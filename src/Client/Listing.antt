-- ===== src/Client/Listing.antt =====
-- What the client sends and prints for the options that list (`main` of src/client.c).
use so.Base.{
  ℕ, ◌+◌, ◌≤◌, ◌<◌, ◌≡◌, refl, sym, ap, ◌∙◌, ◌⊎◌, inl, inr, true, Option, none, some, List, [], ◌∷◌,
  ◌++◌, map, arith, length, take, take-length, All, Ensures-bind, Ensures-mono, Ensures,
}
use mathlib.Core.Path.{subst}
use so.Base.Cells.{block, fill}
use so.Files.{Answer, Log, sent}
use so.BufWriter
use so.BufWriter.{BufWriter, newline, default_cap, with_default_cap, with_cap}
use so.BufWriter.Valid.{IsValid, Follows, pending}
use so.BufWriter.Fits.{Buffers, write_line_fits}
use so.BufWriter.Flush.{drop_lem}
use so.Client.{
  Command, list_running_tasks, list_finished_tasks, Status, success, failure, arg_str, write_alone,
  write_cmd,
}
use so.Client.Options.{Setup, at_exit}
use so.Client.Send.{Flushed, finish_lem, if_ok_lem, fresh}
use so.Client.Copy.{
  Readings, Output, Stop, waits, breaks, returns_failure, copy_running, copy_finished, exit_with,
  after_copy, list_with, list_running_option, list_finished_option,
}

-- A listing command as a line.
abbrev pub request : Command → List ℕ
request cmd = arg_str cmd ++ newline ∷ []

abbrev pub IsListing : Command → Type 0
IsListing cmd = (cmd ≡ list_running_tasks) ⊎ (cmd ≡ list_finished_tasks)

write_alone_lem :
    (answers : ℕ → Answer) (w : BufWriter) (cmd : Command) (k : ℕ)
    → IsValid w
    → pending w ≡ []
    → w.pos + 2 < w.cap
    → length (arg_str cmd) ≡ 2
    → answers 1 ≡ some k
    → w.cap ≤ k
    → Ensures (write_alone answers w cmd []) (Flushed w (request cmd))
unfolding write_alone
write_alone_lem answers w cmd k valid empty short two takes room =
    Ensures-bind (Buffers w [] (take 2 (arg_str cmd) ++ newline ∷ [])) (Flushed w (request cmd))
      (BufWriter.write_line (answers 0) w (arg_str cmd) 2 []) _
      (write_line_fits (answers 0) w (arg_str cmd) 2 [] valid (omega arith) (omega arith))
      λ r wrote.
        if_ok_lem (Flushed w (request cmd)) _ w [] (take 2 (arg_str cmd) ++ newline ∷ []) r wrote
          λ w' f held.
            let whole : take 2 (arg_str cmd) ≡ arg_str cmd =
              take-length 2 (arg_str cmd) (omega arith) in
            rw takes (
              finish_lem k w w' (request cmd) f
                (held
                  ∙ ap (λ bs. bs ++ (take 2 (arg_str cmd) ++ newline ∷ [])) empty
                  ∙ ap (λ bs. bs ++ newline ∷ []) whole)
                room)

write_cmd_alone :
    (answers : ℕ → Answer) (w : BufWriter) (cmd : Command) (log : Log)
    → IsListing cmd
    → (write_cmd answers w cmd [] log ≡ write_alone answers w cmd log) × (length (arg_str cmd) ≡ 2)
unfolding write_cmd arg_str
write_cmd_alone answers w cmd log (inl e) = rw e (refl, refl)
write_cmd_alone answers w cmd log (inr e) = rw e (refl, refl)

-- What a client that lists ends with, and what it sent and printed, for a loop that stops so.
abbrev pub Lists : ℕ → List ℕ → Stop × Output → Option Status × Log × Output → Type 0
Lists fd bytes (waits, o) (result, log, out) = (result ≡ none) × (sent fd log ≡ bytes) × (out ≡ o)
Lists fd bytes (breaks, o) (result, log, out) =
    (result ≡ some success) × (sent fd log ≡ bytes ++ bytes) × (out ≡ o)
Lists fd bytes (returns_failure, o) (result, log, out) =
    (result ≡ some failure) × (sent fd log ≡ bytes ++ bytes) × (out ≡ o)

exit_with_lem :
    (k : ℕ) (result : Status) (w w' : BufWriter) (log : Log) (bytes : List ℕ) (o : Output)
    → Follows w w'
    → pending w' ≡ bytes
    → sent w.file_des log ≡ bytes
    → w.cap ≤ k
    → Ensures (exit_with (some k) result w' log o) (λ (result', log', out).
      (result' ≡ some result) × (sent w.file_des log' ≡ bytes ++ bytes) × (out ≡ o))
unfolding exit_with at_exit
exit_with_lem k result w w' log bytes o f held out room =
    Ensures-bind (λ (result', log'). (result' ≡ result) × (sent w.file_des log' ≡ bytes ++ bytes)) _
      (at_exit (some k) (result, w', log)) _
      (Ensures-bind _ _ (BufWriter.drop (some k) w' log) _
        (drop_lem k w' log f.valid (omega (arith, f.same_cap)))
        λ (_, _, log') (_, _, all_out). (
          refl,
          ap (λ d. sent d log') (sym f.same_file)
              ∙ all_out
              ∙ ap (λ bs. sent w'.file_des log ++ bs) held
              ∙ ap (λ d. sent d log ++ bytes) f.same_file
              ∙ ap (λ bs. bs ++ bytes) out,
        ))
      λ (result', log') (same, twice). (ap some same, twice, refl)

after_copy_lem :
    (k : ℕ) (w w' : BufWriter) (log : Log) (bytes : List ℕ) (copied : Stop × Output)
    → Follows w w'
    → pending w' ≡ bytes
    → sent w.file_des log ≡ bytes
    → w.cap ≤ k
    → Ensures (after_copy (some k) w' log copied) (Lists w.file_des bytes copied)
unfolding after_copy
after_copy_lem k w w' log bytes (waits, o) f held out room = (refl, out, refl)
after_copy_lem k w w' log bytes (breaks, o) f held out room =
    exit_with_lem k success w w' log bytes o f held out room
after_copy_lem k w w' log bytes (returns_failure, o) f held out room =
    exit_with_lem k failure w w' log bytes o f held out room

list_with_lem :
    (copy : Readings → Stop × Output) (setup : Setup) (readings : Readings) (cmd : Command)
    (fd k k' : ℕ) (junk : ℕ → ℕ)
    → IsListing cmd
    → setup.opened ≡ some fd
    → setup.grant ≡ some junk
    → setup.answers 1 ≡ some k
    → setup.answers 3 ≡ some k'
    → default_cap ≤ k
    → default_cap ≤ k'
    → Ensures (list_with copy setup true readings cmd) (Lists fd (request cmd) (copy readings))
unfolding list_with with_default_cap with_cap
list_with_lem copy setup readings cmd fd k k' junk lists opens grants takes takes' room room' =
    let w : BufWriter = record {
      file_des = fd;
      buf = block (fill default_cap junk);
      pos = 0;
      cap = default_cap;
    } in
    let (is_alone, two) = write_cmd_alone setup.answers w cmd [] lists in
    rw (opens, grants, is_alone)
      (Ensures-bind (Flushed w (request cmd)) _ (write_alone setup.answers w cmd []) _
        (write_alone_lem setup.answers w cmd k (fresh fd junk) refl (omega arith) two takes room)
        λ (result, w', log') (well, f, held, out).
          rw (well, takes')
            (after_copy_lem k' w w' log' (request cmd) (copy readings) f held out room'))

-- What the loop over the running tasks writes for the texts that it reads.
abbrev pub printed : List (List ℕ) → Output
printed texts = map (λ text. (text, length text)) texts

copy_running_lem :
    (texts : List (List ℕ)) (rest : Readings)
    → All (λ text. 0 < length text) texts
    → copy_running (map some texts ++ some [] ∷ rest) ≡ (breaks, printed texts)
unfolding copy_running
copy_running_lem [] rest full = refl
copy_running_lem ([] ∷ texts) rest (first, full) = absurd (omega arith)
copy_running_lem ((c ∷ text) ∷ texts) rest (first, full) =
    rw (copy_running_lem texts rest full) refl

-- When the two fifos open and the writer has its storage, the option that lists the running tasks
-- prints the texts that the fifo gives up to its end, in their order, and succeeds, if the flush
-- and the end of the writer have their calls take all bytes; the server got the command twice.
pub list_running_option_lem :
    (setup : Setup) (texts : List (List ℕ)) (rest : Readings) (fd k k' : ℕ) (junk : ℕ → ℕ)
    → All (λ text. 0 < length text) texts
    → setup.opened ≡ some fd
    → setup.grant ≡ some junk
    → setup.answers 1 ≡ some k
    → setup.answers 3 ≡ some k'
    → default_cap ≤ k
    → default_cap ≤ k'
    → Ensures
        (list_running_option setup true (map some texts ++ some [] ∷ rest))
        (λ (result, log, out).
          (result ≡ some success)
          × (sent fd log ≡ request list_running_tasks ++ request list_running_tasks)
          × (out ≡ printed texts))
unfolding list_running_option
list_running_option_lem setup texts rest fd k k' junk full opens grants takes takes' room room' =
    let readings = map some texts ++ some [] ∷ rest in
    subst
      (λ copied.
        Ensures (list_with copy_running setup true readings list_running_tasks)
          (Lists fd (request list_running_tasks) copied))
      (copy_running_lem texts rest full)
      (list_with_lem copy_running setup readings list_running_tasks fd k k' junk (inl refl) opens
        grants takes takes' room room')

-- No call that writes has what a read gave.
abbrev pub IsBlind : Output → Type 0
IsBlind out = All (λ (bytes, n). bytes ≡ []) out

copy_finished-IsBlind : (readings : Readings) → IsBlind (copy_finished readings).1
unfolding copy_finished
copy_finished-IsBlind [] = tt
copy_finished-IsBlind (none ∷ readings) = (refl, copy_finished-IsBlind readings)
copy_finished-IsBlind (some bytes ∷ readings) = tt

Lists-output :
    (fd : ℕ) (bytes : List ℕ) (copied : Stop × Output) (r : Option Status × Log × Output)
    → Lists fd bytes copied r
    → r.2 ≡ copied.1
Lists-output fd bytes (waits, o) (result, log, out) (_, _, e) = e
Lists-output fd bytes (breaks, o) (result, log, out) (_, _, e) = e
Lists-output fd bytes (returns_failure, o) (result, log, out) (_, _, e) = e

-- When the two fifos open and the writer has its storage, and the flush and the end of the writer
-- have their calls take all bytes, the option that lists the finished tasks prints nothing of what
-- the fifo gives, whatever that is.
pub list_finished_option-IsBlind :
    (setup : Setup) (readings : Readings) (fd k k' : ℕ) (junk : ℕ → ℕ)
    → setup.opened ≡ some fd
    → setup.grant ≡ some junk
    → setup.answers 1 ≡ some k
    → setup.answers 3 ≡ some k'
    → default_cap ≤ k
    → default_cap ≤ k'
    → Ensures (list_finished_option setup true readings) (λ (result, log, out). IsBlind out)
unfolding list_finished_option
list_finished_option-IsBlind setup readings fd k k' junk opens grants takes takes' room room' =
    Ensures-mono _ _ (list_finished_option setup true readings)
      (list_with_lem copy_finished setup readings list_finished_tasks fd k k' junk (inr refl) opens
        grants takes takes' room room')
      λ r lists.
        subst IsBlind (sym (Lists-output fd _ (copy_finished readings) r lists))
          (copy_finished-IsBlind readings)
