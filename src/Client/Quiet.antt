-- ===== src/Client/Quiet.antt =====
-- What the interactive client can send (src/client.c).
use so.Base.{
  ℕ, ◌+◌, ◌≡◌, refl, sym, ◌∙◌, ◌⊎◌, inl, inr, Option, none, some, List, [], ◌∷◌, ◌++◌, arith,
  Bool-cases, ◌==◌, length, take, All, All-take, All-append, All-append_left, All-append_right,
  Ensures-bind, Ensures-mono, Ensures, done,
}
use mathlib.Core.Path.{subst}
use so.Files.{Answer, Log, sent, Whole}
use so.BufWriter
use so.BufWriter.{BufWriter, BwOutcome, newline, default_cap}
use so.BufWriter.Valid.{Follows, Follows-trans, Delivers, pending, stream}
use so.BufWriter.Write.{Whole-le}
use so.BufWriter.Line.{write_line_lem}
use so.BufWriter.Flush.{flush_log}
use so.Client.{
  Command, exec_task, end_task, set_active_timeout, set_inactive_timeout, list_running_tasks,
  list_finished_tasks, help, success, arg_str, if_ok, finish, write_alone, write_cmd_i, find_cmd,
}
use so.Client.Lines.{
  Next, copies, try_write_cmd_i, on_command, on_word, on_line, skip_spaces, split_word,
}
use so.Client.Send.{HasArg}
use so.Client.Listing.{IsListing}
use so.Client.Interactive.{sends_nothing}

-- The bytes of the two lines `l` and `r` of the listings.
abbrev pub IsListingByte : ℕ → Type 0
IsListingByte c = (c ≡ b'l') ⊎ ((c ≡ b'r') ⊎ ((c ≡ b' ') ⊎ (c ≡ newline)))

-- The writer stays valid, and all that it took is such bytes.
abbrev pub Quiet : BufWriter → BufWriter → Log → Type 0
Quiet w₀ w log = Follows w₀ w × (w.cap ≡ default_cap) × All IsListingByte (stream w log)

finish-Quiet :
    (ans : Answer) (w₀ w : BufWriter) (log : Log)
    → Quiet w₀ w log
    → Ensures (finish ans w log) (λ (_, w', log'). Quiet w₀ w' log')
unfolding finish if_ok
finish-Quiet ans w₀ w log (f, at_cap, quiet) =
    let P = IsListingByte in
    let out = All-append_left P (sent w.file_des log) (pending w) quiet in
    let held = All-append_right P (sent w.file_des log) (pending w) quiet in
    Ensures-bind (λ (_, w', log'). (w' ≡ w) × All P (sent w.file_des log')) _
      (BufWriter.flush ans w log) _
      (Ensures-mono _ _ (BufWriter.flush ans w log) (flush_log ans w log f.valid)
        λ (o, w', log') (same, how). (
          same,
          elim how [
            | inl e ↦ subst (All P) (sym e) out
            | inr (k, e) ↦ subst (All P) (sym e) (
                All-append P (sent w.file_des log) (take k (pending w)) out
                  (All-take P k (pending w) held))
          ],
        ))
      λ (o, w', log') (same, out').
        let next : Quiet w₀ w log' =
          (f, at_cap, All-append P (sent w.file_des log') (pending w) out' held) in
        let next' : Quiet w₀ w' log' = subst (λ v. Quiet w₀ v log') (sym same) next in
        elim o
          as (λ o.
            Ensures (if_ok (λ v l. done (success, v, l)) (o, w', log'))
              (λ (_, v, l). Quiet w₀ v l)) [
                | BwOutcome.ok ↦ next'
                | BwOutcome.err_alloc_fail ↦ next'
                | BwOutcome.err_write_fail ↦ next'
                | BwOutcome.err_close_fail ↦ next'
              ]

request_bytes :
    (cmd : Command)
    → IsListing cmd
    → All IsListingByte (take 2 (arg_str cmd) ++ newline ∷ []) × (length (arg_str cmd) ≡ 2)
unfolding arg_str
request_bytes cmd (inl e) =
    rw e ((inl refl, (inr (inr (inl refl)), (inr (inr (inr refl)), tt))), refl)
request_bytes cmd (inr e) =
    rw e ((inr (inl refl), (inr (inr (inl refl)), (inr (inr (inr refl)), tt))), refl)

write_alone-Quiet :
    (answers : ℕ → Answer) (w₀ w : BufWriter) (cmd : Command) (log : Log)
    → IsListing cmd
    → ((i : ℕ) → Whole (default_cap + 2) (answers i))
    → Quiet w₀ w log
    → Ensures (write_alone answers w cmd log) (λ (_, w', log'). Quiet w₀ w' log')
unfolding write_alone if_ok
write_alone-Quiet answers w₀ w cmd log lists whole (f, at_cap, quiet) =
    let (bytes, two) = request_bytes cmd lists in
    let sends = take 2 (arg_str cmd) ++ newline ∷ [] in
    Ensures-bind (Delivers (answers 0) w log sends) _
      (BufWriter.write_line (answers 0) w (arg_str cmd) 2 log) _
      (write_line_lem (answers 0) w (arg_str cmd) 2 log f.valid (omega arith)
        (Whole-le (answers 0) (omega arith) (whole 0)) (λ (p, q). omega arith))
      λ (o, w', log') (g, how). elim how [
        | inl (well, took) ↦ rw well (
            finish-Quiet (answers 1) w₀ w' log' (
              Follows-trans f g,
              g.same_cap ∙ at_cap,
              subst (All IsListingByte) (sym took)
                  (All-append IsListingByte (stream w log) sends quiet bytes),
            ))
        | inr (failed, _, kept) ↦
            rw failed
              (Follows-trans f g, g.same_cap ∙ at_cap, subst (All IsListingByte) (sym kept) quiet)
      ]

module _ (answers : ℕ → Answer) (w₀ : BufWriter)
    (whole : (i : ℕ) → Whole (default_cap + 2) (answers i)) where
  list_Quiet :
      (cmd : Command) (w : BufWriter) (rest : List ℕ) (log : Log) (next : Next)
      → IsListing cmd
      → Quiet w₀ w log
      → Ensures (try_write_cmd_i answers w cmd rest log next) (λ (_, w', log'). Quiet w₀ w' log')
  unfolding try_write_cmd_i write_cmd_i
  list_Quiet cmd w rest log next (inl e) quiet = rw e (
      Ensures-bind (λ (_, w', log'). Quiet w₀ w' log') _
        (write_alone answers w list_running_tasks log) _
        (write_alone-Quiet answers w₀ w list_running_tasks log (inl refl) whole quiet) λ r q. q)
  list_Quiet cmd w rest log next (inr e) quiet = rw e (
      Ensures-bind (λ (_, w', log'). Quiet w₀ w' log') _
        (write_alone answers w list_finished_tasks log) _
        (write_alone-Quiet answers w₀ w list_finished_tasks log (inr refl) whole quiet) λ r q. q)

  silent_Quiet :
      (cmd : Command) (i : ℕ) (w : BufWriter) (rest : List ℕ) (log : Log)
      → HasArg cmd
      → Quiet w₀ w log
      → Ensures (on_command i answers w cmd rest log) (λ (_, w', log'). Quiet w₀ w' log')
  silent_Quiet cmd i w rest log has quiet = rw (sends_nothing i answers w cmd rest log has) quiet

  on_command-Quiet :
      (cmd : Command) (i : ℕ) (w : BufWriter) (rest : List ℕ) (log : Log)
      → Quiet w₀ w log
      → Ensures (on_command i answers w cmd rest log) (λ (_, w', log'). Quiet w₀ w' log')
  unfolding on_command
  on_command-Quiet exec_task i w rest log quiet =
      silent_Quiet exec_task i w rest log (inl refl) quiet
  on_command-Quiet end_task i w rest log quiet =
      silent_Quiet end_task i w rest log (inr (inl refl)) quiet
  on_command-Quiet set_active_timeout i w rest log quiet =
      silent_Quiet set_active_timeout i w rest log (inr (inr (inl refl))) quiet
  on_command-Quiet set_inactive_timeout i w rest log quiet =
      silent_Quiet set_inactive_timeout i w rest log (inr (inr (inr refl))) quiet
  on_command-Quiet list_running_tasks i w rest log quiet =
      list_Quiet list_running_tasks w rest log (copies list_running_tasks) (inl refl) quiet
  on_command-Quiet list_finished_tasks i w rest log quiet =
      list_Quiet list_finished_tasks w rest log (copies list_finished_tasks) (inr refl) quiet
  on_command-Quiet help i w rest log quiet = quiet

  on_word-Quiet :
      (found : Option Command) (i : ℕ) (w : BufWriter) (rest : List ℕ) (log : Log)
      → Quiet w₀ w log
      → Ensures (on_word i answers w found rest log) (λ (_, w', log'). Quiet w₀ w' log')
  unfolding on_word
  on_word-Quiet none i w rest log quiet = quiet
  on_word-Quiet (some cmd) i w rest log quiet = on_command-Quiet cmd i w rest log quiet

  pub on_line-Quiet :
      (line : List ℕ) (line_addr : ℕ) (w : BufWriter) (log : Log)
      → Quiet w₀ w log
      → Ensures (on_line line_addr answers w line log) (λ (_, w', log'). Quiet w₀ w' log')
  unfolding on_line
  on_line-Quiet [] line_addr w log quiet = quiet
  on_line-Quiet (c ∷ s) line_addr w log quiet =
      let (word, rest) = split_word (skip_spaces (c ∷ s)) in
      elim (Bool-cases (length word == 0)) [
        | inl blank ↦ rw blank quiet
        | inr other ↦ rw other (on_word-Quiet (find_cmd word) _ w rest log quiet)
      ]
