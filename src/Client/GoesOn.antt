-- ===== src/Client/GoesOn.antt =====
-- What the interactive client does behind a line, when its calls go well (src/client.c).
use so.Base.{
  ℕ, ◌+◌, ◌≤◌, ◌≡◌, refl, inl, inr, some, List, [], ◌∷◌, ◌++◌, arith, ◌==◌, Bool-cases,
  Option-cases, length, take, Ensures-bind, Ensures-mono, Ensures,
}
use so.Files.{Answer, Log, Whole}
use so.BufWriter
use so.BufWriter.{BufWriter, newline, default_cap}
use so.BufWriter.Valid.{IsValid, Follows, Follows-self, Follows-trans, Delivers}
use so.BufWriter.Line.{write_line_lem}
use so.BufWriter.Flush.{flush_eq}
use so.Client.{
  Command, exec_task, end_task, set_active_timeout, set_inactive_timeout, list_running_tasks,
  list_finished_tasks, help, success, arg_str, if_ok, finish, write_alone, write_cmd_i, find_cmd,
}
use so.Client.Lines.{
  Next, reads_on, ends, copies, try_write_cmd_i, on_command, on_word, on_line, skip_spaces,
  split_word,
}
use so.Client.Send.{HasArg}
use so.Client.Listing.{IsListing}
use so.Client.Interactive.{sends_nothing}

-- A call that takes so many bytes.
abbrev pub Takes : ℕ → Answer → Type 0
Takes n ans = (k : ℕ) × (ans ≡ some k) × (n ≤ k)

finish-Follows :
    (ans : Answer) (w : BufWriter) (log : Log)
    → IsValid w
    → Takes 0 ans
    → Ensures (finish ans w log) (λ (r, w', _). (r ≡ success) × Follows w w')
unfolding finish if_ok
finish-Follows ans w log valid (k, takes, _) =
    rw (takes, flush_eq k w log valid) (refl, Follows-self valid)

listing_two : (cmd : Command) → IsListing cmd → length (arg_str cmd) ≡ 2
unfolding arg_str
listing_two cmd (inl e) = rw e refl
listing_two cmd (inr e) = rw e refl

write_alone-Follows :
    (answers : ℕ → Answer) (w : BufWriter) (cmd : Command) (log : Log)
    → IsListing cmd
    → ((i : ℕ) → Takes (default_cap + 2) (answers i))
    → IsValid w
    → w.cap ≡ default_cap
    → Ensures (write_alone answers w cmd log) (λ (r, w', _). (r ≡ success) × Follows w w')
unfolding write_alone if_ok
write_alone-Follows answers w cmd log lists takes valid at_cap =
    let (k, taken, room) = takes 0 in
    let (k', taken', room') = takes 1 in
    let two = listing_two cmd lists in
    let whole : Whole (w.cap + 2) (answers 0) = inr (k, taken, omega arith) in
    Ensures-bind (Delivers (answers 0) w log (take 2 (arg_str cmd) ++ newline ∷ [])) _
      (BufWriter.write_line (answers 0) w (arg_str cmd) 2 log) _
      (write_line_lem (answers 0) w (arg_str cmd) 2 log valid (omega arith) whole
        (λ (p, q). omega arith))
      λ (o, w', log') (g, how). elim how [
        | inl (well, _) ↦ rw well (
            Ensures-mono _ _ (finish (answers 1) w' log')
              (finish-Follows (answers 1) w' log' g.valid (k', taken', omega arith))
              λ r (fine, f). (fine, Follows-trans g f))
        | inr (_, denied, _) ↦ absurd (cc)
      ]

-- The client does not end behind the line.
abbrev pub GoesOn : Next → Type 0
GoesOn reads_on = Unit {0}
GoesOn (ends status) = ⊥
GoesOn (copies cmd) = Unit {0}

module _ (answers : ℕ → Answer) (w : BufWriter) (log : Log)
    (takes : (i : ℕ) → Takes (default_cap + 2) (answers i)) (valid : IsValid w)
    (at_cap : w.cap ≡ default_cap) where
  list-GoesOn :
      (cmd : Command) (rest : List ℕ)
      → IsListing cmd
      → Ensures
          (try_write_cmd_i answers w cmd rest log (copies cmd))
          (λ (next, w', _). GoesOn next × Follows w w')
  unfolding try_write_cmd_i write_cmd_i
  list-GoesOn cmd rest (inl e) = rw e (
      Ensures-bind (λ (r, w', _). (r ≡ success) × Follows w w') _
        (write_alone answers w list_running_tasks log) _
        (write_alone-Follows answers w list_running_tasks log (inl refl) takes valid at_cap)
        λ (r, w', log') (fine, f). rw fine (tt, f))
  list-GoesOn cmd rest (inr e) = rw e (
      Ensures-bind (λ (r, w', _). (r ≡ success) × Follows w w') _
        (write_alone answers w list_finished_tasks log) _
        (write_alone-Follows answers w list_finished_tasks log (inr refl) takes valid at_cap)
        λ (r, w', log') (fine, f). rw fine (tt, f))

  silent-GoesOn :
      (cmd : Command) (i : ℕ) (rest : List ℕ)
      → HasArg cmd
      → Ensures (on_command i answers w cmd rest log) (λ (next, w', _). GoesOn next × Follows w w')
  silent-GoesOn cmd i rest has =
      rw (sends_nothing i answers w cmd rest log has) (tt, Follows-self valid)

  on_command-GoesOn :
      (cmd : Command) (i : ℕ) (rest : List ℕ)
      → Ensures (on_command i answers w cmd rest log) (λ (next, w', _). GoesOn next × Follows w w')
  unfolding on_command
  on_command-GoesOn exec_task i rest = silent-GoesOn exec_task i rest (inl refl)
  on_command-GoesOn end_task i rest = silent-GoesOn end_task i rest (inr (inl refl))
  on_command-GoesOn set_active_timeout i rest =
      silent-GoesOn set_active_timeout i rest (inr (inr (inl refl)))
  on_command-GoesOn set_inactive_timeout i rest =
      silent-GoesOn set_inactive_timeout i rest (inr (inr (inr refl)))
  on_command-GoesOn list_running_tasks i rest = list-GoesOn list_running_tasks rest (inl refl)
  on_command-GoesOn list_finished_tasks i rest = list-GoesOn list_finished_tasks rest (inr refl)
  on_command-GoesOn help i rest = (tt, Follows-self valid)

  pub on_line-GoesOn :
      (c : ℕ) (s : List ℕ) (line_addr : ℕ)
      → Ensures
          (on_line line_addr answers w (c ∷ s) log)
          (λ (next, w', _). GoesOn next × Follows w w')
  unfolding on_line on_word
  on_line-GoesOn c s line_addr =
      let (word, rest) = split_word (skip_spaces (c ∷ s)) in
      elim (Bool-cases (length word == 0)) [
        | inl blank ↦ rw blank (tt, Follows-self valid)
        | inr other ↦ rw other (elim (Option-cases (find_cmd word)) [
          | inl unknown ↦ rw unknown (tt, Follows-self valid)
          | inr (cmd, known) ↦ rw known (on_command-GoesOn cmd _ rest)
        ])
      ]
