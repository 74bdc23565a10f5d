-- ===== src/Client/Send.antt =====
-- What the client sends for an option (`write_cmd` and `main` of src/client.c).
use so.Base.{
  ℕ, ◌+◌, ◌≤◌, ◌<◌, ◌≡◌, refl, sym, ap, ◌∙◌, ◌⊎◌, inl, inr, some, List, [], ◌∷◌, ◌++◌, arith,
  length, take, take-length, Ensures-bind, Ensures,
}
use so.Base.Cells.{block, fill}
use so.Base.Cells.Laws.{length-fill}
use so.Files.{Answer, Log, sent}
use so.BufWriter
use so.BufWriter.{BufWriter, Result, newline, default_cap, with_default_cap, with_cap}
use so.BufWriter.Valid.{IsValid, Follows, Follows-trans, pending, length-pending}
use so.BufWriter.Fits.{Buffers, write_fits, write_line_fits}
use so.BufWriter.Flush.{flushed, flush_eq, drop_lem, sent-flushed}
use so.Client.{Command, Status, success, Sent, arg_str, if_ok, finish, write_with_arg, write_cmd}
use so.Client.Options.{Setup, unset_writer, at_exit, send}

-- A command and its argument as a line.
abbrev pub message : Command → List ℕ → List ℕ
message cmd arg = arg_str cmd ++ (arg ++ newline ∷ [])

-- The commands with an argument.
abbrev pub HasArg : Command → Type 0
HasArg cmd =
    (cmd ≡ Command.exec_task)
    ⊎ ((cmd ≡ Command.end_task)
        ⊎ ((cmd ≡ Command.set_active_timeout) ⊎ (cmd ≡ Command.set_inactive_timeout)))

-- All is well, the buffer holds just these bytes, and they went out once.
abbrev pub Flushed : BufWriter → List ℕ → Status × BufWriter × Log → Type 0
Flushed w bytes (result, w', log') =
    (result ≡ success) × Follows w w' × (pending w' ≡ bytes) × (sent w.file_des log' ≡ bytes)

pub finish_lem :
    (k : ℕ) (w w' : BufWriter) (bytes : List ℕ)
    → Follows w w'
    → pending w' ≡ bytes
    → w.cap ≤ k
    → Ensures (finish (some k) w' []) (Flushed w bytes)
unfolding finish if_ok
finish_lem k w w' bytes f held room =
    let all : take k (pending w') ≡ pending w' =
      take-length k (pending w')
        (omega (arith, length-pending f.valid, f.valid.pos_in, f.same_cap)) in
    rw (flush_eq k w' [] f.valid) (
      refl,
      f,
      held,
      ap (λ fd. sent fd (flushed k w' [])) (sym f.same_file)
          ∙ sent-flushed k w' [] f.valid
          ∙ all
          ∙ held,
    )

pub if_ok_lem :
    (Q : Status × BufWriter × Log → Type 0) (follow : BufWriter → Log → Sent) (w : BufWriter)
    (log : Log) (bytes : List ℕ) (r : Result)
    → Buffers w log bytes r
    → ((w' : BufWriter)
        → Follows w w'
        → pending w' ≡ pending w ++ bytes
        → Ensures (follow w' log) Q)
    → Ensures (if_ok follow r) Q
unfolding if_ok
if_ok_lem Q follow w log bytes (o, w', log') (well, f, same, held) goes =
    rw (well, same) (goes w' f held)

write_with_arg_lem :
    (answers : ℕ → Answer) (w : BufWriter) (cmd : Command) (arg : List ℕ) (k : ℕ)
    → IsValid w
    → pending w ≡ []
    → 2 + length arg < w.cap
    → length (arg_str cmd) ≡ 2
    → answers 2 ≡ some k
    → w.cap ≤ k
    → Ensures (write_with_arg answers w cmd arg []) (Flushed w (message cmd arg))
unfolding write_with_arg
write_with_arg_lem answers w cmd arg k valid empty short two takes room =
    let Q = Flushed w (message cmd arg) in
    let start : w.pos ≡ 0 = omega (arith, length-pending valid, ap length empty) in
    Ensures-bind (Buffers w [] (take 2 (arg_str cmd))) Q
      (BufWriter.write (answers 0) w (arg_str cmd) 2 []) _
      (write_fits (answers 0) w (arg_str cmd) 2 [] valid (omega arith) (omega arith))
      λ r wrote. if_ok_lem Q _ w [] (take 2 (arg_str cmd)) r wrote λ w' f held.
        let flag_in : pending w' ≡ arg_str cmd =
          held
          ∙ ap (λ bs. bs ++ take 2 (arg_str cmd)) empty
          ∙ take-length 2 (arg_str cmd) (omega arith) in
        let at_two : w'.pos ≡ 2 = omega (arith, length-pending f.valid, ap length flag_in) in
        Ensures-bind (Buffers w' [] (take (length arg) arg ++ newline ∷ [])) Q
          (BufWriter.write_line (answers 1) w' arg (length arg) []) _
          (write_line_fits (answers 1) w' arg (length arg) [] f.valid (omega arith)
            (omega (arith, f.same_cap)))
          λ r' wrote'.
            if_ok_lem Q _ w' [] (take (length arg) arg ++ newline ∷ []) r' wrote' λ w'' g held'.
              let whole : take (length arg) arg ≡ arg =
                take-length (length arg) arg (omega arith) in
              rw takes (
                finish_lem k w w'' (message cmd arg) (Follows-trans f g)
                  (held'
                    ∙ ap (λ bs. bs ++ (take (length arg) arg ++ newline ∷ [])) flag_in
                    ∙ ap (λ xs. arg_str cmd ++ (xs ++ newline ∷ [])) whole)
                  room)

write_cmd_arg :
    (answers : ℕ → Answer) (w : BufWriter) (cmd : Command) (arg : List ℕ) (log : Log)
    → HasArg cmd
    → (write_cmd answers w cmd arg log ≡ write_with_arg answers w cmd arg log)
      × (length (arg_str cmd) ≡ 2)
unfolding write_cmd arg_str
write_cmd_arg answers w cmd arg log (inl e) = rw e (refl, refl)
write_cmd_arg answers w cmd arg log (inr (inl e)) = rw e (refl, refl)
write_cmd_arg answers w cmd arg log (inr (inr (inl e))) = rw e (refl, refl)
write_cmd_arg answers w cmd arg log (inr (inr (inr e))) = rw e (refl, refl)

pub fresh : (fd : ℕ) (junk : ℕ → ℕ) → IsValid (with_default_cap (some junk) unset_writer fd).1
unfolding with_default_cap with_cap
fresh fd junk = record {
  live = refl;
  storage = length-fill default_cap junk;
  pos_in = omega arith;
  positive = omega arith;
  small = omega arith;
}

-- When the fifo opens and the writer has its storage, a command with an argument that fits into
-- the writer's buffer succeeds, if the flush and the end of the writer have their calls take all
-- bytes; and the fifo then got the line of the command twice.
pub send_lem :
    (setup : Setup) (cmd : Command) (arg : List ℕ) (fd k k' : ℕ) (junk : ℕ → ℕ)
    → HasArg cmd
    → 2 + length arg < default_cap
    → setup.opened ≡ some fd
    → setup.grant ≡ some junk
    → setup.answers 2 ≡ some k
    → setup.answers 3 ≡ some k'
    → default_cap ≤ k
    → default_cap ≤ k'
    → Ensures
        (send setup cmd arg)
        (λ (result, log). (result ≡ success) × (sent fd log ≡ message cmd arg ++ message cmd arg))
unfolding send at_exit with_default_cap with_cap
send_lem setup cmd arg fd k k' junk has short opens grants takes takes' room room' =
    let w : BufWriter = record {
      file_des = fd;
      buf = block (fill default_cap junk);
      pos = 0;
      cap = default_cap;
    } in
    let (is_arg, two) = write_cmd_arg setup.answers w cmd arg [] has in
    rw (opens, grants, is_arg)
      (Ensures-bind (Flushed w (message cmd arg)) _ (write_with_arg setup.answers w cmd arg []) _
        (write_with_arg_lem setup.answers w cmd arg k (fresh fd junk) refl short two takes room)
        λ (result, w', log') (well, f, held, out).
          let same_file : w'.file_des ≡ fd = f.same_file in
          rw takes' (
            Ensures-bind _ _ (BufWriter.drop (some k') w' log') _
              (drop_lem k' w' log' f.valid (omega (arith, f.same_cap)))
              λ (o, w'', log'') (_, _, all_out). (
                well,
                ap (λ d. sent d log'') (sym same_file)
                    ∙ all_out
                    ∙ ap (λ bs. sent w'.file_des log' ++ bs) held
                    ∙ ap (λ d. sent d log' ++ message cmd arg) same_file
                    ∙ ap (λ bs. bs ++ message cmd arg) out,
              )))
