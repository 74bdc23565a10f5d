-- ===== src/Client/Turns.antt =====
-- What the interactive client can send, whatever lines it reads (src/client.c).
use so.Base.{
  ℕ, ◌+◌, ◌≤◌, ◌≡◌, refl, sym, inl, inr, true, none, some, List, [], ◌∷◌, ◌++◌, arith, Option-cases,
  All, All-append_left, Ensures-bind, Ensures, done, Exec,
}
use mathlib.Core.Path.{subst}
use so.Base.Cells.{block, fill}
use so.Files.{Log, sent, Whole}
use so.BufWriter
use so.BufWriter.{BufWriter, default_cap, with_default_cap, with_cap}
use so.BufWriter.Valid.{IsValid, Follows-self, pending, stream}
use so.BufWriter.Flush.{drop_lem}
use so.Client.Options.{at_exit}
use so.Client.Lines.{Next, reads_on, ends, copies, on_line}
use so.Client.Copy.{Output, Stop, waits, breaks, returns_failure}
use so.Client.Session.{Turn, Stopped, copy_for, after_copies, loop, Opening, leave, interactive}
use so.Client.Send.{fresh}
use so.Client.Quiet.{IsListingByte, Quiet, on_line-Quiet}

abbrev pub Answered : Turn → Type 0
Answered turn = (i : ℕ) → Whole (default_cap + 2) (turn.answers i)

after_copies-Quiet :
    (w₀ w : BufWriter) (log : Log) (out : Output) (stop : Stop) (rest : Exec Stopped)
    → Quiet w₀ w log
    → Ensures rest (λ (_, w', log', _). Quiet w₀ w' log')
    → Ensures (after_copies w log out stop rest) (λ (_, w', log', _). Quiet w₀ w' log')
after_copies-Quiet w₀ w log out waits rest quiet h = quiet
after_copies-Quiet w₀ w log out breaks rest quiet h = h
after_copies-Quiet w₀ w log out returns_failure rest quiet h = quiet

loop-Quiet :
    (line_addr : ℕ) (w₀ : BufWriter) (turns : List Turn) (w : BufWriter) (log : Log) (out : Output)
    → All Answered turns
    → Quiet w₀ w log
    → Ensures (loop line_addr turns w log out) (λ (_, w', log', _). Quiet w₀ w' log')
unfolding loop
loop-Quiet line_addr w₀ [] w log out answered quiet = quiet
loop-Quiet line_addr w₀ (turn ∷ turns) w log out (whole, answered) quiet =
    elim (Option-cases turn.line) [
      | inl failed ↦ rw failed quiet
      | inr (line, read) ↦ rw read (
          Ensures-bind (λ (_, w', log'). Quiet w₀ w' log') _
            (on_line line_addr turn.answers w line log) _
            (on_line-Quiet turn.answers w₀ whole line line_addr w log quiet)
            (go_on
              (λ w' log' out' quiet'. loop-Quiet line_addr w₀ turns w' log' out' answered quiet')))
    ]
  where
    go_on :
        ((w' : BufWriter) (log' : Log) (out' : Output)
          → Quiet w₀ w' log'
          → Ensures (loop line_addr turns w' log' out') (λ (_, v, l, _). Quiet w₀ v l))
        → (r : Next × BufWriter × Log) → Quiet w₀ r.1 r.2
        → Ensures
            (elim r.0 [
              | reads_on ↦ loop line_addr turns r.1 r.2 out
              | ends status ↦ done (some status, r.1, r.2, out)
              | copies cmd ↦
                  let (stop, more) = copy_for cmd turn.readings in
                  let rest = loop line_addr turns r.1 r.2 (out ++ more) in
                  after_copies r.1 r.2 (out ++ more) stop rest
            ])
            (λ (_, v, l, _). Quiet w₀ v l)
    go_on rest (reads_on, w', log') quiet' = rest w' log' out quiet'
    go_on rest (ends status, w', log') quiet' = quiet'
    go_on rest (copies cmd, w', log') quiet' =
        let (stop, more) = copy_for cmd turn.readings in
        after_copies-Quiet w₀ w' log' (out ++ more) stop _ quiet'
          (rest w' log' (out ++ more) quiet')

-- However many lines the interactive client reads, and whatever they are: when its fifos open and
-- its writer has its storage, with system calls that fail or take all bytes, the last of which
-- takes them, it has no memory error, and the fifo of the commands gets no byte that does not
-- belong to one of the two listings.
pub interactive-Quiet :
    (line_addr : ℕ) (opening : Opening) (turns : List Turn) (fd k : ℕ) (junk : ℕ → ℕ)
    → opening.commands_opened ≡ some fd
    → opening.running_opens ≡ true
    → opening.finished_opens ≡ true
    → opening.grant ≡ some junk
    → opening.last_answer ≡ some k
    → default_cap ≤ k
    → All Answered turns
    → Ensures (interactive line_addr opening turns) (λ (_, log, _). All IsListingByte (sent fd log))
unfolding interactive leave at_exit with_default_cap with_cap
interactive-Quiet line_addr opening turns fd k junk opens runs finishes grants takes room answered =
    let w : BufWriter = record {
      file_des = fd;
      buf = block (fill default_cap junk);
      pos = 0;
      cap = default_cap;
    } in
    let valid : IsValid w = fresh fd junk in
    rw (opens, runs, finishes, grants, with_default_cap, with_cap, grants, takes)
      (Ensures-bind (λ (_, w', log, _). Quiet w w' log) _ (loop line_addr turns w [] []) _
        (loop-Quiet line_addr w turns w [] [] answered (Follows-self valid, refl, tt)) left)
  where
    quiet_sent :
        (w' : BufWriter) (log : Log)
        → w'.file_des ≡ fd
        → All IsListingByte (stream w' log)
        → All IsListingByte (sent fd log)
    quiet_sent w' log same quiet =
        subst (λ d. All IsListingByte (sent d log)) same
          (All-append_left IsListingByte (sent w'.file_des log) (pending w') quiet)

    left :
        (r : Stopped)
        → Quiet
            (record {
              file_des = fd;
              buf = block (fill default_cap junk);
              pos = 0;
              cap = default_cap;
            })
            r.1
            r.2
        → Ensures (leave (some k) r) (λ (_, log, _). All IsListingByte (sent fd log))
    left (none, w', log, out) (f, at_cap, quiet) = quiet_sent w' log f.same_file quiet
    left (some status, w', log, out) (f, at_cap, quiet) =
        Ensures-bind (λ (_, log'). All IsListingByte (sent fd log')) _
          (at_exit (some k) (status, w', log)) _
          (Ensures-bind _ _ (BufWriter.drop (some k) w' log) _
            (drop_lem k w' log f.valid (omega (arith, at_cap)))
            λ (_, _, log') (_, _, e).
              subst (λ d. All IsListingByte (sent d log')) f.same_file
                (subst (All IsListingByte) (sym e) quiet))
          λ r h. h
