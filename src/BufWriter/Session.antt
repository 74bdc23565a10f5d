-- ===== src/BufWriter/Session.antt =====
-- Any sequence of writing calls of a `BufWriter` (src/buf_io/buf_writer.c) puts the same bytes, in the
-- same order, as writing without a buffer.
use mathlib.Core.Path.{subst}
use so.Base.{
  ℕ, ◌+◌, ◌≤◌, ◌≡◌, refl, sym, ap, ◌∙◌, ◌≢◌, ◌⊎◌, inl, inr, none, some, List, [], ◌∷◌, ◌++◌,
  append_assoc, append-nil, arith, length, take, take-length, All, Ensures-bind, Ensures-mono, Exec,
  done, ◌>>=◌, Ensures,
}
use so.Files.{Answer, Log, sent, Whole}
use so.BufWriter
use so.BufWriter.{
  BufWriter, BwOutcome, Result, ok, err_write_fail, newline, write, write_line, write_char,
  drop as release,
}
use so.BufWriter.Valid.{IsValid, Follows, Follows-self, Follows-trans, Delivers, stream}
use so.BufWriter.Write.{write_lem, write_char_lem, Whole-le}
use so.BufWriter.Line.{write_line_lem}
use so.BufWriter.Flush.{drop_lem}

-- A call that writes; the length that it is given is that of its bytes.
pub data Call : Type 0 where
  write_bytes write_text_line : List ℕ → Call
  write_byte : ℕ → Call

pub perform : Answer → BufWriter → Call → Log → Exec Result
perform ans w (write_bytes bytes) log = BufWriter.write ans w bytes (length bytes) log
perform ans w (write_text_line bytes) log = BufWriter.write_line ans w bytes (length bytes) log
perform ans w (write_byte c) log = BufWriter.write_char ans w c log

-- The calls one after another, up to the first that fails.
pub session : (ℕ → Answer) → ℕ → BufWriter → List Call → Log → Exec Result
unfolding perform
session answers i w [] log = done (ok, w, log)
session answers i w (call ∷ calls) log = perform (answers i) w call log >>= λ (outcome, w', log').
    let rest = session answers (i + 1) w' calls log' in
    elim outcome [ BwOutcome.ok ↦ rest | other ↦ done (other, w', log') ]

-- What a program without a buffer would write.
abbrev pub output : Call → List ℕ
output (write_bytes bytes) = bytes
output (write_text_line bytes) = bytes ++ newline ∷ []
output (write_byte c) = c ∷ []

abbrev pub outputs : List Call → List ℕ
outputs [] = []
outputs (call ∷ calls) = output call ++ outputs calls

-- No more bytes than a limit, and no line that is just as long as the buffer.
abbrev pub Suits : ℕ → ℕ → Call → Type 0
Suits cap limit (write_bytes bytes) = length bytes ≤ limit
Suits cap limit (write_text_line bytes) = (length bytes ≤ limit) × (length bytes ≢ cap)
Suits cap limit (write_byte c) = Unit {0}

perform_lem :
    (ans : Answer) (w : BufWriter) (call : Call) (log : Log) (limit : ℕ)
    → IsValid w
    → Suits w.cap limit call
    → Whole (w.cap + limit) ans
    → Ensures (perform ans w call log) (Delivers ans w log (output call))
unfolding perform
perform_lem ans w (write_bytes bytes) log limit valid suits whole =
    let all : take (length bytes) bytes ≡ bytes = take-length (length bytes) bytes (omega arith) in
    subst (λ xs. Ensures (BufWriter.write ans w bytes (length bytes) log) (Delivers ans w log xs))
      all
      (write_lem ans w bytes (length bytes) log valid (omega arith)
        (Whole-le ans (omega arith) whole))
perform_lem ans w (write_text_line bytes) log limit valid (suits, apart) whole =
    let all : take (length bytes) bytes ≡ bytes = take-length (length bytes) bytes (omega arith) in
    subst
      (λ xs.
        Ensures (BufWriter.write_line ans w bytes (length bytes) log)
          (Delivers ans w log (xs ++ newline ∷ [])))
      all
      (write_line_lem ans w bytes (length bytes) log valid (omega arith)
        (Whole-le ans (omega arith) whole) (λ (p, q). apart q))
perform_lem ans w (write_byte c) log limit valid suits whole =
    write_char_lem ans w c log valid (Whole-le ans (omega arith) whole)

-- All calls went well, and the writer took what they write; or a system call failed, the outcome tells
-- it, and the writer took what the calls before it write, and nothing more.
abbrev pub Writes : (ℕ → Answer) → BufWriter → Log → List Call → Result → Type 0
Writes answers w log calls (outcome, w', log') =
    Follows w w'
    × (((outcome ≡ ok) × (stream w' log' ≡ stream w log ++ outputs calls))
        ⊎ ((outcome ≡ err_write_fail)
            × ((j : ℕ) × (answers j ≡ none))
            × ((before : List Call) × (call : Call) × (after : List Call) × (calls
                  ≡ before ++ call ∷ after)
                × (stream w' log' ≡ stream w log ++ outputs before))))

-- On a valid writer, with system calls that fail or take all bytes, and with no line that is just
-- as long as the buffer, any sequence of writing calls has no memory error and leaves the writer
-- valid: what the descriptor got and the buffer together are what the calls write one after
-- another, up to the first call that fails, which the outcome tells and of which nothing is taken.
pub session_lem :
    (answers : ℕ → Answer) (i : ℕ) (w : BufWriter) (calls : List Call) (log : Log) (limit : ℕ)
    → IsValid w
    → All (Suits w.cap limit) calls
    → ((k : ℕ) → Whole (w.cap + limit) (answers k))
    → Ensures (session answers i w calls log) (Writes answers w log calls)
unfolding session
session_lem answers i w [] log limit valid suits whole =
    (Follows-self valid, inl (refl, sym (append-nil (stream w log))))
session_lem answers i w (call ∷ calls) log limit valid (first, suits) whole =
    Ensures-bind (Delivers (answers i) w log (output call)) _ (perform (answers i) w call log) _
      (perform_lem (answers i) w call log limit valid first (whole i))
      (further (λ w' log' f.
        session_lem answers (i + 1) w' calls log' limit f.valid (rw f.same_cap suits)
          (λ k. rw f.same_cap (whole k))))
  where
    grown :
        (w' : BufWriter) (log' : Log)
        → Follows w w'
        → stream w' log' ≡ stream w log ++ output call
        → (r : Result) → Writes answers w' log' calls r
        → Writes answers w log (call ∷ calls) r
    grown w' log' f wrote (o, w'', log'') (g, inl (well, wrote')) = (
      Follows-trans f g,
      inl (
        well,
        wrote'
            ∙ ap (λ xs. xs ++ outputs calls) wrote
            ∙ append_assoc (stream w log) (output call) (outputs calls),
      ),
    )
    grown w' log' f wrote (o, w'', log'') (g, inr (failed, denied, (before, c, after, e, wrote'))) =
        (
          Follows-trans f g,
          inr (
            failed,
            denied,
            (
              call ∷ before,
              c,
              after,
              ap (λ cs. call ∷ cs) e,
              wrote'
                  ∙ ap (λ xs. xs ++ outputs before) wrote
                  ∙ append_assoc (stream w log) (output call) (outputs before),
            ),
          ),
        )

    further :
        ((w' : BufWriter) (log' : Log)
          → Follows w w'
          → Ensures (session answers (i + 1) w' calls log') (Writes answers w' log' calls))
        → (r : Result) → Delivers (answers i) w log (output call) r
        → Ensures
            (elim r.0 [
              | BwOutcome.ok ↦ session answers (i + 1) r.1 calls r.2
              | other ↦ done (other, r.1, r.2)
            ])
            (Writes answers w log (call ∷ calls))
    further rest (o, w', log') (f, inr (failed, denied, same)) = rw failed (
      f,
      inr (refl, (i, denied), ([], call, calls, refl, same ∙ sym (append-nil (stream w log)))),
    )
    further rest (o, w', log') (f, inl (well, wrote)) = rw well (
        Ensures-mono (Writes answers w' log' calls) _ (session answers (i + 1) w' calls log')
          (rest w' log' f) (grown w' log' f wrote))

-- A session on an empty buffer that goes well, with system calls that take all bytes, and then the end
-- of the writer: the descriptor gets just what the calls write.
pub session-drop :
    (answers : ℕ → Answer) (w : BufWriter) (calls : List Call) (log : Log) (limit k : ℕ)
    → IsValid w
    → All (Suits w.cap limit) calls
    → ((i : ℕ) → answers i ≡ some k)
    → w.cap + limit ≤ k
    → Ensures
        (session answers 0 w calls log >>= λ (_, w', log'). release (some k) w' log')
        (λ (outcome, _, log').
          (outcome ≡ ok) × (sent w.file_des log' ≡ stream w log ++ outputs calls))
session-drop answers w calls log limit k valid suits takes room =
    Ensures-bind (Writes answers w log calls) _ (session answers 0 w calls log) _
      (session_lem answers 0 w calls log limit valid suits (λ i. inr (k, takes i, room))) ended
  where
    ended :
        (r : Result)
        → Writes answers w log calls r
        → Ensures (release (some k) r.1 r.2) (λ (outcome, _, log').
          (outcome ≡ ok) × (sent w.file_des log' ≡ stream w log ++ outputs calls))
    ended (o, w', log') (f, inr (_, (j, denied), _)) =
        let t : answers j ≡ some k = takes j in absurd (cc)
    ended (o, w', log') (f, inl (_, wrote)) =
        Ensures-mono _ _ (release (some k) w' log')
          (drop_lem k w' log' f.valid (omega (arith, f.same_cap)))
          λ (o', w'', log'') (well, _, out).
            (well, ap (λ fd. sent fd log'') (sym f.same_file) ∙ out ∙ wrote)
