-- ===== src/BufWriter/Flush.antt =====
-- `bw_flush`, `bw_drop`, `bw_close` and `bw_drop_and_close`
-- (src/buf_io/buf_writer.c).
use so.Base.{
  ltb→lt, ℕ, ◌≤◌, ◌<◌, ◌≡◌, refl, sym, ap, ◌∙◌, ◌⊎◌, inl, inr, Bool, none, some, [], ◌∷◌, ◌++◌,
  append-nil, arith, ltb, if◌then◌else◌, lt→ltb, ltb→le, Bool-cases, take, take-length, length_zero,
  Ensures-mono, Exec, done, ◌>>=◌, Ensures,
}
use so.Base.Cells.{freed, free, cells}
use so.Files.{Answer, Log, sent, sent-append}
use so.BufWriter.{
  BufWriter, Result, ok, err_write_fail, flush, drop as release, close, drop_and_close, try_flush,
  try_write,
}
use so.BufWriter.Valid.{IsValid, pending, stream, length-pending, buf_block}
use so.BufWriter.Pieces.{read_prefix}

-- What `try_flush_` gives the descriptor: the bytes in the buffer, as many as the call takes.
abbrev pub flushed : ℕ → BufWriter → Log → Log
flushed k w log = if ltb 0 w.pos then log ++ (w.file_des, take k (pending w)) ∷ [] else log

try_flush_ok :
    (k : ℕ) (w : BufWriter) (log : Log) (follow : Log → Exec Result)
    → IsValid w
    → try_flush (some k) w log follow ≡ follow (flushed k w log)
unfolding try_flush try_write
try_flush_ok k w log follow v = elim (Bool-cases (ltb 0 w.pos)) [
  | inl some_yet ↦
      rw (some_yet, read_prefix (cells w.buf) w.pos (omega (arith, v.storage, v.pos_in)))
  | inr empty ↦ rw empty
]

try_flush_failed :
    (w : BufWriter) (log : Log) (follow : Log → Exec Result)
    → IsValid w
    → 0 < w.pos
    → try_flush none w log follow ≡ done (err_write_fail, w, log)
unfolding try_flush try_write
try_flush_failed w log follow v some_yet =
    rw (
      lt→ltb 0 w.pos some_yet,
      read_prefix (cells w.buf) w.pos (omega (arith, v.storage, v.pos_in)),
    )

pub sent-flushed :
    (k : ℕ) (w : BufWriter) (log : Log)
    → IsValid w
    → sent w.file_des (flushed k w log) ≡ sent w.file_des log ++ take k (pending w)
sent-flushed k w log v = elim (Bool-cases (ltb 0 w.pos)) [
  | inl some_yet ↦ rw some_yet (sent-append w.file_des log (take k (pending w)))
  | inr empty ↦
      let none_yet : pending w ≡ [] =
        length_zero (pending w) (omega (arith, length-pending v, ltb→le 0 w.pos empty)) in
      let nothing : take k (pending w) ≡ [] =
        ap (take k) none_yet ∙ take-length k [] (omega arith) in
      rw (empty, nothing) (sym (append-nil (sent w.file_des log)))
]

pub flush_eq :
    (k : ℕ) (w : BufWriter) (log : Log)
    → IsValid w
    → flush (some k) w log ≡ done (ok, w, flushed k w log)
unfolding flush
flush_eq k w log v = try_flush_ok k w log (λ log'. done (ok, w, log')) v

-- A bw_flush on a valid writer whose system call takes k bytes gives the descriptor the first k
-- bytes of the buffer and returns that all is well, even if that is not the whole buffer; the
-- writer is as it was, with the same bytes in its buffer.
pub flush_lem :
    (k : ℕ) (w : BufWriter) (log : Log)
    → IsValid w
    → Ensures (flush (some k) w log) (λ (outcome, w', log').
      (outcome ≡ ok)
      × (w' ≡ w)
      × (sent w.file_des log' ≡ sent w.file_des log ++ take k (pending w)))
flush_lem k w log v = rw (flush_eq k w log v) (refl, refl, sent-flushed k w log v)

-- When the system call fails, bw_flush, bw_drop, bw_close and bw_drop_and_close on a valid writer
-- with bytes in its buffer all return the failure, change nothing, and give back or close nothing.
pub flush_failed :
    (closes : Bool) (w : BufWriter) (log : Log)
    → IsValid w
    → 0 < w.pos
    → let kept : Exec Result = done (err_write_fail, w, log) in
      (flush none w log ≡ kept)
      × (release none w log ≡ kept)
      × (close none closes w log ≡ kept)
      × (drop_and_close none closes w log ≡ kept)
unfolding flush release close drop_and_close
flush_failed closes w log v some_yet = (
  try_flush_failed w log _ v some_yet,
  try_flush_failed w log _ v some_yet,
  try_flush_failed w log _ v some_yet,
  try_flush_failed w log _ v some_yet,
)

-- bw_drop on a valid writer whose system call takes all bytes gives the descriptor the bytes of
-- the buffer and gives the buffer back; the position is 0 then.
pub drop_lem :
    (k : ℕ) (w : BufWriter) (log : Log)
    → IsValid w
    → w.cap ≤ k
    → Ensures (release (some k) w log) (λ (outcome, w', log').
      (outcome ≡ ok)
      × (w' ≡ record w { buf = freed; pos = 0 })
      × (sent w.file_des log' ≡ stream w log))
unfolding release free
drop_lem k w log v all =
    let frees : free w.buf ≡ done freed = ap free (buf_block v) in
    let whole : take k (pending w) ≡ pending w =
      take-length k (pending w) (omega (arith, length-pending v, v.pos_in)) in
    rw (try_flush_ok k w log _ v, frees)
      (refl, refl, sent-flushed k w log v ∙ ap (λ bs. sent w.file_des log ++ bs) whole)

-- A valid writer that is flushed and then dropped, with calls that take all bytes, gives the
-- descriptor the bytes of its buffer twice.
pub drop-flush_repeats :
    (k : ℕ) (w : BufWriter) (log : Log)
    → IsValid w
    → w.cap ≤ k
    → Ensures
        (flush (some k) w log >>= λ (_, w', log'). release (some k) w' log')
        (λ (outcome, _, log').
          (outcome ≡ ok) × (sent w.file_des log' ≡ (sent w.file_des log ++ pending w) ++ pending w))
drop-flush_repeats k w log v all =
    let whole : take k (pending w) ≡ pending w =
      take-length k (pending w) (omega (arith, length-pending v, v.pos_in)) in
    rw (flush_eq k w log v) (
      Ensures-mono _ _ (release (some k) w (flushed k w log)) (drop_lem k w (flushed k w log) v all)
        λ (outcome, w', log') (e, _, all_out). (
          e,
          all_out
              ∙ ap (λ bs. bs ++ pending w)
                  (sent-flushed k w log v ∙ ap (λ bs. sent w.file_des log ++ bs) whole),
        ))

flush-none :
    (w : BufWriter) (log : Log)
    → IsValid w
    → 0 < w.pos
    → flush none w log ≡ done (err_write_fail, w, log)
unfolding flush
flush-none w log v some_yet = try_flush_failed w log _ v some_yet

-- Whatever the system call answers, a flush has no memory error and leaves the writer as it was.
pub flush_same :
    (ans : Answer) (w : BufWriter) (log : Log)
    → IsValid w
    → Ensures (flush ans w log) (λ r. r.1 ≡ w)
unfolding flush try_flush
flush_same (some k) w log v = rw (flush_eq k w log v) refl
flush_same none w log v = elim (Bool-cases (ltb 0 w.pos)) [
  | inl some_yet ↦ rw (flush-none w log v (ltb→lt 0 w.pos some_yet)) refl
  | inr empty ↦ rw empty refl
]

-- Whatever the system call answers, a flush leaves the log, or sends some of the bytes of the buffer.
pub flush_log :
    (ans : Answer) (w : BufWriter) (log : Log)
    → IsValid w
    → Ensures (flush ans w log) (λ (_, w', log').
      (w' ≡ w)
      × ((sent w.file_des log' ≡ sent w.file_des log)
          ⊎ ((k : ℕ) × (sent w.file_des log' ≡ sent w.file_des log ++ take k (pending w)))))
unfolding flush try_flush
flush_log (some k) w log v = rw (flush_eq k w log v) (refl, inr (k, sent-flushed k w log v))
flush_log none w log v = elim (Bool-cases (ltb 0 w.pos)) [
  | inl some_yet ↦ rw (flush-none w log v (ltb→lt 0 w.pos some_yet)) (refl, inl refl)
  | inr empty ↦ rw empty (refl, inl refl)
]
