-- ===== src/Server/Rounds.antt =====
-- The listings, a round of the server's loop, and the loop: the invariant holds throughout, and there
-- is no memory error (src/server.c).
use so.Base.{
  ℕ, zero, suc, ◌+◌, ◌<◌, ◌≡◌, refl, sym, ◌∙◌, inl, inr, false, List, [], ◌∷◌, ◌++◌, append_assoc,
  arith, Bool-cases, length, take, length-append, All, Ensures-bind, Ensures-mono, done, Ensures,
}
use so.Base.Cells.{cells}
use so.Base.Cells.Laws.{load-cells}
use so.Files.{Answer, Log, Whole}
use so.TaskVec.{Task, TaskVec}
use so.TaskVec.Valid as Vec
use so.BufWriter
use so.BufWriter.{BufWriter, BwOutcome, default_cap, newline}
use so.BufWriter.Valid.{Follows, Follows-self, Follows-trans, Delivers}
use so.BufWriter.Line.{write_line_lem}
use so.BufWriter.Write.{Whole-le}
use so.BufWriter.Flush.{flush_same}
use so.Server.{Place, string_at, list_from, list_tasks, line_buf_size}
use so.Server.Invariant.{WriterReady, Follows-WriterReady}

module _ (place : Place) (line_buf : List ℕ) (answers : ℕ → Answer) (v : TaskVec) (name : List ℕ)
    (address : ℕ) (reads : string_at place line_buf address ≡ done name)
    (short : length name < default_cap)
    (whole : (i : ℕ) → Whole (default_cap + line_buf_size) (answers i)) where
  -- The rest of a listing behind a line that was written or not.
  line_Follows :
      (rounds i : ℕ) (w : BufWriter) (log : Log)
      → ((w' : BufWriter) (log' : Log)
          → WriterReady w'
          → Ensures
              (list_from place line_buf answers v rounds (i + 1) w' log')
              (λ r. Follows w' r.1))
      → WriterReady w
      → (r : BufWriter.Result)
      → Delivers (answers i) w log (take (length name) name ++ newline ∷ []) r
      → Ensures
          (elim r.0 [
            | BwOutcome.ok ↦ list_from place line_buf answers v rounds (i + 1) r.1 r.2
            | _ ↦ done (false, r.1, r.2)
          ])
          (λ r. Follows w r.1)
  line_Follows rounds i w log rest ready (o, w', log') (f, inr (failed, _, _)) = rw failed f
  line_Follows rounds i w log rest ready (o, w', log') (f, inl (well, _)) = rw well (
      Ensures-mono (λ r. Follows w' r.1) _
        (list_from place line_buf answers v rounds (i + 1) w' log')
        (rest w' log' (Follows-WriterReady ready f)) λ r g. Follows-trans f g)

  list_from-Follows :
      (bs ts cs : List Task) (rounds i : ℕ) (w : BufWriter) (log : Log)
      → cells v.buf ≡ bs ++ (ts ++ cs)
      → i ≡ length bs
      → rounds ≡ length ts
      → All (λ t. t.task_name ≡ address) ts
      → WriterReady w
      → Ensures (list_from place line_buf answers v rounds i w log) (λ r. Follows w r.1)
  unfolding list_from
  list_from-Follows bs [] cs zero i w log eb ei er named ready = Follows-self ready.valid
  list_from-Follows bs [] cs (suc rounds) i w log eb ei er named ready = absurd (omega arith)
  list_from-Follows bs (t ∷ ts) cs zero i w log eb ei er named ready = absurd (omega arith)
  list_from-Follows bs (t ∷ ts) cs (suc rounds) i w log eb ei er (named, others) ready =
      rw (load-cells v.buf bs t (ts ++ cs) i eb ei, named, reads)
        (Ensures-bind (Delivers (answers i) w log (take (length name) name ++ newline ∷ [])) _
          (BufWriter.write_line (answers i) w name (length name) log) _
          (write_line_lem (answers i) w name (length name) log ready.valid (omega arith)
            (Whole-le (answers i) (omega (arith, ready.whole_cap)) (whole i))
            (λ (p, q). omega (arith, ready.whole_cap)))
          (line_Follows rounds i w log
            (λ w' log'.
              list_from-Follows (bs ++ t ∷ []) ts cs rounds (i + 1) w' log'
                (eb ∙ sym (append_assoc bs (t ∷ []) (ts ++ cs)))
                (omega (arith, length-append bs (t ∷ []))) (omega arith) others)
            ready))

  pub list_tasks-Follows :
      (w : BufWriter) (log : Log)
      → Vec.IsValid v
      → All (λ t. t.task_name ≡ address) (Vec.tasks v)
      → WriterReady w
      → Ensures (list_tasks place line_buf answers v w log) (λ r. Follows w r.1)
  unfolding list_tasks
  list_tasks-Follows w log valid named ready =
      Ensures-bind (λ r. Follows w r.1) _ (list_from place line_buf answers v v.len 0 w log) _
        (list_from-Follows [] (Vec.tasks v) (Vec.spare v) v.len 0 w log (Vec.cells_parts v) refl
          (omega (arith, Vec.length-tasks valid)) named ready)
        λ (b, w', log') f. elim (Bool-cases b) [
          | inr failed ↦ rw failed f
          | inl well ↦ rw well (
              Ensures-bind (λ r. r.1 ≡ w') _ (BufWriter.flush (answers v.len) w' log') _
                (flush_same (answers v.len) w' log' f.valid) λ (o, w'', log'') same. rw same f)
        ]
