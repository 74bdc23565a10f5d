-- ===== src/Server/Listing.antt =====
-- What the server writes for the commands that list tasks (src/server.c).
use so.Base.{
  ℕ, zero, suc, ◌+◌, ◌-◌, ◌≤◌, ◌<◌, ◌≡◌, refl, sym, ap, ◌∙◌, inl, inr, Bool, true, false, some,
  List, [], ◌∷◌, ◌++◌, append_assoc, append-nil, arith, ltb, le→ltb, length, take, drop,
  length-append, take-length, All, Ensures-bind, Ensures-mono, done, Ensures,
}
use so.Base.Cells.{cells}
use so.Base.Cells.Laws.{load-cells}
use so.Files.{Answer, Log, sent, Whole}
use so.TaskVec.{Task, TaskVec}
use so.TaskVec.Valid as Vec
use so.BufWriter
use so.BufWriter.{BufWriter, BwOutcome, newline}
use so.BufWriter.Valid.{
  IsValid, Follows, Delivers, pending, stream, length-pending, Follows-self, Follows-trans,
}
use so.BufWriter.Line.{write_line_lem}
use so.BufWriter.Flush.{flush_lem}
use so.Server.{
  Server, Place, Round, goes_on, string_at, c_string, list_from, list_tasks, list_running,
}

-- So many lines of the same text.
abbrev pub lines : ℕ → List ℕ → List ℕ
lines zero name = []
lines (suc n) name = (name ++ newline ∷ []) ++ lines n name

-- The answer takes a call of so many bytes.
abbrev pub Takes : ℕ → Answer → Type 0
Takes n ans = (k : ℕ) × (ans ≡ some k) × (n ≤ k)

Takes-Whole : {n : ℕ} {ans : Answer} → Takes n ans → Whole n ans
Takes-Whole h = inr h

-- A writer that follows another, with so many lines more in its stream.
abbrev Wrote : BufWriter → Log → List ℕ → Bool × BufWriter × Log → Type 0
Wrote w log bytes (all_well, w', log') =
    (all_well ≡ true) × Follows w w' × (stream w' log' ≡ stream w log ++ bytes)

sent_all :
    (k : ℕ) (w w' : BufWriter) (log' log'' : Log)
    → Follows w w'
    → w.cap ≤ k
    → sent w'.file_des log'' ≡ sent w'.file_des log' ++ take k (pending w')
    → sent w.file_des log'' ≡ stream w' log'
sent_all k w w' log' log'' f room out =
    let whole : take k (pending w') ≡ pending w' =
      take-length k (pending w')
        (omega (arith, length-pending f.valid, f.valid.pos_in, f.same_cap)) in
    ap (λ fd. sent fd log'') (sym f.same_file) ∙ out ∙ ap (λ bs. sent w'.file_des log' ++ bs) whole

module _ (place : Place) (line_buf : List ℕ) (answers : ℕ → Answer) (v : TaskVec) (name : List ℕ)
    (address : ℕ) (cap : ℕ) (reads : string_at place line_buf address ≡ done name)
    (short : length name < cap) (takes : (i : ℕ) → Takes (cap + length name) (answers i)) where
  -- A line that was written, and the rest of the listing.
  line_written :
      (rounds i : ℕ) (w : BufWriter) (log : Log)
      → ((w' : BufWriter) (log' : Log)
          → IsValid w'
          → w'.cap ≡ cap
          → Ensures
              (list_from place line_buf answers v rounds (i + 1) w' log')
              (Wrote w' log' (lines rounds name)))
      → w.cap ≡ cap
      → (r : BufWriter.Result)
      → Delivers (answers i) w log (take (length name) name ++ newline ∷ []) r
      → Ensures
          (elim r.0 [
            | BwOutcome.ok ↦ list_from place line_buf answers v rounds (i + 1) r.1 r.2
            | _ ↦ done (false, r.1, r.2)
          ])
          (Wrote w log (lines (suc rounds) name))
  line_written rounds i w log rest same (o, w', log') (f, inr (_, failed, _)) =
      let (k, e, _) = takes i in absurd cc
  line_written rounds i w log rest same (o, w', log') (f, inl (well, wrote)) =
      let all : take (length name) name ≡ name = take-length (length name) name (omega arith) in
      rw well (
        Ensures-mono (Wrote w' log' (lines rounds name)) _
          (list_from place line_buf answers v rounds (i + 1) w' log')
          (rest w' log' f.valid (f.same_cap ∙ same))
          λ (b, w'', log'') (b_well, g, wrote'). (
            b_well,
            Follows-trans f g,
            wrote'
                ∙ ap (λ xs. xs ++ lines rounds name)
                    (wrote ∙ ap (λ xs. stream w log ++ (xs ++ newline ∷ [])) all)
                ∙ append_assoc (stream w log) (name ++ newline ∷ []) (lines rounds name),
          ))

  list_from_lem :
      (bs ts cs : List Task) (rounds i : ℕ) (w : BufWriter) (log : Log)
      → cells v.buf ≡ bs ++ (ts ++ cs)
      → i ≡ length bs
      → rounds ≡ length ts
      → All (λ t. t.task_name ≡ address) ts
      → IsValid w
      → w.cap ≡ cap
      → Ensures
          (list_from place line_buf answers v rounds i w log)
          (Wrote w log (lines rounds name))
  unfolding list_from
  list_from_lem bs [] cs zero i w log eb ei er named valid same =
      (refl, Follows-self valid, sym (append-nil (stream w log)))
  list_from_lem bs [] cs (suc rounds) i w log eb ei er named valid same = absurd (omega arith)
  list_from_lem bs (t ∷ ts) cs zero i w log eb ei er named valid same = absurd (omega arith)
  list_from_lem bs (t ∷ ts) cs (suc rounds) i w log eb ei er (named, others) valid same =
      rw (load-cells v.buf bs t (ts ++ cs) i eb ei, named, reads)
        (Ensures-bind (Delivers (answers i) w log (take (length name) name ++ newline ∷ [])) _
          (BufWriter.write_line (answers i) w name (length name) log) _
          (write_line_lem (answers i) w name (length name) log valid (omega arith)
            (Takes-Whole (rw same (takes i))) (λ (p, q). omega arith))
          (line_written rounds i w log
            (λ w' log'.
              list_from_lem (bs ++ t ∷ []) ts cs rounds (i + 1) w' log'
                (eb ∙ sym (append_assoc bs (t ∷ []) (ts ++ cs)))
                (omega (arith, length-append bs (t ∷ []))) (omega arith) others)
            same))

  list_tasks_lem :
      (w : BufWriter) (log : Log)
      → Vec.IsValid v
      → All (λ t. t.task_name ≡ address) (Vec.tasks v)
      → IsValid w
      → w.cap ≡ cap
      → Ensures (list_tasks place line_buf answers v w log) (λ (all_well, w', log').
        (all_well ≡ true)
        × Follows w w'
        × (sent w.file_des log' ≡ stream w log ++ lines v.len name)
        × (stream w' log' ≡ sent w.file_des log' ++ pending w'))
  unfolding list_tasks
  list_tasks_lem w log vec named valid same =
      Ensures-bind (Wrote w log (lines v.len name)) _
        (list_from place line_buf answers v v.len 0 w log) _
        (list_from_lem [] (Vec.tasks v) (Vec.spare v) v.len 0 w log (Vec.cells_parts v) refl
          (omega (arith, Vec.length-tasks vec)) named valid same)
        λ (b, w', log') (well, f, wrote).
          let (k, e, room) = takes v.len in
          rw (well, e)
            (Ensures-bind _ _ (BufWriter.flush (some k) w' log') _ (flush_lem k w' log' f.valid)
              λ (o, w'', log'') (o_well, kept, out).
                rw (o_well, kept)
                  (refl, f, sent_all k w w' log' log'' f (omega arith) out ∙ wrote, rw f.same_file))

-- On a valid server whose running tasks have the name address that the server gives them, with
-- calls that take all bytes and a writer with room for the name, the listing goes on without a
-- memory error and sends what was in the buffer and then, for each task, the same line, the text
-- behind the listing command; the writer keeps the end of it in its buffer.
pub list_running_lem :
    (place : Place) (round : Round) (s : Server) (name : List ℕ)
    → Vec.IsValid s.running
    → IsValid s.running_writer
    → All (λ t. t.task_name ≡ place.line_addr + 2) (Vec.tasks s.running)
    → c_string (drop 2 s.line_buf) ≡ done name
    → length name < s.running_writer.cap
    → ((i : ℕ) → Takes (s.running_writer.cap + length name) (round.answers i))
    → Ensures (list_running place round s) (λ (how, s').
      let fd = s.running_writer.file_des in
      (how ≡ goes_on)
      × Follows s.running_writer s'.running_writer
      × (sent fd s'.log ≡ stream s.running_writer s.log ++ lines s.running.len name)
      × (stream s'.running_writer s'.log ≡ sent fd s'.log ++ pending s'.running_writer)
      × (s' ≡ record s { running_writer = s'.running_writer; log = s'.log }))
unfolding list_running string_at
list_running_lem place round s name vec valid named reads short takes =
    let behind : ltb (place.line_addr + 2) place.line_addr ≡ false =
      le→ltb (place.line_addr + 2) place.line_addr (omega arith) in
    let two : place.line_addr + 2 - place.line_addr ≡ 2 = omega arith in
    Ensures-bind _ _ (list_tasks place s.line_buf round.answers s.running s.running_writer s.log) _
      (list_tasks_lem place s.line_buf round.answers s.running name (place.line_addr + 2)
        s.running_writer.cap (rw (behind, two) reads) short takes s.running_writer s.log vec named
        valid refl)
      λ (b, w', log') (well, f, out, later). rw well (refl, f, out, later, refl)
