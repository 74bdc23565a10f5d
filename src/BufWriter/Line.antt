-- ===== src/BufWriter/Line.antt =====
-- `bw_write_line` (src/buf_io/buf_writer.c): the line and a newline, and the one case in which the
-- newline is put behind the end of the buffer.
use mathlib.Core.Path.{subst}
use so.Base.{
  ℕ, ◌+◌, ◌-◌, ◌%◌, ◌≤◌, ◌<◌, ◌≡◌, refl, sym, ap, ◌∙◌, ◌≢◌, inl, inr, some, List, [], ◌∷◌, ◌++◌,
  append_assoc, arith, ltb, ◌==◌, if◌then◌else◌, size_mod, ltb→lt, lt→ltb, ltb→le, le→ltb, ==_iff,
  Bool-cases, length, take, drop, length-take, take-take, take-exact, take-add, done, fault, ◌>>=◌,
  Ensures,
}
use so.Base.Cells.{block, cells, read_range, copy_to}
use so.Base.Cells.Laws.{store_outside, copy_in}
use native.Mathlib.Decide.{ℕ_discrete}
use so.Files.{Answer, Log, Whole}
use so.BufWriter.{
  BufWriter, Result, available_size, write_line, write_around, put_char, try_write, newline,
}
use so.BufWriter.Valid.{
  IsValid, Delivers, pending, stream, available_lem, length-pending, with_block, buf_block,
  Follows-self, stream_sent, stream_kept, undelivered, delivered, Follows-trans,
}
use so.BufWriter.Pieces.{
  read_prefix, try_write_lem, write_through_lem, write_around_lem, write_within_lem, put_char_lem,
}
use so.BufWriter.Write.{Whole-le, put_first}

module _ (ans : Answer) (w : BufWriter) (chars : List ℕ) (n : ℕ) (log : Log) (v : IsValid w)
    (given : n ≤ length chars) (whole : Whole (w.cap + n) ans) where
  abbrev P : Result → Type 0
  P = Delivers ans w log (take n chars ++ newline ∷ [])

  joined :
      w.cap - w.pos < n
      → take (w.cap - w.pos) chars
          ++ (take (n - (w.cap - w.pos)) (drop (w.cap - w.pos) chars) ++ newline ∷ [])
        ≡ take n chars ++ newline ∷ []
  joined over =
      sym (append_assoc (take (w.cap - w.pos) chars) _ (newline ∷ []))
      ∙ ap (λ xs. xs ++ newline ∷ [])
          (sym (take-add n (w.cap - w.pos) _ chars (omega arith) (omega arith)))

  first_newline :
      (zs : List ℕ)
      → length zs ≡ w.cap
      → Ensures
          (put_char
            (record w { buf = block zs; pos = 0 })
            newline
            (log ++ (w.file_des, pending w ++ take n chars) ∷ []))
          P
  first_newline zs size =
      let f = with_block {w = w} zs 0 v size (omega arith) in
      put_char_lem P (record w { buf = block zs; pos = 0 }) newline _ f.valid v.positive
        λ w' g held.
          delivered ans w w' log _ _ (Follows-trans f g)
            (stream_sent w w' log (take n chars) (newline ∷ []) g.same_file held)

  -- The buffer is filled up and goes out, and the rest of the line and the newline are put into it.
  line_around :
      w.cap - w.pos < n
      → n ≤ w.cap
      → n + w.pos < w.cap + w.cap
      → Ensures (write_around ans w chars n log (λ w' log'. put_char w' newline log')) P
  line_around over small apart =
      write_around_lem P ans w chars n log _ v given over small (Whole-le ans (omega arith) whole)
        (λ w' f same failed. undelivered ans w w' log _ f same failed)
        λ w' f pos held.
          put_char_lem P w' newline _ f.valid (omega (arith, f.same_cap, v.pos_in)) λ w'' g held'.
            delivered ans w w'' log _ _ (Follows-trans f g) (
              stream_sent w w'' log _ _ (g.same_file ∙ f.same_file)
                (held' ∙ ap (λ xs. xs ++ newline ∷ []) held)
              ∙ ap (λ xs. stream w log ++ xs) (joined over))

  -- The line fits.
  line_within :
      (zs : List ℕ)
      → n ≤ w.cap - w.pos
      → length zs ≡ w.cap
      → take (w.pos + n) zs ≡ pending w ++ take n chars
      → Ensures
          (if available_size w == n
            then (read_range zs 0 w.cap >>= λ bytes.
                try_write ans
                  (record w { buf = block zs })
                  bytes
                  log
                  λ log'. put_char (record w { buf = block zs; pos = 0 }) newline log')
            else put_char (record w { buf = block zs; pos = (w.pos + n) % size_mod }) newline log)
          P
  line_within zs fits size held = elim (Bool-cases (available_size w == n)) [
    | inl full ↦
        let sum : w.pos + n ≡ w.cap =
          omega (arith, (==_iff _ _).0 full, available_lem v, v.pos_in) in
        let len : length (take w.cap zs) ≡ w.cap = omega (arith, length-take w.cap zs) in
        let kept : take w.pos zs ≡ pending w =
          sym (take-take w.pos (w.pos + n) zs (omega arith))
          ∙ ap (take w.pos) held
          ∙ take-exact (pending w) (take n chars) w.pos (sym (length-pending v)) in
        rw (full, read_prefix zs w.cap (omega arith))
          (try_write_lem P ans (record w { buf = block zs }) (take w.cap zs) log _
            (rw (← len) at (Whole-le {n = w.cap} ans (omega arith) whole))
            (undelivered ans w (record w { buf = block zs }) log _
              (with_block zs w.pos v size v.pos_in) kept)
            (subst
              (λ bytes.
                Ensures
                  (put_char (record w { buf = block zs; pos = 0 }) newline
                    (log ++ (w.file_des, bytes) ∷ []))
                  P)
              (sym held ∙ ap (λ k. take k zs) sum) (first_newline zs size)))
    | inr room ↦
        let apart : n ≢ w.cap - w.pos = ground (arith, available_lem v) in
        let sum : (w.pos + n) % size_mod ≡ w.pos + n = omega (arith, v.small, v.pos_in) in
        let w' = record w { buf = block zs; pos = w.pos + n } in
        let f = with_block zs (w.pos + n) v size (omega (arith, v.pos_in)) in
        rw (room, sum)
          (put_char_lem P w' newline log f.valid (omega (arith, v.pos_in)) λ w'' g held'.
            delivered ans w w'' log log _ (Follows-trans f g) (
              stream_kept w w'' log (take n chars ++ newline ∷ []) g.same_file (
                held'
                ∙ ap (λ xs. xs ++ newline ∷ []) held
                ∙ append_assoc (pending w) (take n chars) (newline ∷ []))))
  ]

-- On a valid writer, with a system call that fails or takes all bytes, bw_write_line has no memory
-- error, keeps the writer valid, and delivers the bytes and a newline, or reports that the call
-- failed and takes nothing, unless the buffer is full and the line is just as long as the buffer.
pub write_line_lem :
    (ans : Answer) (w : BufWriter) (chars : List ℕ) (n : ℕ) (log : Log)
    → IsValid w
    → n ≤ length chars
    → Whole (w.cap + n) ans
    → ¬ ((w.pos ≡ w.cap) × (n ≡ w.cap))
    → Ensures (write_line ans w chars n log) (Delivers ans w log (take n chars ++ newline ∷ []))
unfolding write_line
write_line_lem ans w chars n log v given whole apart =
    elim (Bool-cases (ltb (available_size w) n)) [
      | inl over ↦ rw over (elim (Bool-cases (ltb w.cap n)) [
        | inl large ↦ rw large (
            write_through_lem Q ans w chars n log _ v given
              (Whole-le ans (omega (arith, v.pos_in)) whole)
              (undelivered ans w w log _ (Follows-self v) refl)
              (put_first ans w newline (take n chars) log v))
        | inr small ↦ rw small (
            line_around ans w chars n log v given whole
              (omega (arith, ltb→lt _ _ over, available_lem v)) (ltb→le _ _ small)
              (below apart (ltb→le _ _ small)))
      ])
      | inr room ↦
          let fits : n ≤ w.cap - w.pos = omega (arith, ltb→le _ _ room, available_lem v) in
          rw room (
            write_within_lem Q w chars n _ v given fits
              (λ zs size held. line_within ans w chars n log v given whole zs fits size held))
    ]
  where
    Q : Result → Type 0
    Q = Delivers ans w log (take n chars ++ newline ∷ [])

    below : ¬ ((w.pos ≡ w.cap) × (n ≡ w.cap)) → n ≤ w.cap → n + w.pos < w.cap + w.cap
    below apart small = elim (ℕ_discrete w.pos w.cap) [
      | no p ↦ omega (arith, v.pos_in)
      | yes p ↦ elim (ℕ_discrete n w.cap) [ yes q ↦ absurd (apart (p, q)) | no q ↦ omega arith ]
    ]

-- On a valid writer, when the buffer is full, the line is just as long as the buffer, and the
-- system call takes bytes, bw_write_line stores the newline behind the end of the buffer.
pub write_line_overrun :
    (ans : Answer) (w : BufWriter) (chars : List ℕ) (n k : ℕ) (log : Log)
    → IsValid w
    → n ≤ length chars
    → w.pos ≡ w.cap
    → n ≡ w.cap
    → ans ≡ some k
    → write_line ans w chars n log ≡ fault
unfolding write_line write_around try_write put_char
write_line_overrun ans w chars n k log v given full same takes =
    let none_free : available_size w ≡ 0 = omega (arith, available_lem v) in
    let (zs, copied, zs_len, _) = copy_in (cells w.buf) [] w.pos (omega (arith, v.storage)) in
    let copied' : copy_to w.buf w.pos [] ≡ done (block zs) =
      ap (λ b. copy_to b w.pos []) (buf_block v) ∙ copied in
    let all_left : n - 0 ≡ n = omega arith in
    let rest_len : length (take n chars) ≡ w.cap = omega (arith, length-take n chars) in
    let (ys, copied'', ys_len, _) = copy_in zs (take n chars) 0 (omega (arith, v.storage)) in
    rw (
      none_free,
      lt→ltb 0 n (omega (arith, v.positive)),
      le→ltb w.cap n (omega arith),
      read_prefix chars 0 (omega arith),
      copied',
      read_prefix zs w.cap (omega (arith, v.storage)),
      takes,
      all_left,
      read_prefix chars n given,
      copied'',
      store_outside ys n newline (omega (arith, v.storage)),
    )
