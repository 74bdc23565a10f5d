-- ===== src/BufWriter/Write.antt =====
-- `bw_write` and `bw_write_char` (src/buf_io/buf_writer.c).
use so.Base.{
  ℕ, ◌+◌, ◌-◌, ◌%◌, ◌≤◌, ◌≡◌, refl, sym, ap, ◌∙◌, inl, inr, List, [], ◌∷◌, ◌++◌, append-nil, arith,
  ltb, ◌==◌, size_mod, ltb→lt, ltb→le, ==_iff, Bool-cases, length, take, length-take, take-add,
  Ensures,
}
use so.Base.Cells.{block, cells}
use so.Files.{Answer, Log, Whole}
use so.BufWriter.{BufWriter, Result, available_size, write, write_char, put_char}
use so.BufWriter.Valid.{
  IsValid, Follows, Delivers, pending, stream, available_lem, with_block, Follows-self,
  Follows-trans, stream_sent, stream_kept, undelivered, delivered,
}
use so.BufWriter.Pieces.{
  read_prefix, try_write_lem, write_through_lem, write_around_lem, write_within_lem, put_char_lem,
}

-- The writer with nothing in its buffer.
pub emptied : {w : BufWriter} → IsValid w → Follows w (record w { pos = 0 })
emptied v = record {
  valid = record {
    live = v.live;
    storage = v.storage;
    pos_in = omega arith;
    positive = v.positive;
    small = v.small;
  };
  same_file = refl;
  same_cap = refl;
}

pub Whole-le : {n m : ℕ} (ans : Answer) → n ≤ m → Whole m ans → Whole n ans
Whole-le ans h (inl e) = inl e
Whole-le ans h (inr (k, e, all)) = inr (k, e, omega arith)

-- On a valid writer, with a system call that fails or takes all bytes, bw_write has no memory
-- error, keeps the writer valid, and delivers the bytes, or reports that the call failed and takes
-- nothing.
pub write_lem :
    (ans : Answer) (w : BufWriter) (chars : List ℕ) (n : ℕ) (log : Log)
    → IsValid w
    → n ≤ length chars
    → Whole (w.cap + n) ans
    → Ensures (write ans w chars n log) (Delivers ans w log (take n chars))
unfolding write
write_lem ans w chars n log v given whole = elim (Bool-cases (ltb (available_size w) n)) [
  | inl over ↦ rw over (elim (Bool-cases (ltb w.cap n)) [
    | inl large ↦ rw large (
        write_through_lem P ans w chars n log _ v given
          (Whole-le ans (omega (arith, v.pos_in)) whole)
          (undelivered ans w w log (take n chars) (Follows-self v) refl)
          (delivered ans w (record w { pos = 0 }) log _ (take n chars) (emptied v)
            (stream_sent w (record w { pos = 0 }) log (take n chars) [] refl refl
              ∙ ap (λ xs. stream w log ++ xs) (append-nil (take n chars)))))
    | inr small ↦ rw small (
        write_around_lem P ans w chars n log _ v given
          (omega (arith, ltb→lt _ _ over, available_lem v)) (ltb→le _ _ small)
          (Whole-le ans (omega arith) whole)
          (λ w' f same failed. undelivered ans w w' log (take n chars) f same failed)
          (λ w' f pos held. delivered ans w w' log _ (take n chars) f (
            stream_sent w w' log _ _ f.same_file held
            ∙ ap (λ xs. stream w log ++ xs)
                (sym (
                  take-add n (w.cap - w.pos) _ chars
                    (omega (arith, ltb→lt _ _ over, available_lem v))
                    (omega (arith, ltb→lt _ _ over, available_lem v)))))))
  ])
  | inr room ↦
      let fits : n ≤ w.cap - w.pos = omega (arith, ltb→le _ _ room, available_lem v) in
      let sum : (w.pos + n) % size_mod ≡ w.pos + n = omega (arith, v.small, v.pos_in) in
      rw room (
        write_within_lem P w chars n _ v given fits (λ zs size held.
          let w' = record w { buf = block zs; pos = w.pos + n } in
          rw sum (
            delivered ans w w' log log (take n chars)
              (with_block zs (w.pos + n) v size (omega (arith, v.pos_in)))
              (stream_kept w w' log (take n chars) refl held))))
]
  where
    P : Result → Type 0
    P = Delivers ans w log (take n chars)

-- A byte put into the empty buffer, behind what went out.
pub put_first :
    (ans : Answer) (w : BufWriter) (c : ℕ) (xs : List ℕ) (log : Log)
    → IsValid w
    → Ensures
        (put_char (record w { pos = 0 }) c (log ++ (w.file_des, pending w ++ xs) ∷ []))
        (Delivers ans w log (xs ++ c ∷ []))
put_first ans w c xs log v =
    put_char_lem (Delivers ans w log (xs ++ c ∷ [])) (record w { pos = 0 }) c _ (emptied v).valid
      v.positive
      λ w' f held.
        delivered ans w w' log _ (xs ++ c ∷ []) (Follows-trans (emptied v) f)
          (stream_sent w w' log xs (c ∷ []) f.same_file held)

-- On a valid writer, with a system call that fails or takes all bytes, bw_write_char delivers its
-- byte, or reports that the call failed and takes nothing, without a memory error.
pub write_char_lem :
    (ans : Answer) (w : BufWriter) (c : ℕ) (log : Log)
    → IsValid w
    → Whole w.cap ans
    → Ensures (write_char ans w c log) (Delivers ans w log (c ∷ []))
unfolding write_char
write_char_lem ans w c log v whole = elim (Bool-cases (w.pos == w.cap)) [
  | inl full ↦
      let at_cap : w.pos ≡ w.cap = (==_iff _ _).0 full in
      let all : take w.cap (cells w.buf) ≡ pending w ++ [] =
        ap (λ k. take k (cells w.buf)) (sym at_cap) ∙ sym (append-nil (pending w)) in
      let size : length (take w.cap (cells w.buf)) ≡ w.cap =
        omega (arith, length-take w.cap (cells w.buf), v.storage) in
      rw (full, read_prefix (cells w.buf) w.cap (omega (arith, v.storage)))
        (try_write_lem P ans w (take w.cap (cells w.buf)) log _ (rw (← size) at whole)
          (undelivered ans w w log (c ∷ []) (Follows-self v) refl)
          (rw all (put_first ans w c [] log v)))
  | inr room ↦ rw room (
      put_char_lem P w c log v (ground (arith, v.pos_in)) (λ w' f held.
        delivered ans w w' log log (c ∷ []) f (stream_kept w w' log (c ∷ []) f.same_file held)))
]
  where
    P : Result → Type 0
    P = Delivers ans w log (c ∷ [])
