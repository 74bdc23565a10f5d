-- ===== src/BufWriter/Fits.antt =====
-- `bw_write` and `bw_write_line` (src/buf_io/buf_writer.c) where the buffer has room for all: nothing
-- goes out.
use so.Base.{
  ℕ, ◌+◌, ◌-◌, ◌%◌, ◌≤◌, ◌<◌, ◌≡◌, refl, ap, ◌∙◌, false, List, [], ◌∷◌, ◌++◌, append_assoc, arith,
  ltb, ◌==◌, size_mod, le→ltb, ne→==, length, take, Ensures,
}
use so.Base.Cells.{block}
use so.Files.{Answer, Log}
use so.BufWriter.{BufWriter, Result, ok, available_size, write, write_line, newline}
use so.BufWriter.Valid.{IsValid, Follows, pending, available_lem, with_block, Follows-trans}
use so.BufWriter.Pieces.{write_within_lem, put_char_lem}

-- All is well, the log is the same, and the buffer holds these bytes more.
abbrev pub Buffers : BufWriter → Log → List ℕ → Result → Type 0
Buffers w log bytes (outcome, w', log') =
    (outcome ≡ ok) × Follows w w' × (log' ≡ log) × (pending w' ≡ pending w ++ bytes)

pub write_fits :
    (ans : Answer) (w : BufWriter) (chars : List ℕ) (n : ℕ) (log : Log)
    → IsValid w
    → n ≤ length chars
    → n ≤ w.cap - w.pos
    → Ensures (write ans w chars n log) (Buffers w log (take n chars))
unfolding write
write_fits ans w chars n log v given fits =
    let room : ltb (available_size w) n ≡ false =
      le→ltb (available_size w) n (omega (arith, available_lem v)) in
    let sum : (w.pos + n) % size_mod ≡ w.pos + n = omega (arith, v.small, v.pos_in) in
    rw room (
      write_within_lem (Buffers w log (take n chars)) w chars n _ v given fits λ zs size held.
        rw sum (refl, with_block zs (w.pos + n) v size (omega (arith, v.pos_in)), refl, held))

pub write_line_fits :
    (ans : Answer) (w : BufWriter) (chars : List ℕ) (n : ℕ) (log : Log)
    → IsValid w
    → n ≤ length chars
    → n < w.cap - w.pos
    → Ensures (write_line ans w chars n log) (Buffers w log (take n chars ++ newline ∷ []))
unfolding write_line
write_line_fits ans w chars n log v given fits =
    let room : ltb (available_size w) n ≡ false =
      le→ltb (available_size w) n (omega (arith, available_lem v)) in
    let apart : (available_size w == n) ≡ false =
      ne→== (available_size w) n (ground (arith, available_lem v)) in
    let sum : (w.pos + n) % size_mod ≡ w.pos + n = omega (arith, v.small, v.pos_in) in
    rw (room, apart)
      (write_within_lem (Buffers w log (take n chars ++ newline ∷ [])) w chars n _ v given
        (omega arith)
        λ zs size held.
          let w' = record w { buf = block zs; pos = w.pos + n } in
          let f = with_block zs (w.pos + n) v size (omega (arith, v.pos_in)) in
          rw sum (
            put_char_lem (Buffers w log (take n chars ++ newline ∷ [])) w' newline log f.valid
              (omega (arith, v.pos_in))
              λ w'' g held'. (
                refl,
                Follows-trans f g,
                refl,
                held'
                    ∙ ap (λ xs. xs ++ newline ∷ []) held
                    ∙ append_assoc (pending w) (take n chars) (newline ∷ []),
              )))
