-- ===== src/BufWriter/Tests.antt =====
-- Concrete writers: runs of the functions, and the theorems at inputs where their hypotheses hold.
use so.Base.{
  ℕ, zero, suc, ◌≤◌, ◌≡◌, refl, ◌⊎◌, inl, inr, true, false, none, some, List, [], ◌∷◌, ◌++◌, arith,
  codes, Exec, done, fault, ◌>>=◌, Ensures,
}
use so.Base.Cells.{block, freed, Grant, read_range, copy_to, store}
use so.Files.{Answer, sent, Whole}
use so.BufWriter.{
  BufWriter, Result, BwOutcome, ok, err_alloc_fail, err_write_fail, flush, drop as release, close,
  drop_and_close, try_flush, try_write, with_cap, with_buf, replace_buf, replace_file, write,
  write_line, write_char, write_around, write_within, put_char, newline,
}
use so.BufWriter.Valid.{IsValid, Delivers, pending}
use so.BufWriter.Write.{write_lem, write_char_lem}
use so.BufWriter.Line.{write_line_lem, write_line_overrun}
use so.BufWriter.Messages.{Fits, bw_outcome_msg, print_both, bw_outcome_msg-Fits}
use so.BufWriter.Session.{
  Call, write_bytes, write_text_line, write_byte, session, Writes, session_lem, session-drop,
}
use so.BufWriter.Making.{with_cap_lem, replace_lem}
use so.BufWriter.Flush.{flush_lem, flush_failed, drop_lem, drop-flush_repeats}

-- Two bytes in a buffer of four.
abbrev half : BufWriter
half = record { file_des = 7; buf = block (97 ∷ 98 ∷ 0 ∷ 0 ∷ []); pos = 2; cap = 4 }

-- A buffer of four without room.
abbrev full : BufWriter
full = record half { pos = 4 }

abbrev word : List ℕ
word = 120 ∷ 121 ∷ 122 ∷ []

abbrev four : List ℕ
four = 119 ∷ word

-- Storage that `malloc` grants.
abbrev zeros : Grant ℕ
zeros = some (λ i. 0)

half-IsValid : IsValid half
half-IsValid = record {
  live = refl;
  storage = refl;
  pos_in = omega arith;
  positive = omega arith;
  small = omega arith;
}

full-IsValid : IsValid full
full-IsValid = record {
  live = refl;
  storage = refl;
  pos_in = omega arith;
  positive = omega arith;
  small = omega arith;
}

takes_all : (n : ℕ) → n ≤ 100 → Whole n (some 100)
takes_all n h = inr (100, refl, h)

-- The buffer goes out full, and a byte and the newline are left in it.
write_line_run :
    write_line (some 100) half word 3 []
    ≡ done (
      ok,
      record half { buf = block (122 ∷ 10 ∷ 120 ∷ 121 ∷ []) },
      (7, 97 ∷ 98 ∷ 120 ∷ 121 ∷ []) ∷ [],
    )
unfolding write_line write_around try_write put_char copy_to read_range store
write_line_run = refl

close_run :
    close (some 100) false half [] ≡ done (BwOutcome.err_close_fail, half, (7, 97 ∷ 98 ∷ []) ∷ [])
unfolding close try_flush try_write read_range
close_run = refl

with_buf_run :
    write (some 100) (with_buf 7 four 4) word 3 []
    ≡ done (ok, record half { buf = block (120 ∷ 121 ∷ 122 ∷ 122 ∷ []); pos = 3 }, [])
unfolding with_buf write write_within copy_to read_range
with_buf_run = refl

write_lem_run : Ensures (write (some 100) half word 3 []) (Delivers (some 100) half [] word)
write_lem_run =
    write_lem (some 100) half word 3 [] half-IsValid (omega arith) (takes_all 7 (omega arith))

write_char_lem_run : Ensures (write_char none full 33 []) (Delivers none full [] (33 ∷ []))
write_char_lem_run = write_char_lem none full 33 [] full-IsValid (inl refl)

write_line_lem_example :
    Ensures
      (write_line (some 100) half word 3 [])
      (Delivers (some 100) half [] (word ++ newline ∷ []))
write_line_lem_example =
    write_line_lem (some 100) half word 3 [] half-IsValid (omega arith) (takes_all 7 (omega arith))
      λ (p, q). ground arith

write_line_overrun_example : write_line (some 100) full four 4 [] ≡ fault
write_line_overrun_example =
    write_line_overrun (some 100) full four 4 100 [] full-IsValid (omega arith) refl refl refl

flush_lem_run :
    Ensures
      (flush (some 1) half [])
      (λ (outcome, w', log'). (outcome ≡ ok) × (w' ≡ half) × (sent 7 log' ≡ 97 ∷ []))
flush_lem_run = flush_lem 1 half [] half-IsValid

flush_failed_run :
    let kept : Exec Result = done (err_write_fail, half, []) in
    (flush none half [] ≡ kept)
    × (release none half [] ≡ kept)
    × (close none true half [] ≡ kept)
    × (drop_and_close none true half [] ≡ kept)
flush_failed_run = flush_failed true half [] half-IsValid (omega arith)

drop_lem_run : Ensures (release (some 4) half []) (λ (outcome, w', log').
    (outcome ≡ ok) × (w' ≡ record half { buf = freed; pos = 0 }) × (sent 7 log' ≡ 97 ∷ 98 ∷ []))
drop_lem_run = drop_lem 4 half [] half-IsValid (omega arith)

drop-flush_repeats_run :
    Ensures
      (flush (some 4) half [] >>= λ (_, w', log'). release (some 4) w' log')
      (λ (outcome, _, log'). (outcome ≡ ok) × (sent 7 log' ≡ 97 ∷ 98 ∷ 97 ∷ 98 ∷ []))
drop-flush_repeats_run = drop-flush_repeats 4 half [] half-IsValid (omega arith)

with_cap_run :
    let (outcome, w) = with_cap zeros half 5 3 in
    ((zeros ≡ none) × (outcome ≡ err_alloc_fail))
    ⊎ ((outcome ≡ ok) × IsValid w × (pending w ≡ []) × (w.file_des ≡ 5) × (w.cap ≡ 3))
with_cap_run = with_cap_lem zeros half 5 3 (omega arith) (omega arith)

replace_run :
    let (old_buf, w₁) = replace_buf half word 3 in
    let (old_fd, w₂) = replace_file half 5 in
    (old_buf ≡ half.buf)
    × IsValid w₁
    × (pending w₁ ≡ [])
    × (w₁.file_des ≡ 7)
    × (old_fd ≡ 7)
    × IsValid w₂
    × (pending w₂ ≡ [])
    × (w₂.file_des ≡ 5)
replace_run = replace_lem half word 5 half-IsValid (omega arith) (omega arith)

-- Two lines and a byte.
abbrev calls : List Call
calls = write_text_line word ∷ write_bytes four ∷ write_byte 33 ∷ []

-- The second call to the system fails.
abbrev second_fails : ℕ → Answer
second_fails i = elim i [ zero ↦ some 100 | suc j ↦ none ]

session_lem_example :
    Ensures (session second_fails 0 half calls []) (Writes second_fails half [] calls)
session_lem_example =
    session_lem second_fails 0 half calls [] 4 half-IsValid
      ((omega arith, ground arith), (omega arith, (tt, tt)))
      λ k. elim k as (λ i. Whole 8 (second_fails i)) [
        | zero ↦ takes_all 8 (omega arith)
        | suc j ↦ inl refl
      ]

session-drop_run :
    Ensures
      (session (λ i. some 100) 0 half calls [] >>= λ (_, w', log'). release (some 100) w' log')
      (λ (outcome, _, log').
        (outcome ≡ ok) × (sent 7 log' ≡ 97 ∷ 98 ∷ word ++ newline ∷ four ++ 33 ∷ []))
session-drop_run =
    session-drop (λ i. some 100) half calls [] 4 100 half-IsValid
      ((omega arith, ground arith), (omega arith, (tt, tt))) (λ i. refl) (omega arith)

bw_outcome_msg-Fits_example :
    (text : List ℕ) × (bw_outcome_msg (λ errno. codes "Broken pipe") 2 (some 32) ≡ some text)
    × Fits text
bw_outcome_msg-Fits_example = bw_outcome_msg-Fits (λ errno. codes "Broken pipe") 2 (some 32)

bw_outcome_msg_run :
    bw_outcome_msg (λ errno. codes "Broken pipe") 2 (some 32)
    ≡ some (codes "failed writing to the file descriptor: Broken pipe")
unfolding bw_outcome_msg print_both
bw_outcome_msg_run = refl

bw_outcome_msg_apart_run : bw_outcome_msg (λ errno. []) 7 none ≡ bw_outcome_msg (λ errno. []) 4 none
unfolding bw_outcome_msg
bw_outcome_msg_apart_run = refl
