-- ===== src/Server/Receive.antt =====
-- The line that the server keeps of what it reads, and the string behind its first bytes
-- (src/server.c).
use so.Base.{
  ℕ, ◌+◌, ◌≤◌, ◌<◌, ◌≡◌, refl, sym, ap, ◌∙◌, inl, inr, List, [], ◌∷◌, ◌++◌, arith, ◌==◌, Bool-cases,
  length, take, drop, length-append, length-drop, nonempty_parts, done,
}
use so.Base.Cells.{block, store}
use so.Base.Cells.Laws.{store_lem, cut, copy_in}
use so.Server.{receive, c_string, line_buf_size}

pub c_string_stops :
    (xs rest : List ℕ)
    → (name : List ℕ) × (c_string (xs ++ 0 ∷ rest) ≡ done name) × (length name ≤ length xs)
unfolding c_string
c_string_stops [] rest = ([], refl, omega arith)
c_string_stops (x ∷ xs) rest = elim (Bool-cases (x == 0)) [
  | inl nul ↦ ([], rw nul, omega arith)
  | inr other ↦
      let (name, e, short) = c_string_stops xs rest in (x ∷ name, rw (other, e), omega arith)
]

pub receive_lem :
    (line_buf bytes : List ℕ)
    → length line_buf ≡ line_buf_size
    → length bytes < line_buf_size
    → (rest : List ℕ) × (receive line_buf bytes ≡ done (bytes ++ 0 ∷ rest))
      × (length (bytes ++ 0 ∷ rest) ≡ line_buf_size)
unfolding receive
receive_lem line_buf bytes room small =
    let (zs, copied, size, front) = copy_in line_buf bytes 0 (omega arith) in
    let n = length bytes in
    let (m, rest, e) = nonempty_parts (drop n zs) (omega (arith, length-drop n zs)) in
    let at_zero : 0 + length bytes ≡ n = omega arith in
    let head : take n zs ≡ bytes = ap (λ k. take k zs) (sym at_zero) ∙ front in
    let split : zs ≡ bytes ++ m ∷ rest =
      cut zs n ∙ ap (λ xs. xs ++ drop n zs) head ∙ ap (λ xs. bytes ++ xs) e in
    let stored : store (block zs) n 0 ≡ done (block (bytes ++ 0 ∷ rest)) =
      ap (λ xs. store (block xs) n 0) split ∙ store_lem bytes m 0 rest n refl in
    (
      rest,
      rw (copied, stored),
      omega
          (arith, ap length split, length-append bytes (m ∷ rest), length-append bytes (0 ∷ rest)),
    )
