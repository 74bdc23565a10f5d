-- ===== src/Server/Child/Procs.antt =====
-- The loop that stores the processes of a command (src/server.c) runs behind its block.
use mathlib.Core.Path.{subst}
use so.Base.{
  ℕ, zero, suc, ◌+◌, ◌-◌, ◌*◌, ◌/◌, ◌%◌, ◌^◌, ◌≤◌, ◌<◌, ◌≡◌, refl, inl, inr, none, some, List, [],
  ◌∷◌, arith, ◌==◌, size_mod, Bool-cases, Option-cases, length, get_elem?, take, drop, length-take,
  length-drop, Allows, Allows-bind, Exec, done, fault, ◌>>=◌,
}
use so.Base.Cells.{block, Grant, fill, malloc, store}
use so.Base.Cells.Laws.{length-fill, store_outside, store_null, store_in}
use native.Mathlib.Decide.{ℕ_discrete}
use so.Server.{c_string}
use so.Server.Child.{count_char, Pointer, sizeof_pointer, store_procs, split_procs}

length-count_char : (s : List ℕ) (c : ℕ) → count_char s c ≤ length s
unfolding count_char
length-count_char [] c = omega arith
length-count_char (a ∷ s) c = ground (arith, length-count_char s c)

length-c_string : (s : List ℕ) → Allows (c_string s) (λ text. length text ≤ length s)
unfolding c_string
length-c_string [] = tt
length-c_string (c ∷ s) = elim (Bool-cases (c == 0)) [
  | inl nul ↦ rw nul (omega arith)
  | inr other ↦ rw other (
      Allows-bind (λ text. length text ≤ length s) _ (c_string s) _ (length-c_string s)
        λ text h. omega arith)
]

-- More rounds than there are cells from the index on.
store_procs_overrun :
    (procs : List Pointer) (rounds i : ℕ) (parts : List ℕ)
    → i ≤ length procs
    → length procs < i + rounds
    → store_procs (block procs) rounds i parts ≡ fault
unfolding store_procs
store_procs_overrun procs zero i parts h over = absurd (omega arith)
store_procs_overrun procs (suc rounds) i parts h over = elim (ℕ_discrete i (length procs)) [
  | yes at_end ↦ rw (store_outside procs i (get_elem? parts i) (omega arith))
  | no before ↦
      let (zs, stored, size) = store_in procs i (get_elem? parts i) (omega arith) in
      rw stored (store_procs_overrun zs rounds (i + 1) parts (omega arith) (omega arith))
]

-- The block of the processes, with the first of them stored, and the loop behind it.
stored_overrun :
    (g : Grant Pointer) (n rounds : ℕ) (parts : List ℕ)
    → 0 < n
    → n < 1 + rounds
    → (store (malloc g n) 0 (get_elem? parts 0) >>= λ procs. store_procs procs rounds 1 parts)
      ≡ fault
stored_overrun none n rounds parts pos over = rw (store_null 0 (get_elem? parts 0))
stored_overrun (some junk) n rounds parts pos over =
    let size : length (fill n junk) ≡ n = length-fill n junk in
    let (zs, stored, size') = store_in (fill n junk) 0 (get_elem? parts 0) (omega arith) in
    rw (stored, store_procs_overrun zs rounds 1 parts (omega arith) (omega arith))

-- Whatever the command is and whatever the allocator answers, a child that comes to the loop that
-- stores the processes of its command stores behind the end of their block.
pub split_procs_overrun :
    (copy_grant : Grant ℕ) (procs_grant : Grant Pointer) (line_buf : List ℕ) (read_bytes : ℕ)
    → length line_buf < 2 ^ 32
    → split_procs copy_grant procs_grant line_buf read_bytes ≡ fault
unfolding split_procs
split_procs_overrun copy_grant procs_grant line_buf read_bytes small =
    by_text (c_string (drop 2 line_buf)) refl
  where
    by_text :
        (t : Exec (List ℕ))
        → c_string (drop 2 line_buf) ≡ t
        → split_procs copy_grant procs_grant line_buf read_bytes ≡ fault
    by_text fault e = rw e
    by_text (done text) e =
        let text_small : length text ≤ length (drop 2 line_buf) =
          subst (λ m. Allows m (λ t. length t ≤ length (drop 2 line_buf))) e
            (length-c_string (drop 2 line_buf)) in
        let count = count_char (take read_bytes text) b'|' + 1 in
        let few : count < 2 ^ 33 = omega (
          arith,
          length-count_char (take read_bytes text) b'|',
          length-take read_bytes text,
          length-drop 2 line_buf,
        ) in
        let fits : count * sizeof_pointer % size_mod ≡ count * 8 = omega arith in
        rw e (elim (Option-cases copy_grant) [
          | inl none_given ↦ rw none_given
          | inr (_, given) ↦ rw given (
              stored_overrun procs_grant (count * sizeof_pointer % size_mod / sizeof_pointer)
                (count * sizeof_pointer % size_mod - 1) _ (omega arith) (omega arith))
        ])
