-- ===== src/Server/Child/Words.antt =====
-- The count of the words of a command (`count_words` of src/server.c).
use so.Base.{
  ℕ, zero, suc, ◌+◌, ◌≤◌, ◌<◌, ◌≡◌, refl, sym, ap, ◌∙◌, inl, inr, Bool, true, false, some, List, [],
  ◌∷◌, arith, if◌then◌else◌, Bool-cases, length,
}
use so.ParseSize.{is_space}
use so.Server.Child.{skip_blanks, skip_word, count_words_from, count_words}

-- The characters that are no space and stand behind a space or, where the Boolean says so, first.
abbrev pub words : Bool → List ℕ → ℕ
words behind [] = 0
words behind (c ∷ s) =
    let next = words true s in
    let same = words false s in if is_space c then next else if behind then same + 1 else same

words-skip_blanks : (s : List ℕ) → words true (skip_blanks s) ≡ words true s
unfolding skip_blanks
words-skip_blanks [] = refl
words-skip_blanks (c ∷ s) = elim (Bool-cases (is_space c)) [
  | inl blank ↦ rw blank (words-skip_blanks s)
  | inr other ↦ rw other (rw other)
]

length-skip_blanks : (s : List ℕ) → length (skip_blanks s) ≤ length s
unfolding skip_blanks
length-skip_blanks [] = omega arith
length-skip_blanks (c ∷ s) = elim (Bool-cases (is_space c)) [
  | inl blank ↦ rw blank (omega (arith, length-skip_blanks s))
  | inr other ↦ rw other (omega arith)
]

-- What the spaces leave begins with another character.
skip_blanks_head : (s : List ℕ) (d : ℕ) (r : List ℕ) → skip_blanks s ≡ d ∷ r → is_space d ≡ false
unfolding skip_blanks
skip_blanks_head [] d r e = cc
skip_blanks_head (c ∷ s) d r e = elim (Bool-cases (is_space c)) [
  | inl blank ↦ skip_blanks_head s d r (rw blank at e)
  | inr other ↦ let e' : c ∷ s ≡ d ∷ r = rw other at e in let same : c ≡ d = cc in rw (← same) other
]

words-skip_word : (s : List ℕ) → words true (skip_word s) ≡ words false s
unfolding skip_word
words-skip_word [] = refl
words-skip_word (c ∷ s) = elim (Bool-cases (is_space c)) [
  | inl blank ↦ rw blank (rw blank)
  | inr other ↦ rw other (words-skip_word s)
]

length-skip_word : (s : List ℕ) → length (skip_word s) ≤ length s
unfolding skip_word
length-skip_word [] = omega arith
length-skip_word (c ∷ s) = elim (Bool-cases (is_space c)) [
  | inl blank ↦ rw blank (omega arith)
  | inr other ↦ rw other (omega (arith, length-skip_word s))
]

skip_word_first : (d : ℕ) (r : List ℕ) → is_space d ≡ false → skip_word (d ∷ r) ≡ skip_word r
unfolding skip_word
skip_word_first d r other = rw other

count_words_from_lem :
    (fuel : ℕ) (s : List ℕ) (count : ℕ)
    → length s + 1 < fuel
    → count_words_from fuel s count ≡ some (count + words true s)
unfolding count_words_from
count_words_from_lem zero s count h = absurd (omega arith)
count_words_from_lem (suc fuel) [] count h = ap some (omega arith)
count_words_from_lem (suc fuel) (c ∷ s) count h =
    by_rest (skip_blanks (c ∷ s)) refl (λ t n small. count_words_from_lem fuel t n small)
  where
    by_rest :
        (t : List ℕ)
        → skip_blanks (c ∷ s) ≡ t
        → ((t : List ℕ) (n : ℕ)
            → length t + 1 < fuel
            → count_words_from fuel t n ≡ some (n + words true t))
        → count_words_from (suc fuel) (c ∷ s) count ≡ some (count + words true (c ∷ s))
    by_rest [] e rest =
        let none_left : words true (c ∷ s) ≡ 0 =
          sym (words-skip_blanks (c ∷ s)) ∙ ap (words true) e in
        rw (e, count_words_from) (rest [] count (omega arith) ∙ ap some (omega arith))
    by_rest (d ∷ r) e rest =
        let other = skip_blanks_head (c ∷ s) d r e in
        let counted : words true (c ∷ s) ≡ words false r + 1 =
          sym (words-skip_blanks (c ∷ s)) ∙ ap (words true) e ∙ rw other in
        let small : length (skip_word r) + 1 < fuel =
          omega (arith, length-skip_word r, length-skip_blanks (c ∷ s), ap length e) in
        rw (e, count_words_from, skip_word_first d r other)
          (rest (skip_word r) (count + 1) small ∙ ap some (omega (arith, words-skip_word r)))

-- count_words ends on every string, and counts the characters other than spaces that stand first
-- or behind a space.
pub count_words_lem : (s : List ℕ) → count_words s ≡ some (words true s)
unfolding count_words
count_words_lem s = count_words_from_lem (length s + 2) s 0 (omega arith) ∙ ap some (omega arith)
