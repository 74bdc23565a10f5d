-- ===== src/ParseSize/Slices.antt =====
-- `parse_size_slice` (src/parse_size.c), whose test for the first digit is made on the pointer in
-- place of the character, which is undefined.
use so.Base.{
  ℕ, ◌+◌, ◌-◌, length, ◌≡◌, refl, sym, ap, ◌∙◌, ◌≢◌, inl, inr, Bool, true, false, not, Option, List,
  [], ◌∷◌, ◌++◌, append-nil, arith, ◌==◌, ne→==, if◌then◌else◌, Bool-cases, All, done, fault,
}
use so.ParseSize.{
  at_end, skip_space, is_space, ParseSizeOutcome, err_negative, err_no_digits, Parsed,
  isdigit_pointer, parse_size_slice, parse_first,
}
use so.ParseSize.Scan.{IsSpace, skip_space_lem}

at_end_proper : (c : ℕ) → at_end c ≡ true → c ≡ 0
at_end_proper c h = cc

skip_space_blank : (vs : List ℕ) → All IsSpace vs → skip_space at_end vs ≡ []
skip_space_blank vs blank =
    ap (skip_space at_end) (sym (append-nil vs))
    ∙ skip_space_lem at_end at_end_proper vs [] blank tt

-- On a slice of spaces parse_size_slice returns PARSE_SIZE_ERR_NO_DIGITS, and on a slice that goes
-- on behind its spaces PARSE_SIZE_ERR_NEGATIVE, if it goes on with a minus sign, without a change
-- of the size or of the character; with any other character it has a memory error, so that it
-- reads no size.
pub parse_size_slice_lem :
    (begin : ℕ) (ws : List ℕ) (c : ℕ) (s : List ℕ) (size : ℕ) (inv_char : Option ℕ)
    → All IsSpace ws
    → is_space c ≡ false
    → (parse_size_slice begin ws size inv_char
        ≡ done (record { outcome = err_no_digits; size = size; inv_char = inv_char }))
      × (parse_size_slice begin (ws ++ c ∷ s) size inv_char ≡ (
          if c == b'-'
          then done (record { outcome = err_negative; size = size; inv_char = inv_char })
          else fault))
unfolding parse_size_slice parse_first isdigit_pointer
parse_size_slice_lem begin ws c s size inv_char blank no_space = (
  rw (skip_space_blank ws blank) refl,
  rw (skip_space_lem at_end at_end_proper ws (c ∷ s) blank no_space) refl,
)

-- Whether the text of a slice goes on behind its spaces, with no minus sign, so that the pointer is
-- tested.
abbrev goes_on_with : List ℕ → Bool
goes_on_with [] = false
goes_on_with (c ∷ s) = not (c == b'-')

abbrev pub is_tested : List ℕ → Bool
is_tested text = goes_on_with (skip_space at_end text)

first_tested :
    (address : ℕ) (s : List ℕ) (size : ℕ) (inv_char : Option ℕ)
    → goes_on_with s ≡ true
    → parse_first address s size inv_char ≡ fault
unfolding parse_first isdigit_pointer
first_tested address [] size inv_char h = cc
first_tested address (c ∷ s) size inv_char h = elim (Bool-cases (c == b'-')) [
  | inl minus ↦ absurd (ground arith)
  | inr other ↦ rw other refl
]

first_untested :
    (address : ℕ) (s : List ℕ) (size : ℕ) (inv_char : Option ℕ)
    → goes_on_with s ≡ false
    → (p : Parsed) × (parse_first address s size inv_char ≡ done p)
      × (p.outcome ≢ ParseSizeOutcome.ok)
unfolding parse_first
first_untested address [] size inv_char h =
    (record { outcome = err_no_digits; size = size; inv_char = inv_char }, refl, λ e. cc)
first_untested address (c ∷ s) size inv_char h = elim (Bool-cases (c == b'-')) [
  | inl minus ↦
      (record { outcome = err_negative; size = size; inv_char = inv_char }, rw minus refl, λ e. cc)
  | inr other ↦ absurd (ground arith)
]

pub slice_tested :
    (begin : ℕ) (text : List ℕ) (size : ℕ) (inv_char : Option ℕ)
    → is_tested text ≡ true
    → parse_size_slice begin text size inv_char ≡ fault
unfolding parse_size_slice
slice_tested begin text size inv_char h =
    first_tested (begin + (length text - length (skip_space at_end text))) (skip_space at_end text)
      size inv_char h

-- A slice whose pointer is not tested is read without a memory error, but not as a size.
pub slice_untested :
    (begin : ℕ) (text : List ℕ) (size : ℕ) (inv_char : Option ℕ)
    → is_tested text ≡ false
    → (p : Parsed) × (parse_size_slice begin text size inv_char ≡ done p)
      × (p.outcome ≢ ParseSizeOutcome.ok)
unfolding parse_size_slice
slice_untested begin text size inv_char h =
    first_untested (begin + (length text - length (skip_space at_end text)))
      (skip_space at_end text) size inv_char h

pub text_tested :
    (ws : List ℕ) (c : ℕ) (s : List ℕ)
    → All IsSpace ws
    → is_space c ≡ false
    → c ≢ b'-'
    → is_tested (ws ++ c ∷ s) ≡ true
text_tested ws c s blank no_space no_minus =
    rw (skip_space_lem at_end at_end_proper ws (c ∷ s) blank no_space, ne→== c b'-' no_minus) refl
