-- ===== src/ParseSize/Strings.antt =====
-- `parse_size` (src/parse_size.c): which strings it reads, and what it makes of the others.
use so.Base.{
  ℕ, ◌-◌, ◌≤◌, ◌<◌, ◌≡◌, refl, sym, ap, ◌∙◌, true, false, Option, List, [], ◌∷◌, ◌++◌, append-nil,
  arith, ◌==◌, if◌then◌else◌, size_mod, ne→==, All,
}
use so.ParseSize.{
  is_space, is_digit, put_char, at_nul, skip_space, scan_digits, finish, ok, err_negative,
  err_inv_char, err_out_of_range, parse_size,
}
use so.ParseSize.Scan.{
  IsSpace, IsDigit, value, NoDigit, is_digit_range, skip_space_lem, scan_digits_lem,
  scan_digits_overflow,
}

pub at_nul_proper : (c : ℕ) → at_nul c ≡ true → c ≡ 0
at_nul_proper c h = ground arith

digit-not-space : (c : ℕ) → is_digit c ≡ true → is_space c ≡ false
unfolding is_digit is_space
digit-not-space c h = ground arith

space-not-digit : (c : ℕ) → is_space c ≡ true → is_digit c ≡ false
unfolding is_digit is_space
space-not-digit c h = ground arith

digit-ne-minus : (c : ℕ) → is_digit c ≡ true → (c == b'-') ≡ false
unfolding is_digit
digit-ne-minus c h = ground arith

-- Behind the first digit `parse_size` is the loop over the digits and what follows it.
parse_size_digit :
    (ws : List ℕ) (d : ℕ) (rest : List ℕ) (size : ℕ) (inv_char : Option ℕ)
    → All IsSpace ws
    → IsDigit d
    → parse_size (ws ++ d ∷ rest) size inv_char
      ≡ finish at_nul true (scan_digits at_nul rest (d - b'0')) inv_char
unfolding parse_size
parse_size_digit ws d rest size inv_char blank digit = rw (
  skip_space_lem at_nul at_nul_proper ws (d ∷ rest) blank (digit-not-space d digit),
  digit-ne-minus d digit,
  digit,
)

spaces-NoDigit : (ws : List ℕ) → All IsSpace ws → NoDigit ws
spaces-NoDigit [] blank = tt
spaces-NoDigit (w ∷ ws) (here, blank) = space-not-digit w here

pub value-head : (d : ℕ) (ds : List ℕ) → value 0 (d ∷ ds) ≡ value (d - b'0') ds
value-head d ds = ap (λ k. value k ds) (omega arith)

skip_space_blank : (vs : List ℕ) → All IsSpace vs → skip_space at_nul vs ≡ []
skip_space_blank vs blank =
    ap (skip_space at_nul) (sym (append-nil vs))
    ∙ skip_space_lem at_nul at_nul_proper vs [] blank tt

-- A string of digits between spaces is read by parse_size when their value is a size_t: that value
-- is the size.
pub parse_size_complete :
    (ws : List ℕ) (d : ℕ) (ds vs : List ℕ) (size : ℕ) (inv_char : Option ℕ)
    → All IsSpace ws
    → All IsDigit (d ∷ ds)
    → All IsSpace vs
    → value 0 (d ∷ ds) < size_mod
    → parse_size (ws ++ d ∷ (ds ++ vs)) size inv_char
      ≡ record { outcome = ok; size = value 0 (d ∷ ds); inv_char = inv_char }
unfolding finish
parse_size_complete ws d ds vs size inv_char blank (digit, digits) blank' fits =
    let e = value-head d ds in
    parse_size_digit ws d (ds ++ vs) size inv_char blank digit
    ∙ rw (
      scan_digits_lem at_nul at_nul_proper ds vs (d - b'0') digits (spaces-NoDigit vs blank')
          (omega arith),
      skip_space_blank vs blank',
      e,
    )

-- Digits whose value is no size_t are out of range for parse_size, whatever follows them.
pub parse_size_overflow :
    (ws : List ℕ) (d : ℕ) (ds rest : List ℕ) (size : ℕ) (inv_char : Option ℕ)
    → All IsSpace ws
    → All IsDigit (d ∷ ds)
    → size_mod ≤ value 0 (d ∷ ds)
    → (parse_size (ws ++ d ∷ (ds ++ rest)) size inv_char).outcome ≡ err_out_of_range
unfolding finish
parse_size_overflow ws d ds rest size inv_char blank (digit, digits) large =
    let e = value-head d ds in
    let range = is_digit_range d digit in
    rw (
      parse_size_digit ws d (ds ++ rest) size inv_char blank digit,
      scan_digits_overflow at_nul at_nul_proper ds rest (d - b'0') digits (omega arith)
          (omega arith),
    )

-- Digits between spaces, behind which the string goes on with another character: parse_size
-- reports that character.
pub parse_size_trailing :
    (ws : List ℕ) (d : ℕ) (ds vs : List ℕ) (c : ℕ) (rest : List ℕ) (size : ℕ) (inv_char : Option ℕ)
    → All IsSpace ws
    → All IsDigit (d ∷ ds)
    → All IsSpace vs
    → 0 < c
    → is_space c ≡ false
    → is_digit c ≡ false
    → value 0 (d ∷ ds) < size_mod
    → let r = parse_size (ws ++ d ∷ (ds ++ (vs ++ c ∷ rest))) size inv_char in
      (r.outcome ≡ err_inv_char) × (r.inv_char ≡ put_char inv_char c)
unfolding finish
parse_size_trailing ws d ds vs c rest size inv_char blank (digit, digits) blank' pos no_space
      no_digit fits =
    let e = value-head d ds in
    rw
      (
        parse_size_digit ws d (ds ++ (vs ++ c ∷ rest)) size inv_char blank digit,
        scan_digits_lem at_nul at_nul_proper ds (vs ++ c ∷ rest) (d - b'0') digits
            (behind vs blank') (omega arith),
        skip_space_lem at_nul at_nul_proper vs (c ∷ rest) blank' no_space,
        ne→== c 0 (omega arith),
      )
      (refl, refl)
  where
    behind : (vs : List ℕ) → All IsSpace vs → NoDigit (vs ++ c ∷ rest)
    behind [] b = no_digit
    behind (v ∷ vs) (here, b) = space-not-digit v here

-- A string that begins, behind spaces, with a minus sign is negative; with another character that
-- is neither a digit nor a space, parse_size reports that character. Neither writes to *size.
pub parse_size_first :
    (ws : List ℕ) (c : ℕ) (rest : List ℕ) (size : ℕ) (inv_char : Option ℕ)
    → All IsSpace ws
    → is_space c ≡ false
    → is_digit c ≡ false
    → parse_size (ws ++ c ∷ rest) size inv_char ≡ (
        if c == b'-'
        then record { outcome = err_negative; size = size; inv_char = inv_char }
        else record { outcome = err_inv_char; size = size; inv_char = put_char inv_char c })
unfolding parse_size
parse_size_first ws c rest size inv_char blank no_space no_digit =
    rw (skip_space_lem at_nul at_nul_proper ws (c ∷ rest) blank no_space, no_digit) (ground arith)

-- A string of nothing but spaces is reported by parse_size as an invalid character, the NUL at its
-- end.
pub parse_size_blank :
    (ws : List ℕ) (size : ℕ) (inv_char : Option ℕ)
    → All IsSpace ws
    → parse_size ws size inv_char
      ≡ record { outcome = err_inv_char; size = size; inv_char = put_char inv_char 0 }
unfolding parse_size is_digit
parse_size_blank ws size inv_char blank = rw (skip_space_blank ws blank)
