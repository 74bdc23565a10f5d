-- ===== src/ParseSize/Tests.antt =====
-- Concrete texts: runs of the two parsers, and the theorems at inputs where their hypotheses hold.
use so.Base.{
  ℕ, ◌-◌, ◌<◌, ◌≡◌, refl, ◌≢◌, none, some, List, [], ◌++◌, arith, size_mod, codes, All, done, fault,
}
use so.ParseSize.{
  is_space, is_digit, skip_space, scan_digits, finish, ok, err_negative, err_inv_char,
  err_no_digits, err_out_of_range, parse_size, parse_size_slice,
}
use so.ParseSize.Scan.{IsSpace, IsDigit, value}
use so.ParseSize.Sound.{parse_size-ne-no_digits, parse_size_sound}
use so.ParseSize.Strings.{
  parse_size_complete, parse_size_overflow, parse_size_trailing, parse_size_first, parse_size_blank,
}
use so.ParseSize.Slices.{parse_size_slice_lem}

-- 2 ^ 64
abbrev too_large : List ℕ
too_large = codes "18446744073709551616"

reads_number :
    parse_size (codes " 42\n") 7 (some 0) ≡ record { outcome = ok; size = 42; inv_char = some 0 }
unfolding parse_size is_space is_digit skip_space scan_digits finish
reads_number = refl

reads_largest : (parse_size (codes "18446744073709551615") 7 none).size ≡ size_mod - 1
unfolding parse_size is_space is_digit skip_space scan_digits finish
reads_largest = refl

refuses_sign : (parse_size (codes " -3") 7 none).outcome ≡ err_negative
unfolding parse_size is_space is_digit skip_space scan_digits finish
refuses_sign = refl

parse_size_complete_example :
    parse_size (codes " 42\n") 7 (some 0) ≡ record { outcome = ok; size = 42; inv_char = some 0 }
unfolding is_space is_digit
parse_size_complete_example =
    parse_size_complete (codes " ") b'4' (codes "2") (codes "\n") 7 (some 0) (refl, tt)
      (ground arith) (refl, tt) (omega arith)

parse_size_overflow_example :
    (parse_size (codes "18446744073709551616 x") 7 none).outcome ≡ err_out_of_range
unfolding is_space is_digit
parse_size_overflow_example =
    parse_size_overflow [] b'1' (codes "8446744073709551616") (codes " x") 7 none tt (ground arith)
      (omega arith)

parse_size_trailing_run :
    ((parse_size (codes "42 x") 7 (some 0)).outcome ≡ err_inv_char)
    × ((parse_size (codes "42 x") 7 (some 0)).inv_char ≡ some b'x')
unfolding is_space is_digit
parse_size_trailing_run =
    parse_size_trailing [] b'4' (codes "2") (codes " ") b'x' [] 7 (some 0) tt (ground arith)
      (refl, tt) (omega arith) refl refl (omega arith)

parse_size_first_run :
    parse_size (codes " -3") 7 (some 0)
    ≡ record { outcome = err_negative; size = 7; inv_char = some 0 }
unfolding is_space is_digit
parse_size_first_run = parse_size_first (codes " ") b'-' (codes "3") 7 (some 0) (refl, tt) refl refl

parse_size_blank_run :
    parse_size (codes " \n") 7 (some b'?')
    ≡ record { outcome = err_inv_char; size = 7; inv_char = some 0 }
unfolding is_space
parse_size_blank_run = parse_size_blank (codes " \n") 7 (some b'?') (ground arith)

no_digits_run : (parse_size (codes " ") 7 none).outcome ≢ err_no_digits
no_digits_run = parse_size-ne-no_digits (codes " ") 7 none

parse_size_sound_example :
    (ws : List ℕ) × (ds : List ℕ) × (vs : List ℕ) × (codes " 42\n" ≡ ws ++ (ds ++ vs))
    × All IsSpace ws
    × All IsDigit ds
    × (ds ≢ [])
    × All IsSpace vs
    × ((parse_size (codes " 42\n") 7 (some 0)).size ≡ value 0 ds)
    × (value 0 ds < size_mod)
unfolding parse_size is_space is_digit skip_space scan_digits finish
parse_size_sound_example = parse_size_sound (codes " 42\n") 7 (some 0) (omega arith) refl

parse_size_slice_lem_example :
    (parse_size_slice 100 (codes " ") 7 none
      ≡ done (record { outcome = err_no_digits; size = 7; inv_char = none }))
    × (parse_size_slice 100 (codes " 42") 7 none ≡ fault)
unfolding is_space
parse_size_slice_lem_example =
    parse_size_slice_lem 100 (codes " ") b'4' (codes "2") 7 none (refl, tt) refl

slice_minus_run :
    parse_size_slice 100 (codes " -3") 7 none
    ≡ done (record { outcome = err_negative; size = 7; inv_char = none })
unfolding is_space
slice_minus_run = (parse_size_slice_lem 100 (codes " ") b'-' (codes "3") 7 none (refl, tt) refl).1
