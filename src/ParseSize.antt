-- ===== src/ParseSize.antt =====
-- src/parse_size.c and include/parse_size.h: reading a `size_t` from a string and from a slice.
-- A string is the list of its bytes up to the NUL, a slice the list of the bytes in it. `char` is
-- signed with 8 bits; `isspace` and `isdigit` are those of the C locale.
pub mod Scan
pub mod Strings
pub mod Sound
pub mod Messages
pub mod Slices
mod Tests
use so.Base.{
  ℕ, ◌+◌, ◌-◌, ◌*◌, ◌%◌, Bool, true, false, not, ◌&&◌, ◌||◌, Option, List, [], ◌∷◌, length, ltb,
  leb, ◌==◌, if◌then◌else◌, size_mod, Exec, done, fault, ◌>>=◌,
}
use mathlib.Core.Option

pub data ParseSizeOutcome : Type 0 where
  ok err_negative err_inv_char err_no_digits err_out_of_range : ParseSizeOutcome

-- The outcome, and what `*size` and `*opt_inv_char` hold then. A place that is `none` is a null
-- pointer.
pub record Parsed : Type 0 where
  pub outcome : ParseSizeOutcome
  pub size : ℕ
  pub inv_char : Option ℕ

unfoldable pub is_space : ℕ → Bool
is_space c = (c == b' ') || (leb 9 c && leb c 13)

unfoldable pub is_digit : ℕ → Bool
is_digit c = leb b'0' c && leb c b'9'

-- `*str`
abbrev pub deref : List ℕ → ℕ
deref [] = 0
deref (c ∷ s) = c

-- `str + 1`
abbrev pub next : List ℕ → List ℕ
next [] = []
next (c ∷ s) = s

-- `*opt_inv_char = c`, where the pointer is not null
abbrev pub put_char : Option ℕ → ℕ → Option ℕ
put_char place c = Option.map (λ _. c) place

-- `*begin - '0'` as a `size_t`: a byte from 128 on is a negative `char`.
unfoldable pub char_minus_zero : ℕ → ℕ
char_minus_zero c =
    (if ltb c 128 then c + size_mod - b'0' else c + size_mod - 256 - b'0') % size_mod

-- The loops run up to the end of the list, and the loops over a string also stop at a NUL.
abbrev pub Stop : Type 0
Stop = ℕ → Bool

abbrev pub at_nul : Stop
at_nul c = c == 0

abbrev pub at_end : Stop
at_end c = false

unfoldable pub skip_space : Stop → List ℕ → List ℕ
skip_space stop [] = []
skip_space stop (c ∷ s) = if not (stop c) && is_space c then skip_space stop s else c ∷ s

-- How the loop over the digits ends: whether by an overflow, with what in `*size`, and where.
pub record Scanned : Type 0 where
  pub overflow : Bool
  pub size : ℕ
  pub rest : List ℕ

-- `__builtin_mul_overflow` and `__builtin_add_overflow` leave the wrapped result in `*size`.
unfoldable pub scan_digits : Stop → List ℕ → ℕ → Scanned
scan_digits stop [] n = record { overflow = false; size = n; rest = [] }
scan_digits stop (c ∷ s) n =
    let sum = n * 10 + (c - b'0') in
    if not (stop c) && is_digit c
    then if leb size_mod (n * 10)
      then record { overflow = true; size = n * 10 % size_mod; rest = c ∷ s }
      else if leb size_mod sum
      then record { overflow = true; size = sum % size_mod; rest = c ∷ s }
      else scan_digits stop s sum
    else record { overflow = false; size = n; rest = c ∷ s }

-- What follows the loop over the digits, where `r` is the rest behind the spaces. The last test of
-- a string is `*str`, that of a slice is `begin != end`.
abbrev pub is_over : Stop → List ℕ → Bool
is_over stop [] = true
is_over stop (c ∷ s) = stop c

unfoldable pub finish : Stop → Bool → Scanned → Option ℕ → Parsed
finish stop digits_found scanned inv_char =
    let r = skip_space stop scanned.rest in
    if scanned.overflow
    then record { outcome = err_out_of_range; size = scanned.size; inv_char = inv_char }
    else if not (is_over stop r)
    then record {
      outcome = err_inv_char;
      size = scanned.size;
      inv_char = put_char inv_char (deref r);
    }
    else if not digits_found
    then record { outcome = err_no_digits; size = scanned.size; inv_char = inv_char }
    else record { outcome = ok; size = scanned.size; inv_char = inv_char }

unfoldable pub parse_size : List ℕ → ℕ → Option ℕ → Parsed
parse_size str size inv_char =
    let s = skip_space at_nul str in
    let c = deref s in
    if c == b'-'
    then record { outcome = err_negative; size = size; inv_char = inv_char }
    else if is_digit c
    then finish at_nul true (scan_digits at_nul (next s) (c - b'0')) inv_char
    else record { outcome = err_inv_char; size = size; inv_char = put_char inv_char c }

-- `isdigit(begin)`, where the pointer `begin` stands in place of the character `*begin`: undefined.
unfoldable pub isdigit_pointer : ℕ → Exec Bool
isdigit_pointer address = fault

unfoldable pub parse_first : ℕ → List ℕ → ℕ → Option ℕ → Exec Parsed
unfolding isdigit_pointer
parse_first address [] size inv_char =
    done (record { outcome = err_no_digits; size = size; inv_char = inv_char })
parse_first address (c ∷ s) size inv_char =
    if c == b'-'
    then done (record { outcome = err_negative; size = size; inv_char = inv_char })
    else (isdigit_pointer address >>= λ digit. done (
        if digit
        then finish at_end true (scan_digits at_end s (char_minus_zero c)) inv_char
        else record { outcome = err_inv_char; size = size; inv_char = put_char inv_char c }))

-- The slice begins at the address `begin`.
unfoldable pub parse_size_slice : ℕ → List ℕ → ℕ → Option ℕ → Exec Parsed
unfolding parse_first
parse_size_slice begin text size inv_char =
    let s = skip_space at_end text in parse_first (begin + (length text - length s)) s size inv_char
