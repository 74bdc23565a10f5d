-- ===== src/ParseSize/Messages.antt =====
-- `parse_size_outcome_msg` (src/parse_size.c). Texts are their characters without the NUL.
use so.Base.{ℕ, ◌≡◌, refl, sym, ap, ◌∙◌, List, ◌==◌, if◌then◌else◌, codes, length}
use so.ParseSize.{ParseSizeOutcome, ok, err_negative, err_inv_char, err_no_digits, err_out_of_range}

-- The values of the enumeration; the text of the other values is not one of these.
unfoldable pub parse_size_outcome_msg : ParseSizeOutcome → List ℕ
parse_size_outcome_msg ParseSizeOutcome.ok = codes "success"
parse_size_outcome_msg err_negative = codes "value cannot be negative"
parse_size_outcome_msg err_inv_char = codes "invalid character"
parse_size_outcome_msg err_no_digits = codes "no digits found"
parse_size_outcome_msg err_out_of_range = codes "value could not be represented by a size type"

-- The outcome with a text of this length.
outcome_of : ℕ → ParseSizeOutcome
outcome_of n =
    if n == 24
    then err_negative
    else if n == 17
    then err_inv_char
    else if n == 15
    then err_no_digits
    else if n == 45
    then err_out_of_range
    else ok

-- Two outcomes with the same text.
pub parse_size_outcome_msg_injective :
    (a b : ParseSizeOutcome) → parse_size_outcome_msg a ≡ parse_size_outcome_msg b → a ≡ b
unfolding parse_size_outcome_msg outcome_of
parse_size_outcome_msg_injective a b same =
    sym (found a) ∙ ap (λ text. outcome_of (length text)) same ∙ found b
  where
    found : (o : ParseSizeOutcome) → outcome_of (length (parse_size_outcome_msg o)) ≡ o
    found ParseSizeOutcome.ok = refl
    found err_negative = refl
    found err_inv_char = refl
    found err_no_digits = refl
    found err_out_of_range = refl
