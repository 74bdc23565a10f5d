-- ===== src/BufReader/Messages.antt =====
-- `br_outcome_msg` (src/buf_io/buf_reader.c), over its own table of texts.
use so.Base.{
  ℕ, zero, suc, ◌<◌, min, ◌≡◌, refl, Option, none, some, List, [], ◌∷◌, arith, codes, get_elem?,
}
use so.BufWriter.Messages.{Fits, message, message-Fits, message-apart, position, place_of}

abbrev br_msgs : List (List ℕ)
br_msgs =
    codes "success"
    ∷ codes "failed allocating dynamic memory for the BufReader"
    ∷ codes "failed reading from the file descriptor"
    ∷ codes "failed closing the file"
    ∷ codes "unknown BufReader error"
    ∷ []

unfoldable pub br_outcome_msg : (ℕ → List ℕ) → ℕ → Option ℕ → Option (List ℕ)
br_outcome_msg = message br_msgs

-- Whatever the value of the outcome is, of the enumeration or not.
pub br_outcome_msg-Fits :
    (strerror : ℕ → List ℕ) (outcome : ℕ) (opt_errno : Option ℕ)
    → (text : List ℕ) × (br_outcome_msg strerror outcome opt_errno ≡ some text) × Fits text
unfolding br_outcome_msg
br_outcome_msg-Fits strerror outcome opt_errno =
    message-Fits br_msgs strerror outcome opt_errno refl
      (omega arith, (omega arith, (omega arith, (omega arith, (omega arith, tt)))))

-- Two values of an outcome with the same text.
pub br_outcome_msg_apart :
    (strerror : ℕ → List ℕ) (a b : ℕ)
    → br_outcome_msg strerror a none ≡ br_outcome_msg strerror b none
    → min a 4 ≡ min b 4
unfolding br_outcome_msg position
br_outcome_msg_apart strerror a b same = message-apart br_msgs strerror a b refl found same
  where
    found : (i : ℕ) → i < 5 → place_of br_msgs (get_elem? br_msgs i) ≡ i
    found zero h = refl
    found (suc zero) h = refl
    found (suc (suc zero)) h = refl
    found (suc (suc (suc zero))) h = refl
    found (suc (suc (suc (suc zero)))) h = refl
    found (suc (suc (suc (suc (suc n))))) h = absurd (omega arith)
