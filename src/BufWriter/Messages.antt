-- ===== src/BufWriter/Messages.antt =====
-- `bw_outcome_msg` (src/buf_io/buf_writer.c), whose body `br_outcome_msg` has too, over its own table.
-- Texts are their characters without the NUL.
use so.Base.{
  ℕ, zero, suc, ◌+◌, ◌-◌, ◌<◌, min, ◌≡◌, refl, sym, ap, ◌∙◌, inl, inr, Bool, true, false, ◌&&◌,
  Option, none, some, List, [], ◌∷◌, ◌++◌, arith, leb, ◌==◌, if◌then◌else◌, ne→==, Bool-cases,
  Option-cases, codes, length, get_elem?, take, length-take, All, All-get,
}
use mathlib.Core.Option

abbrev pub outcome_msg_size : ℕ
outcome_msg_size = 1024

-- `snprintf` with the format "%s: %s": no more characters than there is room for before the NUL.
unfoldable pub print_both : List ℕ → List ℕ → List ℕ
print_both msg text = take (outcome_msg_size - 1) (msg ++ (codes ": " ++ text))

-- The switch over the value of an outcome, over the table of the texts; `none` would be a read
-- behind its end. `strerror` gives the text of an `errno`, which may be missing.
unfoldable pub message : List (List ℕ) → (ℕ → List ℕ) → ℕ → Option ℕ → Option (List ℕ)
message msgs strerror outcome opt_errno =
    if leb 1 outcome && leb outcome 3
    then elim opt_errno [
      | some errno ↦ Option.map (λ msg. print_both msg (strerror errno)) (get_elem? msgs outcome)
      | none ↦ get_elem? msgs outcome
    ]
    else if outcome == 0
    then get_elem? msgs outcome
    else get_elem? msgs (length msgs - 1)

abbrev bw_msgs : List (List ℕ)
bw_msgs =
    codes "success"
    ∷ codes "failed allocating dynamic memory for the BufWriter"
    ∷ codes "failed writing to the file descriptor"
    ∷ codes "failed closing the file"
    ∷ codes "unknown BufWriter error"
    ∷ []

unfoldable pub bw_outcome_msg : (ℕ → List ℕ) → ℕ → Option ℕ → Option (List ℕ)
unfolding message
bw_outcome_msg = message bw_msgs

abbrev pub Fits : List ℕ → Type 0
Fits text = length text < outcome_msg_size

module _ (msgs : List (List ℕ)) (strerror : ℕ → List ℕ) where
  -- The text of a table.
  pub message-Fits :
      (outcome : ℕ) (opt_errno : Option ℕ)
      → length msgs ≡ 5
      → All Fits msgs
      → (text : List ℕ) × (message msgs strerror outcome opt_errno ≡ some text) × Fits text
  unfolding message print_both
  message-Fits outcome opt_errno five fit = elim (Bool-cases (leb 1 outcome && leb outcome 3)) [
    | inl failed ↦
        let (msg, found, small) = All-get Fits msgs outcome (ground arith) fit in
        elim (Option-cases opt_errno) [
          | inl absent ↦ (msg, rw (failed, absent, found) refl, small)
          | inr (errno, given) ↦
              let text = msg ++ (codes ": " ++ strerror errno) in
              (
                take (outcome_msg_size - 1) text,
                rw (failed, given, found) refl,
                omega (arith, length-take (outcome_msg_size - 1) text),
              )
        ]
    | inr other ↦ elim (Bool-cases (outcome == 0)) [
      | inl success ↦
          let (msg, found, small) = All-get Fits msgs outcome (ground arith) fit in
          (msg, rw (other, success, found) refl, small)
      | inr unknown ↦
          let (msg, found, small) = All-get Fits msgs (length msgs - 1) (omega arith) fit in
          (msg, rw (other, unknown, found) refl, small)
    ]
  ]

-- Whatever the value of the outcome is, of the enumeration or not, with or without an errno, and
-- whatever text strerror gives for it, bw_outcome_msg reads inside its table and returns a text of
-- fewer than 1024 characters.
pub bw_outcome_msg-Fits :
    (strerror : ℕ → List ℕ) (outcome : ℕ) (opt_errno : Option ℕ)
    → (text : List ℕ) × (bw_outcome_msg strerror outcome opt_errno ≡ some text) × Fits text
unfolding bw_outcome_msg
bw_outcome_msg-Fits strerror outcome opt_errno =
    message-Fits bw_msgs strerror outcome opt_errno refl
      (omega arith, (omega arith, (omega arith, (omega arith, (omega arith, tt)))))

-- The text without an `errno` stands at the outcome, and behind the outcomes of the enumeration.
pub message-plain :
    (msgs : List (List ℕ)) (strerror : ℕ → List ℕ) (outcome : ℕ)
    → length msgs ≡ 5
    → message msgs strerror outcome none ≡ get_elem? msgs (min outcome 4)
unfolding message
message-plain msgs strerror zero five = refl
message-plain msgs strerror (suc zero) five = refl
message-plain msgs strerror (suc (suc zero)) five = refl
message-plain msgs strerror (suc (suc (suc zero))) five = refl
message-plain msgs strerror (suc (suc (suc (suc n)))) five =
    let last : length msgs - 1 ≡ 4 = omega arith in
    let past : min (suc (suc (suc (suc n)))) 4 ≡ 4 = omega arith in
    let other : (leb 1 (suc (suc (suc (suc n)))) && leb (suc (suc (suc (suc n)))) 3) ≡ false =
      ground arith in
    let no_success = ne→== (suc (suc (suc (suc n)))) 0 (omega arith) in
    rw (last, past, other, no_success) refl

-- Where a text stands in a table.
unfoldable pub position : List ℕ → List (List ℕ) → ℕ
position text [] = 0
position text (msg ∷ msgs) = let rest = position text msgs in if same text msg then 0 else rest + 1
  where
    same : List ℕ → List ℕ → Bool
    same [] [] = true
    same [] (d ∷ t) = false
    same (c ∷ s) [] = false
    same (c ∷ s) (d ∷ t) = (c == d) && same s t

abbrev pub place_of : List (List ℕ) → Option (List ℕ) → ℕ
place_of msgs none = 0
place_of msgs (some text) = position text msgs

module _ (msgs : List (List ℕ)) (strerror : ℕ → List ℕ) where
  -- A table of texts that are found where they stand.
  pub message-apart :
      (a b : ℕ)
      → length msgs ≡ 5
      → ((i : ℕ) → i < 5 → place_of msgs (get_elem? msgs i) ≡ i)
      → message msgs strerror a none ≡ message msgs strerror b none
      → min a 4 ≡ min b 4
  message-apart a b five found same =
      sym (found (min a 4) (omega arith))
      ∙ ap (place_of msgs)
          (sym (message-plain msgs strerror a five) ∙ same ∙ message-plain msgs strerror b five)
      ∙ found (min b 4) (omega arith)

-- Two values of an outcome with the same text.
pub bw_outcome_msg_apart :
    (strerror : ℕ → List ℕ) (a b : ℕ)
    → bw_outcome_msg strerror a none ≡ bw_outcome_msg strerror b none
    → min a 4 ≡ min b 4
unfolding bw_outcome_msg position
bw_outcome_msg_apart strerror a b same = message-apart bw_msgs strerror a b refl found same
  where
    found : (i : ℕ) → i < 5 → place_of bw_msgs (get_elem? bw_msgs i) ≡ i
    found zero h = refl
    found (suc zero) h = refl
    found (suc (suc zero)) h = refl
    found (suc (suc (suc zero))) h = refl
    found (suc (suc (suc (suc zero)))) h = refl
    found (suc (suc (suc (suc (suc n))))) h = absurd (omega arith)
