-- ===== src/ParseSize/Scan.antt =====
-- The loops of src/parse_size.c: over spaces and over digits.
use so.Base.{
  ℕ, ◌+◌, ◌-◌, ◌*◌, ◌≤◌, ◌<◌, ◌≡◌, refl, ap, ◌⊎◌, inl, inr, true, false, not, ◌&&◌, List, [], ◌∷◌,
  ◌++◌, arith, leb, size_mod, lt→leb, Bool-cases, All,
}
use so.ParseSize.{is_space, is_digit, Stop, skip_space, scan_digits, Scanned}

abbrev pub IsSpace : ℕ → Type 0
IsSpace c = is_space c ≡ true

abbrev pub IsDigit : ℕ → Type 0
IsDigit c = is_digit c ≡ true

-- The number that digits spell behind `n`, with no bound.
abbrev pub value : ℕ → List ℕ → ℕ
value n [] = n
value n (c ∷ ds) = value (n * 10 + (c - b'0')) ds

pub le-value : (ds : List ℕ) (n : ℕ) → n ≤ value n ds
le-value [] n = omega arith
le-value (c ∷ ds) n = omega (arith, le-value ds (n * 10 + (c - b'0')))

-- A text that goes on with no space, and one that goes on with no digit.
abbrev pub NoSpace : List ℕ → Type 0
NoSpace [] = Unit {0}
NoSpace (c ∷ s) = is_space c ≡ false

abbrev pub NoDigit : List ℕ → Type 0
NoDigit [] = Unit {0}
NoDigit (c ∷ s) = is_digit c ≡ false

pub is_digit_range : (c : ℕ) → is_digit c ≡ true → (b'0' ≤ c) × (c ≤ b'9')
unfolding is_digit
is_digit_range c h = ground arith

-- A loop may stop at the end or at a NUL, but at no space and at no digit.
module _ (stop : Stop) (proper : (c : ℕ) → stop c ≡ true → c ≡ 0) where
  pub goes_on : (c : ℕ) → 0 < c → stop c ≡ false
  goes_on c h = elim (Bool-cases (stop c)) [
    | inl ends ↦ absurd (omega (arith, proper c ends))
    | inr e ↦ e
  ]

  space_goes_on : (c : ℕ) → is_space c ≡ true → stop c ≡ false
  unfolding is_space
  space_goes_on c h = goes_on c (ground arith)

  digit_goes_on : (c : ℕ) → is_digit c ≡ true → stop c ≡ false
  digit_goes_on c h = goes_on c (omega (arith, is_digit_range c h))

  pub skip_space_lem :
      (ws rest : List ℕ) → All IsSpace ws → NoSpace rest → skip_space stop (ws ++ rest) ≡ rest
  unfolding skip_space
  skip_space_lem [] [] blank none_next = refl
  skip_space_lem [] (c ∷ rest) blank none_next = rw none_next (ground arith)
  skip_space_lem (w ∷ ws) rest (here, blank) none_next =
      rw (space_goes_on w here, here) (skip_space_lem ws rest blank none_next)

  pub scan_digits_lem :
      (ds rest : List ℕ) (n : ℕ)
      → All IsDigit ds
      → NoDigit rest
      → value n ds < size_mod
      → scan_digits stop (ds ++ rest) n
        ≡ record { overflow = false; size = value n ds; rest = rest }
  unfolding scan_digits
  scan_digits_lem [] [] n digits none_next fits = refl
  scan_digits_lem [] (c ∷ rest) n digits none_next fits = rw none_next (ground arith)
  scan_digits_lem (d ∷ ds) rest n (here, digits) none_next fits =
      let grows = le-value ds (n * 10 + (d - b'0')) in
      rw
        (
          digit_goes_on d here,
          here,
          lt→leb size_mod (n * 10) (omega arith),
          lt→leb size_mod (n * 10 + (d - b'0')) (omega arith),
        )
        (scan_digits_lem ds rest (n * 10 + (d - b'0')) digits none_next fits)

  pub scan_digits_overflow :
      (ds rest : List ℕ) (n : ℕ)
      → All IsDigit ds
      → n < size_mod
      → size_mod ≤ value n ds
      → (scan_digits stop (ds ++ rest) n).overflow ≡ true
  unfolding scan_digits
  scan_digits_overflow [] rest n digits small large = absurd (omega arith)
  scan_digits_overflow (d ∷ ds) rest n (here, digits) small large =
      rw (digit_goes_on d here, here)
        (elim (Bool-cases (leb size_mod (n * 10))) [
          | inl over ↦ rw over
          | inr fits ↦ rw fits (elim (Bool-cases (leb size_mod (n * 10 + (d - b'0')))) [
            | inl over ↦ rw over
            | inr fits' ↦
                rw fits'
                  (scan_digits_overflow ds rest (n * 10 + (d - b'0')) digits (ground arith) large)
          ])
        ])

  -- What the loops pass over, whatever the text.
  pub skip_space_sound :
      (s : List ℕ) → (ws : List ℕ) × All IsSpace ws × (s ≡ ws ++ skip_space stop s)
  unfolding skip_space
  skip_space_sound [] = ([], tt, refl)
  skip_space_sound (c ∷ s) = elim (Bool-cases (not (stop c) && is_space c)) [
    | inl blank ↦
        let (ws, blanks, e) = skip_space_sound s in
        rw blank (c ∷ ws, (ground arith, blanks), ap (◌∷◌ c) e)
    | inr over ↦ rw over ([], tt, refl)
  ]

  -- The loop over the digits stops by an overflow, or it has passed over digits whose value is in
  -- `*size`.
  abbrev pub Scans : List ℕ → ℕ → Scanned → Type 0
  Scans s n r =
      (r.overflow ≡ true)
      ⊎ ((ds : List ℕ) × All IsDigit ds
          × (s ≡ ds ++ r.rest)
          × (r.size ≡ value n ds)
          × (value n ds < size_mod)
          × (r.overflow ≡ false))

  Scans-cons :
      (c : ℕ) (s : List ℕ) (n : ℕ) (r : Scanned)
      → is_digit c ≡ true
      → Scans s (n * 10 + (c - b'0')) r
      → Scans (c ∷ s) n r
  Scans-cons c s n r digit (inl over) = inl over
  Scans-cons c s n r digit (inr (ds, digits, e, size, fits, done')) =
      inr (c ∷ ds, (digit, digits), ap (◌∷◌ c) e, size, fits, done')

  pub scan_digits_sound : (s : List ℕ) (n : ℕ) → n < size_mod → Scans s n (scan_digits stop s n)
  unfolding scan_digits
  scan_digits_sound [] n small = inr ([], tt, refl, refl, small, refl)
  scan_digits_sound (c ∷ s) n small = elim (Bool-cases (not (stop c) && is_digit c)) [
    | inr over ↦ rw over (inr ([], tt, refl, refl, small, refl))
    | inl digit ↦ rw digit (elim (Bool-cases (leb size_mod (n * 10))) [
      | inl over ↦ rw over (inl refl)
      | inr fits ↦ rw fits (elim (Bool-cases (leb size_mod (n * 10 + (c - b'0')))) [
        | inl over ↦ rw over (inl refl)
        | inr fits' ↦ rw fits' (
            Scans-cons c s n (scan_digits stop s (n * 10 + (c - b'0'))) (ground arith)
              (scan_digits_sound s (n * 10 + (c - b'0')) (ground arith)))
      ])
    ])
  ]
