-- ===== src/ParseSize/Sound.antt =====
-- What a string that `parse_size` reads is (src/parse_size.c).
use so.Base.{
  ℕ, ◌-◌, ◌<◌, ◌≡◌, refl, sym, ap, ◌∙◌, ◌≢◌, inl, inr, true, false, Option, List, [], ◌∷◌, ◌++◌,
  append-nil, arith, size_mod, ==_iff, All, All-append_right,
}
use so.ParseSize.{
  is_digit, at_nul, skip_space, scan_digits, Scanned, finish, ok, err_inv_char, err_no_digits,
  parse_size, is_over,
}
use so.ParseSize.Scan.{
  IsSpace, IsDigit, value, is_digit_range, skip_space_sound, scan_digits_sound, Scans,
}
use so.ParseSize.Strings.{at_nul_proper, value-head}

-- No string has the outcome that no digits were found.
pub parse_size-ne-no_digits :
    (s : List ℕ) (size : ℕ) (inv_char : Option ℕ)
    → (parse_size s size inv_char).outcome ≢ err_no_digits
unfolding parse_size finish
parse_size-ne-no_digits s size inv_char = ground arith

module _ (s : List ℕ) (size : ℕ) (inv_char : Option ℕ) where
  finish_ok :
      (scanned : Scanned)
      → (finish at_nul true scanned inv_char).outcome ≡ ok
      → (scanned.overflow ≡ false)
        × (is_over at_nul (skip_space at_nul scanned.rest) ≡ true)
        × ((finish at_nul true scanned inv_char).size ≡ scanned.size)
  unfolding finish
  finish_ok scanned read = ground arith

  first_ok :
      (r : List ℕ)
      → skip_space at_nul s ≡ r
      → (parse_size s size inv_char).outcome ≡ ok
      → (c : ℕ) × (t : List ℕ) × (r ≡ c ∷ t)
        × IsDigit c
        × (parse_size s size inv_char
            ≡ finish at_nul true (scan_digits at_nul t (c - b'0')) inv_char)
  unfolding parse_size is_digit
  first_ok [] e read = absurd (no_first (rw e at read))
    where
      no_first : err_inv_char ≡ ok → ⊥
      no_first h = cc
  first_ok (c ∷ t) e read = (c, t, refl, ground arith, ground arith)

-- A string, which holds no NUL, is read by parse_size only if it is digits between spaces; the
-- size is then their value, which did not wrap around.
pub parse_size_sound :
    (s : List ℕ) (size : ℕ) (inv_char : Option ℕ)
    → All (λ c. c ≢ 0) s
    → (parse_size s size inv_char).outcome ≡ ok
    → (ws : List ℕ) × (ds : List ℕ) × (vs : List ℕ) × (s ≡ ws ++ (ds ++ vs))
      × All IsSpace ws
      × All IsDigit ds
      × (ds ≢ [])
      × All IsSpace vs
      × ((parse_size s size inv_char).size ≡ value 0 ds)
      × (value 0 ds < size_mod)
parse_size_sound s size inv_char no_nul read =
    let (ws, blank, es) = skip_space_sound at_nul at_nul_proper s in
    let (c, t, er, digit, ep) = first_ok s size inv_char (skip_space at_nul s) refl read in
    let scanned = scan_digits at_nul t (c - b'0') in
    let (exact, over, kept) = finish_ok s size inv_char scanned (rw ep at read) in
    let range = is_digit_range c digit in
    by_scan ws c t blank (es ∙ ap (λ r. ws ++ r) er) digit (rw ep kept) exact over
      (scan_digits_sound at_nul at_nul_proper t (c - b'0') (omega arith))
  where
    nothing_left : (r : List ℕ) → All (λ c. c ≢ 0) r → is_over at_nul r ≡ true → r ≡ []
    nothing_left [] h over = refl
    nothing_left (c ∷ r) h over = absurd (h.0 ((==_iff c 0).0 over))

    by_scan :
        (ws : List ℕ) (c : ℕ) (t : List ℕ)
        → All IsSpace ws
        → s ≡ ws ++ c ∷ t
        → IsDigit c
        → (parse_size s size inv_char).size ≡ (scan_digits at_nul t (c - b'0')).size
        → (scan_digits at_nul t (c - b'0')).overflow ≡ false
        → is_over at_nul (skip_space at_nul (scan_digits at_nul t (c - b'0')).rest) ≡ true
        → Scans at_nul at_nul_proper t (c - b'0') (scan_digits at_nul t (c - b'0'))
        → (ws : List ℕ) × (ds : List ℕ) × (vs : List ℕ) × (s ≡ ws ++ (ds ++ vs))
          × All IsSpace ws
          × All IsDigit ds
          × (ds ≢ [])
          × All IsSpace vs
          × ((parse_size s size inv_char).size ≡ value 0 ds)
          × (value 0 ds < size_mod)
    by_scan ws c t blank es digit kept exact over (inl bad) = cc
    by_scan ws c t blank es digit kept exact over (inr (ds, digits, et, size', fits, _)) =
        let rest = (scan_digits at_nul t (c - b'0')).rest in
        let (vs, blank', ev) = skip_space_sound at_nul at_nul_proper rest in
        let behind : All (λ c. c ≢ 0) (skip_space at_nul rest) =
          All-append_right (λ c. c ≢ 0) vs (skip_space at_nul rest)
            (rw ev at (
              All-append_right (λ c. c ≢ 0) ds rest
                (rw et at (All-append_right (λ c. c ≢ 0) ws (c ∷ t) (rw es at no_nul)).1))) in
        let all_read : rest ≡ vs =
          ev
          ∙ ap (λ r. vs ++ r) (nothing_left (skip_space at_nul rest) behind over)
          ∙ append-nil vs in
        (
          ws,
          c ∷ ds,
          vs,
          es ∙ ap (λ r. ws ++ c ∷ r) (et ∙ ap (λ r. ds ++ r) all_read),
          blank,
          (digit, digits),
          (cc),
          blank',
          kept ∙ size' ∙ sym (value-head c ds),
          omega (arith, value-head c ds),
        )
