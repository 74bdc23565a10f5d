-- ===== src/Base/Lists.antt =====
-- Lists measured and indexed by native numbers, under the library's names.
use Prim.Native.Char.{code}
use Prim.Native.String.{String}
use Prim.Native.Nat.{ℕ, zero, suc, ◌+◌, ◌-◌, ◌≤◌, ◌<◌, min}
use mathlib.Core.Path.{◌≡◌, refl, ap, sym, ◌∙◌}
use mathlib.Core.List.{List, [], ◌∷◌, ◌++◌}
use mathlib.Core.Option.{Option, none, some}
use native.Mathlib.Omega.{arith}

-- The code points of a literal: its bytes when the text is ASCII.
abbrev pub codes : String → List ℕ
codes String.[] = []
codes (String.◌∷◌ c s) = code c ∷ codes s

module _ {ℓ} {A : Type ℓ} where
  abbrev pub length : List A → ℕ
  length [] = 0
  length (x ∷ xs) = suc (length xs)

  abbrev pub get_elem? : List A → ℕ → Option A
  get_elem? [] i = none
  get_elem? (x ∷ xs) zero = some x
  get_elem? (x ∷ xs) (suc i) = get_elem? xs i

  -- A write out of bounds changes nothing.
  abbrev pub set : List A → ℕ → A → List A
  set [] i v = []
  set (x ∷ xs) zero v = v ∷ xs
  set (x ∷ xs) (suc i) v = x ∷ set xs i v

  abbrev pub take : ℕ → List A → List A
  take zero xs = []
  take (suc n) [] = []
  take (suc n) (x ∷ xs) = x ∷ take n xs

  abbrev pub drop : ℕ → List A → List A
  drop zero xs = xs
  drop (suc n) [] = []
  drop (suc n) (x ∷ xs) = drop n xs

  pub length-append : (xs ys : List A) → length (xs ++ ys) ≡ length xs + length ys
  length-append [] ys = omega arith
  length-append (x ∷ xs) ys = omega (arith, length-append xs ys)

  pub length-set : (xs : List A) (i : ℕ) (v : A) → length (set xs i v) ≡ length xs
  length-set [] i v = refl
  length-set (x ∷ xs) zero v = refl
  length-set (x ∷ xs) (suc i) v = ap suc (length-set xs i v)

  pub length-take : (n : ℕ) (xs : List A) → length (take n xs) ≡ min n (length xs)
  length-take zero xs = omega arith
  length-take (suc n) [] = omega arith
  length-take (suc n) (x ∷ xs) = omega (arith, length-take n xs)

  pub length-drop : (n : ℕ) (xs : List A) → length (drop n xs) ≡ length xs - n
  length-drop zero xs = omega arith
  length-drop (suc n) [] = omega arith
  length-drop (suc n) (x ∷ xs) = omega (arith, length-drop n xs)

  pub take-append-drop : (n : ℕ) (xs : List A) → take n xs ++ drop n xs ≡ xs
  take-append-drop zero xs = refl
  take-append-drop (suc n) [] = refl
  take-append-drop (suc n) (x ∷ xs) = ap (◌∷◌ x) (take-append-drop n xs)

  pub take-length : (n : ℕ) (xs : List A) → length xs ≤ n → take n xs ≡ xs
  take-length zero [] h = refl
  take-length zero (x ∷ xs) h = absurd (omega arith)
  take-length (suc n) [] h = refl
  take-length (suc n) (x ∷ xs) h = ap (◌∷◌ x) (take-length n xs (omega arith))

  pub take-append : (n : ℕ) (xs ys : List A) → n ≤ length xs → take n (xs ++ ys) ≡ take n xs
  take-append zero xs ys h = refl
  take-append (suc n) [] ys h = absurd (omega arith)
  take-append (suc n) (x ∷ xs) ys h = ap (◌∷◌ x) (take-append n xs ys (omega arith))

  pub drop-append : (xs ys : List A) (n : ℕ) → n ≡ length xs → drop n (xs ++ ys) ≡ ys
  drop-append [] ys zero h = refl
  drop-append [] ys (suc n) h = absurd (omega arith)
  drop-append (x ∷ xs) ys zero h = absurd (omega arith)
  drop-append (x ∷ xs) ys (suc n) h = drop-append xs ys n (omega arith)

  pub take-append-past :
      (xs ys : List A) (n m : ℕ) → n ≡ length xs + m → take n (xs ++ ys) ≡ xs ++ take m ys
  take-append-past [] ys n m h = let e : n ≡ m = omega arith in ap (λ k. take k ys) e
  take-append-past (x ∷ xs) ys zero m h = absurd (omega arith)
  take-append-past (x ∷ xs) ys (suc n) m h = ap (◌∷◌ x) (take-append-past xs ys n m (omega arith))

  pub take-take : (n m : ℕ) (xs : List A) → n ≤ m → take n (take m xs) ≡ take n xs
  take-take zero m xs h = refl
  take-take (suc n) zero xs h = absurd (omega arith)
  take-take (suc n) (suc m) [] h = refl
  take-take (suc n) (suc m) (x ∷ xs) h = ap (◌∷◌ x) (take-take n m xs (omega arith))

  pub take-exact : (xs ys : List A) (n : ℕ) → n ≡ length xs → take n (xs ++ ys) ≡ xs
  take-exact [] ys zero h = refl
  take-exact [] ys (suc n) h = absurd (omega arith)
  take-exact (x ∷ xs) ys zero h = absurd (omega arith)
  take-exact (x ∷ xs) ys (suc n) h = ap (◌∷◌ x) (take-exact xs ys n (omega arith))

  pub get_elem?-append :
      (xs ys : List A) (n : ℕ) → n ≡ length xs → get_elem? (xs ++ ys) n ≡ get_elem? ys 0
  get_elem?-append [] ys zero h = refl
  get_elem?-append [] ys (suc n) h = absurd (omega arith)
  get_elem?-append (x ∷ xs) ys zero h = absurd (omega arith)
  get_elem?-append (x ∷ xs) ys (suc n) h = get_elem?-append xs ys n (omega arith)

  pub nonempty_parts : (xs : List A) → 0 < length xs → (y : A) × (ys : List A) × (xs ≡ y ∷ ys)
  nonempty_parts [] h = absurd (omega arith)
  nonempty_parts (x ∷ xs) h = (x, xs, refl)

  pub length_zero : (xs : List A) → length xs ≡ 0 → xs ≡ []
  length_zero [] h = refl
  length_zero (x ∷ xs) h = absurd (omega arith)

  pub last_parts : (xs : List A) → 0 < length xs → (ys : List A) × (y : A) × (xs ≡ ys ++ y ∷ [])
  last_parts [] h = absurd (omega arith)
  last_parts (x ∷ []) h = ([], x, refl)
  last_parts (x ∷ x' ∷ xs) h =
      let (ys, y, e) = last_parts (x' ∷ xs) (omega arith) in (x ∷ ys, y, ap (◌∷◌ x) e)

  pub snoc_injective :
      (xs ys : List A) {x y : A} → xs ++ x ∷ [] ≡ ys ++ y ∷ [] → (xs ≡ ys) × (x ≡ y)
  snoc_injective [] [] e = (refl, cc)
  snoc_injective [] (b ∷ []) e = cc
  snoc_injective [] (b ∷ b' ∷ ys) e = cc
  snoc_injective (a ∷ []) [] e = cc
  snoc_injective (a ∷ a' ∷ xs) [] e = cc
  snoc_injective (a ∷ xs) (b ∷ ys) {x} {y} e =
      let rest : xs ++ x ∷ [] ≡ ys ++ y ∷ [] = cc in
      let ih = snoc_injective xs ys rest in (cc ih.0, ih.1)

module _ {ℓ} {A : Type ℓ} (P : A → Type 0) where
  abbrev pub All : List A → Type 0
  All [] = Unit {0}
  All (x ∷ xs) = P x × All xs

  pub All-append : (xs ys : List A) → All xs → All ys → All (xs ++ ys)
  All-append [] ys _ hy = hy
  All-append (x ∷ xs) ys (px, hx) hy = (px, All-append xs ys hx hy)

  pub All-append_left : (xs ys : List A) → All (xs ++ ys) → All xs
  All-append_left [] ys h = tt
  All-append_left (x ∷ xs) ys h = (h.0, All-append_left xs ys h.1)

  pub All-append_right : (xs ys : List A) → All (xs ++ ys) → All ys
  All-append_right [] ys h = h
  All-append_right (x ∷ xs) ys h = All-append_right xs ys h.1

module _ {ℓ} {A : Type ℓ} where
  pub take-add :
      (k n m : ℕ) (xs : List A)
      → k ≡ n + m
      → n ≤ length xs
      → take k xs ≡ take n xs ++ take m (drop n xs)
  take-add k n m xs e h =
      ap (take k) (sym (take-append-drop n xs))
      ∙ take-append-past (take n xs) (drop n xs) k m (omega (arith, length-take n xs))

module _ {ℓ} {A : Type ℓ} (P : A → Type 0) where
  pub All-take : (n : ℕ) (xs : List A) → All P xs → All P (take n xs)
  All-take zero xs h = tt
  All-take (suc n) [] h = tt
  All-take (suc n) (x ∷ xs) (p, h) = (p, All-take n xs h)

  pub All-drop : (n : ℕ) (xs : List A) → All P xs → All P (drop n xs)
  All-drop zero xs h = h
  All-drop (suc n) [] h = tt
  All-drop (suc n) (x ∷ xs) (p, h) = All-drop n xs h

  pub All-take-drop : (n m : ℕ) (xs : List A) → All P xs → All P (take n xs ++ drop m xs)
  All-take-drop n m xs h = All-append P (take n xs) (drop m xs) (All-take n xs h) (All-drop m xs h)

  pub All-mono : (Q : A → Type 0) (xs : List A) → All P xs → ((x : A) → P x → Q x) → All Q xs
  All-mono Q [] h weaken = tt
  All-mono Q (x ∷ xs) (p, h) weaken = (weaken x p, All-mono Q xs h weaken)

  pub All-get :
      (xs : List A) (i : ℕ) → i < length xs → All P xs → (x : A) × (get_elem? xs i ≡ some x) × P x
  All-get [] i inside h = absurd (omega arith)
  All-get (x ∷ xs) zero inside (p, h) = (x, refl, p)
  All-get (x ∷ xs) (suc i) inside (p, h) = All-get xs i (omega arith) h
