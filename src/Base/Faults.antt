-- ===== src/Base/Faults.antt =====
-- Computations that a memory error can stop.
use mathlib.Core.Path.{◌≡◌, refl}

-- `fault` is undefined behaviour: an access outside an allocated block, or through a null or
-- freed pointer, or a call that the language leaves undefined.
pub data Exec {ℓ} (A : Type ℓ) : Type ℓ where
  done : A → Exec A
  fault : Exec A

infixl 5 ◌>>=◌
abbrev pub ◌>>=◌ {ℓ κ} : {A : Type ℓ} {B : Type κ} → Exec A → (A → Exec B) → Exec B
done a >>= f = f a
fault >>= f = fault

-- The computation has no memory error, and its result has the property.
abbrev pub Ensures {ℓ} : {A : Type ℓ} → Exec A → (A → Type 0) → Type 0
Ensures (done a) P = P a
Ensures fault P = ⊥

module _ {ℓ κ} {A : Type ℓ} {B : Type κ} where
  pub Ensures-bind :
      (P : A → Type 0) (Q : B → Type 0) (m : Exec A) (f : A → Exec B)
      → Ensures m P
      → ((a : A) → P a → Ensures (f a) Q)
      → Ensures (m >>= f) Q
  Ensures-bind P Q (done a) f h step = step a h
  Ensures-bind P Q fault f h step = absurd h

module _ {ℓ} {A : Type ℓ} where
  pub Ensures-mono :
      (P Q : A → Type 0) (m : Exec A) → Ensures m P → ((a : A) → P a → Q a) → Ensures m Q
  Ensures-mono P Q (done a) h weaken = weaken a h
  Ensures-mono P Q fault h weaken = absurd h

  pub Ensures-done : (P : A → Type 0) (m : Exec A) → Ensures m P → (a : A) × (m ≡ done a) × P a
  Ensures-done P (done a) h = (a, refl, h)
  Ensures-done P fault h = absurd h

-- The computation has a memory error, or its result has the property.
abbrev pub Allows {ℓ} : {A : Type ℓ} → Exec A → (A → Type 0) → Type 0
Allows (done a) P = P a
Allows fault P = Unit {0}

module _ {ℓ κ} {A : Type ℓ} {B : Type κ} where
  pub Allows-bind :
      (P : A → Type 0) (Q : B → Type 0) (m : Exec A) (f : A → Exec B)
      → Allows m P
      → ((a : A) → P a → Allows (f a) Q)
      → Allows (m >>= f) Q
  Allows-bind P Q (done a) f h step = step a h
  Allows-bind P Q fault f h step = tt

  -- What holds of all that follows, whatever the first part gives.
  pub Allows-after :
      (Q : B → Type 0) (m : Exec A) (f : A → Exec B)
      → ((a : A) → Allows (f a) Q)
      → Allows (m >>= f) Q
  Allows-after Q (done a) f step = step a
  Allows-after Q fault f step = tt

module _ {ℓ} {A : Type ℓ} where
  pub Ensures-and :
      (P Q : A → Type 0) (m : Exec A) → Ensures m P → Allows m Q → Ensures m (λ a. P a × Q a)
  Ensures-and P Q (done a) h k = (h, k)
  Ensures-and P Q fault h k = absurd h

  pub Ensures-Allows :
      (P Q : A → Type 0) (m : Exec A) → Ensures m P → ((a : A) → P a → Q a) → Allows m Q
  Ensures-Allows P Q (done a) h weaken = weaken a h
  Ensures-Allows P Q fault h weaken = tt

  pub Allows-and :
      (P Q : A → Type 0) (m : Exec A) → Allows m P → Allows m Q → Allows m (λ a. P a × Q a)
  Allows-and P Q (done a) h k = (h, k)
  Allows-and P Q fault h k = tt

  pub Allows-mono :
      (P Q : A → Type 0) (m : Exec A) → Allows m P → ((a : A) → P a → Q a) → Allows m Q
  Allows-mono P Q (done a) h weaken = weaken a h
  Allows-mono P Q fault h weaken = tt

module _ {ℓ κ} {A : Type ℓ} {B : Type κ} where
  -- What follows has a memory error, whatever the first part gives.
  pub fault_after : (m : Exec A) (f : A → Exec B) → ((a : A) → f a ≡ fault) → (m >>= f) ≡ fault
  fault_after (done a) f h = h a
  fault_after fault f h = refl
