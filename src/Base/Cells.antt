-- ===== src/Base/Cells.antt =====
-- Dynamically allocated storage as the C library gives it: pointers to blocks of cells, with the
-- allocation functions and the accesses that C defines on them.
pub mod Laws
use Prim.Native.Nat.{ℕ, zero, suc, ◌+◌, ◌-◌}
use mathlib.Core.Bool.{Bool, true, false}
use mathlib.Core.Option.{Option, none, some}
use mathlib.Core.List.{List, [], ◌∷◌, ◌++◌}
use so.Base.Tests.{leb, ◌==◌, if◌then◌else◌}
use so.Base.Lists.{length, get_elem?, take, drop}
use so.Base.Faults.{Exec, done, fault, ◌>>=◌}

-- What a pointer to storage points to: nothing, an allocated block, or a block given back.
pub data Buf {ℓ} (A : Type ℓ) : Type ℓ where
  null : Buf A
  block : List A → Buf A
  freed : Buf A

-- The allocator's answer to a request: refused, or granted with storage that already holds
-- whatever the function tells.
abbrev pub Grant {ℓ} : Type ℓ → Type ℓ
Grant A = Option (ℕ → A)

module _ {ℓ} {A : Type ℓ} where
  abbrev pub cells : Buf A → List A
  cells null = []
  cells (block xs) = xs
  cells freed = []

  abbrev pub is_live : Buf A → Bool
  is_live null = true
  is_live (block xs) = true
  is_live freed = false

  abbrev pub fill : ℕ → (ℕ → A) → List A
  fill zero junk = []
  fill (suc n) junk = junk n ∷ fill n junk

  -- `malloc` of room for `n` cells.
  abbrev pub malloc : Grant A → ℕ → Buf A
  malloc none n = null
  malloc (some junk) n = block (fill n junk)

  -- The block that `realloc` makes of one: the cells that fit are kept.
  abbrev pub resize : List A → ℕ → (ℕ → A) → List A
  resize xs n junk = take n xs ++ fill (n - length xs) junk

-- The ways in which `realloc` ends: with the new block; with NULL, the old block as it was; with
-- NULL, the old block given back, which is its answer to the size 0; or undefined, for a pointer to
-- a block that was given back before.
pub data Realloc {ℓ} (A : Type ℓ) : Type ℓ where
  moved : List A → Realloc A
  refused released undefined : Realloc A

module _ {ℓ} {A : Type ℓ} where
  unfoldable pub realloc : Grant A → Buf A → ℕ → Realloc A
  realloc g freed n = undefined
  realloc none null n = refused
  realloc (some junk) null n = moved (fill n junk)
  realloc none (block xs) n = if n == 0 then released else refused
  realloc (some junk) (block xs) n = if n == 0 then released else moved (resize xs n junk)

  -- `b[i]` as a value.
  unfoldable pub load : Buf A → ℕ → Exec A
  load b i = elim (get_elem? (cells b) i) [ none ↦ fault | some x ↦ done x ]

  -- The `n` cells from index `i` on, as `memcpy` and `write` read them.
  unfoldable pub read_range : List A → ℕ → ℕ → Exec (List A)
  read_range xs i n = if leb (i + n) (length xs) then done (take n (drop i xs)) else fault

  abbrev pub splice : List A → ℕ → List A → List A
  splice xs i ys = take i xs ++ (ys ++ drop (i + length ys) xs)

  -- The cells from index `i` on overwritten by `ys`.
  unfoldable pub copy_to : Buf A → ℕ → List A → Exec (Buf A)
  copy_to null i ys = fault
  copy_to (block xs) i ys =
      if leb (i + length ys) (length xs) then done (block (splice xs i ys)) else fault
  copy_to freed i ys = fault

  -- `b[i] = x`.
  unfoldable pub store : Buf A → ℕ → A → Exec (Buf A)
  unfolding copy_to
  store b i x = copy_to b i (x ∷ [])

  -- `memmove(b + to, b + from, n * sizeof *b)`.
  unfoldable pub memmove : Buf A → ℕ → ℕ → ℕ → Exec (Buf A)
  unfolding copy_to read_range
  memmove b to from n = read_range (cells b) from n >>= λ xs. copy_to b to xs

  -- `free`: of a pointer that was given to it before it is undefined.
  unfoldable pub free : Buf A → Exec (Buf A)
  free null = done null
  free (block xs) = done freed
  free freed = fault
