-- ===== src/Base/Cells/Laws.antt =====
-- Accesses inside a block succeed, and what they leave. A block is cut into three parts: before,
-- in, and behind the range that is accessed.
use Prim.Native.Nat.{ℕ, zero, suc, ◌+◌, ◌-◌, ◌≤◌, ◌<◌}
use mathlib.Core.Path.{◌≡◌, refl, sym, ap, ◌∙◌}
use mathlib.Core.Bool.{true}
use mathlib.Core.Option.{none, some}
use mathlib.Core.List.{List, [], ◌∷◌, ◌++◌, append_assoc}
use native.Mathlib.Omega.{arith}
use so.Base.Tests.{le→leb, lt→leb, ne→==}
use so.Base.Lists.{
  nonempty_parts, length-drop, length, take, drop, length-append, length-take, take-append-drop,
  take-exact, take-length, drop-append, get_elem?-append,
}
use so.Base.Faults.{done, fault}
use so.Base.Cells.{
  released, Grant, memmove, Buf, freed, cells, is_live, realloc, moved, refused, null, block, fill,
  resize, load, read_range, splice, copy_to, store,
}

module _ {ℓ} {A : Type ℓ} where
  pub length-fill : (n : ℕ) (junk : ℕ → A) → length (fill n junk) ≡ n
  length-fill zero junk = refl
  length-fill (suc n) junk = ap suc (length-fill n junk)

  pub length-resize :
      (xs : List A) (n : ℕ) (junk : ℕ → A) → length xs ≤ n → length (resize xs n junk) ≡ n
  length-resize xs n junk h = omega (
    arith,
    length-append (take n xs) (fill (n - length xs) junk),
    length-take n xs,
    length-fill (n - length xs) junk,
  )

  splice_parts :
      (bs ms cs ys : List A) (i : ℕ)
      → i ≡ length bs
      → length ys ≡ length ms
      → splice (bs ++ (ms ++ cs)) i ys ≡ bs ++ (ys ++ cs)
  splice_parts bs ms cs ys i hi hy =
      rw (take-exact bs (ms ++ cs) i hi, ← append_assoc bs ms cs)
        (ap (λ zs. bs ++ (ys ++ zs))
          (drop-append (bs ++ ms) cs (i + length ys) (omega (arith, length-append bs ms))))

  range_parts :
      (bs ms cs : List A) (i n : ℕ)
      → i ≡ length bs
      → n ≡ length ms
      → take n (drop i (bs ++ (ms ++ cs))) ≡ ms
  range_parts bs ms cs i n hi hn = rw (drop-append bs (ms ++ cs) i hi) (take-exact ms cs n hn)

  pub copy_to_lem :
      (bs ms cs ys : List A) (i : ℕ)
      → i ≡ length bs
      → length ys ≡ length ms
      → copy_to (block (bs ++ (ms ++ cs))) i ys ≡ done (block (bs ++ (ys ++ cs)))
  unfolding copy_to
  copy_to_lem bs ms cs ys i hi hy = rw (
    le→leb (i + length ys) (length (bs ++ (ms ++ cs)))
        (omega (arith, length-append bs (ms ++ cs), length-append ms cs)),
    splice_parts bs ms cs ys i hi hy,
  )

  pub read_range_lem :
      (bs ms cs : List A) (i n : ℕ)
      → i ≡ length bs
      → n ≡ length ms
      → read_range (bs ++ (ms ++ cs)) i n ≡ done ms
  unfolding read_range
  read_range_lem bs ms cs i n hi hn = rw (
    le→leb (i + n) (length (bs ++ (ms ++ cs)))
        (omega (arith, length-append bs (ms ++ cs), length-append ms cs)),
    range_parts bs ms cs i n hi hn,
  )

  pub store_lem :
      (bs : List A) (m x : A) (cs : List A) (i : ℕ)
      → i ≡ length bs
      → store (block (bs ++ m ∷ cs)) i x ≡ done (block (bs ++ x ∷ cs))
  unfolding store
  store_lem bs m x cs i hi = copy_to_lem bs (m ∷ []) cs (x ∷ []) i hi refl

  pub load_lem :
      (bs : List A) (x : A) (cs : List A) (i : ℕ)
      → i ≡ length bs
      → load (block (bs ++ x ∷ cs)) i ≡ done x
  unfolding load
  load_lem bs x cs i hi = rw (get_elem?-append bs (x ∷ cs) i hi, load)

  -- A block cut at an index.
  pub cut : (xs : List A) (i : ℕ) → xs ≡ take i xs ++ drop i xs
  cut xs i = sym (take-append-drop i xs)

  pub length-prefix : (xs : List A) (i : ℕ) → i ≤ length xs → i ≡ length (take i xs)
  length-prefix xs i h = omega (arith, length-take i xs)

  -- A store past the end of a block is a memory error, and so is any through a null pointer.
  pub store_outside : (xs : List A) (i : ℕ) (x : A) → length xs ≤ i → store (block xs) i x ≡ fault
  unfolding store copy_to
  store_outside xs i x h = rw (lt→leb (i + 1) (length xs) (omega arith))

  pub store_null : (i : ℕ) (x : A) → store null i x ≡ fault
  unfolding store copy_to
  store_null i x = refl

  -- `realloc` of a valid pointer to a larger block, when it is granted and when it is refused.
  pub realloc_granted :
      (b : Buf A) (junk : ℕ → A) (n : ℕ)
      → is_live b ≡ true
      → 0 < n
      → length (cells b) ≤ n
      → (xs : List A) × (realloc (some junk) b n ≡ moved xs)
        × (length xs ≡ n)
        × (take (length (cells b)) xs ≡ cells b)
  unfolding realloc
  realloc_granted null junk n live pos room = (fill n junk, refl, length-fill n junk, refl)
  realloc_granted (block xs) junk n live pos room = (
    resize xs n junk,
    rw (ne→== n 0 (omega arith)),
    length-resize xs n junk room,
    rw (take-length n xs room) (take-exact xs (fill (n - length xs) junk) (length xs) refl),
  )
  realloc_granted freed junk n live pos room = cc

  pub realloc_refused : (b : Buf A) (n : ℕ) → is_live b ≡ true → 0 < n → realloc none b n ≡ refused
  unfolding realloc
  realloc_refused null n live pos = refl
  realloc_refused (block xs) n live pos = rw (ne→== n 0 (omega arith))
  realloc_refused freed n live pos = cc

  pub live_block : (b : Buf A) → is_live b ≡ true → 0 < length (cells b) → b ≡ block (cells b)
  live_block null live pos = absurd (omega arith)
  live_block (block xs) live pos = refl
  live_block freed live pos = cc

  -- A run of cells moved up by one, over the cell behind it.
  pub memmove_up :
      (bs ms : List A) (x : A) (cs : List A) (i n : ℕ)
      → i ≡ length bs
      → n ≡ length ms
      → (y : A) × (memmove (block (bs ++ (ms ++ x ∷ cs))) (i + 1) i n
          ≡ done (block (bs ++ y ∷ (ms ++ cs))))
  unfolding memmove
  memmove_up bs ms x cs i n hi hn =
      let (y, ys, e) = nonempty_parts (ms ++ x ∷ []) (omega (arith, length-append ms (x ∷ []))) in
      let parts : bs ++ (ms ++ x ∷ cs) ≡ (bs ++ y ∷ []) ++ (ys ++ cs) =
        ap (λ zs. bs ++ zs) (sym (append_assoc ms (x ∷ []) cs) ∙ ap (λ zs. zs ++ cs) e)
        ∙ sym (append_assoc bs (y ∷ []) (ys ++ cs)) in
      let copied : copy_to (block (bs ++ (ms ++ x ∷ cs))) (i + 1) ms
          ≡ done (block ((bs ++ y ∷ []) ++ (ms ++ cs))) =
        ap (λ zs. copy_to (block zs) (i + 1) ms) parts
        ∙ copy_to_lem (bs ++ y ∷ []) ys cs ms (i + 1) (omega (arith, length-append bs (y ∷ [])))
            (omega (arith, ap length e, length-append ms (x ∷ []))) in
      (y, rw (read_range_lem bs ms (x ∷ cs) i n hi hn, copied, append_assoc bs (y ∷ []) (ms ++ cs)))

  -- A run of cells moved down by one, over the cell before it.
  pub memmove_down :
      (bs : List A) (x : A) (ms cs : List A) (i n : ℕ)
      → i ≡ length bs
      → n ≡ length ms
      → (zs : List A) × (memmove (block (bs ++ x ∷ (ms ++ cs))) i (i + 1) n
          ≡ done (block (bs ++ (ms ++ zs))))
        × (length zs ≡ length cs + 1)
  unfolding memmove
  memmove_down bs x ms cs i n hi hn =
      let k : ℕ = length ms in
      let head_part = take k (x ∷ ms) in
      let tail_part = drop k (x ∷ ms) in
      let parts : bs ++ x ∷ (ms ++ cs) ≡ bs ++ (head_part ++ (tail_part ++ cs)) =
        ap (λ zs. bs ++ zs)
          (ap (λ zs. zs ++ cs) (cut (x ∷ ms) k) ∙ append_assoc head_part tail_part cs) in
      let copied : copy_to (block (bs ++ x ∷ (ms ++ cs))) i ms
          ≡ done (block (bs ++ (ms ++ (tail_part ++ cs)))) =
        ap (λ zs. copy_to (block zs) i ms) parts
        ∙ copy_to_lem bs head_part (tail_part ++ cs) ms i hi
            (omega (arith, length-take k (x ∷ ms))) in
      let range : read_range (bs ++ x ∷ (ms ++ cs)) (i + 1) n ≡ done ms =
        ap (λ zs. read_range zs (i + 1) n) (sym (append_assoc bs (x ∷ []) (ms ++ cs)))
        ∙ read_range_lem (bs ++ x ∷ []) ms cs (i + 1) n (omega (arith, length-append bs (x ∷ [])))
            hn in
      (
        tail_part ++ cs,
        rw (range, copied),
        omega (arith, length-append tail_part cs, length-drop k (x ∷ ms)),
      )

  pub load-cells :
      (b : Buf A) (bs : List A) (x : A) (cs : List A) (i : ℕ)
      → cells b ≡ bs ++ x ∷ cs
      → i ≡ length bs
      → load b i ≡ done x
  unfolding load
  load-cells b bs x cs i eb hi = rw (eb, get_elem?-append bs (x ∷ cs) i hi, load)

  pub realloc_moved :
      (xs : List A) (junk : ℕ → A) (n : ℕ)
      → 0 < n
      → realloc (some junk) (block xs) n ≡ moved (resize xs n junk)
  unfolding realloc
  realloc_moved xs junk n pos = rw (ne→== n 0 (omega arith))

  pub realloc_zero : (g : Grant A) (xs : List A) → realloc g (block xs) 0 ≡ released
  unfolding realloc
  realloc_zero none xs = refl
  realloc_zero (some junk) xs = refl

  pub length-resize_le :
      (xs : List A) (n : ℕ) (junk : ℕ → A) → n ≤ length xs → length (resize xs n junk) ≡ n
  length-resize_le xs n junk h = omega (
    arith,
    length-append (take n xs) (fill (n - length xs) junk),
    length-take n xs,
    length-fill (n - length xs) junk,
  )

  pub take-resize :
      (xs : List A) (n : ℕ) (junk : ℕ → A) → n ≤ length xs → take n (resize xs n junk) ≡ take n xs
  take-resize xs n junk h =
      take-exact (take n xs) (fill (n - length xs) junk) n (omega (arith, length-take n xs))

  -- Cells overwritten from an index on: what stands before their end is what stood before the index,
  -- and they.
  pub copy_in :
      (xs ys : List A) (i : ℕ)
      → i + length ys ≤ length xs
      → (zs : List A) × (copy_to (block xs) i ys ≡ done (block zs))
        × (length zs ≡ length xs)
        × (take (i + length ys) zs ≡ take i xs ++ ys)
  unfolding copy_to
  copy_in xs ys i room =
      let bs = take i xs in
      let cs = drop (i + length ys) xs in
      let bs_len : i ≡ length bs = omega (arith, length-take i xs) in
      (
        bs ++ (ys ++ cs),
        rw (le→leb (i + length ys) (length xs) room),
        omega (
          arith,
          length-append bs (ys ++ cs),
          length-append ys cs,
          length-drop (i + length ys) xs,
        ),
        rw (← append_assoc bs ys cs)
            (take-exact (bs ++ ys) cs (i + length ys) (omega (arith, length-append bs ys))),
      )

  pub read_inside :
      (xs : List A) (i n : ℕ) → i + n ≤ length xs → read_range xs i n ≡ done (take n (drop i xs))
  unfolding read_range
  read_inside xs i n room = rw (le→leb (i + n) (length xs) room)

  pub read_outside : (xs : List A) (i n : ℕ) → length xs < i + n → read_range xs i n ≡ fault
  unfolding read_range
  read_outside xs i n over = rw (lt→leb (i + n) (length xs) over)

  pub store_in :
      (xs : List A) (i : ℕ) (x : A)
      → i < length xs
      → (zs : List A) × (store (block xs) i x ≡ done (block zs)) × (length zs ≡ length xs)
  unfolding store
  store_in xs i x within =
      let (zs, stored, size, _) = copy_in xs (x ∷ []) i (omega arith) in (zs, stored, size)
