-- ===== src/BufWriter/Making.antt =====
-- The constructors and the replacements of a writer (src/buf_io/buf_writer.c).
use so.Base.{ℕ, ◌<◌, ◌≡◌, refl, ◌⊎◌, inl, inr, none, some, List, [], arith, size_mod, length}
use so.Base.Cells.{Grant}
use so.Base.Cells.Laws.{length-fill}
use so.BufWriter.{BufWriter, ok, err_alloc_fail, with_cap, replace_buf, replace_file}
use so.BufWriter.Valid.{IsValid, pending}

-- With storage, a writer of a positive capacity that a `size_t` holds is valid, with nothing in its
-- buffer and of the given descriptor and capacity; without, the outcome says so.
pub with_cap_lem :
    (g : Grant ℕ) (init : BufWriter) (file_des capacity : ℕ)
    → 0 < capacity
    → capacity < size_mod
    → let (outcome, w) = with_cap g init file_des capacity in
      ((g ≡ none) × (outcome ≡ err_alloc_fail))
      ⊎ ((outcome ≡ ok)
          × IsValid w
          × (pending w ≡ [])
          × (w.file_des ≡ file_des)
          × (w.cap ≡ capacity))
unfolding with_cap
with_cap_lem none init file_des capacity pos small = inl (refl, refl)
with_cap_lem (some junk) init file_des capacity pos small = inr (
  refl,
  record {
    live = refl;
    storage = length-fill capacity junk;
    pos_in = omega arith;
    positive = pos;
    small = small;
  },
  refl,
  refl,
  refl,
)

-- Replacing the buffer or the file drops the bytes in the buffer without writing them: the new writer
-- is valid and its buffer is empty.
pub replace_lem :
    (w : BufWriter) (new_buf : List ℕ) (fd : ℕ)
    → IsValid w
    → 0 < length new_buf
    → length new_buf < size_mod
    → let (old_buf, w₁) = replace_buf w new_buf (length new_buf) in
      let (old_fd, w₂) = replace_file w fd in
      (old_buf ≡ w.buf)
      × IsValid w₁
      × (pending w₁ ≡ [])
      × (w₁.file_des ≡ w.file_des)
      × (old_fd ≡ w.file_des)
      × IsValid w₂
      × (pending w₂ ≡ [])
      × (w₂.file_des ≡ fd)
unfolding replace_buf replace_file
replace_lem w new_buf fd v pos small = (
  refl,
  record { live = refl; storage = refl; pos_in = omega arith; positive = pos; small = small },
  refl,
  refl,
  refl,
  record {
    live = v.live;
    storage = v.storage;
    pos_in = omega arith;
    positive = v.positive;
    small = v.small;
  },
  refl,
  refl,
)
