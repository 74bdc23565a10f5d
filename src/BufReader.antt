-- ===== src/BufReader.antt =====
-- src/buf_io/buf_reader.c and include/buf_io/buf_reader.h: buffered reading from a descriptor, one
-- function for each `br_` function. One that changes `*self` returns the new reader beside its result.
pub mod Calls
pub mod Access
pub mod Messages
mod Tests
use so.Base.{ℕ, Bool, List, if◌then◌else◌, Exec, done, ◌>>=◌}
use so.Base.Cells.{Buf, block, Grant, free, malloc}

pub data BrOutcome : Type 0 where
  ok err_alloc_fail err_read_fail err_close_fail : BrOutcome

-- `struct BufReader`; the fields `begin` and `end` are `first` and `past`.
pub record BufReader : Type 0 where
  pub file_des : ℕ
  pub buf : Buf ℕ
  pub first : ℕ
  pub past : ℕ
  pub cap : ℕ

abbrev pub default_cap : ℕ
default_cap = 8192

unfoldable pub with_cap : Grant ℕ → BufReader → ℕ → ℕ → BrOutcome × BufReader
with_cap g init file_des capacity = elim (malloc g capacity) [
  | block xs ↦
      (ok, record { file_des = file_des; buf = block xs; first = 0; past = 0; cap = capacity })
  | b ↦ (err_alloc_fail, record init { buf = b })
]

unfoldable pub with_default_cap : Grant ℕ → BufReader → ℕ → BrOutcome × BufReader
unfolding with_cap
with_default_cap g init file_des = with_cap g init file_des default_cap

unfoldable pub with_buf : ℕ → List ℕ → ℕ → BufReader
with_buf file_des buf buf_size = record {
  file_des = file_des;
  buf = block buf;
  first = 0;
  past = 0;
  cap = buf_size;
}

unfoldable pub drop : BufReader → Exec BufReader
drop r = free r.buf >>= λ b. done (record r { buf = b })

-- The Boolean is whether `close` succeeds.
unfoldable pub close : Bool → BufReader → BrOutcome × BufReader
close closes r = (if closes then ok else err_close_fail, r)

unfoldable pub drop_and_close : Bool → BufReader → Exec (BrOutcome × BufReader)
drop_and_close closes r =
    free r.buf >>= λ b. done (if closes then ok else err_close_fail, record r { buf = b })

unfoldable pub replace_buf : BufReader → List ℕ → ℕ → Buf ℕ × BufReader
replace_buf r new_buf new_buf_size =
    (r.buf, record r { buf = block new_buf; cap = new_buf_size; first = 0; past = 0 })

unfoldable pub replace_file : BufReader → ℕ → ℕ × BufReader
replace_file r new_file_des =
    (r.file_des, record r { file_des = new_file_des; first = 0; past = 0 })

unfoldable pub available_bytes : BufReader → ℕ
available_bytes r = 0

-- What the reading functions return, with `*self`, the bytes at `buf` or `c`, and `*read_bytes`.
abbrev pub Reading : Type 0
Reading = BrOutcome × BufReader × List ℕ × ℕ

unfoldable pub read : BufReader → List ℕ → ℕ → ℕ → Reading
read r buf n read_bytes = (ok, r, buf, read_bytes)

unfoldable pub read_line : BufReader → List ℕ → ℕ → ℕ → Reading
read_line r buf n read_bytes = (ok, r, buf, read_bytes)

unfoldable pub read_char : BufReader → ℕ → BrOutcome × BufReader × ℕ
read_char r c = (ok, r, c)
