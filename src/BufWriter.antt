-- ===== src/BufWriter.antt =====
-- src/buf_io/buf_writer.c and include/buf_io/buf_writer.h: buffered writing to a descriptor, one
-- function for each `bw_` function. One that changes `*self` returns the new writer beside its
-- outcome, and one that writes takes the answer of the system call and returns the log behind it.
pub mod Valid
pub mod Pieces
pub mod Write
pub mod Line
pub mod Flush
pub mod Making
pub mod Messages
pub mod Fits
pub mod Session
pub mod Access
mod Tests
use so.Base.{
  ℕ, ◌+◌, ◌-◌, ◌%◌, Bool, none, some, List, ◌++◌, ltb, ◌==◌, if◌then◌else◌, size_mod, Exec, done,
  ◌>>=◌,
}
use so.Base.Cells.{Buf, block, Grant, free, cells, malloc, read_range, copy_to, store}
use so.Files.{Answer, Log, sys_write}

pub data BwOutcome : Type 0 where
  ok err_alloc_fail err_write_fail err_close_fail : BwOutcome

-- `struct BufWriter`
pub record BufWriter : Type 0 where
  pub file_des : ℕ
  pub buf : Buf ℕ
  pub pos : ℕ
  pub cap : ℕ

abbrev pub default_cap : ℕ
default_cap = 8192

abbrev pub newline : ℕ
newline = 10

abbrev pub Result : Type 0
Result = BwOutcome × BufWriter × Log

unfoldable pub with_cap : Grant ℕ → BufWriter → ℕ → ℕ → BwOutcome × BufWriter
with_cap g init file_des capacity = elim (malloc g capacity) [
  | block xs ↦ (ok, record { file_des = file_des; buf = block xs; pos = 0; cap = capacity })
  | b ↦ (err_alloc_fail, record init { buf = b })
]

unfoldable pub with_default_cap : Grant ℕ → BufWriter → ℕ → BwOutcome × BufWriter
unfolding with_cap
with_default_cap g init file_des = with_cap g init file_des default_cap

unfoldable pub with_buf : ℕ → List ℕ → ℕ → BufWriter
with_buf file_des buf buf_size = record {
  file_des = file_des;
  buf = block buf;
  pos = 0;
  cap = buf_size;
}

-- A system call that writes, and what follows it; a call that fails ends the function.
unfoldable pub try_write : Answer → BufWriter → List ℕ → Log → (Log → Exec Result) → Exec Result
try_write ans w bytes log follow = elim (sys_write ans w.file_des bytes log) [
  | none ↦ done (err_write_fail, w, log)
  | some log' ↦ follow log'
]

-- The macro `try_flush_` and what follows it.
unfoldable pub try_flush : Answer → BufWriter → Log → (Log → Exec Result) → Exec Result
try_flush ans w log follow =
    if ltb 0 w.pos
    then (read_range (cells w.buf) 0 w.pos >>= λ bytes. try_write ans w bytes log follow)
    else follow log

abbrev closing : Bool → BwOutcome
closing closes = if closes then ok else err_close_fail

unfoldable pub drop : Answer → BufWriter → Log → Exec Result
drop ans w log =
    try_flush ans w log λ log'. free w.buf >>= λ b. done (ok, record w { buf = b; pos = 0 }, log')

-- The Boolean is whether `close` succeeds.
unfoldable pub close : Answer → Bool → BufWriter → Log → Exec Result
close ans closes w log = try_flush ans w log λ log'. done (closing closes, w, log')

unfoldable pub drop_and_close : Answer → Bool → BufWriter → Log → Exec Result
drop_and_close ans closes w log =
    try_flush ans w log
      λ log'. free w.buf >>= λ b. done (closing closes, record w { buf = b; pos = 0 }, log')

unfoldable pub replace_buf : BufWriter → List ℕ → ℕ → Buf ℕ × BufWriter
replace_buf w new_buf new_buf_size =
    (w.buf, record w { buf = block new_buf; cap = new_buf_size; pos = 0 })

unfoldable pub replace_file : BufWriter → ℕ → ℕ × BufWriter
replace_file w new_file_des = (w.file_des, record w { file_des = new_file_des; pos = 0 })

-- `self->cap - self->pos` of the type `size_t`
abbrev pub available_size : BufWriter → ℕ
available_size w = (w.cap + size_mod - w.pos) % size_mod

-- More bytes than the buffer can hold go out at once, behind those in the buffer, if there are any.
unfoldable pub write_through :
    Answer → BufWriter → List ℕ → ℕ → Log → (Log → Exec Result) → Exec Result
write_through ans w chars n log follow = read_range chars 0 n >>= λ body.
    if w.pos == 0
    then try_write ans w body log follow
    else (read_range (cells w.buf) 0 w.pos >>= λ head. try_write ans w (head ++ body) log follow)

-- Bytes that the buffer can hold, but not behind those in it: the buffer is filled up and goes out,
-- and the rest of the bytes is put into it.
unfoldable pub write_around :
    Answer → BufWriter → List ℕ → ℕ → Log → (BufWriter → Log → Exec Result) → Exec Result
write_around ans w chars n log follow =
    let available = available_size w in
    do
      part ← read_range chars 0 available
      b ← copy_to w.buf w.pos part
      bytes ← read_range (cells b) 0 w.cap
      try_write ans (record w { buf = b }) bytes log
          λ log'. read_range chars available (n - available) >>= λ rest.
            copy_to b 0 rest >>= λ b'. follow (record w { buf = b'; pos = n - available }) log'

-- Bytes for which there is room in the buffer; the position is left to what follows.
unfoldable pub write_within : BufWriter → List ℕ → ℕ → (BufWriter → Exec Result) → Exec Result
write_within w chars n follow = do
  part ← read_range chars 0 n
  b ← copy_to w.buf w.pos part
  follow (record w { buf = b })

-- `self->buf[self->pos++] = c`
unfoldable pub put_char : BufWriter → ℕ → Log → Exec Result
put_char w c log =
    store w.buf w.pos c >>= λ b. done (ok, record w { buf = b; pos = (w.pos + 1) % size_mod }, log)

unfoldable pub write : Answer → BufWriter → List ℕ → ℕ → Log → Exec Result
write ans w chars n log =
    if ltb (available_size w) n
    then if ltb w.cap n
      then write_through ans w chars n log (λ log'. done (ok, record w { pos = 0 }, log'))
      else write_around ans w chars n log (λ w' log'. done (ok, w', log'))
    else write_within w chars n (λ w'. done (ok, record w' { pos = (w'.pos + n) % size_mod }, log))

unfoldable pub write_line : Answer → BufWriter → List ℕ → ℕ → Log → Exec Result
write_line ans w chars n log =
    if ltb (available_size w) n
    then if ltb w.cap n
      then write_through ans w chars n log (λ log'. put_char (record w { pos = 0 }) newline log')
      else write_around ans w chars n log (λ w' log'. put_char w' newline log')
    else write_within w chars n λ w'.
      if available_size w == n
      then (read_range (cells w'.buf) 0 w'.cap >>= λ bytes.
          try_write ans w' bytes log λ log'. put_char (record w' { pos = 0 }) newline log')
      else put_char (record w' { pos = (w'.pos + n) % size_mod }) newline log

unfoldable pub write_char : Answer → BufWriter → ℕ → Log → Exec Result
write_char ans w c log =
    if w.pos == w.cap
    then (read_range (cells w.buf) 0 w.cap >>= λ bytes.
        try_write ans w bytes log λ log'. put_char (record w { pos = 0 }) c log')
    else put_char w c log

unfoldable pub flush : Answer → BufWriter → Log → Exec Result
flush ans w log = try_flush ans w log λ log'. done (ok, w, log')
