-- ===== src/BufWriter/Access.antt =====
-- The functions that show a field of a `BufWriter` (src/buf_io/buf_writer.c). Those with `_mut` in their
-- names return the same, without the `const`.
use so.Base.{ℕ, List, ◌++◌, take}
use so.Base.Cells.{Buf, cells}
use so.Files.{Log, sent}
use so.BufWriter.{BufWriter}

unfoldable pub bw_descriptor : BufWriter → ℕ
bw_descriptor w = w.file_des

unfoldable pub bw_internal_buf : BufWriter → Buf ℕ
bw_internal_buf w = w.buf

unfoldable pub bw_used_bytes : BufWriter → ℕ
bw_used_bytes w = w.pos

unfoldable pub bw_cap : BufWriter → ℕ
bw_cap w = w.cap

-- What the functions that show a field let a user see of all that the writer took: what its
-- descriptor got, and the used bytes of its buffer.
abbrev pub seen : BufWriter → Log → List ℕ
seen w log = sent (bw_descriptor w) log ++ take (bw_used_bytes w) (cells (bw_internal_buf w))
