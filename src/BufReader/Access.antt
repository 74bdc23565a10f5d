-- ===== src/BufReader/Access.antt =====
-- The functions that show a field of a `BufReader` (src/buf_io/buf_reader.c). Those with `_mut` in their
-- names return the same, without the `const`.
use so.Base.{ℕ, ◌<◌, ◌≡◌, refl, List, length}
use so.Base.Cells.{Buf, cells}
use so.BufReader.{BufReader, available_bytes}
use so.BufReader.Calls.{Call, IsReady, perform_all, perform_all-IsReady}

unfoldable pub br_descriptor : BufReader → ℕ
br_descriptor r = r.file_des

unfoldable pub br_internal_buf : BufReader → Buf ℕ
br_internal_buf r = r.buf

unfoldable pub br_cap : BufReader → ℕ
br_cap r = r.cap

-- What these functions show behind a sequence of calls.
pub calls-access :
    (r : BufReader) (bytes : List ℕ) (count : ℕ) (calls : List Call)
    → IsReady r
    → let r' = (perform_all (r, bytes, count) calls).0 in
      (available_bytes r' ≡ 0) × (0 < br_cap r') × (length (cells (br_internal_buf r')) ≡ br_cap r')
unfolding br_internal_buf br_cap available_bytes
calls-access r bytes count calls ready =
    let (r', e, h) = perform_all-IsReady r bytes count calls ready in
    rw e (refl, h.positive, h.storage)
