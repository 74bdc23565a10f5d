-- ===== src/BufReader/Tests.antt =====
-- A concrete reader: runs of the functions, and the theorem at an input where its hypothesis holds.
use so.Base.{ℕ, ◌≡◌, refl, true, some, [], ◌∷◌, arith, List, done}
use so.Base.Cells.{null, freed}
use so.BufReader.{BufReader, ok, with_cap, with_buf, drop_and_close, available_bytes}
use so.BufReader.Calls.{Call, reading, new_file, perform_all, IsReady, calls_lem}

abbrev zeros : ℕ → ℕ
zeros i = 0

abbrev unset : BufReader
unset = record { file_des = 0; buf = null; first = 0; past = 0; cap = 0 }

available_run : available_bytes (with_buf 3 (1 ∷ 2 ∷ []) 2) ≡ 0
unfolding available_bytes
available_run = refl

calls_lem_run :
    let calls : List Call = reading 4 ∷ new_file 5 ∷ [] in
    (r : BufReader) × (perform_all ((with_cap (some zeros) unset 3 16).1, 7 ∷ 8 ∷ [], 9) calls
      ≡ (r, 7 ∷ 8 ∷ [], 9))
    × IsReady r
    × (drop_and_close true r ≡ done (ok, record r { buf = freed }))
calls_lem_run =
    calls_lem zeros unset 3 16 true (reading 4 ∷ new_file 5 ∷ []) (7 ∷ 8 ∷ []) 9 (omega arith)
