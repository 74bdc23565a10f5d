-- ===== src/BufWriter/Pieces.antt =====
-- The parts of `bw_write` and `bw_write_line` (src/buf_io/buf_writer.c): what holds behind each, when
-- what follows it keeps a property `P` of the result.
use mathlib.Core.Path.{subst}
use so.Base.{
  ℕ, ◌+◌, ◌-◌, ◌%◌, ◌≤◌, ◌<◌, ◌≡◌, refl, sym, ap, ◌∙◌, inl, inr, none, List, [], ◌∷◌, ◌++◌, arith,
  ◌==◌, size_mod, ==_iff, Bool-cases, length, take, drop, length-append, length-take, length-drop,
  take-length, take-take, take-exact, length_zero, Exec, done, Ensures,
}
use so.Base.Cells.{block, cells, read_range, copy_to, store}
use so.Base.Cells.Laws.{copy_in, read_inside}
use so.Files.{Answer, Log, Whole}
use so.BufWriter.{
  BufWriter, Result, ok, err_write_fail, try_write, write_through, write_around, write_within,
  put_char,
}
use so.BufWriter.Valid.{
  IsValid, Follows, pending, available_lem, buf_block, length-pending, with_block,
}

pub read_prefix :
    (chars : List ℕ) (n : ℕ) → n ≤ length chars → read_range chars 0 n ≡ done (take n chars)
read_prefix chars n h = read_inside chars 0 n (omega arith)

module _ (P : Result → Type 0) where
  pub try_write_lem :
      (ans : Answer) (w : BufWriter) (bytes : List ℕ) (log : Log) (follow : Log → Exec Result)
      → Whole (length bytes) ans
      → (ans ≡ none → P (err_write_fail, w, log))
      → Ensures (follow (log ++ (w.file_des, bytes) ∷ [])) P
      → Ensures (try_write ans w bytes log follow) P
  unfolding try_write
  try_write_lem ans w bytes log follow (inl e) fails goes = rw e (fails e)
  try_write_lem ans w bytes log follow (inr (k, e, all)) fails goes =
      rw (e, take-length k bytes all) goes

  -- The buffer and the bytes go out in one call.
  pub write_through_lem :
      (ans : Answer) (w : BufWriter) (chars : List ℕ) (n : ℕ) (log : Log)
      (follow : Log → Exec Result)
      → IsValid w
      → n ≤ length chars
      → Whole (w.pos + n) ans
      → (ans ≡ none → P (err_write_fail, w, log))
      → Ensures (follow (log ++ (w.file_des, pending w ++ take n chars) ∷ [])) P
      → Ensures (write_through ans w chars n log follow) P
  unfolding write_through
  write_through_lem ans w chars n log follow v given whole fails goes =
      let size : length (pending w ++ take n chars) ≡ w.pos + n =
        omega (
          arith,
          length-append (pending w) (take n chars),
          length-pending v,
          length-take n chars,
        ) in
      rw (read_prefix chars n given) (elim (Bool-cases (w.pos == 0)) [
        | inl empty ↦
            let nothing : pending w ≡ [] =
              length_zero (pending w) (omega (arith, length-pending v, (==_iff w.pos 0).0 empty)) in
            rw empty (
              try_write_lem ans w (take n chars) log follow (rw nothing at (rw (← size) at whole))
                fails (rw nothing at goes))
        | inr some_yet ↦
            rw (some_yet, read_prefix (cells w.buf) w.pos (omega (arith, v.storage, v.pos_in)))
              (try_write_lem ans w (pending w ++ take n chars) log follow (rw (← size) at whole)
                fails goes)
      ])

  -- The buffer is filled up with the first bytes and goes out, and holds the rest of them.
  pub write_around_lem :
      (ans : Answer) (w : BufWriter) (chars : List ℕ) (n : ℕ) (log : Log)
      (follow : BufWriter → Log → Exec Result)
      → IsValid w
      → n ≤ length chars
      → w.cap - w.pos < n
      → n ≤ w.cap
      → Whole w.cap ans
      → ((w' : BufWriter)
          → Follows w w'
          → pending w' ≡ pending w
          → ans ≡ none
          → P (err_write_fail, w', log))
      → ((w' : BufWriter)
          → Follows w w'
          → w'.pos ≡ n - (w.cap - w.pos)
          → pending w' ≡ take (n - (w.cap - w.pos)) (drop (w.cap - w.pos) chars)
          → Ensures
              (follow w' (log ++ (w.file_des, pending w ++ take (w.cap - w.pos) chars) ∷ []))
              P)
      → Ensures (write_around ans w chars n log follow) P
  unfolding write_around
  write_around_lem ans w chars n log follow v given over fits whole fails goes =
      let a : ℕ = w.cap - w.pos in
      let part = take a chars in
      let rest = take (n - a) (drop a chars) in
      let part_len : length part ≡ a = omega (arith, length-take a chars) in
      let rest_len : length rest ≡ n - a =
        omega (arith, length-take (n - a) (drop a chars), length-drop a chars) in
      let (zs, copied, zs_len, zs_head) =
        copy_in (cells w.buf) part w.pos (omega (arith, v.storage, v.pos_in)) in
      let copied' : copy_to w.buf w.pos part ≡ done (block zs) =
        ap (λ b. copy_to b w.pos part) (buf_block v) ∙ copied in
      let cap_sum : w.pos + length part ≡ w.cap = omega (arith, v.pos_in) in
      let bytes_eq : take w.cap zs ≡ pending w ++ part =
        ap (λ k. take k zs) (sym cap_sum) ∙ zs_head in
      let bytes_len : length (take w.cap zs) ≡ w.cap =
        omega (arith, length-take w.cap zs, v.storage) in
      let (ys, copied'', ys_len, ys_head) = copy_in zs rest 0 (omega (arith, v.storage)) in
      let kept : take w.pos zs ≡ pending w =
        sym (take-take w.pos w.cap zs v.pos_in)
        ∙ ap (take w.pos) bytes_eq
        ∙ take-exact (pending w) part w.pos (sym (length-pending v)) in
      let behind : take (n - a) ys ≡ rest =
        ap (λ k. take k ys) {x = n - a} {y = 0 + length rest} (omega arith) ∙ ys_head in
      rw
        (
          available_lem v,
          read_prefix chars a (omega arith),
          copied',
          read_prefix zs w.cap (omega (arith, v.storage)),
        )
        (try_write_lem ans (record w { buf = block zs }) (take w.cap zs) log _
          (rw (← bytes_len) at whole)
          (fails (record w { buf = block zs })
            (with_block zs w.pos v (omega (arith, v.storage)) v.pos_in) kept)
          (rw (read_inside chars a (n - a) (omega arith), copied'')
            (subst
              (λ bytes.
                Ensures
                  (follow (record w { buf = block ys; pos = n - a })
                    (log ++ (w.file_des, bytes) ∷ []))
                  P)
              (sym bytes_eq)
              (goes (record w { buf = block ys; pos = n - a })
                (with_block ys (n - a) v (omega (arith, v.storage)) (omega arith)) refl behind))))

  -- The bytes stand in the buffer behind those that it held.
  pub write_within_lem :
      (w : BufWriter) (chars : List ℕ) (n : ℕ) (follow : BufWriter → Exec Result)
      → IsValid w
      → n ≤ length chars
      → n ≤ w.cap - w.pos
      → ((zs : List ℕ)
          → length zs ≡ w.cap
          → take (w.pos + n) zs ≡ pending w ++ take n chars
          → Ensures (follow (record w { buf = block zs })) P)
      → Ensures (write_within w chars n follow) P
  unfolding write_within
  write_within_lem w chars n follow v given fits goes =
      let part_len : length (take n chars) ≡ n = omega (arith, length-take n chars) in
      let (zs, copied, zs_len, zs_head) =
        copy_in (cells w.buf) (take n chars) w.pos (omega (arith, v.storage, v.pos_in)) in
      let copied' : copy_to w.buf w.pos (take n chars) ≡ done (block zs) =
        ap (λ b. copy_to b w.pos (take n chars)) (buf_block v) ∙ copied in
      rw (read_prefix chars n given, copied')
        (goes zs (zs_len ∙ v.storage) (
          ap (λ k. take (w.pos + k) zs) {x = n} {y = length (take n chars)} (sym part_len)
          ∙ zs_head))

  -- One more byte, where the buffer is not full.
  pub put_char_lem :
      (w : BufWriter) (c : ℕ) (log : Log)
      → IsValid w
      → w.pos < w.cap
      → ((w' : BufWriter) → Follows w w' → pending w' ≡ pending w ++ c ∷ [] → P (ok, w', log))
      → Ensures (put_char w c log) P
  unfolding put_char store
  put_char_lem w c log v room goes =
      let (zs, copied, zs_len, zs_head) =
        copy_in (cells w.buf) (c ∷ []) w.pos (omega (arith, v.storage)) in
      let copied' : copy_to w.buf w.pos (c ∷ []) ≡ done (block zs) =
        ap (λ b. copy_to b w.pos (c ∷ [])) (buf_block v) ∙ copied in
      let next : (w.pos + 1) % size_mod ≡ w.pos + 1 = omega (arith, v.small) in
      rw (copied', next)
        (goes (record w { buf = block zs; pos = w.pos + 1 })
          (with_block zs (w.pos + 1) v (zs_len ∙ v.storage) (omega arith)) zs_head)
