-- ===== src/BufWriter/Valid.antt =====
-- The representation invariant of a `BufWriter`, and the bytes that it was given.
use so.Base.{
  ℕ, ◌-◌, ◌≤◌, ◌<◌, ◌≡◌, refl, sym, ◌∙◌, ◌⊎◌, inl, inr, true, none, List, [], ◌∷◌, ◌++◌,
  append_assoc, arith, size_mod, length, take, length-take,
}
use so.Base.Cells.{block, cells, is_live}
use so.Base.Cells.Laws.{live_block}
use so.Files.{Answer, Log, sent, sent-append}
use so.BufWriter.{BufWriter, ok, err_write_fail, available_size, Result}

pub record IsValid (w : BufWriter) : Type 0 where
  pub live : is_live w.buf ≡ true
  pub storage : length (cells w.buf) ≡ w.cap
  pub pos_in : w.pos ≤ w.cap
  pub positive : 0 < w.cap
  pub small : w.cap < size_mod

-- The bytes in the buffer.
abbrev pub pending : BufWriter → List ℕ
pending w = take w.pos (cells w.buf)

-- The bytes that the descriptor was given and those in the buffer: all that the writer took.
abbrev pub stream : BufWriter → Log → List ℕ
stream w log = sent w.file_des log ++ pending w

-- Another state of the same writer.
pub record Follows (w w' : BufWriter) : Type 0 where
  pub valid : IsValid w'
  pub same_file : w'.file_des ≡ w.file_des
  pub same_cap : w'.cap ≡ w.cap

-- What a call that writes `extra` leaves: the writer took just these bytes; or the system call
-- failed, which the outcome tells, and the writer took nothing.
abbrev pub Delivers : Answer → BufWriter → Log → List ℕ → Result → Type 0
Delivers ans w log extra (outcome, w', log') =
    Follows w w'
    × (((outcome ≡ ok) × (stream w' log' ≡ stream w log ++ extra))
        ⊎ ((outcome ≡ err_write_fail) × (ans ≡ none) × (stream w' log' ≡ stream w log)))

pub available_lem : {w : BufWriter} → IsValid w → available_size w ≡ w.cap - w.pos
available_lem v = omega (arith, v.pos_in, v.small)

pub buf_block : {w : BufWriter} → IsValid w → w.buf ≡ block (cells w.buf)
buf_block {w} v = live_block w.buf v.live (omega (arith, v.storage, v.positive))

pub length-pending : {w : BufWriter} → IsValid w → length (pending w) ≡ w.pos
length-pending {w} v = omega (arith, length-take w.pos (cells w.buf), v.storage, v.pos_in)

-- A new position in a block of the capacity.
pub with_block :
    {w : BufWriter} (zs : List ℕ) (pos : ℕ)
    → IsValid w
    → length zs ≡ w.cap
    → pos ≤ w.cap
    → Follows w (record w { buf = block zs; pos = pos })
with_block zs pos v size h = record {
  valid = record {
    live = refl;
    storage = size;
    pos_in = h;
    positive = v.positive;
    small = v.small;
  };
  same_file = refl;
  same_cap = refl;
}

pub Follows-self : {w : BufWriter} → IsValid w → Follows w w
Follows-self v = record { valid = v; same_file = refl; same_cap = refl }

-- The buffer goes out with `xs` behind it, and holds `ys` then.
pub stream_sent :
    (w w' : BufWriter) (log : Log) (xs ys : List ℕ)
    → w'.file_des ≡ w.file_des
    → pending w' ≡ ys
    → stream w' (log ++ (w.file_des, pending w ++ xs) ∷ []) ≡ stream w log ++ (xs ++ ys)
stream_sent w w' log xs ys same e =
    rw (same, e, sent-append w.file_des log (pending w ++ xs)) (simp append_assoc)

-- Nothing goes out, and the buffer holds `xs` behind what it held.
pub stream_kept :
    (w w' : BufWriter) (log : Log) (xs : List ℕ)
    → w'.file_des ≡ w.file_des
    → pending w' ≡ pending w ++ xs
    → stream w' log ≡ stream w log ++ xs
stream_kept w w' log xs same e =
    rw (same, e) (sym (append_assoc (sent w.file_des log) (pending w) xs))

-- A call that failed before the position changed.
pub undelivered :
    (ans : Answer) (w w' : BufWriter) (log : Log) (extra : List ℕ)
    → Follows w w'
    → pending w' ≡ pending w
    → ans ≡ none
    → Delivers ans w log extra (err_write_fail, w', log)
undelivered ans w w' log extra f same failed = (f, inr (refl, failed, rw (f.same_file, same)))

pub delivered :
    (ans : Answer) (w w' : BufWriter) (log log' : Log) (extra : List ℕ)
    → Follows w w'
    → stream w' log' ≡ stream w log ++ extra
    → Delivers ans w log extra (ok, w', log')
delivered ans w w' log log' extra f e = (f, inl (refl, e))

pub Follows-trans : {u v w : BufWriter} → Follows u v → Follows v w → Follows u w
Follows-trans f g = record {
  valid = g.valid;
  same_file = g.same_file ∙ f.same_file;
  same_cap = g.same_cap ∙ f.same_cap;
}
