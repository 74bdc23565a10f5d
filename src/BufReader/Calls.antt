-- ===== src/BufReader/Calls.antt =====
-- Any sequence of calls of a `BufReader` (src/buf_io/buf_reader.c).
use so.Base.{ℕ, ◌<◌, ◌≡◌, refl, true, some, List, [], ◌∷◌, arith, Bool, length, if◌then◌else◌, done}
use so.Base.Cells.{block, freed, cells, is_live, fill, free}
use so.Base.Cells.Laws.{length-fill, live_block}
use so.BufReader.{
  BufReader, ok, err_close_fail, with_cap, read, read_line, read_char, replace_buf, replace_file,
  drop_and_close,
}

-- A block of as many bytes as the capacity, and nothing in the buffer.
pub record IsReady (r : BufReader) : Type 0 where
  pub live : is_live r.buf ≡ true
  pub storage : length (cells r.buf) ≡ r.cap
  pub positive : 0 < r.cap
  pub at_first : r.first ≡ 0
  pub at_past : r.past ≡ 0

-- A call between the constructor and the end of the reader. A new buffer has the size that is given.
pub data Call : Type 0 where
  reading reading_line : ℕ → Call
  reading_char : Call
  new_buf : (bytes : List ℕ) → 0 < length bytes → Call
  new_file : ℕ → Call

-- The reader, the buffer of the caller, and the number that the last call stored.
abbrev pub State : Type 0
State = BufReader × List ℕ × ℕ

unfoldable pub perform : State → Call → State
perform (r, bytes, count) (reading n) = let (_, r', b, k) = read r bytes n count in (r', b, k)
perform (r, bytes, count) (reading_line n) =
    let (_, r', b, k) = read_line r bytes n count in (r', b, k)
perform (r, bytes, count) reading_char = let (_, r', _) = read_char r 0 in (r', bytes, count)
perform (r, bytes, count) (new_buf xs _) = ((replace_buf r xs (length xs)).1, bytes, count)
perform (r, bytes, count) (new_file fd) = ((replace_file r fd).1, bytes, count)

unfoldable pub perform_all : State → List Call → State
unfolding perform
perform_all s [] = s
perform_all s (call ∷ calls) = perform_all (perform s call) calls

perform-IsReady :
    (r : BufReader) (bytes : List ℕ) (count : ℕ) (call : Call)
    → IsReady r
    → (r' : BufReader) × (perform (r, bytes, count) call ≡ (r', bytes, count)) × IsReady r'
unfolding perform read read_line read_char replace_buf replace_file
perform-IsReady r bytes count (reading n) h = (r, refl, h)
perform-IsReady r bytes count (reading_line n) h = (r, refl, h)
perform-IsReady r bytes count reading_char h = (r, refl, h)
perform-IsReady r bytes count (new_buf xs some_yet) h = (
  record r { buf = block xs; cap = length xs; first = 0; past = 0 },
  refl,
  record { live = refl; storage = refl; positive = some_yet; at_first = refl; at_past = refl },
)
perform-IsReady r bytes count (new_file fd) h = (
  record r { file_des = fd; first = 0; past = 0 },
  refl,
  record {
    live = h.live;
    storage = h.storage;
    positive = h.positive;
    at_first = refl;
    at_past = refl;
  },
)

pub perform_all-IsReady :
    (r : BufReader) (bytes : List ℕ) (count : ℕ) (calls : List Call)
    → IsReady r
    → (r' : BufReader) × (perform_all (r, bytes, count) calls ≡ (r', bytes, count)) × IsReady r'
unfolding perform_all
perform_all-IsReady r bytes count [] h = (r, refl, h)
perform_all-IsReady r bytes count (call ∷ calls) h =
    let (r', e, h') = perform-IsReady r bytes count call h in
    let (r'', e', h'') = perform_all-IsReady r' bytes count calls h' in (r'', rw e e', h'')

-- A reader of a positive capacity whose storage is given has a block of that many bytes and
-- nothing in its buffer, whatever reading calls and replacements follow; they store nothing for
-- the caller; and br_drop_and_close has no memory error then and gives the block back, whether the
-- close succeeds or not.
pub calls_lem :
    (junk : ℕ → ℕ) (init : BufReader) (fd capacity : ℕ) (closes : Bool) (calls : List Call)
    (bytes : List ℕ) (count : ℕ)
    → 0 < capacity
    → (r : BufReader) × (perform_all ((with_cap (some junk) init fd capacity).1, bytes, count) calls
        ≡ (r, bytes, count))
      × IsReady r
      × (drop_and_close closes r
          ≡ done (if closes then ok else err_close_fail, record r { buf = freed }))
unfolding with_cap drop_and_close free
calls_lem junk init fd capacity closes calls bytes count some_yet =
    let made : BufReader = record {
      file_des = fd;
      buf = block (fill capacity junk);
      first = 0;
      past = 0;
      cap = capacity;
    } in
    let ready : IsReady made = record {
      live = refl;
      storage = length-fill capacity junk;
      positive = some_yet;
      at_first = refl;
      at_past = refl;
    } in
    let (r, e, h) = perform_all-IsReady made bytes count calls ready in
    let whole : r.buf ≡ block (cells r.buf) =
      live_block r.buf h.live (omega (arith, h.storage, h.positive)) in
    (r, e, h, rw whole refl)
