-- ===== src/Client/Interactive.antt =====
-- What the interactive client does with a line (src/client.c).
use so.Base.{
  ℕ, ◌<◌, ◌≡◌, refl, ◌≢◌, ◌⊎◌, inl, inr, true, false, Option, none, some, List, [], ◌∷◌, arith,
  ne→==, length, done,
}
use so.Files.{Answer, Log}
use so.ParseSize.{parse_size, ParseSizeOutcome}
use so.BufWriter.{BufWriter}
use so.Client.{Command, failure, is_empty_str, find_cmd, is_read}
use so.Client.Lines.{reads_on, skip_spaces, split_word, on_line, on_word, on_command, with_number}
use so.Client.Options.{Setup, on_option, on_flag, send_number}
use so.Client.Send.{HasArg}

is_empty_str_lem : (s : List ℕ) → is_empty_str s ≡ true
unfolding is_empty_str
is_empty_str_lem [] = refl
is_empty_str_lem (c ∷ s) = is_empty_str_lem s

pub sends_nothing :
    (i : ℕ) (answers : ℕ → Answer) (w : BufWriter) (cmd : Command) (rest : List ℕ) (log : Log)
    → HasArg cmd
    → on_command i answers w cmd rest log ≡ done (reads_on, w, log)
unfolding on_command with_number
sends_nothing i answers w cmd rest log (inl e) = rw (e, is_empty_str_lem rest)
sends_nothing i answers w cmd rest log (inr (inl e)) = rw (e, is_empty_str_lem rest)
sends_nothing i answers w cmd rest log (inr (inr (inl e))) = rw (e, is_empty_str_lem rest)
sends_nothing i answers w cmd rest log (inr (inr (inr e))) = rw (e, is_empty_str_lem rest)

-- A line of the interactive client whose first word is taken for a command with an argument is
-- never sent, whatever follows the word: the writer and what was sent stay as they are, and the
-- client reads the next line.
pub on_line-sends_nothing :
    (line_addr : ℕ) (answers : ℕ → Answer) (w : BufWriter) (line : List ℕ) (log : Log)
    (cmd : Command)
    → find_cmd (split_word (skip_spaces line)).0 ≡ some cmd
    → HasArg cmd
    → 0 < length (split_word (skip_spaces line)).0
    → on_line line_addr answers w line log ≡ done (reads_on, w, log)
unfolding on_line on_word skip_spaces split_word
on_line-sends_nothing line_addr answers w [] log cmd found has word = absurd (omega arith)
on_line-sends_nothing line_addr answers w (c ∷ s) log cmd found has word =
    rw (ne→== (length (split_word (skip_spaces (c ∷ s))).0) 0 (omega arith), found)
      (sends_nothing _ answers w cmd _ log has)

-- The options with a number.
abbrev pub NumberFlag : ℕ → Type 0
NumberFlag flag = (flag ≡ b't') ⊎ ((flag ≡ b'm') ⊎ (flag ≡ b'i'))

unread_lem : (o : ParseSizeOutcome) → o ≢ ParseSizeOutcome.ok → is_read o ≡ false
unfolding is_read
unread_lem ParseSizeOutcome.ok h = absurd (h refl)
unread_lem ParseSizeOutcome.err_negative h = refl
unread_lem ParseSizeOutcome.err_inv_char h = refl
unread_lem ParseSizeOutcome.err_no_digits h = refl
unread_lem ParseSizeOutcome.err_out_of_range h = refl

-- An option with a number whose argument is not read as a size, or is missing, fails, and nothing
-- is sent.
pub on_option-refuses :
    (setup : Setup) (flag : ℕ) (more : List ℕ) (argument : Option (List ℕ))
    → NumberFlag flag
    → ((arg : List ℕ)
        → argument ≡ some arg
        → (parse_size arg 0 (some 0)).outcome ≢ ParseSizeOutcome.ok)
    → on_option setup (b'-' ∷ flag ∷ more) argument ≡ done (failure, [])
unfolding on_option on_flag send_number
on_option-refuses setup flag more none (inl e) unread = rw e
on_option-refuses setup flag more none (inr (inl e)) unread = rw e
on_option-refuses setup flag more none (inr (inr e)) unread = rw e
on_option-refuses setup flag more (some arg) (inl e) unread = rw (e, unread_lem _ (unread arg refl))
on_option-refuses setup flag more (some arg) (inr (inl e)) unread =
    rw (e, unread_lem _ (unread arg refl))
on_option-refuses setup flag more (some arg) (inr (inr e)) unread =
    rw (e, unread_lem _ (unread arg refl))
