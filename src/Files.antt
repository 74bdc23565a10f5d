-- ===== src/Files.antt =====
-- What the system calls `write` and `writev` do, seen from the program: each call has an answer, and
-- the bytes that were taken stand in a log.
use so.Base.{
  ℕ, ◌≤◌, ◌≡◌, refl, sym, ap, ◌∙◌, ◌⊎◌, inl, inr, Option, none, some, List, [], ◌∷◌, ◌++◌,
  append_assoc, append-nil, ◌==◌, if◌then◌else◌, eq→==, Bool-cases, take,
}

-- -1, or the number of bytes that the call takes, if there are so many.
abbrev pub Answer : Type 0
Answer = Option ℕ

-- The successful calls, oldest first: the descriptor and the bytes taken.
abbrev pub Log : Type 0
Log = List (ℕ × List ℕ)

-- The log behind the call; nothing when the result is -1.
abbrev pub sys_write : Answer → ℕ → List ℕ → Log → Option Log
sys_write none fd bytes log = none
sys_write (some k) fd bytes log = some (log ++ (fd, take k bytes) ∷ [])

-- All bytes that a descriptor was given.
abbrev pub sent : ℕ → Log → List ℕ
sent fd [] = []
sent fd ((d, bytes) ∷ log) = if d == fd then bytes ++ sent fd log else sent fd log

-- The answer is -1, or a call of at most so many bytes takes them all.
abbrev pub Whole : ℕ → Answer → Type 0
Whole n ans = (ans ≡ none) ⊎ ((k : ℕ) × (ans ≡ some k) × (n ≤ k))

pub sent-append :
    (fd : ℕ) (log : Log) (bytes : List ℕ) → sent fd (log ++ (fd, bytes) ∷ []) ≡ sent fd log ++ bytes
sent-append fd [] bytes = rw (eq→== fd fd refl) (append-nil bytes)
sent-append fd ((d, bs) ∷ log) bytes = elim (Bool-cases (d == fd)) [
  | inl same ↦
      rw same
        (ap (λ zs. bs ++ zs) (sent-append fd log bytes) ∙ sym (append_assoc bs (sent fd log) bytes))
  | inr other ↦ rw other (sent-append fd log bytes)
]
