-- ===== src/Client/Names.antt =====
-- The names of the commands in the interactive client (`find_cmd` of src/client.c).
use so.Base.{
  ℕ, ◌≡◌, refl, sym, ap, ◌∙◌, ◌≢◌, ◌⊎◌, inl, inr, true, false, Option, none, some, List, [], ◌∷◌,
  ◌++◌, ◌==◌, eq→==, ==_iff, Bool-cases, length, All,
}
use so.Client.{Command, strncmp_zero, cmd_name, commands, find_among, find_cmd}

-- The name of the command begins with the word.
abbrev pub Names : List ℕ → Command → Type 0
Names word cmd = (rest : List ℕ) × (cmd_name cmd ≡ word ++ rest)

strncmp_prefix :
    (s t : List ℕ)
    → All (λ c. c ≢ 0) s
    → strncmp_zero s t (length s) ≡ true
    → (rest : List ℕ) × (t ≡ s ++ rest)
unfolding strncmp_zero
strncmp_prefix [] t clean h = (t, refl)
strncmp_prefix (a ∷ s) [] (a_clean, clean) h = absurd (a_clean ((==_iff a 0).0 h))
strncmp_prefix (a ∷ s) (b ∷ t) (a_clean, clean) h = elim (Bool-cases (a == b)) [
  | inl same ↦
      let (rest, e) = strncmp_prefix s t clean (rw same at h) in
      let one : a ≡ b = (==_iff a b).0 same in
      (rest, ap (λ x. x ∷ t) (sym one) ∙ ap (λ zs. a ∷ zs) e)
  | inr other ↦ let never : false ≡ true = rw other at h in absurd cc
]

prefix_strncmp : (s rest : List ℕ) → strncmp_zero s (s ++ rest) (length s) ≡ true
unfolding strncmp_zero
prefix_strncmp [] rest = refl
prefix_strncmp (a ∷ s) rest = rw (eq→== a a refl, prefix_strncmp s rest)

-- The first command among some whose name begins with the word, or nothing when no name does.
abbrev pub FindsAmong : List Command → List ℕ → Option Command → Type 0
FindsAmong cmds word r =
    ((r ≡ none) × All (λ cmd. ¬ Names word cmd) cmds)
    ⊎ ((before : List Command) × (cmd : Command) × (after : List Command) × (cmds
          ≡ before ++ cmd ∷ after)
        × (r ≡ some cmd)
        × Names word cmd
        × All (λ other. ¬ Names word other) before)

find_among_lem :
    (cmds : List Command) (word : List ℕ)
    → All (λ c. c ≢ 0) word
    → FindsAmong cmds word (find_among cmds word)
unfolding find_among
find_among_lem [] word clean = inl (refl, tt)
find_among_lem (cmd ∷ cmds) word clean =
    elim (Bool-cases (strncmp_zero word (cmd_name cmd) (length word))) [
      | inl hit ↦
          rw hit (inr ([], cmd, cmds, refl, refl, strncmp_prefix word (cmd_name cmd) clean hit, tt))
      | inr miss ↦
          rw miss (later (find_among cmds word) (find_among_lem cmds word clean) (named miss))
    ]
  where
    named : strncmp_zero word (cmd_name cmd) (length word) ≡ false → ¬ Names word cmd
    named miss (rest, e) =
        let never : false ≡ true =
          sym miss ∙ ap (λ t. strncmp_zero word t (length word)) e ∙ prefix_strncmp word rest in
        absurd cc

    later :
        (r : Option Command)
        → FindsAmong cmds word r
        → ¬ Names word cmd
        → FindsAmong (cmd ∷ cmds) word r
    later r (inl (e, others)) other = inl (e, (other, others))
    later r (inr (before, c, after, e, found, names, others)) other =
        inr (cmd ∷ before, c, after, ap (λ zs. cmd ∷ zs) e, found, names, (other, others))

-- A word without a NUL is taken by find_cmd for the first command whose name begins with it, in
-- the order in which they are tried, and is unknown just when no name begins with it.
pub find_cmd_lem :
    (word : List ℕ) → All (λ c. c ≢ 0) word → FindsAmong commands word (find_cmd word)
unfolding find_cmd
find_cmd_lem word clean = find_among_lem commands word clean
