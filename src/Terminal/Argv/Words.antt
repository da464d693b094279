-- ===== src/Terminal/Argv/Words.antt =====
-- `MakeArgv` of kernel/terminal.cpp against the words of a string.
use mikansaos.Base.{
  ℕ, zero, suc, ◌≤◌, ◌<◌, ◌≡◌, refl, ap, ◌∙◌, sym, ◌⊎◌, inl, inr, Bool-cases, true, false, List, [],
  ◌∷◌, if◌then◌else◌, length, Option, none, some, arith,
}
use mikansaos.ErrorCode.{Code, success, failed}
use mikansaos.Terminal.Argv.{
  Argv, isspace, skip_spaces, take_word, drop_word, push_to_argv, split_behind, split_word,
  split_loop, no_args, make_argv,
}

module _ (argv_len argbuf_len : ℕ) where
  -- The strings are pushed one after the other, up to the first error.
  unfoldable pub push_all : Argv → List (List ℕ) → Code × Argv
  push_all a [] = (success, a)
  push_all a (s ∷ ss) =
      let (err, b) = push_to_argv argv_len argbuf_len a s in
      let rest = push_all b ss in if failed err then (err, b) else rest

-- The words of a string, from its end on: what stands before its first space, and the words behind.
pub cons_word : List ℕ → List (List ℕ) → List (List ℕ)
cons_word [] ws = ws
cons_word (c ∷ w) ws = (c ∷ w) ∷ ws

pub split : List ℕ → List ℕ × List (List ℕ)
split [] = ([], [])
split (c ∷ cs) = let (w, ws) = split cs in if isspace c then ([], cons_word w ws) else (c ∷ w, ws)

pub words : List ℕ → List (List ℕ)
words cs = cons_word (split cs).0 (split cs).1

abbrev pub words_of : Option (List ℕ) → List (List ℕ)
words_of none = []
words_of (some p) = words p

skip_spaces-space : (c : ℕ) (cs : List ℕ) → isspace c ≡ true → skip_spaces (c ∷ cs) ≡ skip_spaces cs
unfolding skip_spaces
skip_spaces-space c cs e = rw e refl

skip_spaces-other : (c : ℕ) (cs : List ℕ) → isspace c ≡ false → skip_spaces (c ∷ cs) ≡ c ∷ cs
unfolding skip_spaces
skip_spaces-other c cs e = rw e refl

words-space : (c : ℕ) (cs : List ℕ) → isspace c ≡ true → words (c ∷ cs) ≡ words cs
unfolding words split cons_word
words-space c cs e = rw e refl

words-skip_spaces : (p : List ℕ) → words (skip_spaces p) ≡ words p
unfolding skip_spaces
words-skip_spaces [] = refl
words-skip_spaces (c ∷ cs) = elim (Bool-cases (isspace c)) [
  | inl space ↦
      ap words (skip_spaces-space c cs space) ∙ words-skip_spaces cs ∙ sym (words-space c cs space)
  | inr other ↦ ap words (skip_spaces-other c cs other)
]

-- Behind an argument: the end, or a space.
abbrev words_behind : List ℕ → List (List ℕ)
words_behind [] = []
words_behind (c ∷ cs) = words cs

split-word : (p : List ℕ) → split p ≡ (take_word p, words_behind (drop_word p))
unfolding split take_word drop_word words
split-word [] = refl
split-word (c ∷ cs) = elim (Bool-cases (isspace c)) [
  | inl space ↦ rw space refl
  | inr other ↦ rw other (rw (split-word cs) refl)
]

-- After the spaces there is the end, or the start of a word.
skip_spaces-cases :
    (p : List ℕ)
    → (skip_spaces p ≡ [])
      ⊎ ((c : ℕ) × (cs : List ℕ) × (skip_spaces p ≡ c ∷ cs) × (isspace c ≡ false))
unfolding skip_spaces
skip_spaces-cases [] = inl refl
skip_spaces-cases (c ∷ cs) = elim (Bool-cases (isspace c)) [
  | inl space ↦ rw (skip_spaces-space c cs space) (skip_spaces-cases cs)
  | inr other ↦ inr (c, cs, skip_spaces-other c cs other, other)
]

words-word :
    (c : ℕ) (cs : List ℕ)
    → isspace c ≡ false
    → words (c ∷ cs) ≡ take_word (c ∷ cs) ∷ words_behind (drop_word (c ∷ cs))
unfolding words take_word drop_word split cons_word
words-word c cs e = rw e (rw (split-word cs) refl)

drop_word-length : (p : List ℕ) → length (drop_word p) ≤ length p
unfolding drop_word
drop_word-length [] = omega arith
drop_word-length (c ∷ cs) = ground (arith, drop_word-length cs)

skip_spaces-length : (p : List ℕ) → length (skip_spaces p) ≤ length p
unfolding skip_spaces
skip_spaces-length [] = omega arith
skip_spaces-length (c ∷ cs) = ground (arith, skip_spaces-length cs)

module _ (argv_len argbuf_len : ℕ) where
  pub push_all-cons :
      (a : Argv) (s : List ℕ) (ss : List (List ℕ))
      → push_all argv_len argbuf_len a (s ∷ ss) ≡ (
          let (err, b) = push_to_argv argv_len argbuf_len a s in
          if failed err then (err, b) else push_all argv_len argbuf_len b ss)
  unfolding push_all
  push_all-cons a s ss = refl

  -- Pushing what the rest of a round pushes.
  split_behind-push_all :
      (go_on : Argv → List ℕ → Option (Code × Argv)) (b : Argv) (d : List ℕ)
      → ((r : List ℕ)
          → length r < length d
          → go_on b r ≡ some (push_all argv_len argbuf_len b (words r)))
      → split_behind argv_len argbuf_len go_on b d
        ≡ some (push_all argv_len argbuf_len b (words_behind d))
  unfolding split_behind push_all
  split_behind-push_all go_on b [] h = refl
  split_behind-push_all go_on b (c ∷ cs) h = h cs (omega arith)

  -- From any place on, the outer loop ends and pushes the words that are left.
  pub split_loop-push_all :
      (fuel : ℕ) (a : Argv) (p : List ℕ)
      → length p < fuel
      → split_loop argv_len argbuf_len fuel a p ≡ some (push_all argv_len argbuf_len a (words p))
  unfolding split_loop split_word push_all words cons_word split
  split_loop-push_all zero a p h = absurd (omega arith)
  split_loop-push_all (suc fuel) a p h = elim (skip_spaces-cases p) [
    | inl nothing ↦ rw nothing (
        ap (λ (ws : List (List ℕ)). some (push_all argv_len argbuf_len a ws))
          (ap words (sym nothing) ∙ words-skip_spaces p))
    | inr (c, cs, word, other) ↦
        let all : words p ≡ take_word (c ∷ cs) ∷ words_behind (drop_word (c ∷ cs)) =
          sym (words-skip_spaces p) ∙ ap words word ∙ words-word c cs other in
        let b = (push_to_argv argv_len argbuf_len a (take_word (c ∷ cs))).1 in
        let shorter : length (drop_word (c ∷ cs)) ≤ fuel =
          omega (arith, drop_word-length (c ∷ cs), skip_spaces-length p, ap length word) in
        let rest =
          split_behind-push_all (split_loop argv_len argbuf_len fuel) b (drop_word (c ∷ cs))
            (λ r l. split_loop-push_all fuel b r (omega arith)) in
        rw (word, all, push_all-cons a (take_word (c ∷ cs)) (words_behind (drop_word (c ∷ cs))))
          (elim (Bool-cases (failed (push_to_argv argv_len argbuf_len a (take_word (c ∷ cs))).0)) [
            | inl error ↦ rw error refl
            | inr pushed ↦ rw pushed rest
          ])
  ]

  -- `MakeArgv` ends, and pushes the command and then the words of the argument line up to the first
  -- error; as many rounds as the line has characters and one more are enough.
  pub make_argv-push_all :
      (fuel : ℕ) (command : List ℕ) (arg : Option (List ℕ)) (argbuf : ℕ → ℕ)
      → ((p : List ℕ) → arg ≡ some p → length p < fuel)
      → make_argv argv_len argbuf_len fuel command arg argbuf
        ≡ some (push_all argv_len argbuf_len (no_args argbuf) (command ∷ words_of arg))
  unfolding make_argv push_all
  make_argv-push_all fuel command none argbuf h =
      let start = no_args argbuf in
      rw (push_all-cons start command [])
        (elim (Bool-cases (failed (push_to_argv argv_len argbuf_len start command).0)) [
          | inl error ↦ rw error refl
          | inr pushed ↦ rw pushed refl
        ])
  make_argv-push_all fuel command (some p) argbuf h =
      let start = no_args argbuf in
      let b = (push_to_argv argv_len argbuf_len start command).1 in
      rw (push_all-cons start command (words p))
        (elim (Bool-cases (failed (push_to_argv argv_len argbuf_len start command).0)) [
          | inl error ↦ rw error refl
          | inr pushed ↦ rw pushed (split_loop-push_all fuel b p (h p refl))
        ])
