-- ===== src/Terminal/Argv.antt =====
-- `MakeArgv` of kernel/terminal.cpp: a command and its arguments, split at the spaces. A string is the
-- list of its characters without the terminator; a pointer into the buffer is its offset.
pub mod Words
pub mod Pointers
use mikansaos.Base.{
  ℕ, zero, suc, ◌+◌, ◌-◌, ◌≤◌, ◌<◌, ◌≡◌, refl, ap, ◌∙◌, sym, ◌⊎◌, inl, inr, Bool-cases, Bool, true,
  false, ◌&&◌, ◌||◌, List, [], ◌∷◌, ◌++◌, ltb, leb, ◌==◌, if◌then◌else◌, length, Option, none, some,
  arith,
}
use mikansaos.Base.Maps.{update, update_self, update_ne}
use mikansaos.ErrorCode.{Code, success, full, failed}

pub record Argv : Type 0 where
  pub argc : ℕ
  pub argv : List ℕ
  pub argbuf : ℕ → ℕ
  pub argbuf_index : ℕ

-- `strcpy` into the buffer, the terminator included.
pub copy_string : (ℕ → ℕ) → ℕ → List ℕ → ℕ → ℕ
copy_string buf i [] = update buf i 0
copy_string buf i (c ∷ cs) = copy_string (update buf i c) (i + 1) cs

-- `isspace` in the C locale.
pub isspace : ℕ → Bool
isspace c = c == 32 || leb 9 c && leb c 13

-- The first inner loop.
pub skip_spaces : List ℕ → List ℕ
skip_spaces [] = []
skip_spaces (c ∷ cs) = let rest = skip_spaces cs in if isspace c then rest else c ∷ cs

-- The second inner loop: the argument and what stands behind it.
pub take_word : List ℕ → List ℕ
take_word [] = []
take_word (c ∷ cs) = if isspace c then [] else c ∷ take_word cs

pub drop_word : List ℕ → List ℕ
drop_word [] = []
drop_word (c ∷ cs) = let rest = drop_word cs in if isspace c then c ∷ cs else rest

abbrev pub no_args : (ℕ → ℕ) → Argv
no_args argbuf = record { argc = 0; argv = []; argbuf = argbuf; argbuf_index = 0 }

module _ (argv_len argbuf_len : ℕ) where
  -- The lambda `push_to_argv`.
  pub push_to_argv : Argv → List ℕ → Code × Argv
  push_to_argv a s = if leb argv_len a.argc || leb argbuf_len a.argbuf_index then (full, a) else (
    success,
    record {
      argc = a.argc + 1;
      argv = a.argv ++ a.argbuf_index ∷ [];
      argbuf = copy_string a.argbuf a.argbuf_index s;
      argbuf_index = a.argbuf_index + (length s + 1);
    },
  )

  -- The rest of a round of the outer loop, where `go_on` is the next round: from the end of an
  -- argument, and from the start of one.
  pub split_behind : (Argv → List ℕ → Option (Code × Argv)) → Argv → List ℕ → Option (Code × Argv)
  split_behind go_on a [] = some (success, a)
  split_behind go_on a (c ∷ cs) = go_on a cs

  pub split_word : (Argv → List ℕ → Option (Code × Argv)) → Argv → List ℕ → Option (Code × Argv)
  split_word go_on a [] = some (success, a)
  split_word go_on a (c ∷ cs) =
      let (err, b) = push_to_argv a (take_word (c ∷ cs)) in
      if failed err then some (err, b) else split_behind go_on b (drop_word (c ∷ cs))

  -- The outer loop, from `p` on.
  pub split_loop : ℕ → Argv → List ℕ → Option (Code × Argv)
  split_loop zero a p = none
  split_loop (suc fuel) a p = split_word (split_loop fuel) a (skip_spaces p)

  -- `MakeArgv`; `arg` is null where the command stands alone.
  pub make_argv : ℕ → List ℕ → Option (List ℕ) → (ℕ → ℕ) → Option (Code × Argv)
  make_argv fuel command arg argbuf =
      let (err, a) = push_to_argv (no_args argbuf) command in
      if failed err
      then some (err, a)
      else elim arg [ none ↦ some (success, a) | some p ↦ split_loop fuel a p ]
