-- ===== src/Terminal/Tests.antt =====
-- Inputs for the theorems on kernel/terminal.cpp.
use mikansaos.Base.{
  ℕ, ◌≡◌, refl, ap, ◌∙◌, inl, true, false, [], ◌∷◌, length, get_or, replicate, some, none, arith,
}
use mikansaos.Base.Int.{negsuc}
use mikansaos.ErrorCode.{Code, failed}
use mikansaos.Font.Encode.{Holds}
use mikansaos.Terminal.{Terminal, newline, input_key, print_loop, strlen}
use mikansaos.Terminal.Cells.{Inv, AllInside, AllShort, newline-Inv, newline-index}
use mikansaos.Terminal.Keys.{input_key-Inv}
use mikansaos.Terminal.Printing.{
  AllCharacters, encode_all, print_all, print_loop-encode_all, print_loop-never_ends,
}
use mikansaos.Terminal.Editing.{
  AtPrompt, line, type_keys, edited_by, edited, AllEditing, type_keys-line,
}
use mikansaos.Terminal.History.{NoZero, input_key-recall}
use mikansaos.Terminal.Argv.{Argv, make_argv}
use mikansaos.Terminal.Argv.Words.{words_of}
use mikansaos.Terminal.Argv.Pointers.{Points, make_argv-Points}

-- Behind the first prompt.
abbrev ready : Terminal
ready = record {
  task_id = 3;
  layer_id = 4;
  show_window = true;
  cursor_x = 1;
  cursor_y = 0;
  cursor_visible = false;
  linebuf_index = 0;
  linebuf = replicate 128 0;
  cmd_history = replicate 8 (replicate 128 0);
  cmd_history_index = negsuc 0;
  drawn = [];
  sent = [];
}

ready-Inv : Inv ready
unfolding AllShort AllInside strlen
ready-Inv = record {
  column = omega arith;
  row = omega arith;
  index_column = omega arith;
  index = omega arith;
  size = refl;
  short = (
    omega arith,
    (
      omega arith,
      (omega arith, (omega arith, (omega arith, (omega arith, (omega arith, (omega arith, tt)))))),
    ),
  );
  inside = tt;
}

input_key-Inv_example : Inv (input_key newline ready 4 97).0
input_key-Inv_example =
    input_key-Inv newline ready 4 97 (λ t i e. (newline-Inv t i e, newline-index t ∙ e)) ready-Inv

ready-AtPrompt : AtPrompt ready
ready-AtPrompt = record { column = refl; within = omega arith; size = refl }

-- "ab", a backspace, "c".
type_keys-line_example :
    AtPrompt (type_keys newline ready (97 ∷ 98 ∷ 8 ∷ 99 ∷ []))
    × (line (type_keys newline ready (97 ∷ 98 ∷ 8 ∷ 99 ∷ []))
        ≡ edited_by (line ready) (97 ∷ 98 ∷ 8 ∷ 99 ∷ []))
unfolding AllEditing
type_keys-line_example = type_keys-line newline (97 ∷ 98 ∷ 8 ∷ 99 ∷ []) ready ready-AtPrompt (
  λ e. omega arith,
  λ e. omega arith,
  (
    λ e. omega arith,
    λ e. omega arith,
    (λ e. omega arith, λ e. omega arith, (λ e. omega arith, λ e. omega arith, tt)),
  ),
)

edited_by_ac : edited_by [] (97 ∷ 98 ∷ 8 ∷ 99 ∷ []) ≡ 97 ∷ 99 ∷ []
unfolding edited_by edited
edited_by_ac = refl

-- After "ls".
abbrev typed : Terminal
typed = record ready { cursor_x = 3; linebuf_index = 2; linebuf = 108 ∷ 115 ∷ replicate 126 0 }

input_key-recall_example :
    line (input_key (λ t. t) (input_key (λ t. t) typed 40 10).0 82 0).0 ≡ line typed
unfolding NoZero
input_key-recall_example =
    input_key-recall (λ t. t) typed (λ t e r. r) (omega arith) (omega arith)
      (λ e. omega arith, (λ e. omega arith, tt))

-- "hé" and the byte 0.
abbrev text_bytes : ℕ → ℕ
text_bytes i = get_or (104 ∷ 195 ∷ 169 ∷ []) i 0

print_loop-encode_all_example :
    print_loop 3 ready text_bytes 0 100 ≡ some (print_all ready (104 ∷ 233 ∷ []))
unfolding AllCharacters encode_all Holds
print_loop-encode_all_example =
    print_loop-encode_all (104 ∷ 233 ∷ []) 3 ready text_bytes 0 100
      (omega arith, omega arith, (omega arith, omega arith, tt))
      (λ i h. ap text_bytes (omega arith)) (omega arith) (inl refl) (omega arith)

print_loop-never_ends_example : print_loop 50 ready (λ i. 128) 0 1 ≡ none
print_loop-never_ends_example =
    print_loop-never_ends 50 ready (λ i. 128) 0 1 (omega arith) (omega arith) (omega arith)

-- "ls" with " a  b".
make_argv-Points_example :
    (r : Code × Argv) × (make_argv 32 100 6
        (108 ∷ 115 ∷ [])
        (some (32 ∷ 97 ∷ 32 ∷ 32 ∷ 98 ∷ []))
        (λ i. 0)
      ≡ some r)
    × (failed r.0 ≡ false
        → Points r.1.argbuf r.1.argbuf_index r.1.argv
            ((108 ∷ 115 ∷ []) ∷ words_of (some (32 ∷ 97 ∷ 32 ∷ 32 ∷ 98 ∷ [])))
          × (r.1.argc ≡ length r.1.argv))
make_argv-Points_example =
    make_argv-Points 32 100 6 (108 ∷ 115 ∷ []) (some (32 ∷ 97 ∷ 32 ∷ 32 ∷ 98 ∷ [])) (λ i. 0)
      (λ p e. ground (arith, e))
