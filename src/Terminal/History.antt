-- ===== src/Terminal/History.antt =====
-- The history of commands in `InputKey` and `HistoryUpDown` of kernel/terminal.cpp.
use mikansaos.Base.{
  ℕ, zero, suc, ◌<◌, ◌≡◌, ◌≢◌, refl, ap, ◌∙◌, inl, inr, Bool-cases, List, [], ◌∷◌, ltb, lt→ltb,
  length, length-set, set, take, arith,
}
use mikansaos.Base.Int.{pos, negsuc, ◌+ℤ◌}
use mikansaos.Terminal.{
  Terminal, strlen, strcpy, end_line, newline, prompt, print_char, print_shown, put_glyph,
  request_draw, input_key, history_up_down, step_history, history_line, pop_back,
}
use mikansaos.Terminal.Strings.{take-strcpy}
use mikansaos.Terminal.Editing.{line}

-- Characters that are typed are not the terminator.
unfoldable pub NoZero : List ℕ → Type 0
NoZero [] = Unit
NoZero (c ∷ cs) = (c ≢ 0) × NoZero cs

strlen-ended : (cs : List ℕ) (i : ℕ) → i < length cs → NoZero (take i cs) → strlen (set cs i 0) ≡ i
unfolding strlen NoZero
strlen-ended [] i h z = absurd (omega arith)
strlen-ended (c ∷ cs) zero h z = refl
strlen-ended (c ∷ cs) (suc i) h z = ground (arith, strlen-ended cs i (omega arith) z.1, z.0)

take-set : (cs : List ℕ) (i v : ℕ) → take i (set cs i v) ≡ take i cs
take-set [] i v = refl
take-set (c ∷ cs) zero v = refl
take-set (c ∷ cs) (suc i) v = ap (c ∷◌) (take-set cs i v)

-- What the history and the line have in common for a recall.
pub record Recalls (t : Terminal) (entry : List ℕ) : Type 0 where
  pub index : t.cmd_history_index ≡ negsuc 0
  pub rest : List (List ℕ)
  pub history : t.cmd_history ≡ entry ∷ rest
  pub size : length t.linebuf ≡ length entry

end_line-Recalls :
    (t : Terminal) → 0 < t.linebuf_index → Recalls (end_line t) (set t.linebuf t.linebuf_index 0)
unfolding end_line
end_line-Recalls t h = record {
  index = refl;
  rest = pop_back t.cmd_history;
  history = rw (lt→ltb 0 t.linebuf_index h) refl;
  size = refl;
}

newline-Recalls : (t : Terminal) (e : List ℕ) → Recalls t e → Recalls (newline t) e
unfolding newline
newline-Recalls t e r = elim (Bool-cases (ltb t.cursor_y 17)) [
  | inl b ↦ rw b (record { index = r.index; rest = r.rest; history = r.history; size = r.size })
  | inr b ↦ rw b (record { index = r.index; rest = r.rest; history = r.history; size = r.size })
]

prompt-Recalls : (t : Terminal) (e : List ℕ) → Recalls t e → Recalls (prompt t) e
unfolding prompt request_draw print_char print_shown put_glyph newline
prompt-Recalls t e r = record {
  index = ground (arith, r.index);
  rest = r.rest;
  history = ground (arith, r.history);
  size = ground (arith, r.size);
}

first_entry : (n : ℕ) → step_history (negsuc 0) (suc n) (pos 1) ≡ pos 0
unfolding step_history ◌+ℤ◌
first_entry n = ground arith

-- The entry that the first step upwards takes.
abbrev above : Terminal → List ℕ
above t =
    history_line t.cmd_history (step_history t.cmd_history_index (length t.cmd_history) (pos 1))

above-Recalls : (t : Terminal) (e : List ℕ) → Recalls t e → above t ≡ e
above-Recalls t e r =
    rw (r.index, r.history) (ap (history_line (e ∷ r.rest)) (first_entry (length r.rest)))

history_up-line :
    (t : Terminal)
    → line (history_up_down t (pos 1)).0 ≡ take (strlen (above t)) (strcpy t.linebuf (above t))
unfolding history_up_down
history_up-line t = refl

history_up-Recalls :
    (t : Terminal) (e : List ℕ)
    → Recalls t e
    → strlen e < length e
    → line (history_up_down t (pos 1)).0 ≡ take (strlen e) e
history_up-Recalls t e r h =
    history_up-line t
    ∙ ap (λ (x : List ℕ). take (strlen x) (strcpy t.linebuf x)) (above-Recalls t e r)
    ∙ take-strcpy t.linebuf e h (omega (arith, r.size))

-- What `ExecuteLine` must leave: the history, the place in it and the size of the line's array.
abbrev pub LeavesHistory : (Terminal → Terminal) → Type 0
LeavesHistory f = (t : Terminal) (e : List ℕ) → Recalls t e → Recalls (f t) e

input_key-enter :
    (execute_line : Terminal → Terminal) (t : Terminal)
    → (input_key execute_line t 40 10).0 ≡ prompt (execute_line (newline (end_line t)))
unfolding input_key
input_key-enter execute_line t = refl

input_key-up :
    (execute_line : Terminal → Terminal) (t : Terminal)
    → (input_key execute_line t 82 0).0 ≡ (history_up_down t (pos 1)).0
unfolding input_key
input_key-up execute_line t = refl

-- A line that is not empty and has no byte 0 comes back by the up arrow right after it was entered,
-- provided that its execution leaves the history and the place in it.
pub input_key-recall :
    (execute_line : Terminal → Terminal) (t : Terminal)
    → LeavesHistory execute_line
    → 0 < t.linebuf_index
    → t.linebuf_index < length t.linebuf
    → NoZero (line t)
    → line (input_key execute_line (input_key execute_line t 40 10).0 82 0).0 ≡ line t
input_key-recall execute_line t leaves h k z =
    let entry = set t.linebuf t.linebuf_index 0 in
    let entered = prompt (execute_line (newline (end_line t))) in
    let ends : strlen entry ≡ t.linebuf_index = strlen-ended t.linebuf t.linebuf_index k z in
    let recalls : Recalls entered entry =
      prompt-Recalls (execute_line (newline (end_line t))) entry (
        leaves (newline (end_line t)) entry
          (newline-Recalls (end_line t) entry (end_line-Recalls t h))) in
    rw (input_key-enter execute_line t, input_key-up execute_line entered)
      (history_up-Recalls entered entry recalls
          (omega (arith, ends, length-set t.linebuf t.linebuf_index 0))
        ∙ ap (λ (i : ℕ). take i entry) ends
        ∙ take-set t.linebuf t.linebuf_index 0)
