-- ===== src/Pipe/RoundTrip.antt =====
-- What is written into the pipe of kernel/terminal.cpp is what is read.
use mikansaos.Base.{
  ℕ, zero, suc, ◌≤◌, ◌<◌, ◌≡◌, refl, ap, ◌∙◌, sym, true, List, [], ◌∷◌, ◌++◌, lt→ltb, length,
  length-drop, length-append, take-append-drop, take, drop, Option, none, some, arith,
}
use native.Mathlib.Nat.{le_refl}
use mikansaos.Base.Slices.{append_assoc}
use mikansaos.Message.{Message}
use mikansaos.Pipe.{
  PipeDescriptor, new_pipe, Result, returned, asleep, read, pipe_message, write_loop, write,
  finish_write, data_size,
}
use mikansaos.Pipe.Stream.{incoming, has_end, stream, ended, TakesFrom, read-TakesFrom}

-- Calls of `Read` with the same length until one returns nothing, and all bytes that they return.
abbrev prepend : List ℕ → Option (List ℕ) → Option (List ℕ)
prepend bytes none = none
prepend bytes (some rest) = some (bytes ++ rest)

abbrev go_on : (PipeDescriptor → List Message → Option (List ℕ)) → Result → Option (List ℕ)
go_on next (asleep p) = none
go_on next (returned [] p msgs) = some []
go_on next (returned (b ∷ bytes) p msgs) = prepend (b ∷ bytes) (next p msgs)

pub read_all : ℕ → ℕ → PipeDescriptor → List Message → Option (List ℕ)
read_all len zero p msgs = none
read_all len (suc fuel) p msgs = go_on (read_all len fuel) (read p len msgs)

-- The messages of several writes.
pub write_all : List (List ℕ) → List Message
write_all [] = []
write_all (buf ∷ bufs) = (write buf).0 ++ write_all bufs

unfoldable pub concat : List (List ℕ) → List ℕ
concat [] = []
concat (buf ∷ bufs) = buf ++ concat bufs

-- One call, where the later ones get the rest of the stream.
read_all-piece :
    (next : PipeDescriptor → List Message → Option (List ℕ)) (bytes : List ℕ) (len : ℕ) (r : Result)
    → TakesFrom len bytes true r
    → ((q : PipeDescriptor) (rest : List Message)
        → ended q rest ≡ true
        → length (stream q rest) < length bytes
        → next q rest ≡ some (stream q rest))
    → go_on next r ≡ some bytes
unfolding TakesFrom
read_all-piece next bytes len (asleep q) t h = absurd (ground (arith, t.1))
read_all-piece next bytes len (returned [] q rest) t h = ap some (sym (t.2 refl).0)
read_all-piece next bytes len (returned (b ∷ bs) q rest) t h =
    let shorter : length (stream q rest) < length bytes =
      omega (arith, ap length t.0, length-append (b ∷ bs) (stream q rest)) in
    ap (prepend (b ∷ bs)) (h q rest t.3 shorter) ∙ ap some t.0

read_all-stream :
    (fuel len : ℕ) (p : PipeDescriptor) (msgs : List Message)
    → 0 < len
    → ended p msgs ≡ true
    → length (stream p msgs) < fuel
    → read_all len fuel p msgs ≡ some (stream p msgs)
unfolding read_all
read_all-stream zero len p msgs h e k = absurd (omega arith)
read_all-stream (suc fuel) len p msgs h e k =
    let taken : TakesFrom len (stream p msgs) true (read p len msgs) =
      rw⁻¹ e (read-TakesFrom p len msgs h) in
    read_all-piece (read_all len fuel) (stream p msgs) len (read p len msgs) taken
      (λ q rest f l. read_all-stream fuel len q rest h f (omega arith))

write_loop-step :
    (fuel b : ℕ) (bs : List ℕ)
    → write_loop (suc fuel) (b ∷ bs)
      ≡ pipe_message (take data_size (b ∷ bs)) ∷ write_loop fuel (drop data_size (b ∷ bs))
unfolding write_loop
write_loop-step fuel b bs = rw (lt→ltb 0 (suc (length bs)) (omega arith)) refl

take-full : (xs : List ℕ) → take (length xs) xs ≡ xs
take-full [] = refl
take-full (x ∷ xs) = ap (x ∷◌) (take-full xs)

incoming-message :
    (b : ℕ) (bs : List ℕ) (rest : List Message)
    → incoming (pipe_message (b ∷ bs) ∷ rest) ≡ b ∷ bs ++ incoming rest
unfolding incoming pipe_message
incoming-message b bs rest = rw (take-full bs) refl

has_end-message :
    (b : ℕ) (bs : List ℕ) (rest : List Message)
    → has_end (pipe_message (b ∷ bs) ∷ rest) ≡ has_end rest
unfolding has_end pipe_message
has_end-message b bs rest = refl

write_loop-incoming :
    (fuel : ℕ) (buf : List ℕ) (rest : List Message)
    → length buf ≤ fuel
    → (incoming (write_loop fuel buf ++ rest) ≡ buf ++ incoming rest)
      × (has_end (write_loop fuel buf ++ rest) ≡ has_end rest)
unfolding write_loop
write_loop-incoming zero [] rest h = (refl, refl)
write_loop-incoming zero (b ∷ bs) rest h = absurd (omega arith)
write_loop-incoming (suc fuel) [] rest h = (refl, refl)
write_loop-incoming (suc fuel) (b ∷ bs) rest h =
    let later =
      write_loop-incoming fuel (drop data_size (b ∷ bs)) rest (omega (arith, length-drop 15 bs)) in
    rw (write_loop-step fuel b bs) (
      incoming-message b (take 15 bs) (write_loop fuel (drop data_size (b ∷ bs)) ++ rest)
          ∙ ap (λ (xs : List ℕ). take data_size (b ∷ bs) ++ xs) later.0
          ∙ sym (append_assoc (take data_size (b ∷ bs)) (drop data_size (b ∷ bs)) (incoming rest))
          ∙ ap (λ (xs : List ℕ). xs ++ incoming rest) (take-append-drop data_size (b ∷ bs)),
      has_end-message b (take 15 bs) (write_loop fuel (drop data_size (b ∷ bs)) ++ rest) ∙ later.1,
    )

pub write_all-incoming :
    (bufs : List (List ℕ))
    → (incoming (write_all bufs ++ finish_write ∷ []) ≡ concat bufs)
      × (has_end (write_all bufs ++ finish_write ∷ []) ≡ true)
unfolding write_all concat write finish_write pipe_message incoming has_end
write_all-incoming [] = (refl, refl)
write_all-incoming (buf ∷ bufs) =
    let rest = write_all bufs ++ finish_write ∷ [] in
    let one = write_loop-incoming (length buf) buf rest (le_refl _) in
    let later = write_all-incoming bufs in
    rw (append_assoc (write_loop (length buf) buf) (write_all bufs) (finish_write ∷ []))
      (one.0 ∙ ap (λ (xs : List ℕ). buf ++ xs) later.0, one.1 ∙ later.1)

-- What several calls of `Write` put into a new pipe, with `FinishWrite` behind them, is what calls of
-- `Read` with a positive length get in all, in the same order, until one of them returns nothing; as
-- many calls as there are bytes and one more are enough.
pub read_all-write_all :
    (bufs : List (List ℕ)) (len fuel : ℕ)
    → 0 < len
    → length (concat bufs) < fuel
    → read_all len fuel new_pipe (write_all bufs ++ finish_write ∷ []) ≡ some (concat bufs)
unfolding stream ended
read_all-write_all bufs len fuel h k =
    let msgs = write_all bufs ++ finish_write ∷ [] in
    let all = write_all-incoming bufs in
    read_all-stream fuel len new_pipe msgs h all.1 (omega (arith, k, ap length all.0))
    ∙ ap some all.0
