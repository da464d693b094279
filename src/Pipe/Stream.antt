-- ===== src/Pipe/Stream.antt =====
-- `PipeDescriptor` of kernel/terminal.cpp as a stream of bytes that may have an end.
use mikansaos.Base.{
  ℕ, zero, suc, ◌≤◌, ◌<◌, ◌≡◌, ◌≢◌, refl, ap, ◌∙◌, sym, inl, inr, Bool-cases, Bool, true, false,
  ◌||◌, List, [], ◌∷◌, ◌++◌, lt→ltb, ◌==◌, if◌then◌else◌, length, length-take, take-append-drop,
  take, drop, arith,
}
use mikansaos.Base.Slices.{append_nil, append_assoc}
use mikansaos.Message.{Message}
use mikansaos.Pipe.{
  PipeDescriptor, Result, returned, asleep, is_pipe, carried, take_message, read_message, read,
}

-- The bytes of the pipe's messages, up to the one without any.
abbrev pub carried_by : List ℕ → List ℕ → List ℕ
carried_by [] rest = []
carried_by (b ∷ bytes) rest = b ∷ bytes ++ rest

unfoldable pub incoming : List Message → List ℕ
incoming [] = []
incoming (msg ∷ msgs) =
    let rest = incoming msgs in if is_pipe msg.type then carried_by (carried msg.arg) rest else rest

-- Whether there is a message of the pipe without bytes.
abbrev pub ends_or : List ℕ → Bool → Bool
ends_or [] rest = true
ends_or (b ∷ bytes) rest = rest

unfoldable pub has_end : List Message → Bool
has_end [] = false
has_end (msg ∷ msgs) =
    let rest = has_end msgs in if is_pipe msg.type then ends_or (carried msg.arg) rest else rest

-- What is still to be read, and whether the stream has its end.
unfoldable pub stream : PipeDescriptor → List Message → List ℕ
stream p msgs = p.bytes ++ (if p.closed then [] else incoming msgs)

unfoldable pub ended : PipeDescriptor → List Message → Bool
ended p msgs = p.closed || has_end msgs

-- A call of `Read` takes a piece off the stream, an empty one only at the end; and it sleeps only where
-- nothing is left and the end has not come.
unfoldable pub TakesFrom : ℕ → List ℕ → Bool → Result → Type 0
TakesFrom len bytes end (returned at_buf p msgs) =
    (at_buf ++ stream p msgs ≡ bytes)
    × (length at_buf ≤ len)
    × (at_buf ≡ [] → (bytes ≡ []) × (end ≡ true))
    × (ended p msgs ≡ end)
TakesFrom len bytes end (asleep p) = (bytes ≡ []) × (end ≡ false)

take-nonempty : (b : ℕ) (bs : List ℕ) (len : ℕ) → 0 < len → take len (b ∷ bs) ≢ []
take-nonempty b bs zero h = λ e. omega arith
take-nonempty b bs (suc len) h = λ e. cc

split-take : (len : ℕ) (bs rest : List ℕ) → take len bs ++ (drop len bs ++ rest) ≡ bs ++ rest
split-take len bs rest =
    sym (append_assoc (take len bs) (drop len bs) rest)
    ∙ ap (λ (xs : List ℕ). xs ++ rest) (take-append-drop len bs)

positive : (n : ℕ) → (suc n == 0) ≡ false
positive n = ground arith

take_message-TakesFrom :
    (p : PipeDescriptor) (len : ℕ) (bytes : List ℕ) (msgs : List Message)
    → 0 < len
    → p.bytes ≡ []
    → p.closed ≡ false
    → TakesFrom len
        (carried_by bytes (incoming msgs))
        (ends_or bytes (has_end msgs))
        (take_message p len bytes msgs)
unfolding TakesFrom take_message stream ended
take_message-TakesFrom p len [] msgs h none_left unclosed =
    (append_nil p.bytes ∙ none_left, omega arith, λ e. (refl, refl), refl)
take_message-TakesFrom p len (b ∷ bs) msgs h none_left unclosed =
    rw (unclosed, positive (length bs))
      (
        split-take len (b ∷ bs) (incoming msgs),
        omega (arith, length-take len (b ∷ bs)),
        λ e. absurd (take-nonempty b bs len h e),
        refl,
      )

read_message-TakesFrom :
    (msgs : List Message) (p : PipeDescriptor) (len : ℕ)
    → 0 < len
    → p.bytes ≡ []
    → p.closed ≡ false
    → TakesFrom len (incoming msgs) (has_end msgs) (read_message p len msgs)
unfolding TakesFrom read_message incoming has_end
read_message-TakesFrom [] p len h none_left unclosed = (refl, refl)
read_message-TakesFrom (msg ∷ msgs) p len h none_left unclosed =
    elim (Bool-cases (is_pipe msg.type)) [
      | inl ours ↦
          rw ours (take_message-TakesFrom p len (carried msg.arg) msgs h none_left unclosed)
      | inr other ↦ rw other (read_message-TakesFrom msgs p len h none_left unclosed)
    ]

read-left :
    (b : ℕ) (bs : List ℕ) (closed : Bool) (len : ℕ) (msgs : List Message)
    → read (record { bytes = b ∷ bs; closed = closed }) len msgs
      ≡ returned (take len (b ∷ bs)) (record { bytes = drop len (b ∷ bs); closed = closed }) msgs
unfolding read
read-left b bs closed len msgs = rw (lt→ltb 0 (suc (length bs)) (omega arith)) refl

read-parts :
    (bytes : List ℕ) (closed : Bool) (len : ℕ) (msgs : List Message)
    → 0 < len
    → (let p : PipeDescriptor = record { bytes = bytes; closed = closed } in
        TakesFrom len (stream p msgs) (ended p msgs) (read p len msgs))
unfolding TakesFrom read stream ended
read-parts (b ∷ bs) closed len msgs h = rw (read-left b bs closed len msgs) (
  split-take len (b ∷ bs) (if closed then [] else incoming msgs),
  omega (arith, length-take len (b ∷ bs)),
  λ e. absurd (take-nonempty b bs len h e),
  refl,
)
read-parts [] true len msgs h = (refl, omega arith, λ e. (refl, refl), refl)
read-parts [] false len msgs h =
    read_message-TakesFrom msgs (record { bytes = []; closed = false }) len h refl refl

-- `Read` of at least one byte takes a piece of at most that length off the front of the stream, which
-- is what the pipe holds and what its messages bring up to the end of the writing. It returns nothing
-- only at that end, and sleeps only where nothing is left and the end has not come.
pub read-TakesFrom :
    (p : PipeDescriptor) (len : ℕ) (msgs : List Message)
    → 0 < len
    → TakesFrom len (stream p msgs) (ended p msgs) (read p len msgs)
read-TakesFrom p len msgs h = read-parts p.bytes p.closed len msgs h
