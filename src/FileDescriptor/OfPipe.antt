-- ===== src/FileDescriptor/OfPipe.antt =====
-- The pipe of kernel/terminal.cpp as a descriptor that `ReadDelim` of kernel/file.cpp reads from.
use mikansaos.Base.{
  ℕ, ◌-◌, ◌^◌, ◌<◌, ◌≡◌, refl, true, List, [], ◌∷◌, ◌++◌, Option, none, some, arith,
}
use mikansaos.Message.{Message}
use mikansaos.Pipe.{PipeDescriptor, new_pipe, Result, returned, asleep, read, finish_write}
use mikansaos.Pipe.Stream.{stream, ended, TakesFrom, read-TakesFrom}
use mikansaos.Pipe.RoundTrip.{write_all, concat, write_all-incoming}
use mikansaos.FileDescriptor.{Source, read_delim}
use mikansaos.FileDescriptor.Line.{ReadsLine, read_delim-ReadsLine}

-- The pipe with the messages of the reading task; a call that sleeps has used them up.
abbrev pub State : Type 0
State = PipeDescriptor × List Message

abbrev one_byte : Result → Option ℕ × State
one_byte (returned [] p msgs) = (none, (p, msgs))
one_byte (returned (b ∷ bytes) p msgs) = (some b, (p, msgs))
one_byte (asleep p) = (none, (p, []))

abbrev pub read_byte : State → Option ℕ × State
read_byte (p, msgs) = one_byte (read p 1 msgs)

abbrev pub IsAt : State → List ℕ → Type 0
IsAt (p, msgs) bytes = (stream p msgs ≡ bytes) × (ended p msgs ≡ true)

takes_end : (r : Result) → TakesFrom 1 [] true r → ((one_byte r).0 ≡ none) × IsAt (one_byte r).1 []
unfolding TakesFrom
takes_end (asleep p) t = absurd (ground (arith, t.1))
takes_end (returned [] p msgs) t = (refl, (t.0, t.3))
takes_end (returned (b ∷ bytes) p msgs) t = absurd (cc t.0)

takes_byte :
    (r : Result) (b : ℕ) (bs : List ℕ)
    → TakesFrom 1 (b ∷ bs) true r
    → ((one_byte r).0 ≡ some b) × IsAt (one_byte r).1 bs
unfolding TakesFrom
takes_byte (asleep p) b bs t = absurd (ground (arith, t.1))
takes_byte (returned [] p msgs) b bs t = absurd (cc (t.2 refl).0)
takes_byte (returned (c ∷ []) p msgs) b bs t = (cc t.0, (cc t.0, t.3))
takes_byte (returned (c ∷ d ∷ more) p msgs) b bs t = absurd (omega (arith, t.1))

taken : (s : State) (bytes : List ℕ) → IsAt s bytes → TakesFrom 1 bytes true (read s.0 1 s.1)
taken s bytes at = rw⁻¹ (at.0, at.1) (read-TakesFrom s.0 1 s.1 (omega arith))

pub pipe_source : Source State
pipe_source = record {
  read_byte = read_byte;
  IsAt = IsAt;
  at_end = λ s at. takes_end (read s.0 1 s.1) (taken s [] at);
  at_byte = λ s b bs at. takes_byte (read s.0 1 s.1) b bs (taken s (b ∷ bs) at);
}

-- When several writes have gone into a new pipe and `FinishWrite` has followed them, `ReadDelim` with a
-- buffer of 1 to `2 ^ 64 - 1` bytes ends without waiting. It leaves in the buffer what was written up to
-- the first delimiter, which is included, but one byte less than the buffer has at most, and all that
-- follows is still to be read from the pipe.
pub read_delim-write_all :
    (delim len : ℕ) (bufs : List (List ℕ))
    → 0 < len
    → len < 2 ^ 64
    → ReadsLine pipe_source delim
        (len - 1)
        (concat bufs)
        (read_delim pipe_source delim len (new_pipe, write_all bufs ++ finish_write ∷ []))
unfolding stream ended pipe_source
read_delim-write_all delim len bufs h h' =
    let msgs = write_all bufs ++ finish_write ∷ [] in
    read_delim-ReadsLine pipe_source delim len (concat bufs) (new_pipe, msgs) h h'
      (write_all-incoming bufs)
