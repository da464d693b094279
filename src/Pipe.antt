-- ===== src/Pipe.antt =====
-- kernel/terminal.cpp and terminal.hpp: `PipeDescriptor`, the pipe between two tasks. Its messages are
-- those of the reading task, oldest first; `SendMessage` and `ReceiveMessage` of kernel/task.cpp add and
-- take one (Task, Task/Messages).
pub mod Stream
pub mod RoundTrip
mod Tests
use mikansaos.Base.{
  ℕ, zero, suc, ◌+◌, ◌-◌, Bool, true, false, ltb, ◌==◌, if◌then◌else◌, List, [], ◌∷◌, ◌++◌, length,
  take, drop, min, Option, none, some,
}
use mikansaos.Message.{
  Message, MessageType, MessageArg, empty, interrupt_xhci, interrupt_lapic_timer, timer_timeout,
  key_push, layer_ops, layer_ops_finish, mouse_move, mouse_button, window_active, pipe,
  window_close, no_arg, timer_arg, keyboard_arg, layer_arg, mouse_move_arg, mouse_button_arg,
  window_active_arg, pipe_arg, window_close_arg,
}

-- `bytes` are the first `_len` bytes of `_data`.
pub record PipeDescriptor : Type 0 where
  pub bytes : List ℕ
  pub closed : Bool

-- A new pipe.
abbrev pub new_pipe : PipeDescriptor
new_pipe = record { bytes = []; closed = false }

-- `sizeof(msg.arg.pipe.data)`.
abbrev pub data_size : ℕ
data_size = 16

-- `type == Message::kPipe`, and the bytes that the message carries.
abbrev pub is_pipe : MessageType → Bool
is_pipe pipe = true
is_pipe _ = false

abbrev pub carried : MessageArg → List ℕ
carried (pipe_arg bytes len) = take len bytes
carried _ = []

-- What a call of `Read` leaves: the bytes at `buf`, the pipe, and the messages that are left. The
-- call that finds no message sleeps, and goes on when one arrives.
pub data Result : Type 0 where
  returned : (at_buf : List ℕ) (p : PipeDescriptor) (msgs : List Message) → Result
  asleep : (p : PipeDescriptor) → Result

-- The end of a round of `Read`, with the bytes of a pipe's message.
pub take_message : PipeDescriptor → ℕ → List ℕ → List Message → Result
take_message p len bytes msgs =
    if length bytes == 0
    then returned [] (record p { closed = true }) msgs
    else returned (take len bytes) (record p { bytes = drop len bytes }) msgs

-- The loop of `Read`: other messages are dropped.
pub read_message : PipeDescriptor → ℕ → List Message → Result
read_message p len [] = asleep p
read_message p len (msg ∷ msgs) =
    let rest = read_message p len msgs in
    if is_pipe msg.type then take_message p len (carried msg.arg) msgs else rest

-- `Read`.
pub read : PipeDescriptor → ℕ → List Message → Result
read p len msgs =
    if ltb 0 (length p.bytes)
    then returned (take len p.bytes) (record p { bytes = drop len p.bytes }) msgs
    else if p.closed
    then returned [] p msgs
    else read_message p len msgs

-- The message with the given bytes.
pub pipe_message : List ℕ → Message
pipe_message bytes = record { type = pipe; src_task_id = 0; arg = pipe_arg bytes (length bytes) }

-- The loop of `Write`: the messages for the bytes that are left, in their order.
pub write_loop : ℕ → List ℕ → List Message
write_loop zero buf = []
write_loop (suc fuel) buf =
    let rest = pipe_message (take data_size buf) ∷ write_loop fuel (drop data_size buf) in
    if ltb 0 (length buf) then rest else []

-- `Write`: the messages that it sends, and what it returns. A round sends a byte at least.
pub write : List ℕ → List Message × ℕ
write buf = (write_loop (length buf) buf, length buf)

-- `FinishWrite`.
pub finish_write : Message
finish_write = pipe_message []
