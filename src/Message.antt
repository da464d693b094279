-- ===== src/Message.antt =====
-- kernel/message.hpp: the messages that tasks exchange.
use mikansaos.Base.{ℕ, List}
use mikansaos.Base.Int.{ℤ}

pub data LayerOperation : Type 0 where
  move move_relative draw draw_area : LayerOperation

-- `Message::Type`.
pub data MessageType : Type 0 where
  empty interrupt_xhci interrupt_lapic_timer timer_timeout key_push layer_ops layer_ops_finish :
      MessageType
  mouse_move mouse_button window_active pipe window_close : MessageType

-- The union: one constructor for each of its structs, and one for a message that sets none.
pub data MessageArg : Type 0 where
  no_arg : MessageArg
  timer_arg : (timeout : ℕ) (value : ℤ) → MessageArg
  keyboard_arg : (modifier keycode ascii : ℕ) (press : ℤ) → MessageArg
  layer_arg : (op : LayerOperation) (layer_id : ℕ) (x y w h : ℤ) → MessageArg
  mouse_move_arg : (x y dx dy : ℤ) (buttons : ℕ) → MessageArg
  mouse_button_arg : (x y press button : ℤ) → MessageArg
  window_active_arg : (activate : ℤ) → MessageArg
  pipe_arg : (bytes : List ℕ) (len : ℕ) → MessageArg
  window_close_arg : (layer_id : ℕ) → MessageArg

pub record Message : Type 0 where
  pub type : MessageType
  pub src_task_id : ℕ
  pub arg : MessageArg
