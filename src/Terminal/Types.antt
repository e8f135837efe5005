-- ===== src/Terminal/Types.antt =====
-- The data of include/tcs/terminal.h.
use Prim.Native.Nat.{ℕ}
use mathlib.Core.Bool.{Bool}
use mathlib.Core.List.{List}

-- TCS_LINE_CAPACITY
abbrev pub line_capacity : ℕ
line_capacity = 128

-- `enum tcs_line_event`
pub data LineEvent : Type 0 where
  nothing ready rejected cancelled : LineEvent

-- `struct tcs_line`
pub record Line : Type 0 where
  pub bytes : List ℕ
  pub length : ℕ
  pub rejected : Bool
  pub previous_cr : Bool
  pub completed : Bool

-- `enum tcs_command_kind`
pub data CommandKind : Type 0 where
  empty help version status read invalid : CommandKind

-- `struct tcs_command`
pub record Command : Type 0 where
  pub kind : CommandKind
  pub generation : ℕ

-- `struct tcs_line_feedback`: the display bytes before the terminator.
pub record Feedback : Type 0 where
  pub event : LineEvent
  pub echo : List ℕ
