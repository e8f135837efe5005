-- ===== src/Terminal.antt =====
-- lib/terminal.c and include/tcs/terminal.h: bounded line editing, its display, and the parser of
-- read-only commands. A function that updates `*line` returns the new line beside its result.
pub mod Output
pub mod Phrases
pub mod Server
pub mod Delivery
pub mod Types
pub mod Editor
pub mod Display
pub mod Parser
pub mod Commands
mod Examples
use tcs.Prelude.{
  ℕ, zero, suc, ◌+◌, ◌-◌, ◌*◌, ◌/◌, Bool, true, false, not, ◌&&◌, ◌||◌, ltb, leb, ◌==◌, ◌!=◌,
  if◌then◌else◌, List, [], ◌∷◌, length, set, u64_max,
}
use Types.{
  LineEvent, nothing, ready, rejected, cancelled, Line, Feedback, CommandKind, empty, help, version,
  status, read, invalid, Command, line_capacity,
}

-- `reset_line`
unfoldable pub reset_line : Line → Line
reset_line line = record line {
  length = 0;
  bytes = set line.bytes 0 0;
  rejected = false;
  completed = false;
}

-- `tcs_line_discard`
unfoldable pub line_discard : Line → Line
line_discard line = record (reset_line line) { rejected = true; previous_cr = false }

-- The byte is stored behind the text, and the terminator behind it.
unfoldable pub line_append : Line → ℕ → Line
line_append line byte = record line {
  length = line.length + 1;
  bytes = set (set line.bytes line.length byte) (line.length + 1) 0;
}

-- `line->bytes[--line->length] = '\0'`, run where the length is not 0.
unfoldable pub line_erase : Line → Line
line_erase line = record line {
  length = line.length - 1;
  bytes = set line.bytes (line.length - 1) 0;
}

-- A byte that a line may not hold.
abbrev pub is_control : ℕ → Bool
is_control byte = (ltb byte 32 && (byte != 9)) || ltb 126 byte

abbrev pub is_erase : ℕ → Bool
is_erase byte = (byte == 8) || (byte == 127)

-- `tcs_line_feed` past the tests on a completed line and on the second half of CR LF.
unfoldable pub feed_byte : Line → ℕ → Line × LineEvent
feed_byte line byte =
    if byte == 3
    then (reset_line line, cancelled)
    else if (byte == 13) || (byte == 10)
    then (record line { completed = true }, if line.rejected then rejected else ready)
    else if line.rejected
    then (line, nothing)
    else if is_erase byte
    then (if line.length != 0 then line_erase line else line, nothing)
    else if is_control byte || (line.length == line_capacity - 1)
    then (line_discard line, nothing)
    else (line_append line byte, nothing)

-- A finished line is cleared by the next byte.
abbrev pub fresh_line : Line → Line
fresh_line line = if line.completed then reset_line line else line

-- `tcs_line_feed`
unfoldable pub line_feed : Line → ℕ → Line × LineEvent
line_feed line byte =
    let fresh = fresh_line line in
    if (byte == 10) && fresh.previous_cr
    then (record fresh { previous_cr = false }, nothing)
    else feed_byte (record fresh { previous_cr = byte == 13 }) byte

-- `tcs_terminal_input`
unfoldable pub terminal_input : Line → ℕ → Line × Feedback
terminal_input line byte =
    let previous_length = if line.completed then 0 else line.length in
    let (next, event) = line_feed line byte in
    let echo : List ℕ = elim event [
      | ready ↦ 13 ∷ 10 ∷ []
      | rejected ↦ 13 ∷ 10 ∷ []
      | cancelled ↦ b'^' ∷ b'C' ∷ 13 ∷ 10 ∷ []
      | nothing ↦
          if not next.rejected && is_erase byte && ltb next.length previous_length
          then 8 ∷ 32 ∷ 8 ∷ []
          else if not next.rejected && (next.length == previous_length + 1)
          then (if byte == 9 then 32 else byte) ∷ []
          else []
    ] in
    (next, record { event = event; echo = echo })
