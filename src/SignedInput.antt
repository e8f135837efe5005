-- ===== src/SignedInput.antt =====
-- lib/signed_input.c and include/tcs/signed_input.h: the entry of a signed packet as lowercase hex
-- digits. A function that updates `*s` returns the new state; pointers are not null.
pub mod Entry
mod Examples
use tcs.Prelude.{
  ℕ, ◌+◌, ◌-◌, ◌*◌, ◌/◌, ◌%◌, Bool, true, false, not, ◌&&◌, ◌||◌, leb, ◌==◌, ◌!=◌, if◌then◌else◌,
  List, [], ◌∷◌, get_or, set, replicate, drop, Option, none, some, bit_or,
}
use tcs.Admin.{packet_command}
use tcs.Admin.Types.{Command, packet_bytes}
use tcs.Terminal.Types.{LineEvent, nothing, ready, rejected, cancelled, Feedback}

-- `struct tcs_signed_input`
pub record SignedInput : Type 0 where
  pub packet : List ℕ
  pub digits : ℕ
  pub rejected : Bool
  pub previous_cr : Bool
  pub completed : Bool

-- `tcs_signed_begin`
unfoldable pub begin : Bool → SignedInput
begin previous_cr = record {
  packet = replicate packet_bytes 0;
  digits = 0;
  rejected = false;
  previous_cr = previous_cr;
  completed = false;
}

-- `tcs_signed_discard`
unfoldable pub discard : SignedInput
discard = record {
  packet = replicate packet_bytes 0;
  digits = 0;
  rejected = true;
  previous_cr = false;
  completed = false;
}

-- The value of a lowercase hex digit.
unfoldable pub nibble : ℕ → Option ℕ
nibble byte =
    if leb b'0' byte && leb byte b'9'
    then some (byte - b'0')
    else if leb b'a' byte && leb byte b'f'
    then some (byte - b'a' + 10)
    else none

-- The digit is the high half of its byte, or is joined to the high half that came before it.
unfoldable pub store_digit : SignedInput → ℕ → SignedInput
store_digit s n =
    let i = s.digits / 2 in
    record s {
      packet =
          set s.packet i
            (if s.digits % 2 != 0 then bit_or (get_or s.packet i 0) n else n * 16 % 256);
      digits = s.digits + 1;
    }

abbrev pub feedback : LineEvent → List ℕ → Feedback
feedback event echo = record { event = event; echo = echo }

-- The case of the byte that ends the line.
unfoldable pub finish : SignedInput → SignedInput × Feedback
finish s =
    let valid = not s.rejected && (s.digits == 2 * packet_bytes) in
    (
      record (if not valid then record discard { previous_cr = s.previous_cr } else s) {
        completed = true;
      },
      feedback (if valid then ready else rejected) (13 ∷ 10 ∷ []),
    )

-- The case of a digit or any other byte, where the entry is not rejected; `none` is no digit.
unfoldable pub feed_digit : SignedInput → ℕ → Option ℕ → SignedInput × Feedback
feed_digit s byte none = (discard, feedback nothing [])
feed_digit s byte (some n) =
    if leb (2 * packet_bytes) s.digits
    then (discard, feedback nothing [])
    else (store_digit s n, feedback nothing (byte ∷ []))

-- `tcs_signed_feed`
unfoldable pub feed : SignedInput → ℕ → SignedInput × Feedback
feed s byte =
    let marked = record s { previous_cr = byte == 13 } in
    if s.completed
    then (s, feedback nothing [])
    else if (byte == 10) && s.previous_cr
    then (record s { previous_cr = false }, feedback nothing [])
    else if byte == 3
    then (record discard { completed = true }, feedback cancelled (b'^' ∷ b'C' ∷ 13 ∷ 10 ∷ []))
    else if (byte == 13) || (byte == 10)
    then finish marked
    else if not s.rejected
    then feed_digit marked byte (nibble byte)
    else (marked, feedback nothing [])

-- `tcs_signed_command`, whose `load` is the `load64` of lib/admin.c.
abbrev pub command : List ℕ → Command
command packet = packet_command packet
