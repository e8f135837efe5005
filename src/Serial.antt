-- ===== src/Serial.antt =====
-- lib/serial.c and include/tcs/serial.h: the bounded receive queue of the serial driver. A function
-- that updates `*rx` returns the new state.
pub mod Queue
pub mod Server
pub mod Service
pub mod Arrivals
mod Examples
use tcs.Prelude.{
  ℕ, ◌+◌, ◌-◌, ◌%◌, Bool, true, false, ◌==◌, ◌!=◌, if◌then◌else◌, List, get_or, set, bit_or,
}

-- TCS_SERIAL_CAPACITY
abbrev pub capacity : ℕ
capacity = 256

-- TCS_SERIAL_BYTE
abbrev pub byte_flag : ℕ
byte_flag = 1

-- TCS_SERIAL_LOSS
abbrev pub loss_flag : ℕ
loss_flag = 2

-- `struct tcs_serial_rx`
pub record Rx : Type 0 where
  pub bytes : List ℕ
  pub head : ℕ
  pub count : ℕ
  pub lost : Bool

-- `tcs_serial_loss`
unfoldable pub loss : Rx → Rx
loss rx = record rx { head = 0; count = 0; lost = true }

-- The write at the end of `tcs_serial_receive`.
unfoldable pub put : Rx → ℕ → Rx
put rx byte = record rx {
  bytes = set rx.bytes ((rx.head + rx.count) % capacity) byte;
  count = rx.count + 1;
}

-- `tcs_serial_receive`
unfoldable pub receive : Rx → ℕ → Rx
receive rx byte = put (if rx.count == capacity then loss rx else rx) byte

-- `tcs_serial_take`: the flags, the byte that goes through the pointer, and the new state.
unfoldable pub take : Rx → ℕ × ℕ × Rx
take rx =
    let flags : ℕ = if rx.lost then loss_flag else 0 in
    if rx.count != 0
    then (
      bit_or flags byte_flag,
      get_or rx.bytes rx.head 0,
      record rx { lost = false; head = (rx.head + 1) % capacity; count = rx.count - 1 },
    )
    else (flags, 0, record rx { lost = false })
