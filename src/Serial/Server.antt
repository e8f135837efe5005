-- ===== src/Serial/Server.antt =====
-- servers/serial.c: the driver of the serial device, over any device registers.
use Prim.Native.Nat.{bit_and}
use tcs.Prelude.{
  ℕ, zero, suc, ◌%◌, ◌^◌, Bool, true, not, ◌&&◌, ◌||◌, ltb, ◌==◌, ◌!=◌, if◌then◌else◌, List, [],
  ◌∷◌, length, bit_or,
}
use tcs.Policy
use tcs.Policy.Status
use tcs.Ipc.{Message, message, op_label, is_message, reply}
use tcs.Serial.{Rx, loss, receive, take}

-- TCS_SERIAL_CHUNK
abbrev pub chunk : ℕ
chunk = 32

-- TCS_SERIAL_READ
abbrev pub serial_read : ℕ
serial_read = 48

-- TCS_SERIAL_WRITE
abbrev pub serial_write : ℕ
serial_write = 49

-- TCS_SERIAL_DATA
abbrev pub serial_data : ℕ
serial_data = 0x181

abbrev pub data_register : ℕ
data_register = 0x00

abbrev pub error_clear : ℕ
error_clear = 0x04

abbrev pub flag_register : ℕ
flag_register = 0x18

abbrev pub interrupt_mask : ℕ
interrupt_mask = 0x38

abbrev pub masked_status : ℕ
masked_status = 0x40

abbrev pub interrupt_clear : ℕ
interrupt_clear = 0x44

abbrev pub integer_divisor : ℕ
integer_divisor = 0x24

abbrev pub fraction_divisor : ℕ
fraction_divisor = 0x28

abbrev pub line_control : ℕ
line_control = 0x2c

abbrev pub control : ℕ
control = 0x30

abbrev pub fifo_levels : ℕ
fifo_levels = 0x34

abbrev pub dma_control : ℕ
dma_control = 0x48

-- RX_EMPTY
abbrev pub rx_empty : ℕ
rx_empty = 16

-- TX_FULL
abbrev pub tx_full : ℕ
tx_full = 32

-- TX_IRQ
abbrev pub tx_irq : ℕ
tx_irq = 32

-- RT_IRQ
abbrev pub rt_irq : ℕ
rt_irq = 64

-- ERROR_IRQ
abbrev pub error_irq : ℕ
error_irq = 0x780

-- RECEIVE_IRQS
abbrev pub receive_irqs : ℕ
receive_irqs = 0x7d0

-- UART_IRQ_CHANNEL
abbrev pub irq_channel : ℕ
irq_channel = 0

-- TERMINAL_CHANNEL
abbrev pub terminal_channel : ℕ
terminal_channel = 1

-- The words of a write are bytes.
unfoldable pub are_bytes : List ℕ → Bool
are_bytes [] = true
are_bytes (w ∷ words) = not (ltb 255 w) && are_bytes words

-- The registers, read and written at an offset, and the calls of the microkernel.
module _ {D : Type 0} (load : D → ℕ → D × ℕ) (store : D → ℕ → ℕ → D) (notify : D → ℕ → D)
    (irq_ack : D → ℕ → D) where
  -- `init`
  unfoldable pub init : D → D
  init d =
      let quiet = store (store d interrupt_mask 0) control 0 in
      let cleared = store (store (store quiet dma_control 0) interrupt_clear 0x7ff) error_clear 0 in
      let timed = store (store cleared integer_divisor 13) fraction_divisor 1 in
      let framed = store (store timed line_control 112) fifo_levels 0 in
      let running = store (store framed control 0x301) interrupt_mask receive_irqs in
      irq_ack running irq_channel

  -- The body of the receive loop.
  unfoldable pub receive_data : D → Rx → ℕ → D × Rx
  receive_data d rx word =
      if bit_and word 0xf00 != 0
      then (store d error_clear 0, loss rx)
      else (d, receive rx (word % 2 ^ 8))

  -- The receive loop, for at most so many words.
  unfoldable pub drain : D → Rx → ℕ → D × Rx
  drain d rx zero = (d, rx)
  drain d rx (suc n) =
      let (d1, flags) = load d flag_register in
      let (d2, word) = load d1 data_register in
      let (d3, next) = receive_data d2 rx word in
      let rest = drain d3 next n in if bit_and flags rx_empty != 0 then (d1, rx) else rest

  -- `notified`
  unfoldable pub notified : D → Rx → ℕ → D × Rx
  notified d rx ch =
      let (d1, pending) = load d masked_status in
      let failed = bit_and pending error_irq != 0 in
      let before = if failed then loss rx else rx in
      let (d2, after) = drain (if failed then store d1 error_clear 0 else d1) before 64 in
      let sent = bit_and pending tx_irq in
      let d3 = store d2 interrupt_clear (bit_or (bit_or rt_irq error_irq) sent) in
      let d4 = if sent != 0 then store d3 interrupt_mask receive_irqs else d3 in
      let wake = (after.count != 0) || after.lost || (sent != 0) in
      let d5 = if wake then notify d4 terminal_channel else d4 in
      if ch != irq_channel then (d, rx) else (irq_ack d5 irq_channel, after)

  -- The send loop over the words of a write: how many are sent.
  unfoldable pub send : D → List ℕ → D × ℕ
  send d [] = (d, 0)
  send d (w ∷ words) =
      let (d1, flags) = load d flag_register in
      let (d2, sent) = send (store d1 data_register w) words in
      if bit_and flags tx_full != 0 then (d1, 0) else (d2, suc sent)

  -- The branch of a write, past its tests.
  unfoldable pub write : D → List ℕ → D × Message
  write d words =
      let (d1, sent) = send d words in
      let d2 =
        if ltb sent (length words)
        then store d1 interrupt_mask (bit_or receive_irqs tx_irq)
        else d1 in
      let d3 = if sent != 0 then notify d2 terminal_channel else d2 in
      (d3, reply (Policy.result Status.ok sent))

  -- The branch of a read.
  unfoldable pub read_byte : D → Rx → D × Rx × Message
  read_byte d rx =
      let (flags, byte, next) = take rx in
      let after = if next.count != 0 then notify d terminal_channel else d in
      (after, next, message serial_data (flags ∷ byte ∷ []))

  -- `protected`
  unfoldable pub protected : D → Rx → ℕ → Message → D × Rx × Message
  protected d rx ch m =
      let count = length m.words in
      let (written, answer) = write d m.words in
      if ch != terminal_channel
      then (d, rx, reply (Policy.result Status.denied 0))
      else if is_message m serial_read 0
      then read_byte d rx
      else if (m.label != op_label serial_write) || (count == 0) || ltb chunk count
      then (d, rx, reply (Policy.result Status.bad_message 0))
      else if not (are_bytes m.words)
      then (d, rx, reply (Policy.result Status.bad_message 0))
      else (written, rx, answer)
