-- ===== src/Terminal/Server/Driver.antt =====
-- servers/terminal.c over servers/serial.c: the driver keeps its promises.
use Prim.Native.Nat.{bit_and}
use tcs.Prelude.{
  ℕ, ◌+◌, ◌≤◌, ◌≡◌, refl, true, List, [], ◌∷◌, length, All, arith, if_holds, if◌then◌else◌, ◌==◌,
  ◌!=◌, ◌%◌, ◌^◌, zero, suc,
}
use tcs.Policy
use tcs.Policy.Status
use tcs.Ipc.{Message, message, op_label, reply}
use tcs.Ipc.Replies.{response-reply}
use tcs.Serial.{Rx, capacity, loss, put, receive, take}
use tcs.Serial.Queue.{IsValid, take_refines}
use tcs.Serial.Server
use tcs.Serial.Server.{
  chunk, serial_read, serial_write, serial_data, terminal_channel, are_bytes, send, write,
  read_byte, irq_channel, flag_register, data_register, rx_empty, error_irq, masked_status,
  error_clear, receive_data, drain,
}
use tcs.Serial.Service.{send_bounded}
use tcs.Serial.Arrivals.{notified-IsValid}
use tcs.Terminal.Server.Texts.{IsByte}
use tcs.Terminal.Server.Steady.{All-set, All-get_or}
use tcs.Terminal.Server.Sending.{IsDriver}

-- A queue in its array, of bytes.
pub record IsQueue (rx : Rx) : Type 0 where
  pub valid : IsValid rx
  pub bytes : All IsByte rx.bytes

are_bytes-All : (ws : List ℕ) → All IsByte ws → are_bytes ws ≡ true
unfolding are_bytes
are_bytes-All [] a = refl
are_bytes-All (w ∷ ws) a = ground (arith, a.0, are_bytes-All ws a.1)

take-IsQueue :
    (rx : Rx)
    → IsQueue rx
    → let (flags, byte, next) = take rx in
      IsQueue next × (flags ≤ 3) × IsByte byte × (bit_and flags 1 ≡ 0 → byte ≡ 0)
unfolding take
take-IsQueue rx q =
    let first = All-get_or rx.head rx.bytes q.bytes in
    let valid = (take_refines rx q.valid).0 in ground (arith, first)

-- `loss` and `receive` keep the array of bytes.
abbrev IsBytes : Rx → Type 0
IsBytes rx = All IsByte rx.bytes

loss-IsBytes : (rx : Rx) → IsBytes rx → IsBytes (loss rx)
unfolding loss
loss-IsBytes rx a = a

receive-IsBytes : (rx : Rx) (byte : ℕ) → IsByte byte → IsBytes rx → IsBytes (receive rx byte)
unfolding receive put
receive-IsBytes rx byte b a =
    let from = if rx.count == capacity then loss rx else rx in
    let start = if_holds (rx.count == capacity) IsBytes (loss-IsBytes rx a) a in
    All-set ((from.head + from.count) % capacity) byte from.bytes b start

module _ {D : Type 0} (load : D → ℕ → D × ℕ) (store : D → ℕ → ℕ → D) (notify : D → ℕ → D)
    (irq_ack : D → ℕ → D) where
  -- A request of the terminal: its channel 0 is the driver's channel 1.
  abbrev pub driver_step : D × Rx → Message → (D × Rx) × Message
  driver_step s m =
      let (d, rx, answer) = Server.protected load store notify irq_ack s.0 s.1 terminal_channel m in
      ((d, rx), answer)

  wrote_lem :
      (d : D) (rx : Rx) (words : List ℕ)
      → 1 ≤ length words
      → length words ≤ chunk
      → are_bytes words ≡ true
      → let m = message (op_label serial_write) words in
        Server.protected load store notify irq_ack d rx terminal_channel m ≡ (
          (write load store notify irq_ack d words).0,
          rx,
          reply (Policy.result Status.ok (send load store notify irq_ack d words).1),
        )
  unfolding Server.protected write
  wrote_lem d rx words some few bytes = ground (arith, bytes)

  gave_lem :
      (d : D) (rx : Rx)
      → let m = message (op_label serial_read) [] in
        let (flags, byte, next) = take rx in
        let (_, after, answer) =
          Server.protected load store notify irq_ack d rx terminal_channel m in
        (after ≡ next) × (answer ≡ message serial_data (flags ∷ byte ∷ []))
  unfolding Server.protected read_byte
  gave_lem d rx = (refl, refl)

  -- Whatever the device does, the driver over a queue of bytes keeps the promises that the terminal
  -- relies on.
  pub driver-IsDriver : IsDriver driver_step (λ (s : D × Rx). IsQueue s.1)
  driver-IsDriver = record {
    wrote = λ s words q some few bytes.
        let e = wrote_lem s.0 s.1 words some few (are_bytes-All words bytes) in
        let sent = send_bounded load store notify irq_ack s.0 words in
        rw e (rw (response-reply) (q, refl, sent));
    gave = λ s q.
        let (after, answer) = gave_lem s.0 s.1 in
        let (next, flags, byte, alone) = take-IsQueue s.1 q in
        rw (after, answer) (next, refl, refl, flags, byte, alone);
  }

  receive_data-IsBytes :
      (d : D) (rx : Rx) (w : ℕ)
      → IsBytes rx
      → IsBytes (receive_data load store notify irq_ack d rx w).1
  unfolding receive_data
  receive_data-IsBytes d rx w a =
      if_holds (bit_and w 0xf00 != 0) (λ (r : D × Rx). IsBytes r.1) (loss-IsBytes rx a)
        (receive-IsBytes rx (w % 2 ^ 8) (omega arith) a)

  drain-IsBytes :
      (d : D) (rx : Rx) (n : ℕ) → IsBytes rx → IsBytes (drain load store notify irq_ack d rx n).1
  unfolding drain
  drain-IsBytes d rx zero a = a
  drain-IsBytes d rx (suc n) a =
      let (d1, flags) = load d flag_register in
      let (d2, w) = load d1 data_register in
      let (d3, next) = receive_data load store notify irq_ack d2 rx w in
      if_holds (bit_and flags rx_empty != 0) (λ (r : D × Rx). IsBytes r.1) a
        (drain-IsBytes d3 next n (receive_data-IsBytes d2 rx w a))

  notified-IsBytes :
      (d : D) (rx : Rx) (ch : ℕ)
      → IsBytes rx
      → IsBytes (Server.notified load store notify irq_ack d rx ch).1
  unfolding Server.notified
  notified-IsBytes d rx ch a =
      let (d1, pending) = load d masked_status in
      let failed = bit_and pending error_irq != 0 in
      let before = if failed then loss rx else rx in
      let start = if_holds failed IsBytes (loss-IsBytes rx a) a in
      let after = drain-IsBytes (if failed then store d1 error_clear 0 else d1) before 64 start in
      if_holds (ch != irq_channel) (λ (r : D × Rx). IsBytes r.1) a after

  -- An interrupt keeps the queue in its array, of bytes.
  pub notified-IsQueue :
      (d : D) (rx : Rx) (ch : ℕ)
      → IsQueue rx
      → IsQueue (Server.notified load store notify irq_ack d rx ch).1
  notified-IsQueue d rx ch q = record {
    valid = notified-IsValid load store notify irq_ack d rx ch q.valid;
    bytes = notified-IsBytes d rx ch q.bytes;
  }
