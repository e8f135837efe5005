-- ===== src/Serial/Service.antt =====
-- What the driver of servers/serial.c does for a request, and how it answers.
use Prim.Native.Nat.{bit_and}
use tcs.Prelude.{
  ◌≢◌, ◌<◌, Bool-cases, ◌!=◌, ℕ, suc, ◌≤◌, ◌≡◌, ◌⊎◌, inl, inr, refl, ap, true, false, List, [], ◌∷◌,
  length, arith,
}
use tcs.Policy
use tcs.Policy.Status
use tcs.Ipc.{Message, message, op_label, reply, is_message}
use tcs.Serial.{Rx}
use tcs.Serial.Queue.{Inbox, IsValid, view, collect, take_refines}
use tcs.Serial.Server.{
  chunk, flag_register, data_register, tx_full, serial_write, are_bytes, serial_read, serial_data,
  terminal_channel, send, write, read_byte, protected,
}

-- The device `d` takes the first `n` of the words: it has room for each of them when it is asked, and
-- it has none behind them, or there are no more.
abbrev pub IsTaken : {D : Type 0} → (D → ℕ → D × ℕ) → (D → ℕ → ℕ → D) → D → List ℕ → ℕ → Type 0
IsTaken load store d [] n = n ≡ 0
IsTaken load store d (w ∷ words) n =
    let (asked, flags) = load d flag_register in
    ((bit_and flags tx_full ≢ 0) × (n ≡ 0))
    ⊎ ((bit_and flags tx_full ≡ 0)
        × ((rest : ℕ) × (n ≡ suc rest)
            × IsTaken load store (store asked data_register w) words rest))

-- What a request does to a valid queue and how it is answered; `IsSent` says how many of the words
-- the device takes.
abbrev pub IsServed : (List ℕ → ℕ → Type 0) → Rx → ℕ → Message → Rx → Message → Type 0
IsServed IsSent rx ch m next answer =
    ((next ≡ rx)
      × (((ch ≢ terminal_channel) × (answer ≡ reply (Policy.result Status.denied 0)))
          ⊎ ((ch ≡ terminal_channel)
              × (is_message m serial_read 0 ≡ false)
              × ((m.label ≢ op_label serial_write)
                  ⊎ (length m.words ≡ 0)
                  ⊎ (chunk < length m.words)
                  ⊎ (are_bytes m.words ≡ false))
              × (answer ≡ reply (Policy.result Status.bad_message 0)))))
    ⊎ ((ch ≡ terminal_channel)
        × (is_message m serial_read 0 ≡ true)
        × (let (flags, byte, inbox) = collect (view rx) in
            (view next ≡ inbox) × (answer ≡ message serial_data (flags ∷ byte ∷ []))))
    ⊎ ((ch ≡ terminal_channel)
        × (m.label ≡ op_label serial_write)
        × (length m.words ≢ 0)
        × (length m.words ≤ chunk)
        × (are_bytes m.words ≡ true)
        × (next ≡ rx)
        × ((sent : ℕ) × (sent ≤ length m.words)
            × IsSent m.words sent
            × (answer ≡ reply (Policy.result Status.ok sent))))

module _ {D : Type 0} (load : D → ℕ → D × ℕ) (store : D → ℕ → ℕ → D) (notify : D → ℕ → D)
    (irq_ack : D → ℕ → D) where
  pub send_bounded :
      (d : D) (words : List ℕ) → (send load store notify irq_ack d words).1 ≤ length words
  unfolding send
  send_bounded d [] = omega arith
  send_bounded d (w ∷ words) = ground (arith, send_bounded (store (load d 0x18).0 0 w) words)

  send-IsTaken :
      (d : D) (words : List ℕ)
      → IsTaken load store d words (send load store notify irq_ack d words).1
  unfolding send
  send-IsTaken d [] = refl
  send-IsTaken d (w ∷ words) =
      let (asked, flags) = load d flag_register in
      let rest = send-IsTaken (store asked data_register w) words in
      elim (Bool-cases (bit_and flags tx_full != 0)) [
        | inl full ↦ rw full (inl (ground (arith, full), refl))
        | inr room ↦ rw room (
            inr (
              ground (arith, room),
              ((send load store notify irq_ack (store asked data_register w) words).1, refl, rest),
            ))
      ]

  write_lem :
      (d : D) (words : List ℕ)
      → (write load store notify irq_ack d words).1
        ≡ reply (Policy.result Status.ok (send load store notify irq_ack d words).1)
  unfolding write
  write_lem d words = refl

  read_byte_lem :
      (d : D) (rx : Rx)
      → IsValid rx
      → let (_, next, answer) = read_byte load store notify irq_ack d rx in
        let (flags, byte, inbox) = collect (view rx) in
        IsValid next × (view next ≡ inbox) × (answer ≡ message serial_data (flags ∷ byte ∷ []))
  unfolding read_byte
  read_byte_lem d rx v =
      let (valid, same) = take_refines rx v in
      (
        valid,
        ap (λ (x : ℕ × ℕ × Inbox). x.2) same,
        ap (λ (x : ℕ × ℕ × Inbox). message serial_data (x.0 ∷ x.1 ∷ [])) same,
      )

  protected_cases :
      (d : D) (rx : Rx) (ch : ℕ) (m : Message)
      → let r = protected load store notify irq_ack d rx ch m in
        ((ch ≢ terminal_channel) × (r ≡ (d, rx, reply (Policy.result Status.denied 0))))
        ⊎ ((ch ≡ terminal_channel)
            × (is_message m serial_read 0 ≡ false)
            × ((m.label ≢ op_label serial_write)
                ⊎ (length m.words ≡ 0)
                ⊎ (chunk < length m.words)
                ⊎ (are_bytes m.words ≡ false))
            × (r ≡ (d, rx, reply (Policy.result Status.bad_message 0))))
        ⊎ ((ch ≡ terminal_channel)
            × (is_message m serial_read 0 ≡ true)
            × (r ≡ read_byte load store notify irq_ack d rx))
        ⊎ ((ch ≡ terminal_channel)
            × (m.label ≡ op_label serial_write)
            × (length m.words ≢ 0)
            × (length m.words ≤ chunk)
            × (are_bytes m.words ≡ true)
            × (r ≡ (
              (write load store notify irq_ack d m.words).0,
              rx,
              (write load store notify irq_ack d m.words).1,
            )))
  unfolding protected
  protected_cases d rx ch m = ground arith

  -- On a valid queue, a request keeps the queue valid: where it comes on another channel, or is
  -- neither a read nor a write of 1 to 32 bytes, it is refused as denied or as a bad message and changes
  -- nothing in the queue; a read takes the oldest byte and the mark of a loss from the queue; and a
  -- write is answered with the number of its bytes that the device has room for, asked before each of
  -- them.
  pub protected-IsServed :
      (d : D) (rx : Rx) (ch : ℕ) (m : Message)
      → IsValid rx
      → let (_, next, answer) = protected load store notify irq_ack d rx ch m in
        IsValid next × IsServed (IsTaken load store d) rx ch m next answer
  protected-IsServed d rx ch m v = elim (protected_cases d rx ch m) [
    | inl (away, e) ↦ rw e (v, inl (refl, inl (away, refl)))
    | inr (inl (here, other, why, e)) ↦ rw e (v, inl (refl, inr (here, other, why, refl)))
    | inr (inr (inl (here, asked, e))) ↦
        let (valid, same, answer) = read_byte_lem d rx v in
        rw e (valid, inr (inl (here, asked, (same, answer))))
    | inr (inr (inr (here, label, some_words, short, bytes, e))) ↦
        let sent = (send load store notify irq_ack d m.words).1 in
        rw e (
          v,
          inr (
              inr (
                here,
                label,
                some_words,
                short,
                bytes,
                refl,
                (sent, send_bounded d m.words, send-IsTaken d m.words, write_lem d m.words),
              )),
        )
  ]
