-- ===== src/Serial/Arrivals.antt =====
-- What the driver of servers/serial.c does with the words of the device, against its queue as a list.
use Prim.Native.Nat.{bit_and}
use tcs.Prelude.{
  ℕ, zero, suc, ◌%◌, ◌^◌, ◌≡◌, ◌≢◌, ◌⊎◌, inl, inr, refl, ap, ◌∙◌, ◌!=◌, Bool-cases, if◌then◌else◌,
  true, List, [], ◌∷◌, arith,
}
use tcs.Serial.{Rx, loss}
use tcs.Serial.Queue.{Inbox, IsValid, view, deliver, receive_refines}
use tcs.Serial.Server.{
  flag_register, data_register, rx_empty, error_irq, masked_status, error_clear, irq_channel,
  receive_data, drain, notified,
}

-- All that is queued is given up as lost.
abbrev pub all_lost : Inbox
all_lost = record { items = []; gap = true }

-- A word of the device: a byte, or the report of an error.
unfoldable pub absorb : Inbox → ℕ → Inbox
absorb q word = if bit_and word 0xf00 != 0 then all_lost else deliver q (word % 2 ^ 8)

abbrev pub absorb_all : Inbox → List ℕ → Inbox
absorb_all q [] = q
absorb_all q (word ∷ words) = absorb_all (absorb q word) words

loss_lem : (rx : Rx) → IsValid rx → IsValid (loss rx) × (view (loss rx) ≡ all_lost)
unfolding loss
loss_lem rx v =
    (record { storage = v.storage; head_in = omega arith; count_in = omega arith }, refl)

module _ {D : Type 0} (load : D → ℕ → D × ℕ) (store : D → ℕ → ℕ → D) where
  -- The words that the device gives, at most `n`, until it says that it has none; an error is cleared
  -- before the next word is asked for.
  abbrev pub arrivals : D → ℕ → List ℕ
  arrivals d zero = []
  arrivals d (suc n) =
      let (asked, flags) = load d flag_register in
      let (given, word) = load asked data_register in
      let rest =
        arrivals (if bit_and word 0xf00 != 0 then store given error_clear 0 else given) n in
      if bit_and flags rx_empty != 0 then [] else word ∷ rest

module _ {D : Type 0} (load : D → ℕ → D × ℕ) (store : D → ℕ → ℕ → D) (notify : D → ℕ → D)
    (irq_ack : D → ℕ → D) where
  receive_data-absorb :
      (d : D) (rx : Rx) (word : ℕ)
      → IsValid rx
      → let (after, next) = receive_data load store notify irq_ack d rx word in
        (after ≡ (if bit_and word 0xf00 != 0 then store d error_clear 0 else d))
        × IsValid next
        × (view next ≡ absorb (view rx) word)
  unfolding receive_data absorb
  receive_data-absorb d rx word v = elim (Bool-cases (bit_and word 0xf00 != 0)) [
    | inl bad ↦ let (valid, same) = loss_lem rx v in rw bad (refl, valid, same)
    | inr good ↦
        let (valid, same) = receive_refines rx (word % 2 ^ 8) v in rw good (refl, valid, same)
  ]

  drain_refines :
      (d : D) (rx : Rx) (n : ℕ)
      → IsValid rx
      → let (_, next) = drain load store notify irq_ack d rx n in
        IsValid next × (view next ≡ absorb_all (view rx) (arrivals load store d n))
  unfolding drain
  drain_refines d rx zero v = (v, refl)
  drain_refines d rx (suc n) v =
      let (d1, flags) = load d flag_register in
      let (d2, word) = load d1 data_register in
      let (d3, next) = receive_data load store notify irq_ack d2 rx word in
      let (same, valid, seen) = receive_data-absorb d2 rx word v in
      let (rest, all) = drain_refines d3 next n valid in
      elim (Bool-cases (bit_and flags rx_empty != 0)) [
        | inl empty ↦ rw empty (v, refl)
        | inr more ↦ rw more (
          rest,
          all
              ∙ ap (λ (q : Inbox). absorb_all q (arrivals load store d3 n)) seen
              ∙ ap (λ (e : D). absorb_all (absorb (view rx) word) (arrivals load store e n)) same,
        )
      ]

  -- What a notification leaves in the queue, as a list.
  abbrev pub gathered : D → Inbox → Inbox
  gathered d q =
      let (asked, pending) = load d masked_status in
      if bit_and pending error_irq != 0
      then absorb_all all_lost (arrivals load store (store asked error_clear 0) 64)
      else absorb_all q (arrivals load store asked 64)

  -- On a valid queue, a notification of the interrupt keeps the queue valid and does to its contents what
  -- the words of the device do one after the other, at most 64 of them: a byte is added at the end, or
  -- in place of everything, marked as lost, where there is no room; an error gives up all before it as
  -- lost, and so does a pending error before the first word. A notification on another channel changes
  -- nothing.
  pub notified_refines :
      (d : D) (rx : Rx) (ch : ℕ)
      → IsValid rx
      → let (after, next) = notified load store notify irq_ack d rx ch in
        IsValid next
        × (((ch ≢ irq_channel) × (after ≡ d) × (next ≡ rx))
            ⊎ ((ch ≡ irq_channel) × (view next ≡ gathered d (view rx))))
  unfolding notified
  notified_refines d rx ch v =
      let (d1, pending) = load d masked_status in
      let (lost, none_left) = loss_lem rx v in
      let (valid, all) = drain_refines d1 rx 64 v in
      let (valid_lost, all_lost_then) = drain_refines (store d1 error_clear 0) (loss rx) 64 lost in
      elim (Bool-cases (ch != irq_channel)) [
        | inl away ↦ rw away (v, inl (ground (arith, away), refl, refl))
        | inr here ↦ elim (Bool-cases (bit_and pending error_irq != 0)) [
          | inl failed ↦
              rw (here, failed)
                (
                  valid_lost,
                  inr (
                    ground (arith, here),
                    all_lost_then
                        ∙ ap
                            (λ (q : Inbox).
                              absorb_all q (arrivals load store (store d1 error_clear 0) 64))
                            none_left,
                  ),
                )
          | inr fine ↦ rw (here, fine) (valid, inr (ground (arith, here), all))
        ]
      ]

  pub notified-IsValid :
      (d : D) (rx : Rx) (ch : ℕ)
      → IsValid rx
      → IsValid (notified load store notify irq_ack d rx ch).1
  notified-IsValid d rx ch v = (notified_refines d rx ch v).0
