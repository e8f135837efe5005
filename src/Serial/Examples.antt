-- ===== src/Serial/Examples.antt =====
-- The theorems on lib/serial.c at concrete inputs.
use tcs.Prelude.{
  ℕ, List, ◌==◌, if◌then◌else◌, ◌≡◌, ◌≢◌, ◌⊎◌, refl, true, false, [], ◌∷◌, replicate, ◌++◌, arith,
}
use tcs.Serial.{Rx, receive, take, put, loss}
use tcs.Ipc.{Message, message, op_label}
use tcs.Serial.Server.{
  serial_write, flag_register, data_register, notified, drain, receive_data, protected, irq_channel,
}
use tcs.Serial.Service.{IsServed, IsTaken, protected-IsServed}
use tcs.Serial.Arrivals.{gathered, notified_refines}
use tcs.Serial.Queue.{IsValid, view}

-- Bytes 7 and 8 are queued round the end of the array.
abbrev wrapped : Rx
wrapped = record { bytes = 8 ∷ replicate 254 0 ++ 7 ∷ []; head = 255; count = 2; lost = true }

abbrev full : Rx
full = record { bytes = replicate 256 1; head = 9; count = 256; lost = false }

wrapped-IsValid : IsValid wrapped
wrapped-IsValid = omega arith

full-IsValid : IsValid full
full-IsValid = omega arith

take-wrapped : ((take wrapped).0 ≡ 3) × ((take wrapped).1 ≡ 7) × ((take (take wrapped).2).1 ≡ 8)
unfolding take
take-wrapped = (refl, refl, refl)

-- A device that has given the words of its state, and is empty and full behind them; nothing is left of
-- what is written.
abbrev load : List ℕ → ℕ → List ℕ × ℕ
load [] offset = ([], if offset == flag_register then 48 else 0)
load (w ∷ words) offset = if offset == data_register then (words, w) else (w ∷ words, 0)

abbrev store : List ℕ → ℕ → ℕ → List ℕ
store words offset value = words

abbrev ignore : List ℕ → ℕ → List ℕ
ignore words channel = words

-- Two bytes come in, and the one with an error clears what was queued.
notified_run :
    (view (notified load store ignore ignore (0x105 ∷ 6 ∷ []) full 0).1)
    ≡ record { items = 6 ∷ []; gap = true }
unfolding notified drain receive_data loss receive put
notified_run = refl

notified_refines_example :
    let (after, next) = notified load store ignore ignore (0x105 ∷ 6 ∷ []) full 0 in
    IsValid next
    × (((irq_channel ≢ irq_channel) × (after ≡ 0x105 ∷ 6 ∷ []) × (next ≡ full))
        ⊎ ((irq_channel ≡ irq_channel)
            × (view next ≡ gathered load store ignore ignore (0x105 ∷ 6 ∷ []) (view full))))
notified_refines_example =
    notified_refines load store ignore ignore (0x105 ∷ 6 ∷ []) full 0 full-IsValid

-- Two bytes are written, for which the device has room.
abbrev asked : Message
asked = message (op_label serial_write) (104 ∷ 105 ∷ [])

protected-IsServed_example :
    let (_, next, answer) = protected load store ignore ignore (0 ∷ []) wrapped 1 asked in
    IsValid next × IsServed (IsTaken load store (0 ∷ [])) wrapped 1 asked next answer
protected-IsServed_example =
    protected-IsServed load store ignore ignore (0 ∷ []) wrapped 1 asked wrapped-IsValid
