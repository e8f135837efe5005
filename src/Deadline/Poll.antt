-- ===== src/Deadline/Poll.antt =====
-- `tcs_dl_poll` of lib/deadline.c: on a valid state it never fails, expires what is due, and
-- inhibits both slots where the clock has failed.
use tcs.Prelude.{
  ℕ, zero, suc, ◌/◌, ◌≤◌, ◌<◌, ◌≡◌, ◌≢◌, ◌⊎◌, ◌↔◌, Bool, true, false, not, ◌&&◌, ◌||◌, leb, ltb,
  ◌!=◌, if◌then◌else◌, max, bit, bit_or, bit_or_low, refl, sym, subst, ◌∙◌, ap, arith, u64_max,
}
use tcs.Lifecycle.Types.{Slot, slot_count}
use tcs.Lifecycle.Invariant.{IsWords}
use tcs.Reduction
use tcs.Reduction.{Reduction, PollStatus, all_slots, is_live}
use tcs.Reduction.Valid as Latch
use tcs.Reduction.Poll.{Polled, poll_lem, mask_bits, held}
use tcs.Deadline.{Deadline, Reading, on_time, fault, invalid, expire_from, poll, valid}
use tcs.Deadline.Valid.{IsTimed, IsValid, InWords, valid_iff_deadline}

-- Whether the lifetime of slot `i` is over at a tick.
abbrev pub is_due : Deadline → ℕ → ℕ → Bool
is_due d tick i = (d.end i != 0) && leb (d.end i) tick

abbrev pub bit_of : Bool → ℕ
bit_of b = if b then 1 else 0

expire_bits :
    (d : Deadline) (tick requests : ℕ)
    → let m = expire_from d tick slot_count 0 requests in
      (m / 4 ≡ requests / 4)
      × (bit m 0 ≡ max (bit requests 0) (bit_of (is_due d tick 0)))
      × (bit m 1 ≡ max (bit requests 1) (bit_of (is_due d tick 1)))
unfolding expire_from
expire_bits d tick requests =
    let one = if is_due d tick 0 then bit_or requests 1 else requests in
    ground (arith, bit_or_low requests 1, bit_or_low one 2)

-- Whether the reading or an earlier one was bad.
abbrev pub clock_after : Deadline → Reading → ℕ
clock_after d reading = if not reading.ok || ltb reading.tick d.last_tick then 1 else d.clock_fault

-- What the latch is asked to inhibit.
abbrev pub wanted : Deadline → ℕ → Reading → ℕ
wanted d requests reading =
    if clock_after d reading != 0
    then bit_or requests all_slots
    else expire_from d reading.tick slot_count 0 requests

-- The state after a poll that does not fail.
abbrev pub polled : Deadline → ℕ → Reading → Deadline
polled d requests reading = record {
  control = (Reduction.poll d.control (wanted d requests reading)).0;
  last_tick = if clock_after d reading != 0 then d.last_tick else reading.tick;
  clock_fault = clock_after d reading;
  end = d.end;
}

module _ (d : Deadline) (requests : ℕ) (reading : Reading) (v : valid d ≡ true)
    (w : InWords d) where
  abbrev before : IsValid d
  before = (valid_iff_deadline d).0 v

  abbrev after : Deadline
  after = polled d requests reading

  latch :
      let (next, status) = Reduction.poll d.control (wanted d requests reading) in
      Polled d.control (wanted d requests reading) next status
      × (Reduction.valid next ≡ true)
      × IsWords next.life
  latch = poll_lem d.control (wanted d requests reading) before.control_ok w.counters

  poll-eq : poll d requests reading ≡ (
    after,
    if (clock_after d reading != 0) || (after.control.input_fault != 0) then fault else on_time,
  )
  unfolding poll
  poll-eq = ground (arith, latch)

  -- A failed clock inhibits both slots; otherwise what is due is inhibited, and what was stays so.
  after-bits :
      (bit after.control.inhibited 0 ≡ 1
        ⊎ ((clock_after d reading ≡ 0)
            × (is_due d reading.tick 0 ≡ false)
            × (bit d.control.inhibited 0 ≢ 1)))
      × (bit after.control.inhibited 1 ≡ 1
          ⊎ ((clock_after d reading ≡ 0)
              × (is_due d reading.tick 1 ≡ false)
              × (bit d.control.inhibited 1 ≢ 1)))
  after-bits = ground (
    arith,
    latch.0.mask,
    mask_bits d.control (wanted d requests reading),
    expire_bits d reading.tick requests,
    bit_or_low requests all_slots,
  )

  held-IsTimed :
      (b' : ℕ) (s : Slot) (i : ℕ)
      → IsTimed (bit d.control.inhibited i) s (d.end i) d.last_tick
      → (b' ≡ 1)
        ⊎ ((clock_after d reading ≡ 0)
            × (is_due d reading.tick i ≡ false)
            × (bit d.control.inhibited i ≢ 1))
      → IsTimed b' (held b' s) (d.end i) after.last_tick
  held-IsTimed b' s i t h = ground arith

  after-IsValid : IsValid after
  after-IsValid = record {
    control_ok = latch.1;
    fault_flag = ground (arith, before.fault_flag);
    fault_holds =
        ground (arith, after-bits, ((Latch.valid_iff_latch after.control).0 latch.1).mask);
    first =
        subst (λ s. IsTimed (bit after.control.inhibited 0) s (d.end 0) after.last_tick)
          (sym
            (latch.0.first ∙ ap (λ m. held (bit m 0) (d.control.life.slots 0)) (sym latch.0.mask)))
          (held-IsTimed (bit after.control.inhibited 0) (d.control.life.slots 0) 0 before.first
            after-bits.0);
    second =
        subst (λ s. IsTimed (bit after.control.inhibited 1) s (d.end 1) after.last_tick)
          (sym
            (latch.0.second ∙ ap (λ m. held (bit m 1) (d.control.life.slots 1)) (sym latch.0.mask)))
          (held-IsTimed (bit after.control.inhibited 1) (d.control.life.slots 1) 1 before.second
            after-bits.1);
  }

  -- On a valid state whose words fit, a poll with any requests and reading does not fail; the state
  -- after it is valid, its ends are as before, and it reports a fault exactly when the clock or the
  -- input has failed by then.
  pub poll-valid :
      reading.tick ≤ u64_max
      → let (next, status) = poll d requests reading in
        (valid next ≡ true)
        × InWords next
        × (next.end ≡ d.end)
        × (status ≢ invalid)
        × ((status ≡ fault) ↔ ((next.clock_fault ≢ 0) ⊎ (next.control.input_fault ≢ 0)))
  poll-valid b = rw poll-eq (
    (valid_iff_deadline after).1 after-IsValid,
    record { counters = latch.2; clock = ground (arith, w.clock) },
    refl,
    ground arith,
    (ground arith, ground arith),
  )

  -- A poll on such a state inhibits slot 0 and slot 1, each if its end has come, and both if the
  -- reading failed or went back.
  pub poll-inhibits :
      (i : ℕ)
      → i < slot_count
      → ((d.end i ≢ 0) × (d.end i ≤ reading.tick))
        ⊎ (reading.ok ≡ false)
        ⊎ (reading.tick < d.last_tick)
        ⊎ (bit d.control.inhibited i ≡ 1)
      → bit (poll d requests reading).0.control.inhibited i ≡ 1
  poll-inhibits zero b h = rw poll-eq (ground (arith, after-bits.0))
  poll-inhibits (suc zero) b h = rw poll-eq (ground (arith, after-bits.1))
  poll-inhibits (suc (suc i)) b h = absurd (omega arith)
