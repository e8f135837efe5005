-- ===== src/Reduction/Poll.antt =====
-- `tcs_rd_poll` of lib/reduction.c: on a valid state it never fails, and contains every live slot
-- that is inhibited.
use tcs.Prelude.{
  ℕ, suc, ◌+◌, ◌/◌, ◌≤◌, ◌<◌, ◌≡◌, ◌≢◌, inl, inr, true, false, ◌&&◌, ◌!=◌, ◌==◌, if◌then◌else◌, max,
  some, bit, bit_or, bit_or_low, refl, subst, ◌∙◌, ap, arith, Bool-cases,
}
use tcs.Lifecycle
use tcs.Lifecycle.Phase
use tcs.Lifecycle.Types.{detector, Slot, Lifecycle, slot_count}
use tcs.Lifecycle.Invariant.{IsWords, apply-valid}
use tcs.Lifecycle.Gate.{contain_works}
use tcs.Reduction.{
  Reduction, PollStatus, ok, malformed, all_slots, is_live, contain_one, contain_from, poll, valid,
}
use tcs.Reduction.Valid.{IsHeld, IsValid, valid_iff_latch}

-- A slot after the poll, with its bit of the inhibited mask.
abbrev pub held : ℕ → Slot → Slot
held b s = if (b != 0) && is_live s then record s { state = Phase.closing } else s

-- The mask after the poll.
abbrev pub mask_after : Reduction → ℕ → ℕ
mask_after c sample = bit_or c.inhibited (if sample / 4 != 0 then all_slots else sample)

abbrev contained : Lifecycle → ℕ → ℕ → Lifecycle
contained life inhibited i =
    if (bit inhibited i != 0) && is_live (life.slots i)
    then Lifecycle.store life i (record (life.slots i) { state = Phase.closing })
    else life

contain_one_lem :
    (life : Lifecycle) (inhibited i : ℕ)
    → Lifecycle.valid life ≡ true
    → i < slot_count
    → contain_one life inhibited i ≡ some (contained life inhibited i)
unfolding contain_one
contain_one_lem life inhibited i v b = ground (arith, contain_works life detector i false v b)

contained-valid :
    (life : Lifecycle) (inhibited i : ℕ)
    → Lifecycle.valid life ≡ true
    → IsWords life
    → i < slot_count
    → (Lifecycle.valid (contained life inhibited i) ≡ true) × IsWords (contained life inhibited i)
contained-valid life inhibited i v w b =
    elim (Bool-cases ((bit inhibited i != 0) && is_live (life.slots i))) [
      | inl y ↦ rw y (
          subst (λ l. (Lifecycle.valid l ≡ true) × IsWords l)
            (ground (arith, contain_works life detector i false v b))
            (apply-valid life detector (Lifecycle.containment life i) false w v))
      | inr n ↦ rw n (v, w)
    ]

contain_from-suc :
    (life next : Lifecycle) (inhibited n i : ℕ)
    → contain_one life inhibited i ≡ some next
    → contain_from life inhibited (suc n) i ≡ contain_from next inhibited n (i + 1)
unfolding contain_from
contain_from-suc life next inhibited n i h = ground arith

-- What the loop leaves of a valid life: both slots after the poll, the rest as before.
abbrev after_loop : Lifecycle → ℕ → Lifecycle
after_loop life inhibited = contained (contained life inhibited 0) inhibited 1

contain_from_lem :
    (life : Lifecycle) (inhibited : ℕ)
    → Lifecycle.valid life ≡ true
    → IsWords life
    → contain_from life inhibited slot_count 0 ≡ some (after_loop life inhibited)
contain_from_lem life inhibited v w =
    let first = contained life inhibited 0 in
    let (v', w') = contained-valid life inhibited 0 v w (omega arith) in
    contain_from-suc life first inhibited 1 0 (contain_one_lem life inhibited 0 v (omega arith))
    ∙ contain_from-suc first (after_loop life inhibited) inhibited 0 1
        (contain_one_lem first inhibited 1 v' (omega arith))
    ∙ (unfold contain_from in refl)

after_loop-valid :
    (life : Lifecycle) (inhibited : ℕ)
    → Lifecycle.valid life ≡ true
    → IsWords life
    → (Lifecycle.valid (after_loop life inhibited) ≡ true) × IsWords (after_loop life inhibited)
after_loop-valid life inhibited v w =
    let (v', w') = contained-valid life inhibited 0 v w (omega arith) in
    contained-valid (contained life inhibited 0) inhibited 1 v' w' (omega arith)

contained-slots :
    (life : Lifecycle) (inhibited i j : ℕ)
    → (contained life inhibited i).slots j
      ≡ (if j == i then held (bit inhibited i) (life.slots i) else life.slots j)
contained-slots life inhibited i j = ground arith

contained-last :
    (life : Lifecycle) (inhibited i : ℕ)
    → (contained life inhibited i).last_incarnation ≡ life.last_incarnation
contained-last life inhibited i = ground arith

-- A poll of a valid state, with counters that fit their words, for any sample: it does not fail; the
-- mask gains the bits of the sample, or every bit if the sample is malformed, which also latches the
-- fault; each live slot with its bit set is closing, and the rest of the lifecycle is as before.
pub record Polled (c : Reduction) (sample : ℕ) (next : Reduction) (status : PollStatus)
    : Type 0 where
  pub status_is : status ≡ (if sample / 4 != 0 then malformed else ok)
  pub mask : next.inhibited ≡ mask_after c sample
  pub fault : next.input_fault ≡ (if sample / 4 != 0 then 1 else c.input_fault)
  pub first : next.life.slots 0 ≡ held (bit (mask_after c sample) 0) (c.life.slots 0)
  pub second : next.life.slots 1 ≡ held (bit (mask_after c sample) 1) (c.life.slots 1)
  pub last : next.life.last_incarnation ≡ c.life.last_incarnation

poll-eq :
    (c : Reduction) (sample : ℕ)
    → valid c ≡ true
    → IsWords c.life
    → poll c sample ≡ (
      record {
        life = after_loop c.life (mask_after c sample);
        inhibited = mask_after c sample;
        input_fault = if sample / 4 != 0 then 1 else c.input_fault;
      },
      if sample / 4 != 0 then malformed else ok,
    )
unfolding poll
poll-eq c sample v w =
    rw (v, contain_from_lem c.life (mask_after c sample) ((valid_iff_latch c).0 v).life_ok w)

held-IsHeld : (b : ℕ) (s : Slot) → IsHeld b (held b s)
held-IsHeld b s = ground arith

-- The sample, or every bit where the sample is malformed.
abbrev pub read_sample : ℕ → ℕ
read_sample sample = if sample / 4 != 0 then all_slots else sample

-- The mask keeps its bits and gains those of the sample.
pub mask_bits :
    (c : Reduction) (sample : ℕ)
    → (mask_after c sample / 4 ≡ c.inhibited / 4)
      × (bit (mask_after c sample) 0 ≡ max (bit c.inhibited 0) (bit (read_sample sample) 0))
      × (bit (mask_after c sample) 1 ≡ max (bit c.inhibited 1) (bit (read_sample sample) 1))
mask_bits c sample = ground (arith, bit_or_low c.inhibited (read_sample sample))

all_inhibited :
    (c : Reduction) (sample : ℕ) → c.inhibited ≡ all_slots → mask_after c sample ≡ all_slots
all_inhibited c sample h = ground (arith, mask_bits c sample)

malformed_inhibits :
    (c : Reduction) (sample : ℕ)
    → c.inhibited ≤ all_slots
    → sample / 4 ≢ 0
    → mask_after c sample ≡ all_slots
malformed_inhibits c sample b h = ground (arith, mask_bits c sample)

module _ (c : Reduction) (sample : ℕ) (v : valid c ≡ true) (w : IsWords c.life) where
  abbrev before : IsValid c
  before = (valid_iff_latch c).0 v

  abbrev swept : Lifecycle
  swept = after_loop c.life (mask_after c sample)

  abbrev polled : Reduction
  polled = record {
    life = swept;
    inhibited = mask_after c sample;
    input_fault = if sample / 4 != 0 then 1 else c.input_fault;
  }

  swept_first : swept.slots 0 ≡ held (bit (mask_after c sample) 0) (c.life.slots 0)
  swept_first =
      contained-slots (contained c.life (mask_after c sample) 0) (mask_after c sample) 1 0
      ∙ contained-slots c.life (mask_after c sample) 0 0

  swept_second : swept.slots 1 ≡ held (bit (mask_after c sample) 1) (c.life.slots 1)
  swept_second =
      contained-slots (contained c.life (mask_after c sample) 0) (mask_after c sample) 1 1
      ∙ ap (held (bit (mask_after c sample) 1)) (contained-slots c.life (mask_after c sample) 0 1)

  polled-Polled : Polled c sample polled (if sample / 4 != 0 then malformed else ok)
  polled-Polled = record {
    status_is = refl;
    mask = refl;
    fault = refl;
    first = swept_first;
    second = swept_second;
    last =
        contained-last (contained c.life (mask_after c sample) 0) (mask_after c sample) 1
        ∙ contained-last c.life (mask_after c sample) 0;
  }

  polled-IsValid : IsValid polled
  polled-IsValid = record {
    life_ok = (after_loop-valid c.life (mask_after c sample) before.life_ok w).0;
    mask = ground (arith, before.mask, mask_bits c sample);
    fault_flag = ground (arith, before.fault_flag);
    fault_holds = ground (
      arith,
      before.fault_holds,
      before.mask,
      all_inhibited c sample,
      malformed_inhibits c sample,
    );
    first = rw swept_first (held-IsHeld (bit (mask_after c sample) 0) (c.life.slots 0));
    second = rw swept_second (held-IsHeld (bit (mask_after c sample) 1) (c.life.slots 1));
  }

  -- On a valid state with counters that fit their words, a poll of any sample does not fail: it has
  -- the effect `Polled`, and the state after it is valid again, its counters in their words.
  pub poll_lem :
      let (next, status) = poll c sample in
      Polled c sample next status × (valid next ≡ true) × IsWords next.life
  poll_lem = rw (poll-eq c sample v w) (
    polled-Polled,
    (valid_iff_latch polled).1 polled-IsValid,
    (after_loop-valid c.life (mask_after c sample) before.life_ok w).1,
  )
