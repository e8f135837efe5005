-- ===== src/Reduction/Stop.antt =====
-- The stop mask and the mailbox of lib/reduction.c.
use tcs.Prelude.{
  ℕ, zero, suc, ◌/◌, ◌≤◌, ◌<◌, ◌≡◌, ◌≢◌, ◌⊎◌, inl, ◌↔◌, Bool, true, false, ◌&&◌, ◌==◌,
  if◌then◌else◌, List, [], ◌∷◌, bit, bit_or, bit_or_low, refl, arith,
}
use tcs.Lifecycle.Phase
use tcs.Lifecycle.Types.{Slot, Lifecycle, slot_count}
use tcs.Lifecycle.Invariant.{IsWords}
use tcs.Reduction.{Reduction, all_slots, mask_from, stop_mask, publish, valid, allows}
use tcs.Reduction.Latch.{Call, run, bit-all, latched_forever}

abbrev wants_stop : Slot → Bool
wants_stop s = (s.state == Phase.closing) && (s.stopped == 0)

abbrev with_bit : ℕ → Bool → ℕ → ℕ
with_bit mask b m = if b then bit_or mask m else mask

mask_from-eq :
    (life : Lifecycle)
    → mask_from life slot_count 0 0
      ≡ with_bit (with_bit 0 (wants_stop (life.slots 0)) 1) (wants_stop (life.slots 1)) 2
unfolding mask_from
mask_from-eq life = refl

stop_bits :
    (b d : Bool)
    → let m = with_bit (with_bit 0 b 1) d 2 in
      (m / 4 ≡ 0) × (bit m 0 ≡ (if b then 1 else 0)) × (bit m 1 ≡ (if d then 1 else 0))
stop_bits true true = (refl, refl, refl)
stop_bits true false = (refl, refl, refl)
stop_bits false true = (refl, refl, refl)
stop_bits false false = (refl, refl, refl)

mask_from-bit :
    (life : Lifecycle) (i : ℕ)
    → i < slot_count
    → (mask_from life slot_count 0 0 ≤ all_slots)
      × (bit (mask_from life slot_count 0 0) i ≡ (if wants_stop (life.slots i) then 1 else 0))
mask_from-bit life zero b =
    let bits = stop_bits (wants_stop (life.slots 0)) (wants_stop (life.slots 1)) in
    rw (mask_from-eq life) (omega (arith, bits), bits.1)
mask_from-bit life (suc zero) b =
    let bits = stop_bits (wants_stop (life.slots 0)) (wants_stop (life.slots 1)) in
    rw (mask_from-eq life) (omega (arith, bits), bits.2)
mask_from-bit life (suc (suc i)) b = absurd (omega arith)

-- The stop mask asks for exactly the slots that are closing and whose stop is not confirmed, and for
-- both slots where the state is not valid; it has no other bits.
pub stop_mask_lem :
    (c : Reduction) (i : ℕ)
    → i < slot_count
    → let s = c.life.slots i in
      (stop_mask c ≤ all_slots)
      × ((bit (stop_mask c) i ≡ 1)
          ↔ ((valid c ≡ false) ⊎ ((s.state ≡ Phase.closing) × (s.stopped ≡ 0))))
unfolding stop_mask
stop_mask_lem c i b =
    let bits = mask_from-bit c.life i b in
    let full = bit-all i b in
    (ground (arith, bits), (λ h. ground (arith, bits), λ h. ground (arith, bits, full)))

unfoldable pub publish_all : ℕ → List ℕ → ℕ
publish_all m [] = m
publish_all m (r ∷ rs) = publish_all (publish m r).0 rs

publish-bit : (m r i : ℕ) → i < slot_count → bit m i ≡ 1 → bit (publish m r).0 i ≡ 1
unfolding publish
publish-bit m r zero b h = ground (arith, bit_or_low m r)
publish-bit m r (suc zero) b h = ground (arith, bit_or_low m r)
publish-bit m r (suc (suc i)) b h = absurd (omega arith)

publish_new : (m r i : ℕ) → i < slot_count → r ≤ all_slots → bit r i ≡ 1 → bit (publish m r).0 i ≡ 1
unfolding publish
publish_new m r zero b f h = ground (arith, bit_or_low m r)
publish_new m r (suc zero) b f h = ground (arith, bit_or_low m r)
publish_new m r (suc (suc i)) b f h = absurd (omega arith)

publish_all-bit :
    (m : ℕ) (rs : List ℕ) (i : ℕ) → i < slot_count → bit m i ≡ 1 → bit (publish_all m rs) i ≡ 1
unfolding publish_all
publish_all-bit m [] i b h = h
publish_all-bit m (r ∷ rs) i b h = publish_all-bit (publish m r).0 rs i b (publish-bit m r i b h)

-- A well-formed request for a slot that is published, with whatever is published after it, reaches
-- the latch at the next call that samples the mailbox: from a valid state with counters that fit,
-- no work is admitted in that slot after that call or any further one.
pub published_latches :
    (m r : ℕ) (rs : List ℕ) (c : Reduction) (k : Call) (ks : List Call) (i a : ℕ)
    → r ≤ all_slots
    → bit r i ≡ 1
    → i < slot_count
    → k.sample ≡ publish_all (publish m r).0 rs
    → valid c ≡ true
    → IsWords c.life
    → ((publish m r).1 ≡ true) × (allows (run c (k ∷ ks)) i a ≢ true)
published_latches m r rs c k ks i a f h b e v w = (
  unfold publish in ground arith,
  (latched_forever c k ks i a v w b
      (inl (rw e (publish_all-bit (publish m r).0 rs i b (publish_new m r i b f h))))).0,
)
