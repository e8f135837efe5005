-- ===== src/Deadline/Admission.antt =====
-- What one event does past the poll of `tcs_dl_apply` in lib/deadline.c.
use tcs.Prelude.{
  ℕ, zero, suc, ◌+◌, ◌%◌, ◌≤◌, ◌<◌, ◌≡◌, ◌≢◌, ◌⊎◌, inl, inr, Bool, true, false, ◌==◌, if◌then◌else◌,
  bit, refl, sym, subst, ◌∙◌, ap, arith, u64_max, u64_mod,
}
use tcs.Lifecycle
use tcs.Lifecycle.Op
use tcs.Lifecycle.Phase
use tcs.Lifecycle.Status
use tcs.Lifecycle.Types.{Actor, Slot, Lifecycle, Event, Result, slot_count}
use tcs.Lifecycle.Evolution.{apply-Outcome}
use tcs.Lifecycle.Invariant.{IsWords}
use tcs.Reduction
use tcs.Reduction.{Reduction, PollStatus, all_slots}
use tcs.Reduction.Poll.{poll_lem, mask_bits}
use tcs.Reduction.Latch.{apply-eq, bit-mask_after, apply-mask}
use tcs.Reduction.Latch as Sticky
use tcs.Deadline.{Deadline, apply_polled, bad_duration, update}
use tcs.Deadline.Valid.{IsTimed, IsValid, InWords}

-- A slot comes into use by a reservation of it, and in no other way, and never leaves use.
abbrev Uses : Event → ℕ → Slot → Slot → Type 0
Uses e i s t =
    ((e.op ≡ Op.reserve) × (i ≡ e.slot) × (s.state ≡ Phase.unused) × (t.state ≢ Phase.unused))
    ⊎ (((e.op ≢ Op.reserve) ⊎ (i ≢ e.slot))
        × (((s.state ≡ Phase.unused) × (t.state ≡ Phase.unused))
            ⊎ ((s.state ≢ Phase.unused) × (t.state ≢ Phase.unused))))

event-Uses :
    (life : Lifecycle) (actor : Actor) (e : Event) (audit_ok : Bool) (i : ℕ)
    → (Lifecycle.apply life actor e audit_ok).1.status ≡ Status.ok
    → Uses e i (life.slots i) ((Lifecycle.apply life actor e audit_ok).0.slots i)
event-Uses life actor e audit_ok i h = elim (apply-Outcome life actor e audit_ok) [
  | inl r ↦ absurd (r.refused h)
  | inr (_, p, inl c) ↦
      subst (λ l. Uses e i (life.slots i) (l.slots i)) (sym c.result)
        (ground (arith, c.was, c.is_reserve))
  | inr (_, p, inr c) ↦
      subst (λ l. Uses e i (life.slots i) (l.slots i)) (sym c.others) (ground (arith, c.step))
]

bit-zero : (i : ℕ) → i < slot_count → bit 0 i ≡ 0
bit-zero zero b = refl
bit-zero (suc zero) b = refl
bit-zero (suc (suc i)) b = absurd (omega arith)

module _ (c : Reduction) (v : Reduction.valid c ≡ true) (w : IsWords c.life) where
  -- A poll of no requests brings no slot into use or out of it.
  quiet-unused :
      (i : ℕ)
      → i < slot_count
      → let t = (Reduction.poll c 0).0.life.slots i in
        (((c.life.slots i).state ≡ Phase.unused) × (t.state ≡ Phase.unused))
        ⊎ (((c.life.slots i).state ≢ Phase.unused) × (t.state ≢ Phase.unused))
  quiet-unused zero b = rw (poll_lem c 0 v w).0.first (ground arith)
  quiet-unused (suc zero) b = rw (poll_lem c 0 v w).0.second (ground arith)
  quiet-unused (suc (suc i)) b = absurd (omega arith)

  latch-Uses :
      (actor : Actor) (e : Event) (audit_ok : Bool) (i : ℕ)
      → i < slot_count
      → (Reduction.apply c 0 actor e audit_ok).1.status ≡ Status.ok
      → Uses e i (c.life.slots i) ((Reduction.apply c 0 actor e audit_ok).0.life.slots i)
  unfolding Reduction.apply_polled
  latch-Uses actor e audit_ok i b h = rw (apply-eq c 0 v w actor e audit_ok) (
      ground (
        arith,
        quiet-unused i b,
        event-Uses (Reduction.poll c 0).0.life actor e audit_ok i,
        rw (apply-eq c 0 v w actor e audit_ok) at h,
      ))

  latch-bit :
      (actor : Actor) (e : Event) (audit_ok : Bool) (i : ℕ)
      → i < slot_count
      → bit (Reduction.apply c 0 actor e audit_ok).0.inhibited i ≡ bit c.inhibited i
  latch-bit actor e audit_ok i b =
      ap (λ m. bit m i) (apply-mask c 0 v w actor e audit_ok)
      ∙ bit-mask_after c 0 i b
      ∙ omega (arith, bit-zero i b)

-- The slot of an event is timed after it, by a fresh end if it is reserved.
Uses-IsTimed :
    (d : Deadline) (e : Event) (duration i b : ℕ) (s t : Slot)
    → d.last_tick ≤ u64_max
    → bad_duration d e duration ≡ false
    → Uses e i s t
    → IsTimed b s (d.end i) d.last_tick
    → IsTimed b t
        ((if e.op == Op.reserve
            then update d.end e.slot ((d.last_tick + duration) % u64_mod)
            else d.end)
          i)
        d.last_tick
Uses-IsTimed d e duration i b s t w n u h = ground arith

IsTimed-of_bit :
    {b b' : ℕ} (s : Slot) {end last : ℕ} → b' ≡ b → IsTimed b s end last → IsTimed b' s end last
IsTimed-of_bit s p h = rw p h

valid-IsTimed :
    (d : Deadline) (i : ℕ)
    → IsValid d
    → i < slot_count
    → IsTimed (bit d.control.inhibited i) (d.control.life.slots i) (d.end i) d.last_tick
valid-IsTimed d zero v b = v.first
valid-IsTimed d (suc zero) v b = v.second
valid-IsTimed d (suc (suc i)) v b = absurd (omega arith)

all_kept :
    (c : Reduction) (v : Reduction.valid c ≡ true) (w : IsWords c.life) (actor : Actor) (e : Event)
    (audit_ok : Bool)
    → c.inhibited ≡ all_slots
    → (Reduction.apply c 0 actor e audit_ok).0.inhibited ≡ all_slots
all_kept c v w actor e audit_ok h =
    apply-mask c 0 v w actor e audit_ok ∙ ground (arith, mask_bits c 0)

module _ (d : Deadline) (v : IsValid d) (w : InWords d) (actor : Actor) (e : Event)
    (audit_ok : Bool) (duration : ℕ) where
  abbrev step : Reduction × Result
  step = Reduction.apply d.control 0 actor e audit_ok

  abbrev accepted : Deadline
  accepted = record d {
    control = step.0;
    end =
        if e.op == Op.reserve
        then update d.end e.slot ((d.last_tick + duration) % u64_mod)
        else d.end;
  }

  accepted-IsValid :
      bad_duration d e duration ≡ false
      → step.1.status ≡ Status.ok
      → IsValid accepted × InWords accepted
  accepted-IsValid n ok =
      let kept = Sticky.apply-valid_latch d.control 0 v.control_ok w.counters actor e audit_ok in
      let bits = latch-bit d.control v.control_ok w.counters actor e audit_ok in
      let uses = latch-Uses d.control v.control_ok w.counters actor e audit_ok in
      (
        record {
          control_ok = kept.0;
          fault_flag = v.fault_flag;
          fault_holds =
              ground
                (arith, v.fault_holds, all_kept d.control v.control_ok w.counters actor e audit_ok);
          first = IsTimed-of_bit (step.0.life.slots 0) (bits 0 (omega arith)) (
              Uses-IsTimed d e duration 0 (bit d.control.inhibited 0) (d.control.life.slots 0)
                (step.0.life.slots 0) w.clock n (uses 0 (omega arith) ok) v.first);
          second = IsTimed-of_bit (step.0.life.slots 1) (bits 1 (omega arith)) (
              Uses-IsTimed d e duration 1 (bit d.control.inhibited 1) (d.control.life.slots 1)
                (step.0.life.slots 1) w.clock n (uses 1 (omega arith) ok) v.second);
        },
        record { counters = kept.1; clock = w.clock },
      )

  -- What an event that is accepted or refused after the poll leaves.
  apply_polled-cases :
      (apply_polled d actor e audit_ok duration).0 ≡ d
      ⊎ ((bad_duration d e duration ≡ false)
          × (step.1.status ≡ Status.ok)
          × ((apply_polled d actor e audit_ok duration).0 ≡ accepted))
  unfolding apply_polled
  apply_polled-cases = ground arith

  pub apply_polled-IsValid :
      IsValid (apply_polled d actor e audit_ok duration).0
      × InWords (apply_polled d actor e audit_ok duration).0
  apply_polled-IsValid = elim apply_polled-cases [
    | inl same ↦ subst (λ k. IsValid k × InWords k) (sym same) (v, w)
    | inr (n, ok, new) ↦ subst (λ k. IsValid k × InWords k) (sym new) (accepted-IsValid n ok)
  ]

  -- Past the poll a bit that is set stays set, and an end that is set is not changed.
  pub apply_polled-keeps :
      (i : ℕ)
      → i < slot_count
      → (bit (apply_polled d actor e audit_ok duration).0.control.inhibited i
          ≡ bit d.control.inhibited i)
        × ((d.end i ≡ 0) ⊎ ((apply_polled d actor e audit_ok duration).0.end i ≡ d.end i))
  apply_polled-keeps i b = elim apply_polled-cases [
    | inl same ↦
        subst
          (λ k.
            (bit k.control.inhibited i ≡ bit d.control.inhibited i)
            × ((d.end i ≡ 0) ⊎ (k.end i ≡ d.end i)))
          (sym same) (refl, inr refl)
    | inr (n, ok, new) ↦
        subst
          (λ k.
            (bit k.control.inhibited i ≡ bit d.control.inhibited i)
            × ((d.end i ≡ 0) ⊎ (k.end i ≡ d.end i)))
          (sym new)
          (
            latch-bit d.control v.control_ok w.counters actor e audit_ok i b,
            ground (
              arith,
              latch-Uses d.control v.control_ok w.counters actor e audit_ok i b ok,
              valid-IsTimed d i v b,
            ),
          )
  ]
