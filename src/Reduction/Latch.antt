-- ===== src/Reduction/Latch.antt =====
-- The latch of lib/reduction.c is sticky, and closes the work gate for good.
use tcs.Prelude.{
  ℕ, zero, suc, ◌/◌, ◌<◌, ◌≡◌, ◌≢◌, ◌⊎◌, inl, inr, Bool, true, max, List, [], ◌∷◌, bit, refl, sym,
  subst, ◌∙◌, ap, arith,
}
use tcs.Lifecycle
use tcs.Lifecycle.Op
use tcs.Lifecycle.Types.{Actor, Lifecycle, Event, slot_count}
use tcs.Lifecycle.Evolution.{apply-Outcome}
use tcs.Lifecycle.Invariant.{IsWords, apply-valid as event-valid}
use tcs.Lifecycle.Gate.{allows-active}
use tcs.Reduction.{Reduction, all_slots, poll, apply_polled, apply, allows, valid}
use tcs.Reduction.Valid.{IsHeld, IsValid, valid_iff_latch}
use tcs.Reduction.Poll.{poll_lem, mask_bits, mask_after, read_sample}

-- What an event of the lifecycle can do to a held slot, unless it is a reservation or activation of
-- that slot.
apply-IsHeld :
    (life : Lifecycle) (actor : Actor) (e : Event) (audit_ok : Bool) (b i : ℕ)
    → (i ≢ e.slot) ⊎ (b ≡ 0) ⊎ ((e.op ≢ Op.reserve) × (e.op ≢ Op.activate))
    → IsHeld b (life.slots i)
    → IsHeld b ((Lifecycle.apply life actor e audit_ok).0.slots i)
apply-IsHeld life actor e audit_ok b i n h = elim (apply-Outcome life actor e audit_ok) [
  | inl r ↦ subst (λ l. IsHeld b (l.slots i)) (sym r.same) h
  | inr (_, p, inl c) ↦
      subst (λ l. IsHeld b (l.slots i)) (sym c.result) (ground (arith, c.is_reserve))
  | inr (_, p, inr c) ↦ subst (λ l. IsHeld b (l.slots i)) (sym c.others) (ground (arith, c.step))
]

apply_polled-IsValid :
    (c : Reduction) (actor : Actor) (e : Event) (audit_ok : Bool)
    → IsValid c
    → IsWords c.life
    → IsValid (apply_polled c actor e audit_ok).0 × IsWords (apply_polled c actor e audit_ok).0.life
unfolding apply_polled
apply_polled-IsValid c actor e audit_ok v w = ground (
  arith,
  apply-IsHeld c.life actor e audit_ok (bit c.inhibited 0) 0,
  apply-IsHeld c.life actor e audit_ok (bit c.inhibited 1) 1,
  event-valid c.life actor e audit_ok w v.life_ok,
)

module _ (c : Reduction) (sample : ℕ) (v : valid c ≡ true) (w : IsWords c.life) where
  pub apply-eq :
      (actor : Actor) (e : Event) (audit_ok : Bool)
      → apply c sample actor e audit_ok ≡ apply_polled (poll c sample).0 actor e audit_ok
  unfolding apply
  apply-eq actor e audit_ok = ground (arith, poll_lem c sample v w)

  -- Whatever is sampled and whatever the event, a state that `tcs_rd_valid` accepts, with counters
  -- that fit their words, is followed by such a state.
  pub apply-valid_latch :
      (actor : Actor) (e : Event) (audit_ok : Bool)
      → (valid (apply c sample actor e audit_ok).0 ≡ true)
        × IsWords (apply c sample actor e audit_ok).0.life
  apply-valid_latch actor e audit_ok =
      let after = poll_lem c sample v w in
      let polled = (poll c sample).0 in
      let (v', w') =
        apply_polled-IsValid polled actor e audit_ok ((valid_iff_latch polled).0 after.1) after.2 in
      rw (apply-eq actor e audit_ok)
        ((valid_iff_latch (apply_polled polled actor e audit_ok).0).1 v', w')

  pub apply-mask :
      (actor : Actor) (e : Event) (audit_ok : Bool)
      → (apply c sample actor e audit_ok).0.inhibited ≡ mask_after c sample
  unfolding apply_polled
  apply-mask actor e audit_ok =
      rw (apply-eq actor e audit_ok) (ground (arith, poll_lem c sample v w))

pub bit-mask_after :
    (c : Reduction) (sample i : ℕ)
    → i < slot_count
    → bit (mask_after c sample) i ≡ max (bit c.inhibited i) (bit (read_sample sample) i)
bit-mask_after c sample zero b = (mask_bits c sample).1
bit-mask_after c sample (suc zero) b = (mask_bits c sample).2
bit-mask_after c sample (suc (suc i)) b = absurd (omega arith)

pub bit-all : (i : ℕ) → i < slot_count → bit all_slots i ≡ 1
bit-all zero b = refl
bit-all (suc zero) b = refl
bit-all (suc (suc i)) b = absurd (omega arith)

-- One call of `tcs_rd_apply`.
pub record Call : Type 0 where
  pub sample : ℕ
  pub actor : Actor
  pub event : Event
  pub audit_ok : Bool

unfoldable pub run : Reduction → List Call → Reduction
run c [] = c
run c (k ∷ ks) = run (apply c k.sample k.actor k.event k.audit_ok).0 ks

run-latched :
    (c : Reduction) (ks : List Call) (i : ℕ)
    → valid c ≡ true
    → IsWords c.life
    → i < slot_count
    → bit c.inhibited i ≡ 1
    → (valid (run c ks) ≡ true) × (bit (run c ks).inhibited i ≡ 1)
unfolding run
run-latched c [] i v w b h = (v, h)
run-latched c (k ∷ ks) i v w b h =
    let next = (apply c k.sample k.actor k.event k.audit_ok).0 in
    let (v', w') = apply-valid_latch c k.sample v w k.actor k.event k.audit_ok in
    run-latched next ks i v' w' b (
      ap (λ m. bit m i) (apply-mask c k.sample v w k.actor k.event k.audit_ok)
      ∙ omega (arith, bit-mask_after c k.sample i b))

valid-IsHeld :
    (c : Reduction) (i : ℕ)
    → IsValid c
    → i < slot_count
    → IsHeld (bit c.inhibited i) (c.life.slots i)
valid-IsHeld c zero v b = v.first
valid-IsHeld c (suc zero) v b = v.second
valid-IsHeld c (suc (suc i)) v b = absurd (omega arith)

latched-first :
    (c : Reduction) (k : Call) (i : ℕ)
    → valid c ≡ true
    → IsWords c.life
    → i < slot_count
    → (bit k.sample i ≡ 1) ⊎ (k.sample / 4 ≢ 0)
    → bit (apply c k.sample k.actor k.event k.audit_ok).0.inhibited i ≡ 1
latched-first c k i v w b h =
    ap (λ m. bit m i) (apply-mask c k.sample v w k.actor k.event k.audit_ok)
    ∙ ground (arith, bit-mask_after c k.sample i b, bit-all i b)

-- From a valid state with counters that fit, once one call has sampled a request for a slot, or a
-- malformed word, then after that call and any further ones neither the latch nor the lifecycle
-- under it admits work in that slot, whatever the events, the actors and the samples are.
pub latched_forever :
    (c : Reduction) (k : Call) (ks : List Call) (i a : ℕ)
    → valid c ≡ true
    → IsWords c.life
    → i < slot_count
    → (bit k.sample i ≡ 1) ⊎ (k.sample / 4 ≢ 0)
    → let next = run c (k ∷ ks) in
      (allows next i a ≢ true) × (Lifecycle.allows next.life i a ≢ true)
unfolding run allows
latched_forever c k ks i a v w b h =
    let first = (apply c k.sample k.actor k.event k.audit_ok).0 in
    let (v', w') = apply-valid_latch c k.sample v w k.actor k.event k.audit_ok in
    let last = run first ks in
    let (v'', l) = run-latched first ks i v' w' b (latched-first c k i v w b h) in
    (
      λ y. ground (arith, l),
      λ y. ground (
        arith,
        l,
        allows-active last.life i a y,
        valid-IsHeld last i ((valid_iff_latch last).0 v'') b,
      ),
    )
