-- ===== src/Lifecycle/History.antt =====
-- What no sequence of events can undo in lib/lifecycle.c: slots are used once.
use tcs.Prelude.{ℕ, ◌≤◌, ◌<◌, ◌≡◌, ◌≢◌, ◌⊎◌, inl, inr, Bool, true, List, [], ◌∷◌, arith, sym, subst}
use tcs.Lifecycle.{apply, valid, allows, containment}
use tcs.Lifecycle.Phase
use tcs.Lifecycle.Types.{Actor, admin, supervisor, detector, Slot, Lifecycle, Event, slot_count}
use tcs.Lifecycle.Evolution.{apply-Outcome}
use tcs.Lifecycle.Invariant.{IsWords, Works-frame, apply-valid}
use tcs.Lifecycle.Gate.{allows-active, contain_works}

-- An event as the owner of the state receives it.
pub record Call : Type 0 where
  pub actor : Actor
  pub event : Event
  pub audit_ok : Bool

unfoldable pub run : Lifecycle → List Call → Lifecycle
run life [] = life
run life (c ∷ cs) = run (apply life c.actor c.event c.audit_ok).0 cs

-- `t` is the same use of a slot as `s`, at the same phase or a later one.
pub record Forward (s t : Slot) : Type 0 where
  pub phase : s.state ≤ t.state
  pub same_use : s.state ≢ Phase.unused → t.incarnation ≡ s.incarnation

Forward-trans : {s t u : Slot} → Forward s t → Forward t u → Forward s u
Forward-trans f g = ground arith

apply-Forward :
    (life : Lifecycle) (actor : Actor) (e : Event) (audit_ok : Bool) (i : ℕ)
    → Forward (life.slots i) ((apply life actor e audit_ok).0.slots i)
apply-Forward life actor e audit_ok i = elim (apply-Outcome life actor e audit_ok) [
  | inl r ↦ subst (λ l. Forward (life.slots i) (l.slots i)) (sym r.same) (omega arith)
  | inr (_, p, inl c) ↦
      subst (λ l. Forward (life.slots i) (l.slots i)) (sym c.result) (ground (arith, c.was))
  | inr (_, p, inr c) ↦
      subst (λ l. Forward (life.slots i) (l.slots i)) (sym c.others)
        (ground (arith, Works-frame c.step))
]

-- Through any events, a slot's phase only goes forward, and once it is in use it keeps the
-- incarnation of that use: it is never reset or used again.
pub run-Forward :
    (life : Lifecycle) (cs : List Call) (i : ℕ) → Forward (life.slots i) ((run life cs).slots i)
unfolding run
run-Forward life [] i = omega arith
run-Forward life (c ∷ cs) i =
    Forward-trans (apply-Forward life c.actor c.event c.audit_ok i)
      (run-Forward (apply life c.actor c.event c.audit_ok).0 cs i)

-- Through any events, a state that `tcs_lc_valid` accepts, with counters that fit, stays so.
pub run-valid :
    (life : Lifecycle) (cs : List Call)
    → IsWords life
    → valid life ≡ true
    → (valid (run life cs) ≡ true) × IsWords (run life cs)
unfolding run
run-valid life [] w v = (v, w)
run-valid life (c ∷ cs) w v =
    let (v', w') = apply-valid life c.actor c.event c.audit_ok w v in
    run-valid (apply life c.actor c.event c.audit_ok).0 cs w' v'

-- Once the current incarnation of a starting, ready or active slot has been contained, audited or
-- not, the gate admits no incarnation in that slot after any further events.
pub contained_forever :
    (life : Lifecycle) (actor : Actor) (i : ℕ) (audit_ok : Bool) (cs : List Call) (a : ℕ)
    → valid life ≡ true
    → i < slot_count
    → (Phase.starting ≤ (life.slots i).state) × ((life.slots i).state ≤ Phase.active)
    → (actor ≡ admin) ⊎ (actor ≡ supervisor) ⊎ (actor ≡ detector)
    → allows (run (apply life actor (containment life i) audit_ok).0 cs) i a ≢ true
contained_forever life actor i audit_ok cs a v b p w h =
    let next = (apply life actor (containment life i) audit_ok).0 in
    ground (
      arith,
      contain_works life actor i audit_ok v b p w,
      run-Forward next cs i,
      allows-active (run next cs) i a h,
    )
