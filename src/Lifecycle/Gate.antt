-- ===== src/Lifecycle/Gate.antt =====
-- The work gate of lib/lifecycle.c: who opens it, who closes it, and that it stays closed.
use tcs.Prelude.{
  ℕ, zero, suc, ◌≤◌, ◌<◌, ◌≡◌, ◌≢◌, ◌⊎◌, inl, inr, Bool, true, arith, refl, sym, ap, ◌∙◌,
}
use tcs.Lifecycle.{apply, valid, allows, permitted, dispatch, contain, containment, store}
use tcs.Lifecycle.Op
use tcs.Lifecycle.Phase
use tcs.Lifecycle.Status
use tcs.Lifecycle.Types.{Actor, admin, supervisor, broker, detector, Lifecycle, Event, slot_count}
use tcs.Lifecycle.Valid.{IsValid, IsFree, valid_iff}
use tcs.Lifecycle.Evolution.{apply-Outcome}
use tcs.Lifecycle.Invariant.{slot-IsValid}

pub allows-active :
    (life : Lifecycle) (i a : ℕ)
    → allows life i a ≡ true
    → (valid life ≡ true)
      × (i < slot_count)
      × ((life.slots i).state ≡ Phase.active)
      × ((life.slots i).incarnation ≡ a)
unfolding allows
allows-active life i a h = ground arith

active_unique :
    (life : Lifecycle) (i j : ℕ)
    → IsValid life
    → i < slot_count
    → j < slot_count
    → (life.slots i).state ≡ Phase.active
    → (life.slots j).state ≡ Phase.active
    → i ≡ j
active_unique life zero zero v b c p q = refl
active_unique life zero (suc zero) v b c p q = absurd (ground (arith, v.one_at_a_time))
active_unique life (suc zero) zero v b c p q = absurd (ground (arith, v.one_at_a_time))
active_unique life (suc zero) (suc zero) v b c p q = refl
active_unique life (suc (suc i)) j v b c p q = absurd (omega arith)
active_unique life i (suc (suc j)) v b c p q = absurd (omega arith)

-- The gate admits at most one slot and incarnation at a time.
pub allows_unique :
    (life : Lifecycle) (i a j b : ℕ)
    → allows life i a ≡ true
    → allows life j b ≡ true
    → (i ≡ j) × (a ≡ b)
allows_unique life i a j b h k =
    let (v, bi, si, ai) = allows-active life i a h in
    let (w, bj, sj, aj) = allows-active life j b k in
    let same = active_unique life i j ((valid_iff life).0 v) bi bj si sj in
    (same, sym ai ∙ ap (λ (n : ℕ). (life.slots n).incarnation) same ∙ aj)

-- Every answer but OK has value zero and leaves the state exactly as it was.
pub apply_refused :
    (life : Lifecycle) (actor : Actor) (e : Event) (audit_ok : Bool)
    → (apply life actor e audit_ok).1.status ≢ Status.ok
    → ((apply life actor e audit_ok).0 ≡ life) × ((apply life actor e audit_ok).1.value ≡ 0)
apply_refused life actor e audit_ok h = ground (arith, apply-Outcome life actor e audit_ok)

-- An event is answered OK only to the actor whose operation it is: an administrator reserves and
-- activates, and only with an audit record; the supervisor confirms starts and stops; the broker
-- begins, completes and drains work; administrator, supervisor or detector contain.
pub apply_authority :
    (life : Lifecycle) (actor : Actor) (e : Event) (audit_ok : Bool)
    → (apply life actor e audit_ok).1.status ≡ Status.ok
    → (((e.op ≡ Op.reserve) ⊎ (e.op ≡ Op.activate)) × (actor ≡ admin) × (audit_ok ≡ true))
      ⊎ (((e.op ≡ Op.started) ⊎ (e.op ≡ Op.stopped)) × (actor ≡ supervisor))
      ⊎ (((e.op ≡ Op.begin) ⊎ (e.op ≡ Op.complete) ⊎ (e.op ≡ Op.drained)) × (actor ≡ broker))
      ⊎ ((e.op ≡ Op.contain) × ((actor ≡ admin) ⊎ (actor ≡ supervisor) ⊎ (actor ≡ detector)))
unfolding permitted
apply_authority life actor e audit_ok h = ground (arith, apply-Outcome life actor e audit_ok)

-- Containing the current incarnation of a starting, ready or active slot is answered OK with or
-- without an audit record. The slot is closing, its work is kept as it was, and nothing else changes.
pub contain_works :
    (life : Lifecycle) (actor : Actor) (i : ℕ) (audit_ok : Bool)
    → valid life ≡ true
    → i < slot_count
    → (Phase.starting ≤ (life.slots i).state) × ((life.slots i).state ≤ Phase.active)
    → (actor ≡ admin) ⊎ (actor ≡ supervisor) ⊎ (actor ≡ detector)
    → let s = life.slots i in
      let (next, r) = apply life actor (containment life i) audit_ok in
      (r.status ≡ Status.ok)
      × (r.value ≡ s.incarnation)
      × (next ≡ store life i (record s { state = Phase.closing }))
unfolding apply permitted dispatch contain
contain_works life actor i audit_ok v b p a =
    ground (arith, slot-IsValid life i b ((valid_iff life).0 v))

IsFree-of :
    (life : Lifecycle) (j : ℕ)
    → j < slot_count
    → IsFree (life.slots 0) × IsFree (life.slots 1)
    → IsFree (life.slots j)
IsFree-of life zero b f = f.0
IsFree-of life (suc zero) b f = f.1
IsFree-of life (suc (suc j)) b f = absurd (omega arith)

-- A slot is reserved only when the other is unused, or is stopped, drained and without pending work.
pub reserve_needs_settled :
    (life : Lifecycle) (actor : Actor) (e : Event) (audit_ok : Bool) (j : ℕ)
    → e.op ≡ Op.reserve
    → (apply life actor e audit_ok).1.status ≡ Status.ok
    → j < slot_count
    → let s = life.slots j in
      (s.state ≡ Phase.unused)
      ⊎ ((s.state ≡ Phase.retired) × (s.stopped ≡ 1) × (s.drained ≡ 1) × (s.pending ≡ 0))
reserve_needs_settled life actor e audit_ok j o h b = elim (apply-Outcome life actor e audit_ok) [
  | inl r ↦ absurd (r.refused h)
  | inr (_, p, inl c) ↦
      ground (
        arith,
        IsFree-of life j b c.free,
        slot-IsValid life j b ((valid_iff life).0 p.valid_before),
      )
  | inr (_, p, inr c) ↦ absurd (ground (arith, c.step))
]
