-- ===== src/Lifecycle/Invariant.antt =====
-- `tcs_lc_apply` of lib/lifecycle.c keeps what `tcs_lc_valid` checks.
use tcs.Prelude.{
  ℕ, zero, suc, ◌≤◌, ◌<◌, ◌≡◌, ◌≢◌, inl, inr, Bool, true, arith, u64_max, inc64, sym, subst,
}
use tcs.Lifecycle.{apply, valid, store, update}
use tcs.Lifecycle.Phase
use tcs.Lifecycle.Types.{Actor, Slot, Lifecycle, Event, slot_count}
use tcs.Lifecycle.Valid.{IsValidSlot, IsValid, IsFree, valid_iff}
use tcs.Lifecycle.Evolution.{Reserves, Changes, Works, apply-Outcome}

-- The counters fit their words, as they do in C.
pub record IsWords (life : Lifecycle) : Type 0 where
  pub last : life.last_incarnation ≤ u64_max
  pub issued : (i : ℕ) → i < slot_count → (life.slots i).issued ≤ u64_max

module _ {e : Event} {audit_ok : Bool} {s t : Slot} (w : Works e audit_ok s t) where
  Works-IsValidSlot : {last : ℕ} → s.issued ≤ u64_max → IsValidSlot last s → IsValidSlot last t
  Works-IsValidSlot b v = ground arith

  -- Work keeps the incarnation and starts on a slot in use, and the phases only go forward.
  pub Works-frame :
      (t.incarnation ≡ s.incarnation)
      × (s.state ≢ Phase.unused)
      × (s.state ≢ Phase.retired)
      × (s.state ≤ t.state)
  Works-frame = ground arith

  pub Works-words : s.issued ≤ u64_max → t.issued ≤ u64_max
  Works-words b = ground arith

store-IsValid :
    (life : Lifecycle) (i : ℕ) (t : Slot)
    → i < slot_count
    → IsValid life
    → IsValidSlot life.last_incarnation t
    → t.incarnation ≡ (life.slots i).incarnation
    → (life.slots i).state ≢ Phase.unused
    → (life.slots i).state ≢ Phase.retired
    → IsValid (store life i t)
store-IsValid life zero t b v w e n m = record {
  first = w;
  second = v.second;
  distinct = ground (arith, v.distinct);
  one_at_a_time = ground (arith, v.one_at_a_time);
}
store-IsValid life (suc zero) t b v w e n m = record {
  first = v.first;
  second = w;
  distinct = ground (arith, v.distinct);
  one_at_a_time = ground (arith, v.one_at_a_time);
}
store-IsValid life (suc (suc i)) t b v w e n m = absurd (omega arith)

IsValidSlot-mono :
    {last last' : ℕ} {s : Slot} → last ≤ last' → IsValidSlot last s → IsValidSlot last' s
IsValidSlot-mono h v = ground arith

-- The slot that a reservation fills.
abbrev pub fill : ℕ → Slot → Slot
fill last s = record s { incarnation = inc64 last; state = Phase.starting }

fill-IsValidSlot :
    {last : ℕ} {s : Slot}
    → last ≤ u64_max
    → last ≢ u64_max
    → s.state ≡ Phase.unused
    → IsValidSlot last s
    → IsValidSlot (inc64 last) (fill last s)
fill-IsValidSlot b n u v = ground arith

reserved-IsValid :
    (life : Lifecycle) (i : ℕ)
    → i < slot_count
    → IsValid life
    → life.last_incarnation ≤ u64_max
    → life.last_incarnation ≢ u64_max
    → (life.slots i).state ≡ Phase.unused
    → IsFree (life.slots 0) × IsFree (life.slots 1)
    → IsValid (record {
      last_incarnation = inc64 life.last_incarnation;
      slots = update life.slots i (fill life.last_incarnation (life.slots i));
    })
reserved-IsValid life zero b v w n u f = record {
  first = fill-IsValidSlot w n u v.first;
  second = IsValidSlot-mono (omega arith) v.second;
  distinct = ground (arith, v.second);
  one_at_a_time = inr f.1;
}
reserved-IsValid life (suc zero) b v w n u f = record {
  first = IsValidSlot-mono (omega arith) v.first;
  second = fill-IsValidSlot w n u v.second;
  distinct = ground (arith, v.first);
  one_at_a_time = inl f.0;
}
reserved-IsValid life (suc (suc i)) b v w n u f = absurd (omega arith)

pub slot-IsValid :
    (life : Lifecycle) (i : ℕ)
    → i < slot_count
    → IsValid life
    → IsValidSlot life.last_incarnation (life.slots i)
slot-IsValid life zero b v = v.first
slot-IsValid life (suc zero) b v = v.second
slot-IsValid life (suc (suc i)) b v = absurd (omega arith)

module _ {life next : Lifecycle} {e : Event} {audit_ok : Bool} (words : IsWords life)
    (b : e.slot < slot_count) where
  Changes-IsValid : Changes life e audit_ok next → IsValid life → IsValid next
  Changes-IsValid c v =
      let frame = Works-frame c.step in
      subst IsValid (sym c.others) (
        store-IsValid life e.slot (next.slots e.slot) b v
          (Works-IsValidSlot c.step (words.issued e.slot b) (slot-IsValid life e.slot b v)) frame.0
          frame.1 frame.2)

  Reserves-IsValid : Reserves life e audit_ok next → IsValid life → IsValid next
  Reserves-IsValid c v =
      subst IsValid (sym c.result) (reserved-IsValid life e.slot b v words.last c.left c.was c.free)

  Changes-IsWords : Changes life e audit_ok next → IsWords next
  Changes-IsWords c = subst IsWords (sym c.others) (record {
    last = words.last;
    issued = λ i h. ground (arith, words.issued i h, Works-words c.step (words.issued e.slot b));
  })

  Reserves-IsWords : Reserves life e audit_ok next → IsWords next
  Reserves-IsWords c = subst IsWords (sym c.result) (record {
    last = ground arith;
    issued = λ i h. ground (arith, words.issued i h, words.issued e.slot b);
  })

-- Whatever the event, the actor and the audit answer, a state that `tcs_lc_valid` accepts, with
-- counters that fit their words, is followed by such a state.
pub apply-valid :
    (life : Lifecycle) (actor : Actor) (e : Event) (audit_ok : Bool)
    → IsWords life
    → valid life ≡ true
    → (valid (apply life actor e audit_ok).0 ≡ true) × IsWords (apply life actor e audit_ok).0
apply-valid life actor e audit_ok words v =
    let next = (apply life actor e audit_ok).0 in
    let before = (valid_iff life).0 v in
    elim (apply-Outcome life actor e audit_ok) [
      | inl r ↦ (subst (λ l. valid l ≡ true) (sym r.same) v, subst IsWords (sym r.same) words)
      | inr (o, p, inl c) ↦ (
        (valid_iff next).1 (Reserves-IsValid words p.in_range c before),
        Reserves-IsWords words p.in_range c,
      )
      | inr (o, p, inr c) ↦ (
        (valid_iff next).1 (Changes-IsValid words p.in_range c before),
        Changes-IsWords words p.in_range c,
      )
    ]
