-- ===== src/Deadline/Lifetime.antt =====
-- `tcs_dl_apply` of lib/deadline.c: a lifetime is set once, by the reservation, and ends for good.
use tcs.Prelude.{
  ℕ, ◌≤◌, ◌<◌, ◌≡◌, ◌≢◌, ◌⊎◌, inl, inr, Bool, true, false, List, [], ◌∷◌, bit, refl, sym, ◌∙◌, ap,
  arith, u64_max, All,
}
use tcs.Lifecycle.Types.{Actor, Event, slot_count}
use tcs.Reduction
use tcs.Deadline.{Deadline, Reading, poll, apply_polled, apply, allows, valid}
use tcs.Deadline.Valid.{InWords, valid_iff_deadline}
use tcs.Deadline.Poll.{poll-valid, poll-inhibits}
use tcs.Deadline.Admission.{apply_polled-IsValid, apply_polled-keeps}

-- One call of `tcs_dl_apply`.
pub record Call : Type 0 where
  pub requests : ℕ
  pub reading : Reading
  pub actor : Actor
  pub event : Event
  pub audit_ok : Bool
  pub duration : ℕ

abbrev pub act : Deadline → Call → Deadline
act d k = (apply d k.requests k.reading k.actor k.event k.audit_ok k.duration).0

unfoldable pub run : Deadline → List Call → Deadline
run d [] = d
run d (k ∷ ks) = run (act d k) ks

-- The tick is a `uint64_t`.
abbrev pub InRange : Call → Type 0
InRange k = k.reading.tick ≤ u64_max

module _ (d : Deadline) (k : Call) (v : valid d ≡ true) (w : InWords d) (t : InRange k) where
  abbrev polled : Deadline
  polled = (poll d k.requests k.reading).0

  apply-eq : act d k ≡ (apply_polled polled k.actor k.event k.audit_ok k.duration).0
  unfolding apply
  apply-eq = ground (arith, poll-valid d k.requests k.reading v w t)

  -- Whatever is requested and read, and whatever the event and the duration, a state that
  -- `tcs_dl_valid` accepts and whose words fit is followed by such a state.
  pub apply-valid_deadline : (valid (act d k) ≡ true) × InWords (act d k)
  apply-valid_deadline =
      let p = poll-valid d k.requests k.reading v w t in
      let q =
        apply_polled-IsValid polled ((valid_iff_deadline polled).0 p.0) p.1 k.actor k.event
          k.audit_ok k.duration in
      rw apply-eq ((valid_iff_deadline _).1 q.0, q.1)

  apply-keeps :
      (i : ℕ)
      → i < slot_count
      → (bit (act d k).control.inhibited i ≡ bit polled.control.inhibited i)
        × ((d.end i ≡ 0) ⊎ ((act d k).end i ≡ d.end i))
  apply-keeps i b =
      let p = poll-valid d k.requests k.reading v w t in
      let q =
        apply_polled-keeps polled ((valid_iff_deadline polled).0 p.0) p.1 k.actor k.event k.audit_ok
          k.duration i b in
      rw apply-eq (q.0, ground (arith, q.1, ap (λ (f : ℕ → ℕ). f i) p.2))

-- What makes a call inhibit slot `i`: its end has come, or the clock failed or went back.
abbrev pub IsOver : Deadline → Call → ℕ → Type 0
IsOver d k i =
    ((d.end i ≢ 0) × (d.end i ≤ k.reading.tick))
    ⊎ (k.reading.ok ≡ false)
    ⊎ (k.reading.tick < d.last_tick)

IsOver-reason :
    (d : Deadline) (k : Call) (i : ℕ)
    → IsOver d k i
    → ((d.end i ≢ 0) × (d.end i ≤ k.reading.tick))
      ⊎ (k.reading.ok ≡ false)
      ⊎ (k.reading.tick < d.last_tick)
      ⊎ (bit d.control.inhibited i ≡ 1)
IsOver-reason d k i (inl x) = inl x
IsOver-reason d k i (inr (inl x)) = inr (inl x)
IsOver-reason d k i (inr (inr x)) = inr (inr (inl x))

run-inhibited :
    (d : Deadline) (ks : List Call) (i : ℕ)
    → valid d ≡ true
    → InWords d
    → All InRange ks
    → i < slot_count
    → bit d.control.inhibited i ≡ 1
    → bit (run d ks).control.inhibited i ≡ 1
unfolding run
run-inhibited d [] i v w t b h = h
run-inhibited d (k ∷ ks) i v w t b h =
    let (v', w') = apply-valid_deadline d k v w t.0 in
    run-inhibited (act d k) ks i v' w' t.1 b (
      (apply-keeps d k v w t.0 i b).0
      ∙ poll-inhibits d k.requests k.reading v w i b (inr (inr (inr h))))

-- From a valid state whose words fit: once a call has read a tick at or past the end of a slot, or
-- the clock has failed or gone back, no work is admitted in that slot after that call or any
-- further ones, whatever they request, read or do.
pub expired_forever :
    (d : Deadline) (k : Call) (ks : List Call) (i a : ℕ)
    → valid d ≡ true
    → InWords d
    → All InRange (k ∷ ks)
    → i < slot_count
    → IsOver d k i
    → allows (run d (k ∷ ks)) i a ≢ true
unfolding run allows Reduction.allows
expired_forever d k ks i a v w t b h y =
    let (v', w') = apply-valid_deadline d k v w t.0 in
    let now =
      (apply-keeps d k v w t.0 i b).0
      ∙ poll-inhibits d k.requests k.reading v w i b (IsOver-reason d k i h) in
    ground (arith, run-inhibited (act d k) ks i v' w' t.1 b now)

-- From a valid state whose words fit, an end that is set is never changed: no renewal, no extension
-- and no cancellation.
pub run-end :
    (d : Deadline) (ks : List Call) (i : ℕ)
    → valid d ≡ true
    → InWords d
    → All InRange ks
    → i < slot_count
    → d.end i ≢ 0
    → (run d ks).end i ≡ d.end i
unfolding run
run-end d [] i v w t b n = refl
run-end d (k ∷ ks) i v w t b n =
    let (v', w') = apply-valid_deadline d k v w t.0 in
    let same : (act d k).end i ≡ d.end i = ground (arith, (apply-keeps d k v w t.0 i b).1) in
    run-end (act d k) ks i v' w' t.1 b (λ z. n (sym same ∙ z)) ∙ same
