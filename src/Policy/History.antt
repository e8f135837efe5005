-- ===== src/Policy/History.antt =====
-- What no sequence of requests can undo.
use tcs.Prelude.{ℕ, ap, ◌≤◌, ◌<◌, ◌≡◌, ◌≢◌, ◌⊎◌, Bool, List, [], ◌∷◌, All, arith}
use tcs.Policy.{apply, serve}
use tcs.Policy.Op
use tcs.Policy.Status
use tcs.Policy.Evolution.{Evolves, serve-Evolves}
use tcs.Policy.Types.{Actor, Subject, Policy, Request, active, quarantined, admin, subject_count}
use tcs.Policy.Invariant.{IsValidSubject, IsValid, serve-IsValid}
use tcs.Policy.Access.{check-ok_iff, serve_reduction}

-- One request as the server receives it, with the answer of the audit server.
pub record Call : Type 0 where
  pub actor : Actor
  pub request : Request
  pub audit_ok : Bool

unfoldable pub run : Policy → List Call → Policy
run p [] = p
run p (c ∷ cs) = run (serve p c.actor c.request c.audit_ok).0 cs

-- A property of one subject that every evolution keeps holds after every run.
run_induction :
    (P : Subject → Type 0) (ok : ℕ → Type 0)
    → ((op : ℕ) (s t : Subject) → ok op → IsValidSubject s → Evolves op s t → P s → P t)
    → (p : Policy) (cs : List Call) (i : ℕ) → IsValid p
    → i < subject_count
    → All (λ c. ok c.request.op) cs
    → P (p.subjects i)
    → P ((run p cs).subjects i)
unfolding run
run_induction P ok keep p [] i v h a x = x
run_induction P ok keep p (c ∷ cs) i v h a x =
    let p' = (serve p c.actor c.request c.audit_ok).0 in
    run_induction P ok keep p' cs i (serve-IsValid p c.actor c.request c.audit_ok v) h a.1 (
      keep c.request.op (p.subjects i) (p'.subjects i) a.0 (v i h)
        (serve-Evolves p c.actor c.request c.audit_ok i) x)

-- Every run keeps the invariant.
pub run-IsValid : (p : Policy) (cs : List Call) → IsValid p → IsValid (run p cs)
unfolding run
run-IsValid p [] v = v
run-IsValid p (c ∷ cs) v =
    run-IsValid (serve p c.actor c.request c.audit_ok).0 cs
      (serve-IsValid p c.actor c.request c.audit_ok v)

-- No session up to `g` is live, and none can become so.
record IsDead (g : ℕ) (s : Subject) : Type 0 where
  passed : g ≤ s.generation
  renewed : s.state ≡ active → g < s.generation

Evolves-IsDead :
    (g op : ℕ) (s t : Subject)
    → Unit {0}
    → IsValidSubject s
    → Evolves op s t
    → IsDead g s
    → IsDead g t
Evolves-IsDead g op s t u v e d = ground arith

Evolves-passed :
    (op : ℕ) (s t : Subject) → IsValidSubject s → Evolves op s t → s.generation ≤ t.generation
Evolves-passed op s t v e = ground arith

All-Unit : (cs : List Call) → All (λ c. Unit {0}) cs
All-Unit [] = tt
All-Unit (c ∷ cs) = (tt, All-Unit cs)

Evolves-quarantined :
    (op : ℕ) (s t : Subject)
    → op ≢ Op.restore
    → IsValidSubject s
    → Evolves op s t
    → s.state ≡ quarantined
    → t.state ≡ quarantined
Evolves-quarantined op s t n v e q = ground arith

-- From a valid policy, a quarantined subject of the array stays quarantined through every run
-- without a restore, and at its end neither a check nor a grant for it is answered OK to anybody.
pub quarantine_holds :
    (p : Policy) (cs : List Call) (i : ℕ) (a : Actor) (q : Request)
    → IsValid p
    → i < subject_count
    → (p.subjects i).state ≡ quarantined
    → All (λ c. c.request.op ≢ Op.restore) cs
    → q.subject ≡ i
    → (q.op ≡ Op.check) ⊎ (q.op ≡ Op.grant)
    → (((run p cs).subjects i).state ≡ quarantined) × ((apply (run p cs) a q).1.status ≢ Status.ok)
unfolding apply
quarantine_holds p cs i a q v b s n e o =
    let held =
      run_induction (λ s. s.state ≡ quarantined) (λ op. op ≢ Op.restore) Evolves-quarantined p cs i
        v b n s in
    (held, ground (arith, held, ap (λ (j : ℕ). ((run p cs).subjects j).state) e))

module _ (p : Policy) (r : Request) (audit_ok : Bool) (v : IsValid p)
    (o : (r.op ≡ Op.revoke) ⊎ (r.op ≡ Op.quarantine)) (b : r.subject < subject_count)
    (z : (r.object ≡ 0) × (r.rights ≡ 0) × (r.generation ≡ 0)) where
  abbrev after : Policy
  after = (serve p admin r audit_ok).0

  after-IsValid : IsValid after
  after-IsValid = serve-IsValid p admin r audit_ok v

  after-IsDead : IsDead (p.subjects r.subject).generation (after.subjects r.subject)
  after-IsDead = ground (
    arith,
    serve_reduction p r audit_ok o b z,
    Evolves-passed r.op (p.subjects r.subject) (after.subjects r.subject) (v r.subject b)
        (serve-Evolves p admin r audit_ok r.subject),
  )

  run-IsDead :
      (cs : List Call)
      → IsDead (p.subjects r.subject).generation ((run after cs).subjects r.subject)
  run-IsDead cs =
      run_induction (IsDead (p.subjects r.subject).generation) (λ op. Unit {0})
        (Evolves-IsDead (p.subjects r.subject).generation) after cs r.subject after-IsValid b
        (All-Unit cs) after-IsDead

  -- From a valid policy, once an administrator's well-formed revocation or quarantine of a subject
  -- has been served, audited or not, no check for any generation that the subject had by then is
  -- ever answered OK again, whatever requests follow, grants included.
  pub revoked_forever :
      (cs : List Call) (a : Actor) (q : Request)
      → q.op ≡ Op.check
      → q.subject ≡ r.subject
      → q.generation ≤ (p.subjects r.subject).generation
      → (apply (run after cs) a q).1.status ≢ Status.ok
  revoked_forever cs a q e s g ok = ground (
    arith,
    (check-ok_iff (run after cs) a q (run-IsValid after cs after-IsValid) e).0 ok,
    run-IsDead cs,
    ap (λ (i : ℕ). ((run after cs).subjects i).generation) s,
    ap (λ (i : ℕ). ((run after cs).subjects i).state) s,
  )
