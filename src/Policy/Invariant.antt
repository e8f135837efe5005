-- ===== src/Policy/Invariant.antt =====
-- What holds of every subject between two requests to lib/policy.c, and what a request leaves alone.
use tcs.Prelude.{ℕ, ◌≤◌, ◌<◌, ◌≡◌, ◌≢◌, ◌⊎◌, Bool, true, arith, u64_max}
use tcs.Policy.{apply_reduction, apply_grant, apply, serve, self_status, snapshot_valid}
use tcs.Policy.Op
use tcs.Policy.Status
use tcs.Policy.Evolution.{Evolves, apply-Evolves, serve-Evolves}
use tcs.Policy.Types.{
  Actor, Subject, Policy, Request, active, storage, subject_count, client_subject, the_object,
  read_right, state_code,
}

-- Only an active subject names an object or holds a right, and it has a session.
pub record IsValidSubject (s : Subject) : Type 0 where
  pub bounded : s.generation ≤ u64_max
  pub holds :
      s.state ≡ active → (s.generation ≢ 0) × (s.object ≡ the_object) × (s.rights ≡ read_right)
  pub empty : s.state ≢ active → (s.object ≡ 0) × (s.rights ≡ 0)

abbrev pub IsValid : Policy → Type 0
IsValid p = (i : ℕ) → i < subject_count → IsValidSubject (p.subjects i)

Evolves-IsValid : {op : ℕ} {s t : Subject} → Evolves op s t → IsValidSubject s → IsValidSubject t
Evolves-IsValid e v = ground arith

-- Every request by every actor, refused or not, keeps the invariant.
pub apply-IsValid : (p : Policy) (a : Actor) (r : Request) → IsValid p → IsValid (apply p a r).0
apply-IsValid p a r v i h = Evolves-IsValid (apply-Evolves p a r i) (v i h)

-- Serving a request keeps the invariant, whatever the audit server answers.
pub serve-IsValid :
    (p : Policy) (a : Actor) (r : Request) (audit_ok : Bool)
    → IsValid p
    → IsValid (serve p a r audit_ok).0
serve-IsValid p a r audit_ok v i h = Evolves-IsValid (serve-Evolves p a r audit_ok i) (v i h)

-- A request that is not answered OK leaves the policy as it was, and so does every check.
pub apply_unchanged :
    (p : Policy) (a : Actor) (r : Request)
    → ((apply p a r).1.status ≢ Status.ok) ⊎ (r.op ≡ Op.check)
    → (apply p a r).0 ≡ p
unfolding apply apply_reduction apply_grant
apply_unchanged p a r h = ground arith

-- A request changes no subject but the one that it names, and none past the array.
pub apply_others :
    (p : Policy) (a : Actor) (r : Request) (j : ℕ)
    → (j ≢ r.subject) ⊎ (subject_count ≤ j)
    → (apply p a r).0.subjects j ≡ p.subjects j
unfolding apply apply_reduction apply_grant
apply_others p a r j h = ground arith

-- On a valid policy, storage's question for the client's own status is always answered, with the
-- state and the fields of that subject, and the answer passes `tcs_snapshot_valid`.
pub self_status_lem :
    (p : Policy)
    → IsValid p
    → let s = p.subjects client_subject in
      let n = self_status p storage in
      (snapshot_valid n ≡ true)
      × (n.status ≡ Status.ok)
      × (n.state ≡ state_code s.state)
      × (n.generation ≡ s.generation)
      × (n.object ≡ s.object)
      × (n.rights ≡ s.rights)
unfolding self_status snapshot_valid
self_status_lem p v = ground (arith, v client_subject)
