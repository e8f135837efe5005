-- ===== src/Policy/Access.antt =====
-- Who may read, by lib/policy.c, and what serving a request does to that.
use tcs.Prelude.{
  ℕ, ◌<◌, ◌≡◌, ◌≢◌, ◌⊎◌, ◌↔◌, Bool, Bool-cases, ◌==◌, inl, inr, true, false, u64_max, arith,
}
use tcs.Policy.{check, apply_reduction, apply_grant, apply, serve}
use tcs.Policy.Op
use tcs.Policy.Status
use tcs.Policy.Types.{
  Actor, Subject, Policy, Request, active, quarantined, admin, storage, subject_count, the_object,
  read_right,
}
use tcs.Policy.Invariant.{IsValid, serve-IsValid}

-- What a read needs: the current session of an active subject, and the one object and right.
pub record MayRead (s : Subject) (r : Request) : Type 0 where
  pub live : s.state ≡ active
  pub current : r.generation ≡ s.generation
  pub object_ok : r.object ≡ the_object
  pub right_ok : r.rights ≡ read_right

-- On a valid policy a check is answered OK exactly when storage asks, for a subject of the array
-- that is active, with its current generation, for the one object and the read right alone.
pub check-ok_iff :
    (p : Policy) (a : Actor) (r : Request)
    → IsValid p
    → r.op ≡ Op.check
    → ((apply p a r).1.status ≡ Status.ok)
      ↔ ((a ≡ storage) × (r.subject < subject_count) × MayRead (p.subjects r.subject) r)
unfolding apply check
check-ok_iff p a r v e = (ground (arith, v r.subject), ground (arith, v r.subject))

-- What a grant needs, and nothing else.
pub record MayGrant (s : Subject) (r : Request) : Type 0 where
  pub free : s.state ≢ quarantined
  pub left : s.generation ≢ u64_max
  pub object_ok : r.object ≡ the_object
  pub right_ok : r.rights ≡ read_right
  pub fresh : r.generation ≡ 0

-- A grant is answered OK exactly when an administrator sends it, well formed, for a subject of the
-- array that is not quarantined and has a generation left.
pub grant-ok_iff :
    (p : Policy) (a : Actor) (r : Request)
    → r.op ≡ Op.grant
    → ((apply p a r).1.status ≡ Status.ok)
      ↔ ((a ≡ admin) × (r.subject < subject_count) × MayGrant (p.subjects r.subject) r)
unfolding apply apply_grant
grant-ok_iff p a r e = (ground arith, ground arith)

-- On a valid policy the value of a granted request is the session that it opened: a check for that
-- generation, the object and the right is answered OK on the new policy.
pub check-grant :
    (p : Policy) (r : Request)
    → IsValid p
    → r.op ≡ Op.grant
    → (apply p admin r).1.status ≡ Status.ok
    → let (p', granted) = apply p admin r in
      (apply p' storage (record {
        op = Op.check;
        subject = r.subject;
        object = the_object;
        rights = read_right;
        generation = granted.value;
      })).1.status
      ≡ Status.ok
unfolding apply apply_grant check
check-grant p r v e h = ground (arith, v r.subject)

serve-unaudited :
    (p : Policy) (a : Actor) (r : Request) (i : ℕ)
    → (((serve p a r false).0.subjects i).state ≡ active)
    → (serve p a r false).0.subjects i ≡ p.subjects i
unfolding serve apply apply_reduction
serve-unaudited p a r i h = ground arith

unaudited_check :
    (p : Policy) (a : Actor) (r : Request) (b : Actor) (q : Request)
    → IsValid p
    → q.op ≡ Op.check
    → (apply (serve p a r false).0 b q).1.status ≡ Status.ok
    → (apply p b q).1.status ≡ Status.ok
unaudited_check p a r b q v e ok =
    let may = (check-ok_iff (serve p a r false).0 b q (serve-IsValid p a r false v) e).0 ok in
    (check-ok_iff p b q v e).1 (ground (arith, may, serve-unaudited p a r q.subject))

-- On a valid policy a request whose audit fails is answered `audit_full`, whatever it asks for, and opens
-- no access: any check afterwards is not answered OK, or would have been answered OK before.
pub unaudited_opens_nothing :
    (p : Policy) (a : Actor) (r : Request) (b : Actor) (q : Request)
    → IsValid p
    → q.op ≡ Op.check
    → ((serve p a r false).1.status ≡ Status.audit_full)
      × (((apply (serve p a r false).0 b q).1.status ≢ Status.ok)
          ⊎ ((apply p b q).1.status ≡ Status.ok))
unaudited_opens_nothing p a r b q v e = (
  unfold serve in ground arith,
  elim (Bool-cases ((apply (serve p a r false).0 b q).1.status == Status.ok)) [
    | inl ok ↦ inr (unaudited_check p a r b q v e (ground (arith, ok)))
    | inr other ↦ inl (ground (arith, other))
  ],
)

-- A well-formed revocation or quarantine takes effect whatever the audit server answers: the subject
-- is no longer active, holds nothing, and after a quarantine is quarantined. The answer is OK
-- exactly when the audit succeeded.
pub serve_reduction :
    (p : Policy) (r : Request) (audit_ok : Bool)
    → (r.op ≡ Op.revoke) ⊎ (r.op ≡ Op.quarantine)
    → r.subject < subject_count
    → (r.object ≡ 0) × (r.rights ≡ 0) × (r.generation ≡ 0)
    → let (p', answer) = serve p admin r audit_ok in
      let s = p'.subjects r.subject in
      (s.state ≢ active)
      × (s.object ≡ 0)
      × (s.rights ≡ 0)
      × ((r.op ≡ Op.revoke) ⊎ (s.state ≡ quarantined))
      × ((answer.status ≡ Status.ok) ↔ (audit_ok ≡ true))
unfolding serve apply apply_reduction
serve_reduction p r audit_ok o b z = ground arith
