-- ===== src/Policy/Evolution.antt =====
-- The three ways in which a request can change a subject, read off lib/policy.c once for the other
-- proofs.
use tcs.Prelude.{ℕ, ◌≡◌, ◌≢◌, ◌⊎◌, Bool, true, arith, u64_max, inc64}
use tcs.Policy.{
  apply_reduction, apply_grant, apply, serve, next_generation, reduced_state, is_reduction,
}
use tcs.Policy.Op
use tcs.Policy.Types.{Actor, Subject, Policy, Request, active, quarantined, the_object, read_right}

abbrev pub granted : Subject → Subject
granted s = record {
  generation = inc64 s.generation;
  object = the_object;
  rights = read_right;
  state = active;
}

abbrev pub reduced : ℕ → Subject → Subject
reduced op s = record {
  generation = next_generation s.generation;
  object = 0;
  rights = 0;
  state = reduced_state op s.state;
}

pub record Grants (op : ℕ) (s t : Subject) : Type 0 where
  pub is_grant : op ≡ Op.grant
  pub free : s.state ≢ quarantined
  pub left : s.generation ≢ u64_max
  pub result : t ≡ granted s

pub record Reduces (op : ℕ) (s t : Subject) : Type 0 where
  pub is_reduction : is_reduction op ≡ true
  pub restores : op ≡ Op.restore → s.state ≡ quarantined
  pub result : t ≡ reduced op s

-- From `s` a request with this operation may lead to `t`.
abbrev pub Evolves : ℕ → Subject → Subject → Type 0
Evolves op s t = (t ≡ s) ⊎ Grants op s t ⊎ Reduces op s t

apply_reduction-Evolves :
    (p : Policy) (r : Request) (i : ℕ)
    → is_reduction r.op ≡ true
    → Evolves r.op (p.subjects i) ((apply_reduction p r).0.subjects i)
unfolding apply_reduction
apply_reduction-Evolves p r i h = ground arith

apply_grant-Evolves :
    (p : Policy) (r : Request) (i : ℕ)
    → r.op ≡ Op.grant
    → (p.subjects r.subject).state ≢ quarantined
    → r.object ≡ the_object
    → r.rights ≡ read_right
    → Evolves r.op (p.subjects i) ((apply_grant p r).0.subjects i)
unfolding apply_grant
apply_grant-Evolves p r i e f o q = ground arith

-- Every request moves every subject along these ways, and only an administrator's moves any.
pub apply-Evolves :
    (p : Policy) (a : Actor) (r : Request) (i : ℕ)
    → Evolves r.op (p.subjects i) ((apply p a r).0.subjects i)
unfolding apply
apply-Evolves p a r i = ground (arith, apply_reduction-Evolves p r i, apply_grant-Evolves p r i)

pub serve-Evolves :
    (p : Policy) (a : Actor) (r : Request) (audit_ok : Bool) (i : ℕ)
    → Evolves r.op (p.subjects i) ((serve p a r audit_ok).0.subjects i)
unfolding serve
serve-Evolves p a r audit_ok i = ground (arith, apply-Evolves p a r i)
