-- ===== src/Admin/Execution.antt =====
-- The receipts that servers/admin_policy.c gives, against the test of lib/admin_receipt.c.
use tcs.Prelude.{ℕ, ◌<◌, ◌≡◌, ◌≢◌, ◌⊎◌, inl, inr, Bool, true, arith}
use tcs.Policy
use tcs.Policy.Op
use tcs.Policy.Status
use tcs.Policy.Types.{Policy, subject_count, the_object, read_right}
use tcs.Policy.Invariant.{IsValid}
use tcs.Admin.Types.{Command}
use tcs.Admin.Receipt.{
  execution_valid, answers, denial_ok, state_ok, receipt_valid, compare_apply, execute_command,
}

abbrev made : ℕ → ℕ → ℕ → ℕ → ℕ → ℕ → ℕ → Command
made sequence expected op subject object rights generation = record {
  sequence = sequence;
  expected_generation = expected;
  request = record {
    op = op;
    subject = subject;
    object = object;
    rights = rights;
    generation = generation;
  };
}

module _ (live : Policy) (valid : IsValid live) (sequence expected subject : ℕ)
    (some_sequence : sequence ≢ 0) (in_range : subject < subject_count) (audit_ok : Bool) where
  abbrev IsAnswered : Command → Type 0
  IsAnswered c = receipt_valid c (execute_command live c audit_ok).1 ≡ true

  revoke-IsAnswered : IsAnswered (made sequence expected Op.revoke subject 0 0 0)
  unfolding receipt_valid execute_command compare_apply execution_valid answers denial_ok state_ok
      Policy.apply Policy.apply_reduction Policy.commit Policy.snapshot_valid
  revoke-IsAnswered = ground (arith, valid subject in_range)

  quarantine-IsAnswered : IsAnswered (made sequence expected Op.quarantine subject 0 0 0)
  unfolding receipt_valid execute_command compare_apply execution_valid answers denial_ok state_ok
      Policy.apply Policy.apply_reduction Policy.commit Policy.snapshot_valid
  quarantine-IsAnswered = ground (arith, valid subject in_range)

  restore-IsAnswered : IsAnswered (made sequence expected Op.restore subject 0 0 0)
  unfolding receipt_valid execute_command compare_apply execution_valid answers denial_ok state_ok
      Policy.apply Policy.apply_reduction Policy.commit Policy.snapshot_valid
  restore-IsAnswered = ground (arith, valid subject in_range)

  grant-IsAnswered : IsAnswered (made sequence expected Op.grant subject the_object read_right 0)
  unfolding receipt_valid execute_command compare_apply execution_valid answers denial_ok state_ok
      Policy.apply Policy.apply_grant Policy.commit Policy.snapshot_valid
  grant-IsAnswered = ground (arith, valid subject in_range)

-- The commands that may be executed.
abbrev IsExecutable : ℕ → ℕ → ℕ → ℕ → ℕ → ℕ → Type 0
IsExecutable sequence op subject object rights generation =
    (sequence ≢ 0)
    × (subject < subject_count)
    × (generation ≡ 0)
    × (((op ≡ Op.grant) × (object ≡ the_object) × (rights ≡ read_right))
        ⊎ ((op ≡ Op.revoke) × (object ≡ 0) × (rights ≡ 0))
        ⊎ ((op ≡ Op.quarantine) × (object ≡ 0) × (rights ≡ 0))
        ⊎ ((op ≡ Op.restore) × (object ≡ 0) × (rights ≡ 0)))

executable :
    (sequence expected op subject object rights generation : ℕ)
    → execution_valid (made sequence expected op subject object rights generation) ≡ true
    → IsExecutable sequence op subject object rights generation
unfolding execution_valid
executable sequence expected op subject object rights generation h = ground arith

made_answered :
    (live : Policy) (audit_ok : Bool) (sequence expected op subject object rights generation : ℕ)
    → IsValid live
    → IsExecutable sequence op subject object rights generation
    → let c = made sequence expected op subject object rights generation in
      receipt_valid c (execute_command live c audit_ok).1 ≡ true
made_answered live audit_ok n x op i o r g v (s, l, z, kind) = elim kind [
  | inl (e, f, h) ↦ rw (z, e, f, h) (grant-IsAnswered live v n x i s l audit_ok)
  | inr (inl (e, f, h)) ↦ rw (z, e, f, h) (revoke-IsAnswered live v n x i s l audit_ok)
  | inr (inr (inl (e, f, h))) ↦ rw (z, e, f, h) (quarantine-IsAnswered live v n x i s l audit_ok)
  | inr (inr (inr (e, f, h))) ↦ rw (z, e, f, h) (restore-IsAnswered live v n x i s l audit_ok)
]

-- On a valid policy, whatever the audit server answers, the receipt of an executable command passes
-- the test that the administrator makes of it.
pub execute_command-receipt_valid :
    (live : Policy) (c : Command) (audit_ok : Bool)
    → IsValid live
    → execution_valid c ≡ true
    → receipt_valid c (execute_command live c audit_ok).1 ≡ true
execute_command-receipt_valid live c audit_ok v e =
    let q = c.request in
    made_answered live audit_ok c.sequence c.expected_generation q.op q.subject q.object q.rights
      q.generation v
      (executable c.sequence c.expected_generation q.op q.subject q.object q.rights q.generation e)

-- A command is applied only if its decision was OK and the subject had the generation that the
-- command expects; a command that is not applied leaves the policy as it was.
pub execute_command-applied :
    (live : Policy) (c : Command) (audit_ok : Bool)
    → let (next, receipt) = execute_command live c audit_ok in
      ((receipt.applied ≡ 0) × (next ≡ live))
      ⊎ ((receipt.applied ≡ 1)
          × (receipt.decision ≡ Status.ok)
          × ((live.subjects c.request.subject).generation ≡ c.expected_generation))
unfolding execute_command compare_apply Policy.commit
execute_command-applied live c audit_ok = ground arith
