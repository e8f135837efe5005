-- ===== src/Servers/System/Confinement.antt =====
-- What the client can change: nothing of the policy.
use tcs.Prelude.{ℕ, ◌≡◌, ◌⊎◌, arith, List, [], ◌∷◌}
use tcs.Policy.Op
use tcs.Policy.Types.{storage, Request}
use tcs.Ipc.{Message, message, op_label, self_status, store_status, store_read, policy_call}
use tcs.Servers.Storage
use tcs.Servers.Client
use tcs.Servers.PolicyServer.{request}
use tcs.Servers.PolicyServer.Decisions.{protected_cases, served-check}
use tcs.Servers.System.{System, audit_step, policy_step, storage_step, client_step}

-- The message of a check.
abbrev pub check_message : Request → Message
check_message r = message (op_label Op.check) (r.subject ∷ r.object ∷ r.rights ∷ r.generation ∷ [])

-- The messages that storage sends.
policy_step-check :
    (s : System) (m : Message)
    → (m.label ≡ op_label self_status) ⊎ (m.label ≡ op_label Op.check)
    → (policy_step s 1 m).0.policy ≡ s.policy
unfolding policy_step
policy_step-check s m k = ground (
  arith,
  protected_cases audit_step s.policy s.audit 1 m,
  served-check audit_step s.policy s.audit storage (request m),
)

storage_step-policy :
    (s : System) (ch : ℕ) (m : Message) → (storage_step s ch m).0.policy ≡ s.policy
unfolding storage_step Storage.protected policy_call
storage_step-policy s ch m =
    let asked = policy_step-check s (message (op_label self_status) []) in
    ground (arith, asked, policy_step-check s (check_message (Storage.read_request m)))

-- Whatever is sent to the client on any channel, its call leaves the live policy as it was: no session
-- is opened, none is closed and no generation is spent.
pub client_confined : (s : System) (ch : ℕ) (m : Message) → (client_step s ch m).0.policy ≡ s.policy
unfolding client_step Client.protected
client_confined s ch m =
    let passed =
      λ (op : ℕ) (words : List ℕ). storage_step-policy s 0 (message (op_label op) words) in
    ground (
      arith,
      passed store_status [],
      passed store_read [],
      passed Op.grant [],
      passed store_read m.words,
    )
