-- ===== src/Servers/System.antt =====
-- The servers of system/tcs.system over its channels: the client calls storage, storage calls the
-- policy server, and that calls the audit server. The console drives the first, the third and the last.
pub mod Confinement
pub mod Reads
pub mod Trail
pub mod Revocation
use tcs.Prelude.{ℕ, List, [], ◌∷◌}
use tcs.Ipc.{Message}
use tcs.Servers.Audit
use tcs.Servers.Audit.{Audit}
use tcs.Servers.Client
use tcs.Servers.PolicyServer
use tcs.Servers.PolicyServer.{PolicyServer}
use tcs.Servers.Storage

pub record System : Type 0 where
  pub policy : PolicyServer
  pub audit : Audit

-- The policy server's channel 2 is the audit server's channel 0.
abbrev pub audit_step : Audit → Message → Audit × Message
audit_step a m = Audit.protected a 0 m

-- A call of the policy server on one of its channels.
unfoldable pub policy_step : System → ℕ → Message → System × Message
policy_step s ch m =
    let (policy, audit, answer) = PolicyServer.protected audit_step s.policy s.audit ch m in
    (record { policy = policy; audit = audit }, answer)

-- Storage's channel 1 is the policy server's channel 1.
unfoldable pub storage_step : System → ℕ → Message → System × Message
storage_step s ch m = Storage.protected (λ t n. policy_step t 1 n) s ch m

-- The client's channel 1 is storage's channel 0.
unfoldable pub client_step : System → ℕ → Message → System × Message
client_step s ch m = Client.protected (λ t n. storage_step t 0 n) s ch m

-- What the console sends: to the policy server as its administrator, to the client, and to the audit
-- server as its reader.
pub data Input : Type 0 where
  administer use_client inspect : Message → Input

unfoldable pub step : System → Input → System × Message
step s (administer m) = policy_step s 0 m
step s (use_client m) = client_step s 0 m
step s (inspect m) =
    let (audit, answer) = Audit.protected s.audit 1 m in (record s { audit = audit }, answer)

unfoldable pub run : System → List Input → System
run s [] = s
run s (i ∷ is) = run (step s i).0 is
