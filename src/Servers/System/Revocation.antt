-- ===== src/Servers/System/Revocation.antt =====
-- A revoked session of the client stays revoked, whatever the servers are sent.
use tcs.Prelude.{ℕ, ◌≤◌, ◌≡◌, ◌≢◌, ◌⊎◌, inl, inr, refl, ap, ◌∙◌, true, arith, List, [], ◌∷◌}
use tcs.Policy
use tcs.Policy.Op
use tcs.Policy.Status
use tcs.Policy.Types.{Policy, admin, storage, Request, client_subject}
use tcs.Policy.Invariant
use tcs.Policy.History.{Call, revoked_forever}
use tcs.Policy.History
use tcs.Ipc.{Message, message, op_label, response, reply}
use tcs.Servers.Audit.{Audit}
use tcs.Servers.PolicyServer
use tcs.Servers.PolicyServer.{PolicyServer, request}
use tcs.Servers.PolicyServer.Decisions.{protected_cases, decide_lem, decided, on_record}
use tcs.Servers.System.{
  System, Input, administer, use_client, inspect, audit_step, policy_step, client_step, step, run,
}
use tcs.Servers.System.Confinement.{client_confined}
use tcs.Servers.System.Reads.{read_of, read_message, client_read_lem, granted_iff}

-- One step serves at most one request, and keeps the policy server ready.
abbrev IsServed : System → System → Type 0
IsServed s t =
    (t.policy.ready ≡ s.policy.ready)
    × ((t.policy.live ≡ s.policy.live)
        ⊎ ((c : Call) × (t.policy.live
              ≡ (Policy.serve s.policy.live c.actor c.request c.audit_ok).0)))

administer-IsServed : (s : System) (m : Message) → IsServed s (policy_step s 0 m).0
unfolding policy_step
administer-IsServed s m = elim (protected_cases audit_step s.policy s.audit 0 m) [
  | inl (_, e) ↦
      let p = ap (λ (x : PolicyServer × Audit × Message). x.0) e in
      (
        ap (λ (x : PolicyServer). x.ready) p,
        inr (
          record {
            actor = admin;
            request = request m;
            audit_ok = on_record audit_step s.policy s.audit admin (request m);
          },
          ap (λ (x : PolicyServer). x.live) p,
        ),
      )
  | inr (p, _) ↦ (ap (λ (x : PolicyServer). x.ready) p, inl (ap (λ (x : PolicyServer). x.live) p))
]

step-IsServed : (s : System) (i : Input) → IsServed s (step s i).0
unfolding step
step-IsServed s (administer m) = administer-IsServed s m
step-IsServed s (use_client m) =
    let p = client_confined s 0 m in
    (ap (λ (x : PolicyServer). x.ready) p, inl (ap (λ (x : PolicyServer). x.live) p))
step-IsServed s (inspect m) = (refl, inl refl)

-- Whatever the console sends to the three servers, the policy goes through a run of served requests.
pub run_served :
    (s : System) (is : List Input)
    → ((run s is).policy.ready ≡ s.policy.ready)
      × ((cs : List Call) × ((run s is).policy.live ≡ History.run s.policy.live cs))
unfolding run History.run
run_served s [] = (refl, ([], refl))
run_served s (i ∷ is) =
    let next = (step s i).0 in
    let (ready, one) = step-IsServed s i in
    let (same, (cs, more)) = run_served next is in
    (
      same ∙ ready,
      elim one [
        | inl e ↦ (cs, more ∙ ap (λ (p : Policy). History.run p cs) e)
        | inr (c, e) ↦ (c ∷ cs, more ∙ ap (λ (p : Policy). History.run p cs) e)
      ],
    )

-- The request and the message by which the console revokes or quarantines the client.
abbrev pub control : ℕ → Request
control op = record { op = op; subject = client_subject; object = 0; rights = 0; generation = 0 }

abbrev pub control_message : ℕ → Message
control_message op = message (op_label op) (client_subject ∷ 0 ∷ 0 ∷ 0 ∷ [])

control_decided :
    (s : System) (op : ℕ)
    → s.policy.ready ≡ true
    → (op ≡ Op.revoke) ⊎ (op ≡ Op.quarantine)
    → (policy_step s 0 (control_message op)).0.policy
      ≡ (decided audit_step s.policy s.audit admin (control op)).0
unfolding policy_step PolicyServer.protected
control_decided s op h (inl e) =
    rw e (ground (arith, decide_lem audit_step s.policy s.audit admin (control Op.revoke)))
control_decided s op h (inr e) =
    rw e (ground (arith, decide_lem audit_step s.policy s.audit admin (control Op.quarantine)))

-- Once the console has sent the revocation or quarantine of the client, audited or not, a read by the
-- client in any session up to the one that it had then is refused, whatever the console, as
-- administrator, as user of the client and as reader of the log, sends in between.
pub client_revoked :
    (s : System) (op : ℕ) (is : List Input) (object rights generation : ℕ)
    → s.policy.ready ≡ true
    → Invariant.IsValid s.policy.live
    → (op ≡ Op.revoke) ⊎ (op ≡ Op.quarantine)
    → generation ≤ (s.policy.live.subjects client_subject).generation
    → let after = (policy_step s 0 (control_message op)).0 in
      let answer = (client_step (run after is) 0 (read_message object rights generation)).1 in
      ((response answer).status ≢ Status.ok) × ((response answer).value ≡ 0)
unfolding response reply
client_revoked s op is o r g ready v kind old =
    let after = (policy_step s 0 (control_message op)).0 in
    let last = run after is in
    let now = control_decided s op ready kind in
    let (same, (cs, ran)) = run_served after is in
    let up : last.policy.ready ≡ true = same ∙ (ap (λ (x : PolicyServer). x.ready) now ∙ ready) in
    let ran_from = ran ∙ ap (λ (x : PolicyServer). History.run x.live cs) now in
    let dead =
      revoked_forever s.policy.live (control op)
        (on_record audit_step s.policy s.audit admin (control op)) v kind (omega arith)
        (refl, refl, refl) cs storage (read_of o r g) refl refl old in
    rw (client_read_lem last up o r g) (
      ground (
        arith,
        granted_iff last up o r g,
        ap (λ (p : Policy). (Policy.apply p storage (read_of o r g)).1.status) ran_from,
        dead,
      ))
