-- ===== src/Policy/Examples.antt =====
-- The theorems on lib/policy.c at concrete inputs, and a run of the seed's scenario.
use tcs.Prelude.{ℕ, ◌<◌, ◌≡◌, ◌≢◌, ◌⊎◌, ◌↔◌, inl, inr, refl, true, false, List, [], ◌∷◌, arith}
use tcs.Policy.{Policy, Request, apply_reduction, apply_grant, apply, check, commit, serve, update}
use tcs.Policy.Op
use tcs.Policy.Status
use tcs.Policy.Types.{Subject, restricted, active, quarantined, admin, storage}
use tcs.Policy.Invariant.{IsValid, serve-IsValid}
use tcs.Policy.Access.{MayRead, check-ok_iff, unaudited_opens_nothing, serve_reduction}
use tcs.Policy.History.{Call, run, revoked_forever}

abbrev empty_subject : Subject
empty_subject = record { generation = 0; object = 0; rights = 0; state = restricted }

abbrev live_client : Subject
live_client = record { generation = 7; object = 42; rights = 1; state = active }

abbrev fresh : Policy
fresh = record { subjects = λ i. empty_subject }

-- The client holds session 7, and nobody else holds anything.
abbrev granted : Policy
granted = record { subjects = update (λ i. empty_subject) 1 live_client }

abbrev isolated : Policy
isolated = record {
  subjects = update (λ i. empty_subject) 1 (record empty_subject { state = quarantined });
}

abbrev control : ℕ → ℕ → Request
control op i = record { op = op; subject = i; object = 0; rights = 0; generation = 0 }

abbrev grant_client : Request
grant_client = record { op = Op.grant; subject = 1; object = 42; rights = 1; generation = 0 }

abbrev read_with : ℕ → Request
read_with g = record { op = Op.check; subject = 1; object = 42; rights = 1; generation = g }

granted-IsValid : IsValid granted
granted-IsValid i h = ground arith

isolated-IsValid : IsValid isolated
isolated-IsValid i h = ground arith

fresh-IsValid : IsValid fresh
fresh-IsValid i h = ground arith

-- A grant after a revocation opens session 9: 7 is stale and 9 is served.
regrant :
    (apply
      (run granted (
        record { actor = admin; request = control Op.revoke 1; audit_ok = true }
        ∷ record { actor = admin; request = grant_client; audit_ok = true }
        ∷ []))
      storage
      (read_with 9)).1.status
    ≡ Status.ok
unfolding run serve commit apply apply_reduction apply_grant check
regrant = refl

serve-IsValid_example : IsValid (serve granted admin (control Op.quarantine 1) false).0
serve-IsValid_example = serve-IsValid granted admin (control Op.quarantine 1) false granted-IsValid

check-ok_iff_example :
    ((apply granted storage (read_with 7)).1.status ≡ 0)
    ↔ ((storage ≡ storage) × (1 < 4) × MayRead live_client (read_with 7))
check-ok_iff_example = check-ok_iff granted storage (read_with 7) granted-IsValid refl

unaudited_opens_nothing_example :
    ((serve granted admin (control Op.revoke 2) false).1.status ≡ 5)
    × (((apply (serve granted admin (control Op.revoke 2) false).0 storage (read_with 7)).1.status
          ≢ 0)
        ⊎ ((apply granted storage (read_with 7)).1.status ≡ 0))
unaudited_opens_nothing_example =
    unaudited_opens_nothing granted admin (control Op.revoke 2) storage (read_with 7)
      granted-IsValid refl

serve_reduction_example :
    let (p', answer) = serve granted admin (control Op.quarantine 1) false in
    let s = p'.subjects 1 in
    (s.state ≢ active)
    × (s.object ≡ 0)
    × (s.rights ≡ 0)
    × ((Op.quarantine ≡ Op.revoke) ⊎ (s.state ≡ quarantined))
    × ((answer.status ≡ 0) ↔ (false ≡ true))
serve_reduction_example =
    serve_reduction granted (control Op.quarantine 1) false (inr refl) (omega arith)
      (refl, refl, refl)

abbrev later : List Call
later = record { actor = admin; request = grant_client; audit_ok = true } ∷ []

revoked_forever_example :
    (apply
      (run (serve granted admin (control Op.revoke 1) false).0 later)
      storage
      (read_with 7)).1.status
    ≢ 0
revoked_forever_example =
    revoked_forever granted (control Op.revoke 1) false granted-IsValid (inl refl) (omega arith)
      (refl, refl, refl) later storage (read_with 7) refl refl (omega arith)
