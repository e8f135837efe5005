-- ===== src/Servers/Console.antt =====
-- servers/console.c: the requests that the console of the test image sends on its channels, and whether
-- it finds an answer wrong. What it prints is left out, but for the mark of a failure.
use tcs.Prelude.{
  ℕ, zero, suc, ◌+◌, ◌-◌, Bool, false, not, ◌&&◌, ◌||◌, ltb, ◌==◌, if◌then◌else◌, List, [], ◌∷◌,
  u64_mod, ◌%◌,
}
use tcs.Policy.Op
use tcs.Policy.Status
use tcs.Policy.Types.{
  Result, Snapshot, restricted, active, quarantined, state_code, storage, the_object, read_right,
}
use tcs.Ipc.{
  Message, message, word, op_label, is_message, response, snapshot_response, client_status,
  client_read, client_bad_length, client_try_grant, self_status, audit_count, audit_get,
  audit_capacity,
}
use tcs.Servers.PolicyServer.{actor_code}
use tcs.Servers.Storage.{sample}

-- TCS_WRITE
abbrev pub write_right : ℕ
write_right = 2

module _ {S : Type 0} (call : S → ℕ → Message → S × Message) where
  -- A part of `init`: the state of the servers, and whether anything has failed.
  abbrev pub Act : Type 0 → Type 0
  Act A = S × Bool → (S × Bool) × A

  infixl 5 ◌>>=◌ ◌>>◌
  abbrev ◌>>=◌ : {A B : Type 0} → Act A → (A → Act B) → Act B
  m >>= f = λ t. let (next, a) = m t in f a next

  abbrev ◌>>◌ : {A B : Type 0} → Act A → Act B → Act B
  m >> n = m >>= λ _. n

  -- `failed |= !ok`
  abbrev note : Bool → Act (Unit {0})
  note ok = λ t. ((t.0, t.1 || not ok), tt)

  -- `expect`
  unfoldable pub expect : Result → ℕ → Act (Unit {0})
  expect r status = note ((r.status == status) && ((status == Status.ok) || (r.value == 0)))

  -- A request on a channel, and its answer.
  abbrev ask : ℕ → ℕ → List ℕ → Act Message
  ask ch op words =
      λ t. let (next, answer) = call t.0 ch (message (op_label op) words) in ((next, t.1), answer)

  abbrev asked : ℕ → ℕ → List ℕ → Act Result
  asked ch op words = λ t. let (next, answer) = ask ch op words t in (next, response answer)

  -- `control`
  unfoldable pub control : ℕ → ℕ → Act Result
  control op subject = asked 0 op (subject ∷ 0 ∷ 0 ∷ 0 ∷ [])

  -- `grant`
  unfoldable pub grant : ℕ → Act Result
  grant subject = asked 0 Op.grant (subject ∷ the_object ∷ read_right ∷ 0 ∷ [])

  -- `read_object`
  unfoldable pub read_object : ℕ → ℕ → ℕ → Act Result
  read_object object rights generation = asked 1 client_read (object ∷ rights ∷ generation ∷ [])

  -- The test of `expect_self`.
  abbrev pub is_self : Snapshot → ℕ → ℕ → Bool
  is_self s state generation =
      let open_session = state == state_code active in
      (s.status == Status.ok)
      && (s.state == state)
      && (s.generation == generation)
      && (s.object == (if open_session then the_object else 0))
      && (s.rights == (if open_session then read_right else 0))

  -- `expect_self`
  unfoldable pub expect_self : ℕ → ℕ → Act (Unit {0})
  expect_self state generation = do
    m ← ask 1 client_status []
    note (is_self (snapshot_response m) state generation)

  -- `init` up to the revocation of the first session.
  unfoldable pub open_session : Act ℕ
  open_session = do
    expect_self (state_code restricted) 0
    payload ← asked 1 client_status (2 ∷ [])
    expect payload Status.bad_message
    identity ← asked 0 self_status []
    expect identity Status.denied
    default ← read_object the_object read_right 1
    expect default Status.denied
    session ← grant 1
    expect session Status.ok
    expect_self (state_code active) session.value
    data_word ← read_object the_object read_right session.value
    expect data_word Status.ok
    note (data_word.value == sample)
    other ← read_object 43 read_right session.value
    expect other Status.denied
    write ← read_object the_object write_right session.value
    expect write Status.denied
    (λ t. (t, session.value))

  -- From there up to the restore.
  unfoldable pub close_sessions : ℕ → Act ℕ
  close_sessions old = do
    revoked ← control Op.revoke 1
    expect revoked Status.ok
    expect_self (state_code restricted) ((old + 1) % u64_mod)
    gone ← read_object the_object read_right old
    expect gone Status.denied
    session ← grant 1
    expect session Status.ok
    expect_self (state_code active) session.value
    stale ← read_object the_object read_right old
    expect stale Status.stale
    fresh ← read_object the_object read_right session.value
    expect fresh Status.ok
    isolated ← control Op.quarantine 1
    expect isolated Status.ok
    expect_self (state_code quarantined) ((session.value + 1) % u64_mod)
    blocked ← read_object the_object read_right session.value
    expect blocked Status.isolated
    refused ← grant 1
    expect refused Status.isolated
    restored ← control Op.restore 1
    expect restored Status.ok
    expect_self (state_code restricted) ((session.value + 2) % u64_mod)
    (λ t. (t, session.value))

  -- From there up to the grant before the log is full.
  unfoldable pub misuse : ℕ → Act (Unit {0})
  misuse session = do
    dead ← read_object the_object read_right session
    expect dead Status.denied
    malformed ← asked 1 client_bad_length []
    expect malformed Status.bad_message
    sideways ← asked 1 client_try_grant []
    expect sideways Status.bad_message
    stranger ← grant 2
    expect stranger Status.ok
    expect_self (state_code restricted) ((session + 2) % u64_mod)
    handle ← read_object the_object read_right stranger.value
    expect handle Status.denied

  -- The loop that fills the log.
  unfoldable pub fill : ℕ → ℕ → Act (Unit {0})
  fill zero session = λ t. (t, tt)
  fill (suc n) session = do
    appended ← read_object the_object read_right session
    expect appended Status.ok
    fill n session

  -- The test on the first record.
  abbrev pub is_first_record : Message → Bool
  is_first_record m =
      is_message m audit_get 8
      && (word m 0 == 1)
      && (word m 1 == Op.check)
      && (word m 2 == actor_code storage)
      && (word m 3 == 1)
      && (word m 7 == Status.denied)

  -- The rest of `init`, from the grant before the log is full.
  unfoldable pub exhaust_log : Act (Unit {0})
  exhaust_log = do
    session ← grant 1
    expect session Status.ok
    logged ← asked 2 audit_count []
    expect logged Status.ok
    note (not ((logged.value == 0) || ltb audit_capacity logged.value))
    first ← ask 2 audit_get (0 ∷ [])
    note (is_first_record first)
    fill (audit_capacity - logged.value) session.value
    full ← read_object the_object read_right session.value
    expect full Status.audit_full
    grants ← grant 1
    expect grants Status.audit_full
    revoked ← control Op.revoke 1
    expect revoked Status.audit_full
    expect_self (state_code restricted) ((session.value + 1) % u64_mod)

  -- The parts of `init`.
  unfoldable pub whole : Act (Unit {0})
  whole = do old ← open_session; session ← close_sessions old; misuse session; exhaust_log

  -- `init`, from the state of the servers: their state, and whether anything has failed.
  unfoldable pub init : S → S × Bool
  init s = (whole (s, false)).0
