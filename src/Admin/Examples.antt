-- ===== src/Admin/Examples.antt =====
-- The theorems on lib/admin.c at concrete inputs, with a signature check that takes one fixed byte.
use tcs.Prelude.{
  ◌⊎◌, ℕ, suc, ◌-◌, ◌≡◌, refl, true, false, List, [], ◌∷◌, replicate, ◌++◌, some, get_or, arith,
}
use tcs.Policy
use tcs.Policy.Op
use tcs.Policy.Status
use tcs.Policy.Types.{Policy, restricted, active, the_object, read_right}
use tcs.Policy.Invariant.{IsValid}
use tcs.Ipc.{Message, message, reply}
use tcs.Admin.Roundtrip.{InWords, encode-admit}
use tcs.Admin.Ipc.{submit_label, packet_words, words_from_bytes}
use tcs.Admin.Server.{serve}
use tcs.Admin.Executing.{InStep}
use tcs.Admin.Completion.{policy, IsRefused, IsCompleted, serve-InStep}
use tcs.Admin.{
  domain, equal, any_bits, nonzero, load_below, load64, valid, packet_command, admit_packet, admit,
  complete, init, encode, consume,
}
use tcs.Admin.Types.{accepted, Admin, Command}
use tcs.Admin.Receipt.{Server, execution_valid, compare_apply, receipt_valid, execute_command}
use tcs.Admin.Execution.{execute_command-receipt_valid, execute_command-applied}
use tcs.Admin.Admission.{IsAdmissible, admit-accepted_iff}
use tcs.Admin.Replay.{Call, submit, finish, accepted_in, IsSequence, accepted_in_order}

abbrev check : List ℕ → List ℕ → List ℕ → ℕ → ℕ
check signature key message size = 7 - get_or signature 0 0

abbrev blank : Admin
blank = record {
  public_key = [];
  realm = [];
  boot = [];
  next_sequence = 0;
  pending_sequence = 0;
  initialized = false;
  exhausted = false;
}

abbrev started : Admin
started = record blank {
  public_key = replicate 32 9;
  realm = replicate 32 1;
  boot = replicate 32 2;
  next_sequence = 1;
  initialized = true;
}

abbrev word : ℕ → List ℕ
word low = low ∷ replicate 7 0

-- A signed quarantine of subject 1.
abbrev packet : ℕ → List ℕ
packet sequence =
    domain
    ++ replicate 32 1
    ++ replicate 32 2
    ++ word sequence
    ++ word Op.quarantine
    ++ word 1
    ++ word 0
    ++ word 0
    ++ word 0
    ++ replicate 64 7

init-started : init blank (replicate 32 9) (replicate 32 1) (replicate 32 2) ≡ (started, true)
unfolding init nonzero any_bits
init-started = refl

first_accepted : (admit check started (some (packet 1)) 192).1 ≡ accepted
unfolding admit admit_packet equal valid packet_command load64 load_below
first_accepted = refl

-- The first packet is accepted once, the second one only after the first is completed.
abbrev history : List Call
history =
    submit (some (packet 1)) 192
    ∷ submit (some (packet 2)) 192
    ∷ finish 1
    ∷ submit (some (packet 1)) 192
    ∷ submit (some (packet 2)) 192
    ∷ []

history_accepted : accepted_in check started history ≡ 1 ∷ 2 ∷ []
unfolding accepted_in admit admit_packet complete equal valid packet_command load64 load_below
history_accepted = refl

admit-accepted_iff_example : IsAdmissible check started (packet 1) 192
admit-accepted_iff_example = (admit-accepted_iff check started (packet 1) 192).0 first_accepted

accepted_in_order_example : IsSequence 1 (accepted_in check started history)
accepted_in_order_example = accepted_in_order check started history (omega arith)

-- Subject 1 reads in session 3, and is quarantined if that is still its session.
abbrev reading : Policy
reading = record {
  subjects =
      Policy.update (λ i. record { generation = 0; object = 0; rights = 0; state = restricted }) 1
        (record { generation = 3; object = the_object; rights = read_right; state = active });
}

abbrev quarantine_of : ℕ → Command
quarantine_of generation = record {
  sequence = 1;
  expected_generation = generation;
  request = record { op = Op.quarantine; subject = 1; object = 0; rights = 0; generation = 0 };
}

reading-IsValid : IsValid reading
reading-IsValid i h = record { bounded = ground arith; holds = ground arith; empty = ground arith }

quarantine_applied :
    ((execute_command reading (quarantine_of 3) false).1.applied ≡ 1)
    × ((execute_command reading (quarantine_of 2) true).1.applied ≡ 0)
unfolding execute_command compare_apply Policy.apply Policy.apply_reduction Policy.commit
quarantine_applied = (refl, refl)

execute_command-receipt_valid_example :
    receipt_valid (quarantine_of 3) (execute_command reading (quarantine_of 3) false).1 ≡ true
unfolding execution_valid
execute_command-receipt_valid_example =
    execute_command-receipt_valid reading (quarantine_of 3) false reading-IsValid refl

execute_command-applied_example :
    let (next, receipt) = execute_command reading (quarantine_of 2) true in
    ((receipt.applied ≡ 0) × (next ≡ reading))
    ⊎ ((receipt.applied ≡ 1) × (receipt.decision ≡ Status.ok) × (◌≡◌ {A = ℕ} 3 2))
execute_command-applied_example = execute_command-applied reading (quarantine_of 2) true

-- A grant of what it already reads to subject 1, signed.
abbrev regrant : Command
regrant = record {
  sequence = 1;
  expected_generation = 3;
  request = record {
    op = Op.grant;
    subject = 1;
    object = the_object;
    rights = read_right;
    generation = 0;
  };
}

regrant_encoded : (encode started.realm started.boot regrant).1 ≡ true
unfolding encode nonzero any_bits valid
regrant_encoded = refl

regrant-InWords : InWords regrant
regrant-InWords = record {
  sequence = omega arith;
  expected = omega arith;
  op = omega arith;
  subject = omega arith;
  object = omega arith;
  rights = omega arith;
}

encode-admit_example :
    admit check started (some ((encode started.realm started.boot regrant).0 ++ replicate 64 7)) 192
    ≡ (consume started 1, accepted, regrant)
encode-admit_example =
    encode-admit check started regrant (replicate 64 7) refl refl regrant-InWords refl refl refl
      refl regrant_encoded refl

-- An audit server that counts its records, and the policy server as it starts.
abbrev counting : ℕ → Message → ℕ × Message
counting n m = (suc n, reply (Policy.result Status.ok (suc n)))

abbrev fresh : Server
fresh = record { live = reading; ready = true; execution_sequence = 1; execution_exhausted = false }

started-InStep : InStep started fresh
started-InStep = record {
  initialized = refl;
  ready = refl;
  idle = refl;
  same_next = refl;
  same_end = refl;
  live_valid = reading-IsValid;
}

-- A signed quarantine of subject 1 comes as a message.
abbrev sent : Message
sent = message submit_label (words_from_bytes (packet 1) packet_words)

serve-InStep_example :
    let (after, (next, s), answer) =
      serve check (policy check counting) started (fresh, 0) 0 sent in
    InStep after next
    × (IsRefused check counting started fresh 0 0 sent after next s answer
        ⊎ IsCompleted check counting started fresh 0 0 sent after next answer)
serve-InStep_example = serve-InStep check counting started fresh 0 0 sent started-InStep
