-- ===== src/Operator/Main.antt =====
-- tools/operator.c: `main`.
use tcs.Prelude.{
  ℕ, zero, suc, Bool, false, ◌&&◌, ltb, ◌==◌, if◌then◌else◌, length, Option, none, some, List, [],
  ◌∷◌, ◌++◌, codes,
}
use tcs.Operator.Text.{same_text}
use tcs.Operator.Host.{Step, ◌>>=◌, ◌>>◌, Host, Crypto, say}
use tcs.Operator.Files.{directory, closing}
use tcs.Operator.Identity.{identity_read, create_identity, context_create}
use tcs.Operator.Requests.{Arguments, display, review_or_sign}
use tcs.Operator.Guest.{launch_guest}

-- What the arguments ask for.
pub data Task : Type 0 where
  create : List ℕ → Task
  show : List ℕ → Task
  context : List ℕ → List ℕ → Task
  review : List ℕ → List ℕ → Arguments → Task
  sign : List ℕ → List ℕ → Arguments → List ℕ → Task
  launch : List ℕ → List ℕ → List ℕ → List ℕ → Task

-- An argument, where there is one.
abbrev pub arg : List (List ℕ) → ℕ → List ℕ
arg [] i = []
arg (a ∷ args) zero = a
arg (a ∷ args) (suc i) = arg args i

abbrev pub is_acknowledged : List ℕ → Bool
is_acknowledged text = same_text text (codes "--acknowledge-experimental")

-- The four arguments from `argv + 4` on.
abbrev pub request_arguments : List (List ℕ) → Arguments
request_arguments argv = record {
  op = arg argv 4;
  subject = arg argv 5;
  sequence = arg argv 6;
  generation = arg argv 7;
}

-- The tests of `main` on its arguments, the name of the program among them.
unfoldable pub task : List (List ℕ) → Option Task
task argv =
    let argc = length argv in
    let is = λ (name : List ℕ). same_text (arg argv 1) name in
    if ltb argc 2
    then none
    else if is (codes "create")
    then if (argc == 4) && is_acknowledged (arg argv 3) then some (create (arg argv 2)) else none
    else if is (codes "show")
    then if argc == 3 then some (show (arg argv 2)) else none
    else if is (codes "context")
    then if (argc == 5) && is_acknowledged (arg argv 4)
      then some (context (arg argv 2) (arg argv 3))
      else none
    else if is (codes "review")
    then if argc == 8
      then some (review (arg argv 2) (arg argv 3) (request_arguments argv))
      else none
    else if is (codes "sign")
    then if argc == 9
      then some (sign (arg argv 2) (arg argv 3) (request_arguments argv) (arg argv 8))
      else none
    else if is (codes "launch")
    then if (argc == 7) && is_acknowledged (arg argv 6)
      then some (launch (arg argv 2) (arg argv 3) (arg argv 4) (arg argv 5))
      else none
    else none

-- The text of `usage`.
abbrev pub usage_text : List ℕ
usage_text =
    codes "Experimental TCS host tool (no automatic request submission):\n"
    ++ codes "  tcs-operator create NEW_IDENTITY_DIR --acknowledge-experimental\n"
    ++ codes "  tcs-operator show IDENTITY_DIR\n"
    ++ codes "  tcs-operator context IDENTITY_DIR NEW_SESSION_DIR --acknowledge-experimental\n"
    ++ codes "  tcs-operator review IDENTITY_DIR SESSION_DIR OP SUBJECT SEQUENCE GENERATION\n"
    ++ codes
        "  tcs-operator sign IDENTITY_DIR SESSION_DIR OP SUBJECT SEQUENCE GENERATION APPROVAL\n"
    ++ codes
        "  tcs-operator launch IDENTITY_DIR SESSION_DIR IMAGE QEMU --acknowledge-experimental\n"
    ++ codes "OP: grant | revoke | quarantine | restore. Use canonical decimal numbers.\n"
    ++ codes "Use absolute real paths outside Git checkouts; no symlink components.\n"
    ++ codes
        "Launch consumes the session even if exec fails. No key import, overwrite, retry, or receipt recovery.\n"

abbrev pub refused_text : List ℕ
refused_text =
    codes
      "Refused: invalid input, unsafe file, mismatched context/approval/key, or I/O failure. Existing/partial files were preserved.\n"

module _ {O : Type 0} (host : Host O) (crypto : Crypto) (mode : ℕ) where
  -- The branch of `show`.
  unfoldable pub show_identity : ℕ → Step O (Unit {0})
  show_identity fd = do
    identity ← identity_read host crypto mode fd
    say host (display (codes "realm") identity.realm)
    say host (display (codes "public_key") identity.public_key)

  -- A task with the directory of the identity open.
  unfoldable pub with_identity : List ℕ → (ℕ → Step O (Unit {0})) → Step O (Unit {0})
  with_identity path body = do fd ← directory host path false; closing host fd (body fd)

  -- The branches of `main`.
  unfoldable pub run_task : Task → Step O (Unit {0})
  run_task (create path) = create_identity host crypto mode path
  run_task (show path) = with_identity path show_identity
  run_task (context path session) =
      with_identity path (λ fd. context_create host crypto mode fd session)
  run_task (review path session args) =
      with_identity path (λ fd. review_or_sign host crypto mode fd session args none)
  run_task (sign path session args approval) =
      with_identity path (λ fd. review_or_sign host crypto mode fd session args (some approval))
  run_task (launch path session image qemu) =
      with_identity path (λ fd. launch_guest host crypto mode fd session image qemu)

  -- The exit status, with the last message where anything has failed.
  unfoldable pub finished : Option (Unit {0}) → Option (Unit {0}) → O → O × ℕ
  finished none flushed o = (host.complain refused_text o, 1)
  finished (some _) none o = (host.complain refused_text o, 1)
  finished (some _) (some _) o = (o, 0)

  -- The end of `main`, where the output is flushed whatever has come before.
  unfoldable pub exit_with : O × Option (Unit {0}) → O × ℕ
  exit_with (o, done) = let (next, flushed) = host.flush_output o in finished done flushed next

  -- `main` past its first tests: 2 where the arguments ask for nothing.
  unfoldable pub run_arguments : Option Task → O → O × ℕ
  run_arguments none o = (host.complain usage_text o, 2)
  run_arguments (some t) o = exit_with (run_task t o)

  -- The tests on the ids and the descriptors.
  unfoldable pub entered : List (List ℕ) → O × Option (Unit {0}) → O × ℕ
  entered argv (o, none) = (o, 1)
  entered argv (o, some _) = run_arguments (task argv) o

  -- `main`: the exit status.
  unfoldable pub main : List (List ℕ) → O → O × ℕ
  main argv o = entered argv (host.enter o)
