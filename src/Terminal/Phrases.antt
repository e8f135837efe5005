-- ===== src/Terminal/Phrases.antt =====
-- servers/terminal.c: the texts that are printed, and how they are put into the output. The build
-- chooses whether signed packets are taken, and two names.
use tcs.Prelude.{
  ℕ, Bool, ◌&&◌, ltb, leb, ◌==◌, if◌then◌else◌, List, [], ◌∷◌, length, Option, none, some, codes,
}
use tcs.Policy.Status
use tcs.Policy.Types.{Result, Snapshot, active, quarantined, state_code}
use tcs.Ipc.{Message, word}
use tcs.Admin.Ipc.{admission_label, receipt_decode}
use tcs.Admin.Receipt.{Receipt, receipt_valid}
use tcs.SignedInput
use tcs.SignedInput.{SignedInput}
use tcs.Terminal.Output.{Output, append}
use tcs.Terminal.Parser.{decimal}

-- The build: TCS_SIGNED_INPUT, TCS_PROFILE_NAME and TCS_LAUNCH_NAME.
pub record Build : Type 0 where
  pub signed : Bool
  pub profile_name : List ℕ
  pub launch_name : List ℕ

-- Texts that are appended one after the other.
unfoldable pub append_all : Output → List (List ℕ) → Output
append_all o [] = o
append_all o (text ∷ texts) = append_all (append o text) texts

abbrev pub prompt : List ℕ
prompt = codes "tcs> "

abbrev pub new_line : List ℕ
new_line = codes "\r\n"

abbrev pub help_text : Build → List ℕ
help_text b =
    if b.signed
    then codes
        "help | version | status | read <generation> | submit\r\nSigned packets only; no plaintext administration.\r\n"
    else codes "help | version | status | read <generation>\r\nNo administration commands.\r\n"

abbrev pub version_texts : Build → List (List ℕ)
version_texts b =
    if b.signed
    then codes "TCS 0.2-dev / "
      ∷ b.profile_name
      ∷ codes " / "
      ∷ b.launch_name
      ∷ codes " signed terminal\r\n"
      ∷ []
    else codes "TCS 0.2-dev / " ∷ b.profile_name ∷ codes " / read-only terminal\r\n" ∷ []

abbrev pub state_name : ℕ → List ℕ
state_name state =
    if state == state_code active
    then codes "active"
    else if state == state_code quarantined
    then codes "quarantined"
    else codes "restricted"

-- The answer to `status`.
unfoldable pub status_texts : Snapshot → List (List ℕ)
status_texts s =
    if s.status == Status.ok
    then codes "SELF state="
      ∷ state_name s.state
      ∷ codes " generation="
      ∷ decimal s.generation
      ∷ codes " object="
      ∷ decimal s.object
      ∷ codes " rights="
      ∷ decimal s.rights
      ∷ new_line
      ∷ []
    else codes "STATUS UNAVAILABLE status=" ∷ decimal s.status ∷ new_line ∷ []

-- The answer to `read`.
unfoldable pub read_texts : Result → List (List ℕ)
read_texts r =
    if r.status == Status.ok
    then codes "READ OK value=" ∷ decimal r.value ∷ new_line ∷ []
    else codes "READ DENIED status=" ∷ decimal r.status ∷ new_line ∷ []

abbrev pub receipt_texts : Receipt → List (List ℕ)
receipt_texts r =
    codes "ADMIN seq="
    ∷ decimal r.command.sequence
    ∷ codes " decision="
    ∷ decimal r.decision
    ∷ codes " audit="
    ∷ decimal r.audit_ok
    ∷ codes " applied="
    ∷ decimal r.applied
    ∷ codes " state="
    ∷ decimal r.post.state
    ∷ codes " generation="
    ∷ decimal r.post.generation
    ∷ new_line
    ∷ []

-- The answer to a packet that no receipt was given for.
unfoldable pub refusal_texts : Message → List (List ℕ)
refusal_texts m =
    if (m.label == admission_label) && (length m.words == 1) && ltb 0 (word m 0) && leb (word m 0) 8
    then if word m 0 == 8
      then codes "ADMIN UNCERTAIN; do not retry or advance sequence\r\n" ∷ []
      else codes "ADMIN REJECTED status=" ∷ decimal (word m 0) ∷ new_line ∷ []
    else codes "ADMIN UNAVAILABLE; do not retry an uncertain request\r\n" ∷ []

-- The answer to a packet, whose receipt has been decoded or not.
unfoldable pub decoded_texts : List ℕ → Message → Option Receipt → List (List ℕ)
decoded_texts packet answer none = refusal_texts answer
decoded_texts packet answer (some receipt) =
    if receipt_valid (SignedInput.command packet) receipt
    then receipt_texts receipt
    else refusal_texts answer

abbrev pub packet_texts : List ℕ → Message → List (List ℕ)
packet_texts packet answer = decoded_texts packet answer (receipt_decode answer)

-- The greeting of `init`.
abbrev pub greeting : Build → List (List ℕ)
greeting build =
    if build.signed
    then codes "TCS SIGNED TERMINAL READY ("
      ∷ build.profile_name
      ∷ codes ", "
      ∷ build.launch_name
      ∷ codes ")\r\ntcs> "
      ∷ []
    else codes "TCS TERMINAL READY (" ∷ build.profile_name ∷ codes ", read-only)\r\ntcs> " ∷ []
