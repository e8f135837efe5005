-- ===== src/Terminal/Server.antt =====
-- servers/terminal.c: the commands, the packets and the service loop of the terminal, over any servers
-- of its channels.
pub mod Texts
pub mod Steady
pub mod Sending
pub mod Answers
pub mod Rounds
pub mod Loop
pub mod Driver
pub mod Requests
pub mod Uptime
pub mod Reach
mod Examples
use Prim.Native.Nat.{bit_and}
use Prim.Native.String.{String}
use tcs.Prelude.{
  ℕ, zero, suc, Bool, true, false, not, ◌&&◌, ◌||◌, ltb, leb, ◌==◌, ◌!=◌, if◌then◌else◌, List, [],
  ◌∷◌, ◌++◌, length, replicate, get_or, Option, none, some, codes,
}
use tcs.Policy
use tcs.Policy.Status
use tcs.Policy.Types.{Result, Snapshot, active, quarantined, state_code, the_object, read_right}
use tcs.Ipc.{
  Message, message, word, op_label, reply, response, snapshot_response, client_read, client_status,
}
use tcs.Admin.Ipc.{submit_label, admission_label, packet_words, words_from_bytes, receipt_decode}
use tcs.Admin.Receipt.{Receipt, receipt_valid}
use tcs.Serial.Server.{serial_read, serial_data}
use tcs.SignedInput
use tcs.SignedInput.{SignedInput}
use tcs.Terminal.{line_discard, terminal_input}
use tcs.Terminal.Output.{Output, append, flush}
use tcs.Terminal.Parser.{command_parse, decimal}
use tcs.Terminal.Types.{
  LineEvent, nothing, ready, rejected, cancelled, Line, CommandKind, empty, help, version, status,
  read, invalid, line_capacity,
}
use tcs.Terminal.Phrases.{
  Build, append_all, prompt, help_text, version_texts, status_texts, read_texts, packet_texts,
  greeting,
}

-- The state of servers/terminal.c; its output is that of Terminal/Output.
pub record Terminal : Type 0 where
  pub line : Line
  pub signed_input : SignedInput
  pub packet_mode : Bool
  pub pending_event : LineEvent
  pub out : Output

-- The states of the servers of the channels 0, 1 and 2.
pub record Peers (S C A : Type 0) : Type 0 where
  pub serial : S
  pub client : C
  pub admin : A

abbrev pub say : Terminal → List (List ℕ) → Terminal
say t texts = record t { out = append_all t.out texts }

-- The loop that compares the line with `submit`.
unfoldable pub begins : List ℕ → List ℕ → Bool
begins bytes [] = true
begins [] (c ∷ text) = false
begins (b ∷ bytes) (c ∷ text) = (b == c) && begins bytes text

abbrev pub is_submit : Line → Bool
is_submit line = (line.length == 6) && begins line.bytes (codes "submit")

abbrev pub blank_line : Line
blank_line = record {
  bytes = replicate line_capacity 0;
  length = 0;
  rejected = false;
  previous_cr = false;
  completed = false;
}

-- The end of `finish_packet`, with what it prints.
unfoldable pub leave_packet : Terminal → List (List ℕ) → Terminal
leave_packet t texts = record (say t (texts ++ prompt ∷ [])) {
  line = record blank_line { previous_cr = t.signed_input.previous_cr };
  signed_input = SignedInput.discard;
  packet_mode = false;
}

-- What the loss of input does.
unfoldable pub note_loss : Terminal → Terminal
note_loss t =
    say
      (record t {
        line = line_discard t.line;
        signed_input = if t.packet_mode then SignedInput.discard else t.signed_input;
      })
      (codes "\r\nINPUT LOST; discard until Enter or Ctrl-C\r\n" ∷ [])

-- A byte that has come in.
unfoldable pub take_byte : Terminal → ℕ → Terminal
take_byte t byte =
    let (s, entered) = SignedInput.feed t.signed_input byte in
    let (line, typed) = terminal_input t.line byte in
    if t.packet_mode
    then record (say t (entered.echo ∷ [])) { signed_input = s; pending_event = entered.event }
    else record (say t (typed.echo ∷ [])) { line = line; pending_event = typed.event }

abbrev pub fail : Terminal → Terminal
fail t = record t { out = record t.out { failed = true } }

module _ {S C A : Type 0} (build : Build) (serial : S → Message → S × Message)
    (client : C → Message → C × Message) (admin : A → Message → A × Message) where
  -- The switch over the command.
  unfoldable pub obey : Terminal → Peers S C A → CommandKind → ℕ → Terminal × Peers S C A
  obey t w empty generation = (say t (prompt ∷ []), w)
  obey t w help generation = (say t (help_text build ∷ prompt ∷ []), w)
  obey t w version generation = (say t (version_texts build ++ prompt ∷ []), w)
  obey t w status generation =
      let (c, answer) = client w.client (message (op_label client_status) []) in
      (say t (status_texts (snapshot_response answer) ++ prompt ∷ []), record w { client = c })
  obey t w read generation =
      let asked = message (op_label client_read) (the_object ∷ read_right ∷ generation ∷ []) in
      let (c, answer) = client w.client asked in
      (say t (read_texts (response answer) ++ prompt ∷ []), record w { client = c })
  obey t w invalid generation =
      (say t (codes "ERROR unknown or malformed command\r\n" ∷ prompt ∷ []), w)

  -- `execute`
  unfoldable pub execute : Terminal → Peers S C A → Terminal × Peers S C A
  execute t w =
      let cmd = command_parse (some t.line.bytes) t.line.length in
      if build.signed && is_submit t.line
      then (
        say (record t { signed_input = SignedInput.begin t.line.previous_cr; packet_mode = true })
            (codes
                "Enter exactly 384 lowercase hex digits; Enter submits, Ctrl-C cancels.\r\npacket> "
              ∷ []),
        w,
      )
      else obey t w cmd.kind cmd.generation

  -- `finish_packet`
  unfoldable pub finish_packet : Terminal → Peers S C A → LineEvent → Terminal × Peers S C A
  finish_packet t w ready =
      let packet = t.signed_input.packet in
      let (a, answer) =
        admin w.admin (message submit_label (words_from_bytes packet packet_words)) in
      (leave_packet t (packet_texts packet answer), record w { admin = a })
  finish_packet t w cancelled = (leave_packet t (codes "CANCELLED\r\n" ∷ []), w)
  finish_packet t w rejected = (leave_packet t (codes "ERROR discarded signed packet\r\n" ∷ []), w)
  finish_packet t w nothing = (leave_packet t (codes "ERROR discarded signed packet\r\n" ∷ []), w)

  -- The branches of `service` on the event of a line.
  unfoldable pub finish_line : Terminal → Peers S C A → LineEvent → Terminal × Peers S C A
  finish_line t w ready = execute t w
  finish_line t w rejected = (say t (codes "ERROR discarded input line\r\ntcs> " ∷ []), w)
  finish_line t w cancelled = (say t (codes "CANCELLED\r\ntcs> " ∷ []), w)
  finish_line t w nothing = (t, w)

  -- An event that the line or the packet has led to, out of `pending_event`.
  unfoldable pub dispatch : Terminal → Peers S C A → LineEvent → Terminal × Peers S C A
  dispatch t w event = if t.packet_mode then finish_packet t w event else finish_line t w event

  abbrev pub send_out : Terminal → Peers S C A → Terminal × Peers S C A × Bool
  send_out t w =
      let (out, s, done) = flush serial t.out w.serial in
      (record t { out = out }, record w { serial = s }, done)

  -- A byte and the marks of the driver, where they are well formed: whether the loop goes on.
  unfoldable pub accept_input : Terminal → Peers S C A → ℕ → ℕ → Terminal × Peers S C A × Bool
  accept_input t w flags byte =
      let noted = if bit_and flags 2 != 0 then note_loss t else t in
      let (sent, v, _) = send_out noted w in
      if bit_and flags 1 == 0 then (sent, v, false) else (take_byte noted byte, w, true)

  -- A request for input.
  unfoldable pub receive_input : Terminal → Peers S C A → Terminal × Peers S C A × Bool
  receive_input t w =
      let (s, m) = serial w.serial (message (op_label serial_read) []) in
      let v = record w { serial = s } in
      let flags = word m 0 in
      let byte = word m 1 in
      if (m.label != serial_data) || (length m.words != 2)
      then (fail t, v, false)
      else if ltb 3 flags || ltb 255 byte || ((bit_and flags 1 == 0) && (byte != 0))
      then (fail t, v, false)
      else accept_input t v flags byte

  -- A round of the loop of `service` past the flush.
  unfoldable pub proceed : Terminal → Peers S C A → LineEvent → Terminal × Peers S C A × Bool
  proceed t w nothing = receive_input t w
  proceed t w ready =
      let (u, x) = dispatch (record t { pending_event = nothing }) w ready in (u, x, true)
  proceed t w rejected =
      let (u, x) = dispatch (record t { pending_event = nothing }) w rejected in (u, x, true)
  proceed t w cancelled =
      let (u, x) = dispatch (record t { pending_event = nothing }) w cancelled in (u, x, true)

  -- A round of the loop of `service`, with whether the loop goes on.
  unfoldable pub turn : Terminal → Peers S C A → Terminal × Peers S C A × Bool
  turn t w =
      let (sent, v, done) = send_out t w in
      let next = proceed sent v sent.pending_event in if not done then (sent, v, false) else next

  -- The loop of `service` and what follows it.
  unfoldable pub rounds : ℕ → Terminal → Peers S C A → Terminal × Peers S C A
  rounds zero t w = let (sent, v, _) = send_out t w in if t.out.failed then (t, w) else (sent, v)
  rounds (suc n) t w =
      let (next, v, on) = turn t w in
      let rest = rounds n next v in if t.out.failed then (t, w) else if on then rest else (next, v)

  -- `service`
  abbrev pub service : Terminal → Peers S C A → Terminal × Peers S C A
  service t w = rounds 32 t w

  -- `init`
  unfoldable pub init : Terminal → Peers S C A → Terminal × Peers S C A
  init t w = service (say t (greeting build)) w

  -- `notified`
  unfoldable pub notified : Terminal → Peers S C A → ℕ → Terminal × Peers S C A
  notified t w ch = if ch == 0 then service t w else (t, w)

-- `protected`
abbrev pub protected : Message
protected = reply (Policy.result Status.denied 0)
