-- ===== src/Terminal/Server/Answers.antt =====
-- What servers/terminal.c prints to an event fits into its output, and asks nothing of the driver.
use tcs.Prelude.{ℕ, ◌≤◌, ◌≡◌, refl, true, ◌&&◌, if_holds, some, List, [], ◌∷◌, ◌++◌, codes, arith}
use tcs.Ipc.{Message, message, op_label, response, snapshot_response, client_status, client_read}
use tcs.Policy.Types.{the_object, read_right}
use tcs.Admin.Ipc.{submit_label, packet_words, words_from_bytes}
use tcs.SignedInput
use tcs.SignedInput.{SignedInput}
use tcs.Terminal.Types.{
  LineEvent, nothing, ready, rejected, cancelled, CommandKind, empty, help, version, status, read,
  invalid,
}
use tcs.Terminal.Parser.{command_parse}
use tcs.Terminal.Phrases.{Build, prompt}
use tcs.Terminal.Server.{
  Terminal, Peers, is_submit, say, obey, execute, leave_packet, finish_packet, finish_line,
  dispatch,
}
use tcs.Terminal.Server.Texts.{
  IsText, IsTexts, IsNamed, last, literal, IsTexts-append, status_texts-IsTexts, read_texts-IsTexts,
  packet_texts-IsTexts, help_text-IsText, version_texts-IsTexts,
}
use tcs.Terminal.Server.Steady.{IsSteady, IsFilled, append_all-IsFilled}

prompt-IsText : IsText 5 prompt
prompt-IsText = literal 5 prompt refl

module _ {S C A : Type 0} (build : Build) (serial : S → Message → S × Message)
    (client : C → Message → C × Message) (admin : A → Message → A × Message) where
  -- A steady output, and a driver that has not been asked anything.
  abbrev pub IsAnswered : S → Terminal × Peers S C A → Type 0
  IsAnswered s r = IsSteady r.0.out × (r.1.serial ≡ s)

  printed :
      {n : ℕ} {texts : List (List ℕ)} (t : Terminal) (w v : Peers S C A)
      → IsFilled 0 t.out
      → IsTexts n texts
      → n ≤ 195
      → v.serial ≡ w.serial
      → IsAnswered w.serial (say t texts, v)
  printed t w v i p h e = ((append_all-IsFilled i p (omega (arith, h))).steady, e)

  prompted :
      {n : ℕ} {texts : List (List ℕ)} (t : Terminal) (w v : Peers S C A)
      → IsFilled 0 t.out
      → IsTexts n texts
      → n ≤ 190
      → v.serial ≡ w.serial
      → IsAnswered w.serial (say t (texts ++ prompt ∷ []), v)
  prompted t w v i p h e =
      printed t w v i (IsTexts-append p (last prompt-IsText)) (omega (arith, h)) e

  obey-IsAnswered :
      (t : Terminal) (w : Peers S C A) (kind : CommandKind) (generation : ℕ)
      → IsNamed build
      → IsFilled 0 t.out
      → IsAnswered w.serial (obey build serial client admin t w kind generation)
  unfolding obey
  obey-IsAnswered t w empty g n i = printed t w w i (last prompt-IsText) (omega arith) refl
  obey-IsAnswered t w help g n i =
      prompted t w w i (last (help_text-IsText build)) (omega arith) refl
  obey-IsAnswered t w version g n i =
      prompted t w w i (version_texts-IsTexts build n) (omega arith) refl
  obey-IsAnswered t w status g n i =
      let (c, answer) = client w.client (message (op_label client_status) []) in
      prompted t w (record w { client = c }) i (status_texts-IsTexts (snapshot_response answer))
        (omega arith) refl
  obey-IsAnswered t w read g n i =
      let asked = message (op_label client_read) (the_object ∷ read_right ∷ g ∷ []) in
      let (c, answer) = client w.client asked in
      prompted t w (record w { client = c }) i (read_texts-IsTexts (response answer)) (omega arith)
        refl
  obey-IsAnswered t w invalid g n i =
      prompted t w w i (last (literal 40 (codes "ERROR unknown or malformed command\r\n") refl))
        (omega arith) refl

  execute-IsAnswered :
      (t : Terminal) (w : Peers S C A)
      → IsNamed build
      → IsFilled 0 t.out
      → IsAnswered w.serial (execute build serial client admin t w)
  unfolding execute
  execute-IsAnswered t w n i =
      let cmd = command_parse (some t.line.bytes) t.line.length in
      let opened = record t {
        signed_input = SignedInput.begin t.line.previous_cr;
        packet_mode = true;
      } in
      let packet =
        literal 90
          (codes
            "Enter exactly 384 lowercase hex digits; Enter submits, Ctrl-C cancels.\r\npacket> ")
          refl in
      if_holds (build.signed && is_submit t.line) (IsAnswered w.serial)
        (printed opened w w i (last packet) (omega arith) refl)
        (obey-IsAnswered t w cmd.kind cmd.generation n i)

  finish_packet-IsAnswered :
      (t : Terminal) (w : Peers S C A) (event : LineEvent)
      → IsFilled 0 t.out
      → IsAnswered w.serial (finish_packet build serial client admin t w event)
  unfolding finish_packet leave_packet
  finish_packet-IsAnswered t w ready i =
      let packet = t.signed_input.packet in
      let (a, answer) =
        admin w.admin (message submit_label (words_from_bytes packet packet_words)) in
      prompted t w (record w { admin = a }) i (packet_texts-IsTexts packet answer) (omega arith)
        refl
  finish_packet-IsAnswered t w cancelled i =
      prompted t w w i (last (literal 40 (codes "CANCELLED\r\n") refl)) (omega arith) refl
  finish_packet-IsAnswered t w rejected i =
      prompted t w w i (last (literal 40 (codes "ERROR discarded signed packet\r\n") refl))
        (omega arith) refl
  finish_packet-IsAnswered t w nothing i =
      prompted t w w i (last (literal 40 (codes "ERROR discarded signed packet\r\n") refl))
        (omega arith) refl

  finish_line-IsAnswered :
      (t : Terminal) (w : Peers S C A) (event : LineEvent)
      → IsNamed build
      → IsFilled 0 t.out
      → IsAnswered w.serial (finish_line build serial client admin t w event)
  unfolding finish_line
  finish_line-IsAnswered t w ready n i = execute-IsAnswered t w n i
  finish_line-IsAnswered t w cancelled n i =
      printed t w w i (last (literal 40 (codes "CANCELLED\r\ntcs> ") refl)) (omega arith) refl
  finish_line-IsAnswered t w rejected n i =
      printed t w w i (last (literal 40 (codes "ERROR discarded input line\r\ntcs> ") refl))
        (omega arith) refl
  finish_line-IsAnswered t w nothing n i = (i.steady, refl)

  pub dispatch-IsAnswered :
      (t : Terminal) (w : Peers S C A) (event : LineEvent)
      → IsNamed build
      → IsFilled 0 t.out
      → IsAnswered w.serial (dispatch build serial client admin t w event)
  unfolding dispatch
  dispatch-IsAnswered t w event n i =
      if_holds t.packet_mode (IsAnswered w.serial) (finish_packet-IsAnswered t w event i)
        (finish_line-IsAnswered t w event n i)
