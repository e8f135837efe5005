-- ===== src/Terminal/Server/Requests.antt =====
-- Which requests servers/terminal.c makes of the servers of the channels 1 and 2.
use tcs.Prelude.{
  ℕ, ◌≡◌, refl, sym, ◌∙◌, subst, Bool, not, true, ◌&&◌, ◌||◌, ◌==◌, ◌!=◌, ltb, if◌then◌else◌,
  if_holds, List, [], ◌∷◌, length, some, Bool-cases, inl, inr, arith,
}
use Prim.Native.Nat.{bit_and}
use tcs.Policy.Types.{the_object, read_right}
use tcs.Ipc.{Message, message, word, op_label, client_status, client_read}
use tcs.Admin.Ipc.{submit_label, packet_words, words_from_bytes}
use tcs.Serial.Server.{serial_read, serial_data}
use tcs.Terminal.Types.{
  LineEvent, nothing, ready, rejected, cancelled, CommandKind, empty, help, version, status, read,
  invalid,
}
use tcs.Terminal.Parser.{command_parse}
use tcs.Terminal.Server.Rounds.{rounds_keep}
use tcs.Terminal.Phrases.{Build, greeting}
use tcs.Terminal.Server.{
  Terminal, Peers, is_submit, say, fail, obey, execute, leave_packet, finish_packet, finish_line,
  dispatch, note_loss, take_byte, send_out, accept_input, receive_input, proceed, turn, init,
  notified,
}

module _ {S C A : Type 0} (build : Build) (serial : S → Message → S × Message)
    (client : C → Message → C × Message) (admin : A → Message → A × Message) where
  module _ (K : C → Type 0) (L : A → Type 0) where
    -- The client keeps `K` when its status or an object is asked for; the administrator keeps `L` when
    -- a packet is submitted, which only a build with signed packets does.
    pub record IsKept : Type 0 where
      pub status_kept : (c : C) → K c → K (client c (message (op_label client_status) [])).0
      pub read_kept :
          (c : C) (generation : ℕ)
          → K c
          → K
              (client c
                (message (op_label client_read) (the_object ∷ read_right ∷ generation ∷ []))).0
      pub submit_kept :
          (a : A) (packet : List ℕ)
          → build.signed ≡ true
          → L a
          → L (admin a (message submit_label (words_from_bytes packet packet_words))).0

    -- A packet is only entered in a build that takes one.
    pub record IsWithin (r : Terminal × Peers S C A) : Type 0 where
      pub entered : r.0.packet_mode ≡ true → build.signed ≡ true
      pub client_in : K r.1.client
      pub admin_in : L r.1.admin

    -- The mode, the client and the administrator are those of `r`.
    same :
        (r : Terminal × Peers S C A) (t : Terminal) (w : Peers S C A)
        → t.packet_mode ≡ r.0.packet_mode
        → w.client ≡ r.1.client
        → w.admin ≡ r.1.admin
        → IsWithin r
        → IsWithin (t, w)
    same r t w e c a i = record {
      entered = λ h. i.entered (sym e ∙ h);
      client_in = subst K (sym c) i.client_in;
      admin_in = subst L (sym a) i.admin_in;
    }

    obey-IsWithin :
        (t : Terminal) (w : Peers S C A) (kind : CommandKind) (generation : ℕ)
        → IsKept
        → IsWithin (t, w)
        → IsWithin (obey build serial client admin t w kind generation)
    unfolding obey
    obey-IsWithin t w empty g k i = same (t, w) _ w refl refl refl i
    obey-IsWithin t w help g k i = same (t, w) _ w refl refl refl i
    obey-IsWithin t w version g k i = same (t, w) _ w refl refl refl i
    obey-IsWithin t w status g k i = record {
      entered = i.entered;
      client_in = k.status_kept w.client i.client_in;
      admin_in = i.admin_in;
    }
    obey-IsWithin t w read g k i = record {
      entered = i.entered;
      client_in = k.read_kept w.client g i.client_in;
      admin_in = i.admin_in;
    }
    obey-IsWithin t w invalid g k i = same (t, w) _ w refl refl refl i

    execute-IsWithin :
        (t : Terminal) (w : Peers S C A)
        → IsKept
        → IsWithin (t, w)
        → IsWithin (execute build serial client admin t w)
    unfolding execute
    execute-IsWithin t w k i =
        let cmd = command_parse (some t.line.bytes) t.line.length in
        elim (Bool-cases (build.signed && is_submit t.line)) [
          | inl e ↦ rw e (record {
            entered = λ _. ground arith;
            client_in = i.client_in;
            admin_in = i.admin_in;
          })
          | inr e ↦ rw e (obey-IsWithin t w cmd.kind cmd.generation k i)
        ]

    finish_packet-IsWithin :
        (t : Terminal) (w : Peers S C A) (event : LineEvent)
        → IsKept
        → t.packet_mode ≡ true
        → IsWithin (t, w)
        → IsWithin (finish_packet build serial client admin t w event)
    unfolding finish_packet leave_packet
    finish_packet-IsWithin t w ready k m i = record {
      entered = λ h. i.entered m;
      client_in = i.client_in;
      admin_in = k.submit_kept w.admin t.signed_input.packet (i.entered m) i.admin_in;
    }
    finish_packet-IsWithin t w cancelled k m i = record {
      entered = λ h. i.entered m;
      client_in = i.client_in;
      admin_in = i.admin_in;
    }
    finish_packet-IsWithin t w rejected k m i = record {
      entered = λ h. i.entered m;
      client_in = i.client_in;
      admin_in = i.admin_in;
    }
    finish_packet-IsWithin t w nothing k m i = record {
      entered = λ h. i.entered m;
      client_in = i.client_in;
      admin_in = i.admin_in;
    }

    finish_line-IsWithin :
        (t : Terminal) (w : Peers S C A) (event : LineEvent)
        → IsKept
        → IsWithin (t, w)
        → IsWithin (finish_line build serial client admin t w event)
    unfolding finish_line
    finish_line-IsWithin t w ready k i = execute-IsWithin t w k i
    finish_line-IsWithin t w cancelled k i = same (t, w) _ w refl refl refl i
    finish_line-IsWithin t w rejected k i = same (t, w) _ w refl refl refl i
    finish_line-IsWithin t w nothing k i = i

    dispatch-IsWithin :
        (t : Terminal) (w : Peers S C A) (event : LineEvent)
        → IsKept
        → IsWithin (t, w)
        → IsWithin
            (dispatch build serial client admin (record t { pending_event = nothing }) w event)
    unfolding dispatch
    dispatch-IsWithin t w event k i =
        let idle = record t { pending_event = nothing } in
        let inside = same (t, w) idle w refl refl refl i in
        elim (Bool-cases t.packet_mode) [
          | inl e ↦
              subst
                (λ (b : Bool). IsWithin (
                  if b
                  then finish_packet build serial client admin idle w event
                  else finish_line build serial client admin idle w event))
                (sym e) (finish_packet-IsWithin idle w event k e inside)
          | inr e ↦
              subst
                (λ (b : Bool). IsWithin (
                  if b
                  then finish_packet build serial client admin idle w event
                  else finish_line build serial client admin idle w event))
                (sym e) (finish_line-IsWithin idle w event k inside)
        ]

    send_out-IsWithin :
        (t : Terminal) (w : Peers S C A)
        → IsWithin (t, w)
        → let (u, x, _) = send_out build serial client admin t w in IsWithin (u, x)
    send_out-IsWithin t w i =
        let (u, x, _) = send_out build serial client admin t w in same (t, w) u x refl refl refl i

    note_loss-IsWithin :
        (t : Terminal) (w : Peers S C A) → IsWithin (t, w) → IsWithin (note_loss t, w)
    unfolding note_loss
    note_loss-IsWithin t w i = same (t, w) _ w refl refl refl i

    take_byte-IsWithin :
        (t : Terminal) (w : Peers S C A) (byte : ℕ)
        → IsWithin (t, w)
        → IsWithin (take_byte t byte, w)
    unfolding take_byte
    take_byte-IsWithin t w byte i =
        if_holds t.packet_mode (λ (u : Terminal). IsWithin (u, w))
          (same (t, w) _ w refl refl refl i) (same (t, w) _ w refl refl refl i)

    -- The state and the peers at the end of a round.
    abbrev IsInside : Terminal × Peers S C A × Bool → Type 0
    IsInside r = IsWithin (r.0, r.1)

    accept_input-IsWithin :
        (t : Terminal) (w : Peers S C A) (flags byte : ℕ)
        → IsWithin (t, w)
        → IsInside (accept_input build serial client admin t w flags byte)
    unfolding accept_input
    accept_input-IsWithin t w flags byte i =
        let lost = bit_and flags 2 != 0 in
        let noted = if lost then note_loss t else t in
        let inside =
          if_holds lost (λ (u : Terminal). IsWithin (u, w)) (note_loss-IsWithin t w i) i in
        if_holds (bit_and flags 1 == 0) IsInside (send_out-IsWithin noted w inside)
          (take_byte-IsWithin noted w byte inside)

    receive_input-IsWithin :
        (t : Terminal) (w : Peers S C A)
        → IsWithin (t, w)
        → IsInside (receive_input build serial client admin t w)
    unfolding receive_input
    receive_input-IsWithin t w i =
        let (s, m) = serial w.serial (message (op_label serial_read) []) in
        let v = record w { serial = s } in
        let flags = word m 0 in
        let byte = word m 1 in
        let inside = same (t, w) t v refl refl refl i in
        let at_fault = same (t, w) (fail t) v refl refl refl i in
        if_holds ((m.label != serial_data) || (length m.words != 2)) IsInside at_fault (
          if_holds (ltb 3 flags || ltb 255 byte || ((bit_and flags 1 == 0) && (byte != 0))) IsInside
            at_fault (accept_input-IsWithin t v flags byte inside))

    proceed-IsWithin :
        (t : Terminal) (w : Peers S C A) (event : LineEvent)
        → IsKept
        → IsWithin (t, w)
        → IsInside (proceed build serial client admin t w event)
    unfolding proceed
    proceed-IsWithin t w nothing k i = receive_input-IsWithin t w i
    proceed-IsWithin t w ready k i = dispatch-IsWithin t w ready k i
    proceed-IsWithin t w rejected k i = dispatch-IsWithin t w rejected k i
    proceed-IsWithin t w cancelled k i = dispatch-IsWithin t w cancelled k i

    turn-IsWithin :
        (t : Terminal) (w : Peers S C A)
        → IsKept
        → IsWithin (t, w)
        → IsInside (turn build serial client admin t w)
    unfolding turn
    turn-IsWithin t w k i =
        let (sent, v, done) = send_out build serial client admin t w in
        let after = send_out-IsWithin t w i in
        if_holds (not done) IsInside after (proceed-IsWithin sent v sent.pending_event k after)

    -- Whatever the driver answers and whatever is typed, a notification keeps what the two requests for
    -- the status and an object keep of the client; a build without signed packets asks nothing of the
    -- administrator, and one with them only submits packets.
    pub notified-IsWithin :
        (t : Terminal) (w : Peers S C A) (ch : ℕ)
        → IsKept
        → IsWithin (t, w)
        → IsWithin (notified build serial client admin t w ch)
    unfolding notified
    notified-IsWithin t w ch k i =
        let served =
          rounds_keep build serial client admin IsWithin send_out-IsWithin
            (λ u x j. turn-IsWithin u x k j) 32 t w i in
        if_holds (ch == 0) IsWithin served i

    -- So does the first service.
    pub init-IsWithin :
        (t : Terminal) (w : Peers S C A)
        → IsKept
        → IsWithin (t, w)
        → IsWithin (init build serial client admin t w)
    unfolding init
    init-IsWithin t w k i =
        let greeted = say t (greeting build) in
        rounds_keep build serial client admin IsWithin send_out-IsWithin
          (λ u x j. turn-IsWithin u x k j) 32 greeted w (same (t, w) greeted w refl refl refl i)
