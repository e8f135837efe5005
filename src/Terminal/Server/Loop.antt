-- ===== src/Terminal/Server/Loop.antt =====
-- The service loop of servers/terminal.c over a driver that keeps its promises.
use Prim.Native.Nat.{bit_and}
use tcs.Prelude.{
  ℕ, ◌≤◌, ◌≡◌, inl, inr, refl, subst, sym, Bool, Bool-cases, true, false, ◌&&◌, ◌||◌, ◌==◌, ◌!=◌,
  ltb, if◌then◌else◌, if_holds, [], length, All, codes, arith,
}
use tcs.Ipc.{Message, message, word, op_label}
use tcs.Serial.Server.{serial_read, serial_data}
use tcs.SignedInput
use tcs.SignedInput.{SignedInput}
use tcs.Terminal.{terminal_input}
use tcs.Terminal.Display.{echo_bounded}
use tcs.Terminal.Output.{Output, flush}
use tcs.Terminal.Types.{LineEvent, nothing, ready, rejected, cancelled}
use tcs.Terminal.Phrases.{Build, greeting}
use tcs.Terminal.Server.{
  Terminal, Peers, say, dispatch, note_loss, take_byte, send_out, accept_input, receive_input,
  proceed, turn, rounds, init, notified,
}
use tcs.Terminal.Server.Rounds.{rounds_keep}
use tcs.Terminal.Server.Texts.{
  IsByte, IsText, IsNamed, last, literal, display_bytes, greeting-IsTexts,
}
use tcs.Terminal.Server.Steady.{IsSteady, IsFilled, IsFilled-empty, append_all-IsFilled}
use tcs.Terminal.Server.Sending.{IsDriver, flush-IsSteady}
use tcs.Terminal.Server.Answers.{dispatch-IsAnswered}

-- The echo of a byte of a packet.
entry_bounded :
    (s : SignedInput) (byte : ℕ)
    → IsByte byte
    → let echo = (SignedInput.feed s byte).1.echo in (length echo ≤ 4) × All IsByte echo
unfolding SignedInput.feed SignedInput.finish SignedInput.feed_digit SignedInput.nibble
entry_bounded s byte h = ground arith

entry-IsText :
    (s : SignedInput) (byte : ℕ) → IsByte byte → IsText 4 (SignedInput.feed s byte).1.echo
entry-IsText s byte h =
    let (short, bytes) = entry_bounded s byte h in record { short = short; bytes = bytes }

echo-IsText : (t : Terminal) (byte : ℕ) → IsText 4 (terminal_input t.line byte).1.echo
echo-IsText t byte =
    let (short, shown) = echo_bounded t.line byte in
    record { short = short; bytes = display_bytes (terminal_input t.line byte).1.echo shown }

note_loss-IsFilled : (t : Terminal) → IsFilled 0 t.out → IsFilled 100 (note_loss t).out
unfolding note_loss
note_loss-IsFilled t i =
    append_all-IsFilled i
      (last (literal 100 (codes "\r\nINPUT LOST; discard until Enter or Ctrl-C\r\n") refl))
      (omega arith)

IsFilled-more : {m n : ℕ} {o : Output} → IsFilled m o → m ≤ n → IsFilled n o
IsFilled-more i h = record {
  steady = i.steady;
  unsent = i.unsent;
  filled = omega (arith, i.filled, h);
}

take_byte-IsSteady :
    (t : Terminal) (byte : ℕ) → IsByte byte → IsFilled 100 t.out → IsSteady (take_byte t byte).out
unfolding take_byte
take_byte-IsSteady t byte h i =
    let (s, entered) = SignedInput.feed t.signed_input byte in
    let (line, typed) = terminal_input t.line byte in
    if_holds t.packet_mode (λ (u : Terminal). IsSteady u.out)
      (append_all-IsFilled i (last (entry-IsText t.signed_input byte h)) (omega arith)).steady
      (append_all-IsFilled i (last (echo-IsText t byte)) (omega arith)).steady

module _ {S C A : Type 0} (build : Build) (serial : S → Message → S × Message)
    (client : C → Message → C × Message) (admin : A → Message → A × Message) (J : S → Type 0) where
  -- The output is steady, and the driver keeps `J`.
  pub record IsLive (t : Terminal) (w : Peers S C A) : Type 0 where
    pub steady : IsSteady t.out
    pub driven : J w.serial

  send_out-IsLive :
      (t : Terminal) (w : Peers S C A)
      → IsDriver serial J
      → IsLive t w
      → let (u, x, done) = send_out build serial client admin t w in
        IsLive u x × (done ≡ true → IsFilled 0 u.out)
  send_out-IsLive t w d l =
      let (j, steady, empty) = flush-IsSteady serial J t.out w.serial d l.driven l.steady in
      let out = (flush serial t.out w.serial).0 in
      (record { steady = steady; driven = j }, λ h. IsFilled-empty out steady (empty h))

  accept_input-IsLive :
      (t : Terminal) (w : Peers S C A) (flags byte : ℕ)
      → IsDriver serial J
      → IsByte byte
      → J w.serial
      → IsFilled 0 t.out
      → let (u, x, _) = accept_input build serial client admin t w flags byte in IsLive u x
  unfolding accept_input
  accept_input-IsLive t w flags byte d b j i =
      let lost = bit_and flags 2 != 0 in
      let noted = if lost then note_loss t else t in
      let filled : IsFilled 100 noted.out =
        if_holds lost (λ (u : Terminal). IsFilled 100 u.out) (note_loss-IsFilled t i)
          (IsFilled-more i (omega arith)) in
      let sent = send_out-IsLive noted w d (record { steady = filled.steady; driven = j }) in
      let (u, x, _) = send_out build serial client admin noted w in
      if_holds (bit_and flags 1 == 0) (λ (r : Terminal × Peers S C A × Bool). IsLive r.0 r.1) sent.0
        (record { steady = take_byte-IsSteady noted byte b filled; driven = j })

  -- The state and the peers at the end of a round are live.
  abbrev IsAlive : Terminal × Peers S C A × Bool → Type 0
  IsAlive r = IsLive r.0 r.1

  receive_input-IsLive :
      (t : Terminal) (w : Peers S C A)
      → IsDriver serial J
      → J w.serial
      → IsFilled 0 t.out
      → IsAlive (receive_input build serial client admin t w)
  unfolding receive_input
  receive_input-IsLive t w d j i =
      let (s, m) = serial w.serial (message (op_label serial_read) []) in
      let (j', label, count, flags_in, byte_in, alone) = d.gave w.serial j in
      let formed : ((m.label != serial_data) || (length m.words != 2)) ≡ false = ground arith in
      let flags = word m 0 in
      let byte = word m 1 in
      let allowed : (ltb 3 flags || ltb 255 byte || ((bit_and flags 1 == 0) && (byte != 0)))
          ≡ false =
        ground (arith, flags_in, byte_in, alone) in
      rw formed
        (rw allowed (accept_input-IsLive t (record w { serial = s }) flags byte d byte_in j' i))

  dispatch-IsLive :
      (t : Terminal) (w : Peers S C A) (event : LineEvent)
      → IsNamed build
      → J w.serial
      → IsFilled 0 t.out
      → let (u, x) = dispatch build serial client admin t w event in IsLive u x
  dispatch-IsLive t w event n j i =
      let (steady, same) = dispatch-IsAnswered build serial client admin t w event n i in
      record { steady = steady; driven = subst J (sym same) j }

  proceed-IsLive :
      (t : Terminal) (w : Peers S C A) (event : LineEvent)
      → IsNamed build
      → IsDriver serial J
      → J w.serial
      → IsFilled 0 t.out
      → IsAlive (proceed build serial client admin t w event)
  unfolding proceed
  proceed-IsLive t w nothing n d j i = receive_input-IsLive t w d j i
  proceed-IsLive t w ready n d j i =
      let l = dispatch-IsLive (record t { pending_event = nothing }) w ready n j i in
      record { steady = l.steady; driven = l.driven }
  proceed-IsLive t w rejected n d j i =
      let l = dispatch-IsLive (record t { pending_event = nothing }) w rejected n j i in
      record { steady = l.steady; driven = l.driven }
  proceed-IsLive t w cancelled n d j i =
      let l = dispatch-IsLive (record t { pending_event = nothing }) w cancelled n j i in
      record { steady = l.steady; driven = l.driven }

  turn-IsLive :
      (t : Terminal) (w : Peers S C A)
      → IsNamed build
      → IsDriver serial J
      → IsLive t w
      → IsAlive (turn build serial client admin t w)
  unfolding turn
  turn-IsLive t w n d l =
      let (sent, v, done) = send_out build serial client admin t w in
      let (live, idle) = send_out-IsLive t w d l in
      elim (Bool-cases done) [
        | inl e ↦ rw e (proceed-IsLive sent v sent.pending_event n d live.driven (idle e))
        | inr e ↦ rw e live
      ]

  rounds-IsLive :
      (k : ℕ) (t : Terminal) (w : Peers S C A)
      → IsNamed build
      → IsDriver serial J
      → IsLive t w
      → let (u, x) = rounds build serial client admin k t w in IsLive u x
  rounds-IsLive k t w n d l =
      rounds_keep build serial client admin (λ (r : Terminal × Peers S C A). IsLive r.0 r.1)
        (λ u x j. (send_out-IsLive u x d j).0) (λ u x j. turn-IsLive u x n d j) k t w l

  -- Where the names of the build are at most 64 bytes and the driver keeps its promises, a
  -- notification on any channel keeps the terminal live: its output is never too long for the array,
  -- the driver is never found at fault, and `failed` is never set.
  pub notified-IsLive :
      (t : Terminal) (w : Peers S C A) (ch : ℕ)
      → IsNamed build
      → IsDriver serial J
      → IsLive t w
      → let (u, x) = notified build serial client admin t w ch in IsLive u x
  unfolding notified
  notified-IsLive t w ch n d l =
      if_holds (ch == 0) (λ (r : Terminal × Peers S C A). IsLive r.0 r.1)
        (rounds-IsLive 32 t w n d l) l

  -- The greeting fits, and the first service keeps the terminal live.
  pub init-IsLive :
      (t : Terminal) (w : Peers S C A)
      → IsNamed build
      → IsDriver serial J
      → J w.serial
      → IsFilled 0 t.out
      → let (u, x) = init build serial client admin t w in IsLive u x
  unfolding init
  init-IsLive t w n d j i =
      let greeted = append_all-IsFilled i (greeting-IsTexts build n) (omega arith) in
      rounds-IsLive 32 (say t (greeting build)) w n d
        (record { steady = greeted.steady; driven = j })
