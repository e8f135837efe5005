-- ===== src/Terminal/Output.antt =====
-- The output of servers/terminal.c: what waits to be sent to the driver of the serial device.
use tcs.Prelude.{
  ℕ, zero, suc, ◌+◌, ◌-◌, Bool, true, false, ◌||◌, ltb, ◌==◌, ◌!=◌, if◌then◌else◌, List, [], ◌∷◌,
  get_or, set, min,
}
use tcs.Policy.Status
use tcs.Ipc.{Message, message, op_label, response}
use tcs.Serial.Server.{chunk, serial_write}

-- The size of `output`.
abbrev pub output_size : ℕ
output_size = 256

-- `output`, `output_length`, `output_sent` and `failed`
pub record Output : Type 0 where
  pub output : List ℕ
  pub output_length : ℕ
  pub output_sent : ℕ
  pub failed : Bool

-- `append`
unfoldable pub append : Output → List ℕ → Output
append o [] = o
append o (c ∷ text) =
    let longer = record o {
      output = set o.output o.output_length c;
      output_length = o.output_length + 1;
    } in
    let rest = append longer text in
    if ltb o.output_length output_size then rest else record o { failed = true }

-- The loop of `flush` that sets the words of the message.
unfoldable pub words_of : List ℕ → ℕ → ℕ → List ℕ
words_of output sent zero = []
words_of output sent (suc n) = get_or output sent 0 ∷ words_of output (sent + 1) n

-- `flush`, over the server of channel 0: whether nothing waits any more.
module _ {S : Type 0} (serial : S → Message → S × Message) where
  unfoldable pub flush : Output → S → Output × S × Bool
  flush o s =
      let count = min (o.output_length - o.output_sent) chunk in
      let (next, answer) =
        serial s (message (op_label serial_write) (words_of o.output o.output_sent count)) in
      let r = response answer in
      let sent = o.output_sent + r.value in
      if o.output_sent == o.output_length
      then (o, s, true)
      else if (r.status != Status.ok) || ltb count r.value
      then (record o { failed = true }, next, false)
      else if sent == o.output_length
      then (record o { output_length = 0; output_sent = 0 }, next, true)
      else (record o { output_sent = sent }, next, false)
