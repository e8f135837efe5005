-- ===== src/Terminal/Server/Sending.antt =====
-- What a driver promises to servers/terminal.c, and what a flush over it does.
use tcs.Prelude.{
  ℕ, ◌+◌, ◌-◌, ◌≤◌, ◌≡◌, ◌≢◌, inl, inr, refl, Bool-cases, true, List, [], length, if◌then◌else◌,
  All, ◌==◌, arith,
}
use Prim.Native.Nat.{bit_and}
use tcs.Policy.Status
use tcs.Ipc.{Message, message, word, op_label, response}
use tcs.Serial.Server.{chunk, serial_read, serial_write, serial_data}
use tcs.Terminal.Output.{Output, words_of, flush}
use tcs.Terminal.Delivery.{offered, answered}
use tcs.Terminal.Server.Texts.{IsByte}
use tcs.Terminal.Server.Steady.{IsSteady, length-words_of, words_of-IsByte}

-- A driver that keeps `J`, takes some of the bytes that it is sent, and gives a byte with its marks.
pub record IsDriver {S : Type 0} (serial : S → Message → S × Message) (J : S → Type 0)
    : Type 0 where
  pub wrote :
      (s : S) (words : List ℕ)
      → J s
      → 1 ≤ length words
      → length words ≤ chunk
      → All IsByte words
      → let (next, answer) = serial s (message (op_label serial_write) words) in
        J next × ((response answer).status ≡ Status.ok) × ((response answer).value ≤ length words)
  pub gave :
      (s : S)
      → J s
      → let (next, answer) = serial s (message (op_label serial_read) []) in
        J next
        × (answer.label ≡ serial_data)
        × (length answer.words ≡ 2)
        × (word answer 0 ≤ 3)
        × IsByte (word answer 1)
        × (bit_and (word answer 0) 1 ≡ 0 → word answer 1 ≡ 0)

module _ {S : Type 0} (serial : S → Message → S × Message) (J : S → Type 0) where
  flush_empty :
      (o : Output) (s : S) → o.output_sent ≡ o.output_length → flush serial o s ≡ (o, s, true)
  unfolding flush
  flush_empty o s h = ground (arith, h)

  -- What is left of an output when `k` more bytes of it have been sent.
  abbrev after_sending : Output → ℕ → Output
  after_sending o k =
      if o.output_sent + k == o.output_length
      then record o { output_length = 0; output_sent = 0 }
      else record o { output_sent = o.output_sent + k }

  flush_sends :
      (o : Output) (s : S)
      → o.output_sent ≢ o.output_length
      → let (next, answer) =
          serial s (
            message (op_label serial_write) (words_of o.output o.output_sent (offered serial o))) in
        let k = (response answer).value in
        (response answer).status ≡ Status.ok
        → k ≤ offered serial o
        → flush serial o s ≡ (after_sending o k, next, o.output_sent + k == o.output_length)
  unfolding flush
  flush_sends o s h ok few = ground arith

  after_sending-IsSteady :
      (o : Output) (k : ℕ)
      → IsSteady o
      → k ≤ o.output_length - o.output_sent
      → o.output_sent ≢ o.output_length
      → IsSteady (after_sending o k)
        × ((o.output_sent + k == o.output_length) ≡ true → (after_sending o k).output_length ≡ 0)
  after_sending-IsSteady o k i few h = elim (Bool-cases (o.output_sent + k == o.output_length)) [
    | inl e ↦ rw e (
      record {
        valid = record {
          storage = i.valid.storage;
          length_in = omega arith;
          sent_in = omega arith;
        };
        bytes = i.bytes;
        unfailed = i.unfailed;
        emptied = λ _. refl;
      },
      λ _. refl,
    )
    | inr e ↦ rw e (
      record {
        valid = record {
          storage = i.valid.storage;
          length_in = i.valid.length_in;
          sent_in = omega (arith, few, i.valid.sent_in);
        };
        bytes = i.bytes;
        unfailed = i.unfailed;
        emptied = λ all. absurd (ground arith);
      },
      λ f. absurd (ground arith),
    )
  ]

  -- A flush keeps an output steady, and where it reports that nothing waits, nothing does.
  pub flush-IsSteady :
      (o : Output) (s : S)
      → IsDriver serial J
      → J s
      → IsSteady o
      → let (after, next, done) = flush serial o s in
        J next × IsSteady after × (done ≡ true → after.output_length ≡ 0)
  flush-IsSteady o s d j i = elim (Bool-cases (o.output_sent == o.output_length)) [
    | inl e ↦
        let all : o.output_sent ≡ o.output_length = ground arith in
        rw (flush_empty o s all) (j, i, λ _. i.emptied all)
    | inr e ↦
        let more : o.output_sent ≢ o.output_length = ground arith in
        let n = offered serial o in
        let words = words_of o.output o.output_sent n in
        let size = length-words_of o.output o.output_sent n in
        let (j', ok', few) =
          d.wrote s words j (omega (arith, size, more, i.valid.sent_in)) (omega (arith, size))
            (words_of-IsByte o.output o.output_sent n i.bytes) in
        let sent = (answered serial o s).value in
        let (steady, empty) = after_sending-IsSteady o sent i (omega (arith, few, size)) more in
        rw (flush_sends o s more ok' (omega (arith, few, size))) (j', steady, empty)
  ]
