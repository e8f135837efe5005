-- ===== src/Terminal/Examples.antt =====
-- The theorems on the terminal at concrete inputs.
use tcs.Prelude.{◌++◌, get_or, ℕ, ◌≡◌, refl, false, List, [], ◌∷◌, replicate, some, arith}
use tcs.Terminal.{line_feed}
use tcs.Terminal.Types.{Line, invalid}
use tcs.Terminal.Parser.{
  command_parse, digits_from, bare, parse_span, any_control, drop_spaces, skip_spaces, parse_words,
  from_space, word, until_space, read_argument,
}
use tcs.Terminal.Editor.{IsValid, view, edit, line_feed_refines}
use tcs.Policy
use tcs.Policy.Status
use tcs.Ipc.{Message, reply, response}
use tcs.Terminal.Output.{Output, flush, words_of}
use tcs.Terminal.Delivery
use tcs.Terminal.Delivery.{waiting, IsAppended, IsFlushed, append-IsAppended, flush-IsFlushed}
use tcs.Terminal.Commands.{read_text}

-- `ok` has been typed.
abbrev typed_ok : Line
typed_ok = record {
  bytes = b'o' ∷ b'k' ∷ replicate 126 0;
  length = 2;
  rejected = false;
  previous_cr = false;
  completed = false;
}

typed_ok-IsValid : IsValid typed_ok
typed_ok-IsValid = record {
  storage = refl;
  fits = omega arith;
  terminated = refl;
  dropped = ground arith;
}

-- 2 ^ 64 in decimal
abbrev too_large : List ℕ
too_large =
    b'1' ∷ b'8' ∷ b'4' ∷ b'4' ∷ b'6' ∷ b'7' ∷ b'4' ∷ b'4' ∷ b'0' ∷ b'7' ∷ b'3' ∷ b'7' ∷ b'0' ∷ b'9'
    ∷ b'5' ∷ b'5' ∷ b'1' ∷ b'6' ∷ b'1' ∷ b'6' ∷ []

refused : command_parse (some (read_text too_large)) 25 ≡ bare invalid
unfolding command_parse parse_span any_control drop_spaces skip_spaces parse_words from_space word
    until_space read_argument digits_from
refused = refl

line_feed_refines_example :
    IsValid (line_feed typed_ok 127).0
    × (view (line_feed typed_ok 127).0 ≡ (edit (view typed_ok) 127).0)
    × ((line_feed typed_ok 127).1 ≡ (edit (view typed_ok) 127).1)
line_feed_refines_example = line_feed_refines typed_ok 127 typed_ok-IsValid

-- Two bytes wait, and a driver takes one byte of each message.
abbrev greeting : Output
greeting = record {
  output = 104 ∷ 105 ∷ replicate 254 0;
  output_length = 2;
  output_sent = 0;
  failed = false;
}

abbrev slow : List ℕ → Message → List ℕ × Message
slow sent m = (sent ++ get_or m.words 0 0 ∷ [], reply (Policy.result Status.ok 1))

greeting-IsValid : Delivery.IsValid greeting
greeting-IsValid = record { storage = refl; length_in = omega arith; sent_in = omega arith }

sent-greeting :
    let (after, sent, done) = flush slow greeting [] in
    (sent ≡ 104 ∷ []) × (waiting after ≡ 105 ∷ []) × (done ≡ false)
unfolding flush words_of response reply
sent-greeting = (refl, refl, refl)

flush-IsFlushed_example :
    let (after, _, done) = flush slow greeting [] in
    Delivery.IsValid after × IsFlushed slow greeting [] after done
flush-IsFlushed_example = flush-IsFlushed slow greeting [] greeting-IsValid
