-- ===== src/SignedInput/Examples.antt =====
-- The entry of a packet at concrete inputs.
use tcs.Prelude.{◌≡◌, refl, false, ◌∷◌, replicate, arith}
use tcs.SignedInput.{SignedInput, begin, feed, store_digit, feed_digit, nibble, discard}
use tcs.SignedInput.Entry.{IsValid}

-- All digits have been entered.
abbrev entered : SignedInput
entered = record {
  packet = replicate 192 171;
  digits = 384;
  rejected = false;
  previous_cr = false;
  completed = false;
}

entered-IsValid : IsValid entered
entered-IsValid = record { storage = refl; fits = omega arith; dropped = ground arith }

-- `ab` is the byte 171, and a capital letter rejects the entry.
two_digits : (feed (feed (begin false) b'a').0 b'b').0.packet ≡ 171 ∷ replicate 191 0
unfolding feed feed_digit nibble store_digit begin
two_digits = refl

capital_rejected : (feed (begin false) b'A').0 ≡ discard
unfolding feed feed_digit nibble begin
capital_rejected = refl
