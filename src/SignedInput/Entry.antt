-- ===== src/SignedInput/Entry.antt =====
-- What lib/signed_input.c keeps, and when it hands over a packet.
use tcs.Prelude.{
  ℕ, ◌*◌, ◌/◌, ◌≤◌, ◌<◌, ◌≡◌, ◌≢◌, ◌⊎◌, Bool, true, false, length, length-set, arith, refl, ◌∙◌,
  Option, none, some, ◌==◌,
}
use tcs.SignedInput.{SignedInput, discard, nibble, store_digit, finish, feed_digit, feed}
use tcs.Admin.Types.{packet_bytes}
use tcs.Terminal.Types.{nothing, ready}

-- The array has its size, no more digits are counted than it holds, and a rejected entry holds none.
pub record IsValid (s : SignedInput) : Type 0 where
  pub storage : length s.packet ≡ packet_bytes
  pub fits : s.digits ≤ 2 * packet_bytes
  pub dropped : s.rejected ≡ true → s.digits ≡ 0

discard-IsValid : IsValid discard
unfolding discard
discard-IsValid = record { storage = refl; fits = omega arith; dropped = λ e. refl }

store_digit-IsValid :
    (s : SignedInput) (n : ℕ)
    → IsValid s
    → s.digits < 2 * packet_bytes
    → s.rejected ≡ false
    → IsValid (store_digit s n)
unfolding store_digit
store_digit-IsValid s n v h r = record {
  storage = length-set s.packet (s.digits / 2) _ ∙ v.storage;
  fits = omega arith;
  dropped = ground arith;
}

feed_digit_lem :
    (s : SignedInput) (byte : ℕ) (o : Option ℕ)
    → IsValid s
    → s.rejected ≡ false
    → IsValid (feed_digit s byte o).0 × ((feed_digit s byte o).1.event ≡ nothing)
unfolding feed_digit
feed_digit_lem s byte none v r = (discard-IsValid, refl)
feed_digit_lem s byte (some n) v r = ground (arith, store_digit-IsValid s n v, discard-IsValid)

finish_lem :
    (s : SignedInput)
    → IsValid s
    → IsValid (finish s).0
      × ((finish s).1.event ≡ ready
          → (s.rejected ≡ false) × (s.digits ≡ 2 * packet_bytes) × ((finish s).0.packet ≡ s.packet))
unfolding finish
finish_lem s v = ground (arith, discard-IsValid)

with_cr-IsValid : (s : SignedInput) (b : Bool) → IsValid s → IsValid (record s { previous_cr = b })
with_cr-IsValid s b v = record { storage = v.storage; fits = v.fits; dropped = v.dropped }

-- Any byte keeps a valid entry valid: the array keeps its size and no more digits are counted than it
-- holds. The entry becomes ready only by a line end after exactly the digits of a packet, with nothing
-- rejected, and with the packet as it was entered.
pub feed-IsValid :
    (s : SignedInput) (byte : ℕ)
    → IsValid s
    → let (next, f) = feed s byte in
      IsValid next
      × ((f.event ≢ ready)
          ⊎ (((byte ≡ 13) ⊎ (byte ≡ 10))
              × (s.completed ≡ false)
              × (s.rejected ≡ false)
              × (s.digits ≡ 2 * packet_bytes)
              × (next.packet ≡ s.packet)))
unfolding feed
feed-IsValid s byte v =
    let marked = record s { previous_cr = byte == 13 } in
    let w = with_cr-IsValid s (byte == 13) v in
    ground (
      arith,
      finish_lem marked w,
      feed_digit_lem marked byte (nibble byte) w,
      with_cr-IsValid s false v,
      discard-IsValid,
      w,
    )
