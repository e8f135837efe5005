-- ===== src/Launch/Examples.antt =====
-- The theorems on lib/launch.c at concrete inputs.
use tcs.Prelude.{ap, Bool, copy, length, ℕ, ◌≡◌, refl, true, false, List, [], ◌∷◌, replicate, some}
use tcs.Launch.{
  Launch, operator_mode, fixture_mode, is_fixture, identity_valid, nonzero, any_bits, spells,
  launch_encode, launch_decode, write_launch,
}
use tcs.Launch.Encoding.{launch_decode-launch_encode}
use tcs.Launch.Canonical.{launch_encode-launch_decode}

-- The first test key of RFC 8032.
abbrev test_key : List ℕ
test_key =
    215 ∷ 90 ∷ 152 ∷ 1 ∷ 130 ∷ 177 ∷ 10 ∷ 183 ∷ 213 ∷ 75 ∷ 254 ∷ 211 ∷ 201 ∷ 100 ∷ 7 ∷ 58 ∷ 14 ∷ 225
    ∷ 114 ∷ 243 ∷ 218 ∷ 166 ∷ 35 ∷ 37 ∷ 175 ∷ 2 ∷ 26 ∷ 104 ∷ 247 ∷ 7 ∷ 81 ∷ 26 ∷ []

abbrev operator : Launch
operator = record {
  identity = record { realm = replicate 32 1; public_key = replicate 32 9 };
  boot = replicate 32 2;
}

abbrev fixture : Launch
fixture = record operator { identity = record { realm = replicate 32 1; public_key = test_key } }

test_key_spelled : is_fixture test_key ≡ true
unfolding is_fixture spells
test_key_spelled = refl

operator_encoded : (launch_encode operator operator_mode).1 ≡ true
unfolding launch_encode identity_valid nonzero any_bits is_fixture spells
operator_encoded = refl

fixture_encoded : (launch_encode fixture fixture_mode).1 ≡ true
unfolding launch_encode identity_valid nonzero any_bits is_fixture spells
fixture_encoded = refl

fixture_refused : (launch_encode fixture operator_mode).1 ≡ false
unfolding launch_encode identity_valid nonzero any_bits is_fixture spells
fixture_refused = refl

launch_decode-launch_encode_example :
    launch_decode (some (launch_encode fixture 1).0) 112 1 ≡ (fixture, true)
launch_decode-launch_encode_example =
    launch_decode-launch_encode fixture fixture_mode refl refl refl fixture_encoded

abbrev operator_bytes : List ℕ
operator_bytes = (launch_encode operator operator_mode).0

abbrev fixture_bytes : List ℕ
fixture_bytes = (launch_encode fixture fixture_mode).0

operator_bytes-length : length operator_bytes ≡ 112
unfolding launch_encode identity_valid nonzero any_bits is_fixture spells write_launch copy
operator_bytes-length = refl

operator_decoded : launch_decode (some operator_bytes) 112 operator_mode ≡ (operator, true)
operator_decoded =
    launch_decode-launch_encode operator operator_mode refl refl refl operator_encoded

fixture_decoded : launch_decode (some fixture_bytes) 112 fixture_mode ≡ (fixture, true)
fixture_decoded = launch_decode-launch_encode fixture fixture_mode refl refl refl fixture_encoded

launch_encode-launch_decode_example :
    launch_encode (launch_decode (some operator_bytes) 112 0).0 0 ≡ (operator_bytes, true)
launch_encode-launch_decode_example =
    launch_encode-launch_decode operator_bytes operator_mode operator_bytes-length
      (ap (λ (r : Launch × Bool). r.1) operator_decoded)
