-- ===== src/Launch.antt =====
-- lib/launch.c: the public identity and the launch context of an instance, as bytes. A pointer to the
-- output is taken to be given.
pub mod Encoding
pub mod Modes
mod Examples
pub mod Canonical
use tcs.Prelude.{
  ℕ, zero, suc, ◌+◌, ◌*◌, ◌/◌, ◌%◌, Bool, true, false, not, ◌&&◌, ◌||◌, ◌==◌, ◌!=◌, if◌then◌else◌,
  List, [], ◌∷◌, get_or, set, take, drop, replicate, Option, none, some, copy, bit_or,
}

-- `enum tcs_launch_mode`
abbrev pub operator_mode : ℕ
operator_mode = 0

abbrev pub fixture_mode : ℕ
fixture_mode = 1

-- `struct tcs_identity`
pub record Identity : Type 0 where
  pub realm : List ℕ
  pub public_key : List ℕ

-- `struct tcs_launch`
pub record Launch : Type 0 where
  pub identity : Identity
  pub boot : List ℕ

-- `public_prefix`
abbrev pub public_prefix : List ℕ
public_prefix = 84 ∷ 67 ∷ 83 ∷ 45 ∷ 80 ∷ 85 ∷ 66 ∷ 1 ∷ replicate 8 0

-- `launch_prefix`
abbrev pub launch_prefix : List ℕ
launch_prefix = 84 ∷ 67 ∷ 83 ∷ 45 ∷ 76 ∷ 65 ∷ 85 ∷ 78 ∷ 67 ∷ 72 ∷ 1 ∷ replicate 5 0

-- The loop of `nonzero`.
unfoldable pub any_bits : List ℕ → ℕ → ℕ
any_bits bytes zero = 0
any_bits bytes (suc i) = bit_or (any_bits bytes i) (get_or bytes i 0)

-- `nonzero`
unfoldable pub nonzero : List ℕ → Bool
nonzero bytes = any_bits bytes 32 != 0

-- The loop of `header`: the bytes below the length are the same.
unfoldable pub same_below : List ℕ → List ℕ → ℕ → Bool
same_below bytes prefix zero = true
same_below bytes prefix (suc i) =
    same_below bytes prefix i && (get_or bytes i 0 == get_or prefix i 0)

-- `header`
unfoldable pub header : List ℕ → List ℕ → ℕ → Bool
header bytes prefix mode =
    if (mode != operator_mode) && (mode != fixture_mode)
    then false
    else if not (same_below bytes prefix 15)
    then false
    else get_or bytes 15 0 == mode % 256

-- The characters of `hex`.
abbrev pub hex : List ℕ
hex = 48 ∷ 49 ∷ 50 ∷ 51 ∷ 52 ∷ 53 ∷ 54 ∷ 55 ∷ 56 ∷ 57 ∷ 97 ∷ 98 ∷ 99 ∷ 100 ∷ 101 ∷ 102 ∷ []

-- The characters of `fixtures`.
abbrev pub first_fixture : List ℕ
first_fixture =
    100 ∷ 55 ∷ 53 ∷ 97 ∷ 57 ∷ 56 ∷ 48 ∷ 49 ∷ 56 ∷ 50 ∷ 98 ∷ 49 ∷ 48 ∷ 97 ∷ 98 ∷ 55 ∷ 100 ∷ 53 ∷ 52
    ∷ 98 ∷ 102 ∷ 101 ∷ 100 ∷ 51 ∷ 99 ∷ 57 ∷ 54 ∷ 52 ∷ 48 ∷ 55 ∷ 51 ∷ 97 ∷ 48 ∷ 101 ∷ 101 ∷ 49 ∷ 55
    ∷ 50 ∷ 102 ∷ 51 ∷ 100 ∷ 97 ∷ 97 ∷ 54 ∷ 50 ∷ 51 ∷ 50 ∷ 53 ∷ 97 ∷ 102 ∷ 48 ∷ 50 ∷ 49 ∷ 97 ∷ 54
    ∷ 56 ∷ 102 ∷ 55 ∷ 48 ∷ 55 ∷ 53 ∷ 49 ∷ 49 ∷ 97 ∷ []

abbrev pub second_fixture : List ℕ
second_fixture =
    51 ∷ 100 ∷ 52 ∷ 48 ∷ 49 ∷ 55 ∷ 99 ∷ 51 ∷ 101 ∷ 56 ∷ 52 ∷ 51 ∷ 56 ∷ 57 ∷ 53 ∷ 97 ∷ 57 ∷ 50 ∷ 98
    ∷ 55 ∷ 48 ∷ 97 ∷ 97 ∷ 55 ∷ 52 ∷ 100 ∷ 49 ∷ 98 ∷ 55 ∷ 101 ∷ 98 ∷ 99 ∷ 57 ∷ 99 ∷ 57 ∷ 56 ∷ 50 ∷ 99
    ∷ 99 ∷ 102 ∷ 50 ∷ 101 ∷ 99 ∷ 52 ∷ 57 ∷ 54 ∷ 56 ∷ 99 ∷ 99 ∷ 48 ∷ 99 ∷ 100 ∷ 53 ∷ 53 ∷ 102 ∷ 49
    ∷ 50 ∷ 97 ∷ 102 ∷ 52 ∷ 54 ∷ 54 ∷ 48 ∷ 99 ∷ []

abbrev pub third_fixture : List ℕ
third_fixture =
    102 ∷ 99 ∷ 53 ∷ 49 ∷ 99 ∷ 100 ∷ 56 ∷ 101 ∷ 54 ∷ 50 ∷ 49 ∷ 56 ∷ 97 ∷ 49 ∷ 97 ∷ 51 ∷ 56 ∷ 100 ∷ 97
    ∷ 52 ∷ 55 ∷ 101 ∷ 100 ∷ 48 ∷ 48 ∷ 50 ∷ 51 ∷ 48 ∷ 102 ∷ 48 ∷ 53 ∷ 56 ∷ 48 ∷ 56 ∷ 49 ∷ 54 ∷ 101
    ∷ 100 ∷ 49 ∷ 51 ∷ 98 ∷ 97 ∷ 51 ∷ 51 ∷ 48 ∷ 51 ∷ 97 ∷ 99 ∷ 53 ∷ 100 ∷ 101 ∷ 98 ∷ 57 ∷ 49 ∷ 49
    ∷ 53 ∷ 52 ∷ 56 ∷ 57 ∷ 48 ∷ 56 ∷ 48 ∷ 50 ∷ 53 ∷ []

-- The loop on the bytes of a key: whether a fixture spells them.
unfoldable pub spells : List ℕ → List ℕ → ℕ → Bool
spells fixture key zero = true
spells fixture key (suc i) =
    spells fixture key i
    && (get_or fixture (2 * i) 0 == get_or hex (get_or key i 0 / 16) 0)
    && (get_or fixture (2 * i + 1) 0 == get_or hex (get_or key i 0 % 16) 0)

-- The loop on the fixtures: whether one of them spells the key.
unfoldable pub is_fixture : List ℕ → Bool
is_fixture key =
    spells first_fixture key 32 || spells second_fixture key 32 || spells third_fixture key 32

-- `identity_valid`
unfoldable pub identity_valid : Identity → ℕ → Bool
identity_valid identity mode =
    if not (nonzero identity.realm) || not (nonzero identity.public_key)
    then false
    else if mode == fixture_mode
    then is_fixture identity.public_key
    else (mode == operator_mode) && not (is_fixture identity.public_key)

-- The bytes of a public identity, past the test of `tcs_public_encode`.
unfoldable pub write_public : Identity → ℕ → List ℕ
write_public identity mode =
    let head = set (copy (replicate 80 0) 0 public_prefix 16) 15 (mode % 256) in
    copy (copy head 16 identity.realm 32) 48 identity.public_key 32

-- `tcs_public_encode`: the bytes and whether they are encoded.
unfoldable pub public_encode : Identity → ℕ → List ℕ × Bool
public_encode identity mode =
    if not (identity_valid identity mode)
    then (replicate 80 0, false)
    else (write_public identity mode, true)

-- A field of 32 bytes, as `copy` fills it.
unfoldable pub field : List ℕ → List ℕ
field bytes = copy (replicate 32 0) 0 bytes 32

abbrev pub no_identity : Identity
no_identity = record { realm = replicate 32 0; public_key = replicate 32 0 }

-- `tcs_public_decode`: the identity and whether it is decoded.
unfoldable pub public_decode : Option (List ℕ) → ℕ → ℕ → Identity × Bool
public_decode none length mode = (no_identity, false)
public_decode (some bytes) length mode =
    let identity : Identity = record {
      realm = field (drop 16 bytes);
      public_key = field (drop 48 bytes);
    } in
    if (length != 80) || not (header bytes public_prefix mode)
    then (no_identity, false)
    else if not (identity_valid identity mode)
    then (no_identity, false)
    else (identity, true)

-- The bytes of a launch, past the tests of `tcs_launch_encode`.
unfoldable pub write_launch : Launch → ℕ → List ℕ
write_launch launch mode =
    let head = set (copy (replicate 112 0) 0 launch_prefix 16) 15 (mode % 256) in
    let named = copy (copy head 16 launch.identity.realm 32) 48 launch.boot 32 in
    copy named 80 launch.identity.public_key 32

-- `tcs_launch_encode`: the bytes and whether they are encoded.
unfoldable pub launch_encode : Launch → ℕ → List ℕ × Bool
launch_encode launch mode =
    if not (identity_valid launch.identity mode) || not (nonzero launch.boot)
    then (replicate 112 0, false)
    else (write_launch launch mode, true)

abbrev pub no_launch : Launch
no_launch = record { identity = no_identity; boot = replicate 32 0 }

-- `tcs_launch_decode`: the launch and whether it is decoded.
unfoldable pub launch_decode : Option (List ℕ) → ℕ → ℕ → Launch × Bool
launch_decode none length mode = (no_launch, false)
launch_decode (some bytes) length mode =
    let launch : Launch = record {
      identity = record { realm = field (drop 16 bytes); public_key = field (drop 80 bytes) };
      boot = field (drop 48 bytes);
    } in
    if (length != 112) || not (header bytes launch_prefix mode)
    then (no_launch, false)
    else if not (identity_valid launch.identity mode) || not (nonzero launch.boot)
    then (no_launch, false)
    else (launch, true)
