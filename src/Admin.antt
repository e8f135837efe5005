-- ===== src/Admin.antt =====
-- lib/admin.c and include/tcs/admin.h: admission of signed administration packets. A function that
-- updates `*a` returns the new state; `a`, `command` and the arrays of a fixed size are not null.
pub mod Types
pub mod Admission
pub mod Replay
pub mod Encoding
pub mod Roundtrip
pub mod Ipc
pub mod Words
pub mod PolicyServer
pub mod Server
pub mod Completion
pub mod Executing
pub mod Receipt
pub mod Execution
mod Examples
use tcs.Prelude.{
  ◌+◌, set, copy, byte_of, replicate, ℕ, zero, suc, ◌*◌, ◌^◌, Bool, true, false, not, ◌&&◌, ◌||◌,
  leb, ◌==◌, ◌!=◌, if◌then◌else◌, List, [], ◌∷◌, get_or, take, drop, Option, none, some, u64_max,
  inc64, bit_or,
}
use tcs.Policy.Op
use tcs.Policy.Types.{Request, subject_count, the_object, read_right}
use Types.{
  AdminStatus, accepted, not_ready, bad_packet, bad_context, bad_signature, replay, busy, exhausted,
  bad_completion, Command, Admin, packet_bytes,
}

-- `domain`
abbrev pub domain : List ℕ
domain =
    b'T' ∷ b'C' ∷ b'S' ∷ b'-' ∷ b'A' ∷ b'D' ∷ b'M' ∷ b'I' ∷ b'N' ∷ b'-' ∷ 1 ∷ 0 ∷ 0 ∷ 0 ∷ 0 ∷ 0 ∷ []

-- `equal`, over the bytes below the length.
unfoldable pub equal : List ℕ → List ℕ → ℕ → Bool
equal a b zero = true
equal a b (suc i) = (get_or a i 0 == get_or b i 0) && equal a b i

-- The loop of `nonzero`: the union of the bytes below the length.
unfoldable pub any_bits : List ℕ → ℕ → ℕ
any_bits bytes zero = 0
any_bits bytes (suc i) = bit_or (any_bits bytes i) (get_or bytes i 0)

-- `nonzero`
unfoldable pub nonzero : List ℕ → Bool
unfolding any_bits
nonzero bytes = any_bits bytes 32 != 0

-- The loop of `load64`: the value of the bytes below the length, the lowest first.
unfoldable pub load_below : List ℕ → ℕ → ℕ
load_below p zero = 0
load_below p (suc i) = bit_or (load_below p i) (get_or p i 0 * 2 ^ (8 * i))

-- `load64`
unfoldable pub load64 : List ℕ → ℕ
load64 p = load_below p 8

-- The loop of `store64`, at an offset of the message.
unfoldable pub store_below : List ℕ → ℕ → ℕ → ℕ → List ℕ
store_below message at value zero = message
store_below message at value (suc i) =
    set (store_below message at value i) (at + i) (byte_of value i)

-- `store64`
unfoldable pub store64 : List ℕ → ℕ → ℕ → List ℕ
unfolding store_below
store64 message at value = store_below message at value 8

-- `valid`
unfoldable pub valid : Command → Bool
valid c =
    let r = c.request in
    if (c.sequence == 0) || leb subject_count r.subject || (r.generation != 0)
    then false
    else if r.op == Op.grant
    then (r.object == the_object) && (r.rights == read_right)
    else ((r.op == Op.revoke) || (r.op == Op.quarantine) || (r.op == Op.restore))
      && (r.object == 0)
      && (r.rights == 0)

abbrev pub no_command : Command
no_command = record {
  sequence = 0;
  expected_generation = 0;
  request = record { op = 0; subject = 0; object = 0; rights = 0; generation = 0 };
}

-- `tcs_admin_init`
unfoldable pub init : Admin → List ℕ → List ℕ → List ℕ → Admin × Bool
init a key realm boot =
    if a.initialized || not (nonzero key) || not (nonzero realm) || not (nonzero boot)
    then (a, false)
    else (
      record {
        public_key = take 32 key;
        realm = take 32 realm;
        boot = take 32 boot;
        next_sequence = 1;
        pending_sequence = 0;
        initialized = true;
        exhausted = false;
      },
      true,
    )

-- The fields of the message, past the tests of `tcs_admin_encode`.
unfoldable pub write_message : List ℕ → List ℕ → List ℕ → Command → List ℕ
write_message message realm boot c =
    let head = copy (copy (copy message 0 domain 16) 16 realm 32) 48 boot 32 in
    let ordered = store64 (store64 head 80 c.sequence) 88 c.request.op in
    let named = store64 (store64 ordered 96 c.request.subject) 104 c.request.object in
    store64 (store64 named 112 c.request.rights) 120 c.expected_generation

-- `tcs_admin_encode`: the message and whether it was encoded.
unfoldable pub encode : List ℕ → List ℕ → Command → List ℕ × Bool
encode realm boot c =
    let blank = replicate 128 0 in
    if not (nonzero realm) || not (nonzero boot) || not (valid c)
    then (blank, false)
    else (write_message blank realm boot c, true)

-- The command that a packet carries.
unfoldable pub packet_command : List ℕ → Command
packet_command packet = record {
  sequence = load64 (drop 80 packet);
  expected_generation = load64 (drop 120 packet);
  request = record {
    op = load64 (drop 88 packet);
    subject = load64 (drop 96 packet);
    object = load64 (drop 104 packet);
    rights = load64 (drop 112 packet);
    generation = 0;
  };
}

-- The state after a packet is admitted.
abbrev pub consume : Admin → ℕ → Admin
consume a sequence =
    if sequence == u64_max
    then record a { pending_sequence = sequence; exhausted = true }
    else record a { pending_sequence = sequence; next_sequence = inc64 a.next_sequence }

-- `crypto_ed25519_check` of third_party/monocypher: signature, public key, message and its length;
-- zero for a signature that is valid.
module _ (crypto_ed25519_check : List ℕ → List ℕ → List ℕ → ℕ → ℕ) where
  -- `tcs_admin_admit` past the tests on the state and the null pointer.
  unfoldable pub admit_packet : Admin → List ℕ → ℕ → Admin × AdminStatus × Command
  admit_packet a packet length =
      let c = packet_command packet in
      if (length != packet_bytes) || not (equal packet domain 16)
      then (a, bad_packet, no_command)
      else if not (valid c)
      then (a, bad_packet, no_command)
      else if not (equal (drop 16 packet) a.realm 32) || not (equal (drop 48 packet) a.boot 32)
      then (a, bad_context, no_command)
      else if c.sequence != a.next_sequence
      then (a, replay, no_command)
      else if crypto_ed25519_check (drop 128 packet) a.public_key packet 128 != 0
      then (a, bad_signature, no_command)
      else (consume a c.sequence, accepted, c)

  -- `tcs_admin_admit`: the new state, the status and `*command`; `none` is the null pointer.
  unfoldable pub admit : Admin → Option (List ℕ) → ℕ → Admin × AdminStatus × Command
  admit a packet length =
      if not a.initialized
      then (a, not_ready, no_command)
      else if a.pending_sequence != 0
      then (a, busy, no_command)
      else if a.exhausted
      then (a, exhausted, no_command)
      else elim packet [
        | none ↦ (a, bad_packet, no_command)
        | some bytes ↦ admit_packet a bytes length
      ]

-- `tcs_admin_complete`
unfoldable pub complete : Admin → ℕ → Admin × AdminStatus
complete a sequence =
    if not a.initialized
    then (a, not_ready)
    else if (sequence == 0) || (a.pending_sequence != sequence)
    then (a, bad_completion)
    else (record a { pending_sequence = 0 }, accepted)
