-- ===== src/Admin/Admission.antt =====
-- `tcs_admin_admit` of lib/admin.c: which packets are admitted, and what admission leaves.
use tcs.Prelude.{
  ℕ, zero, suc, ◌<◌, ◌≡◌, ◌≢◌, ◌⊎◌, ◌↔◌, refl, true, false, List, get_or, drop, Option, none, some,
  arith,
}
use tcs.Admin.{domain, equal, valid, no_command, packet_command, consume, admit_packet, admit}
use tcs.Admin.Types.{accepted, bad_completion, Admin, packet_bytes}

-- The bytes below `n` are the same.
abbrev pub IsSame : List ℕ → List ℕ → ℕ → Type 0
IsSame a b n = (i : ℕ) → i < n → get_or a i 0 ≡ get_or b i 0

equal-IsSame : (a b : List ℕ) (n : ℕ) → equal a b n ≡ true → IsSame a b n
unfolding equal
equal-IsSame a b zero h i l = absurd (omega arith)
equal-IsSame a b (suc n) h i l =
    ground (arith, λ (e : equal a b n ≡ true) (k : i < n). equal-IsSame a b n e i k)

IsSame-equal : (a b : List ℕ) (n : ℕ) → IsSame a b n → equal a b n ≡ true
unfolding equal
IsSame-equal a b zero s = refl
IsSame-equal a b (suc n) s =
    ground (arith, s n (omega arith), IsSame-equal a b n (λ i l. s i (omega arith)))

module _ (crypto_ed25519_check : List ℕ → List ℕ → List ℕ → ℕ → ℕ) where
  -- A packet that the administrator may take: it is ready and waits for nothing, and the packet has
  -- the size, the domain, the realm and the boot identity, carries an executable command, has the
  -- next sequence number, and is signed with the key.
  pub record IsAdmissible (a : Admin) (packet : List ℕ) (length : ℕ) : Type 0 where
    pub ready : a.initialized ≡ true
    pub idle : a.pending_sequence ≡ 0
    pub not_exhausted : a.exhausted ≡ false
    pub size : length ≡ packet_bytes
    pub in_domain : IsSame packet domain 16
    pub in_realm : IsSame (drop 16 packet) a.realm 32
    pub in_boot : IsSame (drop 48 packet) a.boot 32
    pub executable : valid (packet_command packet) ≡ true
    pub in_order : (packet_command packet).sequence ≡ a.next_sequence
    pub signed : crypto_ed25519_check (drop 128 packet) a.public_key packet 128 ≡ 0

  -- A packet is accepted exactly if it is admissible.
  pub admit-accepted_iff :
      (a : Admin) (packet : List ℕ) (length : ℕ)
      → ((admit crypto_ed25519_check a (some packet) length).1 ≡ accepted)
        ↔ IsAdmissible a packet length
  unfolding admit admit_packet
  admit-accepted_iff a packet length = (
    λ h. record {
      ready = ground arith;
      idle = ground arith;
      not_exhausted = ground arith;
      size = ground arith;
      in_domain = equal-IsSame packet domain 16 (ground arith);
      in_realm = equal-IsSame (drop 16 packet) a.realm 32 (ground arith);
      in_boot = equal-IsSame (drop 48 packet) a.boot 32 (ground arith);
      executable = ground arith;
      in_order = ground arith;
      signed = ground arith;
    },
    λ v.
        let d = IsSame-equal packet domain 16 v.in_domain in
        let r = IsSame-equal (drop 16 packet) a.realm 32 v.in_realm in
        let b = IsSame-equal (drop 48 packet) a.boot 32 v.in_boot in
        ground (
          arith, d, r, b, v.ready, v.idle, v.not_exhausted, v.size, v.executable, v.in_order,
          v.signed,
        ),
  )

  -- Whatever is not accepted leaves the administrator as it was and hands over no command, and what
  -- is accepted hands over the command of the packet, which has the next sequence number.
  pub admit_lem :
      (a : Admin) (packet : Option (List ℕ)) (length : ℕ)
      → let (next, status, command) = admit crypto_ed25519_check a packet length in
        ((status ≢ accepted) × (next ≡ a) × (command ≡ no_command))
        ⊎ ((status ≡ accepted)
            × (next ≡ consume a command.sequence)
            × (command.sequence ≡ a.next_sequence)
            × (a.exhausted ≡ false)
            × (a.pending_sequence ≡ 0)
            × (valid command ≡ true))
  unfolding admit admit_packet
  admit_lem a none length = ground arith
  admit_lem a (some packet) length = ground arith

  -- An accepted packet hands over the command that it carries.
  pub admit-packet_command :
      (a : Admin) (packet : List ℕ) (length : ℕ)
      → (admit crypto_ed25519_check a (some packet) length).1 ≡ accepted
      → let c = packet_command packet in
        admit crypto_ed25519_check a (some packet) length ≡ (consume a c.sequence, accepted, c)
  unfolding admit admit_packet
  admit-packet_command a packet length h = ground arith

  -- Admission never reports a completion.
  pub admit-bad_completion :
      (a : Admin) (packet : Option (List ℕ)) (length : ℕ)
      → (admit crypto_ed25519_check a packet length).1 ≢ bad_completion
  unfolding admit admit_packet
  admit-bad_completion a none length = ground arith
  admit-bad_completion a (some packet) length = ground arith
