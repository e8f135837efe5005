-- ===== src/Operator/Signing.antt =====
-- A request that tools/operator.c signs is one that the administrator admits.
use tcs.Prelude.{
  ℕ, ◌≡◌, ap, sym, subst, ◌∙◌, Bool, true, false, ◌==◌, Option, none, some, List, ◌++◌, length,
  codes, arith,
}
use tcs.Admin.{encode, admit, consume}
use tcs.Admin.Types.{Admin, Command, accepted, packet_bytes}
use tcs.Admin.Roundtrip.{InWords, encode-admit}
use tcs.Launch.{Identity, Launch}
use tcs.Operator.Text.{same_text}
use tcs.Operator.Host.{Step, ◌>>=◌, ◌>>◌, pass, check, holding, to_create, Host, Crypto, say}
use tcs.Operator.Steps.{then_some, next_some, check_then, holding-some}
use tcs.Operator.Files.{write_new}
use tcs.Operator.Writing.{IsFaithful, write_new-content}
use tcs.Operator.Identity.{identity_read, key_read, context_read}
use tcs.Operator.Requests.{Prepared, prepared, request_name, prepare, sign}

-- An administrator of the identity and the boot of a launch that waits for a command.
pub record IsAwaiting (a : Admin) (identity : Identity) (launch : Launch) (c : Command)
    : Type 0 where
  pub realm : a.realm ≡ identity.realm
  pub boot : a.boot ≡ launch.boot
  pub public_key : a.public_key ≡ launch.identity.public_key
  pub realm_size : length a.realm ≡ 32
  pub boot_size : length a.boot ≡ 32
  pub initialized : a.initialized ≡ true
  pub idle : a.pending_sequence ≡ 0
  pub more : a.exhausted ≡ false
  pub next : c.sequence ≡ a.next_sequence

module _ {O : Type 0} (host : Host O) (content : O → ℕ → List ℕ) (crypto : Crypto) (mode : ℕ) where
  -- The run of `sign` behind the approval.
  abbrev signing : ℕ → Command → Prepared → List ℕ → Step O (Unit {0})
  signing session_fd c p secret =
      let signature = crypto.sign secret p.packet 128 in
      check (crypto.verify signature p.launch.identity.public_key (p.packet ++ signature) 128 == 0)
      >> (write_new host session_fd (request_name c.sequence) (p.packet ++ signature)
          >> say host (
              codes "Signed "
              ++ request_name c.sequence
              ++ codes "; not submitted or executed. No automatic retry.\n"))

  -- The signature of the packet with a secret, where there is one.
  abbrev pub sign_with : Prepared → Option (List ℕ) → Option (List ℕ)
  sign_with p none = none
  sign_with p (some secret) = some (crypto.sign secret p.packet 128)

  -- The approval was that of the packet, and the signature, made with the key that was read, is valid;
  -- where the key has been read, the file of the request was created, and at the end it holds the packet
  -- and the signature.
  abbrev pub IsSigned : ℕ → ℕ → Command → Prepared → List ℕ → O → List ℕ → O → Type 0
  IsSigned identity_fd session_fd c p approval o signature last =
      let (read, secret) = key_read host crypto mode identity_fd p.launch.identity o in
      (same_text approval p.approval ≡ true)
      × (sign_with p secret ≡ some signature)
      × (crypto.verify signature p.launch.identity.public_key (p.packet ++ signature) 128 ≡ 0)
      × ((fd : ℕ) × ((host.open_at to_create session_fd (request_name c.sequence) read).1 ≡ some fd)
          × (content last fd ≡ p.packet ++ signature))

  sign_some :
      (w : IsFaithful host content) (identity_fd session_fd : ℕ) (c : Command) (p : Prepared)
      (approval : List ℕ) (o : O)
      → (sign host crypto mode identity_fd session_fd c p approval o).1 ≡ some tt
      → (signature : List ℕ) × IsSigned identity_fd session_fd c p approval o signature
          (sign host crypto mode identity_fd session_fd c p approval o).0
  unfolding sign say
  sign_some w identity_fd session_fd c p approval o h =
      let ask = key_read host crypto mode identity_fd p.launch.identity in
      let value = λ (r : O × Option (Unit {0})). r.1 in
      let (approved, s1) =
        check_then (same_text approval p.approval) (ask >>= signing session_fd c p) o tt h in
      let h1 = sym (ap value s1) ∙ h in
      let (secret, known, s2) = then_some ask (signing session_fd c p) o tt h1 in
      let h2 = sym (ap value s2) ∙ h1 in
      let o1 = (ask o).0 in
      let signature = crypto.sign secret p.packet 128 in
      let name = request_name c.sequence in
      let bytes = p.packet ++ signature in
      let text =
        codes "Signed " ++ name ++ codes "; not submitted or executed. No automatic retry.\n" in
      let (valid, s3) =
        check_then (crypto.verify signature p.launch.identity.public_key bytes 128 == 0)
          (write_new host session_fd name bytes >> say host text) o1 tt h2 in
      let h3 = sym (ap value s3) ∙ h2 in
      let (_, made, s4) =
        next_some (write_new host session_fd name bytes) (say host text) o1 tt h3 in
      let (fd, opened, whole) = write_new-content host content w session_fd name bytes o1 made in
      (
        signature,
        (
          approved,
          ap (sign_with p) known,
          ground (arith, valid),
          (
            fd,
            opened,
            ap (λ (r : O × Option (Unit {0})). content r.0 fd) (s1 ∙ s2 ∙ s3 ∙ s4)
                ∙ w.printed fd text (write_new host session_fd name bytes o1).0
                ∙ whole,
          ),
        ),
      )

  -- What `prepare` signs is the message of the command for the identity that it reads.
  prepare-some :
      (identity_fd session_fd : ℕ) (c : Command) (p : Prepared) (identity : Identity) (o : O)
      → (prepare host crypto mode identity_fd session_fd c o).1 ≡ some p
      → (identity_read host crypto mode identity_fd o).1 ≡ some identity
      → encode identity.realm p.launch.boot c ≡ (p.packet, true)
  unfolding prepare pass
  prepare-some identity_fd session_fd c p identity o h known =
      let value = λ (r : O × Option Prepared). r.1 in
      let result = λ (i : Identity) (context : List ℕ × Launch) (packet : List ℕ).
        pass (prepared crypto mode context.1 packet) in
      let seal = λ (i : Identity) (context : List ℕ × Launch).
        holding (encode i.realm context.1.boot c) >>= result i context in
      let look = λ (i : Identity). context_read host crypto mode i session_fd >>= seal i in
      let (i, e1, s1) = then_some (identity_read host crypto mode identity_fd) look o p h in
      let h1 = sym (ap value s1) ∙ h in
      let o1 = (identity_read host crypto mode identity_fd o).0 in
      let (context, e2, s2) =
        then_some (context_read host crypto mode i session_fd) (seal i) o1 p h1 in
      let h2 = sym (ap value s2) ∙ h1 in
      let o2 = (context_read host crypto mode i session_fd o1).0 in
      let (packet, e3, s3) =
        then_some (holding (encode i.realm context.1.boot c)) (result i context) o2 p h2 in
      let made : some (prepared crypto mode context.1 packet) ≡ some p = sym (ap value s3) ∙ h2 in
      let same : identity ≡ i = ground (arith, known, e1) in
      let this : prepared crypto mode context.1 packet ≡ p = ground (arith, made) in
      let encoded = holding-some (encode i.realm context.1.boot c) o2 packet e3 in
      subst (λ (q : Prepared). encode identity.realm q.launch.boot c ≡ (q.packet, true)) this
        (rw same encoded)

  -- On a host that writes what it is given, where `sign` succeeds on what `prepare` has made for a
  -- command, the approval was that of the packet; the request file of the sequence number, which was not
  -- there when the key had been read, holds the message and its signature with that key; and an
  -- administrator of that identity and launch who waits for the command admits these bytes and is handed
  -- the command.
  pub sign-admit :
      (identity_fd session_fd : ℕ) (c : Command) (p : Prepared) (identity : Identity)
      (approval : List ℕ) (a : Admin) (before o : O)
      → IsFaithful host content
      → (prepare host crypto mode identity_fd session_fd c before).1 ≡ some p
      → (identity_read host crypto mode identity_fd before).1 ≡ some identity
      → InWords c
      → IsAwaiting a identity p.launch c
      → (sign host crypto mode identity_fd session_fd c p approval o).1 ≡ some tt
      → (signature : List ℕ) × IsSigned identity_fd session_fd c p approval o signature
          (sign host crypto mode identity_fd session_fd c p approval o).0
        × (admit crypto.verify a (some (p.packet ++ signature)) packet_bytes
            ≡ (consume a c.sequence, accepted, c))
  sign-admit identity_fd session_fd c p identity approval a before o f h known words w done =
      let (signature, signed) = sign_some f identity_fd session_fd c p approval o done in
      let encoded = prepare-some identity_fd session_fd c p identity before h known in
      let whole : encode a.realm a.boot c ≡ (p.packet, true) = rw (w.realm, w.boot) encoded in
      let message : (encode a.realm a.boot c).0 ≡ p.packet =
        ap (λ (r : List ℕ × Bool). r.0) whole in
      let valid : crypto.verify signature a.public_key ((encode a.realm a.boot c).0 ++ signature)
            128
          ≡ 0 =
        rw (message, w.public_key) signed.2 in
      (
        signature,
        signed,
        ap (λ (m : List ℕ). admit crypto.verify a (some (m ++ signature)) packet_bytes)
              (sym message)
            ∙ encode-admit crypto.verify a c signature w.realm_size w.boot_size words w.initialized
                w.idle w.more w.next (ap (λ (r : List ℕ × Bool). r.1) whole) valid,
      )
