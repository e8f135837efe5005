-- ===== src/Operator/SigningExamples.antt =====
-- A signed request of the host tool at concrete inputs.
use tcs.Prelude.{
  ℕ, ◌≤◌, ◌≡◌, refl, ap, sym, Bool, true, false, ◌==◌, if◌then◌else◌, none, some, List, [], ◌++◌,
  length, take, take-length, replicate, codes, copy, arith,
}
use tcs.Policy.Op
use tcs.Policy.Types.{the_object, read_right}
use tcs.Admin
use tcs.Admin.{encode, admit, consume, valid, write_message}
use tcs.Admin.Types.{Admin, Command, accepted, packet_bytes}
use tcs.Admin.Roundtrip.{InWords}
use tcs.Launch.{
  Identity, Launch, public_encode, public_decode, launch_encode, launch_decode, header, same_below,
  identity_valid, is_fixture, spells, nonzero, any_bits, field, write_public, write_launch,
}
use tcs.Operator.Text.{same_text, hex_text}
use tcs.Operator.Host.{
  Access, to_directory, to_read, to_create, Host, Crypto, after, ◌>>=◌, ◌>>◌, check, pass, holding,
  transferred, say, shut, patient,
}
use tcs.Operator.Files.{
  no_acl, private_file, read_more, received, ended, read_end, moved, read_file_open, read_file,
  keeping, kept, write_new, write_more, write_into, settle,
}
use tcs.Operator.Identity.{key_record, identity_read, key_read, context_read}
use tcs.Operator.Requests.{Prepared, prepared, prepare, sign}
use tcs.Operator.Writing.{IsFaithful}
use tcs.Operator.Signing.{IsAwaiting, IsSigned, sign-admit}

abbrev owner : Identity
owner = record { realm = replicate 32 1; public_key = replicate 32 2 }

abbrev session : Launch
session = record { identity = owner; boot = replicate 32 3 }

-- The files, by their descriptors.
abbrev contents : ℕ → List ℕ
contents fd =
    if fd == 10
    then (public_encode owner 0).0
    else if fd == 11
    then (launch_encode session 0).0
    else key_record 0 owner (replicate 32 2)

abbrev descriptor : Access → List ℕ → ℕ
descriptor to_directory name = 4
descriptor to_create name = 20
descriptor to_read name =
    if same_text name (codes "identity.pub")
    then 10
    else if same_text name (codes "launch.context")
    then 11
    else 12

-- Whether the open file has been read, and the bytes of the file that was created last.
record Vault : Type 0 where
  is_read : Bool
  text : List ℕ

abbrev closed_vault : Vault
closed_vault = record { is_read = false; text = [] }

abbrev opened : Access → Vault → Vault
opened to_directory s = record s { is_read = false }
opened to_read s = record s { is_read = false }
opened to_create s = record s { is_read = false; text = [] }

abbrev vault : Host Vault
vault = record {
  open_root = λ s. (s, some 3);
  open_at = λ access dir name s. (opened access s, some (descriptor access name));
  open_image = λ path s. (s, none);
  mkdir_at = λ fd name s. (s, some tt);
  fstat = λ fd s. (
    s,
    some (record {
      is_directory = false;
      is_regular = true;
      owner = 0;
      links = 1;
      permissions = 384;
      size = length (contents fd);
    }),
  );
  stat_at = λ fd name s. (s, some 2);
  attribute = λ fd name s. (s, some 61);
  read = λ fd n s.
      (record s { is_read = true }, some (transferred (if s.is_read then [] else contents fd)));
  write = λ fd bytes s. (record s { text = s.text ++ bytes }, some (transferred (length bytes)));
  signals = λ s. 0;
  rewind = λ fd s. (s, some tt);
  fsync = λ fd s. (s, some tt);
  close = λ fd s. (s, 0);
  change_directory = λ fd s. (s, some tt);
  entropy = λ n s. (s, some (replicate n 7));
  allocate = λ n s. (s, some tt);
  descriptors = λ s. (s, some (4, []));
  end_descriptors = λ fd s. (s, some tt);
  execute = λ path arguments s. (s, none);
  print = λ text s. s;
  complain = λ text s. s;
  flush_output = λ s. (s, some tt);
  enter = λ s. (s, some tt);
  user = 0;
}

abbrev seals : Crypto
seals = record {
  key_pair = λ seed. (seed, seed);
  sign = λ secret message n. replicate 64 9;
  verify = λ signature key message n. 0;
  digest = λ message. replicate 32 8;
}

abbrev granted : Command
granted = record {
  sequence = 1;
  expected_generation = 0;
  request = record {
    op = Op.grant;
    subject = 1;
    object = the_object;
    rights = read_right;
    generation = 0;
  };
}

abbrev made : Prepared
made = prepared seals 0 session (encode owner.realm session.boot granted).0

identity_is_read : (identity_read vault seals 0 4 closed_vault).1 ≡ some owner
unfolding identity_read read_file read_file_open read_more received ended read_end patient shut
    private_file no_acl keeping kept after ◌>>=◌ ◌>>◌ check pass holding same_text public_encode
    public_decode write_public header same_below identity_valid is_fixture spells nonzero any_bits
    field copy
identity_is_read = refl

is_prepared : (prepare vault seals 0 4 4 granted closed_vault).1 ≡ some made
unfolding prepare identity_read context_read read_file read_file_open read_more received ended
    read_end patient shut private_file no_acl keeping kept after ◌>>=◌ ◌>>◌ check pass holding
    same_text public_encode public_decode write_public launch_encode launch_decode write_launch
    header same_below identity_valid is_fixture spells nonzero any_bits field copy encode valid
    write_message Admin.nonzero
is_prepared = refl

signs : (sign vault seals 0 4 4 granted made made.approval closed_vault).1 ≡ some tt
unfolding sign say moved key_read read_file read_file_open read_more received ended read_end patient
    shut private_file no_acl keeping kept after ◌>>=◌ ◌>>◌ check pass same_text same_below write_new
    write_into write_more settle hex_text encode valid write_message copy Admin.nonzero
    Admin.any_bits Admin.store64 public_encode launch_encode identity_valid
signs = refl

abbrev waiting : Admin
waiting = record {
  public_key = owner.public_key;
  realm = owner.realm;
  boot = session.boot;
  next_sequence = 1;
  pending_sequence = 0;
  initialized = true;
  exhausted = false;
}

granted-InWords : InWords granted
granted-InWords = record {
  sequence = omega arith;
  expected = omega arith;
  op = omega arith;
  subject = omega arith;
  object = omega arith;
  rights = omega arith;
}

waiting-IsAwaiting : IsAwaiting waiting owner session granted
waiting-IsAwaiting = record {
  realm = refl;
  boot = refl;
  public_key = refl;
  realm_size = refl;
  boot_size = refl;
  initialized = refl;
  idle = refl;
  more = refl;
  next = refl;
}

vault_wrote :
    (n : ℕ) (bytes : List ℕ) (s : Vault)
    → some (transferred (length bytes)) ≡ some (transferred n)
    → (n ≤ length bytes) × (s.text ++ bytes ≡ s.text ++ take n bytes)
vault_wrote n bytes s h =
    let all : n ≡ length bytes = ground (arith, h) in
    rw all (omega arith, ap (λ (t : List ℕ). s.text ++ t) (sym (take-length bytes)))

vault-IsFaithful : IsFaithful vault (λ s fd. s.text)
vault-IsFaithful = record {
  created = λ dir fd name s h. refl;
  wrote = λ fd n bytes s h. vault_wrote n bytes s h;
  broke = λ fd bytes s h. absurd (ground (arith, h));
  looked = λ fd name s. refl;
  synced = λ fd e s. refl;
  closed = λ fd s. refl;
  printed = λ fd text s. refl;
}

sign-admit_example :
    (signature : List ℕ) × IsSigned vault
      (λ s fd. s.text)
      seals
      0
      4
      4
      granted
      made
      made.approval
      closed_vault
      signature
      (sign vault seals 0 4 4 granted made made.approval closed_vault).0
    × (admit seals.verify waiting (some (made.packet ++ signature)) packet_bytes
        ≡ (consume waiting 1, accepted, granted))
sign-admit_example =
    sign-admit vault (λ s fd. s.text) seals 0 4 4 granted made owner made.approval waiting
      closed_vault closed_vault vault-IsFaithful is_prepared identity_is_read granted-InWords
      waiting-IsAwaiting signs
