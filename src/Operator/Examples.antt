-- ===== src/Operator/Examples.antt =====
-- The host tool at concrete inputs, on a small host.
use tcs.Prelude.{
  ℕ, zero, suc, ◌+◌, ◌≤◌, ◌<◌, ◌≡◌, ◌↔◌, inl, refl, ap, sym, Bool, true, ◌&&◌, ◌||◌, if◌then◌else◌,
  Option, none, some, List, [], ◌∷◌, ◌++◌, length, take, replicate, codes, take-length, arith,
}
use tcs.Terminal.Parser.{decimal}
use tcs.Operator.Text.{same_text, number, number_from}
use tcs.Operator.Host.{
  after, ◌>>=◌, ◌>>◌, check, pass, Access, to_directory, to_read, to_create, Host, Crypto, Transfer,
  interrupted, transferred, patient, shut,
}
use tcs.Operator.Files.{
  write_new, moved, write_more, read_more, read_end, write_into, no_acl, settle,
}
use tcs.Operator.Main.{launch, review, task, main}
use tcs.Operator.Requests.{Arguments}
use tcs.Operator.Keeping.{IsKept}
use tcs.Operator.Consumed.{IsConsumed, main-launch, main-review}
use tcs.Operator.Writing.{IsFaithful, write_new-content}
use tcs.Operator.Loops.{IsPatient, loops_end}
use tcs.Operator.Numbers.{number_iff}

-- Whether launch.used is there, the bytes of the file that was created last, how many programs have
-- been started, and how many interruptions are still to come.
record Disk : Type 0 where
  used : Bool
  text : List ℕ
  started : ℕ
  signals : ℕ

abbrev opened : Access → List ℕ → Disk → Disk × Option ℕ
opened to_directory name d = (d, some 4)
opened to_read name d = (d, none)
opened to_create name d =
    if d.used && same_text name (codes "launch.used")
    then (d, none)
    else (record d { used = d.used || same_text name (codes "launch.used"); text = [] }, some 5)

-- A write that is interrupted, or takes all.
abbrev writing : ℕ → List ℕ → Disk → Disk × Option (Transfer ℕ)
writing zero bytes d = (record d { text = d.text ++ bytes }, some (transferred (length bytes)))
writing (suc n) bytes d = (record d { signals = n }, some interrupted)

abbrev disk_host : Host Disk
disk_host = record {
  open_root = λ d. (d, some 3);
  open_at = λ access dir name d. opened access name d;
  open_image = λ path d. (d, some 6);
  mkdir_at = λ fd name d. (d, some tt);
  fstat = λ fd d. (
    d,
    some (record {
      is_directory = true;
      is_regular = true;
      owner = 0;
      links = 1;
      permissions = 448;
      size = 8;
    }),
  );
  stat_at = λ fd name d. (d, some 2);
  attribute = λ fd name d. (d, some 61);
  read = λ fd n d. (d, some (transferred []));
  write = λ fd bytes d. writing d.signals bytes d;
  signals = λ d. d.signals;
  rewind = λ fd d. (d, some tt);
  fsync = λ fd d. (d, some tt);
  close = λ fd d. (d, 0);
  change_directory = λ fd d. (d, some tt);
  entropy = λ n d. (d, some (replicate n 7));
  allocate = λ n d. (d, some tt);
  descriptors = λ d. (d, some (4, []));
  end_descriptors = λ fd d. (d, some tt);
  execute = λ path arguments d. (record d { started = d.started + 1 }, none);
  print = λ text d. d;
  complain = λ text d. d;
  flush_output = λ d. (d, some tt);
  enter = λ d. (d, some tt);
  user = 0;
}

abbrev no_crypto : Crypto
no_crypto = record {
  key_pair = λ seed. (seed, seed);
  sign = λ secret message n. replicate 64 0;
  verify = λ signature key message n. 0;
  digest = λ message. replicate 32 0;
}

-- The session is consumed, and no program has been started.
abbrev IsIdle : Disk → Type 0
IsIdle d = (d.used ≡ true) × (d.started ≡ 0)

disk_host-IsKept : IsKept IsIdle disk_host
disk_host-IsKept = record {
  open_root_kept = record { kept = λ d p. p };
  directory_kept = λ fd name. record { kept = λ d p. p };
  reading_kept = λ fd name. record { kept = λ d p. p };
  image_kept = λ path. record { kept = λ d p. p };
  fstat_kept = λ fd. record { kept = λ d p. p };
  stat_at_kept = λ fd name. record { kept = λ d p. p };
  attribute_kept = λ fd name. record { kept = λ d p. p };
  read_kept = λ fd n. record { kept = λ d p. p };
  rewind_kept = λ fd. record { kept = λ d p. p };
  close_kept = λ fd d p. p;
  print_kept = λ text d p. p;
  complain_kept = λ text d p. p;
  flush_kept = record { kept = λ d p. p };
  enter_kept = record { kept = λ d p. p };
}

disk_host-IsConsumed : IsConsumed IsIdle disk_host
unfolding same_text
disk_host-IsConsumed = record { taken = λ dir d p. rw p.0 ((refl, p.1), refl) }

abbrev spent : Disk
spent = record { used = true; text = []; started = 0; signals = 1 }

abbrev launch_argv : List (List ℕ)
launch_argv =
    codes "tcs-operator"
    ∷ codes "launch"
    ∷ codes "/identity"
    ∷ codes "/session"
    ∷ codes "/image"
    ∷ codes "/qemu"
    ∷ codes "--acknowledge-experimental"
    ∷ []

launches :
    task launch_argv
    ≡ some (launch (codes "/identity") (codes "/session") (codes "/image") (codes "/qemu"))
unfolding task same_text
launches = refl

main-launch_example : IsIdle (main disk_host no_crypto 0 launch_argv spent).0
main-launch_example =
    main-launch IsIdle disk_host no_crypto 0 disk_host-IsKept launch_argv (codes "/identity")
      (codes "/session") (codes "/image") (codes "/qemu") spent launches disk_host-IsConsumed
      (refl, refl)

abbrev review_argv : List (List ℕ)
review_argv =
    codes "tcs-operator"
    ∷ codes "review"
    ∷ codes "/identity"
    ∷ codes "/session"
    ∷ codes "grant"
    ∷ codes "1"
    ∷ codes "1"
    ∷ codes "0"
    ∷ []

abbrev review_arguments : Arguments
review_arguments = record {
  op = codes "grant";
  subject = codes "1";
  sequence = codes "1";
  generation = codes "0";
}

reviews : task review_argv ≡ some (review (codes "/identity") (codes "/session") review_arguments)
unfolding task same_text
reviews = refl

main-review_example : IsIdle (main disk_host no_crypto 0 review_argv spent).0
main-review_example =
    main-review IsIdle disk_host no_crypto 0 disk_host-IsKept review_argv (codes "/identity")
      (codes "/session") review_arguments spent (inl reviews) (refl, refl)

writing-wrote :
    (m n : ℕ) (bytes : List ℕ) (d : Disk)
    → (writing m bytes d).1 ≡ some (transferred n)
    → (n ≤ length bytes) × ((writing m bytes d).0.text ≡ d.text ++ take n bytes)
writing-wrote zero n bytes d h =
    let all : n ≡ length bytes = ground (arith, h) in
    rw all (omega arith, ap (λ (t : List ℕ). d.text ++ t) (sym (take-length bytes)))
writing-wrote (suc m) n bytes d h = absurd (ground (arith, h))

writing-broke :
    (m : ℕ) (bytes : List ℕ) (d : Disk)
    → (writing m bytes d).1 ≡ some interrupted
    → ((writing m bytes d).0.text ≡ d.text) × ((writing m bytes d).0.signals < m)
writing-broke zero bytes d h = absurd (ground (arith, h))
writing-broke (suc m) bytes d h = (refl, omega arith)

writing-after :
    (m : ℕ) (bytes : List ℕ) (d : Disk) → m ≡ d.signals → (writing m bytes d).0.signals ≤ d.signals
writing-after zero bytes d h = omega arith
writing-after (suc m) bytes d h = omega (arith, h)

disk_host-IsFaithful : IsFaithful disk_host (λ d fd. d.text)
disk_host-IsFaithful = record {
  created = λ dir fd name d h. ground (arith, h);
  wrote = λ fd n bytes d h. writing-wrote d.signals n bytes d h;
  broke = λ fd bytes d h. (writing-broke d.signals bytes d h).0;
  looked = λ fd name d. refl;
  synced = λ fd e d. refl;
  closed = λ fd d. refl;
  printed = λ fd text d. refl;
}

disk_host-IsPatient : IsPatient disk_host
disk_host-IsPatient = record {
  read_after = λ fd n d. omega arith;
  read_broken = λ fd n d h. absurd (ground (arith, h));
  write_after = λ fd bytes d. writing-after d.signals bytes d refl;
  write_broken = λ fd bytes d h. (writing-broke d.signals bytes d h).1;
}

writes : (write_new disk_host 3 (codes "a") (codes "bc") spent).1 ≡ some tt
unfolding write_new write_into patient moved shut write_more no_acl settle ◌>>=◌ ◌>>◌ after check
    pass same_text
writes = refl

write_new-content_example :
    (fd : ℕ) × ((disk_host.open_at to_create 3 (codes "a") spent).1 ≡ some fd)
    × ((write_new disk_host 3 (codes "a") (codes "bc") spent).0.text ≡ codes "bc")
write_new-content_example =
    write_new-content disk_host (λ d fd. d.text) disk_host-IsFaithful 3 (codes "a") (codes "bc")
      spent writes

loops_end_example :
    (patient disk_host (λ m. write_more disk_host 5 m (codes "bc")) 2 spent
      ≡ write_more disk_host 5 9 (codes "bc") spent)
    × (patient disk_host (λ m. read_more disk_host 5 m 2 []) 2 spent
        ≡ read_more disk_host 5 9 2 [] spent)
    × (patient disk_host (read_end disk_host 5) 1 spent ≡ read_end disk_host 5 8 spent)
loops_end_example = loops_end disk_host disk_host-IsPatient 5 6 (codes "bc") [] spent

number_iff_example :
    (number (codes "18446744073709551615") ≡ some 18446744073709551615)
    ↔ (codes "18446744073709551615" ≡ decimal 18446744073709551615)
number_iff_example = number_iff 18446744073709551615 (codes "18446744073709551615") (omega arith)

leading_zero : number (codes "07") ≡ none
unfolding number
leading_zero = refl

too_large : number (codes "18446744073709551616") ≡ none
unfolding number number_from
too_large = refl
