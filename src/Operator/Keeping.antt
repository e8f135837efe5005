-- ===== src/Operator/Keeping.antt =====
-- What the code of tools/operator.c keeps of the state of the host where the calls that it makes do.
use tcs.Prelude.{ℕ, zero, suc, ◌+◌, Bool, true, false, Option, none, some, List, [], ◌∷◌}
use tcs.Operator.Host.{
  Step, after, ◌>>=◌, ◌>>◌, pass, refuse, check, given, holding, to_directory, to_read, Host,
  Crypto, Transfer, interrupted, transferred, say, shut, patient,
}
use tcs.Admin.Types.{Command}
use tcs.Launch.{Identity}
use tcs.Operator.Identity.{identity_read, context_read}
use tcs.Operator.Requests.{Arguments, prepare, conclude, review_or_sign}
use tcs.Operator.Main.{show_identity}
use tcs.Operator.Files.{
  closed, kept, closing, keeping, no_acl, private_dir, outside_repository, make_part, enter_part,
  walk, directory, received, ended, read_end, read_more, private_file, read_file_open, read_file,
}

module _ {O : Type 0} (P : O → Type 0) where
  -- A run after which the state still has `P`.
  pub record Keeps {A : Type 0} (m : Step O A) : Type 0 where
    pub kept : (o : O) → P o → P (m o).0

  after_keeps :
      {A B : Type 0} (f : A → Step O B)
      → ((a : A) → Keeps (f a))
      → (r : O × Option A) → P r.0
      → P (after f r).0
  unfolding after
  after_keeps f k (o, none) p = p
  after_keeps f k (o, some a) p = (k a).kept o p

  pub then-Keeps :
      {A B : Type 0} {m : Step O A} {f : A → Step O B}
      → Keeps m
      → ((a : A) → Keeps (f a))
      → Keeps (m >>= f)
  unfolding ◌>>=◌
  then-Keeps {m = m} {f = f} k l = record { kept = λ o p. after_keeps f l (m o) (k.kept o p) }

  pub next-Keeps : {A B : Type 0} {m : Step O A} {n : Step O B} → Keeps m → Keeps n → Keeps (m >> n)
  unfolding ◌>>◌
  next-Keeps k l = then-Keeps k (λ _. l)

  pub pass-Keeps : {A : Type 0} (a : A) → Keeps (pass a)
  unfolding pass
  pass-Keeps a = record { kept = λ o p. p }

  pub refuse-Keeps : {A : Type 0} → Keeps (refuse {A = A})
  unfolding refuse
  refuse-Keeps = record { kept = λ o p. p }

  pub check-Keeps : (b : Bool) → Keeps (check b)
  unfolding check
  check-Keeps true = record { kept = λ o p. p }
  check-Keeps false = record { kept = λ o p. p }

  pub given-Keeps : {A : Type 0} (r : Option A) → Keeps (given r)
  unfolding given
  given-Keeps none = record { kept = λ o p. p }
  given-Keeps (some a) = record { kept = λ o p. p }

  pub holding-Keeps : {A : Type 0} (r : A × Bool) → Keeps (holding r)
  unfolding holding
  holding-Keeps (a, true) = record { kept = λ o p. p }
  holding-Keeps (a, false) = record { kept = λ o p. p }

  -- The state still has `P` after each of the calls that open, look at, read and close files, print, and
  -- enter the tool.
  pub record IsKept (host : Host O) : Type 0 where
    pub open_root_kept : Keeps host.open_root
    pub directory_kept : (fd : ℕ) (name : List ℕ) → Keeps (host.open_at to_directory fd name)
    pub reading_kept : (fd : ℕ) (name : List ℕ) → Keeps (host.open_at to_read fd name)
    pub image_kept : (path : List ℕ) → Keeps (host.open_image path)
    pub fstat_kept : (fd : ℕ) → Keeps (host.fstat fd)
    pub stat_at_kept : (fd : ℕ) (name : List ℕ) → Keeps (host.stat_at fd name)
    pub attribute_kept : (fd : ℕ) (name : List ℕ) → Keeps (host.attribute fd name)
    pub read_kept : (fd n : ℕ) → Keeps (host.read fd n)
    pub rewind_kept : (fd : ℕ) → Keeps (host.rewind fd)
    pub close_kept : (fd : ℕ) (o : O) → P o → P (host.close fd o).0
    pub print_kept : (text : List ℕ) (o : O) → P o → P (host.print text o)
    pub complain_kept : (text : List ℕ) (o : O) → P o → P (host.complain text o)
    pub flush_kept : Keeps host.flush_output
    pub enter_kept : Keeps host.enter

module _ {O : Type 0} (P : O → Type 0) (host : Host O) (k : IsKept P host) where
  pub closing-Keeps : {A : Type 0} (fd : ℕ) {m : Step O A} → Keeps P m → Keeps P (closing host fd m)
  unfolding closing closed
  closing-Keeps fd {m = m} l = record { kept = λ o p. k.close_kept fd (m o).0 (l.kept o p) }

  kept_keeps : {A : Type 0} (fd : ℕ) (r : O × Option A) → P r.0 → P (kept host fd r).0
  unfolding kept
  kept_keeps fd (o, none) p = k.close_kept fd o p
  kept_keeps fd (o, some a) p = p

  pub keeping-Keeps : {A : Type 0} (fd : ℕ) {m : Step O A} → Keeps P m → Keeps P (keeping host fd m)
  unfolding keeping
  keeping-Keeps fd {m = m} l = record { kept = λ o p. kept_keeps fd (m o) (l.kept o p) }

  say-Keeps : (text : List ℕ) → Keeps P (say host text)
  unfolding say
  say-Keeps text = record { kept = λ o p. k.print_kept text o p }

  shut-Keeps : (fd : ℕ) → Keeps P (shut host fd)
  unfolding shut
  shut-Keeps fd = record { kept = λ o p. k.close_kept fd o p }

  patient-Keeps :
      {A : Type 0} (loop : ℕ → Step O A) (n : ℕ)
      → ((m : ℕ) → Keeps P (loop m))
      → Keeps P (patient host loop n)
  unfolding patient
  patient-Keeps loop n l = record { kept = λ o p. (l (n + host.signals o)).kept o p }

  no_acl-Keeps : (fd : ℕ) → Keeps P (no_acl host fd)
  unfolding no_acl
  no_acl-Keeps fd = then-Keeps P (k.attribute_kept fd _) (λ a.
      next-Keeps P (check-Keeps P _) (then-Keeps P (k.attribute_kept fd _) (λ d. check-Keeps P _)))

  private_dir-Keeps : (fd : ℕ) → Keeps P (private_dir host fd)
  unfolding private_dir
  private_dir-Keeps fd =
      then-Keeps P (k.fstat_kept fd) (λ s. next-Keeps P (check-Keeps P _) (no_acl-Keeps fd))

  outside_repository-Keeps : (fd : ℕ) → Keeps P (outside_repository host fd)
  unfolding outside_repository
  outside_repository-Keeps fd = then-Keeps P (k.stat_at_kept fd _) (λ e. check-Keeps P _)

  -- A part that is not made.
  enter_part-Keeps : (fd : ℕ) (part : List ℕ) → Keeps P (enter_part host false fd part)
  unfolding enter_part make_part
  enter_part-Keeps fd part = next-Keeps P (check-Keeps P _) (
      next-Keeps P (outside_repository-Keeps fd)
        (next-Keeps P (pass-Keeps P tt) (k.directory_kept fd part)))

  walk-Keeps : (fd : ℕ) (parts : List (List ℕ)) → Keeps P (walk host false fd parts)
  unfolding walk
  walk-Keeps fd [] = pass-Keeps P fd
  walk-Keeps fd (part ∷ []) = closing-Keeps fd (enter_part-Keeps fd part)
  walk-Keeps fd (part ∷ next ∷ parts) =
      then-Keeps P (closing-Keeps fd (enter_part-Keeps fd part)) (λ c. walk-Keeps c (next ∷ parts))

  pub directory-Keeps : (path : List ℕ) → Keeps P (directory host path false)
  unfolding directory
  directory-Keeps path = next-Keeps P (check-Keeps P _) (
      then-Keeps P k.open_root_kept (λ root. then-Keeps P (walk-Keeps root _) (λ fd.
        next-Keeps P
          (keeping-Keeps fd (next-Keeps P (private_dir-Keeps fd) (outside_repository-Keeps fd)))
          (pass-Keeps P fd))))

  received-Keeps : (r : Transfer (List ℕ)) → Keeps P (received host r)
  unfolding received
  received-Keeps interrupted = pass-Keeps P []
  received-Keeps (transferred []) = refuse-Keeps P
  received-Keeps (transferred (b ∷ bytes)) = pass-Keeps P (b ∷ bytes)

  ended-Keeps :
      (r : Transfer (List ℕ)) {m : Step O (Unit {0})} → Keeps P m → Keeps P (ended host r m)
  unfolding ended
  ended-Keeps interrupted l = l
  ended-Keeps (transferred bytes) l = check-Keeps P _

  read_end-Keeps : (fd n : ℕ) → Keeps P (read_end host fd n)
  unfolding read_end
  read_end-Keeps fd zero = refuse-Keeps P
  read_end-Keeps fd (suc n) =
      then-Keeps P (k.read_kept fd 1) (λ r. ended-Keeps r (read_end-Keeps fd n))

  pub read_more-Keeps : (fd n left : ℕ) (done : List ℕ) → Keeps P (read_more host fd n left done)
  unfolding read_more
  read_more-Keeps fd zero left done = next-Keeps P (check-Keeps P _) (pass-Keeps P done)
  read_more-Keeps fd (suc n) zero done = pass-Keeps P done
  read_more-Keeps fd (suc n) (suc left) done =
      then-Keeps P (k.read_kept fd (suc left))
        (λ r. then-Keeps P (received-Keeps r) (λ bytes. read_more-Keeps fd n _ _))

  private_file-Keeps : (fd size : ℕ) → Keeps P (private_file host fd size)
  unfolding private_file
  private_file-Keeps fd size =
      then-Keeps P (k.fstat_kept fd) (λ s. next-Keeps P (check-Keeps P _) (no_acl-Keeps fd))

  read_file_open-Keeps :
      (dir : ℕ) (name : List ℕ) (size : ℕ) → Keeps P (read_file_open host dir name size)
  unfolding read_file_open
  read_file_open-Keeps dir name size = then-Keeps P (k.reading_kept dir name) (λ fd.
      then-Keeps P
        (keeping-Keeps fd (
          next-Keeps P (private_file-Keeps fd size) (
            then-Keeps P (patient-Keeps _ size (λ n. read_more-Keeps fd n size [])) (λ bytes.
              next-Keeps P (patient-Keeps _ 1 (read_end-Keeps fd))
                (next-Keeps P (k.rewind_kept fd) (pass-Keeps P bytes))))))
        (λ bytes. pass-Keeps P (fd, bytes)))

  pub read_file-Keeps :
      (dir : ℕ) (name : List ℕ) (size : ℕ) → Keeps P (read_file host dir name size)
  unfolding read_file
  read_file-Keeps dir name size =
      then-Keeps P (read_file_open-Keeps dir name size)
        (λ file. next-Keeps P (shut-Keeps file.0) (pass-Keeps P file.1))

  module _ (crypto : Crypto) (mode : ℕ) where
    pub identity_read-Keeps : (fd : ℕ) → Keeps P (identity_read host crypto mode fd)
    unfolding identity_read
    identity_read-Keeps fd = then-Keeps P (read_file-Keeps fd _ 80) (λ bytes. holding-Keeps P _)

    pub context_read-Keeps :
        (identity : Identity) (fd : ℕ) → Keeps P (context_read host crypto mode identity fd)
    unfolding context_read
    context_read-Keeps identity fd = then-Keeps P (read_file-Keeps fd _ 112) (λ context.
        then-Keeps P (holding-Keeps P _)
          (λ launch. next-Keeps P (check-Keeps P _) (pass-Keeps P (context, launch))))

    prepare-Keeps :
        (identity_fd session_fd : ℕ) (c : Command)
        → Keeps P (prepare host crypto mode identity_fd session_fd c)
    unfolding prepare
    prepare-Keeps identity_fd session_fd c =
        then-Keeps P (identity_read-Keeps identity_fd) (λ identity.
          then-Keeps P (context_read-Keeps identity session_fd)
            (λ context. then-Keeps P (holding-Keeps P _) (λ packet. pass-Keeps P _)))

    -- A review.
    pub review-Keeps :
        (identity_fd : ℕ) (path : List ℕ) (args : Arguments)
        → Keeps P (review_or_sign host crypto mode identity_fd path args none)
    unfolding review_or_sign conclude
    review-Keeps identity_fd path args = then-Keeps P (given-Keeps P _) (λ c.
        then-Keeps P (directory-Keeps path) (λ session_fd.
          closing-Keeps session_fd
            (then-Keeps P (prepare-Keeps identity_fd session_fd c) (λ p. say-Keeps _))))

    pub show-Keeps : (fd : ℕ) → Keeps P (show_identity host crypto mode fd)
    unfolding show_identity
    show-Keeps fd =
        then-Keeps P (identity_read-Keeps fd) (λ identity. next-Keeps P (say-Keeps _) (say-Keeps _))
