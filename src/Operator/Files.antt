-- ===== src/Operator/Files.antt =====
-- tools/operator.c: private directories and files, over the calls of the host. The ACL test is that of
-- Linux.
use tcs.Prelude.{
  ℕ, zero, suc, ◌-◌, Bool, false, not, ◌&&◌, ◌||◌, ◌==◌, if◌then◌else◌, Option, none, some, List,
  [], ◌∷◌, ◌++◌, length, drop, codes,
}
use tcs.Operator.Text.{same_text, is_path, parts_from}
use tcs.Operator.Host.{
  Step, ◌>>=◌, ◌>>◌, pass, refuse, check, to_directory, to_read, to_create, Host, Transfer,
  interrupted, transferred, shut, patient,
}

-- ENOENT, ENODATA and ENOTSUP
abbrev enoent : ℕ
enoent = 2

abbrev enodata : ℕ
enodata = 61

abbrev enotsup : ℕ
enotsup = 95

-- 0700 and 0600
abbrev directory_mode : ℕ
directory_mode = 448

abbrev file_mode : ℕ
file_mode = 384

module _ {O : Type 0} (host : Host O) where
  -- A descriptor that is closed whether the run gives up or not.
  unfoldable pub closed : {A : Type 0} → ℕ → O × Option A → O × Option A
  closed fd (o, r) = ((host.close fd o).0, r)

  unfoldable pub closing : {A : Type 0} → ℕ → Step O A → Step O A
  closing fd m = λ o. closed fd (m o)

  -- A descriptor that is closed only where the run gives up.
  unfoldable pub kept : {A : Type 0} → ℕ → O × Option A → O × Option A
  kept fd (o, none) = ((host.close fd o).0, none)
  kept fd (o, some a) = (o, some a)

  unfoldable pub keeping : {A : Type 0} → ℕ → Step O A → Step O A
  keeping fd m = λ o. kept fd (m o)

  -- `no_acl`
  unfoldable pub no_acl : ℕ → Step O (Unit {0})
  no_acl fd = do
    a ← host.attribute fd (codes "system.posix_acl_access")
    check ((a == enodata) || (a == enotsup))
    d ← host.attribute fd (codes "system.posix_acl_default")
    check ((d == enodata) || (d == enotsup))

  -- `private_dir`
  unfoldable pub private_dir : ℕ → Step O (Unit {0})
  private_dir fd = do
    s ← host.fstat fd
    check (s.is_directory && (s.owner == host.user) && (s.permissions == directory_mode))
    no_acl fd

  -- `outside_repository`
  unfoldable pub outside_repository : ℕ → Step O (Unit {0})
  outside_repository fd = do e ← host.stat_at fd (codes ".git"); check (e == enoent)

  -- A directory that is made and written to the disk, where it is wanted.
  unfoldable pub make_part : Bool → ℕ → List ℕ → Step O (Unit {0})
  make_part wanted fd part = if wanted then (do host.mkdir_at fd part; host.fsync fd) else pass tt

  -- The body of the loop of `directory`, but for the close.
  unfoldable pub enter_part : Bool → ℕ → List ℕ → Step O ℕ
  enter_part made fd part = do
    check (not (same_text part (codes ".")) && not (same_text part (codes "..")))
    outside_repository fd
    make_part made fd part
    host.open_at to_directory fd part

  -- The loop of `directory`; only the last part is made.
  unfoldable pub walk : Bool → ℕ → List (List ℕ) → Step O ℕ
  walk create fd [] = pass fd
  walk create fd (part ∷ []) = closing fd (enter_part create fd part)
  walk create fd (part ∷ next ∷ parts) = do
    child ← closing fd (enter_part false fd part)
    walk create child (next ∷ parts)

  -- `directory`
  unfoldable pub directory : List ℕ → Bool → Step O ℕ
  directory path create = do
    check (is_path path)
    root ← host.open_root
    fd ← walk create root (parts_from [] path)
    keeping fd (do private_dir fd; outside_repository fd)
    pass fd

  -- The bytes that a `read` adds, which must be some where it was not interrupted.
  unfoldable pub received : Transfer (List ℕ) → Step O (List ℕ)
  received interrupted = pass []
  received (transferred []) = refuse
  received (transferred (b ∷ bytes)) = pass (b ∷ bytes)

  -- The loop of `read_file_open`, for at most so many reads: what is still to be read goes behind what
  -- has been read.
  unfoldable pub read_more : ℕ → ℕ → ℕ → List ℕ → Step O (List ℕ)
  read_more fd zero left done = check (left == 0) >> pass done
  read_more fd (suc n) zero done = pass done
  read_more fd (suc n) (suc left) done = do
    r ← host.read fd (suc left)
    bytes ← received r
    read_more fd n (suc left - length bytes) (done ++ bytes)

  -- The end of the loop that looks for the end of a file.
  unfoldable pub ended : Transfer (List ℕ) → Step O (Unit {0}) → Step O (Unit {0})
  ended interrupted again = again
  ended (transferred bytes) again = check (length bytes == 0)

  -- The loop that looks for the end of a file, for at most so many reads.
  unfoldable pub read_end : ℕ → ℕ → Step O (Unit {0})
  read_end fd zero = refuse
  read_end fd (suc n) = do r ← host.read fd 1; ended r (read_end fd n)

  -- The tests on the file of `read_file_open`.
  unfoldable pub private_file : ℕ → ℕ → Step O (Unit {0})
  private_file fd size = do
    s ← host.fstat fd
    check (
        s.is_regular
        && (s.owner == host.user)
        && (s.links == 1)
        && (s.permissions == file_mode)
        && (s.size == size))
    no_acl fd

  -- `read_file_open`: the open file and its bytes.
  unfoldable pub read_file_open : ℕ → List ℕ → ℕ → Step O (ℕ × List ℕ)
  read_file_open dir name size = do
    fd ← host.open_at to_read dir name
    bytes ← keeping fd (do
      private_file fd size
      bytes ← patient host (λ n. read_more fd n size []) size
      patient host (read_end fd) 1
      host.rewind fd
      pass bytes)
    pass (fd, bytes)

  -- `read_file`
  unfoldable pub read_file : ℕ → List ℕ → ℕ → Step O (List ℕ)
  read_file dir name size = do file ← read_file_open dir name size; shut host file.0; pass file.1

  -- The bytes that a `write` has taken, which must be some where it was not interrupted.
  unfoldable pub moved : Transfer ℕ → Step O ℕ
  moved interrupted = pass 0
  moved (transferred zero) = refuse
  moved (transferred (suc n)) = pass (suc n)

  -- The loop of `write_new`, for at most so many writes.
  unfoldable pub write_more : ℕ → ℕ → List ℕ → Step O (Unit {0})
  write_more fd n [] = pass tt
  write_more fd zero (b ∷ bytes) = refuse
  write_more fd (suc n) (b ∷ bytes) = do
    r ← host.write fd (b ∷ bytes)
    sent ← moved r
    write_more fd n (drop sent (b ∷ bytes))

  -- Two results that must both be there.
  abbrev pub both : Option (Unit {0}) → Option (Unit {0}) → Option (Unit {0})
  both none s = none
  both (some r) s = s

  -- The end of `write_new`, whatever has come before.
  unfoldable pub settle : ℕ → ℕ → O × Option (Unit {0}) → O × Option (Unit {0})
  settle fd dir (o, written) =
      let (o1, synced) = host.fsync fd o in
      let (o2, closed) = shut host fd o1 in
      let (o3, listed) = host.fsync dir o2 in (o3, both written (both synced (both closed listed)))

  -- `write_new` with the file open.
  unfoldable pub write_into : ℕ → ℕ → List ℕ → Step O (Unit {0})
  write_into fd dir bytes =
      λ o. settle fd dir ((no_acl fd >> patient host (λ n. write_more fd n bytes) (length bytes)) o)

  -- `write_new`
  unfoldable pub write_new : ℕ → List ℕ → List ℕ → Step O (Unit {0})
  write_new dir name bytes = do fd ← host.open_at to_create dir name; write_into fd dir bytes
