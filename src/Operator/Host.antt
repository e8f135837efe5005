-- ===== src/Operator/Host.antt =====
-- What tools/operator.c runs on: the calls of the operating system, which may fail at any time, and
-- those of monocypher.
use tcs.Prelude.{ℕ, ◌+◌, ◌==◌, if◌then◌else◌, Bool, true, false, Option, none, some, List}

-- A run of some code on the state of the host: its value, or none where it gives up.
abbrev pub Step : Type 0 → Type 0 → Type 0
Step O A = O → O × Option A

-- What comes after a run, where it has not given up.
unfoldable pub after : {O A B : Type 0} → (A → Step O B) → O × Option A → O × Option B
after f (o, none) = (o, none)
after f (o, some a) = f a o

infixl 5 ◌>>=◌ ◌>>◌
unfoldable pub ◌>>=◌ : {O A B : Type 0} → Step O A → (A → Step O B) → Step O B
m >>= f = λ o. after f (m o)

unfoldable pub ◌>>◌ : {O A B : Type 0} → Step O A → Step O B → Step O B
m >> n = m >>= λ _. n

unfoldable pub pass : {O A : Type 0} → A → Step O A
pass a = λ o. (o, some a)

unfoldable pub refuse : {O A : Type 0} → Step O A
refuse = λ o. (o, none)

unfoldable pub check : {O : Type 0} → Bool → Step O (Unit {0})
check true = λ o. (o, some tt)
check false = λ o. (o, none)

-- An optional result of a computation.
unfoldable pub given : {O A : Type 0} → Option A → Step O A
given none = λ o. (o, none)
given (some a) = λ o. (o, some a)

-- A result with whether it holds.
unfoldable pub holding : {O A : Type 0} → A × Bool → Step O A
holding (a, true) = λ o. (o, some a)
holding (a, false) = λ o. (o, none)

-- The flags of `openat`: `dir_flags`, those of a file that is read, and those of a file that must not
-- exist yet.
pub data Access : Type 0 where
  to_directory to_read to_create : Access

-- The fields of `struct stat` that are looked at; the permissions are `st_mode & 07777`.
pub record Stat : Type 0 where
  pub is_directory : Bool
  pub is_regular : Bool
  pub owner : ℕ
  pub links : ℕ
  pub permissions : ℕ
  pub size : ℕ

-- What a `read` or a `write` has done: it was interrupted (-1 with EINTR), or it gives its result.
pub data Transfer (A : Type 0) : Type 0 where
  interrupted : Transfer A
  transferred : A → Transfer A

-- The calls of the operating system, on its state. A call that returns -1 gives none; at the end of a
-- file a `read` gives no bytes.
pub record Host (O : Type 0) : Type 0 where
  pub open_root : Step O ℕ
  pub open_at : Access → ℕ → List ℕ → Step O ℕ
  pub open_image : List ℕ → Step O ℕ
  pub mkdir_at : ℕ → List ℕ → Step O (Unit {0})
  pub fstat : ℕ → Step O Stat
  -- `errno` after `fstatat` of a name, or 0 where it is there
  pub stat_at : ℕ → List ℕ → Step O ℕ
  -- `errno` after `fgetxattr` of a name, or 0 where it is there
  pub attribute : ℕ → List ℕ → Step O ℕ
  pub read : ℕ → ℕ → Step O (Transfer (List ℕ))
  pub write : ℕ → List ℕ → Step O (Transfer ℕ)
  -- a bound on the interruptions that are still to come
  pub signals : O → ℕ
  pub rewind : ℕ → Step O (Unit {0})
  pub fsync : ℕ → Step O (Unit {0})
  -- `errno` after `close`, or 0 where it succeeds
  pub close : ℕ → O → O × ℕ
  pub change_directory : ℕ → Step O (Unit {0})
  pub entropy : ℕ → Step O (List ℕ)
  pub allocate : ℕ → Step O (Unit {0})
  -- the descriptor of /dev/fd and the names that `readdir` gives
  pub descriptors : Step O (ℕ × List (List ℕ))
  -- whether /dev/fd was read to its end and is closed
  pub end_descriptors : ℕ → Step O (Unit {0})
  -- `execv`, which returns only where it fails
  pub execute : List ℕ → List (List ℕ) → Step O (Unit {0})
  -- what is written to the standard output and to that of errors, with no look at the results
  pub print : List ℕ → O → O
  pub complain : List ℕ → O → O
  pub flush_output : Step O (Unit {0})
  -- that the ids are the effective ones, no core is written, and the descriptors 0 to 2 are open
  pub enter : Step O (Unit {0})
  pub user : ℕ

-- A message on the standard output.
unfoldable pub say : {O : Type 0} → Host O → List ℕ → Step O (Unit {0})
say host text = λ o. (host.print text o, some tt)

-- `close`, which must succeed.
unfoldable pub shut : {O : Type 0} → Host O → ℕ → Step O (Unit {0})
shut host fd = λ o. let (next, e) = host.close fd o in (next, if e == 0 then some tt else none)

-- A loop, for a number of passes and one more for each interruption.
unfoldable pub patient : {O A : Type 0} → Host O → (ℕ → Step O A) → ℕ → Step O A
patient host loop n = λ o. loop (n + host.signals o) o

-- The calls of monocypher: the secret and the public half of a seed; the signature of a message and its
-- length with a secret; zero where a signature, with a public key, a message and its length, is valid;
-- and a digest.
pub record Crypto : Type 0 where
  pub key_pair : List ℕ → List ℕ × List ℕ
  pub sign : List ℕ → List ℕ → ℕ → List ℕ
  pub verify : List ℕ → List ℕ → List ℕ → ℕ → ℕ
  pub digest : List ℕ → List ℕ
