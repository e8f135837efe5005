-- ===== src/Operator/Consumed.antt =====
-- What the tasks of tools/operator.c leave as it is: a session that has been launched is not launched
-- again, and a review only reads.
use tcs.Prelude.{ℕ, ◌≡◌, ◌⊎◌, inl, inr, refl, arith, Option, none, some, List, codes}
use tcs.Operator.Host.{Step, after, ◌>>=◌, ◌>>◌, to_create, Host, Crypto}
use tcs.Operator.Files.{write_new}
use tcs.Operator.Guest.{start_guest, launch_in, launch_guest}
use tcs.Operator.Main.{
  Task, show, review, launch, task, with_identity, run_task, exit_with, finished, run_arguments,
  entered, main,
}
use tcs.Operator.Requests.{Arguments}
use tcs.Operator.Keeping.{
  Keeps, IsKept, then-Keeps, next-Keeps, check-Keeps, refuse-Keeps, closing-Keeps, directory-Keeps,
  identity_read-Keeps, context_read-Keeps, review-Keeps, show-Keeps,
}

module _ {O : Type 0} (P : O → Type 0) where
  -- A run that always gives up, with a state that still has `P`.
  record Stops {A : Type 0} (m : Step O A) : Type 0 where
    stopped : (o : O) → P o → P (m o).0 × ((m o).1 ≡ none)

  then_none :
      {A B : Type 0} (f : A → Step O B) (r : O × Option A) → r.1 ≡ none → after f r ≡ (r.0, none)
  unfolding after
  then_none f (o, none) h = refl
  then_none f (o, some a) h = absurd (ground (arith, h))

  then-Stops : {A B : Type 0} {m : Step O A} (f : A → Step O B) → Stops m → Stops (m >>= f)
  unfolding ◌>>=◌
  then-Stops {m = m} f s = record {
    stopped =
        λ o p. let (kept, given_up) = s.stopped o p in rw (then_none f (m o) given_up) (kept, refl);
  }

  next-Stops : {A B : Type 0} {m : Step O A} (n : Step O B) → Stops m → Stops (m >> n)
  unfolding ◌>>◌
  next-Stops n s = then-Stops _ s

  Stops-Keeps : {A : Type 0} {m : Step O A} → Stops m → Keeps P m
  Stops-Keeps s = record { kept = λ o p. (s.stopped o p).0 }

module _ {O : Type 0} (P : O → Type 0) (host : Host O) where
  -- Where the state has `P`, launch.used cannot be created in any directory.
  pub record IsConsumed : Type 0 where
    pub taken :
        (dir : ℕ) (o : O)
        → P o
        → let (next, fd) = host.open_at to_create dir (codes "launch.used") o in
          P next × (fd ≡ none)

module _ {O : Type 0} (P : O → Type 0) (host : Host O) (crypto : Crypto) (mode : ℕ)
    (k : IsKept P host) where
  write_used-Stops :
      (dir : ℕ) (context : List ℕ)
      → IsConsumed P host
      → Stops P (write_new host dir (codes "launch.used") context)
  unfolding write_new
  write_used-Stops dir context c = then-Stops P _ (record { stopped = c.taken dir })

  start_guest-Keeps :
      (dir image_fd : ℕ) (context qemu : List ℕ)
      → IsConsumed P host
      → Keeps P (start_guest host crypto mode dir image_fd context qemu)
  unfolding start_guest
  start_guest-Keeps dir image_fd context qemu c = then-Keeps P (k.fstat_kept image_fd) (λ s.
      next-Keeps P (check-Keeps P _)
        (Stops-Keeps P (next-Stops P _ (write_used-Stops dir context c))))

  launch_guest-Keeps :
      (fd : ℕ) (session image qemu : List ℕ)
      → IsConsumed P host
      → Keeps P (launch_guest host crypto mode fd session image qemu)
  unfolding launch_guest launch_in
  launch_guest-Keeps fd session image qemu c = next-Keeps P (check-Keeps P _) (
      then-Keeps P (directory-Keeps P host k session) (λ dir.
        next-Keeps P
          (closing-Keeps P host k dir (
            then-Keeps P (identity_read-Keeps P host k crypto mode fd) (λ identity.
              then-Keeps P (context_read-Keeps P host k crypto mode identity dir) (λ context.
                then-Keeps P (k.image_kept image) (λ image_fd.
                  closing-Keeps P host k image_fd
                    (start_guest-Keeps dir image_fd context.0 qemu c))))))
          (refuse-Keeps P)))

  with_identity-Keeps :
      (path : List ℕ) (body : ℕ → Step O (Unit {0}))
      → ((fd : ℕ) → Keeps P (body fd))
      → Keeps P (with_identity host crypto mode path body)
  unfolding with_identity
  with_identity-Keeps path body b =
      then-Keeps P (directory-Keeps P host k path) (λ fd. closing-Keeps P host k fd (b fd))

  finished_keeps :
      (done flushed : Option (Unit {0})) (o : O)
      → P o
      → P (finished host crypto mode done flushed o).0
  unfolding finished
  finished_keeps none flushed o p = k.complain_kept _ o p
  finished_keeps (some u) none o p = k.complain_kept _ o p
  finished_keeps (some u) (some v) o p = p

  exit_with_keeps : (r : O × Option (Unit {0})) → P r.0 → P (exit_with host crypto mode r).0
  unfolding exit_with
  exit_with_keeps (o, done) p =
      let (next, flushed) = host.flush_output o in
      finished_keeps done flushed next (k.flush_kept.kept o p)

  entered_keeps :
      (argv : List (List ℕ)) (t : Task)
      → task argv ≡ some t
      → Keeps P (run_task host crypto mode t)
      → (r : O × Option (Unit {0})) → P r.0
      → P (entered host crypto mode argv r).0
  unfolding entered run_arguments
  entered_keeps argv t h r (o, none) p = p
  entered_keeps argv t h r (o, some u) p =
      rw h (exit_with_keeps (run_task host crypto mode t o) (r.kept o p))

  -- A task that is shown, reviewed or launched.
  main_keeps :
      (argv : List (List ℕ)) (t : Task)
      → task argv ≡ some t
      → Keeps P (run_task host crypto mode t)
      → (o : O) → P o
      → P (main host crypto mode argv o).0
  unfolding main
  main_keeps argv t h r o p = entered_keeps argv t h r (host.enter o) (k.enter_kept.kept o p)

  -- Where launch.used is already there and cannot be created in any directory, the task `launch`
  -- starts no program: it keeps every property of the host's state that is kept by the calls that
  -- open, look at, read and close files, print and enter the tool, although neither a write nor a
  -- start of a program needs to keep it.
  pub main-launch :
      (argv : List (List ℕ)) (path session image qemu : List ℕ) (o : O)
      → task argv ≡ some (launch path session image qemu)
      → IsConsumed P host
      → P o
      → P (main host crypto mode argv o).0
  unfolding run_task
  main-launch argv path session image qemu o h c p =
      main_keeps argv (launch path session image qemu) h
        (with_identity-Keeps path _ (λ fd. launch_guest-Keeps fd session image qemu c)) o p

  -- The tasks `review` and `show` only read: they keep every property of the host's state that is
  -- kept by the calls that open, look at, read and close files, print and enter the tool; no file
  -- is created or written, and no program is started.
  pub main-review :
      (argv : List (List ℕ)) (path session : List ℕ) (args : Arguments) (o : O)
      → (task argv ≡ some (review path session args)) ⊎ (task argv ≡ some (show path))
      → P o
      → P (main host crypto mode argv o).0
  unfolding run_task
  main-review argv path session args o (inl h) p =
      main_keeps argv (review path session args) h
        (with_identity-Keeps path _ (λ fd. review-Keeps P host k crypto mode fd session args)) o p
  main-review argv path session args o (inr h) p =
      main_keeps argv (show path) h (with_identity-Keeps path _ (show-Keeps P host k crypto mode)) o
        p
