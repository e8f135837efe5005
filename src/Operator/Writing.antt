-- ===== src/Operator/Writing.antt =====
-- What `write_new` of tools/operator.c leaves in a file, on a host that writes what it is given.
use tcs.Prelude.{
  ℕ, zero, suc, ◌+◌, ◌≤◌, ◌≡◌, ◌⊎◌, inl, inr, refl, ap, sym, ◌∙◌, Option, none, some, List, [], ◌∷◌,
  ◌++◌, length, take, drop, arith,
}
use mathlib.Core.List.{append_assoc, append-nil}
use tcs.Operator.Host.{
  ◌>>=◌, ◌>>◌, pass, refuse, to_create, Host, Transfer, interrupted, transferred, shut, patient,
}
use tcs.Operator.Keeping.{Keeps, then-Keeps, next-Keeps, check-Keeps}
use tcs.Operator.Steps.{then_some, next_some}
use tcs.Operator.Files.{no_acl, moved, write_more, settle, write_into, write_new}

take-drop : (n : ℕ) (xs : List ℕ) → take n xs ++ drop n xs ≡ xs
take-drop zero xs = refl
take-drop (suc n) [] = refl
take-drop (suc n) (x ∷ xs) = ap (λ (t : List ℕ). x ∷ t) (take-drop n xs)

-- A host whose `write` puts the bytes that it reports behind those of the file, and none where it is
-- interrupted, whose exclusive creation gives an empty file, and whose other calls leave the files alone. The bytes are those of the
-- file that was opened last as a descriptor.
pub record IsFaithful {O : Type 0} (host : Host O) (content : O → ℕ → List ℕ) : Type 0 where
  pub created :
      (dir fd : ℕ) (name : List ℕ) (o : O)
      → (host.open_at to_create dir name o).1 ≡ some fd
      → content (host.open_at to_create dir name o).0 fd ≡ []
  pub wrote :
      (fd n : ℕ) (bytes : List ℕ) (o : O)
      → (host.write fd bytes o).1 ≡ some (transferred n)
      → (n ≤ length bytes) × (content (host.write fd bytes o).0 fd ≡ content o fd ++ take n bytes)
  pub broke :
      (fd : ℕ) (bytes : List ℕ) (o : O)
      → (host.write fd bytes o).1 ≡ some interrupted
      → content (host.write fd bytes o).0 fd ≡ content o fd
  pub looked :
      (fd : ℕ) (name : List ℕ) (o : O) → content (host.attribute fd name o).0 fd ≡ content o fd
  pub synced : (fd d : ℕ) (o : O) → content (host.fsync d o).0 fd ≡ content o fd
  pub closed : (fd : ℕ) (o : O) → content (host.close fd o).0 fd ≡ content o fd
  pub printed : (fd : ℕ) (text : List ℕ) (o : O) → content (host.print text o) fd ≡ content o fd

module _ {O : Type 0} (host : Host O) (content : O → ℕ → List ℕ) (w : IsFaithful host content) where
  -- What one write leaves, where it was not refused.
  moved-some :
      (r : Transfer ℕ) (o : O) (sent : ℕ)
      → (moved host r o).1 ≡ some sent
      → ((moved host r o).0 ≡ o) × (((r ≡ interrupted) × (sent ≡ 0)) ⊎ (r ≡ transferred sent))
  unfolding moved pass refuse
  moved-some interrupted o sent h = (refl, inl (refl, ground (arith, h)))
  moved-some (transferred zero) o sent h = absurd (ground (arith, h))
  moved-some (transferred (suc n)) o sent h =
      (refl, inr (ap (λ (t : ℕ). transferred t) (ground (arith, h))))

  one_write :
      (fd sent : ℕ) (bytes : List ℕ) (r : Transfer ℕ) (o : O)
      → (host.write fd bytes o).1 ≡ some r
      → ((r ≡ interrupted) × (sent ≡ 0)) ⊎ (r ≡ transferred sent)
      → content (host.write fd bytes o).0 fd ≡ content o fd ++ take sent bytes
  one_write fd sent bytes r o e (inl (broken, none_sent)) =
      w.broke fd bytes o (e ∙ ap (λ (t : Transfer ℕ). some t) broken)
      ∙ sym (append-nil (content o fd))
      ∙ ap (λ (n : ℕ). content o fd ++ take n bytes) (sym none_sent)
  one_write fd sent bytes r o e (inr got) =
      (w.wrote fd sent bytes o (e ∙ ap (λ (t : Transfer ℕ). some t) got)).1

  write_more-content :
      (fd n : ℕ) (bytes : List ℕ) (o : O)
      → (write_more host fd n bytes o).1 ≡ some tt
      → content (write_more host fd n bytes o).0 fd ≡ content o fd ++ bytes
  unfolding write_more pass refuse
  write_more-content fd zero [] o h = sym (append-nil (content o fd))
  write_more-content fd (suc n) [] o h = sym (append-nil (content o fd))
  write_more-content fd zero (b ∷ bytes) o h = absurd (ground (arith, h))
  write_more-content fd (suc n) (b ∷ bytes) o h =
      let all = b ∷ bytes in
      let value = λ (r : O × Option (Unit {0})). r.1 in
      let rest = λ (sent : ℕ). write_more host fd n (drop sent all) in
      let (r, e, first) = then_some (host.write fd all) (λ r. moved host r >>= rest) o tt h in
      let o1 = (host.write fd all o).0 in
      let (sent, f, second) = then_some (moved host r) rest o1 tt (sym (ap value first) ∙ h) in
      let (still, how) = moved-some r o1 sent f in
      let same : write_more host fd (suc n) all o ≡ write_more host fd n (drop sent all) o1 =
        first ∙ second ∙ ap (write_more host fd n (drop sent all)) still in
      let later = write_more-content fd n (drop sent all) o1 (sym (ap value same) ∙ h) in
      ap (λ (r : O × Option (Unit {0})). content r.0 fd) same
      ∙ later
      ∙ ap (λ (t : List ℕ). t ++ drop sent all) (one_write fd sent all r o e how)
      ∙ append_assoc (content o fd) (take sent all) (drop sent all)
      ∙ ap (λ (t : List ℕ). content o fd ++ t) (take-drop sent all)

  looked-Keeps :
      (fd : ℕ) (name : List ℕ) (o : O)
      → Keeps (λ (s : O). content s fd ≡ content o fd) (host.attribute fd name)
  looked-Keeps fd name o = record { kept = λ s e. w.looked fd name s ∙ e }

  -- The test on the ACL leaves the file as it is.
  no_acl-content : (fd : ℕ) (o : O) → content (no_acl host fd o).0 fd ≡ content o fd
  unfolding no_acl
  no_acl-content fd o =
      (then-Keeps (λ (s : O). content s fd ≡ content o fd) (looked-Keeps fd _ o)
          (λ a.
            next-Keeps _ (check-Keeps _ _)
              (then-Keeps _ (looked-Keeps fd _ o) (λ d. check-Keeps _ _)))).kept
        o refl

  settle-some :
      (fd dir : ℕ) (r : O × Option (Unit {0}))
      → (settle host fd dir r).1 ≡ some tt
      → (r.1 ≡ some tt) × (content (settle host fd dir r).0 fd ≡ content r.0 fd)
  unfolding settle shut
  settle-some fd dir (o, none) h = absurd (ground (arith, h))
  settle-some fd dir (o, some u) h =
      let o1 = (host.fsync fd o).0 in
      let o2 = (host.close fd o1).0 in
      (refl, w.synced fd dir o2 ∙ w.closed fd o1 ∙ w.synced fd fd o)

  -- On such a host, a `write_new` that succeeds has created a file that was not there, and the file
  -- holds exactly the bytes.
  pub write_new-content :
      (dir : ℕ) (name bytes : List ℕ) (o : O)
      → (write_new host dir name bytes o).1 ≡ some tt
      → (fd : ℕ) × ((host.open_at to_create dir name o).1 ≡ some fd)
        × (content (write_new host dir name bytes o).0 fd ≡ bytes)
  unfolding write_new write_into patient
  write_new-content dir name bytes o h =
      let (fd, opened, same) =
        then_some (host.open_at to_create dir name) (λ f. write_into host f dir bytes) o tt h in
      let o1 = (host.open_at to_create dir name o).0 in
      let written =
        (no_acl host fd >> patient host (λ n. write_more host fd n bytes) (length bytes)) o1 in
      let (done, settled) =
        settle-some fd dir written (sym (ap (λ (r : O × Option (Unit {0})). r.1) same) ∙ h) in
      let (_, _, next) =
        next_some (no_acl host fd) (patient host (λ n. write_more host fd n bytes) (length bytes))
          o1 tt done in
      let o2 = (no_acl host fd o1).0 in
      let all =
        write_more-content fd (length bytes + host.signals o2) bytes o2
          (sym (ap (λ (r : O × Option (Unit {0})). r.1) next) ∙ done) in
      (
        fd,
        opened,
        ap (λ (r : O × Option (Unit {0})). content r.0 fd) same
            ∙ settled
            ∙ ap (λ (r : O × Option (Unit {0})). content r.0 fd) next
            ∙ all
            ∙ ap (λ (t : List ℕ). t ++ bytes)
                (no_acl-content fd o1 ∙ w.created dir fd name o opened),
      )
