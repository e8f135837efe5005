-- ===== src/Operator/Loops.antt =====
-- The loops of tools/operator.c that read and write files end: every pass moves at least a byte, but
-- for one that is interrupted.
use tcs.Prelude.{
  ℕ, zero, suc, ◌+◌, ◌-◌, ◌≤◌, ◌<◌, ◌≡◌, refl, ap, ◌∙◌, Option, none, some, List, [], ◌∷◌, ◌++◌,
  length, drop, arith,
}
use tcs.Operator.Host.{
  Step, after, ◌>>=◌, ◌>>◌, pass, refuse, check, Host, Transfer, interrupted, transferred, patient,
}
use tcs.Operator.Files.{moved, received, ended, read_end, read_more, write_more}

after_same :
    {O A B : Type 0} (f g : A → Step O B) (r : O × Option A)
    → ((a : A) → r.1 ≡ some a → f a r.0 ≡ g a r.0)
    → after f r ≡ after g r
unfolding after
after_same f g (o, none) h = refl
after_same f g (o, some a) h = h a refl

then_same :
    {O A B : Type 0} (m : Step O A) (f g : A → Step O B) (o : O)
    → ((a : A) → (m o).1 ≡ some a → f a (m o).0 ≡ g a (m o).0)
    → (m >>= f) o ≡ (m >>= g) o
unfolding ◌>>=◌
then_same m f g o h = after_same f g (m o) h

length-drop : (n : ℕ) (xs : List ℕ) → length (drop n xs) ≡ length xs - n
length-drop zero xs = omega arith
length-drop (suc n) [] = omega arith
length-drop (suc n) (x ∷ xs) = omega (arith, length-drop n xs)

-- A host on which interruptions come to an end: `signals` is never raised by a read or a write, and an
-- interruption lowers it.
pub record IsPatient {O : Type 0} (host : Host O) : Type 0 where
  pub read_after : (fd n : ℕ) (o : O) → host.signals (host.read fd n o).0 ≤ host.signals o
  pub read_broken :
      (fd n : ℕ) (o : O)
      → (host.read fd n o).1 ≡ some interrupted
      → host.signals (host.read fd n o).0 < host.signals o
  pub write_after :
      (fd : ℕ) (bytes : List ℕ) (o : O) → host.signals (host.write fd bytes o).0 ≤ host.signals o
  pub write_broken :
      (fd : ℕ) (bytes : List ℕ) (o : O)
      → (host.write fd bytes o).1 ≡ some interrupted
      → host.signals (host.write fd bytes o).0 < host.signals o

module _ {O : Type 0} (host : Host O) where
  -- What comes after a write needs to be the same after an interruption and after some bytes.
  moved_same :
      {B : Type 0} (r : Transfer ℕ) (f g : ℕ → Step O B) (o : O)
      → (r ≡ interrupted → f 0 o ≡ g 0 o)
      → ((n : ℕ) → f (suc n) o ≡ g (suc n) o)
      → (moved host r >>= f) o ≡ (moved host r >>= g) o
  unfolding moved ◌>>=◌ after pass refuse
  moved_same interrupted f g o h k = h refl
  moved_same (transferred zero) f g o h k = refl
  moved_same (transferred (suc n)) f g o h k = k n

  received_same :
      {B : Type 0} (r : Transfer (List ℕ)) (f g : List ℕ → Step O B) (o : O)
      → (r ≡ interrupted → f [] o ≡ g [] o)
      → ((b : ℕ) (bytes : List ℕ) → f (b ∷ bytes) o ≡ g (b ∷ bytes) o)
      → (received host r >>= f) o ≡ (received host r >>= g) o
  unfolding received ◌>>=◌ after pass refuse
  received_same interrupted f g o h k = h refl
  received_same (transferred []) f g o h k = refl
  received_same (transferred (b ∷ bytes)) f g o h k = k b bytes

  ended_same :
      (r : Transfer (List ℕ)) (m n : Step O (Unit {0})) (o : O)
      → (r ≡ interrupted → m o ≡ n o)
      → ended host r m o ≡ ended host r n o
  unfolding ended
  ended_same interrupted m n o h = h refl
  ended_same (transferred bytes) m n o h = refl

module _ {O : Type 0} (host : Host O) (w : IsPatient host) where
  write_same :
      (fd m n : ℕ) (bytes : List ℕ) (o : O)
      → length bytes + host.signals o ≤ m
      → length bytes + host.signals o ≤ n
      → write_more host fd m bytes o ≡ write_more host fd n bytes o
  unfolding write_more
  write_same fd zero zero [] o h k = refl
  write_same fd zero (suc n) [] o h k = refl
  write_same fd (suc m) zero [] o h k = refl
  write_same fd (suc m) (suc n) [] o h k = refl
  write_same fd zero n (b ∷ bytes) o h k = absurd (omega (arith, h))
  write_same fd (suc m) zero (b ∷ bytes) o h k = absurd (omega (arith, k))
  write_same fd (suc m) (suc n) (b ∷ bytes) o h k =
      let all = b ∷ bytes in
      let o1 = (host.write fd all o).0 in
      let rest = λ (f sent : ℕ). write_more host fd f (drop sent all) in
      let later = w.write_after fd all o in
      then_same (host.write fd all) (λ r. moved host r >>= rest m) (λ r. moved host r >>= rest n) o
        (λ r e.
          moved_same host r (rest m) (rest n) o1
            (λ broken.
              let fewer = w.write_broken fd all o (e ∙ ap (λ (t : Transfer ℕ). some t) broken) in
              write_same fd m n all o1 (omega (arith, fewer, h)) (omega (arith, fewer, k)))
            (λ sent.
              let left = length-drop sent bytes in
              write_same fd m n (drop sent bytes) o1 (omega (arith, left, later, h))
                (omega (arith, left, later, k))))

  read_same :
      (fd m n left : ℕ) (done : List ℕ) (o : O)
      → left + host.signals o ≤ m
      → left + host.signals o ≤ n
      → read_more host fd m left done o ≡ read_more host fd n left done o
  unfolding read_more ◌>>◌ ◌>>=◌ check after pass
  read_same fd zero zero zero done o h k = refl
  read_same fd zero (suc n) zero done o h k = refl
  read_same fd (suc m) zero zero done o h k = refl
  read_same fd (suc m) (suc n) zero done o h k = refl
  read_same fd zero n (suc left) done o h k = absurd (omega (arith, h))
  read_same fd (suc m) zero (suc left) done o h k = absurd (omega (arith, k))
  read_same fd (suc m) (suc n) (suc left) done o h k =
      let o1 = (host.read fd (suc left) o).0 in
      let rest =
        λ (f : ℕ) (bytes : List ℕ). read_more host fd f (suc left - length bytes) (done ++ bytes) in
      let later = w.read_after fd (suc left) o in
      then_same (host.read fd (suc left)) (λ r. received host r >>= rest m)
        (λ r. received host r >>= rest n) o
        (λ r e.
          received_same host r (rest m) (rest n) o1
            (λ broken.
              let fewer =
                w.read_broken fd (suc left) o (e ∙ ap (λ (t : Transfer (List ℕ)). some t) broken) in
              read_same fd m n (suc left - 0) (done ++ []) o1 (omega (arith, fewer, h))
                (omega (arith, fewer, k)))
            (λ b bytes.
              read_same fd m n (suc left - suc (length bytes)) (done ++ b ∷ bytes) o1
                (omega (arith, later, h)) (omega (arith, later, k))))

  end_same :
      (fd m n : ℕ) (o : O)
      → host.signals o < m
      → host.signals o < n
      → read_end host fd m o ≡ read_end host fd n o
  unfolding read_end
  end_same fd zero n o h k = absurd (omega (arith, h))
  end_same fd (suc m) zero o h k = absurd (omega (arith, k))
  end_same fd (suc m) (suc n) o h k =
      let o1 = (host.read fd 1 o).0 in
      then_same (host.read fd 1) (λ r. ended host r (read_end host fd m))
        (λ r. ended host r (read_end host fd n)) o
        (λ r e. ended_same host r (read_end host fd m) (read_end host fd n) o1 (λ broken.
          let fewer = w.read_broken fd 1 o (e ∙ ap (λ (t : Transfer (List ℕ)). some t) broken) in
          end_same fd m n o1 (omega (arith, fewer, h)) (omega (arith, fewer, k))))

  -- On a host on which interruptions come to an end, whatever else its calls return, the three loops
  -- that write, read, and look for the end of a file end by themselves within the passes that they are
  -- given, one for each byte, and one for the end, and one for each interruption: any larger bound gives
  -- the same result.
  pub loops_end :
      (fd n : ℕ) (bytes done : List ℕ) (o : O)
      → (patient host (λ m. write_more host fd m bytes) (length bytes) o
          ≡ write_more host fd (n + length bytes + host.signals o) bytes o)
        × (patient host (λ m. read_more host fd m (length bytes) done) (length bytes) o
            ≡ read_more host fd (n + length bytes + host.signals o) (length bytes) done o)
        × (patient host (read_end host fd) 1 o ≡ read_end host fd (n + 1 + host.signals o) o)
  unfolding patient
  loops_end fd n bytes done o = (
    write_same fd (length bytes + host.signals o) (n + length bytes + host.signals o) bytes o
        (omega arith) (omega arith),
    read_same fd (length bytes + host.signals o) (n + length bytes + host.signals o) (length bytes)
        done o (omega arith) (omega arith),
    end_same fd (1 + host.signals o) (n + 1 + host.signals o) o (omega arith) (omega arith),
  )
