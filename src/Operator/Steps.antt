-- ===== src/Operator/Steps.antt =====
-- What lies behind a value that a run of the host tool gives.
use tcs.Prelude.{◌≡◌, refl, Bool, true, false, Option, none, some, arith}
use tcs.Operator.Host.{Step, after, ◌>>=◌, ◌>>◌, check, holding}

-- A run that gives a value has one behind each of its steps.
after-some :
    {O A B : Type 0} (f : A → Step O B) (r : O × Option A) (b : B)
    → (after f r).1 ≡ some b
    → (a : A) × (r.1 ≡ some a) × (after f r ≡ f a r.0)
unfolding after
after-some f (o, none) b h = absurd (ground (arith, h))
after-some f (o, some a) b h = (a, refl, refl)

pub then_some :
    {O A B : Type 0} (m : Step O A) (f : A → Step O B) (o : O) (b : B)
    → ((m >>= f) o).1 ≡ some b
    → (a : A) × ((m o).1 ≡ some a) × ((m >>= f) o ≡ f a (m o).0)
unfolding ◌>>=◌
then_some m f o b h = after-some f (m o) b h

pub next_some :
    {O A B : Type 0} (m : Step O A) (n : Step O B) (o : O) (b : B)
    → ((m >> n) o).1 ≡ some b
    → (a : A) × ((m o).1 ≡ some a) × ((m >> n) o ≡ n (m o).0)
unfolding ◌>>◌
next_some m n o b h = then_some m (λ _. n) o b h

-- A run behind a test that holds is the run.
pub check_then :
    {O B : Type 0} (b : Bool) (n : Step O B) (o : O) (v : B)
    → ((check b >> n) o).1 ≡ some v
    → (b ≡ true) × ((check b >> n) o ≡ n o)
unfolding check ◌>>◌ ◌>>=◌ after
check_then true n o v h = (refl, refl)
check_then false n o v h = absurd (ground (arith, h))

pub holding-some :
    {O A : Type 0} (r : A × Bool) (o : O) (a : A) → (holding r o).1 ≡ some a → r ≡ (a, true)
unfolding holding
holding-some (b, true) o a h = ground (arith, h)
holding-some (b, false) o a h = absurd (ground (arith, h))
