-- ===== src/Terminal/Server/Steady.antt =====
-- The output of servers/terminal.c over a driver that keeps its promises.
use tcs.Prelude.{
  ℕ, zero, suc, ◌+◌, ◌≤◌, ◌≡◌, refl, ◌∙◌, true, false, ltb, List, [], ◌∷◌, length, get_or, set, All,
  length-set, arith,
}
use tcs.Terminal.Output.{Output, output_size, append, words_of}
use tcs.Terminal.Delivery
use tcs.Terminal.Delivery.{offered, answered}
use tcs.Terminal.Phrases.{append_all}
use tcs.Terminal.Server.Texts.{IsByte, IsTexts, total}

-- An output that has not failed, of bytes, with its counts within the array; what has all been sent
-- is empty.
pub record IsSteady (o : Output) : Type 0 where
  pub valid : Delivery.IsValid o
  pub bytes : All IsByte o.output
  pub unfailed : o.failed ≡ false
  pub emptied : o.output_sent ≡ o.output_length → o.output_length ≡ 0

pub All-set : (n v : ℕ) (xs : List ℕ) → IsByte v → All IsByte xs → All IsByte (set xs n v)
All-set n v [] b a = tt
All-set zero v (x ∷ xs) b a = (b, a.1)
All-set (suc n) v (x ∷ xs) b a = (a.0, All-set n v xs b a.1)

pub All-get_or : (n : ℕ) (xs : List ℕ) → All IsByte xs → IsByte (get_or xs n 0)
All-get_or n [] a = omega arith
All-get_or zero (x ∷ xs) a = a.0
All-get_or (suc n) (x ∷ xs) a = All-get_or n xs a.1

pub words_of-IsByte : (xs : List ℕ) (from n : ℕ) → All IsByte xs → All IsByte (words_of xs from n)
unfolding words_of
words_of-IsByte xs from zero a = tt
words_of-IsByte xs from (suc n) a = (All-get_or from xs a, words_of-IsByte xs (from + 1) n a)

pub length-words_of : (xs : List ℕ) (from n : ℕ) → length (words_of xs from n) ≡ n
unfolding words_of
length-words_of xs from zero = refl
length-words_of xs from (suc n) = omega (arith, length-words_of xs (from + 1) n)

-- What an append that fits leaves, with how much is appended.
pub record IsLonger (o : Output) (n : ℕ) (after : Output) : Type 0 where
  pub valid : Delivery.IsValid after
  pub bytes : All IsByte after.output
  pub unfailed : after.failed ≡ false
  pub sent : after.output_sent ≡ o.output_sent
  pub longer : after.output_length ≡ o.output_length + n

append-IsLonger :
    (o : Output) (text : List ℕ)
    → Delivery.IsValid o
    → All IsByte o.output
    → o.failed ≡ false
    → All IsByte text
    → o.output_length + length text ≤ output_size
    → IsLonger o (length text) (append o text)
unfolding append
append-IsLonger o [] v a u b h = record {
  valid = v;
  bytes = a;
  unfailed = u;
  sent = refl;
  longer = omega arith;
}
append-IsLonger o (c ∷ text) v a u b h =
    let longer : Output = record o {
      output = set o.output o.output_length c;
      output_length = o.output_length + 1;
    } in
    let valid : Delivery.IsValid longer = record {
      storage = length-set o.output o.output_length c ∙ v.storage;
      length_in = omega arith;
      sent_in = omega (arith, v.sent_in);
    } in
    let room : ltb o.output_length output_size ≡ true = ground arith in
    let rest =
      append-IsLonger longer text valid (All-set o.output_length c o.output b.0 a) u b.1
        (omega arith) in
    rw room (record {
      valid = rest.valid;
      bytes = rest.bytes;
      unfailed = rest.unfailed;
      sent = rest.sent;
      longer = omega (arith, rest.longer);
    })

append_all-IsLonger :
    (o : Output) (texts : List (List ℕ))
    → Delivery.IsValid o
    → All IsByte o.output
    → o.failed ≡ false
    → All (All IsByte) texts
    → o.output_length + total texts ≤ output_size
    → IsLonger o (total texts) (append_all o texts)
unfolding append_all
append_all-IsLonger o [] v a u b h = record {
  valid = v;
  bytes = a;
  unfailed = u;
  sent = refl;
  longer = omega arith;
}
append_all-IsLonger o (text ∷ texts) v a u b h =
    let first = append-IsLonger o text v a u b.0 (omega arith) in
    let rest =
      append_all-IsLonger (append o text) texts first.valid first.bytes first.unfailed b.1
        (omega (arith, first.longer)) in
    record {
      valid = rest.valid;
      bytes = rest.bytes;
      unfailed = rest.unfailed;
      sent = rest.sent ∙ first.sent;
      longer = omega (arith, rest.longer, first.longer);
    }

-- A steady output of which nothing has been sent yet, and at most so much waits.
pub record IsFilled (n : ℕ) (o : Output) : Type 0 where
  pub steady : IsSteady o
  pub unsent : o.output_sent ≡ 0
  pub filled : o.output_length ≤ n

pub IsFilled-empty : (o : Output) → IsSteady o → o.output_length ≡ 0 → IsFilled 0 o
IsFilled-empty o i e = record {
  steady = i;
  unsent = omega (arith, i.valid.sent_in, e);
  filled = omega (arith, e);
}

pub append_all-IsFilled :
    {m n : ℕ} {o : Output} {texts : List (List ℕ)}
    → IsFilled m o
    → IsTexts n texts
    → m + n ≤ output_size
    → IsFilled (m + n) (append_all o texts)
append_all-IsFilled {m} {n} {o} {texts} i t h =
    let after =
      append_all-IsLonger o texts i.steady.valid i.steady.bytes i.steady.unfailed t.bytes
        (omega (arith, i.filled, t.short)) in
    record {
      steady = record {
        valid = after.valid;
        bytes = after.bytes;
        unfailed = after.unfailed;
        emptied = λ e. omega (arith, after.sent, i.unsent, e);
      };
      unsent = after.sent ∙ i.unsent;
      filled = omega (arith, after.longer, i.filled, t.short);
    }
