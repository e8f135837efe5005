-- ===== src/Admin/Replay.antt =====
-- The sequence numbers that lib/admin.c accepts over any history of packets and completions.
use tcs.Prelude.{
  ℕ, zero, suc, ◌+◌, ◌≤◌, ◌≡◌, ◌≢◌, ◌⊎◌, inl, inr, refl, ap, subst, ◌∙◌, true, false, List, [], ◌∷◌,
  length, All, Option, u64_max, arith,
}
use tcs.Admin.{consume, admit, complete}
use tcs.Admin.Types.{AdminStatus, accepted, Admin}
use tcs.Admin.Admission.{admit_lem}

-- One call on the administrator.
pub data Call : Type 0 where
  submit : Option (List ℕ) → ℕ → Call
  finish : ℕ → Call

-- `n` numbers from `first` on.
unfoldable pub count_from : ℕ → ℕ → List ℕ
count_from first zero = []
count_from first (suc n) = first ∷ count_from (first + 1) n

abbrev logged : AdminStatus → ℕ → List ℕ → List ℕ
logged accepted sequence log = sequence ∷ log
logged _ sequence log = log

-- The sequence numbers of the commands that are accepted, in order.
unfoldable pub accepted_in : (List ℕ → List ℕ → List ℕ → ℕ → ℕ) → Admin → List Call → List ℕ
accepted_in check a [] = []
accepted_in check a (submit packet size ∷ ks) =
    let (next, status, command) = admit check a packet size in
    logged status command.sequence (accepted_in check next ks)
accepted_in check a (finish sequence ∷ ks) = accepted_in check (complete a sequence).0 ks

-- The next sequence number is a `uint64_t`, and the last one is used once.
abbrev pub IsCounting : Admin → Type 0
IsCounting a = a.next_sequence ≤ u64_max

complete_lem :
    (a : Admin) (sequence : ℕ)
    → ((complete a sequence).0.next_sequence ≡ a.next_sequence)
      × ((complete a sequence).0.exhausted ≡ a.exhausted)
unfolding complete
complete_lem a sequence = ground arith

consume_lem :
    (a : Admin)
    → IsCounting a
    → a.exhausted ≡ false
    → let next = consume a a.next_sequence in
      IsCounting next
      × ((next.exhausted ≡ true)
          ⊎ ((next.exhausted ≡ false) × (next.next_sequence ≡ a.next_sequence + 1)))
consume_lem a c e = ground arith

logged-refused :
    (status : AdminStatus) (sequence : ℕ) (log : List ℕ)
    → status ≢ accepted
    → logged status sequence log ≡ log
logged-refused status sequence log n = ground arith

logged-accepted :
    (status : AdminStatus) (sequence s : ℕ) (log l : List ℕ)
    → status ≡ accepted
    → sequence ≡ s
    → log ≡ l
    → logged status sequence log ≡ s ∷ l
logged-accepted status sequence s log l e f g = rw (e, f, g) refl

-- A log that goes on from `first`.
abbrev pub IsSequence : ℕ → List ℕ → Type 0
IsSequence first log = (log ≡ count_from first (length log)) × All (λ s. s ≤ u64_max) log

IsSequence-none : (first : ℕ) → IsSequence first []
unfolding count_from
IsSequence-none first = (refl, tt)

IsSequence-last : (first : ℕ) → first ≤ u64_max → IsSequence first (first ∷ [])
unfolding count_from
IsSequence-last first h = (refl, (h, tt))

IsSequence-next :
    (first : ℕ) (log : List ℕ)
    → first ≤ u64_max
    → IsSequence (first + 1) log
    → IsSequence first (first ∷ log)
unfolding count_from
IsSequence-next first log h (e, a) = (ap (λ l. first ∷ l) e, (h, a))

module _ (crypto_ed25519_check : List ℕ → List ℕ → List ℕ → ℕ → ℕ) where
  abbrev accepts : Admin → List Call → List ℕ
  accepts = accepted_in crypto_ed25519_check

  submit_step :
      (a : Admin) (packet : Option (List ℕ)) (size : ℕ) (ks : List Call)
      → (accepts a (submit packet size ∷ ks) ≡ accepts a ks)
        ⊎ ((a.exhausted ≡ false)
            × (accepts a (submit packet size ∷ ks)
                ≡ a.next_sequence ∷ accepts (consume a a.next_sequence) ks))
  unfolding accepted_in
  submit_step a packet size ks = elim (admit_lem crypto_ed25519_check a packet size) [
    | inl (n, same, _) ↦ inl (logged-refused _ _ _ n ∙ ap (λ x. accepts x ks) same)
    | inr (ok, after, order, o, _, _) ↦ inr (
      o,
      logged-accepted _ _ _ _ _ ok order
          (ap (λ x. accepts x ks) (after ∙ ap (λ s. consume a s) order)),
    )
  ]

  none_step : (a : Admin) → accepts a [] ≡ []
  unfolding accepted_in
  none_step a = refl

  finish_step :
      (a : Admin) (sequence : ℕ) (ks : List Call)
      → accepts a (finish sequence ∷ ks) ≡ accepts (complete a sequence).0 ks
  unfolding accepted_in
  finish_step a sequence ks = refl

  closed : (a : Admin) (ks : List Call) → a.exhausted ≡ true → accepts a ks ≡ []
  unfolding accepted_in
  closed a [] e = refl
  closed a (submit packet size ∷ ks) e = elim (submit_step a packet size ks) [
    | inl same ↦ same ∙ closed a ks e
    | inr (o, _) ↦ absurd (ground arith)
  ]
  closed a (finish sequence ∷ ks) e =
      closed (complete a sequence).0 ks ((complete_lem a sequence).1 ∙ e)

  -- Whatever packets and completions come, the sequence numbers of the accepted commands are the
  -- next one and its successors, each once and in order: no replay, no gap, and no wrap at the last
  -- one.
  pub accepted_in_order :
      (a : Admin) (ks : List Call)
      → IsCounting a
      → IsSequence a.next_sequence (accepted_in crypto_ed25519_check a ks)
  accepted_in_order a [] c = rw (none_step a) (IsSequence-none a.next_sequence)
  accepted_in_order a (submit packet size ∷ ks) c = elim (submit_step a packet size ks) [
    | inl same ↦ rw same (accepted_in_order a ks c)
    | inr (o, taken) ↦
        let next = consume a a.next_sequence in
        let (counting, more) = consume_lem a c o in
        rw taken (elim more [
          | inl last ↦ rw (closed next ks last) (IsSequence-last a.next_sequence c)
          | inr (_, n) ↦ IsSequence-next a.next_sequence (accepts next ks) c (
              subst (λ (s : ℕ). IsSequence s (accepts next ks)) n
                (accepted_in_order next ks counting))
        ])
  ]
  accepted_in_order a (finish sequence ∷ ks) c =
      let next = (complete a sequence).0 in
      let kept = (complete_lem a sequence).0 in
      rw (finish_step a sequence ks) (
        subst (λ (s : ℕ). IsSequence s (accepts next ks)) kept
          (accepted_in_order next ks (omega arith)))
