-- ===== src/Serial/Queue.antt =====
-- The receive queue of lib/serial.c behaves as a list of bytes with a mark for loss.
use tcs.Prelude.{
  ℕ, zero, suc, ◌+◌, ◌-◌, ◌%◌, ◌≤◌, ◌<◌, ◌≡◌, ◌≢◌, refl, ap, ◌∙◌, Bool, true, false, ◌==◌,
  if◌then◌else◌, List, [], ◌∷◌, ◌++◌, length, get_or, set, length-set, get_or-set_self,
  get_or-set_ne, arith, Bool-cases, inl, inr,
}
use mathlib.Core.Path.{ap₂}
use native.Mathlib.Numerals.{add-one}
use tcs.Serial.{Rx, capacity, byte_flag, loss_flag, loss, put, receive, take}

pub record IsValid (rx : Rx) : Type 0 where
  pub storage : length rx.bytes ≡ capacity
  pub head_in : rx.head < capacity
  pub count_in : rx.count ≤ capacity

-- The `n` bytes from index `h` on, round the end of the array.
abbrev pub unroll : List ℕ → ℕ → ℕ → List ℕ
unroll bytes h zero = []
unroll bytes h (suc n) = get_or bytes h 0 ∷ unroll bytes ((h + 1) % capacity) n

-- What is queued, oldest first.
abbrev pub queued : Rx → List ℕ
queued rx = unroll rx.bytes rx.head rx.count

unroll-set :
    (bytes : List ℕ) (x n h i : ℕ)
    → length bytes ≡ capacity
    → h < capacity
    → n < capacity
    → i ≡ (h + n) % capacity
    → unroll (set bytes i x) h (suc n) ≡ unroll bytes h n ++ x ∷ []
unroll-set bytes x zero h i l b c e =
    ap (λ (y : ℕ). y ∷ [])
      (ap (λ (j : ℕ). get_or (set bytes i x) j 0) (omega arith)
        ∙ get_or-set_self bytes i x 0 (omega arith))
unroll-set bytes x (suc n) h i l b c e =
    ap₂ ◌∷◌ (get_or-set_ne bytes i h x 0 (omega arith))
      (unroll-set bytes x n ((h + 1) % capacity) i l (omega arith) (omega arith) (omega arith))

length-unroll : (bytes : List ℕ) (h n : ℕ) → length (unroll bytes h n) ≡ n
length-unroll bytes h zero = refl
length-unroll bytes h (suc n) = ap suc (length-unroll bytes ((h + 1) % capacity) n)

unroll-pos :
    (bytes : List ℕ) (h n : ℕ)
    → n ≢ 0
    → unroll bytes h n ≡ get_or bytes h 0 ∷ unroll bytes ((h + 1) % capacity) (n - 1)
unroll-pos bytes h zero p = absurd (p refl)
unroll-pos bytes h (suc n) p =
    ap (λ (k : ℕ). get_or bytes h 0 ∷ unroll bytes ((h + 1) % capacity) k) (omega arith)

nothing_queued : (rx : Rx) → rx.count ≡ 0 → queued rx ≡ []
nothing_queued rx h = rw h

-- The queue that the driver promises: at most `capacity` bytes, and whether any were lost since the
-- last take.
pub record Inbox : Type 0 where
  pub items : List ℕ
  pub gap : Bool

abbrev pub view : Rx → Inbox
view rx = record { items = queued rx; gap = rx.lost }

-- A byte is added at the end; where there is no room, all that came before is given up as lost.
unfoldable pub deliver : Inbox → ℕ → Inbox
deliver q x =
    if length q.items == capacity
    then record { items = x ∷ []; gap = true }
    else record { items = q.items ++ x ∷ []; gap = q.gap }

-- The oldest byte, with the marks for it and for a loss, which is reported once.
collect_items : List ℕ → Bool → ℕ × ℕ × Inbox
collect_items [] gap = (if gap then loss_flag else 0, 0, record { items = []; gap = false })
collect_items (x ∷ xs) gap =
    (byte_flag + (if gap then loss_flag else 0), x, record { items = xs; gap = false })

unfoldable pub collect : Inbox → ℕ × ℕ × Inbox
unfolding collect_items
collect q = collect_items q.items q.gap

-- `tcs_serial_receive` keeps the queue valid, writing inside the array, and does to its contents what
-- `deliver` does.
pub receive_refines :
    (rx : Rx) (x : ℕ)
    → IsValid rx
    → IsValid (receive rx x) × (view (receive rx x) ≡ deliver (view rx) x)
unfolding receive put loss deliver
receive_refines rx x v = elim (Bool-cases (rx.count == capacity)) [
  | inl full ↦ rw full (
      ground (
        arith,
        length-unroll rx.bytes rx.head rx.count,
        length-set rx.bytes 0 x,
        get_or-set_self rx.bytes 0 x 0,
      ))
  | inr room ↦
      rw (room, add-one)
        (ground (
          arith,
          length-unroll rx.bytes rx.head rx.count,
          length-set rx.bytes ((rx.head + rx.count) % capacity) x,
          unroll-set rx.bytes x rx.count rx.head ((rx.head + rx.count) % capacity),
        ))
]

-- `tcs_serial_take` keeps the queue valid, reading inside the array, and returns and leaves what
-- `collect` does.
pub take_refines :
    (rx : Rx)
    → IsValid rx
    → let (flags, byte, next) = take rx in
      IsValid next × ((flags, byte, view next) ≡ collect (view rx))
unfolding take collect
take_refines rx v = ground (arith, unroll-pos rx.bytes rx.head rx.count, nothing_queued rx)
