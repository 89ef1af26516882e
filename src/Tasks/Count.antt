-- ===== src/Tasks/Count.antt =====
-- Occupied slots of the task list, counted, and the search for a free one.
use catch_os.Base.{ℕ, zero, suc, ◌+◌, ◌≤◌, ◌<◌, ◌≡◌, ◌≢◌, refl, arith, ◌==◌, if◌then◌else◌}
use catch_os.Base.{null, update, Option, none, some, inl, inr, Bool-cases}
use catch_os.Tasks.Create.{find_slot}

abbrev occupied : ℕ → ℕ
occupied p = if p == null then 0 else 1

-- How many of the first `n` slots hold a task.
unfoldable pub count_slots : (ℕ → ℕ) → ℕ → ℕ
count_slots tasks zero = 0
count_slots tasks (suc n) = count_slots tasks n + occupied (tasks n)

pub count_slots-le : (tasks : ℕ → ℕ) (n : ℕ) → count_slots tasks n ≤ n
unfolding count_slots
count_slots-le tasks zero = omega arith
count_slots-le tasks (suc n) = ground (arith, count_slots-le tasks n)

module _ (tasks : ℕ → ℕ) (k v : ℕ) where
  count_slots-update_above :
      (n : ℕ) → n ≤ k → count_slots (update tasks k v) n ≡ count_slots tasks n
  unfolding count_slots
  count_slots-update_above zero h = refl
  count_slots-update_above (suc n) h = ground (arith, count_slots-update_above n (omega arith))

  -- Writing one slot changes the count by what the slot held and holds.
  pub count_slots-update :
      (n : ℕ)
      → k < n
      → count_slots (update tasks k v) n + occupied (tasks k) ≡ count_slots tasks n + occupied v
  unfolding count_slots
  count_slots-update zero h = absurd (omega arith)
  count_slots-update (suc n) h = elim (Bool-cases (n == k)) [
    | inl e ↦ ground (arith, count_slots-update_above n (ground arith))
    | inr e ↦ ground (arith, count_slots-update n (ground arith))
  ]

pub count_slots-full :
    (tasks : ℕ → ℕ) (n : ℕ) → ((i : ℕ) → i < n → tasks i ≢ null) → count_slots tasks n ≡ n
unfolding count_slots
count_slots-full tasks zero h = refl
count_slots-full tasks (suc n) h =
    ground (arith, h n, count_slots-full tasks n (λ i lt. h i (omega arith)))

pub count_slots-lt : (tasks : ℕ → ℕ) (n k : ℕ) → k < n → tasks k ≡ null → count_slots tasks n < n
unfolding count_slots
count_slots-lt tasks zero k h e = absurd (omega arith)
count_slots-lt tasks (suc n) k h e = elim (Bool-cases (k == n)) [
  | inl f ↦ ground (arith, count_slots-le tasks n)
  | inr f ↦ ground (arith, count_slots-lt tasks n k)
]

-- What the search for a free slot among the `n` from `i` on returns.
abbrev pub FreeSlot : (ℕ → ℕ) → ℕ → ℕ → Option ℕ → Type 0
FreeSlot tasks n i none = (j : ℕ) → i ≤ j → j < i + n → tasks j ≢ null
FreeSlot tasks n i (some k) =
    (i ≤ k) × (k < i + n) × (tasks k ≡ null) × ((j : ℕ) → i ≤ j → j < k → tasks j ≢ null)

FreeSlot-later :
    (tasks : ℕ → ℕ) (n i : ℕ) (o : Option ℕ)
    → tasks i ≢ null
    → FreeSlot tasks n (i + 1) o
    → FreeSlot tasks (suc n) i o
FreeSlot-later tasks n i none ne h = λ j le lt. elim (Bool-cases (j == i)) [
  | inl e ↦ ground arith
  | inr e ↦ h j (ground arith) (omega arith)
]
FreeSlot-later tasks n i (some k) ne h = (
  omega arith,
  omega arith,
  h.2,
  λ j le lt. elim (Bool-cases (j == i)) [ inl e ↦ ground arith | inr e ↦ h.3 j (ground arith) lt ],
)

pub find_slot-FreeSlot : (tasks : ℕ → ℕ) (n i : ℕ) → FreeSlot tasks n i (find_slot tasks n i)
unfolding find_slot
find_slot-FreeSlot tasks zero i = λ j le lt. absurd (omega arith)
find_slot-FreeSlot tasks (suc n) i = elim (Bool-cases (tasks i == null)) [
  | inl e ↦ rw e (omega arith, omega arith, ground arith, λ j le lt. absurd (omega arith))
  | inr e ↦ rw e (FreeSlot-later tasks n i _ (ground arith) (find_slot-FreeSlot tasks n (i + 1)))
]
