-- ===== src/Acpi/Madt/Layout.antt =====
-- A table of the interrupt controllers as a list of entries laid out in memory.
use catch_os.Base.{
  ℕ, zero, suc, ◌+◌, ◌%◌, ◌^◌, ◌<◌, ◌≤◌, ◌≡◌, refl, arith, Mem, update, update_self, update_ne,
  ◌==◌, if◌then◌else◌, List, [], ◌∷◌, ◌++◌,
}
use catch_os.Base.Words.{load32}

pub data Entry : Type 0 where
  local_apic : ℕ → ℕ → Entry
  io_apic : ℕ → ℕ → ℕ → Entry
  source_override : ℕ → ℕ → Entry
  other : ℕ → Entry

-- The entry stands at `p`: its type and the fields that count.
abbrev pub Stands : Mem → ℕ → Entry → Type 0
Stands mem p (local_apic id apic) = (mem p ≡ 0) × (mem (p + 2) ≡ id) × (mem (p + 3) ≡ apic)
Stands mem p (io_apic id addr base) =
    (mem p ≡ 1) × (mem (p + 2) ≡ id) × (load32 mem (p + 4) ≡ addr) × (load32 mem (p + 8) ≡ base)
Stands mem p (source_override src mapped) =
    (mem p ≡ 2) × (mem (p + 3) ≡ src) × (load32 mem (p + 4) ≡ mapped)
Stands mem p (other type) = (mem p ≡ type) × (2 < type)

-- The entries fill the table from `p` up to `end`, each as long as it says.
abbrev pub Entries : Mem → ℕ → ℕ → List Entry → Type 0
Entries mem p end [] = p ≡ end
Entries mem p end (e ∷ es) =
    Stands mem p e
    × (0 < mem (p + 1))
    × (p + mem (p + 1) ≤ end)
    × Entries mem (p + mem (p + 1)) end es

-- The processors, as their ids and the ids of their local APICs.
abbrev pub processors : List Entry → List (ℕ × ℕ)
processors [] = []
processors (local_apic id apic ∷ es) = (id, apic) ∷ processors es
processors (io_apic id addr base ∷ es) = processors es
processors (source_override src mapped ∷ es) = processors es
processors (other type ∷ es) = processors es

abbrev pub io_apics : List Entry → List (ℕ × ℕ × ℕ)
io_apics [] = []
io_apics (local_apic id apic ∷ es) = io_apics es
io_apics (io_apic id addr base ∷ es) = (id, addr, base) ∷ io_apics es
io_apics (source_override src mapped ∷ es) = io_apics es
io_apics (other type ∷ es) = io_apics es

-- The line that the last override names for `irq`, where none does so `line`.
abbrev pub overridden : List Entry → ℕ → ℕ → ℕ
overridden [] irq line = line
overridden (local_apic id apic ∷ es) irq line = overridden es irq line
overridden (io_apic id addr base ∷ es) irq line = overridden es irq line
overridden (source_override src mapped ∷ es) irq line =
    overridden es irq (if src == mapped then line else if irq == src then mapped % 2 ^ 8 else line)
overridden (other type ∷ es) irq line = overridden es irq line

-- The overrides are of the 24 lines that have a place.
abbrev pub Legacy : List Entry → Type 0
Legacy [] = Unit
Legacy (local_apic id apic ∷ es) = Legacy es
Legacy (io_apic id addr base ∷ es) = Legacy es
Legacy (source_override src mapped ∷ es) = (src < 24) × Legacy es
Legacy (other type ∷ es) = Legacy es

-- The first `n` items of two arrays in step.
abbrev pub pairs_in : (ℕ → ℕ) → (ℕ → ℕ) → ℕ → List (ℕ × ℕ)
pairs_in xs ys zero = []
pairs_in xs ys (suc n) = pairs_in xs ys n ++ (xs n, ys n) ∷ []

abbrev pub triples_in : (ℕ → ℕ) → (ℕ → ℕ) → (ℕ → ℕ) → ℕ → List (ℕ × ℕ × ℕ)
triples_in xs ys zs zero = []
triples_in xs ys zs (suc n) = triples_in xs ys zs n ++ (xs n, ys n, zs n) ∷ []

pairs-beyond :
    (xs ys : ℕ → ℕ) (m n v w : ℕ)
    → n ≤ m
    → pairs_in (update xs m v) (update ys m w) n ≡ pairs_in xs ys n
pairs-beyond xs ys m zero v w le = refl
pairs-beyond xs ys m (suc n) v w le =
    rw
      (
        pairs-beyond xs ys m n v w (omega arith),
        update_ne xs m v n (omega arith),
        update_ne ys m w n (omega arith),
      )
      refl

triples-beyond :
    (xs ys zs : ℕ → ℕ) (m n v w u : ℕ)
    → n ≤ m
    → triples_in (update xs m v) (update ys m w) (update zs m u) n ≡ triples_in xs ys zs n
triples-beyond xs ys zs m zero v w u le = refl
triples-beyond xs ys zs m (suc n) v w u le =
    rw
      (
        triples-beyond xs ys zs m n v w u (omega arith),
        update_ne xs m v n (omega arith),
        update_ne ys m w n (omega arith),
        update_ne zs m u n (omega arith),
      )
      refl

pub pairs-next :
    (xs ys : ℕ → ℕ) (m v w : ℕ)
    → pairs_in (update xs m v) (update ys m w) (suc m) ≡ pairs_in xs ys m ++ (v, w) ∷ []
pairs-next xs ys m v w =
    rw (pairs-beyond xs ys m m v w (omega arith), update_self xs m v, update_self ys m w) refl

pub triples-next :
    (xs ys zs : ℕ → ℕ) (m v w u : ℕ)
    → triples_in (update xs m v) (update ys m w) (update zs m u) (suc m)
      ≡ triples_in xs ys zs m ++ (v, w, u) ∷ []
triples-next xs ys zs m v w u =
    rw
      (
        triples-beyond xs ys zs m m v w u (omega arith),
        update_self xs m v,
        update_self ys m w,
        update_self zs m u,
      )
      refl
