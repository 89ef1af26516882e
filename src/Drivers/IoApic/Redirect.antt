-- ===== src/Drivers/IoApic/Redirect.antt =====
-- What a redirection writes to the I/O APIC.
use catch_os.Base.{
  ℕ, ◌+◌, ◌*◌, ◌%◌, ◌<◌, ◌^◌, ◌≡◌, refl, sym, ap, ◌∙◌, arith, none, some, List, [], ◌∷◌, ◌==◌, null,
  true, pos, negsuc, ◌+ℤ◌, ◌-ℤ◌, ltb_ℤ,
}
use catch_os.Queue.{queue_pop}
use catch_os.Tasks.Semaphore.{SemState, sem_wait, sem_take, sem_signal}
use catch_os.Acpi.Madt.{MadtInfo}
use catch_os.Interrupt.{irq_redir_base}
use catch_os.Drivers.IoApic.{
  IoApic, redir_entry, low, high, line_of, ioapic_write_reg, ioapic_redirect_external_int,
}

-- The semaphore is free and no task waits at it.
abbrev pub IsFree : SemState → Type 0
IsFree s = (s.sem.count ≡ pos 1) × (s.sem.task_queue.head ≡ null)

pop_none :
    (f : ℕ) (s : SemState)
    → s.sem.task_queue.head ≡ null
    → queue_pop f s.sem.task_queue 4 s.heap ≡ some ((negsuc 0, [], s.sem.task_queue), s.heap)
unfolding queue_pop
pop_none f s empty =
    let e : (s.sem.task_queue.head == null) ≡ true = ground arith in rw (queue_pop, e) refl

down_up : (s : SemState) → s.sem.count ≡ pos 1 → s.sem.count -ℤ pos 1 +ℤ pos 1 ≡ s.sem.count
unfolding ◌-ℤ◌ ◌+ℤ◌
down_up s one = ap (λ c. c -ℤ pos 1 +ℤ pos 1) one ∙ sym one

wait_signal :
    (f cpu : ℕ) (s : SemState)
    → IsFree s
    → (sem_wait f cpu s ≡ some (sem_take s)) × (sem_signal f (sem_take s) ≡ some s)
unfolding sem_wait sem_signal
wait_signal f cpu s (one, empty) =
    let e : ltb_ℤ (pos 0) s.sem.count ≡ true = ap (λ c. ltb_ℤ (pos 0) c) one in
    (
      rw (sem_wait, e) refl,
      rw (sem_signal, pop_none f s empty)
          (ap (λ c. some (record s { sem = record { count = c; task_queue = s.sem.task_queue } }))
            (down_up s one)),
    )

write_reg-ok :
    (f cpu base index value : ℕ) (s : IoApic)
    → IsFree s.ioapic_sem
    → ioapic_write_reg f cpu base index value s
      ≡ some (record s { out = (base + 0x10, value) ∷ (base, index) ∷ s.out })
unfolding ioapic_write_reg
write_reg-ok f cpu base index value s free =
    let (waits, signals) = wait_signal f cpu s.ioapic_sem free in
    rw (ioapic_write_reg, waits, signals) refl

-- The two halves of an entry say what the entry says.
pub redir_entry-halves :
    (irq dest : ℕ)
    → irq + irq_redir_base < 2 ^ 8
    → dest < 2 ^ 8
    → (low (redir_entry irq dest) ≡ irq + irq_redir_base)
      × (high (redir_entry irq dest) ≡ 2 ^ 24 * dest)
redir_entry-halves irq dest lt lt2 = (omega arith, omega arith)

-- The line that an interrupt is redirected at, by the table of the MADT: where the table has no
-- override, the interrupt is its own line, and otherwise the override is added, in 8 bits.
pub data IsLine (info : MadtInfo) (irq : ℕ) : ℕ → Type 0 where
  same : {line : ℕ} → info.irq_override irq ≡ 0 → line ≡ irq → IsLine info irq line
  overridden :
      {line : ℕ} (override : ℕ)
      → info.irq_override irq ≡ override
      → 0 < override
      → line ≡ (override + irq) % 2 ^ 8
      → IsLine info irq line

IsLine-line_of : (info : MadtInfo) (irq line : ℕ) → IsLine info irq line → line_of info irq ≡ line
IsLine-line_of info irq line (same e at) = ground (arith, e, at)
IsLine-line_of info irq line (overridden override e lt at) = ground (arith, e, lt, at)

-- The writes for one entry, the latest first.
abbrev pub entry_writes : ℕ → ℕ → ℕ → ℕ → List (ℕ × ℕ) → List (ℕ × ℕ)
entry_writes base line lo hi out =
    (base + 0x10, hi)
    ∷ (base, 0x10 + line * 2 + 1)
    ∷ (base + 0x10, lo)
    ∷ (base, 0x10 + line * 2)
    ∷ out

-- While the semaphore of the driver is free, for a vector and a destination of 8 bits,
-- `ioapic_redirect_external_int` returns and leaves the semaphore free. It has written the two
-- halves of the entry of the line: the low one is the vector, all modes 0 and not disabled, and
-- the high one has the destination in its top byte. The line is the interrupt itself where the
-- MADT has no override for it, and otherwise the sum of the interrupt and the override in 8 bits.
pub redirect-written :
    (f cpu irq line dest : ℕ) (info : MadtInfo) (s : IoApic)
    → IsLine info irq line
    → IsFree s.ioapic_sem
    → irq + irq_redir_base < 2 ^ 8
    → dest < 2 ^ 8
    → ioapic_redirect_external_int f cpu info irq dest s
      ≡ some (record s {
        out = entry_writes s.lapic_base line (irq + irq_redir_base) (2 ^ 24 * dest) s.out;
      })
unfolding ioapic_redirect_external_int
redirect-written f cpu irq line dest info s at free lt lt2 =
    let is_line = IsLine-line_of info irq line at in
    rw (← is_line) (
      let (l, h) = redir_entry-halves irq dest lt lt2 in
      let e = redir_entry irq dest in
      let index = 0x10 + line_of info irq * 2 in
      let first = write_reg-ok f cpu s.lapic_base index (low e) s free in
      let t : IoApic = record s {
        out = (s.lapic_base + 0x10, low e) ∷ (s.lapic_base, index) ∷ s.out;
      } in
      let second = write_reg-ok f cpu s.lapic_base (index + 1) (high e) t free in
      ap
        (λ r. elim r [
          | none ↦ none
          | some u ↦ ioapic_write_reg f cpu u.lapic_base (index + 1) (high e) u
        ])
        first
      ∙ second
      ∙ ap
          (λ v.
            some (record s { out = entry_writes s.lapic_base (line_of info irq) v (high e) s.out }))
          l
      ∙ ap
          (λ v. some (record s {
            out = entry_writes s.lapic_base (line_of info irq) (irq + irq_redir_base) v s.out;
          }))
          h)
