-- ===== src/Drivers/IoApic.antt =====
-- kernel/drivers/ioapic.c: the redirection of interrupt lines to CPUs, by the words written to the
-- registers of the I/O APIC. The semaphore of the driver is the one of kernel/tasks/sem.c.
pub mod Redirect
use catch_os.Base.{
  ℕ, zero, suc, ◌+◌, ◌*◌, ◌/◌, ◌%◌, ◌^◌, Option, none, some, List, [], ◌∷◌, ltb, if◌then◌else◌,
  Bool, true, false, pos,
}
use catch_os.Tasks.Semaphore.{SemState, sem_init, sem_wait, sem_signal}
use catch_os.Acpi.Madt.{MadtInfo}
use catch_os.Interrupt.{irq_redir_base}

abbrev pub ioapic_regwin : ℕ
ioapic_regwin = 0x10

abbrev pub ioapic_external_irq_base : ℕ
ioapic_external_irq_base = 0x10

-- `union ioapic_redir_entry`
pub record RedirEntry : Type 0 where
  pub vector : ℕ
  pub delivery_mode : ℕ
  pub dest_mode : ℕ
  pub delivery_stat : ℕ
  pub pin_polarity : ℕ
  pub trigger_irr : ℕ
  pub trigger_mode : ℕ
  pub disabled : ℕ
  pub reserved : ℕ
  pub dest : ℕ

-- The 64 bits of the union, and their halves.
abbrev pub entry_bits : RedirEntry → ℕ
entry_bits e =
    e.vector % 2 ^ 8
    + 2 ^ 8 * (e.delivery_mode % 2 ^ 3)
    + 2 ^ 11 * (e.dest_mode % 2)
    + 2 ^ 12 * (e.delivery_stat % 2)
    + 2 ^ 13 * (e.pin_polarity % 2)
    + 2 ^ 14 * (e.trigger_irr % 2)
    + 2 ^ 15 * (e.trigger_mode % 2)
    + 2 ^ 16 * (e.disabled % 2)
    + 2 ^ 17 * (e.reserved % 2 ^ 39)
    + 2 ^ 56 * (e.dest % 2 ^ 8)

abbrev pub low : RedirEntry → ℕ
low e = entry_bits e % 2 ^ 32

abbrev pub high : RedirEntry → ℕ
high e = entry_bits e / 2 ^ 32

-- `out` has the writes to memory-mapped registers, the latest first.
pub record IoApic : Type 0 where
  pub lapic_base : ℕ
  pub is_initialized : Bool
  pub ioapic_sem : SemState
  pub out : List (ℕ × ℕ)

-- `f` is fuel for the semaphore.
unfoldable pub ioapic_write_reg : ℕ → ℕ → ℕ → ℕ → ℕ → IoApic → Option IoApic
ioapic_write_reg f cpu apic_base reg_index value s = elim (sem_wait f cpu s.ioapic_sem) [
  | none ↦ none
  | some waited ↦ elim (sem_signal f waited) [
    | none ↦ none
    | some signalled ↦ some (record s {
      ioapic_sem = signalled;
      out = (apic_base + ioapic_regwin, value) ∷ (apic_base, reg_index) ∷ s.out;
    })
  ]
]

-- `reading` is what the device gives.
unfoldable pub ioapic_read_reg : ℕ → ℕ → ℕ → ℕ → ℕ → IoApic → Option (ℕ × IoApic)
ioapic_read_reg f cpu apic_base reg_index reading s = elim (sem_wait f cpu s.ioapic_sem) [
  | none ↦ none
  | some waited ↦ elim (sem_signal f waited) [
    | none ↦ none
    | some signalled ↦
        some (reading, record s { ioapic_sem = signalled; out = (apic_base, reg_index) ∷ s.out })
  ]
]

-- The line of an interrupt: an override of the table is added to it.
abbrev pub line_of : MadtInfo → ℕ → ℕ
line_of madt_info irq =
    if ltb 0 (madt_info.irq_override irq) then (irq + madt_info.irq_override irq) % 2 ^ 8 else irq

abbrev pub redir_entry : ℕ → ℕ → RedirEntry
redir_entry irq dest_lapic = record {
  vector = (irq + irq_redir_base) % 2 ^ 8;
  delivery_mode = 0;
  dest_mode = 0;
  delivery_stat = 0;
  pin_polarity = 0;
  trigger_irr = 0;
  trigger_mode = 0;
  disabled = 0;
  reserved = 0;
  dest = dest_lapic;
}

unfoldable pub ioapic_redirect_external_int : ℕ → ℕ → MadtInfo → ℕ → ℕ → IoApic → Option IoApic
ioapic_redirect_external_int f cpu madt_info irq dest_lapic s =
    let entry = redir_entry irq dest_lapic in
    let index = ioapic_external_irq_base + line_of madt_info irq * 2 in
    elim (ioapic_write_reg f cpu s.lapic_base index (low entry) s) [
      | none ↦ none
      | some t ↦ ioapic_write_reg f cpu t.lapic_base (index + 1) (high entry) t
    ]

-- The number of pins is only logged.
unfoldable pub ioapic_init : ℕ → ℕ → ℕ → ℕ → IoApic → Option IoApic
ioapic_init f cpu apic_base reading s =
    let t : IoApic = record s { ioapic_sem = record s.ioapic_sem { sem = sem_init (pos 1) } } in
    elim (ioapic_read_reg f cpu apic_base 1 reading t) [
      | none ↦ none
      | some (ver, u) ↦ some (record u { lapic_base = apic_base; is_initialized = true })
    ]
