-- ===== src/Interrupt/Gates.antt =====
-- What `interrupt_init` sets up: the gates, and the lines that the PIC lets through.
use catch_os.Base.{
  ℕ, ◌<◌, ◌≡◌, refl, ap, ◌∙◌, arith, leb, Bool-cases, inl, inr, ◌==◌, if◌then◌else◌, false, List,
  [], ◌∷◌, ◌≤◌, Bool,
}
use catch_os.Drivers.Pic.Masks.{masked, enable_all-masked}
use catch_os.Interrupt.{
  Interrupts, Entries, interrupt_init, interrupt_register, interrupt_encode_idt_entry,
  interrupt_handler, Call, isr, lapic_ack,
}

-- Before the I/O APIC is in use, after `interrupt_init` the PIC lets through the line of the first
-- serial port, 4, and no other of the sixteen.
interrupt_init-masked :
    (e : Entries) (s : Interrupts) (i : ℕ)
    → s.ioapic_is_initialized ≡ false
    → i < 16
    → masked (interrupt_init e s).pic i ≡ (if i == 4 then 0 else 1)
unfolding interrupt_init interrupt_register interrupt_encode_idt_entry
interrupt_init-masked e s i off lt =
    let m = enable_all-masked (4 ∷ []) s.pic i lt in rw off (m ∙ ground arith)

-- The calls with the handler's behind them, unless it is null.
abbrev pub then_handler : ℕ → List Call → List Call
then_handler handler cs = if handler == 0 then cs else isr handler ∷ cs

-- The calls with the acknowledgement to the local APIC, which the PIC's stands in for before the
-- I/O APIC is in use.
abbrev pub then_ack : Bool → List Call → List Call
then_ack ioapic cs = if ioapic then lapic_ack ∷ cs else cs

handler-called :
    (n : ℕ) (t : Interrupts)
    → n < 256
    → (interrupt_handler n t).calls
      ≡ then_handler (t.int_handler_table n) (then_ack t.ioapic_is_initialized t.calls)
unfolding interrupt_handler
handler-called n t lt =
    let small : leb 256 n ≡ false = ground arith in
    rw small (elim (Bool-cases t.ioapic_is_initialized) [
      | inl e ↦
          rw e (elim (Bool-cases (t.int_handler_table n == 0)) [
            | inl h ↦ rw h refl
            | inr h ↦ rw h refl
          ])
      | inr e ↦
          rw e (elim (Bool-cases (t.int_handler_table n == 0)) [
            | inl h ↦ rw h refl
            | inr h ↦ rw h refl
          ])
    ])

register-table :
    (irq handler n : ℕ) (s : Interrupts)
    → (interrupt_register irq handler s).int_handler_table n
      ≡ (if n == irq then handler else s.int_handler_table n)
unfolding interrupt_register
register-table irq handler n s = ground arith

pub interrupt_handler-register :
    (irq handler n : ℕ) (s : Interrupts)
    → let t = interrupt_register irq handler s in
      (n < 256
        → (interrupt_handler n t).calls
          ≡ then_handler
              (if n == irq then handler else s.int_handler_table n)
              (then_ack t.ioapic_is_initialized t.calls))
      × (256 ≤ n → interrupt_handler n t ≡ t)
interrupt_handler-register irq handler n s =
    let e = register-table irq handler n s in
    let t = interrupt_register irq handler s in
    (
      λ lt.
          handler-called n t lt
          ∙ ap (λ h. then_handler h (then_ack t.ioapic_is_initialized t.calls)) e,
      λ le. unfold interrupt_handler in ground arith,
    )
