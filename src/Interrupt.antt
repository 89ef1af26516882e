-- ===== src/Interrupt.antt =====
-- kernel/interrupt/interrupt.c: the table of interrupt gates, the table of handlers, the dispatch.
pub mod Gates
use catch_os.Base.{
  ℕ, ◌+◌, ◌-◌, ◌/◌, ◌%◌, ◌^◌, ◌≤◌, Bool, true, false, ◌==◌, ◌||◌, leb, if◌then◌else◌, update, List,
  [], ◌∷◌, bit_and,
}
use catch_os.Drivers.{Writes}
use catch_os.Drivers.Pic.{Pic, pic_init, pic_enable_irq, pic_ack}

abbrev pub int_gpf : ℕ
int_gpf = 13

abbrev pub int_pagefault : ℕ
int_pagefault = 14

abbrev pub int_apic_spurious : ℕ
int_apic_spurious = 15

abbrev pub irq_redir_base : ℕ
irq_redir_base = 32

abbrev pub int_systime : ℕ
int_systime = 32

abbrev pub int_keyboard : ℕ
int_keyboard = 33

abbrev pub int_com1 : ℕ
int_com1 = 36

abbrev pub int_device_not_available : ℕ
int_device_not_available = 39

abbrev pub int_syscall : ℕ
int_syscall = 128

-- `struct idt_entry`
pub record IdtEntry : Type 0 where
  pub offset_low : ℕ
  pub segment_selector : ℕ
  pub reserved : ℕ
  pub type_and_attr : ℕ
  pub offset_high : ℕ

-- What the code does beyond its own tables, in calls of the two kinds of APIC.
pub data Call : Type 0 where
  ioapic_redirect_external_int : ℕ → ℕ → Call
  lapic_ack : Call
  isr : ℕ → Call

-- The tables, with 0 for a null function pointer, the PIC, whether the I/O APIC is in use, and the
-- calls, the latest first.
pub record Interrupts : Type 0 where
  pub idt_entries : ℕ → IdtEntry
  pub int_handler_table : ℕ → ℕ
  pub pic : Pic
  pub ioapic_is_initialized : Bool
  pub calls : List Call

unfoldable pub interrupt_encode_idt_entry : ℕ → ℕ → Interrupts → Interrupts
interrupt_encode_idt_entry interrupt_num f_ptr_handler s = record s {
  idt_entries = update s.idt_entries interrupt_num (record {
    offset_low = bit_and f_ptr_handler 0xffff % 2 ^ 16;
    offset_high = bit_and (f_ptr_handler / 2 ^ 16) 0xffff % 2 ^ 16;
    segment_selector = 0x8;
    reserved = 0x0;
    type_and_attr = 2 ^ 7 + 0xe;
  });
}

abbrev pub is_hw_irq : ℕ → Bool
is_hw_irq irq = irq == int_systime || irq == int_keyboard || irq == int_com1

unfoldable pub interrupt_register : ℕ → ℕ → Interrupts → Interrupts
interrupt_register irq handler s =
    let t = record s { int_handler_table = update s.int_handler_table irq handler } in
    if is_hw_irq irq
    then (if t.ioapic_is_initialized
        then record t { calls = ioapic_redirect_external_int (irq - irq_redir_base) 0 ∷ t.calls }
        else record t { pic = pic_enable_irq (irq - irq_redir_base) t.pic })
    else t

-- The addresses of the assembly entries and of the three handlers, from the linker.
pub record Entries : Type 0 where
  pub asm_int_handler : ℕ → ℕ
  pub isr_com1 : ℕ
  pub isr_gpf : ℕ
  pub isr_device_not_available : ℕ

unfoldable pub interrupt_init : Entries → Interrupts → Interrupts
interrupt_init e s =
    let s = record s { pic = pic_init s.pic } in
    let s = interrupt_encode_idt_entry int_gpf (e.asm_int_handler 13) s in
    let s = interrupt_encode_idt_entry int_pagefault (e.asm_int_handler 14) s in
    let s = interrupt_encode_idt_entry int_apic_spurious (e.asm_int_handler 15) s in
    let s = interrupt_encode_idt_entry int_systime (e.asm_int_handler 32) s in
    let s = interrupt_encode_idt_entry int_keyboard (e.asm_int_handler 33) s in
    let s = interrupt_encode_idt_entry int_com1 (e.asm_int_handler 36) s in
    let s = interrupt_encode_idt_entry int_device_not_available (e.asm_int_handler 39) s in
    let s = interrupt_encode_idt_entry int_syscall (e.asm_int_handler 128) s in
    let s = interrupt_register int_com1 e.isr_com1 s in
    let s = interrupt_register int_gpf e.isr_gpf s in
    interrupt_register int_device_not_available e.isr_device_not_available s

-- `interrupt_handler`: the acknowledgement, then the call of the registered handler.
unfoldable pub interrupt_handler : ℕ → Interrupts → Interrupts
interrupt_handler interrupt_num s =
    if leb 256 interrupt_num
    then s
    else let t : Interrupts =
        if s.ioapic_is_initialized
        then record s { calls = lapic_ack ∷ s.calls }
        else record s { pic = record s.pic { out = pic_ack interrupt_num s.pic.out } } in
      let handler = t.int_handler_table interrupt_num in
      if handler == 0 then t else record t { calls = isr handler ∷ t.calls }
