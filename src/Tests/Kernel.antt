-- ===== src/Tests/Kernel.antt =====
-- Interrupts, the timer and the page tables on small inputs.
use catch_os.Base.{◌≡◌, arith, ◌==◌, if◌then◌else◌, [], some, false, inl}
use catch_os.Interrupt.{Interrupts, IdtEntry, interrupt_register, interrupt_handler}
use catch_os.Interrupt.Gates.{then_ack, interrupt_handler-register}
use catch_os.Paging.{Paging, paging_map_table}
use catch_os.Paging.Tables.{Mapped, paging_map_table-Mapped}

abbrev gate : IdtEntry
gate = record {
  offset_low = 0;
  segment_selector = 0;
  reserved = 0;
  type_and_attr = 0;
  offset_high = 0;
}

abbrev at_boot : Interrupts
at_boot = record {
  idt_entries = λ _. gate;
  int_handler_table = λ _. 0;
  pic = record { pic1 = 0; pic2 = 0; out = [] };
  ioapic_is_initialized = false;
  calls = [];
}

-- Number 300 is unknown.
unknown_unchanged :
    interrupt_handler 300 (interrupt_register 33 77 at_boot) ≡ interrupt_register 33 77 at_boot
unknown_unchanged = (interrupt_handler-register 33 77 300 at_boot).1 (omega arith)

-- No handler is registered for number 40.
unhandled_acked :
    let t = interrupt_register 33 77 at_boot in
    (interrupt_handler 40 t).calls ≡ then_ack t.ioapic_is_initialized t.calls
unhandled_acked = (interrupt_handler-register 33 77 40 at_boot).0 (omega arith)

abbrev one_table : Paging
one_table = record {
  heap = record { mem = λ _. 0; heap_cur = 0x300000 };
  allocated_page_tables = λ i. if i == 1 then 0x200000 else 0;
  is_paging_enabled = false;
}

paging_map_table-Mapped_example :
    (t : Paging) × (paging_map_table 0xc0400000 0x400000 0x100000 one_table ≡ some t)
    × Mapped one_table 0xc0400000 0x400000 0x100000 0x200000 t
paging_map_table-Mapped_example =
    paging_map_table-Mapped one_table 0xc0400000 0x400000 0x100000 (omega arith) (inl (omega arith))
