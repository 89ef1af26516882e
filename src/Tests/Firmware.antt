-- ===== src/Tests/Firmware.antt =====
-- A table of the interrupt controllers with a processor, an I/O APIC and an override.
use catch_os.Base.{some, true, ℕ, ◌≡◌, ◌≢◌, ◌-◌, refl, arith, List, [], ◌∷◌, Mem, array}
use catch_os.Acpi.Madt.{MadtInfo, madt_parse, parsed, out_of_fuel}
use catch_os.Acpi.Madt.Layout.{Entry, local_apic, io_apic, source_override}
use catch_os.Tests.Tables.{one_pair, small_table, slots, small_table-IsTable, next_two-Fresh}
use catch_os.Acpi.{Acpi, sdt_checksum_ok, insert_sdt, acpi_get_sdt_from_sig}
use catch_os.Base.{if◌then◌else◌, ◌==◌, ◌^◌, ltb}
use catch_os.Power.{Power, shutdown_at, outw, shutdown_at-typeless}
use catch_os.Acpi.Signature.{insert_sdt-found}
use catch_os.Boot.{MultibootInfo, multiboot_info_init, walked}
use catch_os.Boot.Tags.{mmap_tag, meminfo_tag, acpi_tag}
use catch_os.Boot.Record.{multiboot_info_init-Recorded}
use catch_os.Boot
use catch_os.Acpi.Madt.Ends.{madt_parse-ends}
use catch_os.Acpi.Madt.Parse.{Recorded, Room, madt_parse-Recorded}

abbrev words : List ℕ
words =
    0 ∷ 0 ∷ 0 ∷ 0 ∷ 74 ∷ 0 ∷ 0 ∷ 0 ∷ 0 ∷ 0 ∷ 0 ∷ 0 ∷ 0 ∷ 0 ∷ 0 ∷ 0 ∷ 0 ∷ 0 ∷ 0 ∷ 0 ∷ 0 ∷ 0 ∷ 0 ∷ 0
    ∷ 0 ∷ 0 ∷ 0 ∷ 0 ∷ 0 ∷ 0 ∷ 0 ∷ 0 ∷ 0 ∷ 0 ∷ 0 ∷ 0 ∷ 0 ∷ 0 ∷ 224 ∷ 254 ∷ 0 ∷ 0 ∷ 0 ∷ 0 ∷ 0 ∷ 8 ∷ 3
    ∷ 7 ∷ 1 ∷ 0 ∷ 0 ∷ 0 ∷ 1 ∷ 12 ∷ 5 ∷ 0 ∷ 0 ∷ 0 ∷ 192 ∷ 254 ∷ 0 ∷ 0 ∷ 0 ∷ 0 ∷ 2 ∷ 10 ∷ 0 ∷ 0 ∷ 2
    ∷ 0 ∷ 0 ∷ 0 ∷ 0 ∷ 0 ∷ []

abbrev table_mem : Mem
table_mem a = array 0 words (a - 4096)

abbrev pub empty_info : MadtInfo
empty_info = record {
  local_apic_addr = 0;
  processor_count = 0;
  processor_ids = λ i. 0;
  local_apic_ids = λ i. 0;
  io_apic_count = 0;
  io_apic_ids = λ i. 0;
  io_apic_addrs = λ i. 0;
  io_apic_gsi_base = λ i. 0;
  irq_override = λ i. 0;
}

abbrev three_entries : List Entry
three_entries = local_apic 3 7 ∷ io_apic 5 4273995776 0 ∷ source_override 0 2 ∷ []

three_entries-Room : Room empty_info three_entries
three_entries-Room = record { cpus = omega arith; apics = omega arith; lines = (omega arith, tt) }

madt_parse-Recorded_example :
    (after : MadtInfo) × (madt_parse table_mem 4096 empty_info ≡ parsed after)
    × Recorded (record empty_info { local_apic_addr = 4276092928 }) after three_entries
madt_parse-Recorded_example =
    madt_parse-Recorded table_mem 4096 empty_info three_entries (omega arith)
      (
        (refl, refl, refl),
        omega arith,
        omega arith,
        (
          (refl, refl, refl, refl),
          omega arith,
          omega arith,
          ((refl, refl, refl), omega arith, omega arith, refl),
        ),
      )
      three_entries-Room (omega arith)

-- A table of 60 bytes, whose entries have three bytes and an unknown type.
abbrev unknown_entries : Mem
unknown_entries a = if a == 4100 then 60 else if ltb a 4104 then 0 else 3

madt_parse-ends_example : madt_parse unknown_entries 4096 empty_info ≢ out_of_fuel
madt_parse-ends_example =
    madt_parse-ends unknown_entries 4096 empty_info (λ a. ground arith) (omega arith) (omega arith)

-- A table of 8 bytes: its signature is `APIC`.
abbrev apic_mem : Mem
apic_mem a = array 0 (65 ∷ 80 ∷ 73 ∷ 67 ∷ 10 ∷ 0 ∷ 0 ∷ 0 ∷ 0 ∷ 217 ∷ []) (a - 4096)

abbrev one_found : Acpi
one_found = record {
  frames = record {
    heap = record { mem = apic_mem; heap_cur = 8192 };
    is_initialized = true;
    pageframe_bitmap = 1024;
    pages_total_phys = 64;
  };
  allocated_page_tables = λ i. 0;
  is_paging_enabled = true;
  kernel_pd = 0;
  sdts = small_table;
  nodes = one_pair;
  rsdt = 0;
  xsdt = 0;
}

insert_sdt-found_example :
    (t : Acpi) × (insert_sdt 3 4096 one_found ≡ some t)
    × (acpi_get_sdt_from_sig 3 (65 ∷ 80 ∷ 73 ∷ 67 ∷ []) t ≡ some (4096, t))
unfolding sdt_checksum_ok
insert_sdt-found_example =
    insert_sdt-found 3 4096 one_found slots 200 400 [] small_table-IsTable refl next_two-Fresh
      (λ i. ground arith) (omega arith) refl refl

-- The boot loader's tags: a memory map of one entry, the sizes of memory, and an old root pointer.
abbrev boot_mem : Mem
boot_mem a =
    array 0
      (96 ∷ 0 ∷ 0 ∷ 0 ∷ 0 ∷ 0 ∷ 0 ∷ 0 ∷ 6 ∷ 0 ∷ 0 ∷ 0 ∷ 40 ∷ 0 ∷ 0 ∷ 0 ∷ 24 ∷ 0 ∷ 0 ∷ 0 ∷ 0 ∷ 0 ∷ 0
        ∷ 0 ∷ 0 ∷ 0 ∷ 0 ∷ 0 ∷ 0 ∷ 0 ∷ 0 ∷ 0 ∷ 0 ∷ 0 ∷ 16 ∷ 0 ∷ 0 ∷ 0 ∷ 0 ∷ 0 ∷ 1 ∷ 0 ∷ 0 ∷ 0 ∷ 0 ∷ 0
        ∷ 0 ∷ 0 ∷ 4 ∷ 0 ∷ 0 ∷ 0 ∷ 16 ∷ 0 ∷ 0 ∷ 0 ∷ 128 ∷ 2 ∷ 0 ∷ 0 ∷ 0 ∷ 0 ∷ 2 ∷ 0 ∷ 14 ∷ 0 ∷ 0 ∷ 0
        ∷ 12 ∷ 0 ∷ 0 ∷ 0 ∷ 82 ∷ 83 ∷ 68 ∷ 32 ∷ [])
      (a - 4096)

abbrev no_boot_info : MultibootInfo
no_boot_info = record {
  phys_mem_lower = 0;
  phys_mem_upper = 0;
  tagfb = [];
  mods = λ i. [];
  modcount = 0;
  rsdp = 0;
  acpi_ver = 0;
}

multiboot_info_init-Recorded_example :
    (after : MultibootInfo) × (multiboot_info_init 41 4 boot_mem 4096 no_boot_info ≡ walked after)
    × Boot.Tags.Recorded no_boot_info after
        (mmap_tag 40 24 ∷ meminfo_tag 640 131072 ∷ acpi_tag 4168 1 ∷ [])
multiboot_info_init-Recorded_example =
    multiboot_info_init-Recorded 41 4 boot_mem 4096 no_boot_info
      (mmap_tag 40 24 ∷ meminfo_tag 640 131072 ∷ acpi_tag 4168 1 ∷ [])
      (
        (refl, refl, refl, omega arith, omega arith),
        ((refl, refl, refl), ((refl, refl, omega arith, omega arith), refl)),
      )
      (omega arith) (omega arith) (omega arith)

-- The sleep object with the types 5 and 5 behind its name at 1, and the control port 0x604.
abbrev sleep_mem : Mem
sleep_mem a =
    if a == 80
    then 4
    else if a == 81
    then 6
    else array 0 (8 ∷ 95 ∷ 83 ∷ 53 ∷ 95 ∷ 18 ∷ 10 ∷ 4 ∷ 10 ∷ 5 ∷ 10 ∷ 5 ∷ []) a

abbrev powered : Power
powered = record {
  acpi = record one_found {
    frames = record {
      heap = record { mem = sleep_mem; heap_cur = 8192 };
      is_initialized = true;
      pageframe_bitmap = 1024;
      pages_total_phys = 64;
    };
  };
  fadt = 16;
  dsdt = 0;
  out = [];
}

-- Only the bit that starts the sleep is written.
shutdown_at-typeless_example : shutdown_at 3 1 powered ≡ some (outw 0x604 (2 ^ 13) powered)
shutdown_at-typeless_example = shutdown_at-typeless 3 1 powered (λ e. omega arith)
