-- ===== src/Acpi/Madt.antt =====
-- kernel/drivers/acpi/madt.c and include/drivers/acpi/madt.h: the table of the interrupt
-- controllers, in byte-addressed memory.
pub mod Ends
pub mod Layout
pub mod Parse
use catch_os.Base.{
  ℕ, zero, suc, ◌+◌, ◌%◌, ◌^◌, Mem, null, update, ltb, leb, ◌==◌, not, Bool, true, false,
  if◌then◌else◌,
}
use catch_os.Base.Words.{load32}

abbrev pub max_cpus_supported : ℕ
max_cpus_supported = 128

-- `enum MADT_ENTRY_TYPE`, as far as `madt_parse` looks at it.
abbrev pub madt_entry_type_local_apic : ℕ
madt_entry_type_local_apic = 0

abbrev pub madt_entry_type_io_apic : ℕ
madt_entry_type_io_apic = 1

abbrev pub madt_entry_type_source_override : ℕ
madt_entry_type_source_override = 2

-- `struct MADT_info`
pub record MadtInfo : Type 0 where
  pub local_apic_addr : ℕ
  pub processor_count : ℕ
  pub processor_ids : ℕ → ℕ
  pub local_apic_ids : ℕ → ℕ
  pub io_apic_count : ℕ
  pub io_apic_ids : ℕ → ℕ
  pub io_apic_addrs : ℕ → ℕ
  pub io_apic_gsi_base : ℕ → ℕ
  pub irq_override : ℕ → ℕ

-- How the parser ends: with the information, with a write past the end of an array of
-- `struct MADT_info`, which the code does not test for, or not within the fuel.
pub data Parsing : Type 0 where
  parsed : MadtInfo → Parsing
  past_array : Parsing
  out_of_fuel : Parsing

abbrev pub then_parse : Parsing → (MadtInfo → Parsing) → Parsing
then_parse (parsed info) rest = rest info
then_parse past_array rest = past_array
then_parse out_of_fuel rest = out_of_fuel

-- The three cases of the `switch` that change the information, for the entry at `entry`.
abbrev pub with_processor : ℕ → ℕ → MadtInfo → MadtInfo
with_processor id apic info = record info {
  processor_ids = update info.processor_ids info.processor_count id;
  local_apic_ids = update info.local_apic_ids info.processor_count apic;
  processor_count = (info.processor_count + 1) % 2 ^ 8;
}

abbrev pub add_processor : Mem → ℕ → MadtInfo → Parsing
add_processor mem entry info =
    if ltb info.processor_count max_cpus_supported
    then parsed (with_processor (mem (entry + 2)) (mem (entry + 3)) info)
    else past_array

abbrev pub with_io_apic : ℕ → ℕ → ℕ → MadtInfo → MadtInfo
with_io_apic id addr base info = record info {
  io_apic_addrs = update info.io_apic_addrs info.io_apic_count addr;
  io_apic_ids = update info.io_apic_ids info.io_apic_count id;
  io_apic_gsi_base = update info.io_apic_gsi_base info.io_apic_count base;
  io_apic_count = (info.io_apic_count + 1) % 2 ^ 16;
}

abbrev pub add_io_apic : Mem → ℕ → MadtInfo → Parsing
add_io_apic mem entry info =
    if ltb info.io_apic_count 32
    then parsed
        (with_io_apic (mem (entry + 2)) (load32 mem (entry + 4)) (load32 mem (entry + 8)) info)
    else past_array

abbrev pub with_override : ℕ → ℕ → MadtInfo → MadtInfo
with_override src mapped info = record info {
  irq_override = update info.irq_override src (mapped % 2 ^ 8);
}

abbrev pub add_override : Mem → ℕ → MadtInfo → Parsing
add_override mem entry info =
    let src = mem (entry + 3) in
    let mapped = load32 mem (entry + 4) in
    if src == mapped
    then parsed info
    else if ltb src 24
    then parsed (with_override src mapped info)
    else past_array

abbrev pub parse_entry : Mem → ℕ → MadtInfo → Parsing
parse_entry mem entry info =
    if mem entry == madt_entry_type_local_apic
    then add_processor mem entry info
    else if mem entry == madt_entry_type_io_apic
    then add_io_apic mem entry info
    else if mem entry == madt_entry_type_source_override
    then add_override mem entry info
    else parsed info

-- The loop of `madt_parse` up to the address `end`, by fuel; the sums of addresses are of 32 bits.
unfoldable pub parse_loop : ℕ → Mem → ℕ → ℕ → MadtInfo → Parsing
parse_loop zero mem entry end info = out_of_fuel
parse_loop (suc f) mem entry end info =
    let entry_len = mem (entry + 1) in
    if leb ((entry + entry_len) % 2 ^ 32) end
    then (if entry_len == 0
        then parsed info
        else then_parse (parse_entry mem entry info)
            (λ next. parse_loop f mem ((entry + entry_len) % 2 ^ 32) end next))
    else parsed info

-- An entry has a byte at least, so that the length of the table is enough fuel when the addresses
-- do not wrap around.
unfoldable pub madt_parse : Mem → ℕ → MadtInfo → Parsing
madt_parse mem madt info =
    if madt == null
    then parsed info
    else let madt_len = load32 mem (madt + 4) in
      parse_loop (madt_len + 1) mem (madt + 44) ((madt + madt_len) % 2 ^ 32)
        (record info { local_apic_addr = load32 mem (madt + 36) })
