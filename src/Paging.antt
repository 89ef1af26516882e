-- ===== src/Paging.antt =====
-- kernel/mmu/paging.c: page tables in memory, one for each 4 MiB of physical addresses.
pub mod Tables
use catch_os.Base.{
  ℕ, ◌+◌, ◌*◌, ◌/◌, ◌%◌, ◌^◌, Option, none, some, Mem, null, update, for_range, bit_or, ◌==◌, Bool,
  true, false, if◌then◌else◌,
}
use catch_os.Base.Words.{load32, store32}
use catch_os.KHeap.{KHeap, kmalloc_align}

abbrev pub page_size : ℕ
page_size = 0x1000

-- The kernel heap with the memory, and `allocated_page_tables`.
pub record Paging : Type 0 where
  pub heap : KHeap
  pub allocated_page_tables : ℕ → ℕ
  pub is_paging_enabled : Bool

abbrev pub mem_of : Paging → Mem
mem_of s = s.heap.mem

abbrev pub with_mem : Paging → Mem → Paging
with_mem s mem = record s { heap = record s.heap { mem = mem } }

-- `array[i] = value` for an array of 32-bit entries.
abbrev pub set_entry : Paging → ℕ → ℕ → ℕ → Paging
set_entry s array i value = with_mem s (store32 (mem_of s) (array + 4 * i) value)

abbrev pub virtual_addr_to_pde : ℕ → ℕ
virtual_addr_to_pde virtual_addr = virtual_addr / 2 ^ 22

-- The table, allocated at its first use.
unfoldable pub get_page_table : ℕ → Paging → Option (ℕ × Paging)
get_page_table phys_addr s =
    let index = phys_addr / 0x400000 in
    if s.allocated_page_tables index == null
    then elim (kmalloc_align s.heap page_size 4096) [
      | none ↦ none
      | some (p, h) ↦ some (
        p,
        record {
          heap = h;
          allocated_page_tables = update s.allocated_page_tables index p;
          is_paging_enabled = s.is_paging_enabled;
        },
      )
    ]
    else some (s.allocated_page_tables index, s)

-- `paging_map_page` with its table at hand.
abbrev pub set_page : ℕ → ℕ → ℕ → ℕ → Paging → Paging
set_page virtual_addr phys_addr page_dir page_table s =
    let pte = virtual_addr % 0x400000 / 0x1000 in
    if load32 (mem_of s) (page_table + 4 * pte) == bit_or phys_addr 3
    then s
    else let t = set_entry s page_table pte (bit_or phys_addr 3) in
      set_entry t page_dir (virtual_addr_to_pde virtual_addr) (bit_or page_table 3)

unfoldable pub paging_map_page : ℕ → ℕ → ℕ → Paging → Option Paging
paging_map_page virtual_addr phys_addr page_dir s = elim (get_page_table phys_addr s) [
  | none ↦ none
  | some (page_table, t) ↦ some (set_page virtual_addr phys_addr page_dir page_table t)
]

abbrev pub fill_table : ℕ → ℕ → Paging → Paging
fill_table phys_addr page_table s =
    for_range 1024 0
      (λ i t. set_entry t page_table i (bit_or ((phys_addr + i * 0x1000) % 2 ^ 32) 3)) s

unfoldable pub paging_map_table : ℕ → ℕ → ℕ → Paging → Option Paging
paging_map_table virtual_addr phys_addr page_dir s = elim (get_page_table phys_addr s) [
  | none ↦ none
  | some (page_table, t) ↦ some (
      set_entry (fill_table phys_addr page_table t) page_dir (virtual_addr_to_pde virtual_addr)
        (bit_or page_table 3))
]

-- The two first tables; loading the directory's address and switching paging on are instructions.
unfoldable pub paging_init : ℕ → Paging → Option Paging
paging_init kernel_page_directory s = elim (paging_map_table 0 0 kernel_page_directory s) [
  | none ↦ none
  | some t ↦ elim (paging_map_table 0x400000 0x400000 kernel_page_directory t) [
    | none ↦ none
    | some u ↦ some (record u { is_paging_enabled = true })
  ]
]
