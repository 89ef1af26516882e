-- ===== src/Acpi.antt =====
-- kernel/drivers/acpi/acpi.c: the firmware's tables in byte-addressed memory. Their pages are
-- reserved in the page frames and mapped, and a hash table has their addresses by signature. The
-- hash table lies in the heap of nodes, apart from the bytes of memory.
pub mod Madt
pub mod Info
pub mod Signature
use catch_os.Base.{
  ℕ, zero, suc, ◌+◌, ◌-◌, ◌*◌, ◌/◌, ◌%◌, ◌^◌, Option, none, some, List, [], ◌∷◌, Mem, null, Bool,
  true, false, ◌==◌, if◌then◌else◌,
}
use catch_os.Base.{ℤ, pos, negsuc}
use catch_os.Base.Words.{load32, word_of, pointer_bytes}
use catch_os.Boot.{MultibootInfo}
use catch_os.KHeap.{KHeap}
use catch_os.PageFrame.{PageFrame, pageframe_set_page_from_addr}
use catch_os.Paging.{Paging, page_size, paging_map_page}
use catch_os.LinkedList.{Heap}
use catch_os.HashTable.{HashTable, hashtable_init, hashtable_insert, hashtable_get}

-- The variables of the file, of the page frames and of paging, which share the memory.
pub record Acpi : Type 0 where
  pub frames : PageFrame
  pub allocated_page_tables : ℕ → ℕ
  pub is_paging_enabled : Bool
  pub kernel_pd : ℕ
  pub sdts : HashTable
  pub nodes : Heap
  pub rsdt : ℕ
  pub xsdt : ℕ

abbrev pub mem_of : Acpi → Mem
mem_of s = s.frames.heap.mem

abbrev pub byte_sum : ℕ → Mem → ℕ → ℕ → ℕ
byte_sum zero mem p sum = sum
byte_sum (suc n) mem p sum = byte_sum n mem (p + 1) ((sum + mem p) % 2 ^ 8)

unfoldable pub sdt_checksum_ok : Mem → ℕ → Bool
sdt_checksum_ok mem header = byte_sum (load32 mem (header + 4)) mem header 0 == 0

-- `f` is fuel for the chains of the hash table; null for a table that is not there.
unfoldable pub acpi_get_sdt_from_sig : ℕ → List ℕ → Acpi → Option (ℕ × Acpi)
acpi_get_sdt_from_sig f table_signature s =
    elim (hashtable_get f s.sdts table_signature 4 s.nodes) [
      | none ↦ none
      | some ((pos zero, bytes), nodes) ↦ some (word_of bytes, record s { nodes = nodes })
      | some (_, nodes) ↦ some (null, record s { nodes = nodes })
    ]

abbrev pub set_page_from_addr : ℕ → ℕ → Acpi → Acpi
set_page_from_addr phys_addr pages s = record s {
  frames = pageframe_set_page_from_addr s.frames phys_addr pages;
}

-- A page at its own address.
abbrev pub map_page : ℕ → Acpi → Option Acpi
map_page addr s =
    let paging : Paging = record {
      heap = s.frames.heap;
      allocated_page_tables = s.allocated_page_tables;
      is_paging_enabled = s.is_paging_enabled;
    } in
    elim (paging_map_page addr addr s.kernel_pd paging) [
      | none ↦ none
      | some t ↦ some (record s {
        frames = record s.frames { heap = t.heap };
        allocated_page_tables = t.allocated_page_tables;
      })
    ]

abbrev pub then_acpi : Option Acpi → (Acpi → Option Acpi) → Option Acpi
then_acpi none rest = none
then_acpi (some s) rest = rest s

-- `for (j = 0; j < pages; ++j)`, by the rounds left, from the page at `addr` on.
unfoldable pub map_pages : ℕ → ℕ → Acpi → Option Acpi
map_pages zero addr s = some s
map_pages (suc n) addr s =
    then_acpi (map_page addr s) (λ t. map_pages n ((addr + page_size) % 2 ^ 32) t)

-- `end_page - start_page + 1`
abbrev pub pages_of : ℕ → ℕ → ℕ
pages_of sdt len = ((sdt + len) % 2 ^ 32 / page_size + 2 ^ 32 - sdt / page_size + 1) % 2 ^ 32

unfoldable pub acpi_map_sdt : ℕ → Acpi → Option Acpi
acpi_map_sdt sdt s = then_acpi (map_page sdt (set_page_from_addr sdt 2 s)) (λ t.
    then_acpi (map_page ((sdt + page_size) % 2 ^ 32) t) (λ u.
      let pages_to_alloc = pages_of sdt (load32 (mem_of u) (sdt + 4)) in
      map_pages pages_to_alloc sdt (set_page_from_addr sdt pages_to_alloc u)))

-- The four bytes of the signature as a string.
abbrev pub until_zero : List ℕ → List ℕ
until_zero [] = []
until_zero (b ∷ bs) = if b == 0 then [] else b ∷ until_zero bs

abbrev pub signature : Mem → ℕ → List ℕ
signature mem sdt = until_zero (mem sdt ∷ mem (sdt + 1) ∷ mem (sdt + 2) ∷ mem (sdt + 3) ∷ [])

-- The address of a table with a correct checksum goes into the hash table.
unfoldable pub insert_sdt : ℕ → ℕ → Acpi → Option Acpi
insert_sdt f sdt t =
    if sdt_checksum_ok (mem_of t) sdt
    then elim (hashtable_insert f t.sdts (signature (mem_of t) sdt) (pointer_bytes sdt) t.nodes) [
      | none ↦ none
      | some (sdts, nodes) ↦ some (record t { sdts = sdts; nodes = nodes })
    ]
    else some t

-- One round of `map_sdt_entries`.
abbrev pub map_sdt_entry : ℕ → ℕ → Acpi → Option Acpi
map_sdt_entry f sdt s = then_acpi (acpi_map_sdt sdt s) (insert_sdt f sdt)

-- The loop by the rounds left; an entry of the list at `tail` has `width` bytes, of which a pointer
-- keeps the low four.
unfoldable pub map_entries : ℕ → ℕ → ℕ → ℕ → Acpi → Option Acpi
map_entries f zero tail width s = some s
map_entries f (suc n) tail width s =
    then_acpi (map_sdt_entry f (load32 (mem_of s) tail) s)
      (λ t. map_entries f n (tail + width) width t)

-- The number of pointers of `width` bytes behind the header of the root table.
abbrev pub entries : Mem → ℕ → ℕ → ℕ
entries mem root width = (load32 mem (root + 4) + 2 ^ 32 - 36) % 2 ^ 32 / width

unfoldable pub map_sdt_entries : ℕ → MultibootInfo → Acpi → Option Acpi
map_sdt_entries f boot s = elim (hashtable_init none 64 s.nodes) [
  | none ↦ none
  | some ((_, sdts), nodes) ↦
      let t : Acpi = record s { sdts = sdts; nodes = nodes } in
      if boot.acpi_ver == 1
      then map_entries f (entries (mem_of t) t.rsdt 4) (t.rsdt + 36) 4 t
      else if boot.acpi_ver == 2
      then map_entries f (entries (mem_of t) t.xsdt 8) (t.xsdt + 36) 8 t
      else some t
]

-- The page of the descriptor, if paging is on.
abbrev pub map_rsdp : ℕ → Acpi → Option Acpi
map_rsdp rsdp s =
    if s.is_paging_enabled then map_page rsdp (set_page_from_addr rsdp 1 s) else some s

-- The branches on the version, and behind them the address of the root table.
abbrev pub find_root : MultibootInfo → Acpi → Option (ℕ × Acpi)
find_root boot s =
    if boot.acpi_ver == 1
    then elim (map_rsdp boot.rsdp s) [
      | none ↦ none
      | some t ↦
          let root = load32 (mem_of t) (boot.rsdp + 16) in some (root, record t { rsdt = root })
    ]
    else if boot.acpi_ver == 2
    then elim (map_rsdp boot.rsdp s) [
      | none ↦ none
      | some t ↦
          let root = load32 (mem_of t) (boot.rsdp + 24) in some (root, record t { xsdt = root })
    ]
    else some (0, s)

unfoldable pub acpi_init : ℕ → MultibootInfo → Acpi → Option Acpi
acpi_init f boot s = elim (find_root boot s) [
  | none ↦ none
  | some (to_map, t) ↦
      if to_map == 0
      then some t
      else if t.is_paging_enabled
      then then_acpi (acpi_map_sdt to_map t) (map_sdt_entries f boot)
      else some t
]
