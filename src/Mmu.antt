-- ===== src/Mmu.antt =====
-- kernel/mmu/liballoc_hooks.c and kernel/mmu/mmu.c: what the third-party allocator asks of the page
-- frames and of paging, and the front end. The two share the kernel heap.
use catch_os.Base.{ℕ, zero, suc, ◌+◌, ◌%◌, ◌^◌, Option, none, some, null, Bool, ◌==◌, if◌then◌else◌}
use catch_os.PageFrame.{PageFrame, pageframe_alloc, pageframe_free}
use catch_os.Paging.{Paging, page_size, paging_map_page, paging_init}
use catch_os.Interrupt.{Interrupts, interrupt_register, int_pagefault}

pub record Mmu : Type 0 where
  pub frames : PageFrame
  pub allocated_page_tables : ℕ → ℕ
  pub is_paging_enabled : Bool
  pub kernel_page_directory : ℕ

abbrev pub paging_of : Mmu → Paging
paging_of s = record {
  heap = s.frames.heap;
  allocated_page_tables = s.allocated_page_tables;
  is_paging_enabled = s.is_paging_enabled;
}

abbrev pub with_paging : Mmu → Paging → Mmu
with_paging s p = record s {
  frames = record s.frames { heap = p.heap };
  allocated_page_tables = p.allocated_page_tables;
  is_paging_enabled = p.is_paging_enabled;
}

-- The loop over the pages, each at its own address, by the rounds left.
unfoldable pub map_identity : ℕ → ℕ → Mmu → Option Mmu
map_identity zero addr s = some s
map_identity (suc n) addr s =
    elim (paging_map_page addr addr s.kernel_page_directory (paging_of s)) [
      | none ↦ none
      | some p ↦ map_identity n ((addr + page_size) % 2 ^ 32) (with_paging s p)
    ]

-- `phys_mem_upper` is for the first call of `pageframe_alloc`.
unfoldable pub pageframe_alloc_liballoc : ℕ → ℕ → Mmu → Option (ℕ × Mmu)
pageframe_alloc_liballoc phys_mem_upper pages s =
    elim (pageframe_alloc phys_mem_upper s.frames pages) [
      | none ↦ none
      | some (ret, frames) ↦
          let t : Mmu = record s { frames = frames } in
          if ret == null
          then some (ret, t)
          else elim (map_identity pages ret t) [ none ↦ none | some u ↦ some (ret, u) ]
    ]

unfoldable pub pageframe_free_liballoc : ℕ → ℕ → Mmu → Mmu
pageframe_free_liballoc virt_addr pages s = record s {
  frames = pageframe_free s.frames virt_addr pages;
}

abbrev pub liballoc_alloc : ℕ → ℕ → Mmu → Option (ℕ × Mmu)
liballoc_alloc phys_mem_upper pages s = pageframe_alloc_liballoc phys_mem_upper pages s

abbrev pub liballoc_free : ℕ → ℕ → Mmu → ℕ × Mmu
liballoc_free p pages s = (0, pageframe_free_liballoc p pages s)

-- A page is allocated and freed again.
abbrev pub test_pageframe_firstpage : ℕ → Mmu → Option Mmu
test_pageframe_firstpage phys_mem_upper s = elim (pageframe_alloc phys_mem_upper s.frames 1) [
  | none ↦ none
  | some (p, frames) ↦ some (record s { frames = pageframe_free frames p 1 })
]

-- `isr` is the address of the handler of page faults, which logs and stops.
unfoldable pub mmu_init : ℕ → ℕ → Interrupts × Mmu → Option (Interrupts × Mmu)
mmu_init phys_mem_upper isr (i, s) = elim (paging_init s.kernel_page_directory (paging_of s)) [
  | none ↦ none
  | some p ↦ elim (test_pageframe_firstpage phys_mem_upper (with_paging s p)) [
    | none ↦ none
    | some t ↦ some (interrupt_register int_pagefault isr i, t)
  ]
]
