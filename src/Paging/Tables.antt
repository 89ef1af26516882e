-- ===== src/Paging/Tables.antt =====
-- What `paging_map_table` leaves in the table and in the directory.
use catch_os.Base.{
  ℕ, ◌+◌, ◌*◌, ◌/◌, ◌%◌, ◌^◌, ◌≤◌, ◌<◌, ◌≡◌, ◌≢◌, refl, ◌∙◌, arith, ◌⊎◌, some, null, bit_or, ◌==◌,
  false, for_range_inv,
}
use catch_os.Base.Words.{load32, load32-store32, load32-other, store32-other}
use catch_os.Paging.{Paging, mem_of, set_entry, get_page_table, paging_map_table, fill_table}

abbrev pub entry : Paging → ℕ → ℕ → ℕ
entry s array i = load32 (mem_of s) (array + 4 * i)

-- The entry for the page `i` of the physical 4 MiB at `phys`.
abbrev pub page_entry : ℕ → ℕ → ℕ
page_entry phys i = bit_or ((phys + i * 0x1000) % 2 ^ 32) 3 % 2 ^ 32

-- The entries below `n` are set; memory outside the table is as before.
pub record Filled (s : Paging) (phys table n : ℕ) (t : Paging) : Type 0 where
  pub set : (j : ℕ) → j < n → entry t table j ≡ page_entry phys j
  pub kept : (a : ℕ) → (a < table) ⊎ (table + 4096 ≤ a) → mem_of t a ≡ mem_of s a

fill_table-Filled :
    (s : Paging) (phys table : ℕ) → Filled s phys table 1024 (fill_table phys table s)
fill_table-Filled s phys table =
    for_range_inv (λ i t. Filled s phys table i t) _ 1024
      (λ i t lt f. record {
        set = λ j lj. ground (
          arith,
          f.set j,
          load32-store32 (mem_of t) (table + 4 * i) (bit_or ((phys + i * 0x1000) % 2 ^ 32) 3),
          load32-other (mem_of t) (table + 4 * i) (bit_or ((phys + i * 0x1000) % 2 ^ 32) 3)
              (table + 4 * j),
        );
        kept = λ a o. store32-other (mem_of t) (table + 4 * i) _ a (ground arith) ∙ f.kept a o;
      })
      1024 0 s refl (record { set = λ j lj. absurd (omega arith); kept = λ a o. refl })

-- What a mapped table leaves: the 1024 pages from `phys` on in the table, the table in the
-- directory, and the memory elsewhere as before.
pub record Mapped (s : Paging) (virtual phys dir table : ℕ) (t : Paging) : Type 0 where
  pub pages : (j : ℕ) → j < 1024 → entry t table j ≡ page_entry phys j
  pub directory : entry t dir (virtual / 2 ^ 22) ≡ bit_or table 3 % 2 ^ 32
  pub kept :
      (a : ℕ)
      → (a < table) ⊎ (table + 4096 ≤ a)
      → (a < dir + 4 * (virtual / 2 ^ 22)) ⊎ (dir + 4 * (virtual / 2 ^ 22) + 4 ≤ a)
      → mem_of t a ≡ mem_of s a

get_page_table-found :
    (s : Paging) (phys : ℕ)
    → s.allocated_page_tables (phys / 0x400000) ≢ null
    → get_page_table phys s ≡ some (s.allocated_page_tables (phys / 0x400000), s)
unfolding get_page_table
get_page_table-found s phys ne =
    let real : (s.allocated_page_tables (phys / 0x400000) == null) ≡ false = ground (arith, ne) in
    rw (get_page_table, real) refl

-- When the table of the physical address is allocated and apart from the entry of the directory,
-- `paging_map_table` returns. The table then has the 1024 pages from the physical address on, the
-- entry of the virtual address in the directory has the table, each `| 3`, and no other byte of
-- memory has changed.
pub paging_map_table-Mapped :
    (s : Paging) (virtual phys dir : ℕ)
    → let table = s.allocated_page_tables (phys / 0x400000) in
      let slot = dir + 4 * (virtual / 2 ^ 22) in
      table ≢ null
      → (slot + 4 ≤ table) ⊎ (table + 4096 ≤ slot)
      → (t : Paging) × (paging_map_table virtual phys dir s ≡ some t)
        × Mapped s virtual phys dir table t
unfolding paging_map_table
paging_map_table-Mapped s virtual phys dir ne apart =
    let table = s.allocated_page_tables (phys / 0x400000) in
    let slot = dir + 4 * (virtual / 2 ^ 22) in
    let u = fill_table phys table s in
    let f = fill_table-Filled s phys table in
    (
      set_entry u dir (virtual / 2 ^ 22) (bit_or table 3),
      rw (paging_map_table, get_page_table-found s phys ne) refl,
      record {
        pages = λ j lj.
            load32-other (mem_of u) slot (bit_or table 3) (table + 4 * j) (ground arith)
            ∙ f.set j lj;
        directory = load32-store32 (mem_of u) slot (bit_or table 3);
        kept = λ a o1 o2. store32-other (mem_of u) slot _ a o2 ∙ f.kept a o1;
      },
    )
