-- ===== src/Boot.antt =====
-- kernel/common/multiboot_info.c: the tags of the boot loader, in byte-addressed memory.
pub mod Tags
pub mod Record
use catch_os.Base.{
  ℕ, zero, suc, ◌+◌, ◌*◌, ◌/◌, ◌%◌, ◌^◌, List, [], ◌∷◌, Mem, update, ltb, ◌==◌, if◌then◌else◌, Bool,
  true, false,
}
use catch_os.Base.Words.{load32}

abbrev pub multiboot_tag_type_end : ℕ
multiboot_tag_type_end = 0

abbrev pub multiboot_tag_type_module : ℕ
multiboot_tag_type_module = 3

abbrev pub multiboot_tag_type_basic_meminfo : ℕ
multiboot_tag_type_basic_meminfo = 4

abbrev pub multiboot_tag_type_mmap : ℕ
multiboot_tag_type_mmap = 6

abbrev pub multiboot_tag_type_framebuffer : ℕ
multiboot_tag_type_framebuffer = 8

abbrev pub multiboot_tag_type_acpi_old : ℕ
multiboot_tag_type_acpi_old = 14

abbrev pub multiboot_tag_type_acpi_new : ℕ
multiboot_tag_type_acpi_new = 15

-- `struct multiboot_info`, with the static `modcount`. The copies of tags are bytes.
pub record MultibootInfo : Type 0 where
  pub phys_mem_lower : ℕ
  pub phys_mem_upper : ℕ
  pub tagfb : List ℕ
  pub mods : ℕ → List ℕ
  pub modcount : ℕ
  pub rsdp : ℕ
  pub acpi_ver : ℕ

-- The `n` bytes at an address.
abbrev pub bytes_at : Mem → ℕ → ℕ → List ℕ
bytes_at mem p zero = []
bytes_at mem p (suc n) = mem p ∷ bytes_at mem (p + 1) n

-- How the walk ends: with the information, with a third module, for which the array of
-- `struct multiboot_info` has no place and the code no test, or not within the fuel.
pub data Walk : Type 0 where
  walked : MultibootInfo → Walk
  past_mods : Walk
  out_of_fuel : Walk

abbrev pub then_walk : Walk → (MultibootInfo → Walk) → Walk
then_walk (walked info) rest = rest info
then_walk past_mods rest = past_mods
then_walk out_of_fuel rest = out_of_fuel

abbrev pub with_module : List ℕ → MultibootInfo → MultibootInfo
with_module bytes info = record info {
  mods = update info.mods info.modcount bytes;
  modcount = info.modcount + 1;
}

abbrev pub with_meminfo : ℕ → ℕ → MultibootInfo → MultibootInfo
with_meminfo lower upper info = record info { phys_mem_lower = lower; phys_mem_upper = upper }

abbrev pub with_acpi : ℕ → ℕ → MultibootInfo → MultibootInfo
with_acpi rsdp ver info = record info { rsdp = rsdp; acpi_ver = ver }

-- The loop over the entries of the memory map of `tag`, which only logs each. By fuel: an entry
-- size of 0 would be read for ever.
unfoldable pub read_mmap : ℕ → Mem → ℕ → ℕ → MultibootInfo → Walk
read_mmap zero mem tag mmap info = out_of_fuel
read_mmap (suc g) mem tag mmap info =
    let rest = read_mmap g mem tag ((mmap + load32 mem (tag + 8)) % 2 ^ 32) info in
    if ltb mmap ((tag + load32 mem (tag + 4)) % 2 ^ 32) then rest else walked info

-- The cases of the `switch` that change the information or have a loop; the others only log. `g`
-- is the fuel of a memory map.
unfoldable pub read_tag : ℕ → Mem → ℕ → MultibootInfo → Walk
read_tag g mem tag info =
    let type = load32 mem tag in
    if type == multiboot_tag_type_module
    then (if ltb info.modcount 2
        then walked (with_module (bytes_at mem tag 16) info)
        else past_mods)
    else if type == multiboot_tag_type_basic_meminfo
    then walked (with_meminfo (load32 mem (tag + 8)) (load32 mem (tag + 12)) info)
    else if type == multiboot_tag_type_mmap
    then read_mmap g mem tag (tag + 16) info
    else if type == multiboot_tag_type_framebuffer
    then walked (record info { tagfb = bytes_at mem tag 40 })
    else if type == multiboot_tag_type_acpi_old
    then walked (with_acpi (tag + 8) 1 info)
    else if type == multiboot_tag_type_acpi_new
    then walked (with_acpi (tag + 8) 2 info)
    else walked info

-- The next tag, at a multiple of 8 bytes from this one.
abbrev pub tag_step : Mem → ℕ → ℕ
tag_step mem tag = (load32 mem (tag + 4) + 7) % 2 ^ 32 / 8 * 8

-- By fuel, `f` for the tags and `g` for each memory map: a tag of size 0 would be read for ever.
unfoldable pub walk_tags : ℕ → ℕ → Mem → ℕ → MultibootInfo → Walk
walk_tags g zero mem tag info = out_of_fuel
walk_tags g (suc f) mem tag info =
    if load32 mem tag == multiboot_tag_type_end
    then walked info
    else then_walk (read_tag g mem tag info)
        (λ next. walk_tags g f mem ((tag + tag_step mem tag) % 2 ^ 32) next)

unfoldable pub multiboot_info_init : ℕ → ℕ → Mem → ℕ → MultibootInfo → Walk
multiboot_info_init g f mem mb2 info = walk_tags g f mem (mb2 + 8) info
