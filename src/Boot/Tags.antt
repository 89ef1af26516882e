-- ===== src/Boot/Tags.antt =====
-- A list of tags laid out in memory, and what of it counts.
use catch_os.Base.{
  ℕ, zero, suc, ◌+◌, ◌%◌, ◌^◌, ◌<◌, ◌≤◌, ◌≡◌, ◌≢◌, refl, arith, List, [], ◌∷◌, ◌++◌, Mem, update,
  update_self, update_ne,
}
use catch_os.Base.Words.{load32}
use catch_os.Boot.{MultibootInfo, bytes_at, tag_step}

pub data Tag : Type 0 where
  module_tag : List ℕ → Tag
  meminfo_tag : ℕ → ℕ → Tag
  -- a memory map, by its size and the size of its entries
  mmap_tag : ℕ → ℕ → Tag
  framebuffer_tag : List ℕ → Tag
  acpi_tag : ℕ → ℕ → Tag
  other_tag : ℕ → Tag

-- A type of which the kernel takes no note.
abbrev IsOther : ℕ → Type 0
IsOther type =
    (type ≢ 0) × (type ≢ 3) × (type ≢ 4) × (type ≢ 6) × (type ≢ 8) × (type ≢ 14) × (type ≢ 15)

-- The tag stands at `p`: its type and the fields that count. The entries of a memory map are not
-- empty and lie below the top of memory.
abbrev pub Stands : Mem → ℕ → Tag → Type 0
Stands mem p (module_tag bytes) = (load32 mem p ≡ 3) × (bytes_at mem p 16 ≡ bytes)
Stands mem p (meminfo_tag lower upper) =
    (load32 mem p ≡ 4) × (load32 mem (p + 8) ≡ lower) × (load32 mem (p + 12) ≡ upper)
Stands mem p (mmap_tag size entry_size) =
    (load32 mem p ≡ 6)
    × (load32 mem (p + 4) ≡ size)
    × (load32 mem (p + 8) ≡ entry_size)
    × (0 < entry_size)
    × (p + size + entry_size < 2 ^ 32)
Stands mem p (framebuffer_tag bytes) = (load32 mem p ≡ 8) × (bytes_at mem p 40 ≡ bytes)
Stands mem p (acpi_tag rsdp ver) =
    (load32 mem p + 1 ≡ 14 + ver) × (p + 8 ≡ rsdp) × (0 < ver) × (ver < 3)
Stands mem p (other_tag type) = (load32 mem p ≡ type) × IsOther type

-- The tags follow each other from `p` on, up to the end tag.
abbrev pub Tags : Mem → ℕ → List Tag → Type 0
Tags mem p [] = load32 mem p ≡ 0
Tags mem p (t ∷ ts) = Stands mem p t × Tags mem ((p + tag_step mem p) % 2 ^ 32) ts

abbrev pub modules : List Tag → List (List ℕ)
modules [] = []
modules (t ∷ ts) = elim t [ module_tag bytes ↦ bytes ∷ modules ts | _ ↦ modules ts ]

-- The bytes of all memory maps.
abbrev pub mmap_bytes : List Tag → ℕ
mmap_bytes [] = 0
mmap_bytes (t ∷ ts) = elim t [ mmap_tag size entry_size ↦ size | _ ↦ 0 ] + mmap_bytes ts

-- The sizes of memory, the framebuffer and the ACPI pointer of the last tag that has them.
abbrev pub memory_of : List Tag → ℕ × ℕ → ℕ × ℕ
memory_of [] now = now
memory_of (t ∷ ts) now =
    memory_of ts (elim t [ meminfo_tag lower upper ↦ (lower, upper) | _ ↦ now ])

abbrev pub framebuffer_of : List Tag → List ℕ → List ℕ
framebuffer_of [] now = now
framebuffer_of (t ∷ ts) now = framebuffer_of ts (elim t [ framebuffer_tag bytes ↦ bytes | _ ↦ now ])

abbrev pub acpi_of : List Tag → ℕ × ℕ → ℕ × ℕ
acpi_of [] now = now
acpi_of (t ∷ ts) now = acpi_of ts (elim t [ acpi_tag rsdp ver ↦ (rsdp, ver) | _ ↦ now ])

abbrev pub items_in : (ℕ → List ℕ) → ℕ → List (List ℕ)
items_in xs zero = []
items_in xs (suc n) = items_in xs n ++ xs n ∷ []

-- What the walk has added to the information.
pub record Recorded (before after : MultibootInfo) (ts : List Tag) : Type 0 where
  pub mods : items_in after.mods after.modcount ≡ items_in before.mods before.modcount ++ modules ts
  pub memory :
      (after.phys_mem_lower, after.phys_mem_upper)
      ≡ memory_of ts (before.phys_mem_lower, before.phys_mem_upper)
  pub framebuffer : after.tagfb ≡ framebuffer_of ts before.tagfb
  pub acpi : (after.rsdp, after.acpi_ver) ≡ acpi_of ts (before.rsdp, before.acpi_ver)

items-beyond :
    (xs : ℕ → List ℕ) (m n : ℕ) (v : List ℕ) → n ≤ m → items_in (update xs m v) n ≡ items_in xs n
items-beyond xs m zero v le = refl
items-beyond xs m (suc n) v le =
    rw (items-beyond xs m n v (omega arith), update_ne xs m v n (omega arith)) refl

pub items-next :
    (xs : ℕ → List ℕ) (m : ℕ) (v : List ℕ)
    → items_in (update xs m v) (suc m) ≡ items_in xs m ++ v ∷ []
items-next xs m v = rw (items-beyond xs m m v (omega arith), update_self xs m v) refl
