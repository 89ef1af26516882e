-- ===== src/Boot/Record.antt =====
-- What the walk over the boot loader's tags records.
use catch_os.Base.{
  ℕ, zero, suc, ◌+◌, ◌<◌, ◌≤◌, ◌≡◌, refl, sym, ap, ◌∙◌, arith, List, [], ◌∷◌, ◌++◌, length, Mem,
  ltb, ◌==◌, true, false, ◌-◌, ◌%◌, ◌^◌, inl, inr, Bool-cases,
}
use catch_os.Base.Lists.{snoc-append, append-nil}
use catch_os.Base.Words.{load32}
use catch_os.Boot.{
  MultibootInfo, walked, with_module, with_meminfo, with_acpi, read_mmap, read_tag, tag_step,
  walk_tags, multiboot_info_init,
}
use catch_os.Boot.Tags.{
  Tag, module_tag, meminfo_tag, framebuffer_tag, acpi_tag, mmap_tag, other_tag, Stands, Tags,
  modules, mmap_bytes, items-next, Recorded,
}

-- The loop over a memory map ends: each entry moves it on.
read_mmap-walked :
    (g : ℕ) (mem : Mem) (tag mmap : ℕ) (info : MultibootInfo)
    → 0 < load32 mem (tag + 8)
    → tag + load32 mem (tag + 4) + load32 mem (tag + 8) < 2 ^ 32
    → tag + load32 mem (tag + 4) ≤ mmap + g
    → read_mmap (suc g) mem tag mmap info ≡ walked info
unfolding read_mmap
read_mmap-walked zero mem tag mmap info moves top le =
    let ends : ltb mmap ((tag + load32 mem (tag + 4)) % 2 ^ 32) ≡ false = ground arith in
    rw (read_mmap, ends) refl
read_mmap-walked (suc g) mem tag mmap info moves top le =
    elim (Bool-cases (ltb mmap ((tag + load32 mem (tag + 4)) % 2 ^ 32))) [
      | inl more ↦
          let e : (mmap + load32 mem (tag + 8)) % 2 ^ 32 ≡ mmap + load32 mem (tag + 8) =
            ground arith in
          rw (more, e)
            (read_mmap-walked g mem tag (mmap + load32 mem (tag + 8)) info moves top (omega arith))
      | inr ends ↦ rw ends refl
    ]

module _ (g : ℕ) (mem : Mem) (p : ℕ) (info : MultibootInfo) (ts : List Tag) where
  -- One tag: what is read, the room it leaves, and what it adds.
  abbrev Step : Tag → Type 0
  Step t =
      (next : MultibootInfo) × (read_tag g mem p info ≡ walked next)
      × (next.modcount + length (modules ts) ≤ 2)
      × ((after : MultibootInfo) → Recorded next after ts → Recorded info after (t ∷ ts))

  read_tag-Step :
      (t : Tag)
      → Stands mem p t
      → mmap_bytes (t ∷ ts) < g
      → info.modcount + length (modules (t ∷ ts)) ≤ 2
      → Step t
  unfolding read_tag
  read_tag-Step (module_tag bytes) (e, hb) fuel room =
      let fits : ltb info.modcount 2 ≡ true = ground arith in
      let one_more : info.modcount + 1 ≡ suc info.modcount = omega arith in
      (
        with_module bytes info,
        rw (read_tag, e, fits, hb) refl,
        omega (arith, room),
        λ after r. record {
          mods =
              r.mods
              ∙ rw one_more (
                  ap (λ l. l ++ modules ts) (items-next info.mods info.modcount bytes)
                  ∙ snoc-append _ bytes (modules ts));
          memory = r.memory;
          framebuffer = r.framebuffer;
          acpi = r.acpi;
        },
      )
  read_tag-Step (meminfo_tag lower upper) (e, hl, hu) fuel room = (
    with_meminfo lower upper info,
    rw (read_tag, e, hl, hu) refl,
    room,
    λ after r. record {
      mods = r.mods;
      memory = r.memory;
      framebuffer = r.framebuffer;
      acpi = r.acpi;
    },
  )
  read_tag-Step (mmap_tag size entry_size) (e, es, ee, moves, top) fuel room =
      let ends : read_mmap (suc (g - 1)) mem p (p + 16) info ≡ walked info =
        read_mmap-walked (g - 1) mem p (p + 16) info (rw ee moves) (rw (es, ee) top)
          (rw es (omega arith)) in
      let enough : suc (g - 1) ≡ g = omega arith in
      (
        info,
        rw (read_tag, e) (rw enough at ends),
        room,
        λ after r. record {
          mods = r.mods;
          memory = r.memory;
          framebuffer = r.framebuffer;
          acpi = r.acpi;
        },
      )
  read_tag-Step (framebuffer_tag bytes) (e, hb) fuel room = (
    record info { tagfb = bytes },
    rw (read_tag, e, hb) refl,
    room,
    λ after r. record {
      mods = r.mods;
      memory = r.memory;
      framebuffer = r.framebuffer;
      acpi = r.acpi;
    },
  )
  read_tag-Step (acpi_tag rsdp zero) (e, hr, some_ver, lt) fuel room = absurd (omega arith)
  read_tag-Step (acpi_tag rsdp (suc zero)) (e, hr, some_ver, lt) fuel room =
      let type : load32 mem p ≡ 14 = omega arith in
      (
        with_acpi rsdp 1 info,
        rw (read_tag, type, hr) refl,
        room,
        λ after r. record {
          mods = r.mods;
          memory = r.memory;
          framebuffer = r.framebuffer;
          acpi = r.acpi;
        },
      )
  read_tag-Step (acpi_tag rsdp (suc (suc zero))) (e, hr, some_ver, lt) fuel room =
      let type : load32 mem p ≡ 15 = omega arith in
      (
        with_acpi rsdp 2 info,
        rw (read_tag, type, hr) refl,
        room,
        λ after r. record {
          mods = r.mods;
          memory = r.memory;
          framebuffer = r.framebuffer;
          acpi = r.acpi;
        },
      )
  read_tag-Step (acpi_tag rsdp (suc (suc (suc n)))) (e, hr, some_ver, lt) fuel room =
      absurd (omega arith)
  read_tag-Step (other_tag type) (e, (n0, n3, n4, n6, n8, n14, n15)) fuel room = (
    info,
    rw (read_tag, e) (ground (arith, n3, n4, n6, n8, n14, n15)),
    room,
    λ after r. record {
      mods = r.mods;
      memory = r.memory;
      framebuffer = r.framebuffer;
      acpi = r.acpi;
    },
  )

tag-real : (mem : Mem) (p : ℕ) (t : Tag) → Stands mem p t → (load32 mem p == 0) ≡ false
tag-real mem p (module_tag bytes) h = ground (arith, h.0)
tag-real mem p (meminfo_tag lower upper) h = ground (arith, h.0)
tag-real mem p (mmap_tag size entry_size) h = ground (arith, h.0)
tag-real mem p (framebuffer_tag bytes) h = ground (arith, h.0)
tag-real mem p (acpi_tag rsdp ver) h = ground (arith, h.0)
tag-real mem p (other_tag type) h = ground (arith, h.0, h.1.0)

walk_tags-Recorded :
    (g f : ℕ) (mem : Mem) (p : ℕ) (info : MultibootInfo) (ts : List Tag)
    → Tags mem p ts
    → info.modcount + length (modules ts) ≤ 2
    → mmap_bytes ts < g
    → length ts < f
    → (after : MultibootInfo) × (walk_tags g f mem p info ≡ walked after) × Recorded info after ts
unfolding walk_tags
walk_tags-Recorded g zero mem p info ts h room fuel lt = absurd (omega arith)
walk_tags-Recorded g (suc f) mem p info [] h room fuel lt = (
  info,
  rw (walk_tags, h) refl,
  record { mods = sym (append-nil _); memory = refl; framebuffer = refl; acpi = refl },
)
walk_tags-Recorded g (suc f) mem p info (t ∷ ts) (st, rest) room fuel lt =
    let (next, one, room', grow) = read_tag-Step g mem p info ts t st fuel room in
    let (after, runs, r) =
      walk_tags-Recorded g f mem ((p + tag_step mem p) % 2 ^ 32) next ts rest room' (omega arith)
        (omega arith) in
    (after, rw (walk_tags, tag-real mem p t st, one) runs, grow after r)

-- For tags that follow each other up to an end tag, with at most two modules in all, memory maps
-- whose entries are not empty and lie below the top of memory, fuel for the tags of more than
-- their number and fuel for the maps of more than their bytes, `multiboot_info_init` returns. It
-- has appended the modules in their order; the sizes of memory, the framebuffer and the ACPI
-- pointer with its version are those of the last tag that has them.
pub multiboot_info_init-Recorded :
    (g f : ℕ) (mem : Mem) (mb2 : ℕ) (info : MultibootInfo) (ts : List Tag)
    → Tags mem (mb2 + 8) ts
    → info.modcount + length (modules ts) ≤ 2
    → mmap_bytes ts < g
    → length ts < f
    → (after : MultibootInfo) × (multiboot_info_init g f mem mb2 info ≡ walked after)
      × Recorded info after ts
unfolding multiboot_info_init
multiboot_info_init-Recorded g f mem mb2 info ts h room fuel lt =
    walk_tags-Recorded g f mem (mb2 + 8) info ts h room fuel lt
