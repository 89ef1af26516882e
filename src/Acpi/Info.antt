-- ===== src/Acpi/Info.antt =====
-- `acpi_get_madt` and `madt_get_info` of kernel/drivers/acpi/madt.c: the table is looked up and
-- parsed once.
use catch_os.Base.{ℕ, Option, none, some, [], ◌∷◌, null, ◌==◌, if◌then◌else◌, Bool, true}
use catch_os.Acpi.{Acpi, mem_of, acpi_get_sdt_from_sig}
use catch_os.Acpi.Madt.{MadtInfo, parsed, past_array, out_of_fuel, madt_parse}

-- `_madt`, `_madt_info`, and the static flag of `madt_get_info`.
pub record Madt : Type 0 where
  pub table : ℕ
  pub info : MadtInfo
  pub initialized : Bool

-- `f` is fuel for the hash table.
unfoldable pub acpi_get_madt : ℕ → Acpi → Madt → Option (Acpi × Madt)
acpi_get_madt f s v =
    if v.table == null
    then elim (acpi_get_sdt_from_sig f (b'A' ∷ b'P' ∷ b'I' ∷ b'C' ∷ []) s) [
      | none ↦ none
      | some (p, t) ↦ some (t, record v { table = p })
    ]
    else some (s, v)

-- `none` also for a table that does not fit into `struct MADT_info`.
unfoldable pub madt_get_info : ℕ → Acpi → Madt → Option (Acpi × Madt)
madt_get_info f s v = if v.initialized then some (s, v) else elim (acpi_get_madt f s v) [
  | none ↦ none
  | some (t, w) ↦ elim (madt_parse (mem_of t) w.table w.info) [
    | parsed info ↦ some (t, record w { info = info; initialized = true })
    | past_array ↦ none
    | out_of_fuel ↦ none
  ]
]
