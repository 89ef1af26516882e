-- ===== src/Power.antt =====
-- kernel/power/shutdown.c and reboot.c, with kernel/drivers/acpi/fadt.c: the table of fixed
-- hardware, the search for the object of the sleep state, and the writes to the ports. A byte read
-- from a port comes from outside.
use catch_os.Base.{
  ℕ, zero, ◌+◌, ◌-◌, ◌*◌, ◌/◌, ◌%◌, ◌^◌, ◌≡◌, ◌≢◌, refl, arith, Option, none, some, List, [], ◌∷◌,
  Mem, null, Bool, false, ◌==◌, ◌||◌, ◌&&◌, if◌then◌else◌, bit_and, bit_or, pos, Bool-cases, inl,
  inr,
}
use catch_os.Base.Words.{load32}
use catch_os.Str.{strncmp, strnstr}
use catch_os.Acpi.{Acpi, acpi_get_sdt_from_sig, acpi_map_sdt, sdt_checksum_ok}

-- `outb` and `outw`.
pub data PortWrite : Type 0 where
  byte_write : ℕ → ℕ → PortWrite
  word_write : ℕ → ℕ → PortWrite

-- The static variables of fadt.c, null before their first use, and the writes, the latest first.
pub record Power : Type 0 where
  pub acpi : Acpi
  pub fadt : ℕ
  pub dsdt : ℕ
  pub out : List PortWrite

abbrev pub mem_of : Power → Mem
mem_of s = s.acpi.frames.heap.mem

abbrev pub outb : ℕ → ℕ → Power → Power
outb port v s = record s { out = byte_write (port % 2 ^ 16) (v % 2 ^ 8) ∷ s.out }

abbrev pub outw : ℕ → ℕ → Power → Power
outw port v s = record s { out = word_write (port % 2 ^ 16) (v % 2 ^ 16) ∷ s.out }

-- "FACP"; a table that is not there is read at the null pointer.
unfoldable pub acpi_get_fadt : ℕ → Power → Option (ℕ × Power)
acpi_get_fadt f s =
    if s.fadt == null
    then elim (acpi_get_sdt_from_sig f (b'F' ∷ b'A' ∷ b'C' ∷ b'P' ∷ []) s.acpi) [
      | none ↦ none
      | some (fadt, acpi) ↦
          let t : Power = record s { acpi = acpi; fadt = fadt } in
          some (fadt, outb (load32 (mem_of t) (fadt + 48)) (mem_of t (fadt + 52)) t)
    ]
    else some (s.fadt, s)

-- The table's pages are mapped when paging is on.
abbrev pub map_dsdt : ℕ → Power → Option (ℕ × Power)
map_dsdt dsdt s =
    if s.acpi.is_paging_enabled
    then elim (acpi_map_sdt dsdt s.acpi) [
      | none ↦ none
      | some acpi ↦ some (dsdt, record s { acpi = acpi })
    ]
    else some (dsdt, s)

unfoldable pub acpi_get_dsdt : ℕ → Power → Option (ℕ × Power)
acpi_get_dsdt f s =
    if s.dsdt == null
    then elim (acpi_get_fadt f s) [
      | none ↦ none
      | some (fadt, t) ↦
          let dsdt = load32 (mem_of t) (fadt + 40) in map_dsdt dsdt (record t { dsdt = dsdt })
    ]
    else some (s.dsdt, s)

-- The addresses of the strings "DSDT" and "_S5_".
pub record Names : Type 0 where
  pub dsdt_name : ℕ
  pub s5_name : ℕ

-- The search behind the header of the table.
abbrev find_s5 : ℕ → Names → ℕ → Power → Option (ℕ × Power)
find_s5 f names h s =
    let mem = mem_of s in
    let found : Option (ℕ × Power) =
      elim (strnstr f mem (h + 36) names.s5_name (load32 mem (h + 4))) [
        | none ↦ none
        | some p ↦ some (p, s)
      ] in
    if sdt_checksum_ok mem h
    then elim (strncmp mem h names.dsdt_name 4) [ pos zero ↦ found | _ ↦ some (null, s) ]
    else some (null, s)

unfoldable pub acpi_dsdt_get_s5obj : ℕ → Names → Power → Option (ℕ × Power)
acpi_dsdt_get_s5obj f names s = elim (acpi_get_dsdt f s) [
  | none ↦ none
  | some (h, t) ↦ find_s5 f names h t
]

-- The byte `n` before an address, of 32 bits.
abbrev byte_before : Mem → ℕ → ℕ → ℕ
byte_before mem p n = mem ((p + 2 ^ 32 - n) % 2 ^ 32)

abbrev pub is_aml : Mem → ℕ → Bool
is_aml mem s5obj =
    (byte_before mem s5obj 1 == 0x08
      || (byte_before mem s5obj 2 == 0x08 && byte_before mem s5obj 1 == 92))
    && mem (s5obj + 4) == 0x12

-- Behind the prefix of a byte.
abbrev skip_prefix : Mem → ℕ → ℕ
skip_prefix mem p = if mem p == 0x0a then p + 1 else p

-- `*s5obj << 10`, kept in a byte.
abbrev pub slp_typ : ℕ → ℕ
slp_typ byte = byte * 2 ^ 10 % 2 ^ 8

-- The two writes; `SLP_EN` is `1 << 13`.
abbrev pub power_off_ports : ℕ → ℕ → ℕ → Power → Power
power_off_ports fadt typ_a typ_b s =
    let mem = mem_of s in
    let t = outw (load32 mem (fadt + 64)) (bit_or typ_a (2 ^ 13)) s in
    if typ_b == 0 then t else outw (load32 mem (fadt + 68)) (bit_or typ_b (2 ^ 13)) t

-- The part of `shutdown` behind the search.
unfoldable pub shutdown_at : ℕ → ℕ → Power → Option Power
shutdown_at f s5obj s =
    let mem = mem_of s in
    let p = s5obj + 5 in
    let a = skip_prefix mem (p + (bit_and (mem p) 0xc0 / 2 ^ 6 + 2)) in
    let b = skip_prefix mem (a + 1) in
    if is_aml mem s5obj
    then elim (acpi_get_fadt f s) [
      | none ↦ none
      | some (fadt, t) ↦ some (power_off_ports fadt (slp_typ (mem a)) (slp_typ (mem b)) t)
    ]
    else some s

unfoldable pub shutdown : ℕ → Names → Power → Option Power
shutdown f names s = elim (acpi_dsdt_get_s5obj f names s) [
  | none ↦ none
  | some (s5obj, t) ↦ shutdown_at f s5obj t
]

-- `while (good & 0x02) good = inb(0x64);`: the readings left.
unfoldable pub wait_controller : List ℕ → Option (List ℕ)
wait_controller [] = none
wait_controller (r ∷ rs) =
    let rest = wait_controller rs in if bit_and r 0x02 == 0 then some rs else rest

-- `reboot` up to its `hlt`.
unfoldable pub reboot : List ℕ → Power → Option (List ℕ × Power)
reboot readings s = elim (wait_controller readings) [
  | none ↦ none
  | some rest ↦ some (rest, outb 0x64 0xfe s)
]

slp_typ_zero : (byte : ℕ) → slp_typ byte ≡ 0
slp_typ_zero byte = omega arith

-- With the table of fixed hardware already found: `shutdown` behind its search returns, and writes
-- to one port at most. If there is a sleep object it writes the bit `SLP_EN` alone to the control
-- port a, whatever the two sleep types in the object are, and never to the port b.
pub shutdown_at-typeless :
    (f s5obj : ℕ) (s : Power)
    → s.fadt ≢ null
    → shutdown_at f s5obj s
      ≡ some
          (if is_aml (mem_of s) s5obj then outw (load32 (mem_of s) (s.fadt + 64)) (2 ^ 13) s else s)
unfolding shutdown_at acpi_get_fadt
shutdown_at-typeless f s5obj s found =
    let e : (s.fadt == null) ≡ false = ground arith in
    let mem = mem_of s in
    let p = s5obj + 5 in
    let a = skip_prefix mem (p + (bit_and (mem p) 0xc0 / 2 ^ 6 + 2)) in
    let b = skip_prefix mem (a + 1) in
    elim (Bool-cases (is_aml mem s5obj)) [
      | inl v ↦
          rw (shutdown_at, v, acpi_get_fadt, e, slp_typ_zero (mem a), slp_typ_zero (mem b)) refl
      | inr v ↦ rw (shutdown_at, v) refl
    ]
