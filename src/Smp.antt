-- ===== src/Smp.antt =====
-- kernel/tasks/smp.c: the start of the other CPUs by interprocessor interrupts, and the I/O APICs.
-- Words read from registers come from outside, and so does when a CPU sets `AP_STARTUP_SUCCESSFUL`.
pub mod Startup
use catch_os.Base.{
  ℕ, zero, suc, ◌+◌, ◌-◌, ◌%◌, ◌^◌, Option, none, some, List, [], ◌∷◌, Bool, false, ◌||◌, ◌==◌,
  if◌then◌else◌, ℤ, pos, negsuc,
}
use catch_os.KHeap.{KHeap, kmalloc}
use catch_os.Acpi.{Acpi, map_page, set_page_from_addr}
use catch_os.Acpi.Madt.{MadtInfo}
use catch_os.Drivers.Lapic.{lapic_send_init, lapic_send_startup, lapic_get_id}
use catch_os.Drivers.IoApic.{IoApic, ioapic_init, ioapic_redirect_external_int}
use catch_os.Drivers.Pic.{Pic, pic_uninit}
use catch_os.Interrupt.{irq_redir_base}

-- `struct _smpboot_trampoline_params`
pub record TrampolineParams : Type 0 where
  pub stackbase : ℕ
  pub idt : ℕ
  pub kernel_pd : ℕ
  pub lapic_base : ℕ

-- `AP_STARTUP_SUCCESSFUL` and how often it has been looked at, the heap, the parameters for the
-- next CPU, the readings of the command register, the words written to it, and the delays, the
-- latest first.
pub record Smp : Type 0 where
  pub ap_startup_successful : Bool
  pub looks : ℕ
  pub heap : KHeap
  pub params : TrampolineParams
  pub readings : List ℕ
  pub out : List (ℕ × ℕ)
  pub delays : List ℕ

-- What does not change: the tables' addresses, the entry of the trampoline, and whether the
-- trampoline of any CPU sets `AP_STARTUP_SUCCESSFUL` between a look at it, with the reset that may
-- follow, and the next look, by the number of looks before.
pub record Machine : Type 0 where
  pub idt : ℕ
  pub kernel_pd : ℕ
  pub trampoline_func : ℕ
  pub sets_flag : ℕ → Bool

unfoldable pub prepare_trampoline_params : Machine → ℕ → Smp → Smp
prepare_trampoline_params k local_apic_addr s =
    let (stack, heap) = kmalloc s.heap 4096 in
    record s {
      heap = heap;
      params = record {
        stackbase = (stack + 4096) % 2 ^ 32;
        idt = k.idt;
        kernel_pd = k.kernel_pd;
        lapic_base = local_apic_addr;
      };
    }

-- A command to the other CPU and the delay behind it, in milliseconds.
abbrev pub with_sent : ℕ → Smp → List ℕ × List (ℕ × ℕ) → Smp
with_sent ms s (readings, out) = record s { readings = readings; out = out; delays = ms ∷ s.delays }

unfoldable pub send_init : ℕ → ℕ → Smp → Option Smp
send_init base lapic_id s = elim (lapic_send_init base lapic_id s.readings s.out) [
  | none ↦ none
  | some sent ↦ some (with_sent 10 s sent)
]

unfoldable pub send_startup : Machine → ℕ → ℕ → ℕ → Smp → Option Smp
send_startup k base lapic_id ms s =
    elim (lapic_send_startup base lapic_id k.trampoline_func s.readings s.out) [
      | none ↦ none
      | some sent ↦ some (with_sent ms s sent)
    ]

-- The flag as the next look finds it.
abbrev pub look : Machine → Smp → Smp
look k s = record s {
  ap_startup_successful = s.ap_startup_successful || k.sets_flag s.looks;
  looks = s.looks + 1;
}

-- The end of a start that has found the flag set: it is reset for the next CPU.
abbrev pub success : Smp → ℤ × Smp
success s = (pos 0, record s { ap_startup_successful = false })

-- The second try.
abbrev pub try_again : Machine → ℕ → ℕ → Smp → Option (ℤ × Smp)
try_again k base lapic_id s = elim (send_startup k base lapic_id 1000 s) [
  | none ↦ none
  | some t ↦
      (let u = look k t in some (if u.ap_startup_successful then success u else (negsuc 0, u)))
]

abbrev pub try_first : Machine → ℕ → ℕ → Smp → Option (ℤ × Smp)
try_first k base lapic_id s = elim (send_startup k base lapic_id 1 s) [
  | none ↦ none
  | some t ↦
      (let u = look k t in
        if u.ap_startup_successful then some (success u) else try_again k base lapic_id u)
]

unfoldable pub start_ap : Machine → ℕ → ℕ → Smp → Option (ℤ × Smp)
start_ap k base lapic_id s = elim (send_init base lapic_id (prepare_trampoline_params k base s)) [
  | none ↦ none
  | some t ↦ try_first k base lapic_id t
]

-- The loop of `start_APs` from CPU `i` on, by the rounds left; the result of a start is not
-- looked at.
unfoldable pub start_aps : Machine → MadtInfo → ℕ → ℕ → Smp → Option Smp
start_aps k madt_info zero i s = some s
start_aps k madt_info (suc n) i s =
    let lapic_id = madt_info.local_apic_ids i in
    if lapic_id == 0
    then start_aps k madt_info n (i + 1) s
    else elim (start_ap k madt_info.local_apic_addr lapic_id s) [
      | none ↦ none
      | some (result, t) ↦ start_aps k madt_info n (i + 1) t
    ]

-- One I/O APIC: its page, and its initialisation with a reading of its version.
abbrev pub init_one : ℕ → ℕ → ℕ → ℕ → Acpi × IoApic → Option (Acpi × IoApic)
init_one f cpu reading addr (s, a) = elim (map_page addr s) [
  | none ↦ none
  | some t ↦ elim (ioapic_init f cpu addr reading a) [
    | none ↦ none
    | some b ↦ some (set_page_from_addr addr 1 t, b)
  ]
]

unfoldable pub init_each : ℕ → ℕ → ℕ → MadtInfo → ℕ → ℕ → Acpi × IoApic → Option (Acpi × IoApic)
init_each f cpu reading madt_info zero i s = some s
init_each f cpu reading madt_info (suc n) i s =
    elim (init_one f cpu reading (madt_info.io_apic_addrs i) s) [
      | none ↦ none
      | some t ↦ init_each f cpu reading madt_info n (i + 1) t
    ]

unfoldable pub init_io_apic :
    ℕ → ℕ → ℕ → MadtInfo → Pic → Acpi × IoApic → Option (ℤ × Pic × (Acpi × IoApic))
init_io_apic f cpu reading madt_info pic s =
    if madt_info.io_apic_count == 0
    then some (negsuc 0, pic, s)
    else elim (init_each f cpu reading madt_info madt_info.io_apic_count 0 s) [
      | none ↦ none
      | some t ↦ some (pos 0, pic_uninit pic, t)
    ]

abbrev pub smp_get_cpu_count : MadtInfo → ℕ
smp_get_cpu_count madt_info = madt_info.processor_count

-- By a reading of the register.
abbrev pub smp_get_cpu_id : ℕ → ℕ
smp_get_cpu_id reading = lapic_get_id reading

unfoldable pub smp_redirect_external_irq : ℕ → ℕ → MadtInfo → ℕ → ℕ → IoApic → Option IoApic
smp_redirect_external_irq f cpu madt_info irq dest_cpu s =
    if s.is_initialized
    then ioapic_redirect_external_int f cpu madt_info ((irq + 2 ^ 8 - irq_redir_base) % 2 ^ 8)
        dest_cpu s
    else some s
