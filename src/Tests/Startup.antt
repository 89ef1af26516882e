-- ===== src/Tests/Startup.antt =====
-- Three CPUs of which two have to be started, and a delay.
use catch_os.Base.{
  ◌+◌, ◌^◌, ◌≡◌, refl, arith, [], ◌∷◌, array, some, true, false, ltb, if◌then◌else◌,
}
use catch_os.Acpi.Madt.{MadtInfo}
use catch_os.Smp.{Smp, Machine, start_aps}
use catch_os.Smp.Startup.{commands_from, start_aps-sent}
use catch_os.Timer.{Timer, delay_bootstrap}
use catch_os.Timer.Delay.{delay_bootstrap-waits}
use catch_os.Tests.Firmware.{empty_info}

abbrev three_cpus : MadtInfo
three_cpus = record empty_info { processor_count = 3; local_apic_ids = array 0 (0 ∷ 1 ∷ 2 ∷ []) }

-- The first of them sets the flag after the second start-up interrupt, the other one never.
abbrev slow : Machine
slow = record {
  idt = 4096;
  kernel_pd = 8192;
  trampoline_func = 0x8000;
  sets_flag = array false (false ∷ true ∷ []);
}

abbrev booted : Smp
booted = record {
  ap_startup_successful = false;
  looks = 0;
  heap = record { mem = λ a. 0; heap_cur = 16384 };
  params = record { stackbase = 0; idt = 0; kernel_pd = 0; lapic_base = 0 };
  readings = 0 ∷ 0x1000 ∷ 0 ∷ 0 ∷ 0 ∷ 0 ∷ 0 ∷ [];
  out = [];
  delays = [];
}

start_aps-sent_example :
    (u : Smp) × (start_aps slow three_cpus 3 0 booted ≡ some u)
    × (u.out ≡ commands_from slow three_cpus 3 0 0 [])
    × (u.ap_startup_successful ≡ false)
start_aps-sent_example = start_aps-sent slow three_cpus 3 0 booted refl (omega arith)

-- 10 milliseconds at 1000 Hz, from tick 5 on.
delay_bootstrap-waits_example :
    let t : Timer = record { ticks = 5; freq = 1000; cpuno = 0; redirected = [] } in
    delay_bootstrap 11 10 t
    ≡ some (record t { ticks = if ltb (5 + 10) (2 ^ 32) then 5 + 10 else 5 })
delay_bootstrap-waits_example =
    delay_bootstrap-waits 11 10 (record { ticks = 5; freq = 1000; cpuno = 0; redirected = [] })
      (omega arith) (omega arith)
